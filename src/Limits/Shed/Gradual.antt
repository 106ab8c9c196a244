-- ===== src/Limits/Shed/Gradual.antt =====
-- When limits/shed.py reaches the level that a lasting pressure calls for.
use ledger_proof.Base.{
  ℕ, zero, suc, ◌+◌, ◌*◌, ◌≤◌, ◌<◌, true, List, [], ◌∷◌, ◌≡◌, sym, subst, inl, inr, ◌⊎◌, arith,
  Bool-cases, lt→ltb, leb→le, le→leb, replicate, leb,
}
use ledger_proof.Limits.Shed.{LoadShedder, target_level, move, observe}

abbrev pub observe_all : LoadShedder → List ℕ → LoadShedder
observe_all s [] = s
observe_all s (p ∷ ps) = observe_all (observe s p) ps

lt_cases : (a b : ℕ) → (a < b) ⊎ ((a ≡ b) ⊎ (b < a))
lt_cases a b = ground arith

module _ (s : LoadShedder) (p : ℕ) (on : s.enabled ≡ true)
    (low : s.level < target_level s.thresholds p) where
  -- A hot sample, while the level is below the target: the count goes up, or the level does.
  hot_waits :
      s.hot + 1 < s.escalate_after
      → observe s p ≡ record s { pressure = p; hot = s.hot + 1; calm = 0 }
  unfolding observe move
  hot_waits room = rw (on, lt→ltb s.level (target_level s.thresholds p) low) (ground arith)

  hot_moves :
      s.escalate_after ≤ s.hot + 1
      → observe s p ≡ record s { pressure = p; level = s.level + 1; hot = 0; calm = 0 }
  unfolding observe move
  hot_moves full = rw (
    on,
    lt→ltb s.level (target_level s.thresholds p) low,
    le→leb s.escalate_after (s.hot + 1) full,
  )

mul-step : (a b e : ℕ) → a < b → a * e + e ≤ b * e
mul-step a b e h = grind arith

factor-lt : (a b e : ℕ) → a * e < b * e → a < b
factor-lt a b e h = grind arith

quotient_eq : (a b e h : ℕ) → h < e → a * e + h ≡ b * e → a ≡ b
quotient_eq a b e h room sum = elim (lt_cases a b) [
  | inl less ↦ absurd (omega (arith, mul-step a b e less))
  | inr other ↦ elim other [
    | inl same ↦ same
    | inr more ↦ absurd (omega (arith, mul-step b a e more))
  ]
]

-- An enabled shedder whose level is below the target of a pressure reaches that target when the
-- pressure lasts for the escalate_after samples that each missing tier takes, less those already
-- counted.
pub reaches_target :
    (n : ℕ) (s : LoadShedder) (p : ℕ)
    → s.enabled ≡ true
    → s.hot < s.escalate_after
    → s.level * s.escalate_after + s.hot + n ≡ target_level s.thresholds p * s.escalate_after
    → (observe_all s (replicate n p)).level ≡ target_level s.thresholds p
reaches_target zero s p on room sum =
    quotient_eq s.level (target_level s.thresholds p) s.escalate_after s.hot room (omega arith)
reaches_target (suc n) s p on room sum =
    let low = factor-lt s.level (target_level s.thresholds p) s.escalate_after (omega arith) in
    elim (Bool-cases (leb s.escalate_after (s.hot + 1))) [
      | inl full ↦
          let up = record s { pressure = p; level = s.level + 1; hot = 0; calm = 0 } in
          subst
            (λ (x : LoadShedder).
              (observe_all x (replicate n p)).level ≡ target_level s.thresholds p)
            (sym (hot_moves s p on low (leb→le s.escalate_after (s.hot + 1) full)))
            (reaches_target n up p on (omega arith)
              (omega (arith, leb→le s.escalate_after (s.hot + 1) full)))
      | inr waits ↦
          let up = record s { pressure = p; hot = s.hot + 1; calm = 0 } in
          let room' : s.hot + 1 < s.escalate_after = ground arith in
          subst
            (λ (x : LoadShedder).
              (observe_all x (replicate n p)).level ≡ target_level s.thresholds p)
            (sym (hot_waits s p on low room')) (reaches_target n up p on room' (omega arith))
    ]
