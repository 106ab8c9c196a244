-- ===== src/Limits/Shed/Streaks.antt =====
-- The level of limits/shed.py against a description that keeps every sample since the level moved.
use ledger_proof.Base.{
  ℕ, zero, suc, ◌+◌, ◌-◌, Bool, true, false, ◌&&◌, List, [], ◌∷◌, ◌≡◌, refl, sym, subst, ap, ◌∙◌,
  inl, inr, arith, Bool-cases, ltb, leb, if◌then◌else◌,
}
use ledger_proof.Limits.Shed.{Tier, LoadShedder, target_level, move, observe}
use ledger_proof.Limits.Shed.Gradual.{observe_all}

-- Where a sample's target stands to the level.
pub data Side : Type 0 where
  above below at_level : Side

abbrev pub stands : ℕ → ℕ → Side
stands level target =
    if ltb level target then above else if ltb target level then below else at_level

abbrev same_side : Side → Side → Bool
same_side above above = true
same_side below below = true
same_side at_level at_level = true
same_side _ _ = false

-- The level, and the samples since it last moved, the newest first.
pub record History : Type 0 where
  pub level : ℕ
  pub recent : List Side

-- Whether the `n` newest samples are all on one side.
abbrev streak : ℕ → Side → List Side → Bool
streak zero d w = true
streak (suc n) d [] = false
streak (suc n) d (x ∷ w) = same_side x d && streak n d w

-- The level moves when the newest samples, as many as it takes, all call for the same move.
abbrev moved_by : ℕ → ℕ → Side → History → History
moved_by escalate_after recover_after above h =
    if streak escalate_after above (above ∷ h.recent)
    then record { level = h.level + 1; recent = [] }
    else record h { recent = above ∷ h.recent }
moved_by escalate_after recover_after below h =
    if streak recover_after below (below ∷ h.recent)
    then record { level = h.level - 1; recent = [] }
    else record h { recent = below ∷ h.recent }
moved_by escalate_after recover_after at_level h = record h { recent = at_level ∷ h.recent }

abbrev pub replay : (Tier → ℕ) → ℕ → ℕ → History → List ℕ → History
replay thresholds escalate_after recover_after h [] = h
replay thresholds escalate_after recover_after h (p ∷ ps) =
    replay thresholds escalate_after recover_after
      (moved_by escalate_after recover_after (stands h.level (target_level thresholds p)) h) ps

-- How many of the newest samples are on one side.
abbrev leading : Side → List Side → ℕ
leading d [] = 0
leading d (x ∷ w) = if same_side x d then leading d w + 1 else 0

streak-leading : (n : ℕ) (d : Side) (w : List Side) → streak n d w ≡ leb n (leading d w)
streak-leading zero d w = ground arith
streak-leading (suc n) d [] = ground arith
streak-leading (suc n) d (x ∷ w) = elim (Bool-cases (same_side x d)) [
  | inl same ↦ rw same (ground (arith, streak-leading n d w))
  | inr other ↦ rw other (ground arith)
]

module _ (thresholds : Tier → ℕ) (e r : ℕ) where
  -- The counters count what the history holds.
  record Counts (s : LoadShedder) (h : History) : Type 0 where
    enabled : s.enabled ≡ true
    thresholds_of : s.thresholds ≡ thresholds
    escalates : s.escalate_after ≡ e
    recovers : s.recover_after ≡ r
    level : s.level ≡ h.level
    hot : s.hot ≡ leading above h.recent
    calm : s.calm ≡ leading below h.recent

  module _ (s : LoadShedder) (target : ℕ) (h : History) (c : Counts s h) where
    hot_rule : streak e above (above ∷ h.recent) ≡ leb s.escalate_after (s.hot + 1)
    hot_rule =
        streak-leading e above (above ∷ h.recent)
        ∙ ap (λ (n : ℕ). leb e (n + 1)) (sym c.hot)
        ∙ ap (λ (n : ℕ). leb n (s.hot + 1)) (sym c.escalates)

    calm_rule : streak r below (below ∷ h.recent) ≡ leb s.recover_after (s.calm + 1)
    calm_rule =
        streak-leading r below (below ∷ h.recent)
        ∙ ap (λ (n : ℕ). leb r (n + 1)) (sym c.calm)
        ∙ ap (λ (n : ℕ). leb n (s.calm + 1)) (sym c.recovers)

    with_counters :
        (level hot calm : ℕ) (w : List Side)
        → hot ≡ leading above w
        → calm ≡ leading below w
        → Counts
            (record s { level = level; hot = hot; calm = calm })
            (record { level = level; recent = w })
    with_counters level hot calm w up down = record {
      enabled = c.enabled;
      thresholds_of = c.thresholds_of;
      escalates = c.escalates;
      recovers = c.recovers;
      level = refl;
      hot = up;
      calm = down;
    }

    move-Counts :
        Counts (move s target) (moved_by e r (stands s.level target) (record h { level = s.level }))
    unfolding move
    move-Counts = elim (Bool-cases (ltb s.level target)) [
      | inl up ↦ elim (Bool-cases (leb s.escalate_after (s.hot + 1))) [
        | inl full ↦ rw (up, hot_rule, full) (with_counters (s.level + 1) 0 0 [] refl refl)
        | inr waits ↦
            rw (up, hot_rule, waits)
              (with_counters s.level (s.hot + 1) 0 (above ∷ h.recent) (ap (λ (n : ℕ). n + 1) c.hot)
                refl)
      ]
      | inr not_up ↦ elim (Bool-cases (ltb target s.level)) [
        | inl down ↦ elim (Bool-cases (leb s.recover_after (s.calm + 1))) [
          | inl full ↦
              rw (not_up, down, calm_rule, full) (with_counters (s.level - 1) 0 0 [] refl refl)
          | inr waits ↦
              rw (not_up, down, calm_rule, waits)
                (with_counters s.level 0 (s.calm + 1) (below ∷ h.recent) refl
                  (ap (λ (n : ℕ). n + 1) c.calm))
        ]
        | inr level ↦ rw (not_up, level) (with_counters s.level 0 0 (at_level ∷ h.recent) refl refl)
      ]
    ]

  observe-Counts :
      (s : LoadShedder) (p : ℕ) (h : History)
      → Counts s h
      → Counts (observe s p) (moved_by e r (stands h.level (target_level thresholds p)) h)
  unfolding observe
  observe-Counts s p h c =
      let t = record s { pressure = p } in
      let ct : Counts t h = record {
        enabled = c.enabled;
        thresholds_of = c.thresholds_of;
        escalates = c.escalates;
        recovers = c.recovers;
        level = c.level;
        hot = c.hot;
        calm = c.calm;
      } in
      let moves : observe s p ≡ move t (target_level s.thresholds p) =
        rw (c.enabled, observe) refl in
      subst
        (λ (x : LoadShedder).
          Counts x (moved_by e r (stands h.level (target_level thresholds p)) h))
        (sym moves)
        (subst
          (λ (f : Tier → ℕ).
            Counts (move t (target_level s.thresholds p))
              (moved_by e r (stands h.level (target_level f p)) h))
          c.thresholds_of
          (subst
            (λ (n : ℕ).
              Counts (move t (target_level s.thresholds p))
                (moved_by e r (stands n (target_level s.thresholds p)) (record h { level = n })))
            c.level (move-Counts t (target_level s.thresholds p) h ct)))

  replay-Counts :
      (s : LoadShedder) (ps : List ℕ) (h : History)
      → Counts s h
      → (observe_all s ps).level ≡ (replay thresholds e r h ps).level
  replay-Counts s [] h c = c.level
  replay-Counts s (p ∷ ps) h c =
      replay-Counts (observe s p) ps (moved_by e r (stands h.level (target_level thresholds p)) h)
        (observe-Counts s p h c)

-- Over any sequence of pressure samples, an enabled shedder with no sample counted yet goes
-- through the levels of a description that keeps the samples since the level last moved: the
-- level rises by one exactly when the newest escalate_after of them all have a target above it,
-- and falls by one exactly when the newest recover_after of them all have a target below it.
pub levels_by_streaks :
    (s : LoadShedder) (ps : List ℕ)
    → s.enabled ≡ true
    → s.hot ≡ 0
    → s.calm ≡ 0
    → (observe_all s ps).level
      ≡ (replay s.thresholds s.escalate_after s.recover_after
          (record { level = s.level; recent = [] })
          ps).level
levels_by_streaks s ps on hot calm =
    replay-Counts s.thresholds s.escalate_after s.recover_after s ps
      (record { level = s.level; recent = [] })
      (record {
        enabled = on;
        thresholds_of = refl;
        escalates = refl;
        recovers = refl;
        level = refl;
        hot = hot;
        calm = calm;
      })
