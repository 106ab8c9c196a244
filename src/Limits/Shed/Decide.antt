-- ===== src/Limits/Shed/Decide.antt =====
-- Which requests limits/shed.py sheds, in each mode, over any sequence of its operations.
use ledger_proof.Base.{
  ℕ, ◌<◌, Bool, true, false, ◌≡◌, refl, List, [], ◌∷◌, ◌↔◌, ◌≢◌, arith, Bool-cases, ltb→lt, lt→ltb,
  ltb, sym, subst, ◌∙◌, ap, &&-split, Every, inl, inr,
}
use ledger_proof.Limits.Shed.{
  Tier, rank, LoadShedder, would_shed, dark_launch_allowed, shed, allowed, Counts, count, disable,
  enable, observe, should_shed, move,
}

-- A request is shed when the shedder is on and enforces, and the request's tier lies below the level.
pub should_shed_iff :
    (s : LoadShedder) (t : Tier)
    → (should_shed s t).0.shed ≡ true ↔ (s.enabled ≡ true) × (s.enforce ≡ true) × (rank t < s.level)
unfolding should_shed
should_shed_iff s t = elim (Bool-cases s.enabled) [
  | inl on ↦ rw on (
    λ h.
        let (deep, real) = &&-split (ltb (rank t) s.level) s.enforce h in
        (refl, real, ltb→lt (rank t) s.level deep),
    λ h. rw (lt→ltb (rank t) s.level h.2, h.1) refl,
  )
  | inr off ↦ rw off (λ h. cc, λ h. cc)
]

-- The shedder's operations, as a caller may issue them.
pub data Op : Type 0 where
  sample : ℕ → Op
  request : Tier → Op
  kill revive : Op

unfoldable pub step : LoadShedder → Op → LoadShedder
step s (sample p) = observe s p
step s (request t) = (should_shed s t).1
step s kill = disable s
step s revive = enable s

-- Whether the operation is a request that is shed.
unfoldable pub sheds : LoadShedder → Op → Bool
sheds s (request t) = (should_shed s t).0.shed
sheds s _ = false

abbrev pub steps : LoadShedder → List Op → LoadShedder
steps s [] = s
steps s (o ∷ os) = steps (step s o) os

abbrev pub verdicts : LoadShedder → List Op → List Bool
verdicts s [] = []
verdicts s (o ∷ os) = sheds s o ∷ verdicts (step s o) os

-- The counters of a live shedder and of its shadow, which has enforcement off: what the shadow let
-- through is what the live one shed.
abbrev pub Mirrors : Counts → Counts → Type 0
Mirrors shadow live =
    (t : Tier)
    → (shadow would_shed t ≡ live would_shed t)
      × (shadow allowed t ≡ live allowed t)
      × (shadow dark_launch_allowed t ≡ live shed t)

-- The live shedder with the state of `shadow`, apart from its counters.
abbrev pub live_of : LoadShedder → Counts → LoadShedder
live_of shadow c = record shadow { enforce = true; counts = c }

observe-live :
    (d : LoadShedder) (c : Counts) (p : ℕ) → observe (live_of d c) p ≡ live_of (observe d p) c
unfolding observe move
observe-live d c p = ground arith

observe-enforce :
    (d : LoadShedder) (p : ℕ)
    → ((observe d p).enforce ≡ d.enforce) × ((observe d p).counts ≡ d.counts)
unfolding observe move
observe-enforce d p = (ground arith, ground arith)

count-Mirrors :
    (d c : Counts) (t : Tier)
    → Mirrors d c
    → Mirrors
        (count dark_launch_allowed t (count would_shed t d))
        (count shed t (count would_shed t c))
      × Mirrors (count allowed t d) (count allowed t c)
unfolding count
count-Mirrors d c t same = (
  λ u. (ground (arith, (same u).0), ground (arith, (same u).1), ground (arith, (same u).2)),
  λ u. (ground (arith, (same u).0), ground (arith, (same u).1), ground (arith, (same u).2)),
)

check-live :
    (d : LoadShedder) (c : Counts) (t : Tier)
    → d.enforce ≡ false
    → Mirrors d.counts c
    → (c' : Counts) × ((should_shed (live_of d c) t).1 ≡ live_of (should_shed d t).1 c')
      × Mirrors (should_shed d t).1.counts c'
      × ((should_shed d t).1.enforce ≡ false)
unfolding should_shed
check-live d c t dark same = elim (Bool-cases d.enabled) [
  | inl on ↦ elim (Bool-cases (ltb (rank t) d.level)) [
    | inl deep ↦ (
      count shed t (count would_shed t c),
      rw (on, deep) refl,
      rw (on, deep, dark) (count-Mirrors d.counts c t same).0,
      rw on dark,
    )
    | inr fine ↦ (
      count allowed t c,
      rw (on, fine) refl,
      rw (on, fine) (count-Mirrors d.counts c t same).1,
      rw on dark,
    )
  ]
  | inr off ↦ (c, rw off refl, rw off same, rw off dark)
]

step-live :
    (d : LoadShedder) (c : Counts) (o : Op)
    → d.enforce ≡ false
    → Mirrors d.counts c
    → (c' : Counts) × (step (live_of d c) o ≡ live_of (step d o) c')
      × Mirrors (step d o).counts c'
      × ((step d o).enforce ≡ false)
unfolding step disable enable
step-live d c (sample p) dark same = (
  c,
  observe-live d c p,
  subst (λ (x : Counts). Mirrors x c) (sym (observe-enforce d p).1) same,
  (observe-enforce d p).0 ∙ dark,
)
step-live d c (request t) dark same = check-live d c t dark same
step-live d c kill dark same = (c, refl, same, dark)
step-live d c revive dark same = (c, refl, same, dark)

dark_sheds_nothing : (d : LoadShedder) (o : Op) → d.enforce ≡ false → sheds d o ≡ false
unfolding sheds should_shed
dark_sheds_nothing d (sample p) dark = refl
dark_sheds_nothing d (request t) dark = ground arith
dark_sheds_nothing d kill dark = refl
dark_sheds_nothing d revive dark = refl

-- A shedder with enforcement off sheds nothing over any sequence of samples, requests and kill
-- switches, and goes through the same states as the one with enforcement on: its counters agree
-- with that one's, and what it counts as let through is what that one counts as shed.
pub dark_launch-Mirrors :
    (d : LoadShedder) (c : Counts) (os : List Op)
    → d.enforce ≡ false
    → Mirrors d.counts c
    → Every (λ (v : Bool). v ≡ false) (verdicts d os)
      × ((c' : Counts) × (steps (live_of d c) os ≡ live_of (steps d os) c')
          × Mirrors (steps d os).counts c')
dark_launch-Mirrors d c [] dark same = (tt, (c, refl, same))
dark_launch-Mirrors d c (o ∷ os) dark same =
    let (c1, one, same1, dark1) = step-live d c o dark same in
    let (quiet, (c', rest, same')) = dark_launch-Mirrors (step d o) c1 os dark1 same1 in
    (
      (dark_sheds_nothing d o dark, quiet),
      (c', ap (λ (x : LoadShedder). steps x os) one ∙ rest, same'),
    )

killed_step :
    (s : LoadShedder) (o : Op)
    → s.enabled ≡ false
    → o ≢ revive
    → (sheds s o ≡ false)
      × ((step s o).counts ≡ s.counts)
      × ((step s o).enabled ≡ false)
      × (s.level ≡ 0 → (step s o).level ≡ 0)
unfolding step sheds should_shed observe disable
killed_step s (sample p) off stays = (refl, rw off refl, rw off refl, rw off (λ z. z))
killed_step s (request t) off stays = (rw off refl, rw off refl, rw off refl, rw off (λ z. z))
killed_step s kill off stays = (refl, refl, refl, λ z. refl)
killed_step s revive off stays = absurd (stays refl)

-- While the kill switch is on, and until it is lifted, no request is shed, no counter moves, and
-- a level of 0 stays 0 whatever the pressure.
pub killed_is_inert :
    (s : LoadShedder) (os : List Op)
    → s.enabled ≡ false
    → Every (λ (o : Op). o ≢ revive) os
    → Every (λ (v : Bool). v ≡ false) (verdicts s os)
      × ((steps s os).counts ≡ s.counts)
      × (s.level ≡ 0 → (steps s os).level ≡ 0)
killed_is_inert s [] off kept = (tt, refl, λ z. z)
killed_is_inert s (o ∷ os) off kept =
    let (calm, same, off', low) = killed_step s o off kept.0 in
    let (quiet, same', low') = killed_is_inert (step s o) os off' kept.1 in
    ((calm, quiet), same' ∙ same, λ z. low' (low z))
