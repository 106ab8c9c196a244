-- ===== src/Limits/Gcra/Expiry.antt =====
-- That the keys of limits/gcra.py expire late enough: the rounded times against Redis's clock.
use ledger_proof.Base.{ℕ, ◌+◌, ◌-◌, ◌*◌, ◌/◌, ◌%◌, ◌≤◌, ◌<◌, ◌≡◌, refl, arith, inl, inr, subst, sym}
use native.Mathlib.Nat.{mod-add-div', mod-lt}
use ledger_proof.Base.Float.{one, rounded, sub, times, div, rounded-near, rounded-near_one}
use ledger_proof.Limits.Gcra.{GcraLimiter, clock, now_at, ttl_of, px_of}
use ledger_proof.Limits.Gcra.Bound.{Range}

million : times one 1000000 ≡ one * 1000000
unfolding rounded
million = refl

-- A quotient of microseconds by a million.
seconds_near :
    (u e : ℕ)
    → 1 ≤ e
    → 2 * div u (times one 1000000) ≤ e * 4503599627370496
    → (u ≤ (div u (times one 1000000) + e) * 1000000)
      × (div u (times one 1000000) * 1000000 ≤ u + e * 1000000)
seconds_near u e whole =
    subst
      (λ (d : ℕ).
        2 * div u d ≤ e * 4503599627370496
        → (u ≤ (div u d + e) * 1000000) × (div u d * 1000000 ≤ u + e * 1000000))
      (sym million)
      (λ range.
        let (up, down) = rounded-near (u * one) (one * 1000000) e (omega arith) whole (inl range) in
        (omega (arith, up), omega (arith, down)))

-- `_now` is the time of Redis's clock, but for four roundings.
pub now_at-near :
    (e last : ℕ) (t : ℕ × ℕ)
    → 1 ≤ e
    → 8 * last ≤ e * 4503599627370496
    → now_at t ≤ last
    → (clock t * one ≤ (now_at t + 4 * e) * 1000000)
      × (now_at t * 1000000 ≤ clock t * one + 4 * e * 1000000)
unfolding now_at
now_at-near e last (s, u) whole wide late =
    let a = times one s in
    let us = times one u in
    let b = div us (times one 1000000) in
    let (sum_up, sum_down) = rounded-near_one (a + b) e whole (inl (omega (arith, late, wide))) in
    let (a_up, a_down) =
      rounded-near_one (one * s) e whole (inl (omega (arith, sum_up, late, wide, whole))) in
    let (b_up, b_down) = seconds_near us e whole (omega (arith, sum_up, late, wide, whole)) in
    let (u_up, u_down) =
      rounded-near_one (one * u) (1000000 * e) (omega (arith, whole))
        (inl (omega (arith, b_down, sum_up, late, wide, whole))) in
    (omega (arith, sum_up, a_up, b_up, u_up), omega (arith, sum_down, a_down, b_down, u_down))

ttl_of-near :
    (e last now new_tat : ℕ) (l : GcraLimiter)
    → Range e last l
    → new_tat ≤ last + l.tolerance + l.emission_interval + 2 * e
    → (new_tat ≤ now + ttl_of l now new_tat + 2 * e) × (ttl_of l now new_tat ≤ e * 4503599627370496)
unfolding ttl_of
ttl_of-near e last now new_tat l range top =
    let ahead = sub new_tat now in
    let (up, down) =
      rounded-near_one (new_tat - now) e range.whole
        (inr (omega (arith, top, range.wide, range.whole))) in
    let (sum_up, sum_down) =
      rounded-near_one (ahead + l.tolerance) e range.whole
        (inr (omega (arith, down, top, range.wide, range.whole))) in
    (omega (arith, up, sum_up), omega (arith, sum_down, down, top, range.wide, range.whole))

px_of-near :
    (e ttl : ℕ)
    → 1 ≤ e
    → ttl ≤ e * 4503599627370496
    → 1000 * ttl + 999 * one ≤ (times ttl 1000 / one + 1000) * one + 1000 * e
px_of-near e ttl whole wide =
    let v = times ttl 1000 in
    let (up, _) =
      rounded-near_one (ttl * 1000) (1000 * e) (omega (arith, whole)) (inr (omega (arith, wide))) in
    let split = mod-add-div' v one in
    let part : v % one < one = mod-lt v (omega arith) in omega (arith, up, split, part)

-- When Redis's clock reaches the expiry that a check gives its key, `_now` has reached the TAT.
pub expires_late :
    (e last : ℕ) (l : GcraLimiter) (t t' : ℕ × ℕ) (new_tat : ℕ)
    → Range e last l
    → now_at t ≤ last
    → now_at t' ≤ last
    → new_tat ≤ last + l.tolerance + l.emission_interval + 2 * e
    → (clock t / 1000 + px_of l (now_at t) new_tat) * 1000 ≤ clock t'
    → new_tat ≤ now_at t'
unfolding px_of
expires_late e last l t t' new_tat range late late' top expired =
    let wide : 8 * last ≤ e * 4503599627370496 = omega (arith, range.wide) in
    let (_, then_) = now_at-near e last t range.whole wide late in
    let (now_, _) = now_at-near e last t' range.whole wide late' in
    let ttl = ttl_of l (now_at t) new_tat in
    let (ahead, most) = ttl_of-near e last (now_at t) new_tat l range top in
    let px = px_of-near e ttl range.whole most in
    let kept : clock t * one + times ttl 1000 / one * one * 1000 + 1000000 * one
        ≤ clock t' * one + 999 * one =
      omega (arith, expired) in
    omega (arith, then_, now_, ahead, px, kept, range.fine)
