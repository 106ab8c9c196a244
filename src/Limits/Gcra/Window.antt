-- ===== src/Limits/Gcra/Window.antt =====
-- Runs of checks of limits/gcra.py over any keys: what they keep, and the rate that they hold.
use ledger_proof.Base.{
  ℕ, ◌+◌, ◌-◌, ◌*◌, ◌≤◌, max, Bool, true, String, str_eq, Option, none, some, List, [], ◌∷◌, Every,
  ◌≡◌, refl, ap, subst, arith, Bool-cases, inl, inr, ltb,
}
use ledger_proof.Base.Float.{sub}
use ledger_proof.Limits.Gcra.{
  Decision, GcraLimiter, Raw, stamp, negative, not_a_number, infinite, corrupt, Cell, Store, write,
  Answers, clock, now_at, Checked, fail_open_decision, conform, read, with_raw, locked_check, check,
}
use ledger_proof.Limits.Gcra.Bound.{
  Range, Sound, raw_tat, cell_tat, kept, advanced, advance, admitted, check-Step, lock_cases,
  admitted_le,
}
use ledger_proof.Limits.Gcra.Expiry.{expires_late}

-- What a check leaves as it was.
pub record Settled (last : ℕ) (l : GcraLimiter) (r : Checked) : Type 0 where
  pub emission_interval : r.1.emission_interval ≡ l.emission_interval
  pub tolerance : r.1.tolerance ≡ l.tolerance
  pub sound : Sound last r.2

module _ (e last : ℕ) (l : GcraLimiter) (m : Store) (range : Range e last l)
    (sound : Sound last m) where
  unmoved :
      (d : Decision) (opened closed : ℕ)
      → Settled last l (d, record l { fail_open_count = opened; fail_closed_count = closed }, m)
  unmoved d opened closed = record { emission_interval = refl; tolerance = refl; sound = sound }

  open_settles : Settled last l (fail_open_decision l m)
  unfolding fail_open_decision
  open_settles = elim (Bool-cases l.fail_open) [
    | inl opens ↦ rw opens (record { emission_interval = refl; tolerance = refl; sound = sound })
    | inr closed ↦ rw closed (record { emission_interval = refl; tolerance = refl; sound = sound })
  ]

  -- A key that is written expires late enough.
  writes :
      (key : String) (v expires : ℕ)
      → ((t : ℕ × ℕ) → expires * 1000 ≤ clock t → now_at t ≤ last → v ≤ now_at t)
      → Sound last (write m key (some (record { raw = stamp v; expires_at = expires })))
  unfolding write
  writes key v expires outlives = record {
    cells = λ k c t. elim (Bool-cases (str_eq key k)) [
      | inl here ↦ rw here (λ held.
          let same : record { raw = stamp v; expires_at = expires } ≡ c = cc in
          subst
            (λ (x : Cell).
              x.expires_at * 1000 ≤ clock t → now_at t ≤ last → raw_tat x.raw ≤ now_at t)
            same (outlives t))
      | inr apart ↦ rw apart (sound.cells k c t)
    ];
  }

  conform_settles :
      (key : String) (set_fails : Bool) (t : ℕ × ℕ) (tat : ℕ)
      → now_at t ≤ last
      → Settled last l (conform l m key set_fails t tat)
  unfolding conform
  conform_settles key set_fails t tat late =
      elim (Bool-cases (ltb (now_at t) (sub tat l.tolerance))) [
        | inl soon ↦ rw soon (unmoved _ l.fail_open_count l.fail_closed_count)
        | inr due ↦ elim (Bool-cases set_fails) [
          | inl broken ↦ rw (due, broken) open_settles
          | inr written ↦
              let (_, top, _) = advance e last (now_at t) tat l range late due in
              rw (due, written)
                (record {
                  emission_interval = refl;
                  tolerance = refl;
                  sound = writes key _ _ (λ t' expired late'.
                      expires_late e last l t t' _ range late late' top expired);
                })
        ]
      ]

  module _ (drops : ℕ × ℕ → ℕ → Bool) (key : String) where
    raw_settles :
        (set_fails : Bool) (t : ℕ × ℕ) (r : Option Raw)
        → now_at t ≤ last
        → Settled last l (with_raw drops l m key set_fails t r)
    unfolding with_raw
    raw_settles set_fails t none late = conform_settles key set_fails t (now_at t) late
    raw_settles set_fails t (some (stamp tat)) late = conform_settles key set_fails t tat late
    raw_settles set_fails t (some negative) late = conform_settles key set_fails t 0 late
    raw_settles set_fails t (some not_a_number) late = conform_settles key set_fails t 0 late
    raw_settles set_fails t (some infinite) late = unmoved _ l.fail_open_count l.fail_closed_count
    raw_settles set_fails t (some corrupt) late = open_settles

    locked_settles :
        (a : Answers) (time : Option (ℕ × ℕ))
        → ((t : ℕ × ℕ) → time ≡ some t → now_at t ≤ last)
        → Settled last l (locked_check drops l m key a time)
    unfolding locked_check
    locked_settles a none timed = open_settles
    locked_settles a (some t) timed = elim (Bool-cases a.get_fails) [
      | inl broken ↦ rw broken open_settles
      | inr answered ↦ rw answered (raw_settles a.set_fails t (read drops m key t) (timed t refl))
    ]

    -- A check leaves the settings alone and the store sound.
    pub check_settles :
        (a : Answers)
        → ((t : ℕ × ℕ) → a.time ≡ some t → now_at t ≤ last)
        → Settled last l (check drops l m key a)
    unfolding check
    check_settles a timed = elim (lock_cases a.lock) [
      | inl won ↦ rw (won, check) (locked_settles a a.time timed)
      | inr lost ↦ elim lost [
        | inl busy ↦ rw (busy, check) (unmoved _ l.fail_open_count (l.fail_closed_count + 1))
        | inr broken ↦ rw (broken, check) open_settles
      ]
    ]

scale_le : (a b t : ℕ) → a ≤ b → a * t ≤ b * t
scale_le a b t h = grind arith

gap : (a b : ℕ) → a ≤ b → (d : ℕ) × (b ≡ a + d)
gap a b h = (b - a, omega arith)

kept_fuel :
    (v0 v1 u n total f0 f1 f2 t : ℕ)
    → v1 ≡ v0
    → f0 + n ≤ f1
    → v1 + (total + f1) * t ≤ max v1 u + f2 * t
    → v0 + (n + total + f0) * t ≤ max v0 u + f2 * t
kept_fuel v0 v1 u n total f0 f1 f2 t same opened later =
    omega (arith, scale_le (f0 + n) f1 t opened)

advanced_fuel :
    (v0 v1 u n total f0 f1 f2 t : ℕ)
    → n ≤ 1
    → f1 ≡ f0
    → v0 + t ≤ v1
    → v1 ≤ u
    → v1 + (total + f1) * t ≤ max v1 u + f2 * t
    → v0 + (n + total + f0) * t ≤ max v0 u + f2 * t
advanced_fuel v0 v1 u n total f0 f1 f2 t few same up low later =
    omega (arith, scale_le n 1 t few, ap (λ (x : ℕ). x * t) same)

settle_fuel :
    (first last v w n f0 f2 t : ℕ)
    → first ≤ last
    → f0 ≤ f2
    → max first v + (n + f0) * t ≤ max (max first v) (last + w) + f2 * t
    → n * t ≤ last - first + w + (f2 - f0) * t
settle_fuel first last v w n f0 f2 t window grows fuel =
    let (d, split) = gap f0 f2 grows in
    let less : f2 - f0 ≡ d = omega arith in rw less (omega (arith, ap (λ (x : ℕ). x * t) split))

-- `_now`, whenever Redis tells the time, is between `first` and `last`.
abbrev pub Within : ℕ → ℕ → String × Answers → Type 0
Within first last (key, a) = (t : ℕ × ℕ) → a.time ≡ some t → (first ≤ now_at t) × (now_at t ≤ last)

-- The least that an admission moves the TAT, and the farthest that one may leave it past `last`.
abbrev pub step_of : ℕ → GcraLimiter → ℕ
step_of e l = l.emission_interval - e

abbrev pub reach_of : ℕ → GcraLimiter → ℕ
reach_of e l = l.tolerance + l.emission_interval + 2 * e

module _ (drops : ℕ × ℕ → ℕ → Bool) where
  -- The limiter after checks of any keys, and how many requests for `key` they admit.
  abbrev pub limiter_after : GcraLimiter → Store → List (String × Answers) → GcraLimiter
  limiter_after l m [] = l
  limiter_after l m ((k, a) ∷ rest) = let r = check drops l m k a in limiter_after r.1 r.2 rest

  abbrev pub total_admitted : String → GcraLimiter → Store → List (String × Answers) → ℕ
  total_admitted key l m [] = 0
  total_admitted key l m ((k, a) ∷ rest) =
      let r = check drops l m k a in admitted key k r.0 + total_admitted key r.1 r.2 rest

  module _ (drops_late : (t : ℕ × ℕ) (x : ℕ) → drops t x ≡ true → x * 1000 ≤ clock t) (key : String)
      (first last e : ℕ) where
    fuelled :
        (l : GcraLimiter) (m : Store) (rounds : List (String × Answers))
        → Range e last l
        → Sound last m
        → Every (Within first last) rounds
        → let l' = limiter_after l m rounds in
          let total = total_admitted key l m rounds in
          let tat = max first (cell_tat (m key)) in
          (l.fail_open_count ≤ l'.fail_open_count)
          × (tat + (total + l.fail_open_count) * step_of e l
              ≤ max tat (last + reach_of e l) + l'.fail_open_count * step_of e l)
    fuelled l m [] range sound timed = (omega arith, omega arith)
    fuelled l m ((k, a) ∷ rest) range sound timed =
        let r = check drops l m k a in
        let settled = check_settles e last l m range sound drops k a (λ t is. (timed.0 t is).1) in
        let range' : Range e last r.1 = record {
          whole = range.whole;
          spaced = rw settled.emission_interval range.spaced;
          fine = range.fine;
          wide = rw (settled.emission_interval, settled.tolerance) range.wide;
        } in
        let (grows, late) = fuelled r.1 r.2 rest range' settled.sound timed.1 in
        let one = check-Step drops drops_late key k first last e l m range sound a timed.0 in
        let fuel = rw (settled.emission_interval, settled.tolerance) at late in
        elim one [
          | kept same opened ↦ (
            omega (arith, grows, opened),
            kept_fuel (max first (cell_tat (m key))) (max first (cell_tat (r.2 key)))
                (last + reach_of e l) (admitted key k r.0) (total_admitted key r.1 r.2 rest)
                l.fail_open_count r.1.fail_open_count (limiter_after r.1 r.2 rest).fail_open_count
                (step_of e l) (ap (λ (x : ℕ). max first x) same) opened fuel,
          )
          | advanced same up low ↦ (
            omega (arith, grows, same),
            advanced_fuel (max first (cell_tat (m key))) (max first (cell_tat (r.2 key)))
                (last + reach_of e l) (admitted key k r.0) (total_admitted key r.1 r.2 rest)
                l.fail_open_count r.1.fail_open_count (limiter_after r.1 r.2 rest).fail_open_count
                (step_of e l) (admitted_le key k first last e l m range r.0) same
                (omega (arith, up, range.spaced)) (omega (arith, up, low, range.spaced)) fuel,
          )
        ]

  -- Whatever checks of whatever keys are made and whatever Redis answers, if `_now` is between
  -- `first` and `last` at each check, then the requests admitted for a key, times the emission
  -- interval less e, are at most the length of that window plus the tolerance, one interval and 2
  -- e, plus one interval less e for each failure that was let through. Here e stands for the
  -- spacing of the floats in play: it is not 0, at most the interval and at most a twentieth of a
  -- second, and 2 ^ 52 e is at least eight times the sum of `last`, the tolerance and the
  -- interval. Redis drops no key before its expiry, and whenever Redis's clock has reached the
  -- expiry of a key that the store holds at the start, `_now`, if at most `last`, has reached its
  -- TAT.
  pub rate_bound :
      (drops_late : (t : ℕ × ℕ) (x : ℕ) → drops t x ≡ true → x * 1000 ≤ clock t) (key : String)
      (first last e : ℕ) (l : GcraLimiter) (m : Store) (rounds : List (String × Answers))
      → first ≤ last
      → Range e last l
      → Sound last m
      → Every (Within first last) rounds
      → total_admitted key l m rounds * (l.emission_interval - e)
        ≤ last
          - first
          + (l.tolerance + l.emission_interval + 2 * e)
          + ((limiter_after l m rounds).fail_open_count - l.fail_open_count)
            * (l.emission_interval - e)
  rate_bound drops_late key first last e l m rounds window range sound timed =
      let (grows, fuel) = fuelled drops_late key first last e l m rounds range sound timed in
      settle_fuel first last (cell_tat (m key)) (reach_of e l) (total_admitted key l m rounds)
        l.fail_open_count (limiter_after l m rounds).fail_open_count (step_of e l) window grows fuel
