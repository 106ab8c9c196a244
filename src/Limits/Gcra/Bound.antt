-- ===== src/Limits/Gcra/Bound.antt =====
-- How many requests limits/gcra.py admits for a key within a window of time.
use ledger_proof.Base.{
  ℕ, ◌+◌, ◌-◌, ◌*◌, ◌≤◌, max, Bool, true, false, String, str_eq, Option, none, some, ◌≡◌, refl, ap,
  arith, Bool-cases, Option-cases, inl, inr, ◌⊎◌, ltb, if◌then◌else◌, eq_refl, str_cases,
}
use ledger_proof.Base.Float.{one, add, sub, rounded-near_one}
use ledger_proof.Limits.Gcra.{
  Decision, GcraLimiter, Raw, stamp, negative, not_a_number, infinite, corrupt, Cell, Store, write,
  LockOutcome, acquired, lock_unavailable, lock_error, Answers, clock, now_at, Checked,
  fail_open_decision, conform, read, with_raw, locked_check, check,
}

-- The TAT that a key holds, live or expired; 0 where the value never denies or always does.
abbrev pub raw_tat : Raw → ℕ
raw_tat (stamp v) = v
raw_tat _ = 0

abbrev pub cell_tat : Option Cell → ℕ
cell_tat none = 0
cell_tat (some c) = raw_tat c.raw

-- The floats in play, for checks up to `last`, have a spacing of at most `e`, which is at most the
-- emission interval and a twentieth of a second: a bound on the times and on the limiter's settings.
pub record Range (e last : ℕ) (l : GcraLimiter) : Type 0 where
  pub whole : 1 ≤ e
  pub spaced : e ≤ l.emission_interval
  pub fine : 20 * e ≤ one
  pub wide : 8 * (last + l.tolerance + l.emission_interval) ≤ e * 4503599627370496

-- No key outlives its expiry by its TAT: when Redis's clock has reached the expiry, `_now` has reached
-- the TAT.
pub record Sound (last : ℕ) (m : Store) : Type 0 where
  pub cells :
      (key : String) (c : Cell) (t : ℕ × ℕ)
      → m key ≡ some c
      → c.expires_at * 1000 ≤ clock t
      → now_at t ≤ last
      → raw_tat c.raw ≤ now_at t

-- The requests of one kind of key that one check admits.
abbrev pub admitted : String → String → Decision → ℕ
admitted key other d = if str_eq other key then (if d.allowed then 1 else 0) else 0

-- What a check of `other`, at a time up to `last`, may do to the TAT of `key`.
pub data Step (key other : String) (first last e : ℕ) (l : GcraLimiter) (m : Store) (r : Checked)
    : Type 0 where
  kept :
      cell_tat (r.2 key) ≡ cell_tat (m key)
      → l.fail_open_count + admitted key other r.0 ≤ r.1.fail_open_count
      → Step key other first last e l m r
  advanced :
      r.1.fail_open_count ≡ l.fail_open_count
      → max first (cell_tat (m key)) + l.emission_interval ≤ cell_tat (r.2 key) + e
      → cell_tat (r.2 key) ≤ last + l.tolerance + l.emission_interval + 2 * e
      → Step key other first last e l m r

pub write_here : (m : Store) (key : String) (v : Option Cell) → write m key v key ≡ v
unfolding write
write_here m key v = rw (eq_refl key) refl

-- What an admitted check makes of the TAT: the interval later, but for rounding.
pub advance :
    (e last now tat : ℕ) (l : GcraLimiter)
    → Range e last l
    → now ≤ last
    → ltb now (sub tat l.tolerance) ≡ false
    → (max now tat + l.emission_interval ≤ add (max now tat) l.emission_interval + e)
      × (add (max now tat) l.emission_interval ≤ last + l.tolerance + l.emission_interval + 2 * e)
      × (max now tat ≤ last + l.tolerance + e)
advance e last now tat l range late due =
    let allowed : sub tat l.tolerance ≤ now = ground arith in
    let (near, _) =
      rounded-near_one (tat - l.tolerance) e range.whole
        (inl (omega (arith, allowed, late, range.wide))) in
    let top : max now tat ≤ last + l.tolerance + e = omega (arith, near, allowed, late) in
    let (low, high) =
      rounded-near_one (max now tat + l.emission_interval) e range.whole
        (inr (omega (arith, top, range.wide, range.whole))) in
    (low, omega (arith, high, top), top)

-- One conforming or throttled request, the TAT read being as good as the one that the key holds.
module _ (key other : String) (first last e : ℕ) (l : GcraLimiter) (m : Store)
    (range : Range e last l) where
  pub admitted_le : (d : Decision) → admitted key other d ≤ 1
  admitted_le d = ground arith

  fails_open : Step key other first last e l m (fail_open_decision l m)
  unfolding fail_open_decision
  fails_open = elim (Bool-cases l.fail_open) [
    | inl opens ↦ rw opens (kept refl (ground arith))
    | inr closed ↦ rw closed (kept refl (ground arith))
  ]

  module _ (set_fails : Bool) (t : ℕ × ℕ) (tat : ℕ) (early : first ≤ now_at t)
      (late : now_at t ≤ last)
      (same : max (now_at t) tat ≡ max (now_at t) (cell_tat (m other))) where
    conforms :
        (d : Decision) (expires : ℕ)
        → ltb (now_at t) (sub tat l.tolerance) ≡ false
        → Step key other first last e l m (
          d,
          l,
          write m other (
              some (record {
                raw = stamp (add (max (now_at t) tat) l.emission_interval);
                expires_at = expires;
              })),
        )
    unfolding write
    conforms d expires due = elim (str_cases other key) [
      | inl here ↦
          let there : cell_tat (m other) ≡ cell_tat (m key) =
            ap (λ (k : String). cell_tat (m k)) here in
          let (low, high, _) = advance e last (now_at t) tat l range late due in
          advanced refl (rw (here, eq_refl key) (omega (arith, same, there, early, low)))
            (rw (here, eq_refl key) high)
      | inr apart ↦ kept (rw apart refl) (rw apart (omega arith))
    ]

    pub conform-Step : Step key other first last e l m (conform l m other set_fails t tat)
    unfolding conform
    conform-Step = elim (Bool-cases (ltb (now_at t) (sub tat l.tolerance))) [
      | inl soon ↦ rw soon (kept refl (ground arith))
      | inr due ↦ elim (Bool-cases set_fails) [
        | inl broken ↦ rw (due, broken) fails_open
        | inr written ↦ rw (due, written) (conforms _ _ due)
      ]
    ]

pub lock_cases : (o : LockOutcome) → (o ≡ acquired) ⊎ ((o ≡ lock_unavailable) ⊎ (o ≡ lock_error))
lock_cases acquired = inl refl
lock_cases lock_unavailable = inr (inl refl)
lock_cases lock_error = inr (inr refl)

-- The TAT that a check works with.
abbrev effective : ℕ → Option Raw → ℕ
effective now none = now
effective now (some raw) = raw_tat raw

module _ (drops : ℕ × ℕ → ℕ → Bool)
    (drops_late : (t : ℕ × ℕ) (e : ℕ) → drops t e ≡ true → e * 1000 ≤ clock t) where
  read_fits :
      (last : ℕ) (m : Store) (key : String) (t : ℕ × ℕ)
      → Sound last m
      → now_at t ≤ last
      → max (now_at t) (effective (now_at t) (read drops m key t))
        ≡ max (now_at t) (cell_tat (m key))
  unfolding read
  read_fits last m key t sound late = elim (Option-cases (m key)) [
    | inl cold ↦ rw (cold, read) (omega arith)
    | inr there ↦
        let (c, found) = there in
        elim (Bool-cases (drops t c.expires_at)) [
          | inl gone ↦
              rw (found, gone, read)
                (omega (arith, sound.cells key c t found (drops_late t c.expires_at gone) late))
          | inr live ↦ rw (found, live, read) refl
        ]
  ]

  module _ (key other : String) (first last e : ℕ) (l : GcraLimiter) (m : Store)
      (range : Range e last l) (sound : Sound last m) where
    raw-Step :
        (set_fails : Bool) (t : ℕ × ℕ) (r : Option Raw)
        → first ≤ now_at t
        → now_at t ≤ last
        → max (now_at t) (effective (now_at t) r) ≡ max (now_at t) (cell_tat (m other))
        → Step key other first last e l m (with_raw drops l m other set_fails t r)
    unfolding with_raw
    raw-Step set_fails t none early late fits =
        conform-Step key other first last e l m range set_fails t (now_at t) early late fits
    raw-Step set_fails t (some (stamp tat)) early late fits =
        conform-Step key other first last e l m range set_fails t tat early late fits
    raw-Step set_fails t (some negative) early late fits =
        conform-Step key other first last e l m range set_fails t 0 early late fits
    raw-Step set_fails t (some not_a_number) early late fits =
        conform-Step key other first last e l m range set_fails t 0 early late fits
    raw-Step set_fails t (some infinite) early late fits = kept refl (ground arith)
    raw-Step set_fails t (some corrupt) early late fits =
        fails_open key other first last e l m range

    locked-Step :
        (a : Answers) (time : Option (ℕ × ℕ))
        → ((t : ℕ × ℕ) → time ≡ some t → (first ≤ now_at t) × (now_at t ≤ last))
        → Step key other first last e l m (locked_check drops l m other a time)
    unfolding locked_check
    locked-Step a none timed = fails_open key other first last e l m range
    locked-Step a (some t) timed = elim (Bool-cases a.get_fails) [
      | inl broken ↦ rw broken (fails_open key other first last e l m range)
      | inr answered ↦
          let (early, late) = timed t refl in
          rw answered (
            raw-Step a.set_fails t (read drops m other t) early late
              (read_fits last m other t sound late))
    ]

    pub check-Step :
        (a : Answers)
        → ((t : ℕ × ℕ) → a.time ≡ some t → (first ≤ now_at t) × (now_at t ≤ last))
        → Step key other first last e l m (check drops l m other a)
    unfolding check
    check-Step a timed = elim (lock_cases a.lock) [
      | inl won ↦ rw (won, check) (locked-Step a a.time timed)
      | inr lost ↦ elim lost [
        | inl busy ↦ rw (busy, check) (kept refl (ground arith))
        | inr broken ↦ rw (broken, check) (fails_open key other first last e l m range)
      ]
    ]
