-- ===== src/Limits/Gcra/Lock.antt =====
-- `_acquire` of limits/gcra.py: how its loop ends. Times are microseconds of the monotonic clock.
use ledger_proof.Base.{
  ℕ, zero, suc, ◌+◌, ◌*◌, ◌≤◌, false, Option, none, some, ◌≡◌, refl, arith, leb, if◌then◌else◌,
  leb→le, inl, inr, ◌⊎◌, Bool-cases, subst,
}
use ledger_proof.Limits.Gcra.{LockOutcome, acquired, lock_unavailable, lock_error}

abbrev pub lock_retry_delay : ℕ
lock_retry_delay = 2000

abbrev pub lock_acquire_timeout : ℕ
lock_acquire_timeout = 50000

-- What SET NX answers.
pub data SetAnswer : Type 0 where
  set_done held redis_error : SetAnswer

-- `answers n` is Redis's answer to try `n`, and `clock n` the clock read after it; `none` is a loop
-- that has run out of fuel.
unfoldable pub acquire_loop : ℕ → (ℕ → SetAnswer) → (ℕ → ℕ) → ℕ → ℕ → Option LockOutcome
acquire_loop zero answers clock deadline n = none
acquire_loop (suc fuel) answers clock deadline n =
    let rest = acquire_loop fuel answers clock deadline (n + 1) in
    elim (answers n) [
      | set_done ↦ some acquired
      | redis_error ↦ some lock_error
      | held ↦ if leb deadline (clock n) then some lock_unavailable else rest
    ]

unfoldable pub acquire : (ℕ → SetAnswer) → (ℕ → ℕ) → ℕ → Option LockOutcome
acquire answers clock start = acquire_loop 26 answers clock (start + lock_acquire_timeout) 0

-- How a loop that begins with try `n` ends.
pub data Ending (answers : ℕ → SetAnswer) (clock : ℕ → ℕ) (deadline n : ℕ)
    : LockOutcome → Type 0 where
  won : (k : ℕ) → n ≤ k → answers k ≡ set_done → Ending answers clock deadline n acquired
  broke : (k : ℕ) → n ≤ k → answers k ≡ redis_error → Ending answers clock deadline n lock_error
  gave_up :
      (k : ℕ)
      → n ≤ k
      → ((i : ℕ) → n ≤ i → i ≤ k → answers i ≡ held)
      → deadline ≤ clock k
      → Ending answers clock deadline n lock_unavailable

answer_cases : (a : SetAnswer) → (a ≡ set_done) ⊎ ((a ≡ redis_error) ⊎ (a ≡ held))
answer_cases set_done = inl refl
answer_cases redis_error = inr (inl refl)
answer_cases held = inr (inr refl)

module _ (answers : ℕ → SetAnswer) (clock : ℕ → ℕ)
    (sleeps : (n : ℕ) → clock n + lock_retry_delay ≤ clock (n + 1)) where
  later :
      (deadline n : ℕ) (o : LockOutcome)
      → answers n ≡ held
      → Ending answers clock deadline (n + 1) o
      → Ending answers clock deadline n o
  later deadline n o busy (won k at done) = won k (omega arith) done
  later deadline n o busy (broke k at done) = broke k (omega arith) done
  later deadline n o busy (gave_up k at all past) =
      gave_up k (omega arith)
        (λ i low high. elim (Bool-cases (leb (n + 1) i)) [
          | inl after ↦ all i (leb→le (n + 1) i after) high
          | inr here ↦
              let same : n ≡ i = ground arith in subst (λ (x : ℕ). answers x ≡ held) same busy
        ])
        past

  one_held : (n : ℕ) → answers n ≡ held → (i : ℕ) → n ≤ i → i ≤ n → answers i ≡ held
  one_held n busy i low high =
      let same : n ≡ i = omega arith in subst (λ (x : ℕ). answers x ≡ held) same busy

  -- The loop ends with try `n`, or goes on after it.
  one_try :
      (fuel deadline n : ℕ)
      → ((o : LockOutcome) × (acquire_loop (suc fuel) answers clock deadline n ≡ some o)
          × Ending answers clock deadline n o)
        ⊎ ((answers n ≡ held) × (leb deadline (clock n) ≡ false))
  unfolding acquire_loop
  one_try fuel deadline n = elim (answer_cases (answers n)) [
    | inl done ↦ inl (acquired, rw (done, acquire_loop) refl, won n (omega arith) done)
    | inr other ↦ elim other [
      | inl broken ↦ inl (lock_error, rw (broken, acquire_loop) refl, broke n (omega arith) broken)
      | inr busy ↦ elim (Bool-cases (leb deadline (clock n))) [
        | inl late ↦ inl (
          lock_unavailable,
          rw (busy, late, acquire_loop) refl,
          gave_up n (omega arith) (one_held n busy) (leb→le deadline (clock n) late),
        )
        | inr early ↦ inr (busy, early)
      ]
    ]
  ]

  loop_ends :
      (fuel deadline n : ℕ)
      → deadline ≤ clock n + fuel * lock_retry_delay
      → (o : LockOutcome) × (acquire_loop (suc fuel) answers clock deadline n ≡ some o)
        × Ending answers clock deadline n o
  unfolding acquire_loop
  loop_ends zero deadline n room = elim (one_try zero deadline n) [
    | inl ended ↦ ended
    | inr goes ↦ absurd (let early = goes.1 in ground arith)
  ]
  loop_ends (suc fuel) deadline n room = elim (one_try (suc fuel) deadline n) [
    | inl ended ↦ ended
    | inr goes ↦
        let (o, ends, how) = loop_ends fuel deadline (n + 1) (omega (arith, sleeps n)) in
        (o, rw (goes.0, goes.1, acquire_loop) ends, later deadline n o goes.0 how)
  ]

  -- If each sleep takes at least the retry delay, the loop that acquires the lock ends within 26
  -- tries: with the lock at a try that Redis granted, with the error of a try, or as unavailable,
  -- and then every try had found the lock held and the deadline had passed.
  pub acquire_ends :
      (start : ℕ)
      → start ≤ clock 0
      → (o : LockOutcome) × (acquire answers clock start ≡ some o)
        × Ending answers clock (start + lock_acquire_timeout) 0 o
  unfolding acquire
  acquire_ends start begun = loop_ends 25 (start + lock_acquire_timeout) 0 (omega arith)
