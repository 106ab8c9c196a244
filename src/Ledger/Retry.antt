-- ===== src/Ledger/Retry.antt =====
-- The retry loop of ledger/post.py: it ends, it makes a bounded number of attempts, it gives up only
-- when they are used up, it sleeps a bounded time between them, and it keeps the ledger sound.
use ledger_proof.Base.{
  ℕ, zero, suc, ◌+◌, ◌<◌, ◌≤◌, max, true, some, List, [], ◌∷◌, ◌≡◌, refl, arith, inl, inr, leb,
  leb→le, length, Every, Bool-cases,
}
use ledger_proof.Ledger.Schema.{Db}
use ledger_proof.Ledger.Post.{
  LedgerTransaction, attempt, Env, Posting, is_serialization_failure, backoff_us, post_loop,
  post_transaction,
}
use ledger_proof.Ledger.Invariant.Safety.{Sound}
use ledger_proof.Ledger.History.{attempt-Sound}

-- What the world around a call is trusted with: other writers keep the ledger sound, and
-- `rng.random()` draws less than 1.
pub record Fair (env : Env) : Type 0 where
  pub others_sound : (k : ℕ) (db : Db) → Sound db → Sound (env.others k db)
  pub draws : (k : ℕ) → env.jitter k < 1000

-- What is promised of a call with `max_attempts`.
pub record Ended (max_attempts : ℕ) (p : Posting) : Type 0 where
  pub sound : Sound p.db
  pub attempts : length p.slept + 1 ≤ max 1 max_attempts
  pub exhausted : is_serialization_failure p.result ≡ true → max_attempts ≤ length p.slept + 1
  pub delays : Every (λ d. d < 3000000) p.slept

backoff_us_bound : (n draw : ℕ) → draw < 1000 → backoff_us n draw < 3000000
unfolding backoff_us
backoff_us_bound n draw h = grind arith

module _ (env : Env) (fair : Fair env) (max_attempts : ℕ) (t : LedgerTransaction) where
  post_loop-Ended :
      (fuel k : ℕ) (db : Db) (slept : List ℕ)
      → k ≡ length slept + 1
      → Sound db
      → max_attempts < fuel + length slept
      → length slept + 1 ≤ max 1 max_attempts
      → Every (λ d. d < 3000000) slept
      → (p : Posting) × (post_loop fuel env max_attempts k t db slept ≡ some p)
        × Ended max_attempts p
  unfolding post_loop
  post_loop-Ended zero k db slept e s f n d = absurd (omega arith)
  post_loop-Ended (suc fuel) k db slept e s f n d =
      let before = env.others k db in
      let now = attempt (env.conflict k) before t in
      let after = attempt-Sound (env.conflict k) before t (fair.others_sound k db s) in
      elim (Bool-cases (is_serialization_failure now.0)) [
        | inl failed ↦ elim (Bool-cases (leb max_attempts k)) [
          | inl last ↦ (
            record { result = now.0; db = now.1; slept = slept },
            rw (failed, last),
            record {
              sound = after;
              attempts = n;
              exhausted = λ _. omega (arith, leb→le max_attempts k last);
              delays = d;
            },
          )
          | inr more ↦
              rw (failed, more)
                (post_loop-Ended fuel (k + 1) now.1 (backoff_us k (env.jitter k) ∷ slept)
                  (omega arith) after (omega arith) (ground arith)
                  (backoff_us_bound k (env.jitter k) (fair.draws k), d))
        ]
        | inr settled ↦ (
          record { result = now.0; db = now.1; slept = slept },
          rw settled,
          record { sound = after; attempts = n; exhausted = λ x. cc; delays = d },
        )
      ]

-- In a sound ledger, where the other writers keep it sound and the jitter drawn is below 1, a
-- call ends: it makes at most max_attempts attempts (one, if that is 0), reports a serialization
-- failure only when it has made them all, sleeps less than 3 s before each retry, and leaves the
-- ledger sound.
pub post_transaction-Ended :
    (env : Env) (max_attempts : ℕ) (t : LedgerTransaction) (db : Db)
    → Fair env
    → Sound db
    → (p : Posting) × (post_transaction env max_attempts t db ≡ some p) × Ended max_attempts p
unfolding post_transaction
post_transaction-Ended env max_attempts t db fair s =
    post_loop-Ended env fair max_attempts t (max_attempts + 1) 1 db [] refl s (omega arith)
      (omega arith) tt
