-- ===== src/Ledger/Replay.antt =====
-- Idempotency of ledger/post.py: the unique constraints of `transactions` make a second posting of
-- one money movement impossible, by whichever of its three keys it comes back.
use ledger_proof.Base.{
  String, true, ◌&&◌, Option, none, some, List, [], ◌∷◌, ◌++◌, ◌≡◌, ◌≢◌, ap, subst, ◌∙◌, ◌⊎◌, inl,
  inr, arith, ◌==◌, any-middle, sql_eq, eq_refl, append_assoc, ok,
}
use ledger_proof.Ledger.Schema.{TransactionRow, Db, collision}
use ledger_proof.Ledger.Post.{LedgerTransaction, posted, transaction_row, Conflict, attempt}
use ledger_proof.Ledger.Post.Effects.{Went}
use ledger_proof.Ledger.History.{Extends, attempt_cases, run_attempts, history_appends}

-- Two transactions that the database may not both hold: the same id, the same Stripe event, or the
-- same kind of event about the same object. A key that is NULL is like no other.
pub data SameMovement (t u : LedgerTransaction) : Type 0 where
  by_id : t.id ≡ u.id → SameMovement t u
  by_event :
      (e : String) → t.stripe_event_id ≡ some e → u.stripe_event_id ≡ some e → SameMovement t u
  by_object :
      (k o : String)
      → t.event_type ≡ some k
      → u.event_type ≡ some k
      → t.stripe_object_id ≡ some o
      → u.stripe_object_id ≡ some o
      → SameMovement t u

sql_eq-same : (o p : Option String) (s : String) → o ≡ some s → p ≡ some s → sql_eq o p ≡ true
sql_eq-same o p s a b = rw (a, b) (eq_refl s)

collides :
    (pre post : List TransactionRow) (t u : LedgerTransaction)
    → SameMovement t u
    → collision (pre ++ transaction_row t ∷ post) (transaction_row u) ≢ none
unfolding collision
collides pre post t u (by_id e) =
    rw
      (any-middle (λ (r : TransactionRow). r.id == u.id) pre (transaction_row t) post
        (ground arith))
      (λ x. cc)
collides pre post t u (by_event e a b) =
    rw
      (any-middle (λ (r : TransactionRow). sql_eq r.stripe_event_id u.stripe_event_id) pre
        (transaction_row t) post (sql_eq-same t.stripe_event_id u.stripe_event_id e a b))
      (λ x. ground arith)
collides pre post t u (by_object k o a b c d) =
    rw
      (any-middle
        (λ (r : TransactionRow).
          sql_eq r.event_type u.event_type && sql_eq r.stripe_object_id u.stripe_object_id)
        pre (transaction_row t) post
        (rw (
          sql_eq-same t.event_type u.event_type k a b,
          sql_eq-same t.stripe_object_id u.stripe_object_id o c d,
        )))
      (λ x. ground arith)

-- The row that an attempt left is found in every later state of the ledger.
row_stays :
    (db db1 db2 : Db) (t : LedgerTransaction)
    → Went db t db1
    → Extends db1 db2
    → (post : List TransactionRow) × (db2.transactions
        ≡ db.transactions ++ transaction_row t ∷ post)
row_stays db db1 db2 t went later =
    let (post, more) = later.more_transactions in
    (
      post,
      more
          ∙ ap (λ (d : Db). d.transactions ++ post) went.result
          ∙ append_assoc db.transactions (transaction_row t ∷ []) post,
    )

-- Once a transaction has been posted, then, whatever other attempts come in between, no attempt
-- to post the same movement again (same id, same Stripe event, or same kind of event about the
-- same object) succeeds or changes the database.
pub posted_once :
    (db : Db) (c d : Conflict) (t u : LedgerTransaction)
    (history : List (Conflict × LedgerTransaction))
    → (attempt c db t).0 ≡ ok posted
    → SameMovement t u
    → let later = run_attempts history (attempt c db t).1 in
      ((attempt d later u).1 ≡ later) × ((attempt d later u).0 ≢ ok posted)
posted_once db c d t u history first same =
    elim (attempt_cases d (run_attempts history (attempt c db t).1) u) [
      | inl refused ↦ refused
      | inr (went, _) ↦ absurd (again (attempt_cases c db t) went.fresh)
    ]
  where
    again :
        ((attempt c db t).1 ≡ db) × ((attempt c db t).0 ≢ ok posted)
          ⊎ Went db t (attempt c db t).1 × ((attempt c db t).0 ≡ ok posted)
        → collision (run_attempts history (attempt c db t).1).transactions (transaction_row u)
          ≡ none
        → ⊥
    again (inl (_, refused)) fresh = refused first
    again (inr (went, _)) fresh =
        let later = run_attempts history (attempt c db t).1 in
        let (post, found) =
          row_stays db (attempt c db t).1 later t went
            (history_appends history (attempt c db t).1) in
        collides db.transactions post t u same
          (subst (λ (l : List TransactionRow). collision l (transaction_row u) ≡ none) found fresh)
