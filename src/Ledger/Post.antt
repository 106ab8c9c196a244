-- ===== src/Ledger/Post.antt =====
-- ledgerproof/ledger/post.py: one transaction and its entries, posted atomically, with retries on
-- serialization failure. What the other writers of the database do is a parameter: where an attempt
-- meets a conflict, what they commit before an attempt, and the jitter that is drawn.
pub mod Effects
use ledger_proof.Base.{
  ℕ, zero, suc, ◌+◌, ◌*◌, ◌-◌, ◌^◌, min, String, Bool, true, false, Option, none, some, List, [],
  ◌∷◌, leb, if◌then◌else◌, Result, ok, err, ◌>>=◌, ◌>>◌, str_eq,
}
use ledger_proof.Base.Int.{ℤ}
use ledger_proof.Base.Dict.{Dict, lookup, insert}
use ledger_proof.Ledger.Schema.{
  Direction, Account, TransactionRow, EntryRow, Db, Constraint, transactions_pkey, dedupe_event,
  dedupe_object, Error, unknown_account, key_error, serialization_failure, unique_violation,
  insert_transaction, insert_entry, commit,
}

pub record Entry : Type 0 where
  pub account_name : String
  pub dir : Direction
  pub amount_minor : ℤ
  pub currency : String

pub record LedgerTransaction : Type 0 where
  pub id : ℕ
  pub occurred_at : ℤ
  pub entries : List Entry
  pub stripe_event_id : Option String
  pub stripe_object_id : Option String
  pub event_type : Option String
  pub memo : Option String

pub data PostOutcome : Type 0 where
  posted duplicate : PostOutcome

-- SELECT id FROM accounts WHERE name = %s
unfoldable pub account_id : List Account → String → Option ℕ
account_id [] n = none
account_id (a ∷ as') n = if str_eq a.name n then some a.id else account_id as' n

-- The loop that fills `account_ids`, one SELECT for each new name.
unfoldable pub resolve : List Account → List Entry → Dict ℕ → Result Error (Dict ℕ)
unfolding account_id lookup insert
resolve accts [] ids = ok ids
resolve accts (e ∷ es) ids = elim (lookup e.account_name ids) [
  | some i ↦ resolve accts es ids
  | none ↦ elim (account_id accts e.account_name) [
    | none ↦ err (unknown_account e.account_name)
    | some i ↦ resolve accts es (insert e.account_name i ids)
  ]
]

abbrev pub transaction_row : LedgerTransaction → TransactionRow
transaction_row t = record {
  id = t.id;
  stripe_event_id = t.stripe_event_id;
  stripe_object_id = t.stripe_object_id;
  event_type = t.event_type;
  occurred_at = t.occurred_at;
  memo = t.memo;
}

abbrev pub entry_row : ℕ → ℕ → Entry → EntryRow
entry_row t i e = record {
  transaction_id = t;
  account_id = i;
  dir = e.dir;
  amount_minor = e.amount_minor;
  currency = e.currency;
}

-- The loop of INSERTs into `entries`.
unfoldable pub insert_entries : ℕ → Dict ℕ → List Entry → Db → Result Error Db
insert_entries t ids [] db = ok db
insert_entries t ids (e ∷ es) db = elim (lookup e.account_name ids) [
  | none ↦ err (key_error e.account_name)
  | some i ↦ insert_entry db (entry_row t i e) >>= insert_entries t ids es
]

-- Where a concurrent writer makes the attempt fail with SQLSTATE 40001, if it does.
pub data Conflict : Type 0 where
  quiet on_select on_insert on_commit : Conflict

abbrev pub conflict_at : Conflict → Conflict → Result Error (Unit {0})
conflict_at on_select on_select = err serialization_failure
conflict_at on_insert on_insert = err serialization_failure
conflict_at on_commit on_commit = err serialization_failure
conflict_at _ _ = ok tt

-- The statements of one attempt, on the connection's own copy of the database.
unfoldable pub statements : Conflict → Db → LedgerTransaction → Result Error Db
unfolding resolve insert_entries insert_transaction insert_entry commit
statements c db t = do
  conflict_at on_select c
  ids ← resolve db.accounts t.entries []
  conflict_at on_insert c
  db1 ← insert_transaction db (transaction_row t)
  db2 ← insert_entries t.id ids t.entries db1
  conflict_at on_commit c
  commit db2 t.id

-- The `except` clauses: a violation of a dedupe constraint is a DUPLICATE, and every failure leaves
-- the database as it was (`rollback`, or `close` on a connection with an open transaction).
abbrev pub settle : Db → Result Error Db → Result Error PostOutcome × Db
settle db (ok db') = (ok posted, db')
settle db (err (unique_violation dedupe_event)) = (ok duplicate, db)
settle db (err (unique_violation dedupe_object)) = (ok duplicate, db)
settle db (err e) = (err e, db)

unfoldable pub attempt : Conflict → Db → LedgerTransaction → Result Error PostOutcome × Db
unfolding statements
attempt c db t = settle db (statements c db t)

-- The world around a call: attempt k (from 1) meets `conflict k`, before it the other writers commit
-- `others k`, and after it `rng.random()` draws `jitter k` thousandths.
pub record Env : Type 0 where
  pub conflict : ℕ → Conflict
  pub others : ℕ → Db → Db
  pub jitter : ℕ → ℕ

-- In microseconds: min(0.05 * 2 ** (attempt - 1), 2.0) * (0.5 + rng.random())
unfoldable pub backoff_us : ℕ → ℕ → ℕ
backoff_us n draw = min (50 * 2 ^ (n - 1)) 2000 * (500 + draw)

abbrev pub is_serialization_failure : Result Error PostOutcome → Bool
is_serialization_failure (err serialization_failure) = true
is_serialization_failure _ = false

-- How a call ended: its result or exception, the database, and the delays that it slept.
pub record Posting : Type 0 where
  pub result : Result Error PostOutcome
  pub db : Db
  pub slept : List ℕ

-- `while True`, on fuel; `n` is `attempt` after its increment. `none` means that fuel ran out.
unfoldable pub post_loop : ℕ → Env → ℕ → ℕ → LedgerTransaction → Db → List ℕ → Option Posting
unfolding attempt backoff_us
post_loop zero env max_attempts n t db slept = none
post_loop (suc fuel) env max_attempts n t db slept =
    let (r, db') = attempt (env.conflict n) (env.others n db) t in
    let done : Option Posting = some (record { result = r; db = db'; slept = slept }) in
    let rest : Option Posting =
      post_loop fuel env max_attempts (n + 1) t db' (backoff_us n (env.jitter n) ∷ slept) in
    if is_serialization_failure r then (if leb max_attempts n then done else rest) else done

-- Attempts are numbered from 1, so `max_attempts + 1` rounds are enough.
unfoldable pub post_transaction : Env → ℕ → LedgerTransaction → Db → Option Posting
unfolding post_loop
post_transaction env max_attempts t db = post_loop (max_attempts + 1) env max_attempts 1 t db []
