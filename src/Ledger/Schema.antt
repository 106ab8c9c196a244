-- ===== src/Ledger/Schema.antt =====
-- migrations/001_ledger.sql, 002_seed_accounts.sql and 004_hardening.sql: the tables of the ledger,
-- the constraints that an INSERT is held to, and the deferred triggers that judge a COMMIT.
-- A BIGSERIAL id of `entries`, `recorded_at` and the indexes are left out: nothing reads them.
-- A currency is compared as the text that it is; three-letter codes have no blanks to pad.
use ledger_proof.Base.{
  ℕ, ◌^◌, ◌-◌, String, Bool, true, false, ◌&&◌, not, Option, none, some, List, [], ◌∷◌, ◌++◌,
  str_eq, sql_eq, ◌==◌, leb, if◌then◌else◌, length, any, keep, Result, ok, err,
}
use ledger_proof.Base.Int.{ℤ, pos, negsuc, ◌+ℤ◌, ◌==ℤ◌, ltb_ℤ, leb_ℤ}

pub data Direction : Type 0 where
  debit credit : Direction

abbrev pub dir_eq : Direction → Direction → Bool
dir_eq debit debit = true
dir_eq debit credit = false
dir_eq credit debit = false
dir_eq credit credit = true

-- A row of `accounts`, and `Account` of accounts.py.
pub record Account : Type 0 where
  pub id : ℕ
  pub name : String
  pub kind : String
  pub normal : Direction
  pub currency : String

-- A row of `transactions`; a UUID is compared only, so it is a number.
pub record TransactionRow : Type 0 where
  pub id : ℕ
  pub stripe_event_id : Option String
  pub stripe_object_id : Option String
  pub event_type : Option String
  pub occurred_at : ℤ
  pub memo : Option String

-- A row of `entries`.
pub record EntryRow : Type 0 where
  pub transaction_id : ℕ
  pub account_id : ℕ
  pub dir : Direction
  pub amount_minor : ℤ
  pub currency : String

pub record Db : Type 0 where
  pub accounts : List Account
  pub transactions : List TransactionRow
  pub entries : List EntryRow

pub data Constraint : Type 0 where
  transactions_pkey dedupe_event dedupe_object : Constraint

-- What an attempt to post can raise: a database error by its SQLSTATE class, or a Python error.
pub data Error : Type 0 where
  unknown_account : String → Error
  key_error : String → Error
  serialization_failure : Error
  unique_violation : Constraint → Error
  check_violation : Error
  numeric_value_out_of_range : Error
  foreign_key_violation : Error
  unbalanced_transaction : ℕ → Error
  too_few_entries : ℕ → ℕ → Error

-- The unique indexes of `transactions`, the primary key first: the row that an INSERT collides on.
unfoldable pub collision : List TransactionRow → TransactionRow → Option Constraint
collision rows t =
    if any (λ r. r.id == t.id) rows
    then some transactions_pkey
    else if any (λ r. sql_eq r.stripe_event_id t.stripe_event_id) rows
    then some dedupe_event
    else if any
        (λ r. sql_eq r.event_type t.event_type && sql_eq r.stripe_object_id t.stripe_object_id) rows
    then some dedupe_object
    else none

unfoldable pub insert_transaction : Db → TransactionRow → Result Error Db
unfolding collision
insert_transaction db t = elim (collision db.transactions t) [
  | some c ↦ err (unique_violation c)
  | none ↦ ok (record db { transactions = db.transactions ++ t ∷ [] })
]

abbrev pub bigint_max : ℕ
bigint_max = 2 ^ 63 - 1

abbrev pub bigint_min : ℤ
bigint_min = negsuc (2 ^ 63 - 1)

-- REFERENCES transactions(id)
abbrev pub has_transaction : List TransactionRow → EntryRow → Bool
has_transaction rows e = any (λ r. r.id == e.transaction_id) rows

-- REFERENCES accounts(id), and with the currency: `entries_currency_matches_account`
abbrev pub has_account : List Account → EntryRow → Bool
has_account accts e = any (λ a. a.id == e.account_id && str_eq a.currency e.currency) accts

unfoldable pub insert_entry : Db → EntryRow → Result Error Db
insert_entry db e =
    if not (leb_ℤ e.amount_minor (pos bigint_max))
    then err numeric_value_out_of_range
    else if not (ltb_ℤ (pos 0) e.amount_minor)
    then err
        (if leb_ℤ bigint_min e.amount_minor then check_violation else numeric_value_out_of_range)
    else if not (has_transaction db.transactions e && has_account db.accounts e)
    then err foreign_key_violation
    else ok (record db { entries = db.entries ++ e ∷ [] })

-- SUM(CASE WHEN dir=d THEN amount_minor ELSE 0 END) over the rows of one currency
unfoldable pub sum_dir : Direction → String → List EntryRow → ℤ
sum_dir d c [] = pos 0
sum_dir d c (e ∷ es) =
    (if str_eq e.currency c && dir_eq e.dir d then e.amount_minor else pos 0) +ℤ sum_dir d c es

abbrev pub of_transaction : ℕ → EntryRow → Bool
of_transaction t e = e.transaction_id == t

-- `assert_txn_balanced`: no currency of the transaction has debits <> credits.
unfoldable pub groups_balanced : List EntryRow → List EntryRow → Bool
unfolding sum_dir ◌+ℤ◌
groups_balanced [] rows = true
groups_balanced (e ∷ es) rows =
    (sum_dir debit e.currency rows ==ℤ sum_dir credit e.currency rows) && groups_balanced es rows

unfoldable pub assert_txn_balanced : Db → ℕ → Bool
unfolding groups_balanced
assert_txn_balanced db t =
    let rows = keep (of_transaction t) db.entries in groups_balanced rows rows

-- `assert_txn_min_entries`
unfoldable pub assert_txn_min_entries : Db → ℕ → Bool
assert_txn_min_entries db t = leb 2 (length (keep (of_transaction t) db.entries))

-- COMMIT runs the deferred triggers in the order in which the rows were inserted. Every entry that
-- one transaction inserts has the same `transaction_id`, so its trigger asks the same each time.
unfoldable pub commit : Db → ℕ → Result Error Db
unfolding assert_txn_balanced assert_txn_min_entries
commit db t =
    if not (assert_txn_min_entries db t)
    then err (too_few_entries t (length (keep (of_transaction t) db.entries)))
    else if not (assert_txn_balanced db t)
    then err (unbalanced_transaction t)
    else ok db

-- 002_seed_accounts.sql
abbrev account : ℕ → String → String → Direction → Account
account i n k d = record { id = i; name = n; kind = k; normal = d; currency = "USD" }

abbrev pub seed_accounts : List Account
seed_accounts =
    account 1 "stripe_balance" "asset" debit
    ∷ account 2 "bank" "asset" debit
    ∷ account 3 "processing_fees" "expense" debit
    ∷ account 4 "dispute_losses" "expense" debit
    ∷ account 5 "refunds_contra" "expense" debit
    ∷ account 6 "revenue" "revenue" credit
    ∷ account 7 "customer_liability" "liability" credit
    ∷ []

abbrev pub empty_db : Db
empty_db = record { accounts = seed_accounts; transactions = []; entries = [] }
