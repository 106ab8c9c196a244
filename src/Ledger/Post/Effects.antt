-- ===== src/Ledger/Post/Effects.antt =====
-- What the statements of ledgerproof/ledger/post.py write when they succeed: lemmas about the
-- INSERTs and the COMMIT, and the invariant of the ledger that every attempt keeps.
use ledger_proof.Base.{
  ℕ, true, Option, none, some, List, [], ◌∷◌, ◌++◌, ◌≡◌, refl, sym, ap, subst, ◌∙◌, inl, inr, arith,
  Every, Option-cases, append_assoc, append-nil, ok, ◌>>=◌, >>=-inv,
}
use ledger_proof.Base.Int.{pos, ltb_ℤ}
use ledger_proof.Base.Dict.{Dict, lookup}
use ledger_proof.Ledger.Schema.{
  Account, TransactionRow, EntryRow, Db, has_transaction, has_account, collision,
  insert_transaction, insert_entry, commit, assert_txn_balanced, assert_txn_min_entries,
}
use ledger_proof.Ledger.Post.{
  Entry, LedgerTransaction, transaction_row, entry_row, resolve, insert_entries, Conflict,
  conflict_at, on_select, on_insert, on_commit, statements,
}

abbrev pub or_zero : Option ℕ → ℕ
or_zero none = 0
or_zero (some i) = i

-- The rows that the loop of INSERTs adds.
unfoldable pub posted_rows : ℕ → Dict ℕ → List Entry → List EntryRow
posted_rows t ids [] = []
posted_rows t ids (e ∷ es) =
    entry_row t (or_zero (lookup e.account_name ids)) e ∷ posted_rows t ids es

-- What an INSERT into `entries` has been held to.
pub record IsPosted (accts : List Account) (txns : List TransactionRow) (t : ℕ) (e : EntryRow)
    : Type 0 where
  pub known : has_transaction txns e ≡ true
  pub account : has_account accts e ≡ true
  pub own : e.transaction_id ≡ t
  pub positive : ltb_ℤ (pos 0) e.amount_minor ≡ true

insert_entry-ok :
    (db : Db) (e : EntryRow) {db' : Db}
    → insert_entry db e ≡ ok db'
    → (db' ≡ record db { entries = db.entries ++ e ∷ [] })
      × (has_transaction db.transactions e ≡ true)
      × (has_account db.accounts e ≡ true)
      × (ltb_ℤ (pos 0) e.amount_minor ≡ true)
unfolding insert_entry
insert_entry-ok db e h = ground arith

pub insert_entries-step :
    (t i : ℕ) (ids : Dict ℕ) (e : Entry) (es : List Entry) (db : Db)
    → lookup e.account_name ids ≡ some i
    → insert_entries t ids (e ∷ es) db
      ≡ (insert_entry db (entry_row t i e) >>= insert_entries t ids es)
unfolding insert_entries
insert_entries-step t i ids e es db found = rw (found, insert_entries)

insert_entries-missing :
    (t : ℕ) (ids : Dict ℕ) (e : Entry) (es : List Entry) (db : Db) {db' : Db}
    → lookup e.account_name ids ≡ none
    → ¬ (insert_entries t ids (e ∷ es) db ≡ ok db')
unfolding insert_entries
insert_entries-missing t ids e es db missing h = ground arith

pub insert_entries-ok :
    (t : ℕ) (ids : Dict ℕ) (es : List Entry) (db : Db) {db' : Db}
    → insert_entries t ids es db ≡ ok db'
    → (db' ≡ record db { entries = db.entries ++ posted_rows t ids es })
      × Every (IsPosted db.accounts db.transactions t) (posted_rows t ids es)
unfolding posted_rows
insert_entries-ok t ids [] db h = (rw append-nil (unfold insert_entries in cc), tt)
insert_entries-ok t ids (e ∷ es) db {db'} h = elim (Option-cases (lookup e.account_name ids)) [
  | inl missing ↦ absurd (insert_entries-missing t ids e es db missing h)
  | inr (i, found) ↦
      let row = entry_row t i e in
      let (db1, first, rest) =
        >>=-inv (insert_entry db row) (insert_entries t ids es)
          (sym (insert_entries-step t i ids e es db found) ∙ h) in
      let (grown, known, account, positive) = insert_entry-ok db row first in
      let rest_rows = posted_rows t ids es in
      let (same, posted) = insert_entries-ok t ids es db1 rest in
      rw found (
        same
            ∙ ap (λ (d : Db). record d { entries = d.entries ++ rest_rows }) grown
            ∙ ap (λ (l : List EntryRow). record db { entries = l })
                (append_assoc db.entries (row ∷ []) rest_rows),
        (
          record { known = known; account = account; own = refl; positive = positive },
          subst (λ (d : Db). Every (IsPosted d.accounts d.transactions t) rest_rows) grown posted,
        ),
      )
]

pub insert_transaction-ok :
    (db : Db) (r : TransactionRow) {db' : Db}
    → insert_transaction db r ≡ ok db'
    → (collision db.transactions r ≡ none)
      × (db' ≡ record db { transactions = db.transactions ++ r ∷ [] })
unfolding insert_transaction
insert_transaction-ok db r h = ground arith

commit-ok :
    (db : Db) (t : ℕ) {db' : Db}
    → commit db t ≡ ok db'
    → (db' ≡ db) × (assert_txn_min_entries db t ≡ true) × (assert_txn_balanced db t ≡ true)
unfolding commit
commit-ok db t h = ground arith

-- The database after an attempt that went through.
abbrev pub grown : Db → LedgerTransaction → Dict ℕ → Db
grown db t ids = record db {
  transactions = db.transactions ++ transaction_row t ∷ [];
  entries = db.entries ++ posted_rows t.id ids t.entries;
}

-- What is known of an attempt that went through.
pub record Went (db : Db) (t : LedgerTransaction) (db' : Db) : Type 0 where
  pub ids : Dict ℕ
  pub resolved : resolve db.accounts t.entries [] ≡ ok ids
  pub fresh : collision db.transactions (transaction_row t) ≡ none
  pub result : db' ≡ grown db t ids
  pub rows :
      Every
        (IsPosted db.accounts (db.transactions ++ transaction_row t ∷ []) t.id)
        (posted_rows t.id ids t.entries)
  pub enough : assert_txn_min_entries (grown db t ids) t.id ≡ true
  pub balanced : assert_txn_balanced (grown db t ids) t.id ≡ true

Went-of :
    (db : Db) (t : LedgerTransaction) (ids : Dict ℕ) (db1 db2 : Db) {db' : Db}
    → resolve db.accounts t.entries [] ≡ ok ids
    → insert_transaction db (transaction_row t) ≡ ok db1
    → insert_entries t.id ids t.entries db1 ≡ ok db2
    → commit db2 t.id ≡ ok db'
    → Went db t db'
Went-of db t ids db1 db2 resolved first second third =
    let (fresh, one) = insert_transaction-ok db (transaction_row t) first in
    let second' = subst (λ (d : Db). insert_entries t.id ids t.entries d ≡ ok db2) one second in
    let db1' = record db { transactions = db.transactions ++ transaction_row t ∷ [] } in
    let (two, rows) = insert_entries-ok t.id ids t.entries db1' second' in
    let (same, enough, balanced) = commit-ok db2 t.id third in
    record {
      ids = ids;
      resolved = resolved;
      fresh = fresh;
      result = same ∙ two;
      rows = rows;
      enough = subst (λ (d : Db). assert_txn_min_entries d t.id ≡ true) two enough;
      balanced = subst (λ (d : Db). assert_txn_balanced d t.id ≡ true) two balanced;
    }

pub statements-Went :
    (c : Conflict) (db : Db) (t : LedgerTransaction) {db' : Db}
    → statements c db t ≡ ok db'
    → Went db t db'
unfolding statements
statements-Went c db t {db'} h =
    let (_, _, h1) = >>=-inv (conflict_at on_select c) _ h in
    let (ids, resolved, h2) = >>=-inv (resolve db.accounts t.entries []) _ h1 in
    let (_, _, h3) = >>=-inv (conflict_at on_insert c) _ h2 in
    let (db1, first, h4) = >>=-inv (insert_transaction db (transaction_row t)) _ h3 in
    let (db2, second, h5) = >>=-inv (insert_entries t.id ids t.entries db1) _ h4 in
    let (_, _, h6) = >>=-inv (conflict_at on_commit c) _ h5 in
    Went-of db t ids db1 db2 resolved first second h6
