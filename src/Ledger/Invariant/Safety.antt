-- ===== src/Ledger/Invariant/Safety.antt =====
-- The invariant of the ledger: kept by every attempt of ledger/post.py, and enough for the check of
-- ledger/invariant.py to pass.
use ledger_proof.Base.{
  ℕ, String, true, false, none, List, [], ◌∷◌, ◌++◌, ◌≡◌, refl, sym, ap, subst, ◌∙◌, arith, ◌==◌,
  any, any-append, keep, keep-append, keep-nil, Every, Every-append,
}
use ledger_proof.Base.Int.{ℤ, pos, ◌+ℤ◌, zero-+ℤ}
use ledger_proof.Base.Dict.{Dict}
use ledger_proof.Ledger.Schema.{
  Account, TransactionRow, EntryRow, Db, has_transaction, has_account, of_transaction, collision,
  assert_txn_balanced, groups_balanced,
}
use ledger_proof.Ledger.Post.{LedgerTransaction, transaction_row}
use ledger_proof.Ledger.Post.Effects.{IsPosted, posted_rows, Went}
use ledger_proof.Ledger.Invariant.Conservation.{
  UniqueIds, signed_sum, signed_sum-append, signed_sum-balanced,
}

pub record Sound (db : Db) : Type 0 where
  pub unique : UniqueIds db.accounts
  pub accounts_known : Every (λ e. has_account db.accounts e ≡ true) db.entries
  pub transactions_known : Every (λ e. has_transaction db.transactions e ≡ true) db.entries
  pub conserved : (c : String) → signed_sum c db.entries ≡ pos 0

-- A transaction whose id is new owns no entry yet.
no_entries :
    (txns : List TransactionRow) (t : ℕ) (es : List EntryRow)
    → Every (λ e. has_transaction txns e ≡ true) es
    → any (λ (r : TransactionRow). r.id == t) txns ≡ false
    → any (of_transaction t) es ≡ false
no_entries txns t [] known new = refl
no_entries txns t (e ∷ es) known new = ground (arith, no_entries txns t es known.1 new, absent txns)
  where
    absent :
        (rows : List TransactionRow)
        → any (λ (r : TransactionRow). r.id == t) rows ≡ false
        → has_transaction rows e ≡ true
        → (e.transaction_id == t) ≡ false
    absent [] n h = cc
    absent (r ∷ rows) n h = ground (arith, absent rows)

new_id :
    (rows : List TransactionRow) (r : TransactionRow)
    → collision rows r ≡ none
    → any (λ (x : TransactionRow). x.id == r.id) rows ≡ false
unfolding collision
new_id rows r h = ground arith

keep-posted :
    (accts : List Account) (txns : List TransactionRow) (t : ℕ) (rows : List EntryRow)
    → Every (IsPosted accts txns t) rows
    → keep (of_transaction t) rows ≡ rows
keep-posted accts txns t [] h = refl
keep-posted accts txns t (e ∷ rows) h = ground (arith, keep-posted accts txns t rows h.1, h.0.own)

known-append :
    (txns more : List TransactionRow) (es : List EntryRow)
    → Every (λ e. has_transaction txns e ≡ true) es
    → Every (λ e. has_transaction (txns ++ more) e ≡ true) es
known-append txns more [] h = tt
known-append txns more (e ∷ es) h =
    (rw any-append (ground (arith, h.0)), known-append txns more es h.1)

IsPosted-accounts :
    (accts : List Account) (txns : List TransactionRow) (t : ℕ) (rows : List EntryRow)
    → Every (IsPosted accts txns t) rows
    → Every (λ e. has_account accts e ≡ true) rows
IsPosted-accounts accts txns t [] h = tt
IsPosted-accounts accts txns t (e ∷ rows) h = (h.0.account, IsPosted-accounts accts txns t rows h.1)

IsPosted-transactions :
    (accts : List Account) (txns : List TransactionRow) (t : ℕ) (rows : List EntryRow)
    → Every (IsPosted accts txns t) rows
    → Every (λ e. has_transaction txns e ≡ true) rows
IsPosted-transactions accts txns t [] h = tt
IsPosted-transactions accts txns t (e ∷ rows) h =
    (h.0.known, IsPosted-transactions accts txns t rows h.1)

-- The rows that the triggers judge are exactly those of the attempt.
pub own_rows :
    (db : Db) (t : LedgerTransaction) (ids : Dict ℕ)
    → Sound db
    → collision db.transactions (transaction_row t) ≡ none
    → Every
        (IsPosted db.accounts (db.transactions ++ transaction_row t ∷ []) t.id)
        (posted_rows t.id ids t.entries)
    → keep (of_transaction t.id) (db.entries ++ posted_rows t.id ids t.entries)
      ≡ posted_rows t.id ids t.entries
own_rows db t ids s fresh rows =
    rw
      (
        keep-append,
        keep-nil (of_transaction t.id) db.entries (
            no_entries db.transactions t.id db.entries s.transactions_known
              (new_id db.transactions (transaction_row t) fresh)),
      )
      (keep-posted db.accounts _ t.id _ rows)

own_balanced :
    (db : Db) (t : LedgerTransaction) {db' : Db}
    → Sound db
    → (w : Went db t db')
    → let rows = posted_rows t.id w.ids t.entries in groups_balanced rows rows ≡ true
unfolding assert_txn_balanced
own_balanced db t s w = rw (own_rows db t w.ids s w.fresh w.rows) at w.balanced

pub Went-Sound : (db : Db) (t : LedgerTransaction) {db' : Db} → Sound db → Went db t db' → Sound db'
Went-Sound db t s w =
    let rows = posted_rows t.id w.ids t.entries in
    let txns = db.transactions ++ transaction_row t ∷ [] in
    subst Sound (sym w.result) (record {
      unique = s.unique;
      accounts_known =
          Every-append _ db.entries rows s.accounts_known
            (IsPosted-accounts db.accounts txns t.id rows w.rows);
      transactions_known =
          Every-append _ db.entries rows
            (known-append db.transactions (transaction_row t ∷ []) db.entries s.transactions_known)
            (IsPosted-transactions db.accounts txns t.id rows w.rows);
      conserved = λ c.
          signed_sum-append c db.entries rows
          ∙ ap (λ (x : ℤ). x +ℤ signed_sum c rows) (s.conserved c)
          ∙ zero-+ℤ (signed_sum c rows)
          ∙ signed_sum-balanced c rows (own_balanced db t s w);
    })
