-- ===== src/Stripe/Mapping/Posting.antt =====
-- What stripe_io/mapping.py builds, as the database of ledger/post.py judges it.
use ledger_proof.Base.{
  ℕ, String, true, Option, some, List, [], ◌∷◌, ◌++◌, ◌≡◌, ◌≢◌, refl, sym, ap, subst, ◌∙◌, inl, inr,
  arith, str_eq, Bool-cases, Option-cases, Every, Result, ok, err, ◌>>=◌, ◌>>◌, >>=-raise,
  if◌then◌else◌,
}
use ledger_proof.Base.Int.{ℤ, pos, ==ℤ_refl, int_laws}
use ledger_proof.Base.Dict.{Dict, lookup}
use ledger_proof.Base.Json.{Fields}
use ledger_proof.Ledger.Schema.{
  Direction, debit, credit, Account, EntryRow, TransactionRow, Db, Error, unbalanced_transaction,
  unique_violation, dedupe_event, dedupe_object, transactions_pkey, sum_dir, groups_balanced,
  assert_txn_balanced, insert_transaction, insert_entry, commit,
}
use ledger_proof.Ledger.Post.{
  Entry, LedgerTransaction, transaction_row, entry_row, resolve, insert_entries, Conflict,
  conflict_at, on_select, on_insert, on_commit, statements, settle, attempt,
}
use ledger_proof.Ledger.Post.Effects.{
  posted_rows, insert_transaction-ok, insert_entries-ok, insert_entries-step,
}
use ledger_proof.Ledger.Invariant.Safety.{Sound, own_rows}
use ledger_proof.Stripe.Mapping.{build_transaction}
use ledger_proof.Stripe.Mapping.Balance.{entry_sum, IsBalanced, build_transaction-IsMapped}

sum_dir-posted :
    (d : Direction) (c cur : String) (t : ℕ) (ids : Dict ℕ) (es : List Entry)
    → Every (λ e. e.currency ≡ cur) es
    → sum_dir d c (posted_rows t ids es) ≡ (if str_eq cur c then entry_sum d es else pos 0)
unfolding sum_dir posted_rows entry_sum
sum_dir-posted d c cur t ids [] h = ground arith
sum_dir-posted d c cur t ids (e ∷ es) h =
    rw (h.0, sum_dir-posted d c cur t ids es h.1)
      (elim (Bool-cases (str_eq cur c)) [
        | inl same ↦ rw same
        | inr other ↦ rw other (omega int_laws)
      ])

pub groups_of_sums :
    (rows all_rows : List EntryRow)
    → ((c : String) → sum_dir debit c all_rows ≡ sum_dir credit c all_rows)
    → groups_balanced rows all_rows ≡ true
unfolding groups_balanced
groups_of_sums [] all_rows h = refl
groups_of_sums (e ∷ rows) all_rows h =
    rw (h e.currency, ==ℤ_refl (sum_dir credit e.currency all_rows))
      (groups_of_sums rows all_rows h)

-- The rows of a balanced transaction pass `assert_txn_balanced`.
pub IsBalanced-groups :
    (cur : String) (t : ℕ) (ids : Dict ℕ) (es : List Entry)
    → IsBalanced cur es
    → let rows = posted_rows t ids es in groups_balanced rows rows ≡ true
IsBalanced-groups cur t ids es b = groups_of_sums (posted_rows t ids es) (posted_rows t ids es) λ c.
    sum_dir-posted debit c cur t ids es b.one_currency
    ∙ ap (λ (x : ℤ). if str_eq cur c then x else pos 0) b.sums
    ∙ sym (sum_dir-posted credit c cur t ids es b.one_currency)

-- The steps before COMMIT raise other errors.
conflict-ne : (a b : Conflict) (n : ℕ) → conflict_at a b ≢ err (unbalanced_transaction n)
conflict-ne on_select on_select n h = cc
conflict-ne on_insert on_insert n h = cc
conflict-ne on_commit on_commit n h = cc
conflict-ne _ _ n h = cc

resolve-ne :
    (accts : List Account) (es : List Entry) (ids : Dict ℕ) (n : ℕ)
    → resolve accts es ids ≢ err (unbalanced_transaction n)
unfolding resolve
resolve-ne accts [] ids n h = cc
resolve-ne accts (e ∷ es) ids n h = grind (arith, resolve-ne accts es)

insert_transaction-ne :
    (db : Db) (r : TransactionRow) (n : ℕ)
    → insert_transaction db r ≢ err (unbalanced_transaction n)
unfolding insert_transaction
insert_transaction-ne db r n h = ground arith

insert_entry-ne :
    (db : Db) (e : EntryRow) (n : ℕ) → insert_entry db e ≢ err (unbalanced_transaction n)
unfolding insert_entry
insert_entry-ne db e n h = ground arith

insert_entries-ne :
    (t : ℕ) (ids : Dict ℕ) (es : List Entry) (db : Db) (n : ℕ)
    → insert_entries t ids es db ≢ err (unbalanced_transaction n)
unfolding insert_entries
insert_entries-ne t ids [] db n h = cc
insert_entries-ne t ids (e ∷ es) db n h = elim (Option-cases (lookup e.account_name ids)) [
  | inl missing ↦ ground arith
  | inr (i, found) ↦
      elim (>>=-raise (insert_entry db (entry_row t i e)) (insert_entries t ids es)
        (sym (insert_entries-step t i ids e es db found) ∙ h)) [
          | inl first ↦ insert_entry-ne db (entry_row t i e) n first
          | inr (db1, _, rest) ↦ insert_entries-ne t ids es db1 n rest
        ]
]

commit-balanced :
    (db : Db) (t n : ℕ)
    → assert_txn_balanced db t ≡ true
    → commit db t ≢ err (unbalanced_transaction n)
unfolding commit
commit-balanced db t n b h = ground arith

module _ (db : Db) (t : LedgerTransaction) (n : ℕ) (s : Sound db)
    (balanced : (ids : Dict ℕ)
      → groups_balanced (posted_rows t.id ids t.entries) (posted_rows t.id ids t.entries)
        ≡ true) where
  commit-ne :
      (ids : Dict ℕ) (db1 db2 : Db)
      → insert_transaction db (transaction_row t) ≡ ok db1
      → insert_entries t.id ids t.entries db1 ≡ ok db2
      → commit db2 t.id ≢ err (unbalanced_transaction n)
  unfolding assert_txn_balanced
  commit-ne ids db1 db2 first second =
      let (fresh, one) = insert_transaction-ok db (transaction_row t) first in
      let second' = subst (λ (d : Db). insert_entries t.id ids t.entries d ≡ ok db2) one second in
      let db1' = record db { transactions = db.transactions ++ transaction_row t ∷ [] } in
      let (two, rows) = insert_entries-ok t.id ids t.entries db1' second' in
      commit-balanced db2 t.id n (rw (two, own_rows db t ids s fresh rows) (balanced ids))

  writes-ne :
      (c : Conflict) (ids : Dict ℕ)
      → (do
        db1 ← insert_transaction db (transaction_row t)
        db2 ← insert_entries t.id ids t.entries db1
        conflict_at on_commit c
        commit db2 t.id)
        ≢ err (unbalanced_transaction n)
  writes-ne c ids h = elim (>>=-raise (insert_transaction db (transaction_row t)) _ h) [
    | inl e ↦ insert_transaction-ne db (transaction_row t) n e
    | inr (db1, first, h1) ↦ elim (>>=-raise (insert_entries t.id ids t.entries db1) _ h1) [
      | inl e ↦ insert_entries-ne t.id ids t.entries db1 n e
      | inr (db2, second, h2) ↦ elim (>>=-raise (conflict_at on_commit c) _ h2) [
        | inl e ↦ conflict-ne on_commit c n e
        | inr (_, _, h3) ↦ commit-ne ids db1 db2 first second h3
      ]
    ]
  ]

  statements-ne : (c : Conflict) → statements c db t ≢ err (unbalanced_transaction n)
  unfolding statements
  statements-ne c h = elim (>>=-raise (conflict_at on_select c) _ h) [
    | inl e ↦ conflict-ne on_select c n e
    | inr (_, _, h1) ↦ elim (>>=-raise (resolve db.accounts t.entries []) _ h1) [
      | inl e ↦ resolve-ne db.accounts t.entries [] n e
      | inr (ids, _, h2) ↦ elim (>>=-raise (conflict_at on_insert c) _ h2) [
        | inl e ↦ conflict-ne on_insert c n e
        | inr (_, _, h3) ↦ writes-ne c ids h3
      ]
    ]
  ]

settle-ne :
    (db : Db) (r : Result Error Db) (n : ℕ)
    → r ≢ err (unbalanced_transaction n)
    → (settle db r).0 ≢ err (unbalanced_transaction n)
settle-ne db (ok db') n h e = cc
settle-ne db (err (unique_violation dedupe_event)) n h e = cc
settle-ne db (err (unique_violation dedupe_object)) n h e = cc
settle-ne db (err (unique_violation transactions_pkey)) n h e = cc
settle-ne db (err (unbalanced_transaction m)) n h e = h (cc)
settle-ne db (err _) n h e = cc

-- An attempt whose rows pass the trigger is not refused by it.
pub attempt_never_unbalanced :
    (db : Db) (t : LedgerTransaction) (n : ℕ)
    → Sound db
    → ((ids : Dict ℕ)
        → groups_balanced (posted_rows t.id ids t.entries) (posted_rows t.id ids t.entries) ≡ true)
    → (c : Conflict) → (attempt c db t).0 ≢ err (unbalanced_transaction n)
unfolding attempt
attempt_never_unbalanced db t n s balanced c =
    settle-ne db (statements c db t) n (statements-ne db t n s balanced c)

-- In a sound ledger, an attempt to post what an event was mapped to is never refused as
-- unbalanced, whatever the payload and whatever conflicts the attempt meets.
pub mapped_never_unbalanced :
    (uuid5 : String → ℕ) (event : Fields) (fee : Option ℤ) (c : Conflict) (db : Db) (n : ℕ)
    {t : LedgerTransaction}
    → Sound db
    → build_transaction uuid5 event fee ≡ ok (some t)
    → (attempt c db t).0 ≢ err (unbalanced_transaction n)
mapped_never_unbalanced uuid5 event fee c db n {t} s built =
    let m = build_transaction-IsMapped uuid5 event fee built in
    attempt_never_unbalanced db t n s
      (λ ids. IsBalanced-groups m.currency t.id ids t.entries m.balanced) c
