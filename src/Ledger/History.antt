-- ===== src/Ledger/History.antt =====
-- Every order of attempts, of any number of writers: ledger/post.py runs each at SERIALIZABLE, so a
-- history of the ledger is a sequence of attempts, and each may conflict, be refused or go through.
use ledger_proof.Base.{
  String, true, List, [], ◌∷◌, ◌++◌, ◌≡◌, ◌≢◌, refl, sym, ap, subst, ◌∙◌, all, map, append-nil,
  append_assoc, Result, ok, err, inl, inr, ◌⊎◌,
}
use ledger_proof.Base.Int.{ℤ, pos, ◌-ℤ◌, ◌==ℤ◌, ==ℤ_iff, int_laws}
use ledger_proof.Ledger.Schema.{
  EntryRow, TransactionRow, Db, Error, unique_violation, dedupe_event, dedupe_object,
  transactions_pkey, empty_db, debit, credit,
}
use ledger_proof.Ledger.Post.{
  LedgerTransaction, posted, Conflict, statements, settle, attempt, transaction_row,
}
use ledger_proof.Ledger.Post.Effects.{Went, statements-Went, posted_rows}
use ledger_proof.Ledger.Balances.{BalanceRow, account_balances}
use ledger_proof.Ledger.Invariant.{
  difference, currency_ok, invariant_ok, currency_check, currencies, side, check,
}
use ledger_proof.Ledger.Invariant.Conservation.{side-agree, signed_sum}
use ledger_proof.Ledger.Invariant.Safety.{Sound, Went-Sound}

difference_self : (x : ℤ) → ((x -ℤ x) ==ℤ pos 0) ≡ true
difference_self x = (==ℤ_iff (x -ℤ x) (pos 0)).1 (omega int_laws)

currencies_ok :
    (rows : List BalanceRow) (cs : List String)
    → ((c : String) → side debit c rows ≡ side credit c rows)
    → all currency_ok (map (currency_check rows) cs) ≡ true
unfolding currency_ok difference
currencies_ok rows [] h = refl
currencies_ok rows (c ∷ cs) h =
    rw (h c, difference_self (side credit c rows)) (currencies_ok rows cs h)

-- In a sound ledger the two sides agree in every currency, so the check passes.
pub Sound-check : (db : Db) → Sound db → invariant_ok (check db) ≡ true
unfolding check invariant_ok
Sound-check db s =
    let rows = account_balances db.accounts db.entries in
    currencies_ok rows (currencies rows)
      (λ c. side-agree c db.accounts db.entries s.unique s.accounts_known (s.conserved c))

-- How an attempt ends: it goes through, or the database is as it was.
pub attempt_cases :
    (c : Conflict) (db : Db) (t : LedgerTransaction)
    → ((attempt c db t).1 ≡ db) × ((attempt c db t).0 ≢ ok posted)
      ⊎ Went db t (attempt c db t).1 × ((attempt c db t).0 ≡ ok posted)
unfolding attempt
attempt_cases c db t = settled (statements c db t) refl
  where
    settled :
        (r : Result Error Db)
        → statements c db t ≡ r
        → ((settle db r).1 ≡ db) × ((settle db r).0 ≢ ok posted)
          ⊎ Went db t (settle db r).1 × ((settle db r).0 ≡ ok posted)
    settled (ok db') h = inr (statements-Went c db t h, refl)
    settled (err (unique_violation dedupe_event)) h = inl (refl, λ e. cc)
    settled (err (unique_violation dedupe_object)) h = inl (refl, λ e. cc)
    settled (err (unique_violation transactions_pkey)) h = inl (refl, λ e. cc)
    settled (err e) h = inl (refl, λ p. cc)

pub attempt-Sound :
    (c : Conflict) (db : Db) (t : LedgerTransaction) → Sound db → Sound (attempt c db t).1
attempt-Sound c db t s = elim (attempt_cases c db t) [
  | inl (same, _) ↦ subst Sound (sym same) s
  | inr (went, _) ↦ Went-Sound db t s went
]

abbrev pub run_attempts : List (Conflict × LedgerTransaction) → Db → Db
run_attempts [] db = db
run_attempts ((c, t) ∷ rest) db = run_attempts rest (attempt c db t).1

run_attempts-Sound :
    (history : List (Conflict × LedgerTransaction)) (db : Db)
    → Sound db
    → Sound (run_attempts history db)
run_attempts-Sound [] db s = s
run_attempts-Sound ((c, t) ∷ rest) db s =
    run_attempts-Sound rest (attempt c db t).1 (attempt-Sound c db t s)

pub empty_db-Sound : Sound empty_db
unfolding signed_sum
empty_db-Sound = record {
  unique = (refl, (refl, (refl, (refl, (refl, (refl, (refl, tt)))))));
  accounts_known = tt;
  transactions_known = tt;
  conserved = λ c. refl;
}

-- From the seeded, empty ledger, whatever attempts are made in whatever order, and wherever they
-- conflict or fail, the check of the global invariant passes: for every currency the debit-
-- normal balances equal the credit-normal balances.
pub history_conserves :
    (history : List (Conflict × LedgerTransaction))
    → invariant_ok (check (run_attempts history empty_db)) ≡ true
history_conserves history =
    Sound-check (run_attempts history empty_db) (run_attempts-Sound history empty_db empty_db-Sound)

-- `db'` holds the rows of `db`, in place, and perhaps more; the accounts are the same.
pub record Extends (db db' : Db) : Type 0 where
  pub accounts_same : db'.accounts ≡ db.accounts
  pub more_transactions : (ts : List TransactionRow) × (db'.transactions ≡ db.transactions ++ ts)
  pub more_entries : (es : List EntryRow) × (db'.entries ≡ db.entries ++ es)

Extends-refl : (db : Db) → Extends db db
Extends-refl db = record {
  accounts_same = refl;
  more_transactions = ([], sym (append-nil db.transactions));
  more_entries = ([], sym (append-nil db.entries));
}

Extends-trans : {a b c : Db} → Extends a b → Extends b c → Extends a c
Extends-trans {a} {b} {c} x y = record {
  accounts_same = y.accounts_same ∙ x.accounts_same;
  more_transactions = (
    x.more_transactions.0 ++ y.more_transactions.0,
    y.more_transactions.1
        ∙ ap (λ (l : List TransactionRow). l ++ y.more_transactions.0) x.more_transactions.1
        ∙ append_assoc a.transactions x.more_transactions.0 y.more_transactions.0,
  );
  more_entries = (
    x.more_entries.0 ++ y.more_entries.0,
    y.more_entries.1
        ∙ ap (λ (l : List EntryRow). l ++ y.more_entries.0) x.more_entries.1
        ∙ append_assoc a.entries x.more_entries.0 y.more_entries.0,
  );
}

attempt-Extends : (c : Conflict) (db : Db) (t : LedgerTransaction) → Extends db (attempt c db t).1
attempt-Extends c db t = elim (attempt_cases c db t) [
  | inl (same, _) ↦ subst (Extends db) (sym same) (Extends-refl db)
  | inr (went, _) ↦ subst (Extends db) (sym went.result) (record {
    accounts_same = refl;
    more_transactions = (transaction_row t ∷ [], refl);
    more_entries = (posted_rows t.id went.ids t.entries, refl);
  })
]

-- The ledger is append-only: after any history of attempts every row is still there, unchanged
-- and in place, and the chart of accounts is as it was.
pub history_appends :
    (history : List (Conflict × LedgerTransaction)) (db : Db) → Extends db (run_attempts history db)
history_appends [] db = Extends-refl db
history_appends ((c, t) ∷ rest) db =
    Extends-trans (attempt-Extends c db t) (history_appends rest (attempt c db t).1)
