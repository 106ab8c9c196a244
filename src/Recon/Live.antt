-- ===== src/Recon/Live.antt =====
-- ledgerproof/recon/reconciler.py: `reconcile_stripe`, the ledger against the balance transactions
-- that Stripe lists. Their pages are in Recon.Pages; here the list is whole.
pub mod Agreement
use ledger_proof.Base.{
  ℕ, suc, String, Bool, true, false, not, ◌&&◌, Option, none, some, List, [], ◌∷◌, ◌++◌, any,
  find_first, sql_eq, keep, str_eq, ◌==◌, if◌then◌else◌, Result, ok, err, ◌>>=◌, is_some,
}
use ledger_proof.Base.Int.{ℤ, pos, ◌+ℤ◌, ◌==ℤ◌}
use ledger_proof.Base.Dict.{Dict, lookup}
use ledger_proof.Base.Json.{Value, str, obj, Fields, get, as_str}
use ledger_proof.Ledger.Schema.{Db}
use ledger_proof.Ledger.Invariant.{check, invariant_ok}
use ledger_proof.Stripe.Mapping.{Raised, to_int}
use ledger_proof.Recon.Breaks.{
  Break, missing_in_ledger, missing_in_source, amount_mismatch, fee_mismatch, ReconResult,
  invariant_breaks,
}
use ledger_proof.Recon.Snapshot.{LedgerTxn, load_ledger}
use ledger_proof.Recon.Expected.{amount_in}

-- `_source_id`
unfoldable pub source_id : Fields → Option String
unfolding get
source_id bt = elim (get bt "source") [
  | some (obj source) ↦ elim (get source "id") [ some (str s) ↦ some s | _ ↦ none ]
  | some (str s) ↦ some s
  | _ ↦ none
]

-- `int(bt.get(k, 0))`
abbrev pub int_or_zero : Option Value → Result Raised ℤ
int_or_zero none = ok (pos 0)
int_or_zero (some v) = to_int v

-- `bt.get("id")`, as a break shows it: a text, or None.
abbrev pub text_of : Option Value → Option String
text_of (some (str s)) = some s
text_of _ = none

-- `by_object.get(source_id, [])`: the transactions of an object, in the ledger's order.
abbrev pub candidates : List LedgerTxn → Option String → List LedgerTxn
candidates ledger source = keep (λ t. sql_eq t.object_id source) ledger

abbrev pub is_matched : List ℕ → LedgerTxn → Bool
is_matched matched t = any (λ i. t.txn_id == i) matched

-- The first candidate that is not matched yet, or the first of all.
abbrev pub head_of : List LedgerTxn → Option LedgerTxn
head_of [] = none
head_of (t ∷ ts) = some t

unfoldable pub choose : List ℕ → List LedgerTxn → Option LedgerTxn
choose matched ts = elim (find_first (λ t. not (is_matched matched t)) ts) [
  | some t ↦ some t
  | none ↦ head_of ts
]

abbrev pub ledger_fee : LedgerTxn → ℤ
ledger_fee t = amount_in t.delta "processing_fees"

abbrev pub ledger_amount : LedgerTxn → ℤ
ledger_amount t = amount_in t.delta "stripe_balance" +ℤ ledger_fee t

-- What one balance transaction says.
pub record Statement : Type 0 where
  pub bt_id : Option String
  pub source : Option String
  pub amount : ℤ
  pub fee : ℤ

unfoldable pub statement_of : Fields → Result Raised Statement
unfolding get source_id to_int
statement_of bt = do
  amount ← int_or_zero (get bt "amount")
  fee ← int_or_zero (get bt "fee")
  ok (record { bt_id = text_of (get bt "id"); source = source_id bt; amount = amount; fee = fee })

unlisted : Statement → Break
unlisted s = record {
  kind = missing_in_ledger;
  object_id = elim s.source [ some o ↦ some o | none ↦ s.bt_id ];
  event_id = none;
  expected_minor = some s.amount;
  actual_minor = none;
}

amount_break : Statement → LedgerTxn → List Break
amount_break s t =
    if ledger_amount t ==ℤ s.amount
    then []
    else record {
      kind = amount_mismatch;
      object_id = s.source;
      event_id = t.event_id;
      expected_minor = some s.amount;
      actual_minor = some (ledger_amount t);
    }
      ∷ []

fee_break : Statement → LedgerTxn → List Break
fee_break s t =
    if ledger_fee t ==ℤ s.fee
    then []
    else record {
      kind = fee_mismatch;
      object_id = s.source;
      event_id = t.event_id;
      expected_minor = some s.fee;
      actual_minor = some (ledger_fee t);
    }
      ∷ []

-- The local variables of the loop.
pub record Matching : Type 0 where
  pub breaks : List Break
  pub matched : List ℕ
  pub checked : ℕ

-- `matched` is not looked at where no candidate is chosen.
unfoldable pub against : Statement → Option LedgerTxn → Matching → Matching
unfolding unlisted amount_break fee_break
against s none m = record {
  breaks = m.breaks ++ unlisted s ∷ [];
  matched = m.matched;
  checked = suc m.checked;
}
against s (some t) m = record {
  breaks = m.breaks ++ amount_break s t ++ fee_break s t;
  matched = t.txn_id ∷ m.matched;
  checked = suc m.checked;
}

-- The loop over the balance transactions.
unfoldable pub match_all : List LedgerTxn → List Statement → Matching → Matching
match_all ledger [] m = m
match_all ledger (s ∷ ss) m =
    match_all ledger ss (against s (choose m.matched (candidates ledger s.source)) m)

unfoldable pub statements_of : List Fields → Result Raised (List Statement)
unfolding statement_of
statements_of [] = ok []
statements_of (bt ∷ bts) = do s ← statement_of bt; rest ← statements_of bts; ok (s ∷ rest)

-- A transaction without an object id is out of scope.
abbrev pub in_source : List ℕ → LedgerTxn → Bool
in_source matched t = elim t.object_id [ none ↦ true | some o ↦ is_matched matched t ]

abbrev pub surplus : LedgerTxn → Break
surplus t = record {
  kind = missing_in_source;
  object_id = t.object_id;
  event_id = t.event_id;
  expected_minor = none;
  actual_minor = some t.debit_total;
}

unfoldable pub unlisted_txns : List ℕ → List LedgerTxn → List Break
unlisted_txns matched [] = []
unlisted_txns matched (t ∷ ts) =
    let rest = unlisted_txns matched ts in if in_source matched t then rest else surplus t ∷ rest

-- The report, once every balance transaction has been read.
unfoldable pub report : List LedgerTxn → Db → List Statement → ReconResult
report ledger db statements =
    let m = match_all ledger statements (record { breaks = []; matched = []; checked = 0 }) in
    record {
      breaks = m.breaks ++ unlisted_txns m.matched ledger ++ invariant_breaks (check db);
      checked = m.checked;
      invariant_ok = invariant_ok (check db);
    }

-- `reconcile_stripe`, with `created_gte`
unfoldable pub reconcile_stripe : Option ℤ → Db → List Fields → Result Raised ReconResult
unfolding statements_of
reconcile_stripe created_gte db bts = do
  statements ← statements_of bts
  ok (report (load_ledger (record { currency = none; since = created_gte }) db) db statements)
