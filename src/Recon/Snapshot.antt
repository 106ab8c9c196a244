-- ===== src/Recon/Snapshot.antt =====
-- ledgerproof/recon/reconciler.py: `_load_ledger`, every transaction as its effect on each account.
-- The query also orders the accounts of a transaction by name: nothing reads that order.
use ledger_proof.Base.{
  ℕ, String, Bool, true, ◌&&◌, ◌||◌, Option, none, some, List, [], ◌∷◌, str_eq, ◌==◌, ltb,
  if◌then◌else◌,
}
use ledger_proof.Base.Int.{ℤ, pos, ◌+ℤ◌, ◌==ℤ◌, ltb_ℤ, leb_ℤ}
use ledger_proof.Base.Dict.{Dict, lookup, insert}
use ledger_proof.Ledger.Schema.{debit, dir_eq, Account, TransactionRow, EntryRow, Db}
use ledger_proof.Ledger.Balances.{entry_effect}

-- `_LedgerTxn`
pub record LedgerTxn : Type 0 where
  pub txn_id : ℕ
  pub event_id : Option String
  pub object_id : Option String
  pub event_type : Option String
  pub delta : Dict ℤ
  pub debit_total : ℤ

-- The keyword arguments `currency` and `since`: the WHERE clause.
pub record Scope : Type 0 where
  pub currency : Option String
  pub since : Option ℤ

abbrev pub in_scope : Scope → TransactionRow → Account → Bool
in_scope s t a =
    (elim s.currency [ none ↦ true | some c ↦ str_eq a.currency c ])
    && (elim s.since [ none ↦ true | some from ↦ leb_ℤ from t.occurred_at ])

-- The two sums of one group.
pub record Sums : Type 0 where
  pub net_minor : ℤ
  pub debit_minor : ℤ

abbrev pub sums_or_zero : Option Sums → Sums
sums_or_zero none = record { net_minor = pos 0; debit_minor = pos 0 }
sums_or_zero (some s) = s

abbrev pub add_entry : Account → EntryRow → Sums → Sums
add_entry a e s = record {
  net_minor = s.net_minor +ℤ entry_effect a.normal e;
  debit_minor = s.debit_minor +ℤ (if dir_eq e.dir debit then e.amount_minor else pos 0);
}

-- JOIN accounts: one entry in the groups of its transaction.
unfoldable pub count_entry :
    Scope → TransactionRow → EntryRow → List Account → Dict Sums → Dict Sums
count_entry s t e [] groups = groups
count_entry s t e (a ∷ accts) groups =
    let here = insert a.name (add_entry a e (sums_or_zero (lookup a.name groups))) groups in
    count_entry s t e accts (if a.id == e.account_id && in_scope s t a then here else groups)

-- JOIN entries, GROUP BY the transaction and the account's name.
unfoldable pub group_entries :
    Scope → TransactionRow → List Account → List EntryRow → Dict Sums → Dict Sums
unfolding count_entry
group_entries s t accts [] groups = groups
group_entries s t accts (e ∷ es) groups =
    group_entries s t accts es
      (if e.transaction_id == t.id then count_entry s t e accts groups else groups)

-- An account that is moved and moved back is not in the delta; each account is one group.
unfoldable pub delta_of : Dict Sums → Dict ℤ
delta_of [] = []
delta_of ((account, s) ∷ groups) =
    let rest = delta_of groups in
    if s.net_minor ==ℤ pos 0 then rest else (account, s.net_minor) ∷ rest

unfoldable pub debits_of : Dict Sums → ℤ
debits_of [] = pos 0
debits_of ((account, s) ∷ groups) = s.debit_minor +ℤ debits_of groups

abbrev pub reduced : TransactionRow → Dict Sums → LedgerTxn
reduced t groups = record {
  txn_id = t.id;
  event_id = t.stripe_event_id;
  object_id = t.stripe_object_id;
  event_type = t.event_type;
  delta = delta_of groups;
  debit_total = debits_of groups;
}

-- A transaction without rows in scope is not in the result.
abbrev pub present : TransactionRow → Dict Sums → List LedgerTxn → List LedgerTxn
present t [] rest = rest
present t (group ∷ groups) rest = reduced t (group ∷ groups) ∷ rest

-- ORDER BY t.occurred_at, t.id
abbrev pub comes_before : TransactionRow → TransactionRow → Bool
comes_before t u =
    ltb_ℤ t.occurred_at u.occurred_at || ((t.occurred_at ==ℤ u.occurred_at) && ltb t.id u.id)

abbrev pub insert_row : TransactionRow → List TransactionRow → List TransactionRow
insert_row t [] = t ∷ []
insert_row t (u ∷ us) =
    let rest = insert_row t us in if comes_before t u then t ∷ u ∷ us else u ∷ rest

abbrev pub in_order : List TransactionRow → List TransactionRow
in_order [] = []
in_order (t ∷ ts) = insert_row t (in_order ts)

unfoldable pub load_rows : Scope → Db → List TransactionRow → List LedgerTxn
unfolding group_entries
load_rows s db [] = []
load_rows s db (t ∷ ts) =
    present t (group_entries s t db.accounts db.entries []) (load_rows s db ts)

-- `_load_ledger`
unfoldable pub load_ledger : Scope → Db → List LedgerTxn
unfolding load_rows
load_ledger s db = load_rows s db (in_order db.transactions)
