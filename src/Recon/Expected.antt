-- ===== src/Recon/Expected.antt =====
-- ledgerproof/recon/reconciler.py: `reconcile_expected`, the ledger against the events that the
-- caller knows it delivered. One read-only transaction reads one database.
pub mod Agrees
pub mod Dropped
pub mod Verdict
use Prim.Native.String.{compare}
use text.Mathlib.Text.{is_lt}
use ledger_proof.Base.{
  ℕ, suc, ◌+◌, ◌/◌, String, Bool, true, false, Option, none, some, List, [], ◌∷◌, ◌++◌, any, str_eq,
  if◌then◌else◌,
}
use ledger_proof.Base.Int.{ℤ, pos, abs, ◌==ℤ◌}
use ledger_proof.Base.Dict.{Dict, lookup, insert}
use ledger_proof.Ledger.Schema.{Db}
use ledger_proof.Ledger.Invariant.{check, invariant_ok}
use ledger_proof.Recon.Breaks.{
  Break, missing_in_ledger, missing_in_source, amount_mismatch, ReconResult, invariant_breaks,
}
use ledger_proof.Recon.Snapshot.{LedgerTxn, load_ledger}

pub record ExpectedEvent : Type 0 where
  pub event_id : String
  pub expected_delta : Dict ℤ

-- `_magnitude`
unfoldable pub magnitude : Dict ℤ → ℕ
magnitude delta = l1_norm delta / 2
  where
    l1_norm : Dict ℤ → ℕ
    l1_norm [] = 0
    l1_norm ((account, v) ∷ rest) = abs v + l1_norm rest

-- A transaction without an event id is not among them.
abbrev pub index : Option String → LedgerTxn → Dict LedgerTxn → Dict LedgerTxn
index none t d = d
index (some id) t d = insert id t d

-- `by_event`: the last transaction of each event id
unfoldable pub by_event : List LedgerTxn → Dict LedgerTxn → Dict LedgerTxn
by_event [] d = d
by_event (t ∷ ts) d = by_event ts (index t.event_id t d)

-- The part of a delta that is not zero.
unfoldable pub nonzero : Dict ℤ → Dict ℤ
nonzero [] = []
nonzero ((account, v) ∷ rest) =
    let kept = nonzero rest in if v ==ℤ pos 0 then kept else (account, v) ∷ kept

-- `d.get(account, 0)`
abbrev pub amount_in : Dict ℤ → String → ℤ
amount_in d account = elim (lookup account d) [ none ↦ pos 0 | some v ↦ v ]

-- `sorted(set(a) | set(b))`
unfoldable pub insert_name : String → List String → List String
insert_name n [] = n ∷ []
insert_name n (m ∷ ms) =
    let rest = insert_name n ms in
    if str_eq n m then m ∷ ms else if is_lt (compare n m) then n ∷ m ∷ ms else m ∷ rest

unfoldable pub names_of : Dict ℤ → List String → List String
unfolding insert_name
names_of [] names = names
names_of ((n, v) ∷ d) names = insert_name n (names_of d names)

abbrev mismatch : LedgerTxn → String → ℤ → ℤ → Break
mismatch t id want got = record {
  kind = amount_mismatch;
  object_id = t.object_id;
  event_id = some id;
  expected_minor = some want;
  actual_minor = some got;
}

-- One AMOUNT_MISMATCH for each account of `names` that differs.
unfoldable pub differences : LedgerTxn → String → Dict ℤ → List String → List Break
differences t id delta [] = []
differences t id delta (n ∷ names) =
    let rest = differences t id delta names in
    if amount_in delta n ==ℤ amount_in t.delta n
    then rest
    else mismatch t id (amount_in delta n) (amount_in t.delta n) ∷ rest

unfoldable pub absent : String → Dict ℤ → Break
unfolding magnitude
absent id delta = record {
  kind = missing_in_ledger;
  object_id = none;
  event_id = some id;
  expected_minor = some (pos (magnitude delta));
  actual_minor = none;
}

-- The local variables of the loop.
pub record Tally : Type 0 where
  pub breaks : List Break
  pub seen : List String
  pub checked : ℕ

abbrev pub is_seen : List String → String → Bool
is_seen seen id = any (str_eq id) seen

-- A money event without a transaction; an event that moves no money should have none.
unfoldable pub missing : String → Dict ℤ → List Break × ℕ
unfolding absent
missing id [] = ([], 0)
missing id (entry ∷ entries) = (absent id (entry ∷ entries) ∷ [], 1)

-- What the loop appends for one event, and whether it counts as checked.
unfoldable pub judged : Dict LedgerTxn → String → Dict ℤ → List Break × ℕ
judged ledger id delta = elim (lookup id ledger) [
  | none ↦ missing id delta
  | some t ↦ (differences t id delta (names_of delta (names_of t.delta [])), 1)
]

unfoldable pub check_event : Dict LedgerTxn → ExpectedEvent → Tally → Tally
check_event ledger e tally =
    let (found, counted) = judged ledger e.event_id (nonzero e.expected_delta) in
    if is_seen tally.seen e.event_id then tally else record {
      breaks = tally.breaks ++ found;
      seen = e.event_id ∷ tally.seen;
      checked = tally.checked + counted;
    }

unfoldable pub check_events : Dict LedgerTxn → List ExpectedEvent → Tally → Tally
check_events ledger [] tally = tally
check_events ledger (e ∷ es) tally = check_events ledger es (check_event ledger e tally)

-- `txn.event_id is not None and txn.event_id in seen`
abbrev pub delivered : List String → LedgerTxn → Bool
delivered seen t = elim t.event_id [ none ↦ false | some id ↦ is_seen seen id ]

abbrev surplus : LedgerTxn → Break
surplus t = record {
  kind = missing_in_source;
  object_id = t.object_id;
  event_id = t.event_id;
  expected_minor = none;
  actual_minor = some t.debit_total;
}

-- The second loop, over the ledger.
unfoldable pub unmatched : List String → List LedgerTxn → List Break
unmatched seen [] = []
unmatched seen (t ∷ ts) =
    let rest = unmatched seen ts in if delivered seen t then rest else surplus t ∷ rest

-- `reconcile_expected`, in one currency
unfoldable pub reconcile_expected : String → Db → List ExpectedEvent → ReconResult
reconcile_expected currency db expected =
    let ledger = load_ledger (record { currency = some currency; since = none }) db in
    let tally =
      check_events (by_event ledger []) expected (record { breaks = []; seen = []; checked = 0 }) in
    record {
      breaks = tally.breaks ++ unmatched tally.seen ledger ++ invariant_breaks (check db);
      checked = tally.checked;
      invariant_ok = invariant_ok (check db);
    }
