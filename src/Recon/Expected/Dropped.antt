-- ===== src/Recon/Expected/Dropped.antt =====
-- What `reconcile_expected` of ledgerproof/recon/reconciler.py reports of an event that was dropped.
use ledger_proof.Base.{
  ℕ, String, Bool, true, false, ◌||◌, Option, none, some, List, [], ◌∷◌, ◌++◌, any, any-append,
  sql_eq, str_eq, ◌≡◌, ◌≢◌, refl, ap, ◌∙◌, inl, inr, arith, Bool-cases, eq_iff, eq_refl,
}
use ledger_proof.Base.Int.{ℤ}
use ledger_proof.Base.Dict.{Dict, lookup, lookup-insert}
use ledger_proof.Ledger.Schema.{Db, TransactionRow}
use ledger_proof.Ledger.Invariant.{check}
use ledger_proof.Recon.Breaks.{Break, missing_in_ledger, invariant_breaks}
use ledger_proof.Recon.Snapshot.{
  LedgerTxn, load_ledger, load_rows, in_order, insert_row, present, Scope, Sums, group_entries,
}
use ledger_proof.Recon.Expected.{
  ExpectedEvent, nonzero, index, by_event, judged, missing, Tally, is_seen, check_event,
  check_events, unmatched, reconcile_expected, absent,
}
use ledger_proof.Recon.Expected.Verdict.{
  ids_of, check_event-seen, check_event-new, check_events-cons, check_events-nil, in_currency,
}

abbrev pub is_missing : String → Break → Bool
is_missing id b = elim b.kind [
  | missing_in_ledger ↦ elim b.event_id [ none ↦ false | some own ↦ str_eq id own ]
  | _ ↦ false
]

neither : (a b : Bool) → (a || b) ≡ false → (a ≡ false) × (b ≡ false)
neither a b h = ground arith

module _ (p : Break → Bool) (ledger : Dict LedgerTxn) where
  -- A break that the loop has appended stays.
  check_events-keeps :
      (es : List ExpectedEvent) (tally : Tally)
      → any p tally.breaks ≡ true
      → any p (check_events ledger es tally).breaks ≡ true
  check_events-keeps [] tally h = rw (check_events-nil ledger tally) h
  check_events-keeps (e ∷ es) tally h = rw (check_events-cons ledger e es tally) (
      check_events-keeps es (check_event ledger e tally)
        (elim (Bool-cases (is_seen tally.seen e.event_id)) [
          | inl old ↦ rw (check_event-seen ledger e tally old) h
          | inr new ↦
              ap (any p) (check_event-new ledger e tally new).0
              ∙ any-append p tally.breaks (judged ledger e.event_id (nonzero e.expected_delta)).0
              ∙ rw h refl
        ]))

  -- The first event of its id that the ledger does not agree with is reported.
  check_events-reports :
      (before : List ExpectedEvent) (e : ExpectedEvent) (after : List ExpectedEvent) (tally : Tally)
      → is_seen tally.seen e.event_id ≡ false
      → is_seen (ids_of before) e.event_id ≡ false
      → any p (judged ledger e.event_id (nonzero e.expected_delta)).0 ≡ true
      → any p (check_events ledger (before ++ e ∷ after) tally).breaks ≡ true
  check_events-reports [] e after tally new _ h = rw (check_events-cons ledger e after tally) (
      check_events-keeps after (check_event ledger e tally) (
        ap (any p) (check_event-new ledger e tally new).0
        ∙ any-append p tally.breaks (judged ledger e.event_id (nonzero e.expected_delta)).0
        ∙ rw h (or_true (any p tally.breaks))))
    where
      or_true : (b : Bool) → (b || true) ≡ true
      or_true true = refl
      or_true false = refl
  check_events-reports (b ∷ before) e after tally new first h =
      let (apart, later) = neither (str_eq e.event_id b.event_id) _ first in
      rw (check_events-cons ledger b (before ++ e ∷ after) tally) (
        check_events-reports before e after (check_event ledger b tally)
          (elim (Bool-cases (is_seen tally.seen b.event_id)) [
            | inl old ↦ rw (check_event-seen ledger b tally old) new
            | inr fresh ↦
                ap (λ (l : List String). is_seen l e.event_id)
                  (check_event-new ledger b tally fresh).1
                ∙ rw (apart, new) refl
          ])
          later h)

-- No transaction has the event id.
abbrev pub NoTransactionOf : String → List TransactionRow → Type 0
NoTransactionOf id ts = any (λ t. sql_eq t.stripe_event_id (some id)) ts ≡ false

abbrev NoneLoaded : String → List LedgerTxn → Type 0
NoneLoaded id ts = any (λ t. sql_eq t.event_id (some id)) ts ≡ false

lookup-index :
    (id : String) (own : Option String) (t : LedgerTxn) (d : Dict LedgerTxn)
    → sql_eq own (some id) ≡ false
    → lookup id (index own t d) ≡ lookup id d
lookup-index id none t d h = refl
lookup-index id (some own) t d h =
    let apart : str_eq id own ≡ false = ground (arith, eq_iff id own, eq_iff own id) in
    lookup-insert own id t d ∙ rw apart refl

by_event-absent :
    (id : String) (ts : List LedgerTxn) (d : Dict LedgerTxn)
    → NoneLoaded id ts
    → lookup id (by_event ts d) ≡ lookup id d
unfolding by_event
by_event-absent id [] d h = refl
by_event-absent id (t ∷ ts) d h =
    let (own, rest) = neither (sql_eq t.event_id (some id)) _ h in
    by_event-absent id ts (index t.event_id t d) rest ∙ lookup-index id t.event_id t d own

present-absent :
    (id : String) (t : TransactionRow) (groups : Dict Sums) (rest : List LedgerTxn)
    → sql_eq t.stripe_event_id (some id) ≡ false
    → NoneLoaded id rest
    → NoneLoaded id (present t groups rest)
present-absent id t [] rest own h = h
present-absent id t (g ∷ groups) rest own h = rw (own, h) refl

load_rows-absent :
    (id : String) (s : Scope) (db : Db) (ts : List TransactionRow)
    → NoTransactionOf id ts
    → NoneLoaded id (load_rows s db ts)
unfolding load_rows
load_rows-absent id s db [] h = refl
load_rows-absent id s db (t ∷ ts) h =
    let (own, rest) = neither (sql_eq t.stripe_event_id (some id)) _ h in
    present-absent id t (group_entries s t db.accounts db.entries []) (load_rows s db ts) own
      (load_rows-absent id s db ts rest)

any-insert_row :
    (p : TransactionRow → Bool) (t : TransactionRow) (ts : List TransactionRow)
    → any p (insert_row t ts) ≡ (p t || any p ts)
any-insert_row p t [] = refl
any-insert_row p t (u ∷ us) = ground (arith, any-insert_row p t us)

any-in_order :
    (p : TransactionRow → Bool) (ts : List TransactionRow) → any p (in_order ts) ≡ any p ts
any-in_order p [] = refl
any-in_order p (t ∷ ts) =
    any-insert_row p t (in_order ts) ∙ ap (λ (b : Bool). p t || b) (any-in_order p ts)

judged-gone :
    (ledger : Dict LedgerTxn) (id : String) (delta : Dict ℤ)
    → lookup id ledger ≡ none
    → judged ledger id delta ≡ missing id delta
unfolding judged
judged-gone ledger id delta gone = rw (gone, judged) refl

missing-reported :
    (id : String) (delta : Dict ℤ) → delta ≢ [] → any (is_missing id) (missing id delta).0 ≡ true
unfolding missing absent
missing-reported id [] money = absurd (money refl)
missing-reported id (entry ∷ entries) money = rw (eq_refl id) refl

-- A money event that was expected and has no transaction in the database is reported as missing
-- in the ledger, under its own id, wherever it stands among the expected events, if none of that
-- id stands before it.
pub drop_reported :
    (currency : String) (db : Db) (before : List ExpectedEvent) (e : ExpectedEvent)
    (after : List ExpectedEvent)
    → NoTransactionOf e.event_id db.transactions
    → nonzero e.expected_delta ≢ []
    → is_seen (ids_of before) e.event_id ≡ false
    → any (is_missing e.event_id) (reconcile_expected currency db (before ++ e ∷ after)).breaks
      ≡ true
unfolding reconcile_expected load_ledger lookup
drop_reported currency db before e after gone money first =
    let id = e.event_id in
    let delta = nonzero e.expected_delta in
    let ledger = in_currency currency db in
    let index' = by_event ledger [] in
    let unknown = by_event-absent id ledger [] (
      load_rows-absent id (record { currency = some currency; since = none }) db
        (in_order db.transactions) (any-in_order _ db.transactions ∙ gone)) in
    let own =
      ap (λ (r : List Break × ℕ). any (is_missing id) r.0) (judged-gone index' id delta unknown)
      ∙ missing-reported id delta money in
    let tally =
      check_events index' (before ++ e ∷ after) (record { breaks = []; seen = []; checked = 0 }) in
    let report = check_events-reports (is_missing id) index' before e after _ refl first own in
    any-append (is_missing id) (tally.breaks ++ unmatched tally.seen ledger)
      (invariant_breaks (check db))
    ∙ ap (λ (b : Bool). b || any (is_missing id) (invariant_breaks (check db)))
        (any-append (is_missing id) tally.breaks (unmatched tally.seen ledger)
          ∙ ap (λ (b : Bool). b || any (is_missing id) (unmatched tally.seen ledger)) report)
