-- ===== src/Recon/Expected/Verdict.antt =====
-- The whole report of `reconcile_expected` in ledgerproof/recon/reconciler.py.
use ledger_proof.Base.{
  String, Bool, true, false, ◌&&◌, ◌||◌, none, some, List, [], ◌∷◌, ◌++◌, str_eq, ◌≡◌, ◌↔◌, refl,
  sym, ap, ◌∙◌, inl, inr, arith, Every, Bool-cases, Option-cases, &&-split, subst, str_cases,
}
use ledger_proof.Base.Dict.{Dict}
use ledger_proof.Ledger.Schema.{Db}
use ledger_proof.Ledger.Invariant.{CurrencyCheck, currency_ok, check, invariant_ok}
use ledger_proof.Recon.Breaks.{recon_ok, no_breaks, invariant_breaks}
use ledger_proof.Recon.Snapshot.{LedgerTxn, load_ledger}
use ledger_proof.Recon.Expected.{
  ExpectedEvent, nonzero, by_event, judged, Tally, is_seen, check_event, check_events, delivered,
  unmatched, reconcile_expected,
}
use ledger_proof.Recon.Expected.Agrees.{no_breaks-append, judged-Met, firsts, AllMet}

abbrev pub ids_of : List ExpectedEvent → List String
ids_of [] = []
ids_of (e ∷ es) = e.event_id ∷ ids_of es

both : {a b : Bool} → a ≡ true → b ≡ true → (a && b) ≡ true
both h k = rw (h, k) refl

-- An id that was seen adds nothing.
already :
    (seen later : List String) (id old : String)
    → is_seen seen old ≡ true
    → (is_seen seen id || is_seen later id)
      ≡ (is_seen seen id || (str_eq id old || is_seen later id))
already seen later id old h = elim (str_cases id old) [
  | inl same ↦ rw (ap (is_seen seen) same ∙ h) refl
  | inr other ↦ rw other refl
]

-- The two cases of one turn of the loop.
pub check_event-seen :
    (ledger : Dict LedgerTxn) (e : ExpectedEvent) (tally : Tally)
    → is_seen tally.seen e.event_id ≡ true
    → check_event ledger e tally ≡ tally
unfolding check_event
check_event-seen ledger e tally h = rw h refl

pub check_event-new :
    (ledger : Dict LedgerTxn) (e : ExpectedEvent) (tally : Tally)
    → is_seen tally.seen e.event_id ≡ false
    → let turn = check_event ledger e tally in
      (turn.breaks ≡ tally.breaks ++ (judged ledger e.event_id (nonzero e.expected_delta)).0)
      × (turn.seen ≡ e.event_id ∷ tally.seen)
unfolding check_event
check_event-new ledger e tally h = (rw h refl, rw h refl)

pub check_events-cons :
    (ledger : Dict LedgerTxn) (e : ExpectedEvent) (es : List ExpectedEvent) (tally : Tally)
    → check_events ledger (e ∷ es) tally ≡ check_events ledger es (check_event ledger e tally)
unfolding check_events
check_events-cons ledger e es tally = refl

pub check_events-nil :
    (ledger : Dict LedgerTxn) (tally : Tally) → check_events ledger [] tally ≡ tally
unfolding check_events
check_events-nil ledger tally = refl

check_events-old :
    (ledger : Dict LedgerTxn) (e : ExpectedEvent) (es : List ExpectedEvent) (tally : Tally)
    → is_seen tally.seen e.event_id ≡ true
    → check_events ledger (e ∷ es) tally ≡ check_events ledger es tally
check_events-old ledger e es tally old =
    check_events-cons ledger e es tally
    ∙ ap (check_events ledger es) (check_event-seen ledger e tally old)

firsts-old :
    (seen : List String) (e : ExpectedEvent) (es : List ExpectedEvent)
    → is_seen seen e.event_id ≡ true
    → firsts seen (e ∷ es) ≡ firsts seen es
unfolding firsts
firsts-old seen e es old = rw old refl

firsts-new :
    (seen : List String) (e : ExpectedEvent) (es : List ExpectedEvent)
    → is_seen seen e.event_id ≡ false
    → firsts seen (e ∷ es) ≡ e ∷ firsts (e.event_id ∷ seen) es
unfolding firsts
firsts-new seen e es new = rw new refl

-- The loop reports nothing exactly where the first of each event id agrees with the ledger.
check_events-AllMet :
    (ledger : Dict LedgerTxn) (es : List ExpectedEvent) (tally : Tally)
    → (no_breaks (check_events ledger es tally).breaks ≡ true)
      ↔ (no_breaks tally.breaks ≡ true) × AllMet ledger (firsts tally.seen es)
unfolding firsts
check_events-AllMet ledger [] tally = rw (check_events-nil ledger tally) (λ h. (h, tt), λ h. h.0)
check_events-AllMet ledger (e ∷ es) tally =
    let turn = check_event ledger e tally in
    let (first, last) = check_events-AllMet ledger es turn in
    elim (Bool-cases (is_seen tally.seen e.event_id)) [
      | inl old ↦
          rw (check_events-old ledger e es tally old, firsts-old tally.seen e es old)
            (check_events-AllMet ledger es tally)
      | inr new ↦
          let (grown, seen) = check_event-new ledger e tally new in
          let own = judged ledger e.event_id (nonzero e.expected_delta) in
          let (to_met, of_met) = judged-Met ledger e.event_id (nonzero e.expected_delta) in
          let fresh = firsts-new tally.seen e es new in
          let split = ap no_breaks grown ∙ no_breaks-append tally.breaks own.0 in
          subst
            (λ (t : Tally).
              (no_breaks t.breaks ≡ true)
              ↔ (no_breaks tally.breaks ≡ true) × AllMet ledger (firsts tally.seen (e ∷ es)))
            (sym (check_events-cons ledger e es tally))
            (
              λ h.
                  let (clean, met) = first h in
                  let (before, now) = &&-split _ _ (sym split ∙ clean) in
                  (
                    before,
                    subst (AllMet ledger) (sym fresh) (
                      to_met now,
                      subst (λ (l : List String). AllMet ledger (firsts l es)) seen met,
                    ),
                  ),
              λ h.
                  let (now, met) = subst (AllMet ledger) fresh h.1 in
                  last (
                    split ∙ both h.0 (of_met now),
                    subst (λ (l : List String). AllMet ledger (firsts l es)) (sym seen) met,
                  ),
            )
    ]

seen_after :
    (ledger : Dict LedgerTxn) (es : List ExpectedEvent) (tally : Tally) (id : String)
    → is_seen (check_events ledger es tally).seen id
      ≡ (is_seen tally.seen id || is_seen (ids_of es) id)
seen_after ledger [] tally id = rw (check_events-nil ledger tally) (ground arith)
seen_after ledger (e ∷ es) tally id = elim (Bool-cases (is_seen tally.seen e.event_id)) [
  | inl old ↦
      ap (λ (t : Tally). is_seen t.seen id) (check_events-old ledger e es tally old)
      ∙ seen_after ledger es tally id
      ∙ already tally.seen (ids_of es) id e.event_id old
  | inr new ↦
      ap (λ (t : Tally). is_seen t.seen id) (check_events-cons ledger e es tally)
      ∙ seen_after ledger es (check_event ledger e tally) id
      ∙ ap (λ (l : List String). is_seen l id || is_seen (ids_of es) id)
          (check_event-new ledger e tally new).1
      ∙ ground arith
]

unmatched-none :
    (seen : List String) (ts : List LedgerTxn)
    → (no_breaks (unmatched seen ts) ≡ true) ↔ Every (λ t. delivered seen t ≡ true) ts
unfolding unmatched
unmatched-none seen [] = (λ _. tt, λ _. refl)
unmatched-none seen (t ∷ ts) =
    let (first, last) = unmatched-none seen ts in
    elim (Bool-cases (delivered seen t)) [
      | inl known ↦
          (λ h. (known, first (rw (known, unmatched) at h)), λ h. rw (known, unmatched) (last h.1))
      | inr unknown ↦ (
        λ h. absurd (not_both (rw (unknown, unmatched) at h)),
        λ h. absurd (not_both (sym unknown ∙ h.0)),
      )
    ]
  where
    not_both : ¬ (false ≡ true)
    not_both h = cc

invariant_breaks-none :
    (cs : List CurrencyCheck) → no_breaks (invariant_breaks cs) ≡ invariant_ok cs
unfolding invariant_breaks invariant_ok
invariant_breaks-none [] = refl
invariant_breaks-none (c ∷ cs) = elim (Bool-cases (currency_ok c)) [
  | inl good ↦ rw good (invariant_breaks-none cs)
  | inr bad ↦ rw bad refl
]

abbrev pub in_currency : String → Db → List LedgerTxn
in_currency currency db = load_ledger (record { currency = some currency; since = none }) db

-- What `reconcile_expected` compares, as one statement: the events that were delivered agree with
-- the ledger, the ledger holds nothing else, and its books balance.
pub record Agrees (currency : String) (db : Db) (expected : List ExpectedEvent) : Type 0 where
  pub events_met : AllMet (by_event (in_currency currency db) []) (firsts [] expected)
  pub nothing_else : Every (λ t. delivered (ids_of expected) t ≡ true) (in_currency currency db)
  pub balanced : invariant_ok (check db) ≡ true

delivered-same :
    (a b : List String) (t : LedgerTxn)
    → ((id : String) → is_seen a id ≡ is_seen b id)
    → delivered a t ≡ delivered b t
delivered-same a b t same = elim (Option-cases t.event_id) [
  | inl gone ↦ rw (gone, delivered) refl
  | inr (id, here) ↦ rw (here, delivered) (same id)
]

Every-delivered :
    (a b : List String) (ts : List LedgerTxn)
    → ((id : String) → is_seen a id ≡ is_seen b id)
    → Every (λ t. delivered a t ≡ true) ts
    → Every (λ t. delivered b t ≡ true) ts
Every-delivered a b [] same h = tt
Every-delivered a b (t ∷ ts) same h =
    (sym (delivered-same a b t same) ∙ h.0, Every-delivered a b ts same h.1)

-- Reconcile_expected is ok if and only if, in the currency that it reads, the first delivery of
-- each event id agrees with the ledger (its transaction changes every account by the expected
-- amount, or there is none and the expected change is zero), every transaction of the ledger is
-- of an event that was delivered, and the global invariant holds.
pub ok-Agrees :
    (currency : String) (db : Db) (expected : List ExpectedEvent)
    → (recon_ok (reconcile_expected currency db expected) ≡ true) ↔ Agrees currency db expected
unfolding reconcile_expected
ok-Agrees currency db expected =
    let ledger = in_currency currency db in
    let start : Tally = record { breaks = []; seen = []; checked = 0 } in
    let tally = check_events (by_event ledger []) expected start in
    let (to_met, of_met) = check_events-AllMet (by_event ledger []) expected start in
    let (to_known, of_known) = unmatched-none tally.seen ledger in
    let seen = seen_after (by_event ledger []) expected start in
    let parts =
      no_breaks-append (tally.breaks ++ unmatched tally.seen ledger) (invariant_breaks (check db))
      ∙ ap (λ (b : Bool). b && no_breaks (invariant_breaks (check db)))
          (no_breaks-append tally.breaks (unmatched tally.seen ledger)) in
    (
      λ h.
          let (clean, balanced) = &&-split _ _ h in
          let (met, known) = &&-split _ _ (&&-split _ _ (sym parts ∙ clean)).0 in
          record {
            events_met = (to_met met).1;
            nothing_else =
                Every-delivered tally.seen (ids_of expected) ledger seen (to_known known);
            balanced = balanced;
          },
      λ a.
          let met = of_met (refl, a.events_met) in
          let known = of_known (
            Every-delivered (ids_of expected) tally.seen ledger (λ id. sym (seen id))
              a.nothing_else) in
          let own = invariant_breaks-none (check db) ∙ a.balanced in
          both (parts ∙ both (both met known) own) a.balanced,
    )
