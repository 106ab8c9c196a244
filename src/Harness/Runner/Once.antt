-- ===== src/Harness/Runner/Once.antt =====
-- What a run of harness/runner.py without a break says of the transactions in the ledger.
use ledger_proof.Base.{
  ℕ, ◌+◌, ◌≤◌, String, Bool, true, Option, none, some, List, [], ◌∷◌, length, str_eq, if◌then◌else◌,
  ◌≡◌, refl, sym, ◌∙◌, arith, Every, Bool-cases, inl, inr, eq_iff,
}
use ledger_proof.Ledger.Schema.{Db, TransactionRow}
use ledger_proof.Stripe.Signature.{Text}
use ledger_proof.Harness.Events.{EventFixture}
use ledger_proof.Harness.Faults.{FaultPlan, Reason}
use ledger_proof.Harness.Runner.{sorted_ids, distinct, detect_breaks}
use ledger_proof.Harness.Runner.Conforms.{detect_breaks-Conforms}
use ledger_proof.Base.Names.{among, times, pigeonhole, times-absent, Every-among, among-Every}
use ledger_proof.Harness.Runner.Ids.{among-sorted_ids, distinct-Apart, among-distinct}
use ledger_proof.Harness.Runner.Observe.{
  DeliveryResult, picked, posted_among, rows_of_events, candidates, observation,
}

-- The transactions of an event.
abbrev own : String → Option String → ℕ
own id none = 0
own id (some other) = if str_eq id other then 1 else 0

abbrev pub transactions_of : String → List TransactionRow → ℕ
transactions_of id [] = 0
transactions_of id (row ∷ rows) = own id row.stripe_event_id + transactions_of id rows

times-picked :
    (ids rest : List String) (id : String) (o : Option String)
    → among ids id ≡ true
    → times id (picked ids o rest) ≡ own id o + times id rest
times-picked ids rest id none listed = omega arith
times-picked ids rest id (some other) listed = elim (Bool-cases (among ids other)) [
  | inl named ↦ rw named refl
  | inr unnamed ↦ rw unnamed (ground (arith, listed, unnamed, eq_iff id other))
]

times-posted_among :
    (ids : List String) (id : String) (rows : List TransactionRow)
    → among ids id ≡ true
    → times id (posted_among ids rows) ≡ transactions_of id rows
unfolding posted_among
times-posted_among ids id [] listed = refl
times-posted_among ids id (row ∷ rows) listed = omega (
  arith,
  times-picked ids (posted_among ids rows) id row.stripe_event_id listed,
  times-posted_among ids id rows listed,
)

counted :
    (id : String) (rows due : List String)
    → length rows ≤ length (distinct due)
    → Every (λ k. among rows k ≡ true) (distinct due)
    → times id rows ≡ (if among due id then 1 else 0)
counted id rows due few named = elim (Bool-cases (among due id)) [
  | inl own ↦ rw own (
      Every-among (λ k. times k rows ≡ 1) id (distinct due)
        ((pigeonhole (distinct due) rows (distinct-Apart due) named).1 few)
        (among-distinct id due ∙ own))
  | inr foreign ↦ rw foreign (elim (Bool-cases (among rows id)) [
    | inl there ↦
        let (more, _) =
          pigeonhole (id ∷ distinct due) rows (among-distinct id due ∙ foreign, distinct-Apart due)
            (there, named) in
        absurd (omega (arith, more, few))
    | inr absent ↦ times-absent id rows absent
  ])
]

-- When a run of the harness reports no break, then of every event id of the scenario the ledger
-- has exactly one transaction if the plan expects the event to post, and none otherwise.
pub judged_once :
    (detail : String → Reason → ℕ → Text → String) (fault_plan : FaultPlan)
    (fixtures : List EventFixture) (results : List DeliveryResult) (before after : Db)
    (quiescent : Bool) (answering : Option Bool) (id : String)
    → among (candidates fixtures fault_plan.deliveries) id ≡ true
    → detect_breaks fault_plan
        (observation detail fault_plan fixtures results before after quiescent answering)
      ≡ []
    → transactions_of id after.transactions
      ≡ (if among fault_plan.expectation.posted_event_ids id then 1 else 0)
unfolding observation
judged_once detail fault_plan fixtures results before after quiescent answering id listed fine =
    let due = fault_plan.expectation.posted_event_ids in
    let ids = candidates fixtures fault_plan.deliveries in
    let rows = rows_of_events after ids in
    let c = (detect_breaks-Conforms fault_plan _).0 fine in
    let named =
      among-Every (λ k. among rows k ≡ true) (distinct due)
        λ k h.
          sym (among-sorted_ids k rows)
          ∙ Every-among (λ k. among (sorted_ids rows) k ≡ true) k due c.none_lost
              (sym (among-distinct k due) ∙ h) in
    sym (times-posted_among ids id after.transactions listed)
    ∙ counted id rows due c.posted_once named
