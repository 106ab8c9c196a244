-- ===== src/Harness/Runner/Observe.antt =====
-- harness/runner.py: what `run_scenario` observes of the ledger and the answers, for `detect_breaks`.
-- The reads of the database after the run are taken to see one state, and the text of a wrong reason
-- is a parameter.
use ledger_proof.Base.{
  ℕ, String, Bool, true, false, ◌&&◌, ◌||◌, not, Option, none, some, List, [], ◌∷◌, ◌++◌, any, map,
  length, leb, ltb, if◌then◌else◌,
}
use ledger_proof.Base.Dict.{Dict}
use ledger_proof.Base.Int.{ℤ}
use ledger_proof.Ledger.Schema.{Db, TransactionRow}
use ledger_proof.Ledger.Balances.{all_balances, account_balances}
use ledger_proof.Ledger.Invariant.{check, invariant_ok}
use ledger_proof.Stripe.Signature.{Text}
use ledger_proof.Recon.Breaks.{Break, missing_in_ledger}
use ledger_proof.Recon.Expected.{ExpectedEvent, reconcile_expected}
use ledger_proof.Harness.Events.{EventFixture}
use ledger_proof.Harness.Faults.{
  Delivery, FaultPlan, Expectation, Reason, invalid_signature, event_id, starts_with,
}
use ledger_proof.Base.Names.{among}
use ledger_proof.Harness.Runner.{Observation, sorted_ids, distinct, diff}

-- What came back for one delivery.
pub record DeliveryResult : Type 0 where
  pub status_code : Option ℕ
  pub body : Text

-- `SELECT stripe_event_id ... WHERE stripe_event_id = ANY(ids)`
abbrev pub picked : List String → Option String → List String → List String
picked ids none rest = rest
picked ids (some id) rest = if among ids id then id ∷ rest else rest

unfoldable pub posted_among : List String → List TransactionRow → List String
posted_among ids [] = []
posted_among ids (row ∷ rows) = picked ids row.stripe_event_id (posted_among ids rows)

-- `_posted_rows`
abbrev pub rows_of_events : Db → List String → List String
rows_of_events db ids = posted_among ids db.transactions

unfoldable pub candidates : List EventFixture → List Delivery → List String
candidates fixtures deliveries =
    distinct (map event_id fixtures ++ map (λ (d : Delivery). d.event_id) deliveries)

abbrev pub status_within : ℕ → ℕ → Option ℕ → Bool
status_within low high none = false
status_within low high (some status) = leb low status && ltb status high

-- Of the deliveries that were to be refused, those answered 2xx.
unfoldable pub answered_2xx : List Delivery → List DeliveryResult → List String
answered_2xx [] results = []
answered_2xx (d ∷ ds) [] = []
answered_2xx (d ∷ ds) (r ∷ rs) =
    let rest = answered_2xx ds rs in
    if d.expect_rejected && status_within 200 300 r.status_code then d.event_id ∷ rest else rest

-- `needle in text`
unfoldable pub contains : Text → Text → Bool
contains needle [] = starts_with needle []
contains needle (c ∷ cs) = starts_with needle (c ∷ cs) || contains needle cs

-- "invalid signature"
abbrev pub reason_text : Reason → Text
reason_text invalid_signature =
    b'i' ∷ b'n' ∷ b'v' ∷ b'a' ∷ b'l' ∷ b'i' ∷ b'd' ∷ b' ' ∷ b's' ∷ b'i' ∷ b'g' ∷ b'n' ∷ b'a' ∷ b't'
    ∷ b'u' ∷ b'r' ∷ b'e' ∷ []

-- `all(samples) if samples else None`, of the answers to the probes.
abbrev pub responsive : List Bool → Option Bool
responsive [] = none
responsive (sample ∷ samples) = some (sample && every samples)
  where
    every : List Bool → Bool
    every [] = true
    every (s ∷ ss) = s && every ss

-- A missing event of one of the ids.
abbrev pub misses : List String → Break → Bool
misses ids b = elim b.kind [
  | missing_in_ledger ↦ elim b.event_id [ none ↦ false | some id ↦ among ids id ]
  | _ ↦ false
]

abbrev pub as_expected : EventFixture → ExpectedEvent
as_expected fx = record { event_id = event_id fx; expected_delta = fx.expected_delta }

unfoldable pub recon_reported : Expectation → Db → List EventFixture → List String → Bool
recon_reported exp db fixtures ids =
    exp.reconciler_should_report_break
    && any (misses ids) (reconcile_expected "USD" db (map as_expected fixtures)).breaks

module _ (detail : String → Reason → ℕ → Text → String) where
  abbrev pub wrong_reason : Delivery → DeliveryResult → List String
  wrong_reason d r = elim d.expect_rejection_reason [
    | none ↦ []
    | some reason ↦ elim r.status_code [
      | none ↦ []
      | some status ↦
          if leb 400 status && ltb status 500 && not (contains (reason_text reason) r.body)
          then detail d.event_id reason status r.body ∷ []
          else []
    ]
  ]

  unfoldable pub wrong_reasons : List Delivery → List DeliveryResult → List String
  wrong_reasons [] results = []
  wrong_reasons (d ∷ ds) [] = []
  wrong_reasons (d ∷ ds) (r ∷ rs) = wrong_reason d r ++ wrong_reasons ds rs

  unfoldable pub observation :
      FaultPlan
      → List EventFixture
      → List DeliveryResult
      → Db
      → Db
      → Bool
      → Option Bool
      → Observation
  observation fault_plan fixtures results before after quiescent answering =
      let ids = candidates fixtures fault_plan.deliveries in
      let rows = rows_of_events after ids in
      record {
        ledger_diff = diff (balances before) (balances after);
        invariant_after = invariant_ok (check after);
        posted = sorted_ids rows;
        transactions = length rows;
        quiescent = quiescent;
        accepted_rejected = distinct (answered_2xx fault_plan.deliveries results);
        wrong_rejection_reason = distinct (wrong_reasons fault_plan.deliveries results);
        recon_reported_break = recon_reported fault_plan.expectation after fixtures ids;
        ingest_responsive = answering;
      }
    where
      balances : Db → Dict ℤ
      balances db = all_balances (account_balances db.accounts db.entries) []
