-- ===== src/Harness/Tests.antt =====
-- The theorems of the harness's plans, live requests and verdicts at concrete fixtures.
use ledger_proof.Base.{
  ℕ, ◌<◌, max, String, Option, ◌↔◌, true, false, ap, arith, ◌/◌, take, length, Bool-cases, inl, inr,
  none, some, [], ◌∷◌, ◌≡◌, ◌≢◌, refl, replicate, if◌then◌else◌, Result, ok, err, Every,
}
use ledger_proof.Base.Int.{ℤ, pos, ◌-ℤ◌, ◌+ℤ◌}
use ledger_proof.Base.Json.{Value, end, field, num, str}
use ledger_proof.Stripe.Signature.{Text, text_eq, sign, default_tolerance}
use ledger_proof.Stripe.Signature.Headers.{IsHexdigest}
use ledger_proof.Harness.Events.{EventFixture}
use ledger_proof.Base.Dict.{lookup}
use ledger_proof.Stripe.Signature.RoundTrip.{sign-verifies}
use ledger_proof.Harness.Events.Serialize.{serialize}
use ledger_proof.Harness.Faults.{truncate_body, duplicate, FaultPlan, Reason, default_params}
use ledger_proof.Harness.Faults.Build.{plan, branch, rejected_plan, signed_at}
use ledger_proof.Harness.Faults.Honest.{IsLabelled, recent_now}
use ledger_proof.Harness.Faults.Labels.{plan-IsLabelled}
use ledger_proof.Base.Dict.Same.{same_dict}
use ledger_proof.Harness.Runner.{
  Observation, detect_breaks, wrongly_accepted, lost, sorted_ids, distinct,
}
use ledger_proof.Harness.Runner.Observe.{candidates, observation}
use ledger_proof.Harness.Runner.Once.{transactions_of, judged_once}
use ledger_proof.Harness.Runner.Conforms.{Conforms, detect_breaks-Conforms}
use ledger_proof.Harness.Proxy.Live.{LiveParams, live_plan}
use ledger_proof.Harness.Proxy.Live.Untouched.{Accepts, live_plan-accepted}
use ledger_proof.Ledger.Schema.{Db, Direction, EntryRow, credit, debit}
use ledger_proof.Ledger.Balances.{balance_of}

abbrev tiny : EventFixture
tiny = record {
  event = field "id" (str "evt_1") (field "data" (num (pos 5)) end);
  kind = "charge_succeeded";
  expected_delta = ("revenue", pos 5) ∷ [];
}

-- A digest that tells the body of `tiny` from all others.
test_digest : Text → Text → ℤ → Text
test_digest payload secret ts =
    if text_eq payload (serialize tiny.event) then replicate 64 b'a' else replicate 64 b'b'

test_digest-hex : (payload key : Text) (at : ℤ) → IsHexdigest (test_digest payload key at)
unfolding test_digest
test_digest-hex payload key at = elim (Bool-cases (text_eq payload (serialize tiny.event))) [
  | inl own ↦ rw own (record { all_hex = refl; size = refl })
  | inr other ↦ rw other (record { all_hex = refl; size = refl })
]

abbrev half_body : FaultPlan
half_body =
    let body = serialize tiny.event in
    rejected_plan test_digest (b's' ∷ []) truncate_body tiny (take (length body / 2) body)
      (signed_at test_digest (b's' ∷ []) body (pos 1000))

plan-IsLabelled_example :
    Every
      (IsLabelled test_digest test_digest-hex (b's' ∷ []) (pos 1000) tiny truncate_body)
      half_body.deliveries
unfolding plan branch
plan-IsLabelled_example =
    plan-IsLabelled test_digest test_digest-hex (b's' ∷ []) (pos 1000) tiny []
      (default_params truncate_body) truncate_body half_body refl

-- What the system did with `half_body`: nothing.
abbrev idle : Observation
idle = record {
  ledger_diff = [];
  invariant_after = true;
  posted = [];
  transactions = 0;
  quiescent = true;
  accepted_rejected = [];
  wrong_rejection_reason = [];
  recon_reported_break = false;
  ingest_responsive = none;
}

detect_breaks-Conforms_example :
    (detect_breaks half_body idle ≡ []) ↔ Conforms half_body.expectation idle
detect_breaks-Conforms_example = detect_breaks-Conforms half_body idle

idle_conforms : detect_breaks half_body idle ≡ []
unfolding detect_breaks same_dict wrongly_accepted lost sorted_ids distinct rejected_plan
idle_conforms = refl

abbrev thrice : LiveParams
thrice = record {
  n = some 2;
  secret = some (b's' ∷ []);
  delay_ms = none;
  hold_ms = none;
  stale = pos 0;
  now = pos 1000;
}

abbrev inbound : Text × Text
inbound =
    let body = serialize tiny.event in
    (body, sign test_digest body (b's' ∷ []) (pos 1000) [] false none)

abbrev no_json : Text → Option Value
no_json raw = none

live_plan-accepted_example :
    Every
      (Accepts test_digest test_digest-hex no_json (b's' ∷ []) (pos 1000))
      (inbound ∷ inbound ∷ [])
unfolding live_plan serialize
live_plan-accepted_example =
    live_plan-accepted test_digest test_digest-hex no_json (b's' ∷ []) duplicate thrice inbound.0
      inbound.1 refl refl
      (sign-verifies test_digest test_digest-hex (serialize tiny.event) (b's' ∷ []) (pos 1000)
        default_tolerance (pos 1000) refl [] false refl (recent_now (pos 1000)))
      refl

abbrev sold : FaultPlan
sold = record half_body {
  deliveries = [];
  expectation = record {
    posted_event_ids = "evt_1" ∷ [];
    rejected_event_ids = [];
    balances_delta = ("cash", pos 5) ∷ ("sales", pos 5) ∷ [];
    invariant_after = true;
    reconciler_should_report_break = false;
  };
}

abbrev opened : Db
opened = record {
  accounts =
      record { id = 1; name = "cash"; kind = "asset"; normal = debit; currency = "USD" }
      ∷ record { id = 2; name = "sales"; kind = "revenue"; normal = credit; currency = "USD" }
      ∷ [];
  transactions = [];
  entries = [];
}

abbrev leg : ℕ → Direction → EntryRow
leg account dir = record {
  transaction_id = 1;
  account_id = account;
  dir = dir;
  amount_minor = pos 5;
  currency = "USD";
}

abbrev closed : Db
closed = record opened {
  transactions =
      record {
        id = 1;
        stripe_event_id = some "evt_1";
        stripe_object_id = none;
        event_type = none;
        occurred_at = pos 0;
        memo = none;
      }
      ∷ [];
  entries = leg 1 debit ∷ leg 2 credit ∷ [];
}

abbrev untold : String → Reason → ℕ → Text → String
untold id reason status body = id

judged_once_example : transactions_of "evt_1" closed.transactions ≡ 1
unfolding candidates distinct ledger_proof.Harness.Faults.event_id detect_breaks observation
    ledger_proof.Ledger.Invariant.invariant_ok ledger_proof.Ledger.Invariant.check
    ledger_proof.Ledger.Invariant.currency_ok ◌-ℤ◌ ledger_proof.Ledger.Invariant.side ◌+ℤ◌
    balance_of same_dict ledger_proof.Harness.Runner.diff ledger_proof.Harness.Runner.changes
    ledger_proof.Recon.Expected.names_of ledger_proof.Ledger.Balances.all_balances
    ledger_proof.Base.Dict.insert lookup ledger_proof.Base.Int.neg ledger_proof.Base.Json.get
    ledger_proof.Harness.Runner.Observe.answered_2xx
    ledger_proof.Harness.Runner.Observe.posted_among
    ledger_proof.Harness.Runner.Observe.recon_reported
    ledger_proof.Harness.Runner.Observe.wrong_reasons lost sorted_ids wrongly_accepted
    ledger_proof.Ledger.Balances.account_balances ledger_proof.Ledger.Balances.entry_effect
    ledger_proof.Ledger.Invariant.difference ledger_proof.Recon.Expected.insert_name
judged_once_example =
    judged_once untold sold (tiny ∷ []) [] opened closed true none "evt_1" refl refl
