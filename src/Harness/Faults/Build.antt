-- ===== src/Harness/Faults/Build.antt =====
-- harness/faults.py: `plan`, one branch for each fault. `ts` is `now`, or the clock.
use Prim.Native.String.{◌++◌ as joined}
use ledger_proof.Base.{
  ◌/◌, String, Bool, true, false, none, some, List, [], ◌∷◌, length, take, replicate, str_eq,
  if◌then◌else◌, Result, ok, err, ◌>>=◌,
}
use mathlib.Core.List.{reverse}
use ledger_proof.Base.Int.{ℤ, pos, abs, ◌-ℤ◌, ltb_ℤ, leb_ℤ}
use ledger_proof.Base.Dict.{Dict}
use ledger_proof.Base.Json.{str, Fields, end, field}
use ledger_proof.Stripe.Mapping.{Raised, value_error}
use ledger_proof.Stripe.Signature.{Text, sign, v0_key, default_tolerance}
use ledger_proof.Harness.Events.{EventFixture}
use ledger_proof.Harness.Events.Serialize.{serialize}
use ledger_proof.Harness.Faults.{
  Fault, no_fault, duplicate, duplicate_object, concurrent_duplicate, reorder, delay, drop,
  respond_500, tamper_body, truncate_body, stale_timestamp, downgrade_scheme, partial_write,
  slow_loris, invalid_signature, Delivery, Expectation, FaultPlan, Params, event_id, flip_one_byte,
  moves_money, money_ids, sum_delta,
}

-- `event["id"] = id`: in place, since the event has an id.
unfoldable pub with_id : String → Fields → Fields
with_id id end = field "id" (str id) end
with_id id (field k v fs) =
    let rest = with_id id fs in if str_eq k "id" then field k (str id) fs else field k v rest

abbrev pub expectation_of : List String → List String → Dict ℤ → Bool → Expectation
expectation_of posted rejected delta report_break = record {
  posted_event_ids = posted;
  rejected_event_ids = rejected;
  balances_delta = delta;
  invariant_after = true;
  reconciler_should_report_break = report_break;
}

-- A plan with the defaults of its fields.
abbrev pub simple_plan : Fault → List Delivery → Expectation → FaultPlan
simple_plan fault deliveries expectation = record {
  fault = fault;
  deliveries = deliveries;
  concurrent = false;
  force_500 = false;
  kill_worker_after_ms = none;
  redeliver_after_kill = true;
  expectation = expectation;
}

-- `twin`: another Event for the same change.
abbrev pub twin : EventFixture → EventFixture
twin fx = record fx { event = with_id (joined (event_id fx) "_dup") fx.event }

module _ (v1_digest : Text → Text → ℤ → Text) (secret : Text) where
  abbrev pub signed_at : Text → ℤ → Text
  signed_at body ts = sign v1_digest body secret ts [] false none

  -- `_clean`, with what the callers add by keyword
  unfoldable pub clean : EventFixture → ℤ → Delivery
  clean fx ts = record {
    body = serialize fx.event;
    sig_header = signed_at (serialize fx.event) ts;
    event_id = event_id fx;
    delay_before_ms = 0;
    slow_loris_ms = 0;
    expect_rejected = false;
    expect_rejection_reason = none;
  }

  unfoldable pub clean_all : List EventFixture → ℤ → List Delivery
  clean_all [] ts = []
  clean_all (fx ∷ fxs) ts = clean fx ts ∷ clean_all fxs ts

  -- `_rejected_plan`
  unfoldable pub rejected_plan : Fault → EventFixture → Text → Text → FaultPlan
  rejected_plan fault fx body sig_header =
      simple_plan fault
        (record {
          body = body;
          sig_header = sig_header;
          event_id = event_id fx;
          delay_before_ms = 0;
          slow_loris_ms = 0;
          expect_rejected = true;
          expect_rejection_reason = some invalid_signature;
        }
          ∷ [])
        (expectation_of [] (event_id fx ∷ []) [] false)

  -- The expected postings of the target alone.
  abbrev pub target_posted : EventFixture → List String
  target_posted fx = if moves_money fx then event_id fx ∷ [] else []

  module _ (target : EventFixture) (rest : List EventFixture) (p : Params) (ts : ℤ) where
    abbrev fixtures : List EventFixture
    fixtures = target ∷ rest

    abbrev for_target : Expectation
    for_target =
        expectation_of (target_posted target) [] (sum_delta fixtures (target_posted target)) false

    abbrev for_all : Expectation
    for_all = expectation_of (money_ids fixtures) [] (sum_delta fixtures (money_ids fixtures)) false

    -- DUPLICATE and CONCURRENT_DUPLICATE
    unfoldable pub copies : Fault → Bool → Result Raised FaultPlan
    copies fault concurrent =
        if ltb_ℤ p.n (pos 2)
        then err value_error
        else ok (record (simple_plan fault (replicate (abs p.n) (clean target ts)) for_target) {
          concurrent = concurrent;
        })

    unfoldable pub reordered : Result Raised FaultPlan
    reordered = elim rest [
      | [] ↦ err value_error
      | second ∷ others ↦
          if str_eq p.order "reverse"
          then ok (simple_plan reorder (reverse (clean_all fixtures ts)) for_all)
          else err value_error
    ]

    unfoldable pub delayed : FaultPlan
    delayed =
        let late = ts -ℤ pos 360 in
        let sent = record (clean target (if p.past_tolerance then late else ts)) {
          delay_before_ms = p.delay_ms;
          expect_rejected = p.past_tolerance;
        } in
        let posted : List String = if p.past_tolerance then [] else target_posted target in
        let rejected : List String = if p.past_tolerance then event_id target ∷ [] else [] in
        simple_plan delay (sent ∷ [])
          (expectation_of posted rejected (sum_delta fixtures posted) false)

    -- The branches of `plan`.
    unfoldable pub branch : Fault → Result Raised FaultPlan
    branch no_fault = ok (simple_plan no_fault (clean_all fixtures ts) for_all)
    branch duplicate = copies duplicate false
    branch concurrent_duplicate = copies concurrent_duplicate true
    branch duplicate_object =
        ok (simple_plan duplicate_object (clean target ts ∷ clean (twin target) ts ∷ []) for_target)
    branch reorder = reordered
    branch delay = ok delayed
    branch drop = ok (simple_plan drop [] (expectation_of [] [] [] true))
    branch respond_500 =
        ok (record (simple_plan respond_500 (clean target ts ∷ clean target ts ∷ []) for_target) {
          force_500 = true;
        })
    branch tamper_body = do
      tampered ← flip_one_byte (serialize target.event)
      ok (rejected_plan tamper_body target tampered (signed_at (serialize target.event) ts))
    branch truncate_body =
        let body = serialize target.event in
        ok (rejected_plan truncate_body target (take (length body / 2) body) (signed_at body ts))
    branch stale_timestamp =
        if leb_ℤ p.age_s default_tolerance
        then err value_error
        else ok (
            rejected_plan stale_timestamp target (serialize target.event)
              (signed_at (serialize target.event) (ts -ℤ p.age_s)))
    branch downgrade_scheme =
        let body = serialize target.event in
        ok (
          rejected_plan downgrade_scheme target body
            (sign v1_digest body secret ts [] false (some (v0_key ∷ []))))
    branch partial_write =
        ok (record (simple_plan partial_write (clean target ts ∷ []) for_target) {
          kill_worker_after_ms = some p.kill_after_ms;
        })
    branch slow_loris = ok (
        simple_plan slow_loris (record (clean target ts) { slow_loris_ms = p.hold_ms } ∷ [])
          for_target)

  -- `plan`; without fixtures it raises.
  unfoldable pub plan : Fault → List EventFixture → Params → ℤ → Result Raised FaultPlan
  plan fault [] p ts = err value_error
  plan fault (target ∷ rest) p ts = branch target rest p ts fault
