-- ===== src/Harness/Scenarios.antt =====
-- harness/scenarios.py: the scenarios that a run of the harness is made of. The random numbers, the time
-- of a plan and the clock of the fixtures are parameters; the texts of labels, ids of scenarios and
-- reasons for a skip are left out.
pub mod Fresh
mod Tests
use ledger_proof.Base.{
  ℕ, zero, suc, ◌+◌, ◌*◌, ◌/◌, ◌%◌, String, Bool, true, false, ◌&&◌, ◌||◌, not, Option, none, some,
  List, [], ◌∷◌, ◌++◌, all, is_some, str_eq, ◌==◌, if◌then◌else◌, Result, ok, err, ◌>>=◌,
}
use ledger_proof.Base.Int.{ℤ, pos, ◌+ℤ◌}
use ledger_proof.Stripe.Mapping.{Raised, value_error}
use ledger_proof.Stripe.Signature.{Text}
use ledger_proof.Harness.Events.{EventFixture}
use ledger_proof.Harness.Events.Numbered.{Overrides, make, maker_of}
use ledger_proof.Harness.Faults.{
  Fault, no_fault, duplicate, duplicate_object, concurrent_duplicate, reorder, delay, drop,
  respond_500, tamper_body, truncate_body, stale_timestamp, downgrade_scheme, partial_write,
  slow_loris, Params, default_params, FaultPlan,
}
use ledger_proof.Harness.Faults.Build.{plan}

-- _NEEDS_MONEY
abbrev pub needs_money : Fault → Bool
needs_money duplicate = true
needs_money duplicate_object = true
needs_money concurrent_duplicate = true
needs_money reorder = true
needs_money respond_500 = true
needs_money partial_write = true
needs_money drop = true
needs_money _ = false

-- `skip_reason(fault, kind) is not None`
unfoldable pub skips : Fault → String → Bool
skips fault kind = str_eq kind "invoice_payment_failed" && needs_money fault

-- _FIXTURE_COUNT
abbrev pub fixture_count : Fault → ℕ
fixture_count reorder = 2
fixture_count _ = 1

-- `_fee`, of an amount that is not negative
abbrev pub fee_of : ℕ → ℕ
fee_of amount = 30 + amount * 29 / 1000

abbrev adds : ℕ → Option ℤ → Option ℤ → Overrides
adds amount fee refunded = record {
  amount = some (pos amount);
  fee = fee;
  refunded = refunded;
  currency = none;
}

-- `_params`, over the defaults of the fault
unfoldable pub params_for : Fault → ℕ → Params
params_for duplicate index = record (default_params duplicate) { n = pos (2 + index % 3) }
params_for concurrent_duplicate index = record (default_params concurrent_duplicate) {
  n = if index % 2 == 0 then pos 8 else pos 4;
}
params_for delay index = record (default_params delay) {
  delay_ms = 4000;
  past_tolerance = index % 2 == 1;
}
params_for stale_timestamp index = record (default_params stale_timestamp) {
  age_s = pos (600 + 300 * (index % 2));
}
params_for partial_write index = record (default_params partial_write) {
  kill_after_ms = if index % 3 == 0 then 150 else if index % 3 == 1 then 100 else 50;
}
params_for slow_loris index = record (default_params slow_loris) { hold_ms = 2000 }
params_for fault index = default_params fault

pub record Scenario : Type 0 where
  pub fault : Fault
  pub index : ℕ
  pub fixtures : List EventFixture
  pub built : FaultPlan

pub record Skip : Type 0 where
  pub fault : Fault
  pub kind : String

-- `randrange` of one generator state, and the next state.
module _ (v1_digest : Text → Text → ℤ → Text) (secret : Text) (clock : ℤ) {Rng : Type 0}
    (randrange : Rng → ℕ → ℕ → ℕ × Rng) where
  -- `_fixture`
  unfoldable pub fixture_of : String → ℕ → Rng → Result Raised EventFixture × Rng
  fixture_of kind seq rng =
      let (amount, rng1) = randrange rng 100 100000 in
      if str_eq kind "charge_succeeded"
      then (make clock seq none (adds amount (some (pos (fee_of amount))) none) kind, rng1)
      else if str_eq kind "charge_refunded"
      then (let (refunded, rng2) = randrange rng1 1 (amount + 1) in
          (make clock seq none (adds amount none (some (pos refunded))) kind, rng2))
      else if str_eq kind "dispute_created"
      then (make clock seq none (adds amount (some (pos 1500)) none) kind, rng1)
      else (make clock seq none (adds amount none none) kind, rng1)

  -- The fixtures of one scenario.
  unfoldable pub fixtures_of : String → ℕ → ℕ → Rng → Result Raised (List EventFixture × Rng)
  fixtures_of kind seq zero rng = ok ([], rng)
  fixtures_of kind seq (suc count) rng = do
    f ← (fixture_of kind seq rng).0
    more ← fixtures_of kind (seq + 1) count (fixture_of kind seq rng).1
    ok (f ∷ more.0, more.1)

  -- `range(per_combo)` from `index` on: the scenarios, the next number and the generator.
  unfoldable pub repeats :
      Fault → String → ℕ → ℕ → ℕ → Rng → Result Raised (List Scenario × ℕ × Rng)
  repeats fault kind index zero seq rng = ok ([], seq, rng)
  repeats fault kind index (suc left) seq rng = do
    drawn ← fixtures_of kind seq (fixture_count fault) rng
    built ← plan v1_digest secret fault drawn.0 (params_for fault index) clock
    more ← repeats fault kind (index + 1) left (seq + fixture_count fault) drawn.1
    ok (
      record { fault = fault; index = index; fixtures = drawn.0; built = built } ∷ more.0,
      more.1,
      more.2,
    )

  unfoldable pub over_kinds :
      Fault → List String → ℕ → ℕ → Rng → Result Raised (List Scenario × List Skip × ℕ × Rng)
  over_kinds fault [] per_combo seq rng = ok ([], [], seq, rng)
  over_kinds fault (kind ∷ kinds) per_combo seq rng =
      if skips fault kind
      then (do
        more ← over_kinds fault kinds per_combo seq rng
        ok (more.0, record { fault = fault; kind = kind } ∷ more.1, more.2, more.3))
      else (do
        made ← repeats fault kind 0 per_combo seq rng
        more ← over_kinds fault kinds per_combo made.1 made.2
        ok (made.0 ++ more.0, more.1, more.2, more.3))

  unfoldable pub over_faults :
      List Fault → List String → ℕ → ℕ → Rng → Result Raised (List Scenario × List Skip × ℕ × Rng)
  over_faults [] kinds per_combo seq rng = ok ([], [], seq, rng)
  over_faults (fault ∷ faults) kinds per_combo seq rng = do
    made ← over_kinds fault kinds per_combo seq rng
    more ← over_faults faults kinds per_combo made.2 made.3
    ok (made.0 ++ more.0, made.1 ++ more.1, more.2, more.3)

  -- `generate`, from the generator that the seed gives
  unfoldable pub generate :
      List Fault → List String → ℕ → ℕ → Rng → Result Raised (List Scenario × List Skip × ℕ × Rng)
  generate faults kinds per_combo start_seq rng =
      if per_combo == 0
      then err value_error
      else if not (all (λ kind. is_some (maker_of kind)) kinds)
      then err value_error
      else over_faults faults kinds per_combo start_seq rng
