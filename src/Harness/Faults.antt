-- ===== src/Harness/Faults.antt =====
-- harness/faults.py: what a fault delivers, and what the ledger should hold afterwards. The HMAC is a
-- parameter; times are in milliseconds where the source has seconds as floats; the notes of an
-- expectation, and the parameters that a plan only repeats, are left out.
pub mod Build
pub mod Honest
pub mod Labels
use ledger_proof.Base.{
  ℕ, zero, suc, ◌+◌, ◌-◌, ◌*◌, ◌/◌, ◌%◌, String, Bool, true, false, ◌&&◌, Option, none, some, List,
  [], ◌∷◌, ◌++◌, any, length, take, str_eq, ◌==◌, ltb, leb, if◌then◌else◌, Result, ok, err,
}
use ledger_proof.Base.Int.{ℤ, pos, ◌+ℤ◌, ◌==ℤ◌}
use ledger_proof.Base.Dict.{Dict, lookup, insert}
use ledger_proof.Base.Json.{Value, str, Fields, get}
use ledger_proof.Base.Text.{is_digit}
use ledger_proof.Stripe.Mapping.{Raised, value_error}
use ledger_proof.Stripe.Signature.{Text, sign}
use ledger_proof.Harness.Events.{EventFixture, or_zero}
use ledger_proof.Harness.Events.Serialize.{serialize}

pub data Fault : Type 0 where
  no_fault duplicate duplicate_object concurrent_duplicate reorder delay drop respond_500 : Fault
  tamper_body truncate_body stale_timestamp downgrade_scheme partial_write slow_loris : Fault

-- Which check should refuse a delivery: "invalid signature" is the only one named.
pub data Reason : Type 0 where
  invalid_signature : Reason

pub record Delivery : Type 0 where
  pub body : Text
  pub sig_header : Text
  pub event_id : String
  pub delay_before_ms : ℕ
  pub slow_loris_ms : ℕ
  pub expect_rejected : Bool
  pub expect_rejection_reason : Option Reason

-- A frozen set of ids is a list of them.
pub record Expectation : Type 0 where
  pub posted_event_ids : List String
  pub rejected_event_ids : List String
  pub balances_delta : Dict ℤ
  pub invariant_after : Bool
  pub reconciler_should_report_break : Bool

pub record FaultPlan : Type 0 where
  pub fault : Fault
  pub deliveries : List Delivery
  pub concurrent : Bool
  pub force_500 : Bool
  pub kill_worker_after_ms : Option ℕ
  pub redeliver_after_kill : Bool
  pub expectation : Expectation

-- `{**_DEFAULT_PARAMS[fault], **params}`: one field for each key that a fault reads.
pub record Params : Type 0 where
  pub n : ℤ
  pub order : String
  pub delay_ms : ℕ
  pub past_tolerance : Bool
  pub age_s : ℤ
  pub kill_after_ms : ℕ
  pub hold_ms : ℕ

-- _DEFAULT_PARAMS; a fault reads its own keys only.
abbrev pub default_params : Fault → Params
default_params fault = record {
  n = elim fault [ concurrent_duplicate ↦ pos 8 | _ ↦ pos 3 ];
  order = "reverse";
  delay_ms = 1000;
  past_tolerance = false;
  age_s = pos 600;
  kill_after_ms = 150;
  hold_ms = 3000;
}

-- `event_id`: every maker of fixtures gives its event an id that is a text.
unfoldable pub event_id : EventFixture → String
unfolding get
event_id fx = elim (get fx.event "id") [ some (str id) ↦ id | _ ↦ "" ]

abbrev pub starts_with : Text → Text → Bool
starts_with [] cs = true
starts_with (p ∷ ps) [] = false
starts_with (p ∷ ps) (c ∷ cs) = (c == p) && starts_with ps cs

-- `max(body.find(mark), 0)`
unfoldable pub found_at : Text → Text → ℕ → ℕ
found_at mark [] at = 0
found_at mark (c ∷ cs) at =
    let rest = found_at mark cs (suc at) in if starts_with mark (c ∷ cs) then at else rest

-- `b'"data":'`
abbrev pub data_mark : Text
data_mark = b'"' ∷ b'd' ∷ b'a' ∷ b't' ∷ b'a' ∷ b'"' ∷ b':' ∷ []

abbrev pub next_digit : ℕ → ℕ
next_digit c = b'0' + (c - b'0' + 1) % 10

abbrev pub keep_byte : ℕ → Option Text → Option Text
keep_byte c none = none
keep_byte c (some cs) = some (c ∷ cs)

-- The first digit from `skip` on is changed.
unfoldable pub flip_from : ℕ → Text → Option Text
flip_from skip [] = none
flip_from zero (c ∷ cs) =
    let rest = flip_from zero cs in
    if is_digit c then some (next_digit c ∷ cs) else keep_byte c rest
flip_from (suc skip) (c ∷ cs) = keep_byte c (flip_from skip cs)

-- `_flip_one_byte`, without the index
unfoldable pub flip_one_byte : Text → Result Raised Text
flip_one_byte body = elim (flip_from (found_at data_mark body 0) body) [
  | none ↦ err value_error
  | some flipped ↦ ok flipped
]

abbrev pub moves_money : EventFixture → Bool
moves_money fx = elim fx.expected_delta [ [] ↦ false | entry ∷ entries ↦ true ]

-- The ids of `_money(fixtures)`.
unfoldable pub money_ids : List EventFixture → List String
money_ids [] = []
money_ids (fx ∷ fxs) =
    let rest = money_ids fxs in if moves_money fx then event_id fx ∷ rest else rest

abbrev pub add_delta : Dict ℤ → Dict ℤ → Dict ℤ
add_delta [] totals = totals
add_delta ((account, amount) ∷ delta) totals =
    add_delta delta (insert account (or_zero (lookup account totals) +ℤ amount) totals)

unfoldable pub sum_all : List EventFixture → List String → Dict ℤ → Dict ℤ
sum_all [] posted totals = totals
sum_all (fx ∷ fxs) posted totals =
    sum_all fxs posted
      (if any (str_eq (event_id fx)) posted then add_delta fx.expected_delta totals else totals)

abbrev pub drop_zeros : Dict ℤ → Dict ℤ
drop_zeros [] = []
drop_zeros ((account, amount) ∷ totals) = elim (amount ==ℤ pos 0) [
  | true ↦ drop_zeros totals
  | false ↦ (account, amount) ∷ drop_zeros totals
]

-- `_sum_delta`
unfoldable pub sum_delta : List EventFixture → List String → Dict ℤ
sum_delta fixtures posted = drop_zeros (sum_all fixtures posted [])
