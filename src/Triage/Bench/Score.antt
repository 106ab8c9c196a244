-- ===== src/Triage/Bench/Score.antt =====
-- `score` of ledgerproof/triage/bench.py. Confidence, latency and cost, which it only passes on, are
-- left out.
pub mod Applies
use ledger_proof.Base.{
  String, Bool, true, false, ◌&&◌, not, Option, none, some, List, [], ◌∷◌, map, take, str_eq,
  if◌then◌else◌,
}
use ledger_proof.Base.Names.{among}
use ledger_proof.Triage.Schema.{Verdict, value_of, is_nil, repair_is_balanced}
use ledger_proof.Triage.Bench.{Case, repair_restores_expected_balances}

pub record Scored : Type 0 where
  pub case_id : String
  pub label_fault : String
  pub predicted : Option String
  pub ranked : List String
  pub correct_at_1 : Bool
  pub correct_at_3 : Bool
  pub proposed_repair : Bool
  pub repair_balanced : Bool
  pub over_repair : Bool
  pub refused : Bool
  pub repair_correct : Option Bool
  pub false_repair : Option Bool
  pub claimed_to_fix_the_unfixable : Option Bool

abbrev pub unanswered : Case → Bool → Scored
unanswered c refused = record {
  case_id = c.case_id;
  label_fault = c.label_fault;
  predicted = none;
  ranked = [];
  correct_at_1 = false;
  correct_at_3 = false;
  proposed_repair = false;
  repair_balanced = false;
  over_repair = false;
  refused = refused;
  repair_correct = none;
  false_repair = none;
  claimed_to_fix_the_unfixable = none;
}

abbrev pub ranking : Verdict → List String
ranking v = value_of v.fault_class ∷ map value_of v.alternate_fault_classes

abbrev pub proposes : Verdict → Bool
proposes v = not (is_nil v.proposed_repair) && v.money_is_missing

abbrev pub proposes_balanced : Verdict → Bool
proposes_balanced v = proposes v && repair_is_balanced v.proposed_repair

-- The three marks of the repair stratum.
abbrev pub correct_mark : Case → Verdict → Option Bool
correct_mark c v =
    if not c.money_was_missing
    then none
    else if c.repairable
    then some (repair_restores_expected_balances c v)
    else if proposes v
    then some false
    else none

abbrev pub false_mark : Case → Verdict → Option Bool
false_mark c v =
    if c.money_was_missing
    then some (proposes_balanced v && not (repair_restores_expected_balances c v))
    else none

abbrev pub unfixable_mark : Case → Verdict → Option Bool
unfixable_mark c v = if c.money_was_missing && not c.repairable then some (proposes v) else none

unfoldable pub score : Case → Option Verdict → Bool → Scored
score c none refused = unanswered c refused
score c (some v) refused = record {
  case_id = c.case_id;
  label_fault = c.label_fault;
  predicted = some (value_of v.fault_class);
  ranked = ranking v;
  correct_at_1 = str_eq (value_of v.fault_class) c.label_fault;
  correct_at_3 = among (take 3 (ranking v)) c.label_fault;
  proposed_repair = proposes v;
  repair_balanced = proposes_balanced v;
  over_repair = proposes v && not c.money_was_missing;
  refused = refused;
  repair_correct = correct_mark c v;
  false_repair = false_mark c v;
  claimed_to_fix_the_unfixable = unfixable_mark c v;
}
