-- ===== src/Triage/Sweep/Tests.antt =====
-- A sweep of two cases, whose results arrive in the other order, and one that its cap stops.
use ledger_proof.Base.{
  ℕ, ◌*◌, String, true, false, Option, none, some, List, [], ◌∷◌, map, str_eq, ltb, ◌≡◌, refl,
  if◌then◌else◌, err,
}
use ledger_proof.Base.Float.{one, rounded, times, div}
use ledger_proof.Base.Dict.{lookup, insert}
use ledger_proof.Base.Text.{padded}
use ledger_proof.Triage.Schema.{Verdict, drop}
use ledger_proof.Triage.Bench.{Case}
use ledger_proof.Triage.Budget.{haiku, opus, BudgetGuard, check, call_cost, record_call}
use ledger_proof.Triage.Sweep.{Message, Reply, tag_all, collect_loop, collect, Run, sweep}
use ledger_proof.Triage.Sweep.Within.{guard_at_end}
use ledger_proof.Triage.Sweep.Order.{reply_to, by_position, collect-by_position}

abbrev dropped : Case
dropped = record {
  case_id = "c1";
  label_fault = "DROP";
  money_was_missing = true;
  expected_delta = [];
  observed_delta = [];
  repairable = false;
}

abbrev healthy : Case
healthy = record dropped { case_id = "c2"; label_fault = "NONE"; money_was_missing = false }

abbrev parse : String → Option Verdict
parse s =
    if str_eq s "drop"
    then some (record {
      fault_class = drop;
      alternate_fault_classes = [];
      money_is_missing = true;
      proposed_repair = [];
      repair_memo = "";
    })
    else none

abbrev message : String → Message
message s = record {
  input_tokens = 900;
  output_tokens = 300;
  cache_read_input_tokens = 4000;
  cache_creation_input_tokens = 0;
  is_refusal = false;
  blocks = s ∷ [];
}

abbrev two_cases : List Case
two_cases = dropped ∷ healthy ∷ []

abbrev replies : List Reply
replies =
    record { custom_id = "case-00001"; message = some (message "?") }
    ∷ record { custom_id = "case-00000"; message = some (message "drop") }
    ∷ []

abbrev dollars : ℕ → BudgetGuard
dollars n = record { cap = times one n; spent = 0; calls = 0 }

-- The second case is answered first, an id that no request had is passed over, and one expired.
abbrev arrivals : List (ℕ × Option Message)
arrivals =
    (1, some (message "?"))
    ∷ (7, some (message "drop"))
    ∷ (0, some (message "drop"))
    ∷ (1, none)
    ∷ []

collect-by_position_example :
    collect parse haiku (tag_all 0 two_cases []) (map reply_to arrivals) (dollars 9)
    ≡ by_position parse haiku two_cases arrivals ([], dollars 9)
collect-by_position_example = collect-by_position parse haiku two_cases arrivals (dollars 9)

abbrev runs : List Run
runs = record { model = haiku; replies = replies } ∷ record { model = opus; replies = replies } ∷ []

-- An empty cap lets no batch of two requests begin.
stopped : sweep parse two_cases runs (dollars 0) ≡ err (record { guard = dollars 0 })
unfolding sweep check rounded
stopped = refl

abbrev long_answer : Message
long_answer = record (message "drop") { output_tokens = 8000 }

abbrev one_long_run : List Run
one_long_run =
    record {
      model = opus;
      replies = record { custom_id = "case-00000"; message = some long_answer } ∷ [];
    }
    ∷ []

-- An answer of 8000 tokens, which a request allows, costs five times what was projected: with a cap of
-- 5 cents the sweep goes through and has spent more than 10.
overrun :
    let cap = div (times one 5) (times one 100) in
    let after =
      sweep parse (dropped ∷ []) one_long_run (record { cap = cap; spent = 0; calls = 0 }) in
    ltb (2 * cap) (guard_at_end after).spent ≡ true
unfolding rounded sweep check collect_loop lookup tag_all insert padded record_call call_cost
overrun = refl
