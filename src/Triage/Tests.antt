-- ===== src/Triage/Tests.antt =====
-- A repair that a person approves and one that nobody does; how the benchmark scores a right and a
-- wrong one.
use mathlib.Core.List.Memᴰ.{head}
use ledger_proof.Base.{
  ℕ, String, true, false, none, some, List, [], ◌∷◌, ◌≡◌, ◌≢◌, refl, err, arith,
}
use ledger_proof.Base.Int.{pos, ◌+ℤ◌, neg}
use ledger_proof.Base.Text.{strip, lstrip}
use ledger_proof.Base.Dict.{lookup, insert}
use ledger_proof.Base.Dict.Same.{same_dict}
use ledger_proof.Ledger.Schema.{Account, debit, empty_db, unbalanced_transaction}
use ledger_proof.Ledger.Post.{quiet, Env, Posting, attempt, post_loop, post_transaction}
use ledger_proof.Ledger.Balances.{balance_of}
use ledger_proof.Ledger.History.{empty_db-Sound}
use ledger_proof.Ledger.Retry.{Fair}
use ledger_proof.Triage.Schema.{
  RepairEntry, Verdict, drop, signed, per_currency, repair_is_balanced,
}
use ledger_proof.Triage.Gate.{
  RepairApproval, is_blank, refused, applied, no_approver, not_balanced, repair_transaction,
  approve_and_apply,
}
use ledger_proof.Triage.Applied.{applied_never_unbalanced}
use ledger_proof.Triage.Bench.{Case, apply_entries, apply_repair, repair_restores_expected_balances}
use ledger_proof.Triage.Bench.Restores.{restored_posts}
use ledger_proof.Triage.Bench.Score.{score}
use ledger_proof.Triage.Bench.Score.Applies.{false_repair-Applies}
use ledger_proof.Triage.Bench.Metrics.{Metrics, totals, aggregate}
use ledger_proof.Triage.Bench.Metrics.Coherent.{Answer, scores}
use ledger_proof.Triage.Bench.Metrics.Bounds.{ReportInBounds, aggregate-InBounds}
use ledger_proof.Recon.Expected.{nonzero}

abbrev leg : String → String → ℕ → RepairEntry
leg account direction n = record {
  account_name = account;
  direction = direction;
  amount_minor = pos n;
  currency = "USD";
}

abbrev dropped_charge : Verdict
dropped_charge = record {
  fault_class = drop;
  alternate_fault_classes = [];
  money_is_missing = true;
  proposed_repair =
      leg "stripe_balance" "debit" 1912
      ∷ leg "processing_fees" "debit" 88
      ∷ leg "revenue" "credit" 2000
      ∷ [];
  repair_memo = "evt_1 was dropped";
}

abbrev lopsided : Verdict
lopsided = record dropped_charge {
  proposed_repair = leg "bank" "debit" 5 ∷ leg "revenue" "credit" 6 ∷ [];
}

abbrev by_ada : RepairApproval
by_ada = record { approved_by = "ada"; scenario_id = "s1" }

abbrev by_nobody : RepairApproval
by_nobody = record { approved_by = "  "; scenario_id = "s1" }

abbrev calm : Env
calm = record { conflict = λ n. quiet; others = λ n db. db; jitter = λ n. 0 }

calm-Fair : Fair calm
calm-Fair = record { others_sound = λ k db s. s; draws = λ k. omega arith }

nobody_refused :
    approve_and_apply calm 1 (pos 0) dropped_charge by_nobody empty_db ≡ refused no_approver
unfolding approve_and_apply strip lstrip
nobody_refused = refl

lopsided-refused : approve_and_apply calm 1 (pos 0) lopsided by_ada empty_db ≡ refused not_balanced
unfolding approve_and_apply strip lstrip repair_is_balanced per_currency signed lookup insert ◌+ℤ◌
    neg
lopsided-refused = refl

abbrev repair : Posting
repair = record {
  result = (attempt quiet empty_db (repair_transaction 1 (pos 0) dropped_charge by_ada)).0;
  db = (attempt quiet empty_db (repair_transaction 1 (pos 0) dropped_charge by_ada)).1;
  slept = [];
}

ada_applies :
    approve_and_apply calm 1 (pos 0) dropped_charge by_ada empty_db ≡ applied (some repair)
unfolding approve_and_apply strip lstrip repair_is_balanced per_currency signed lookup insert ◌+ℤ◌
    neg post_transaction post_loop attempt
ada_applies = refl

applied_never_unbalanced_example :
    (is_blank "ada" ≡ false)
    × (dropped_charge.money_is_missing ≡ true)
    × (repair.result ≢ err (unbalanced_transaction 1))
applied_never_unbalanced_example =
    applied_never_unbalanced calm 1 (pos 0) dropped_charge by_ada empty_db repair 1 calm-Fair
      empty_db-Sound ada_applies

-- The charge of 20 dollars that was dropped, as the benchmark knows it.
abbrev charge_gone : Case
charge_gone = record {
  case_id = "c1";
  label_fault = "DROP";
  money_was_missing = true;
  expected_delta =
      ("stripe_balance", pos 1912) ∷ ("processing_fees", pos 88) ∷ ("revenue", pos 2000) ∷ [];
  observed_delta = [];
  repairable = true;
}

right_restores : repair_restores_expected_balances charge_gone dropped_charge ≡ true
unfolding repair_restores_expected_balances repair_is_balanced per_currency insert ◌+ℤ◌ lookup
    signed neg same_dict apply_repair nonzero apply_entries
right_restores = refl

abbrev stripe_balance : Account
stripe_balance = record {
  id = 1;
  name = "stripe_balance";
  kind = "asset";
  normal = debit;
  currency = "USD";
}

restored_posts_example :
    balance_of stripe_balance
      (attempt quiet empty_db (repair_transaction 1 (pos 0) dropped_charge by_ada)).1.entries
    ≡ pos 1912
unfolding attempt balance_of
restored_posts_example =
    restored_posts charge_gone dropped_charge by_ada 1 (pos 0) quiet empty_db stripe_balance (pos 0)
      tt (refl, (refl, (refl, tt))) right_restores refl (head refl) refl refl

-- It balances, but the revenue is not what the charge brought in.
abbrev half_charge : Verdict
half_charge = record dropped_charge {
  proposed_repair = leg "bank" "debit" 1000 ∷ leg "revenue" "credit" 1000 ∷ [];
}

false_repair-Applies_example :
    (approve_and_apply calm 2 (pos 0) half_charge by_ada empty_db
      ≡ applied
          (post_transaction calm 5 (repair_transaction 2 (pos 0) half_charge by_ada) empty_db))
    × (true ≡ true)
    × (repair_restores_expected_balances charge_gone half_charge ≡ false)
unfolding score repair_is_balanced per_currency insert ◌+ℤ◌ lookup signed neg
    repair_restores_expected_balances same_dict apply_repair nonzero apply_entries strip
false_repair-Applies_example =
    false_repair-Applies charge_gone half_charge false calm 2 (pos 0) by_ada empty_db refl refl

abbrev answers : List Answer
answers =
    (charge_gone, some dropped_charge, false)
    ∷ (charge_gone, some half_charge, false)
    ∷ (record charge_gone { case_id = "c2"; repairable = false }, some lopsided, false)
    ∷ (charge_gone, none, true)
    ∷ []

one_restored : (totals (scores answers)).repairs.restored ≡ 1
unfolding totals ledger_proof.Triage.Bench.Metrics.repair_metrics
    ledger_proof.Triage.Bench.Metrics.tally score repair_restores_expected_balances
    repair_is_balanced per_currency insert ◌+ℤ◌ lookup signed neg same_dict apply_repair nonzero
    apply_entries
one_restored = refl

aggregate-InBounds_example : ReportInBounds (aggregate (scores answers))
aggregate-InBounds_example = aggregate-InBounds answers
