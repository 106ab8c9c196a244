-- ===== src/Triage/Bench/Score/Applies.antt =====
-- The repairs that triage/bench.py marks as false, at the gate of triage/agent.py.
use ledger_proof.Base.{
  ℕ, Bool, true, false, ◌&&◌, not, none, some, ◌≡◌, refl, arith, &&-split, if◌then◌else◌,
}
use ledger_proof.Base.Int.{ℤ}
use ledger_proof.Ledger.Schema.{Db}
use ledger_proof.Ledger.Post.{Env, post_transaction}
use ledger_proof.Triage.Schema.{Verdict, is_nil, repair_is_balanced}
use ledger_proof.Triage.Gate.{
  RepairApproval, is_blank, applied, repair_transaction, approve_and_apply,
}
use ledger_proof.Triage.Bench.{Case, repair_restores_expected_balances}
use ledger_proof.Triage.Bench.Score.{score, proposes, proposes_balanced, false_mark}

-- What the gate asks of a verdict.
gate_opens :
    (env : Env) (id : ℕ) (occurred_at : ℤ) (v : Verdict) (approval : RepairApproval) (db : Db)
    → is_blank approval.approved_by ≡ false
    → proposes_balanced v ≡ true
    → approve_and_apply env id occurred_at v approval db
      ≡ applied (post_transaction env 5 (repair_transaction id occurred_at v approval) db)
unfolding approve_and_apply
gate_opens env id occurred_at v approval db named sound =
    let (legs, even) = &&-split (proposes v) (repair_is_balanced v.proposed_repair) sound in
    let (some_legs, missing) = &&-split (not (is_nil v.proposed_repair)) v.money_is_missing legs in
    let filled : is_nil v.proposed_repair ≡ false = turned (is_nil v.proposed_repair) some_legs in
    rw (named, missing, filled, even) refl
  where
    turned : (b : Bool) → not b ≡ true → b ≡ false
    turned b h = ground arith

false_mark-inv :
    (c : Case) (v : Verdict)
    → false_mark c v ≡ some true
    → (c.money_was_missing ≡ true)
      × (proposes_balanced v ≡ true)
      × (repair_restores_expected_balances c v ≡ false)
false_mark-inv c v marked =
    parts c.money_was_missing (proposes_balanced v) (repair_restores_expected_balances c v) marked
  where
    parts :
        (wrong even right : Bool)
        → (if wrong then some (even && not right) else none) ≡ some true
        → (wrong ≡ true) × (even ≡ true) × (right ≡ false)
    parts true true false h = (refl, refl, refl)
    parts true true true h = cc
    parts true false right h = cc
    parts false even right h = cc

-- What the benchmark counts as a false repair is one that the gate would let through: with a
-- named approver its transaction is handed to post_transaction, money was missing in the case,
-- and the repair does not restore the expected balances.
pub false_repair-Applies :
    (c : Case) (v : Verdict) (refused : Bool) (env : Env) (id : ℕ) (occurred_at : ℤ)
    (approval : RepairApproval) (db : Db)
    → (score c (some v) refused).false_repair ≡ some true
    → is_blank approval.approved_by ≡ false
    → (approve_and_apply env id occurred_at v approval db
        ≡ applied (post_transaction env 5 (repair_transaction id occurred_at v approval) db))
      × (c.money_was_missing ≡ true)
      × (repair_restores_expected_balances c v ≡ false)
unfolding score
false_repair-Applies c v refused env id occurred_at approval db marked named =
    let (wrong, even, unrestored) = false_mark-inv c v marked in
    (gate_opens env id occurred_at v approval db named even, wrong, unrestored)
