-- ===== src/Triage/Bench.antt =====
-- ledgerproof/triage/bench.py: what a proposed repair does to balances, and whether they are then the
-- expected ones.
pub mod Metrics
pub mod Restores
pub mod Score
use ledger_proof.Base.{
  String, Bool, true, false, ◌||◌, not, Option, none, some, List, [], ◌∷◌, str_eq, if◌then◌else◌,
}
use ledger_proof.Base.Int.{ℤ, pos, ◌+ℤ◌, neg}
use ledger_proof.Base.Dict.{Dict, lookup, insert}
use ledger_proof.Base.Dict.Same.{same_dict}
use ledger_proof.Recon.Expected.{nonzero, amount_in}
use ledger_proof.Triage.Schema.{RepairEntry, repair_is_balanced, Verdict, is_nil}

-- ACCOUNT_NORMALS
abbrev pub account_normals : Dict String
account_normals =
    ("stripe_balance", "debit")
    ∷ ("bank", "debit")
    ∷ ("processing_fees", "debit")
    ∷ ("dispute_losses", "debit")
    ∷ ("refunds_contra", "debit")
    ∷ ("revenue", "credit")
    ∷ ("customer_liability", "credit")
    ∷ []

-- What the benchmark scores a verdict against; the evidence is the prompt's.
pub record Case : Type 0 where
  pub case_id : String
  pub label_fault : String
  pub money_was_missing : Bool
  pub expected_delta : Dict ℤ
  pub observed_delta : Dict ℤ
  pub repairable : Bool

-- What an entry adds to an account of this normal side, or of none.
abbrev pub effect : RepairEntry → Option String → ℤ
effect e none = pos 0
effect e (some normal) = if str_eq e.direction normal then e.amount_minor else neg e.amount_minor

-- The loop of `apply_repair`
unfoldable pub apply_entries : List RepairEntry → Dict ℤ → Dict ℤ
apply_entries [] result = result
apply_entries (e ∷ es) result = apply_entries es (
    insert e.account_name
      (amount_in result e.account_name +ℤ effect e (lookup e.account_name account_normals)) result)

unfoldable pub apply_repair : Dict ℤ → List RepairEntry → Dict ℤ
apply_repair observed entries = nonzero (apply_entries entries observed)

unfoldable pub repair_restores_expected_balances : Case → Verdict → Bool
repair_restores_expected_balances c v =
    if is_nil v.proposed_repair || not (repair_is_balanced v.proposed_repair)
    then false
    else same_dict (apply_repair c.observed_delta v.proposed_repair) (nonzero c.expected_delta)
