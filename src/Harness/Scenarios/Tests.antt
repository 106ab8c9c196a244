-- ===== src/Harness/Scenarios/Tests.antt =====
-- The generator of harness/scenarios.py at one fault and two kinds.
use ledger_proof.Base.{ℕ, ◌+◌, List, [], ◌∷◌, ◌≡◌, refl, Result, ok, err}
use ledger_proof.Base.Int.{ℤ, pos}
use ledger_proof.Stripe.Mapping.{Raised}
use ledger_proof.Stripe.Signature.{Text}
use ledger_proof.Harness.Faults.{drop}
use ledger_proof.Harness.Scenarios.{Scenario, Skip, generate}
use ledger_proof.Harness.Scenarios.Fresh.{Consecutive, generate-Consecutive}

abbrev blank_digest : Text → Text → ℤ → Text
blank_digest payload secret ts = []

-- A generator that always draws the lowest number.
abbrev lowest : ℕ → ℕ → ℕ → ℕ × ℕ
lowest rng low high = (low, rng + 1)

abbrev Drawn : Type 0
Drawn = List Scenario × List Skip × ℕ × ℕ

abbrev drawn_or_none : Result Raised Drawn → Drawn
drawn_or_none (ok drawn) = drawn
drawn_or_none (err e) = ([], [], 0, 0)

drawn : Drawn
unfolding generate
drawn = drawn_or_none (
    generate blank_digest [] (pos 1000) lowest (drop ∷ [])
      ("invoice_payment_failed" ∷ "payout_paid" ∷ []) 1 5 0)

generate-Consecutive_example : Consecutive 5 drawn.2 drawn.0
unfolding drawn ledger_proof.Harness.Events.Numbered.maker_of
    ledger_proof.Harness.Scenarios.over_faults ledger_proof.Harness.Scenarios.over_kinds
    ledger_proof.Harness.Scenarios.skips ledger_proof.Harness.Scenarios.repeats
    ledger_proof.Harness.Scenarios.fixtures_of ledger_proof.Harness.Scenarios.fixture_of
    ledger_proof.Harness.Events.Numbered.make ledger_proof.Harness.Events.Makers.make_payout_paid
    ledger_proof.Harness.Events.delta ledger_proof.Base.Dict.lookup
    ledger_proof.Harness.Faults.Build.plan ledger_proof.Harness.Faults.Build.branch
generate-Consecutive_example =
    generate-Consecutive blank_digest [] (pos 1000) lowest (drop ∷ [])
      ("invoice_payment_failed" ∷ "payout_paid" ∷ []) 1 5 0 refl
