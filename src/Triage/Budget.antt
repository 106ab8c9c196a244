-- ===== src/Triage/Budget.antt =====
-- The costs of ledgerproof/triage/bench.py: `call_cost` and `BudgetGuard`, in dollars as floats
-- (Base/Float). The log of the usage is left out.
use ledger_proof.Base.{ℕ, ◌+◌, String, Bool, ltb, if◌then◌else◌, Result, ok, err}
use ledger_proof.Base.Float.{one, add, times, mul, div}
use ledger_proof.Base.Dict.{Dict, lookup}
use ledger_proof.Triage.Bench.Metrics.{count_of}

-- The models of PRICING
pub data Model : Type 0 where
  opus sonnet haiku : Model

-- Dollars per million tokens of input and of output.
abbrev pub pricing : Model → ℕ × ℕ
pricing opus = (times one 5, times one 25)
pricing sonnet = (times one 3, times one 15)
pricing haiku = (times one 1, times one 5)

-- CACHE_READ_MULTIPLIER, CACHE_WRITE_MULTIPLIER and BATCH_MULTIPLIER
abbrev pub cache_read_multiplier : ℕ
cache_read_multiplier = div one (times one 10)

abbrev pub cache_write_multiplier : ℕ
cache_write_multiplier = div (times one 5) (times one 4)

abbrev pub batch_multiplier : ℕ
batch_multiplier = div one (times one 2)

-- `usage.get(key, 0)`
abbrev pub used : String → Dict ℕ → ℕ
used key usage = count_of (lookup key usage)

unfoldable pub call_cost : Model → Dict ℕ → Bool → ℕ
call_cost model usage batch =
    let (in_rate, out_rate) = pricing model in
    let uncached = times in_rate (used "input_tokens" usage) in
    let cache_read =
      mul (times in_rate (used "cache_read_input_tokens" usage)) cache_read_multiplier in
    let cache_write =
      mul (times in_rate (used "cache_creation_input_tokens" usage)) cache_write_multiplier in
    let output = times out_rate (used "output_tokens" usage) in
    let total = div (add (add (add uncached cache_read) cache_write) output) (times one 1000000) in
    mul total (if batch then batch_multiplier else one)

pub record BudgetGuard : Type 0 where
  pub cap : ℕ
  pub spent : ℕ
  pub calls : ℕ

-- BudgetExceeded, with the guard that raised it.
pub record BudgetExceeded : Type 0 where
  pub guard : BudgetGuard

unfoldable pub check : ℕ → BudgetGuard → Result BudgetExceeded BudgetGuard
check projected g = if ltb g.cap (add g.spent projected) then err (record { guard = g }) else ok g

-- `record`
unfoldable pub record_call : Model → Dict ℕ → Bool → BudgetGuard → ℕ × BudgetGuard
record_call model usage batch g =
    let cost = call_cost model usage batch in
    (cost, record g { spent = add g.spent cost; calls = g.calls + 1 })
