-- ===== src/Triage/Sweep.antt =====
-- scripts/run_sweep.py: the sweep over models, batch by batch. Whether an answer can be parsed, and what
-- the batches answer, are parameters; the printing, the artifacts and the waiting are left out, and so
-- is the request's body, that the answers do not depend on here.
pub mod Within
pub mod Order
mod Tests
use ledger_proof.Base.{
  ℕ, ◌+◌, ◌*◌, String, Bool, true, false, Option, none, some, List, [], ◌∷◌, ◌++◌, length,
  if◌then◌else◌, Result, ok, err, ◌>>=◌,
}
use ledger_proof.Base.Dict.{Dict, lookup, insert}
use ledger_proof.Base.Float.{one, times, div}
use ledger_proof.Base.Text.{padded}
use Prim.Native.String.{◌++◌ as joined}
use ledger_proof.Triage.Schema.{Verdict}
use ledger_proof.Triage.Bench.{Case}
use ledger_proof.Triage.Bench.Score.{Scored, score}
use ledger_proof.Triage.Budget.{Model, BudgetGuard, BudgetExceeded, check, record_call}

-- A message of the provider: its usage, whether it is a refusal, and its text blocks.
pub record Message : Type 0 where
  pub input_tokens : ℕ
  pub output_tokens : ℕ
  pub cache_read_input_tokens : ℕ
  pub cache_creation_input_tokens : ℕ
  pub is_refusal : Bool
  pub blocks : List String

-- A result of a batch; one that did not succeed has no message.
pub record Reply : Type 0 where
  pub custom_id : String
  pub message : Option Message

-- f"case-{index:05d}"
abbrev pub tag_of : ℕ → String
tag_of index = joined "case-" (padded 5 index)

-- The loop of `main` that fills `by_tag`, from an index on.
unfoldable pub tag_all : ℕ → List Case → Dict Case → Dict Case
tag_all index [] by_tag = by_tag
tag_all index (c ∷ cases) by_tag = tag_all (index + 1) cases (insert (tag_of index) c by_tag)

abbrev pub usage_of : Message → Dict ℕ
usage_of m =
    ("input_tokens", m.input_tokens)
    ∷ ("output_tokens", m.output_tokens)
    ∷ ("cache_read_input_tokens", m.cache_read_input_tokens)
    ∷ ("cache_creation_input_tokens", m.cache_creation_input_tokens)
    ∷ []

-- `"".join(...)`
abbrev pub join : List String → String
join [] = ""
join (block ∷ blocks) = joined block (join blocks)

-- What a case is scored as when this message answers it; `parse` is `parse_verdict`.
abbrev pub scored_by : (String → Option Verdict) → Case → Message → Scored
scored_by parse c m = score c (if m.is_refusal then none else parse (join m.blocks)) m.is_refusal

-- What one result adds: nothing where its id is unknown or where it did not succeed.
abbrev pub take_reply :
    (String → Option Verdict)
    → Model
    → Option Case
    → Option Message
    → List Scored × BudgetGuard
    → List Scored × BudgetGuard
take_reply parse model none m (scored, g) = (scored, g)
take_reply parse model (some c) none (scored, g) = (scored, g)
take_reply parse model (some c) (some m) (scored, g) =
    (scored ++ scored_by parse c m ∷ [], (record_call model (usage_of m) true g).1)

-- The loop of `collect`
unfoldable pub collect_loop :
    (String → Option Verdict)
    → Model
    → Dict Case
    → List Reply
    → List Scored × BudgetGuard
    → List Scored × BudgetGuard
collect_loop parse model by_tag [] state = state
collect_loop parse model by_tag (r ∷ replies) state =
    collect_loop parse model by_tag replies
      (take_reply parse model (lookup r.custom_id by_tag) r.message state)

abbrev pub collect :
    (String → Option Verdict)
    → Model
    → Dict Case
    → List Reply
    → BudgetGuard
    → List Scored × BudgetGuard
collect parse model by_tag replies g = collect_loop parse model by_tag replies ([], g)

-- A run of the sweep, and what its batch answers.
pub record Run : Type 0 where
  pub model : Model
  pub replies : List Reply

-- `0.02 * len(requests)`
abbrev pub projected_cost : ℕ → ℕ
projected_cost requests = times (div (times one 2) (times one 100)) requests

-- The loop of `main` over the runs; an exception of the guard ends it.
unfoldable pub sweep :
    (String → Option Verdict)
    → List Case
    → List Run
    → BudgetGuard
    → Result BudgetExceeded (List (List Scored) × BudgetGuard)
sweep parse cases [] g = ok ([], g)
sweep parse cases (run ∷ runs) g = do
  allowed ← check (projected_cost (length cases)) g
  let (scored, spent) = collect parse run.model (tag_all 0 cases []) run.replies allowed
  (rest, done) ← sweep parse cases runs spent
  ok (scored ∷ rest, done)
