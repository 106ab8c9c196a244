-- ===== src/Triage/Bench/Metrics.antt =====
-- The metrics of ledgerproof/triage/bench.py: `aggregate` and what it calls. A rate is the number that
-- it divides, and 0 where it is left out for want of results; the quotient, the rounding and the means
-- of floats are left out.
pub mod Tallies
pub mod Coherent
pub mod Confusion
pub mod Bounds
use Prim.Native.String.{compare}
use text.Mathlib.Text.{is_lt}
use ledger_proof.Base.{
  ℕ, zero, suc, ◌+◌, String, Bool, true, false, ◌&&◌, ◌||◌, not, Option, none, some, is_some, List,
  [], ◌∷◌, keep, length, str_eq, if◌then◌else◌,
}
use ledger_proof.Base.Dict.{Dict, lookup, insert}
use ledger_proof.Recon.Expected.{insert_name}
use ledger_proof.Triage.Bench.{Case}
use ledger_proof.Triage.Bench.Score.{Scored}

-- `sum(p(s) for s in scored)`
unfoldable pub tally {ℓ} : {A : Type ℓ} → (A → Bool) → List A → ℕ
tally p [] = 0
tally p (x ∷ xs) = (if p x then 1 else 0) + tally p xs

-- `dict(sorted(d.items()))`
unfoldable pub insert_item {ℓ} : {V : Type ℓ} → String × V → Dict V → Dict V
insert_item kv [] = kv ∷ []
insert_item kv (own ∷ d) =
    let rest = insert_item kv d in if is_lt (compare own.0 kv.0) then own ∷ rest else kv ∷ own ∷ d

unfoldable pub sort_items {ℓ} : {V : Type ℓ} → Dict V → Dict V
sort_items [] = []
sort_items (kv ∷ d) = insert_item kv (sort_items d)

abbrev pub count_of : Option ℕ → ℕ
count_of none = 0
count_of (some n) = n

-- `Counter`: one more of a name
abbrev pub bump : String → Dict ℕ → Dict ℕ
bump name counts = insert name (count_of (lookup name counts) + 1) counts

unfoldable pub counter : List String → Dict ℕ → Dict ℕ
counter [] counts = counts
counter (name ∷ names) counts = counter names (bump name counts)

abbrev pub labels : List Case → List String
labels [] = []
labels (c ∷ cases) = c.label_fault ∷ labels cases

unfoldable pub class_balance : List Case → Dict ℕ
class_balance cases = sort_items (counter (labels cases) [])

abbrev pub row_of : Option (Dict ℕ) → Dict ℕ
row_of none = []
row_of (some row) = row

-- The loop of `_confusion`
abbrev pub confuse : Scored → Option String → Dict (Dict ℕ) → Dict (Dict ℕ)
confuse s none matrix = matrix
confuse s (some predicted) matrix =
    insert s.label_fault (bump predicted (row_of (lookup s.label_fault matrix))) matrix

unfoldable pub fill : List Scored → Dict (Dict ℕ) → Dict (Dict ℕ)
fill [] matrix = matrix
fill (s ∷ scored) matrix = fill scored (confuse s s.predicted matrix)

abbrev pub sorted_rows : Dict (Dict ℕ) → Dict (Dict ℕ)
sorted_rows [] = []
sorted_rows ((fault, row) ∷ matrix) = (fault, sort_items row) ∷ sorted_rows matrix

unfoldable pub confusion : List Scored → Dict (Dict ℕ)
confusion scored = sort_items (sorted_rows (fill scored []))

-- `bool(x)` of a mark that may be None
abbrev pub marked : Option Bool → Bool
marked none = false
marked (some b) = b

-- `_repair_metrics`
pub record RepairMetrics : Type 0 where
  pub repair_stratum_n : ℕ
  pub false_repairs : ℕ
  pub repair_fixable_n : ℕ
  pub restored : ℕ
  pub unfixable_n : ℕ
  pub claimed_unfixable : ℕ

abbrev pub in_stratum : Scored → Bool
in_stratum s = is_some s.repair_correct || is_some s.false_repair

unfoldable pub repair_metrics : List Scored → RepairMetrics
repair_metrics scored =
    let repairable = keep in_stratum scored in
    let fixable = keep (λ s. not (is_some s.claimed_to_fix_the_unfixable)) repairable in
    let unfixable = keep (λ s. is_some s.claimed_to_fix_the_unfixable) repairable in
    record {
      repair_stratum_n = length repairable;
      false_repairs = tally (λ s. marked s.false_repair) repairable;
      repair_fixable_n = length fixable;
      restored = tally (λ s. marked s.repair_correct) fixable;
      unfixable_n = length unfixable;
      claimed_unfixable = tally (λ s. marked s.claimed_to_fix_the_unfixable) unfixable;
    }

-- `sorted({s.label_fault for s in scored})`
unfoldable pub faults_of : List Scored → List String
faults_of [] = []
faults_of (s ∷ scored) = insert_name s.label_fault (faults_of scored)

-- The hits and the cases of each fault.
unfoldable pub by_fault : List String → List Scored → Dict (ℕ × ℕ)
by_fault [] scored = []
by_fault (fault ∷ faults) scored =
    let own = λ (s : Scored). str_eq s.label_fault fault in
    (fault, (tally (λ s. own s && s.correct_at_1) scored, tally own scored))
    ∷ by_fault faults scored

pub record Metrics : Type 0 where
  pub n : ℕ
  pub answered : ℕ
  pub refused : ℕ
  pub correct_at_1 : ℕ
  pub correct_at_3 : ℕ
  pub over_repairs : ℕ
  pub repair_proposed : ℕ
  pub repair_balanced : ℕ
  pub repairs : RepairMetrics
  pub accuracy_by_fault : Dict (ℕ × ℕ)
  pub confused : Dict (Dict ℕ)

-- What is reported of some results.
unfoldable pub totals : List Scored → Metrics
totals scored = record {
  n = length scored;
  answered = length (keep (λ s. is_some s.predicted) scored);
  refused = tally (λ s. s.refused) scored;
  correct_at_1 = tally (λ s. s.correct_at_1) scored;
  correct_at_3 = tally (λ s. s.correct_at_3) scored;
  over_repairs = tally (λ s. s.over_repair) scored;
  repair_proposed = tally (λ s. s.proposed_repair) scored;
  repair_balanced = tally (λ s. s.repair_balanced) scored;
  repairs = repair_metrics scored;
  accuracy_by_fault = by_fault (faults_of scored) scored;
  confused = confusion scored;
}

-- Of no results only that there are none is reported.
unfoldable pub aggregate : List Scored → Option Metrics
aggregate [] = none
aggregate (s ∷ scored) = some (totals (s ∷ scored))
