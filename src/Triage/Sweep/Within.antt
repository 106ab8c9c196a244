-- ===== src/Triage/Sweep/Within.antt =====
-- When a sweep of scripts/run_sweep.py starts a batch, and when its guard stops it.
use ledger_proof.Base.{
  ℕ, String, Option, List, [], ◌∷◌, ◌++◌, length, ◌≤◌, ◌<◌, ◌≡◌, Result, ok, err,
}
use ledger_proof.Base.Float.{add}
use ledger_proof.Triage.Schema.{Verdict}
use ledger_proof.Triage.Bench.{Case}
use ledger_proof.Triage.Bench.Score.{Scored}
use ledger_proof.Base.Dict.{Dict}
use ledger_proof.Triage.Budget.{BudgetGuard, BudgetExceeded}
use ledger_proof.Triage.Sweep.{tag_all, collect, Run, projected_cost}

abbrev pub Swept : Type 0
Swept = Result BudgetExceeded (List (List Scored) × BudgetGuard)

-- The guard at the end, of a sweep that went through or was stopped.
abbrev pub guard_at_end : Swept → BudgetGuard
guard_at_end (ok (scored, g)) = g
guard_at_end (err e) = e.guard

module _ (parse : String → Option Verdict) (cases : List Case) (cap : ℕ) where
  -- What was spent with what the next batch is projected to cost.
  abbrev pub outlook : BudgetGuard → ℕ
  outlook g = add g.spent (projected_cost (length cases))

  abbrev pub guard_after : List Run → BudgetGuard → BudgetGuard
  guard_after [] g = g
  guard_after (run ∷ runs) g =
      guard_after runs (collect parse run.model (tag_all 0 cases []) run.replies g).1

  -- Before each of these batches, its projected cost is within the cap.
  abbrev pub Affordable : List Run → BudgetGuard → Type 0
  Affordable [] g = Unit
  Affordable (run ∷ runs) g =
      (outlook g ≤ cap)
      × Affordable runs (collect parse run.model (tag_all 0 cases []) run.replies g).1

  -- Why a sweep ended before the batches that are left: there are none, or the next one would leave
  -- the cap.
  abbrev pub Ended : List Run → BudgetGuard → Swept → Type 0
  Ended [] g (ok (scored, end)) = Unit
  Ended [] g (err e) = ⊥
  Ended (run ∷ runs) g (ok (scored, end)) = ⊥
  Ended (run ∷ runs) g (err e) = cap < outlook g

  pub record IsGuarded (runs : List Run) (g : BudgetGuard) (swept : Swept) : Type 0 where
    pub done : List Run
    pub left : List Run
    pub all_runs : runs ≡ done ++ left
    pub affordable : Affordable done g
    pub paid : guard_at_end swept ≡ guard_after done g
    pub ended : Ended left (guard_after done g) swept
