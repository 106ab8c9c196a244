-- ===== src/Worker/Tasks.antt =====
-- ledgerproof/worker/tasks.py: `process_event`, with Celery's retries of it. What happens to the
-- books between two runs is a parameter, and so is the jitter of a countdown, in thousandths.
pub mod Ends
use ledger_proof.Base.{
  ℕ, zero, suc, ◌+◌, ◌-◌, ◌*◌, ◌^◌, ◌≤◌, ◌<◌, min, String, Bool, true, false, Option, none, some,
  List, [], ◌∷◌, any, map, Every, str_eq, if◌then◌else◌, ltb, Result, ok, err, ◌≡◌, ◌≢◌, refl, sym,
  ap, subst, arith, Bool-cases, inl, inr, ◌⊎◌, lt→ltb, length,
}
use ledger_proof.Ledger.Post.{Env}
use ledger_proof.Ingest.Events.{Status, failed, EventRow, EventTable, same_id, update_status}
use ledger_proof.Ingest.Dedupe.{Event}
use ledger_proof.Worker.Handlers.{Failure, Client, Handled, Books, mark_status, handle_event}

abbrev pub max_retries : ℕ
max_retries = 5

-- How a run of the task ends; `retry` carries its countdown in milliseconds.
pub data TaskEnd : Type 0 where
  done : Handled → TaskEnd
  retry : ℕ → TaskEnd
  raised_again : Failure → TaskEnd

-- `min(2**retries, 60) * (0.5 + random.random())`
unfoldable pub countdown : ℕ → ℕ → ℕ
countdown retries draw = min (2 ^ retries) 60 * (500 + draw)

-- The books once the event is marked as failed; an exception of that is logged and dropped.
unfoldable pub dead_letter : Event → Books → Books
dead_letter event b = elim (mark_status b.events event failed) [
  | ok rows ↦ record b { events = rows }
  | err e ↦ b
]

unfoldable pub after_handling : ℕ → ℕ → Event → Result Failure Handled × Books → TaskEnd × Books
after_handling retries draw event (ok h, b) = (done h, b)
after_handling retries draw event (err e, b) =
    if ltb retries max_retries
    then (retry (countdown retries draw), b)
    else (raised_again e, dead_letter event b)

unfoldable pub process_event :
    (String → ℕ) → ℕ → ℕ → Env → Option Client → Event → Books → TaskEnd × Books
process_event uuid5 retries draw env client event b =
    after_handling retries draw event (handle_event uuid5 env client event b)

-- How the task ends after all its runs, with the countdowns that it waited; `none` is fuel run out.
pub record TaskRun : Type 0 where
  pub end : TaskEnd
  pub books : Books
  pub waited : List ℕ

module _ (uuid5 : String → ℕ) (draw : ℕ → ℕ) (env : ℕ → Env) (client : ℕ → Option Client)
    (between : ℕ → Books → Books) (event : Event) where
  abbrev longer : ℕ → Option TaskRun → Option TaskRun
  longer wait none = none
  longer wait (some r) = some (record r { waited = wait ∷ r.waited })

  abbrev next_run : TaskEnd × Books → Option TaskRun → Option TaskRun
  next_run (retry wait, b) rest = longer wait rest
  next_run (end, b) rest = some (record { end = end; books = b; waited = [] })

  -- The runs from number `retries` on.
  unfoldable pub run_task : ℕ → ℕ → Books → Option TaskRun
  run_task zero retries b = none
  run_task (suc fuel) retries b =
      let r =
        process_event uuid5 retries (draw retries) (env retries) (client retries) event
          (between retries b) in
      let rest = run_task fuel (retries + 1) r.1 in next_run r rest
