-- ===== src/Worker/Tasks/Ends.antt =====
-- The end of the runs of worker/tasks.py.
use ledger_proof.Base.{
  ℕ, zero, suc, ◌+◌, ◌-◌, ◌≤◌, ◌<◌, String, Option, some, [], ◌∷◌, Every, ltb, Result, ok, err, ◌≡◌,
  ◌≢◌, refl, arith, Bool-cases, inl, inr, ltb→lt, length,
}
use ledger_proof.Ledger.Post.{Env}
use ledger_proof.Ingest.Dedupe.{Event}
use ledger_proof.Worker.Handlers.{Failure, Client, Handled, Books, handle_event}
use ledger_proof.Worker.Tasks.{
  max_retries, TaskEnd, done, retry, raised_again, countdown, dead_letter, after_handling,
  process_event, TaskRun, next_run, run_task,
}

-- A task that has ended: it is not left to be retried, and where it gave up its event was marked.
pub record IsFinished (event : Event) (most : ℕ) (r : TaskRun) : Type 0 where
  pub settled : (n : ℕ) → r.end ≢ retry n
  pub few_waits : length r.waited ≤ most
  pub short_waits : Every (λ (w : ℕ). w < 90000) r.waited
  pub recorded :
      (e : Failure) → r.end ≡ raised_again e → (b : Books) × (r.books ≡ dead_letter event b)

-- How one run ends.
data Went (retries draw : ℕ) (event : Event) : TaskEnd × Books → Type 0 where
  went_well : (h : Handled) (b : Books) → Went retries draw event (done h, b)
  went_again :
      (b : Books)
      → retries < max_retries
      → Went retries draw event (retry (countdown retries draw), b)
  went_dead :
      (e : Failure) (b : Books) → Went retries draw event (raised_again e, dead_letter event b)

after_handling-Went :
    (retries draw : ℕ) (event : Event) (x : Result Failure Handled × Books)
    → Went retries draw event (after_handling retries draw event x)
unfolding after_handling
after_handling-Went retries draw event (ok h, b) = went_well h b
after_handling-Went retries draw event (err e, b) = elim (Bool-cases (ltb retries max_retries)) [
  | inl early ↦ rw early (went_again b (ltb→lt retries max_retries early))
  | inr late ↦ rw late (went_dead e b)
]

countdown_bound : (n d : ℕ) → d < 1000 → countdown n d < 90000
unfolding countdown
countdown_bound n d h = grind arith

module _ (uuid5 : String → ℕ) (draw : ℕ → ℕ) (drawn : (n : ℕ) → draw n < 1000) (env : ℕ → Env)
    (client : ℕ → Option Client) (between : ℕ → Books → Books) (event : Event) where
  next_finishes :
      (retries : ℕ) {x : TaskEnd × Books} (rest : Option TaskRun)
      → Went retries (draw retries) event x
      → (retries < max_retries
          → (r : TaskRun) × (rest ≡ some r) × IsFinished event (max_retries - (retries + 1)) r)
      → (r : TaskRun) × (next_run uuid5 draw env client between event x rest ≡ some r)
        × IsFinished event (max_retries - retries) r
  next_finishes retries rest (went_well h b) later = (
    record { end = done h; books = b; waited = [] },
    refl,
    record {
      settled = λ n e. cc;
      few_waits = omega arith;
      short_waits = tt;
      recorded = λ e is. cc;
    },
  )
  next_finishes retries rest (went_dead e b) later = (
    record { end = raised_again e; books = dead_letter event b; waited = [] },
    refl,
    record {
      settled = λ n e. cc;
      few_waits = omega arith;
      short_waits = tt;
      recorded = λ e is. (b, refl);
    },
  )
  next_finishes retries rest (went_again b early) later =
      let (r, is, f) = later early in
      (
        record r { waited = countdown retries (draw retries) ∷ r.waited },
        rw is refl,
        record {
          settled = f.settled;
          few_waits = omega (arith, f.few_waits, early);
          short_waits = (countdown_bound retries (draw retries) (drawn retries), f.short_waits);
          recorded = f.recorded;
        },
      )

  runs_finish :
      (fuel retries : ℕ) (b : Books)
      → max_retries < fuel + retries
      → retries ≤ max_retries
      → (r : TaskRun) × (run_task uuid5 draw env client between event fuel retries b ≡ some r)
        × IsFinished event (max_retries - retries) r
  unfolding run_task process_event
  runs_finish zero retries b enough room = absurd (omega (arith, enough, room))
  runs_finish (suc fuel) retries b enough room =
      next_finishes retries _
        (after_handling-Went retries (draw retries) event
          (handle_event uuid5 (env retries) (client retries) event (between retries b)))
        (λ early. runs_finish fuel (retries + 1) _ (omega (arith, enough)) (omega (arith, early)))

  -- The runs of a task end: whatever each run meets and whatever changes between them, with jitter
  -- below 1, after at most 5 retries, each with a countdown of less than 90 s, the event is
  -- handled or its exception is raised again with the event marked as failed, where that can be
  -- recorded; no task is left waiting to be retried.
  pub run_task-IsFinished :
      (b : Books)
      → (r : TaskRun) × (run_task uuid5 draw env client between event (max_retries + 1) 0 b
          ≡ some r)
        × IsFinished event max_retries r
  run_task-IsFinished b = runs_finish (max_retries + 1) 0 b (omega arith) (omega arith)
