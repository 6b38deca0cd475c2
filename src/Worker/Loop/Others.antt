-- ===== src/Worker/Loop/Others.antt =====
-- The started jobs of other keys, while a job of services/worker/src/worker/loop.py runs.
use datasets_server.Prelude.{
  ℕ, ◌≤◌, nat_eq, text_eq, ◌==◌, Bool, true, false, not, ◌&&◌, String, Option, none, some, List, [],
  ◌∷◌, count, count-le, length, if◌then◌else◌, ◌≡◌, refl, sym, ◌∙◌, ap, arith, Bool-cases, inl, inr,
}
use datasets_server.Collection.{Collection}
use datasets_server.Utils.{Status, status_eq, waiting, started, success, error, cancelled}
use datasets_server.Job.{Job, has_status}
use datasets_server.Queue.{finished}
use datasets_server.Queue.Upsert.{upsert_job_frame}
use datasets_server.Queue.Cancel.{targeted, count-cancel_jobs}
use datasets_server.Lifecycle.{is_final}
use datasets_server.Cache.{CachedResponse}
use datasets_server.Errors
use datasets_server.Errors.{Outcome}
use datasets_server.Graph.{DiGraph, ProcessingGraph}
use datasets_server.Backfill.{Task, create_job, delete_job}
use datasets_server.Backfill.Dataset.{DatasetState, run_task, run_tasks, run}
use datasets_server.Worker.Manager.{
  Try, returned, raised, Wording, World, Managed, JobManager, get_dataset_git_revision, process,
}
use datasets_server.Worker.Loop.{
  Attempt, done, uncaught, Session, ran, backfilled, backfill, with_status, run_manager,
}

-- The started jobs but the one of a key.
abbrev pub others : ℕ → Job → Bool
others id job = has_status started job && not (job.pk == id)

others-cancelled :
    (id now : ℕ) (t d : String) (c s : Option String) (job : Job)
    → others id (
        if targeted t d c s (some (waiting ∷ started ∷ [])) job
        then finished now cancelled job
        else job)
      ≡ true
    → others id job ≡ true
others-cancelled id now t d c s job h = ground arith

-- The element that `.get()` returns.
abbrev pub head : List Job → Option Job
head [] = none
head (job ∷ _) = some job

pub head-none : (l : List Job) → head l ≡ none → length l ≡ 0
head-none [] h = refl
head-none (job ∷ l) h = absurd (ground (arith, h))

pub head-some :
    (id : ℕ) (l : List Job) {job : Job}
    → count (λ j. not (j.pk == id)) l ≡ 0
    → head l ≡ some job
    → job.pk ≡ id
head-some id [] all h = absurd (ground (arith, h))
head-some id (j ∷ l) {job} all h =
    let same : j ≡ job = ap (λ o. elim o as (λ _. Job) [ some i ↦ i | none ↦ j ]) h in
    elim (Bool-cases (j.pk == id)) [
      | inl e ↦ sym (ap (λ (i : Job). i.pk) same) ∙ (nat_eq.beq_iff j.pk id).0 e
      | inr e ↦ absurd (ground arith)
    ]

module _ (W : World) (D : DiGraph) (jobs : Collection Job) (cache : Collection CachedResponse)
    (words : Wording) where
  open jobs use {Db, documents, find, find_law, update, update_law}

  run_task-others :
      (id : ℕ) (now : ℕ × ℕ × ℕ) (task : Task) (db : Db)
      → count (others id) (documents (run_task D jobs cache now task db))
        ≤ count (others id) (documents db)
  unfolding run_task
  run_task-others id now (create_job state p) db = omega (
    arith,
    upsert_job_frame state.processing_step.job_type state.dataset state.config state.split jobs
        now.0 now.1 now.2 p db (others id) (λ job h. ground arith) (λ job h. ground arith),
  )
  run_task-others id now (delete_job state) db = omega (
    arith,
    count-cancel_jobs jobs now.0 state.processing_step.job_type state.dataset state.config
        state.split (some (waiting ∷ started ∷ [])) db (others id),
    count-le _ (others id) (documents db) (
        others-cancelled id now.0 state.processing_step.job_type state.dataset state.config
          state.split),
  )

  run_tasks-others :
      (id : ℕ) (times : ℕ → ℕ × ℕ × ℕ) (tasks : List Task) (db : Db)
      → count (others id) (documents (run_tasks D jobs cache times tasks db))
        ≤ count (others id) (documents db)
  unfolding run_tasks
  run_tasks-others id times [] db = omega arith
  run_tasks-others id times (task ∷ tasks) db = omega (
    arith,
    run_tasks-others id times tasks (run_task D jobs cache (times (length tasks)) task db),
    run_task-others id (times (length tasks)) task db,
  )

  abbrev pub left : ℕ → Session W D jobs cache words → ℕ
  left id s = count (others id) (documents s.queue)

  ran-others :
      (id : ℕ) (times : ℕ → ℕ × ℕ × ℕ) (s : Session W D jobs cache words)
      (state : Outcome DatasetState)
      → left id (ran W D jobs cache words times s state).1 ≤ left id s
  unfolding run
  ran-others id times s (Errors.Outcome.return state) =
      run_tasks-others id times state.tasks s.queue
  ran-others id times s (Errors.Outcome.raise e) = omega arith

  backfilled-others :
      (graph : ProcessingGraph D) (m : JobManager W cache words) (id : ℕ) (times : ℕ → ℕ × ℕ × ℕ)
      (queue : Db) (t : Try (Option String) × Managed W cache words)
      → left id (backfilled W D jobs cache words graph m times queue t).1
        ≤ count (others id) (documents queue)
  backfilled-others graph m id times queue (raised e, s) = omega arith
  backfilled-others graph m id times queue (returned revision, s) = ran-others id times _ _

  -- The status with which `run` ends.
  abbrev pub Final : Attempt Status → Type 0
  Final (done status) = is_final status ≡ true
  Final (uncaught _) = Unit

  with_status-left :
      (id : ℕ) (status : Status) (t : Attempt (Unit {0}) × Session W D jobs cache words)
      → is_final status ≡ true
      → Final (with_status W D jobs cache words status t).0
        × (left id (with_status W D jobs cache words status t).1 ≡ left id t.1)
  with_status-left id status (done _, s) h = (h, refl)
  with_status-left id status (uncaught e, s) h = (tt, refl)

  pub run_manager-others :
      (graph : ProcessingGraph D) (m : JobManager W cache words) (id : ℕ) (times : ℕ → ℕ × ℕ × ℕ)
      (s : Session W D jobs cache words)
      → Final (run_manager W D jobs cache words graph m times s).0
        × (left id (run_manager W D jobs cache words graph m times s).1 ≤ left id s)
  unfolding run_manager backfill
  run_manager-others graph m id times s =
      let (answer, managed) = process W cache words m s.managed in
      let after = backfill W D jobs cache words graph m times (record s { managed = managed }) in
      let status = if answer then success else error in
      let (final, same) = with_status-left id status after (final_status answer) in
      (
        final,
        omega (
          arith,
          same,
          backfilled-others graph m id times s.queue
              (get_dataset_git_revision W cache words m managed),
        ),
      )
    where
      final_status : (answer : Bool) → is_final (if answer then success else error) ≡ true
      final_status true = refl
      final_status false = refl
