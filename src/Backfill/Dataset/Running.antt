-- ===== src/Backfill/Dataset/Running.antt =====
-- `Plan.run` of libs/libcommon/src/libcommon/state.py: which jobs it leaves alone.
use datasets_server.Prelude.{
  ℕ, text_eq, option_eq, ◌==◌, Bool, false, not, ◌&&◌, String, Option, some, List, [], ◌∷◌, any,
  length, count, count_cong, if◌then◌else◌, ◌≡◌, refl, subst, ◌∙◌, arith, eq_iff,
}
use datasets_server.Collection.{Collection}
use datasets_server.Utils.{waiting, started, cancelled}
use datasets_server.Job.{Job}
use datasets_server.Cache.{CachedResponse}
use datasets_server.Graph.{DiGraph}
use datasets_server.Queue.{finished}
use datasets_server.Queue.Upsert.{upsert_job_frame}
use datasets_server.Queue.Cancel.{targeted, count-cancel_jobs}
use datasets_server.Backfill.{Task, create_job, delete_job}
use datasets_server.Backfill.Dataset.{run_task, run_tasks}

abbrev pub dataset_of : Task → String
dataset_of (create_job state _) = state.dataset
dataset_of (delete_job state) = state.dataset

-- A test of the jobs of other datasets.
abbrev pub other : String → (Job → Bool) → Job → Bool
other d q job = not (job.dataset == d) && q job

canceled_other :
    (now : ℕ) (t d : String) (c s : Option String) (q : Job → Bool) (job : Job)
    → other d q (
        if targeted t d c s (some (waiting ∷ started ∷ [])) job
        then finished now cancelled job
        else job)
      ≡ other d q job
canceled_other now t d c s q job = ground arith

module _ (D : DiGraph) (jobs : Collection Job) (cache : Collection CachedResponse) where
  open jobs use {Db, documents}

  run_task-other :
      (now : ℕ × ℕ × ℕ) (task : Task) (db : Db) (q : Job → Bool)
      → count (other (dataset_of task) q) (documents (run_task D jobs cache now task db))
        ≡ count (other (dataset_of task) q) (documents db)
  unfolding run_task
  run_task-other now (create_job state p) db q =
      upsert_job_frame state.processing_step.job_type state.dataset state.config state.split jobs
        now.0 now.1 now.2 p db (other state.dataset q) (λ job h. ground arith)
        (λ job h. ground arith)
  run_task-other now (delete_job state) db q =
      count-cancel_jobs jobs now.0 state.processing_step.job_type state.dataset state.config
        state.split (some (waiting ∷ started ∷ [])) db (other state.dataset q)
      ∙ count_cong _ _ (documents db) (
          canceled_other now.0 state.processing_step.job_type state.dataset state.config state.split
            q)

  -- Running tasks that are all about one dataset changes no job of another dataset: any test of the
  -- jobs of the other datasets counts as before.
  pub run_tasks_other_datasets :
      (d : String) (times : ℕ → ℕ × ℕ × ℕ) (tasks : List Task) (db : Db) (q : Job → Bool)
      → any (λ task. not (dataset_of task == d)) tasks ≡ false
      → count
          (λ job. not (job.dataset == d) && q job)
          (documents (run_tasks D jobs cache times tasks db))
        ≡ count (λ job. not (job.dataset == d) && q job) (documents db)
  unfolding run_tasks
  run_tasks_other_datasets d times [] db q about = refl
  run_tasks_other_datasets d times (task ∷ tasks) db q about =
      let same : dataset_of task ≡ d = (eq_iff (dataset_of task) d).0 (ground arith) in
      run_tasks_other_datasets d times tasks _ q (ground arith)
      ∙ subst
          (λ e.
            count (other e q) (documents (run_task D jobs cache (times (length tasks)) task db))
            ≡ count (other e q) (documents db))
          same (run_task-other (times (length tasks)) task db q)
