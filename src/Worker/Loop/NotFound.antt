-- ===== src/Worker/Loop/NotFound.antt =====
-- A round of services/worker/src/worker/loop.py for a dataset that the Hub does not find.
use datasets_server.Prelude.{
  ℕ, text_eq, Bool, false, String, Option, none, some, if◌then◌else◌, ◌≡◌, refl, sym, subst, ap,
  arith, eq_iff,
}
use datasets_server.Collection.{Collection}
use datasets_server.Utils.{JobInfo, Status, success, error}
use datasets_server.Job.{Job}
use datasets_server.Scheduling.{job_started, start_job}
use datasets_server.Cache.{CachedResponse}
use datasets_server.Graph.{DiGraph, ProcessingGraph}
use datasets_server.Worker.Failures.{CustomError, Failure, dataset_not_found, custom, other}
use datasets_server.Worker.Manager.{
  Try, returned, raised, Wording, World, JobRunner, Managed, JobManager, get_dataset_git_revision,
  kept_revision, process_failed, processed, process,
}
use datasets_server.Worker.Loop.{
  Attempt, done, uncaught, Uncaught, from_hub, Clock, Config, Site, Session, opened, closed,
  backfilled, backfill, with_status, run_manager, new_job_manager, finished_with, process_next_job,
}

module _ (W : World) (D : DiGraph) (jobs : Collection Job) (cache : Collection CachedResponse)
    (words : Wording) (graph : ProcessingGraph D) (e : CustomError) where
  abbrev Stopped :
      {A : Type 0} → jobs.Db → cache.Db → Attempt A × Session W D jobs cache words → Type 0
  Stopped queue responses t =
      (t.0 ≡ uncaught (from_hub (dataset_not_found e)))
      × (t.1.queue ≡ queue)
      × (t.1.managed.responses ≡ responses)

  abbrev failure_or : {A : Type 0} → Failure → Try A → Failure
  failure_or f (raised g) = g
  failure_or f (returned _) = f

  abbrev unknown : W.Outside → cache.Db → Managed W cache words
  unknown outside responses = record {
    outside = outside;
    dataset_git_revision = none;
    responses = responses;
  }

  -- The second question, which `backfill` asks, ends the run.
  asked_again :
      (m : JobManager W cache words) (times : ℕ → ℕ × ℕ × ℕ) (queue : jobs.Db)
      (s : Managed W cache words) (t : Try (Option String) × W.Outside)
      → t.0 ≡ raised (dataset_not_found e)
      → Stopped queue s.responses
          (backfilled W D jobs cache words graph m times queue (kept_revision W cache words s t))
  asked_again m times queue s (raised f, outside) h =
      (ap (λ g. uncaught (from_hub g)) (ap (failure_or f) h), refl, refl)
  asked_again m times queue s (returned r, outside) h = absurd (ground (arith, h))

  -- `process` answers `False` to the first one.
  asked :
      (m : JobManager W cache words) (outside : W.Outside) (responses : cache.Db)
      (t : Try (Option String) × W.Outside)
      → t.0 ≡ raised (dataset_not_found e)
      → processed W cache words m (kept_revision W cache words (unknown outside responses) t)
        ≡ (false, unknown t.1 responses)
  unfolding process_failed
  asked m outside responses (raised (dataset_not_found f), o) h = refl
  asked m outside responses (raised (custom f), o) h = absurd (ground (arith, h))
  asked m outside responses (raised (other f), o) h = absurd (ground (arith, h))
  asked m outside responses (returned r, o) h = absurd (ground (arith, h))

  abbrev failure_status : {A B : Type 0} → Uncaught → Attempt A → Attempt B
  failure_status f (uncaught g) = uncaught g
  failure_status f (done _) = uncaught f

  with_status-Stopped :
      (status : Status) (queue : jobs.Db) (responses : cache.Db)
      (t : Attempt (Unit {0}) × Session W D jobs cache words)
      → Stopped queue responses t
      → Stopped queue responses (with_status W D jobs cache words status t)
  with_status-Stopped status queue responses (done _, s) (h, k, l) = absurd (ground (arith, h))
  with_status-Stopped status queue responses (uncaught f, s) (h, k, l) =
      (ap (failure_status f) h, k, l)

  run_manager-Stopped :
      (m : JobManager W cache words) (times : ℕ → ℕ × ℕ × ℕ) (site : Site W D jobs cache words)
      → ((outside : W.Outside)
          → (W.git_revision m.params.dataset outside).0 ≡ raised (dataset_not_found e))
      → Stopped site.dbs.queue site.dbs.responses
          (run_manager W D jobs cache words graph m times (opened W D jobs cache words site))
  unfolding run_manager backfill process get_dataset_git_revision
  run_manager-Stopped m times site refused =
      let asked_first =
        asked m site.outside site.dbs.responses (W.git_revision m.params.dataset site.outside)
          (refused site.outside) in
      subst
        (λ (p : Bool × Managed W cache words). Stopped site.dbs.queue site.dbs.responses (
          with_status W D jobs cache words (if p.0 then success else error) (
            backfill W D jobs cache words graph m times
              (record { managed = p.1; queue = site.dbs.queue }))))
        (sym asked_first)
        (with_status-Stopped error site.dbs.queue site.dbs.responses _ (
          asked_again m times site.dbs.queue
            (unknown (W.git_revision m.params.dataset site.outside).1 site.dbs.responses) _
            (refused (W.git_revision m.params.dataset site.outside).1)))

  finished_with-Stopped :
      (clock : Clock) (job_id : ℕ) (queue : jobs.Db) (responses : cache.Db)
      (t : Attempt Status × Session W D jobs cache words)
      → Stopped queue responses t
      → (after : Site W D jobs cache words) × (finished_with W D jobs cache words clock job_id t
          ≡ (uncaught (from_hub (dataset_not_found e)), after))
        × (after.dbs.queue ≡ queue)
        × (after.dbs.responses ≡ responses)
  finished_with-Stopped clock job_id queue responses (done _, s) (h, k, l) =
      absurd (ground (arith, h))
  finished_with-Stopped clock job_id queue responses (uncaught f, s) (h, k, l) = (
    closed W D jobs cache words s,
    ap (λ t. (failure_status f t, closed W D jobs cache words s)) h,
    k,
    l,
  )

  -- If the Hub answers that the dataset of the job that `start_job` starts does not exist, and the job
  -- runner is one for the job's type, then the exception leaves the loop: the queue stays as
  -- `start_job` left it, with the job started, and no response is stored.
  pub process_next_job_not_found :
      (create_job_runner : JobInfo → Option (JobRunner W cache)) (loaded : Job → Job)
      (clock : Clock) (config : Config) (site : Site W D jobs cache words) (job_info : JobInfo)
      (job_runner : JobRunner W cache) (queue : jobs.Db)
      → start_job jobs loaded clock.started_at config.max_jobs_per_namespace
          config.job_types_blocked config.job_types_only site.dbs.queue
        ≡ (job_started job_info, queue)
      → create_job_runner job_info ≡ some job_runner
      → job_runner.processing_step.job_type ≡ job_runner.job_type
      → job_info.type ≡ job_runner.job_type
      → ((outside : W.Outside)
          → (W.git_revision job_info.params.dataset outside).0 ≡ raised (dataset_not_found e))
      → (after : Site W D jobs cache words) × (process_next_job W D jobs cache words graph
            create_job_runner loaded clock config site
          ≡ (uncaught (from_hub (dataset_not_found e)), after))
        × (after.dbs.queue ≡ queue)
        × (after.dbs.responses ≡ site.dbs.responses)
  unfolding process_next_job new_job_manager
  process_next_job_not_found create loaded clock config site job_info job_runner queue s c t u
        refused =
      let t' = (eq_iff job_runner.processing_step.job_type job_runner.job_type).1 t in
      let u' = (eq_iff job_info.type job_runner.job_type).1 u in
      let m : JobManager W cache words = record {
        params = job_info.params;
        priority = job_info.priority;
        job_runner = job_runner;
        content_max_bytes = config.content_max_bytes;
        now = clock.stored_at;
        id = clock.response_id;
      } in
      let started = record site { dbs = record site.dbs { queue = queue } } in
      rw (s, c, t', u', new_job_manager)
        (finished_with-Stopped clock job_info.job_id queue site.dbs.responses _
          (run_manager-Stopped m clock.tasks started refused))
