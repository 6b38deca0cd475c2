-- ===== src/Worker/Loop.antt =====
-- The loop of services/worker/src/worker/loop.py, and `JobManager.run` and `JobManager.backfill` of
-- services/worker/src/worker/job_manager.py. The job runner of a job is an argument, as are the dates
-- and keys that the operations read. Logs, the pause between two rounds and the state file are left out.
pub mod Others
pub mod Lasting
pub mod NotFound
use datasets_server.Prelude.{
  ℕ, zero, suc, text_eq, ◌==◌, Bool, true, false, not, ◌&&◌, String, Option, none, some, List, [],
  ◌∷◌, if◌then◌else◌,
}
use datasets_server.Collection.{Collection}
use datasets_server.Utils.{Status, JobInfo, Priority, success, error}
use datasets_server.Job.{Job}
use datasets_server.Queue.{finish_job}
use datasets_server.Scheduling.{
  StartResult, job_started, empty_queue, blocked_type, other_type, start_job,
}
use datasets_server.Cache.{CachedResponse}
use datasets_server.Errors
use datasets_server.Errors.{Exception, Outcome}
use datasets_server.Graph.{DiGraph, ProcessingGraph}
use datasets_server.State.{Databases}
use datasets_server.Backfill.Dataset.{DatasetState, dataset_state_of, run}
use datasets_server.Worker.Failures.{Failure}
use datasets_server.Worker.Manager.{
  Try, returned, raised, Wording, World, JobRunner, Managed, JobManager, get_dataset_git_revision,
  process,
}

-- `ERROR_CODES_TO_RETRY`
abbrev pub error_codes_to_retry : List String
error_codes_to_retry = "ClientConnectionError" ∷ []

-- An exception that ends the loop: of the Hub, of the code of `DatasetState`, of `JobManager.setup`,
-- of the factory, or of a test of `start_job`.
pub data Uncaught : Type 0 where
  from_hub : Failure → Uncaught
  from_state : Exception → Uncaught
  unsupported_job wrong_type forbidden_type : Uncaught

pub data Attempt (A : Type 0) : Type 0 where
  done : A → Attempt A
  uncaught : Uncaught → Attempt A

-- What one round reads from the clock and for the keys of new documents.
pub record Clock : Type 0 where
  pub started_at : ℕ
  pub stored_at : ℕ
  pub response_id : ℕ
  pub tasks : ℕ → ℕ × ℕ × ℕ
  pub finished_at : ℕ

-- The configuration of a worker.
pub record Config : Type 0 where
  pub content_max_bytes : ℕ
  pub max_jobs_per_namespace : Option ℕ
  pub job_types_blocked : Option (List String)
  pub job_types_only : Option (List String)

module _ (W : World) (D : DiGraph) (jobs : Collection Job) (cache : Collection CachedResponse)
    (words : Wording) where
  -- What the worker acts on: the world outside, and the two databases.
  pub record Site : Type 0 where
    pub outside : W.Outside
    pub dbs : Databases D jobs cache

  -- The attributes of a job manager and what it acts on.
  pub record Session : Type 0 where
    pub managed : Managed W cache words
    pub queue : jobs.Db

  abbrev pub opened : Site → Session
  opened site = record {
    managed = record {
      outside = site.outside;
      dataset_git_revision = none;
      responses = site.dbs.responses;
    };
    queue = site.dbs.queue;
  }

  abbrev pub closed : Session → Site
  closed s = record {
    outside = s.managed.outside;
    dbs = record { queue = s.queue; responses = s.managed.responses };
  }

  abbrev pub databases_of : Session → Databases D jobs cache
  databases_of s = record { queue = s.queue; responses = s.managed.responses }

  -- `DatasetState(...).backfill()`
  abbrev pub ran : (ℕ → ℕ × ℕ × ℕ) → Session → Outcome DatasetState → Attempt (Unit {0}) × Session
  ran times s (Errors.Outcome.return state) =
      (done tt, record s { queue = (run D jobs cache times state.tasks s.queue).1 })
  ran times s (Errors.Outcome.raise e) = (uncaught (from_state e), s)

  abbrev pub backfilled :
      ProcessingGraph D
      → JobManager W cache words
      → (ℕ → ℕ × ℕ × ℕ)
      → (queue : jobs.Db) → Try (Option String) × Managed W cache words
      → Attempt (Unit {0}) × Session
  backfilled graph m times queue (raised e, s) =
      (uncaught (from_hub e), record { managed = s; queue = queue })
  backfilled graph m times queue (returned revision, s) =
      let session : Session = record { managed = s; queue = queue } in
      ran times session (
        dataset_state_of D jobs cache graph m.params.dataset revision (some error_codes_to_retry)
          m.priority (databases_of session))

  unfoldable pub backfill :
      ProcessingGraph D
      → JobManager W cache words
      → (ℕ → ℕ × ℕ × ℕ)
      → Session
      → Attempt (Unit {0}) × Session
  backfill graph m times s =
      backfilled graph m times s.queue (get_dataset_git_revision W cache words m s.managed)

  -- No exception leaves `process`; one of `backfill` leaves `run`.
  abbrev pub with_status : Status → Attempt (Unit {0}) × Session → Attempt Status × Session
  with_status status (done _, s) = (done status, s)
  with_status status (uncaught e, s) = (uncaught e, s)

  unfoldable pub run_manager :
      ProcessingGraph D
      → JobManager W cache words
      → (ℕ → ℕ × ℕ × ℕ)
      → Session
      → Attempt Status × Session
  unfolding backfill process
  run_manager graph m times s =
      let (answer, managed) = process W cache words m s.managed in
      with_status (if answer then success else error)
        (backfill graph m times (record s { managed = managed }))

  -- `JobManager.__init__` with its `setup`: `none` is the exception `ValueError`.
  unfoldable pub new_job_manager :
      Clock → Config → JobInfo → JobRunner W cache → Option (JobManager W cache words)
  new_job_manager clock config job_info job_runner =
      if not (job_runner.processing_step.job_type == job_runner.job_type)
      then none
      else if not (job_info.type == job_runner.job_type)
      then none
      else some (record {
        params = job_info.params;
        priority = job_info.priority;
        job_runner = job_runner;
        content_max_bytes = config.content_max_bytes;
        now = clock.stored_at;
        id = clock.response_id;
      })

  abbrev pub finished_with : Clock → (job_id : ℕ) → Attempt Status × Session → Attempt Bool × Site
  finished_with clock job_id (done status, s) = (
    done true,
    closed (record s { queue = finish_job jobs clock.finished_at job_id status s.queue }),
  )
  finished_with clock job_id (uncaught e, s) = (uncaught e, closed s)

  abbrev pub managed_by :
      ProcessingGraph D
      → Clock
      → (job_id : ℕ) → Option (JobManager W cache words)
      → Site
      → Attempt Bool × Site
  managed_by graph clock job_id none site = (uncaught wrong_type, site)
  managed_by graph clock job_id (some m) site =
      finished_with clock job_id (run_manager graph m clock.tasks (opened site))

  abbrev pub run_by :
      ProcessingGraph D
      → Clock
      → Config
      → JobInfo
      → Option (JobRunner W cache)
      → Site
      → Attempt Bool × Site
  run_by graph clock config job_info none site = (uncaught unsupported_job, site)
  run_by graph clock config job_info (some job_runner) site =
      managed_by graph clock job_info.job_id (new_job_manager clock config job_info job_runner) site

  abbrev pub started_with :
      ProcessingGraph D
      → (create_job_runner : JobInfo → Option (JobRunner W cache)) → Clock
      → Config
      → StartResult × jobs.Db
      → Site
      → Attempt Bool × Site
  started_with graph create_job_runner clock config (empty_queue, queue) site =
      (done false, record site { dbs = record site.dbs { queue = queue } })
  started_with graph create_job_runner clock config (blocked_type, queue) site =
      (uncaught forbidden_type, record site { dbs = record site.dbs { queue = queue } })
  started_with graph create_job_runner clock config (other_type, queue) site =
      (uncaught forbidden_type, record site { dbs = record site.dbs { queue = queue } })
  started_with graph create_job_runner clock config (job_started job_info, queue) site =
      run_by graph clock config job_info (create_job_runner job_info)
        (record site { dbs = record site.dbs { queue = queue } })

  unfoldable pub process_next_job :
      ProcessingGraph D
      → (create_job_runner : JobInfo → Option (JobRunner W cache)) → (loaded : Job → Job) → Clock
      → Config
      → Site
      → Attempt Bool × Site
  unfolding run_manager new_job_manager
  process_next_job graph create_job_runner loaded clock config site =
      started_with graph create_job_runner clock config
        (start_job jobs loaded clock.started_at config.max_jobs_per_namespace
          config.job_types_blocked config.job_types_only site.dbs.queue)
        site
