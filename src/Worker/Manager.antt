-- ===== src/Worker/Manager.antt =====
-- `JobManager` of services/worker/src/worker/job_manager.py. What a job runner does to files and to the
-- Hub, and what the Hub answers, are arguments that act on a world of their own; the size of a content
-- as JSON bytes is an argument too. The texts of the errors are left to `Wording`.
pub mod Writes
use datasets_server.Prelude.{
  ℕ, ◌^◌, text_eq, nat_eq, option_eq, ◌==◌, Bool, true, false, ◌&&◌, String, Option, none, some,
  List, [], ◌∷◌, ltb, ℤ, pos, if◌then◌else◌,
}
use datasets_server.Collection.{Collection}
use datasets_server.Utils.{Status, Priority, JobInfo, JobParams, success, error}
use datasets_server.Json.{Json}
use datasets_server.Job.{Job}
use datasets_server.Cache
use datasets_server.Cache.{
  CachedResponse, Response, CacheEntryWithoutContent, does_not_exist,
  get_response_without_content_params, upsert_response_params,
}
use datasets_server.Errors.{Outcome}
use datasets_server.Graph.{ProcessingStep, DiGraph, ProcessingGraph}
use datasets_server.State.{Databases}
use datasets_server.Backfill.Dataset.{dataset_state_of, run}
use datasets_server.Worker.Failures.{
  CustomError, Failure, dataset_not_found, custom, other, Cause, as_response,
  as_response_with_cause, to_custom_error, no_git_revision_error, response_already_computed_error,
  too_big_content_error, job_manager_crashed_error, job_manager_exceeded_maximum_duration_error,
}

-- A result, or an exception.
pub data Try (A : Type 0) : Type 0 where
  returned : A → Try A
  raised : Failure → Try A

pub record JobResult : Type 0 where
  pub content : Json
  pub progress : ℤ

-- The messages of the errors that the job manager raises.
pub record Wording : Type 0 where
  pub no_revision : (dataset : String) → String
  pub already_computed : (kind : String) → String
  pub too_big : (max_bytes : ℕ) → String
  pub multiple_documents : Cause

-- What is outside of the cache and the queue.
pub record World : Type 1 where
  pub Outside : Type 0
  -- `get_dataset_git_revision(...)`
  pub git_revision : (dataset : String) → Outside → Try (Option String) × Outside
  -- `len(orjson_dumps(content))`
  pub json_size : Json → ℕ

-- A job runner: its hooks may read the cache.
pub record JobRunner (W : World) (cache : Collection CachedResponse) : Type 0 where
  pub job_type : String
  pub job_runner_version : ℕ
  pub processing_step : ProcessingStep
  pub parallel : Option (String × ℕ)
  pub pre_compute : cache.Db → W.Outside → Try (Unit {0}) × W.Outside
  pub compute : cache.Db → W.Outside → Try JobResult × W.Outside
  pub post_compute : cache.Db → W.Outside → Try (Unit {0}) × W.Outside

module _ (W : World) (cache : Collection CachedResponse) (words : Wording) where
  -- The attribute `_dataset_git_revision`, and what the job manager acts on.
  pub record Managed : Type 0 where
    pub outside : W.Outside
    pub dataset_git_revision : Option String
    pub responses : cache.Db

  -- The fields of a `JobManager`; `now` and `id` are for the document that it may create.
  pub record JobManager : Type 0 where
    pub params : JobParams
    pub priority : Priority
    pub job_runner : JobRunner W cache
    pub content_max_bytes : ℕ
    pub now : ℕ
    pub id : ℕ

  abbrev pub kept_revision :
      Managed → Try (Option String) × W.Outside → Try (Option String) × Managed
  kept_revision s (returned revision, outside) =
      (returned revision, record s { outside = outside; dataset_git_revision = revision })
  kept_revision s (raised e, outside) = (raised e, record s { outside = outside })

  unfoldable pub get_dataset_git_revision : JobManager → Managed → Try (Option String) × Managed
  get_dataset_git_revision m s = elim s.dataset_git_revision [
    | some revision ↦ (returned (some revision), s)
    | none ↦ kept_revision s (W.git_revision m.params.dataset s.outside)
  ]

  -- The test of `raise_if_parallel_response_exists`; the revision is not `None` there. 1.0 has 2 ^ 1074
  -- of the least steps.
  abbrev is_computed : (revision : String) → (version : ℕ) → CacheEntryWithoutContent → Bool
  is_computed revision version entry =
      entry.http_status == 200
      && (entry.job_runner_version == some version
          && (is_complete entry.progress && entry.dataset_git_revision == some revision))
    where
      is_complete : Option ℤ → Bool
      is_complete (some (pos n)) = n == 2 ^ 1074
      is_complete _ = false

  abbrev parallel_found :
      (kind revision : String)
      → (version : ℕ) → Cache.Result CacheEntryWithoutContent
      → Try (Unit {0})
  parallel_found kind revision version (Cache.Result.ok entry) =
      if is_computed revision version entry
      then raised (custom (response_already_computed_error (words.already_computed kind)))
      else returned tt
  parallel_found kind revision version (Cache.Result.err does_not_exist) = returned tt
  parallel_found kind revision version (Cache.Result.err _) =
      raised (other words.multiple_documents)

  unfoldable pub raise_if_parallel_response_exists :
      JobManager → (revision : String) → Option (String × ℕ) → cache.Db → Try (Unit {0})
  raise_if_parallel_response_exists m revision none db = returned tt
  raise_if_parallel_response_exists m revision (some (kind, version)) db =
      parallel_found kind revision version
        (get_response_without_content_params cache kind m.params db)

  -- "Validate content size"
  abbrev validated : (max_bytes : ℕ) → Try JobResult → Try JobResult
  validated max_bytes (returned result) =
      if ltb max_bytes (W.json_size result.content)
      then raised (custom (too_big_content_error (words.too_big max_bytes)))
      else returned result
  validated max_bytes (raised e) = raised e

  abbrev computed : JobManager → cache.Db → Try (Unit {0}) × W.Outside → Try JobResult × W.Outside
  computed m db (returned _, outside) =
      let (result, outside') = m.job_runner.compute db outside in
      (validated m.content_max_bytes result, outside')
  computed m db (raised e, outside) = (raised e, outside)

  -- The parallel response is looked for behind the first hook.
  abbrev checked_parallel :
      JobManager
      → (revision : String) → cache.Db
      → Try (Unit {0}) × W.Outside
      → Try (Unit {0}) × W.Outside
  checked_parallel m revision db (returned _, outside) =
      (raise_if_parallel_response_exists m revision m.job_runner.parallel db, outside)
  checked_parallel m revision db (raised e, outside) = (raised e, outside)

  -- `finally`: an exception of the hook replaces what came before.
  abbrev finally_done : Try JobResult → Try (Unit {0}) × W.Outside → Try JobResult × W.Outside
  finally_done result (returned _, outside) = (result, outside)
  finally_done result (raised e, outside) = (raised e, outside)

  -- The inner `try` of `process`.
  unfoldable pub compute_content :
      JobManager → (revision : String) → cache.Db → W.Outside → Try JobResult × W.Outside
  compute_content m revision db outside =
      let (result, outside') =
        computed m db (checked_parallel m revision db (m.job_runner.pre_compute db outside)) in
      finally_done result (m.job_runner.post_compute db outside')

  abbrev pub store : JobManager → Response → Managed → Managed
  store m response s = record s {
    responses =
        upsert_response_params cache m.job_runner.processing_step.cache_kind m.params m.now m.id
          response s.responses;
  }

  abbrev pub ok_response : JobManager → (revision : String) → JobResult → Response
  ok_response m revision result = record {
    content = result.content;
    http_status = 200;
    error_code = none;
    details = none;
    job_runner_version = some m.job_runner.job_runner_version;
    dataset_git_revision = some revision;
    progress = some result.progress;
    updated_at = none;
  }

  abbrev pub error_response : JobManager → (revision : Option String) → CustomError → Response
  error_response m revision e = record {
    content = as_response e;
    http_status = e.status_code;
    error_code = some e.code;
    details = some (as_response_with_cause e);
    job_runner_version = some m.job_runner.job_runner_version;
    dataset_git_revision = revision;
    progress = none;
    updated_at = none;
  }

  -- The `except` clauses of `process`.
  unfoldable pub process_failed :
      JobManager → (revision : Option String) → Failure → Managed → Bool × Managed
  process_failed m revision (dataset_not_found _) s = (false, s)
  process_failed m revision e s = (false, store m (error_response m revision (to_custom_error e)) s)

  abbrev pub stored_result :
      JobManager → (revision : String) → Managed → Try JobResult × W.Outside → Bool × Managed
  stored_result m revision s (returned result, outside) =
      (true, store m (ok_response m revision result) (record s { outside = outside }))
  stored_result m revision s (raised e, outside) =
      process_failed m (some revision) e (record s { outside = outside })

  abbrev pub processed : JobManager → Try (Option String) × Managed → Bool × Managed
  processed m (raised e, s) = process_failed m none e s
  processed m (returned none, s) =
      process_failed m none (custom (no_git_revision_error (words.no_revision m.params.dataset))) s
  processed m (returned (some revision), s) =
      stored_result m revision s (compute_content m revision s.responses s.outside)

  unfoldable pub process : JobManager → Managed → Bool × Managed
  process m s = processed m (get_dataset_git_revision m s)

  -- The store of `set_crashed` and of `set_exceeded_maximum_duration`: an exception of the Hub leaves it.
  abbrev stored_error :
      JobManager → CustomError → Try (Option String) × Managed → Try (Unit {0}) × Managed
  stored_error m e (raised e', s) = (raised e', s)
  stored_error m e (returned revision, s) = (returned tt, store m (error_response m revision e) s)

  unfoldable pub set_crashed :
      JobManager → (message : String) → Option Cause → Managed → Try (Unit {0}) × Managed
  set_crashed m message cause s =
      stored_error m (job_manager_crashed_error message cause) (get_dataset_git_revision m s)

  unfoldable pub set_exceeded_maximum_duration :
      JobManager → (message : String) → Option Cause → Managed → Try (Unit {0}) × Managed
  set_exceeded_maximum_duration m message cause s =
      stored_error m (job_manager_exceeded_maximum_duration_error message cause)
        (get_dataset_git_revision m s)
