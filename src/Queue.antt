-- ===== src/Queue.antt =====
-- The operations of `Queue` in libs/libcommon/src/libcommon/queue.py that add, cancel, finish, keep
-- alive and report jobs. Each takes the database and returns it with its result. The collection of
-- jobs is the interface of Collection.antt; a date that the code reads by `get_datetime()` and the
-- primary key that a new document gets are arguments.
mod Samples
pub mod Upsert
pub mod Cancel
pub mod Reports
pub mod Zombies
use datasets_server.Prelude.{
  ℕ, zero, suc, ◌+◌, ◌*◌, text_eq, option_eq, nat_eq, ◌==◌, Bool, true, false, ◌&&◌, ◌||◌, String,
  Option, none, some, List, [], ◌∷◌, map, filter, any, contains, length, ltb, leb, if◌then◌else◌,
}
use datasets_server.Collection.{Collection}
use datasets_server.Utils.{
  Status, Priority, JobInfo, status_eq, waiting, started, success, error, cancelled, normal,
  inputs_to_string, before,
}
use datasets_server.Job.{
  Job, JobDict, to_dict, info, priority_value, has_params, has_status, status_in,
}

-- The document that `_add_job` saves.
unfoldable pub new_job :
    (created_at pk : ℕ) (job_type dataset : String) (config split : Option String) → Priority → Job
new_job created_at pk job_type dataset config split priority = record {
  pk = pk;
  type = job_type;
  dataset = dataset;
  config = config;
  split = split;
  unicity_id = inputs_to_string dataset config split (some job_type);
  namespace = before 47 dataset;
  priority = priority;
  status = waiting;
  created_at = created_at;
  started_at = none;
  finished_at = none;
  last_heartbeat = none;
}

-- `update(finished_at=now, status=status)`
abbrev pub finished : ℕ → Status → Job → Job
finished now status job = record job { finished_at = some now; status = status }

-- `[Status.WAITING, Status.STARTED]` where no statuses are given
abbrev statuses_or_pending : Option (List Status) → List Status
statuses_or_pending none = waiting ∷ started ∷ []
statuses_or_pending (some statuses) = statuses

-- `any(job["priority"] == Priority.NORMAL for job in canceled_jobs)`
unfoldable pub inherited_priority : List JobDict → Priority → Priority
inherited_priority canceled priority =
    if any (λ job. job.priority == priority_value normal) canceled then normal else priority

module _ (C : Collection Job) where
  open C use {Db, find, insert, update}

  unfoldable pub add_job :
      (created_at pk : ℕ) (job_type dataset : String) (config split : Option String)
      → Priority
      → Db
      → Job × Db
  add_job created_at pk job_type dataset config split priority db =
      let job = new_job created_at pk job_type dataset config split priority in (job, insert job db)

  unfoldable pub cancel_jobs :
      (now : ℕ) (job_type dataset : String) (config split : Option String)
      → Option (List Status)
      → Db
      → List JobDict × Db
  cancel_jobs now job_type dataset config split statuses_to_cancel db =
      let existing = λ (job : Job).
        has_params job_type dataset config split job
        && status_in (statuses_or_pending statuses_to_cancel) job in
      (map to_dict (find existing db), update existing (finished now cancelled) db)

  unfoldable pub upsert_job :
      (canceled_at created_at pk : ℕ) (job_type dataset : String) (config split : Option String)
      → Priority
      → Db
      → Job × Db
  unfolding cancel_jobs add_job
  upsert_job canceled_at created_at pk job_type dataset config split priority db =
      let (canceled, db') =
        cancel_jobs canceled_at job_type dataset config split (some (waiting ∷ [])) db in
      add_job created_at pk job_type dataset config split (inherited_priority canceled priority) db'

  -- `Job.objects(pk=job_id).get()`: `none` is the exception `DoesNotExist`. A primary key is unique.
  unfoldable pub get_job_with_id : ℕ → Db → Option Job
  get_job_with_id job_id db = elim (find (λ job. job.pk == job_id) db) [
    | [] ↦ none
    | job ∷ _ ↦ some job
  ]

  unfoldable pub get_job_type : ℕ → Db → Option String
  get_job_type job_id db = elim (get_job_with_id job_id db) [
    | none ↦ none
    | some job ↦ some job.type
  ]

  -- The warnings of `finish_job` change nothing: it finishes the job whatever its status.
  unfoldable pub finish_job : (now job_id : ℕ) → Status → Db → Db
  unfolding get_job_with_id
  finish_job now job_id finished_status db = elim (get_job_with_id job_id db) [
    | none ↦ db
    | some job ↦ update (λ other. other.pk == job.pk) (finished now finished_status) db
  ]

  unfoldable pub is_job_in_process :
      (job_type dataset : String) (config split : Option String) → Db → Bool
  is_job_in_process job_type dataset config split db = ltb 0 (
      length (
        find
          (λ job.
            has_params job_type dataset config split job && status_in (waiting ∷ started ∷ []) job)
          db))

  -- The loop of `cancel_started_jobs`. `times` has what each round reads: the dates of its update,
  -- of `cancel_jobs` and of `_add_job`, and the key of the new job.
  unfoldable pub cancel_and_upsert : (ℕ → ℕ × ℕ × ℕ × ℕ) → List Job → Db → Db
  unfolding upsert_job
  cancel_and_upsert times [] db = db
  cancel_and_upsert times (job ∷ jobs) db =
      let now = times (length jobs) in
      cancel_and_upsert times jobs
        (upsert_job now.1 now.2 now.3 job.type job.dataset job.config job.split normal
          (update (λ other. other.pk == job.pk) (finished now.0 cancelled) db)).1

  unfoldable pub cancel_started_jobs : (ℕ → ℕ × ℕ × ℕ × ℕ) → String → Db → Db
  unfolding cancel_and_upsert
  cancel_started_jobs times job_type db =
      cancel_and_upsert times (find (λ job. job.type == job_type && has_status started job) db) db

  unfoldable pub count_jobs : Status → String → Db → ℕ
  count_jobs status job_type db =
      length (find (λ job. job.type == job_type && has_status status job) db)
