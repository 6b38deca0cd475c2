-- ===== src/Queue/Reports.antt =====
-- The reports of `Queue` in libs/libcommon/src/libcommon/queue.py.
use datasets_server.Prelude.{
  ℕ, ◌+◌, text_eq, ◌==◌, Bool, ◌&&◌, String, List, [], ◌∷◌, map, count, ◌≡◌, arith,
}
use datasets_server.Collection.{Collection}
use datasets_server.Collection.Facts.{length-find}
use datasets_server.Utils.{Status, status_eq}
use datasets_server.Job.{Job, JobDict, to_dict, has_status, status_in}
use datasets_server.Queue.{count_jobs}

pub record CountByStatus : Type 0 where
  pub waiting : ℕ
  pub started : ℕ
  pub success : ℕ
  pub error : ℕ
  pub cancelled : ℕ

pub record DumpByPendingStatus : Type 0 where
  pub waiting : List JobDict
  pub started : List JobDict

module _ (C : Collection Job) where
  open C use {Db, documents, find}

  pub get_jobs_count_by_status : String → Db → CountByStatus
  unfolding count_jobs
  get_jobs_count_by_status job_type db = record {
    waiting = count_jobs C Status.waiting job_type db;
    started = count_jobs C Status.started job_type db;
    success = count_jobs C Status.success job_type db;
    error = count_jobs C Status.error job_type db;
    cancelled = count_jobs C Status.cancelled job_type db;
  }

  pub get_dump_with_status : Status → String → Db → List JobDict
  unfolding to_dict
  get_dump_with_status status job_type db =
      map to_dict (find (λ job. job.type == job_type && has_status status job) db)

  unfoldable get_dump_by_pending_status : String → Db → DumpByPendingStatus
  unfolding get_dump_with_status
  get_dump_by_pending_status job_type db = record {
    waiting = get_dump_with_status Status.waiting job_type db;
    started = get_dump_with_status Status.started job_type db;
  }

  unfoldable get_dataset_pending_jobs_for_type : (dataset job_type : String) → Db → List JobDict
  unfolding to_dict
  get_dataset_pending_jobs_for_type dataset job_type db = map to_dict (
      find
        (λ job.
          job.type == job_type
          && (job.dataset == dataset && status_in (Status.waiting ∷ Status.started ∷ []) job))
        db)

  abbrev pub total : CountByStatus → ℕ
  total c = c.waiting + (c.started + (c.success + (c.error + c.cancelled)))

  by_status :
      (b : Job → Bool) (xs : List Job)
      → count b xs
        ≡ count (λ j. b j && has_status Status.waiting j) xs
          + (count (λ j. b j && has_status Status.started j) xs
              + (count (λ j. b j && has_status Status.success j) xs
                  + (count (λ j. b j && has_status Status.error j) xs
                      + count (λ j. b j && has_status Status.cancelled j) xs)))
  by_status b [] = omega arith
  by_status b (x ∷ xs) = ground (arith, by_status b xs)

  -- The counts by status of a job type add up to the jobs of this type.
  pub total-get_jobs_count_by_status :
      (job_type : String) (db : Db)
      → total (get_jobs_count_by_status job_type db)
        ≡ count (λ j. j.type == job_type) (documents db)
  unfolding get_jobs_count_by_status
  total-get_jobs_count_by_status job_type db =
      let n = λ (status : Status).
        length-find C (λ job. job.type == job_type && has_status status job) db in
      omega (
        arith,
        n Status.waiting,
        n Status.started,
        n Status.success,
        n Status.error,
        n Status.cancelled,
        by_status (λ j. j.type == job_type) (documents db),
      )
