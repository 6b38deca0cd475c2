-- ===== src/Queue/Cancel.antt =====
-- `cancel_jobs`, `is_job_in_process` and `finish_job` of libs/libcommon/src/libcommon/queue.py.
use datasets_server.Prelude.{
  ℕ, nat_eq, text_eq, option_eq, Bool, true, false, ◌&&◌, ◌||◌, String, Option, none, List, ◌+◌,
  count_split, ltb, count, contains, length, length-map, count-false, if◌then◌else◌, ◌≡◌, refl, ◌∙◌,
  ap, arith,
}
use datasets_server.Collection.{Collection}
use datasets_server.Collection.Facts.{length-find}
use datasets_server.Utils.{Status, Priority, status_eq, cancelled}
use datasets_server.Job.{Job, has_params, has_status, status_in}
use datasets_server.Queue.{
  finished, statuses_or_pending, cancel_jobs, is_job_in_process, upsert_job,
}
use datasets_server.Queue.Upsert.{upsert_job_in_process}

-- The jobs that a call of `cancel_jobs` is about.
abbrev pub targeted :
    String → String → Option String → Option String → Option (List Status) → Job → Bool
targeted t d c s statuses job =
    has_params t d c s job && status_in (statuses_or_pending statuses) job

module _ (C : Collection Job) (now : ℕ) (t d : String) (c s : Option String)
    (statuses : Option (List Status)) (db : C.Db) where
  open C use {documents, find, find_law, update_law}

  -- The stored jobs after `cancel_jobs`, by any test.
  pub count-cancel_jobs :
      (q : Job → Bool)
      → count q (documents (cancel_jobs C now t d c s statuses db).1)
        ≡ count
            (λ j. q (if targeted t d c s statuses j then finished now cancelled j else j))
            (documents db)
  unfolding cancel_jobs
  count-cancel_jobs q = update_law _ q _ db

  -- The jobs reported as canceled are those with the parameters and one of the statuses.
  pub length-cancel_jobs :
      length (cancel_jobs C now t d c s statuses db).0
      ≡ count (targeted t d c s statuses) (documents db)
  unfolding cancel_jobs
  length-cancel_jobs = length-map _ (find _ db) ∙ length-find C _ db

  moved :
      (j : Job)
      → has_params t d c s (if targeted t d c s statuses j then finished now cancelled j else j)
          && has_status cancelled
              (if targeted t d c s statuses j then finished now cancelled j else j)
        ≡ targeted t d c s statuses j || (has_params t d c s j && has_status cancelled j)
  moved j = ground arith

  -- Where the canceled status is none of the statuses to cancel, `cancel_jobs` leaves no job with
  -- the parameters in one of these statuses, and the canceled jobs with the parameters grow by the
  -- number of jobs that it reports.
  pub cancel_jobs_moves :
      contains cancelled (statuses_or_pending statuses) ≡ false
      → (count (targeted t d c s statuses) (documents (cancel_jobs C now t d c s statuses db).1)
          ≡ 0)
        × (count
              (λ j. has_params t d c s j && has_status cancelled j)
              (documents (cancel_jobs C now t d c s statuses db).1)
            ≡ length (cancel_jobs C now t d c s statuses db).0
              + count (λ j. has_params t d c s j && has_status cancelled j) (documents db))
  cancel_jobs_moves h = (
    count-cancel_jobs (targeted t d c s statuses)
        ∙ count-false _ (documents db) (λ j. ground arith),
    count-cancel_jobs _
        ∙ count_split _ (targeted t d c s statuses) _ (documents db) moved (λ j. ground arith)
        ∙ omega (arith, length-cancel_jobs),
  )

module _ (C : Collection Job) (t d : String) (c s : Option String) (db : C.Db) where
  open C use {documents}

  -- A job is in process exactly if some stored job with its parameters waits or is started.
  pub is_job_in_process_lem :
      is_job_in_process C t d c s db ≡ ltb 0 (count (targeted t d c s none) (documents db))
  unfolding is_job_in_process
  is_job_in_process_lem = ap (λ n. ltb 0 n) (length-find C _ db)

  -- After `upsert_job` the job is in process; after `cancel_jobs` of the pending jobs it is not.
  pub is_job_in_process_after :
      (canceled_at created_at pk now : ℕ) (p : Priority)
      → (is_job_in_process C t d c s (upsert_job C canceled_at created_at pk t d c s p db).1 ≡ true)
        × (is_job_in_process C t d c s (cancel_jobs C now t d c s none db).1 ≡ false)
  unfolding is_job_in_process
  is_job_in_process_after canceled_at created_at pk now p = (
    ap (λ n. ltb 0 n)
          (length-find C _ (upsert_job C canceled_at created_at pk t d c s p db).1
            ∙ upsert_job_in_process t d c s C canceled_at created_at pk p db)
        ∙ ground arith,
    ap (λ n. ltb 0 n)
        (length-find C _ (cancel_jobs C now t d c s none db).1
          ∙ (cancel_jobs_moves C now t d c s none db refl).0),
  )
