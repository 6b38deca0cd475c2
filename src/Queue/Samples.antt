-- ===== src/Queue/Samples.antt =====
-- Witnesses for the theorems about `Queue` of libs/libcommon/src/libcommon/queue.py: a collection in
-- memory with a waiting and a started job.
use datasets_server.Prelude.{
  ℕ, suc, ◌+◌, text_eq, option_eq, ◌==◌, true, false, ◌&&◌, String, none, List, [], ◌∷◌, count,
  length, pos, ◌≡◌, refl, eq_iff, arith, ltb, some, map, filter, if◌then◌else◌,
}
use datasets_server.Collection.Memory.{memory}
use datasets_server.Utils.{
  Status, Priority, status_eq, priority_eq, waiting, started, cancelled, normal, low,
}
use datasets_server.Job.{info, Job, has_params, has_status, status_in}
use datasets_server.Queue.{cancel_jobs, upsert_job, finished}
use datasets_server.Queue.Upsert.{waits, upsert_job_waits_once, upsert_job_pending}
use datasets_server.Queue.Cancel.{targeted, cancel_jobs_moves}
use datasets_server.Queue.Zombies.{get_zombies, kill_zombies}
use datasets_server.Queue.Zombies.Killed.{is_silent, kill_zombies-get_zombies}

abbrev pub a_job : (pk : ℕ) → (dataset : String) → Priority → Status → Job
a_job pk dataset priority status = record {
  pk = pk;
  type = "parquet";
  dataset = dataset;
  config = none;
  split = none;
  unicity_id = "parquet,ns/a";
  namespace = "ns";
  priority = priority;
  status = status;
  created_at = pk;
  started_at = none;
  finished_at = none;
  last_heartbeat = none;
}

abbrev jobs : List Job
jobs =
    a_job 1 "ns/a" low waiting ∷ a_job 2 "ns/a" normal started ∷ a_job 3 "ns/b" normal waiting ∷ []

upsert_job_waits_once_example :
    count
      (waits "parquet" "ns/a" none none)
      (upsert_job (memory Job) 5 6 7 "parquet" "ns/a" none none low jobs).1
    ≡ 1
upsert_job_waits_once_example =
    upsert_job_waits_once "parquet" "ns/a" none none (memory Job) 5 6 7 low jobs

other_waiting :
    (job : Job) → waits "parquet" "ns/a" none none job ≡ true → (job.dataset == "ns/b") ≡ false
other_waiting job h =
    let same : job.dataset ≡ "ns/a" = (eq_iff job.dataset "ns/a").0 (ground arith) in rw same refl

other_canceled :
    (job : Job)
    → waits "parquet" "ns/a" none none job ≡ true
    → ((finished 5 cancelled job).dataset == "ns/b") ≡ false
other_canceled job h = other_waiting job h

upsert_job_pending_example :
    ((upsert_job (memory Job) 5 6 7 "parquet" "ns/a" none none low jobs).0.status ≡ waiting)
    × (count
          (λ j.
            has_params "parquet" "ns/a" none none j
            && (status_in (waiting ∷ started ∷ []) j && ltb 1 j.pk))
          (upsert_job (memory Job) 5 6 7 "parquet" "ns/a" none none low jobs).1
        ≡ (if ltb 1 (upsert_job (memory Job) 5 6 7 "parquet" "ns/a" none none low jobs).0.pk
            then 1
            else 0)
          + count
              (λ j. has_params "parquet" "ns/a" none none j && (has_status started j && ltb 1 j.pk))
              jobs)
upsert_job_pending_example =
    upsert_job_pending "parquet" "ns/a" none none (memory Job) 5 6 7 low jobs (λ j. ltb 1 j.pk)

cancel_jobs_moves_example :
    (count
        (targeted "parquet" "ns/a" none none none)
        (cancel_jobs (memory Job) 5 "parquet" "ns/a" none none none jobs).1
      ≡ 0)
    × (count
          (λ j. has_params "parquet" "ns/a" none none j && has_status cancelled j)
          (cancel_jobs (memory Job) 5 "parquet" "ns/a" none none none jobs).1
        ≡ length (cancel_jobs (memory Job) 5 "parquet" "ns/a" none none none jobs).0
          + count (λ j. has_params "parquet" "ns/a" none none j && has_status cancelled j) jobs)
cancel_jobs_moves_example =
    cancel_jobs_moves (memory Job) 5 "parquet" "ns/a" none none none jobs refl

-- A job that is started and has its last heartbeat at 2.
abbrev silent : List Job
silent =
    record (a_job 4 "ns/c" normal started) { started_at = some 1; last_heartbeat = some 2 } ∷ jobs

kill_zombies-get_zombies_example :
    (get_zombies (memory Job) (λ _. 10000002) (pos (suc 9)) silent
      ≡ map info (
          filter
            (λ j. is_silent 10000002 (suc 9) j)
            ((memory Job).find (has_status started) silent)))
    × (count
          (λ j. has_status started j && is_silent 10000002 (suc 9) j)
          (kill_zombies
            (memory Job)
            5
            (get_zombies (memory Job) (λ _. 10000002) (pos (suc 9)) silent)
            silent).1
        ≡ 0)
kill_zombies-get_zombies_example = kill_zombies-get_zombies (memory Job) (λ _. 10000002) 9 silent 5
