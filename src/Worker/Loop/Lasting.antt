-- ===== src/Worker/Loop/Lasting.antt =====
-- What a round of services/worker/src/worker/loop.py leaves in the queue.
use datasets_server.Prelude.{
  ℕ, ◌≤◌, nat_eq, text_eq, ◌==◌, Bool, true, not, String, Option, none, some, List, [], ◌∷◌, count,
  count-le, count-false, ◌+◌, if◌then◌else◌, ◌≡◌, ◌∙◌, arith, Bool-cases, Option-cases, inl, inr,
}
use datasets_server.Collection.{Collection}
use datasets_server.Collection.Facts.{length-find}
use datasets_server.Utils.{Status, JobInfo, status_eq, started}
use datasets_server.Job.{Job, has_status, info}
use datasets_server.Queue.{finish_job, finished, get_job_with_id}
use datasets_server.Lifecycle.{is_final}
use datasets_server.Scheduling.{
  StartResult, job_started, empty_queue, blocked_type, other_type, start_job, started_now,
  get_next_waiting_job, checked, not_blocked, among_only,
}
use datasets_server.Cache.{CachedResponse}
use datasets_server.Graph.{DiGraph, ProcessingGraph}
use datasets_server.Worker.Manager.{Wording, World, JobRunner, JobManager}
use datasets_server.Worker.Loop.{
  Attempt, done, uncaught, Clock, Config, Site, Session, opened, finished_with, managed_by, run_by,
  started_with, process_next_job,
}
use datasets_server.Worker.Loop.Others.{
  others, head-none, head-some, left, Final, run_manager-others,
}

module _ (W : World) (D : DiGraph) (jobs : Collection Job) (cache : Collection CachedResponse)
    (words : Wording) where
  open jobs use {Db, documents, find, find_law, update, update_law}

  count_either :
      (id : ℕ) (l : List Job)
      → count (has_status started) l ≤ count (others id) l + count (λ j. j.pk == id) l
  count_either id [] = omega arith
  count_either id (job ∷ l) = ground (arith, count_either id l)

  all_found : (id : ℕ) (db : Db) → count (λ j. not (j.pk == id)) (find (λ j. j.pk == id) db) ≡ 0
  all_found id db =
      find_law (λ j. j.pk == id) (λ j. not (j.pk == id)) db
      ∙ count-false _ (documents db) (λ j. ground arith)

  finish_job-left :
      (now job_id : ℕ) (status : Status) (db : Db)
      → is_final status ≡ true
      → count (has_status started) (documents (finish_job jobs now job_id status db))
        ≤ count (others job_id) (documents db)
  unfolding finish_job get_job_with_id
  finish_job-left now job_id status db final =
      elim (Option-cases (get_job_with_id jobs job_id db)) [
        | inl e ↦
            let absent = length-find jobs (λ j. j.pk == job_id) db in
            let empty = head-none (find (λ j. j.pk == job_id) db) e in
            rw (e, finish_job) (omega (arith, absent, empty, count_either job_id (documents db)))
        | inr (job, e) ↦
            let same = head-some job_id (find (λ j. j.pk == job_id) db) (all_found job_id db) e in
            rw (e, finish_job)
              (omega (
                arith,
                update_law (λ other. other.pk == job.pk) (has_status started) (finished now status)
                    db,
                count-le
                    (λ j. has_status started (if j.pk == job.pk then finished now status j else j))
                    (others job_id) (documents db) (λ j h. ground (arith, same, final)),
              ))
      ]

  -- A round that ends with an answer leaves at most this many started jobs.
  abbrev AtMost : ℕ → Attempt Bool × Site W D jobs cache words → Type 0
  AtMost n (done answer, site) = count (has_status started) (documents site.dbs.queue) ≤ n
  AtMost n (uncaught _, site) = Unit

  finished_with-AtMost :
      (clock : Clock) (job_id : ℕ) (n : ℕ) (t : Attempt Status × Session W D jobs cache words)
      → Final W D jobs cache words t.0
      → left W D jobs cache words job_id t.1 ≤ n
      → AtMost n (finished_with W D jobs cache words clock job_id t)
  finished_with-AtMost clock job_id n (done status, s) final h =
      omega (arith, finish_job-left clock.finished_at job_id status s.queue final)
  finished_with-AtMost clock job_id n (uncaught e, s) final h = tt

  managed_by-AtMost :
      (graph : ProcessingGraph D) (clock : Clock) (job_id : ℕ)
      (m : Option (JobManager W cache words)) (site : Site W D jobs cache words)
      → AtMost
          (count (others job_id) (documents site.dbs.queue))
          (managed_by W D jobs cache words graph clock job_id m site)
  managed_by-AtMost graph clock job_id none site = tt
  managed_by-AtMost graph clock job_id (some m) site =
      let (final, fewer) =
        run_manager-others W D jobs cache words graph m job_id clock.tasks
          (opened W D jobs cache words site) in
      finished_with-AtMost clock job_id _ _ final fewer

  run_by-AtMost :
      (graph : ProcessingGraph D) (clock : Clock) (config : Config) (job_info : JobInfo)
      (job_runner : Option (JobRunner W cache)) (site : Site W D jobs cache words)
      → AtMost
          (count (others job_info.job_id) (documents site.dbs.queue))
          (run_by W D jobs cache words graph clock config job_info job_runner site)
  run_by-AtMost graph clock config job_info none site = tt
  run_by-AtMost graph clock config job_info (some job_runner) site =
      managed_by-AtMost graph clock job_info.job_id _ site

  -- What `start_job` returns, with the other started jobs as before.
  abbrev StartedOne : ℕ → StartResult × Db → Type 0
  StartedOne n (job_started job_info, db) = count (others job_info.job_id) (documents db) ≤ n
  StartedOne n (empty_queue, db) = count (has_status started) (documents db) ≤ n
  StartedOne n (blocked_type, db) = Unit
  StartedOne n (other_type, db) = Unit

  checked-StartedOne :
      (blocked only : Option (List String)) (job : Job) (n : ℕ) (db : Db)
      → count (others job.pk) (documents db) ≤ n
      → StartedOne n (checked blocked only job, db)
  unfolding checked info
  checked-StartedOne blocked only job n db h =
      elim (Bool-cases (not (not_blocked blocked job.type))) [
        | inl e ↦ rw (e, checked, StartedOne) tt
        | inr e ↦ elim (Bool-cases (not (among_only only job.type))) [
          | inl f ↦ rw (e, f, checked, StartedOne) tt
          | inr f ↦ rw (e, f, checked, StartedOne) h
        ]
      ]

  chosen-StartedOne :
      (loaded : Job → Job)
      → ((job : Job) → (loaded job).pk ≡ job.pk)
      → (now : ℕ) (blocked only : Option (List String)) (db : Db) (chosen : Option Job)
      → StartedOne
          (count (has_status started) (documents db))
          (elim chosen as (λ _. StartResult × Db) [
            | none ↦ (empty_queue, db)
            | some job ↦ (
              checked blocked only (loaded job),
              update (λ other. other.pk == job.pk) (started_now now) db,
            )
          ])
  chosen-StartedOne loaded same_pk now blocked only db none = omega arith
  chosen-StartedOne loaded same_pk now blocked only db (some job) =
      checked-StartedOne blocked only (loaded job) _ _ (
        omega (
          arith,
          update_law (λ other. other.pk == job.pk) (others (loaded job).pk) (started_now now) db,
          count-le (λ j. others (loaded job).pk (if j.pk == job.pk then started_now now j else j))
              (has_status started) (documents db) (λ j h. ground (arith, same_pk job)),
        ))

  start_job-StartedOne :
      (loaded : Job → Job)
      → ((job : Job) → (loaded job).pk ≡ job.pk)
      → (now : ℕ) (limit : Option ℕ) (blocked only : Option (List String)) (db : Db)
      → StartedOne
          (count (has_status started) (documents db))
          (start_job jobs loaded now limit blocked only db)
  unfolding start_job
  start_job-StartedOne loaded same_pk now limit blocked only db =
      chosen-StartedOne loaded same_pk now blocked only db
        (get_next_waiting_job jobs limit blocked only db)

  AtMost-done :
      {n : ℕ} {answer : Bool} (t : Attempt Bool × Site W D jobs cache words)
      → t.0 ≡ done answer
      → AtMost n t
      → count (has_status started) (documents t.1.dbs.queue) ≤ n
  AtMost-done (done _, site) e h = h
  AtMost-done (uncaught _, site) e h = absurd (ground (arith, e))

  AtMost-le :
      {n k : ℕ} (t : Attempt Bool × Site W D jobs cache words) → n ≤ k → AtMost n t → AtMost k t
  AtMost-le (done _, site) h l = omega arith
  AtMost-le (uncaught _, site) h l = tt

  started_with-AtMost :
      (graph : ProcessingGraph D) (create_job_runner : JobInfo → Option (JobRunner W cache))
      (clock : Clock) (config : Config) (n : ℕ) (t : StartResult × Db)
      (site : Site W D jobs cache words)
      → StartedOne n t
      → AtMost n (started_with W D jobs cache words graph create_job_runner clock config t site)
  started_with-AtMost graph create clock config n (job_started job_info, db) site h =
      AtMost-le _ h (run_by-AtMost graph clock config job_info (create job_info) _)
  started_with-AtMost graph create clock config n (empty_queue, db) site h = h
  started_with-AtMost graph create clock config n (blocked_type, db) site h = tt
  started_with-AtMost graph create clock config n (other_type, db) site h = tt

  -- If the loaded document keeps its key, and a round of the loop returns an answer, there are at most
  -- as many started jobs after it as before it, whatever the job runner and the plan of the dataset do.
  pub process_next_job_started :
      (graph : ProcessingGraph D) (create_job_runner : JobInfo → Option (JobRunner W cache))
      (loaded : Job → Job) (clock : Clock) (config : Config) (site : Site W D jobs cache words)
      (answer : Bool)
      → ((job : Job) → (loaded job).pk ≡ job.pk)
      → (process_next_job W D jobs cache words graph create_job_runner loaded clock config site).0
        ≡ done answer
      → count (has_status started) (
          documents
            (process_next_job W D jobs cache words graph create_job_runner loaded clock config
              site).1.dbs.queue)
        ≤ count (has_status started) (documents site.dbs.queue)
  unfolding process_next_job
  process_next_job_started graph create loaded clock config site answer same_pk ended =
      AtMost-done _ ended (
        started_with-AtMost graph create clock config _ _ site (
          start_job-StartedOne loaded same_pk clock.started_at config.max_jobs_per_namespace
            config.job_types_blocked config.job_types_only site.dbs.queue))
