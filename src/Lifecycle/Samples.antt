-- ===== src/Lifecycle/Samples.antt =====
-- Witness for the theorem about every sequence of operations of `Queue` of
-- libs/libcommon/src/libcommon/queue.py: a job is added, started, asked for again, and finished.
use datasets_server.Prelude.{
  ℕ, ◌≤◌, nat_eq, text_eq, ◌==◌, ◌&&◌, not, String, Option, none, some, List, [], count, ◌≡◌, refl,
}
use datasets_server.Collection.Memory.{memory}
use datasets_server.Utils.{status_eq, started, success, normal}
use datasets_server.Job.{Job, has_status}
use datasets_server.Queue.{
  inherited_priority, upsert_job, finish_job, new_job, add_job, cancel_jobs,
}
use datasets_server.Queue.Upsert.{waits}
use datasets_server.Scheduling.{
  start_job, get_next_waiting_job, get_next_waiting_job_for_priority, checked,
}
use datasets_server.Scheduling.Starting.{is_named}
use datasets_server.Lifecycle.{Reach, here, next, upsert, start, finish}
use datasets_server.Lifecycle.Reachable.{Reach-invariants}

abbrev asked : List Job
asked = (upsert_job (memory Job) 1 1 1 "parquet" "ns/a" none none normal []).1

abbrev running : List Job
running = (start_job (memory Job) (λ job. job) 2 (some 1) none none asked).1

abbrev asked_again : List Job
asked_again = (upsert_job (memory Job) 3 3 2 "parquet" "ns/a" none none normal running).1

abbrev ended : List Job
ended = finish_job (memory Job) 4 1 success asked_again

fresh_key : count (λ (j : Job). j.pk == 2) running ≡ 0
unfolding upsert_job add_job cancel_jobs new_job start_job get_next_waiting_job
    get_next_waiting_job_for_priority checked inherited_priority
fresh_key = refl

one_running : count (λ (j : Job). has_status started j) asked_again ≡ 1
unfolding upsert_job add_job cancel_jobs new_job start_job get_next_waiting_job
    get_next_waiting_job_for_priority checked inherited_priority
one_running = refl

all_reached : Reach (memory Job) [] ended
all_reached =
    next
      (next
        (next (next here (upsert 1 1 1 "parquet" "ns/a" none none normal [] refl refl))
          (start (λ job. job) 2 (some 1) none none asked))
        (upsert 3 3 2 "parquet" "ns/a" none none normal running refl fresh_key))
      (finish 4 1 success asked_again refl)

Reach-invariants_example :
    ((u : String) → count (λ (j : Job). has_status started j && j.unicity_id == u) ended ≤ 1)
    × ((t d : String) (c s : Option String) → count (waits t d c s) ended ≤ 1)
    × ((k : ℕ) → count (λ (j : Job). j.pk == k) ended ≤ 1)
    × (count (λ j. not (is_named j)) ended ≡ 0)
Reach-invariants_example = Reach-invariants (memory Job) {first = []} {db = ended} refl all_reached
