-- ===== src/Scheduling/Samples.antt =====
-- Witnesses for the theorems about the choice and the start of a job in
-- libs/libcommon/src/libcommon/queue.py, on a collection in memory.
use datasets_server.Prelude.{
  ◌≤◌, ◌<◌, text_eq, option_eq, nat_eq, ◌==◌, true, false, ◌&&◌, not, String, none, some, List, [],
  ◌∷◌, map, filter, contains, count, ◌≡◌, refl, ◌⊎◌, arith,
}
use datasets_server.Collection.Memory.{memory}
use datasets_server.Utils.{
  inputs_to_string, before, status_eq, priority_eq, waiting, started, normal, low,
}
use datasets_server.Job.{Job, has_status}
use datasets_server.Queue.{new_job}
use datasets_server.Scheduling.{
  below_limit, counter, bump, most_common, insert_common, groups_by_count, add_to_groups,
  pop_groups, get_next_waiting_job_for_priority, namespace_groups, passes_filters,
  get_next_waiting_job, start_job, started_now, empty_queue,
}
use datasets_server.Scheduling.Counting.{grouped}
use datasets_server.Scheduling.ByPriority.{started_in}
use datasets_server.Scheduling.Choice.{
  Exhausted, get_next_waiting_job_sound, get_next_waiting_job-none, get_next_waiting_job_low,
}
use datasets_server.Scheduling.Starting.{UniqueKeys, is_named, start_job_limit, start_job_unicity}

-- A started job of the namespace `ns`, and a waiting one of the same namespace.
abbrev first_job : Job
unfolding new_job
first_job = started_now 3 (new_job 1 1 "parquet" "ns/a" none none normal)

abbrev second_job : Job
unfolding new_job
second_job = new_job 2 2 "parquet" "ns/b" none none low

abbrev jobs : List Job
jobs = first_job ∷ second_job ∷ []

abbrev one_low : List Job
one_low = second_job ∷ []

abbrev one_started : List Job
one_started = first_job ∷ []

grouped_twice : grouped "a" 2 (namespace_groups (some 3) ("a" ∷ "b" ∷ "a" ∷ [])) ≡ true
unfolding namespace_groups counter bump most_common insert_common groups_by_count add_to_groups
    grouped
grouped_twice = refl

chooses_second : get_next_waiting_job (memory Job) (some 2) none none jobs ≡ some second_job
unfolding get_next_waiting_job get_next_waiting_job_for_priority pop_groups namespace_groups counter
    bump most_common insert_common groups_by_count add_to_groups new_job before inputs_to_string
chooses_second = refl

chooses_none : get_next_waiting_job (memory Job) (some 2) none none one_started ≡ none
unfolding get_next_waiting_job get_next_waiting_job_for_priority pop_groups namespace_groups counter
    bump most_common insert_common groups_by_count add_to_groups new_job before inputs_to_string
chooses_none = refl

dataset_b : (second_job.dataset == "ns/b") ≡ true
unfolding new_job
dataset_b = refl

second_low : second_job.priority ≡ low
unfolding new_job
second_low = refl

get_next_waiting_job_sound_example :
    (has_status waiting second_job ≡ true)
    × (passes_filters none none second_job ≡ true)
    × (0
        < count
            (λ j. has_status waiting j && (passes_filters none none j && j.dataset == "ns/b"))
            jobs)
    × ((started_in (memory Job) none none jobs second_job.namespace ≡ 0)
        ⊎ ((below_limit (some 2) (started_in (memory Job) none none jobs second_job.namespace)
              ≡ true)
            × (contains second_job.unicity_id (
                  map
                    (λ (j : Job). j.unicity_id)
                    (filter (λ job. has_status started job && passes_filters none none job) jobs))
                ≡ false)))
get_next_waiting_job_sound_example =
    get_next_waiting_job_sound (memory Job) none none jobs (some 2) (λ j. j.dataset == "ns/b")
      {job = second_job} chooses_second dataset_b

get_next_waiting_job-none_example : Exhausted (memory Job) none none one_started (some 2) low "ns"
get_next_waiting_job-none_example =
    get_next_waiting_job-none (memory Job) none none one_started (some 2) chooses_none low "ns"

get_next_waiting_job_low_example : Exhausted (memory Job) none none jobs (some 2) normal "ns"
get_next_waiting_job_low_example =
    get_next_waiting_job_low (memory Job) none none jobs (some 2) {job = second_job} chooses_second
      second_low "ns"

starts_none : (start_job (memory Job) (λ job. job) 4 (some 2) none none one_started).0 ≡ empty_queue
unfolding start_job get_next_waiting_job get_next_waiting_job_for_priority pop_groups
    namespace_groups counter bump most_common insert_common groups_by_count add_to_groups new_job
    before inputs_to_string
starts_none = refl

unique_keys : UniqueKeys (memory Job) jobs
unfolding new_job
unique_keys k = ground (arith, nat_eq.beq_iff 1 k, nat_eq.beq_iff 2 k)

within_two : (k : String) → started_in (memory Job) none none jobs k ≤ 2
unfolding new_job
within_two k = ground arith

start_job_limit_example :
    started_in
      (memory Job)
      none
      none
      (start_job (memory Job) (λ job. job) 4 (some 2) none none jobs).1
      "ns"
    ≤ 2
start_job_limit_example =
    start_job_limit (memory Job) (λ job. job) 4 (some 2) none none jobs unique_keys 2 refl
      (omega arith) within_two "ns"

named : count (λ j. not (is_named j)) jobs ≡ 0
unfolding new_job before inputs_to_string
named = refl

started_once :
    (u : String) → count (λ (j : Job). has_status started j && j.unicity_id == u) jobs ≤ 1
unfolding new_job
started_once u = ground arith

start_job_unicity_example :
    count
      (λ (j : Job). has_status started j && j.unicity_id == "parquet,ns/a")
      (start_job (memory Job) (λ job. job) 4 (some 2) none none jobs).1
    ≤ 1
start_job_unicity_example =
    start_job_unicity (memory Job) (λ job. job) 4 (some 2) none none jobs unique_keys named
      started_once "parquet,ns/a"
