-- ===== src/Scheduling.antt =====
-- How `Queue` of libs/libcommon/src/libcommon/queue.py chooses and starts the next job:
-- `_get_next_waiting_job_for_priority`, `get_next_waiting_job` and `start_job`. What mongoengine's
-- `.only("type", "dataset", "config", "split")` leaves of a document is the argument `loaded`.
mod Samples
pub mod Counting
pub mod ByPriority
pub mod Choice
pub mod Starting
use mathlib.Core.List.{foldl, foldr, reverse}
use datasets_server.Prelude.{
  ℕ, zero, suc, text_eq, nat_eq, ◌==◌, Bool, true, false, ◌&&◌, ◌||◌, not, String, Option, none,
  some, List, [], ◌∷◌, map, filter, contains, ltb, ℤ, pos, negsuc, if◌then◌else◌,
}
use datasets_server.Collection.{Collection}
use datasets_server.Utils.{
  Status, Priority, JobInfo, status_eq, priority_eq, waiting, started, normal, low,
}
use datasets_server.Job.{Job, info, has_status}

-- `Queue.__init__`: no limit where the argument is `None` or below one.
unfoldable pub limit_of : Option ℤ → Option ℕ
limit_of none = none
limit_of (some (negsuc _)) = none
limit_of (some (pos zero)) = none
limit_of (some (pos (suc n))) = some (suc n)

-- `type__nin` where the list of blocked types is neither `None` nor empty
abbrev pub not_blocked : Option (List String) → String → Bool
not_blocked (some (t ∷ ts)) job_type = not (contains job_type (t ∷ ts))
not_blocked _ job_type = true

-- `type__in` where the list of the only types is neither `None` nor empty
abbrev pub among_only : Option (List String) → String → Bool
among_only (some (t ∷ ts)) job_type = contains job_type (t ∷ ts)
among_only _ job_type = true

-- `**filters`
abbrev pub passes_filters : Option (List String) → Option (List String) → Job → Bool
passes_filters blocked only job = not_blocked blocked job.type && among_only only job.type

-- `Counter(namespaces)`: the items of the dictionary, in the order of their first occurrence
pub bump : String → List (String × ℕ) → List (String × ℕ)
bump key [] = (key, 1) ∷ []
bump key ((other, n) ∷ items) =
    let rest = bump key items in if other == key then (other, suc n) ∷ items else (other, n) ∷ rest

unfoldable pub counter : List String → List (String × ℕ)
unfolding bump
counter = foldl (λ items key. bump key items) []

-- `most_common()`: a stable sort by descending count
pub insert_common : String × ℕ → List (String × ℕ) → List (String × ℕ)
insert_common item [] = item ∷ []
insert_common item (other ∷ items) =
    let rest = insert_common item items in
    if ltb item.1 other.1 then other ∷ rest else item ∷ other ∷ items

unfoldable pub most_common : List (String × ℕ) → List (String × ℕ)
unfolding insert_common
most_common = foldr insert_common []

-- `max_jobs_per_namespace is None or count < max_jobs_per_namespace`
abbrev pub below_limit : Option ℕ → ℕ → Bool
below_limit none n = true
below_limit (some limit) n = ltb n limit

-- `groupby(counts, itemgetter(1))`: a group is a run of items with the same count
pub add_to_groups : String × ℕ → List (ℕ × List String) → List (ℕ × List String)
add_to_groups item [] = (item.1, item.0 ∷ []) ∷ []
add_to_groups item ((n, names) ∷ groups) =
    if item.1 == n
    then (n, item.0 ∷ names) ∷ groups
    else (item.1, item.0 ∷ []) ∷ (n, names) ∷ groups

unfoldable pub groups_by_count : List (String × ℕ) → List (ℕ × List String)
unfolding add_to_groups
groups_by_count = foldr add_to_groups []

-- `descending_frequency_namespace_groups`, with the count of each group
unfoldable pub namespace_groups : Option ℕ → List String → List (ℕ × List String)
unfolding counter most_common groups_by_count
namespace_groups limit namespaces =
    groups_by_count
      (filter (λ (item : String × ℕ). below_limit limit item.1) (most_common (counter namespaces)))

-- What `start_job` returns or raises.
pub data StartResult : Type 0 where
  job_started : JobInfo → StartResult
  empty_queue blocked_type other_type : StartResult

-- The query of one round of the loop, and of the first attempt, which excludes namespaces.
abbrev pub candidate : Priority → Option (List String) → Option (List String) → Job → Bool
candidate priority blocked only job =
    has_status waiting job && (job.priority == priority && passes_filters blocked only job)

-- `update(started_at=now, status=Status.STARTED)`
abbrev pub started_now : ℕ → Job → Job
started_now now job = record job { started_at = some now; status = started }

-- The two tests of `start_job` after the update, which raise `RuntimeError`.
unfoldable pub checked : Option (List String) → Option (List String) → Job → StartResult
checked blocked only job =
    if not (not_blocked blocked job.type)
    then blocked_type
    else if not (among_only only job.type)
    then other_type
    else job_started (info job)

module _ (C : Collection Job) where
  open C use {Db, find, first_by, update}

  -- The `while` loop, over the groups from the last one to the first.
  unfoldable pub pop_groups :
      Priority
      → Option (List String)
      → Option (List String)
      → (started_unicity_ids : List String) → List (ℕ × List String)
      → Db
      → Option Job
  pop_groups priority blocked only ids [] db = none
  pop_groups priority blocked only ids ((n, names) ∷ groups) db =
      let rest = pop_groups priority blocked only ids groups db in
      elim (first_by
        (λ job.
          candidate priority blocked only job
          && (contains job.namespace names && not (contains job.unicity_id ids)))
        (λ job. job.created_at) db) [ some job ↦ some job | none ↦ rest ]

  -- `none` is the exception `EmptyQueueError`.
  unfoldable pub get_next_waiting_job_for_priority :
      Option ℕ → Priority → Option (List String) → Option (List String) → Db → Option Job
  get_next_waiting_job_for_priority limit priority blocked only db =
      let started_jobs =
        find (λ job. has_status started job && passes_filters blocked only job) db in
      let namespaces = map (λ (job : Job). job.namespace) started_jobs in
      let ids = map (λ (job : Job). job.unicity_id) started_jobs in
      let rest =
        pop_groups priority blocked only ids (reverse (namespace_groups limit namespaces)) db in
      elim (first_by
        (λ job. candidate priority blocked only job && not (contains job.namespace namespaces))
        (λ job. job.created_at) db) [ some job ↦ some job | none ↦ rest ]

  unfoldable pub get_next_waiting_job :
      Option ℕ → Option (List String) → Option (List String) → Db → Option Job
  get_next_waiting_job limit blocked only db =
      elim (get_next_waiting_job_for_priority limit normal blocked only db) [
        | some job ↦ some job
        | none ↦ get_next_waiting_job_for_priority limit low blocked only db
      ]

  -- The update stays in the database where a test raises.
  unfoldable pub start_job :
      (loaded : Job → Job)
      → (now : ℕ) → Option ℕ
      → Option (List String)
      → Option (List String)
      → Db
      → StartResult × Db
  unfolding checked
  start_job loaded now limit blocked only db = elim (get_next_waiting_job limit blocked only db) [
    | none ↦ (empty_queue, db)
    | some job ↦ (
      checked blocked only (loaded job),
      update (λ other. other.pk == job.pk) (started_now now) db,
    )
  ]
