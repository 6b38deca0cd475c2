-- ===== src/Backfill/Dataset/Exact.antt =====
-- The plan of a `DatasetState` of libs/libcommon/src/libcommon/state.py.
use datasets_server.Prelude.{
  ◌-◌, ltb, any, not, ◌&&◌, ◌||◌, ℕ, arith, text_eq, Bool, true, false, String, Option, none, List,
  [], ◌∷◌, occurrences, count, if◌then◌else◌, ◌≡◌, refl, sym, subst, ◌∙◌,
}
use datasets_server.Collection.{Collection}
use datasets_server.Utils.{Priority}
use datasets_server.Job.{Job}
use datasets_server.Cache.{CachedResponse}
use datasets_server.Errors.{return, returned, return_injective, Dict, put, keys}
use datasets_server.Graph.{ProcessingStep, DiGraph, ProcessingGraph}
use datasets_server.Graph.Build.Access.{get_topologically_ordered_processing_steps}
use datasets_server.State.{ArtifactState, Databases}
use datasets_server.Backfill.{CacheStatus, empty_status, Task, to_refresh, create_plan}
use datasets_server.Backfill.Planning.{OwnIds, creates, deletes, ids_of, create_plan_exact}
use datasets_server.Backfill.Dataset.Visited.{
  put-OwnIds, visited, waits_for, stale_for, review_all, occurrences-queue_status_of,
  cache_status_of-SeenAll, seen-eq_occurrences,
}
use datasets_server.Backfill.Dataset.{
  Artifacts, get_artifact_states_for_step, add_in_process, queue_status_of, DatasetState,
  get_cache_status, get_queue_status, artifacts_of, dataset_state_of,
}

kept-OwnIds :
    (b : Bool) (state : ArtifactState) (d : Dict ArtifactState)
    → OwnIds d
    → OwnIds (if b then put state.id state d else d)
kept-OwnIds true state d own = put-OwnIds state d own
kept-OwnIds false state d own = own

add_in_process-OwnIds :
    (states : List ArtifactState) (d : Dict ArtifactState)
    → OwnIds d
    → OwnIds (add_in_process states d)
add_in_process-OwnIds [] d own = own
add_in_process-OwnIds (state ∷ states) d own =
    add_in_process-OwnIds states _ (kept-OwnIds state.job_state.is_in_process state d own)

queue_status_of-OwnIds :
    (artifacts : Artifacts) (steps : List ProcessingStep) (d result : Dict ArtifactState)
    → OwnIds d
    → queue_status_of artifacts steps d ≡ return result
    → OwnIds result
unfolding queue_status_of
queue_status_of-OwnIds artifacts [] d result own h = subst OwnIds (return_injective d result h) own
queue_status_of-OwnIds artifacts (step ∷ steps) d result own h =
    let (states, _, rest) = returned (get_artifact_states_for_step artifacts step none none) _ h in
    queue_status_of-OwnIds artifacts steps (add_in_process states d) result
      (add_in_process-OwnIds states d own) rest

PlanOf : String → DatasetState → Type 0
PlanOf id state =
    (count (creates id) state.tasks
      ≡ occurrences id (ids_of (to_refresh state.cache_status))
        - occurrences id (keys state.in_process))
    × (count (deletes id) state.tasks
        ≡ occurrences id (keys state.in_process)
          - occurrences id (ids_of (to_refresh state.cache_status)))

-- What the theorem on the plan states of a state.
abbrev Explained :
    (D : DiGraph) → ProcessingGraph D → Option String → String → DatasetState → Type 0
Explained D graph revision id state =
    (states : List ArtifactState) × (visited state.artifacts
        (get_topologically_ordered_processing_steps D graph)
      ≡ return states)
    × (reviews : List (Bool × ArtifactState)) × (review_all D graph state.artifacts
          (get_topologically_ordered_processing_steps D graph)
        ≡ return reviews)
    × (occurrences id (keys state.in_process) ≡ (if any (waits_for id) states then 1 else 0))
    × (ltb 0 (occurrences id (ids_of (to_refresh state.cache_status)))
        ≡ any (stale_for id revision) reviews)
    × (count (creates id) state.tasks
        ≡ occurrences id (ids_of (to_refresh state.cache_status))
          - occurrences id (keys state.in_process))
    × (count (deletes id) state.tasks
        ≡ occurrences id (keys state.in_process)
          - occurrences id (ids_of (to_refresh state.cache_status)))
    × (ltb 0 (count (deletes id) state.tasks)
        ≡ (any (waits_for id) states && not (any (stale_for id revision) reviews)))
    × ((not (any (waits_for id) states) && ltb 0 (count (creates id) state.tasks))
        ≡ (not (any (waits_for id) states) && any (stale_for id revision) reviews))

plan_signs :
    (w c : Bool) (r p created deleted : ℕ)
    → p ≡ (if w then 1 else 0)
    → ltb 0 r ≡ c
    → created ≡ r - p
    → deleted ≡ p - r
    → (ltb 0 deleted ≡ (w && not c)) × ((not w && ltb 0 created) ≡ (not w && c))
plan_signs true true r p created deleted e f g h = ground arith
plan_signs true false r p created deleted e f g h = ground arith
plan_signs false true r p created deleted e f g h = ground arith
plan_signs false false r p created deleted e f g h = ground arith

explained_lem :
    (D : DiGraph) (graph : ProcessingGraph D) (revision : Option String) (state : DatasetState)
    (id : String) (states : List ArtifactState) (reviews : List (Bool × ArtifactState))
    → visited state.artifacts (get_topologically_ordered_processing_steps D graph) ≡ return states
    → review_all D graph state.artifacts (get_topologically_ordered_processing_steps D graph)
      ≡ return reviews
    → occurrences id (keys state.in_process) ≡ (if any (waits_for id) states then 1 else 0)
    → ltb 0 (occurrences id (ids_of (to_refresh state.cache_status)))
      ≡ any (stale_for id revision) reviews
    → PlanOf id state
    → Explained D graph revision id state
unfolding PlanOf
explained_lem D graph revision state id states reviews visits r p c (made, deleted) =
    let (signs, signs') =
      plan_signs (any (waits_for id) states) (any (stale_for id revision) reviews) _ _ _ _ p c made
        deleted in
    (states, visits, reviews, r, p, c, made, deleted, signs, signs')

planned_lem :
    (priority : Priority) (artifacts : Artifacts) (status : CacheStatus)
    (in_process : Dict ArtifactState) (tasks : List Task) (id : String)
    → OwnIds in_process
    → create_plan priority status in_process ≡ return tasks
    → PlanOf id (record {
      artifacts = artifacts;
      cache_status = status;
      in_process = in_process;
      tasks = tasks;
    })
unfolding PlanOf
planned_lem priority artifacts status in_process tasks id own planned =
    let (others, made, counts) = create_plan_exact priority status in_process own in
    subst
      (λ ts. PlanOf id (record {
        artifacts = artifacts;
        cache_status = status;
        in_process = in_process;
        tasks = ts;
      }))
      (return_injective others tasks (sym made ∙ planned)) (counts id)

or_false : (b : Bool) → (b || false) ≡ b
or_false true = refl
or_false false = refl

module _ (D : DiGraph) (jobs : Collection Job) (cache : Collection CachedResponse) where
  -- Where the state of a dataset is returned, the artifact states of all steps can be visited, and
  -- with each of them whether a parent is more recent. For each identifier, a key of the jobs in
  -- process is once the identifier if a visited state of that identifier has a job in process, and
  -- else never; the identifier is one to refresh exactly if a visited state of that identifier is
  -- stale (a parent is more recent, or the cached response is missing, an error to retry, of an
  -- older job runner or of another revision). With c the number of artifact states to refresh
  -- that have the identifier and p the number of times it is a key of the jobs in process, the plan
  -- creates c - p jobs and deletes p - c. So it deletes exactly if a job is in process and no
  -- visited state is stale, and creates one where a visited state is stale and no job is in
  -- process.
  pub dataset_state_plan :
      (graph : ProcessingGraph D) (name : String) (revision : Option String)
      (codes : Option (List String)) (priority : Priority) (dbs : Databases D jobs cache)
      (state : DatasetState)
      → dataset_state_of D jobs cache graph name revision codes priority dbs ≡ return state
      → (id : String)
      → (states : List ArtifactState) × (visited state.artifacts
            (get_topologically_ordered_processing_steps D graph)
          ≡ return states)
        × (reviews : List (Bool × ArtifactState)) × (review_all D graph state.artifacts
              (get_topologically_ordered_processing_steps D graph)
            ≡ return reviews)
        × (occurrences id (keys state.in_process) ≡ (if any (waits_for id) states then 1 else 0))
        × (ltb 0 (occurrences id (ids_of (to_refresh state.cache_status)))
            ≡ any (stale_for id revision) reviews)
        × (count (creates id) state.tasks
            ≡ occurrences id (ids_of (to_refresh state.cache_status))
              - occurrences id (keys state.in_process))
        × (count (deletes id) state.tasks
            ≡ occurrences id (keys state.in_process)
              - occurrences id (ids_of (to_refresh state.cache_status)))
        × (ltb 0 (count (deletes id) state.tasks)
            ≡ (any (waits_for id) states && not (any (stale_for id revision) reviews)))
        × ((not (any (waits_for id) states) && ltb 0 (count (creates id) state.tasks))
            ≡ (not (any (waits_for id) states) && any (stale_for id revision) reviews))
  unfolding dataset_state_of get_cache_status get_queue_status PlanOf
  dataset_state_plan graph name revision codes priority dbs state h id =
      let steps = get_topologically_ordered_processing_steps D graph in
      let (artifacts, _, h1) = returned (artifacts_of D jobs cache graph name codes dbs) _ h in
      let (status, reviewed, h2) =
        returned (get_cache_status D jobs cache graph revision artifacts) _ h1 in
      let (in_process, queued, h3) =
        returned (get_queue_status D jobs cache graph artifacts) _ h2 in
      let (tasks, planned, h4) = returned (create_plan priority status in_process) _ h3 in
      let (states, visits, p) =
        occurrences-queue_status_of id artifacts steps [] in_process queued in
      let (reviews, r, owned) =
        cache_status_of-SeenAll D jobs cache graph revision artifacts id steps empty_status status
          (record {
            outdated = refl;
            empty = refl;
            retried = refl;
            obsolete = refl;
            revised = refl;
          })
          reviewed in
      let c : ltb 0 (occurrences id (ids_of (to_refresh status)))
          ≡ any (stale_for id revision) reviews =
        sym (seen-eq_occurrences id status) ∙ owned.1 ∙ or_false _ in
      subst (Explained D graph revision id) (return_injective _ state h4) (
        explained_lem D graph revision
          (record {
            artifacts = artifacts;
            cache_status = status;
            in_process = in_process;
            tasks = tasks;
          })
          id states reviews visits r p c
          (planned_lem priority artifacts status in_process tasks id
            (queue_status_of-OwnIds artifacts steps [] in_process refl queued) planned))
