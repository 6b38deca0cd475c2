-- ===== src/Backfill/Dataset.antt =====
-- `DatasetState` of libs/libcommon/src/libcommon/state.py, the tasks of its plan, and
-- `backfill_dataset` and `delete_dataset` of libs/libcommon/src/libcommon/operations.py.
pub mod Visited
pub mod Exact
pub mod Running
use datasets_server.Prelude.{
  ℕ, text_eq, option_eq, ◌==◌, Bool, true, false, not, ◌&&◌, ◌||◌, String, Option, none, some, List,
  [], ◌∷◌, ◌++◌, map, filter, any, length, contains, if◌then◌else◌,
}
use datasets_server.Collection.{Collection}
use datasets_server.Utils.{Status, Priority, waiting, started}
use datasets_server.Job.{Job}
use datasets_server.Queue.{upsert_job, cancel_jobs}
use datasets_server.Cache.{CachedResponse, delete_dataset_responses}
use datasets_server.Errors.{
  Outcome, return, raise, value_error, ◌>>=◌, ◌>>◌, raise_if, for_each, Dict, put, get_or_raise,
}
use datasets_server.Graph.{
  InputType, dataset, config, split, ProcessingStep, DiGraph, ProcessingGraph,
}
use datasets_server.Graph.Build.Access.{
  get_parents, get_input_type_processing_steps, get_dataset_config_names_processing_steps,
  get_topologically_ordered_processing_steps,
}
use datasets_server.State.{
  ArtifactState, SplitState, ConfigState, is_older_than, Databases, fetch_names, names_or_empty,
  artifacts_by_step, config_state_of,
}
use datasets_server.Backfill.{
  CacheStatus, empty_status, classify, Task, create_job, delete_job, create_plan,
}

-- What the constructor reads from the databases.
pub record Artifacts : Type 0 where
  pub artifact_state_by_step : Dict ArtifactState
  pub config_states : List ConfigState

-- `[x for x in config_states if x.config == config]`, or all where `config` is `None`
abbrev configs_named : Option String → List ConfigState → List ConfigState
configs_named none states = states
configs_named (some name) states = filter (λ (state : ConfigState). state.config == name) states

-- The split is looked at only where a config is given.
abbrev splits_named : (c s : Option String) → List SplitState → List SplitState
splits_named (some _) (some name) states =
    filter (λ (state : SplitState). state.split == name) states
splits_named _ _ states = states

abbrev splits_of : (c s : Option String) → List ConfigState → List SplitState
splits_of c s [] = []
splits_of c s (state ∷ states) = splits_named c s state.split_states ++ splits_of c s states

abbrev duplicates : List String → Bool
duplicates [] = false
duplicates (x ∷ xs) = contains x xs || duplicates xs

abbrev without_duplicates : List ArtifactState → Outcome (List ArtifactState)
without_duplicates states =
    raise_if (duplicates (map (λ (state : ArtifactState). state.id) states)) value_error
    >> return states

abbrev found_artifacts :
    Artifacts → InputType → (name : String) → (c s : Option String) → Outcome (List ArtifactState)
found_artifacts artifacts dataset name _ _ =
    get_or_raise name artifacts.artifact_state_by_step >>= λ state. return (state ∷ [])
found_artifacts artifacts config name c _ =
    for_each (λ (state : ConfigState). get_or_raise name state.artifact_state_by_step)
      (configs_named c artifacts.config_states)
found_artifacts artifacts split name c s =
    for_each (λ (state : SplitState). get_or_raise name state.artifact_state_by_step)
      (splits_of c s (configs_named c artifacts.config_states))

unfoldable pub get_artifact_states_for_step :
    Artifacts → ProcessingStep → (c s : Option String) → Outcome (List ArtifactState)
get_artifact_states_for_step artifacts step c s =
    found_artifacts artifacts step.input_type step.name c s >>= without_duplicates

-- The `any` over the parents: it stops at the first parent that is more recent.
unfoldable pub any_parent_newer : Artifacts → ArtifactState → List ProcessingStep → Outcome Bool
unfolding get_artifact_states_for_step
any_parent_newer artifacts state [] = return false
any_parent_newer artifacts state (parent ∷ parents) = do
  states ← get_artifact_states_for_step artifacts parent state.config state.split
  let newer =
      any (λ (other : ArtifactState). is_older_than state.cache_state other.cache_state) states
  if newer then return true else any_parent_newer artifacts state parents

-- The loops of `_get_queue_status`.
abbrev add_in_process : List ArtifactState → Dict ArtifactState → Dict ArtifactState
add_in_process [] in_process = in_process
add_in_process (state ∷ states) in_process =
    add_in_process states
      (if state.job_state.is_in_process then put state.id state in_process else in_process)

unfoldable pub queue_status_of :
    Artifacts → List ProcessingStep → Dict ArtifactState → Outcome (Dict ArtifactState)
unfolding get_artifact_states_for_step
queue_status_of artifacts [] in_process = return in_process
queue_status_of artifacts (step ∷ steps) in_process =
    get_artifact_states_for_step artifacts step none none >>= λ states.
    queue_status_of artifacts steps (add_in_process states in_process)

pub record DatasetState : Type 0 where
  pub artifacts : Artifacts
  pub cache_status : CacheStatus
  pub in_process : Dict ArtifactState
  pub tasks : List Task

module _ (D : DiGraph) (jobs : Collection Job) (cache : Collection CachedResponse) where
  -- The loops of `_get_cache_status`.
  unfoldable pub classify_states :
      ProcessingGraph D
      → (revision : Option String) → Artifacts
      → ProcessingStep
      → List ArtifactState
      → CacheStatus
      → Outcome CacheStatus
  unfolding any_parent_newer get_parents classify
  classify_states graph revision artifacts step [] status = return status
  classify_states graph revision artifacts step (state ∷ states) status = do
    parents ← get_parents D graph step.name
    newer ← any_parent_newer artifacts state parents
    classify_states graph revision artifacts step states (classify newer revision state status)

  unfoldable pub cache_status_of :
      ProcessingGraph D
      → (revision : Option String) → Artifacts
      → List ProcessingStep
      → CacheStatus
      → Outcome CacheStatus
  unfolding classify_states get_artifact_states_for_step
  cache_status_of graph revision artifacts [] status = return status
  cache_status_of graph revision artifacts (step ∷ steps) status = do
    states ← get_artifact_states_for_step artifacts step none none
    status' ← classify_states graph revision artifacts step states status
    cache_status_of graph revision artifacts steps status'

  unfoldable pub get_cache_status :
      ProcessingGraph D → (revision : Option String) → Artifacts → Outcome CacheStatus
  unfolding cache_status_of get_topologically_ordered_processing_steps
  get_cache_status graph revision artifacts =
      cache_status_of graph revision artifacts (get_topologically_ordered_processing_steps D graph)
        empty_status

  unfoldable pub get_queue_status : ProcessingGraph D → Artifacts → Outcome (Dict ArtifactState)
  unfolding queue_status_of get_topologically_ordered_processing_steps
  get_queue_status graph artifacts =
      queue_status_of artifacts (get_topologically_ordered_processing_steps D graph) []

  unfoldable pub artifacts_of :
      ProcessingGraph D
      → (dataset : String) → (codes : Option (List String)) → Databases D jobs cache
      → Outcome Artifacts
  unfolding artifacts_by_step fetch_names config_state_of get_input_type_processing_steps
  artifacts_of graph name codes dbs = do
    steps ← get_input_type_processing_steps D dataset graph
    states ← artifacts_by_step D jobs cache steps name none none codes dbs []
    let config_names = names_or_empty (
        fetch_names D jobs cache name none
          (map (λ (step : ProcessingStep). step.cache_kind)
            (get_dataset_config_names_processing_steps D graph))
          "config_names" "config" dbs.responses)
    configs ← for_each (λ c. config_state_of D jobs cache graph name c codes dbs) config_names
    return (record { artifact_state_by_step = states; config_states = configs })

  unfoldable pub dataset_state_of :
      ProcessingGraph D
      → (dataset : String) → (revision : Option String) → (codes : Option (List String)) → Priority
      → Databases D jobs cache
      → Outcome DatasetState
  unfolding artifacts_of get_cache_status get_queue_status create_plan
  dataset_state_of graph name revision codes priority dbs = do
    artifacts ← artifacts_of graph name codes dbs
    status ← get_cache_status graph revision artifacts
    in_process ← get_queue_status graph artifacts
    tasks ← create_plan priority status in_process
    return (record {
      artifacts = artifacts;
      cache_status = status;
      in_process = in_process;
      tasks = tasks;
    })

  -- `task.run()`, with the two dates that it reads and the key of the new job
  unfoldable pub run_task : ℕ × ℕ × ℕ → Task → jobs.Db → jobs.Db
  unfolding upsert_job cancel_jobs
  run_task now (create_job state priority) db =
      (upsert_job jobs now.0 now.1 now.2 state.processing_step.job_type state.dataset state.config
        state.split priority db).1
  run_task now (delete_job state) db =
      (cancel_jobs jobs now.0 state.processing_step.job_type state.dataset state.config state.split
        (some (waiting ∷ started ∷ [])) db).1

  -- The loop of `Plan.run`.
  unfoldable pub run_tasks : (ℕ → ℕ × ℕ × ℕ) → List Task → jobs.Db → jobs.Db
  unfolding run_task
  run_tasks times [] db = db
  run_tasks times (task ∷ tasks) db =
      run_tasks times tasks (run_task (times (length tasks)) task db)

  -- `Plan.run`: it returns the number of tasks.
  unfoldable pub run : (ℕ → ℕ × ℕ × ℕ) → List Task → jobs.Db → ℕ × jobs.Db
  unfolding run_tasks
  run times tasks db = (length tasks, run_tasks times tasks db)

  unfoldable pub backfill_dataset :
      ProcessingGraph D
      → (times : ℕ → ℕ × ℕ × ℕ) → (dataset : String) → (revision : Option String) → Priority
      → Databases D jobs cache
      → Outcome (ℕ × Databases D jobs cache)
  unfolding dataset_state_of run
  backfill_dataset graph times name revision priority dbs = do
    state ← dataset_state_of graph name revision none priority dbs
    let ran = run times state.tasks dbs.queue
    return (ran.0, record dbs { queue = ran.1 })

  unfoldable pub delete_dataset : String → Databases D jobs cache → Databases D jobs cache
  unfolding delete_dataset_responses
  delete_dataset name dbs = record dbs {
    responses = delete_dataset_responses cache name dbs.responses;
  }
