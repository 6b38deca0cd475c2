-- ===== src/Backfill/Samples.antt =====
-- Witnesses for the theorems about the plan of libs/libcommon/src/libcommon/state.py: a dataset
-- with a graph of two steps, of which one has a job in process.
use datasets_server.Prelude.{
  Bool, if◌then◌else◌, ltb, nat_eq, ◌==◌, false, not, ◌&&◌, length, any, ◌-◌, text_eq, String, none,
  some, List, [], ◌∷◌, occurrences, count, pos, ◌≡◌, refl,
}
use datasets_server.Collection.Memory.{memory}
use datasets_server.Utils.{normal, inputs_to_string, before}
use datasets_server.Json.{text}
use datasets_server.Job.{Job}
use datasets_server.Queue.{new_job, is_job_in_process}
use datasets_server.Cache.{CachedResponse, created, get_response_metadata}
use datasets_server.Errors.{Outcome, return, raise, keys}
use datasets_server.Graph.Samples.{list_graph, two_steps}
use datasets_server.State.{
  ArtifactState, Databases, artifacts_by_step, artifact_state_of, inputs_match, job_state_of,
  cache_state_of, fetch_names, is_older_than, is_empty, is_error_to_retry, is_job_runner_obsolete,
  is_git_revision_different_from,
}
use datasets_server.Backfill.{empty_status, Task, to_refresh, create_plan, classify, plan_creations}
use datasets_server.Backfill.Planning.{creates, deletes, OwnIds, ids_of, create_plan_exact}
use datasets_server.Backfill.Dataset.{
  run_tasks, DatasetState, dataset_state_of, artifacts_of, get_cache_status, cache_status_of,
  get_artifact_states_for_step, classify_states, any_parent_newer, get_queue_status,
  queue_status_of,
}
use datasets_server.Backfill.Dataset.Running.{dataset_of, run_tasks_other_datasets}
use datasets_server.Backfill.Dataset.Exact.{dataset_state_plan}
use datasets_server.Backfill.Dataset.Visited.{visited, waits_for, stale_for, review_all}
use datasets_server.Graph.Build.Access.{
  get_input_type_processing_steps, get_processing_step, get_topologically_ordered_processing_steps,
  get_parents, get_dataset_config_names_processing_steps,
}
use datasets_server.Graph.Build.{get_step}
use datasets_server.Graph.{copy, new_step, copy_processing_steps_list}
use datasets_server.Cache.Best.{get_best_response}

abbrev dbs : Databases list_graph (memory Job) (memory CachedResponse)
dbs = record {
  queue = new_job 1 1 "b" "d" none none normal ∷ [];
  responses =
      created 1 1 "a" "d" none none (record {
        content = text "content";
        http_status = 200;
        error_code = none;
        details = none;
        job_runner_version = some 1;
        dataset_git_revision = some "main";
        progress = some (pos 1);
        updated_at = none;
      })
      ∷ [];
}

abbrev state_or : DatasetState → Outcome DatasetState → DatasetState
state_or default (return state) = state
state_or default (raise _) = default

abbrev no_state : DatasetState
no_state = record {
  artifacts = record { artifact_state_by_step = []; config_states = [] };
  cache_status = empty_status;
  in_process = [];
  tasks = [];
}

abbrev a_state : DatasetState
a_state = state_or no_state (
    dataset_state_of list_graph (memory Job) (memory CachedResponse) two_steps "d" (some "main")
      none normal dbs)

returns :
    dataset_state_of list_graph
      (memory Job)
      (memory CachedResponse)
      two_steps
      "d"
      (some "main")
      none
      normal
      dbs
    ≡ return a_state
unfolding dataset_state_of artifacts_of get_cache_status cache_status_of
    get_artifact_states_for_step classify_states any_parent_newer get_queue_status queue_status_of
    get_input_type_processing_steps get_processing_step get_topologically_ordered_processing_steps
    get_parents get_dataset_config_names_processing_steps get_step copy new_step
    copy_processing_steps_list artifacts_by_step artifact_state_of inputs_match job_state_of
    cache_state_of fetch_names is_older_than is_empty is_error_to_retry is_job_runner_obsolete
    is_git_revision_different_from is_job_in_process new_job get_response_metadata created
    get_best_response classify create_plan to_refresh plan_creations inputs_to_string before
returns = refl

dataset_state_plan_example :
    (states : List ArtifactState) × (visited a_state.artifacts
        (get_topologically_ordered_processing_steps list_graph two_steps)
      ≡ return states)
    × (reviews : List (Bool × ArtifactState)) × (review_all list_graph two_steps a_state.artifacts
          (get_topologically_ordered_processing_steps list_graph two_steps)
        ≡ return reviews)
    × (occurrences "b,d" (keys a_state.in_process)
        ≡ (if any (waits_for "b,d") states then 1 else 0))
    × (ltb 0 (occurrences "b,d" (ids_of (to_refresh a_state.cache_status)))
        ≡ any (stale_for "b,d" (some "main")) reviews)
    × (count (creates "b,d") a_state.tasks
        ≡ occurrences "b,d" (ids_of (to_refresh a_state.cache_status))
          - occurrences "b,d" (keys a_state.in_process))
    × (count (deletes "b,d") a_state.tasks
        ≡ occurrences "b,d" (keys a_state.in_process)
          - occurrences "b,d" (ids_of (to_refresh a_state.cache_status)))
    × (ltb 0 (count (deletes "b,d") a_state.tasks)
        ≡ (any (waits_for "b,d") states && not (any (stale_for "b,d" (some "main")) reviews)))
    × ((not (any (waits_for "b,d") states) && ltb 0 (count (creates "b,d") a_state.tasks))
        ≡ (not (any (waits_for "b,d") states) && any (stale_for "b,d" (some "main")) reviews))
dataset_state_plan_example =
    dataset_state_plan list_graph (memory Job) (memory CachedResponse) two_steps "d" (some "main")
      none normal dbs a_state returns "b,d"

owned : OwnIds a_state.in_process
unfolding dataset_state_of artifacts_of get_cache_status cache_status_of
    get_artifact_states_for_step classify_states any_parent_newer get_queue_status queue_status_of
    get_input_type_processing_steps get_processing_step get_topologically_ordered_processing_steps
    get_parents get_dataset_config_names_processing_steps get_step copy new_step
    copy_processing_steps_list artifacts_by_step artifact_state_of inputs_match job_state_of
    cache_state_of fetch_names is_older_than is_empty is_error_to_retry is_job_runner_obsolete
    is_git_revision_different_from is_job_in_process new_job get_response_metadata created
    get_best_response classify create_plan to_refresh plan_creations inputs_to_string before
owned = refl

create_plan_exact_example :
    (tasks : List Task) × (create_plan normal a_state.cache_status a_state.in_process
      ≡ return tasks)
    × ((id : String)
        → (count (creates id) tasks
            ≡ occurrences id (ids_of (to_refresh a_state.cache_status))
              - occurrences id (keys a_state.in_process))
          × (count (deletes id) tasks
              ≡ occurrences id (keys a_state.in_process)
                - occurrences id (ids_of (to_refresh a_state.cache_status))))
create_plan_exact_example = create_plan_exact normal a_state.cache_status a_state.in_process owned

-- A queue with a job of another dataset, and the tasks of the plan.
abbrev a_job : Job
unfolding new_job
a_job = new_job 2 2 "b" "e" none none normal

-- With no job in process, the plan creates the job that is missing.
abbrev idle : Databases list_graph (memory Job) (memory CachedResponse)
idle = record dbs { queue = a_job ∷ [] }

abbrev idle_state : DatasetState
idle_state = state_or no_state (
    dataset_state_of list_graph (memory Job) (memory CachedResponse) two_steps "d" (some "main")
      none normal idle)

one_task : length idle_state.tasks ≡ 1
unfolding dataset_state_of artifacts_of get_cache_status cache_status_of
    get_artifact_states_for_step classify_states any_parent_newer get_queue_status queue_status_of
    get_input_type_processing_steps get_processing_step get_topologically_ordered_processing_steps
    get_parents get_dataset_config_names_processing_steps get_step copy new_step
    copy_processing_steps_list artifacts_by_step artifact_state_of inputs_match job_state_of
    cache_state_of fetch_names is_older_than is_empty is_error_to_retry is_job_runner_obsolete
    is_git_revision_different_from is_job_in_process new_job get_response_metadata created
    get_best_response classify create_plan to_refresh plan_creations inputs_to_string before
one_task = refl

about_d : any (λ task. not (dataset_of task == "d")) idle_state.tasks ≡ false
unfolding dataset_state_of artifacts_of get_cache_status cache_status_of
    get_artifact_states_for_step classify_states any_parent_newer get_queue_status queue_status_of
    get_input_type_processing_steps get_processing_step get_topologically_ordered_processing_steps
    get_parents get_dataset_config_names_processing_steps get_step copy new_step
    copy_processing_steps_list artifacts_by_step artifact_state_of inputs_match job_state_of
    cache_state_of fetch_names is_older_than is_empty is_error_to_retry is_job_runner_obsolete
    is_git_revision_different_from is_job_in_process new_job get_response_metadata created
    get_best_response classify create_plan to_refresh plan_creations inputs_to_string before
about_d = refl

run_tasks_other_datasets_example :
    count
      (λ (job : Job). not (job.dataset == "d") && job.pk == 2)
      (run_tasks list_graph
        (memory Job)
        (memory CachedResponse)
        (λ n. (n, n, n))
        idle_state.tasks
        (a_job ∷ []))
    ≡ count (λ (job : Job). not (job.dataset == "d") && job.pk == 2) (a_job ∷ [])
run_tasks_other_datasets_example =
    run_tasks_other_datasets list_graph (memory Job) (memory CachedResponse) "d" (λ n. (n, n, n))
      idle_state.tasks (a_job ∷ []) (λ job. job.pk == 2) about_d
