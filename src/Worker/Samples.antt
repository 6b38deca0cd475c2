-- ===== src/Worker/Samples.antt =====
-- Witnesses for the theorems about services/worker/src/worker: a job of a graph of two steps, on
-- collections in memory.
use datasets_server.Prelude.{
  ◌≤◌, nat_eq, text_eq, option_eq, true, none, some, [], ◌∷◌, count, ◌≡◌, refl, pos, arith, ◌+◌,
}
use datasets_server.Collection.Memory.{memory}
use datasets_server.Utils.{normal, started, status_eq, inputs_to_string, before}
use datasets_server.Json.{text, nil}
use datasets_server.Job.{Job, has_status, info}
use datasets_server.Queue.{new_job, is_job_in_process}
use datasets_server.Scheduling.{
  job_started, start_job, started_now, get_next_waiting_job, get_next_waiting_job_for_priority,
  checked,
}
use datasets_server.Cache.{
  CachedResponse, created, get_response_metadata, get_response_with_details, upsert_response,
  upsert_response_params,
}
use datasets_server.Cache.Best.{get_best_response}
use datasets_server.Cache.Writes.{UniqueIndex}
use datasets_server.Graph.{ProcessingStep, dataset, copy, new_step, copy_processing_steps_list}
use datasets_server.Graph.Samples.{list_graph, two_steps}
use datasets_server.Graph.Build.{get_step}
use datasets_server.Graph.Build.Access.{
  get_input_type_processing_steps, get_processing_step, get_topologically_ordered_processing_steps,
  get_parents, get_dataset_config_names_processing_steps,
}
use datasets_server.State.{
  artifacts_by_step, artifact_state_of, inputs_match, job_state_of, cache_state_of, fetch_names,
  is_older_than, is_empty, is_error_to_retry, is_job_runner_obsolete,
  is_git_revision_different_from,
}
use datasets_server.Backfill.{to_refresh, create_plan, classify, plan_creations}
use datasets_server.Backfill.Dataset.{
  run_tasks, run_task, run, dataset_state_of, artifacts_of, get_cache_status, cache_status_of,
  get_artifact_states_for_step, classify_states, any_parent_newer, get_queue_status,
  queue_status_of,
}
use datasets_server.Worker.Failures.{CustomError, dataset_not_found, new_error}
use datasets_server.Worker.Manager.{
  returned, raised, Wording, World, JobRunner, Managed, JobManager, process,
  get_dataset_git_revision, compute_content, raise_if_parallel_response_exists,
}
use datasets_server.Worker.Manager.Writes.{process_other}
use datasets_server.Worker.Loop.{
  done, uncaught, from_hub, Clock, Config, Site, process_next_job, run_manager, new_job_manager,
  backfill,
}
use datasets_server.Worker.Loop.Lasting.{process_next_job_started}
use datasets_server.Worker.Loop.NotFound.{process_next_job_not_found}

-- A Hub that has every dataset, and one that has none.
abbrev hub : World
hub = record {
  Outside = Unit {0};
  git_revision = λ _ _. (returned (some "main"), tt);
  json_size = λ _. 10;
}

abbrev not_found : CustomError
unfolding new_error
not_found = new_error "The dataset does not exist." 404 "DatasetNotFoundError" none none

abbrev empty_hub : World
empty_hub = record {
  Outside = Unit {0};
  git_revision = λ _ _. (raised (dataset_not_found not_found), tt);
  json_size = λ _. 10;
}

abbrev words : Wording
words = record {
  no_revision = λ d. d;
  already_computed = λ k. k;
  too_big = λ _. "too big";
  multiple_documents = record { exception = "E"; message = "m"; traceback = nil };
}

abbrev step_a : ProcessingStep
step_a = record {
  name = "a";
  input_type = dataset;
  job_runner_version = 1;
  cache_kind = "a";
  job_type = "a";
}

abbrev runner : (W : World) → JobRunner W (memory CachedResponse)
runner W = record {
  job_type = "a";
  job_runner_version = 1;
  processing_step = step_a;
  parallel = none;
  pre_compute = λ _ o. (returned tt, o);
  compute = λ _ o. (returned (record { content = text "content"; progress = pos 1 }), o);
  post_compute = λ _ o. (returned tt, o);
}

abbrev manager : JobManager hub (memory CachedResponse) words
manager = record {
  params = record { dataset = "d"; config = none; split = none };
  priority = normal;
  job_runner = runner hub;
  content_max_bytes = 10;
  now = 5;
  id = 1;
}

abbrev nothing_known : Managed hub (memory CachedResponse) words
nothing_known = record { outside = tt; dataset_git_revision = none; responses = [] }

no_response : UniqueIndex (memory CachedResponse) []
no_response kind name config split = omega arith

process_other_example :
    get_response_with_details
      (memory CachedResponse)
      "b"
      "d"
      none
      none
      (process hub (memory CachedResponse) words manager nothing_known).1.responses
    ≡ get_response_with_details (memory CachedResponse) "b" "d" none none []
process_other_example =
    process_other hub (memory CachedResponse) words manager "b" "d" none none refl nothing_known
      no_response

abbrev clock : Clock
clock = record {
  started_at = 2;
  stored_at = 3;
  response_id = 1;
  tasks = λ n. (4, 4, 5 + n);
  finished_at = 6;
}

abbrev config : Config
config = record {
  content_max_bytes = 10;
  max_jobs_per_namespace = some 2;
  job_types_blocked = none;
  job_types_only = none;
}

abbrev waiting_job : Job
unfolding new_job
waiting_job = new_job 1 1 "a" "d" none none normal

abbrev a_site :
    (W : World) → W.Outside → Site W list_graph (memory Job) (memory CachedResponse) words
a_site W outside = record {
  outside = outside;
  dbs = record { queue = waiting_job ∷ []; responses = [] };
}

round_ends :
    (process_next_job hub list_graph
      (memory Job)
      (memory CachedResponse)
      words
      two_steps
      (λ _. some (runner hub))
      (λ job. job)
      clock
      config
      (a_site hub tt)).0
    ≡ done true
unfolding process_next_job new_job waiting_job start_job get_next_waiting_job
    get_next_waiting_job_for_priority checked info run_manager new_job_manager process backfill
    get_dataset_git_revision compute_content raise_if_parallel_response_exists
    upsert_response_params upsert_response created run run_tasks run_task dataset_state_of
    artifacts_of get_cache_status cache_status_of get_artifact_states_for_step classify_states
    any_parent_newer get_queue_status queue_status_of get_input_type_processing_steps
    get_processing_step get_topologically_ordered_processing_steps get_parents
    get_dataset_config_names_processing_steps get_step copy new_step copy_processing_steps_list
    artifacts_by_step artifact_state_of inputs_match job_state_of cache_state_of fetch_names
    is_older_than is_empty is_error_to_retry is_job_runner_obsolete is_git_revision_different_from
    is_job_in_process get_response_metadata get_best_response classify create_plan to_refresh
    plan_creations inputs_to_string before
round_ends = refl

process_next_job_started_example :
    count
      (has_status started)
      (process_next_job hub list_graph
        (memory Job)
        (memory CachedResponse)
        words
        two_steps
        (λ _. some (runner hub))
        (λ job. job)
        clock
        config
        (a_site hub tt)).1.dbs.queue
    ≤ count (has_status started) (waiting_job ∷ [])
process_next_job_started_example =
    process_next_job_started hub list_graph (memory Job) (memory CachedResponse) words two_steps
      (λ _. some (runner hub)) (λ job. job) clock config (a_site hub tt) true (λ job. refl)
      round_ends

starts :
    start_job (memory Job) (λ job. job) 2 (some 2) none none (waiting_job ∷ [])
    ≡ (job_started (info waiting_job), started_now 2 waiting_job ∷ [])
unfolding start_job get_next_waiting_job get_next_waiting_job_for_priority checked waiting_job
starts = refl

about_d : (info waiting_job).type ≡ "a"
unfolding info waiting_job
about_d = refl

process_next_job_not_found_example :
    (after : Site empty_hub list_graph (memory Job) (memory CachedResponse) words)
    × (process_next_job empty_hub list_graph
          (memory Job)
          (memory CachedResponse)
          words
          two_steps
          (λ _. some (runner empty_hub))
          (λ job. job)
          clock
          config
          (a_site empty_hub tt)
        ≡ (uncaught (from_hub (dataset_not_found not_found)), after))
    × (after.dbs.queue ≡ started_now 2 waiting_job ∷ [])
    × (after.dbs.responses ≡ [])
process_next_job_not_found_example =
    process_next_job_not_found empty_hub list_graph (memory Job) (memory CachedResponse) words
      two_steps not_found (λ _. some (runner empty_hub)) (λ job. job) clock config
      (a_site empty_hub tt) (info waiting_job) (runner empty_hub) (started_now 2 waiting_job ∷ [])
      starts refl refl about_d (λ _. refl)
