-- ===== src/Api/Samples.antt =====
-- Witnesses for the theorems about services/api/src/api, on collections in memory: a dataset with two
-- configs, of which the name of one begins the name of the other, and a graph with a step of each
-- input type that they need.
use datasets_server.Prelude.{
  nat_eq, text_eq, option_eq, ◌==◌, true, false, String, none, some, List, [], ◌∷◌, any, contains,
  ◌&&◌, ◌≡◌, refl, pos, Option,
}
use Prim.Native.String.{◌++◌ as ◌<>◌}
use datasets_server.Api.JwtToken.{is_jwt_valid, is_jwt_valid_lem}
use datasets_server.Api.Valid.{get_valid, has_step, is_valid_for_all, get_valid_lem}
use datasets_server.Graph.Build.Access.{get_processing_steps_required_by_dataset_viewer}
use datasets_server.Collection.Memory.{memory}
use datasets_server.Utils.{normal, inputs_to_string, before}
use datasets_server.Json.{Json, text, object, array, field, end, cons, nil, boolean, get_item}
use datasets_server.Job.{Job}
use datasets_server.Queue.{is_job_in_process}
use datasets_server.Cache
use datasets_server.Cache.{
  CachedResponse, created, get_response_metadata, get_response_with_details,
  get_response_or_missing_error, missing_error,
}
use datasets_server.Cache.Best.{
  BestResponse, get_best_response, candidates, chosen, max_index_from, progress_value,
}
use datasets_server.Errors
use datasets_server.Errors.{Exception, Outcome}
use datasets_server.Graph.{
  InputType, dataset, config, split, ProcessingStep, ProcessingGraph, new_step, copy,
  copy_processing_steps_list,
}
use datasets_server.Graph.Samples.{list_graph, node}
use datasets_server.Graph.Build.{get_step}
use datasets_server.Graph.Build.Access.{
  get_input_type_processing_steps, get_processing_step, get_topologically_ordered_processing_steps,
  get_parents, get_dataset_config_names_processing_steps, get_config_split_names_processing_steps,
}
use datasets_server.State.{
  artifacts_by_step, artifact_state_of, inputs_match, job_state_of, cache_state_of, config_state_of,
  fetch_names, is_older_than, is_empty, is_error_to_retry, is_job_runner_obsolete,
  is_git_revision_different_from,
}
use datasets_server.Backfill.{empty_status, to_refresh, create_plan, classify, plan_creations}
use datasets_server.Backfill.Dataset.{
  DatasetState, dataset_state_of, artifacts_of, get_cache_status, cache_status_of,
  get_artifact_states_for_step, classify_states, any_parent_newer, get_queue_status,
  queue_status_of,
}
use datasets_server.Hub.{
  Client, answer, got, no_reply, get_dataset_git_revision, get_dataset_info_for_supported_datasets,
  raise_if_not_supported,
}
use datasets_server.Worker.Failures.{Cause}
use datasets_server.Api.Responses.{
  api_error, response_not_ready_error, get_json_ok_response, get_json_response,
  are_valid_parameters, is_non_empty_string, has_text,
}
use datasets_server.Api.Authentication.{Access, status, auth_check}
use datasets_server.Api.Endpoint.{
  Parameters, are_parameters_sufficient, get_useful_parameters, StepsByInputType,
  get_input_type_validators_by_priority, validator, get_input_type_validator_by_parameters, task_id,
  raised, Server, get_cache_entry_from_steps, processing_step_endpoint,
}
use datasets_server.Api.Endpoint.Validators.{Chosen, get_input_type_validator_by_parameters_lem}
use datasets_server.Api.Endpoint.Serving.{Allowed, processing_step_endpoint_ok}
use datasets_server.Api.Endpoint.Prefix.{config_id, get_cache_entry_from_steps_longer_config}
use datasets_server.Api.Webhook.{remove, Payload, webhook_endpoint}
use datasets_server.Api.Webhook.Trust.{webhook_endpoint_untrusted}

abbrev cause : Cause
cause = record { exception = "E"; message = "m"; traceback = nil }

abbrev hub : Client
hub = record {
  Outside = Unit {0};
  post_ask_access = λ _ _. (no_reply cause, tt);
  http_error = λ _. cause;
  dataset_info = λ _ _.
      (got (record { id = some "d"; sha = some "main"; private = false; viewer = none }), tt);
  list_datasets = λ _. (got [], tt);
}

abbrev access : Access (Unit {0})
access = record {
  is_jwt_valid = λ _ _. false;
  external_auth_url = some "auth";
  url = λ template _. some template;
  get = λ _ _. (status 200, tt);
  wrong_url = cause;
  unexpected_status = λ _. cause;
}

-- The step that has the names of the configs, and a step on configs.
abbrev names_step : ProcessingStep
unfolding new_step
names_step = new_step "names" dataset 1

abbrev size_step : ProcessingStep
unfolding new_step
size_step = new_step "size" config 1

abbrev step_names : InputType → List String
step_names dataset = "names" ∷ []
step_names config = "size" ∷ []
step_names split = []

abbrev graph : ProcessingGraph list_graph
graph = record {
  nx_graph = (("names", node) ∷ ("size", node) ∷ [], []);
  processing_steps = ("names", names_step) ∷ ("size", size_step) ∷ [];
  names_by_input_type = step_names;
  first_processing_steps = names_step ∷ [];
  required_by_dataset_viewer = names_step ∷ [];
  config_split_names = [];
  config_parquet = [];
  dataset_config_names = names_step ∷ [];
  topologically_ordered = names_step ∷ size_step ∷ [];
  alphabetically_ordered = names_step ∷ size_step ∷ [];
}

-- The names of the configs: only `c1`.
abbrev config_names : Json
config_names =
    object (field "config_names" (array (cons (object (field "config" (text "c1") end)) nil)) end)

abbrev documents : List CachedResponse
unfolding created
documents =
    created 1 1 "names" "d" none none (record {
      content = config_names;
      http_status = 200;
      error_code = none;
      details = none;
      job_runner_version = some 1;
      dataset_git_revision = some "main";
      progress = some (pos 1);
      updated_at = none;
    })
    ∷ []

abbrev server :
    Server hub list_graph (memory Job) (memory CachedResponse) (λ _. cause) (λ _. cause) graph
server = record { outside = tt; dbs = record { queue = []; responses = documents } }

abbrev steps : StepsByInputType
steps dataset = some (names_step ∷ [])
steps config = some (size_step ∷ [])
steps split = none

abbrev of_dataset : Parameters
of_dataset = record { dataset = some "d"; config = none; split = none }

get_input_type_validator_by_parameters_lem_example : Chosen steps of_dataset (
    get_input_type_validator_by_parameters "No processing steps supported for parameters"
      (get_input_type_validators_by_priority steps)
      of_dataset)
get_input_type_validator_by_parameters_lem_example =
    get_input_type_validator_by_parameters_lem steps of_dataset

served :
    (processing_step_endpoint hub list_graph
      (memory Job)
      (memory CachedResponse)
      (λ _. cause)
      (λ _. cause)
      graph
      access
      60
      5
      steps
      of_dataset
      none
      (λ n. (1, 1, n))
      server).0.status_code
    ≡ 200
unfolding processing_step_endpoint get_input_type_validators_by_priority
    get_input_type_validator_by_parameters are_parameters_sufficient are_valid_parameters
    is_non_empty_string has_text auth_check get_cache_entry_from_steps get_best_response candidates
    chosen max_index_from progress_value get_response_or_missing_error get_response_with_details
    created new_step get_json_ok_response get_json_response
served = refl

processing_step_endpoint_ok_example :
    (t : InputType) × (st : List ProcessingStep) × (get_input_type_validator_by_parameters
        "No processing steps supported for parameters"
        (get_input_type_validators_by_priority steps)
        of_dataset
      ≡ validator t st)
    × Allowed hub list_graph
        (memory Job)
        (memory CachedResponse)
        (λ _. cause)
        (λ _. cause)
        graph
        access
        60
        5
        st
        (get_useful_parameters t of_dataset)
        none
        server
        (processing_step_endpoint hub list_graph
          (memory Job)
          (memory CachedResponse)
          (λ _. cause)
          (λ _. cause)
          graph
          access
          60
          5
          steps
          of_dataset
          none
          (λ n. (1, 1, n))
          server).0.content
processing_step_endpoint_ok_example =
    processing_step_endpoint_ok hub list_graph (memory Job) (memory CachedResponse) (λ _. cause)
      (λ _. cause) graph access 60 5 steps of_dataset none (λ n. (1, 1, n)) server served

a_removal : Payload
a_removal = record {
  event = remove;
  moved_to = none;
  repo_type = "dataset";
  repo_name = "d";
  head_sha = none;
}

webhook_endpoint_untrusted_example :
    (webhook_endpoint list_graph
      (memory Job)
      (memory CachedResponse)
      graph
      (λ n. (1, 1, n))
      (some "secret")
      none
      (some a_removal)
      server.dbs).1.responses
    ≡ documents
webhook_endpoint_untrusted_example =
    webhook_endpoint_untrusted list_graph (memory Job) (memory CachedResponse) graph
      (λ n. (1, 1, n)) (some "secret") none (some a_removal) server.dbs (λ s h k. cc)

-- The best response for the config `c`, which does not exist.
abbrev no_response : BestResponse
unfolding missing_error
no_response = record { kind = "size"; response = missing_error "size" "d" (some "c") none }

nothing_cached :
    get_best_response (memory CachedResponse) ("size" ∷ []) "d" (some "c") none documents
    ≡ Cache.Result.ok no_response
unfolding get_best_response candidates chosen max_index_from progress_value
    get_response_or_missing_error get_response_with_details created missing_error
nothing_cached = refl

asked_hub : get_dataset_git_revision hub "d" tt ≡ (answer (some "main"), tt)
unfolding get_dataset_git_revision get_dataset_info_for_supported_datasets raise_if_not_supported
asked_hub = refl

abbrev state_or : DatasetState → Outcome DatasetState → DatasetState
state_or default (Errors.Outcome.return state) = state
state_or default (Errors.Outcome.raise _) = default

abbrev a_state : DatasetState
a_state =
    state_or
      (record {
        artifacts = record { artifact_state_by_step = []; config_states = [] };
        cache_status = empty_status;
        in_process = [];
        tasks = [];
      })
      (dataset_state_of list_graph (memory Job) (memory CachedResponse) graph "d" (some "main")
        (some []) normal server.dbs)

returns :
    dataset_state_of list_graph
      (memory Job)
      (memory CachedResponse)
      graph
      "d"
      (some "main")
      (some [])
      normal
      server.dbs
    ≡ Errors.Outcome.return a_state
unfolding dataset_state_of artifacts_of get_cache_status cache_status_of
    get_artifact_states_for_step classify_states any_parent_newer get_queue_status queue_status_of
    get_input_type_processing_steps get_processing_step get_topologically_ordered_processing_steps
    get_parents get_dataset_config_names_processing_steps get_config_split_names_processing_steps
    get_step copy new_step copy_processing_steps_list artifacts_by_step artifact_state_of
    inputs_match job_state_of cache_state_of config_state_of fetch_names is_older_than is_empty
    is_error_to_retry is_job_runner_obsolete is_git_revision_different_from is_job_in_process
    get_response_metadata get_best_response candidates chosen max_index_from progress_value
    get_response_or_missing_error get_response_with_details created missing_error classify
    create_plan to_refresh plan_creations inputs_to_string before
returns = refl

creates_c1 :
    any
      (λ task. task_id task == ("CreateJob," <> config_id size_step "d" ("c" <> "1")))
      a_state.tasks
    ≡ true
unfolding dataset_state_of artifacts_of get_cache_status cache_status_of
    get_artifact_states_for_step classify_states any_parent_newer get_queue_status queue_status_of
    get_input_type_processing_steps get_processing_step get_topologically_ordered_processing_steps
    get_parents get_dataset_config_names_processing_steps get_config_split_names_processing_steps
    get_step copy new_step copy_processing_steps_list artifacts_by_step artifact_state_of
    inputs_match job_state_of cache_state_of config_state_of fetch_names is_older_than is_empty
    is_error_to_retry is_job_runner_obsolete is_git_revision_different_from is_job_in_process
    get_response_metadata get_best_response candidates chosen max_index_from progress_value
    get_response_or_missing_error get_response_with_details created missing_error classify
    create_plan to_refresh plan_creations inputs_to_string before
creates_c1 = refl

size_of_config : size_step.input_type ≡ config
unfolding new_step
size_of_config = refl

get_cache_entry_from_steps_longer_config_example :
    (get_cache_entry_from_steps hub list_graph
      (memory Job)
      (memory CachedResponse)
      (λ _. cause)
      (λ _. cause)
      graph
      (size_step ∷ [])
      "d"
      (some "c")
      none
      (λ n. (1, 1, n))
      server).0
    ≡ raised (
        api_error (
          response_not_ready_error
            "The server is busier than usual and the response is not ready yet. Please retry later."))
unfolding size_step no_response
get_cache_entry_from_steps_longer_config_example =
    get_cache_entry_from_steps_longer_config hub list_graph (memory Job) (memory CachedResponse)
      (λ _. cause) (λ _. cause) graph size_step "d" "c" "1" (λ n. (1, 1, n)) server no_response
      (some "main") tt a_state size_of_config nothing_cached refl asked_hub returns creates_c1

get_valid_lem_example :
    contains "d" (get_valid (memory CachedResponse) documents list_graph graph) ≡ (
      has_step
        (memory CachedResponse)
        documents
        (get_processing_steps_required_by_dataset_viewer list_graph graph)
      && is_valid_for_all
          (memory CachedResponse)
          documents
          "d"
          (get_processing_steps_required_by_dataset_viewer list_graph graph))
get_valid_lem_example = get_valid_lem (memory CachedResponse) documents list_graph graph "d"

abbrev claims : Json
claims = object (field "sub" (text "datasets/d") (field "read" (boolean true) end))

abbrev decode : (token public_key algorithm : String) → Option Json
decode token public_key algorithm = some claims

accepted : is_jwt_valid decode "d" "token" (some "key") (some "RS256") ≡ true
unfolding is_jwt_valid
accepted = refl

is_jwt_valid_lem_example :
    (key : String) × (alg : String) × (c : Json) × (some "key" ≡ some key)
    × (some "RS256" ≡ some alg)
    × (decode "token" key alg ≡ some c)
    × (get_item "sub" c ≡ some (text ("datasets/" <> "d")))
    × (get_item "read" c ≡ some (boolean true))
is_jwt_valid_lem_example = is_jwt_valid_lem decode "d" "token" (some "key") (some "RS256") accepted
