-- ===== src/Api/Endpoint.antt =====
-- services/api/src/api/routes/endpoint.py: the choice of the processing steps by the parameters of a
-- request, `get_cache_entry_from_steps`, and the endpoint. The steps of an endpoint are an argument, as
-- are the dates and keys that the backfill reads.
pub mod Validators
pub mod Texts
pub mod Serving
pub mod Prefix
use Prim.Native.Char.{Char, code}
use Prim.Native.String.{◌++◌ as ◌<>◌}
use datasets_server.Prelude.{
  ℕ, nat_eq, text_eq, option_eq, ◌==◌, Bool, true, false, not, ◌&&◌, ◌||◌, String, Option, none,
  some, List, [], ◌∷◌, any, map, if◌then◌else◌,
}
use datasets_server.Collection.{Collection}
use datasets_server.Utils.{inputs_to_string, normal}
use datasets_server.Job.{Job}
use datasets_server.Cache
use datasets_server.Cache.{CachedResponse, CacheEntryWithDetails}
use datasets_server.Cache.Best.{BestResponse, get_best_response}
use datasets_server.Errors
use datasets_server.Errors.{Exception, Outcome, for_each, raise_if, has_key, value_error, ◌>>◌}
use datasets_server.Graph.{
  InputType, dataset, config, split, ProcessingStep, DiGraph, ProcessingGraph,
}
use datasets_server.State.{Databases, inputs_match}
use datasets_server.Backfill.{Task, create_job, delete_job}
use datasets_server.Backfill.Dataset.{DatasetState, dataset_state_of, run}
use datasets_server.Hub.{Client, Answer, answer, failed, get_dataset_git_revision}
use datasets_server.Worker.Failures.{Cause}
use datasets_server.Api.Responses.{
  Raised, api_error, other, HttpResponse, missing_required_parameter_error,
  response_not_ready_error, response_not_found_error, unexpected_error, get_json_ok_response,
  get_json_error_response, get_json_api_error_response, are_valid_parameters,
}
use datasets_server.Api.Authentication.{Access, Checked, authorized, refused, auth_check}

-- The parameters `dataset`, `config` and `split` of a request.
pub record Parameters : Type 0 where
  pub dataset : Option String
  pub config : Option String
  pub split : Option String

unfoldable pub are_parameters_sufficient : InputType → Parameters → Bool
unfolding are_valid_parameters
are_parameters_sufficient dataset p = are_valid_parameters (p.dataset ∷ [])
are_parameters_sufficient config p = are_valid_parameters (p.dataset ∷ p.config ∷ [])
are_parameters_sufficient split p = are_valid_parameters (p.dataset ∷ p.config ∷ p.split ∷ [])

abbrev pub get_error_message : InputType → String
get_error_message dataset = "Parameter 'dataset' is required"
get_error_message config = "Parameters 'config' and 'dataset' are required"
get_error_message split = "Parameters 'split', 'config' and 'dataset' are required"

abbrev pub get_useful_parameters : InputType → Parameters → Parameters
get_useful_parameters dataset p = record { dataset = p.dataset; config = none; split = none }
get_useful_parameters config p = record { dataset = p.dataset; config = p.config; split = none }
get_useful_parameters split p = p

-- `steps_by_input_type`: `none` where the endpoint has no such input type.
abbrev pub StepsByInputType : Type 0
StepsByInputType = InputType → Option (List ProcessingStep)

-- A validator with the steps of its input type.
abbrev pub with_steps :
    InputType
    → Option (List ProcessingStep)
    → List (InputType × List ProcessingStep)
    → List (InputType × List ProcessingStep)
with_steps t none validators = validators
with_steps t (some steps) validators = (t, steps) ∷ validators

unfoldable pub get_input_type_validators_by_priority :
    StepsByInputType → List (InputType × List ProcessingStep)
get_input_type_validators_by_priority steps =
    with_steps split (steps split)
      (with_steps config (steps config) (with_steps dataset (steps dataset) []))

-- What the loop over the validators ends with: a validator, or the message of the error.
pub data Validated : Type 0 where
  validator : InputType → List ProcessingStep → Validated
  missing : (message : String) → Validated

unfoldable pub get_input_type_validator_by_parameters :
    (error_message : String) → List (InputType × List ProcessingStep) → Parameters → Validated
unfolding are_parameters_sufficient
get_input_type_validator_by_parameters error_message [] p = missing error_message
get_input_type_validator_by_parameters error_message ((t, steps) ∷ validators) p =
    let rest = get_input_type_validator_by_parameters (get_error_message t) validators p in
    if are_parameters_sufficient t p then validator t steps else rest

-- `needle in text`
abbrev pub starts_with : (needle text : String) → Bool
starts_with String.[] text = true
starts_with (String.◌∷◌ c s) String.[] = false
starts_with (String.◌∷◌ c s) (String.◌∷◌ d t) = code c == code d && starts_with s t

abbrev pub is_in : (needle text : String) → Bool
is_in needle String.[] = starts_with needle String.[]
is_in needle (String.◌∷◌ d t) = starts_with needle (String.◌∷◌ d t) || is_in needle t

-- `task.id`
abbrev pub task_id : Task → String
task_id (create_job state _) = "CreateJob," <> state.id
task_id (delete_job state) = "DeleteJob," <> state.id

-- `Artifact(...).id`
unfoldable pub artifact_id :
    (dataset : String) → (config split : Option String) → ProcessingStep → Outcome String
unfolding inputs_match inputs_to_string
artifact_id name c s step =
    raise_if (not (inputs_match step.input_type c s)) value_error
    >> Errors.Outcome.return (inputs_to_string name c s (some step.name))

abbrev pub should_exist : List String → DatasetState → Bool
should_exist ids state =
    any (λ id. has_key id state.in_process) ids
    || any (λ task. any (λ id. is_in ("CreateJob," <> id) (task_id task)) ids) state.tasks

pub data Fetched : Type 0 where
  found : CacheEntryWithDetails → Fetched
  raised : Raised → Fetched

module _ (hub : Client) (D : DiGraph) (jobs : Collection Job) (cache : Collection CachedResponse)
    (cause_of : Exception → Cause) (cause_of_cache : Cache.CacheError → Cause)
    (graph : ProcessingGraph D) where
  pub record Server : Type 0 where
    pub outside : hub.Outside
    pub dbs : Databases D jobs cache

  abbrev pub not_ready_or_found : Bool → Raised
  not_ready_or_found exist =
      if exist
      then api_error (
          response_not_ready_error
            "The server is busier than usual and the response is not ready yet. Please retry later.")
      else api_error (response_not_found_error "Not found.")

  -- The tests of the artifacts, and then `dataset_state.backfill()`
  abbrev pub backfilled :
      (times : ℕ → ℕ × ℕ × ℕ) → Server → DatasetState → Outcome (List String) → Fetched × Server
  backfilled times server state (Errors.Outcome.raise e) = (raised (other (cause_of e)), server)
  backfilled times server state (Errors.Outcome.return ids) = (
    raised (not_ready_or_found (should_exist ids state)),
    record server {
      dbs = record server.dbs { queue = (run D jobs cache times state.tasks server.dbs.queue).1 };
    },
  )

  abbrev pub with_state :
      List ProcessingStep
      → (dataset : String) → (config split : Option String) → (times : ℕ → ℕ × ℕ × ℕ) → Server
      → Outcome DatasetState
      → Fetched × Server
  with_state steps name c s times server (Errors.Outcome.raise e) =
      (raised (other (cause_of e)), server)
  with_state steps name c s times server (Errors.Outcome.return state) =
      backfilled times server state (for_each (artifact_id name c s) steps)

  abbrev pub with_revision :
      List ProcessingStep
      → (dataset : String) → (config split : Option String) → (times : ℕ → ℕ × ℕ × ℕ) → Server
      → Answer (Option String) × hub.Outside
      → Fetched × Server
  with_revision steps name c s times server (failed e, outside) = (
    raised (api_error (response_not_found_error "Not found.")),
    record server { outside = outside },
  )
  with_revision steps name c s times server (answer revision, outside) =
      with_state steps name c s times (record server { outside = outside })
        (dataset_state_of D jobs cache graph name revision (some []) normal server.dbs)

  -- What is done with the best response.
  abbrev pub fetched :
      List ProcessingStep
      → (dataset : String) → (config split : Option String) → (times : ℕ → ℕ × ℕ × ℕ) → Server
      → Cache.Result BestResponse
      → Fetched × Server
  fetched steps name c s times server (Cache.Result.err e) =
      (raised (other (cause_of_cache e)), server)
  fetched steps name c s times server (Cache.Result.ok best) =
      if best.response.error_code == some "CachedResponseNotFound"
      then with_revision steps name c s times server
          (get_dataset_git_revision hub name server.outside)
      else (found best.response, server)

  unfoldable pub get_cache_entry_from_steps :
      List ProcessingStep
      → (dataset : String) → (config split : Option String) → (times : ℕ → ℕ × ℕ × ℕ) → Server
      → Fetched × Server
  unfolding get_best_response get_dataset_git_revision dataset_state_of artifact_id run
  get_cache_entry_from_steps steps name c s times server = fetched steps name c s times server (
      get_best_response cache (map (λ (step : ProcessingStep). step.cache_kind) steps) name c s
        server.dbs.responses)

  module _ (A : Access hub.Outside) (max_age_long max_age_short : ℕ) where
    abbrev pub error_of : Raised → HttpResponse
    error_of (api_error e) = get_json_api_error_response e max_age_short
    error_of (other cause) =
        get_json_api_error_response (unexpected_error "Unexpected error." cause) max_age_short

    abbrev pub answered : Fetched × Server → HttpResponse × Server
    answered (raised e, server) = (error_of e, server)
    answered (found entry, server) = (
      if entry.http_status == 200
          then get_json_ok_response entry.content max_age_long
          else get_json_error_response entry.content entry.http_status max_age_short
              entry.error_code,
      server,
    )

    abbrev pub if_authorized :
        List ProcessingStep
        → (dataset : String) → (config split : Option String) → (times : ℕ → ℕ × ℕ × ℕ) → Server
        → Checked × hub.Outside
        → HttpResponse × Server
    if_authorized steps name c s times server (refused e, outside) =
        (error_of e, record server { outside = outside })
    if_authorized steps name c s times server (authorized, outside) =
        answered
          (get_cache_entry_from_steps steps name c s times (record server { outside = outside }))

    abbrev pub for_dataset :
        List ProcessingStep
        → (dataset : Option String) → (config split : Option String) → (api_key : Option String)
        → (times : ℕ → ℕ × ℕ × ℕ) → Server
        → HttpResponse × Server
    for_dataset steps none c s api_key times server = (
      error_of (api_error (missing_required_parameter_error "Parameter 'dataset' is required")),
      server,
    )
    for_dataset steps (some name) c s api_key times server =
        if name == ""
        then (
          error_of (api_error (missing_required_parameter_error "Parameter 'dataset' is required")),
          server,
        )
        else if_authorized steps name c s times server (auth_check A name api_key server.outside)

    abbrev pub validated :
        Parameters
        → (api_key : Option String) → (times : ℕ → ℕ × ℕ × ℕ) → Server
        → Validated
        → HttpResponse × Server
    validated p api_key times server (missing message) =
        (error_of (api_error (missing_required_parameter_error message)), server)
    validated p api_key times server (validator t steps) =
        let q = get_useful_parameters t p in
        for_dataset steps q.dataset q.config q.split api_key times server

    unfoldable pub processing_step_endpoint :
        StepsByInputType
        → Parameters
        → (api_key : Option String) → (times : ℕ → ℕ × ℕ × ℕ) → Server
        → HttpResponse × Server
    unfolding get_input_type_validators_by_priority get_input_type_validator_by_parameters
        auth_check get_cache_entry_from_steps
    processing_step_endpoint steps p api_key times server = validated p api_key times server (
        get_input_type_validator_by_parameters "No processing steps supported for parameters"
          (get_input_type_validators_by_priority steps) p)
