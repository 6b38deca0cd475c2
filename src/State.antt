-- ===== src/State.antt =====
-- libs/libcommon/src/libcommon/state.py: the states of artifacts, splits and configs, read from the
-- cache and the queue. Both databases stand in one record, and the graph library is the interface of
-- Graph.antt.
use datasets_server.Prelude.{
  ℕ, text_eq, option_eq, ◌==◌, Bool, true, false, not, ◌&&◌, String, Option, none, some, List, [],
  ◌∷◌, map, contains, ltb, leb,
}
use datasets_server.Collection.{Collection}
use datasets_server.Utils.{inputs_to_string}
use datasets_server.Json.{Json, text, array, Items, nil, cons, get_item}
use datasets_server.Job.{Job}
use datasets_server.Queue.{is_job_in_process}
use datasets_server.Cache
use datasets_server.Cache.{
  CachedResponse, CacheEntryMetadata, get_response_metadata, does_not_exist,
}
use datasets_server.Cache.Best.{get_best_response}
use datasets_server.Errors.{
  Outcome, return, raise, value_error, key_error, multiple_objects, ◌>>=◌, ◌>>◌, raise_if, for_each,
  Dict, put,
}
use datasets_server.Graph.{InputType, ProcessingStep, DiGraph, ProcessingGraph}
use datasets_server.Graph.Build.Access.{
  get_input_type_processing_steps, get_config_split_names_processing_steps,
}

pub record JobState : Type 0 where
  pub dataset : String
  pub config : Option String
  pub split : Option String
  pub job_type : String
  pub is_in_process : Bool

pub record CacheState : Type 0 where
  pub dataset : String
  pub config : Option String
  pub split : Option String
  pub cache_kind : String
  pub error_codes_to_retry : Option (List String)
  pub cache_entry_metadata : Option CacheEntryMetadata
  pub exists : Bool
  pub is_success : Bool

unfoldable pub is_empty : CacheState → Bool
is_empty state = elim state.cache_entry_metadata [ none ↦ true | some _ ↦ false ]

-- `error_code in error_codes_to_retry`: the error code may be `None`, which no code is.
abbrev code_in : Option String → List String → Bool
code_in none codes = false
code_in (some code) codes = contains code codes

abbrev retried : Option (List String) → Option CacheEntryMetadata → Bool
retried (some codes) (some entry) = leb 400 entry.http_status && code_in entry.error_code codes
retried _ _ = false

unfoldable pub is_error_to_retry : CacheState → Bool
is_error_to_retry state = retried state.error_codes_to_retry state.cache_entry_metadata

abbrev older : Option CacheEntryMetadata → Option CacheEntryMetadata → Bool
older (some a) (some b) = ltb a.updated_at b.updated_at
older _ _ = false

unfoldable pub is_older_than : CacheState → CacheState → Bool
is_older_than state other = older state.cache_entry_metadata other.cache_entry_metadata

abbrev revision_differs : Option CacheEntryMetadata → Option String → Bool
revision_differs none revision = true
revision_differs (some entry) revision = not (entry.dataset_git_revision == revision)

unfoldable pub is_git_revision_different_from : CacheState → Option String → Bool
is_git_revision_different_from state revision = revision_differs state.cache_entry_metadata revision

pub record ArtifactState : Type 0 where
  pub processing_step : ProcessingStep
  pub dataset : String
  pub config : Option String
  pub split : Option String
  pub id : String
  pub error_codes_to_retry : Option (List String)
  pub job_state : JobState
  pub cache_state : CacheState

abbrev obsolete : ℕ → Option CacheEntryMetadata → Bool
obsolete version none = false
obsolete version (some entry) = elim entry.job_runner_version [
  | none ↦ true
  | some cached ↦ ltb cached version
]

unfoldable pub is_job_runner_obsolete : ArtifactState → Bool
is_job_runner_obsolete state =
    obsolete state.processing_step.job_runner_version state.cache_state.cache_entry_metadata

-- The checks of `Artifact.__post_init__`, which raise `ValueError`.
unfoldable pub inputs_match : InputType → Option String → Option String → Bool
inputs_match InputType.dataset none none = true
inputs_match InputType.config (some _) none = true
inputs_match InputType.split (some _) (some _) = true
inputs_match _ _ _ = false

pub record SplitState : Type 0 where
  pub dataset : String
  pub config : String
  pub split : String
  pub artifact_state_by_step : Dict ArtifactState

pub record ConfigState : Type 0 where
  pub dataset : String
  pub config : String
  pub split_names : List String
  pub split_states : List SplitState
  pub artifact_state_by_step : Dict ArtifactState

abbrev name_of : Option Json → Outcome String
name_of none = raise key_error
name_of (some (text name)) = return name
name_of (some _) = raise value_error

-- `[item[name_field] for item in items]`, where each must be a text
abbrev names_in : String → Items → Outcome (List String)
names_in name_field nil = return []
names_in name_field (cons item items) = name_of (get_item name_field item) >>= λ name.
    names_in name_field items >>= λ names. return (name ∷ names)

abbrev names_of : String → Option Json → Outcome (List String)
names_of name_field (some (array items)) = names_in name_field items
names_of name_field _ = raise key_error

-- `try: names = fetch_names(...)` / `except Exception: names = []`
abbrev pub names_or_empty : Outcome (List String) → List String
names_or_empty (return names) = names
names_or_empty (raise _) = []

-- `suppress(DoesNotExist)` around the read of the metadata.
abbrev metadata_or_none : Cache.Result CacheEntryMetadata → Outcome (Option CacheEntryMetadata)
metadata_or_none (Cache.Result.ok entry) = return (some entry)
metadata_or_none (Cache.Result.err does_not_exist) = return none
metadata_or_none (Cache.Result.err _) = raise multiple_objects

abbrev is_some : {A : Type 0} → Option A → Bool
is_some none = false
is_some (some _) = true

abbrev succeeded : Option CacheEntryMetadata → Bool
succeeded none = false
succeeded (some entry) = ltb entry.http_status 400

module _ (D : DiGraph) (jobs : Collection Job) (cache : Collection CachedResponse) where
  -- The two databases.
  pub record Databases : Type 0 where
    pub queue : jobs.Db
    pub responses : cache.Db

  unfoldable pub fetch_names :
      (dataset : String)
      → Option String
      → (cache_kinds : List String) → (names_field name_field : String) → cache.Db
      → Outcome (List String)
  fetch_names dataset config cache_kinds names_field name_field db =
      elim (get_best_response cache cache_kinds dataset config none db) [
        | Cache.Result.err _ ↦ raise value_error
        | Cache.Result.ok best ↦ names_of name_field (get_item names_field best.response.content)
      ]

  unfoldable pub job_state_of :
      (dataset : String)
      → (config split : Option String) → (job_type : String) → Databases
      → JobState
  job_state_of dataset config split job_type dbs = record {
    dataset = dataset;
    config = config;
    split = split;
    job_type = job_type;
    is_in_process = is_job_in_process jobs job_type dataset config split dbs.queue;
  }

  unfoldable pub cache_state_of :
      (dataset : String)
      → (config split : Option String) → (cache_kind : String) → Option (List String)
      → Databases
      → Outcome CacheState
  cache_state_of dataset config split cache_kind codes dbs = do
    entry ←
        metadata_or_none (get_response_metadata cache cache_kind dataset config split dbs.responses)
    return (record {
      dataset = dataset;
      config = config;
      split = split;
      cache_kind = cache_kind;
      error_codes_to_retry = codes;
      cache_entry_metadata = entry;
      exists = is_some entry;
      is_success = succeeded entry;
    })

  -- `ArtifactState(...)`, with the `__post_init__` of `Artifact`
  unfoldable pub artifact_state_of :
      ProcessingStep
      → (dataset : String) → (config split : Option String) → Option (List String)
      → Databases
      → Outcome ArtifactState
  unfolding inputs_match job_state_of cache_state_of
  artifact_state_of step dataset config split codes dbs = do
    raise_if (not (inputs_match step.input_type config split)) value_error
    state ← cache_state_of dataset config split step.cache_kind codes dbs
    return (record {
      processing_step = step;
      dataset = dataset;
      config = config;
      split = split;
      id = inputs_to_string dataset config split (some step.name);
      error_codes_to_retry = codes;
      job_state = job_state_of dataset config split step.job_type dbs;
      cache_state = state;
    })

  -- `{step.name: ArtifactState(...) for step in steps}`
  unfoldable pub artifacts_by_step :
      List ProcessingStep
      → (dataset : String) → (config split : Option String) → Option (List String)
      → Databases
      → Dict ArtifactState
      → Outcome (Dict ArtifactState)
  unfolding artifact_state_of
  artifacts_by_step [] dataset config split codes dbs states = return states
  artifacts_by_step (step ∷ steps) dataset config split codes dbs states =
      artifact_state_of step dataset config split codes dbs >>= λ state.
      artifacts_by_step steps dataset config split codes dbs (put step.name state states)

  unfoldable pub split_state_of :
      ProcessingGraph D
      → (dataset config split : String) → Option (List String)
      → Databases
      → Outcome SplitState
  unfolding artifacts_by_step get_input_type_processing_steps
  split_state_of graph dataset config split codes dbs = do
    steps ← get_input_type_processing_steps D InputType.split graph
    states ← artifacts_by_step steps dataset (some config) (some split) codes dbs []
    return (record {
      dataset = dataset;
      config = config;
      split = split;
      artifact_state_by_step = states;
    })

  unfoldable pub config_state_of :
      ProcessingGraph D
      → (dataset config : String) → Option (List String)
      → Databases
      → Outcome ConfigState
  unfolding split_state_of fetch_names
  config_state_of graph dataset config codes dbs = do
    steps ← get_input_type_processing_steps D InputType.config graph
    states ← artifacts_by_step steps dataset (some config) none codes dbs []
    let split_names = names_or_empty (
        fetch_names dataset (some config)
          (map (λ (step : ProcessingStep). step.cache_kind)
            (get_config_split_names_processing_steps D graph))
          "splits" "split" dbs.responses)
    split_states ←
        for_each (λ split. split_state_of graph dataset config split codes dbs) split_names
    return (record {
      dataset = dataset;
      config = config;
      split_names = split_names;
      split_states = split_states;
      artifact_state_by_step = states;
    })
