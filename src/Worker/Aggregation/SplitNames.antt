-- ===== src/Worker/Aggregation/SplitNames.antt =====
-- services/worker/src/worker/job_runners/dataset/split_names.py
pub mod Naming
use datasets_server.Prelude.{
  ℕ, suc, ◌-◌, nat_eq, text_eq, option_eq, ◌==◌, Bool, true, false, ◌||◌, String, Option, none,
  some, List, [], ◌∷◌, ◌++◌, length, if◌then◌else◌,
}
use datasets_server.Collection.{Collection}
use datasets_server.Json.{Json, text}
use datasets_server.Cache.{CachedResponse, Result, ok, err}
use datasets_server.Cache.Best.{BestResponse, get_best_response}
use datasets_server.Worker.Failures.{Cause}
use datasets_server.Worker.Aggregation.{
  Answer, answer, raised, Fault, cache_error, Raised, format_error, Ratio, ◌>>=◌, item, iterated,
  holds, uncaught_if, caught, get_previous_step_or_raise, previous_step_format_error,
}

pub record ConfigItem : Type 0 where
  pub dataset : String
  pub config : String

pub record SplitItem : Type 0 where
  pub dataset : String
  pub config : String
  pub split : Json

pub record FailedConfigItem : Type 0 where
  pub dataset : String
  pub config : String
  pub error : Json

-- The response, and the variable `total` of the loop.
pub record DatasetSplitNamesResponse : Type 0 where
  pub splits : List SplitItem
  pub pending : List ConfigItem
  pub failed : List FailedConfigItem

pub record Named : Type 0 where
  pub response : DatasetSplitNamesResponse
  pub open response use *
  pub total : ℕ

-- `[config_name_item["config"] for config_name_item in ...]`
abbrev config_values : List Json → Answer Fault (List Json)
config_values [] = answer []
config_values (x ∷ xs) = item "config" x >>= λ v. config_values xs >>= λ vs. answer (v ∷ vs)

-- The names, if all are texts.
abbrev config_names : List Json → Option (List String)
config_names [] = some []
config_names (text name ∷ names) = elim (config_names names) [
  | none ↦ none
  | some rest ↦ some (name ∷ rest)
]
config_names (_ ∷ names) = none

-- The items of the splits of one config
abbrev split_items : (dataset config : String) → List Json → Answer Fault (List SplitItem)
split_items dataset config [] = answer []
split_items dataset config (x ∷ xs) = item "split" x >>= λ split.
    split_items dataset config xs >>= λ rest.
    answer (record { dataset = dataset; config = config; split = split } ∷ rest)

-- One turn of the loop, for the best response of a config.
unfoldable pub named : (dataset config : String) → BestResponse → Named → Answer Fault Named
named dataset config best s =
    if best.response.error_code == some "CachedResponseNotFound"
    then answer (record {
      response = record {
        splits = s.splits;
        pending = s.pending ++ (record { dataset = dataset; config = config } ∷ []);
        failed = s.failed;
      };
      total = suc s.total;
    })
    else if best.response.http_status == 200
    then (item "splits" best.response.content
        >>= iterated
        >>= split_items dataset config
        >>= λ splits. answer (record {
          response = record { splits = s.splits ++ splits; pending = s.pending; failed = s.failed };
          total = suc s.total;
        }))
    else answer (record {
      response = record {
        splits = s.splits;
        pending = s.pending;
        failed =
            s.failed
            ++ (record { dataset = dataset; config = config; error = best.response.content } ∷ []);
      };
      total = suc s.total;
    })

abbrev pub best_of : Result BestResponse → Answer Fault BestResponse
best_of (ok best) = answer best
best_of (err e) = raised (cache_error e)

abbrev pub split_names_cache_kinds : List String
split_names_cache_kinds = "/split-names-from-dataset-info" ∷ "/split-names-from-streaming" ∷ []

module _ (C : Collection CachedResponse) (cause_of : Fault → Cause) (dataset : String)
    (db : C.Db) where
  abbrev pub best_of_config : String → Answer Fault BestResponse
  best_of_config config =
      best_of (get_best_response C split_names_cache_kinds dataset (some config) none db)

  -- The loop over the names.
  unfoldable pub name_splits : List String → Named → Answer Fault Named
  unfolding named
  name_splits [] s = answer s
  name_splits (config ∷ configs) s =
      best_of_config config >>= λ best. named dataset config best s >>= λ s'. name_splits configs s'

  abbrev progress_of : Named → Ratio
  progress_of s =
      if s.total == 0
      then record { numerator = 1; denominator = 1 }
      else record { numerator = s.total - length s.pending; denominator = s.total }

  abbrev nothing_named : Named
  nothing_named = record { response = record { splits = []; pending = []; failed = [] }; total = 0 }

  abbrev of_names : Option (List String) → Answer Raised (DatasetSplitNamesResponse × Ratio)
  of_names none = raised (
      format_error (
        previous_step_format_error
          "Previous step '/config-names' did not return a list of config names." none))
  of_names (some configs) =
      caught cause_of
        (name_splits configs nothing_named >>= λ s. answer (s.response, progress_of s))

  unfoldable pub compute_dataset_split_names_response :
      Answer Raised (DatasetSplitNamesResponse × Ratio)
  unfolding get_previous_step_or_raise previous_step_format_error caught name_splits
  compute_dataset_split_names_response =
      get_previous_step_or_raise C ("/config-names" ∷ []) dataset none none db >>= λ best.
      let content = best.response.content in
      uncaught_if (holds "config_names" content) >>= λ found.
      if found
      then (uncaught_if (item "config_names" content >>= iterated >>= config_values) >>= λ values.
          of_names (config_names values))
      else raised (
          format_error (
            previous_step_format_error
              "'/config-names' did not return the expected content: 'config_names'." none))
