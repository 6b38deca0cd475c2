-- ===== src/Worker/Aggregation/Parquet.antt =====
-- services/worker/src/worker/job_runners/dataset/parquet.py and config/parquet.py
use datasets_server.Prelude.{
  text_eq, option_eq, ◌==◌, Bool, false, String, Option, none, some, List, [], ◌∷◌, if◌then◌else◌,
}
use datasets_server.Collection.{Collection}
use datasets_server.Json.{Json, null, text, object, get_item}
use datasets_server.Cache.{CachedResponse}
use datasets_server.Worker.Failures.{Cause}
use datasets_server.Worker.Aggregation.{
  Answer, answer, raised, Fault, wrong_content, Raised, format_error, Progressing, PreviousJob,
  Ratio, ◌>>=◌, item, iterated, holds, uncaught_if, aggregated, previous_step_format_error,
  get_previous_step_or_raise,
}
use datasets_server.Worker.Aggregation.Size.{concat}

pub record DatasetParquetResponse : Type 0 where
  pub parquet_files : List Json
  pub pending : List PreviousJob
  pub failed : List PreviousJob

-- `file.get("config")`: what is no dictionary has no `get`.
abbrev config_or_null : Json → Answer Fault Json
config_or_null (object fields) = answer (value_or_null (get_item "config" (object fields)))
  where
    value_or_null : Option Json → Json
    value_or_null none = null
    value_or_null (some value) = value
config_or_null _ = raised wrong_content

-- `value == s`
abbrev is_text : String → Json → Bool
is_text s (text t) = t == s
is_text s _ = false

module _ (C : Collection CachedResponse) (query_value : Json → Answer Fault (Option String))
    (cause_of : Fault → Cause) where
  abbrev pub read : Option String → Json → Answer Fault (List Json)
  read config content = item "parquet_files" content >>= iterated

  abbrev pub response_of : Progressing (List Json) → Answer Fault DatasetParquetResponse
  response_of s =
      answer (record { parquet_files = concat s.contents; pending = s.pending; failed = s.failed })

  unfoldable pub compute_sizes_response :
      String → C.Db → Answer Raised (DatasetParquetResponse × Ratio)
  unfolding aggregated
  compute_sizes_response dataset db =
      aggregated C query_value cause_of "config-parquet" dataset read response_of db

  -- The comprehension of config/parquet.py: `parquet_file.get("config")` of each file
  abbrev files_of : String → List Json → Answer Fault (List Json)
  files_of config [] = answer []
  files_of config (file ∷ files) = config_or_null file >>= λ c.
      files_of config files >>= λ rest. answer (if is_text config c then file ∷ rest else rest)

  unfoldable pub compute_parquet_response :
      (dataset config : String) → C.Db → Answer Raised (List Json)
  unfolding get_previous_step_or_raise previous_step_format_error
  compute_parquet_response dataset config db =
      get_previous_step_or_raise C ("config-parquet-and-info" ∷ []) dataset (some config) none db
      >>= λ best.
          let content = best.response.content in
          uncaught_if (holds "parquet_files" content) >>= λ named.
          if named
          then uncaught_if (item "parquet_files" content >>= iterated >>= files_of config)
          else raised (
              format_error (
                previous_step_format_error
                  "Previous step did not return the expected content: 'parquet_files'." none))
