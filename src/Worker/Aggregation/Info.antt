-- ===== src/Worker/Aggregation/Info.antt =====
-- services/worker/src/worker/job_runners/dataset/info.py and config/info.py
use datasets_server.Prelude.{
  text_eq, option_eq, ◌==◌, Bool, true, false, String, Option, none, some, List, [], ◌∷◌,
  if◌then◌else◌,
}
use datasets_server.Collection.{Collection}
use datasets_server.Json.{Json, object, get_item}
use datasets_server.Cache.{CachedResponse}
use datasets_server.Worker.Failures.{Cause}
use datasets_server.Worker.Aggregation.{
  Answer, answer, raised, Fault, wrong_content, Raised, format_error, Progressing, PreviousJob,
  Ratio, ◌>>=◌, item, aggregated, previous_step_format_error, get_previous_step_or_raise,
}

pub record DatasetInfoResponse : Type 0 where
  pub dataset_info : List (Option String × Json)
  pub pending : List PreviousJob
  pub failed : List PreviousJob

-- `infos[config] = info`
abbrev pub put_info :
    Option String → Json → List (Option String × Json) → List (Option String × Json)
put_info config info [] = (config, info) ∷ []
put_info config info ((other, old) ∷ infos) =
    let rest = put_info config info infos in
    if other == config then (config, info) ∷ infos else (other, old) ∷ rest

abbrev put_infos :
    List (Option String × Json) → List (Option String × Json) → List (Option String × Json)
put_infos [] infos = infos
put_infos ((config, info) ∷ rest) infos = put_infos rest (put_info config info infos)

-- `isinstance(value, dict)`
abbrev pub is_dict : Json → Bool
is_dict (object _) = true
is_dict _ = false

module _ (C : Collection CachedResponse) (query_value : Json → Answer Fault (Option String))
    (cause_of : Fault → Cause) where
  abbrev pub read : Option String → Json → Answer Fault (Option String × Json)
  read config content = item "dataset_info" content >>= λ info. answer (config, info)

  abbrev pub response_of : Progressing (Option String × Json) → Answer Fault DatasetInfoResponse
  response_of s =
      answer
        (record { dataset_info = put_infos s.contents []; pending = s.pending; failed = s.failed })

  unfoldable pub compute_dataset_info_response :
      String → C.Db → Answer Raised (DatasetInfoResponse × Ratio)
  unfolding aggregated
  compute_dataset_info_response dataset db =
      aggregated C query_value cause_of "config-info" dataset read response_of db

  -- config/info.py
  unfoldable pub compute_config_info_response :
      (dataset config : String) → C.Db → Answer Raised Json
  unfolding get_previous_step_or_raise previous_step_format_error
  compute_config_info_response dataset config db =
      get_previous_step_or_raise C ("config-parquet-and-info" ∷ []) dataset (some config) none db
      >>= λ best. elim (get_item "dataset_info" best.response.content) [
        | none ↦ raised (
            format_error (
              previous_step_format_error
                "Previous step 'config-parquet-and-info' did not return the expected content: 'dataset_info'."
                (some (cause_of wrong_content))))
        | some config_info ↦
            if is_dict config_info
            then answer config_info
            else raised (
                format_error (
                  previous_step_format_error "Previous step did not return the expected content."
                    (some (cause_of wrong_content))))
      ]
