-- ===== src/Worker/Aggregation/Samples.antt =====
-- Witnesses for the theorems about services/worker/src/worker/job_runners and api/routes/valid.py: a
-- dataset of two configs, one of them without a cached response.
use datasets_server.Prelude.{
  nat_eq, text_eq, option_eq, ◌&&◌, String, Option, none, some, List, [], ◌∷◌, ◌≡◌, refl, sym, ap,
  arith, any,
}
use datasets_server.Collection.Memory.{memory}
use datasets_server.Json.{Json, Fields, text, natural, array, object, cons, nil, end, field}
use datasets_server.Cache.{
  CachedResponse, Response, Result, ok, err, created, get_response_with_details,
  get_response_or_missing_error,
}
use datasets_server.Cache.Best.{
  BestResponse, get_best_response, candidates, chosen, max_index_from, progress_value,
}
use datasets_server.Cache.Writes.{UniqueIndex}
use datasets_server.Worker.Failures.{Cause, new_error}
use datasets_server.Worker.Aggregation.{
  Answer, answer, raised, Fault, refused, Raised, Progressing, Ratio, aggregated,
  get_previous_step_or_raise, previous_step_format_error,
}
use datasets_server.Worker.Aggregation.Partition.{Partition}
use datasets_server.Worker.Aggregation.Raises.{Documented, aggregated_errors}
use datasets_server.Worker.Aggregation.SplitNames.{Named}
use datasets_server.Worker.Aggregation.IsValid.{
  compute_is_valid_response, is_valid_kind, split_kinds, first_rows_kinds,
  compute_is_valid_response_lem,
}

abbrev query_value : Json → Answer Fault (Option String)
query_value (text s) = answer (some s)
query_value _ = raised refused

abbrev cause_of : Fault → Cause
cause_of _ = record { exception = "KeyError"; message = "'config'"; traceback = nil }

abbrev response_with : Json → Response
response_with content = record {
  content = content;
  http_status = 200;
  error_code = none;
  details = none;
  job_runner_version = some 1;
  dataset_git_revision = some "main";
  progress = none;
  updated_at = none;
}

abbrev name_item : String → Json
name_item name = object (field "config" (text name) end)

abbrev documents : List CachedResponse
unfolding created
documents =
    created 1 1 "/config-names" "d" none none (
      response_with (
        object
          (field "config_names" (array (cons (name_item "a") (cons (name_item "b") nil))) end)))
    ∷ created 2 2 "config-info" "d" (some "a") none (response_with (object end))
    ∷ created 3 3 "/split-names-from-streaming" "d" (some "a") none
        (response_with (object (field "splits" (array nil) end)))
    ∷ []

abbrev read : Option String → Json → Answer Fault Json
read config content = answer content

abbrev finish : Progressing Json → Answer Fault (List Json)
finish s = answer s.contents

half : Ratio
half = record { numerator = 1; denominator = 2 }

-- The names are missing in the content of the previous step.
abbrev no_names : List CachedResponse
unfolding created
no_names = created 1 1 "/config-names" "d" none none (response_with (object end)) ∷ []

one_document : UniqueIndex (memory CachedResponse) no_names
unfolding no_names created
one_document kind dataset config split = ground arith

abbrev content_of : Result BestResponse → Json
content_of (ok best) = best.response.content
content_of (err _) = natural 0

a_dictionary :
    (best : BestResponse)
    → get_best_response (memory CachedResponse) ("/config-names" ∷ []) "d" none none no_names
      ≡ ok best
    → (fields : Fields) × (best.response.content ≡ object fields)
unfolding no_names created get_best_response candidates chosen max_index_from progress_value
    get_response_or_missing_error get_response_with_details
a_dictionary best h = (end, sym (ap content_of h))

abbrev no_names_error : Raised
unfolding previous_step_format_error new_error
no_names_error = Raised.format_error (
    previous_step_format_error "Previous step did not return the expected content: 'config_names'."
      none)

raises :
    aggregated (memory CachedResponse) query_value cause_of "config-info" "d" read finish no_names
    ≡ raised no_names_error
unfolding no_names no_names_error created aggregated get_previous_step_or_raise get_best_response
    candidates chosen max_index_from progress_value get_response_or_missing_error
    get_response_with_details previous_step_format_error new_error
raises = refl

aggregated_errors_example : Documented (memory CachedResponse) "d" no_names no_names_error
aggregated_errors_example =
    aggregated_errors (memory CachedResponse) query_value cause_of "config-info" "d" read finish
      no_names one_document a_dictionary no_names_error raises

abbrev nothing_named : Named
nothing_named = record { response = record { splits = []; pending = []; failed = [] }; total = 0 }

abbrev both_named : Named
both_named = record {
  response = record {
    splits = [];
    pending = record { dataset = "d"; config = "b" } ∷ [];
    failed = [];
  };
  total = 2;
}

compute_is_valid_response_lem_example :
    (compute_is_valid_response (memory CachedResponse) "d" documents).0 ≡ (
      any (is_valid_kind (memory CachedResponse) "d" documents) split_kinds
      && any (is_valid_kind (memory CachedResponse) "d" documents) first_rows_kinds)
compute_is_valid_response_lem_example =
    compute_is_valid_response_lem (memory CachedResponse) "d" documents
