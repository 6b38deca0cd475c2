-- ===== src/Worker/Failures.antt =====
-- libs/libcommon/src/libcommon/exceptions.py and services/worker/src/worker/common_exceptions.py: the
-- errors that a job stores in the cache.
use datasets_server.Prelude.{ℕ, Bool, true, false, String, Option, none, some, if◌then◌else◌}
use datasets_server.Json.{Json, text, object, array, Items, end, field}

-- The name, the message and the traceback of the exception that caused an error.
pub record Cause : Type 0 where
  pub exception : String
  pub message : String
  pub traceback : Items

-- The fields of `CustomError`.
pub record CustomError : Type 0 where
  pub message : String
  pub status_code : ℕ
  pub code : String
  pub disclose_cause : Bool
  pub cause : Option Cause

-- The constructor: the cause is disclosed, if not said otherwise, where there is one.
abbrev disclosed : Option Bool → Option Cause → Bool
disclosed (some disclose) cause = disclose
disclosed none none = false
disclosed none (some _) = true

unfoldable pub new_error :
    (message : String)
    → (status_code : ℕ) → (code : String) → Option Cause
    → Option Bool
    → CustomError
new_error message status_code code cause disclose_cause = record {
  message = message;
  status_code = status_code;
  code = code;
  disclose_cause = disclosed disclose_cause cause;
  cause = cause;
}

unfoldable pub as_response_without_cause : CustomError → Json
as_response_without_cause e = object (field "error" (text e.message) end)

unfoldable pub as_response_with_cause : CustomError → Json
as_response_with_cause e = elim e.cause [
  | none ↦ object (field "error" (text e.message) end)
  | some cause ↦ object (
      field "error" (text e.message) (
        field "cause_exception" (text cause.exception) (
          field "cause_message" (text cause.message)
            (field "cause_traceback" (array cause.traceback) end))))
]

unfoldable pub as_response : CustomError → Json
unfolding as_response_with_cause as_response_without_cause
as_response e = if e.disclose_cause then as_response_with_cause e else as_response_without_cause e

-- `DatasetNotFoundError`, any other `CustomError`, or any other exception.
pub data Failure : Type 0 where
  dataset_not_found custom : CustomError → Failure
  other : Cause → Failure

unfoldable pub no_git_revision_error : (message : String) → CustomError
unfolding new_error
no_git_revision_error message = new_error message 404 "NoGitRevisionError" none (some false)

unfoldable pub response_already_computed_error : (message : String) → CustomError
unfolding new_error
response_already_computed_error message =
    new_error message 500 "ResponseAlreadyComputedError" none (some true)

unfoldable pub too_big_content_error : (message : String) → CustomError
unfolding new_error
too_big_content_error message = new_error message 501 "TooBigContentError" none (some false)

unfoldable pub unexpected_error : Cause → CustomError
unfolding new_error
unexpected_error cause = new_error cause.message 500 "UnexpectedError" (some cause) (some false)

unfoldable pub job_manager_crashed_error : (message : String) → Option Cause → CustomError
unfolding new_error
job_manager_crashed_error message cause =
    new_error message 501 "JobManagerCrashedError" cause (some false)

unfoldable pub job_manager_exceeded_maximum_duration_error :
    (message : String) → Option Cause → CustomError
unfolding new_error
job_manager_exceeded_maximum_duration_error message cause =
    new_error message 501 "JobManagerExceededMaximumDurationError" cause (some false)

-- `err if isinstance(err, CustomError) else UnexpectedError(str(err), err)`
unfoldable pub to_custom_error : Failure → CustomError
unfolding unexpected_error
to_custom_error (dataset_not_found e) = e
to_custom_error (custom e) = e
to_custom_error (other cause) = unexpected_error cause
