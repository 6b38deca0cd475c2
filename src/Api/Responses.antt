-- ===== src/Api/Responses.antt =====
-- services/api/src/api/utils.py: the errors of the API, its answers, and the test of parameters.
use Prim.Native.Char.{code}
use datasets_server.Prelude.{
  ℕ, zero, suc, nat_eq, ◌==◌, leb, Bool, true, false, not, ◌&&◌, ◌||◌, String, Option, none, some,
  List, [], ◌∷◌,
}
use datasets_server.Json.{Json}
use datasets_server.Worker.Failures.{CustomError, Cause, new_error, as_response}

unfoldable pub missing_required_parameter_error : (message : String) → CustomError
unfolding new_error
missing_required_parameter_error message =
    new_error message 422 "MissingRequiredParameter" none (some false)

unfoldable pub response_not_ready_error : (message : String) → CustomError
unfolding new_error
response_not_ready_error message = new_error message 500 "ResponseNotReady" none (some false)

unfoldable pub response_not_found_error : (message : String) → CustomError
unfolding new_error
response_not_found_error message = new_error message 404 "ResponseNotFound" none (some false)

unfoldable pub unexpected_error : (message : String) → Cause → CustomError
unfolding new_error
unexpected_error message cause = new_error message 500 "UnexpectedError" (some cause) (some false)

unfoldable pub external_unauthenticated_error : (message : String) → CustomError
unfolding new_error
external_unauthenticated_error message =
    new_error message 401 "ExternalUnauthenticatedError" none (some false)

unfoldable pub external_authenticated_error : (message : String) → CustomError
unfolding new_error
external_authenticated_error message =
    new_error message 404 "ExternalAuthenticatedError" none (some false)

unfoldable pub auth_check_hub_request_error : (message : String) → Cause → CustomError
unfolding new_error
auth_check_hub_request_error message cause =
    new_error message 500 "AuthCheckHubRequestError" (some cause) (some false)

-- An exception: an `ApiCustomError`, or another one.
pub data Raised : Type 0 where
  api_error : CustomError → Raised
  other : Cause → Raised

-- `max_age` is the number of seconds in `Cache-Control`; `none` is `no-store`.
pub record HttpResponse : Type 0 where
  pub content : Json
  pub status_code : ℕ
  pub max_age : Option ℕ
  pub error_code : Option String

abbrev pub cache_control : (max_age : ℕ) → Option ℕ
cache_control zero = none
cache_control (suc n) = some (suc n)

unfoldable pub get_json_response :
    (content : Json) → (status_code max_age : ℕ) → (error_code : Option String) → HttpResponse
get_json_response content status_code max_age error_code = record {
  content = content;
  status_code = status_code;
  max_age = cache_control max_age;
  error_code = error_code;
}

unfoldable pub get_json_ok_response : (content : Json) → (max_age : ℕ) → HttpResponse
unfolding get_json_response
get_json_ok_response content max_age = get_json_response content 200 max_age none

unfoldable pub get_json_error_response :
    (content : Json) → (status_code max_age : ℕ) → (error_code : Option String) → HttpResponse
unfolding get_json_response
get_json_error_response content status_code max_age error_code =
    get_json_response content status_code max_age error_code

unfoldable pub get_json_api_error_response : CustomError → (max_age : ℕ) → HttpResponse
unfolding get_json_error_response as_response
get_json_api_error_response error max_age =
    get_json_error_response (as_response error) error.status_code max_age (some error.code)

-- `character.isspace()`
abbrev is_space : ℕ → Bool
is_space c =
    (leb 9 c && leb c 13)
    || ((leb 28 c && leb c 32)
        || (c == 133
            || (c == 160
                || (c == 5760
                    || ((leb 8192 c && leb c 8202)
                        || (c == 8232
                            || (c == 8233 || (c == 8239 || (c == 8287 || c == 12288)))))))))

-- `bool(string and string.strip())`
unfoldable pub has_text : String → Bool
has_text String.[] = false
has_text (String.◌∷◌ c s) = not (is_space (code c)) || has_text s

unfoldable pub is_non_empty_string : Option String → Bool
unfolding has_text
is_non_empty_string none = false
is_non_empty_string (some s) = has_text s

unfoldable pub are_valid_parameters : List (Option String) → Bool
unfolding is_non_empty_string
are_valid_parameters [] = true
are_valid_parameters (p ∷ ps) = is_non_empty_string p && are_valid_parameters ps
