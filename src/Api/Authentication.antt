-- ===== src/Api/Authentication.antt =====
-- `auth_check` of services/api/src/api/authentication.py. The check of a JWT and the request to the
-- authentication service are arguments.
use datasets_server.Prelude.{
  ℕ, nat_eq, text_eq, ◌==◌, Bool, false, not, ◌&&◌, ◌||◌, String, Option, none, some, if◌then◌else◌,
}
use datasets_server.Worker.Failures.{Cause}
use datasets_server.Api.Responses.{
  Raised, api_error, other, external_unauthenticated_error, external_authenticated_error,
  auth_check_hub_request_error,
}

pub data Checked : Type 0 where
  authorized : Checked
  refused : Raised → Checked

-- The answer of the authentication service, or the exception of the request.
pub data AuthReply : Type 0 where
  status : ℕ → AuthReply
  no_reply : Cause → AuthReply

-- What `auth_check` is given: `url` is `external_auth_url % dataset`, where `none` is a `TypeError`.
pub record Access (Outside : Type 0) : Type 0 where
  pub is_jwt_valid : (dataset token : String) → Bool
  pub external_auth_url : Option String
  pub url : (template dataset : String) → Option String
  pub get : (url : String) → Outside → AuthReply × Outside
  -- `ValueError("external_auth_url must contain %s")`
  pub wrong_url : Cause
  -- `ValueError(f"Unexpected status code {response.status_code}")`
  pub unexpected_status : ℕ → Cause

-- The texts of the two errors.
abbrev unauthenticated_message : String
unauthenticated_message =
    "The dataset does not exist, or is not accessible without authentication (private or gated). Please check the spelling of the dataset name or retry with authentication."

abbrev authenticated_message : String
authenticated_message =
    "The dataset does not exist, or is not accessible with the current credentials (private or gated). Please check the spelling of the dataset name or retry with other authentication credentials."

abbrev request_message : String
request_message =
    "Authentication check on the Hugging Face Hub failed or timed out. Please try again later, it's a temporary internal issue."

module _ {Outside : Type 0} (A : Access Outside) where
  abbrev pub checked_status : AuthReply → Checked
  checked_status (no_reply cause) =
      refused (api_error (auth_check_hub_request_error request_message cause))
  checked_status (status code) =
      if code == 200
      then authorized
      else if code == 401
      then refused (api_error (external_unauthenticated_error unauthenticated_message))
      else if code == 403 || code == 404
      then refused (api_error (external_authenticated_error authenticated_message))
      else refused (other (A.unexpected_status code))

  abbrev pub replied : AuthReply × Outside → Checked × Outside
  replied (reply, outside) = (checked_status reply, outside)

  abbrev pub requested : Option String → Outside → Checked × Outside
  requested none outside = (refused (other A.wrong_url), outside)
  requested (some url) outside = replied (A.get url outside)

  abbrev pub asked :
      (dataset : String) → (external_auth_url : Option String) → Outside → Checked × Outside
  asked dataset none outside = (authorized, outside)
  asked dataset (some template) outside = requested (A.url template dataset) outside

  -- `if token := request.headers.get(HEADER)`: an empty header counts as none.
  abbrev pub has_jwt : (dataset : String) → (api_key : Option String) → Bool
  has_jwt dataset none = false
  has_jwt dataset (some token) = not (token == "") && A.is_jwt_valid dataset token

  unfoldable pub auth_check :
      (dataset : String) → (api_key : Option String) → Outside → Checked × Outside
  unfolding external_unauthenticated_error external_authenticated_error auth_check_hub_request_error
  auth_check dataset api_key outside =
      if has_jwt dataset api_key
      then (authorized, outside)
      else asked dataset A.external_auth_url outside
