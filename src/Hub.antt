-- ===== src/Hub.antt =====
-- libs/libcommon/src/libcommon/dataset.py: the access to the datasets of the Hub. The client of the Hub
-- and the requests are arguments that act on a world of their own.
pub mod Errors
pub mod Update
mod Samples
use Prim.Native.String.{◌++◌ as ◌<>◌}
use datasets_server.Prelude.{
  ℕ, text_eq, nat_eq, option_eq, ◌==◌, Bool, true, false, not, ◌&&◌, ◌||◌, String, Option, none,
  some, List, filter, if◌then◌else◌, ltb,
}
use datasets_server.Worker.Failures.{CustomError, Failure, Cause, new_error}
use datasets_server.Worker.Failures
use datasets_server.Worker.Manager.{Try, returned, raised, World}
use datasets_server.Json.{Json}

-- The fields of `DatasetInfo` that are read; `viewer` is the truth value of the field of the card.
pub record DatasetInfo : Type 0 where
  pub id : Option String
  pub sha : Option String
  pub private : Bool
  pub viewer : Option Bool

-- `RepositoryNotFoundError`, `RevisionNotFoundError`, and any other exception.
pub data ApiFailure : Type 0 where
  repository_not_found revision_not_found request_failed : Cause → ApiFailure

-- `DatasetNotFoundError`, another `DatasetError`, and what the client of the Hub raises.
pub data HubFailure : Type 0 where
  not_found dataset_error : CustomError → HubFailure
  api : ApiFailure → HubFailure

pub data Answer (A : Type 0) : Type 0 where
  answer : A → Answer A
  failed : HubFailure → Answer A

pub data Asked (A : Type 0) : Type 0 where
  got : A → Asked A
  lost : ApiFailure → Asked A

-- The answer to a request, with the header `X-Error-Code`.
pub record Reply : Type 0 where
  pub status_code : ℕ
  pub x_error_code : Option String

pub data Post : Type 0 where
  reply : Reply → Post
  no_reply : Cause → Post

pub record Client : Type 1 where
  pub Outside : Type 0
  -- `requests.post(f"{hf_endpoint}/datasets/{dataset}/ask-access", ...)`
  pub post_ask_access : (dataset : String) → Outside → Post × Outside
  -- The exception that `raise_for_status` raises.
  pub http_error : Reply → Cause
  -- `HfApi(...).dataset_info(repo_id=dataset, ...)`
  pub dataset_info : (dataset : String) → Outside → Asked DatasetInfo × Outside
  -- `HfApi(...).list_datasets()`
  pub list_datasets : Outside → Asked (List DatasetInfo) × Outside

unfoldable pub ask_access_hub_request_error : Cause → CustomError
unfolding new_error
ask_access_hub_request_error cause =
    new_error
      "Request to the Hub to get access to the dataset failed or timed out. Please try again later, it's a temporary internal issue."
      500 "AskAccessHubRequestError" (some cause) (some false)

unfoldable pub dataset_info_hub_request_error : Cause → CustomError
unfolding new_error
dataset_info_hub_request_error cause =
    new_error
      "Request to the Hub to get the dataset info failed or timed out. Please try again later, it's a temporary internal issue."
      500 "DatasetInfoHubRequestError" (some cause) (some false)

unfoldable pub dataset_not_found_error : Option Cause → CustomError
unfolding new_error
dataset_not_found_error cause =
    new_error
      "The dataset does not exist on the Hub, or is private. Private datasets are not yet supported."
      404 "DatasetNotFoundError" cause (some false)

unfoldable pub dataset_revision_not_found_error : (dataset : String) → Cause → CustomError
unfolding new_error
dataset_revision_not_found_error dataset cause =
    new_error ("The default branch cannot be found in dataset " <> (dataset <> " on the Hub.")) 404
      "DatasetRevisionNotFoundError" (some cause) (some true)

unfoldable pub disabled_viewer_error : CustomError
unfolding new_error
disabled_viewer_error =
    new_error "The dataset viewer has been disabled on this dataset." 404 "DisabledViewerError" none
      (some false)

unfoldable pub gated_disabled_error : Cause → CustomError
unfolding new_error
gated_disabled_error cause =
    new_error "The dataset is gated and access is disabled." 404 "GatedDisabledError" (some cause)
      (some false)

unfoldable pub gated_extra_fields_error : Cause → CustomError
unfolding new_error
gated_extra_fields_error cause =
    new_error "The dataset is gated with extra fields: not supported at the moment." 404
      "GatedExtraFieldsError" (some cause) (some false)

-- `not dataset_info.id`
abbrev pub has_id : Option String → Bool
has_id none = false
has_id (some id) = not (id == "")

-- `cardData.get("viewer", True)`, also where there is no card
abbrev pub viewer_allowed : Option Bool → Bool
viewer_allowed none = true
viewer_allowed (some allowed) = allowed

unfoldable pub raise_if_not_supported : DatasetInfo → Answer (Unit {0})
unfolding dataset_not_found_error disabled_viewer_error
raise_if_not_supported info =
    if not (has_id info.id) || info.private
    then failed (not_found (dataset_not_found_error none))
    else if not (viewer_allowed info.viewer)
    then failed (dataset_error disabled_viewer_error)
    else answer tt

-- Both exceptions of `raise_if_not_supported` are a `DatasetError`.
unfoldable pub is_supported : DatasetInfo → Bool
unfolding raise_if_not_supported
is_supported info = elim (raise_if_not_supported info) [ answer _ ↦ true | failed _ ↦ false ]

module _ (hub : Client) where
  open hub use {Outside}

  -- `raise_for_status` raises for a status from 400 to 599.
  abbrev pub access_of : Reply → Answer (Unit {0})
  access_of r =
      if not (not (ltb r.status_code 400) && ltb r.status_code 600)
      then answer tt
      else if r.status_code == 400
      then (if r.x_error_code == some "RepoNotGated"
          then answer tt
          else failed (dataset_error (gated_extra_fields_error (hub.http_error r))))
      else if r.status_code == 403
      then failed (dataset_error (gated_disabled_error (hub.http_error r)))
      else if r.status_code == 401 || r.status_code == 404
      then failed (not_found (dataset_not_found_error (some (hub.http_error r))))
      else failed (api (request_failed (hub.http_error r)))

  abbrev pub posted : Post × Outside → Answer (Unit {0}) × Outside
  posted (reply r, outside) = (access_of r, outside)
  posted (no_reply cause, outside) =
      (failed (dataset_error (ask_access_hub_request_error cause)), outside)

  unfoldable pub ask_access : (dataset : String) → Outside → Answer (Unit {0}) × Outside
  ask_access dataset outside = posted (hub.post_ask_access dataset outside)

  abbrev pub of_client : Asked DatasetInfo × Outside → Answer DatasetInfo × Outside
  of_client (got info, outside) = (answer info, outside)
  of_client (lost f, outside) = (failed (api f), outside)

  -- The second request, behind `ask_access`.
  abbrev pub with_access :
      (dataset : String) → Answer (Unit {0}) × Outside → Answer DatasetInfo × Outside
  with_access dataset (answer _, outside) = of_client (hub.dataset_info dataset outside)
  with_access dataset (failed f, outside) = (failed f, outside)

  -- The inner `try`.
  abbrev pub or_ask :
      (dataset : String) → Asked DatasetInfo × Outside → Answer DatasetInfo × Outside
  or_ask dataset (lost (repository_not_found cause), outside) =
      with_access dataset (ask_access dataset outside)
  or_ask dataset (lost (revision_not_found cause), outside) =
      (failed (api (revision_not_found cause)), outside)
  or_ask dataset (lost (request_failed cause), outside) =
      (failed (api (request_failed cause)), outside)
  or_ask dataset (got info, outside) = (answer info, outside)

  -- The `except` clauses of the outer `try`.
  unfoldable pub handled : (dataset : String) → HubFailure → HubFailure
  unfolding dataset_not_found_error dataset_revision_not_found_error dataset_info_hub_request_error
  handled dataset (not_found e) = not_found e
  handled dataset (dataset_error e) = dataset_error e
  handled dataset (api (repository_not_found cause)) =
      not_found (dataset_not_found_error (some cause))
  handled dataset (api (revision_not_found cause)) =
      dataset_error (dataset_revision_not_found_error dataset cause)
  handled dataset (api (request_failed cause)) =
      dataset_error (dataset_info_hub_request_error cause)

  abbrev pub if_supported : DatasetInfo → Answer (Unit {0}) → Answer DatasetInfo
  if_supported info (answer _) = answer info
  if_supported info (failed f) = failed f

  abbrev pub supported :
      (dataset : String) → Answer DatasetInfo × Outside → Answer DatasetInfo × Outside
  supported dataset (answer info, outside) =
      (if_supported info (raise_if_not_supported info), outside)
  supported dataset (failed f, outside) = (failed (handled dataset f), outside)

  unfoldable pub get_dataset_info_for_supported_datasets :
      (dataset : String) → Outside → Answer DatasetInfo × Outside
  unfolding ask_access handled
  get_dataset_info_for_supported_datasets dataset outside =
      supported dataset (or_ask dataset (hub.dataset_info dataset outside))

  abbrev pub sha_of : Answer DatasetInfo × Outside → Answer (Option String) × Outside
  sha_of (answer info, outside) = (answer info.sha, outside)
  sha_of (failed f, outside) = (failed f, outside)

  unfoldable pub get_dataset_git_revision :
      (dataset : String) → Outside → Answer (Option String) × Outside
  unfolding get_dataset_info_for_supported_datasets
  get_dataset_git_revision dataset outside =
      sha_of (get_dataset_info_for_supported_datasets dataset outside)

  abbrev pub supported_of : Asked (List DatasetInfo) × Outside → Answer (List DatasetInfo) × Outside
  supported_of (got infos, outside) = (answer (filter is_supported infos), outside)
  supported_of (lost f, outside) = (failed (api f), outside)

  unfoldable pub get_supported_dataset_infos : Outside → Answer (List DatasetInfo) × Outside
  unfolding is_supported
  get_supported_dataset_infos outside = supported_of (hub.list_datasets outside)

  -- What a job manager sees of the Hub.
  abbrev pub cause_of : ApiFailure → Cause
  cause_of (repository_not_found cause) = cause
  cause_of (revision_not_found cause) = cause
  cause_of (request_failed cause) = cause

  abbrev pub as_exception : HubFailure → Failure
  as_exception (not_found e) = Failures.Failure.dataset_not_found e
  as_exception (dataset_error e) = Failures.Failure.custom e
  as_exception (api f) = Failures.Failure.other (cause_of f)

  abbrev pub as_try : Answer (Option String) × Outside → Try (Option String) × Outside
  as_try (answer revision, outside) = (returned revision, outside)
  as_try (failed f, outside) = (raised (as_exception f), outside)

  unfoldable pub world_of : (json_size : Json → ℕ) → World
  unfolding get_dataset_git_revision
  world_of json_size = record {
    Outside = Outside;
    git_revision = λ dataset outside. as_try (get_dataset_git_revision dataset outside);
    json_size = json_size;
  }
