-- ===== src/Hub/Samples.antt =====
-- Witnesses for the theorems about libs/libcommon/src/libcommon/dataset.py: a Hub where the request to
-- `ask-access` ends with status 418, and one that has every dataset.
use datasets_server.Prelude.{true, false, none, some, [], ◌≡◌, refl}
use datasets_server.Json.{nil}
use datasets_server.Worker.Failures.{Cause}
use datasets_server.Hub.{
  DatasetInfo, repository_not_found, dataset_error, answer, failed, got, lost, reply, Client,
  dataset_info_hub_request_error, handled, ask_access, raise_if_not_supported,
  get_dataset_info_for_supported_datasets,
}
use datasets_server.Hub.Errors.{is_documented, get_dataset_info_errors}

abbrev cause : Cause
cause = record { exception = "HTTPError"; message = "I'm a teapot"; traceback = nil }

abbrev teapot : Client
teapot = record {
  Outside = Unit {0};
  post_ask_access = λ _ _. (reply (record { status_code = 418; x_error_code = none }), tt);
  http_error = λ _. cause;
  dataset_info = λ _ _. (lost (repository_not_found cause), tt);
  list_datasets = λ _. (got [], tt);
}

abbrev public : DatasetInfo
public = record { id = some "d"; sha = some "main"; private = false; viewer = none }

abbrev open_hub : Client
open_hub = record teapot { dataset_info = λ _ _. (got public, tt) }

wrapped :
    (get_dataset_info_for_supported_datasets teapot "d" tt).0
    ≡ failed (dataset_error (dataset_info_hub_request_error cause))
unfolding get_dataset_info_for_supported_datasets ask_access handled
wrapped = refl

get_dataset_info_errors_example :
    is_documented (dataset_error (dataset_info_hub_request_error cause)) ≡ true
get_dataset_info_errors_example =
    get_dataset_info_errors teapot "d" tt (dataset_error (dataset_info_hub_request_error cause))
      wrapped

described : (get_dataset_info_for_supported_datasets open_hub "d" tt).0 ≡ answer public
unfolding get_dataset_info_for_supported_datasets raise_if_not_supported
described = refl
