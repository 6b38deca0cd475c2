-- ===== src/Hub/Errors.antt =====
-- What leaves the functions of libs/libcommon/src/libcommon/dataset.py.
use datasets_server.Prelude.{
  text_eq, nat_eq, option_eq, ◌==◌, Bool, true, false, not, ◌&&◌, ◌||◌, String, some, List, [], ◌∷◌,
  contains, if◌then◌else◌, ltb, ◌≡◌, refl, subst, arith, Bool-cases, inl, inr,
}
use datasets_server.Worker.Failures.{new_error}
use datasets_server.Hub.{
  DatasetInfo, repository_not_found, revision_not_found, request_failed, HubFailure, not_found,
  dataset_error, api, Answer, answer, failed, Asked, got, lost, Reply, Post, reply, no_reply,
  Client, has_id, viewer_allowed, ask_access_hub_request_error, dataset_info_hub_request_error,
  dataset_not_found_error, dataset_revision_not_found_error, disabled_viewer_error,
  gated_disabled_error, gated_extra_fields_error, raise_if_not_supported, access_of, posted,
  ask_access, of_client, with_access, or_ask, handled, if_supported, supported,
  get_dataset_info_for_supported_datasets,
}

-- The codes of the errors that are a `DatasetError`, but for `DatasetNotFoundError`.
abbrev pub other_codes : List String
other_codes =
    "AskAccessHubRequestError" ∷ "DatasetInfoHubRequestError" ∷ "DatasetRevisionNotFoundError"
    ∷ "DisabledViewerError" ∷ "GatedDisabledError" ∷ "GatedExtraFieldsError" ∷ []

-- A documented error, with the status that the API answers.
abbrev pub is_documented : HubFailure → Bool
is_documented (not_found e) = e.code == "DatasetNotFoundError" && e.status_code == 404
is_documented (dataset_error e) =
    contains e.code other_codes && (e.status_code == 404 || e.status_code == 500)
is_documented (api _) = false

-- Also what the client of the Hub raises.
abbrev is_expected : HubFailure → Bool
is_expected (api _) = true
is_expected f = is_documented f

abbrev Expected : {A : Type 0} → Answer A → Type 0
Expected (answer _) = Unit
Expected (failed f) = is_expected f ≡ true

Expected-if :
    {A : Type 0} (b : Bool) (x y : Answer A)
    → Expected x
    → Expected y
    → Expected (if b then x else y)
Expected-if true x y h k = h
Expected-if false x y h k = k

-- An error that leaves `get_dataset_info_for_supported_datasets`.
abbrev Documented : {A : Type 0} → Answer A → Type 0
Documented (answer _) = Unit
Documented (failed f) = is_documented f ≡ true

Documented-if :
    {A : Type 0} (b : Bool) (x y : Answer A)
    → Documented x
    → Documented y
    → Documented (if b then x else y)
Documented-if true x y h k = h
Documented-if false x y h k = k

raise_if_not_supported-Documented : (info : DatasetInfo) → Documented (raise_if_not_supported info)
unfolding raise_if_not_supported dataset_not_found_error disabled_viewer_error new_error
raise_if_not_supported-Documented info =
    Documented-if (not (has_id info.id) || info.private) _ _ refl
      (Documented-if (not (viewer_allowed info.viewer)) _ _ refl tt)

module _ (hub : Client) where
  access_of-Expected : (r : Reply) → Expected (access_of hub r)
  unfolding gated_extra_fields_error gated_disabled_error dataset_not_found_error new_error
  access_of-Expected r =
      Expected-if (not (not (ltb r.status_code 400) && ltb r.status_code 600)) _ _ tt (
        Expected-if (r.status_code == 400) _ _
          (Expected-if (r.x_error_code == some "RepoNotGated") _ _ tt refl)
          (Expected-if (r.status_code == 403) _ _ refl
            (Expected-if (r.status_code == 401 || r.status_code == 404) _ _ refl refl)))

  posted-Expected : (p : Post × hub.Outside) → Expected (posted hub p).0
  unfolding ask_access_hub_request_error new_error
  posted-Expected (reply r, outside) = access_of-Expected r
  posted-Expected (no_reply cause, outside) = refl

  of_client-Expected : (a : Asked DatasetInfo × hub.Outside) → Expected (of_client hub a).0
  of_client-Expected (got info, outside) = tt
  of_client-Expected (lost f, outside) = refl

  with_access-Expected :
      (dataset : String) (a : Answer (Unit {0}) × hub.Outside)
      → Expected a.0
      → Expected (with_access hub dataset a).0
  with_access-Expected dataset (answer _, outside) h = of_client-Expected _
  with_access-Expected dataset (failed f, outside) h = h

  or_ask-Expected :
      (dataset : String) (a : Asked DatasetInfo × hub.Outside) → Expected (or_ask hub dataset a).0
  unfolding ask_access
  or_ask-Expected dataset (lost (repository_not_found cause), outside) =
      with_access-Expected dataset _ (posted-Expected (hub.post_ask_access dataset outside))
  or_ask-Expected dataset (lost (revision_not_found cause), outside) = refl
  or_ask-Expected dataset (lost (request_failed cause), outside) = refl
  or_ask-Expected dataset (got info, outside) = tt

  handled_documented :
      (dataset : String) (f : HubFailure)
      → is_expected f ≡ true
      → is_documented (handled hub dataset f) ≡ true
  unfolding handled dataset_not_found_error dataset_revision_not_found_error
      dataset_info_hub_request_error new_error
  handled_documented dataset (not_found e) h = h
  handled_documented dataset (dataset_error e) h = h
  handled_documented dataset (api (repository_not_found cause)) h = refl
  handled_documented dataset (api (revision_not_found cause)) h = refl
  handled_documented dataset (api (request_failed cause)) h = refl

  if_supported-Documented :
      (info : DatasetInfo) (a : Answer (Unit {0}))
      → Documented a
      → Documented (if_supported hub info a)
  if_supported-Documented info (answer _) h = tt
  if_supported-Documented info (failed f) h = h

  supported-Documented :
      (dataset : String) (a : Answer DatasetInfo × hub.Outside)
      → Expected a.0
      → Documented (supported hub dataset a).0
  supported-Documented dataset (answer info, outside) h =
      if_supported-Documented info _ (raise_if_not_supported-Documented info)
  supported-Documented dataset (failed f, outside) h = handled_documented dataset f h

  Documented-failed :
      {A : Type 0} (a : Answer A) (f : HubFailure)
      → a ≡ failed f
      → Documented a
      → is_documented f ≡ true
  Documented-failed a f e h = subst Documented e h

  -- Every exception of `get_dataset_info_for_supported_datasets` is a `DatasetError`: it is
  -- `DatasetNotFoundError` with status 404, or has another code of these errors, with status 404 or 500.
  -- No exception of the client or of the request to `ask-access` leaves it as it is.
  pub get_dataset_info_errors :
      (dataset : String) (outside : hub.Outside) (f : HubFailure)
      → (get_dataset_info_for_supported_datasets hub dataset outside).0 ≡ failed f
      → is_documented f ≡ true
  unfolding get_dataset_info_for_supported_datasets
  get_dataset_info_errors dataset outside f e =
      Documented-failed _ f e (
        supported-Documented dataset _ (or_ask-Expected dataset (hub.dataset_info dataset outside)))

  abbrev Described : Answer DatasetInfo → Type 0
  Described (answer info) =
      (has_id info.id ≡ true) × (info.private ≡ false) × (viewer_allowed info.viewer ≡ true)
  Described (failed f) = Unit

  if_supported-Described :
      (info : DatasetInfo) → Described (if_supported hub info (raise_if_not_supported info))
  unfolding raise_if_not_supported
  if_supported-Described info = elim (Bool-cases (not (has_id info.id) || info.private)) [
    | inl e ↦ rw (e, raise_if_not_supported, if_supported) tt
    | inr e ↦ elim (Bool-cases (not (viewer_allowed info.viewer))) [
      | inl v ↦ rw (e, v, raise_if_not_supported, if_supported) tt
      | inr v ↦
          rw (e, v, raise_if_not_supported, if_supported)
            (ground (arith, e), ground (arith, e), ground (arith, v))
    ]
  ]

  supported-Described :
      (dataset : String) (a : Answer DatasetInfo × hub.Outside)
      → Described (supported hub dataset a).0
  supported-Described dataset (answer info, outside) = if_supported-Described info
  supported-Described dataset (failed f, outside) = tt

  -- A dataset is described only if it is supported: it has an identifier, is not private, and its card
  -- does not disable the viewer.
  pub get_dataset_info_supported :
      (dataset : String) (outside : hub.Outside) (info : DatasetInfo)
      → (get_dataset_info_for_supported_datasets hub dataset outside).0 ≡ answer info
      → (has_id info.id ≡ true) × (info.private ≡ false) × (viewer_allowed info.viewer ≡ true)
  unfolding get_dataset_info_for_supported_datasets
  get_dataset_info_supported dataset outside info e =
      subst Described e
        (supported-Described dataset (or_ask hub dataset (hub.dataset_info dataset outside)))
