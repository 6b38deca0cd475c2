-- ===== src/Api/Endpoint/Serving.antt =====
-- When the endpoint of services/api/src/api/routes/endpoint.py answers with status 200.
use datasets_server.Prelude.{
  ℕ, nat_eq, text_eq, option_eq, ◌==◌, Bool, true, false, ◌||◌, String, Option, none, some, List,
  map, if◌then◌else◌, ◌≡◌, refl, sym, ◌∙◌, ap, arith, Bool-cases, inl, inr,
}
use datasets_server.Collection.{Collection}
use datasets_server.Job.{Job}
use datasets_server.Json.{Json}
use datasets_server.Cache
use datasets_server.Cache.{CachedResponse, CacheEntryWithDetails}
use datasets_server.Cache.Best.{BestResponse, get_best_response}
use datasets_server.Errors
use datasets_server.Errors.{Exception, Outcome}
use datasets_server.Graph.{InputType, ProcessingStep, DiGraph, ProcessingGraph}
use datasets_server.Backfill.Dataset.{DatasetState}
use datasets_server.Hub.{Client, Answer, answer, failed, get_dataset_git_revision}
use datasets_server.Worker.Failures.{Cause, new_error}
use datasets_server.Api.Responses.{
  Raised, api_error, other, missing_required_parameter_error, response_not_ready_error,
  response_not_found_error, unexpected_error, external_unauthenticated_error,
  external_authenticated_error, auth_check_hub_request_error, get_json_response,
  get_json_ok_response, get_json_error_response, get_json_api_error_response,
}
use datasets_server.Api.Authentication.{
  Access, Checked, authorized, refused, AuthReply, status, no_reply, checked_status, replied,
  requested, asked, has_jwt, auth_check,
}
use datasets_server.Api.Endpoint.{
  Parameters, get_useful_parameters, StepsByInputType, get_input_type_validators_by_priority,
  Validated, validator, missing, get_input_type_validator_by_parameters, Fetched, found, raised,
  Server, not_ready_or_found, backfilled, with_state, with_revision, fetched,
  get_cache_entry_from_steps, error_of, answered, if_authorized, for_dataset, validated,
  processing_step_endpoint,
}

-- An exception that is not answered with status 200.
abbrev Unserved : Raised → Type 0
Unserved (api_error e) = (e.status_code == 200) ≡ false
Unserved (other cause) = Unit

-- `auth_check` refuses with such exceptions.
module _ {Outside : Type 0} (A : Access Outside) where
  abbrev Refusal : Checked → Type 0
  Refusal authorized = Unit
  Refusal (refused e) = Unserved e

  Refusal-if : (b : Bool) (x y : Checked) → Refusal x → Refusal y → Refusal (if b then x else y)
  Refusal-if true x y h k = h
  Refusal-if false x y h k = k

  checked_status-Refusal : (r : AuthReply) → Refusal (checked_status A r)
  unfolding external_unauthenticated_error external_authenticated_error auth_check_hub_request_error
      new_error
  checked_status-Refusal (no_reply cause) = refl
  checked_status-Refusal (status c) =
      Refusal-if (c == 200) _ _ tt
        (Refusal-if (c == 401) _ _ refl (Refusal-if (c == 403 || c == 404) _ _ refl tt))

  replied-Refusal : (r : AuthReply × Outside) → Refusal (replied A r).0
  replied-Refusal (r, outside) = checked_status-Refusal r

  requested-Refusal :
      (url : Option String) (outside : Outside) → Refusal (requested A url outside).0
  requested-Refusal none outside = tt
  requested-Refusal (some url) outside = replied-Refusal (A.get url outside)

  asked-Refusal :
      (name : String) (url : Option String) (outside : Outside)
      → Refusal (asked A name url outside).0
  asked-Refusal name none outside = tt
  asked-Refusal name (some template) outside = requested-Refusal (A.url template name) outside

  auth_check-Refusal :
      (name : String) (api_key : Option String) (outside : Outside)
      → Refusal (auth_check A name api_key outside).0
  unfolding auth_check
  auth_check-Refusal name api_key outside = elim (Bool-cases (has_jwt A name api_key)) [
    | inl e ↦ rw (e, auth_check) tt
    | inr e ↦ rw (e, auth_check) (asked-Refusal name A.external_auth_url outside)
  ]

module _ (hub : Client) (D : DiGraph) (jobs : Collection Job) (cache : Collection CachedResponse)
    (cause_of : Exception → Cause) (cause_of_cache : Cache.CacheError → Cause)
    (graph : ProcessingGraph D) where
  abbrev kinds : List ProcessingStep → List String
  kinds steps = map (λ (step : ProcessingStep). step.cache_kind) steps

  -- The best response is the entry, or an exception is not answered with status 200.
  abbrev Fetch : Cache.Result BestResponse → Fetched → Type 0
  Fetch best (found entry) = (b : BestResponse) × (best ≡ Cache.Result.ok b) × (b.response ≡ entry)
  Fetch best (raised e) = Unserved e

  not_ready_or_found-Unserved :
      (exist : Bool)
      → Unserved (not_ready_or_found hub D jobs cache cause_of cause_of_cache graph exist)
  unfolding response_not_ready_error response_not_found_error new_error
  not_ready_or_found-Unserved true = refl
  not_ready_or_found-Unserved false = refl

  module _ (best : Cache.Result BestResponse) (steps : List ProcessingStep) (name : String)
      (c s : Option String) (times : ℕ → ℕ × ℕ × ℕ) where
    backfilled-Fetch :
        (server : Server hub D jobs cache cause_of cause_of_cache graph) (state : DatasetState)
        (ids : Outcome (List String))
        → Fetch best
            (backfilled hub D jobs cache cause_of cause_of_cache graph times server state ids).0
    backfilled-Fetch server state (Errors.Outcome.raise e) = tt
    backfilled-Fetch server state (Errors.Outcome.return ids) = not_ready_or_found-Unserved _

    with_state-Fetch :
        (server : Server hub D jobs cache cause_of cause_of_cache graph)
        (state : Outcome DatasetState)
        → Fetch best
            (with_state hub D jobs cache cause_of cause_of_cache graph steps name c s times server
              state).0
    with_state-Fetch server (Errors.Outcome.raise e) = tt
    with_state-Fetch server (Errors.Outcome.return state) = backfilled-Fetch server state _

    with_revision-Fetch :
        (server : Server hub D jobs cache cause_of cause_of_cache graph)
        (a : Answer (Option String) × hub.Outside)
        → Fetch best
            (with_revision hub D jobs cache cause_of cause_of_cache graph steps name c s times
              server a).0
    unfolding response_not_found_error new_error
    with_revision-Fetch server (failed e, outside) = refl
    with_revision-Fetch server (answer revision, outside) = with_state-Fetch _ _

  fetched-Fetch :
      (best : Cache.Result BestResponse) (steps : List ProcessingStep) (name : String)
      (c s : Option String) (times : ℕ → ℕ × ℕ × ℕ)
      (server : Server hub D jobs cache cause_of cause_of_cache graph)
      → Fetch best
          (fetched hub D jobs cache cause_of cause_of_cache graph steps name c s times server
            best).0
  fetched-Fetch (Cache.Result.err e) steps name c s times server = tt
  fetched-Fetch (Cache.Result.ok b) steps name c s times server =
      elim (Bool-cases (b.response.error_code == some "CachedResponseNotFound")) [
        | inl e ↦
            rw (e, fetched)
              (with_revision-Fetch (Cache.Result.ok b) steps name c s times server
                (get_dataset_git_revision hub name server.outside))
        | inr e ↦ rw (e, fetched) (b, refl, refl)
      ]

  get_cache_entry_from_steps-Fetch :
      (steps : List ProcessingStep) (name : String) (c s : Option String) (times : ℕ → ℕ × ℕ × ℕ)
      (server : Server hub D jobs cache cause_of cause_of_cache graph)
      → Fetch
          (get_best_response cache (kinds steps) name c s server.dbs.responses)
          (get_cache_entry_from_steps hub D jobs cache cause_of cause_of_cache graph steps name c s
            times server).0
  unfolding get_cache_entry_from_steps
  get_cache_entry_from_steps-Fetch steps name c s times server =
      fetched-Fetch (get_best_response cache (kinds steps) name c s server.dbs.responses) steps name
        c s times server

  module _ (A : Access hub.Outside) (long short : ℕ) where
    error_of-status :
        (e : Raised)
        → Unserved e
        → (error_of hub D jobs cache cause_of cause_of_cache graph A long short e).status_code ≡ 200
        → ⊥
    unfolding get_json_api_error_response get_json_error_response get_json_response unexpected_error
        new_error
    error_of-status (api_error e) u h = ground (arith, u, h)
    error_of-status (other cause) u h = absurd (omega (arith, h))

    -- The content is that of the best response, which has status 200.
    abbrev pub ServedFrom : Cache.Result BestResponse → Json → Type 0
    ServedFrom best content =
        (b : BestResponse) × (best ≡ Cache.Result.ok b)
        × (b.response.http_status ≡ 200)
        × (content ≡ b.response.content)

    answered-ServedFrom :
        (best : Cache.Result BestResponse)
        (t : Fetched × Server hub D jobs cache cause_of cause_of_cache graph)
        → Fetch best t.0
        → (answered hub D jobs cache cause_of cause_of_cache graph A long short t).0.status_code
          ≡ 200
        → ServedFrom best
            (answered hub D jobs cache cause_of cause_of_cache graph A long short t).0.content
    unfolding get_json_ok_response get_json_error_response get_json_response
    answered-ServedFrom best (raised e, server) u h = absurd (error_of-status e u h)
    answered-ServedFrom best (found entry, server) (b, e, same) h =
        elim (Bool-cases (entry.http_status == 200)) [
          | inl k ↦
              rw (k, answered)
                (
                  b,
                  e,
                  ap (λ (x : CacheEntryWithDetails). x.http_status) same ∙ ground (arith, k),
                  ap (λ (x : CacheEntryWithDetails). x.content) (sym same),
                )
          | inr k ↦ let h' = rw (k, answered) at h in absurd (ground (arith, k, h'))
        ]

    abbrev best_for :
        (steps : List ProcessingStep) (name : String) (c s : Option String)
        → Server hub D jobs cache cause_of cause_of_cache graph
        → Cache.Result BestResponse
    best_for steps name c s server =
        get_best_response cache (kinds steps) name c s server.dbs.responses

    if_authorized-ServedFrom :
        (steps : List ProcessingStep) (name : String) (c s : Option String) (times : ℕ → ℕ × ℕ × ℕ)
        (server : Server hub D jobs cache cause_of cause_of_cache graph) (t : Checked × hub.Outside)
        → Refusal A t.0
        → (if_authorized hub D jobs cache cause_of cause_of_cache graph A long short steps name c s
            times server t).0.status_code
          ≡ 200
        → (t.0 ≡ authorized)
          × ServedFrom
              (best_for steps name c s server)
              (if_authorized hub D jobs cache cause_of cause_of_cache graph A long short steps name
                c s times server t).0.content
    if_authorized-ServedFrom steps name c s times server (refused e, outside) r h =
        absurd (error_of-status e r h)
    if_authorized-ServedFrom steps name c s times server (authorized, outside) r h = (
      refl,
      answered-ServedFrom (best_for steps name c s server) _
          (get_cache_entry_from_steps-Fetch steps name c s times
            (record server { outside = outside }))
          h,
    )

    -- An authorized dataset, with the best response for it.
    abbrev pub Allowed :
        (steps : List ProcessingStep)
        → Parameters
        → (api_key : Option String) → Server hub D jobs cache cause_of cause_of_cache graph
        → Json
        → Type 0
    Allowed steps p api_key server content =
        (name : String) × (p.dataset ≡ some name)
        × ((auth_check A name api_key server.outside).0 ≡ authorized)
        × ServedFrom (best_for steps name p.config p.split server) content

    missing_status :
        (message : String)
        → (error_of hub D jobs cache cause_of cause_of_cache graph A long short
            (api_error (missing_required_parameter_error message))).status_code
          ≡ 200
        → ⊥
    unfolding missing_required_parameter_error new_error
    missing_status message h =
        error_of-status (api_error (missing_required_parameter_error message)) refl h

    for_dataset-Allowed :
        (steps : List ProcessingStep) (name c s : Option String) (api_key : Option String)
        (times : ℕ → ℕ × ℕ × ℕ) (server : Server hub D jobs cache cause_of cause_of_cache graph)
        → (for_dataset hub D jobs cache cause_of cause_of_cache graph A long short steps name c s
            api_key times server).0.status_code
          ≡ 200
        → Allowed steps
            (record { dataset = name; config = c; split = s })
            api_key
            server
            (for_dataset hub D jobs cache cause_of cause_of_cache graph A long short steps name c s
              api_key times server).0.content
    for_dataset-Allowed steps none c s api_key times server h = absurd (missing_status _ h)
    for_dataset-Allowed steps (some name) c s api_key times server h =
        elim (Bool-cases (name == "")) [
          | inl e ↦ let h' = rw (e, for_dataset) at h in absurd (missing_status _ h')
          | inr e ↦
              let h' = rw (e, for_dataset) at h in
              let (allowed, served) =
                if_authorized-ServedFrom steps name c s times server _
                  (auth_check-Refusal A name api_key server.outside) h' in
              rw (e, for_dataset) (name, refl, allowed, served)
        ]

    validated-Allowed :
        (p : Parameters) (api_key : Option String) (times : ℕ → ℕ × ℕ × ℕ)
        (server : Server hub D jobs cache cause_of cause_of_cache graph) (v : Validated)
        → (validated hub D jobs cache cause_of cause_of_cache graph A long short p api_key times
            server v).0.status_code
          ≡ 200
        → (t : InputType) × (st : List ProcessingStep) × (v ≡ validator t st)
          × Allowed st
              (get_useful_parameters t p)
              api_key
              server
              (validated hub D jobs cache cause_of cause_of_cache graph A long short p api_key times
                server v).0.content
    validated-Allowed p api_key times server (missing message) h = absurd (missing_status message h)
    validated-Allowed p api_key times server (validator t st) h =
        let q = get_useful_parameters t p in
        (t, st, refl, for_dataset-Allowed st q.dataset q.config q.split api_key times server h)

    -- Where the endpoint answers with status 200, the parameters select an input type with its steps,
    -- `auth_check` allows the dataset, and the content is that of the best response that the cache has for
    -- the steps and the parameters of this input type, a response with status 200.
    pub processing_step_endpoint_ok :
        (steps : StepsByInputType) (p : Parameters) (api_key : Option String)
        (times : ℕ → ℕ × ℕ × ℕ) (server : Server hub D jobs cache cause_of cause_of_cache graph)
        → (processing_step_endpoint hub D jobs cache cause_of cause_of_cache graph A long short
            steps p api_key times server).0.status_code
          ≡ 200
        → (t : InputType) × (st : List ProcessingStep) × (get_input_type_validator_by_parameters
              "No processing steps supported for parameters"
              (get_input_type_validators_by_priority steps)
              p
            ≡ validator t st)
          × Allowed st
              (get_useful_parameters t p)
              api_key
              server
              (processing_step_endpoint hub D jobs cache cause_of cause_of_cache graph A long short
                steps p api_key times server).0.content
    unfolding processing_step_endpoint
    processing_step_endpoint_ok steps p api_key times server h =
        validated-Allowed p api_key times server
          (get_input_type_validator_by_parameters "No processing steps supported for parameters"
            (get_input_type_validators_by_priority steps) p)
          h
