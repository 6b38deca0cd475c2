-- ===== src/Worker/Aggregation/Raises.antt =====
-- The errors of the job runners of services/worker/src/worker/job_runners that read the cached
-- responses of the configs.
use datasets_server.Prelude.{
  ◌≤◌, nat_eq, ◌==◌, Bool, true, false, String, Option, none, List, [], ◌∷◌, length, if◌then◌else◌,
  ◌≡◌, refl, subst, ap, arith, ◌⊎◌, inl, inr,
}
use datasets_server.Collection.{Collection}
use datasets_server.Json.{Json, Fields, object}
use datasets_server.Cache.{
  CachedResponse, CacheEntryWithDetails, ok, err, does_not_exist, get_one, has_key,
  get_response_with_details, get_response_or_missing_error, with_details_of, missing_error,
}
use datasets_server.Cache.Best.{BestResponse, get_best_response, candidates, chosen_lem}
use datasets_server.Cache.Writes.{UniqueIndex}
use datasets_server.Collection.Facts.{length-find}
use datasets_server.Worker.Failures.{Cause}
use datasets_server.Worker.Aggregation.{
  Answer, answer, raised, Fault, Raised, previous_step, format_error, Progressing, Ratio, ◌>>=◌,
  caught, aggregated, get_previous_step_or_raise, previous_step_format_error,
}

get_one-Cases :
    (found : List CachedResponse)
    → length found ≤ 1
    → ((r : CachedResponse) × (get_one found ≡ ok r)) ⊎ (get_one found ≡ err does_not_exist)
get_one-Cases [] h = inr refl
get_one-Cases (r ∷ []) h = inl (r, refl)
get_one-Cases (r ∷ s ∷ found) h = absurd (omega (arith, h))

module _ (C : Collection CachedResponse) (kind dataset : String) (config split : Option String)
    (db : C.Db) (unique : UniqueIndex C db) where
  -- Under the index `get_response_or_missing_error` raises nothing.
  pub get_response_or_missing_error-ok :
      (e : CacheEntryWithDetails) × (get_response_or_missing_error C kind dataset config split db
        ≡ ok e)
  unfolding get_response_or_missing_error get_response_with_details
  get_response_or_missing_error-ok =
      elim (get_one-Cases (C.find (has_key kind dataset config split) db) (
        rw (length-find C (has_key kind dataset config split) db)
          (unique kind dataset config split))) [
            | inl (r, e) ↦ (with_details_of r, rw (e, get_response_or_missing_error) refl)
            | inr e ↦ (
              missing_error kind dataset config split,
              rw (e, get_response_or_missing_error) refl,
            )
          ]

  -- Nor does `get_best_response` of one kind.
  pub get_best_response-ok :
      (best : BestResponse) × (get_best_response C (kind ∷ []) dataset config split db ≡ ok best)
  unfolding get_best_response candidates
  get_best_response-ok =
      let (e, h) = get_response_or_missing_error-ok in
      let (best, c, _) = chosen_lem (record { kind = kind; response = e }) [] in
      (best, rw (h, get_best_response, c) refl)

-- The documented errors: the response that the previous step failed with, or `PreviousStepFormatError`.
pub data Documented (C : Collection CachedResponse) (dataset : String) (db : C.Db)
    : Raised → Type 0 where
  failed_step :
      (best : BestResponse)
      → get_best_response C ("/config-names" ∷ []) dataset none none db ≡ ok best
      → (best.response.http_status == 200) ≡ false
      → Documented C dataset db (previous_step best)
  wrong_format :
      (message : String) (cause : Option Cause)
      → Documented C dataset db (format_error (previous_step_format_error message cause))

module _ (C : Collection CachedResponse) (query_value : Json → Answer Fault (Option String))
    (cause_of : Fault → Cause) {A B : Type 0} (kind dataset : String)
    (read : (config : Option String) → (content : Json) → Answer Fault A)
    (finish : Progressing A → Answer Fault B) (db : C.Db) where
  raised_injective :
      {E A : Type 0} (a b : E) → (let x : Answer E A = raised a in x) ≡ raised b → a ≡ b
  raised_injective a b h = ap (error_or a) h
    where
      error_or : {E A : Type 0} → E → Answer E A → E
      error_or d (answer _) = d
      error_or d (raised e) = e

  Documented-caught :
      {D : Type 0} (m : Answer Fault D) (e : Raised)
      → caught cause_of m ≡ raised e
      → Documented C dataset db e
  unfolding caught
  Documented-caught (answer d) e h = ground (arith, h)
  Documented-caught (raised f) e h =
      subst (Documented C dataset db) (raised_injective _ e h) (wrong_format _ _)

  Documented-named :
      {D : Type 0} (m : Answer Fault D) (named : Bool) (message : String) (e : Raised)
      → (if named
          then caught cause_of m
          else raised (format_error (previous_step_format_error message none)))
        ≡ raised e
      → Documented C dataset db e
  Documented-named m true message e h = Documented-caught m e h
  Documented-named m false message e h =
      subst (Documented C dataset db) (raised_injective _ e h) (wrong_format message none)

  Documented-status :
      (best : BestResponse)
      → get_best_response C ("/config-names" ∷ []) dataset none none db ≡ ok best
      → (rest : BestResponse → Answer Raised (B × Ratio))
      → ((e : Raised) → rest best ≡ raised e → Documented C dataset db e)
      → (status : Bool) → (best.response.http_status == 200) ≡ status
      → (e : Raised)
      → ((if status then answer best else raised (previous_step best)) >>= rest) ≡ raised e
      → Documented C dataset db e
  Documented-status best found rest k true s e h = k e h
  Documented-status best found rest k false s e h =
      subst (Documented C dataset db) (raised_injective _ e h) (failed_step best found s)

  -- If the index on the key is unique, and the content of what `get_best_response` returns for
  -- `/config-names` is a dictionary, every exception that leaves `aggregated` is documented:
  -- `PreviousStepError` of a response with another status than 200, or `PreviousStepFormatError`.
  pub aggregated_errors :
      UniqueIndex C db
      → ((best : BestResponse)
          → get_best_response C ("/config-names" ∷ []) dataset none none db ≡ ok best
          → (fields : Fields) × (best.response.content ≡ object fields))
      → (e : Raised) → aggregated C query_value cause_of kind dataset read finish db ≡ raised e
      → Documented C dataset db e
  unfolding aggregated get_previous_step_or_raise
  aggregated_errors unique dictionaries e h =
      let (best, found) = get_best_response-ok C "/config-names" dataset none none db unique in
      let (fields, content) = dictionaries best found in
      let h' = rw (found, aggregated, get_previous_step_or_raise) at h in
      Documented-status best found _
        (λ e' h'. let h'' = rw content at h' in Documented-named _ _ _ e' h'')
        (best.response.http_status == 200) refl e h'
