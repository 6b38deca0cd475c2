-- ===== src/Backfill/Dataset/Visited.antt =====
-- What the loops of `_get_queue_status` and `_get_cache_status` of libs/libcommon/src/libcommon/state.py
-- keep of the artifact states that they visit.
use datasets_server.Prelude.{
  ℕ, text_eq, ◌==◌, Bool, true, false, ◌&&◌, ◌||◌, String, Option, none, List, [], ◌∷◌, ◌++◌,
  occurrences, any, any-append, any-eq-count, count-map, ltb, Bool-cases, if◌then◌else◌, ◌≡◌, refl,
  sym, subst, ap, ◌∙◌, eq_iff, inl, inr, arith,
}
use datasets_server.Collection.{Collection}
use datasets_server.Job.{Job}
use datasets_server.Cache.{CachedResponse}
use datasets_server.Errors.{
  Outcome, return, returned, return_injective, ◌>>=◌, Dict, put, keys, values,
}
use datasets_server.Graph.{ProcessingStep, DiGraph, ProcessingGraph}
use datasets_server.Graph.Build.Access.{get_parents}
use datasets_server.State.{
  ArtifactState, is_empty, is_error_to_retry, is_job_runner_obsolete,
  is_git_revision_different_from,
}
use datasets_server.Backfill.{CacheStatus, classify, to_refresh}
use datasets_server.Backfill.Planning.{OwnIds, OwnIds-cons, ids_of}
use datasets_server.Backfill.Dataset.{
  Artifacts, get_artifact_states_for_step, any_parent_newer, add_in_process, queue_status_of,
  classify_states, cache_status_of,
}

-- The artifact states of the steps.
pub visited : Artifacts → List ProcessingStep → Outcome (List ArtifactState)
visited artifacts [] = return []
visited artifacts (step ∷ steps) =
    get_artifact_states_for_step artifacts step none none >>= λ states.
    visited artifacts steps >>= λ more. return (states ++ more)

abbrev pub waits_for : String → ArtifactState → Bool
waits_for id s = s.id == id && s.job_state.is_in_process

-- A number that is made positive.
abbrev made_positive : ℕ → ℕ
made_positive n = if ltb 0 n then n else 1

occurrences-put :
    (id : String) (k : String) (s : ArtifactState) (d : Dict ArtifactState)
    → occurrences id (keys (put k s d))
      ≡ (if k == id then made_positive (occurrences id (keys d)) else occurrences id (keys d))
occurrences-put id k s [] = ground arith
occurrences-put id k s ((j, w) ∷ d) = elim (Bool-cases (j == k)) [
  | inl same ↦ let e = ap (λ x. x == id) ((eq_iff j k).0 same) in rw same (ground (arith, e))
  | inr other ↦ rw other (
      ground (
        arith,
        occurrences-put id k s d,
        text_eq.beq_iff j id,
        text_eq.beq_iff k id,
        text_eq.beq_iff j k,
      ))
]

occurrences-put_if :
    (id : String) (b : Bool) (s : ArtifactState) (d : Dict ArtifactState)
    → occurrences id (keys (if b then put s.id s d else d)) ≡ (
        if s.id == id && b
        then made_positive (occurrences id (keys d))
        else occurrences id (keys d))
occurrences-put_if id true s d = occurrences-put id s.id s d ∙ ground arith
occurrences-put_if id false s d = ground arith

occurrences-add_in_process :
    (id : String) (states : List ArtifactState) (d : Dict ArtifactState)
    → occurrences id (keys (add_in_process states d)) ≡ (
        if any (waits_for id) states
        then made_positive (occurrences id (keys d))
        else occurrences id (keys d))
occurrences-add_in_process id [] d = refl
occurrences-add_in_process id (s ∷ states) d =
    occurrences-add_in_process id states (if s.job_state.is_in_process then put s.id s d else d)
    ∙ ground (arith, occurrences-put_if id s.job_state.is_in_process s d)

pub occurrences-queue_status_of :
    (id : String) (artifacts : Artifacts) (steps : List ProcessingStep)
    (d result : Dict ArtifactState)
    → queue_status_of artifacts steps d ≡ return result
    → (states : List ArtifactState) × (visited artifacts steps ≡ return states)
      × (occurrences id (keys result) ≡ (
          if any (waits_for id) states
          then made_positive (occurrences id (keys d))
          else occurrences id (keys d)))
unfolding queue_status_of visited
occurrences-queue_status_of id artifacts [] d result h =
    ([], refl, ap (λ x. occurrences id (keys x)) (sym (return_injective d result h)))
occurrences-queue_status_of id artifacts (step ∷ steps) d result h =
    let (states, found, rest) =
      returned (get_artifact_states_for_step artifacts step none none) _ h in
    let (more, visits, e) =
      occurrences-queue_status_of id artifacts steps (add_in_process states d) result rest in
    (
      states ++ more,
      rw (found, visits) refl,
      e
          ∙ ground (
            arith,
            occurrences-add_in_process id states d,
            any-append (waits_for id) states more,
          ),
    )

-- A state is stale where a parent is more recent, or its cached response is missing, an error to retry,
-- of an older job runner, or of another revision.
abbrev pub is_stale : (revision : Option String) → (newer : Bool) → ArtifactState → Bool
is_stale revision newer s =
    newer
    || (is_empty s.cache_state
        || (is_error_to_retry s.cache_state
            || (is_job_runner_obsolete s || is_git_revision_different_from s.cache_state revision)))

-- The states of the steps, each with the answer whether a parent is more recent.
abbrev Reviewed : Type 0
Reviewed = Bool × ArtifactState

abbrev pub stale_for : String → Option String → Bool × ArtifactState → Bool
stale_for id revision (newer, s) = s.id == id && is_stale revision newer s

abbrev named : String → List ArtifactState → Bool
named id states = any (λ (s : ArtifactState). s.id == id) states

values-put :
    (id : String) (s : ArtifactState) (d : Dict ArtifactState)
    → OwnIds d
    → named id (values (put s.id s d)) ≡ (s.id == id || named id (values d))
values-put id s [] own = refl
values-put id s ((j, w) ∷ d) own =
    let (same, own_rest) = OwnIds-cons j w d own in
    elim (Bool-cases (j == s.id)) [
      | inl here ↦
          let e : (w.id == id) ≡ (s.id == id) = ap (λ x. x == id) (same ∙ (eq_iff j s.id).0 here) in
          rw here (ground (arith, e))
      | inr there ↦ rw there (ground (arith, values-put id s d own_rest))
    ]

entry-OwnIds :
    (j : String) (w : ArtifactState) (d : Dict ArtifactState)
    → w.id ≡ j
    → OwnIds d
    → OwnIds ((j, w) ∷ d)
entry-OwnIds j w d same own =
    let named : (w.id == j) ≡ true = (eq_iff w.id j).1 same in rw (named, own) refl

pub put-OwnIds :
    (state : ArtifactState) (d : Dict ArtifactState) → OwnIds d → OwnIds (put state.id state d)
put-OwnIds state [] own = rw ((eq_iff state.id state.id).1 refl) refl
put-OwnIds state ((j, w) ∷ d) own =
    let (same, own_rest) = OwnIds-cons j w d own in
    elim (Bool-cases (j == state.id)) [
      | inl here ↦ rw (here) (entry-OwnIds j state d (sym ((eq_iff j state.id).0 here)) own_rest)
      | inr there ↦
          rw (there) (entry-OwnIds j w (put state.id state d) same (put-OwnIds state d own_rest))
    ]

-- The five dictionaries that a plan goes through.
pub record Owned (status : CacheStatus) : Type 0 where
  pub outdated : OwnIds status.cache_is_outdated_by_parent
  pub empty : OwnIds status.cache_is_empty
  pub retried : OwnIds status.cache_is_error_to_retry
  pub obsolete : OwnIds status.cache_is_job_runner_obsolete
  pub revised : OwnIds status.cache_has_different_git_revision

-- The identifier is one of those to refresh.
abbrev seen : String → CacheStatus → Bool
seen id status =
    named id (values status.cache_is_empty)
    || (named id (values status.cache_is_error_to_retry)
        || (named id (values status.cache_is_outdated_by_parent)
            || (named id (values status.cache_is_job_runner_obsolete)
                || named id (values status.cache_has_different_git_revision))))

-- The body of `classify` by its five tests.
abbrev classified :
    (outdated empty retried obsolete revised : Bool) → ArtifactState → CacheStatus → CacheStatus
classified outdated empty retried obsolete revised s status =
    if outdated
    then record status {
      cache_is_outdated_by_parent = put s.id s status.cache_is_outdated_by_parent;
    }
    else if empty
    then record status { cache_is_empty = put s.id s status.cache_is_empty }
    else if retried
    then record status { cache_is_error_to_retry = put s.id s status.cache_is_error_to_retry }
    else if obsolete
    then record status {
      cache_is_job_runner_obsolete = put s.id s status.cache_is_job_runner_obsolete;
    }
    else if revised
    then record status {
      cache_has_different_git_revision = put s.id s status.cache_has_different_git_revision;
    }
    else record status { up_to_date = put s.id s status.up_to_date }

abbrev Seen : String → Bool → ArtifactState → (status status' : CacheStatus) → Type 0
Seen id stale s status status' =
    Owned status' × (seen id status' ≡ ((s.id == id && stale) || seen id status))

classified-Seen :
    (id : String) (a b c d e : Bool) (s : ArtifactState) (status : CacheStatus)
    → Owned status
    → Seen id (a || (b || (c || (d || e)))) s status (classified a b c d e s status)
classified-Seen id true b c d e s status own = (
  record {
    outdated = put-OwnIds s status.cache_is_outdated_by_parent own.outdated;
    empty = own.empty;
    retried = own.retried;
    obsolete = own.obsolete;
    revised = own.revised;
  },
  ground (arith, values-put id s status.cache_is_outdated_by_parent own.outdated),
)
classified-Seen id false true c d e s status own = (
  record {
    outdated = own.outdated;
    empty = put-OwnIds s status.cache_is_empty own.empty;
    retried = own.retried;
    obsolete = own.obsolete;
    revised = own.revised;
  },
  ground (arith, values-put id s status.cache_is_empty own.empty),
)
classified-Seen id false false true d e s status own = (
  record {
    outdated = own.outdated;
    empty = own.empty;
    retried = put-OwnIds s status.cache_is_error_to_retry own.retried;
    obsolete = own.obsolete;
    revised = own.revised;
  },
  ground (arith, values-put id s status.cache_is_error_to_retry own.retried),
)
classified-Seen id false false false true e s status own = (
  record {
    outdated = own.outdated;
    empty = own.empty;
    retried = own.retried;
    obsolete = put-OwnIds s status.cache_is_job_runner_obsolete own.obsolete;
    revised = own.revised;
  },
  ground (arith, values-put id s status.cache_is_job_runner_obsolete own.obsolete),
)
classified-Seen id false false false false true s status own = (
  record {
    outdated = own.outdated;
    empty = own.empty;
    retried = own.retried;
    obsolete = own.obsolete;
    revised = put-OwnIds s status.cache_has_different_git_revision own.revised;
  },
  ground (arith, values-put id s status.cache_has_different_git_revision own.revised),
)
classified-Seen id false false false false false s status own = (
  record {
    outdated = own.outdated;
    empty = own.empty;
    retried = own.retried;
    obsolete = own.obsolete;
    revised = own.revised;
  },
  ground arith,
)

classify-Seen :
    (id : String) (newer : Bool) (revision : Option String) (s : ArtifactState)
    (status : CacheStatus)
    → Owned status
    → Seen id (is_stale revision newer s) s status (classify newer revision s status)
unfolding classify
classify-Seen id newer revision s status own =
    classified-Seen id newer (is_empty s.cache_state) (is_error_to_retry s.cache_state)
      (is_job_runner_obsolete s) (is_git_revision_different_from s.cache_state revision) s status
      own

-- The identifiers to refresh, by the states that were reviewed.
abbrev SeenAll : String → Option String → List Reviewed → (status status' : CacheStatus) → Type 0
SeenAll id revision reviews status status' =
    Owned status' × (seen id status' ≡ (any (stale_for id revision) reviews || seen id status))

module _ (D : DiGraph) (graph : ProcessingGraph D) (artifacts : Artifacts) where
  -- The states of one step, each with the answer of `any_parent_newer` for it.
  pub review : ProcessingStep → List ArtifactState → Outcome (List Reviewed)
  review step [] = return []
  review step (s ∷ states) = get_parents D graph step.name >>= λ parents.
      any_parent_newer artifacts s parents >>= λ newer.
      review step states >>= λ rest. return ((newer, s) ∷ rest)

  pub review_all : List ProcessingStep → Outcome (List Reviewed)
  review_all [] = return []
  review_all (step ∷ steps) = get_artifact_states_for_step artifacts step none none >>= λ states.
      review step states >>= λ reviews. review_all steps >>= λ more. return (reviews ++ more)

module _ (D : DiGraph) (jobs : Collection Job) (cache : Collection CachedResponse)
    (graph : ProcessingGraph D) (revision : Option String) (artifacts : Artifacts)
    (id : String) where
  classify_states-SeenAll :
      (step : ProcessingStep) (states : List ArtifactState) (status result : CacheStatus)
      → Owned status
      → classify_states D jobs cache graph revision artifacts step states status ≡ return result
      → (reviews : List Reviewed) × (review D graph artifacts step states ≡ return reviews)
        × SeenAll id revision reviews status result
  unfolding classify_states review
  classify_states-SeenAll step [] status result own h = (
    [],
    refl,
    subst (SeenAll id revision [] status) (return_injective status result h) (own, refl),
  )
  classify_states-SeenAll step (s ∷ states) status result own h =
      let (parents, p, h₁) = returned (get_parents D graph step.name) _ h in
      let (newer, n, h₂) = returned (any_parent_newer artifacts s parents) _ h₁ in
      let (own', e) = classify-Seen id newer revision s status own in
      let (reviews, r, seen_rest) =
        classify_states-SeenAll step states (classify newer revision s status) result own' h₂ in
      let (own_result, e') = seen_rest in
      ((newer, s) ∷ reviews, rw (p, n, r) refl, (own_result, ground (arith, e, e')))

  pub cache_status_of-SeenAll :
      (steps : List ProcessingStep) (status result : CacheStatus)
      → Owned status
      → cache_status_of D jobs cache graph revision artifacts steps status ≡ return result
      → (reviews : List Reviewed) × (review_all D graph artifacts steps ≡ return reviews)
        × SeenAll id revision reviews status result
  unfolding cache_status_of review_all
  cache_status_of-SeenAll [] status result own h = (
    [],
    refl,
    subst (SeenAll id revision [] status) (return_injective status result h) (own, refl),
  )
  cache_status_of-SeenAll (step ∷ steps) status result own h =
      let (states, f, h₁) = returned (get_artifact_states_for_step artifacts step none none) _ h in
      let (status', c, h₂) =
        returned (classify_states D jobs cache graph revision artifacts step states status) _ h₁ in
      let (reviews, r, seen_here) = classify_states-SeenAll step states status status' own c in
      let (own', e) = seen_here in
      let (more, m, seen_rest) = cache_status_of-SeenAll steps status' result own' h₂ in
      let (own_result, e') = seen_rest in
      (
        reviews ++ more,
        rw (f, r, m) refl,
        (own_result, ground (arith, e, e', any-append (stale_for id revision) reviews more)),
      )

-- Whether an identifier is to be refreshed, by how often it is.
pub seen-eq_occurrences :
    (id : String) (status : CacheStatus)
    → seen id status ≡ ltb 0 (occurrences id (ids_of (to_refresh status)))
unfolding to_refresh
seen-eq_occurrences id status =
    let p : ArtifactState → Bool = λ s. s.id == id in
    let a = values status.cache_is_empty in
    let b = values status.cache_is_error_to_retry in
    let c = values status.cache_is_outdated_by_parent in
    let d = values status.cache_is_job_runner_obsolete in
    let e = values status.cache_has_different_git_revision in
    let appended : any p (a ++ (b ++ (c ++ (d ++ e)))) ≡ seen id status = ground (
      arith,
      any-append p a (b ++ (c ++ (d ++ e))),
      any-append p b (c ++ (d ++ e)),
      any-append p c (d ++ e),
      any-append p d e,
    ) in
    sym appended
    ∙ any-eq-count p (a ++ (b ++ (c ++ (d ++ e))))
    ∙ ap (λ n. ltb 0 n) (sym (count-map (λ x. x == id) (λ s. s.id) (a ++ (b ++ (c ++ (d ++ e))))))
