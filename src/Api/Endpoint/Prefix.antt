-- ===== src/Api/Endpoint/Prefix.antt =====
-- A config whose name begins the name of another one, in `get_cache_entry_from_steps` of
-- services/api/src/api/routes/endpoint.py.
use Prim.Native.String.{◌++◌ as ◌<>◌}
use text.Mathlib.TextLemmas.{append_assoc}
use datasets_server.Prelude.{
  ℕ, text_eq, option_eq, ◌==◌, Bool, true, false, ◌||◌, String, Option, none, some, List, [], ◌∷◌,
  any, ◌≡◌, refl, sym, ◌∙◌, ap, subst, arith, eq_iff, Bool-cases, inl, inr,
}
use datasets_server.Collection.{Collection}
use datasets_server.Utils.{inputs_to_string, normal}
use datasets_server.Job.{Job}
use datasets_server.Cache
use datasets_server.Cache.{CachedResponse}
use datasets_server.Cache.Best.{BestResponse, get_best_response}
use datasets_server.Errors
use datasets_server.Errors.{Exception, has_key}
use datasets_server.Graph.{config, ProcessingStep, DiGraph, ProcessingGraph}
use datasets_server.State.{inputs_match}
use datasets_server.Backfill.{Task}
use datasets_server.Backfill.Dataset.{DatasetState, dataset_state_of}
use datasets_server.Hub.{Client, answer, get_dataset_git_revision}
use datasets_server.Worker.Failures.{Cause}
use datasets_server.Api.Responses.{api_error, response_not_ready_error}
use datasets_server.Api.Endpoint.{
  is_in, task_id, artifact_id, raised, Server, not_ready_or_found, fetched,
  get_cache_entry_from_steps,
}
use datasets_server.Api.Endpoint.Texts.{is_in-append, inputs_to_string-append}

-- The identifier of the artifact of a step for a config.
abbrev pub config_id : ProcessingStep → (dataset config : String) → String
config_id step name c = inputs_to_string name (some c) none (some step.name)

-- A task that creates the job of a longer config passes the test of the shorter one.
any_longer :
    (id r : String) (tasks : List Task)
    → any (λ task. task_id task == ("CreateJob," <> (id <> r))) tasks ≡ true
    → any (λ task. any (λ x. is_in ("CreateJob," <> x) (task_id task)) (id ∷ [])) tasks ≡ true
any_longer id r [] h = h
any_longer id r (task ∷ tasks) h = elim (Bool-cases (task_id task == ("CreateJob," <> (id <> r)))) [
  | inl e ↦
      let same = (eq_iff (task_id task) ("CreateJob," <> (id <> r))).0 e in
      let longer : is_in ("CreateJob," <> id) (task_id task) ≡ true =
        subst (λ t. is_in ("CreateJob," <> id) t ≡ true) (append_assoc "CreateJob," id r ∙ sym same)
          (is_in-append ("CreateJob," <> id) r) in
      rw longer refl
  | inr e ↦ let rest = any_longer id r tasks (rw e at h) in ground (arith, rest)
]

or_true : (b : Bool) → (b || true) ≡ true
or_true true = refl
or_true false = refl

module _ (hub : Client) (D : DiGraph) (jobs : Collection Job) (cache : Collection CachedResponse)
    (cause_of : Exception → Cause) (cause_of_cache : Cache.CacheError → Cause)
    (graph : ProcessingGraph D) where
  -- If the cache has no response for a step of input type `config` and a config, the Hub gives a
  -- revision, and the plan of the state of the dataset creates the job of this step for a config whose
  -- name is longer by some text at its end, then the answer is that the response is not ready yet, also
  -- where the config itself does not exist.
  pub get_cache_entry_from_steps_longer_config :
      (step : ProcessingStep) (name c r : String) (times : ℕ → ℕ × ℕ × ℕ)
      (server : Server hub D jobs cache cause_of cause_of_cache graph) (best : BestResponse)
      (revision : Option String) (outside : hub.Outside) (state : DatasetState)
      → step.input_type ≡ config
      → get_best_response cache (step.cache_kind ∷ []) name (some c) none server.dbs.responses
        ≡ Cache.Result.ok best
      → best.response.error_code ≡ some "CachedResponseNotFound"
      → get_dataset_git_revision hub name server.outside ≡ (answer revision, outside)
      → dataset_state_of D jobs cache graph name revision (some []) normal server.dbs
        ≡ Errors.Outcome.return state
      → any (λ task. task_id task == ("CreateJob," <> config_id step name (c <> r))) state.tasks
        ≡ true
      → (get_cache_entry_from_steps hub D jobs cache cause_of cause_of_cache graph
          (step ∷ [])
          name
          (some c)
          none
          times
          server).0
        ≡ raised (
            api_error (
              response_not_ready_error
                "The server is busier than usual and the response is not ready yet. Please retry later."))
  unfolding get_cache_entry_from_steps artifact_id inputs_match
  get_cache_entry_from_steps_longer_config step name c r times server best revision outside state
        typed b missing rev st longer =
      let m =
        (option_eq.beq_iff best.response.error_code (some "CachedResponseNotFound")).1 missing in
      let found =
        any_longer (config_id step name c) r state.tasks
          (rw (inputs_to_string-append name c r step.name) at longer) in
      rw (b, m, rev, st, typed, found, fetched)
        (ap (λ b. raised (not_ready_or_found hub D jobs cache cause_of cause_of_cache graph b))
          (or_true (any (λ id. has_key id state.in_process) (config_id step name c ∷ []))))
