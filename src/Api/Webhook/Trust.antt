-- ===== src/Api/Webhook/Trust.antt =====
-- What a sender without the secret can do by the webhook of services/api/src/api/routes/webhook.py.
use datasets_server.Prelude.{
  ℕ, text_eq, ◌==◌, false, String, Option, none, some, ◌≡◌, ◌≢◌, refl, ap, Bool-cases, inl, inr,
  eq_iff,
}
use datasets_server.Collection.{Collection}
use datasets_server.Job.{Job}
use datasets_server.Cache.{CachedResponse}
use datasets_server.Errors
use datasets_server.Errors.{Outcome, ◌>>=◌, raise_if, return, raise}
use datasets_server.Graph.{DiGraph, ProcessingGraph}
use datasets_server.State.{Databases}
use datasets_server.Backfill.Dataset.{backfill_dataset, DatasetState, dataset_state_of, run}
use datasets_server.Utils.{normal}
use datasets_server.Api.Webhook.{
  Event, add, remove, update, move, Payload, ended, filled, processed, process_payload, is_trusted,
  received, webhook_endpoint,
}

module _ (D : DiGraph) (jobs : Collection Job) (cache : Collection CachedResponse)
    (graph : ProcessingGraph D) where
  abbrev Dbs : Type 0
  Dbs = Databases D jobs cache

  -- A backfill that returns leaves the cache.
  abbrev Leaves : Dbs → Outcome (ℕ × Dbs) → Type 0
  Leaves dbs (Errors.Outcome.return (n, dbs')) = dbs'.responses ≡ dbs.responses
  Leaves dbs (Errors.Outcome.raise e) = Unit

  bind-Leaves :
      (dbs : Dbs) (state : Outcome DatasetState) (times : ℕ → ℕ × ℕ × ℕ)
      → Leaves dbs (
          state >>= λ s.
          let ran = run D jobs cache times s.tasks dbs.queue in
          Errors.Outcome.return (ran.0, record dbs { queue = ran.1 }))
  bind-Leaves dbs (Errors.Outcome.return state) times = refl
  bind-Leaves dbs (Errors.Outcome.raise e) times = tt

  ended_responses :
      (dbs : Dbs) (t : Outcome (ℕ × Dbs))
      → Leaves dbs t
      → (ended D jobs cache graph dbs t).1.responses ≡ dbs.responses
  ended_responses dbs (Errors.Outcome.return (n, dbs')) h = h
  ended_responses dbs (Errors.Outcome.raise e) h = refl

  filled_responses :
      (times : ℕ → ℕ × ℕ × ℕ) (name : String) (revision : Option String) (dbs : Dbs)
      → (filled D jobs cache graph times name revision dbs).1.responses ≡ dbs.responses
  unfolding backfill_dataset
  filled_responses times name revision dbs =
      ended_responses dbs _
        (bind-Leaves dbs (dataset_state_of D jobs cache graph name revision none normal dbs) times)

  processed_responses :
      (times : ℕ → ℕ × ℕ × ℕ) (payload : Payload) (event : Event) (dbs : Dbs)
      → (processed D jobs cache graph times payload false event dbs).1.responses ≡ dbs.responses
  processed_responses times payload add dbs =
      filled_responses times payload.repo_name payload.head_sha dbs
  processed_responses times payload update dbs =
      filled_responses times payload.repo_name payload.head_sha dbs
  processed_responses times payload move dbs = refl
  processed_responses times payload remove dbs = refl

  received_responses :
      (times : ℕ → ℕ × ℕ × ℕ) (payload : Option Payload) (dbs : Dbs)
      → (received D jobs cache graph times false payload dbs).1.responses ≡ dbs.responses
  unfolding process_payload
  received_responses times none dbs = refl
  received_responses times (some payload) dbs = elim (Bool-cases (payload.repo_type == "dataset")) [
    | inl e ↦ rw (e, process_payload) (processed_responses times payload payload.event dbs)
    | inr e ↦ rw (e, process_payload) refl
  ]

  not_trusted :
      (secret header : Option String)
      → ((s : String) → secret ≡ some s → header ≢ some s)
      → is_trusted D jobs cache graph secret header ≡ false
  unfolding is_trusted
  not_trusted none none h = refl
  not_trusted none (some s) h = refl
  not_trusted (some s) none h = refl
  not_trusted (some s) (some t) h = elim (Bool-cases (t == s)) [
    | inl e ↦ absurd (h s refl (ap some ((eq_iff t s).0 e)))
    | inr e ↦ e
  ]

  -- If the request does not have the secret of the configuration in its header, an event leaves every
  -- cached response as it was.
  pub webhook_endpoint_untrusted :
      (times : ℕ → ℕ × ℕ × ℕ) (hf_webhook_secret header : Option String) (payload : Option Payload)
      (dbs : Dbs)
      → ((s : String) → hf_webhook_secret ≡ some s → header ≢ some s)
      → (webhook_endpoint D jobs cache graph times hf_webhook_secret header payload dbs).1.responses
        ≡ dbs.responses
  unfolding webhook_endpoint
  webhook_endpoint_untrusted times secret header payload dbs h =
      rw (not_trusted secret header h, webhook_endpoint) (received_responses times payload dbs)
