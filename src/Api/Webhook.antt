-- ===== src/Api/Webhook.antt =====
-- services/api/src/api/routes/webhook.py: what an event of the Hub does. The JSON schema checks the
-- payload; a body that does not fit it is `none`.
pub mod Trust
use datasets_server.Prelude.{
  ℕ, text_eq, ◌==◌, Bool, true, false, ◌||◌, String, Option, none, some, if◌then◌else◌,
}
use datasets_server.Collection.{Collection}
use datasets_server.Utils.{normal}
use datasets_server.Job.{Job}
use datasets_server.Cache.{CachedResponse}
use datasets_server.Errors
use datasets_server.Errors.{Exception, Outcome, key_error}
use datasets_server.Graph.{DiGraph, ProcessingGraph}
use datasets_server.State.{Databases}
use datasets_server.Backfill.Dataset.{backfill_dataset, delete_dataset}

pub data Event : Type 0 where
  add remove update move : Event

-- The payload: `moved_to` is `none` where the key is missing.
pub record Payload : Type 0 where
  pub event : Event
  pub moved_to : Option String
  pub repo_type : String
  pub repo_name : String
  pub head_sha : Option String

-- The status of the answer, or an exception that leaves the endpoint.
pub data Answered : Type 0 where
  ok bad_request : Answered
  escaped : Exception → Answered

module _ (D : DiGraph) (jobs : Collection Job) (cache : Collection CachedResponse)
    (graph : ProcessingGraph D) where
  abbrev pub Dbs : Type 0
  Dbs = Databases D jobs cache

  -- What is left of a call of `backfill_dataset`, with its exception.
  abbrev pub ended : Dbs → Outcome (ℕ × Dbs) → Answered × Dbs
  ended dbs (Errors.Outcome.return (n, dbs')) = (ok, dbs')
  ended dbs (Errors.Outcome.raise e) = (escaped e, dbs)

  abbrev pub filled : (ℕ → ℕ × ℕ × ℕ) → (dataset : String) → Option String → Dbs → Answered × Dbs
  filled times dataset revision dbs =
      ended dbs (backfill_dataset D jobs cache graph times dataset revision normal dbs)

  -- `delete_dataset`, where what comes before it did not raise
  abbrev pub then_deleted : (dataset : String) → Answered × Dbs → Answered × Dbs
  then_deleted dataset (ok, dbs) = (ok, delete_dataset D jobs cache dataset dbs)
  then_deleted dataset (a, dbs) = (a, dbs)

  -- `payload["movedTo"]`: a missing key raises, an empty text is false.
  abbrev pub moved :
      (ℕ → ℕ × ℕ × ℕ)
      → (dataset : String) → Option String
      → (moved_to : Option String) → Dbs
      → Answered × Dbs
  moved times dataset revision none dbs = (escaped key_error, dbs)
  moved times dataset revision (some moved_to) dbs =
      if moved_to == ""
      then (ok, dbs)
      else then_deleted dataset (filled times moved_to revision dbs)

  abbrev pub processed :
      (ℕ → ℕ × ℕ × ℕ) → Payload → (trust_sender : Bool) → Event → Dbs → Answered × Dbs
  processed times payload trust_sender add dbs = filled times payload.repo_name payload.head_sha dbs
  processed times payload trust_sender update dbs =
      filled times payload.repo_name payload.head_sha dbs
  processed times payload false move dbs = (ok, dbs)
  processed times payload true move dbs =
      moved times payload.repo_name payload.head_sha payload.moved_to dbs
  processed times payload false remove dbs = (ok, dbs)
  processed times payload true remove dbs = (ok, delete_dataset D jobs cache payload.repo_name dbs)

  unfoldable pub process_payload :
      (ℕ → ℕ × ℕ × ℕ) → Payload → (trust_sender : Bool) → Dbs → Answered × Dbs
  unfolding backfill_dataset delete_dataset
  process_payload times payload trust_sender dbs =
      if payload.repo_type == "dataset"
      then processed times payload trust_sender payload.event dbs
      else (ok, dbs)

  -- The secret of the configuration, and the header of the request.
  unfoldable pub is_trusted : Option String → Option String → Bool
  is_trusted (some hf_webhook_secret) (some secret) = secret == hf_webhook_secret
  is_trusted _ _ = false

  abbrev pub received :
      (ℕ → ℕ × ℕ × ℕ) → (trust_sender : Bool) → Option Payload → Dbs → Answered × Dbs
  received times trust_sender none dbs = (bad_request, dbs)
  received times trust_sender (some payload) dbs = process_payload times payload trust_sender dbs

  unfoldable pub webhook_endpoint :
      (ℕ → ℕ × ℕ × ℕ)
      → (hf_webhook_secret header : Option String) → Option Payload
      → Dbs
      → Answered × Dbs
  unfolding process_payload is_trusted
  webhook_endpoint times hf_webhook_secret header payload dbs =
      received times (is_trusted hf_webhook_secret header) payload dbs
