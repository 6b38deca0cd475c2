-- ===== src/Hub/Update.antt =====
-- `update_dataset` of libs/libcommon/src/libcommon/operations.py: it asks the Hub for the revision of a
-- dataset, and then runs the plan of its state.
use datasets_server.Prelude.{ℕ, String, Option}
use datasets_server.Collection.{Collection}
use datasets_server.Utils.{Priority}
use datasets_server.Job.{Job}
use datasets_server.Cache.{CachedResponse}
use datasets_server.Errors.{Exception, Outcome, return, raise}
use datasets_server.Graph.{DiGraph, ProcessingGraph}
use datasets_server.State.{Databases}
use datasets_server.Backfill.Dataset.{backfill_dataset}
use datasets_server.Hub.{Client, HubFailure, Answer, answer, failed, get_dataset_git_revision}

-- Done, or an exception of the access to the Hub, or of `DatasetState`.
pub data Update : Type 0 where
  updated : Update
  not_accessible : HubFailure → Update
  not_planned : Exception → Update

module _ (hub : Client) (D : DiGraph) (jobs : Collection Job)
    (cache : Collection CachedResponse) where
  abbrev planned :
      Databases D jobs cache
      → Outcome (ℕ × Databases D jobs cache)
      → Update × Databases D jobs cache
  planned dbs (return (n, dbs')) = (updated, dbs')
  planned dbs (raise e) = (not_planned e, dbs)

  abbrev refreshed :
      ProcessingGraph D
      → (times : ℕ → ℕ × ℕ × ℕ) → (dataset : String) → Priority
      → Databases D jobs cache
      → Answer (Option String) × hub.Outside
      → (Update × Databases D jobs cache) × hub.Outside
  refreshed graph times dataset priority dbs (answer revision, outside) = (
    planned dbs (backfill_dataset D jobs cache graph times dataset revision priority dbs),
    outside,
  )
  refreshed graph times dataset priority dbs (failed f, outside) =
      ((not_accessible f, dbs), outside)

  unfoldable pub update_dataset :
      ProcessingGraph D
      → (times : ℕ → ℕ × ℕ × ℕ) → (dataset : String) → Priority
      → Databases D jobs cache
      → hub.Outside
      → (Update × Databases D jobs cache) × hub.Outside
  unfolding backfill_dataset get_dataset_git_revision
  update_dataset graph times dataset priority dbs outside =
      refreshed graph times dataset priority dbs (get_dataset_git_revision hub dataset outside)
