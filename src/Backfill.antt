-- ===== src/Backfill.antt =====
-- The body of the loops of `_get_cache_status`, and `_create_plan`, of `DatasetState` in
-- libs/libcommon/src/libcommon/state.py. What they are called with is in Backfill/Dataset.antt.
mod Samples
pub mod Planning
pub mod Dataset
use datasets_server.Prelude.{
  ℕ, text_eq, option_eq, ◌==◌, Bool, true, false, not, ◌&&◌, ◌||◌, String, Option, none, some, List,
  [], ◌∷◌, ◌++◌, map, contains, if◌then◌else◌,
}
use datasets_server.Utils.{Priority}
use datasets_server.Errors.{
  Outcome, return, raise, key_error, ◌>>=◌, for_each, Dict, put, get, get_or_raise, keys, values,
}
use datasets_server.State.{
  ArtifactState, is_empty, is_error_to_retry, is_job_runner_obsolete,
  is_git_revision_different_from,
}

pub record CacheStatus : Type 0 where
  pub cache_has_different_git_revision : Dict ArtifactState
  pub cache_is_outdated_by_parent : Dict ArtifactState
  pub cache_is_empty : Dict ArtifactState
  pub cache_is_error_to_retry : Dict ArtifactState
  pub cache_is_job_runner_obsolete : Dict ArtifactState
  pub up_to_date : Dict ArtifactState

abbrev pub empty_status : CacheStatus
empty_status = record {
  cache_has_different_git_revision = [];
  cache_is_outdated_by_parent = [];
  cache_is_empty = [];
  cache_is_error_to_retry = [];
  cache_is_job_runner_obsolete = [];
  up_to_date = [];
}

-- The body of the inner loop of `_get_cache_status`, given whether a parent is more recent.
unfoldable pub classify :
    (outdated : Bool) → (revision : Option String) → ArtifactState → CacheStatus → CacheStatus
classify outdated revision state status =
    if outdated
    then record status {
      cache_is_outdated_by_parent = put state.id state status.cache_is_outdated_by_parent;
    }
    else if is_empty state.cache_state
    then record status { cache_is_empty = put state.id state status.cache_is_empty }
    else if is_error_to_retry state.cache_state
    then record status {
      cache_is_error_to_retry = put state.id state status.cache_is_error_to_retry;
    }
    else if is_job_runner_obsolete state
    then record status {
      cache_is_job_runner_obsolete = put state.id state status.cache_is_job_runner_obsolete;
    }
    else if is_git_revision_different_from state.cache_state revision
    then record status {
      cache_has_different_git_revision = put state.id state status.cache_has_different_git_revision;
    }
    else record status { up_to_date = put state.id state status.up_to_date }

pub data Task : Type 0 where
  create_job : ArtifactState → Priority → Task
  delete_job : ArtifactState → Task

-- The artifact states that `_create_plan` goes through.
unfoldable pub to_refresh : CacheStatus → List ArtifactState
to_refresh status =
    values status.cache_is_empty
    ++ (values status.cache_is_error_to_retry
        ++ (values status.cache_is_outdated_by_parent
            ++ (values status.cache_is_job_runner_obsolete
                ++ values status.cache_has_different_git_revision)))

-- `list.remove(x)`, for a list that contains it
abbrev pub remove : String → List String → List String
remove x [] = []
remove x (y ∷ ys) = let rest = remove x ys in if y == x then ys else y ∷ rest

-- The first loop of `_create_plan`: its tasks, and the identifiers that remain in process.
unfoldable pub plan_creations :
    Priority → List ArtifactState → (remaining : List String) → List Task × List String
plan_creations priority [] remaining = ([], remaining)
plan_creations priority (state ∷ states) remaining =
    if contains state.id remaining
    then plan_creations priority states (remove state.id remaining)
    else (let (tasks, rest) = plan_creations priority states remaining in
        (create_job state priority ∷ tasks, rest))

unfoldable pub create_plan :
    Priority → CacheStatus → (in_process : Dict ArtifactState) → Outcome (List Task)
unfolding plan_creations to_refresh
create_plan priority status in_process = do
  let planned = plan_creations priority (to_refresh status) (keys in_process)
  deleted ← for_each (λ id. get_or_raise id in_process) planned.1
  return (planned.0 ++ map delete_job deleted)
