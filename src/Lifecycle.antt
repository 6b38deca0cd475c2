-- ===== src/Lifecycle.antt =====
-- The life of the jobs in the collection of libs/libcommon/src/libcommon/queue.py: any sequence of the
-- operations of `Queue` but `cancel_started_jobs`, by any number of workers and services, as a step
-- relation. Each operation is one step. A new document gets a key that no stored one has.
pub mod Updates
pub mod Operations
pub mod Reachable
mod Samples
use datasets_server.Prelude.{
  ℕ, nat_eq, text_eq, ◌==◌, Bool, true, false, ◌&&◌, not, String, Option, List, count, ◌≤◌, ◌≡◌,
  ltb, ◌||◌,
}
use datasets_server.Collection.{Collection}
use datasets_server.Utils.{Status, Priority, JobInfo, status_eq, waiting, started}
use datasets_server.Utils.Injective.{comma_free, comma_free_opt, is_input}
use datasets_server.Job.{Job, has_status}
use datasets_server.Queue.{cancel_jobs, upsert_job, finish_job}
use datasets_server.Queue.Upsert.{waits}
use datasets_server.Queue.Zombies.{heartbeat, kill_zombies, kill_long_job}
use datasets_server.Scheduling.{start_job}
use datasets_server.Scheduling.Starting.{UniqueKeys, is_named}

-- The status with which a job ends: workers finish jobs with `SUCCESS` or `ERROR`.
abbrev pub is_final : Status → Bool
is_final status = not (status == waiting) && not (status == started)

-- Texts of which identifiers are made.
abbrev pub is_nameable : String → String → Option String → Option String → Bool
is_nameable t d c s = (comma_free t && (comma_free d && comma_free_opt c)) && is_input c s

module _ (C : Collection Job) where
  open C use {Db, documents}

  -- An operation of `Queue` takes the collection from one state to the next.
  pub data Step : Db → Db → Type 0 where
    upsert :
        (canceled_at created_at pk : ℕ) (t d : String) (c s : Option String) (p : Priority)
        (db : Db)
        → is_nameable t d c s ≡ true
        → count (λ j. j.pk == pk) (documents db) ≡ 0
        → Step db (upsert_job C canceled_at created_at pk t d c s p db).1
    cancel :
        (now : ℕ) (t d : String) (c s : Option String) (statuses : Option (List Status)) (db : Db)
        → Step db (cancel_jobs C now t d c s statuses db).1
    start :
        (loaded : Job → Job) (now : ℕ) (limit : Option ℕ) (blocked only : Option (List String))
        (db : Db)
        → Step db (start_job C loaded now limit blocked only db).1
    finish :
        (now job_id : ℕ) (status : Status) (db : Db)
        → is_final status ≡ true
        → Step db (finish_job C now job_id status db)
    beat : (now job_id : ℕ) (db : Db) → Step db (heartbeat C now job_id db)
    kill : (now : ℕ) (zombies : List JobInfo) (db : Db) → Step db (kill_zombies C now zombies db).1
    kill_long : (now : ℕ) (job : JobInfo) (db : Db) → Step db (kill_long_job C now job db).1

  pub data Reach (first : Db) : Db → Type 0 where
    here : Reach first first
    next : {db db' : Db} → Reach first db → Step db db' → Reach first db'

  -- What holds between two operations.
  pub record QueueInv (db : Db) : Type 0 where
    pub keys : UniqueKeys C db
    pub named : count (λ j. not (is_named j)) (documents db) ≡ 0
    pub started_once :
        (u : String) → count (λ j. has_status started j && j.unicity_id == u) (documents db) ≤ 1
    pub waits_once : (t d : String) (c s : Option String) → count (waits t d c s) (documents db) ≤ 1
