-- ===== src/Queue/Zombies.antt =====
-- Heartbeats, zombies and long jobs of `Queue` in libs/libcommon/src/libcommon/queue.py. The clock
-- that `get_zombies` reads at each job is a function of the job.
pub mod Killed
use datasets_server.Prelude.{
  ℕ, ◌+◌, ◌*◌, nat_eq, ◌==◌, Bool, true, false, ◌&&◌, ◌||◌, not, Option, none, some, List, [], ◌∷◌,
  map, filter, count, contains, length, leb, ltb_ℤ, ℤ, pos, negsuc, if◌then◌else◌,
}
use datasets_server.Collection.{Collection}
use datasets_server.Utils.{Status, JobInfo, status_eq, started, error}
use datasets_server.Job.{Job, info, has_status}
use datasets_server.Queue.{get_job_with_id, finished}

-- `get_datetime() >= date + timedelta(seconds=seconds)`
abbrev late : ℕ → ℕ → Option ℕ → Bool
late now seconds none = false
late now seconds (some date) = leb (date + seconds * 1000000) now

-- The test of the comprehension in `get_zombies`.
unfoldable pub is_zombie : ℕ → ℕ → Job → Bool
is_zombie now seconds job = elim job.last_heartbeat [
  | some date ↦ late now seconds (some date)
  | none ↦ late now seconds job.started_at
]

abbrev zombies_after : (Job → ℕ) → ℤ → List Job → List JobInfo
zombies_after clock (pos seconds) jobs =
    if seconds == 0 then [] else map info (filter (λ job. is_zombie (clock job) seconds job) jobs)
zombies_after clock (negsuc _) jobs = []

module _ (C : Collection Job) where
  open C use {Db, documents, find, update}

  unfoldable pub heartbeat : (now job_id : ℕ) → Db → Db
  unfolding get_job_with_id
  heartbeat now job_id db = elim (get_job_with_id C job_id db) [
    | none ↦ db
    | some job ↦
        update (λ other. other.pk == job.pk) (λ other. record other { last_heartbeat = some now })
          db
  ]

  pub get_zombies : (clock : Job → ℕ) (max_seconds_without_heartbeat : ℤ) → Db → List JobInfo
  unfolding is_zombie
  get_zombies clock seconds db = zombies_after clock seconds (find (has_status started) db)

  -- The number of the updated jobs, and the database.
  pub kill_zombies : ℕ → List JobInfo → Db → ℕ × Db
  kill_zombies now [] db = (0, db)
  kill_zombies now (zombie ∷ zombies) db =
      let ids = map (λ (z : JobInfo). z.job_id) (zombie ∷ zombies) in
      let killed = λ (job : Job). contains job.pk ids && has_status started job in
      (count killed (documents db), update killed (finished now error) db)

  unfoldable pub kill_long_job : ℕ → JobInfo → Db → ℕ × Db
  kill_long_job now long_job db =
      let killed = λ (job : Job). job.pk == long_job.job_id && has_status started job in
      (count killed (documents db), update killed (finished now error) db)
