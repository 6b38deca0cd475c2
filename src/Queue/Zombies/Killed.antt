-- ===== src/Queue/Zombies/Killed.antt =====
-- What remains after `get_zombies` and `kill_zombies` of libs/libcommon/src/libcommon/queue.py.
use datasets_server.Prelude.{
  ℕ, suc, ◌+◌, ◌*◌, nat_eq, Bool, true, false, ◌&&◌, not, ltb, Option, none, some, ap, List, [],
  ◌∷◌, map, filter, count, count-filter, count_cong, contains, pos, if◌then◌else◌, ◌≡◌, refl, sym,
  ◌∙◌, arith,
}
use datasets_server.Collection.{Collection}
use datasets_server.Utils.{JobInfo, status_eq, started, error}
use datasets_server.Job.{Job, info, has_status}
use datasets_server.Queue.{finished}
use datasets_server.Queue.Zombies.{late, is_zombie, get_zombies, kill_zombies}

pub ids : List JobInfo → List ℕ
ids zombies = map (λ (z : JobInfo). z.job_id) zombies

-- Each job of a list has its key among the keys of the list.
keyed :
    (jobs : List Job) (extra : List ℕ → List ℕ)
    → ((k : ℕ) (ks : List ℕ) → contains k ks ≡ true → contains k (extra ks) ≡ true)
    → count (λ j. not (contains j.pk (extra (ids (map info jobs))))) jobs ≡ 0
unfolding info ids
keyed [] extra h = refl
keyed (job ∷ jobs) extra h = ground (
  arith,
  h job.pk (job.pk ∷ ids (map info jobs)),
  nat_eq.beq_iff job.pk job.pk,
  keyed jobs (λ ks. extra (job.pk ∷ ks)) (λ k ks c. h k (job.pk ∷ ks) (ground arith)),
)

-- The stored jobs after `kill_zombies`, by any test.
pub count-kill_zombies :
    (C : Collection Job) (now : ℕ) (zombies : List JobInfo) (db : C.Db) (q : Job → Bool)
    → count q (C.documents (kill_zombies C now zombies db).1)
      ≡ count
          (λ j. q (
            if contains j.pk (ids zombies) && has_status started j
            then finished now error j
            else j))
          (C.documents db)
unfolding kill_zombies ids
count-kill_zombies C now [] db q = refl
count-kill_zombies C now (zombie ∷ zombies) db q = C.update_law _ q _ db

-- The date at which a job was last heard of: its last heartbeat, or its start if it had none.
abbrev pub last_sign : Option ℕ → Option ℕ → Option ℕ
last_sign (some heartbeat) started_at = some heartbeat
last_sign none started_at = started_at

-- By the clock, at least `seconds` have gone by since a date in microseconds.
abbrev pub gone_by : (now seconds : ℕ) → Option ℕ → Bool
gone_by now seconds none = false
gone_by now seconds (some date) = not (ltb now (date + 1000000 * seconds))

abbrev pub is_silent : (now seconds : ℕ) → Job → Bool
is_silent now seconds job = gone_by now seconds (last_sign job.last_heartbeat job.started_at)

is_zombie-eq_silent :
    (now seconds : ℕ) (job : Job) → is_zombie now seconds job ≡ is_silent now seconds job
unfolding is_zombie
is_zombie-eq_silent now seconds job = by_dates job.last_heartbeat job.started_at
  where
    by_dates :
        (h s : Option ℕ)
        → (elim h [ some date ↦ late now seconds (some date) | none ↦ late now seconds s ])
          ≡ gone_by now seconds (last_sign h s)
    by_dates (some date) s = ground arith
    by_dates none (some date) = ground arith
    by_dates none none = refl

filter_cong :
    {A : Type 0} (p q : A → Bool) (xs : List A) → ((x : A) → p x ≡ q x) → filter p xs ≡ filter q xs
filter_cong p q [] h = refl
filter_cong p q (x ∷ xs) h = rw (h x, filter_cong p q xs h) refl

module _ (C : Collection Job) (clock : Job → ℕ) (seconds : ℕ) (db : C.Db) where
  open C use {documents, find, find_law, update_law}

  abbrev zombie : Job → Bool
  zombie job = is_zombie (clock job) (suc seconds) job

  get_zombies_lem :
      get_zombies C clock (pos (suc seconds)) db
      ≡ map info (filter zombie (find (has_status started) db))
  unfolding get_zombies
  get_zombies_lem = ground arith

  -- Every started job that is a zombie has its key among those of `get_zombies`.
  missed :
      count
        (λ j.
          has_status started j
          && (zombie j && not (contains j.pk (ids (get_zombies C clock (pos (suc seconds)) db)))))
        (documents db)
      ≡ 0
  missed = rw get_zombies_lem (
      sym (find_law (has_status started) _ db)
      ∙ sym (count-filter zombie _ (find (has_status started) db))
      ∙ keyed (filter zombie (find (has_status started) db)) (λ ks. ks) (λ k ks c. c))

  -- With a positive delay `get_zombies` returns the started jobs that by their clock have given no
  -- sign, the last heartbeat or else the start, for the delay; and killing them leaves no such job.
  pub kill_zombies-get_zombies :
      (now : ℕ)
      → (get_zombies C clock (pos (suc seconds)) db
          ≡ map info
              (filter (λ j. is_silent (clock j) (suc seconds) j) (find (has_status started) db)))
        × (count
              (λ j. has_status started j && is_silent (clock j) (suc seconds) j)
              (documents (kill_zombies C now (get_zombies C clock (pos (suc seconds)) db) db).1)
            ≡ 0)
  kill_zombies-get_zombies now = (
    get_zombies_lem
        ∙ ap (map info) (
            filter_cong zombie (λ j. is_silent (clock j) (suc seconds) j)
              (find (has_status started) db) (λ j. is_zombie-eq_silent (clock j) (suc seconds) j)),
    count_cong _ (λ j. has_status started j && zombie j)
          (documents (kill_zombies C now (get_zombies C clock (pos (suc seconds)) db) db).1)
          (λ j.
            ap (λ b. has_status started j && b)
              (sym (is_zombie-eq_silent (clock j) (suc seconds) j)))
        ∙ count-kill_zombies C now _ db _
        ∙ count_cong _ _ (documents db) (λ j. ground arith)
        ∙ missed,
  )
