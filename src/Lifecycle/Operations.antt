-- ===== src/Lifecycle/Operations.antt =====
-- The operations of `Queue` in libs/libcommon/src/libcommon/queue.py that add no job: each keeps what
-- holds between two operations.
use datasets_server.Prelude.{
  ℕ, ◌≤◌, nat_eq, text_eq, option_eq, ◌==◌, Bool, true, false, ◌&&◌, not, String, Option, some,
  List, count, count_cong, count-le, ◌≡◌, refl, sym, ◌∙◌, ap, arith, subst, if◌then◌else◌,
  Option-cases, inl, inr, eq_iff, &&_true,
}
use datasets_server.Collection.{Collection}
use datasets_server.Utils.{Status, JobInfo, status_eq, started, error}
use datasets_server.Job.{Job, has_status, has_params}
use datasets_server.Queue.{finish_job, get_job_with_id, finished}
use datasets_server.Queue.Upsert.{waits}
use datasets_server.Queue.Zombies.{heartbeat, kill_long_job}
use datasets_server.Scheduling.{start_job, get_next_waiting_job, started_now}
use datasets_server.Scheduling.Starting.{is_named}
use datasets_server.Lifecycle.{is_final, QueueInv}
use datasets_server.Lifecycle.Updates.{ended, beaten, Fate-if, update-QueueInv}

pub params_equal :
    (t d : String) (c s : Option String) (job : Job)
    → has_params t d c s job ≡ true
    → (job.type ≡ t) × (job.dataset ≡ d) × (job.config ≡ c) × (job.split ≡ s)
params_equal t d c s job h =
    let (ht, h1) = &&_true (job.type == t) _ h in
    let (hd, h2) = &&_true (job.dataset == d) _ h1 in
    let (hc, hs) = &&_true (job.config == c) (job.split == s) h2 in
    (
      (eq_iff job.type t).0 ht,
      (eq_iff job.dataset d).0 hd,
      (option_eq.beq_iff job.config c).0 hc,
      (option_eq.beq_iff job.split s).0 hs,
    )

module _ (C : Collection Job) where
  open C use {Db, documents, update, update_law}

  -- An update that ends the documents that pass a test.
  pub ends-QueueInv :
      (p : Job → Bool) (now : ℕ) (status : Status) (db db' : Db)
      → is_final status ≡ true
      → ((q : Job → Bool)
          → count q (documents db')
            ≡ count (λ j. q (if p j then finished now status j else j)) (documents db))
      → QueueInv C db
      → QueueInv C db'
  ends-QueueInv p now status db db' final counts =
      update-QueueInv C db db' (λ j. if p j then finished now status j else j) counts
        (λ j. Fate-if (p j) (λ _. ended now status final refl))

  pub finish_job-QueueInv :
      (now job_id : ℕ) (status : Status) (db : Db)
      → is_final status ≡ true
      → QueueInv C db
      → QueueInv C (finish_job C now job_id status db)
  unfolding finish_job
  finish_job-QueueInv now job_id status db final inv =
      elim (Option-cases (get_job_with_id C job_id db)) [
        | inl e ↦ rw (e, finish_job) inv
        | inr (job, e) ↦
            rw (e, finish_job)
              (ends-QueueInv (λ other. other.pk == job.pk) now status db _ final
                (λ q. update_law (λ other. other.pk == job.pk) q (finished now status) db) inv)
      ]

  pub heartbeat-QueueInv :
      (now job_id : ℕ) (db : Db) → QueueInv C db → QueueInv C (heartbeat C now job_id db)
  unfolding heartbeat
  heartbeat-QueueInv now job_id db inv = elim (Option-cases (get_job_with_id C job_id db)) [
    | inl e ↦ rw (e, heartbeat) inv
    | inr (job, e) ↦
        rw (e, heartbeat)
          (update-QueueInv C db _
            (λ j. if j.pk == job.pk then record j { last_heartbeat = some now } else j)
            (λ q.
              update_law (λ other. other.pk == job.pk) q
                (λ other. record other { last_heartbeat = some now }) db)
            (λ j. Fate-if (j.pk == job.pk) (λ _. beaten now refl)) inv)
  ]

  pub kill_long_job-QueueInv :
      (now : ℕ) (job : JobInfo) (db : Db)
      → QueueInv C db
      → QueueInv C (kill_long_job C now job db).1
  unfolding kill_long_job
  kill_long_job-QueueInv now job db inv =
      ends-QueueInv (λ j. j.pk == job.job_id && has_status started j) now error db _ refl
        (λ q.
          update_law (λ j. j.pk == job.job_id && has_status started j) q (finished now error) db)
        inv

  -- What `start_job` does to the documents: nothing, or the start of those of one key.
  pub data Started (now : ℕ) (db db' : Db) : Type 0 where
    none_started : db' ≡ db → Started now db db'
    one_started :
        (pk : ℕ) → db' ≡ update (λ other. other.pk == pk) (started_now now) db → Started now db db'

  pub start_job-Started :
      (loaded : Job → Job) (now : ℕ) (limit : Option ℕ) (blocked only : Option (List String))
      (db : Db)
      → Started now db (start_job C loaded now limit blocked only db).1
  unfolding start_job
  start_job-Started loaded now limit blocked only db =
      elim (Option-cases (get_next_waiting_job C limit blocked only db)) [
        | inl e ↦ none_started (rw (e, start_job) refl)
        | inr (job, e) ↦ one_started job.pk (rw (e, start_job) refl)
      ]

  started-waits :
      (now : ℕ) (t d : String) (c s : Option String) (b : Bool) (j : Job)
      → waits t d c s (if b then started_now now j else j) ≡ true
      → waits t d c s j ≡ true
  started-waits now t d c s b j h = ground arith

  pub Started-QueueInv :
      (now : ℕ) (db db' : Db)
      → Started now db db'
      → QueueInv C db
      → ((u : String) → count (λ j. has_status started j && j.unicity_id == u) (documents db') ≤ 1)
      → QueueInv C db'
  Started-QueueInv now db db' (none_started e) inv once = subst (QueueInv C) (sym e) inv
  Started-QueueInv now db db' (one_started pk e) inv once =
      let counts : (q : Job → Bool)
          → count q (documents db')
            ≡ count (λ j. q (if j.pk == pk then started_now now j else j)) (documents db) =
        λ q.
          ap (λ d. count q (documents d)) e
          ∙ update_law (λ other. other.pk == pk) q (started_now now) db in
      record {
        keys = λ k.
            rw
              (
                counts (λ j. j.pk == k),
                count_cong _ (λ j. j.pk == k) (documents db)
                    (λ j. ap (λ n. n == k) (either (j.pk == pk) (λ (i : Job). i.pk) j refl)),
              )
              (inv.keys k);
        named =
            counts (λ j. not (is_named j))
            ∙ count_cong _ (λ j. not (is_named j)) (documents db)
                (λ j. ap not (either (j.pk == pk) is_named j refl))
            ∙ inv.named;
        started_once = once;
        waits_once = λ t d c s. omega (
          arith,
          counts (waits t d c s),
          count-le (λ j. waits t d c s (if j.pk == pk then started_now now j else j))
              (waits t d c s) (documents db) (λ j. started-waits now t d c s (j.pk == pk) j),
          inv.waits_once t d c s,
        );
      }
    where
      either :
          {A : Type 0} (b : Bool) (f : Job → A) (j : Job)
          → f (started_now now j) ≡ f j
          → f (if b then started_now now j else j) ≡ f j
      either true f j h = h
      either false f j h = refl
