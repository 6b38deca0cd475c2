-- ===== src/Lifecycle/Reachable.antt =====
-- Every state that the operations of `Queue` in libs/libcommon/src/libcommon/queue.py reach.
use datasets_server.Prelude.{
  ℕ, suc, ◌≤◌, nat_eq, text_eq, option_eq, ◌==◌, Bool, true, false, ◌&&◌, not, String, Option, some,
  count, count_cong, count-le, length, length-eq-count, contains, ◌≡◌, refl, sym, ◌∙◌, ap, arith,
  subst, Bool-cases, inl, inr, eq_iff, &&_true,
}
use datasets_server.Collection.{Collection}
use datasets_server.Utils.{Priority, status_eq, started, cancelled, error, inputs_to_string, before}
use datasets_server.Utils.Injective.{comma_free, comma_free_opt, is_input}
use datasets_server.Job.{Job, has_status, has_params}
use datasets_server.Queue.{upsert_job, new_job}
use datasets_server.Queue.Upsert.{waits, retired, count-upsert_job, upsert_job_waits_once}
use datasets_server.Queue.Cancel.{targeted, count-cancel_jobs}
use datasets_server.Queue.Zombies.Killed.{ids, count-kill_zombies}
use datasets_server.Scheduling.Starting.{is_named, start_job_unicity}
use datasets_server.Lifecycle.{
  is_nameable, Step, Reach, QueueInv, upsert, cancel, start, finish, beat, kill, kill_long, here,
  next,
}
use datasets_server.Lifecycle.Updates.{
  Fate, Fate_same, Fate_back, started_ends, waits_ends, ended, Fate-if,
}
use datasets_server.Lifecycle.Operations.{
  params_equal, ends-QueueInv, finish_job-QueueInv, heartbeat-QueueInv, kill_long_job-QueueInv,
  start_job-Started, Started-QueueInv,
}

module _ (C : Collection Job) where
  open C use {Db, documents, update, update_law}

  -- The new document has the name that its parts make, and waits.
  new_job-is_named :
      (created_at pk : ℕ) (t d : String) (c s : Option String) (p : Priority)
      → is_nameable t d c s ≡ true
      → is_named (new_job created_at pk t d c s p) ≡ true
  unfolding new_job
  new_job-is_named created_at pk t d c s p h =
      let (free, input) =
        &&_true (comma_free t && (comma_free d && comma_free_opt c)) (is_input c s) h in
      rw
        (
          free,
          input,
          (eq_iff (inputs_to_string d c s (some t)) _).1 refl,
          (eq_iff (before 47 d) _).1 refl,
        )
        refl

  module _ (canceled_at created_at pk : ℕ) (t d : String) (c s : Option String) (p : Priority)
      (db : Db) where
    abbrev added : Job
    added = (upsert_job C canceled_at created_at pk t d c s p db).0

    abbrev after : Db
    after = (upsert_job C canceled_at created_at pk t d c s p db).1

    added-is_named : is_nameable t d c s ≡ true → is_named added ≡ true
    unfolding upsert_job
    added-is_named h = new_job-is_named created_at pk t d c s _ h

    added-pk : added.pk ≡ pk
    unfolding upsert_job new_job
    added-pk = refl

    added_unstarted : has_status started added ≡ false
    unfolding upsert_job new_job
    added_unstarted = refl

    added_waits :
        (t' d' : String) (c' s' : Option String)
        → waits t' d' c' s' added ≡ true
        → (t ≡ t') × (d ≡ d') × (c ≡ c') × (s ≡ s')
    unfolding upsert_job new_job
    added_waits t' d' c' s' h =
        params_equal t' d' c' s' added (&&_true (has_params t' d' c' s' added) _ h).0

    -- A test that the new document fails counts as in the canceled collection.
    not_added :
        (q : Job → Bool)
        → q added ≡ false
        → count q (documents after) ≡ count (λ j. q (retired t d c s canceled_at j)) (documents db)
    not_added q h = count-upsert_job t d c s C canceled_at created_at pk p db q ∙ rw h refl

    retired-Fate : (j : Job) → Fate j (retired t d c s canceled_at j)
    retired-Fate j = Fate-if _ (λ _. ended canceled_at cancelled refl refl)

    upsert_job-QueueInv :
        is_nameable t d c s ≡ true
        → count (λ j. j.pk == pk) (documents db) ≡ 0
        → QueueInv C db
        → QueueInv C after
    upsert_job-QueueInv nameable fresh inv = record {
      keys = key_once;
      named =
          not_added (λ j. not (is_named j)) (ap not (added-is_named nameable))
          ∙ count_cong _ (λ j. not (is_named j)) (documents db)
              (λ j. ap not (Fate_same is_named (λ _ _. refl) (λ _. refl) (retired-Fate j)))
          ∙ inv.named;
      started_once = λ u. omega (
        arith,
        not_added (λ j. has_status started j && j.unicity_id == u) (rw added_unstarted refl),
        count-le
            (λ j.
              has_status started (retired t d c s canceled_at j)
              && (retired t d c s canceled_at j).unicity_id == u)
            (λ j. has_status started j && j.unicity_id == u) (documents db)
            (λ j.
              Fate_back (λ j. has_status started j && j.unicity_id == u)
                (λ now status. started_ends u now status j) (λ _. refl) (retired-Fate j)),
        inv.started_once u,
      );
      waits_once = λ t' d' c' s'. elim (Bool-cases (waits t' d' c' s' added)) [
        | inl mine ↦
            let (et, ed, ec, es) = added_waits t' d' c' s' mine in
            rw (sym et, sym ed, sym ec, sym es)
              (omega (arith, upsert_job_waits_once t d c s C canceled_at created_at pk p db))
        | inr others ↦ omega (
          arith,
          not_added (waits t' d' c' s') others,
          count-le (λ j. waits t' d' c' s' (retired t d c s canceled_at j)) (waits t' d' c' s')
              (documents db)
              (λ j.
                Fate_back (waits t' d' c' s') (λ now status. waits_ends t' d' c' s' now status j)
                  (λ _. refl) (retired-Fate j)),
          inv.waits_once t' d' c' s',
        )
      ];
    }
      where
        keys_before :
            (k : ℕ)
            → count (λ j. (retired t d c s canceled_at j).pk == k) (documents db)
              ≡ count (λ j. j.pk == k) (documents db)
        keys_before k =
            count_cong _ (λ j. j.pk == k) (documents db)
              (λ j.
                ap (λ n. n == k)
                  (Fate_same (λ (j : Job). j.pk) (λ _ _. refl) (λ _. refl) (retired-Fate j)))

        key_once : (k : ℕ) → count (λ j. j.pk == k) (documents after) ≤ 1
        key_once k = elim (Bool-cases (added.pk == k)) [
          | inl mine ↦
              let same : pk ≡ k = sym added-pk ∙ (nat_eq.beq_iff added.pk k).0 mine in
              let none_before = subst (λ m. count (λ j. j.pk == m) (documents db) ≡ 0) same fresh in
              let one : count (λ j. j.pk == k) (documents after)
                  ≡ suc (count (λ j. (retired t d c s canceled_at j).pk == k) (documents db)) =
                count-upsert_job t d c s C canceled_at created_at pk p db (λ j. j.pk == k)
                ∙ rw mine refl in
              omega (arith, one, keys_before k, none_before)
          | inr others ↦ omega (arith, not_added (λ j. j.pk == k) others, keys_before k, inv.keys k)
        ]

  -- Each operation keeps the invariant.
  pub Step-QueueInv : {db db' : Db} → Step C db db' → QueueInv C db → QueueInv C db'
  Step-QueueInv (upsert canceled_at created_at pk t d c s p db nameable fresh) inv =
      upsert_job-QueueInv canceled_at created_at pk t d c s p db nameable fresh inv
  Step-QueueInv (cancel now t d c s statuses db) inv =
      ends-QueueInv C (targeted t d c s statuses) now cancelled db _ refl
        (count-cancel_jobs C now t d c s statuses db) inv
  Step-QueueInv (start loaded now limit blocked only db) inv =
      Started-QueueInv C now db _ (start_job-Started C loaded now limit blocked only db) inv
        (start_job_unicity C loaded now limit blocked only db inv.keys inv.named inv.started_once)
  Step-QueueInv (finish now job_id status db final) inv =
      finish_job-QueueInv C now job_id status db final inv
  Step-QueueInv (beat now job_id db) inv = heartbeat-QueueInv C now job_id db inv
  Step-QueueInv (kill now zombies db) inv =
      ends-QueueInv C (λ j. contains j.pk (ids zombies) && has_status started j) now error db _ refl
        (count-kill_zombies C now zombies db) inv
  Step-QueueInv (kill_long now job db) inv = kill_long_job-QueueInv C now job db inv

  Reach-QueueInv : {db db' : Db} → QueueInv C db → Reach C db db' → QueueInv C db'
  Reach-QueueInv inv here = inv
  Reach-QueueInv inv (next r step) = Step-QueueInv step (Reach-QueueInv inv r)

  empty-QueueInv : (db : Db) → length (documents db) ≡ 0 → QueueInv C db
  empty-QueueInv db empty = record {
    keys = λ k. omega (arith, nothing (λ j. j.pk == k));
    named = nothing (λ j. not (is_named j));
    started_once = λ u. omega (arith, nothing (λ j. has_status started j && j.unicity_id == u));
    waits_once = λ t d c s. omega (arith, nothing (waits t d c s));
  }
    where
      nothing : (q : Job → Bool) → count q (documents db) ≡ 0
      nothing q = omega (
        arith,
        length-eq-count (documents db),
        count-le q (λ _. true) (documents db) (λ _ _. refl),
      )

  -- From an empty queue, after any sequence of operations whose identifiers are made of texts without
  -- a comma, with fresh keys for new documents and jobs finished with a final status: at most one
  -- started job has a given identifier, at most one waiting job has given parameters, keys are unique,
  -- and every job has the identifier and namespace that `_add_job` computes.
  pub Reach-invariants :
      {first db : Db}
      → length (documents first) ≡ 0
      → Reach C first db
      → ((u : String) → count (λ j. has_status started j && j.unicity_id == u) (documents db) ≤ 1)
        × ((t d : String) (c s : Option String) → count (waits t d c s) (documents db) ≤ 1)
        × ((k : ℕ) → count (λ j. j.pk == k) (documents db) ≤ 1)
        × (count (λ j. not (is_named j)) (documents db) ≡ 0)
  Reach-invariants empty r =
      let inv = Reach-QueueInv (empty-QueueInv _ empty) r in
      (inv.started_once, inv.waits_once, inv.keys, inv.named)
