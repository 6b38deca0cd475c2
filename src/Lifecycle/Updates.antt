-- ===== src/Lifecycle/Updates.antt =====
-- What an update of the jobs in libs/libcommon/src/libcommon/queue.py keeps true, by what it does
-- to each document.
use datasets_server.Prelude.{
  ℕ, nat_eq, text_eq, option_eq, ◌==◌, Bool, true, false, ◌&&◌, not, String, Option, some, count,
  count_cong, count-le, ◌≡◌, refl, sym, ◌∙◌, ap, arith, if◌then◌else◌,
}
use datasets_server.Collection.{Collection}
use datasets_server.Utils.{Status, status_eq, started}
use datasets_server.Job.{Job, has_status}
use datasets_server.Queue.{finished}
use datasets_server.Queue.Upsert.{waits}
use datasets_server.Scheduling.Starting.{is_named}
use datasets_server.Lifecycle.{is_final, QueueInv}

-- What becomes of a document: nothing, an end, or a heartbeat.
pub data Fate (job job' : Job) : Type 0 where
  kept : job' ≡ job → Fate job job'
  ended :
      (now : ℕ) (status : Status)
      → is_final status ≡ true
      → job' ≡ finished now status job
      → Fate job job'
  beaten : (now : ℕ) → job' ≡ record job { last_heartbeat = some now } → Fate job job'

module _ {job job' : Job} where
  -- What no such change decides is as before.
  pub Fate_same :
      {A : Type 0} (f : Job → A)
      → ((now : ℕ) (status : Status) → f (finished now status job) ≡ f job)
      → ((now : ℕ) → f (record job { last_heartbeat = some now }) ≡ f job)
      → Fate job job'
      → f job' ≡ f job
  Fate_same f h k (kept e) = ap f e
  Fate_same f h k (ended now status final e) = ap f e ∙ h now status
  Fate_same f h k (beaten now e) = ap f e ∙ k now

  -- A test that no ended job passes, and that reads no heartbeat, is passed only where it was.
  pub Fate_back :
      (q : Job → Bool)
      → ((now : ℕ) (status : Status) → is_final status ≡ true → q (finished now status job) ≡ false)
      → ((now : ℕ) → q (record job { last_heartbeat = some now }) ≡ q job)
      → Fate job job'
      → q job' ≡ true
      → q job ≡ true
  Fate_back q h k (kept e) t = ap q (sym e) ∙ t
  Fate_back q h k (ended now status final e) t = absurd (ground (arith, ap q e, h now status final))
  Fate_back q h k (beaten now e) t = sym (k now) ∙ ap q (sym e) ∙ t

pub started_ends :
    (u : String) (now : ℕ) (status : Status) (job : Job)
    → is_final status ≡ true
    → (has_status started (finished now status job) && job.unicity_id == u) ≡ false
started_ends u now status job h = ground arith

pub waits_ends :
    (t d : String) (c s : Option String) (now : ℕ) (status : Status) (job : Job)
    → is_final status ≡ true
    → waits t d c s (finished now status job) ≡ false
waits_ends t d c s now status job h = ground arith

-- An update under which each document has such a fate keeps the invariant.
pub update-QueueInv :
    (C : Collection Job) (db db' : C.Db) (change : Job → Job)
    → ((q : Job → Bool) → count q (C.documents db') ≡ count (λ j. q (change j)) (C.documents db))
    → ((j : Job) → Fate j (change j))
    → QueueInv C db
    → QueueInv C db'
update-QueueInv C db db' change counts fate inv = record {
  keys = λ k.
      rw
        (
          counts (λ j. j.pk == k),
          count_cong (λ j. (change j).pk == k) (λ j. j.pk == k) (C.documents db)
              (λ j.
                ap (λ n. n == k)
                  (Fate_same (λ (j : Job). j.pk) (λ _ _. refl) (λ _. refl) (fate j))),
        )
        (inv.keys k);
  named =
      counts (λ j. not (is_named j))
      ∙ count_cong _ (λ j. not (is_named j)) (C.documents db)
          (λ j. ap not (Fate_same is_named (λ _ _. refl) (λ _. refl) (fate j)))
      ∙ inv.named;
  started_once = λ u. omega (
    arith,
    counts (λ j. has_status started j && j.unicity_id == u),
    count-le (λ j. has_status started (change j) && (change j).unicity_id == u)
        (λ j. has_status started j && j.unicity_id == u) (C.documents db)
        (λ j.
          Fate_back (λ j. has_status started j && j.unicity_id == u)
            (λ now status. started_ends u now status j) (λ _. refl) (fate j)),
    inv.started_once u,
  );
  waits_once = λ t d c s. omega (
    arith,
    counts (waits t d c s),
    count-le (λ j. waits t d c s (change j)) (waits t d c s) (C.documents db)
        (λ j.
          Fate_back (waits t d c s) (λ now status. waits_ends t d c s now status j) (λ _. refl)
            (fate j)),
    inv.waits_once t d c s,
  );
}

-- A change of the documents that pass a test, and no other.
pub Fate-if :
    (b : Bool) {job job' : Job} → (b ≡ true → Fate job job') → Fate job (if b then job' else job)
Fate-if true f = f refl
Fate-if false f = kept refl
