-- ===== src/Queue/Upsert.antt =====
-- `upsert_job` and `cancel_jobs` of libs/libcommon/src/libcommon/queue.py.
use datasets_server.Prelude.{
  ℕ, nat_eq, text_eq, option_eq, ◌==◌, Eq, Bool, true, false, ◌&&◌, String, Option, [], ◌∷◌,
  any-map, count_split, ltb, suc, count, contains, count-false, count_cong, if◌then◌else◌, ◌≡◌,
  refl, ◌∙◌, ap, ap₂, ◌+◌, arith,
}
use datasets_server.Collection.{Collection}
use datasets_server.Collection.Facts.{any-find}
use datasets_server.Utils.{
  Status, Priority, status_eq, priority_eq, waiting, started, cancelled, normal, low,
}
use datasets_server.Job.{Job, to_dict, priority_value, has_params, has_status, status_in}
use datasets_server.Queue.{new_job, finished, inherited_priority, upsert_job}

beq_refl : {A : Type 0} (e : Eq A) (a : A) → e.beq a a ≡ true
beq_refl e a = (e.beq_iff a a).1 refl

abbrev pub waits : String → String → Option String → Option String → Job → Bool
waits t d c s job = has_params t d c s job && has_status waiting job

-- The dictionary's priority is compared as a text.
by_value :
    (b : Bool) (status : Status) (priority : Priority)
    → ((b && contains status (waiting ∷ [])) && priority_value priority == "normal")
      ≡ ((b && status == waiting) && priority == normal)
by_value b status normal = ground arith
by_value b status low = ground arith

module _ (t d : String) (c s : Option String) where
  has_params-new_job :
      (now pk : ℕ) (p : Priority) → has_params t d c s (new_job now pk t d c s p) ≡ true
  unfolding new_job
  has_params-new_job now pk p =
      rw (beq_refl text_eq t, beq_refl text_eq d, beq_refl option_eq c, beq_refl option_eq s) refl

  -- What the update of `cancel_jobs` makes of a job when only waiting jobs are canceled.
  abbrev pub retired : ℕ → Job → Job
  retired now job =
      if has_params t d c s job && status_in (waiting ∷ []) job
      then finished now cancelled job
      else job

  retired-ne-waits : (now : ℕ) (job : Job) → waits t d c s (retired now job) ≡ false
  retired-ne-waits now job = ground arith

  retired_other :
      (now : ℕ) (q : Job → Bool)
      → ((job : Job) → waits t d c s job ≡ true → q job ≡ false)
      → ((job : Job) → waits t d c s job ≡ true → q (finished now cancelled job) ≡ false)
      → (job : Job) → q (retired now job) ≡ q job
  retired_other now q h k job = ground (arith, h job, k job)

  module _ (C : Collection Job) (canceled_at created_at pk : ℕ) (p : Priority) (db : C.Db) where
    open C use {documents, find, find_law, insert_law, update_law}

    abbrev upserted : Job × C.Db
    upserted = upsert_job C canceled_at created_at pk t d c s p db

    -- The stored jobs after `upsert_job`, by any test.
    pub count-upsert_job :
        (q : Job → Bool)
        → count q (documents upserted.1) ≡ (
            if q upserted.0
            then suc (count (λ j. q (retired canceled_at j)) (documents db))
            else count (λ j. q (retired canceled_at j)) (documents db))
    unfolding upsert_job
    count-upsert_job q = rw (insert_law, update_law) refl

    waits-upsert_job : waits t d c s upserted.0 ≡ true
    unfolding upsert_job new_job
    waits-upsert_job = rw (has_params-new_job created_at pk p) refl

    -- After `upsert_job` exactly one job with these parameters waits.
    pub upsert_job_waits_once : count (waits t d c s) (documents upserted.1) ≡ 1
    upsert_job_waits_once =
        count-upsert_job (waits t d c s)
        ∙ ground (
          arith,
          waits-upsert_job,
          count-false (λ j. waits t d c s (retired canceled_at j)) (documents db)
              (retired-ne-waits canceled_at),
        )

    -- A test that neither the new job, nor a waiting job with these parameters, nor that job once
    -- canceled passes, counts as before: `upsert_job` touches no other job.
    pub upsert_job_frame :
        (q : Job → Bool)
        → ((job : Job) → waits t d c s job ≡ true → q job ≡ false)
        → ((job : Job) → waits t d c s job ≡ true → q (finished canceled_at cancelled job) ≡ false)
        → count q (documents upserted.1) ≡ count q (documents db)
    upsert_job_frame q h k =
        count-upsert_job q
        ∙ ground (
          arith,
          h upserted.0 waits-upsert_job,
          count_cong (λ j. q (retired canceled_at j)) q (documents db)
              (retired_other canceled_at q h k),
        )

    -- The new job has normal priority if it was asked for, or if a job that it replaces had it.
    pub priority-upsert_job : upserted.0.priority ≡ (
        if ltb 0 (count (λ j. waits t d c s j && j.priority == normal) (documents db))
        then normal
        else p)
    unfolding upsert_job new_job inherited_priority to_dict
    priority-upsert_job =
        rw (any-map, any-find C)
          (ap (λ n. if ltb 0 n then normal else p)
            (count_cong _ _ (documents db)
              (λ j. by_value (has_params t d c s j) j.status j.priority)))

    -- A job that is in process after the waiting ones are retired was started before.
    abbrev in_process : (Job → Bool) → Job → Bool
    in_process q j = has_params t d c s j && (status_in (waiting ∷ started ∷ []) j && q j)

    retired_if :
        (q : Job → Bool) (j : Job) (b : Bool)
        → (has_params t d c s j && status_in (waiting ∷ []) j) ≡ b
        → in_process q (if b then finished canceled_at cancelled j else j)
          ≡ (has_params t d c s j && (has_status started j && q j))
    retired_if q j true h = ground (arith, h)
    retired_if q j false h = ground (arith, h)

    retired_in_process :
        (q : Job → Bool) (j : Job)
        → in_process q (retired canceled_at j)
          ≡ (has_params t d c s j && (has_status started j && q j))
    retired_in_process q j = retired_if q j _ refl

    status-upsert_job : upserted.0.status ≡ waiting
    unfolding upsert_job new_job
    status-upsert_job = refl

    -- The new job waits, and the jobs with the parameters in process after `upsert_job` are the new
    -- job and those with the parameters that were started before, by any test `q` of the jobs.
    pub upsert_job_pending :
        (q : Job → Bool)
        → (upserted.0.status ≡ waiting)
          × (count
                (λ j. has_params t d c s j && (status_in (waiting ∷ started ∷ []) j && q j))
                (documents upserted.1)
              ≡ (if q upserted.0 then 1 else 0)
                + count (λ j. has_params t d c s j && (has_status started j && q j)) (documents db))
    upsert_job_pending q = (
      status-upsert_job,
      count-upsert_job (λ j. has_params t d c s j && (status_in (waiting ∷ started ∷ []) j && q j))
          ∙ ground (
            arith,
            waits-upsert_job,
            count_cong _ (λ j. has_params t d c s j && (has_status started j && q j)) (documents db)
                (retired_in_process q),
          ),
    )

    -- Their number.
    pub upsert_job_in_process :
        count
          (λ j. has_params t d c s j && status_in (waiting ∷ started ∷ []) j)
          (documents upserted.1)
        ≡ suc (count (λ j. has_params t d c s j && has_status started j) (documents db))
    upsert_job_in_process =
        count_split _ (waits t d c s) (λ j. has_params t d c s j && has_status started j)
          (documents upserted.1) (λ j. ground arith) (λ j. ground arith)
        ∙ ap₂ ◌+◌ upsert_job_waits_once (
            upsert_job_frame (λ j. has_params t d c s j && has_status started j)
              (λ j h. ground arith) (λ j h. ground arith))
        ∙ omega arith
