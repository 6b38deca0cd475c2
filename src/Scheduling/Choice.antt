-- ===== src/Scheduling/Choice.antt =====
-- The job that `get_next_waiting_job` of libs/libcommon/src/libcommon/queue.py chooses.
use datasets_server.Prelude.{
  ℕ, ◌<◌, text_eq, nat_eq, ◌==◌, Bool, true, false, not, ◌&&◌, String, Option, none, some, List,
  map, contains, ltb, ltb→lt, count, ◌≡◌, sym, ◌∙◌, arith, Bool-cases, Option-cases, inl, inr, ◌⊎◌,
}
use datasets_server.Collection.{Collection}
use datasets_server.Utils.{Priority, status_eq, priority_eq, waiting, started, normal, low}
use datasets_server.Job.{Job, has_status}
use datasets_server.Scheduling.{
  below_limit, passes_filters, candidate, get_next_waiting_job_for_priority, get_next_waiting_job,
}
use datasets_server.Scheduling.ByPriority.{
  some-ne-none, started_in, Stored, get_next_waiting_job_for_priority_sound,
  get_next_waiting_job_for_priority-Stored, get_next_waiting_job_for_priority_complete,
}

low-ne-normal : low ≡ normal → ⊥
low-ne-normal h = cc

not_ltb_zero : (n : ℕ) → ltb 0 n ≡ false → n ≡ 0
not_ltb_zero n h = ground arith

module _ (C : Collection Job) (blocked only : Option (List String)) (db : C.Db)
    (limit : Option ℕ) where
  -- What `start_job` may rely on: the job is stored and waits, passes the filters, and its
  -- namespace and identifier leave room for it.
  pub record IsStartable (job : Job) : Type 0 where
    pub stored : Stored C db job
    pub waits : has_status waiting job ≡ true
    pub passes : passes_filters blocked only job ≡ true
    pub room :
        (started_in C blocked only db job.namespace ≡ 0)
        ⊎ ((below_limit limit (started_in C blocked only db job.namespace) ≡ true)
            × (contains job.unicity_id (
                  map
                    (λ (j : Job). j.unicity_id)
                    (C.find (λ job. has_status started job && passes_filters blocked only job) db))
                ≡ false))

  startable :
      (priority : Priority) {job : Job}
      → get_next_waiting_job_for_priority C limit priority blocked only db ≡ some job
      → IsStartable job × (job.priority == priority ≡ true)
  startable priority {job} h =
      let (c, r) =
        get_next_waiting_job_for_priority_sound C priority blocked only db limit {job = job} h in
      (
        record {
          stored =
              get_next_waiting_job_for_priority-Stored C priority blocked only db limit {job = job}
                h;
          waits = ground arith;
          passes = ground arith;
          room = r;
        },
        ground arith,
      )

  pub get_next_waiting_job-IsStartable :
      {job : Job} → get_next_waiting_job C limit blocked only db ≡ some job → IsStartable job
  unfolding get_next_waiting_job
  get_next_waiting_job-IsStartable {job} h =
      elim (Option-cases (get_next_waiting_job_for_priority C limit normal blocked only db)) [
        | inl e ↦ (startable low {job = job} (rw (e, get_next_waiting_job) at h)).0
        | inr (found, e) ↦ (startable normal {job = job} (e ∙ rw (e, get_next_waiting_job) at h)).0
      ]

  -- The candidates of a namespace whose identifier is among no started job.
  abbrev pub fresh_candidate : Priority → String → Job → Bool
  fresh_candidate priority k job =
      candidate priority blocked only job
      && (job.namespace == k
          && not (
              contains job.unicity_id (
                map (λ (j : Job). j.unicity_id)
                  (C.find (λ job. has_status started job && passes_filters blocked only job) db))))

  -- Nothing of the namespace can be started: there are started jobs there or no candidate is
  -- stored; and there are none, or as many as the limit, or no candidate is stored whose identifier
  -- is not started already.
  abbrev pub Exhausted : Priority → String → Type 0
  Exhausted priority k =
      ((0 < started_in C blocked only db k)
        ⊎ (count (λ j. candidate priority blocked only j && j.namespace == k) (C.documents db) ≡ 0))
      × ((started_in C blocked only db k ≡ 0)
          ⊎ ((below_limit limit (started_in C blocked only db k) ≡ false)
              ⊎ (count (fresh_candidate priority k) (C.documents db) ≡ 0)))

  exhausted :
      (priority : Priority) (k : String)
      → (started_in C blocked only db k ≡ 0
          → count (λ j. candidate priority blocked only j && j.namespace == k) (C.documents db) ≡ 0)
        × (below_limit limit (started_in C blocked only db k) ≡ true
            → 0 < started_in C blocked only db k
            → count (fresh_candidate priority k) (C.documents db) ≡ 0)
      → Exhausted priority k
  exhausted priority k (idle, busy) = elim (Bool-cases (ltb 0 (started_in C blocked only db k))) [
    | inl some_started ↦
        let some_started = ltb→lt 0 _ some_started in
        (
          inl some_started,
          elim (Bool-cases (below_limit limit (started_in C blocked only db k))) [
            | inl below ↦ inr (inr (busy below some_started))
            | inr full ↦ inr (inl full)
          ],
        )
    | inr none_started ↦
        let zero_started = not_ltb_zero _ none_started in
        (inr (idle zero_started), inl zero_started)
  ]

  -- A job that `get_next_waiting_job` chooses waits and passes the filters, and for any test that it
  -- passes such a job is stored. Its namespace has no started job, or fewer than the limit and no
  -- started job, among those that pass the filters, has its identifier.
  pub get_next_waiting_job_sound :
      (q : Job → Bool) {job : Job}
      → get_next_waiting_job C limit blocked only db ≡ some job
      → q job ≡ true
      → (has_status waiting job ≡ true)
        × (passes_filters blocked only job ≡ true)
        × (0
            < count
                (λ j. has_status waiting j && (passes_filters blocked only j && q j))
                (C.documents db))
        × ((started_in C blocked only db job.namespace ≡ 0)
            ⊎ ((below_limit limit (started_in C blocked only db job.namespace) ≡ true)
                × (contains job.unicity_id (
                      map
                        (λ (j : Job). j.unicity_id)
                        (C.find
                          (λ job. has_status started job && passes_filters blocked only job)
                          db))
                    ≡ false)))
  get_next_waiting_job_sound q {job} h passes_q =
      let s = get_next_waiting_job-IsStartable {job = job} h in
      (
        s.waits,
        s.passes,
        s.stored (λ j. has_status waiting j && (passes_filters blocked only j && q j))
            (rw (s.waits, s.passes) passes_q),
        s.room,
      )

  -- If no job is chosen, then nothing can be started, of either priority, in any namespace.
  pub get_next_waiting_job-none :
      get_next_waiting_job C limit blocked only db ≡ none
      → (priority : Priority) (k : String) → Exhausted priority k
  unfolding get_next_waiting_job
  get_next_waiting_job-none h priority k =
      elim (Option-cases (get_next_waiting_job_for_priority C limit normal blocked only db)) [
        | inl e ↦ by_priority priority e (rw (e, get_next_waiting_job) at h)
        | inr (found, e) ↦ absurd (some-ne-none {a = found} (rw (e, get_next_waiting_job) at h))
      ]
    where
      by_priority :
          (priority : Priority)
          → get_next_waiting_job_for_priority C limit normal blocked only db ≡ none
          → get_next_waiting_job_for_priority C limit low blocked only db ≡ none
          → Exhausted priority k
      by_priority normal e f =
          exhausted normal k
            (get_next_waiting_job_for_priority_complete C normal blocked only db limit e k)
      by_priority low e f =
          exhausted low k
            (get_next_waiting_job_for_priority_complete C low blocked only db limit f k)

  -- A job of low priority is chosen only if nothing of normal priority can be started.
  pub get_next_waiting_job_low :
      {job : Job}
      → get_next_waiting_job C limit blocked only db ≡ some job
      → job.priority ≡ low
      → (k : String) → Exhausted normal k
  unfolding get_next_waiting_job
  get_next_waiting_job_low {job} h l k =
      elim (Option-cases (get_next_waiting_job_for_priority C limit normal blocked only db)) [
        | inl e ↦
            exhausted normal k
              (get_next_waiting_job_for_priority_complete C normal blocked only db limit e k)
        | inr (found, e) ↦
            let s = (startable normal {job = job} (e ∙ rw (e, get_next_waiting_job) at h)).1 in
            absurd (low-ne-normal (sym l ∙ (priority_eq.beq_iff job.priority normal).0 s))
      ]
