-- ===== src/Scheduling/Starting.antt =====
-- `start_job` of libs/libcommon/src/libcommon/queue.py: what it keeps true of the started jobs.
use datasets_server.Prelude.{
  ℕ, ◌+◌, ◌≤◌, ◌<◌, text_eq, option_eq, nat_eq, ◌==◌, Bool, true, false, not, ◌&&◌, ◌||◌, String,
  Option, none, some, List, [], ◌∷◌, map, ltb→lt, count, count-map, count-le, count_cover,
  contains-eq-occurrences, ◌≡◌, ◌≢◌, refl, sym, ◌∙◌, ap, subst, arith, &&_true, Bool-cases,
  Option-cases, inl, inr, eq_iff,
}
use datasets_server.Collection.{Collection}
use datasets_server.Utils.{Priority, status_eq, priority_eq, started, inputs_to_string, before}
use datasets_server.Utils.Injective.{
  comma_free, comma_free_opt, is_input, inputs_to_string_injective,
}
use datasets_server.Job.{Job, has_status, info}
use datasets_server.Scheduling.{
  below_limit, passes_filters, get_next_waiting_job, started_now, checked, start_job, StartResult,
  blocked_type, other_type, empty_queue, job_started,
}
use datasets_server.Scheduling.ByPriority.{started_in, Stored}
use datasets_server.Scheduling.Choice.{
  IsStartable, Exhausted, get_next_waiting_job-IsStartable, get_next_waiting_job-none,
}

-- The primary key of MongoDB is unique.
abbrev pub UniqueKeys : (C : Collection Job) → C.Db → Type 0
UniqueKeys C db = (k : ℕ) → count (λ j. j.pk == k) (C.documents db) ≤ 1

-- The documents of one key are one document: what the stored one fails, none of them passes.
only_one :
    (C : Collection Job) (db : C.Db) {job : Job}
    → UniqueKeys C db
    → Stored C db job
    → (q : Job → Bool) → q job ≡ false
    → count (λ j. j.pk == job.pk && q j) (C.documents db) ≡ 0
only_one C db {job} unique stored q fails =
    let once =
      stored (λ j. j.pk == job.pk && not (q j)) (ground (arith, nat_eq.beq_iff job.pk job.pk)) in
    let sum = both (C.documents db) in omega (arith, unique job.pk)
  where
    both :
        (xs : List Job)
        → count (λ j. j.pk == job.pk && q j) xs + count (λ j. j.pk == job.pk && not (q j)) xs
          ≡ count (λ j. j.pk == job.pk) xs
    both [] = refl
    both (x ∷ xs) = ground (arith, both xs)

-- The identifier and the namespace are those that `_add_job` computes, from texts with no comma.
abbrev pub is_named : Job → Bool
is_named job =
    (comma_free job.type && (comma_free job.dataset && comma_free_opt job.config))
    && (is_input job.config job.split
        && (job.unicity_id == inputs_to_string job.dataset job.config job.split (some job.type)
            && job.namespace == before 47 job.dataset))

-- Named jobs of one identifier have one type and one namespace.
named_alike :
    (a b : Job)
    → is_named a ≡ true
    → is_named b ≡ true
    → a.unicity_id ≡ b.unicity_id
    → (a.type ≡ b.type) × (a.namespace ≡ b.namespace)
named_alike a b ha hb e =
    let (fa, ra) = &&_true _ _ ha in
    let (fb, rb) = &&_true _ _ hb in
    let (ta, ga) = &&_true (comma_free a.type) _ fa in
    let (tb, gb) = &&_true (comma_free b.type) _ fb in
    let (da, ca) = &&_true (comma_free a.dataset) _ ga in
    let (db, cb) = &&_true (comma_free b.dataset) _ gb in
    let (ia, na) = &&_true (is_input a.config a.split) _ ra in
    let (ib, nb) = &&_true (is_input b.config b.split) _ rb in
    let (ua, sa) =
      &&_true (a.unicity_id == inputs_to_string a.dataset a.config a.split (some a.type)) _ na in
    let (ub, sb) =
      &&_true (b.unicity_id == inputs_to_string b.dataset b.config b.split (some b.type)) _ nb in
    let same = sym ((eq_iff _ _).0 ua) ∙ e ∙ (eq_iff _ _).0 ub in
    let (t, d, _, _) =
      inputs_to_string_injective a.type a.dataset b.type b.dataset a.config a.split b.config b.split
        ta da tb db ca cb ia ib same in
    (t, (eq_iff _ _).0 sa ∙ ap (before 47) d ∙ sym ((eq_iff _ _).0 sb))

checked_passes :
    (blocked only : Option (List String)) (job other : Job)
    → other.type ≡ job.type
    → passes_filters blocked only job ≡ true
    → checked blocked only other ≡ job_started (info other)
unfolding checked
checked_passes blocked only job other same h = rw same (ground (arith))

checked-ne-empty_queue :
    (blocked only : Option (List String)) (other : Job) → checked blocked only other ≢ empty_queue
unfolding checked
checked-ne-empty_queue blocked only other h = ground arith

module _ (C : Collection Job) (loaded : Job → Job) (now : ℕ) (limit : Option ℕ)
    (blocked only : Option (List String)) (db : C.Db) where
  open C use {documents, update_law}

  abbrev after : StartResult × C.Db
  after = start_job C loaded now limit blocked only db

  -- A test counts, after `start_job`, at most what it counted before and the started job.
  started_grows :
      {job : Job}
      → get_next_waiting_job C limit blocked only db ≡ some job
      → (q r : Job → Bool) → ((j : Job) → q (started_now now j) ≡ true → r j ≡ true)
      → count q (documents after.1)
        ≤ count q (documents db) + count (λ j. j.pk == job.pk && r j) (documents db)
  unfolding start_job
  started_grows {job} h q r implies =
      rw (h, start_job)
        (rw update_law (
          count_cover _ q (λ j. j.pk == job.pk && r j) (documents db)
            (λ j. ground (arith, implies j))))

  unchanged : get_next_waiting_job C limit blocked only db ≡ none → after ≡ (empty_queue, db)
  unfolding start_job
  unchanged h = rw (h, start_job)

  -- `start_job` returns the job or raises `EmptyQueueError`: it never raises `RuntimeError`, if
  -- `.only(...)` keeps the type of the document.
  pub start_job_never_other_type :
      ((job : Job) → (loaded job).type ≡ job.type)
      → (after.0 ≢ blocked_type) × (after.0 ≢ other_type)
  unfolding start_job
  start_job_never_other_type keeps =
      elim (Option-cases (get_next_waiting_job C limit blocked only db)) [
        | inl e ↦ rw (e, start_job) ((λ p. cc), (λ p. cc))
        | inr (job, e) ↦
            let ok =
              checked_passes blocked only job (loaded job) (keeps job)
                (get_next_waiting_job-IsStartable C blocked only db limit {job = job} e).passes in
            rw (e, start_job) ((λ p. cc), (λ p. cc))
      ]

  -- If `start_job` raises `EmptyQueueError`, nothing can be started and the jobs are as before.
  pub start_job_empty :
      after.0 ≡ empty_queue
      → (after.1 ≡ db)
        × ((priority : Priority) (k : String) → Exhausted C blocked only db limit priority k)
  unfolding start_job
  start_job_empty h = elim (Option-cases (get_next_waiting_job C limit blocked only db)) [
    | inl e ↦ (ap (λ r. r.1) (unchanged e), get_next_waiting_job-none C blocked only db limit e)
    | inr (job, e) ↦
        absurd (checked-ne-empty_queue blocked only (loaded job) (rw (e, start_job) at h))
  ]

  room_below :
      (n : ℕ) {job : Job}
      → limit ≡ some n
      → 0 < n
      → IsStartable C blocked only db limit job
      → started_in C blocked only db job.namespace < n
  room_below n {job} bound positive s = elim s.room [
    | inl none_started ↦ omega arith
    | inr (below, _) ↦
        ltb→lt _ n (
          subst (λ l. below_limit l (started_in C blocked only db job.namespace) ≡ true) bound
            below)
  ]

  Stored-named :
      (job : Job)
      → Stored C db job
      → count (λ j. not (is_named j)) (documents db) ≡ 0
      → is_named job ≡ false
      → ⊥
  Stored-named job stored named f =
      let one = stored (λ j. not (is_named j)) (rw f refl) in omega arith

  -- A named job of the same identifier has the namespace, and passes the same filters.
  covered :
      (job j : Job)
      → is_named job ≡ true
      → passes_filters blocked only job ≡ true
      → (j.unicity_id == job.unicity_id) ≡ true
      → ((passes_filters blocked only j && j.namespace == job.namespace) || not (is_named j)) ≡ true
  covered job j nj p same = elim (Bool-cases (is_named j)) [
    | inl t ↦
        let (ty, ns) = named_alike j job t nj ((eq_iff _ _).0 same) in
        rw (ty, ns, p, (eq_iff job.namespace job.namespace).1 refl) refl
    | inr f ↦ rw f (ground arith)
  ]

  -- No started job has the identifier of a job that can be started.
  unstarted :
      {job : Job}
      → count (λ j. not (is_named j)) (documents db) ≡ 0
      → IsStartable C blocked only db limit job
      → count (λ j. has_status started j && j.unicity_id == job.unicity_id) (documents db) ≡ 0
  unstarted {job} named s =
      let named_job : is_named job ≡ true = elim (Bool-cases (is_named job)) [
        | inl t ↦ t
        | inr f ↦ absurd (Stored-named job s.stored named f)
      ] in
      elim s.room [
        | inl none_started ↦
            let fewer =
              count_cover (λ j. has_status started j && j.unicity_id == job.unicity_id)
                (λ j.
                  (has_status started j && passes_filters blocked only j)
                  && j.namespace == job.namespace)
                (λ j. not (is_named j)) (documents db)
                (λ j. ground (arith, covered job j named_job s.passes)) in
            omega arith
        | inr (_, absent) ↦
            let ids =
              map (λ (j : Job). j.unicity_id)
                (C.find (λ j. has_status started j && passes_filters blocked only j) db) in
            let counted =
              count-map (λ u. u == job.unicity_id) (λ (j : Job). j.unicity_id)
                (C.find (λ j. has_status started j && passes_filters blocked only j) db)
              ∙ C.find_law _ (λ j. j.unicity_id == job.unicity_id) db in
            let fewer =
              count_cover (λ j. has_status started j && j.unicity_id == job.unicity_id)
                (λ j.
                  (has_status started j && passes_filters blocked only j)
                  && j.unicity_id == job.unicity_id)
                (λ j. not (is_named j)) (documents db)
                (λ j. ground (arith, covered job j named_job s.passes)) in
            ground (arith, contains-eq-occurrences job.unicity_id ids, counted, fewer)
      ]

  module _ (unique : UniqueKeys C db) where
    -- Where primary keys are unique and the limit is positive: if no namespace has more started
    -- jobs than the limit, among those that the filters keep, then `start_job` keeps it so.
    pub start_job_limit :
        (n : ℕ)
        → limit ≡ some n
        → 0 < n
        → ((k : String) → started_in C blocked only db k ≤ n)
        → (k : String) → started_in C blocked only after.1 k ≤ n
    start_job_limit n bound positive within k =
        elim (Option-cases (get_next_waiting_job C limit blocked only db)) [
          | inl e ↦
              subst (λ (r : StartResult × C.Db). started_in C blocked only r.1 k ≤ n)
                (sym (unchanged e)) (within k)
          | inr (job, e) ↦
              let s = get_next_waiting_job-IsStartable C blocked only db limit {job = job} e in
              let grown =
                started_grows {job = job} e
                  (λ j. (has_status started j && passes_filters blocked only j) && j.namespace == k)
                  (λ j. j.namespace == k) (λ j. ground arith) in
              elim (Bool-cases (job.namespace == k)) [
                | inl same ↦
                    let less =
                      subst (λ m. started_in C blocked only db m < n)
                        ((eq_iff job.namespace k).0 same) (room_below n bound positive s) in
                    let one =
                      count-le (λ j. j.pk == job.pk && j.namespace == k) (λ j. j.pk == job.pk)
                        (documents db) (λ j. ground arith) in
                    omega (arith, unique job.pk, grown, less, one)
                | inr other ↦ omega (
                  arith,
                  within k,
                  only_one C db {job = job} unique s.stored (λ j. j.namespace == k) other,
                  grown,
                )
              ]
        ]

    -- Where primary keys are unique, and every stored job has the identifier and namespace that
    -- `_add_job` computes from texts with no comma in them: if every identifier has at most one
    -- started job, then `start_job` keeps it so.
    pub start_job_unicity :
        count (λ j. not (is_named j)) (documents db) ≡ 0
        → ((u : String) → count (λ j. has_status started j && j.unicity_id == u) (documents db) ≤ 1)
        → (u : String)
        → count (λ j. has_status started j && j.unicity_id == u) (documents after.1) ≤ 1
    start_job_unicity named once u =
        elim (Option-cases (get_next_waiting_job C limit blocked only db)) [
          | inl e ↦
              subst
                (λ (r : StartResult × C.Db).
                  count (λ j. has_status started j && j.unicity_id == u) (documents r.1) ≤ 1)
                (sym (unchanged e)) (once u)
          | inr (job, e) ↦
              let s = get_next_waiting_job-IsStartable C blocked only db limit {job = job} e in
              let grown =
                started_grows {job = job} e (λ j. has_status started j && j.unicity_id == u)
                  (λ j. j.unicity_id == u) (λ j. ground arith) in
              elim (Bool-cases (job.unicity_id == u)) [
                | inl same ↦
                    let zero =
                      subst
                        (λ m.
                          count (λ j. has_status started j && j.unicity_id == m) (documents db) ≡ 0)
                        ((eq_iff job.unicity_id u).0 same) (unstarted named s) in
                    let one =
                      count-le (λ j. j.pk == job.pk && j.unicity_id == u) (λ j. j.pk == job.pk)
                        (documents db) (λ j. ground arith) in
                    omega (arith, unique job.pk, grown, zero, one)
                | inr other ↦ omega (
                  arith,
                  once u,
                  only_one C db {job = job} unique s.stored (λ j. j.unicity_id == u) other,
                  grown,
                )
              ]
        ]
