-- ===== src/Scheduling/ByPriority.antt =====
-- The job that `_get_next_waiting_job_for_priority` of libs/libcommon/src/libcommon/queue.py chooses.
use mathlib.Core.List.{reverse}
use datasets_server.Prelude.{
  ℕ, ◌≤◌, ◌<◌, text_eq, nat_eq, ◌==◌, Bool, true, false, not, ◌&&◌, String, Option, none, some,
  List, [], ◌∷◌, map, contains, any-reverse, count, count-map, count-le, occurrences, ◌≡◌, sym, ◌∙◌,
  subst, contains-eq-occurrences, eq_iff, arith, Bool-cases, Option-cases, inl, inr, ◌⊎◌,
}
use datasets_server.Collection.{Collection}
use datasets_server.Utils.{Priority, status_eq, priority_eq, started}
use datasets_server.Job.{Job, has_status}
use datasets_server.Scheduling.{
  below_limit, passes_filters, candidate, namespace_groups, pop_groups,
  get_next_waiting_job_for_priority,
}
use datasets_server.Scheduling.Counting.{grouped, grouped_count, grouped_present}

pub some-ne-none : {A : Type 0} {a : A} → some a ≡ none → ⊥
some-ne-none h = cc

-- How many started jobs, among those that the filters keep, have the namespace.
abbrev pub started_in :
    (C : Collection Job) → Option (List String) → Option (List String) → C.Db → String → ℕ
started_in C blocked only db k =
    count (λ job. (has_status started job && passes_filters blocked only job) && job.namespace == k)
      (C.documents db)

-- The document is in the database: every test that it passes counts at least one document.
abbrev pub Stored : (C : Collection Job) → C.Db → Job → Type 0
Stored C db job = (q : Job → Bool) → q job ≡ true → 1 ≤ count q (C.documents db)

module _ (C : Collection Job) (priority : Priority) (blocked only : Option (List String))
    (db : C.Db) where
  open C use {documents, find, first_by, find_law, first_by_none, first_by_passes, first_by_stored}

  module _ (ids : List String) where
    -- The query of a round of the loop.
    abbrev round : List String → Job → Bool
    round names job =
        candidate priority blocked only job
        && (contains job.namespace names && not (contains job.unicity_id ids))

    -- The candidates of one namespace whose identifier is not among the started ones.
    abbrev of_namespace : String → Job → Bool
    of_namespace k job =
        candidate priority blocked only job
        && (job.namespace == k && not (contains job.unicity_id ids))

    pop_groups_sound :
        (groups : List (ℕ × List String)) {job : Job}
        → pop_groups C priority blocked only ids groups db ≡ some job
        → (n : ℕ) × (grouped job.namespace n groups ≡ true)
          × (candidate priority blocked only job ≡ true)
          × (contains job.unicity_id ids ≡ false)
    unfolding pop_groups grouped
    pop_groups_sound [] h = absurd (ground arith)
    pop_groups_sound ((n, names) ∷ groups) {job} h =
        elim (Option-cases (first_by (round names) (λ job. job.created_at) db)) [
          | inl e ↦
              let (m, g, c, u) = pop_groups_sound groups {job = job} (rw (e, pop_groups) at h) in
              (m, ground arith, c, u)
          | inr (found, e) ↦
              let h' : some found ≡ some job = rw (e, pop_groups) at h in
              let passes = first_by_passes (round names) (λ job. job.created_at) db e in
              (n, ground (arith), ground arith, ground arith)
        ]

    pop_groups-Stored :
        (groups : List (ℕ × List String)) {job : Job}
        → pop_groups C priority blocked only ids groups db ≡ some job
        → Stored C db job
    unfolding pop_groups
    pop_groups-Stored [] h = absurd (ground arith)
    pop_groups-Stored ((n, names) ∷ groups) {job} h =
        elim (Option-cases (first_by (round names) (λ job. job.created_at) db)) [
          | inl e ↦ pop_groups-Stored groups {job = job} (rw (e, pop_groups) at h)
          | inr (found, e) ↦
              let h' : some found ≡ some job = rw (e, pop_groups) at h in
              λ q t. first_by_stored (round names) (λ job. job.created_at) db q (e ∙ h') t
        ]

    pop_groups_complete :
        (groups : List (ℕ × List String))
        → pop_groups C priority blocked only ids groups db ≡ none
        → (k : String) (n : ℕ) → grouped k n groups ≡ true
        → count (of_namespace k) (documents db) ≡ 0
    unfolding pop_groups grouped
    pop_groups_complete [] h k n g = absurd (ground arith)
    pop_groups_complete ((m, names) ∷ groups) h k n g =
        elim (Option-cases (first_by (round names) (λ job. job.created_at) db)) [
          | inl e ↦ elim (Bool-cases (contains k names)) [
            | inl t ↦
                let none_here = first_by_none (round names) (λ job. job.created_at) db e in
                let fewer =
                  count-le (of_namespace k) (round names) (documents db)
                    (λ job. ground (arith, eq_iff job.namespace k)) in
                omega arith
            | inr f ↦ pop_groups_complete groups (rw (e, pop_groups) at h) k n (ground arith)
          ]
          | inr (found, e) ↦ let h' : some found ≡ none = rw (e, pop_groups) at h in cc
        ]

  abbrev pub started_jobs : List Job
  started_jobs = find (λ job. has_status started job && passes_filters blocked only job) db

  started_in_lem :
      (k : String)
      → occurrences k (map (λ (job : Job). job.namespace) started_jobs)
        ≡ started_in C blocked only db k
  started_in_lem k =
      count-map _ (λ (job : Job). job.namespace) started_jobs
      ∙ find_law _ (λ job. job.namespace == k) db

  module _ (limit : Option ℕ) where
    abbrev first_attempt : Option Job
    first_attempt =
        first_by
          (λ job.
            candidate priority blocked only job
            && not (contains job.namespace (map (λ (job : Job). job.namespace) started_jobs)))
          (λ job. job.created_at) db

    -- The chosen job waits, has the priority and passes the filters. Either no started job has its
    -- namespace, or some do, fewer than the limit, and none of them has its identifier.
    pub get_next_waiting_job_for_priority_sound :
        {job : Job}
        → get_next_waiting_job_for_priority C limit priority blocked only db ≡ some job
        → (candidate priority blocked only job ≡ true)
          × ((started_in C blocked only db job.namespace ≡ 0)
              ⊎ ((below_limit limit (started_in C blocked only db job.namespace) ≡ true)
                  × (contains job.unicity_id (map (λ (j : Job). j.unicity_id) started_jobs)
                      ≡ false)))
    unfolding get_next_waiting_job_for_priority grouped
    get_next_waiting_job_for_priority_sound {job} h = elim (Option-cases first_attempt) [
      | inl e ↦
          let (n, g, c, u) =
            pop_groups_sound _ _ {job = job} (rw (e, get_next_waiting_job_for_priority) at h) in
          let (o, b) =
            grouped_count limit _ job.namespace n
              (sym (any-reverse _ (namespace_groups limit _)) ∙ g) in
          (
            c,
            inr (
              subst (λ m. below_limit limit m ≡ true) (sym o ∙ started_in_lem job.namespace) b,
              u,
            ),
          )
      | inr (found, e) ↦
          let h' : some found ≡ some job = rw (e, get_next_waiting_job_for_priority) at h in
          let passes = first_by_passes _ (λ job. job.created_at) db e in
          (
            ground arith,
            inl (
                ground (
                  arith,
                  started_in_lem found.namespace,
                  contains-eq-occurrences found.namespace
                      (map (λ (job : Job). job.namespace) started_jobs),
                )),
          )
    ]

    pub get_next_waiting_job_for_priority-Stored :
        {job : Job}
        → get_next_waiting_job_for_priority C limit priority blocked only db ≡ some job
        → Stored C db job
    unfolding get_next_waiting_job_for_priority
    get_next_waiting_job_for_priority-Stored {job} h = elim (Option-cases first_attempt) [
      | inl e ↦ pop_groups-Stored _ _ {job = job} (rw (e, get_next_waiting_job_for_priority) at h)
      | inr (found, e) ↦
          let h' : some found ≡ some job = rw (e, get_next_waiting_job_for_priority) at h in
          λ q t. first_by_stored _ (λ job. job.created_at) db q (e ∙ h') t
    ]

    -- If none is chosen, no candidate of a namespace without started jobs is stored, and none of a
    -- namespace below the limit whose identifier is not among the started ones.
    pub get_next_waiting_job_for_priority_complete :
        get_next_waiting_job_for_priority C limit priority blocked only db ≡ none
        → (k : String)
        → (started_in C blocked only db k ≡ 0
            → count
                (λ job. candidate priority blocked only job && job.namespace == k)
                (documents db)
              ≡ 0)
          × (below_limit limit (started_in C blocked only db k) ≡ true
              → 0 < started_in C blocked only db k
              → count (of_namespace (map (λ (j : Job). j.unicity_id) started_jobs) k) (documents db)
                ≡ 0)
    unfolding get_next_waiting_job_for_priority grouped
    get_next_waiting_job_for_priority_complete h k = elim (Option-cases first_attempt) [
      | inl e ↦ (
        (λ idle.
            let nothing = first_by_none _ (λ job. job.created_at) db e in
            let fewer =
              count-le (λ job. candidate priority blocked only job && job.namespace == k) _
                (documents db)
                (λ job. unstarted idle job.namespace (candidate priority blocked only job)) in
            omega (arith, nothing, fewer)),
        (λ below busy.
            pop_groups_complete _
              (reverse (namespace_groups limit (map (λ (job : Job). job.namespace) started_jobs)))
              (rw (e, get_next_waiting_job_for_priority) at h) k (started_in C blocked only db k)
              (any-reverse _ (namespace_groups limit _)
                ∙ grouped_present limit _ k (started_in C blocked only db k) (started_in_lem k) busy
                    below)),
      )
      | inr (found, e) ↦
          let h' : some found ≡ none = rw (e, get_next_waiting_job_for_priority) at h in
          absurd (some-ne-none h')
    ]
      where
        unstarted :
            started_in C blocked only db k ≡ 0
            → (ns : String) (b : Bool) → (b && ns == k) ≡ true
            → (b && not (contains ns (map (λ (job : Job). job.namespace) started_jobs))) ≡ true
        unstarted idle ns b h = ground (
          arith,
          eq_iff ns k,
          started_in_lem k,
          contains-eq-occurrences k (map (λ (job : Job). job.namespace) started_jobs),
        )
