-- ===== src/Worker/Manager/Writes.antt =====
-- What `JobManager.process` of services/worker/src/worker/job_manager.py leaves in the cache.
use datasets_server.Prelude.{
  ◌≤◌, nat_eq, text_eq, option_eq, ◌==◌, ◌&&◌, Bool, true, false, String, Option, none, some, ltb,
  ◌≡◌, refl, inl, inr, ap, subst, arith, Bool-cases,
}
use datasets_server.Collection.{Collection}
use datasets_server.Cache
use datasets_server.Cache.{
  CachedResponse, Response, has_key, created, get_response_with_details, upsert_response,
  upsert_response_params,
}
use datasets_server.Cache.Writes.{
  UniqueIndex, entry_written, get_response_with_details-upsert_response_other,
}
use datasets_server.Worker.Failures.{
  Failure, dataset_not_found, custom, other, to_custom_error, unexpected_error,
  no_git_revision_error,
}
use datasets_server.Worker.Manager.{
  Try, returned, raised, JobResult, Wording, World, Managed, JobManager, get_dataset_git_revision,
  kept_revision, compute_content, finally_done, validated, computed, checked_parallel, ok_response,
  error_response, process_failed, stored_result, processed, process,
}

module _ (W : World) (cache : Collection CachedResponse) (words : Wording)
    (m : JobManager W cache words) where
  abbrev pub kind : String
  kind = m.job_runner.processing_step.cache_kind

  -- The entry of the job's step and parameters.
  abbrev pub entry_of_job : cache.Db → Cache.Result Cache.CacheEntryWithDetails
  entry_of_job db =
      get_response_with_details cache kind m.params.dataset m.params.config m.params.split db

  abbrev pub Stored : Response → cache.Db → Type 0
  Stored response db = entry_of_job db ≡ Cache.Result.ok (entry_written m.now response)

  -- How the outer `try` of `process` ends: with a revision and a result, or with the revision that was
  -- known and an exception.
  pub data Attempt : Type 0 where
    done : (revision : String) → JobResult → Attempt
    failed : (revision : Option String) → Failure → Attempt

  abbrev content_of : (revision : String) → Try JobResult → Attempt
  content_of revision (returned result) = done revision result
  content_of revision (raised e) = failed (some revision) e

  abbrev attempt_of : Try (Option String) × Managed W cache words → Attempt
  attempt_of (raised e, s) = failed none e
  attempt_of (returned none, s) =
      failed none (custom (no_git_revision_error (words.no_revision m.params.dataset)))
  attempt_of (returned (some revision), s) =
      content_of revision (compute_content W cache words m revision s.responses s.outside).0

  abbrev pub attempted : Managed W cache words → Attempt
  attempted s = attempt_of (get_dataset_git_revision W cache words m s)

  abbrev write : Response → cache.Db → cache.Db
  write response db =
      upsert_response cache kind m.params.dataset m.params.config m.params.split m.now m.id response
        db

  -- What a call of `process` that ends so does to the responses: nothing, or the write of one.
  abbrev Written : Attempt → (db : cache.Db) (answer : Bool) (db' : cache.Db) → Type 0
  Written (done revision result) db answer db' =
      (answer ≡ true)
      × (W.json_size result.content ≤ m.content_max_bytes)
      × (db' ≡ write (ok_response W cache words m revision result) db)
  Written (failed revision (dataset_not_found e)) db answer db' = (answer ≡ false) × (db' ≡ db)
  Written (failed revision (custom e)) db answer db' =
      (answer ≡ false) × (db' ≡ write (error_response W cache words m revision e) db)
  Written (failed revision (other c)) db answer db' =
      (answer ≡ false)
      × (db' ≡ write (error_response W cache words m revision (unexpected_error c)) db)

  abbrev WrittenBy : Attempt → Managed W cache words → Bool × Managed W cache words → Type 0
  WrittenBy attempt s after = Written attempt s.responses after.0 after.1.responses

  process_failed-Written :
      (revision : Option String) (e : Failure) (s : Managed W cache words)
      → WrittenBy (failed revision e) s (process_failed W cache words m revision e s)
  unfolding process_failed upsert_response_params to_custom_error
  process_failed-Written revision (dataset_not_found e) s = (refl, refl)
  process_failed-Written revision (custom e) s = (refl, refl)
  process_failed-Written revision (other c) s = (refl, refl)

  -- A content that is returned is within the limit.
  abbrev Bounded : Try JobResult → Type 0
  Bounded (returned result) = W.json_size result.content ≤ m.content_max_bytes
  Bounded (raised _) = Unit

  validated-Bounded : (t : Try JobResult) → Bounded (validated W cache words m.content_max_bytes t)
  validated-Bounded (returned result) =
      elim (Bool-cases (ltb m.content_max_bytes (W.json_size result.content))) [
        | inl big ↦ rw big tt
        | inr fits ↦ rw fits (ground arith)
      ]
  validated-Bounded (raised e) = tt

  computed-Bounded :
      (db : cache.Db) (t : Try (Unit {0}) × W.Outside) → Bounded (computed W cache words m db t).0
  computed-Bounded db (returned u, outside) = validated-Bounded _
  computed-Bounded db (raised e, outside) = tt

  finally_done-Bounded :
      (result : Try JobResult) (t : Try (Unit {0}) × W.Outside)
      → Bounded result
      → Bounded (finally_done W cache words result t).0
  finally_done-Bounded result (returned u, outside) h = h
  finally_done-Bounded result (raised e, outside) h = tt

  stored_result-Written :
      (revision : String) (s : Managed W cache words) (t : Try JobResult × W.Outside)
      → Bounded t.0
      → WrittenBy (content_of revision t.0) s (stored_result W cache words m revision s t)
  unfolding upsert_response_params
  stored_result-Written revision s (returned result, outside) h = (refl, h, refl)
  stored_result-Written revision s (raised e, outside) h =
      process_failed-Written (some revision) e (record s { outside = outside })

  compute_content-Bounded :
      (revision : String) (s : Managed W cache words)
      → Bounded (compute_content W cache words m revision s.responses s.outside).0
  unfolding compute_content
  compute_content-Bounded revision s =
      let ready =
        checked_parallel W cache words m revision s.responses
          (m.job_runner.pre_compute s.responses s.outside) in
      let (result, outside) = computed W cache words m s.responses ready in
      finally_done-Bounded result (m.job_runner.post_compute s.responses outside)
        (computed-Bounded s.responses ready)

  processed-Written :
      (t : Try (Option String) × Managed W cache words)
      → WrittenBy (attempt_of t) t.1 (processed W cache words m t)
  processed-Written (raised e, s) = process_failed-Written none e s
  processed-Written (returned none, s) =
      process_failed-Written none
        (custom (no_git_revision_error (words.no_revision m.params.dataset))) s
  processed-Written (returned (some revision), s) =
      stored_result-Written revision s
        (compute_content W cache words m revision s.responses s.outside)
        (compute_content-Bounded revision s)

  -- Asking for the revision leaves the responses.
  kept_revision_responses :
      (s : Managed W cache words) (t : Try (Option String) × W.Outside)
      → (kept_revision W cache words s t).1.responses ≡ s.responses
  kept_revision_responses s (returned r, outside) = refl
  kept_revision_responses s (raised e, outside) = refl

  asked_responses :
      (s : Managed W cache words) (known : Option String)
      → (elim known as (λ _. Try (Option String) × Managed W cache words) [
        | some revision ↦ (returned (some revision), s)
        | none ↦ kept_revision W cache words s (W.git_revision m.params.dataset s.outside)
      ]).1.responses
        ≡ s.responses
  asked_responses s none = kept_revision_responses s _
  asked_responses s (some r) = refl

  get_dataset_git_revision_responses :
      (s : Managed W cache words)
      → (get_dataset_git_revision W cache words m s).1.responses ≡ s.responses
  unfolding get_dataset_git_revision
  get_dataset_git_revision_responses s = asked_responses s s.dataset_git_revision

  process-Written :
      (s : Managed W cache words) → WrittenBy (attempted s) s (process W cache words m s)
  unfolding process
  process-Written s =
      subst
        (λ db.
          Written (attempted s) db (process W cache words m s).0
            (process W cache words m s).1.responses)
        (get_dataset_git_revision_responses s)
        (processed-Written (get_dataset_git_revision W cache words m s))

  abbrev after : Managed W cache words → cache.Db
  after s = (process W cache words m s).1.responses

  -- What `process` answers, and what the entry of the job is then, by the end of its `try`.
  abbrev pub Cases : Attempt → (db : cache.Db) → Bool → cache.Db → Type 0
  Cases (done revision result) db answer db' =
      (answer ≡ true)
      × (W.json_size result.content ≤ m.content_max_bytes)
      × Stored (ok_response W cache words m revision result) db'
  Cases (failed revision (dataset_not_found e)) db answer db' = (answer ≡ false) × (db' ≡ db)
  Cases (failed revision (custom e)) db answer db' =
      (answer ≡ false) × Stored (error_response W cache words m revision e) db'
  Cases (failed revision (other c)) db answer db' =
      (answer ≡ false) × Stored (error_response W cache words m revision (unexpected_error c)) db'

  module _ (k d : String) (c sp : Option String)
      (other : (kind == k
          && (m.params.dataset == d && (m.params.config == c && m.params.split == sp)))
        ≡ false) where
    other_key :
        (response : Response)
        → has_key k d c sp
            (created m.now m.id kind m.params.dataset m.params.config m.params.split response)
          ≡ false
    unfolding created
    other_key response = other

    write_other :
        (response : Response) (db db' : cache.Db)
        → UniqueIndex cache db
        → db' ≡ write response db
        → get_response_with_details cache k d c sp db' ≡ get_response_with_details cache k d c sp db
    write_other response db db' unique same = rw same (
        get_response_with_details-upsert_response_other cache kind m.params.dataset m.params.config
          m.params.split m.now m.id response db unique k d c sp (other_key response))

    Written-other :
        (attempt : Attempt) (answer : Bool) (db db' : cache.Db)
        → UniqueIndex cache db
        → Written attempt db answer db'
        → get_response_with_details cache k d c sp db' ≡ get_response_with_details cache k d c sp db
    Written-other (done revision result) answer db db' unique (_, _, same) =
        write_other (ok_response W cache words m revision result) db db' unique same
    Written-other (failed revision (dataset_not_found e)) answer db db' unique (_, same) =
        ap (get_response_with_details cache k d c sp) same
    Written-other (failed revision (custom e)) answer db db' unique (_, same) =
        write_other (error_response W cache words m revision e) db db' unique same
    Written-other (failed revision (Failure.other c')) answer db db' unique (_, same) =
        write_other (error_response W cache words m revision (unexpected_error c')) db db' unique
          same

    -- If the index on the key is unique before `process`, an entry whose kind, dataset, config and split
    -- are not all those of the job reads after it as before.
    pub process_other :
        (s : Managed W cache words)
        → UniqueIndex cache s.responses
        → get_response_with_details cache k d c sp (process W cache words m s).1.responses
          ≡ get_response_with_details cache k d c sp s.responses
    process_other s unique =
        Written-other (attempted s) (process W cache words m s).0 s.responses (after s) unique
          (process-Written s)
