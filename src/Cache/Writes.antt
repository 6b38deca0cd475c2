-- ===== src/Cache/Writes.antt =====
-- `upsert_response` and the reads of libs/libcommon/src/libcommon/simple_cache.py.
pub mod Refinement
use native.Mathlib.Decide.{ℕ_discrete}
use mathlib.Core.Bool.{decide, decide_iff}
use datasets_server.Prelude.{
  ℕ, zero, suc, ◌≤◌, text_eq, option_eq, ◌==◌, Bool, true, false, ◌&&◌, String, Option, none, some,
  List, [], ◌∷◌, count, count_cong, count-le, length, if◌then◌else◌, ◌≡◌, refl, sym, ◌∙◌, ap, arith,
  &&_true, Bool-cases, ◌⊎◌, inl, inr, eq_iff,
}
use datasets_server.Collection.{Collection}
use datasets_server.Collection.Facts.{length-find}
use datasets_server.Json.{Json, object, end}
use datasets_server.Cache.{
  CachedResponse, Response, ok, has_key, written, created, upsert_response, get_one, result_map,
  get_response_with_details, with_details_of, CacheEntryWithDetails,
}

String-discrete : Discrete String
String-discrete s t = elim (Bool-cases (s == t)) [
  | inl e ↦ yes ((eq_iff s t).0 e)
  | inr e ↦ no (λ p. absurd (different s t e p))
]
  where
    different : (s t : String) → (s == t) ≡ false → s ≡ t → ⊥
    different s t e p = ground (arith, eq_iff s t)

Json-discrete : Discrete Json
Json-discrete = hlevel (String-discrete, ℕ_discrete)

CachedResponse-discrete : Discrete CachedResponse
CachedResponse-discrete = hlevel (String-discrete, ℕ_discrete, Json-discrete)

WithDetails-discrete : Discrete CacheEntryWithDetails
WithDetails-discrete = hlevel (String-discrete, ℕ_discrete, Json-discrete)

-- A list of one element that passes a test.
single :
    {A : Type 0} (l : List A) (q : A → Bool)
    → length l ≡ 1
    → count q l ≡ 1
    → (r : A) × (l ≡ r ∷ []) × (q r ≡ true)
single [] q h k = absurd (omega arith)
single (r ∷ []) q h k = (r, refl, ground arith)
single (r ∷ s ∷ l) q h k = absurd (omega arith)

-- Two lists of at most one element that pass the same tests are equal.
same_single :
    {A : Type 0} (d : Discrete A) (l m : List A)
    → ((q : A → Bool) → count q l ≡ count q m)
    → length l ≤ 1
    → l ≡ m
same_single d [] [] same h = refl
same_single d [] (b ∷ m) same h = absurd (omega (arith, same (λ _. true)))
same_single d (a ∷ []) [] same h = absurd (omega (arith, same (λ _. true)))
same_single d (a ∷ []) (b ∷ []) same h =
    let first = (decide_iff (d a a)).1 refl in
    let s = same (λ x. decide (d x a)) in let e = (decide_iff (d b a)).0 (ground arith) in cc
same_single d (a ∷ []) (b ∷ c ∷ m) same h = absurd (omega (arith, same (λ _. true)))
same_single d (a ∷ a' ∷ l) m same h = absurd (omega arith)

zero_or_one : (n : ℕ) → n ≤ 1 → (n ≡ 0) ⊎ (n ≡ 1)
zero_or_one zero h = inl refl
zero_or_one (suc zero) h = inr refl
zero_or_one (suc (suc n)) h = absurd (omega arith)

-- The entry of a response: details that are not given are read as `{}`.
abbrev pub entry_written : ℕ → Response → CacheEntryWithDetails
entry_written now response = record {
  entry = record {
    without_content = record {
      http_status = response.http_status;
      error_code = response.error_code;
      dataset_git_revision = response.dataset_git_revision;
      progress = response.progress;
      job_runner_version = response.job_runner_version;
    };
    content = response.content;
  };
  details = elim response.details [ none ↦ object end | some value ↦ value ];
}

-- The unique index on kind, dataset, config and split.
abbrev pub UniqueIndex : (C : Collection CachedResponse) → C.Db → Type 0
UniqueIndex C db =
    (kind dataset : String) (config split : Option String)
    → count (has_key kind dataset config split) (C.documents db) ≤ 1

key_fields :
    (k d : String) (c s : Option String) (r : CachedResponse)
    → has_key k d c s r ≡ true
    → (r.kind ≡ k) × (r.dataset ≡ d) × (r.config ≡ c) × (r.split ≡ s)
key_fields k d c s r h =
    let (a, h1) = &&_true (r.kind == k) _ h in
    let (b, h2) = &&_true (r.dataset == d) _ h1 in
    let (e, f) = &&_true (r.config == c) _ h2 in
    ((eq_iff _ _).0 a, (eq_iff _ _).0 b, (option_eq.beq_iff _ _).0 e, (option_eq.beq_iff _ _).0 f)

le_of_one : {n : ℕ} → n ≡ 1 → n ≤ 1
le_of_one h = omega arith

module _ (C : Collection CachedResponse) (kind dataset : String) (config split : Option String)
    (now id : ℕ) (response : Response) (db : C.Db) where
  open C use {documents, find, find_law, upsert_one_new, upsert_one_old}

  abbrev key : CachedResponse → Bool
  key = has_key kind dataset config split

  abbrev after : C.Db
  after = upsert_response C kind dataset config split now id response db

  key-created : key (created now id kind dataset config split response) ≡ true
  unfolding created
  key-created =
      rw
        (
          (eq_iff kind kind).1 refl,
          (eq_iff dataset dataset).1 refl,
          (option_eq.beq_iff config config).1 refl,
          (option_eq.beq_iff split split).1 refl,
        )
        refl

  key-written : (r : CachedResponse) → key (written now response r) ≡ key r
  unfolding written
  key-written r = refl

  -- A test after `upsert_response`, where no document had the key, and where one had it.
  count_new :
      (q : CachedResponse → Bool)
      → count key (documents db) ≡ 0
      → count q (documents after) ≡ (
          if q (created now id kind dataset config split response)
          then suc (count q (documents db))
          else count q (documents db))
  unfolding upsert_response
  count_new q absent = upsert_one_new key q (written now response) _ db absent

  count_old :
      (q : CachedResponse → Bool)
      → count key (documents db) ≡ 1
      → count q (documents after)
        ≡ count (λ b. q (if key b then written now response b else b)) (documents db)
  unfolding upsert_response
  count_old q present = upsert_one_old key q (written now response) _ db present

  passes-written :
      (r : CachedResponse)
      → decide (
          WithDetails-discrete
            (with_details_of (written now response r))
            (entry_written now response))
        ≡ true
  unfolding written
  passes-written r = (decide_iff (WithDetails-discrete _ (entry_written now response))).1 refl

  passes-created :
      decide (
        WithDetails-discrete
          (with_details_of (created now id kind dataset config split response))
          (entry_written now response))
      ≡ true
  unfolding created
  passes-created = (decide_iff (WithDetails-discrete _ (entry_written now response))).1 refl

  -- A test that the document of the key passes after the write.
  settled :
      (q : CachedResponse → Bool)
      → ((r : CachedResponse) → q (written now response r) ≡ true)
      → q (created now id kind dataset config split response) ≡ true
      → count key (documents db) ≤ 1
      → count (λ r. key r && q r) (documents after) ≡ 1
  unfolding written
  settled q w c unique = elim (zero_or_one (count key (documents db)) unique) [
    | inl absent ↦
        count_new _ absent
        ∙ ground (
          arith,
          key-created,
          c,
          count-le (λ r. key r && q r) key (documents db) (λ r. ground arith),
        )
    | inr present ↦
        count_old _ present ∙ count_cong _ key (documents db) (λ r. ground (arith, w r)) ∙ present
  ]

  one : count key (documents db) ≤ 1 → count key (documents after) ≡ 1
  one unique =
      count_cong key (λ r. key r && true) (documents after) (λ r. ground arith)
      ∙ settled (λ _. true) (λ r. refl) refl unique

  -- What `upsert_response` wrote is what `get_response_with_details` reads with the same key, if the
  -- index on the key was unique before.
  pub get_response_with_details-upsert_response :
      count key (documents db) ≤ 1
      → get_response_with_details C kind dataset config split after
        ≡ ok (entry_written now response)
  unfolding get_response_with_details
  get_response_with_details-upsert_response unique =
      let q = λ (r : CachedResponse).
        decide (WithDetails-discrete (with_details_of r) (entry_written now response)) in
      let stored = settled q (λ r. passes-written r) passes-created unique in
      let (r, e, t) =
        single (find key after) q (length-find C key after ∙ one unique)
          (find_law key q after ∙ stored) in
      rw e (
        ap ok (
          (decide_iff (WithDetails-discrete (with_details_of r) (entry_written now response))).0 t))

  -- A test that no document of the key passes, before or after the write, counts as before.
  frame :
      (q : CachedResponse → Bool)
      → ((r : CachedResponse) → key r ≡ true → q r ≡ false)
      → count key (documents db) ≤ 1
      → count q (documents after) ≡ count q (documents db)
  frame q h unique = elim (zero_or_one (count key (documents db)) unique) [
    | inl absent ↦
        count_new q absent
        ∙ ground (arith, h (created now id kind dataset config split response) key-created)
    | inr present ↦
        count_old q present
        ∙ count_cong _ q (documents db)
            (λ r. ground (arith, h r, h (written now response r), key-written r))
  ]

  -- The documents of another key fail the test of this one.
  apart :
      (k d : String) (c s : Option String)
      → has_key k d c s (created now id kind dataset config split response) ≡ false
      → (r : CachedResponse) → key r ≡ true
      → has_key k d c s r ≡ false
  unfolding created
  apart k d c s other r h =
      let (ek, ed, ec, es) = key_fields kind dataset config split r h in rw (ek, ed, ec, es) other

  -- `upsert_response` keeps the index unique.
  pub upsert_response-UniqueIndex : UniqueIndex C db → UniqueIndex C after
  unfolding created
  upsert_response-UniqueIndex unique k d c s =
      let mine = unique kind dataset config split in
      elim (Bool-cases (has_key k d c s (created now id kind dataset config split response))) [
        | inl same ↦
            let (ek, ed, ec, es) =
              key_fields k d c s (created now id kind dataset config split response) same in
            rw (← ek, ← ed, ← ec, ← es) (le_of_one (one mine))
        | inr other ↦ rw (frame (has_key k d c s) (apart k d c s other) mine) (unique k d c s)
      ]

  -- If the index is unique, a key other than the written one reads as before.
  pub get_response_with_details-upsert_response_other :
      UniqueIndex C db
      → (k d : String) (c s : Option String)
      → has_key k d c s (created now id kind dataset config split response) ≡ false
      → get_response_with_details C k d c s after ≡ get_response_with_details C k d c s db
  unfolding get_response_with_details
  get_response_with_details-upsert_response_other unique k d c s other =
      ap (λ l. result_map with_details_of (get_one l))
        (same_single CachedResponse-discrete (find (has_key k d c s) after)
          (find (has_key k d c s) db)
          (λ q.
            find_law _ q after
            ∙ frame (λ r. has_key k d c s r && q r) (λ r h. ground (arith, apart k d c s other r h))
                (unique kind dataset config split)
            ∙ sym (find_law _ q db))
          (rw (length-find C (has_key k d c s) after) (upsert_response-UniqueIndex unique k d c s)))
