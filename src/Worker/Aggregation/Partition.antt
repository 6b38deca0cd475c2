-- ===== src/Worker/Aggregation/Partition.antt =====
-- The loop of the job runners of services/worker/src/worker/job_runners that read the cached responses
-- of the configs: every config is counted once, as pending, failed or read.
use datasets_server.Prelude.{
  ◌+◌, ◌≤◌, nat_eq, ◌==◌, Bool-cases, inl, inr, Bool, true, false, not, String, Option, none, List,
  [], ◌∷◌, ◌++◌, map, filter, count, length, length-map, if◌then◌else◌, ◌≡◌, refl, sym, subst, ap,
  ◌∙◌, arith, ◌↔◌,
}
use mathlib.Core.List.{append_assoc, append-nil}
use datasets_server.Collection.{Collection}
use datasets_server.Json.{Json}
use datasets_server.Cache.{
  CachedResponse, CacheEntry, Result, ok, err, does_not_exist, get_response,
}
use datasets_server.Cache.Best.{BestResponse}
use datasets_server.Worker.Failures.{Cause}
use datasets_server.Worker.Aggregation.{
  Answer, answer, raised, Fault, cache_error, previous_of, Raised, Progressing, Previous, missing,
  erroneous, successful, Ratio, ◌>>=◌, item, iterated, holds, uncaught_if, progress_of, caught,
  job_of, added, config_of, found, collect, empty, aggregated, get_previous_step_or_raise,
}

-- `[f(x) for x in xs]`, where `f` may raise
abbrev pub each : {E A B : Type 0} → (A → Answer E B) → List A → Answer E (List B)
each f [] = answer []
each f (x ∷ xs) = f x >>= λ y. each f xs >>= λ ys. answer (y ∷ ys)

-- A sequence that answers is made of two that do.
pub answered :
    {E A B : Type 0} {b : B} (m : Answer E A) (f : A → Answer E B)
    → (m >>= f) ≡ answer b
    → (a : A) × (m ≡ answer a) × (f a ≡ answer b)
answered (answer a) f h = (a, refl, h)
answered (raised e) f h = ground (arith, h)

pub each-cons :
    {E A B : Type 0} (f : A → Answer E B) (x : A) (xs : List A) (y : B) (ys : List B)
    → f x ≡ answer y
    → each f xs ≡ answer ys
    → each f (x ∷ xs) ≡ answer (y ∷ ys)
each-cons f x xs y ys e es = rw (e, es) refl

each-filter-cons :
    {E A B : Type 0} (f : A → Answer E B) (p : A → Bool) (x : A) (xs : List A) (y : B) (ys : List B)
    → p x ≡ true
    → f x ≡ answer y
    → each f (filter p xs) ≡ answer ys
    → each f (filter p (x ∷ xs)) ≡ answer (y ∷ ys)
each-filter-cons f p x xs y ys t e es = rw (t, e, es) refl

abbrev value_or : {E A : Type 0} → A → Answer E A → A
value_or d (answer a) = a
value_or d (raised _) = d

pub answer_injective :
    {E A : Type 0} (a b : A) → (let x : Answer E A = answer a in x) ≡ answer b → a ≡ b
answer_injective a b h = ap (value_or a) h

-- By the cached response of a config: there is none, it has another status than 200, or it has 200.
abbrev pub is_missing : Result CacheEntry → Bool
is_missing (err does_not_exist) = true
is_missing _ = false

abbrev pub is_erroneous : Result CacheEntry → Bool
is_erroneous (ok entry) = not (entry.http_status == 200)
is_erroneous (err _) = false

abbrev pub is_successful : Result CacheEntry → Bool
is_successful (ok entry) = entry.http_status == 200
is_successful (err _) = false

-- What `previous_of` says of a cached response.
data Classified (r : Result CacheEntry) : Previous → Type 0 where
  was_missing :
      is_missing r ≡ true → is_erroneous r ≡ false → is_successful r ≡ false → Classified r missing
  was_erroneous :
      is_missing r ≡ false
      → is_erroneous r ≡ true
      → is_successful r ≡ false
      → Classified r erroneous
  was_successful :
      (entry : CacheEntry)
      → is_missing r ≡ false
      → is_erroneous r ≡ false
      → is_successful r ≡ true
      → r ≡ ok entry
      → Classified r (successful entry.content)

previous_of-Classified :
    (r : Result CacheEntry) (previous : Previous)
    → previous_of r ≡ answer previous
    → Classified r previous
unfolding previous_of
previous_of-Classified (ok entry) previous h = elim (Bool-cases (entry.http_status == 200)) [
  | inl good ↦
      let h' = rw (good, previous_of) at h in
      subst (Classified (ok entry)) (answer_injective (successful entry.content) previous h')
        (was_successful entry refl (rw good refl) good refl)
  | inr bad ↦
      let h' = rw (bad, previous_of) at h in
      subst (Classified (ok entry)) (answer_injective erroneous previous h')
        (was_erroneous refl (rw bad refl) bad)
]
previous_of-Classified (err does_not_exist) previous h =
    subst (Classified (err does_not_exist)) (answer_injective missing previous h)
      (was_missing refl refl refl)
previous_of-Classified (err _) previous h = ground (arith, h)

caught-answer :
    (cause_of : Fault → Cause) {A : Type 0} (m : Answer Fault A) (a : A)
    → caught cause_of m ≡ answer a
    → m ≡ answer a
unfolding caught
caught-answer cause_of (answer x) a h = ap answer (answer_injective x a h)
caught-answer cause_of (raised e) a h = ground (arith, h)

length-filter : {A : Type 0} (p : A → Bool) (xs : List A) → length (filter p xs) ≡ count p xs
length-filter p [] = refl
length-filter p (x ∷ xs) = ground (arith, length-filter p xs)

count-le-length : {A : Type 0} (p : A → Bool) (xs : List A) → count p xs ≤ length xs
count-le-length p [] = omega arith
count-le-length p (x ∷ xs) = ground (arith, count-le-length p xs)

module _ (C : Collection CachedResponse) (query_value : Json → Answer Fault (Option String))
    (cause_of : Fault → Cause) {A : Type 0} (kind dataset : String)
    (read : (config : Option String) → (content : Json) → Answer Fault A) (db : C.Db) where
  abbrev pub find : Option String → Result CacheEntry
  find config = get_response C kind dataset config none db

  abbrev pub read_found : Option String → Result CacheEntry → Answer Fault A
  read_found config (ok entry) = read config entry.content
  read_found config (err e) = raised (cache_error e)

  -- What the loop adds for the configs: each is pending, failed or read, in their order.
  pub record Partition (configs : List (Option String)) (s s' : Progressing A) : Type 0 where
    pub total_is : s'.total ≡ s.total + length configs
    pub pending_is :
        s'.pending
        ≡ s.pending
          ++ map
              (job_of C query_value cause_of kind dataset read)
              (filter (λ c. is_missing (find c)) configs)
    pub failed_is :
        s'.failed
        ≡ s.failed
          ++ map
              (job_of C query_value cause_of kind dataset read)
              (filter (λ c. is_erroneous (find c)) configs)
    pub contents_is :
        (values : List A) × (each
            (λ c. read_found c (find c))
            (filter (λ c. is_successful (find c)) configs)
          ≡ answer values)
        × (s'.contents ≡ s.contents ++ values)

  add_config :
      (config : Option String) (configs : List (Option String)) (previous : Previous)
      (s s₁ s' : Progressing A)
      → Classified (find config) previous
      → added C query_value cause_of kind dataset read config previous s ≡ answer s₁
      → Partition configs s₁ s'
      → Partition (config ∷ configs) s s'
  unfolding added
  add_config config configs previous s s₁ s' (was_missing m e g) a p =
      let q = subst (λ x. Partition configs x s') (sym (answer_injective _ _ a)) p in
      record {
        total_is = omega (arith, q.total_is);
        pending_is = rw m (q.pending_is ∙ append_assoc s.pending _ _);
        failed_is = rw e q.failed_is;
        contents_is = rw g q.contents_is;
      }
  add_config config configs previous s s₁ s' (was_erroneous m e g) a p =
      let q = subst (λ x. Partition configs x s') (sym (answer_injective _ _ a)) p in
      record {
        total_is = omega (arith, q.total_is);
        pending_is = rw m q.pending_is;
        failed_is = rw e (q.failed_is ∙ append_assoc s.failed _ _);
        contents_is = rw g q.contents_is;
      }
  add_config config configs previous s s₁ s' (was_successful entry m e g r) a p =
      let (value, v, a') = answered (read config entry.content) _ a in
      let q = subst (λ x. Partition configs x s') (sym (answer_injective _ _ a')) p in
      let (values, vs, c) = q.contents_is in
      record {
        total_is = omega (arith, q.total_is);
        pending_is = rw m q.pending_is;
        failed_is = rw e q.failed_is;
        contents_is = (
          value ∷ values,
          each-filter-cons (λ c. read_found c (find c)) (λ c. is_successful (find c)) config configs
              value values g (ap (read_found config) r ∙ v) vs,
          c ∙ append_assoc s.contents _ _,
        );
      }

  found-Classified :
      (config : Option String) (previous : Previous)
      → found C query_value cause_of kind dataset read db config ≡ answer previous
      → Classified (find config) previous
  unfolding found
  found-Classified config previous f = previous_of-Classified (find config) previous f

  pub collect-Partition :
      (items : List Json) (s s' : Progressing A)
      → collect C query_value cause_of kind dataset read db items s ≡ answer s'
      → (configs : List (Option String)) × (each
            (config_of C query_value cause_of kind dataset read)
            items
          ≡ answer configs)
        × Partition configs s s'
  unfolding collect
  collect-Partition [] s s' h =
      let e = answer_injective _ _ h in
      (
        [],
        refl,
        subst (λ x. Partition [] s x) e
            (record {
              total_is = omega arith;
              pending_is = sym (append-nil s.pending);
              failed_is = sym (append-nil s.failed);
              contents_is = ([], refl, sym (append-nil s.contents));
            }),
      )
  collect-Partition (config_item ∷ items) s s' h =
      let (config, e, h₁) =
        answered (config_of C query_value cause_of kind dataset read config_item) _ h in
      let (previous, f, h₂) =
        answered (found C query_value cause_of kind dataset read db config) _ h₁ in
      let (s₁, a, h₃) =
        answered (added C query_value cause_of kind dataset read config previous s) _ h₂ in
      let (configs, es, p) = collect-Partition items s₁ s' h₃ in
      (
        config ∷ configs,
        each-cons (config_of C query_value cause_of kind dataset read) config_item items config
            configs e es,
        add_config config configs previous s s₁ s' (found-Classified config previous f) a p,
      )

  -- `[config_item["config"] for config_item in content["config_names"]]`, as the queries take them
  abbrev pub names_of : Json → Answer Fault (List (Option String))
  names_of content =
      item "config_names" content
      >>= iterated
      >>= each (config_of C query_value cause_of kind dataset read)

  names_of-each :
      (content : Json) (items : List Json) (configs : List (Option String))
      → (item "config_names" content >>= iterated) ≡ answer items
      → each (config_of C query_value cause_of kind dataset read) items ≡ answer configs
      → names_of content ≡ answer configs
  names_of-each content items configs e es = rw (e, es) refl

  -- Behind the loop over a list of configs the progress is 1 where none is pending.
  full_progress :
      (configs : List (Option String)) (s : Progressing A)
      → Partition configs (empty C query_value cause_of kind dataset read) s
      → ((progress_of s).numerator ≡ (progress_of s).denominator)
        ↔ (count (λ c. is_missing (find c)) configs ≡ 0)
  unfolding progress_of
  full_progress configs s p =
      let pendings : length s.pending ≡ count (λ c. is_missing (find c)) configs =
        ap length p.pending_is
        ∙ length-map (job_of C query_value cause_of kind dataset read)
            (filter (λ c. is_missing (find c)) configs)
        ∙ length-filter (λ c. is_missing (find c)) configs in
      let bounded : count (λ c. is_missing (find c)) configs ≤ length configs =
        count-le-length (λ c. is_missing (find c)) configs in
      let total : s.total ≡ length configs = omega (arith, p.total_is) in
      ground (arith, pendings, bounded, total)

  module _ {B : Type 0} (finish : Progressing A → Answer Fault B) (b : B) (p : Ratio) where
    -- What the loop and `finish` make of a content.
    abbrev run : Json → Answer Fault (B × Ratio)
    run content = item "config_names" content >>= iterated >>= λ items.
        collect C query_value cause_of kind dataset read db items
          (empty C query_value cause_of kind dataset read)
        >>= λ s. finish s >>= λ b. answer (b, progress_of s)

    abbrev Parts : Json → Type 0
    Parts content =
        (configs : List (Option String)) × (s : Progressing A) × (names_of content ≡ answer configs)
        × Partition configs (empty C query_value cause_of kind dataset read) s
        × (finish s ≡ answer b)
        × ((p.numerator ≡ p.denominator) ↔ (count (λ c. is_missing (find c)) configs ≡ 0))

    run-Parts : (content : Json) → run content ≡ answer (b, p) → Parts content
    run-Parts content h =
        let (items, i, h₁) = answered (item "config_names" content >>= iterated) _ h in
        let (s, c, h₂) =
          answered
            (collect C query_value cause_of kind dataset read db items
              (empty C query_value cause_of kind dataset read))
            _ h₁ in
        let (b', f, h₃) = answered (finish s) _ h₂ in
        let (configs, each_is, parts) =
          collect-Partition items (empty C query_value cause_of kind dataset read) s c in
        let same : (b', progress_of s) ≡ (b, p) = answer_injective _ _ h₃ in
        (
          configs,
          s,
          names_of-each content items configs i each_is,
          parts,
          f ∙ ap answer (ap (λ (x : B × Ratio). x.0) same),
          subst
              (λ (q : Ratio).
                (q.numerator ≡ q.denominator) ↔ (count (λ c. is_missing (find c)) configs ≡ 0))
              (ap (λ (x : B × Ratio). x.1) same) (full_progress configs s parts),
        )

    named-Parts :
        (content : Json) (named : Bool) (e : Raised)
        → (if named then caught cause_of (run content) else raised e) ≡ answer (b, p)
        → Parts content
    named-Parts content true e h = run-Parts content (caught-answer cause_of (run content) (b, p) h)
    named-Parts content false e h = ground (arith, h)

  pub aggregated_lem :
      {B : Type 0} (finish : Progressing A → Answer Fault B) (b : B) (p : Ratio)
      → aggregated C query_value cause_of kind dataset read finish db ≡ answer (b, p)
      → (best : BestResponse) × (configs : List (Option String)) × (s : Progressing A)
        × (get_previous_step_or_raise C ("/config-names" ∷ []) dataset none none db ≡ answer best)
        × (names_of best.response.content ≡ answer configs)
        × Partition configs (empty C query_value cause_of kind dataset read) s
        × (finish s ≡ answer b)
        × ((p.numerator ≡ p.denominator) ↔ (count (λ c. is_missing (find c)) configs ≡ 0))
  unfolding aggregated caught
  aggregated_lem finish b p h =
      let (best, e, h₁) =
        answered (get_previous_step_or_raise C ("/config-names" ∷ []) dataset none none db) _ h in
      let (named, _, h₂) =
        answered (uncaught_if (holds "config_names" best.response.content)) _ h₁ in
      let (configs, s, n, parts, f, full) =
        named-Parts finish b p best.response.content named _ h₂ in
      (best, configs, s, e, n, parts, f, full)
