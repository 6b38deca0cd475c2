-- ===== src/Collection/Memory.antt =====
-- A list of documents meets the laws of a collection: they can hold, and the samples run on it.
use datasets_server.Prelude.{
  ℕ, suc, ◌≤◌, ◌≡◌, refl, Bool, true, not, ◌&&◌, Option, none, some, List, [], ◌∷◌, map, count,
  filter, count-filter, count-map, if◌then◌else◌, ltb, above, ascending, ◌∙◌, arith, inl, inr,
  Option-cases,
}
use datasets_server.Collection.{Collection}

module _ {A : Type 0} where
  abbrev pub better : (A → ℕ) → A → Option A → A
  better key a none = a
  better key a (some b) = if ltb (key b) (key a) then b else a

  abbrev pub first : (A → Bool) → (A → ℕ) → List A → Option A
  first p key [] = none
  first p key (x ∷ xs) = let rest = first p key xs in if p x then some (better key x rest) else rest

  abbrev pub upsert : (A → Bool) → (A → A) → A → List A → List A
  upsert p f a [] = a ∷ []
  upsert p f a (x ∷ xs) = let rest = upsert p f a xs in if p x then f x ∷ xs else x ∷ rest

  pub first-none :
      (p : A → Bool) (key : A → ℕ) (xs : List A) → first p key xs ≡ none → count p xs ≡ 0
  first-none p key [] h = refl
  first-none p key (x ∷ xs) h = ground (arith, first-none p key xs)

  pub first_passes :
      (p : A → Bool) (key : A → ℕ) (xs : List A) {a : A} → first p key xs ≡ some a → p a ≡ true
  first_passes p key [] h = ground arith
  first_passes p key (x ∷ xs) {a} h = ground (arith, first_passes p key xs {a = a})

  pub first_stored :
      (p : A → Bool) (key : A → ℕ) (xs : List A) {a : A} (q : A → Bool)
      → first p key xs ≡ some a
      → q a ≡ true
      → 1 ≤ count q xs
  first_stored p key [] q h = ground arith
  first_stored p key (x ∷ xs) {a} q h = ground (arith, first_stored p key xs {a = a} q)

  none_below : (p r : A → Bool) (xs : List A) → count p xs ≡ 0 → count (λ b. p b && r b) xs ≡ 0
  none_below p r [] h = refl
  none_below p r (x ∷ xs) h = ground (arith, none_below p r xs)

  lower_bound :
      (p : A → Bool) (key : A → ℕ) (k m : ℕ) (xs : List A)
      → count (λ b. p b && ltb (key b) m) xs ≡ 0
      → k ≤ m
      → count (λ b. p b && ltb (key b) k) xs ≡ 0
  lower_bound p key k m [] h le = refl
  lower_bound p key k m (x ∷ xs) h le = ground (arith, lower_bound p key k m xs)

  pub first_least :
      (p : A → Bool) (key : A → ℕ) (xs : List A) {a : A}
      → first p key xs ≡ some a
      → count (λ b. p b && ltb (key b) (key a)) xs ≡ 0
  first_least p key [] h = refl
  first_least p key (x ∷ xs) {a} h = elim (Option-cases (first p key xs)) [
    | inl e ↦ (ground (arith, none_below p (λ b. ltb (key b) (key a)) xs, first-none p key xs e))
    | inr (b, e) ↦
        ground (arith, e, first_least p key xs {a = b} e, lower_bound p key (key a) (key b) xs)
  ]

  abbrev pub sorted_insert : (A → ℕ) → A → List A → List A
  sorted_insert key a [] = a ∷ []
  sorted_insert key a (x ∷ xs) =
      let rest = sorted_insert key a xs in if ltb (key x) (key a) then x ∷ rest else a ∷ x ∷ xs

  abbrev pub sort : (A → ℕ) → List A → List A
  sort key [] = []
  sort key (x ∷ xs) = sorted_insert key x (sort key xs)

  count-sorted_insert :
      (q : A → Bool) (key : A → ℕ) (a : A) (xs : List A)
      → count q (sorted_insert key a xs) ≡ count q (a ∷ xs)
  count-sorted_insert q key a [] = refl
  count-sorted_insert q key a (x ∷ xs) = ground (arith, count-sorted_insert q key a xs)

  count-sort : (q : A → Bool) (key : A → ℕ) (xs : List A) → count q (sort key xs) ≡ count q xs
  count-sort q key [] = refl
  count-sort q key (x ∷ xs) =
      count-sorted_insert q key x (sort key xs) ∙ ground (arith, count-sort q key xs)

  above_weaken :
      (key : A → ℕ) (k m : ℕ) (xs : List A) → k ≤ m → above key m xs ≡ true → above key k xs ≡ true
  above_weaken key k m [] le h = refl
  above_weaken key k m (x ∷ xs) le h = ground (arith, above_weaken key k m xs)

  above-sorted_insert :
      (key : A → ℕ) (k : ℕ) (a : A) (xs : List A)
      → above key k (sorted_insert key a xs) ≡ above key k (a ∷ xs)
  above-sorted_insert key k a [] = refl
  above-sorted_insert key k a (x ∷ xs) = ground (arith, above-sorted_insert key k a xs)

  ascending-sorted_insert :
      (key : A → ℕ) (a : A) (xs : List A)
      → ascending key xs ≡ true
      → ascending key (sorted_insert key a xs) ≡ true
  ascending-sorted_insert key a [] h = refl
  ascending-sorted_insert key a (x ∷ xs) h = ground (
    arith,
    above-sorted_insert key (key x) a xs,
    above_weaken key (key a) (key x) xs,
    ascending-sorted_insert key a xs,
  )

  pub ascending-sort : (key : A → ℕ) (xs : List A) → ascending key (sort key xs) ≡ true
  ascending-sort key [] = refl
  ascending-sort key (x ∷ xs) = ascending-sorted_insert key x (sort key xs) (ascending-sort key xs)

  pub ordered_count :
      (p q : A → Bool) (key : A → ℕ) (xs : List A)
      → count q (sort key (filter p xs)) ≡ count (λ a. p a && q a) xs
  ordered_count p q key xs = count-sort q key (filter p xs) ∙ count-filter p q xs

  pub upsert_new :
      (p q : A → Bool) (f : A → A) (a : A) (xs : List A)
      → count p xs ≡ 0
      → count q (upsert p f a xs) ≡ (if q a then suc (count q xs) else count q xs)
  upsert_new p q f a [] h = refl
  upsert_new p q f a (x ∷ xs) h = ground (arith, upsert_new p q f a xs)

  unmatched :
      (p q : A → Bool) (f : A → A) (xs : List A)
      → count p xs ≡ 0
      → count (λ b. q (if p b then f b else b)) xs ≡ count q xs
  unmatched p q f [] h = refl
  unmatched p q f (x ∷ xs) h = ground (arith, unmatched p q f xs)

  pub upsert_old :
      (p q : A → Bool) (f : A → A) (a : A) (xs : List A)
      → count p xs ≡ 1
      → count q (upsert p f a xs) ≡ count (λ b. q (if p b then f b else b)) xs
  upsert_old p q f a [] h = ground arith
  upsert_old p q f a (x ∷ xs) h = ground (arith, upsert_old p q f a xs, unmatched p q f xs)

abbrev pub memory : (A : Type 0) → Collection A
memory A = record {
  Db = List A;
  documents = λ db. db;
  find = filter;
  first_by = first;
  ordered = λ p key db. sort key (filter p db);
  insert = λ a db. a ∷ db;
  update = λ p f db. map (λ a. if p a then f a else a) db;
  upsert_one = upsert;
  delete = λ p db. filter (λ a. not (p a)) db;
  find_law = count-filter;
  first_by_none = first-none;
  first_by_passes = first_passes;
  first_by_stored = first_stored;
  first_by_least = first_least;
  ordered_law = ordered_count;
  ordered_sorted = λ p key db. ascending-sort key (filter p db);
  insert_law = λ a q db. refl;
  update_law = λ p q f db. count-map q (λ a. if p a then f a else a) db;
  upsert_one_new = upsert_new;
  upsert_one_old = upsert_old;
  delete_law = λ p q db. count-filter (λ a. not (p a)) q db;
}
