-- ===== src/Scheduling/Counting.antt =====
-- `Counter`, `most_common` and `groupby` as `_get_next_waiting_job_for_priority` of
-- libs/libcommon/src/libcommon/queue.py uses them: the groups hold the namespaces, by their count.
use mathlib.Core.List.{foldl}
use datasets_server.Prelude.{
  ℕ, suc, ◌+◌, ◌<◌, text_eq, nat_eq, ◌==◌, Bool, true, false, String, Option, List, [], ◌∷◌,
  contains, any, any-filter, ◌&&◌, ◌||◌, occurrences, if◌then◌else◌, ◌≡◌, refl, sym, ◌∙◌, ap, arith,
  eq_iff,
}
use datasets_server.Scheduling.{
  bump, counter, insert_common, most_common, below_limit, add_to_groups, groups_by_count,
  namespace_groups,
}

-- The value of a key in the dictionary, and zero if it has none.
value : String → List (String × ℕ) → ℕ
value key [] = 0
value key ((other, n) ∷ items) = if other == key then n else value key items

has_key : String → List (String × ℕ) → Bool
has_key key [] = false
has_key key ((other, n) ∷ items) = if other == key then true else has_key key items

distinct : List (String × ℕ) → Bool
distinct [] = true
distinct ((key, n) ∷ items) = if has_key key items then false else distinct items

value-bump :
    (k j : String) (items : List (String × ℕ))
    → value k (bump j items) ≡ (if j == k then suc (value k items) else value k items)
unfolding value bump
value-bump k j [] = refl
value-bump k j ((i, n) ∷ items) =
    ground (arith, eq_iff k j, eq_iff j k, eq_iff i k, eq_iff i j, value-bump k j items)

has_key-bump :
    (k j : String) (items : List (String × ℕ))
    → has_key k (bump j items) ≡ (if j == k then true else has_key k items)
unfolding has_key bump
has_key-bump k j [] = refl
has_key-bump k j ((i, n) ∷ items) =
    ground (arith, eq_iff k j, eq_iff j k, eq_iff i k, eq_iff i j, has_key-bump k j items)

distinct-bump :
    (j : String) (items : List (String × ℕ))
    → distinct items ≡ true
    → distinct (bump j items) ≡ true
unfolding distinct bump has_key
distinct-bump j [] h = refl
distinct-bump j ((i, n) ∷ items) h =
    ground (arith, eq_iff i j, eq_iff j i, has_key-bump i j items, distinct-bump j items)

value-foldl :
    (k : String) (xs : List String) (items : List (String × ℕ))
    → value k (foldl (λ items key. bump key items) items xs) ≡ value k items + occurrences k xs
value-foldl k [] items = omega arith
value-foldl k (x ∷ xs) items =
    value-foldl k xs (bump x items) ∙ ground (arith, value-bump k x items)

distinct-foldl :
    (xs : List String) (items : List (String × ℕ))
    → distinct items ≡ true
    → distinct (foldl (λ items key. bump key items) items xs) ≡ true
distinct-foldl [] items h = h
distinct-foldl (x ∷ xs) items h = distinct-foldl xs (bump x items) (distinct-bump x items h)

-- The item `(k, n)` stands among the items.
listed : String → ℕ → List (String × ℕ) → Bool
listed k n items = any (λ (item : String × ℕ). item.0 == k && item.1 == n) items

listed-has_key :
    (k : String) (n : ℕ) (items : List (String × ℕ))
    → listed k n items ≡ true
    → has_key k items ≡ true
unfolding has_key listed
listed-has_key k n [] h = h
listed-has_key k n ((j, m) ∷ items) h = ground (arith, listed-has_key k n items)

listed-value :
    (k : String) (n : ℕ) (items : List (String × ℕ))
    → listed k n items ≡ true
    → distinct items ≡ true
    → value k items ≡ n
unfolding value distinct listed
listed-value k n [] h d = ground arith
listed-value k n ((j, m) ∷ items) h d =
    ground (arith, eq_iff j k, listed-has_key k n items, listed-value k n items)

value-listed :
    (k : String) (n : ℕ) (items : List (String × ℕ))
    → value k items ≡ n
    → 0 < n
    → listed k n items ≡ true
unfolding value listed
value-listed k n [] h pos = absurd (omega arith)
value-listed k n ((j, m) ∷ items) h pos = ground (arith, value-listed k n items)

-- The sort keeps the items.
any-insert_common :
    (p : String × ℕ → Bool) (y : String × ℕ) (items : List (String × ℕ))
    → any p (insert_common y items) ≡ any p (y ∷ items)
unfolding insert_common
any-insert_common p y [] = refl
any-insert_common p y (z ∷ items) = ground (arith, any-insert_common p y items)

any-most_common :
    (p : String × ℕ → Bool) (items : List (String × ℕ)) → any p (most_common items) ≡ any p items
unfolding most_common
any-most_common p [] = refl
any-most_common p (y ∷ items) =
    any-insert_common p y (most_common items) ∙ ap (λ b. p y || b) (any-most_common p items)

-- Some group of count `n` holds `k`.
unfoldable pub grouped : String → ℕ → List (ℕ × List String) → Bool
grouped k n groups = any (λ (group : ℕ × List String). group.0 == n && contains k group.1) groups

grouped-add_to_groups :
    (k : String) (n : ℕ) (item : String × ℕ) (groups : List (ℕ × List String))
    → grouped k n (add_to_groups item groups) ≡ ((item.0 == k && item.1 == n) || grouped k n groups)
unfolding grouped add_to_groups
grouped-add_to_groups k n (j, m) [] = ground (arith, eq_iff j k, eq_iff k j)
grouped-add_to_groups k n (j, m) ((o, names) ∷ groups) = ground (arith, eq_iff j k, eq_iff k j)

grouped-groups_by_count :
    (k : String) (n : ℕ) (items : List (String × ℕ))
    → grouped k n (groups_by_count items) ≡ listed k n items
unfolding groups_by_count listed grouped
grouped-groups_by_count k n [] = refl
grouped-groups_by_count k n (item ∷ items) =
    unfold grouped in
    grouped-add_to_groups k n item (groups_by_count items)
    ∙ ap (λ b. (item.0 == k && item.1 == n) || b) (grouped-groups_by_count k n items)

module _ (limit : Option ℕ) (namespaces : List String) (k : String) where
  value-counter : value k (counter namespaces) ≡ occurrences k namespaces
  unfolding counter value
  value-counter = value-foldl k namespaces [] ∙ omega arith

  kept :
      (n : ℕ)
      → grouped k n (namespace_groups limit namespaces)
        ≡ any
            (λ (item : String × ℕ). below_limit limit item.1 && (item.0 == k && item.1 == n))
            (counter namespaces)
  unfolding namespace_groups listed
  kept n =
      grouped-groups_by_count k n _
      ∙ any-filter _ _ (most_common (counter namespaces))
      ∙ any-most_common _ (counter namespaces)

  below_listed :
      (n : ℕ) (items : List (String × ℕ))
      → any (λ (item : String × ℕ). below_limit limit item.1 && (item.0 == k && item.1 == n)) items
        ≡ (below_limit limit n && listed k n items)
  unfolding listed
  below_listed n [] = ground arith
  below_listed n ((j, m) ∷ items) = ground (arith, below_listed n items)

  grouped_lem :
      (n : ℕ)
      → grouped k n (namespace_groups limit namespaces)
        ≡ (below_limit limit n && listed k n (counter namespaces))
  grouped_lem n = kept n ∙ below_listed n (counter namespaces)

  distinct-counter : distinct (counter namespaces) ≡ true
  unfolding counter distinct
  distinct-counter = distinct-foldl namespaces [] refl

  -- A namespace stands only in the group of its number of occurrences, which is below the limit.
  pub grouped_count :
      (n : ℕ)
      → grouped k n (namespace_groups limit namespaces) ≡ true
      → (occurrences k namespaces ≡ n) × (below_limit limit n ≡ true)
  grouped_count n h =
      let both = grouped_lem n in
      let stored = listed-value k n (counter namespaces) (ground arith) distinct-counter in
      (sym value-counter ∙ stored, ground arith)

  -- A namespace that occurs, less often than the limit, stands in a group.
  pub grouped_present :
      (n : ℕ)
      → occurrences k namespaces ≡ n
      → 0 < n
      → below_limit limit n ≡ true
      → grouped k n (namespace_groups limit namespaces) ≡ true
  grouped_present n occurs positive below =
      grouped_lem n
      ∙ ground (arith, value-listed k n (counter namespaces) (value-counter ∙ occurs) positive)
