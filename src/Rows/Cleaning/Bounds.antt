-- ===== src/Rows/Cleaning/Bounds.antt =====
-- Which directories `clean_cached_assets` of services/api/src/api/routes/rows.py deletes.
use datasets_server.Prelude.{
  ℕ, zero, suc, ◌+◌, ◌≤◌, Bool, true, not, some, List, [], ◌∷◌, filter, take, drop, length, count,
  count-le, count-filter, count-false, length-eq-count, ◌&&◌, ltb, pos, ◌≡◌, refl, sym, ◌∙◌, ◌⊎◌,
  inl, inr, arith, Bool-cases,
}
use datasets_server.Rows.Cleaning.{
  RowDir, greater_or_equal, insert_recent, most_recent_first, sample, cleaned, clean_cached_assets,
}

-- No directory is more recent than one that stands before it.
abbrev Sorted : List RowDir → Type 0
Sorted [] = Unit
Sorted (x ∷ xs) = (count (λ y. ltb x.mtime y.mtime) xs ≡ 0) × Sorted xs

count-insert_recent :
    (q : RowDir → Bool) (x : RowDir) (l : List RowDir)
    → count q (insert_recent x l) ≡ count q (x ∷ l)
count-insert_recent q x [] = refl
count-insert_recent q x (y ∷ ys) = elim (Bool-cases (ltb x.mtime y.mtime)) [
  | inl e ↦ rw (e, insert_recent) (ground (arith, count-insert_recent q x ys))
  | inr e ↦ rw (e, insert_recent) refl
]

insert_recent-Sorted : (x : RowDir) (l : List RowDir) → Sorted l → Sorted (insert_recent x l)
insert_recent-Sorted x [] h = (refl, tt)
insert_recent-Sorted x (y ∷ ys) (h, s) = elim (Bool-cases (ltb x.mtime y.mtime)) [
  | inl e ↦
      rw (e, insert_recent)
        (
          ground (arith, e, h, count-insert_recent (λ z. ltb y.mtime z.mtime) x ys),
          insert_recent-Sorted x ys s,
        )
  | inr e ↦
      rw (e, insert_recent)
        (
          ground (
            arith,
            e,
            h,
            count-le (λ z. ltb x.mtime z.mtime) (λ z. ltb y.mtime z.mtime) ys
                (λ z k. ground (arith, e, k)),
          ),
          (h, s),
        )
]

most_recent_first-Sorted : (l : List RowDir) → Sorted (most_recent_first l)
unfolding most_recent_first
most_recent_first-Sorted [] = tt
most_recent_first-Sorted (x ∷ xs) = insert_recent-Sorted x _ (most_recent_first-Sorted xs)

count-most_recent_first :
    (q : RowDir → Bool) (l : List RowDir) → count q (most_recent_first l) ≡ count q l
unfolding most_recent_first
count-most_recent_first q [] = refl
count-most_recent_first q (x ∷ xs) =
    count-insert_recent q x (most_recent_first xs) ∙ ground (arith, count-most_recent_first q xs)

count_parts :
    (q : RowDir → Bool) (n : ℕ) (l : List RowDir)
    → count q (take n l) + count q (drop n l) ≡ count q l
count_parts q zero l = omega arith
count_parts q (suc n) [] = omega arith
count_parts q (suc n) (x ∷ xs) = ground (arith, count_parts q n xs)

-- In a sorted list, for each date, no directory behind the first `n` is more recent, or all of the
-- first `n` are.
split_by_date :
    (t n : ℕ) (l : List RowDir)
    → Sorted l
    → (count (λ d. ltb t d.mtime) (drop n l) ≡ 0)
      ⊎ (count (λ d. not (ltb t d.mtime)) (take n l) ≡ 0)
split_by_date t zero l h = inr refl
split_by_date t (suc n) [] h = inl refl
split_by_date t (suc n) (x ∷ xs) (h, s) = elim (Bool-cases (ltb t x.mtime)) [
  | inl e ↦ elim (split_by_date t n xs s) [ inl k ↦ inl k | inr k ↦ inr (ground (arith, e, k)) ]
  | inr e ↦ inl (
      omega (
        arith,
        h,
        count_parts (λ d. ltb t d.mtime) n xs,
        count-le (λ d. ltb t d.mtime) (λ y. ltb x.mtime y.mtime) xs (λ z k. ground (arith, e, k)),
      ))
]

length-take : (n : ℕ) (l : List RowDir) → length (take n l) ≤ n
length-take zero l = omega arith
length-take (suc n) [] = omega arith
length-take (suc n) (x ∷ xs) = omega (arith, length-take n xs)

length-take_full : (n : ℕ) (l : List RowDir) → n ≤ length l → length (take n l) ≡ n
length-take_full zero l h = refl
length-take_full (suc n) [] h = absurd (omega (arith, h))
length-take_full (suc n) (x ∷ xs) h = omega (arith, length-take_full n xs (omega (arith, h)))

module _ (keep_first keep_most_recent max_cleaned : ℕ) (dirs : List RowDir) where
  abbrev sampled : List RowDir
  sampled = sample keep_first keep_most_recent max_cleaned dirs

  abbrev ordered : List RowDir
  ordered = most_recent_first sampled

  sampled_few : length sampled ≤ max_cleaned + keep_most_recent
  sampled_few =
      length-take (max_cleaned + keep_most_recent) (filter (greater_or_equal keep_first) dirs)

  sampled_greater : count (λ d. not (greater_or_equal keep_first d)) sampled ≡ 0
  sampled_greater = omega (
    arith,
    count_parts (λ d. not (greater_or_equal keep_first d)) (max_cleaned + keep_most_recent)
        (filter (greater_or_equal keep_first) dirs),
    count-filter (greater_or_equal keep_first) (λ d. not (greater_or_equal keep_first d)) dirs,
    count-false (λ d. greater_or_equal keep_first d && not (greater_or_equal keep_first d)) dirs
        (λ d. ground arith),
  )

  length-ordered : length ordered ≡ length sampled
  length-ordered =
      length-eq-count ordered
      ∙ count-most_recent_first (λ _. true) sampled
      ∙ sym (length-eq-count sampled)

  -- What is deleted and kept of the sample.
  abbrev Parted : (deleted kept : List RowDir) → Type 0
  Parted deleted kept =
      (length deleted ≤ max_cleaned)
      × ((q : RowDir → Bool) → count q kept + count q deleted ≡ count q sampled)
      × (count (λ d. not (greater_or_equal keep_first d)) deleted ≡ 0)
      × ((deleted ≡ []) ⊎ (length kept ≡ keep_most_recent))
      × ((t : ℕ)
          → (count (λ d. ltb t d.mtime) deleted ≡ 0) ⊎ (count (λ d. not (ltb t d.mtime)) kept ≡ 0))

  many :
      keep_most_recent ≤ length sampled
      → Parted (drop keep_most_recent ordered) (take keep_most_recent ordered)
  many h =
      let parts : (q : RowDir → Bool)
          → count q (take keep_most_recent ordered) + count q (drop keep_most_recent ordered)
            ≡ count q sampled =
        λ q. count_parts q keep_most_recent ordered ∙ count-most_recent_first q sampled in
      let kept_all = length-take_full keep_most_recent ordered (omega (arith, length-ordered, h)) in
      (
        omega (
          arith,
          parts (λ _. true),
          kept_all,
          length-eq-count (take keep_most_recent ordered),
          length-eq-count (drop keep_most_recent ordered),
          length-eq-count sampled,
          sampled_few,
        ),
        parts,
        omega (arith, parts (λ d. not (greater_or_equal keep_first d)), sampled_greater),
        inr kept_all,
        λ t. split_by_date t keep_most_recent ordered (most_recent_first-Sorted sampled),
      )

  few : Parted [] sampled
  few = (omega arith, λ q. omega arith, refl, inl refl, λ t. inl refl)

  -- With settings that are not negative, `clean_cached_assets` deletes at most
  -- `max_cleaned_rows_number` of the directories that it samples, none of them with a number below
  -- `keep_first_rows_number`; if it deletes one, it keeps `keep_most_recent_rows_number` of the sample,
  -- and for each date, either no deleted directory is more recent, or all the kept ones are.
  pub clean_cached_assets_lem :
      (deleted : List RowDir) × (kept : List RowDir) × (clean_cached_assets
          (pos keep_first)
          (pos keep_most_recent)
          (pos max_cleaned)
          dirs
        ≡ some deleted)
      × (length deleted ≤ max_cleaned)
      × ((q : RowDir → Bool)
          → count q kept + count q deleted
            ≡ count q (sample keep_first keep_most_recent max_cleaned dirs))
      × (count (λ d. not (greater_or_equal keep_first d)) deleted ≡ 0)
      × ((deleted ≡ []) ⊎ (length kept ≡ keep_most_recent))
      × ((t : ℕ)
          → (count (λ d. ltb t d.mtime) deleted ≡ 0) ⊎ (count (λ d. not (ltb t d.mtime)) kept ≡ 0))
  unfolding clean_cached_assets
  clean_cached_assets_lem = elim (Bool-cases (ltb keep_most_recent (length sampled))) [
    | inl e ↦
        let (at_most, parts, greater, all_kept, recent) = many (ground (arith, e)) in
        (
          drop keep_most_recent ordered,
          take keep_most_recent ordered,
          rw (e, cleaned) refl,
          at_most,
          parts,
          greater,
          all_kept,
          recent,
        )
    | inr e ↦
        let (at_most, parts, greater, all_kept, recent) = few in
        ([], sampled, rw (e, cleaned) refl, at_most, parts, greater, all_kept, recent)
  ]
