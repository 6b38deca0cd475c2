-- ===== src/Rows/Query.antt =====
-- `RowsIndex.query` of services/api/src/api/routes/rows.py against its reference: a slice of all rows.
use mathlib.Core.List.{append-nil}
use datasets_server.Prelude.{
  ℕ, zero, suc, ◌+◌, ◌-◌, ◌≤◌, ◌<◌, nat_eq, ◌==◌, true, false, ◌||◌, Option, some, List, [], ◌∷◌,
  ◌++◌, map, count_cong, length, length-map, take, drop, ltb, pos, ◌≡◌, refl, sym, subst, ◌∙◌, ap,
  arith, Bool-cases, inl, inr, ◌⊎◌,
}
use datasets_server.Rows.{
  sums, concat, Arrays, Tables, pred_ℤ, min_ℤ, last?, RowsIndex, found, no_table, read_groups,
  start_of, index_of, sliced, query,
}
use datasets_server.Rows.Groups.{
  min, total, group_below, group_above, below_first, below_last, ascending-sums, last-sums,
  group_of, start-group_of, end-group_of, group_of-le, group_of-le-length, length-sums,
  start_of-sums, read_groups_lem, length-append, length-concat, drop-drop, drop-concat,
  concat-take-drop, take-drop-append,
}

module _ {A B : Type 0} (f : A → B) where
  map-take : (n : ℕ) (xs : List A) → map f (take n xs) ≡ take n (map f xs)
  map-take zero xs = refl
  map-take (suc n) [] = refl
  map-take (suc n) (x ∷ xs) = ap (λ l. f x ∷ l) (map-take n xs)

  map-drop : (n : ℕ) (xs : List A) → map f (drop n xs) ≡ drop n (map f xs)
  map-drop zero xs = refl
  map-drop (suc n) [] = refl
  map-drop (suc n) (x ∷ xs) = map-drop n xs

  map-map : {C : Type 0} (g : B → C) (xs : List A) → map g (map f xs) ≡ map (λ x. g (f x)) xs
  map-map g [] = refl
  map-map g (x ∷ xs) = ap (λ l. g (f x) ∷ l) (map-map g xs)

take_nil : (n : ℕ) → take {A = ℕ} n [] ≡ []
take_nil zero = refl
take_nil (suc n) = refl

total-take-drop : (f : ℕ) (ns : List ℕ) → total ns ≡ total (take f ns) + total (drop f ns)
total-take-drop zero ns = omega arith
total-take-drop (suc f) [] = refl
total-take-drop (suc f) (m ∷ ns) = omega (arith, total-take-drop f ns)

total-take-add :
    (f k : ℕ) (ns : List ℕ)
    → total (take (f + k) ns) ≡ total (take f ns) + total (take k (drop f ns))
total-take-add zero k ns =
    let e : zero + k ≡ k = omega arith in ap (λ i. total (take i ns)) e ∙ omega arith
total-take-add (suc f) k [] = ap total (take_nil (suc f + k)) ∙ omega (arith, ap total (take_nil k))
total-take-add (suc f) k (m ∷ ns) =
    let e : suc f + k ≡ suc (f + k) = omega arith in
    ap (λ i. total (take i (m ∷ ns))) e ∙ omega (arith, total-take-add f k ns)

module _ {A : Type 0} where
  length-take-drop : (n k : ℕ) (xs : List A) → n + k ≤ length xs → length (take k (drop n xs)) ≡ k
  length-take-drop n zero xs h = refl
  length-take-drop zero (suc k) [] h = absurd (omega arith)
  length-take-drop zero (suc k) (x ∷ xs) h = ap suc (length-take-drop zero k xs (omega arith))
  length-take-drop (suc n) (suc k) [] h = absurd (omega arith)
  length-take-drop (suc n) (suc k) (x ∷ xs) h = length-take-drop n (suc k) xs (omega arith)

  no_rows : (xs : List A) → length xs ≡ 0 → xs ≡ []
  no_rows [] h = refl
  no_rows (x ∷ xs) h = absurd (omega arith)

  sized :
      (xss : List (List A)) (f k : ℕ)
      → total (take (f + k) (map length xss))
        ≡ total (take f (map length xss)) + total (map length (take k (drop f xss)))
  sized xss f k =
      total-take-add f k (map length xss)
      ∙ ap (λ ns. total (take f (map length xss)) + total ns)
          (sym (map-take length k (drop f xss) ∙ ap (take k) (map-drop length f xss)))

  -- The first `k` lists are enough for a slice that ends in them, or where the others are empty.
  covers :
      (xss : List (List A)) (k m n : ℕ)
      → (m + n ≤ length (concat (take k xss))) ⊎ (concat (drop k xss) ≡ [])
      → take n (drop m (concat (take k xss))) ≡ take n (drop m (concat xss))
  covers xss k m n (inl within) =
      sym (take-drop-append n m (concat (take k xss)) (concat (drop k xss)) within)
      ∙ ap (λ l. take n (drop m l)) (sym (concat-take-drop k xss))
  covers xss k m n (inr empty) =
      ap (λ l. take n (drop m l))
        (sym (append-nil (concat (take k xss)))
          ∙ ap (λ l. concat (take k xss) ++ l) (sym empty)
          ∙ sym (concat-take-drop k xss))

  -- From group `f` to group `l`: the slice of these groups is that of all rows, if the groups before
  -- end before the offset, and the last one behind the end of the slice or of the rows.
  slice_of_groups :
      (xss : List (List A)) (f k offset n : ℕ)
      → total (take f (map length xss)) ≤ offset
      → (offset + n ≤ total (take (f + k) (map length xss)))
        ⊎ (total (map length xss) ≤ total (take (f + k) (map length xss)))
      → take n (drop (offset - total (take f (map length xss))) (concat (take k (drop f xss))))
        ≡ take n (drop offset (concat xss))
  slice_of_groups xss f k offset n before ends =
      let s = total (take f (map length xss)) in
      let groups = drop f xss in
      let same : s + (offset - s) ≡ offset = omega arith in
      covers groups k (offset - s) n (elim ends [
        | inl within ↦ inl (omega (arith, sized xss f k, length-concat (take k groups)))
        | inr whole ↦ inr (
            no_rows (concat (drop k groups)) (
              omega (
                arith,
                sized xss f k,
                length-concat (take k groups),
                length-concat groups,
                total-take-drop f (map length xss),
                ap total (map-drop length f xss),
                ap length (concat-take-drop k groups),
                length-append (concat (take k groups)) (concat (drop k groups)),
              )))
      ])
      ∙ ap (λ l. take n (drop (offset - s) l)) (sym (drop-concat f xss))
      ∙ ap (take n) (drop-drop s (offset - s) (concat xss))
      ∙ ap (λ i. take n (drop i (concat xss))) same

module _ {A : Type 0} (N : Arrays) (P : Tables A) (index : RowsIndex N P) (offset n : ℕ) where
  open index use {row_group_offsets, row_group_readers}

  -- The steps of `query` up to the concatenation.
  query_steps :
      (all f l start : ℕ) (ts : List P.Table)
      → (length row_group_offsets == 0 || length row_group_readers == 0) ≡ false
      → last? row_group_offsets ≡ some all
      → N.searchsorted row_group_offsets (min_ℤ (pos offset) (pred_ℤ all)) ≡ f
      → N.searchsorted row_group_offsets (min_ℤ (pred_ℤ (offset + n)) (pred_ℤ all)) ≡ l
      → start_of row_group_offsets f ≡ some start
      → read_groups row_group_readers f (suc l - f) ≡ some ts
      → query N P index offset n ≡ sliced N P offset n (some start) (P.concat_tables ts)
  unfolding query
  query_steps all f l start ts filled last first_id last_id starts reads =
      rw (filled, last, first_id, last_id, starts, reads) refl

  sliced-found :
      (start : ℕ) (t : P.Table) (o : Option P.Table)
      → o ≡ some t
      → start ≤ offset
      → sliced N P offset n (some start) o ≡ found (P.slice (offset - start) n t)
  sliced-found start t o e h =
      let behind : ltb offset start ≡ false = ground arith in rw (e, behind) refl

module _ {A : Type 0} (N : Arrays) (P : Tables A) (groups : List P.Table) where
  open P use {Table, rows, slice, slice_law, concat_tables, concat_tables_some}

  abbrev sizes : List ℕ
  sizes = map (λ t. length (rows t)) groups

  abbrev first_group : ℕ → ℕ
  first_group offset = group_of 0 (min (suc offset) (total sizes)) sizes

  abbrev last_group : ℕ → ℕ
  last_group end = group_of 0 (min end (total sizes)) sizes

  first_row_group_id :
      (offset : ℕ)
      → N.searchsorted (N.cumsum sizes) (min_ℤ (pos offset) (pred_ℤ (total sizes)))
        ≡ first_group offset
  first_row_group_id offset = rw N.cumsum_law (
      N.searchsorted_law (sums 0 sizes) _ (ascending-sums 0 sizes)
      ∙ count_cong _ (λ x. ltb x (min (suc offset) (total sizes))) (sums 0 sizes)
          (λ x. below_first x offset (total sizes)))

  last_row_group_id :
      (end : ℕ)
      → N.searchsorted (N.cumsum sizes) (min_ℤ (pred_ℤ end) (pred_ℤ (total sizes))) ≡ last_group end
  last_row_group_id end = rw N.cumsum_law (
      N.searchsorted_law (sums 0 sizes) _ (ascending-sums 0 sizes)
      ∙ count_cong _ (λ x. ltb x (min end (total sizes))) (sums 0 sizes)
          (λ x. below_last x end (total sizes)))

  start_lem : (i : ℕ) → i ≤ length sizes → start_of (N.cumsum sizes) i ≡ some (total (take i sizes))
  start_lem zero h = refl
  start_lem (suc i) h =
      let from_zero : 0 + total (take (suc i) sizes) ≡ total (take (suc i) sizes) = omega arith in
      rw N.cumsum_law (start_of-sums 0 i sizes (omega arith) ∙ ap some from_zero)

  concatenated_some :
      (ts : List Table)
      → 0 < length ts
      → (all : Table) × (concat_tables ts ≡ some all) × (rows all ≡ concat (map rows ts))
  concatenated_some [] h = absurd (omega arith)
  concatenated_some (t ∷ ts) h = concat_tables_some t ts

  sizes_of_rows : sizes ≡ map length (map rows groups)
  sizes_of_rows = sym (map-map rows length groups)

  length-sizes : length sizes ≡ length groups
  length-sizes = length-map _ groups

  last_size : 0 < length groups → last? (N.cumsum sizes) ≡ some (total sizes)
  last_size h = rw N.cumsum_law (last_of sizes (omega (arith, length-sizes)))
    where
      last_of : (ns : List ℕ) → 0 < length ns → last? (sums 0 ns) ≡ some (total ns)
      last_of [] h = absurd (omega arith)
      last_of (m ∷ ns) h =
          let from_zero : 0 + total (m ∷ ns) ≡ total (m ∷ ns) = omega arith in
          last-sums 0 m ns ∙ ap some from_zero

  index_filled : 0 < length groups → (length (N.cumsum sizes) == 0 || length groups == 0) ≡ false
  index_filled h = rw N.cumsum_law (ground (arith, length-sums 0 sizes, length-sizes))

  start_within : (offset : ℕ) → total (take (first_group offset) sizes) ≤ offset
  start_within offset = elim (start-group_of 0 (min (suc offset) (total sizes)) sizes) [
    | inl z ↦ rw z (omega arith)
    | inr l ↦ ground arith
  ]

  rows_of_groups :
      (f k offset n : ℕ)
      → total (take f sizes) ≤ offset
      → (offset + n ≤ total (take (f + k) sizes)) ⊎ (total sizes ≤ total (take (f + k) sizes))
      → take n (drop (offset - total (take f sizes)) (concat (map rows (take k (drop f groups)))))
        ≡ take n (drop offset (concat (map rows groups)))
  rows_of_groups f k offset n =
      subst
        (λ ns.
          total (take f ns) ≤ offset
          → (offset + n ≤ total (take (f + k) ns)) ⊎ (total ns ≤ total (take (f + k) ns))
          → take n (drop (offset - total (take f ns)) (concat (map rows (take k (drop f groups)))))
            ≡ take n (drop offset (concat (map rows groups))))
        (sym sizes_of_rows)
        (λ before ends.
          ap
            (λ xss.
              take n (drop (offset - total (take f (map length (map rows groups)))) (concat xss)))
            (map-take rows k (drop f groups) ∙ ap (take k) (map-drop rows f groups))
          ∙ slice_of_groups (map rows groups) f k offset n before ends)

  reaches :
      (f k l offset n : ℕ)
      → f + k ≡ suc l
      → min (offset + n) (total sizes) ≤ 0 + total (take (suc l) sizes)
      → (offset + n ≤ total (take (f + k) sizes)) ⊎ (total sizes ≤ total (take (f + k) sizes))
  reaches f k l offset n same ends = rw same (elim (Bool-cases (ltb (total sizes) (offset + n))) [
    | inl over ↦ inr (shorter _ (total sizes) (offset + n) over ends)
    | inr within ↦ inl (longer _ (total sizes) (offset + n) within ends)
  ])
    where
      shorter : (x a e : ℕ) → ltb a e ≡ true → min e a ≤ 0 + x → a ≤ x
      shorter x a e h l = ground arith

      longer : (x a e : ℕ) → ltb a e ≡ false → min e a ≤ 0 + x → e ≤ x
      longer x a e h l = ground arith

  -- With at least one row group and a positive length, `query` returns a table, whose rows are those
  -- from the offset on, as many as the length, of all rows of the row groups in their order.
  pub query_lem :
      (offset n : ℕ)
      → 0 < length groups
      → 0 < n
      → (t : Table) × (query N P (index_of N P groups) offset n ≡ found t)
        × (rows t ≡ take n (drop offset (concat (map rows groups))))
  unfolding index_of
  query_lem offset n filled positive =
      let f = first_group offset in
      let l = last_group (offset + n) in
      let start = total (take f sizes) in
      let ordered =
        group_of-le 0 (min (suc offset) (total sizes)) (min (offset + n) (total sizes)) sizes
          (ground arith) in
      let (ends, there) =
        end-group_of 0 (min (offset + n) (total sizes)) sizes (omega (arith, length-sizes))
          (ground arith) in
      let k = suc l - f in
      let ts = take k (drop f groups) in
      let enough : f + k ≤ length groups = omega (arith, length-sizes) in
      let as_many = length-take-drop f k groups enough in
      let (t, concats, row_law) = concatenated_some ts (omega arith) in
      (
        slice (offset - start) n t,
        query_steps N P (index_of N P groups) offset n (total sizes) f l start ts
              (index_filled filled) (last_size filled) (first_row_group_id offset)
              (last_row_group_id (offset + n)) (start_lem f (omega arith))
              (read_groups_lem groups f k enough)
            ∙ sliced-found N P (index_of N P groups) offset n start t _ concats
                (start_within offset),
        slice_law (offset - start) n t
            ∙ ap (λ l. take n (drop (offset - start) l)) row_law
            ∙ rows_of_groups f k offset n (start_within offset)
                (reaches f k l offset n (omega arith) ends),
      )

module _ {A : Type 0} (N : Arrays) (P : Tables A) (g : P.Table) (gs : List P.Table) where
  open P use {rows, concat_tables_none}

  before_boundary : (all : ℕ) → ltb (0 + length (rows g)) (min (length (rows g) + 0) all) ≡ false
  before_boundary all = ground arith

  behind_boundary :
      (all : ℕ)
      → length (rows g) < all
      → ltb (0 + length (rows g)) (min (suc (length (rows g))) all) ≡ true
  behind_boundary all h = ground arith

  nothing_read : (f : ℕ) → 0 < f → suc 0 - f ≡ 0
  nothing_read f h = omega arith

  -- With a length of zero at the offset where the second row group begins, if a later row group has a
  -- row, `query` concatenates no table, which raises an exception.
  pub query_at_boundary :
      0 < length (concat (map rows gs))
      → query N P (index_of N P (g ∷ gs)) (length (rows g)) 0 ≡ no_table
  unfolding index_of
  query_at_boundary more =
      let groups = g ∷ gs in
      let all = total (sizes N P groups) in
      let f = first_group N P groups (length (rows g)) in
      let rest : length (concat (map rows gs)) ≡ total (map (λ t. length (rows t)) gs) =
        length-concat (map rows gs) ∙ ap total (map-map rows length gs) in
      let first_behind : f
          ≡ suc (
              group_of (0 + length (rows g)) (min (suc (length (rows g))) all)
                (map (λ t. length (rows t)) gs)) =
        group_below 0 _ (length (rows g)) (map (λ t. length (rows t)) gs)
          (behind_boundary all (omega arith)) in
      let last_before : last_group N P groups (length (rows g) + 0) ≡ 0 =
        group_above 0 _ (length (rows g)) (map (λ t. length (rows t)) gs) (before_boundary all) in
      let none_between : suc 0 - f ≡ 0 = nothing_read f (omega arith) in
      let f_there : f ≤ length (sizes N P groups) = group_of-le-length 0 _ (sizes N P groups) in
      query_steps N P (index_of N P groups) (length (rows g)) 0 all f 0
        (total (take f (sizes N P groups))) [] (index_filled N P groups (omega arith))
        (last_size N P groups (omega arith)) (first_row_group_id N P groups (length (rows g)))
        (last_row_group_id N P groups (length (rows g) + 0) ∙ last_before)
        (start_lem N P groups f f_there) (ap (read_groups groups f) none_between)
      ∙ ap (sliced N P (length (rows g)) 0 (some (total (take f (sizes N P groups)))))
          concat_tables_none
