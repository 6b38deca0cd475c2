-- ===== src/Worker/Truncation/Fits.antt =====
-- `create_truncated_row_items` of services/worker/src/worker/utils.py, where the first rows fit.
use datasets_server.Prelude.{
  ℕ, zero, suc, ◌+◌, ◌≤◌, true, false, String, List, [], ◌∷◌, ◌++◌, take, drop, length, ltb, ltb_ℤ,
  ℤ, pos, ◌≡◌, refl, sym, subst, ◌∙◌, ap, ◌⊎◌, inl, inr, arith, Bool-cases,
}
use datasets_server.Json.{Json}
use datasets_server.Worker.Truncation.{
  RowItem, Encoder, to_row_item, size, total, first_items, remaining_items,
  create_truncated_row_items,
}

abbrev pub Rows : Type 0
Rows = List (List (String × Json))

-- The row items of rows that stand from an index on, without a limit.
abbrev pub items_from : ℕ → Rows → List RowItem
items_from idx [] = []
items_from idx (row ∷ rows) = to_row_item idx row ∷ items_from (suc idx) rows

items_from-split :
    (n idx : ℕ) (rows : Rows) (k : ℕ)
    → n ≤ length rows
    → items_from idx (take (n + k) rows)
      ≡ items_from idx (take n rows) ++ items_from (idx + n) (take k (drop n rows))
items_from-split zero idx rows k h =
    let e : idx + 0 ≡ idx = omega arith in let f : 0 + k ≡ k = omega arith in rw (e, f) refl
items_from-split (suc n) idx [] k h = absurd (omega (arith, h))
items_from-split (suc n) idx (row ∷ rows) k h =
    let e : suc n + k ≡ suc (n + k) = omega arith in
    let f : idx + suc n ≡ suc idx + n = omega arith in
    rw (e, f)
      (ap (λ l. to_row_item idx row ∷ l) (items_from-split n (suc idx) rows k (omega (arith, h))))

drop_all : (n : ℕ) (rows : Rows) → length rows ≤ n → drop n rows ≡ []
drop_all zero [] h = refl
drop_all zero (row ∷ rows) h = absurd (omega (arith, h))
drop_all (suc n) [] h = refl
drop_all (suc n) (row ∷ rows) h = drop_all n rows (omega (arith, h))

take_all : (n : ℕ) (rows : Rows) → length rows ≤ n → take n rows ≡ take (length rows) rows
take_all zero [] h = refl
take_all zero (row ∷ rows) h = absurd (omega (arith, h))
take_all (suc n) [] h = refl
take_all (suc n) (row ∷ rows) h = ap (λ l. row ∷ l) (take_all n rows (omega (arith, h)))

length-drop : (n : ℕ) (rows : Rows) → n ≤ length rows → n + length (drop n rows) ≡ length rows
length-drop zero rows h = omega arith
length-drop (suc n) [] h = absurd (omega (arith, h))
length-drop (suc n) (row ∷ rows) h = omega (arith, length-drop n rows (omega (arith, h)))

append_nil : (items : List RowItem) → items ++ [] ≡ items
append_nil [] = refl
append_nil (item ∷ items) = ap (λ l. item ∷ l) (append_nil items)

module _ (E : Encoder) where
  first_items_lem :
      (idx : ℕ) (rows : Rows) (bytes : ℕ) → (first_items E idx rows bytes).0 ≡ items_from idx rows
  unfolding first_items
  first_items_lem idx [] bytes = refl
  first_items_lem idx (row ∷ rows) bytes =
      ap (λ l. to_row_item idx row ∷ l)
        (first_items_lem (suc idx) rows (bytes + size E (to_row_item idx row)))

  first_items_bytes :
      (idx : ℕ) (rows : Rows) (bytes : ℕ)
      → (first_items E idx rows bytes).1 ≡ bytes + total E (items_from idx rows)
  unfolding first_items
  first_items_bytes idx [] bytes = omega arith
  first_items_bytes idx (row ∷ rows) bytes =
      omega (arith, first_items_bytes (suc idx) rows (bytes + size E (to_row_item idx row)))

  -- The second loop adds a number of rows: the sum stays below the limit, and the next row, if there
  -- is one, would reach it.
  remaining_items_lem :
      (max : ℤ) (idx : ℕ) (rows : Rows) (bytes : ℕ)
      → ltb_ℤ (pos bytes) max ≡ true
      → (k : ℕ) × (k ≤ length rows)
        × (remaining_items E max idx rows bytes ≡ items_from idx (take k rows))
        × (ltb_ℤ (pos (bytes + total E (items_from idx (take k rows)))) max ≡ true)
        × ((k ≡ length rows)
            ⊎ (ltb_ℤ (pos (bytes + total E (items_from idx (take (suc k) rows)))) max ≡ false))
  unfolding remaining_items
  remaining_items_lem max idx [] bytes h =
      (0, omega arith, refl, subst (λ n. ltb_ℤ (pos n) max ≡ true) (omega arith) h, inl refl)
  remaining_items_lem max idx (row ∷ rows) bytes h =
      let bytes' : ℕ = bytes + size E (to_row_item idx row) in
      elim (Bool-cases (ltb_ℤ (pos bytes') max)) [
        | inl e ↦
            let (k, le, same, below, next) = remaining_items_lem max (suc idx) rows bytes' e in
            (
              suc k,
              omega (arith, le),
              rw (e, remaining_items) (ap (λ l. to_row_item idx row ∷ l) same),
              subst (λ n. ltb_ℤ (pos n) max ≡ true) (omega arith) below,
              elim next [
                | inl all ↦ inl (ap suc all)
                | inr over ↦ inr (subst (λ n. ltb_ℤ (pos n) max ≡ false) (omega arith) over)
              ],
            )
        | inr e ↦ (
          0,
          omega arith,
          rw (e, remaining_items) refl,
          subst (λ n. ltb_ℤ (pos n) max ≡ true) (omega arith) h,
          inr (subst (λ n. ltb_ℤ (pos n) max ≡ false) (omega arith) e),
        )
      ]

  total_append :
      (items more : List RowItem) → total E (items ++ more) ≡ total E items + total E more
  total_append [] more = omega arith
  total_append (item ∷ items) more = omega (arith, total_append items more)

  -- What the code makes of rows whose first ones fit.
  abbrev Fitting : (max : ℤ) (n : ℕ) → Rows → List RowItem → Type 0
  Fitting max n rows result =
      (k : ℕ) × (k ≤ length rows)
      × ((n ≤ k) ⊎ (k ≡ length rows))
      × (result ≡ items_from 0 (take k rows))
      × (ltb_ℤ (pos (total E (items_from 0 (take k rows)))) max ≡ true)
      × ((k ≡ length rows) ⊎ (ltb_ℤ (pos (total E (items_from 0 (take (suc k) rows)))) max ≡ false))

  module _ (max : ℤ) (n : ℕ) (rows : Rows) (min_cell_bytes : ℕ)
      (fits : ltb_ℤ (pos (total E (items_from 0 (take n rows)))) max ≡ true) where
    abbrev first : List RowItem
    first = items_from 0 (take n rows)

    created_first :
        create_truncated_row_items E rows min_cell_bytes max n
        ≡ first ++ remaining_items E max n (drop n rows) (total E first)
    unfolding create_truncated_row_items
    created_first =
        let first_same = first_items_lem 0 (take n rows) 0 in
        let bytes_same : (first_items E 0 (take n rows) 0).1 ≡ total E first =
          first_items_bytes 0 (take n rows) 0 ∙ omega arith in
        rw (bytes_same, first_same, fits, create_truncated_row_items) refl

    few :
        length rows ≤ n
        → Fitting max n rows (first ++ remaining_items E max n (drop n rows) (total E first))
    unfolding remaining_items
    few h =
        let t = take_all n rows h in
        (
          length rows,
          omega arith,
          inr refl,
          ap (λ r. first ++ remaining_items E max n r (total E first)) (drop_all n rows h)
              ∙ append_nil first
              ∙ ap (items_from 0) t,
          subst (λ r. ltb_ℤ (pos (total E (items_from 0 r))) max ≡ true) t fits,
          inl refl,
        )

    joined :
        n ≤ length rows
        → (k : ℕ) → first ++ items_from n (take k (drop n rows)) ≡ items_from 0 (take (n + k) rows)
    joined h k =
        let e : 0 + n ≡ n = omega arith in
        sym (
          subst
            (λ i. items_from 0 (take (n + k) rows) ≡ first ++ items_from i (take k (drop n rows))) e
            (items_from-split n 0 rows k h))

    sum_of :
        n ≤ length rows
        → (k : ℕ)
        → total E first + total E (items_from n (take k (drop n rows)))
          ≡ total E (items_from 0 (take (n + k) rows))
    sum_of h k =
        sym (total_append first (items_from n (take k (drop n rows)))) ∙ ap (total E) (joined h k)

    many :
        n ≤ length rows
        → Fitting max n rows (first ++ remaining_items E max n (drop n rows) (total E first))
    many h =
        let (k, le, same, below, next) =
          remaining_items_lem max n (drop n rows) (total E first) fits in
        (
          n + k,
          omega (arith, le, length-drop n rows h),
          inl (omega arith),
          ap (λ l. first ++ l) same ∙ joined h k,
          subst (λ b. ltb_ℤ (pos b) max ≡ true) (sum_of h k) below,
          elim next [
            | inl all ↦ inl (omega (arith, all, length-drop n rows h))
            | inr over ↦
                let e : n + suc k ≡ suc (n + k) = omega arith in
                inr (
                  subst (λ i. ltb_ℤ (pos (total E (items_from 0 (take i rows)))) max ≡ false) e
                    (subst (λ b. ltb_ℤ (pos b) max ≡ false) (sum_of h (suc k)) over))
          ],
        )

    -- If the items of the first `rows_min_number` rows are below the limit in bytes, the result is the
    -- uncut items of the first `k` rows: all of them, or at least `rows_min_number`. They are below the
    -- limit, and with one more row they would reach it.
    pub create_truncated_row_items_fits :
        (k : ℕ) × (k ≤ length rows)
        × ((n ≤ k) ⊎ (k ≡ length rows))
        × (create_truncated_row_items E rows min_cell_bytes max n ≡ items_from 0 (take k rows))
        × (ltb_ℤ (pos (total E (items_from 0 (take k rows)))) max ≡ true)
        × ((k ≡ length rows)
            ⊎ (ltb_ℤ (pos (total E (items_from 0 (take (suc k) rows)))) max ≡ false))
    create_truncated_row_items_fits =
        subst (Fitting max n rows) (sym created_first) (elim (Bool-cases (ltb n (length rows))) [
          | inl e ↦ many (ground (arith, e))
          | inr e ↦ few (ground (arith, e))
        ])
