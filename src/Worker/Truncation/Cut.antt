-- ===== src/Worker/Truncation/Cut.antt =====
-- `truncate_row_items` of services/worker/src/worker/utils.py.
use mathlib.Core.List.{reverse, reverse_aux}
use datasets_server.Prelude.{
  ℕ, ◌+◌, ◌-◌, true, false, List, [], ◌∷◌, ◌++◌, map, ltb_ℤ, ℤ, pos, ◌≡◌, refl, subst, ◌∙◌, ap, ◌⊎◌,
  inl, inr, arith, Bool-cases,
}
use datasets_server.Worker.Truncation.{
  RowItem, Encoder, size, total, truncate_row_item, truncate_loop, truncate_row_items,
}

module _ (E : Encoder) (cell : ℕ) (max : ℤ) where
  -- Each item was cut while the sum, with the items before it cut already, was not below the limit.
  abbrev pub EachOver : (done : ℕ) → (cut kept : List RowItem) → Type 0
  EachOver done [] kept = Unit
  EachOver done (item ∷ cut) kept =
      (ltb_ℤ (pos ((done + (total E (item ∷ cut) + total E kept)) - 1)) max ≡ false)
      × EachOver (done + size E (truncate_row_item E cell item)) cut kept

  total_append :
      (items more : List RowItem) → total E (items ++ more) ≡ total E items + total E more
  total_append [] more = omega arith
  total_append (item ∷ items) more = omega (arith, total_append items more)

  abbrev Loop : (done : ℕ) → (items result : List RowItem) → Type 0
  Loop done items result =
      (cut : List RowItem) × (kept : List RowItem) × (items ≡ cut ++ kept)
      × (result ≡ map (truncate_row_item E cell) cut ++ kept)
      × ((kept ≡ [])
          ⊎ (ltb_ℤ
                (pos ((done + (total E (map (truncate_row_item E cell) cut) + total E kept)) - 1))
                max
              ≡ true))
      × EachOver done cut kept

  truncate_loop_lem :
      (bytes done : ℕ) (items : List RowItem)
      → bytes + 1 ≡ done + total E items
      → Loop done items (truncate_loop E cell max bytes items)
  unfolding truncate_loop
  truncate_loop_lem bytes done [] h = ([], [], refl, refl, inl refl, tt)
  truncate_loop_lem bytes done (item ∷ items) h =
      let new : ℕ = size E (truncate_row_item E cell item) in
      elim (Bool-cases (ltb_ℤ (pos bytes) max)) [
        | inl e ↦ (
          [],
          item ∷ items,
          refl,
          rw (e, truncate_loop) refl,
          inr (subst (λ n. ltb_ℤ (pos n) max ≡ true) (omega (arith, h)) e),
          tt,
        )
        | inr e ↦
            let (cut, kept, split, result, stop, over) =
              truncate_loop_lem ((bytes + new) - size E item) (done + new) items
                (omega (arith, h)) in
            let sums : total E items ≡ total E cut + total E kept =
              ap (total E) split ∙ total_append cut kept in
            (
              item ∷ cut,
              kept,
              ap (λ l. item ∷ l) split,
              rw (e, truncate_loop) (ap (λ l. truncate_row_item E cell item ∷ l) result),
              elim stop [
                | inl all ↦ inl all
                | inr fits ↦ inr (subst (λ n. ltb_ℤ (pos n) max ≡ true) (omega arith) fits)
              ],
              (subst (λ n. ltb_ℤ (pos n) max ≡ false) (omega (arith, h, sums)) e, over),
            )
      ]

  total-reverse_aux :
      (items more : List RowItem) → total E (reverse_aux items more) ≡ total E items + total E more
  total-reverse_aux [] more = omega arith
  total-reverse_aux (item ∷ items) more = omega (arith, total-reverse_aux items (item ∷ more))

  -- From the last row to the first, `truncate_row_items` cuts some rows and keeps the others as they
  -- are. If it keeps one, the sizes of the rows and the commas between them are below the limit at the
  -- end; and each row that it cuts was reached while they were not.
  pub truncate_row_items_lem :
      (items : List RowItem)
      → (cut : List RowItem) × (kept : List RowItem) × (reverse items ≡ cut ++ kept)
        × (truncate_row_items E cell max items
            ≡ reverse (map (truncate_row_item E cell) cut ++ kept))
        × ((kept ≡ [])
            ⊎ (ltb_ℤ (pos ((total E (map (truncate_row_item E cell) cut) + total E kept) - 1)) max
                ≡ true))
        × EachOver 0 cut kept
  unfolding truncate_row_items truncate_loop
  truncate_row_items_lem [] = ([], [], refl, refl, inl refl, tt)
  truncate_row_items_lem (item ∷ items) =
      let (cut, kept, split, result, stop, over) =
        truncate_loop_lem (total E (item ∷ items) - 1) 0 (reverse (item ∷ items))
          (omega (arith, total-reverse_aux (item ∷ items) [])) in
      (
        cut,
        kept,
        split,
        ap reverse result,
        elim stop [
          | inl all ↦ inl all
          | inr fits ↦ inr (subst (λ n. ltb_ℤ (pos n) max ≡ true) (omega arith) fits)
        ],
        over,
      )
