-- ===== src/Worker/Truncation/Samples.antt =====
-- Witnesses for the theorems about the cut of rows in services/worker/src/worker/utils.py: an encoder
-- for which a text has four bytes.
use mathlib.Core.List.{reverse}
use datasets_server.Prelude.{
  ℕ, ◌≤◌, ◌<◌, ◌+◌, ◌-◌, true, false, List, [], ◌∷◌, ◌++◌, map, take, length, ltb_ℤ, pos, ◌≡◌, refl,
  ◌⊎◌, suc,
}
use datasets_server.Json.{text}
use datasets_server.Worker.Truncation.{
  utf8_lead_byte, byte_at, utf8_byte_truncate, RowItem, Encoder, to_row_item, total,
  truncate_row_item, truncate_row_items, create_truncated_row_items,
}
use datasets_server.Worker.Truncation.Bytes.{utf8_byte_truncate_lem}
use datasets_server.Worker.Truncation.Fits.{Rows, items_from, create_truncated_row_items_fits}
use datasets_server.Worker.Truncation.Cut.{EachOver, truncate_row_items_lem}

-- "aé" in UTF-8, cut to two bytes
abbrev a_text : List ℕ
a_text = 97 ∷ 195 ∷ 169 ∷ []

utf8_byte_truncate_lem_example :
    ((length a_text ≤ 2) × (utf8_byte_truncate a_text 2 ≡ a_text))
    ⊎ ((n : ℕ) × (n ≤ 2)
        × (2 < length a_text)
        × (utf8_byte_truncate a_text 2 ≡ take n a_text)
        × ((n ≡ 0) ⊎ (utf8_lead_byte (byte_at a_text n) ≡ true))
        × ((j : ℕ) → n < j → j ≤ 2 → utf8_lead_byte (byte_at a_text j) ≡ false))
utf8_byte_truncate_lem_example = utf8_byte_truncate_lem a_text 2

abbrev encoder : Encoder
encoder = record {
  dumps = λ _. a_text;
  decode = λ _. "a";
  row_item_size = λ item. 10 + length item.row;
}

abbrev two_rows : Rows
two_rows = (("c", text "x") ∷ []) ∷ (("c", text "y") ∷ []) ∷ []

first_fits : ltb_ℤ (pos (total encoder (items_from 0 (take 1 two_rows)))) (pos 20) ≡ true
unfolding to_row_item
first_fits = refl

create_truncated_row_items_fits_example :
    (k : ℕ) × (k ≤ length two_rows)
    × ((1 ≤ k) ⊎ (k ≡ length two_rows))
    × (create_truncated_row_items encoder two_rows 2 (pos 20) 1 ≡ items_from 0 (take k two_rows))
    × (ltb_ℤ (pos (total encoder (items_from 0 (take k two_rows)))) (pos 20) ≡ true)
    × ((k ≡ length two_rows)
        ⊎ (ltb_ℤ (pos (total encoder (items_from 0 (take (suc k) two_rows)))) (pos 20) ≡ false))
create_truncated_row_items_fits_example =
    create_truncated_row_items_fits encoder (pos 20) 1 two_rows 2 first_fits

abbrev two_items : List RowItem
two_items = items_from 0 two_rows

truncate_row_items_lem_example :
    (cut : List RowItem) × (kept : List RowItem) × (reverse two_items ≡ cut ++ kept)
    × (truncate_row_items encoder 2 (pos 20) two_items
        ≡ reverse (map (truncate_row_item encoder 2) cut ++ kept))
    × ((kept ≡ [])
        ⊎ (ltb_ℤ
              (pos
                ((total encoder (map (truncate_row_item encoder 2) cut) + total encoder kept) - 1))
              (pos 20)
            ≡ true))
    × EachOver encoder 2 (pos 20) 0 cut kept
truncate_row_items_lem_example = truncate_row_items_lem encoder 2 (pos 20) two_items
