-- ===== src/Worker/Truncation.antt =====
-- How services/worker/src/worker/utils.py cuts the rows of a response: `utf8_byte_truncate`,
-- `truncate_row_items` and `create_truncated_row_items`. orjson is an argument: the bytes of a cell, and
-- the size of a row item. A text is read as its bytes in UTF-8.
pub mod Bytes
pub mod Fits
pub mod Cut
mod Samples
use mathlib.Core.List.{reverse}
use datasets_server.Prelude.{
  ℕ, zero, suc, ◌+◌, ◌-◌, Bool, true, false, not, ◌&&◌, ◌||◌, String, Option, none, some, List, [],
  ◌∷◌, ◌++◌, map, take, drop, length, ltb, ltb_ℤ, ℤ, pos, if◌then◌else◌,
}
use datasets_server.Json.{Json, text}

-- `(b & 0xC0) != 0x80`, for a byte `b`
abbrev pub utf8_lead_byte : ℕ → Bool
utf8_lead_byte b = not (not (ltb b 128) && ltb b 192)

-- `utf8[i]`; the loop reads it inside of the bytes only.
abbrev pub byte_at : List ℕ → ℕ → ℕ
byte_at [] i = 0
byte_at (b ∷ bs) zero = b
byte_at (b ∷ bs) (suc i) = byte_at bs i

-- The `while` loop of `utf8_byte_truncate`.
unfoldable pub back_up : List ℕ → ℕ → ℕ
back_up utf8 zero = zero
back_up utf8 (suc i) =
    let before = back_up utf8 i in if utf8_lead_byte (byte_at utf8 (suc i)) then suc i else before

-- `text` is its own encoding.
unfoldable pub utf8_byte_truncate : List ℕ → (max_bytes : ℕ) → List ℕ
unfolding back_up
utf8_byte_truncate utf8 max_bytes =
    if not (ltb max_bytes (length utf8)) then utf8 else take (back_up utf8 max_bytes) utf8

pub record RowItem : Type 0 where
  pub row_idx : ℕ
  pub row : List (String × Json)
  pub truncated_cells : List String

-- orjson: the bytes of a value, the text with given bytes, and the size of a row item.
pub record Encoder : Type 0 where
  pub dumps : Json → List ℕ
  pub decode : List ℕ → String
  pub row_item_size : RowItem → ℕ

unfoldable pub to_row_item : ℕ → List (String × Json) → RowItem
to_row_item row_idx row = record { row_idx = row_idx; row = row; truncated_cells = [] }

module _ (E : Encoder) where
  -- The size of a row item with its comma.
  abbrev pub size : RowItem → ℕ
  size item = E.row_item_size item + 1

  -- The loop of `truncate_row_item`: the new row, and the columns that are cut.
  unfoldable pub truncate_cells :
      (min_cell_bytes : ℕ) → List (String × Json) → List (String × Json) × List String
  unfolding utf8_byte_truncate
  truncate_cells min_cell_bytes [] = ([], [])
  truncate_cells min_cell_bytes ((name, cell) ∷ cells) =
      let rest = truncate_cells min_cell_bytes cells in
      if not (ltb min_cell_bytes (length (E.dumps cell)))
      then ((name, cell) ∷ rest.0, rest.1)
      else (
        (name, text (E.decode (utf8_byte_truncate (E.dumps cell) min_cell_bytes))) ∷ rest.0,
        name ∷ rest.1,
      )

  unfoldable pub truncate_row_item : (min_cell_bytes : ℕ) → RowItem → RowItem
  unfolding truncate_cells
  truncate_row_item min_cell_bytes item =
      let (row, cut) = truncate_cells min_cell_bytes item.row in
      record item { row = row; truncated_cells = item.truncated_cells ++ cut }

  -- `sum(get_json_size(row_item) + COMMA_SIZE for row_item in row_items)`
  abbrev pub total : List RowItem → ℕ
  total [] = 0
  total (item ∷ items) = size item + total items

  -- The loop of `truncate_row_items`, from the last row to the first.
  unfoldable pub truncate_loop :
      (min_cell_bytes : ℕ) → (rows_max_bytes : ℤ) → (rows_bytes : ℕ) → List RowItem → List RowItem
  unfolding truncate_row_item
  truncate_loop min_cell_bytes rows_max_bytes rows_bytes [] = []
  truncate_loop min_cell_bytes rows_max_bytes rows_bytes (item ∷ items) =
      let cut = truncate_row_item min_cell_bytes item in
      let rest =
        truncate_loop min_cell_bytes rows_max_bytes ((rows_bytes + size cut) - size item) items in
      if ltb_ℤ (pos rows_bytes) rows_max_bytes then item ∷ items else cut ∷ rest

  -- The size of no item is -1 in the code; the loop does not read it then.
  unfoldable pub truncate_row_items :
      (min_cell_bytes : ℕ) → (rows_max_bytes : ℤ) → List RowItem → List RowItem
  unfolding truncate_loop
  truncate_row_items min_cell_bytes rows_max_bytes items =
      reverse (truncate_loop min_cell_bytes rows_max_bytes (total items - 1) (reverse items))

  -- The first loop of `create_truncated_row_items`, with the sum of the sizes.
  unfoldable pub first_items : ℕ → List (List (String × Json)) → (rows_bytes : ℕ) → List RowItem × ℕ
  unfolding to_row_item
  first_items idx [] rows_bytes = ([], rows_bytes)
  first_items idx (row ∷ rows) rows_bytes =
      let item = to_row_item idx row in
      let rest = first_items (suc idx) rows (rows_bytes + size item) in (item ∷ rest.0, rest.1)

  -- The second loop.
  unfoldable pub remaining_items :
      (rows_max_bytes : ℤ) → ℕ → List (List (String × Json)) → (rows_bytes : ℕ) → List RowItem
  unfolding to_row_item
  remaining_items rows_max_bytes idx [] rows_bytes = []
  remaining_items rows_max_bytes idx (row ∷ rows) rows_bytes =
      let item = to_row_item idx row in
      let rows_bytes' = rows_bytes + size item in
      let rest = remaining_items rows_max_bytes (suc idx) rows rows_bytes' in
      if not (ltb_ℤ (pos rows_bytes') rows_max_bytes) then [] else item ∷ rest

  unfoldable pub create_truncated_row_items :
      List (List (String × Json))
      → (min_cell_bytes : ℕ) → (rows_max_bytes : ℤ) → (rows_min_number : ℕ) → List RowItem
  unfolding first_items truncate_row_items remaining_items
  create_truncated_row_items rows min_cell_bytes rows_max_bytes rows_min_number =
      let (row_items, rows_bytes) = first_items 0 (take rows_min_number rows) 0 in
      if not (ltb_ℤ (pos rows_bytes) rows_max_bytes)
      then truncate_row_items min_cell_bytes rows_max_bytes row_items
      else row_items
        ++ remaining_items rows_max_bytes rows_min_number (drop rows_min_number rows) rows_bytes
