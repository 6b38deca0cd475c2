-- ===== src/Rows/Cleaning.antt =====
-- `clean_cached_assets` of services/api/src/api/routes/rows.py. The directories that
-- `glob_rows_in_assets_dir` finds are an argument, in its order; the removal of a directory is left out.
pub mod Bounds
mod Samples
use datasets_server.Prelude.{
  ℕ, zero, suc, ◌+◌, Bool, true, false, not, ◌||◌, Option, none, some, List, [], ◌∷◌, filter, take,
  drop, length, ltb, ltb_ℤ, ℤ, pos, negsuc, if◌then◌else◌,
}

-- A directory of a row: the number that is its name, if it is one, and the date of its last change.
pub record RowDir : Type 0 where
  pub id : ℕ
  pub number : Option ℤ
  pub mtime : ℕ

-- `_greater_or_equal(row_dir.name, row_idx, on_error=True)`
abbrev pub greater_or_equal : ℕ → RowDir → Bool
greater_or_equal row_idx dir = at_least dir.number
  where
    at_least : Option ℤ → Bool
    at_least none = true
    at_least (some number) = not (ltb_ℤ number (pos row_idx))

-- `sorted(..., key=os.path.getmtime, reverse=True)`: directories with the same date keep their order.
abbrev pub insert_recent : RowDir → List RowDir → List RowDir
insert_recent x [] = x ∷ []
insert_recent x (y ∷ ys) =
    let rest = insert_recent x ys in if ltb x.mtime y.mtime then y ∷ rest else x ∷ y ∷ ys

unfoldable pub most_recent_first : List RowDir → List RowDir
most_recent_first [] = []
most_recent_first (x ∷ xs) = insert_recent x (most_recent_first xs)

abbrev pub sample : (keep_first keep_most_recent max_cleaned : ℕ) → List RowDir → List RowDir
sample keep_first keep_most_recent max_cleaned dirs =
    take (max_cleaned + keep_most_recent) (filter (greater_or_equal keep_first) dirs)

-- The directories to delete.
abbrev pub cleaned : (keep_first keep_most_recent max_cleaned : ℕ) → List RowDir → List RowDir
cleaned keep_first keep_most_recent max_cleaned dirs =
    let row_directories_sample = sample keep_first keep_most_recent max_cleaned dirs in
    if ltb keep_most_recent (length row_directories_sample)
    then drop keep_most_recent (most_recent_first row_directories_sample)
    else []

-- `none` is the exception `ValueError`.
unfoldable pub clean_cached_assets :
    (keep_first keep_most_recent max_cleaned : ℤ) → List RowDir → Option (List RowDir)
unfolding most_recent_first
clean_cached_assets (pos keep_first) (pos keep_most_recent) (pos max_cleaned) dirs =
    some (cleaned keep_first keep_most_recent max_cleaned dirs)
clean_cached_assets _ _ _ dirs = none
