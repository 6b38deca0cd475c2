-- ===== src/Rows/Cleaning/Samples.antt =====
-- Witness for the theorem about `clean_cached_assets` of services/api/src/api/routes/rows.py: four
-- directories, of which the one of the first row stays, and so does the most recent other one.
use datasets_server.Prelude.{
  ℕ, ◌+◌, ◌≤◌, Bool, not, some, List, [], ◌∷◌, length, count, ltb, pos, ◌≡◌, ◌⊎◌,
}
use datasets_server.Rows.Cleaning.{RowDir, greater_or_equal, sample, clean_cached_assets}
use datasets_server.Rows.Cleaning.Bounds.{clean_cached_assets_lem}

abbrev dir : ℕ → ℕ → RowDir
dir n mtime = record { id = n; number = some (pos n); mtime = mtime }

abbrev dirs : List RowDir
dirs = dir 0 1 ∷ dir 1 2 ∷ dir 2 4 ∷ dir 3 3 ∷ []

clean_cached_assets_lem_example :
    (deleted : List RowDir) × (kept : List RowDir) × (clean_cached_assets
        (pos 1)
        (pos 1)
        (pos 2)
        dirs
      ≡ some deleted)
    × (length deleted ≤ 2)
    × ((q : RowDir → Bool) → count q kept + count q deleted ≡ count q (sample 1 1 2 dirs))
    × (count (λ d. not (greater_or_equal 1 d)) deleted ≡ 0)
    × ((deleted ≡ []) ⊎ (length kept ≡ 1))
    × ((t : ℕ)
        → (count (λ d. ltb t d.mtime) deleted ≡ 0) ⊎ (count (λ d. not (ltb t d.mtime)) kept ≡ 0))
clean_cached_assets_lem_example = clean_cached_assets_lem 1 1 2 dirs
