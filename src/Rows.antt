-- ===== src/Rows.antt =====
-- `RowsIndex.query` of services/api/src/api/routes/rows.py. A table is given by its rows. The calls of
-- numpy and pyarrow are the interfaces `Arrays` and `Tables`, with what is documented of them.
pub mod Cleaning
pub mod Groups
pub mod Query
mod Samples
use datasets_server.Prelude.{
  ℕ, zero, suc, ◌+◌, ◌-◌, nat_eq, ◌==◌, Bool, true, false, ◌||◌, Option, none, some, List, [], ◌∷◌,
  ◌++◌, map, count, length, take, drop, get_elem?, ascending, ltb, leb, ℤ, pos, negsuc, ltb_ℤ,
  if◌then◌else◌, ◌≡◌, not,
}

-- The sums of the prefixes that are not empty, from a start.
abbrev pub sums : ℕ → List ℕ → List ℕ
sums s [] = []
sums s (n ∷ ns) = (s + n) ∷ sums (s + n) ns

-- All rows of the groups, in their order.
abbrev pub concat : {A : Type 0} → List (List A) → List A
concat [] = []
concat (xs ∷ xss) = xs ++ concat xss

-- numpy: `np.cumsum(xs)` and `np.searchsorted(xs, v, side="right")`
pub record Arrays : Type 0 where
  pub cumsum : List ℕ → List ℕ
  pub searchsorted : List ℕ → ℤ → ℕ
  pub cumsum_law : (ns : List ℕ) → cumsum ns ≡ sums 0 ns
  pub searchsorted_law :
      (xs : List ℕ) (v : ℤ)
      → ascending (λ x. x) xs ≡ true
      → searchsorted xs v ≡ count (λ x. not (ltb_ℤ v (pos x))) xs

-- pyarrow: `pa.concat_tables(tables)`, where `none` is the exception for no table, and
-- `table.slice(offset, length)`
pub record Tables (A : Type 0) : Type 1 where
  pub Table : Type 0
  pub rows : Table → List A
  pub concat_tables : List Table → Option Table
  pub slice : (offset length : ℕ) → Table → Table
  pub concat_tables_none : concat_tables [] ≡ none
  pub concat_tables_some :
      (t : Table) (ts : List Table)
      → (all : Table) × (concat_tables (t ∷ ts) ≡ some all)
        × (rows all ≡ concat (map rows (t ∷ ts)))
  pub slice_law :
      (offset count : ℕ) (t : Table)
      → rows (slice offset count t) ≡ take count (drop offset (rows t))

-- `n - 1`
abbrev pub pred_ℤ : ℕ → ℤ
pred_ℤ zero = negsuc 0
pred_ℤ (suc n) = pos n

abbrev pub min_ℤ : ℤ → ℤ → ℤ
min_ℤ a b = if ltb_ℤ b a then b else a

-- `xs[-1]`
abbrev pub last? : List ℕ → Option ℕ
last? [] = none
last? (x ∷ []) = some x
last? (x ∷ y ∷ ys) = last? (y ∷ ys)

-- The rows, or the exception: `ParquetResponseEmptyError`, the one of `concat_tables` for no table,
-- or an index out of range.
pub data QueryResult (T : Type 0) : Type 0 where
  found : T → QueryResult T
  empty_response no_table out_of_range : QueryResult T

-- `[readers[i]() for i in range(first, first + n)]`
abbrev pub read_groups : {T : Type 0} → List T → (first n : ℕ) → Option (List T)
read_groups readers first zero = some []
read_groups readers first (suc n) =
    let rest = read_groups readers (suc first) n in
    elim (get_elem? readers first) [
      | none ↦ none
      | some t ↦ elim rest [ none ↦ none | some ts ↦ some (t ∷ ts) ]
    ]

-- `offsets[i - 1] if i > 0 else 0`: `none` is an index out of range.
abbrev pub start_of : List ℕ → ℕ → Option ℕ
start_of offsets zero = some 0
start_of offsets (suc i) = get_elem? offsets i

module _ {A : Type 0} (N : Arrays) (P : Tables A) where
  -- The fields that `query` reads.
  pub record RowsIndex : Type 0 where
    pub row_group_offsets : List ℕ
    pub row_group_readers : List P.Table

  -- What `__post_init__` makes of the row groups of all files, in their order.
  unfoldable pub index_of : List P.Table → RowsIndex
  index_of groups = record {
    row_group_offsets = N.cumsum (map (λ t. length (P.rows t)) groups);
    row_group_readers = groups;
  }

  -- `pa_table.slice(offset - first_row_in_pa_table, length)`: a negative offset raises `IndexError`.
  abbrev sliced : (offset length : ℕ) → Option ℕ → Option P.Table → QueryResult P.Table
  sliced offset length none _ = out_of_range
  sliced offset length (some start) none = no_table
  sliced offset length (some start) (some t) =
      if ltb offset start then out_of_range else found (P.slice (offset - start) length t)

  abbrev concatenated : (offset length : ℕ) → Option ℕ → Option (List P.Table) → QueryResult P.Table
  concatenated offset length start none = out_of_range
  concatenated offset length start (some ts) = sliced offset length start (P.concat_tables ts)

  abbrev query_rows : (last : Option ℕ) → RowsIndex → (offset length : ℕ) → QueryResult P.Table
  query_rows none index offset length = empty_response
  query_rows (some total) index offset length =
      let last_row_in_parquet = pred_ℤ total in
      let first_row = min_ℤ (pos offset) last_row_in_parquet in
      let last_row = min_ℤ (pred_ℤ (offset + length)) last_row_in_parquet in
      let first_row_group_id = N.searchsorted index.row_group_offsets first_row in
      let last_row_group_id = N.searchsorted index.row_group_offsets last_row in
      concatenated offset length (start_of index.row_group_offsets first_row_group_id) (
        read_groups index.row_group_readers first_row_group_id
          (suc last_row_group_id - first_row_group_id))

  unfoldable pub query : RowsIndex → (offset length : ℕ) → QueryResult P.Table
  query index offset count =
      if length index.row_group_offsets == 0 || length index.row_group_readers == 0
      then empty_response
      else query_rows (last? index.row_group_offsets) index offset count
