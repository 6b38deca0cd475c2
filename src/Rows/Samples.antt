-- ===== src/Rows/Samples.antt =====
-- Witnesses for the theorems about `RowsIndex.query` of services/api/src/api/routes/rows.py, with lists
-- for the tables of pyarrow.
use datasets_server.Prelude.{
  ℕ, not, Option, none, some, List, [], ◌∷◌, map, count, take, drop, ltb_ℤ, pos, ◌≡◌, refl, sym, ap,
  ◌++◌, arith,
}
use datasets_server.Rows.{sums, concat, Arrays, Tables, found, no_table, index_of, query}
use datasets_server.Rows.Query.{query_lem, query_at_boundary}

abbrev arrays : Arrays
arrays = record {
  cumsum = sums 0;
  searchsorted = λ xs v. count (λ x. not (ltb_ℤ v (pos x))) xs;
  cumsum_law = λ ns. refl;
  searchsorted_law = λ xs v h. refl;
}

abbrev concat_lists : List (List ℕ) → Option (List ℕ)
concat_lists [] = none
concat_lists (t ∷ ts) = some (concat (t ∷ ts))

map_same : (ts : List (List ℕ)) → concat (map (λ (t : List ℕ). t) ts) ≡ concat ts
map_same [] = refl
map_same (t ∷ ts) = ap (λ l. t ++ l) (map_same ts)

abbrev lists : Tables ℕ
lists = record {
  Table = List ℕ;
  rows = λ t. t;
  concat_tables = concat_lists;
  slice = λ o n t. take n (drop o t);
  concat_tables_none = refl;
  concat_tables_some = λ t ts. (concat (t ∷ ts), refl, sym (map_same (t ∷ ts)));
  slice_law = λ o n t. refl;
}

abbrev groups : List (List ℕ)
groups = (1 ∷ 2 ∷ []) ∷ [] ∷ (3 ∷ 4 ∷ 5 ∷ []) ∷ []

query_lem_example :
    (t : List ℕ) × (query arrays lists (index_of arrays lists groups) 1 2 ≡ found t)
    × (t ≡ take 2 (drop 1 (concat (map (λ (g : List ℕ). g) groups))))
query_lem_example = query_lem arrays lists groups 1 2 (omega arith) (omega arith)

query_at_boundary_example : query arrays lists (index_of arrays lists groups) 2 0 ≡ no_table
query_at_boundary_example =
    query_at_boundary arrays lists (1 ∷ 2 ∷ []) ([] ∷ (3 ∷ 4 ∷ 5 ∷ []) ∷ []) (omega arith)
