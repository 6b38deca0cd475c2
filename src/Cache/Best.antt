-- ===== src/Cache/Best.antt =====
-- `get_best_response` of libs/libcommon/src/libcommon/simple_cache.py.
use datasets_server.Prelude.{
  ℕ, suc, ◌+◌, text_eq, option_eq, Bool, true, false, ◌&&◌, String, Option, none, some, List, [],
  ◌∷◌, count, count_cong, ltb, ℤ, pos, get_elem?, if◌then◌else◌, ◌≡◌, refl, ◌∙◌, arith, &&_true,
  Bool-cases, inl, inr, ◌⊎◌,
}
use datasets_server.Collection.{Collection}
use datasets_server.Cache.{
  CachedResponse, CacheEntryWithDetails, Result, ok, err, value_error, index_error,
  get_response_or_missing_error,
}

pub record BestResponse : Type 0 where
  pub kind : String
  pub response : CacheEntryWithDetails

-- `candidate.response["http_status"] < HTTPStatus.BAD_REQUEST.value`
abbrev pub is_success : BestResponse → Bool
is_success candidate = ltb candidate.response.http_status 400

-- `0.0` where the progress is missing or negative
unfoldable pub progress_value : Option ℤ → ℕ
progress_value (some (pos n)) = n
progress_value _ = 0

-- `value > max_value`, where `none` is minus infinity
abbrev exceeds : ℕ → Option ℕ → Bool
exceeds value none = true
exceeds value (some m) = ltb m value

-- The loop over `enumerate(best_response_candidates)`: its `max_index` and `max_value`.
-- It returns the final `max_index`.
unfoldable pub max_index_from : ℕ → ℕ → Option ℕ → List BestResponse → ℕ
max_index_from index max_index max_value [] = max_index
max_index_from index max_index max_value (candidate ∷ rest) =
    let value = progress_value candidate.response.progress in
    let better = is_success candidate && exceeds value max_value in
    max_index_from (suc index) (if better then index else max_index)
      (if better then some value else max_value) rest

abbrev prepend : BestResponse → Result (List BestResponse) → Result (List BestResponse)
prepend candidate (ok rest) = ok (candidate ∷ rest)
prepend candidate (err e) = err e

abbrev indexed : Option BestResponse → Result BestResponse
indexed none = err index_error
indexed (some best) = ok best

-- The comprehension: the first read that raises ends it.
unfoldable pub candidates :
    (String → Result CacheEntryWithDetails) → List String → Result (List BestResponse)
candidates read [] = ok []
candidates read (kind ∷ kinds) = elim (read kind) [
  | err e ↦ err e
  | ok response ↦ prepend (record { kind = kind; response = response }) (candidates read kinds)
]

-- `best_response_candidates[max_index]`: `none` is an `IndexError`.
unfoldable pub chosen : List BestResponse → Option BestResponse
chosen found = get_elem? found (max_index_from 0 0 none found)

unfoldable pub get_best_response :
    (C : Collection CachedResponse)
    → List String
    → (dataset : String) → (config split : Option String) → C.Db
    → Result BestResponse
get_best_response C [] dataset config split db = err value_error
get_best_response C (kind ∷ kinds) dataset config split db =
    elim (candidates (λ k. get_response_or_missing_error C k dataset config split db)
      (kind ∷ kinds)) [ err e ↦ err e | ok found ↦ indexed (chosen found) ]

abbrev value_of : BestResponse → ℕ
value_of candidate = progress_value candidate.response.progress

-- What the loop ends with: the index that it began with, and no success of a higher value; or the
-- index of a success of a higher value, which no success passes.
data LoopEnd (index max_index : ℕ) (max_value : Option ℕ) (rest : List BestResponse) (final : ℕ)
    : Type 0 where
  kept :
      final ≡ max_index
      → count (λ o. is_success o && exceeds (value_of o) max_value) rest ≡ 0
      → LoopEnd index max_index max_value rest final
  replaced :
      (j : ℕ) (best : BestResponse)
      → final ≡ index + j
      → get_elem? rest j ≡ some best
      → is_success best ≡ true
      → exceeds (value_of best) max_value ≡ true
      → count (λ o. is_success o && ltb (value_of best) (value_of o)) rest ≡ 0
      → LoopEnd index max_index max_value rest final

step_better :
    (index mi : ℕ) (mv : Option ℕ) (c : BestResponse) (rest : List BestResponse) (final : ℕ)
    → is_success c ≡ true
    → exceeds (value_of c) mv ≡ true
    → LoopEnd (suc index) index (some (value_of c)) rest final
    → LoopEnd index mi mv (c ∷ rest) final
step_better index mi mv c rest final s x (kept e z) =
    replaced 0 c (omega arith) refl s x (ground arith)
step_better index mi mv c rest final s x (replaced j b e g sb xb z) =
    replaced (suc j) b (omega arith) g sb (ground arith) (ground arith)

step_same :
    (index mi : ℕ) (mv : Option ℕ) (c : BestResponse) (rest : List BestResponse) (final : ℕ)
    → (is_success c && exceeds (value_of c) mv) ≡ false
    → LoopEnd (suc index) mi mv rest final
    → LoopEnd index mi mv (c ∷ rest) final
step_same index mi mv c rest final n (kept e z) = kept e (ground arith)
step_same index mi mv c rest final n (replaced j b e g sb xb z) =
    replaced (suc j) b (omega arith) g sb xb (ground arith)

loop_outcome :
    (index mi : ℕ) (mv : Option ℕ) (rest : List BestResponse)
    → LoopEnd index mi mv rest (max_index_from index mi mv rest)
unfolding max_index_from
loop_outcome index mi mv [] = kept refl refl
loop_outcome index mi mv (c ∷ rest) = elim (Bool-cases (is_success c && exceeds (value_of c) mv)) [
  | inl b ↦
      let (s, x) = &&_true _ _ b in
      rw b (
        step_better index mi mv c rest _ s x
          (loop_outcome (suc index) index (some (value_of c)) rest))
  | inr n ↦ rw n (step_same index mi mv c rest _ n (loop_outcome (suc index) mi mv rest))
]

-- The choice of `get_best_response` among a non-empty list of candidates: one is always found.
-- Either all are errors, and it is the first, or it is a success, and no success has a higher
-- progress.
pub chosen_lem :
    (c : BestResponse) (cs : List BestResponse)
    → (best : BestResponse) × (chosen (c ∷ cs) ≡ some best)
      × (((count is_success (c ∷ cs) ≡ 0) × (best ≡ c))
          ⊎ ((is_success best ≡ true)
              × (count
                    (λ o.
                      is_success o
                      && ltb
                          (progress_value best.response.progress)
                          (progress_value o.response.progress))
                    (c ∷ cs)
                  ≡ 0)))
unfolding chosen
chosen_lem c cs = from_outcome (max_index_from 0 0 none (c ∷ cs)) (loop_outcome 0 0 none (c ∷ cs))
  where
    from_outcome :
        (final : ℕ)
        → LoopEnd 0 0 none (c ∷ cs) final
        → (best : BestResponse) × (get_elem? (c ∷ cs) final ≡ some best)
          × (((count is_success (c ∷ cs) ≡ 0) × (best ≡ c))
              ⊎ ((is_success best ≡ true)
                  × (count (λ o. is_success o && ltb (value_of best) (value_of o)) (c ∷ cs) ≡ 0)))
    from_outcome final (kept e z) = (
      c,
      rw e refl,
      inl (
        count_cong is_success (λ o. is_success o && true) (c ∷ cs) (λ o. ground arith) ∙ z,
        refl,
      ),
    )
    from_outcome final (replaced j b e g s x z) =
        (b, (let e' : final ≡ j = omega arith in rw e' g), inr (s, z))
