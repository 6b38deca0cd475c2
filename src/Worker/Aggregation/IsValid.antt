-- ===== src/Worker/Aggregation/IsValid.antt =====
-- services/worker/src/worker/job_runners/dataset/is_valid.py
use datasets_server.Prelude.{
  text_eq, nat_eq, ◌==◌, Bool, true, ◌&&◌, ◌||◌, String, some, List, [], ◌∷◌, ◌++◌, any, contains,
  count, count_cong, ltb, ◌≡◌, refl, ap, ap₂, ◌∙◌, arith,
}
use datasets_server.Collection.{Collection}
use datasets_server.Cache.{CachedResponse}
use datasets_server.Cache.Validity.{
  get_validity_by_kind, value_at, is_entry, value_at-get_validity_by_kind,
}
use datasets_server.Worker.Aggregation.{Ratio}

abbrev pub split_kinds : List String
split_kinds = "/splits" ∷ "/split-names-from-streaming" ∷ "/split-names-from-dataset-info" ∷ []

abbrev pub first_rows_kinds : List String
first_rows_kinds = "split-first-rows-from-streaming" ∷ "split-first-rows-from-parquet" ∷ []

-- `any(d[kind] for kind in kinds if kind in d)`
abbrev any_valid : List String → List (String × Bool) → Bool
any_valid kinds d = any (λ kind. value_at kind d) kinds

module _ (C : Collection CachedResponse) (dataset : String) (db : C.Db) where
  unfoldable pub compute_is_valid_response : Bool × Ratio
  unfolding get_validity_by_kind
  compute_is_valid_response =
      let validity_by_kind =
        get_validity_by_kind C dataset (some (split_kinds ++ first_rows_kinds)) db in
      (
        any_valid split_kinds validity_by_kind && any_valid first_rows_kinds validity_by_kind,
        record { numerator = 1; denominator = 1 },
      )

  -- A response of the dataset is stored for the kind with status 200.
  abbrev pub is_valid_kind : String → Bool
  is_valid_kind kind = ltb 0 (
      count (λ r. r.dataset == dataset && (r.kind == kind && r.http_status == 200))
        (C.documents db))

  any_cong :
      (f g : String → Bool) (kinds : List String)
      → ((kind : String) → contains kind kinds ≡ true → f kind ≡ g kind)
      → any f kinds ≡ any g kinds
  any_cong f g [] h = refl
  any_cong f g (k ∷ kinds) h =
      ap₂ (λ a b. a || b) (h k (ground (arith, (text_eq.beq_iff k k).1 refl)))
        (any_cong f g kinds (λ kind i. h kind (ground (arith, i))))

  value_at-kind :
      (kinds : List String) (kind : String)
      → contains kind kinds ≡ true
      → value_at kind (get_validity_by_kind C dataset (some kinds) db) ≡ is_valid_kind kind
  value_at-kind kinds kind h =
      value_at-get_validity_by_kind C dataset (some kinds) db kind
      ∙ ap (λ n. ltb 0 n)
          (count_cong
            (λ r. is_entry C dataset (some kinds) r && (r.kind == kind && r.http_status == 200))
            (λ r. r.dataset == dataset && (r.kind == kind && r.http_status == 200)) (C.documents db)
            (λ r.
              let same : (r.kind == kind) ≡ true → contains r.kind kinds ≡ contains kind kinds =
                λ e. ap (λ k. contains k kinds) ((text_eq.beq_iff r.kind kind).0 e) in
              ground (arith, h, same)))

  -- The dataset is valid if and only if it has a response with status 200 for a kind of split names,
  -- and one for a kind of first rows.
  pub compute_is_valid_response_lem :
      compute_is_valid_response.0
      ≡ (any is_valid_kind split_kinds && any is_valid_kind first_rows_kinds)
  unfolding compute_is_valid_response
  compute_is_valid_response_lem =
      let kinds = split_kinds ++ first_rows_kinds in
      ap₂ (λ a b. a && b)
        (any_cong (λ kind. value_at kind (get_validity_by_kind C dataset (some kinds) db))
          is_valid_kind split_kinds (λ kind h. value_at-kind kinds kind (ground (arith, h))))
        (any_cong (λ kind. value_at kind (get_validity_by_kind C dataset (some kinds) db))
          is_valid_kind first_rows_kinds (λ kind h. value_at-kind kinds kind (ground (arith, h))))
