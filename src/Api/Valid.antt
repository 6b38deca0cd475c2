-- ===== src/Api/Valid.antt =====
-- `get_valid` of services/api/src/api/routes/valid.py.
use datasets_server.Prelude.{
  text_eq, nat_eq, ◌==◌, Bool, true, false, ◌&&◌, String, Option, none, some, List, [], ◌∷◌, filter,
  contains, count, ltb, ◌≡◌, refl, ap, ◌∙◌, arith,
}
use datasets_server.Collection.{Collection}
use datasets_server.Cache.{CachedResponse}
use datasets_server.Cache.Validity.{
  get_valid_datasets, sorted_unique, contains-sorted_unique, contains-get_valid_datasets,
}
use datasets_server.Graph.{ProcessingStep, DiGraph, ProcessingGraph}
use datasets_server.Graph.Build.Access.{get_processing_steps_required_by_dataset_viewer}

-- One turn of the loop: the first one fills the set, the next ones remove datasets.
abbrev narrowed : List String → Option (List String) → List String
narrowed kind_datasets none = kind_datasets
narrowed kind_datasets (some datasets) = filter (λ d. contains d kind_datasets) datasets

abbrev sorted_or_empty : Option (List String) → List String
sorted_or_empty none = []
sorted_or_empty (some datasets) = sorted_unique datasets

module _ (C : Collection CachedResponse) (db : C.Db) where
  unfoldable pub valid_from : List ProcessingStep → Option (List String) → Option (List String)
  unfolding get_valid_datasets
  valid_from [] datasets = datasets
  valid_from (step ∷ steps) datasets =
      valid_from steps (some (narrowed (get_valid_datasets C step.cache_kind db) datasets))

  unfoldable pub get_valid : (D : DiGraph) → ProcessingGraph D → List String
  unfolding valid_from sorted_unique get_processing_steps_required_by_dataset_viewer
  get_valid D graph =
      sorted_or_empty (valid_from (get_processing_steps_required_by_dataset_viewer D graph) none)

  -- A response of the dataset is stored with status 200, for the step.
  abbrev pub is_valid_for : String → ProcessingStep → Bool
  is_valid_for dataset step = ltb 0 (
      count (λ r. (r.kind == step.cache_kind && r.http_status == 200) && dataset == r.dataset)
        (C.documents db))

  abbrev pub is_valid_for_all : String → List ProcessingStep → Bool
  is_valid_for_all dataset [] = true
  is_valid_for_all dataset (step ∷ steps) =
      is_valid_for dataset step && is_valid_for_all dataset steps

  contains-filter :
      (x : String) (ys xs : List String)
      → contains x (filter (λ d. contains d ys) xs) ≡ (contains x xs && contains x ys)
  contains-filter x ys [] = refl
  contains-filter x ys (z ∷ zs) =
      let same : (x == z) ≡ true → contains x ys ≡ contains z ys =
        λ h. ap (λ d. contains d ys) ((text_eq.beq_iff x z).0 h) in
      ground (arith, same, contains-filter x ys zs)

  contains-valid_from :
      (x : String) (steps : List ProcessingStep) (datasets : List String)
      → contains x (sorted_or_empty (valid_from steps (some datasets)))
        ≡ (contains x datasets && is_valid_for_all x steps)
  unfolding valid_from
  contains-valid_from x [] datasets = contains-sorted_unique x datasets ∙ ground arith
  contains-valid_from x (step ∷ steps) datasets =
      contains-valid_from x steps
        (filter (λ d. contains d (get_valid_datasets C step.cache_kind db)) datasets)
      ∙ ap (λ b. b && is_valid_for_all x steps)
          (contains-filter x (get_valid_datasets C step.cache_kind db) datasets
            ∙ ap (λ b. contains x datasets && b)
                (contains-get_valid_datasets C step.cache_kind x db))
      ∙ ground arith

  abbrev pub has_step : List ProcessingStep → Bool
  has_step [] = false
  has_step (_ ∷ _) = true

  from_none :
      (x : String) (steps : List ProcessingStep)
      → contains x (sorted_or_empty (valid_from steps none))
        ≡ (has_step steps && is_valid_for_all x steps)
  unfolding valid_from
  from_none x [] = refl
  from_none x (step ∷ steps) =
      contains-valid_from x steps (get_valid_datasets C step.cache_kind db)
      ∙ ap (λ b. b && is_valid_for_all x steps) (contains-get_valid_datasets C step.cache_kind x db)

  -- `get_valid` lists a dataset if and only if there is a step that the dataset viewer requires, and
  -- for each of them a response of the dataset is stored with status 200.
  pub get_valid_lem :
      (D : DiGraph) (graph : ProcessingGraph D) (x : String)
      → contains x (get_valid D graph) ≡ (
          has_step (get_processing_steps_required_by_dataset_viewer D graph)
          && is_valid_for_all x (get_processing_steps_required_by_dataset_viewer D graph))
  unfolding get_valid
  get_valid_lem D graph x = from_none x (get_processing_steps_required_by_dataset_viewer D graph)
