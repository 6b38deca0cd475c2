-- ===== src/Graph/Build/Access.antt =====
-- The accessors of `ProcessingGraph` in libs/libcommon/src/libcommon/processing_graph.py.
use datasets_server.Prelude.{text_eq, false, String, Option, none, some, List, ◌≡◌}
use datasets_server.Errors.{
  Outcome, return, raise, key_error, step_does_not_exist, ◌>>=◌, for_each, get, get_or_raise,
}
use datasets_server.Graph.{
  InputType, ProcessingStep, copy_processing_steps_list, DiGraph, ProcessingGraph, has_node,
}
use datasets_server.Graph.Build.{get_step}

-- The order that `get_processing_steps` takes.
pub data Order : Type 0 where
  alphabetical topological : Order

module _ (D : DiGraph) where
  -- The dictionary raises `KeyError` for an unknown name, which `except nx.NetworkXError` misses.
  unfoldable pub get_processing_step : ProcessingGraph D → String → Outcome ProcessingStep
  unfolding get_step
  get_processing_step graph name = get_step D graph.processing_steps name

  unfoldable get_processing_step_by_job_type : ProcessingGraph D → String → Outcome ProcessingStep
  unfolding get_processing_step
  get_processing_step_by_job_type graph job_type = get_processing_step graph job_type

  -- `except nx.NetworkXError as e: raise ProcessingStepDoesNotExist(...)`
  abbrev names_or_unknown : Option (List String) → Outcome (List String)
  names_or_unknown none = raise step_does_not_exist
  names_or_unknown (some names) = return names

  unfoldable pub get_children : ProcessingGraph D → String → Outcome (List ProcessingStep)
  unfolding get_processing_step
  get_children graph name =
      names_or_unknown (D.successors name graph.nx_graph) >>= for_each (get_processing_step graph)

  unfoldable pub get_parents : ProcessingGraph D → String → Outcome (List ProcessingStep)
  unfolding get_processing_step
  get_parents graph name =
      names_or_unknown (D.predecessors name graph.nx_graph) >>= for_each (get_processing_step graph)

  unfoldable pub get_ancestors : ProcessingGraph D → String → Outcome (List ProcessingStep)
  unfolding get_processing_step
  get_ancestors graph name =
      names_or_unknown (D.ancestors name graph.nx_graph) >>= for_each (get_processing_step graph)

  unfoldable get_first_processing_steps : ProcessingGraph D → List ProcessingStep
  unfolding copy_processing_steps_list
  get_first_processing_steps graph = copy_processing_steps_list graph.first_processing_steps

  unfoldable pub get_processing_steps_required_by_dataset_viewer :
      ProcessingGraph D → List ProcessingStep
  unfolding copy_processing_steps_list
  get_processing_steps_required_by_dataset_viewer graph =
      copy_processing_steps_list graph.required_by_dataset_viewer

  unfoldable get_config_parquet_processing_steps : ProcessingGraph D → List ProcessingStep
  unfolding copy_processing_steps_list
  get_config_parquet_processing_steps graph = copy_processing_steps_list graph.config_parquet

  unfoldable pub get_config_split_names_processing_steps : ProcessingGraph D → List ProcessingStep
  unfolding copy_processing_steps_list
  get_config_split_names_processing_steps graph =
      copy_processing_steps_list graph.config_split_names

  unfoldable pub get_dataset_config_names_processing_steps : ProcessingGraph D → List ProcessingStep
  unfolding copy_processing_steps_list
  get_dataset_config_names_processing_steps graph =
      copy_processing_steps_list graph.dataset_config_names

  unfoldable pub get_topologically_ordered_processing_steps :
      ProcessingGraph D → List ProcessingStep
  unfolding copy_processing_steps_list
  get_topologically_ordered_processing_steps graph =
      copy_processing_steps_list graph.topologically_ordered

  pub get_alphabetically_ordered_processing_steps : ProcessingGraph D → List ProcessingStep
  unfolding copy_processing_steps_list
  get_alphabetically_ordered_processing_steps graph =
      copy_processing_steps_list graph.alphabetically_ordered

  unfoldable get_processing_steps : Option Order → ProcessingGraph D → List ProcessingStep
  unfolding get_topologically_ordered_processing_steps get_alphabetically_ordered_processing_steps
  get_processing_steps (some topological) graph = get_topologically_ordered_processing_steps graph
  get_processing_steps _ graph = get_alphabetically_ordered_processing_steps graph

  unfoldable pub get_input_type_processing_steps :
      InputType → ProcessingGraph D → Outcome (List ProcessingStep)
  unfolding get_processing_step
  get_input_type_processing_steps input_type graph =
      for_each (get_processing_step graph) (graph.names_by_input_type input_type)

  -- A name that is no step and no node: `get_processing_step` raises `KeyError`, and not the
  -- documented `ProcessingStepDoesNotExist` that the other accessors raise.
  pub unknown_step :
      (graph : ProcessingGraph D) (name : String)
      → get name graph.processing_steps ≡ none
      → has_node D name graph.nx_graph ≡ false
      → (get_processing_step graph name ≡ raise key_error)
        × (get_children graph name ≡ raise step_does_not_exist)
        × (get_parents graph name ≡ raise step_does_not_exist)
        × (get_ancestors graph name ≡ raise step_does_not_exist)
  unfolding get_processing_step get_children get_parents get_ancestors
  unknown_step graph name absent no_node =
      let s = D.successors-none name graph.nx_graph no_node in
      let p = D.predecessors-none name graph.nx_graph no_node in
      let a = D.ancestors-none name graph.nx_graph no_node in
      (rw (absent, get_or_raise), rw s, rw p, rw a)
