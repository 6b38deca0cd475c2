-- ===== src/Graph/Build.antt =====
-- `ProcessingGraph.__post_init__` of libs/libcommon/src/libcommon/processing_graph.py.
pub mod Access
pub mod Unknown
use datasets_server.Prelude.{
  ℕ, text_eq, nat_eq, ◌==◌, Bool, true, false, not, ◌&&◌, ◌||◌, String, Option, none, some, List,
  [], ◌∷◌, ◌++◌, map, any, contains, filter, if◌then◌else◌,
}
use datasets_server.Errors.{
  Outcome, return, raise, value_error, ◌>>=◌, ◌>>◌, raise_if, for_each, Dict, has_key, put, get,
  get_or_raise,
}
use datasets_server.Graph.{
  InputType, dataset, config, split, input_type_eq, guard_input_type, get_triggered_by_as_list,
  ProcessingStepSpecification, ProcessingStep, new_step, copy, NodeData, DiGraph, has_node,
  node_names, ProcessingGraph,
}

-- `specification.get(key, default)`
abbrev text_or : String → Option String → String
text_or default none = default
text_or default (some value) = value

abbrev version_or : ℕ → Option ℕ → ℕ
version_or default none = default
version_or default (some value) = value

-- `names[input_type].append(name)`
abbrev append_name : InputType → String → (InputType → List String) → InputType → List String
append_name input_type name names other =
    if other == input_type then names other ++ name ∷ [] else names other

module _ (D : DiGraph) where
  -- The local variables of the loops.
  pub record Building : Type 0 where
    pub graph : D.Graph
    pub steps : Dict ProcessingStep
    pub names : InputType → List String

  abbrev pub Specification : Type 0
  Specification = Dict ProcessingStepSpecification

  -- The body of the first loop.
  unfoldable pub add_step : String → ProcessingStepSpecification → Building → Outcome Building
  unfolding guard_input_type new_step
  add_step name spec b = do
    input_type ← guard_input_type (text_or "dataset" spec.input_type)
    raise_if (spec.provides_dataset_config_names && not (input_type == dataset)) value_error
    raise_if (spec.provides_config_split_names && not (input_type == config)) value_error
    raise_if (spec.provides_config_parquet && not (input_type == config)) value_error
    raise_if
        (has_node D name b.graph || (has_key name b.steps || contains name (b.names input_type)))
        value_error
    return (record {
      graph =
          D.add_node name
            (record {
              required_by_dataset_viewer = spec.required_by_dataset_viewer;
              provides_dataset_config_names = spec.provides_dataset_config_names;
              provides_config_split_names = spec.provides_config_split_names;
              provides_config_parquet = spec.provides_config_parquet;
            })
            b.graph;
      steps = put name (new_step name input_type (version_or 1 spec.job_runner_version)) b.steps;
      names = append_name input_type name b.names;
    })

  unfoldable pub add_steps : Specification → Building → Outcome Building
  unfolding add_step
  add_steps [] b = return b
  add_steps ((name, spec) ∷ rest) b = add_step name spec b >>= λ b'. add_steps rest b'

  -- The inner loop of the second loop: the edges into one step.
  unfoldable pub add_edges : String → List String → D.Graph → Outcome D.Graph
  add_edges name [] g = return g
  add_edges name (parent ∷ parents) g =
      raise_if (not (has_node D parent g)) value_error
      >> add_edges name parents (D.add_edge parent name g)

  unfoldable pub add_all_edges : Specification → D.Graph → Outcome D.Graph
  unfolding add_edges get_triggered_by_as_list
  add_all_edges [] g = return g
  add_all_edges ((name, spec) ∷ rest) g =
      add_edges name (get_triggered_by_as_list spec.triggered_by) g >>= λ g'. add_all_edges rest g'

  -- The steps of the nodes whose attribute is set.
  abbrev pub marked : (NodeData → Bool) → D.Graph → List String
  marked attribute g =
      map (λ (x : String × NodeData). x.0)
        (filter (λ (x : String × NodeData). attribute x.1) (D.nodes g))

  -- `self._processing_steps[name]`, and `self.get_processing_step(name)`, which copies it.
  abbrev pub steps_of : Dict ProcessingStep → List String → Outcome (List ProcessingStep)
  steps_of steps names = for_each (λ name. get_or_raise name steps) names

  unfoldable pub get_step : Dict ProcessingStep → String → Outcome ProcessingStep
  unfolding copy
  get_step steps name = get_or_raise name steps >>= λ step. return (copy step)

  unfoldable pub build_graph : Specification → Outcome (ProcessingGraph D)
  unfolding add_steps add_all_edges get_step
  build_graph specification = do
    b ← add_steps specification (record { graph = D.empty; steps = []; names = λ _. [] })
    g ← add_all_edges specification b.graph
    raise_if (not (D.is_directed_acyclic_graph g)) value_error
    first ← steps_of b.steps (filter (λ name. D.in_degree name g == 0) (node_names D g))
    raise_if (any (λ (step : ProcessingStep). not (step.input_type == dataset)) first) value_error
    required ← steps_of b.steps (marked (λ d. d.required_by_dataset_viewer) g)
    parquet ← steps_of b.steps (marked (λ d. d.provides_config_parquet) g)
    split_names ← steps_of b.steps (marked (λ d. d.provides_config_split_names) g)
    config_names ← for_each (get_step b.steps) (marked (λ d. d.provides_dataset_config_names) g)
    topological ← for_each (get_step b.steps) (D.topological_sort g)
    alphabetical ← for_each (get_step b.steps) (D.sorted_nodes g)
    return (record {
      nx_graph = g;
      processing_steps = b.steps;
      names_by_input_type = b.names;
      first_processing_steps = first;
      required_by_dataset_viewer = required;
      config_split_names = split_names;
      config_parquet = parquet;
      dataset_config_names = config_names;
      topologically_ordered = topological;
      alphabetically_ordered = alphabetical;
    })
