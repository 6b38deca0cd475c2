-- ===== src/Graph/Samples.antt =====
-- A graph as two lists, nodes and edges, and a witness for the theorem about the accessors of
-- `ProcessingGraph` in libs/libcommon/src/libcommon/processing_graph.py.
use datasets_server.Prelude.{
  text_eq, ◌==◌, true, false, String, Option, none, some, List, [], ◌∷◌, ◌++◌, map, contains,
  filter, count, if◌then◌else◌, ◌≡◌, refl,
}
use datasets_server.Errors.{Outcome, return, Dict, raise, key_error, step_does_not_exist}
use datasets_server.Graph.{
  InputType, dataset, ProcessingStep, new_step, NodeData, copy, guard_input_type,
  get_triggered_by_as_list, ProcessingStepSpecification, TriggeredBy, none_given, one, DiGraph,
  ProcessingGraph,
}
use datasets_server.Graph.Build.Access.{
  get_processing_step, get_children, get_parents, get_ancestors,
}
use datasets_server.Graph.Build.{
  build_graph, add_steps, add_step, add_all_edges, add_edges, get_step,
}
use datasets_server.Graph.Build.Unknown.{build_graph-unknown_step}

-- The nodes, and the edges from a parent to a child.
abbrev Lists : Type 0
Lists = List (String × NodeData) × List (String × String)

abbrev names : Lists → List String
names g = map (λ (x : String × NodeData). x.0) g.0

abbrev children : String → Lists → List String
children name g =
    map (λ (e : String × String). e.1) (filter (λ (e : String × String). e.0 == name) g.1)

abbrev parents : String → Lists → List String
parents name g =
    map (λ (e : String × String). e.0) (filter (λ (e : String × String). e.1 == name) g.1)

-- The answer for a node, and the exception for any other name.
abbrev of_node : (String → Lists → List String) → String → Lists → Option (List String)
of_node answer name g = if contains name (names g) then some (answer name g) else none

-- The samples have no path of two edges, and list each parent before its children.
abbrev pub list_graph : DiGraph
list_graph = record {
  Graph = Lists;
  empty = ([], []);
  add_node = λ n d g. (g.0 ++ (n, d) ∷ [], g.1);
  add_edge = λ a b g. (g.0, g.1 ++ (a, b) ∷ []);
  nodes = λ g. g.0;
  successors = of_node children;
  predecessors = of_node parents;
  ancestors = of_node parents;
  in_degree = λ name g. count (λ (e : String × String). e.1 == name) g.1;
  is_directed_acyclic_graph = λ g. true;
  topological_sort = names;
  sorted_nodes = names;
  nodes-empty = refl;
  nodes-add_node = λ n d g absent. refl;
  nodes-add_edge = λ a b g present present'. refl;
  nodes-add_edge_other = λ a b n g other other' absent. absent;
  successors-none = λ n g absent. rw absent refl;
  predecessors-none = λ n g absent. rw absent refl;
  ancestors-none = λ n g absent. rw absent refl;
}

abbrev pub node : NodeData
node = record {
  required_by_dataset_viewer = false;
  provides_dataset_config_names = false;
  provides_config_split_names = false;
  provides_config_parquet = false;
}

abbrev pub step_a : ProcessingStep
unfolding new_step
step_a = new_step "a" dataset 1

abbrev pub step_b : ProcessingStep
unfolding new_step
step_b = new_step "b" dataset 2

abbrev pub dataset_names : InputType → List String
dataset_names dataset = "a" ∷ "b" ∷ []
dataset_names _ = []

-- Two steps on datasets, of which the second is triggered by the first.
abbrev pub two_steps : ProcessingGraph list_graph
two_steps = record {
  nx_graph = (("a", node) ∷ ("b", node) ∷ [], ("a", "b") ∷ []);
  processing_steps = ("a", step_a) ∷ ("b", step_b) ∷ [];
  names_by_input_type = dataset_names;
  first_processing_steps = step_a ∷ [];
  required_by_dataset_viewer = [];
  config_split_names = [];
  config_parquet = [];
  dataset_config_names = [];
  topologically_ordered = step_a ∷ step_b ∷ [];
  alphabetically_ordered = step_a ∷ step_b ∷ [];
}

-- The specification of the two steps.
abbrev triggered : TriggeredBy → ProcessingStepSpecification
triggered parents = record {
  input_type = none;
  triggered_by = parents;
  required_by_dataset_viewer = false;
  job_runner_version = none;
  provides_dataset_config_names = false;
  provides_config_split_names = false;
  provides_config_parquet = false;
}

abbrev two_specifications : Dict ProcessingStepSpecification
two_specifications = ("a", triggered none_given) ∷ ("b", triggered (one "a")) ∷ []

abbrev graph_or :
    ProcessingGraph list_graph → Outcome (ProcessingGraph list_graph) → ProcessingGraph list_graph
graph_or default (return graph) = graph
graph_or default (raise _) = default

abbrev built : ProcessingGraph list_graph
built = graph_or two_steps (build_graph list_graph two_specifications)

builds : build_graph list_graph two_specifications ≡ return built
unfolding build_graph add_steps add_step add_all_edges add_edges get_step guard_input_type new_step
    copy get_triggered_by_as_list
builds = refl

build_graph-unknown_step_example :
    (get_processing_step list_graph built "c" ≡ raise key_error)
    × (get_children list_graph built "c" ≡ raise step_does_not_exist)
    × (get_parents list_graph built "c" ≡ raise step_does_not_exist)
    × (get_ancestors list_graph built "c" ≡ raise step_does_not_exist)
build_graph-unknown_step_example =
    build_graph-unknown_step list_graph "c" two_specifications built builds refl
