-- ===== src/Graph.antt =====
-- libs/libcommon/src/libcommon/processing_graph.py. The directed graph of the networkx package is an
-- interface: the calls that the class makes, and what is documented of them.
pub mod Build
pub mod Samples
use datasets_server.Prelude.{
  ℕ, text_eq, ◌==◌, Eq, Bool, true, false, not, ◌&&◌, ◌||◌, String, Option, none, some, List, [],
  ◌∷◌, ◌++◌, map, contains, filter, if◌then◌else◌, ◌≡◌, ◌↔◌, arith,
}
use datasets_server.Errors.{
  Outcome, return, raise, value_error, key_error, step_does_not_exist, ◌>>=◌, ◌>>◌, for_each, Dict,
  get, get_or_raise,
}

pub data InputType : Type 0 where
  dataset config split : InputType

abbrev input_type_beq : InputType → InputType → Bool
input_type_beq dataset dataset = true
input_type_beq config config = true
input_type_beq split split = true
input_type_beq _ _ = false

pub input_type_beq_iff : (a b : InputType) → (input_type_beq a b ≡ true) ↔ (a ≡ b)
input_type_beq_iff dataset b = ground arith
input_type_beq_iff config b = ground arith
input_type_beq_iff split b = ground arith

instance abbrev pub input_type_eq : Eq InputType
input_type_eq = record { beq = input_type_beq; beq_iff = input_type_beq_iff }

unfoldable pub guard_input_type : String → Outcome InputType
guard_input_type x =
    if x == "dataset"
    then return dataset
    else if x == "config"
    then return config
    else if x == "split"
    then return split
    else raise value_error

-- `triggered_by`: a list, a text or `None`
pub data TriggeredBy : Type 0 where
  none_given : TriggeredBy
  one : String → TriggeredBy
  many : List String → TriggeredBy

unfoldable pub get_triggered_by_as_list : TriggeredBy → List String
get_triggered_by_as_list none_given = []
get_triggered_by_as_list (one name) = name ∷ []
get_triggered_by_as_list (many names) = names

-- The keys that a specification leaves out have the default that the class gives them.
pub record ProcessingStepSpecification : Type 0 where
  pub input_type : Option String
  pub triggered_by : TriggeredBy
  pub required_by_dataset_viewer : Bool
  pub job_runner_version : Option ℕ
  pub provides_dataset_config_names : Bool
  pub provides_config_split_names : Bool
  pub provides_config_parquet : Bool

pub record ProcessingStep : Type 0 where
  pub name : String
  pub input_type : InputType
  pub job_runner_version : ℕ
  pub cache_kind : String
  pub job_type : String

-- The constructor with its `__post_init__`, and `copy`.
unfoldable pub new_step : String → InputType → ℕ → ProcessingStep
new_step name input_type version = record {
  name = name;
  input_type = input_type;
  job_runner_version = version;
  cache_kind = name;
  job_type = name;
}

unfoldable pub copy : ProcessingStep → ProcessingStep
unfolding new_step
copy step = new_step step.name step.input_type step.job_runner_version

unfoldable pub copy_processing_steps_list : List ProcessingStep → List ProcessingStep
unfolding copy
copy_processing_steps_list steps = map copy steps

-- The attributes of a node.
pub record NodeData : Type 0 where
  pub required_by_dataset_viewer : Bool
  pub provides_dataset_config_names : Bool
  pub provides_config_split_names : Bool
  pub provides_config_parquet : Bool

-- `networkx.DiGraph`: nodes are kept in the order in which they were added, `none` is the exception
-- `NetworkXError`, and a topological order lists all nodes, each behind its predecessors.
pub record DiGraph : Type 1 where
  pub Graph : Type 0
  pub empty : Graph
  pub add_node : String → NodeData → Graph → Graph
  pub add_edge : String → String → Graph → Graph
  pub nodes : Graph → List (String × NodeData)
  pub successors : String → Graph → Option (List String)
  pub predecessors : String → Graph → Option (List String)
  pub ancestors : String → Graph → Option (List String)
  pub in_degree : String → Graph → ℕ
  pub is_directed_acyclic_graph : Graph → Bool
  pub topological_sort : Graph → List String
  -- `sorted(graph.nodes())`
  pub sorted_nodes : Graph → List String
  pub nodes-empty : nodes empty ≡ []
  pub nodes-add_node :
      (n : String) (d : NodeData) (g : Graph)
      → contains n (map (λ (x : String × NodeData). x.0) (nodes g)) ≡ false
      → nodes (add_node n d g) ≡ nodes g ++ (n, d) ∷ []
  pub nodes-add_edge :
      (a b : String) (g : Graph)
      → contains a (map (λ (x : String × NodeData). x.0) (nodes g)) ≡ true
      → contains b (map (λ (x : String × NodeData). x.0) (nodes g)) ≡ true
      → nodes (add_edge a b g) ≡ nodes g
  -- An edge adds no node but its ends.
  pub nodes-add_edge_other :
      (a b n : String) (g : Graph)
      → (n == a) ≡ false
      → (n == b) ≡ false
      → contains n (map (λ (x : String × NodeData). x.0) (nodes g)) ≡ false
      → contains n (map (λ (x : String × NodeData). x.0) (nodes (add_edge a b g))) ≡ false
  -- `NetworkXError` for a name that is no node
  pub successors-none :
      (n : String) (g : Graph)
      → contains n (map (λ (x : String × NodeData). x.0) (nodes g)) ≡ false
      → successors n g ≡ none
  pub predecessors-none :
      (n : String) (g : Graph)
      → contains n (map (λ (x : String × NodeData). x.0) (nodes g)) ≡ false
      → predecessors n g ≡ none
  pub ancestors-none :
      (n : String) (g : Graph)
      → contains n (map (λ (x : String × NodeData). x.0) (nodes g)) ≡ false
      → ancestors n g ≡ none

abbrev pub node_names : (D : DiGraph) → D.Graph → List String
node_names D g = map (λ (x : String × NodeData). x.0) (D.nodes g)

-- `_nx_graph.has_node(name)`
abbrev pub has_node : (D : DiGraph) → String → D.Graph → Bool
has_node D name g = contains name (node_names D g)

-- The fields that `__post_init__` sets.
pub record ProcessingGraph (D : DiGraph) : Type 0 where
  pub nx_graph : D.Graph
  pub processing_steps : Dict ProcessingStep
  pub names_by_input_type : InputType → List String
  pub first_processing_steps : List ProcessingStep
  pub required_by_dataset_viewer : List ProcessingStep
  pub config_split_names : List ProcessingStep
  pub config_parquet : List ProcessingStep
  pub dataset_config_names : List ProcessingStep
  pub topologically_ordered : List ProcessingStep
  pub alphabetically_ordered : List ProcessingStep
