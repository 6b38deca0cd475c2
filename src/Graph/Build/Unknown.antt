-- ===== src/Graph/Build/Unknown.antt =====
-- Names that the specification of a graph does not have: libs/libcommon/src/libcommon/
-- processing_graph.py.
use datasets_server.Prelude.{
  text_eq, nat_eq, ◌==◌, Bool, true, false, not, ◌||◌, ◌&&◌, String, none, List, [], ◌∷◌, ◌++◌, map,
  contains, filter, any, ◌≡◌, refl, ap, subst, arith, Bool-cases, inl, inr,
}
use datasets_server.Errors.{
  return, raise, value_error, key_error, step_does_not_exist, raise_if, for_each, Exception,
  returned, return_injective, Dict, has_key, put, get,
}
use datasets_server.Graph.{
  dataset, config, input_type_eq, ProcessingStep, ProcessingStepSpecification, guard_input_type,
  DiGraph, has_node, node_names, ProcessingGraph, get_triggered_by_as_list,
}
use datasets_server.Graph.Build.{
  text_or, steps_of, marked, get_step, Building, Specification, add_step, add_steps, add_edges,
  add_all_edges, build_graph,
}
use datasets_server.Graph.Build.Access.{
  get_processing_step, get_children, get_parents, get_ancestors, unknown_step,
}

raise_if-return : (b : Bool) (e : Exception) {u : Unit {0}} → raise_if b e ≡ return u → b ≡ false
raise_if-return true e h = ground (arith, h)
raise_if-return false e h = refl

get-put_other :
    {V : Type 0} (k j : String) (v : V) (d : Dict V)
    → (j == k) ≡ false
    → get k d ≡ none
    → get k (put j v d) ≡ none
get-put_other k j v [] other absent = rw other refl
get-put_other k j v ((i, w) ∷ d) other absent = elim (Bool-cases (i == k)) [
  | inl here ↦ let a = rw here at absent in ground (arith, a)
  | inr there ↦
      let a = rw there at absent in
      elim (Bool-cases (i == j)) [
        | inl same ↦ rw (same, there) a
        | inr further ↦ rw (further, there) (get-put_other k j v d other a)
      ]
]

-- A list with one more name, which is another one.
contains-map_append :
    {V : Type 0} (x y : String) (v : V) (d : Dict V)
    → (x == y) ≡ false
    → contains x (map (λ (i : String × V). i.0) d) ≡ false
    → contains x (map (λ (i : String × V). i.0) (d ++ (y, v) ∷ [])) ≡ false
contains-map_append x y v [] other absent = rw other refl
contains-map_append x y v ((z, w) ∷ d) other absent = elim (Bool-cases (x == z)) [
  | inl here ↦ let a = rw here at absent in ground (arith, a)
  | inr there ↦ let a = rw there at absent in rw there (contains-map_append x y v d other a)
]

-- Of two tests that are false together, the first is.
||_false : (a b : Bool) → (a || b) ≡ false → a ≡ false
||_false a b h = ground (arith, h)

other_sym : (x y : String) → (x == y) ≡ false → (y == x) ≡ false
other_sym x y h = ground (arith, h, text_eq.beq_iff x y, text_eq.beq_iff y x)

module _ (D : DiGraph) (name : String) where
  -- The name is neither a node nor a step of what is built so far.
  abbrev Unknown : Building D → Type 0
  Unknown b = (has_node D name b.graph ≡ false) × (get name b.steps ≡ none)

  add_step-Unknown :
      (other : String) (spec : ProcessingStepSpecification) (b b' : Building D)
      → (other == name) ≡ false
      → add_step D other spec b ≡ return b'
      → Unknown b
      → Unknown b'
  unfolding add_step
  add_step-Unknown other spec b b' different h (no_node, no_step) =
      let (t, _, h₁) = returned (guard_input_type (text_or "dataset" spec.input_type)) _ h in
      let (_, _, h₂) =
        returned (raise_if (spec.provides_dataset_config_names && not (t == dataset)) value_error) _
          h₁ in
      let (_, _, h₃) =
        returned (raise_if (spec.provides_config_split_names && not (t == config)) value_error) _
          h₂ in
      let (_, _, h₄) =
        returned (raise_if (spec.provides_config_parquet && not (t == config)) value_error) _ h₃ in
      let (_, fresh, h₅) =
        returned
          (raise_if
            (has_node D other b.graph || (has_key other b.steps || contains other (b.names t)))
            value_error)
          _ h₄ in
      let absent : has_node D other b.graph ≡ false =
        ||_false _ (has_key other b.steps || contains other (b.names t))
          (raise_if-return _ value_error fresh) in
      subst Unknown (return_injective _ b' h₅) (
        rw (D.nodes-add_node other _ b.graph absent) (
            contains-map_append name other _ (D.nodes b.graph) (other_sym other name different)
              no_node),
        get-put_other name other _ b.steps different no_step,
      )

  add_steps-Unknown :
      (spec : Specification D) (b b' : Building D)
      → has_key name spec ≡ false
      → add_steps D spec b ≡ return b'
      → Unknown b
      → Unknown b'
  unfolding add_steps
  add_steps-Unknown [] b b' no_key h unknown = subst Unknown (return_injective b b' h) unknown
  add_steps-Unknown ((other, s) ∷ rest) b b' no_key h unknown = elim (Bool-cases (other == name)) [
    | inl here ↦ let k = rw here at no_key in ground (arith, k)
    | inr there ↦
        let k = rw there at no_key in
        let (b₁, added, h₁) = returned (add_step D other s b) _ h in
        add_steps-Unknown rest b₁ b' k h₁ (add_step-Unknown other s b b₁ there added unknown)
  ]

  -- A node that is there has another name than one that is not.
  other_node :
      (g : D.Graph) (parent : String)
      → has_node D name g ≡ false
      → has_node D parent g ≡ true
      → (name == parent) ≡ false
  other_node g parent absent present = elim (Bool-cases (name == parent)) [
    | inl same ↦
        let e = ap (λ n. has_node D n g) ((text_eq.beq_iff name parent).0 same) in
        ground (arith, e, absent, present)
    | inr other ↦ other
  ]

  add_edges-absent :
      (child : String) (parents : List String) (g g' : D.Graph)
      → (name == child) ≡ false
      → add_edges D child parents g ≡ return g'
      → has_node D name g ≡ false
      → has_node D name g' ≡ false
  unfolding add_edges
  add_edges-absent child [] g g' other h absent =
      subst (λ x. has_node D name x ≡ false) (return_injective g g' h) absent
  add_edges-absent child (parent ∷ parents) g g' other h absent =
      let (_, fresh, h₁) = returned (raise_if (not (has_node D parent g)) value_error) _ h in
      let present : has_node D parent g ≡ true =
        ground (arith, raise_if-return (not (has_node D parent g)) value_error fresh) in
      add_edges-absent child parents (D.add_edge parent child g) g' other h₁ (
        D.nodes-add_edge_other parent child name g (other_node g parent absent present) other
          absent)

  add_all_edges-absent :
      (spec : Specification D) (g g' : D.Graph)
      → has_key name spec ≡ false
      → add_all_edges D spec g ≡ return g'
      → has_node D name g ≡ false
      → has_node D name g' ≡ false
  unfolding add_all_edges
  add_all_edges-absent [] g g' no_key h absent =
      subst (λ x. has_node D name x ≡ false) (return_injective g g' h) absent
  add_all_edges-absent ((other, s) ∷ rest) g g' no_key h absent =
      elim (Bool-cases (other == name)) [
        | inl here ↦ let k = rw here at no_key in ground (arith, k)
        | inr there ↦
            let k = rw there at no_key in
            let (g₁, edges, h₁) =
              returned (add_edges D other (get_triggered_by_as_list s.triggered_by) g) _ h in
            add_all_edges-absent rest g₁ g' k h₁ (
              add_edges-absent other (get_triggered_by_as_list s.triggered_by) g g₁
                (other_sym other name there) edges absent)
      ]

  abbrev UnknownIn : ProcessingGraph D → Type 0
  UnknownIn graph =
      (has_node D name graph.nx_graph ≡ false) × (get name graph.processing_steps ≡ none)

  -- A graph that is built has no node and no step but those of its specification.
  build_graph-UnknownIn :
      (spec : Specification D) (graph : ProcessingGraph D)
      → build_graph D spec ≡ return graph
      → has_key name spec ≡ false
      → UnknownIn graph
  unfolding build_graph
  build_graph-UnknownIn spec graph h no_key =
      let (b, steps_added, h₁) =
        returned (add_steps D spec (record { graph = D.empty; steps = []; names = λ _. [] })) _ h in
      let (g, edges_added, h₂) = returned (add_all_edges D spec b.graph) _ h₁ in
      let (no_node, no_step) =
        add_steps-Unknown spec _ b no_key steps_added (rw D.nodes-empty refl, refl) in
      let absent = add_all_edges-absent spec b.graph g no_key edges_added no_node in
      let (_, _, h₃) = returned (raise_if (not (D.is_directed_acyclic_graph g)) value_error) _ h₂ in
      let (first, _, h₄) =
        returned (steps_of D b.steps (filter (λ n. D.in_degree n g == 0) (node_names D g))) _ h₃ in
      let (_, _, h₅) =
        returned
          (raise_if (any (λ (step : ProcessingStep). not (step.input_type == dataset)) first)
            value_error)
          _ h₄ in
      let (_, _, h₆) =
        returned (steps_of D b.steps (marked D (λ d. d.required_by_dataset_viewer) g)) _ h₅ in
      let (_, _, h₇) =
        returned (steps_of D b.steps (marked D (λ d. d.provides_config_parquet) g)) _ h₆ in
      let (_, _, h₈) =
        returned (steps_of D b.steps (marked D (λ d. d.provides_config_split_names) g)) _ h₇ in
      let (_, _, h₉) =
        returned (for_each (get_step D b.steps) (marked D (λ d. d.provides_dataset_config_names) g))
          _ h₈ in
      let (_, _, h₁₀) = returned (for_each (get_step D b.steps) (D.topological_sort g)) _ h₉ in
      let (_, _, h₁₁) = returned (for_each (get_step D b.steps) (D.sorted_nodes g)) _ h₁₀ in
      subst UnknownIn (return_injective _ graph h₁₁) (absent, no_step)

  -- In a graph that is built, for a name that its specification does not have, `get_processing_step`
  -- raises `KeyError`, and not the documented `ProcessingStepDoesNotExist` that `get_children`,
  -- `get_parents` and `get_ancestors` raise.
  pub build_graph-unknown_step :
      (spec : Specification D) (graph : ProcessingGraph D)
      → build_graph D spec ≡ return graph
      → has_key name spec ≡ false
      → (get_processing_step D graph name ≡ raise key_error)
        × (get_children D graph name ≡ raise step_does_not_exist)
        × (get_parents D graph name ≡ raise step_does_not_exist)
        × (get_ancestors D graph name ≡ raise step_does_not_exist)
  build_graph-unknown_step spec graph built no_key =
      let (no_node, no_step) = build_graph-UnknownIn spec graph built no_key in
      unknown_step D graph name no_step no_node
