-- ===== src/Computed/Sort.antt =====
-- `topo_sort_computed` of crates/core/src/parser/logic/comp.rs. The order is a list whose first
-- element is the last of the code's `Vec`. A degree that is decremented is positive, since it counts
-- the edges of which that one is left.
pub mod Degrees
pub mod Release
pub mod Order
pub mod Sorted
pub mod Result
use mizu_navigator.Prelude.{
  ℕ, zero, suc, ◌+◌, ◌-◌, Bool, Option, none, some, List, [], ◌∷◌, ◌++◌, length, get_elem?, ◌==◌,
  if◌then◌else◌,
}
use mizu_navigator.Value.{Outcome, ok, err, panicked, out_of_fuel, parse_error}
use mizu_navigator.Evaluator.{with_entry}
use mizu_navigator.Computed.{ComputedBinding}

-- `comp_index`, where a later binding of a name replaces an earlier one
unfoldable pub index_of : ℕ → List ComputedBinding → ℕ → Option ℕ
index_of i [] name = none
index_of i (cb ∷ bindings) name = elim (index_of (suc i) bindings name) [
  | some j ↦ some j
  | none ↦ if cb.name == name then some i else none
]

pub record Edges : Type 0 where
  pub in_degree : ℕ → ℕ
  pub dependents : ℕ → List ℕ

unfoldable pub add_edge : Option ℕ → ℕ → Edges → Edges
add_edge none i edges = edges
add_edge (some j) i edges = record {
  in_degree = with_entry edges.in_degree i (edges.in_degree i + 1);
  dependents = with_entry edges.dependents j (edges.dependents j ++ (i ∷ []));
}

unfoldable pub edges_of : (ℕ → Option ℕ) → ℕ → List ℕ → Edges → Edges
edges_of index i [] edges = edges
edges_of index i (dep ∷ deps) edges = edges_of index i deps (add_edge (index dep) i edges)

unfoldable pub edges_from : (ℕ → Option ℕ) → ℕ → List ComputedBinding → Edges → Edges
edges_from index i [] edges = edges
edges_from index i (cb ∷ bindings) edges =
    edges_from index (suc i) bindings (edges_of index i cb.depends_on edges)

-- The indices of degree zero, from one on, in a number of steps
unfoldable pub without_edges : (ℕ → ℕ) → ℕ → ℕ → List ℕ
without_edges in_degree i zero = []
without_edges in_degree i (suc steps) =
    let rest = without_edges in_degree (suc i) steps in if in_degree i == 0 then i ∷ rest else rest

-- The loop over the dependents of an index that is taken from the queue
unfoldable pub release : List ℕ → (ℕ → ℕ) → List ℕ → (ℕ → ℕ) × List ℕ
release [] in_degree queue = (in_degree, queue)
release (j ∷ js) in_degree queue =
    release js (with_entry in_degree j (in_degree j - 1))
      (if in_degree j - 1 == 0 then queue ++ (j ∷ []) else queue)

unfoldable pub kahn : ℕ → (ℕ → List ℕ) → (ℕ → ℕ) → List ℕ → List ℕ → Outcome (List ℕ)
kahn fuel dependents in_degree [] order = ok order
kahn zero dependents in_degree (i ∷ queue) order = out_of_fuel
kahn (suc fuel) dependents in_degree (i ∷ queue) order =
    let r = release (dependents i) in_degree queue in kahn fuel dependents r.0 r.1 (i ∷ order)

-- `items[i].take()` for each index of the order, its last first
unfoldable pub taken : List ℕ → (ℕ → Option ComputedBinding) → List ComputedBinding
taken [] items = []
taken (i ∷ is) items = elim (items i) [
  | some cb ↦ cb ∷ taken is (with_entry items i none)
  | none ↦ taken is items
]

unfoldable pub reversed : List ℕ → List ℕ → List ℕ
reversed [] acc = acc
reversed (i ∷ is) acc = reversed is (i ∷ acc)

abbrev pub finish : List ComputedBinding → Outcome (List ℕ) → Outcome (List ComputedBinding)
finish bindings (ok order) =
    if length order == length bindings
    then ok (taken (reversed order []) (get_elem? bindings))
    else err parse_error
finish bindings (err e) = err e
finish bindings panicked = panicked
finish bindings out_of_fuel = out_of_fuel

abbrev pub all_edges : List ComputedBinding → Edges
all_edges bindings =
    edges_from (index_of 0 bindings) 0 bindings
      (record { in_degree = λ _. 0; dependents = λ _. [] })

unfoldable pub topo_sort_computed : List ComputedBinding → Outcome (List ComputedBinding)
topo_sort_computed bindings =
    let edges = all_edges bindings in
    finish bindings (
      kahn (length bindings) edges.dependents edges.in_degree
        (without_edges edges.in_degree 0 (length bindings)) [])
