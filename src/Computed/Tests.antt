-- ===== src/Computed/Tests.antt =====
-- Two computed variables, of which the second reads the first.
use mizu_navigator.Prelude.{
  ℕ, ◌≡◌, refl, Bool, true, false, none, some, List, [], ◌∷◌, ◌==◌, if◌then◌else◌,
}
use mizu_navigator.Value.{Value, int, pos, ok, err, parse_error}
use mizu_navigator.Evaluator.{Evaluator}
use mizu_navigator.Evaluator.Syntax.{variable, ExprTree, Program}
use mizu_navigator.Computed.{ComputedBinding}
use mizu_navigator.Computed.Sort.{
  topo_sort_computed, kahn, without_edges, edges_from, edges_of, add_edge, index_of, release, taken,
  reversed,
}
use mizu_navigator.Computed.Sort.Result.{Sorts, topo_sort_computed-Sorts}

abbrev reading : ℕ → ExprTree
reading name = record { root = 0; arena = record { nodes = variable name ∷ []; args_pool = [] } }

abbrev first : ComputedBinding
first = record { name = 1; expr = reading 10; depends_on = 10 ∷ []; tainted = false }

abbrev second : ComputedBinding
second = record { name = 2; expr = reading 1; depends_on = 1 ∷ []; tainted = true }

abbrev bindings : List ComputedBinding
bindings = first ∷ second ∷ []

abbrev program : Program
program = record { functions = λ name. none; resolve = λ name. none }

abbrev state : Evaluator
state = record {
  global_store = λ name. if name == 10 then some (int (pos 7)) else none;
  local_stack = [];
  local_symbols = [];
  local_index = λ _. [];
  instruction_count = 0;
  max_instructions = 100;
  eval_depth = 0;
  accumulated_actions = [];
  undo_log = [];
  computed_var_syms = λ _. false;
}

same_value : Value → Value → Bool
same_value x y = false

sorted_dependency_first : topo_sort_computed (second ∷ first ∷ []) ≡ ok (first ∷ second ∷ [])
unfolding topo_sort_computed kahn without_edges edges_from edges_of add_edge index_of release taken
    reversed
sorted_dependency_first = refl

abbrev looped : ComputedBinding
looped = record { name = 10; expr = reading 2; depends_on = 2 ∷ []; tainted = false }

cycle_reported : topo_sort_computed (first ∷ second ∷ looped ∷ []) ≡ err parse_error
unfolding topo_sort_computed kahn without_edges edges_from edges_of add_edge index_of release taken
    reversed
cycle_reported = refl

topo_sort_computed-Sorts_example :
    Sorts (second ∷ first ∷ []) (topo_sort_computed (second ∷ first ∷ []))
topo_sort_computed-Sorts_example = topo_sort_computed-Sorts (second ∷ first ∷ []) (refl, (refl, tt))
