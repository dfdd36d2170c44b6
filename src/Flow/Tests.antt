-- ===== src/Flow/Tests.antt =====
-- A document whose timer navigates to a page that is not computed from the form, and one in which it
-- is; the theorems at the first.
use mizu_navigator.Prelude.{
  ℕ, ◌≡◌, ◌≢◌, ◌↔◌, refl, arith, Bool, true, false, Option, none, some, List, [], ◌∷◌, any, ◌==◌,
  if◌then◌else◌, Bytes, codes, bytes_eq, inl, inr, Among, Bool-cases, ==_iff,
}
use mizu_navigator.Value.{Value, string, ok, err, parse_error, out_of_fuel, panicked}
use mizu_navigator.Evaluator.{Evaluator, with_entry}
use mizu_navigator.Evaluator.Syntax.{variable, ExprTree, Program, MizuFunction}
use mizu_navigator.Evaluator.Actions.{assign, navigate_to, execute_action}
use mizu_navigator.Evaluator.Locals.{positions}
use mizu_navigator.Flow.{user_gesture, EventBlock, click, RootTimer, milliseconds}
use mizu_navigator.Flow.Walk.{
  Taint, is_symbol, extract_deps, extract_expr, walk_all, is_expr_tainted, tainted_expr,
  any_tainted, action_exprs, collect_get_system_time_targets, targets_expr,
}
use mizu_navigator.Flow.Taint.{
  check_information_flow, all_actions, layout_actions, sources, network_targets, dependents,
  assignments, build_graph, push_each, propagate, taint_all, taint_var, taint_function,
  tainted_sources, fixpoint, check_targets, time_targets, checked_trees, trees_of_actions,
  check_sinks,
}
use mizu_navigator.Flow.Taint.Fixpoint.{Reached}
use mizu_navigator.Flow.Taint.Exact.{Derived, fixpoint-Derived}
use mizu_navigator.Flow.Blind.{Agrees, moved, carry}
use mizu_navigator.Flow.Sound.{check_information_flow-navigate}
use mizu_navigator.Flow.Agreement.{execute_action-Agrees}
use mizu_navigator.Flow.Ends.{check_information_flow_ends}

abbrev symbol : Bytes → Option ℕ
symbol name =
    if bytes_eq name (codes "$form")
    then some 0
    else if bytes_eq name (codes "get_system_time")
    then some 1
    else if bytes_eq name (codes "x")
    then some 2
    else none

abbrev reading : ℕ → ExprTree
reading name = record { root = 0; arena = record { nodes = variable name ∷ []; args_pool = [] } }

abbrev nodes : List (List EventBlock)
nodes = (click (assign (codes "x") (reading 0)) ∷ []) ∷ []

abbrev timers : ℕ → List RootTimer
timers page = record { interval = milliseconds 1000; action = navigate_to (reading page) } ∷ []

-- `f() = page`
abbrev functions : List (ℕ × MizuFunction)
functions = (4, record { params = []; body = reading 3 }) ∷ []

abbrev program : Program
program = record {
  functions = λ name. if name == 4 then some (record { params = []; body = reading 3 }) else none;
  resolve = λ name. if name == 1 then some (codes "get_system_time") else none;
}

accepted : check_information_flow symbol nodes (timers 3) functions [] ≡ ok ((1, 1), [])
unfolding check_information_flow all_actions layout_actions sources network_targets dependents
    assignments build_graph push_each propagate taint_all taint_var taint_function tainted_sources
    fixpoint check_targets time_targets checked_trees trees_of_actions check_sinks extract_deps
    extract_expr walk_all is_expr_tainted tainted_expr any_tainted action_exprs
    collect_get_system_time_targets targets_expr bytes_eq
accepted = refl

-- The variable `x` holds what the form submitted.
refused : check_information_flow symbol nodes (timers 2) functions [] ≡ err parse_error
unfolding check_information_flow all_actions layout_actions sources network_targets dependents
    assignments build_graph push_each propagate taint_all taint_var taint_function tainted_sources
    fixpoint check_targets time_targets checked_trees trees_of_actions check_sinks extract_deps
    extract_expr walk_all is_expr_tainted tainted_expr any_tainted action_exprs
    collect_get_system_time_targets targets_expr bytes_eq
refused = refl

abbrev taint : Taint
taint = record {
  vars = with_entry (λ name. any (λ x. name == x) (0 ∷ [])) 2 true;
  functions = λ _. false;
}

fixed :
    fixpoint
      (symbol (codes "get_system_time"))
      (dependents symbol functions [] (all_actions nodes (timers 3)))
      (sources symbol (all_actions nodes (timers 3)))
    ≡ ok taint
unfolding all_actions layout_actions sources network_targets dependents assignments build_graph
    push_each propagate taint_all taint_var taint_function tainted_sources fixpoint extract_deps
    extract_expr walk_all bytes_eq
fixed = refl

abbrev page_store : ℕ → Option Value
page_store name = if name == 3 then some (string (codes "mizu://a/")) else none

abbrev form_store : ℕ → Option Value
form_store name = if name == 0 then some (string (codes "secret")) else page_store name

abbrev state : Evaluator
state = record {
  global_store = page_store;
  local_stack = [];
  local_symbols = [];
  local_index = λ _. [];
  instruction_count = 0;
  max_instructions = 100;
  eval_depth = 0;
  accumulated_actions = [];
  undo_log = [];
  computed_var_syms = λ _. false;
}

agrees : Agrees taint.vars form_store page_store
agrees k u = ground arith

known :
    (name : ℕ) (func : MizuFunction)
    → program.functions name ≡ some func
    → Among (name, func) functions
known name func e = elim (Bool-cases (name == 4)) [
  | inl p ↦
      let q : name ≡ 4 = (==_iff name 4).0 p in
      let f : func ≡ record { params = []; body = reading 3 } = ground arith in inl (rw (q, f) refl)
  | inr p ↦ absurd (ground (arith, p))
]

named :
    (name : ℕ)
    → is_symbol (symbol (codes "get_system_time")) name ≡ true
    → program.resolve name ≡ some (codes "get_system_time")
unfolding bytes_eq
named name h = ground arith

same_page : (x y : Value) → Bool
same_page x y = false

check_information_flow-navigate_example :
    execute_action same_page program symbol (navigate_to (reading 3)) (moved form_store state)
    ≡ carry form_store (execute_action same_page program symbol (navigate_to (reading 3)) state)
unfolding all_actions layout_actions
check_information_flow-navigate_example =
    check_information_flow-navigate symbol nodes (timers 3) functions [] same_page program known
      named taint fixed ((1, 1), []) accepted (reading 3) (inr (inl refl)) form_store state agrees

execute_action-Agrees_example :
    (execute_action same_page program symbol
        (assign (codes "x") (reading 0))
        (moved form_store state)).1.global_store
      3
    ≡ (execute_action same_page program symbol
          (assign (codes "x") (reading 0))
          state).1.global_store
        3
unfolding all_actions layout_actions positions
execute_action-Agrees_example =
    execute_action-Agrees symbol nodes (timers 3) functions [] same_page program known named taint
      fixed user_gesture (assign (codes "x") (reading 0)) (inl refl) form_store state
      (record { indexed = λ name. refl; paired = refl }) (omega arith) agrees 3 refl

fixpoint-Derived_example :
    Reached taint 2
    ↔ Derived
        (symbol (codes "get_system_time"))
        (dependents symbol functions [] (all_actions nodes (timers 3)))
        (sources symbol (all_actions nodes (timers 3)))
        2
fixpoint-Derived_example =
    fixpoint-Derived (symbol (codes "get_system_time"))
      (dependents symbol functions [] (all_actions nodes (timers 3)))
      (sources symbol (all_actions nodes (timers 3))) taint fixed 2

check_information_flow_ends_example :
    let verdict = check_information_flow symbol nodes (timers 2) functions [] in
    (verdict ≢ out_of_fuel) × (verdict ≢ panicked)
unfolding all_actions layout_actions action_exprs
check_information_flow_ends_example =
    check_information_flow_ends symbol nodes (timers 2) functions [] (omega arith) tt (omega arith)
