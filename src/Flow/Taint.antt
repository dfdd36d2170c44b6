-- ===== src/Flow/Taint.antt =====
-- `check_information_flow` of crates/core/src/parser/flow/check.rs. The map of the functions is a
-- list, in the order in which it is enumerated; the origins that diagnostics name are left out.
pub mod Fixpoint
pub mod Graphs
pub mod Exact
use mizu_navigator.Prelude.{
  insert, ℕ, zero, suc, ◌+◌, Bool, true, false, not, ◌&&◌, Option, none, some, List, [], ◌∷◌, ◌++◌,
  map, any, length, ◌==◌, if◌then◌else◌, Bytes, codes,
}
use mizu_navigator.Value.{Outcome, ok, err, panicked, out_of_fuel, parse_error}
use mizu_navigator.Evaluator.{with_entry}
use mizu_navigator.Evaluator.Syntax.{ExprTree, MizuFunction}
use mizu_navigator.Evaluator.Actions.{Action, eval, assign, navigate_to, call_network}
use mizu_navigator.Computed.{ComputedBinding}
use mizu_navigator.Flow.{
  ActionContext, user_gesture, non_interactive, EventBlock, click, submit, RootTimer, ◌>>=◌,
}
use mizu_navigator.Flow.Walk.{
  Taint, extract_deps, is_expr_tainted, collect_get_system_time_targets, action_exprs, depth_of,
}

pub data Dependent : Type 0 where
  on_function : ℕ → Dependent
  on_comp : ComputedBinding → Dependent
  on_assign : ℕ → Dependent

abbrev pub Graph : Type 0
Graph = ℕ → List Dependent

abbrev pub event_action : EventBlock → ActionContext × Action
event_action (click action) = (user_gesture, action)
event_action (submit action) = (user_gesture, action)

abbrev pub node_actions : List EventBlock → List (ActionContext × Action)
node_actions events = map event_action events

unfoldable pub layout_actions : List (List EventBlock) → List (ActionContext × Action)
layout_actions [] = []
layout_actions (events ∷ nodes) = node_actions events ++ layout_actions nodes

unfoldable pub all_actions : List (List EventBlock) → List RootTimer → List (ActionContext × Action)
all_actions nodes timers =
    layout_actions nodes ++ map (λ (timer : RootTimer). (non_interactive, timer.action)) timers

-- What the interner gives for a name, added to a set
abbrev pub insert_known : Option ℕ → List ℕ → List ℕ
insert_known none symbols = symbols
insert_known (some sym) symbols = insert sym symbols

module _ (symbol : Bytes → Option ℕ) where
  abbrev pub network_target : Action → List ℕ → List ℕ
  network_target (call_network method alias payload path target format headers) symbols =
      insert_known (symbol target) symbols
  network_target action symbols = symbols

  unfoldable pub network_targets : List (ActionContext × Action) → List ℕ → List ℕ
  network_targets [] symbols = symbols
  network_targets ((context, action) ∷ actions) symbols =
      network_targets actions (network_target action symbols)

  -- The tainted sources: the submitted form and the answers of the network
  unfoldable pub sources : List (ActionContext × Action) → List ℕ
  sources actions = network_targets actions (insert_known (symbol (codes "$form")) [])

  abbrev pub assigned : Option ℕ → ExprTree → List (Dependent × ExprTree)
  assigned none tree = []
  assigned (some target) tree = (on_assign target, tree) ∷ []

  abbrev pub assignment : Action → List (Dependent × ExprTree)
  assignment (assign target tree) = assigned (symbol target) tree
  assignment action = []

  unfoldable pub assignments : List (ActionContext × Action) → List (Dependent × ExprTree)
  assignments [] = []
  assignments ((context, action) ∷ actions) = assignment action ++ assignments actions

-- The dependents, each with the expression that it is computed from
unfoldable pub dependents :
    (Bytes → Option ℕ)
    → List (ℕ × MizuFunction)
    → List ComputedBinding
    → List (ActionContext × Action)
    → List (Dependent × ExprTree)
dependents symbol functions comps actions =
    map (λ (f : ℕ × MizuFunction). (on_function f.0, f.1.body)) functions
    ++ (map (λ (comp : ComputedBinding). (on_comp comp, comp.expr)) comps
        ++ assignments symbol actions)

-- `graph.entry(dep).or_default().push(d)` for each dependency
unfoldable pub push_each : Dependent → List ℕ → Graph → Graph
push_each d [] graph = graph
push_each d (dep ∷ deps) graph = push_each d deps (with_entry graph dep (graph dep ++ (d ∷ [])))

unfoldable pub build_graph : Option ℕ → List (Dependent × ExprTree) → Graph → Outcome Graph
build_graph gst [] graph = ok graph
build_graph gst ((d, tree) ∷ ds) graph =
    extract_deps gst (depth_of tree) tree.arena tree.root []
    >>= (λ deps. build_graph gst ds (push_each d deps graph))

unfoldable pub taint_var : ℕ → Taint × List ℕ → Taint × List ℕ
taint_var sym (taint, worklist) =
    if taint.vars sym
    then (taint, worklist)
    else (record taint { vars = with_entry taint.vars sym true }, sym ∷ worklist)

unfoldable pub taint_function : ℕ → Taint × List ℕ → Taint × List ℕ
taint_function sym (taint, worklist) =
    if taint.functions sym
    then (taint, worklist)
    else (record taint { functions = with_entry taint.functions sym true }, sym ∷ worklist)

abbrev pub taint_dependent : Dependent → Taint × List ℕ → Taint × List ℕ
taint_dependent (on_function sym) s = taint_function sym s
taint_dependent (on_comp comp) s = taint_var comp.name s
taint_dependent (on_assign target) s = taint_var target s

unfoldable pub taint_all : List Dependent → Taint × List ℕ → Taint × List ℕ
taint_all [] s = s
taint_all (d ∷ ds) s = taint_all ds (taint_dependent d s)

-- The loop on the worklist, whose first element is the one that `pop` takes
unfoldable pub propagate : ℕ → Graph → Taint × List ℕ → Outcome Taint
propagate fuel graph (taint, []) = ok taint
propagate zero graph (taint, sym ∷ worklist) = out_of_fuel
propagate (suc fuel) graph (taint, sym ∷ worklist) =
    propagate fuel graph (taint_all (graph sym) (taint, worklist))

-- The initial set of tainted variables
unfoldable pub tainted_sources : List ℕ → Taint
tainted_sources symbols = record {
  vars = λ sym. any (λ x. sym == x) symbols;
  functions = λ _. false;
}

-- A symbol is put on the worklist once as a source, and once for each dependent at most.
abbrev pub rounds : List (Dependent × ExprTree) → List ℕ → ℕ
rounds ds symbols = length ds + length symbols

unfoldable pub fixpoint : Option ℕ → List (Dependent × ExprTree) → List ℕ → Outcome Taint
fixpoint gst ds symbols =
    build_graph gst ds (λ _. [])
    >>= (λ graph. propagate (rounds ds symbols) graph (tainted_sources symbols, symbols))

-- The targets of `get_system_time` in a list of trees
unfoldable pub time_targets : ℕ → List ExprTree → List ℕ → Outcome (List ℕ)
time_targets gst [] out = ok out
time_targets gst (tree ∷ trees) out =
    collect_get_system_time_targets gst (depth_of tree) tree.arena tree.root out
    >>= time_targets gst trees

unfoldable pub trees_of_actions : List (ActionContext × Action) → List ExprTree
trees_of_actions [] = []
trees_of_actions ((context, action) ∷ actions) = action_exprs action ++ trees_of_actions actions

unfoldable pub checked_trees :
    List (ℕ × MizuFunction) → List ComputedBinding → List (ActionContext × Action) → List ExprTree
checked_trees functions comps actions =
    map (λ (f : ℕ × MizuFunction). f.1.body) functions
    ++ (map (λ (comp : ComputedBinding). comp.expr) comps ++ trees_of_actions actions)

abbrev pub is_comp : List ComputedBinding → ℕ → Bool
is_comp comps target = any (λ (comp : ComputedBinding). comp.name == target) comps

unfoldable pub check_targets : Option ℕ → List ExprTree → List ComputedBinding → Outcome (Unit {0})
check_targets none trees comps = ok tt
check_targets (some gst) trees comps =
    time_targets gst trees []
    >>= (λ targets. if any (is_comp comps) targets then err parse_error else ok tt)

abbrev pub is_gesture : ActionContext → Bool
is_gesture user_gesture = true
is_gesture non_interactive = false

-- The loop over the sinks, with their number
unfoldable pub check_sinks : Taint → Option ℕ → List (ActionContext × Action) → ℕ → Outcome ℕ
check_sinks taint gst [] sinks = ok sinks
check_sinks taint gst ((context, navigate_to url) ∷ actions) sinks =
    is_expr_tainted taint gst (depth_of url) url.arena url.root >>= (λ tainted.
      if tainted && not (is_gesture context)
      then err parse_error
      else check_sinks taint gst actions (sinks + 1))
check_sinks taint gst ((context, eval tree) ∷ actions) sinks = check_sinks taint gst actions sinks
check_sinks taint gst ((context, assign target tree) ∷ actions) sinks =
    check_sinks taint gst actions sinks
check_sinks taint gst
      ((context, call_network method alias payload path target format headers) ∷ actions) sinks =
    check_sinks taint gst actions sinks

abbrev pub flag_comps : Taint → List ComputedBinding → List ComputedBinding
flag_comps taint comps =
    map (λ (comp : ComputedBinding). record comp { tainted = taint.vars comp.name }) comps

-- The numbers of sources and sinks, and the computed variables with their flags
unfoldable pub check_information_flow :
    (Bytes → Option ℕ)
    → List (List EventBlock)
    → List RootTimer
    → List (ℕ × MizuFunction)
    → List ComputedBinding
    → Outcome ((ℕ × ℕ) × List ComputedBinding)
check_information_flow symbol nodes timers functions comps =
    let actions = all_actions nodes timers in
    let gst = symbol (codes "get_system_time") in
    let symbols = sources symbol actions in
    fixpoint gst (dependents symbol functions comps actions) symbols >>= (λ taint.
      check_targets gst (checked_trees functions comps actions) comps >>= (λ _.
        check_sinks taint gst actions 0
        >>= (λ sinks. ok ((length symbols, sinks), flag_comps taint comps))))
