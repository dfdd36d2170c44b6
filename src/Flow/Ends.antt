-- ===== src/Flow/Ends.antt =====
-- The check of information flow ends, with a verdict, on the expressions that the parser builds.
use mizu_navigator.Prelude.{
  ℕ, zero, suc, ◌+◌, ◌<◌, ◌≡◌, ◌≢◌, refl, arith, Bool, true, false, Option, none, some, List, [],
  ◌∷◌, ◌++◌, map, length, get_elem?, if◌then◌else◌, All, All-append, Bytes, codes,
}
use mathlib.Core.Path.{subst, sym}
use mizu_navigator.Value.{Outcome, ok, err, panicked, out_of_fuel, parse_error}
use mizu_navigator.Evaluator.Syntax.{Expr, Arena, ExprTree, MizuFunction}
use mizu_navigator.Evaluator.Actions.{Action, eval, assign, navigate_to, call_network}
use mizu_navigator.Computed.{ComputedBinding}
use mizu_navigator.Flow.{ActionContext, EventBlock, RootTimer}
use mizu_navigator.Flow.Walk.{
  Taint, extract_deps, is_expr_tainted, collect_get_system_time_targets, action_exprs, depth_of,
}
use mizu_navigator.Flow.Taint.{
  Dependent, on_function, on_comp, Graph, build_graph, push_each, dependents, assigned, assignment,
  assignments, all_actions, sources, fixpoint, time_targets, trees_of_actions, checked_trees,
  check_targets, check_sinks, check_information_flow,
}
use mizu_navigator.Flow.Taint.Exact.{propagated}
use mizu_navigator.Flow.Ordered.{
  Fine, bind-Fine, node-Fine, Below, OrderedFrom, IsOrdered, Found, ordered-Found,
  extract_expr-Fine, targets_expr-Fine, tainted_expr-Fine,
}

-- Down an ordered arena
module _ (arena : Arena) (ordered : OrderedFrom arena 0 arena.nodes) where
  node_found :
      (id : ℕ)
      → id < length arena.nodes
      → (e : Expr) × (get_elem? arena.nodes id ≡ some e) × Below arena id e
  node_found id h =
      found (get_elem? arena.nodes id) refl (ordered-Found arena 0 id arena.nodes ordered h)
    where
      found :
          (o : Option Expr)
          → get_elem? arena.nodes id ≡ o
          → Found arena (0 + id) o
          → (e : Expr) × (get_elem? arena.nodes id ≡ some e) × Below arena id e
      found none p f = absurd f
      found (some e) p f =
          let q : 0 + id ≡ id = omega arith in (e, p, subst (λ n. Below arena n e) q f)

  extract_deps-Fine :
      (gst : Option ℕ) (fuel id : ℕ) (acc : List ℕ)
      → id < fuel
      → id < length arena.nodes
      → Fine (extract_deps gst fuel arena id acc)
  unfolding extract_deps
  extract_deps-Fine gst zero id acc f h = absurd (omega arith)
  extract_deps-Fine gst (suc fuel) id acc f h =
      let (e, p, b) = node_found id h in
      node-Fine (get_elem? arena.nodes id) _ e p (
        extract_expr-Fine (extract_deps gst fuel arena) id
          (λ j out k. extract_deps-Fine gst fuel j out (omega arith) (omega arith)) gst arena e acc
          b)

  targets-Fine :
      (gst fuel id : ℕ) (acc : List ℕ)
      → id < fuel
      → id < length arena.nodes
      → Fine (collect_get_system_time_targets gst fuel arena id acc)
  unfolding collect_get_system_time_targets
  targets-Fine gst zero id acc f h = absurd (omega arith)
  targets-Fine gst (suc fuel) id acc f h =
      let (e, p, b) = node_found id h in
      node-Fine (get_elem? arena.nodes id) _ e p (
        targets_expr-Fine (collect_get_system_time_targets gst fuel arena) id
          (λ j out k. targets-Fine gst fuel j out (omega arith) (omega arith)) gst arena
          (λ j k. let (x, q, c) = node_found j (omega arith) in (x, q)) e acc b)

  is_expr_tainted-Fine :
      (taint : Taint) (gst : Option ℕ) (fuel id : ℕ)
      → id < fuel
      → id < length arena.nodes
      → Fine (is_expr_tainted taint gst fuel arena id)
  unfolding is_expr_tainted
  is_expr_tainted-Fine taint gst zero id f h = absurd (omega arith)
  is_expr_tainted-Fine taint gst (suc fuel) id f h =
      let (e, p, b) = node_found id h in
      node-Fine (get_elem? arena.nodes id) _ e p (
        tainted_expr-Fine (is_expr_tainted taint gst fuel arena) id
          (λ j k. is_expr_tainted-Fine taint gst fuel j (omega arith) (omega arith)) taint gst arena
          e b)

module _ {A B : Type 0} (f : A → B) (P : B → Type 0) where
  All-of_map : (xs : List A) → All (λ x. P (f x)) xs → All P (map f xs)
  All-of_map [] h = tt
  All-of_map (x ∷ xs) h = (h.0, All-of_map xs h.1)

abbrev Entry : Dependent × ExprTree → Type 0
Entry x = IsOrdered x.1

build_graph-Fine :
    (gst : Option ℕ) (ds : List (Dependent × ExprTree)) (graph : Graph)
    → All Entry ds
    → Fine (build_graph gst ds graph)
unfolding build_graph
build_graph-Fine gst [] graph h = tt
build_graph-Fine gst ((d, tree) ∷ ds) graph h =
    bind-Fine (extract_deps gst (depth_of tree) tree.arena tree.root []) _
      (extract_deps-Fine tree.arena h.0.1 gst (depth_of tree) tree.root [] (omega (arith, h.0.0))
        h.0.0)
      (λ deps e. build_graph-Fine gst ds (push_each d deps graph) h.1)

ok-Fine : {A : Type 0} (m : Outcome A) (a : A) → m ≡ ok a → Fine m
ok-Fine m a e = subst (λ x. Fine x) (sym e) tt

fixpoint-Fine :
    (gst : Option ℕ) (ds : List (Dependent × ExprTree)) (symbols : List ℕ)
    → All Entry ds
    → Fine (fixpoint gst ds symbols)
unfolding fixpoint
fixpoint-Fine gst ds symbols h =
    bind-Fine (build_graph gst ds (λ _. [])) _ (build_graph-Fine gst ds (λ _. []) h)
      (λ graph e. let (t, p, x) = propagated gst ds symbols graph e in ok-Fine _ t p)

time_targets-Fine :
    (gst : ℕ) (trees : List ExprTree) (out : List ℕ)
    → All IsOrdered trees
    → Fine (time_targets gst trees out)
unfolding time_targets
time_targets-Fine gst [] out h = tt
time_targets-Fine gst (tree ∷ trees) out h =
    bind-Fine (collect_get_system_time_targets gst (depth_of tree) tree.arena tree.root out) _
      (targets-Fine tree.arena h.0.1 gst (depth_of tree) tree.root out (omega (arith, h.0.0)) h.0.0)
      (λ mid e. time_targets-Fine gst trees mid h.1)

if-Fine : {A : Type 0} (b : Bool) (m n : Outcome A) → Fine m → Fine n → Fine (if b then m else n)
if-Fine true m n h k = h
if-Fine false m n h k = k

check_targets-Fine :
    (gst : Option ℕ) (trees : List ExprTree) (comps : List ComputedBinding)
    → All IsOrdered trees
    → Fine (check_targets gst trees comps)
unfolding check_targets
check_targets-Fine none trees comps h = tt
check_targets-Fine (some gst) trees comps h =
    bind-Fine (time_targets gst trees []) _ (time_targets-Fine gst trees [] h)
      (λ targets e. if-Fine _ (err parse_error) (ok tt) tt tt)

abbrev Acted : ActionContext × Action → Type 0
Acted x = All IsOrdered (action_exprs x.1)

check_sinks-Fine :
    (taint : Taint) (gst : Option ℕ) (actions : List (ActionContext × Action)) (n : ℕ)
    → All Acted actions
    → Fine (check_sinks taint gst actions n)
unfolding check_sinks action_exprs
check_sinks-Fine taint gst [] n h = tt
check_sinks-Fine taint gst ((context, navigate_to url) ∷ actions) n h =
    bind-Fine (is_expr_tainted taint gst (depth_of url) url.arena url.root) _
      (is_expr_tainted-Fine url.arena h.0.0.1 taint gst (depth_of url) url.root
        (omega (arith, h.0.0.0)) h.0.0.0)
      (λ b e.
        if-Fine _ (err parse_error) (check_sinks taint gst actions (n + 1)) tt
          (check_sinks-Fine taint gst actions (n + 1) h.1))
check_sinks-Fine taint gst ((context, eval tree) ∷ actions) n h =
    check_sinks-Fine taint gst actions n h.1
check_sinks-Fine taint gst ((context, assign target tree) ∷ actions) n h =
    check_sinks-Fine taint gst actions n h.1
check_sinks-Fine taint gst ((context, call_network m a p q t f hs) ∷ actions) n h =
    check_sinks-Fine taint gst actions n h.1

trees_of_actions-Fine :
    (actions : List (ActionContext × Action))
    → All Acted actions
    → All IsOrdered (trees_of_actions actions)
unfolding trees_of_actions
trees_of_actions-Fine [] h = tt
trees_of_actions-Fine ((context, action) ∷ actions) h =
    All-append IsOrdered (action_exprs action) (trees_of_actions actions) h.0
      (trees_of_actions-Fine actions h.1)

assigned-Entry :
    (symbol : Bytes → Option ℕ) (o : Option ℕ) (tree : ExprTree)
    → IsOrdered tree
    → All Entry (assigned symbol o tree)
assigned-Entry symbol none tree h = tt
assigned-Entry symbol (some target) tree h = (h, tt)

assignment-Entry :
    (symbol : Bytes → Option ℕ) (action : Action)
    → All IsOrdered (action_exprs action)
    → All Entry (assignment symbol action)
unfolding action_exprs
assignment-Entry symbol (assign target tree) h = assigned-Entry symbol (symbol target) tree h.0
assignment-Entry symbol (eval tree) h = tt
assignment-Entry symbol (navigate_to url) h = tt
assignment-Entry symbol (call_network m a p q t f hs) h = tt

assignments-Entry :
    (symbol : Bytes → Option ℕ) (actions : List (ActionContext × Action))
    → All Acted actions
    → All Entry (assignments symbol actions)
unfolding assignments
assignments-Entry symbol [] h = tt
assignments-Entry symbol ((context, action) ∷ actions) h =
    All-append Entry (assignment symbol action) (assignments symbol actions)
      (assignment-Entry symbol action h.0) (assignments-Entry symbol actions h.1)

verdict-Fine : {A : Type 0} (m : Outcome A) → Fine m → (m ≢ out_of_fuel) × (m ≢ panicked)
verdict-Fine (ok a) h = (cc, cc)
verdict-Fine (err e) h = (cc, cc)
verdict-Fine panicked h = absurd h
verdict-Fine out_of_fuel h = absurd h

-- The check ends with a verdict, whatever the document says: on expressions whose nodes refer only to
-- nodes allocated before them, it neither panics nor goes on for ever.
pub check_information_flow_ends :
    (symbol : Bytes → Option ℕ) (nodes : List (List EventBlock)) (timers : List RootTimer)
    (functions : List (ℕ × MizuFunction)) (comps : List ComputedBinding)
    → All (λ (f : ℕ × MizuFunction). IsOrdered f.1.body) functions
    → All (λ (comp : ComputedBinding). IsOrdered comp.expr) comps
    → All
        (λ (a : ActionContext × Action). All IsOrdered (action_exprs a.1))
        (all_actions nodes timers)
    → let verdict = check_information_flow symbol nodes timers functions comps in
      (verdict ≢ out_of_fuel) × (verdict ≢ panicked)
unfolding check_information_flow dependents checked_trees
check_information_flow_ends symbol nodes timers functions comps hf hc ha =
    let actions = all_actions nodes timers in
    let of_functions : List (Dependent × ExprTree) =
      map (λ (f : ℕ × MizuFunction). (on_function f.0, f.1.body)) functions in
    let of_comps : List (Dependent × ExprTree) =
      map (λ (comp : ComputedBinding). (on_comp comp, comp.expr)) comps in
    let bodies : List ExprTree = map (λ (f : ℕ × MizuFunction). f.1.body) functions in
    let values : List ExprTree = map (λ (comp : ComputedBinding). comp.expr) comps in
    let gst = symbol (codes "get_system_time") in
    let entries =
      All-append Entry of_functions (of_comps ++ assignments symbol actions)
        (All-of_map _ Entry functions hf)
        (All-append Entry of_comps (assignments symbol actions) (All-of_map _ Entry comps hc)
          (assignments-Entry symbol actions ha)) in
    let trees =
      All-append IsOrdered bodies (values ++ trees_of_actions actions)
        (All-of_map _ IsOrdered functions hf)
        (All-append IsOrdered values (trees_of_actions actions) (All-of_map _ IsOrdered comps hc)
          (trees_of_actions-Fine actions ha)) in
    verdict-Fine (check_information_flow symbol nodes timers functions comps) (
      bind-Fine (fixpoint gst (dependents symbol functions comps actions) (sources symbol actions))
        _
        (fixpoint-Fine gst (dependents symbol functions comps actions) (sources symbol actions)
          entries)
        (λ taint e.
          bind-Fine (check_targets gst (checked_trees functions comps actions) comps) _
            (check_targets-Fine gst (checked_trees functions comps actions) comps trees)
            (λ u f.
              bind-Fine (check_sinks taint gst actions 0) _
                (check_sinks-Fine taint gst actions 0 ha) (λ n g. tt))))
