-- ===== src/Flow/Sound.antt =====
-- What the check of information flow ensures when a document's actions run.
use mizu_navigator.Prelude.{
  ℕ, ◌+◌, ◌≡◌, refl, ap, Bool, true, false, not, ◌&&◌, Option, some, List, [], ◌∷◌, if◌then◌else◌,
  inl, inr, Bool-cases, Among, Bytes, codes, map, ◌++◌,
}
use mizu_navigator.Value.{Value, Outcome, ok, err, parse_error}
use mizu_navigator.Evaluator.{Evaluator}
use mizu_navigator.Evaluator.Syntax.{ExprTree, Program, MizuFunction}
use mizu_navigator.Evaluator.Actions.{
  Action, eval, assign, navigate_to, call_network, run_tree, perform, execute_action, enough,
}
use mizu_navigator.Computed.{ComputedBinding}
use mizu_navigator.Flow.{ActionContext, non_interactive, EventBlock, RootTimer, >>=-eq-ok}
use mizu_navigator.Flow.Walk.{Taint, is_expr_tainted, depth_of}
use mizu_navigator.Flow.Taint.{
  Dependent, on_function, dependents, sources, all_actions, fixpoint, check_sinks, check_targets,
  checked_trees, check_information_flow, is_gesture,
}
use mizu_navigator.Flow.Taint.Fixpoint.{marked}
use mizu_navigator.Flow.Taint.Graphs.{Flows}
use mizu_navigator.Flow.Taint.Exact.{fixpoint-IsTaint, fixpoint_extracted}
use mizu_navigator.Flow.Clean.{Clean, is_expr_tainted-Clean}
use mizu_navigator.Flow.Closed.{extract_deps-Clean}
use mizu_navigator.Flow.Blind.{
  Agrees, moved, carry, bind-Blind, then-Blind, return-Blind, queue-Blind,
}
use mizu_navigator.Flow.Blind.Calls.{string_or_fail-Blind}
use mizu_navigator.Flow.Blind.Evaluate.{CleanFunctions, NamesTime, tree-Blind}

sink_passed :
    (b : Bool) (rest : Outcome ℕ) (n : ℕ)
    → (if b && not (is_gesture non_interactive) then err parse_error else rest) ≡ ok n
    → (b ≡ false) × (rest ≡ ok n)
sink_passed true rest n h = absurd (cc)
sink_passed false rest n h = (refl, h)

sinks_rest :
    (b c : Bool) (rest : Outcome ℕ) (n : ℕ)
    → (if b && c then err parse_error else rest) ≡ ok n
    → rest ≡ ok n
sinks_rest true true rest n h = absurd (cc)
sinks_rest true false rest n h = h
sinks_rest false c rest n h = h

-- The sinks that pass without a gesture are not tainted.
check_sinks_passed :
    (taint : Taint) (gst : Option ℕ) (actions : List (ActionContext × Action)) (m n : ℕ)
    → check_sinks taint gst actions m ≡ ok n
    → (url : ExprTree) → Among (non_interactive, navigate_to url) actions
    → is_expr_tainted taint gst (depth_of url) url.arena url.root ≡ ok false
unfolding check_sinks
check_sinks_passed taint gst [] m n h url a = absurd a
check_sinks_passed taint gst ((context, navigate_to tree) ∷ actions) m n h url (inl e) =
    let (b, p, q) =
      >>=-eq-ok (is_expr_tainted taint gst (depth_of tree) tree.arena tree.root) _ h in
    let c : non_interactive ≡ context = ap (λ (x : ActionContext × Action). x.0) e in
    let t : url ≡ tree = cc (ap (λ (x : ActionContext × Action). x.1) e) in
    let (f, r) = sink_passed b (check_sinks taint gst actions (m + 1)) n (rw (← c) at q) in
    rw (t, p) (ap ok f)
check_sinks_passed taint gst ((context, navigate_to tree) ∷ actions) m n h url (inr a) =
    let (b, p, q) =
      >>=-eq-ok (is_expr_tainted taint gst (depth_of tree) tree.arena tree.root) _ h in
    check_sinks_passed taint gst actions (m + 1) n
      (sinks_rest b (not (is_gesture context)) (check_sinks taint gst actions (m + 1)) n q) url a
check_sinks_passed taint gst ((context, eval tree) ∷ actions) m n h url (inl e) =
    absurd (cc (ap (λ (x : ActionContext × Action). x.1) e))
check_sinks_passed taint gst ((context, eval tree) ∷ actions) m n h url (inr a) =
    check_sinks_passed taint gst actions m n h url a
check_sinks_passed taint gst ((context, assign target tree) ∷ actions) m n h url (inl e) =
    absurd (cc (ap (λ (x : ActionContext × Action). x.1) e))
check_sinks_passed taint gst ((context, assign target tree) ∷ actions) m n h url (inr a) =
    check_sinks_passed taint gst actions m n h url a
check_sinks_passed taint gst ((context, call_network w x p q t f hs) ∷ actions) m n h url (inl e) =
    absurd (cc (ap (λ (x : ActionContext × Action). x.1) e))
check_sinks_passed taint gst ((context, call_network w x p q t f hs) ∷ actions) m n h url (inr a) =
    check_sinks_passed taint gst actions m n h url a

listed_function :
    (functions : List (ℕ × MizuFunction)) (name : ℕ) (func : MizuFunction)
    (rest : List (Dependent × ExprTree))
    → Among (name, func) functions
    → Among
        (on_function name, func.body)
        (map (λ (f : ℕ × MizuFunction). (on_function f.0, f.1.body)) functions ++ rest)
listed_function [] name func rest a = absurd a
listed_function (f ∷ functions) name func rest (inl e) =
    inl (ap (λ (y : ℕ × MizuFunction). (on_function y.0, y.1.body)) e)
listed_function (f ∷ functions) name func rest (inr a) =
    inr (listed_function functions name func rest a)

module _ (symbol : Bytes → Option ℕ) (nodes : List (List EventBlock)) (timers : List RootTimer)
    (functions : List (ℕ × MizuFunction)) (comps : List ComputedBinding) where
  abbrev pub actions_of : List (ActionContext × Action)
  actions_of = all_actions nodes timers

  abbrev pub time_symbol : Option ℕ
  time_symbol = symbol (codes "get_system_time")

  abbrev pub entries : List (Dependent × ExprTree)
  entries = dependents symbol functions comps actions_of

  -- The taint that the check computes
  abbrev pub Taints : Taint → Type 0
  Taints taint = fixpoint time_symbol entries (sources symbol actions_of) ≡ ok taint

  module _ (taint : Taint) (fixed : Taints taint) where
    -- What is not marked reads nothing that is tainted.
    pub unmarked-Clean :
        (d : Dependent) (tree : ExprTree)
        → Among (d, tree) entries
        → marked taint d ≡ false
        → Clean taint time_symbol (depth_of tree) tree.arena tree.root
    unmarked-Clean d tree a m =
        let (deps, e) =
          fixpoint_extracted time_symbol entries (sources symbol actions_of) taint fixed d tree a in
        let x = fixpoint-IsTaint time_symbol entries (sources symbol actions_of) taint fixed in
        extract_deps-Clean taint time_symbol (depth_of tree) tree.arena tree.root deps e (λ s r.
          let flows : Flows time_symbol entries s d = record {
            tree = tree;
            deps = deps;
            listed = a;
            extracted = e;
            reads = r;
          } in
          (
            elim (Bool-cases (taint.vars s)) [
              | inl p ↦ absurd (cc (x.marks s d (inl p) flows, m))
              | inr p ↦ p
            ],
            elim (Bool-cases (taint.functions s)) [
              | inl p ↦ absurd (cc (x.marks s d (inr p) flows, m))
              | inr p ↦ p
            ],
          ))

    pub functions-Clean :
        (program : Program)
        → ((name : ℕ) (func : MizuFunction)
            → program.functions name ≡ some func
            → Among (name, func) functions)
        → CleanFunctions taint time_symbol program
    unfolding dependents
    functions-Clean program known name func e f = (
      depth_of func.body,
      unmarked-Clean (on_function name) func.body
          (unfold dependents in listed_function functions name func _ (known name func e)) f,
    )

    passed-Clean :
        (r : (ℕ × ℕ) × List ComputedBinding)
        → check_information_flow symbol nodes timers functions comps ≡ ok r
        → (url : ExprTree) → Among (non_interactive, navigate_to url) actions_of
        → Clean taint time_symbol (depth_of url) url.arena url.root
    unfolding check_information_flow
    passed-Clean r h url a =
        let (t, e, k) = >>=-eq-ok (fixpoint time_symbol entries (sources symbol actions_of)) _ h in
        let (u, f, l) =
          >>=-eq-ok (check_targets time_symbol (checked_trees functions comps actions_of) comps) _
            k in
        let (n, p, q) = >>=-eq-ok (check_sinks t time_symbol actions_of 0) _ l in
        let same : t ≡ taint = cc (e, fixed) in
        is_expr_tainted-Clean taint time_symbol (depth_of url) url.arena url.root
          (check_sinks_passed taint time_symbol actions_of 0 n (rw same at p) url a)

module _ (symbol : Bytes → Option ℕ) (nodes : List (List EventBlock)) (timers : List RootTimer)
    (functions : List (ℕ × MizuFunction)) (comps : List ComputedBinding)
    (ptr_eq : Value → Value → Bool) (program : Program)
    (known : (name : ℕ) (func : MizuFunction)
      → program.functions name ≡ some func
      → Among (name, func) functions)
    (named : NamesTime (symbol (codes "get_system_time")) program) (taint : Taint)
    (fixed : Taints symbol nodes timers functions comps taint) where
  -- A navigation that a timer starts does not depend on tainted data: in a document that the check
  -- accepts, from two states that differ only in globals that the check's fixpoint taints, it has the
  -- same outcome and queues the same actions.
  pub check_information_flow-navigate :
      (r : (ℕ × ℕ) × List ComputedBinding)
      → check_information_flow symbol nodes timers functions comps ≡ ok r
      → (url : ExprTree) → Among (non_interactive, navigate_to url) (all_actions nodes timers)
      → (g : ℕ → Option Value) (s : Evaluator) → Agrees taint.vars g s.global_store
      → execute_action ptr_eq program symbol (navigate_to url) (moved g s)
        ≡ carry g (execute_action ptr_eq program symbol (navigate_to url) s)
  unfolding execute_action perform run_tree
  check_information_flow-navigate r h url a g s agrees =
      let clean = passed-Clean symbol nodes timers functions comps taint fixed r h url a in
      let bodies = functions-Clean symbol nodes timers functions comps taint fixed program known in
      ((bind-Blind taint.vars g
          (bind-Blind taint.vars g
            (tree-Blind taint (symbol (codes "get_system_time")) g ptr_eq program bodies named
              enough (depth_of url) url.arena 0 url.root clean)
            (string_or_fail-Blind taint.vars g))
          (λ text.
            then-Blind taint.vars g (queue-Blind taint.vars g _) (return-Blind taint.vars g _))).on
        (record s { instruction_count = 0 }) agrees).0
