-- ===== src/Flow/Agreement.antt =====
-- Actions of an accepted document do not let tainted data into untainted globals.
use mizu_navigator.Prelude.{
  ℕ, ◌-◌, ◌^◌, ◌<◌, ◌≡◌, refl, sym, ap, ◌∙◌, Bool, true, false, Option, none, some, List, [], ◌∷◌,
  ◌++◌, map, if◌then◌else◌, ◌==◌, inl, inr, Bool-cases, Among, Among-append_left,
  Among-append_right, Bytes, codes, ==_refl, ==_iff,
}
use mizu_navigator.Value.{Value, Outcome, ok, err, panicked, out_of_fuel, execution_error}
use mizu_navigator.Evaluator.{Evaluator, set_global}
use mizu_navigator.Evaluator.Syntax.{ExprTree, Program, MizuFunction}
use mizu_navigator.Evaluator.Monad.{M, after, ◌>>=◌, ◌>>◌, return, raise}
use mizu_navigator.Evaluator.Actions.{
  Action, eval, assign, navigate_to, call_network, run_tree, set_runtime, perform, execute_action,
  enough,
}
use mizu_navigator.Evaluator.Locals.{IsIndexed}
use mizu_navigator.Evaluator.Assignments.{Assigns, execute_action-globals}
use mizu_navigator.Computed.{ComputedBinding}
use mizu_navigator.Flow.{ActionContext, EventBlock, RootTimer}
use mizu_navigator.Flow.Walk.{Taint, depth_of}
use mizu_navigator.Flow.Taint.{
  Dependent, on_function, on_comp, on_assign, dependents, assigned, assignment, assignments,
  all_actions,
}
use mizu_navigator.Flow.Blind.{Agrees, moved, carry}
use mizu_navigator.Flow.Blind.Evaluate.{NamesTime, tree-Blind}
use mizu_navigator.Flow.Sound.{Taints, unmarked-Clean, functions-Clean}

listed_assign :
    (symbol : Bytes → Option ℕ) (actions : List (ActionContext × Action)) (context : ActionContext)
    (target : Bytes) (tree : ExprTree) (k : ℕ)
    → symbol target ≡ some k
    → Among (context, assign target tree) actions
    → Among (on_assign k, tree) (assignments symbol actions)
unfolding assignments
listed_assign symbol [] context target tree k e a = absurd a
listed_assign symbol ((c, action) ∷ actions) context target tree k e (inl q) =
    let p : assign target tree ≡ action = ap (λ (x : ActionContext × Action). x.1) q in
    rw (← p) (
      Among-append_left (on_assign k, tree) (assigned symbol (symbol target) tree)
        (assignments symbol actions) (rw e (inl refl)))
listed_assign symbol ((c, action) ∷ actions) context target tree k e (inr a) =
    Among-append_right (on_assign k, tree) (assignment symbol action) (assignments symbol actions)
      (listed_assign symbol actions context target tree k e a)

module _ (ptr_eq : Value → Value → Bool) (program : Program) (symbol : Bytes → Option ℕ) where
  abbrev storing : Bool → ℕ → M Value → M Bool
  storing c k m =
      if c
      then raise execution_error
      else (m >>= (λ v. set_runtime ptr_eq program symbol (some k) v >> return true))

  stored-agree :
      (k : ℕ) (g : ℕ → Option Value) (x : Outcome Value × Evaluator)
      → g k ≡ x.1.global_store k
      → (after
            (λ v. set_runtime ptr_eq program symbol (some k) v >> return true)
            (carry g x)).1.global_store
          k
        ≡ (after
              (λ v. set_runtime ptr_eq program symbol (some k) v >> return true)
              x).1.global_store
            k
  unfolding ◌>>◌ ◌>>=◌ return set_global
  stored-agree k g (ok v, t) h = rw (==_refl k) refl
  stored-agree k g (err e, t) h = h
  stored-agree k g (panicked, t) h = h
  stored-agree k g (out_of_fuel, t) h = h

  storing-agree :
      (c : Bool) (k : ℕ) (g : ℕ → Option Value) (s : Evaluator) (m : M Value)
      → g k ≡ s.global_store k
      → m (moved g s) ≡ carry g (m s)
      → (m s).1.global_store ≡ s.global_store
      → (storing c k m (moved g s)).1.global_store k ≡ (storing c k m s).1.global_store k
  unfolding ◌>>=◌ raise
  storing-agree true k g s m h e f = h
  storing-agree false k g s m h e f =
      ap
        (λ (x : Outcome Value × Evaluator).
          (after (λ v. set_runtime ptr_eq program symbol (some k) v >> return true)
              x).1.global_store
            k)
        e
      ∙ stored-agree k g (m s) (h ∙ ap (λ (t : ℕ → Option Value). t k) (sym f))

  -- An assignment to a symbol
  perform_assign :
      (target : Bytes) (tree : ExprTree) (k : ℕ) (s : Evaluator)
      → symbol target ≡ some k
      → perform ptr_eq program symbol (assign target tree) s
        ≡ storing (s.computed_var_syms k) k (run_tree ptr_eq program symbol tree) s
  unfolding perform ◌>>=◌
  perform_assign target tree k s e = rw e refl

listed_dependent :
    (symbol : Bytes → Option ℕ) (functions : List (ℕ × MizuFunction)) (comps : List ComputedBinding)
    (actions : List (ActionContext × Action)) (x : Dependent × ExprTree)
    → Among x (assignments symbol actions)
    → Among x (dependents symbol functions comps actions)
unfolding dependents
listed_dependent symbol functions comps actions x a =
    let of_comps : List (Dependent × ExprTree) =
      map (λ (comp : ComputedBinding). (on_comp comp, comp.expr)) comps in
    Among-append_right x (map (λ (f : ℕ × MizuFunction). (on_function f.0, f.1.body)) functions)
      (of_comps ++ assignments symbol actions)
      (Among-append_right x of_comps (assignments symbol actions) a)

moved-IsIndexed : (g : ℕ → Option Value) (s : Evaluator) → IsIndexed s → IsIndexed (moved g s)
moved-IsIndexed g s i = record { indexed = i.indexed; paired = i.paired }

module _ (symbol : Bytes → Option ℕ) (nodes : List (List EventBlock)) (timers : List RootTimer)
    (functions : List (ℕ × MizuFunction)) (comps : List ComputedBinding)
    (ptr_eq : Value → Value → Bool) (program : Program)
    (known : (name : ℕ) (func : MizuFunction)
      → program.functions name ≡ some func
      → Among (name, func) functions)
    (named : NamesTime (symbol (codes "get_system_time")) program) (taint : Taint)
    (fixed : Taints symbol nodes timers functions comps taint) where
  assign-agree :
      (context : ActionContext) (target : Bytes) (tree : ExprTree) (k : ℕ)
      → symbol target ≡ some k
      → Among (context, assign target tree) (all_actions nodes timers)
      → taint.vars k ≡ false
      → (g : ℕ → Option Value) (s : Evaluator) → Agrees taint.vars g s.global_store
      → (execute_action ptr_eq program symbol (assign target tree) (moved g s)).1.global_store k
        ≡ (execute_action ptr_eq program symbol (assign target tree) s).1.global_store k
  unfolding execute_action run_tree
  assign-agree context target tree k e a u g s agrees =
      let listed = listed_assign symbol (all_actions nodes timers) context target tree k e a in
      let clean =
        unmarked-Clean symbol nodes timers functions comps taint fixed (on_assign k) tree
          (listed_dependent symbol functions comps (all_actions nodes timers) (on_assign k, tree)
            listed)
          u in
      let bodies = functions-Clean symbol nodes timers functions comps taint fixed program known in
      let s' = record s { instruction_count = 0 } in
      let (p, q) =
        (tree-Blind taint (symbol (codes "get_system_time")) g ptr_eq program bodies named enough
            (depth_of tree) tree.arena 0 tree.root clean).on
          s' agrees in
      ap (λ (x : Outcome Bool × Evaluator). x.1.global_store k)
        (perform_assign ptr_eq program symbol target tree k (moved g s') e)
      ∙ storing-agree ptr_eq program symbol (s.computed_var_syms k) k g s'
          (run_tree ptr_eq program symbol tree) (agrees k u) p q
      ∙ ap (λ (x : Outcome Bool × Evaluator). x.1.global_store k)
          (sym (perform_assign ptr_eq program symbol target tree k s' e))

  -- An action that does not assign to a symbol
  unassigned-agree :
      (action : Action) (k : ℕ)
      → (Assigns ptr_eq program symbol action k → ⊥)
      → taint.vars k ≡ false
      → (g : ℕ → Option Value) (s : Evaluator) → IsIndexed s
      → s.max_instructions < 2 ^ 64 - 1
      → Agrees taint.vars g s.global_store
      → (execute_action ptr_eq program symbol action (moved g s)).1.global_store k
        ≡ (execute_action ptr_eq program symbol action s).1.global_store k
  unassigned-agree action k other u g s i b agrees =
      execute_action-globals ptr_eq program symbol action k (moved g s) (moved-IsIndexed g s i) b
        (λ h. absurd (other h))
      ∙ agrees k u
      ∙ sym (execute_action-globals ptr_eq program symbol action k s i b (λ h. absurd (other h)))

  target-agree :
      (context : ActionContext) (target : Bytes) (tree : ExprTree) (k : ℕ) (o : Option ℕ)
      → symbol target ≡ o
      → Among (context, assign target tree) (all_actions nodes timers)
      → taint.vars k ≡ false
      → (g : ℕ → Option Value) (s : Evaluator) → IsIndexed s
      → s.max_instructions < 2 ^ 64 - 1
      → Agrees taint.vars g s.global_store
      → (execute_action ptr_eq program symbol (assign target tree) (moved g s)).1.global_store k
        ≡ (execute_action ptr_eq program symbol (assign target tree) s).1.global_store k
  target-agree context target tree k none e a u g s i b agrees =
      unassigned-agree (assign target tree) k (λ h. cc (e, h)) u g s i b agrees
  target-agree context target tree k (some j) e a u g s i b agrees = elim (Bool-cases (j == k)) [
    | inl q ↦ assign-agree context target tree k (e ∙ ap some ((==_iff j k).0 q)) a u g s agrees
    | inr q ↦
        unassigned-agree (assign target tree) k
          (λ h. let p : j ≡ k = cc (e, h) in cc (q, (==_iff j k).1 p)) u g s i b agrees
  ]

  -- Tainted data do not reach an untainted global: whatever action of the document runs, also one
  -- that fails, two states that differ only in globals that the check's fixpoint taints are left with
  -- equal values in every global that it does not taint.
  pub execute_action-Agrees :
      (context : ActionContext) (action : Action)
      → Among (context, action) (all_actions nodes timers)
      → (g : ℕ → Option Value) (s : Evaluator) → IsIndexed s
      → s.max_instructions < 2 ^ 64 - 1
      → Agrees taint.vars g s.global_store
      → Agrees taint.vars
          (execute_action ptr_eq program symbol action (moved g s)).1.global_store
          (execute_action ptr_eq program symbol action s).1.global_store
  execute_action-Agrees context (eval tree) a g s i b agrees k u =
      unassigned-agree (eval tree) k (λ h. h) u g s i b agrees
  execute_action-Agrees context (assign target tree) a g s i b agrees k u =
      target-agree context target tree k (symbol target) refl a u g s i b agrees
  execute_action-Agrees context (navigate_to tree) a g s i b agrees k u =
      unassigned-agree (navigate_to tree) k (λ h. h) u g s i b agrees
  execute_action-Agrees context (call_network m n p q t f hs) a g s i b agrees k u =
      unassigned-agree (call_network m n p q t f hs) k (λ h. h) u g s i b agrees
