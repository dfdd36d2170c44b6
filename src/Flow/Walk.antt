-- ===== src/Flow/Walk.antt =====
-- The walks over expressions: `extract_deps` of crates/core/src/parser/flow/check.rs and
-- flow/helpers.rs. Each recurs on fuel, one unit for each level of nesting; `gst` is the symbol of
-- `get_system_time`, if it is interned. An index out of the arena panics.
use mizu_navigator.Prelude.{
  insert, ℕ, zero, suc, Bool, true, false, Option, none, some, List, [], ◌∷◌, ◌++◌, get_elem?, ◌==◌,
  if◌then◌else◌, length, Bytes,
}
use mizu_navigator.Value.{Outcome, ok, panicked, out_of_fuel}
use mizu_navigator.Evaluator.Syntax.{
  Expr, literal, variable, binary_op, function_call, let_in, not_of, if_else, field_access, Arena,
  ExprTree, args,
}
use mizu_navigator.Evaluator.Actions.{Action, eval, assign, navigate_to, call_network}
use mizu_navigator.Flow.{◌>>=◌}

abbrev pub is_symbol : Option ℕ → ℕ → Bool
is_symbol none name = false
is_symbol (some gst) name = name == gst

-- `&arena[id]`
abbrev pub node {ℓ} : {A : Type ℓ} → Arena → ℕ → (Expr → Outcome A) → Outcome A
node arena id k = elim (get_elem? arena.nodes id) [ some e ↦ k e | none ↦ panicked ]

abbrev pub window {ℓ} : {A : Type ℓ} → Arena → ℕ → ℕ → (List ℕ → Outcome A) → Outcome A
window arena start len k = elim (args arena start len) [ some ids ↦ k ids | none ↦ panicked ]

-- A walk with an accumulator, over several nodes
unfoldable pub walk_all : (ℕ → List ℕ → Outcome (List ℕ)) → List ℕ → List ℕ → Outcome (List ℕ)
walk_all walk [] acc = ok acc
walk_all walk (id ∷ ids) acc = walk id acc >>= walk_all walk ids

-- The window is read once for each argument, so not at all for none.
abbrev pub call_args : Arena → ℕ → ℕ → Option (List ℕ)
call_args arena start zero = some []
call_args arena start (suc len) = args arena start (suc len)

module _ (gst : Option ℕ) where
  unfoldable pub extract_expr :
      Arena → (ℕ → List ℕ → Outcome (List ℕ)) → Expr → List ℕ → Outcome (List ℕ)
  extract_expr arena walk (literal v) deps = ok deps
  extract_expr arena walk (variable sym) deps = ok (insert sym deps)
  extract_expr arena walk (function_call name start len) deps = elim (call_args arena start len) [
    | some ids ↦ walk_all walk ids (if is_symbol gst name then deps else insert name deps)
    | none ↦ panicked
  ]
  extract_expr arena walk (binary_op left op right) deps = walk left deps >>= walk right
  extract_expr arena walk (not_of inner) deps = walk inner deps
  extract_expr arena walk (field_access base sym hash) deps = walk base deps
  extract_expr arena walk (let_in sym value body) deps = walk value deps >>= walk body
  extract_expr arena walk (if_else condition then_expr else_expr) deps =
      (walk condition deps >>= walk then_expr) >>= walk else_expr

  unfoldable pub extract_deps : ℕ → Arena → ℕ → List ℕ → Outcome (List ℕ)
  extract_deps zero arena id deps = out_of_fuel
  extract_deps (suc fuel) arena id deps =
      node arena id (λ e. extract_expr arena (extract_deps fuel arena) e deps)

-- Rust's `||` on a test that may panic
abbrev pub or_else : Outcome Bool → Outcome Bool → Outcome Bool
or_else (ok true) n = ok true
or_else (ok false) n = n
or_else m n = m

-- The loop over the arguments, left at the first that is tainted
unfoldable pub any_tainted : (ℕ → Outcome Bool) → List ℕ → Outcome Bool
any_tainted test [] = ok false
any_tainted test (id ∷ ids) = or_else (test id) (any_tainted test ids)

-- The variables and functions that are tainted
pub record Taint : Type 0 where
  pub vars : ℕ → Bool
  pub functions : ℕ → Bool

module _ (taint : Taint) (gst : Option ℕ) where
  unfoldable pub tainted_expr : Arena → (ℕ → Outcome Bool) → Expr → Outcome Bool
  tainted_expr arena test (variable sym) = ok (taint.vars sym)
  tainted_expr arena test (literal v) = ok false
  tainted_expr arena test (binary_op left op right) = or_else (test left) (test right)
  tainted_expr arena test (function_call name start len) =
      if is_symbol gst name
      then ok false
      else if taint.functions name
      then ok true
      else window arena start len (any_tainted test)
  tainted_expr arena test (let_in sym value body) = or_else (test value) (test body)
  tainted_expr arena test (not_of inner) = test inner
  tainted_expr arena test (if_else condition then_expr else_expr) =
      or_else (test condition) (or_else (test then_expr) (test else_expr))
  tainted_expr arena test (field_access base sym hash) = test base

  unfoldable pub is_expr_tainted : ℕ → Arena → ℕ → Outcome Bool
  is_expr_tainted zero arena id = out_of_fuel
  is_expr_tainted (suc fuel) arena id =
      node arena id (tainted_expr arena (is_expr_tainted fuel arena))

-- The target of a call with one argument that is a variable
abbrev pub variable_target : Expr → List ℕ → List ℕ
variable_target (variable target) out = out ++ (target ∷ [])
variable_target e out = out

abbrev pub call_target : Arena → List ℕ → List ℕ → Outcome (List ℕ)
call_target arena (id ∷ []) out = node arena id (λ e. ok (variable_target e out))
call_target arena ids out = ok out

module _ (gst : ℕ) where
  unfoldable pub targets_expr :
      Arena → (ℕ → List ℕ → Outcome (List ℕ)) → Expr → List ℕ → Outcome (List ℕ)
  targets_expr arena walk (literal v) out = ok out
  targets_expr arena walk (variable sym) out = ok out
  targets_expr arena walk (binary_op left op right) out = walk left out >>= walk right
  targets_expr arena walk (function_call name start len) out =
      window arena start len
        (λ ids. (if name == gst then call_target arena ids out else ok out) >>= walk_all walk ids)
  targets_expr arena walk (let_in sym value body) out = walk value out >>= walk body
  targets_expr arena walk (not_of inner) out = walk inner out
  targets_expr arena walk (if_else condition then_expr else_expr) out =
      (walk condition out >>= walk then_expr) >>= walk else_expr
  targets_expr arena walk (field_access base sym hash) out = walk base out

  unfoldable pub collect_get_system_time_targets : ℕ → Arena → ℕ → List ℕ → Outcome (List ℕ)
  collect_get_system_time_targets zero arena id out = out_of_fuel
  collect_get_system_time_targets (suc fuel) arena id out =
      node arena id (λ e. targets_expr arena (collect_get_system_time_targets fuel arena) e out)

-- The trees that an action holds, in the order of evaluation
abbrev pub header_trees : List (Bytes × ExprTree) → List ExprTree
header_trees [] = []
header_trees ((name, tree) ∷ headers) = tree ∷ header_trees headers

abbrev pub with_tree : Option ExprTree → List ExprTree → List ExprTree
with_tree none trees = trees
with_tree (some tree) trees = tree ∷ trees

unfoldable pub action_exprs : Action → List ExprTree
action_exprs (eval tree) = tree ∷ []
action_exprs (assign target tree) = tree ∷ []
action_exprs (navigate_to url) = url ∷ []
action_exprs (call_network method alias payload path target format headers) =
    with_tree payload (with_tree path (header_trees headers))

-- Fuel for a tree: its nesting is no deeper than its arena is long.
abbrev pub depth_of : ExprTree → ℕ
depth_of tree = suc (length tree.arena.nodes)
