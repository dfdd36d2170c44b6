-- ===== src/Evaluator/Assignments.antt =====
-- What an action may change of the globals.
use mizu_navigator.Prelude.{
  ℕ, ◌-◌, ◌<◌, ◌^◌, ◌≡◌, ◌==◌, refl, Bool, true, false, Option, none, some, List, [], ◌∷◌, arith,
  get_elem?, ap, Bool-cases, inl, inr, ==_iff, if◌then◌else◌, Bytes,
}
use mathlib.Core.Path.{subst}
use mizu_navigator.Value.{
  Value, string, decimal, execution_error, Outcome, ok, err, panicked, out_of_fuel,
}
use mizu_navigator.Evaluator.{Evaluator, set_global, navigate, network_call}
use mizu_navigator.Evaluator.Syntax.{ExprTree, Program}
use mizu_navigator.Evaluator.Monad.{after, ◌>>=◌, ◌>>◌, return, raise}
use mizu_navigator.Evaluator.Actions.{
  Action, eval, assign, navigate_to, call_network, path_param_ok, path_text, declared, enough,
  run_tree, run_payload, run_path, run_headers, computed_target, set_runtime, perform,
  execute_action,
}
use mizu_navigator.Evaluator.Locals.{IsIndexed}
use mizu_navigator.Evaluator.Frame.{
  IsReady, Post, Tame, bind-Tame, then-Tame, return-Tame, raise-Tame, panic-Tame, if-Tame,
  option-Tame,
}
use mizu_navigator.Evaluator.Frame.Effects.{queue-Tame}
use mizu_navigator.Evaluator.Frame.Calls.{string_or_fail-Tame}
use mizu_navigator.Evaluator.Frame.Evaluate.{evaluate-Tame}

path_text-Tame : (v : Value) → Tame enough (path_text v)
path_text-Tame (string s) = return-Tame _
path_text-Tame (decimal n) = return-Tame _
path_text-Tame v = raise-Tame _

declared-Tame : (o : Option ℕ) → Tame enough (declared o)
declared-Tame (some name) = return-Tame _
declared-Tame none = raise-Tame _

-- A symbol that may only be assigned where it is computed is not one that is not.
differs :
    (computed : ℕ → Bool) (name sym : ℕ)
    → (some sym ≡ some name → computed name ≡ true)
    → computed sym ≡ false
    → (name == sym) ≡ false
differs computed name sym h e = elim (Bool-cases (name == sym)) [
  | inr d ↦ d
  | inl d ↦
      let p : name ≡ sym = (==_iff name sym).0 d in
      absurd (clash (computed sym) e (subst (λ n. computed n ≡ true) p (h (ap some (sym_path p)))))
]
  where
    sym_path : {a b : ℕ} → a ≡ b → b ≡ a
    sym_path p = ap (λ n. n) (rw p refl)

    clash : (b : Bool) → b ≡ false → b ≡ true → ⊥
    clash true e f = ground (arith, e)
    clash false e f = ground (arith, f)

module _ (ptr_eq : Value → Value → Bool) (program : Program) (symbol : Bytes → Option ℕ) where
  pub run_tree-Tame : (tree : ExprTree) → Tame enough (run_tree ptr_eq program symbol tree)
  unfolding run_tree
  run_tree-Tame tree =
      option-Tame (get_elem? tree.arena.nodes tree.root) panic-Tame
        (λ e. evaluate-Tame ptr_eq program enough tree.arena 0 e)

  run_payload-Tame : (o : Option ExprTree) → Tame enough (run_payload ptr_eq program symbol o)
  unfolding run_payload
  run_payload-Tame none = return-Tame _
  run_payload-Tame (some tree) = bind-Tame (run_tree-Tame tree) (λ v. return-Tame _)

  run_path-Tame : (o : Option ExprTree) → Tame enough (run_path ptr_eq program symbol o)
  unfolding run_path
  run_path-Tame none = return-Tame _
  run_path-Tame (some tree) =
      bind-Tame (bind-Tame (run_tree-Tame tree) path_text-Tame)
        (λ s. if-Tame (path_param_ok s) (return-Tame _) (raise-Tame _))

  run_headers-Tame :
      (headers : List (Bytes × ExprTree)) → Tame enough (run_headers ptr_eq program symbol headers)
  unfolding run_headers
  run_headers-Tame [] = return-Tame _
  run_headers-Tame ((name, tree) ∷ headers) =
      bind-Tame (run_tree-Tame tree)
        (λ v. bind-Tame (run_headers-Tame headers) (λ vs. return-Tame _))

  -- Whether an action assigns to a symbol
  abbrev pub Assigns : Action → ℕ → Type 0
  Assigns (assign target tree) name = symbol target ≡ some name
  Assigns (eval tree) name = ⊥
  Assigns (navigate_to tree) name = ⊥
  Assigns (call_network m n p q t f h) name = ⊥

  abbrev Unchanged : {A : Type 0} → ℕ → Evaluator → Outcome A × Evaluator → Type 0
  Unchanged name s x = x.1.global_store name ≡ s.global_store name

  Post-Unchanged :
      {A : Type 0} (name : ℕ) (s : Evaluator) (x : Outcome A × Evaluator)
      → Post enough s x
      → Unchanged name s x
  Post-Unchanged name s (ok a, t) d = rw d.kept.globals refl
  Post-Unchanged name s (err e, t) k = rw k.globals refl
  Post-Unchanged name s (panicked, t) k = rw k.globals refl
  Post-Unchanged name s (out_of_fuel, t) h = absurd (omega (arith, h))

  assigned-Unchanged :
      (name sym : ℕ) (s : Evaluator) (x : Outcome Value × Evaluator)
      → (name == sym) ≡ false
      → Post enough s x
      → Unchanged name s
          (after (λ v. set_runtime ptr_eq program symbol (some sym) v >> return true) x)
  unfolding ◌>>◌ ◌>>=◌ return set_global
  assigned-Unchanged name sym s (ok v, t) e d = ground (arith, e, d.kept.globals)
  assigned-Unchanged name sym s (err e, t) h k = rw k.globals refl
  assigned-Unchanged name sym s (panicked, t) h k = rw k.globals refl
  assigned-Unchanged name sym s (out_of_fuel, t) e h = absurd (omega (arith, h))

  run_assign :
      (o : Option ℕ) (tree : ExprTree) (name : ℕ) (s : Evaluator)
      → IsReady s
      → (o ≡ some name → s.computed_var_syms name ≡ true)
      → Unchanged name s (
          (computed_target ptr_eq program symbol o >>= (λ c.
              if c
              then raise execution_error
              else (run_tree ptr_eq program symbol tree
                  >>= (λ v. set_runtime ptr_eq program symbol o v >> return true))))
            s)
  unfolding ◌>>=◌ return raise
  run_assign none tree name s r h =
      Post-Unchanged name s _
        ((bind-Tame (run_tree-Tame tree) (λ v. then-Tame nothing (return-Tame true))).on s r)
    where
      nothing : Tame enough (return tt)
      nothing = return-Tame tt
  run_assign (some sym) tree name s r h = branch (s.computed_var_syms sym) refl
    where
      branch :
          (c : Bool)
          → s.computed_var_syms sym ≡ c
          → Unchanged name s (
              (if c
                  then raise execution_error
                  else (run_tree ptr_eq program symbol tree
                      >>= (λ v. set_runtime ptr_eq program symbol (some sym) v >> return true)))
                s)
      branch true e = refl
      branch false e =
          assigned-Unchanged name sym s (run_tree ptr_eq program symbol tree s)
            (differs s.computed_var_syms name sym h e) ((run_tree-Tame tree).on s r)

  pub navigate-Tame :
      (tree : ExprTree) → Tame enough (perform ptr_eq program symbol (navigate_to tree))
  unfolding perform
  navigate-Tame tree =
      bind-Tame (bind-Tame (run_tree-Tame tree) (string_or_fail-Tame enough))
        (λ url. then-Tame (queue-Tame (navigate url)) (return-Tame true))

  pub network-Tame :
      (m n : ℕ) (payload path : Option ExprTree) (target : Bytes) (f : ℕ)
      (headers : List (Bytes × ExprTree))
      → Tame enough (perform ptr_eq program symbol (call_network m n payload path target f headers))
  unfolding perform
  network-Tame m n payload path target f headers = bind-Tame (run_payload-Tame payload) (λ body.
      bind-Tame (run_path-Tame path) (λ segment.
        bind-Tame (declared-Tame (symbol target)) (λ variable.
          bind-Tame (run_headers-Tame headers) (λ values.
            then-Tame (queue-Tame (network_call m n body segment variable f values))
              (return-Tame true)))))

  perform-Unchanged :
      (action : Action) (name : ℕ) (s : Evaluator)
      → IsReady s
      → (Assigns action name → s.computed_var_syms name ≡ true)
      → Unchanged name s (perform ptr_eq program symbol action s)
  unfolding perform
  perform-Unchanged (eval tree) name s r h =
      Post-Unchanged name s _ ((then-Tame (run_tree-Tame tree) (return-Tame false)).on s r)
  perform-Unchanged (assign target tree) name s r h = run_assign (symbol target) tree name s r h
  perform-Unchanged (navigate_to tree) name s r h =
      Post-Unchanged name s _ ((navigate-Tame tree).on s r)
  perform-Unchanged (call_network m n payload path target f headers) name s r h =
      Post-Unchanged name s _ ((network-Tame m n payload path target f headers).on s r)

-- Whatever an action does, and whether it fails or not, a global keeps its value unless the action
-- assigns to it and it is not a computed variable.
pub execute_action-globals :
    (ptr_eq : Value → Value → Bool) (program : Program) (symbol : Bytes → Option ℕ)
    (action : Action) (name : ℕ) (s : Evaluator)
    → IsIndexed s
    → s.max_instructions < 2 ^ 64 - 1
    → (Assigns ptr_eq program symbol action name → s.computed_var_syms name ≡ true)
    → (execute_action ptr_eq program symbol action s).1.global_store name ≡ s.global_store name
unfolding execute_action
execute_action-globals ptr_eq program symbol action name s i b h =
    perform-Unchanged ptr_eq program symbol action name (record s { instruction_count = 0 })
      record {
        indexed = record { indexed = i.indexed; paired = i.paired };
        within = omega arith;
        bounded = b;
      }
      h
