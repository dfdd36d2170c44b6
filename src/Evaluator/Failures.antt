-- ===== src/Evaluator/Failures.antt =====
-- An action that fails has changed nothing but the queue, the local bindings and the count; one that
-- succeeds leaves the index of the bindings in step; and every action ends.
use mizu_navigator.Prelude.{
  ℕ, ◌-◌, ◌<◌, ◌^◌, ◌≡◌, Bool, true, false, Option, none, some, arith, if◌then◌else◌, Bytes,
}
use mizu_navigator.Value.{Value, Outcome, ok, err, panicked, out_of_fuel, execution_error}
use mizu_navigator.Evaluator.{Evaluator, set_global}
use mizu_navigator.Evaluator.Syntax.{ExprTree, Program}
use mizu_navigator.Evaluator.Monad.{after, ◌>>=◌, ◌>>◌, return, raise}
use mizu_navigator.Evaluator.Actions.{
  Action, eval, assign, navigate_to, call_network, enough, run_tree, computed_target, set_runtime,
  perform, execute_action,
}
use mizu_navigator.Evaluator.Locals.{IsIndexed}
use mizu_navigator.Evaluator.Frame.{
  Kept, IsReady, Post, Tame, bind-Tame, then-Tame, return-Tame, Kept-refl,
}
use mizu_navigator.Evaluator.Assignments.{run_tree-Tame, navigate-Tame, network-Tame}

-- The index of the local bindings in step, and the same budget
abbrev pub Steady : Evaluator → Evaluator → Type 0
Steady s t = IsIndexed t × (t.max_instructions ≡ s.max_instructions)

abbrev pub KeptOnError : {A : Type 0} → Evaluator → Outcome A × Evaluator → Type 0
KeptOnError s (ok a, t) = Steady s t
KeptOnError s (err e, t) = Kept s t
KeptOnError s (panicked, t) = Unit
KeptOnError s (out_of_fuel, t) = ⊥

pub Post-KeptOnError :
    {A : Type 0} (s : Evaluator) (x : Outcome A × Evaluator) → Post enough s x → KeptOnError s x
Post-KeptOnError s (ok a, t) p = (p.kept.indexed, p.kept.budget)
Post-KeptOnError s (err e, t) p = p
Post-KeptOnError s (panicked, t) p = tt
Post-KeptOnError s (out_of_fuel, t) p = absurd (omega (arith, p))

module _ (ptr_eq : Value → Value → Bool) (program : Program) (symbol : Bytes → Option ℕ) where
  -- Storing a value does not fail.
  stored-KeptOnError :
      (name : ℕ) (s : Evaluator) (x : Outcome Value × Evaluator)
      → Post enough s x
      → KeptOnError s
          (after (λ v. set_runtime ptr_eq program symbol (some name) v >> return true) x)
  unfolding ◌>>◌ ◌>>=◌ return set_global
  stored-KeptOnError name s (ok v, t) p =
      (record { indexed = p.kept.indexed.indexed; paired = p.kept.indexed.paired }, p.kept.budget)
  stored-KeptOnError name s (err e, t) p = p
  stored-KeptOnError name s (panicked, t) p = tt
  stored-KeptOnError name s (out_of_fuel, t) p = absurd (omega (arith, p))

  guarded-KeptOnError :
      (c : Bool) (name : ℕ) (tree : ExprTree) (s : Evaluator)
      → IsReady s
      → KeptOnError s (
          (if c
              then raise execution_error
              else (run_tree ptr_eq program symbol tree
                  >>= (λ v. set_runtime ptr_eq program symbol (some name) v >> return true)))
            s)
  unfolding ◌>>=◌ raise
  guarded-KeptOnError true name tree s r = Kept-refl s r.indexed
  guarded-KeptOnError false name tree s r =
      stored-KeptOnError name s (run_tree ptr_eq program symbol tree s)
        ((run_tree-Tame ptr_eq program symbol tree).on s r)

  assign-KeptOnError :
      (o : Option ℕ) (tree : ExprTree) (s : Evaluator)
      → IsReady s
      → KeptOnError s (
          (computed_target ptr_eq program symbol o >>= (λ c.
              if c
              then raise execution_error
              else (run_tree ptr_eq program symbol tree
                  >>= (λ v. set_runtime ptr_eq program symbol o v >> return true))))
            s)
  unfolding ◌>>=◌ return
  assign-KeptOnError none tree s r = Post-KeptOnError s _ (
      (bind-Tame (run_tree-Tame ptr_eq program symbol tree)
          (λ v. then-Tame nothing (return-Tame true))).on
        s r)
    where
      nothing : Tame enough (return tt)
      nothing = return-Tame tt
  assign-KeptOnError (some name) tree s r =
      guarded-KeptOnError (s.computed_var_syms name) name tree s r

  perform-KeptOnError :
      (action : Action) (s : Evaluator)
      → IsReady s
      → KeptOnError s (perform ptr_eq program symbol action s)
  unfolding perform
  perform-KeptOnError (eval tree) s r =
      Post-KeptOnError s _
        ((then-Tame (run_tree-Tame ptr_eq program symbol tree) (return-Tame false)).on s r)
  perform-KeptOnError (assign target tree) s r = assign-KeptOnError (symbol target) tree s r
  perform-KeptOnError (navigate_to tree) s r =
      Post-KeptOnError s _ ((navigate-Tame ptr_eq program symbol tree).on s r)
  perform-KeptOnError (call_network m n payload path target f headers) s r =
      Post-KeptOnError s _
        ((network-Tame ptr_eq program symbol m n payload path target f headers).on s r)

  pub execute_action-KeptOnError :
      (action : Action) (s : Evaluator)
      → IsIndexed s
      → s.max_instructions < 2 ^ 64 - 1
      → KeptOnError
          (record s { instruction_count = 0 })
          (execute_action ptr_eq program symbol action s)
  unfolding execute_action
  execute_action-KeptOnError action s i b =
      perform-KeptOnError action (record s { instruction_count = 0 })
        (record {
          indexed = record { indexed = i.indexed; paired = i.paired };
          within = omega arith;
          bounded = b;
        })
