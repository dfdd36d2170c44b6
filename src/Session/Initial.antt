-- ===== src/Session/Initial.antt =====
-- The functions that run when a document is loaded.
use mizu_navigator.Prelude.{
  ℕ, ◌-◌, ◌<◌, ◌^◌, ◌≡◌, refl, ◌∙◌, arith, Bool, true, false, Option, List, [], ◌∷◌, is_empty,
  if◌then◌else◌, Bytes,
}
use mizu_navigator.Value.{Value, Outcome, ok, err, panicked, out_of_fuel}
use mizu_navigator.Evaluator.{Evaluator}
use mizu_navigator.Evaluator.Syntax.{Program, MizuFunction}
use mizu_navigator.Evaluator.Monad.{after, ◌>>=◌, return}
use mizu_navigator.Evaluator.Actions.{run_tree, enough}
use mizu_navigator.Evaluator.Locals.{IsIndexed}
use mizu_navigator.Evaluator.Frame.{Post}
use mizu_navigator.Evaluator.Assignments.{run_tree-Tame}
use mizu_navigator.Evaluator.Failures.{Steady}
use mizu_navigator.Session.{run_initial, run_functions, stored_result}
use mizu_navigator.Session.Loaded.{set_global-Steady}

-- What a run leaves that has no error
abbrev pub Ran : Evaluator → Outcome Bool × Evaluator → Type 0
Ran s (ok b, t) = Steady s t
Ran s (err e, t) = ⊥
Ran s (panicked, t) = Unit
Ran s (out_of_fuel, t) = ⊥

pub Ran-trans :
    (s t : Evaluator) (x : Outcome Bool × Evaluator)
    → t.max_instructions ≡ s.max_instructions
    → Ran t x
    → Ran s x
Ran-trans s t (ok c, u) e (i, b) = (i, b ∙ e)
Ran-trans s t (err x, u) e r = r
Ran-trans s t (panicked, u) e r = tt
Ran-trans s t (out_of_fuel, u) e r = r

pub Ran-count :
    (s : Evaluator) (x : Outcome Bool × Evaluator)
    → Ran (record s { instruction_count = 0 }) x
    → Ran s x
Ran-count s x r = Ran-trans s (record s { instruction_count = 0 }) x refl r

module _ (ptr_eq : Value → Value → Bool) where
  -- The functions of a document that is loaded
  pub stored_result-Steady :
      (s : Evaluator) (name : ℕ) (x : Outcome Value × Evaluator)
      → Post enough s x
      → Ran s (stored_result ptr_eq name x)
  stored_result-Steady s name (ok v, t) p =
      set_global-Steady s t name v (p.kept.indexed, p.kept.budget)
  stored_result-Steady s name (err e, t) p = (p.indexed, p.budget)
  stored_result-Steady s name (panicked, t) p = tt
  stored_result-Steady s name (out_of_fuel, t) p = absurd (omega (arith, p))

  pub run_initial-Ran :
      (program : Program) (symbol : Bytes → Option ℕ) (entry : ℕ × MizuFunction) (s : Evaluator)
      → IsIndexed s
      → s.max_instructions < 2 ^ 64 - 1
      → Ran s (run_initial ptr_eq program symbol entry s)
  unfolding run_initial
  run_initial-Ran program symbol (name, func) s i b = by_params (is_empty func.params)
    where
      by_params :
          (c : Bool)
          → Ran s (
              if c
              then stored_result ptr_eq name
                  (run_tree ptr_eq program symbol func.body (record s { instruction_count = 0 }))
              else (ok true, s))
      by_params true = Ran-count s _ (
          stored_result-Steady (record s { instruction_count = 0 }) name
            (run_tree ptr_eq program symbol func.body (record s { instruction_count = 0 }))
            ((run_tree-Tame ptr_eq program symbol func.body).on (record s { instruction_count = 0 })
              (record {
                indexed = record { indexed = i.indexed; paired = i.paired };
                within = omega arith;
                bounded = b;
              })))
      by_params false = (i, refl)

  pub run_functions-Ran :
      (program : Program) (symbol : Bytes → Option ℕ) (entries : List (ℕ × MizuFunction))
      (s : Evaluator)
      → IsIndexed s
      → s.max_instructions < 2 ^ 64 - 1
      → Ran s (run_functions ptr_eq program symbol entries s)
  unfolding run_functions ◌>>=◌ return
  run_functions-Ran program symbol [] s i b = (i, refl)
  run_functions-Ran program symbol (entry ∷ entries) s i b =
      following (run_functions-Ran program symbol entries)
        (run_initial ptr_eq program symbol entry s) (run_initial-Ran program symbol entry s i b)
    where
      following :
          ((t : Evaluator)
            → IsIndexed t
            → t.max_instructions < 2 ^ 64 - 1
            → Ran t (run_functions ptr_eq program symbol entries t))
          → (x : Outcome Bool × Evaluator) → Ran s x
          → Ran s (after (λ _. run_functions ptr_eq program symbol entries) x)
      following next (ok c, t) (j, e) =
          Ran-trans s t (run_functions ptr_eq program symbol entries t) e
            (next t j (omega (arith, e, b)))
      following next (err e, t) h = h
      following next (panicked, t) h = tt
      following next (out_of_fuel, t) h = h
