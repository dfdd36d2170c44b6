-- ===== src/Session/Loaded.antt =====
-- What the steps of an event keep of a session: that it can take the next one.
use mizu_navigator.Prelude.{
  ℕ, ◌-◌, ◌<◌, ◌^◌, ◌≡◌, refl, ◌∙◌, arith, not, Bool, true, Option, none, some, List, [], ◌∷◌,
  if◌then◌else◌, Bytes,
}
use mizu_navigator.Value.{Value, Outcome, ok, err, panicked, out_of_fuel}
use mizu_navigator.Value.Equality.{budget_eq}
use mizu_navigator.Value.Budget.{Decided, budget_eq-Decided}
use mizu_navigator.Evaluator.{Evaluator, set_global, get_global}
use mizu_navigator.Evaluator.Locals.{IsIndexed}
use mizu_navigator.Evaluator.Failures.{Steady}
use mizu_navigator.Computed.{build_comp_reverse_index}
use mizu_navigator.Computed.Ahead.{IsTopological}
use mizu_navigator.Session.{
  TabSession, set_known, set_each, differs, mutated, with_evaluator, eq_budget_per_variable,
}

pub set_known-queue :
    (o : Option ℕ) (v : Value) (s : Evaluator)
    → (set_known o v s).accumulated_actions ≡ s.accumulated_actions
unfolding set_global
set_known-queue none v s = refl
set_known-queue (some name) v s = refl

pub set_each-queue :
    (symbol : Bytes → Option ℕ) (fields : List (Bytes × Value)) (s : Evaluator)
    → (set_each symbol fields s).accumulated_actions ≡ s.accumulated_actions
unfolding set_each
set_each-queue symbol [] s = refl
set_each-queue symbol ((name, v) ∷ fields) s =
    set_each-queue symbol fields (set_known (symbol name) v s) ∙ set_known-queue (symbol name) v s

pub set_global-Steady :
    (s t : Evaluator) (name : ℕ) (v : Value) → Steady s t → Steady s (set_global name v t)
unfolding set_global
set_global-Steady s t name v (i, b) = (record { indexed = i.indexed; paired = i.paired }, b)

pub set_each-Steady :
    (symbol : Bytes → Option ℕ) (fields : List (Bytes × Value)) (s t : Evaluator)
    → Steady s t
    → Steady s (set_each symbol fields t)
unfolding set_each
set_each-Steady symbol [] s t h = h
set_each-Steady symbol ((name, v) ∷ fields) s t h =
    set_each-Steady symbol fields s (set_known (symbol name) v t) (known (symbol name) h)
  where
    known : (o : Option ℕ) → Steady s t → Steady s (set_known o v t)
    known none k = k
    known (some k) (i, b) = set_global-Steady s t k v (i, b)

-- What every document comes with and every event keeps: the index of the local bindings in step, a
-- budget that a count does not wrap at, and the computed variables in order, with their index
pub record IsLoaded (session : TabSession) : Type 0 where
  pub indexed : IsIndexed session.evaluator
  pub budget : session.evaluator.max_instructions < 2 ^ 64 - 1
  pub ordered : IsTopological session.computed_vars
  pub reverse : session.computed_reverse_index ≡ build_comp_reverse_index session.computed_vars

pub with_evaluator-IsLoaded :
    (session : TabSession) (t : Evaluator)
    → IsLoaded session
    → Steady session.evaluator t
    → IsLoaded (with_evaluator t session)
with_evaluator-IsLoaded session t l (i, b) = record {
  indexed = i;
  budget = omega (arith, b, l.budget);
  ordered = l.ordered;
  reverse = l.reverse;
}

-- A list of variables is found.
abbrev pub Listed : Outcome (List (ℕ × Value)) → Type 0
Listed (ok variables) = Unit
Listed (err e) = ⊥
Listed panicked = ⊥
Listed out_of_fuel = ⊥

module _ (ptr_eq : Value → Value → Bool) where
  pub mutated-Listed :
      (s : Evaluator) (originals : List (ℕ × Value)) → Listed (mutated ptr_eq s originals)
  unfolding mutated
  mutated-Listed s [] = tt
  mutated-Listed s ((name, old) ∷ originals) =
      compared (budget_eq ptr_eq old (get_global name s) 0 eq_budget_per_variable).0
        (budget_eq-Decided ptr_eq eq_budget_per_variable (omega arith) old (get_global name s))
        (mutated ptr_eq s originals) (mutated-Listed s originals)
    where
      added :
          (changed : Bool) (o : Outcome (List (ℕ × Value)))
          → Listed o
          → Listed (elim o as (λ _. Outcome (List (ℕ × Value))) [
            | ok rest ↦ ok (if changed then (name, get_global name s) ∷ rest else rest)
            | err e ↦ err e
            | panicked ↦ panicked
            | out_of_fuel ↦ out_of_fuel
          ])
      added changed (ok rest) l = tt
      added changed (err e) l = l
      added changed panicked l = l
      added changed out_of_fuel l = l

      compared :
          (x : Outcome Bool)
          → Decided x
          → (o : Outcome (List (ℕ × Value))) → Listed o
          → Listed (elim (differs x) as (λ _. Outcome (List (ℕ × Value))) [
            | ok changed ↦ elim o as (λ _. Outcome (List (ℕ × Value))) [
              | ok rest ↦ ok (if changed then (name, get_global name s) ∷ rest else rest)
              | err e ↦ err e
              | panicked ↦ panicked
              | out_of_fuel ↦ out_of_fuel
            ]
            | err e ↦ err e
            | panicked ↦ panicked
            | out_of_fuel ↦ out_of_fuel
          ])
      compared (ok same) d o l = added (not same) o l
      compared (err e) d o l = added true o l
      compared panicked d o l = absurd d
      compared out_of_fuel d o l = absurd d
