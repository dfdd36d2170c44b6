-- ===== src/Computed/Ends.antt =====
-- The recomputation ends, and leaves the index of the local bindings in step.
use mizu_navigator.Prelude.{
  ℕ, ◌-◌, ◌<◌, ◌^◌, ◌≡◌, refl, ◌∙◌, Bool, true, false, not, ◌&&◌, Option, List, [], ◌∷◌, Bool-cases,
  inl, inr, Bytes,
}
use mizu_navigator.Value.{Value, Outcome, ok, err, panicked, out_of_fuel}
use mizu_navigator.Evaluator.{Evaluator}
use mizu_navigator.Evaluator.Syntax.{Program}
use mizu_navigator.Evaluator.Locals.{IsIndexed}
use mizu_navigator.Evaluator.Failures.{Steady}
use mizu_navigator.Computed.{
  ComputedBinding, CascadeState, ReverseIndex, build_comp_reverse_index, fire, marked_changed,
  no_deps_pending, reads_changed, initial, naive_scan, recompute_computed_bindings,
  recompute_computed_bindings_naive_scan,
}
use mizu_navigator.Computed.Cascade.{FiresTo, fire-FiresTo}
use mizu_navigator.Computed.Ahead.{IsTopological}
use mizu_navigator.Computed.Rescan.{recompute_computed_bindings-naive_scan}

-- A result, or a panic
abbrev pub Finished : Evaluator → Outcome CascadeState → Type 0
Finished s (ok c) = Steady s c.evaluator
Finished s (err e) = ⊥
Finished s panicked = Unit
Finished s out_of_fuel = ⊥

Finished-trans :
    (s t : Evaluator) (o : Outcome CascadeState)
    → t.max_instructions ≡ s.max_instructions
    → Finished t o
    → Finished s o
Finished-trans s t (ok c) e (i, b) = (i, b ∙ e)
Finished-trans s t (err x) e f = f
Finished-trans s t panicked e f = tt
Finished-trans s t out_of_fuel e f = f

marked_evaluator :
    (cb : ComputedBinding) (r : Bool × CascadeState)
    → (marked_changed cb r).evaluator ≡ r.1.evaluator
marked_evaluator cb (true, c) = refl
marked_evaluator cb (false, c) = refl

module _ (ptr_eq : Value → Value → Bool) (program : Program) (symbol : Bytes → Option ℕ) where
  naive_scan-Finished :
      (bindings : List ComputedBinding) (c : CascadeState)
      → IsIndexed c.evaluator
      → c.evaluator.max_instructions < 2 ^ 64 - 1
      → Finished c.evaluator (naive_scan ptr_eq program symbol bindings c)
  unfolding naive_scan
  naive_scan-Finished [] c i b = (i, refl)
  naive_scan-Finished (cb ∷ bindings) c i b =
      elim (Bool-cases (not (no_deps_pending cb c.evaluator) && not (reads_changed cb c.changed))) [
        | inl e ↦ rw e (naive_scan-Finished bindings c i b)
        | inr e ↦ rw e (
            fired (naive_scan-Finished bindings) (fire ptr_eq program symbol cb c)
              (fire-FiresTo ptr_eq program symbol cb c i b))
      ]
    where
      fired :
          ((d : CascadeState)
            → IsIndexed d.evaluator
            → d.evaluator.max_instructions < 2 ^ 64 - 1
            → Finished d.evaluator (naive_scan ptr_eq program symbol bindings d))
          → (o : Outcome (Bool × CascadeState)) → FiresTo cb c o
          → Finished c.evaluator (elim o as (λ _. Outcome CascadeState) [
            | ok r ↦ naive_scan ptr_eq program symbol bindings (marked_changed cb r)
            | err e ↦ err e
            | panicked ↦ panicked
            | out_of_fuel ↦ out_of_fuel
          ])
      fired next (ok r) f =
          let same = marked_evaluator cb r in
          let d = marked_changed cb r in
          let m : d.evaluator.max_instructions ≡ c.evaluator.max_instructions = rw same f.budget in
          Finished-trans c.evaluator d.evaluator _ m (next d (rw same f.indexed) (rw m b))
      fired next (err e) f = f
      fired next panicked f = tt
      fired next out_of_fuel f = f

  pub recompute-Finished :
      (bindings : List ComputedBinding) (index : ReverseIndex) (mutated : List ℕ) (s : Evaluator)
      → IsTopological bindings
      → index ≡ build_comp_reverse_index bindings
      → IsIndexed s
      → s.max_instructions < 2 ^ 64 - 1
      → Finished s (recompute_computed_bindings ptr_eq program symbol bindings index mutated s)
  unfolding recompute_computed_bindings_naive_scan
  recompute-Finished bindings index mutated s t e i b = rw e (
      rw (recompute_computed_bindings-naive_scan ptr_eq program symbol bindings mutated s t i b)
        (naive_scan-Finished bindings (initial mutated s) i b))
