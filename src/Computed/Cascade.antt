-- ===== src/Computed/Cascade.antt =====
-- What the evaluation of one binding changes, and the search for the first candidate.
use mizu_navigator.Prelude.{
  ℕ, zero, suc, ◌+◌, ◌-◌, ◌<◌, ◌≤◌, ◌^◌, ◌≡◌, refl, sym, ap, ◌∙◌, arith, Bool, true, false, Option,
  none, some, ◌==◌, if◌then◌else◌, Bool-cases, inl, inr, Bytes, ==_iff,
}
use mathlib.Core.Path.{subst}
use mizu_navigator.Value.{Value, null, Outcome, ok, err, panicked, out_of_fuel}
use mizu_navigator.Evaluator.{Evaluator, get_global, set_global}
use mizu_navigator.Evaluator.Syntax.{Program}
use mizu_navigator.Evaluator.Actions.{run_tree, enough}
use mizu_navigator.Evaluator.Locals.{IsIndexed}
use mizu_navigator.Evaluator.Frame.{Kept, Post}
use mizu_navigator.Evaluator.Assignments.{run_tree-Tame}
use mizu_navigator.Computed.{
  ComputedBinding, CascadeState, pool_exhausted, with_count, banked, conclude, first_from, fire,
}

-- A binding that is evaluated changes no other variable, and not what has changed so far.
pub record Fires (cb : ComputedBinding) (c d : CascadeState) : Type 0 where
  pub changed : d.changed ≡ c.changed
  pub others :
      (k : ℕ) → (k == cb.name) ≡ false → get_global k d.evaluator ≡ get_global k c.evaluator
  pub indexed : IsIndexed d.evaluator
  pub budget : d.evaluator.max_instructions ≡ c.evaluator.max_instructions

abbrev pub FiresTo : ComputedBinding → CascadeState → Outcome (Bool × CascadeState) → Type 0
FiresTo cb c (ok r) = Fires cb c r.1
FiresTo cb c (err e) = ⊥
FiresTo cb c panicked = Unit
FiresTo cb c out_of_fuel = ⊥

stays-Fires : (cb : ComputedBinding) (c : CascadeState) → IsIndexed c.evaluator → Fires cb c c
stays-Fires cb c i = record { changed = refl; others = λ k h. refl; indexed = i; budget = refl }

banked-Fires :
    (b : Bool) (cb : ComputedBinding) (c : CascadeState) (s t : Evaluator)
    → s.global_store ≡ c.evaluator.global_store
    → s.max_instructions ≡ c.evaluator.max_instructions
    → Kept s t
    → Fires cb c (banked b t c)
unfolding get_global
banked-Fires true cb c s t g m k = record {
  changed = refl;
  others = λ j h. rw (k.globals ∙ g) refl;
  indexed = k.indexed;
  budget = k.budget ∙ m;
}
banked-Fires false cb c s t g m k = record {
  changed = refl;
  others = λ j h. rw (k.globals ∙ g) refl;
  indexed = k.indexed;
  budget = k.budget ∙ m;
}

banked_evaluator : (b : Bool) (t : Evaluator) (c : CascadeState) → (banked b t c).evaluator ≡ t
banked_evaluator true t c = refl
banked_evaluator false t c = refl

get_global-set_global :
    (k name : ℕ) (v : Value) (t : Evaluator)
    → (k == name) ≡ false
    → get_global k (set_global name v t) ≡ get_global k t
unfolding set_global get_global
get_global-set_global k name v t h =
    ap
      (λ (b : Bool). elim (if b then some v else t.global_store k) as (λ _. Value) [
        | some w ↦ w
        | none ↦ null
      ])
      h

set-Fires :
    (cb : ComputedBinding) (c d : CascadeState) (v : Value) (t : Evaluator)
    → d.evaluator ≡ t
    → Fires cb c d
    → Fires cb c (record d { evaluator = set_global cb.name v t })
unfolding set_global
set-Fires cb c d v t e f =
    let i = subst (λ s. IsIndexed s) e f.indexed in
    record {
      changed = f.changed;
      others = λ k h.
          get_global-set_global k cb.name v t h
          ∙ ap (λ (s : Evaluator). get_global k s) (sym e)
          ∙ f.others k h;
      indexed = record { indexed = i.indexed; paired = i.paired };
      budget = ap (λ (s : Evaluator). s.max_instructions) (sym e) ∙ f.budget;
    }

within_pool :
    (cb : ComputedBinding) (c : CascadeState) (budget : ℕ)
    → pool_exhausted cb.tainted c.spent_tainted c.spent_untainted budget ≡ false
    → (if cb.tainted then c.spent_tainted else c.spent_untainted) ≤ budget
unfolding pool_exhausted
within_pool cb c budget h = ground arith

module _ (ptr_eq : Value → Value → Bool) (program : Program) (symbol : Bytes → Option ℕ)
    (cb : ComputedBinding) (c : CascadeState) (i : IsIndexed c.evaluator)
    (b : c.evaluator.max_instructions < 2 ^ 64 - 1) where
  conclude-FiresTo :
      (x : Outcome Value × Evaluator)
      → Post enough (with_count cb c) x
      → FiresTo cb c (conclude cb c x)
  conclude-FiresTo (ok v, t) p =
      set-Fires cb c (banked cb.tainted t c) v t (banked_evaluator cb.tainted t c)
        (banked-Fires cb.tainted cb c (with_count cb c) t refl refl p.kept)
  conclude-FiresTo (err e, t) p = banked-Fires cb.tainted cb c (with_count cb c) t refl refl p
  conclude-FiresTo (panicked, t) p = tt
  conclude-FiresTo (out_of_fuel, t) p = absurd (omega (arith, p))

  pub fire-FiresTo : FiresTo cb c (fire ptr_eq program symbol cb c)
  unfolding fire
  fire-FiresTo =
      elim (Bool-cases (
        pool_exhausted cb.tainted c.spent_tainted c.spent_untainted c.evaluator.max_instructions)) [
          | inl e ↦ rw e (stays-Fires cb c i)
          | inr e ↦ rw e (
              conclude-FiresTo (run_tree ptr_eq program symbol cb.expr (with_count cb c)) (
                (run_tree-Tame ptr_eq program symbol cb.expr).on (with_count cb c) (record {
                  indexed = record { indexed = i.indexed; paired = i.paired };
                  within = within_pool cb c c.evaluator.max_instructions e;
                  bounded = b;
                })))
        ]

pub first_from-none :
    (candidates : ℕ → Bool) (i steps : ℕ)
    → ((j : ℕ) → j < i + steps → candidates j ≡ false)
    → first_from candidates i steps ≡ none
unfolding first_from
first_from-none candidates i zero h = refl
first_from-none candidates i (suc steps) h =
    rw (h i (omega arith)) (first_from-none candidates (suc i) steps (λ j l. h j (omega arith)))

pub first_from-some :
    (candidates : ℕ → Bool) (i steps k : ℕ)
    → i ≤ k
    → k < i + steps
    → ((j : ℕ) → j < k → candidates j ≡ false)
    → candidates k ≡ true
    → first_from candidates i steps ≡ some k
unfolding first_from
first_from-some candidates i zero k l u h e = absurd (omega arith)
first_from-some candidates i (suc steps) k l u h e = elim (Bool-cases (i == k)) [
  | inl q ↦ let p : i ≡ k = (==_iff i k).0 q in rw (p, e) refl
  | inr q ↦
      let d : i < k = ground (arith, q) in
      rw (h i d) (first_from-some candidates (suc i) steps k (omega arith) (omega arith) h e)
]
