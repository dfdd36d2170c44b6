-- ===== src/Computed/Rescan.antt =====
-- The cascade through the reverse index does what a scan of all bindings does.
use mizu_navigator.Prelude.{
  ℕ, zero, suc, ◌+◌, ◌-◌, ◌<◌, ◌≤◌, ◌^◌, ◌≡◌, refl, sym, ap, ◌∙◌, arith, Bool, true, false, not,
  ◌&&◌, ◌||◌, Option, none, some, List, [], ◌∷◌, any, length, is_empty, get_elem?, if◌then◌else◌,
  Bool-cases, inl, inr, contains, any_swap, Bytes,
}
use mizu_navigator.Value.{Value, Outcome, ok, err, panicked, out_of_fuel}
use mizu_navigator.Evaluator.{Evaluator, get_global}
use mizu_navigator.Evaluator.Syntax.{Program}
use mizu_navigator.Evaluator.Locals.{IsIndexed}
use mizu_navigator.Computed.{
  ComputedBinding, CascadeState, ReverseIndex, build_comp_reverse_index, no_deps_pending, is_null,
  reads_changed, remove, extend, first_from, fire, marked_changed, unlocked, turn, cascade,
  seed_mutated, pending_at, seeds, initial, recompute_computed_bindings, naive_scan,
  recompute_computed_bindings_naive_scan,
}
use mizu_navigator.Computed.Index.{depends_at, build_comp_reverse_index-contains}
use mizu_navigator.Computed.Cascade.{Fires, FiresTo, fire-FiresTo, first_from-none, first_from-some}
use mizu_navigator.Computed.Ahead.{IsTopological, wants, IsAhead, turned-IsAhead, passed-IsAhead}

module _ (all : List ComputedBinding) (topological : IsTopological all) where
  module _ (ptr_eq : Value → Value → Bool) (program : Program) (symbol : Bytes → Option ℕ) where
    ended :
        (fuel : ℕ) (index : ReverseIndex) (candidates : ℕ → Bool) (c : CascadeState)
        → first_from candidates 0 (length all) ≡ none
        → cascade ptr_eq program symbol all fuel index candidates c ≡ ok c
    unfolding cascade
    ended zero index candidates c e =
        ap
          (λ (o : Option ℕ). elim o as (λ _. Outcome CascadeState) [
            | none ↦ ok c
            | some i ↦ out_of_fuel
          ])
          e
    ended (suc fuel) index candidates c e =
        ap
          (λ (o : Option ℕ). elim o as (λ _. Outcome CascadeState) [
            | none ↦ ok c
            | some i ↦ elim (get_elem? all i) [
              | none ↦ panicked
              | some cb ↦
                  turn ptr_eq program symbol (cascade ptr_eq program symbol all fuel) index cb
                    (remove candidates i) c
            ]
          ])
          e

    turned :
        (fuel : ℕ) (index : ReverseIndex) (candidates : ℕ → Bool) (c : CascadeState) (i : ℕ)
        (cb : ComputedBinding)
        → first_from candidates 0 (length all) ≡ some i
        → get_elem? all i ≡ some cb
        → cascade ptr_eq program symbol all (suc fuel) index candidates c
          ≡ turn ptr_eq program symbol
              (cascade ptr_eq program symbol all fuel)
              index
              cb
              (remove candidates i)
              c
    unfolding cascade
    turned fuel index candidates c i cb e h =
        ap
          (λ (o : Option ℕ). elim o as (λ _. Outcome CascadeState) [
            | none ↦ ok c
            | some j ↦ elim (get_elem? all j) [
              | none ↦ panicked
              | some b ↦
                  turn ptr_eq program symbol (cascade ptr_eq program symbol all fuel) index b
                    (remove candidates j) c
            ]
          ])
          e
        ∙ ap
            (λ (o : Option ComputedBinding). elim o as (λ _. Outcome CascadeState) [
              | none ↦ panicked
              | some b ↦
                  turn ptr_eq program symbol (cascade ptr_eq program symbol all fuel) index b
                    (remove candidates i) c
            ])
            h

    abbrev going :
        Outcome (Bool × CascadeState)
        → (Bool × CascadeState → Outcome CascadeState)
        → Outcome CascadeState
    going x f = elim x [
      | ok r ↦ f r
      | err e ↦ err e
      | panicked ↦ panicked
      | out_of_fuel ↦ out_of_fuel
    ]

    turn_fires :
        (next : ReverseIndex → (ℕ → Bool) → CascadeState → Outcome CascadeState)
        (index : ReverseIndex) (cb : ComputedBinding) (candidates : ℕ → Bool) (c : CascadeState)
        → (no_deps_pending cb c.evaluator || reads_changed cb c.changed) ≡ true
        → turn ptr_eq program symbol next index cb candidates c
          ≡ going
              (fire ptr_eq program symbol cb c)
              (λ r. next index (unlocked index cb r candidates) (marked_changed cb r))
    unfolding no_deps_pending
    turn_fires next index cb candidates c h =
        ap
          (λ (b : Bool).
            if b
            then next index candidates c
            else going (fire ptr_eq program symbol cb c)
                (λ r. next index (unlocked index cb r candidates) (marked_changed cb r)))
          (kept (is_empty cb.depends_on) (is_null (get_global cb.name c.evaluator))
            (reads_changed cb c.changed) h)
      where
        kept : (a b q : Bool) → ((a && b) || q) ≡ true → (not a && not q) ≡ false
        kept a b q e = ground arith

    naive_fires :
        (cb : ComputedBinding) (rest : List ComputedBinding) (c : CascadeState)
        → (no_deps_pending cb c.evaluator || reads_changed cb c.changed) ≡ true
        → naive_scan ptr_eq program symbol (cb ∷ rest) c
          ≡ going
              (fire ptr_eq program symbol cb c)
              (λ r. naive_scan ptr_eq program symbol rest (marked_changed cb r))
    unfolding naive_scan
    naive_fires cb rest c h =
        ap
          (λ (b : Bool).
            if b
            then naive_scan ptr_eq program symbol rest c
            else going (fire ptr_eq program symbol cb c)
                (λ r. naive_scan ptr_eq program symbol rest (marked_changed cb r)))
          (kept (no_deps_pending cb c.evaluator) (reads_changed cb c.changed) h)
      where
        kept : (a q : Bool) → (a || q) ≡ true → (not a && not q) ≡ false
        kept a q e = ground arith

    naive_skips :
        (cb : ComputedBinding) (rest : List ComputedBinding) (c : CascadeState)
        → (no_deps_pending cb c.evaluator || reads_changed cb c.changed) ≡ false
        → naive_scan ptr_eq program symbol (cb ∷ rest) c ≡ naive_scan ptr_eq program symbol rest c
    unfolding naive_scan
    naive_skips cb rest c h =
        ap
          (λ (b : Bool).
            if b
            then naive_scan ptr_eq program symbol rest c
            else going (fire ptr_eq program symbol cb c)
                (λ r. naive_scan ptr_eq program symbol rest (marked_changed cb r)))
          (kept (no_deps_pending cb c.evaluator) (reads_changed cb c.changed) h)
      where
        kept : (a q : Bool) → (a || q) ≡ false → (not a && not q) ≡ true
        kept a q e = ground arith

    -- Where both evaluate the binding
    fired_same :
        (cb : ComputedBinding) (c : CascadeState) (x : Outcome (Bool × CascadeState))
        (f g : Bool × CascadeState → Outcome CascadeState)
        → FiresTo cb c x
        → ((r : Bool × CascadeState) → Fires cb c r.1 → f r ≡ g r)
        → elim x as (λ _. Outcome CascadeState) [
          | ok r ↦ f r
          | err e ↦ err e
          | panicked ↦ panicked
          | out_of_fuel ↦ out_of_fuel
        ]
          ≡ elim x as (λ _. Outcome CascadeState) [
            | ok r ↦ g r
            | err e ↦ err e
            | panicked ↦ panicked
            | out_of_fuel ↦ out_of_fuel
          ]
    fired_same cb c (ok r) f g h k = k r h
    fired_same cb c (err e) f g h k = refl
    fired_same cb c panicked f g h k = refl
    fired_same cb c out_of_fuel f g h k = refl

    -- The bindings from a position on
    record IsRest (i : ℕ) (rest : List ComputedBinding) : Type 0 where
      at : (j : ℕ) → get_elem? all (i + j) ≡ get_elem? rest j
      size : length all ≡ i + length rest

    IsRest-next :
        (i : ℕ) (cb : ComputedBinding) (rest : List ComputedBinding)
        → IsRest i (cb ∷ rest)
        → IsRest (suc i) rest
    IsRest-next i cb rest r = record {
      at = λ j. let q : suc i + j ≡ i + suc j = omega arith in rw q (r.at (suc j));
      size = omega (arith, r.size);
    }

    IsRest-here :
        (i : ℕ) (cb : ComputedBinding) (rest : List ComputedBinding)
        → IsRest i (cb ∷ rest)
        → get_elem? all i ≡ some cb
    IsRest-here i cb rest r = let q : i + 0 ≡ i = omega arith in rw q at (r.at 0)

    record IsSound (c : CascadeState) : Type 0 where
      indexed : IsIndexed c.evaluator
      bounded : c.evaluator.max_instructions < 2 ^ 64 - 1

    fired-IsSound :
        (cb : ComputedBinding) (c : CascadeState) (r : Bool × CascadeState)
        → IsSound c
        → Fires cb c r.1
        → IsSound (marked_changed cb r)
    fired-IsSound cb c (true, d) s f = record {
      indexed = f.indexed;
      bounded = rw f.budget s.bounded;
    }
    fired-IsSound cb c (false, d) s f = record {
      indexed = f.indexed;
      bounded = rw f.budget s.bounded;
    }

    cascade-naive_scan :
        (rest : List ComputedBinding) (i fuel : ℕ) (candidates : ℕ → Bool) (c : CascadeState)
        → IsRest i rest
        → length rest ≤ fuel
        → IsAhead all topological i candidates c
        → IsSound c
        → cascade ptr_eq program symbol all fuel (build_comp_reverse_index all) candidates c
          ≡ naive_scan ptr_eq program symbol rest c
    cascade-naive_scan [] i fuel candidates c r l h s =
        unfold naive_scan in
        ended fuel (build_comp_reverse_index all) candidates c
          (first_from-none candidates 0 (length all) (λ j k. h.low j (omega (arith, r.size))))
    cascade-naive_scan (cb ∷ rest) i zero candidates c r l h s = absurd (omega arith)
    cascade-naive_scan (cb ∷ rest) i (suc fuel) candidates c r l h s =
        let here = IsRest-here i cb rest r in
        let w : candidates i ≡ wants c (some cb) = h.high i (omega arith) ∙ ap (wants c) here in
        elim (Bool-cases (candidates i)) [
          | inr e ↦
              cascade-naive_scan rest (suc i) (suc fuel) candidates c (IsRest-next i cb rest r)
                (omega (arith, l)) (passed-IsAhead all topological i candidates c h e) s
              ∙ sym (naive_skips cb rest c (sym w ∙ e))
          | inl e ↦
              turned fuel (build_comp_reverse_index all) candidates c i cb
                (first_from-some candidates 0 (length all) i (omega arith) (omega (arith, r.size))
                  h.low e)
                here
              ∙ turn_fires (cascade ptr_eq program symbol all fuel) (build_comp_reverse_index all)
                  cb (remove candidates i) c (sym w ∙ e)
              ∙ fired_same cb c (fire ptr_eq program symbol cb c) _ _
                  (fire-FiresTo ptr_eq program symbol cb c s.indexed s.bounded)
                  (λ x f.
                    cascade-naive_scan rest (suc i) fuel
                      (unlocked (build_comp_reverse_index all) cb x (remove candidates i))
                      (marked_changed cb x) (IsRest-next i cb rest r) (omega (arith, l))
                      (turned-IsAhead all topological i cb here c x.1 f candidates h x.0)
                      (fired-IsSound cb c x s f))
              ∙ sym (naive_fires cb rest c (sym w ∙ e))
        ]

seed_mutated_lem :
    (bindings : List ComputedBinding) (mutated : List ℕ) (candidates : ℕ → Bool) (j : ℕ)
    → seed_mutated (build_comp_reverse_index bindings) mutated candidates j
      ≡ (candidates j || any (λ m. depends_at bindings m j) mutated)
unfolding seed_mutated
seed_mutated_lem bindings [] candidates j = ground arith
seed_mutated_lem bindings (m ∷ mutated) candidates j = ground (
  arith,
  seed_mutated_lem bindings mutated (extend candidates (build_comp_reverse_index bindings m)) j,
  build_comp_reverse_index-contains bindings m j,
)

seeds-wants :
    (bindings : List ComputedBinding) (mutated : List ℕ) (s : Evaluator) (j : ℕ)
    → seeds bindings (build_comp_reverse_index bindings) mutated s j
      ≡ wants (initial mutated s) (get_elem? bindings j)
seeds-wants bindings mutated s j =
    ap (λ b. b || pending_at bindings s j) (seed_mutated_lem bindings mutated (λ _. false) j)
    ∙ by_binding (get_elem? bindings j)
  where
    none_wanted : (ms : List ℕ) → any (λ m. false) ms ≡ false
    none_wanted [] = refl
    none_wanted (m ∷ ms) = none_wanted ms

    or_comm : (a b : Bool) → (a || b) ≡ (b || a)
    or_comm a b = ground arith

    by_binding :
        (o : Option ComputedBinding)
        → (any
              (λ m. elim o as (λ _. Bool) [ none ↦ false | some cb ↦ contains m cb.depends_on ])
              mutated
            || elim o as (λ _. Bool) [ none ↦ false | some cb ↦ no_deps_pending cb s ])
          ≡ wants (initial mutated s) o
    by_binding none = rw (none_wanted mutated) refl
    by_binding (some cb) =
        or_comm (any (λ m. contains m cb.depends_on) mutated) (no_deps_pending cb s)
        ∙ ap (λ b. no_deps_pending cb s || b) (any_swap mutated cb.depends_on)

pub recompute_computed_bindings-naive_scan :
    (ptr_eq : Value → Value → Bool) (program : Program) (symbol : Bytes → Option ℕ)
    (bindings : List ComputedBinding) (mutated : List ℕ) (s : Evaluator)
    → IsTopological bindings
    → IsIndexed s
    → s.max_instructions < 2 ^ 64 - 1
    → recompute_computed_bindings ptr_eq program symbol bindings
        (build_comp_reverse_index bindings)
        mutated
        s
      ≡ recompute_computed_bindings_naive_scan ptr_eq program symbol bindings mutated s
unfolding recompute_computed_bindings recompute_computed_bindings_naive_scan
recompute_computed_bindings-naive_scan ptr_eq program symbol bindings mutated s t i b =
    cascade-naive_scan bindings t ptr_eq program symbol bindings 0 (length bindings)
      (seeds bindings (build_comp_reverse_index bindings) mutated s) (initial mutated s)
      (record { at = λ j. let q : 0 + j ≡ j = omega arith in rw q refl; size = omega arith })
      (omega arith)
      (record { low = λ j l. absurd (omega arith); high = λ j l. seeds-wants bindings mutated s j })
      (record { indexed = i; bounded = b })
