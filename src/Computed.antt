-- ===== src/Computed.antt =====
-- crates/core/src/parser/logic/comp.rs and `ComputedBinding` of parser/logic/ast/mod.rs: the
-- computed variables of a document, and their recomputation after a change. A `BTreeSet` of indices
-- is its membership test, searched in ascending order.
pub mod Index
pub mod Cascade
pub mod Ahead
pub mod Rescan
pub mod Ends
pub mod Sort
mod Tests
use mizu_navigator.Prelude.{
  ℕ, zero, suc, ◌+◌, Bool, true, false, not, ◌&&◌, ◌||◌, Option, none, some, List, [], ◌∷◌, ◌++◌,
  any, length, is_empty, get_elem?, ltb, ◌==◌, if◌then◌else◌, contains, insert, Bytes,
}
use mizu_navigator.Value.{Value, null, Outcome, ok, err, panicked, out_of_fuel}
use mizu_navigator.Evaluator.{Evaluator, get_global, set_global, with_entry}
use mizu_navigator.Evaluator.Syntax.{ExprTree, Program}
use mizu_navigator.Evaluator.Actions.{run_tree}

pub record ComputedBinding : Type 0 where
  pub name : ℕ
  pub expr : ExprTree
  pub depends_on : List ℕ
  pub tainted : Bool

unfoldable pub pool_exhausted : Bool → ℕ → ℕ → ℕ → Bool
pool_exhausted tainted spent_tainted spent_untainted budget =
    let spent = if tainted then spent_tainted else spent_untainted in ltb budget spent

-- `CompReverseIndex`
abbrev pub ReverseIndex : Type 0
ReverseIndex = ℕ → List ℕ

-- `index.entry(dep_sym).or_default().push(i)` for each dependency
unfoldable pub index_binding : ℕ → List ℕ → ReverseIndex → ReverseIndex
index_binding i [] index = index
index_binding i (dep ∷ deps) index =
    index_binding i deps (with_entry index dep (index dep ++ (i ∷ [])))

-- The loop, from a position on
unfoldable pub index_from : ℕ → List ComputedBinding → ReverseIndex → ReverseIndex
index_from i [] index = index
index_from i (cb ∷ bindings) index =
    index_from (suc i) bindings (index_binding i cb.depends_on index)

unfoldable pub build_comp_reverse_index : List ComputedBinding → ReverseIndex
build_comp_reverse_index bindings = index_from 0 bindings (λ _. [])

-- The variables of the cascade: what has changed, the two pools and the evaluator
pub record CascadeState : Type 0 where
  pub changed : List ℕ
  pub spent_tainted : ℕ
  pub spent_untainted : ℕ
  pub evaluator : Evaluator

abbrev pub is_null : Value → Bool
is_null null = true
is_null v = false

-- A binding with no dependencies that has not been evaluated yet
unfoldable pub no_deps_pending : ComputedBinding → Evaluator → Bool
no_deps_pending cb s = is_empty cb.depends_on && is_null (get_global cb.name s)

abbrev pub reads_changed : ComputedBinding → List ℕ → Bool
reads_changed cb changed = any (λ dep. contains dep changed) cb.depends_on

-- The count that the evaluator starts from, and the pool that it is banked in
abbrev pub with_count : ComputedBinding → CascadeState → Evaluator
with_count cb c = record c.evaluator {
  instruction_count = if cb.tainted then c.spent_tainted else c.spent_untainted;
}

abbrev pub banked : Bool → Evaluator → CascadeState → CascadeState
banked true t c = record c { evaluator = t; spent_tainted = t.instruction_count }
banked false t c = record c { evaluator = t; spent_untainted = t.instruction_count }

-- What a binding's evaluation does: whether its variable was set, and the state
abbrev pub conclude :
    ComputedBinding → CascadeState → Outcome Value × Evaluator → Outcome (Bool × CascadeState)
conclude cb c (ok v, t) =
    let d = banked cb.tainted t c in ok (true, record d { evaluator = set_global cb.name v t })
conclude cb c (err e, t) = ok (false, banked cb.tainted t c)
conclude cb c (panicked, t) = panicked
conclude cb c (out_of_fuel, t) = out_of_fuel

abbrev pub remove : (ℕ → Bool) → ℕ → ℕ → Bool
remove candidates i = with_entry candidates i false

abbrev pub extend : (ℕ → Bool) → List ℕ → ℕ → Bool
extend candidates is j = candidates j || contains j is

-- The first candidate from an index on, in a number of steps
unfoldable pub first_from : (ℕ → Bool) → ℕ → ℕ → Option ℕ
first_from candidates i zero = none
first_from candidates i (suc steps) =
    let rest = first_from candidates (suc i) steps in if candidates i then some i else rest

-- Whether the dependents of a binding that was set are still to be added
abbrev pub newly : Bool → ℕ → List ℕ → Bool
newly updated name changed = updated && not (contains name changed)

-- `changed.insert(cb.name)` where the variable was set
abbrev pub marked_changed : ComputedBinding → Bool × CascadeState → CascadeState
marked_changed cb (true, c) = record c { changed = insert cb.name c.changed }
marked_changed cb (false, c) = c

abbrev pub unlocked : ReverseIndex → ComputedBinding → Bool × CascadeState → (ℕ → Bool) → ℕ → Bool
unlocked index cb (updated, c) candidates =
    if newly updated cb.name c.changed then extend candidates (index cb.name) else candidates

-- The candidates at the start: what reads a mutated symbol, and what has not been evaluated yet
unfoldable pub seed_mutated : ReverseIndex → List ℕ → (ℕ → Bool) → ℕ → Bool
seed_mutated index [] candidates = candidates
seed_mutated index (sym ∷ mutated) candidates =
    seed_mutated index mutated (extend candidates (index sym))

abbrev pub pending_at : List ComputedBinding → Evaluator → ℕ → Bool
pending_at bindings s i = elim (get_elem? bindings i) [
  | none ↦ false
  | some cb ↦ no_deps_pending cb s
]

abbrev pub seeds : List ComputedBinding → ReverseIndex → List ℕ → Evaluator → ℕ → Bool
seeds bindings index mutated s i =
    seed_mutated index mutated (λ _. false) i || pending_at bindings s i

abbrev pub initial : List ℕ → Evaluator → CascadeState
initial mutated s = record {
  changed = mutated;
  spent_tainted = 0;
  spent_untainted = 0;
  evaluator = s;
}

module _ (ptr_eq : Value → Value → Bool) (program : Program) (symbol : Bytes → Option ℕ) where
  -- The body of the loop once a binding is to be evaluated; an exhausted pool leaves it alone.
  unfoldable pub fire : ComputedBinding → CascadeState → Outcome (Bool × CascadeState)
  fire cb c =
      if pool_exhausted cb.tainted c.spent_tainted c.spent_untainted c.evaluator.max_instructions
      then ok (false, c)
      else conclude cb c (run_tree ptr_eq program symbol cb.expr (with_count cb c))

  -- One turn: the candidate is gone, and its dependents are there when it is newly changed.
  abbrev pub turn :
      (ReverseIndex → (ℕ → Bool) → CascadeState → Outcome CascadeState)
      → ReverseIndex
      → ComputedBinding
      → (ℕ → Bool)
      → CascadeState
      → Outcome CascadeState
  turn next index cb candidates c =
      if not (is_empty cb.depends_on) && not (reads_changed cb c.changed)
      then next index candidates c
      else elim (fire cb c) [
        | ok r ↦ next index (unlocked index cb r candidates) (marked_changed cb r)
        | err e ↦ err e
        | panicked ↦ panicked
        | out_of_fuel ↦ out_of_fuel
      ]

  -- `while let Some(i) = candidates.pop_first()`, on a number of turns
  unfoldable pub cascade :
      List ComputedBinding → ℕ → ReverseIndex → (ℕ → Bool) → CascadeState → Outcome CascadeState
  cascade bindings zero index candidates c = elim (first_from candidates 0 (length bindings)) [
    | none ↦ ok c
    | some i ↦ out_of_fuel
  ]
  cascade bindings (suc fuel) index candidates c =
      elim (first_from candidates 0 (length bindings)) [
        | none ↦ ok c
        | some i ↦ elim (get_elem? bindings i) [
          | none ↦ panicked
          | some cb ↦ turn (cascade bindings fuel) index cb (remove candidates i) c
        ]
      ]

  unfoldable pub recompute_computed_bindings :
      List ComputedBinding → ReverseIndex → List ℕ → Evaluator → Outcome CascadeState
  recompute_computed_bindings bindings index mutated s =
      cascade bindings (length bindings) index (seeds bindings index mutated s) (initial mutated s)

  -- The reference: one scan of all bindings
  unfoldable pub naive_scan : List ComputedBinding → CascadeState → Outcome CascadeState
  naive_scan [] c = ok c
  naive_scan (cb ∷ bindings) c =
      if not (no_deps_pending cb c.evaluator) && not (reads_changed cb c.changed)
      then naive_scan bindings c
      else elim (fire cb c) [
        | ok r ↦ naive_scan bindings (marked_changed cb r)
        | err e ↦ err e
        | panicked ↦ panicked
        | out_of_fuel ↦ out_of_fuel
      ]

  unfoldable pub recompute_computed_bindings_naive_scan :
      List ComputedBinding → List ℕ → Evaluator → Outcome CascadeState
  recompute_computed_bindings_naive_scan bindings mutated s =
      naive_scan bindings (initial mutated s)
