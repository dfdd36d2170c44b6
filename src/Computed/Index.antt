-- ===== src/Computed/Index.antt =====
-- The reverse index lists, for a symbol, the positions of the bindings that depend on it.
use mizu_navigator.Prelude.{
  ℕ, zero, suc, ◌+◌, ◌<◌, ◌≡◌, refl, ◌∙◌, arith, Bool, false, ◌&&◌, ◌||◌, none, some, List, [], ◌∷◌,
  ◌++◌, get_elem?, ◌==◌, Bool-cases, inl, inr, ==_iff, ==_refl, ==_ne, contains, contains-append,
}
use mizu_navigator.Evaluator.{with_entry}
use mizu_navigator.Computed.{
  ComputedBinding, ReverseIndex, index_binding, index_from, build_comp_reverse_index,
}

entry_contains :
    (i dep name j : ℕ) (index : ReverseIndex)
    → contains j (with_entry index dep (index dep ++ (i ∷ [])) name)
      ≡ (contains j (index name) || (j == i && name == dep))
entry_contains i dep name j index = elim (Bool-cases (name == dep)) [
  | inl q ↦
      let p : name ≡ dep = (==_iff name dep).0 q in
      rw p (ground (arith, ==_refl dep, contains-append j (index dep) (i ∷ [])))
  | inr q ↦ ground (arith, q)
]

index_binding-contains :
    (i : ℕ) (deps : List ℕ) (index : ReverseIndex) (name j : ℕ)
    → contains j (index_binding i deps index name)
      ≡ (contains j (index name) || (j == i && contains name deps))
unfolding index_binding
index_binding-contains i [] index name j = ground arith
index_binding-contains i (dep ∷ deps) index name j = ground (
  arith,
  index_binding-contains i deps (with_entry index dep (index dep ++ (i ∷ []))) name j,
  entry_contains i dep name j index,
)

-- Whether the binding at a position of a list that starts at `i` reads a symbol
reads_at : ℕ → List ComputedBinding → ℕ → ℕ → Bool
reads_at i [] name j = false
reads_at i (cb ∷ bindings) name j =
    (j == i && contains name cb.depends_on) || reads_at (suc i) bindings name j

index_from-contains :
    (i : ℕ) (bindings : List ComputedBinding) (index : ReverseIndex) (name j : ℕ)
    → contains j (index_from i bindings index name)
      ≡ (contains j (index name) || reads_at i bindings name j)
unfolding index_from reads_at
index_from-contains i [] index name j = ground arith
index_from-contains i (cb ∷ bindings) index name j = ground (
  arith,
  index_from-contains (suc i) bindings (index_binding i cb.depends_on index) name j,
  index_binding-contains i cb.depends_on index name j,
)

abbrev pub depends_at : List ComputedBinding → ℕ → ℕ → Bool
depends_at bindings name j = elim (get_elem? bindings j) [
  | none ↦ false
  | some cb ↦ contains name cb.depends_on
]

reads_at_before :
    (i j : ℕ) (bindings : List ComputedBinding) (name : ℕ)
    → j < i
    → reads_at i bindings name j ≡ false
unfolding reads_at
reads_at_before i j [] name h = refl
reads_at_before i j (cb ∷ bindings) name h = ground (arith, reads_at_before (suc i) j bindings name)

reads_at-depends_at :
    (i j : ℕ) (bindings : List ComputedBinding) (name : ℕ)
    → reads_at i bindings name (i + j) ≡ depends_at bindings name j
unfolding reads_at
reads_at-depends_at i j [] name = refl
reads_at-depends_at i zero (cb ∷ bindings) name =
    ground (arith, reads_at_before (suc i) (i + 0) bindings name)
reads_at-depends_at i (suc j) (cb ∷ bindings) name =
    let q : i + suc j ≡ suc i + j = omega arith in
    let d : (i + suc j == i) ≡ false = ==_ne (i + suc j) i (λ e. absurd (omega arith)) in
    rw d (rw q (reads_at-depends_at (suc i) j bindings name))

-- The reverse index of a list of bindings holds a position for a symbol exactly when the binding at
-- that position is there and depends on the symbol.
pub build_comp_reverse_index-contains :
    (bindings : List ComputedBinding) (name j : ℕ)
    → contains j (build_comp_reverse_index bindings name) ≡ depends_at bindings name j
unfolding build_comp_reverse_index
build_comp_reverse_index-contains bindings name j =
    let q : 0 + j ≡ j = omega arith in
    index_from-contains 0 bindings (λ _. []) name j
    ∙ rw q at (reads_at-depends_at 0 j bindings name)
