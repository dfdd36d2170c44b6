-- ===== src/Computed/Sort/Degrees.antt =====
-- The degrees and dependents that the sort starts from count the edges between bindings.
use mizu_navigator.Prelude.{
  ℕ, zero, suc, ◌+◌, ◌<◌, ◌≤◌, ◌≡◌, refl, sym, ap, ◌∙◌, arith, true, false, Option, none, some,
  List, [], ◌∷◌, ◌++◌, get_elem?, ◌==◌, if◌then◌else◌, ◌⊎◌, Bool-cases, inl, inr, contains, ==_iff,
  ==_refl, ==_ne,
}
use mizu_navigator.Computed.{ComputedBinding}
use mizu_navigator.Computed.Sort.{index_of, Edges, add_edge, edges_of, edges_from, all_edges}

unfoldable pub count : ℕ → List ℕ → ℕ
count a [] = 0
count a (x ∷ xs) = (if a == x then 1 else 0) + count a xs

count-append : (a : ℕ) (xs ys : List ℕ) → count a (xs ++ ys) ≡ count a xs + count a ys
unfolding count
count-append a [] ys = omega arith
count-append a (x ∷ xs) ys = omega (arith, count-append a xs ys)

module _ (index : ℕ → Option ℕ) where
  -- Whether a dependency is a binding that is not in the order yet
  abbrev pub is_open : List ℕ → Option ℕ → ℕ
  is_open order none = 0
  is_open order (some k) = if contains k order then 0 else 1

  unfoldable pub open_edges : List ℕ → List ℕ → ℕ
  open_edges order [] = 0
  open_edges order (dep ∷ deps) = is_open order (index dep) + open_edges order deps

  abbrev pub is_edge : ℕ → Option ℕ → ℕ
  is_edge i none = 0
  is_edge i (some k) = if k == i then 1 else 0

  unfoldable pub edges_to : ℕ → List ℕ → ℕ
  edges_to i [] = 0
  edges_to i (dep ∷ deps) = is_edge i (index dep) + edges_to i deps

  closes :
      (i : ℕ) (order : List ℕ) (o : Option ℕ)
      → contains i order ≡ false
      → is_open order o ≡ is_open (i ∷ order) o + is_edge i o
  closes i order none h = omega arith
  closes i order (some k) h = elim (Bool-cases (k == i)) [
    | inl e ↦ let p : k ≡ i = (==_iff k i).0 e in rw p (ground (arith, h, ==_refl i))
    | inr e ↦ ground (arith, e)
  ]

  -- An index that enters the order closes the edges to it.
  pub open_edges-cons :
      (i : ℕ) (order deps : List ℕ)
      → contains i order ≡ false
      → open_edges order deps ≡ open_edges (i ∷ order) deps + edges_to i deps
  unfolding open_edges edges_to
  open_edges-cons i order [] h = omega arith
  open_edges-cons i order (dep ∷ deps) h =
      omega (arith, closes i order (index dep) h, open_edges-cons i order deps h)

  opened :
      (order : List ℕ) (o : Option ℕ)
      → (is_open order o ≡ 0) ⊎ ((k : ℕ) × (o ≡ some k) × (contains k order ≡ false))
  opened order none = inl refl
  opened order (some k) = elim (Bool-cases (contains k order)) [
    | inl t ↦ inl (rw t refl)
    | inr f ↦ inr (k, refl, f)
  ]

  -- With no open edge, every binding that is depended on is in the order.
  pub open_edges-zero :
      (order deps : List ℕ) (dep k : ℕ)
      → open_edges order deps ≡ 0
      → contains dep deps ≡ true
      → index dep ≡ some k
      → contains k order ≡ true
  unfolding open_edges
  open_edges-zero order [] dep k h m e = absurd (cc)
  open_edges-zero order (d ∷ deps) dep k h m e = elim (Bool-cases (dep == d)) [
    | inl q ↦
        let p : index d ≡ some k = ap index (sym ((==_iff dep d).0 q)) ∙ e in
        elim (Bool-cases (contains k order)) [
          | inl t ↦ t
          | inr f ↦
              let z : is_open order (index d) ≡ 1 = ap (is_open order) p ∙ rw f refl in
              absurd (omega (arith, h, z))
        ]
    | inr q ↦ open_edges-zero order deps dep k (omega (arith, h)) (ground arith) e
  ]

  -- An open edge leads to a binding outside the order.
  pub open_edges-one :
      (order deps : List ℕ)
      → 1 ≤ open_edges order deps
      → (dep : ℕ) × (k : ℕ) × (contains dep deps ≡ true)
        × (index dep ≡ some k)
        × (contains k order ≡ false)
  unfolding open_edges
  open_edges-one order [] h = absurd (omega (arith, h))
  open_edges-one order (d ∷ deps) h = elim (opened order (index d)) [
    | inl z ↦
        let r = open_edges-one order deps (omega (arith, h, z)) in
        (r.0, r.1, ground (arith, r.2), r.3, r.4)
    | inr (k, e, f) ↦ (d, k, rw (==_refl d) refl, e, f)
  ]

  abbrev at_index : ℕ → ℕ → ℕ → ℕ
  at_index i j n = if j == i then n else 0

  abbrev first_degree : Option ℕ → ℕ
  first_degree o = is_open [] o

  add_edge-degree :
      (o : Option ℕ) (i j : ℕ) (edges : Edges)
      → (add_edge o i edges).in_degree j ≡ edges.in_degree j + at_index i j (first_degree o)
  unfolding add_edge
  add_edge-degree none i j edges = ground arith
  add_edge-degree (some k) i j edges = elim (Bool-cases (j == i)) [
    | inl e ↦ let p : j ≡ i = (==_iff j i).0 e in rw p (ground (arith, ==_refl i))
    | inr e ↦ ground (arith, e)
  ]

  add_edge-count :
      (o : Option ℕ) (i j k : ℕ) (edges : Edges)
      → count j ((add_edge o i edges).dependents k)
        ≡ count j (edges.dependents k) + at_index i j (is_edge k o)
  unfolding add_edge count
  add_edge-count none i j k edges = ground arith
  add_edge-count (some m) i j k edges = elim (Bool-cases (k == m)) [
    | inl e ↦
        let p : k ≡ m = (==_iff k m).0 e in
        rw p (ground (arith, ==_refl m, count-append j (edges.dependents m) (i ∷ [])))
    | inr e ↦
        let q : (m == k) ≡ false = ==_ne m k (λ r. cc (e, (==_iff k m).1 (sym r))) in
        ground (arith, e, q)
  ]

  edges_of-degree :
      (i j : ℕ) (deps : List ℕ) (edges : Edges)
      → (edges_of index i deps edges).in_degree j
        ≡ edges.in_degree j + at_index i j (open_edges [] deps)
  unfolding edges_of open_edges
  edges_of-degree i j [] edges = ground arith
  edges_of-degree i j (dep ∷ deps) edges = ground (
    arith,
    edges_of-degree i j deps (add_edge (index dep) i edges),
    add_edge-degree (index dep) i j edges,
  )

  edges_of-count :
      (i j k : ℕ) (deps : List ℕ) (edges : Edges)
      → count j ((edges_of index i deps edges).dependents k)
        ≡ count j (edges.dependents k) + at_index i j (edges_to k deps)
  unfolding edges_of edges_to
  edges_of-count i j k [] edges = ground arith
  edges_of-count i j k (dep ∷ deps) edges = ground (
    arith,
    edges_of-count i j k deps (add_edge (index dep) i edges),
    add_edge-count (index dep) i j k edges,
  )

  -- A number for the binding at a position of a list that starts at `i`
  sum_at : (List ℕ → ℕ) → ℕ → List ComputedBinding → ℕ → ℕ
  sum_at f i [] j = 0
  sum_at f i (cb ∷ bindings) j = at_index i j (f cb.depends_on) + sum_at f (suc i) bindings j

  edges_from-degree :
      (i j : ℕ) (bindings : List ComputedBinding) (edges : Edges)
      → (edges_from index i bindings edges).in_degree j
        ≡ edges.in_degree j + sum_at (open_edges []) i bindings j
  unfolding edges_from sum_at
  edges_from-degree i j [] edges = omega arith
  edges_from-degree i j (cb ∷ bindings) edges = omega (
    arith,
    edges_from-degree (suc i) j bindings (edges_of index i cb.depends_on edges),
    edges_of-degree i j cb.depends_on edges,
  )

  edges_from-count :
      (i j k : ℕ) (bindings : List ComputedBinding) (edges : Edges)
      → count j ((edges_from index i bindings edges).dependents k)
        ≡ count j (edges.dependents k) + sum_at (edges_to k) i bindings j
  unfolding edges_from sum_at
  edges_from-count i j k [] edges = omega arith
  edges_from-count i j k (cb ∷ bindings) edges = omega (
    arith,
    edges_from-count (suc i) j k bindings (edges_of index i cb.depends_on edges),
    edges_of-count i j k cb.depends_on edges,
  )

  abbrev pub deps_at : List ComputedBinding → ℕ → List ℕ
  deps_at bindings j = elim (get_elem? bindings j) [ none ↦ [] | some cb ↦ cb.depends_on ]

  sum_at_before :
      (f : List ℕ → ℕ) (i j : ℕ) (bindings : List ComputedBinding)
      → j < i
      → sum_at f i bindings j ≡ 0
  unfolding sum_at
  sum_at_before f i j [] h = refl
  sum_at_before f i j (cb ∷ bindings) h = ground (arith, sum_at_before f (suc i) j bindings)

  sum_at-deps_at :
      (f : List ℕ → ℕ) (i j : ℕ) (bindings : List ComputedBinding)
      → f [] ≡ 0
      → sum_at f i bindings (i + j) ≡ f (deps_at bindings j)
  unfolding sum_at
  sum_at-deps_at f i j [] h = sym h
  sum_at-deps_at f i zero (cb ∷ bindings) h =
      let q : i + 0 ≡ i = omega arith in
      rw q (rw (==_refl i) (omega (arith, sum_at_before f (suc i) i bindings (omega arith))))
  sum_at-deps_at f i (suc j) (cb ∷ bindings) h =
      let d : (i + suc j == i) ≡ false = ==_ne (i + suc j) i (λ e. absurd (omega arith)) in
      let q : i + suc j ≡ suc i + j = omega arith in
      rw d (omega (arith, ap (sum_at f (suc i) bindings) q, sum_at-deps_at f (suc i) j bindings h))

module _ (bindings : List ComputedBinding) where
  pub in_degree_lem :
      (j : ℕ)
      → (all_edges bindings).in_degree j
        ≡ open_edges (index_of 0 bindings) [] (deps_at (index_of 0 bindings) bindings j)
  unfolding open_edges
  in_degree_lem j =
      let index = index_of 0 bindings in
      let q : 0 + j ≡ j = omega arith in
      omega (
        arith,
        edges_from-degree index 0 j bindings (record { in_degree = λ _. 0; dependents = λ _. [] }),
        ap (sum_at index (open_edges index []) 0 bindings) q,
        sum_at-deps_at index (open_edges index []) 0 j bindings refl,
      )

  pub dependents_lem :
      (i j : ℕ)
      → count j ((all_edges bindings).dependents i)
        ≡ edges_to (index_of 0 bindings) i (deps_at (index_of 0 bindings) bindings j)
  unfolding edges_to count
  dependents_lem i j =
      let index = index_of 0 bindings in
      let q : 0 + j ≡ j = omega arith in
      omega (
        arith,
        edges_from-count index 0 j i bindings (record { in_degree = λ _. 0; dependents = λ _. [] }),
        ap (sum_at index (edges_to index i) 0 bindings) q,
        sum_at-deps_at index (edges_to index i) 0 j bindings refl,
      )
