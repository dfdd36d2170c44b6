-- ===== src/Computed/Sort/Result.antt =====
-- What the sort as a whole returns.
use mizu_navigator.Prelude.{
  Nodup, length_bound, outside, ℕ, zero, suc, ◌+◌, ◌<◌, ◌≤◌, ◌≡◌, refl, sym, ap, ◌∙◌, arith, Bool,
  true, false, Option, none, some, List, [], ◌∷◌, length, get_elem?, ◌==◌, if◌then◌else◌,
  Bool-cases, Option-cases, inl, inr, contains, ==_iff,
}
use mathlib.Core.Path.{subst}
use mizu_navigator.Value.{Outcome, ok, err, panicked, out_of_fuel}
use mizu_navigator.Computed.{ComputedBinding}
use mizu_navigator.Computed.Ahead.{IsTopological}
use mizu_navigator.Computed.Sort.{
  index_of, without_edges, taken, reversed, all_edges, finish, topo_sort_computed,
}
use mizu_navigator.Computed.Sort.Degrees.{
  count, open_edges, open_edges-one, deps_at, in_degree_lem, dependents_lem,
}
use mizu_navigator.Computed.Sort.Release.{IsReleasing}
use mizu_navigator.Computed.Sort.Order.{IsOrder, IsExhausted, kahn-IsOrder}
use mizu_navigator.Computed.Sort.Sorted.{
  names, reversed-Follows, taken-IsPicked, length-IsPicked, origin, IsPicked-IsTopological,
}

without_edges-bounds :
    (degree : ℕ → ℕ) (i n j : ℕ)
    → contains j (without_edges degree i n) ≡ true
    → (degree j ≡ 0) × (i ≤ j) × (j < i + n)
unfolding without_edges
without_edges-bounds degree i zero j h = absurd (cc)
without_edges-bounds degree i (suc n) j h =
    elim (Bool-cases (contains j (without_edges degree (suc i) n))) [
      | inl t ↦
          let b = without_edges-bounds degree (suc i) n j t in
          (b.0, omega (arith, b.1), omega (arith, b.2))
      | inr f ↦
          let z : (degree i == 0) ≡ true = ground (arith, h, f) in
          let p : j ≡ i = ground (arith, h, f, z, ==_iff j i) in
          (ap degree p ∙ (==_iff (degree i) 0).0 z, omega (arith, p), omega (arith, p))
    ]

without_edges-Nodup : (degree : ℕ → ℕ) (i n : ℕ) → Nodup (without_edges degree i n)
unfolding without_edges
without_edges-Nodup degree i zero = tt
without_edges-Nodup degree i (suc n) = elim (Bool-cases (degree i == 0)) [
  | inr e ↦ rw e (without_edges-Nodup degree (suc i) n)
  | inl e ↦
      let f : contains i (without_edges degree (suc i) n) ≡ false =
        elim (Bool-cases (contains i (without_edges degree (suc i) n))) [
          | inl t ↦ let b = without_edges-bounds degree (suc i) n i t in absurd (omega (arith, b.1))
          | inr f ↦ f
        ] in
      rw e (f, without_edges-Nodup degree (suc i) n)
]

without_edges-contains :
    (degree : ℕ → ℕ) (i n j : ℕ)
    → i ≤ j
    → j < i + n
    → degree j ≡ 0
    → contains j (without_edges degree i n) ≡ true
unfolding without_edges
without_edges-contains degree i zero j l h z = absurd (omega (arith, l, h))
without_edges-contains degree i (suc n) j l h z = elim (Bool-cases (j == i)) [
  | inl e ↦
      let p : degree i ≡ 0 = ap degree (sym ((==_iff j i).0 e)) ∙ z in
      rw ((==_iff (degree i) 0).1 p) (rw e refl)
  | inr e ↦
      let q : suc i ≤ j = ground (arith, e, l) in
      ground (arith, without_edges-contains degree (suc i) n j q (omega (arith, h)) z)
]

index_of-found :
    (i k name : ℕ) (bindings : List ComputedBinding)
    → index_of i bindings name ≡ some k
    → (p : ℕ) × (cb : ComputedBinding) × (k ≡ i + p)
      × (get_elem? bindings p ≡ some cb)
      × (cb.name ≡ name)
unfolding index_of
index_of-found i k name [] e = absurd (cc)
index_of-found i k name (c ∷ bindings) e = elim (Option-cases (index_of (suc i) bindings name)) [
  | inl q ↦
      let h : (if c.name == name then some i else none) ≡ some k = sym (ap merged q) ∙ e in
      elim (Bool-cases (c.name == name)) [
        | inl t ↦
            let g : some i ≡ some k = sym (ap pick t) ∙ h in
            let w : i ≡ k = cc g in (0, c, omega (arith, w), refl, (==_iff c.name name).0 t)
        | inr f ↦ let g : none ≡ some k = sym (ap pick f) ∙ h in absurd (cc g)
      ]
  | inr (j, q) ↦
      let g : some j ≡ some k = sym (ap merged q) ∙ e in
      let r = index_of-found (suc i) k name bindings (q ∙ g) in
      (suc r.0, r.1, omega (arith, r.2), r.3, r.4)
]
  where
    pick : Bool → Option ℕ
    pick b = if b then some i else none

    merged : Option ℕ → Option ℕ
    merged (some j) = some j
    merged none = if c.name == name then some i else none

-- Bindings that wait for each other: each one that waits depends on one that waits.
pub record IsCyclic (bindings : List ComputedBinding) : Type 0 where
  pub waits : ℕ → Bool
  pub first : (j : ℕ) × (j < length bindings) × (waits j ≡ true)
  pub each :
      (j : ℕ) (cb : ComputedBinding)
      → get_elem? bindings j ≡ some cb
      → waits j ≡ true
      → (k : ℕ) × (ck : ComputedBinding) × (get_elem? bindings k ≡ some ck)
        × (contains ck.name cb.depends_on ≡ true)
        × (waits k ≡ true)

-- A sorted list of the bindings
pub record IsSortOf (bindings sorted : List ComputedBinding) : Type 0 where
  pub topological : IsTopological sorted
  pub same_length : length sorted ≡ length bindings
  pub from_bindings :
      (i : ℕ) (cb : ComputedBinding)
      → get_elem? sorted i ≡ some cb
      → (p : ℕ) × (get_elem? bindings p ≡ some cb)

abbrev pub Sorts : List ComputedBinding → Outcome (List ComputedBinding) → Type 0
Sorts bindings (ok sorted) = IsSortOf bindings sorted
Sorts bindings (err e) = IsCyclic bindings
Sorts bindings panicked = ⊥
Sorts bindings out_of_fuel = ⊥

module _ (bindings : List ComputedBinding) where
  abbrev index : ℕ → Option ℕ
  index = index_of 0 bindings

  abbrev deps : ℕ → List ℕ
  deps = deps_at index bindings

  abbrev size : ℕ
  size = length bindings

  abbrev degree : ℕ → ℕ
  degree = (all_edges bindings).in_degree

  none_past : (j : ℕ) (cbs : List ComputedBinding) → length cbs ≤ j → deps_at index cbs j ≡ []
  none_past j [] l = refl
  none_past zero (cb ∷ cbs) l = absurd (omega (arith, l))
  none_past (suc j) (cb ∷ cbs) l = none_past j cbs (omega (arith, l))

  at_start : IsReleasing index deps size degree (without_edges degree 0 size) [] []
  unfolding count
  at_start = record {
    degrees = λ j. omega (arith, in_degree_lem bindings j);
    zero = λ j h. (without_edges-bounds degree 0 size j h).0;
    done = λ j h. absurd (cc h);
    fresh = λ j h. refl;
    nodup = without_edges-Nodup degree 0 size;
    below = λ j h. omega (arith, (without_edges-bounds degree 0 size j h).2);
    inside = λ j h. absurd (cc h);
    covered = λ j l z.
        rw (without_edges-contains degree 0 size j (omega arith) (omega (arith, l)) z) refl;
  }

  length-reversed : (order is : List ℕ) → length (reversed order is) ≡ length order + length is
  unfolding reversed
  length-reversed [] is = omega arith
  length-reversed (i ∷ order) is = omega (arith, length-reversed order (i ∷ is))

  get_elem?-below :
      (cbs : List ComputedBinding) (j : ℕ) (cb : ComputedBinding)
      → get_elem? cbs j ≡ some cb
      → j < length cbs
  get_elem?-below [] j cb e = absurd (cc e)
  get_elem?-below (c ∷ cbs) zero cb e = omega arith
  get_elem?-below (c ∷ cbs) (suc j) cb e = omega (arith, get_elem?-below cbs j cb e)

  module _ (order : List ℕ) (o : IsOrder index deps size order) where
    full-IsSortOf :
        Nodup (names bindings)
        → length order ≡ size
        → IsSortOf bindings (taken (reversed order []) (get_elem? bindings))
    full-IsSortOf named full =
        let is = reversed order [] in
        let cbs = taken is (get_elem? bindings) in
        let f = reversed-Follows bindings order [] o tt in
        let k = taken-IsPicked bindings [] is (get_elem? bindings) f (λ j n. refl) in
        record {
          topological = IsPicked-IsTopological bindings named is cbs f k;
          same_length =
              omega (arith, length-IsPicked bindings is cbs k, length-reversed order [], full);
          from_bindings = λ i cb e. let r = origin bindings [] is cbs i cb f k e in (r.0, r.2);
        }

    short-IsCyclic : IsExhausted index deps size order → length order < size → IsCyclic bindings
    short-IsCyclic exhausted short = record {
      waits = λ j. if contains j order then false else true;
      first = let r = outside size order short in (r.0, r.1, rw r.2 refl);
      each = λ j cb e w.
          let n : contains j order ≡ false = ground (arith, w) in
          let d : deps j ≡ cb.depends_on =
            ap (λ b. elim b as (λ _. List ℕ) [ none ↦ [] | some c ↦ c.depends_on ]) e in
          let many : 1 ≤ open_edges index order cb.depends_on = omega (
            arith,
            exhausted j (get_elem?-below bindings j cb e) n,
            ap (open_edges index order) d,
          ) in
          let r = open_edges-one index order cb.depends_on many in
          let found = index_of-found 0 r.1 r.0 bindings r.3 in
          let same : r.1 ≡ found.0 = omega (arith, found.2) in
          (
            found.0,
            found.1,
            found.3,
            ap (λ x. contains x cb.depends_on) found.4 ∙ r.2,
            rw (ap (λ x. contains x order) (sym same) ∙ r.4) refl,
          );
    }

    finish-Sorts :
        Nodup (names bindings)
        → IsExhausted index deps size order
        → Sorts bindings (finish bindings (ok order))
    finish-Sorts named exhausted = elim (Bool-cases (length order == size)) [
      | inl e ↦ rw e (full-IsSortOf named ((==_iff (length order) size).0 e))
      | inr e ↦
          let bound = length_bound size order o.nodup o.below in
          rw e (short-IsCyclic exhausted (ground (arith, bound, e)))
    ]

-- With distinct names, `topo_sort_computed` returns a list of as many bindings, each one of the
-- given, in which no binding depends on itself or on a later one; where it reports an error, there
-- are bindings that wait for each other in a cycle. It does not run out of
-- fuel.
pub topo_sort_computed-Sorts :
    (bindings : List ComputedBinding)
    → Nodup (names bindings)
    → Sorts bindings (topo_sort_computed bindings)
unfolding topo_sort_computed
topo_sort_computed-Sorts bindings named =
    let run =
      kahn-IsOrder (index bindings) (deps bindings) (size bindings) (all_edges bindings).dependents
        (dependents_lem bindings) (λ j l. none_past bindings j bindings l) (size bindings)
        (degree bindings) (without_edges (degree bindings) 0 (size bindings)) [] (omega arith)
        (at_start bindings) (record { closed = tt; nodup = tt; below = λ j h. absurd (cc h) }) in
    subst (λ o. Sorts bindings (finish bindings o)) (sym run.1)
      (finish-Sorts bindings run.0 run.2 named run.3)
