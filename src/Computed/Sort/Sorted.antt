-- ===== src/Computed/Sort/Sorted.antt =====
-- From an order of the indices to the list that the sort returns.
use mizu_navigator.Prelude.{
  Nodup, ℕ, zero, suc, ◌+◌, ◌<◌, ◌≤◌, ◌≡◌, refl, sym, ap, ◌∙◌, arith, true, false, Option, none,
  some, List, [], ◌∷◌, length, get_elem?, map, ◌==◌, Bool-cases, inl, inr, contains, ==_iff,
  ==_refl,
}
use mathlib.Core.Path.{subst}
use mizu_navigator.Evaluator.{with_entry}
use mizu_navigator.Computed.{ComputedBinding}
use mizu_navigator.Computed.Ahead.{IsTopological}
use mizu_navigator.Computed.Sort.{index_of, taken, reversed}
use mizu_navigator.Computed.Sort.Degrees.{open_edges, open_edges-zero, deps_at}
use mizu_navigator.Computed.Sort.Order.{IsOrder}

abbrev pub names : List ComputedBinding → List ℕ
names bindings = map (λ cb. cb.name) bindings

index_of-none :
    (i name : ℕ) (bindings : List ComputedBinding)
    → contains name (names bindings) ≡ false
    → index_of i bindings name ≡ none
unfolding index_of
index_of-none i name [] h = refl
index_of-none i name (cb ∷ bindings) h =
    let q : (cb.name == name) ≡ false = ground (arith, h) in
    rw (index_of-none (suc i) name bindings (ground (arith, h))) (rw q refl)

index_of-head :
    (i : ℕ) (cb : ComputedBinding) (bindings : List ComputedBinding)
    → contains cb.name (names bindings) ≡ false
    → index_of i (cb ∷ bindings) cb.name ≡ some (i + 0)
unfolding index_of
index_of-head i cb bindings h =
    let z : i + 0 ≡ i = omega arith in
    rw (index_of-none (suc i) cb.name bindings h) (rw (==_refl cb.name) (ap some (sym z)))

-- With distinct names, a name finds its own binding.
pub index_of-some :
    (i p : ℕ) (bindings : List ComputedBinding) (cb : ComputedBinding)
    → Nodup (names bindings)
    → get_elem? bindings p ≡ some cb
    → index_of i bindings cb.name ≡ some (i + p)
unfolding index_of
index_of-some i p [] cb d e = absurd (cc)
index_of-some i zero (c ∷ bindings) cb d e =
    let q : cb ≡ c = cc in
    ap (λ x. index_of i (c ∷ bindings) x.name) q ∙ index_of-head i c bindings d.0
index_of-some i (suc p) (c ∷ bindings) cb d e =
    let z : i + suc p ≡ suc i + p = omega arith in
    rw (index_of-some (suc i) p bindings cb d.1 e) (ap some (sym z))

pub get_elem?-some :
    (p : ℕ) (bindings : List ComputedBinding)
    → p < length bindings
    → (cb : ComputedBinding) × (get_elem? bindings p ≡ some cb)
get_elem?-some p [] l = absurd (omega (arith, l))
get_elem?-some zero (cb ∷ bindings) l = (cb, refl)
get_elem?-some (suc p) (cb ∷ bindings) l = get_elem?-some p bindings (omega (arith, l))

module _ (bindings : List ComputedBinding) where
  abbrev index : ℕ → Option ℕ
  index = index_of 0 bindings

  abbrev deps : ℕ → List ℕ
  deps = deps_at index bindings

  -- Indices that may follow `seen`, whose first element is the last
  abbrev pub Follows : List ℕ → List ℕ → Type 0
  Follows seen [] = Unit
  Follows seen (i ∷ is) =
      (contains i seen ≡ false)
      × ((open_edges index seen (deps i) ≡ 0) × ((i < length bindings) × Follows (i ∷ seen) is))

  pub reversed-Follows :
      (order is : List ℕ)
      → IsOrder index deps (length bindings) order
      → Follows order is
      → Follows [] (reversed order is)
  unfolding reversed
  reversed-Follows [] is o f = f
  reversed-Follows (i ∷ order) is o f =
      reversed-Follows order (i ∷ is)
        (record {
          closed = o.closed.1;
          nodup = o.nodup.1;
          below = λ j h. o.below j (ground (arith, h));
        })
        (o.nodup.0, (o.closed.0, (o.below i (rw (==_refl i) refl), f)))

  -- The bindings at the indices
  abbrev pub IsPicked : List ℕ → List ComputedBinding → Type 0
  IsPicked [] [] = Unit
  IsPicked [] (cb ∷ cbs) = ⊥
  IsPicked (i ∷ is) [] = ⊥
  IsPicked (i ∷ is) (cb ∷ cbs) = (get_elem? bindings i ≡ some cb) × IsPicked is cbs

  taken-some :
      (i : ℕ) (is : List ℕ) (items : ℕ → Option ComputedBinding) (cb : ComputedBinding)
      → items i ≡ some cb
      → taken (i ∷ is) items ≡ cb ∷ taken is (with_entry items i none)
  unfolding taken
  taken-some i is items cb e =
      ap
        (λ o. elim o as (λ _. List ComputedBinding) [
          | some c ↦ c ∷ taken is (with_entry items i none)
          | none ↦ taken is items
        ])
        e

  pub taken-IsPicked :
      (seen is : List ℕ) (items : ℕ → Option ComputedBinding)
      → Follows seen is
      → ((j : ℕ) → contains j seen ≡ false → items j ≡ get_elem? bindings j)
      → IsPicked is (taken is items)
  unfolding taken
  taken-IsPicked seen [] items f h = tt
  taken-IsPicked seen (i ∷ is) items (new, (z, (l, f))) h =
      let g = get_elem?-some i bindings l in
      subst (λ cbs. IsPicked (i ∷ is) cbs) (sym (taken-some i is items g.0 (h i new ∙ g.1)))
        (
          g.1,
          taken-IsPicked (i ∷ seen) is (with_entry items i none) f (λ j n.
              let q : (j == i) ≡ false = ground (arith, n) in rw q (h j (ground (arith, n)))),
        )

  pub length-IsPicked :
      (is : List ℕ) (cbs : List ComputedBinding) → IsPicked is cbs → length cbs ≡ length is
  length-IsPicked [] [] p = refl
  length-IsPicked [] (cb ∷ cbs) p = absurd p
  length-IsPicked (i ∷ is) [] p = absurd p
  length-IsPicked (i ∷ is) (cb ∷ cbs) p = ap suc (length-IsPicked is cbs p.1)

  -- Where the binding at a position of the sorted list comes from
  pub origin :
      (seen is : List ℕ) (cbs : List ComputedBinding) (i : ℕ) (cb : ComputedBinding)
      → Follows seen is
      → IsPicked is cbs
      → get_elem? cbs i ≡ some cb
      → (p : ℕ) × (contains p seen ≡ false) × (get_elem? bindings p ≡ some cb)
  origin seen [] [] i cb f k e = absurd (cc)
  origin seen [] (c ∷ cbs) i cb f k e = absurd k
  origin seen (p ∷ is) [] i cb f k e = absurd k
  origin seen (p ∷ is) (c ∷ cbs) zero cb f k e = (p, f.0, k.0 ∙ e)
  origin seen (p ∷ is) (c ∷ cbs) (suc i) cb f k e =
      let o = origin (p ∷ seen) is cbs i cb f.1.1.1 k.1 e in (o.0, ground (arith, o.1), o.2)

  module _ (named : Nodup (names bindings)) where
    comes_before :
        (seen is : List ℕ) (cbs : List ComputedBinding) (i j : ℕ) (ci cj : ComputedBinding)
        → Follows seen is
        → IsPicked is cbs
        → get_elem? cbs i ≡ some ci
        → get_elem? cbs j ≡ some cj
        → j ≤ i
        → contains ci.name cj.depends_on ≡ false
    comes_before seen [] [] i j ci cj f k ei ej l = absurd (cc)
    comes_before seen [] (c ∷ cbs) i j ci cj f k ei ej l = absurd k
    comes_before seen (p ∷ is) [] i j ci cj f k ei ej l = absurd k
    comes_before seen (p ∷ is) (c ∷ cbs) i zero ci cj f k ei ej l =
        elim (Bool-cases (contains ci.name cj.depends_on)) [
          | inr e ↦ e
          | inl e ↦
              let o = origin seen (p ∷ is) (c ∷ cbs) i ci f k ei in
              let d : deps p ≡ cj.depends_on =
                ap (λ o. elim o as (λ _. List ℕ) [ none ↦ [] | some c ↦ c.depends_on ])
                  (k.0 ∙ ej) in
              let z : open_edges index seen cj.depends_on ≡ 0 =
                ap (open_edges index seen) (sym d) ∙ f.1.0 in
              let t : contains o.0 seen ≡ true =
                open_edges-zero index seen cj.depends_on ci.name o.0 z e
                  (index_of-some 0 o.0 bindings ci named o.2 ∙ ap some (omega arith)) in
              absurd (cc (t, o.1))
        ]
    comes_before seen (p ∷ is) (c ∷ cbs) zero (suc j) ci cj f k ei ej l = absurd (omega (arith, l))
    comes_before seen (p ∷ is) (c ∷ cbs) (suc i) (suc j) ci cj f k ei ej l =
        comes_before (p ∷ seen) is cbs i j ci cj f.1.1.1 k.1 ei ej (omega (arith, l))

    differs :
        (p q : ℕ) (ci cj : ComputedBinding)
        → get_elem? bindings p ≡ some ci
        → get_elem? bindings q ≡ some cj
        → (q == p) ≡ false
        → (cj.name == ci.name) ≡ false
    differs p q ci cj ep eq n = elim (Bool-cases (cj.name == ci.name)) [
      | inr e ↦ e
      | inl e ↦
          let s : some (0 + q) ≡ some (0 + p) =
            sym (index_of-some 0 q bindings cj named eq)
            ∙ (ap index ((==_iff cj.name ci.name).0 e) ∙ index_of-some 0 p bindings ci named ep) in
          let t : 0 + q ≡ 0 + p = cc s in absurd (ground (arith, n, t))
    ]

    names_differ :
        (seen is : List ℕ) (cbs : List ComputedBinding) (i j : ℕ) (ci cj : ComputedBinding)
        → Follows seen is
        → IsPicked is cbs
        → get_elem? cbs i ≡ some ci
        → get_elem? cbs j ≡ some cj
        → i < j
        → (cj.name == ci.name) ≡ false
    names_differ seen [] [] i j ci cj f k ei ej l = absurd (cc)
    names_differ seen [] (c ∷ cbs) i j ci cj f k ei ej l = absurd k
    names_differ seen (p ∷ is) [] i j ci cj f k ei ej l = absurd k
    names_differ seen (p ∷ is) (c ∷ cbs) i zero ci cj f k ei ej l = absurd (omega (arith, l))
    names_differ seen (p ∷ is) (c ∷ cbs) zero (suc j) ci cj f k ei ej l =
        let o = origin (p ∷ seen) is cbs j cj f.1.1.1 k.1 ej in
        differs p o.0 ci cj (k.0 ∙ ei) o.2 (ground (arith, o.1))
    names_differ seen (p ∷ is) (c ∷ cbs) (suc i) (suc j) ci cj f k ei ej l =
        names_differ (p ∷ seen) is cbs i j ci cj f.1.1.1 k.1 ei ej (omega (arith, l))

    pub IsPicked-IsTopological :
        (is : List ℕ) (cbs : List ComputedBinding)
        → Follows [] is
        → IsPicked is cbs
        → IsTopological cbs
    IsPicked-IsTopological is cbs f k = record {
      before = λ i j ci cj ei ej l. comes_before [] is cbs i j ci cj f k ei ej l;
      distinct = λ i j ci cj ei ej l. names_differ [] is cbs i j ci cj f k ei ej l;
    }
