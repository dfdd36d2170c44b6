-- ===== src/Flow/Taint/Exact.antt =====
-- The taint fixpoint against its description by derivations.
use mizu_navigator.Prelude.{
  ℕ, ◌≡◌, ◌↔◌, refl, ap, arith, true, Option, List, [], ◌∷◌, map, any, ◌==◌, inl, inr, Bool-cases,
  Among, ==_iff, length-map,
}
use mathlib.Core.Path.{subst}
use mizu_navigator.Value.{ok}
use mizu_navigator.Evaluator.Syntax.{ExprTree}
use mizu_navigator.Flow.{>>=-eq-ok}
use mizu_navigator.Flow.Walk.{Taint, extract_deps, depth_of}
use mizu_navigator.Flow.Taint.{
  Dependent, Graph, build_graph, propagate, tainted_sources, rounds, fixpoint,
}
use mizu_navigator.Flow.Taint.Fixpoint.{
  Reached, marked, target, unmarked-le_length, propagate-IsFixed, marked-Reached,
}
use mizu_navigator.Flow.Taint.Graphs.{Flows, built_added, built_only}

-- A symbol is a source, or what is computed from an expression that reads such a symbol.
pub data Derived (gst : Option ℕ) (ds : List (Dependent × ExprTree)) (symbols : List ℕ)
    : ℕ → Type 0 where
  source : {s : ℕ} → Among s symbols → Derived gst ds symbols s
  flow :
      {s u : ℕ} {d : Dependent}
      → Derived gst ds symbols s
      → Flows gst ds s d
      → u ≡ target d
      → Derived gst ds symbols u

any-Among : (s : ℕ) (xs : List ℕ) → any (λ x. s == x) xs ≡ true → Among s xs
any-Among s [] h = absurd (cc)
any-Among s (x ∷ xs) h = elim (Bool-cases (s == x)) [
  | inl e ↦ inl ((==_iff s x).0 e)
  | inr e ↦ inr (any-Among s xs (ground arith))
]

Among-any : (s : ℕ) (xs : List ℕ) → Among s xs → any (λ x. s == x) xs ≡ true
Among-any s [] m = absurd m
Among-any s (x ∷ xs) (inl e) = ground (arith, (==_iff s x).1 e)
Among-any s (x ∷ xs) (inr m) = ground (arith, Among-any s xs m)

sources-Among : (symbols : List ℕ) (s : ℕ) → Reached (tainted_sources symbols) s → Among s symbols
unfolding tainted_sources
sources-Among symbols s (inl h) = any-Among s symbols h
sources-Among symbols s (inr h) = absurd (cc)

Among-sources : (symbols : List ℕ) (s : ℕ) → Among s symbols → Reached (tainted_sources symbols) s
unfolding tainted_sources
Among-sources symbols s m = inl (Among-any s symbols m)

abbrev targets : List (Dependent × ExprTree) → List Dependent
targets ds = map (λ (x : Dependent × ExprTree). x.0) ds

listed-target :
    (ds : List (Dependent × ExprTree)) (d : Dependent) (tree : ExprTree)
    → Among (d, tree) ds
    → Among d (targets ds)
listed-target [] d tree a = absurd a
listed-target ((x, t) ∷ ds) d tree (inl e) = inl (ap (λ (y : Dependent × ExprTree). y.0) e)
listed-target ((x, t) ∷ ds) d tree (inr a) = inr (listed-target ds d tree a)

-- What the fixpoint is: it holds the sources, the targets of all that reads a tainted symbol, and
-- nothing that is not derived.
pub record IsTaint (gst : Option ℕ) (ds : List (Dependent × ExprTree)) (symbols : List ℕ)
    (t : Taint) : Type 0 where
  pub sources : (s : ℕ) → Among s symbols → Reached t s
  pub marks : (s : ℕ) (d : Dependent) → Reached t s → Flows gst ds s d → marked t d ≡ true
  pub derived : (s : ℕ) → Reached t s → Derived gst ds symbols s

module _ (gst : Option ℕ) (ds : List (Dependent × ExprTree)) (symbols : List ℕ) where
  module _ (graph : Graph) (built : build_graph gst ds (λ _. []) ≡ ok graph) where
    graph-Flows : (s : ℕ) (d : Dependent) → Among d (graph s) → Flows gst ds s d
    graph-Flows s d a = elim (built_only gst ds (λ _. []) graph built s d a) [
      | inl l ↦ absurd l
      | inr f ↦ f
    ]

    Flows-graph : (s : ℕ) (d : Dependent) → Flows gst ds s d → Among d (graph s)
    Flows-graph s d f =
        let (deps, e, g) = built_added gst ds (λ _. []) graph built d f.tree f.listed in
        let q : f.deps ≡ deps = cc (e, f.extracted) in g s (subst (λ xs. Among s xs) q f.reads)

    pub propagated :
        (t : Taint) × (propagate (rounds ds symbols) graph (tainted_sources symbols, symbols)
          ≡ ok t)
        × IsTaint gst ds symbols t
    propagated =
        let (t, e, x) =
          propagate-IsFixed graph (targets ds)
            (λ s d a. let f = graph-Flows s d a in listed-target ds d f.tree f.listed)
            (Derived gst ds symbols) (λ s d p a. flow p (graph-Flows s d a) refl)
            (rounds ds symbols) (tainted_sources symbols) symbols
            (omega (
              arith,
              unmarked-le_length (tainted_sources symbols) (targets ds),
              length-map (λ (x : Dependent × ExprTree). x.0) ds,
            ))
            (λ s h. inl (sources-Among symbols s h)) (Among-sources symbols)
            (λ s h. source (sources-Among symbols s h)) in
        (
          t,
          e,
          record {
            sources = λ s a. elim (Among-sources symbols s a) [
              | inl h ↦ inl (x.grows.vars s h)
              | inr h ↦ inr (x.grows.functions s h)
            ];
            marks = λ s d h f. x.settled s d h (Flows-graph s d f);
            derived = x.sound;
          },
        )

  pub fixpoint-IsTaint : (t : Taint) → fixpoint gst ds symbols ≡ ok t → IsTaint gst ds symbols t
  unfolding fixpoint
  fixpoint-IsTaint t h =
      let (graph, built, k) = >>=-eq-ok (build_graph gst ds (λ _. [])) _ h in
      let (u, e, x) = propagated graph built in
      let q : u ≡ t = cc (e, k) in subst (λ y. IsTaint gst ds symbols y) q x

  -- Every entry has had its dependencies extracted.
  pub fixpoint_extracted :
      (t : Taint)
      → fixpoint gst ds symbols ≡ ok t
      → (d : Dependent) (tree : ExprTree) → Among (d, tree) ds
      → (deps : List ℕ) × (extract_deps gst (depth_of tree) tree.arena tree.root [] ≡ ok deps)
  unfolding fixpoint
  fixpoint_extracted t h d tree a =
      let (graph, built, k) = >>=-eq-ok (build_graph gst ds (λ _. [])) _ h in
      let (deps, e, g) = built_added gst ds (λ _. []) graph built d tree a in (deps, e)

  derived-Reached :
      (t : Taint) → IsTaint gst ds symbols t → (s : ℕ) → Derived gst ds symbols s → Reached t s
  derived-Reached t x s (source a) = x.sources s a
  derived-Reached t x s (flow {s = r} {d = d} p f e) =
      rw e (marked-Reached t d (x.marks r d (derived-Reached t x r p) f))

  -- The fixpoint taints exactly what is derived from the sources: a source, or a function, computed
  -- variable or assigned variable whose expression reads a symbol that is derived.
  pub fixpoint-Derived :
      (t : Taint)
      → fixpoint gst ds symbols ≡ ok t
      → (s : ℕ) → Reached t s ↔ Derived gst ds symbols s
  fixpoint-Derived t h s = let x = fixpoint-IsTaint t h in (x.derived s, derived-Reached t x s)
