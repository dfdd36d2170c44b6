-- ===== src/Flow/Taint/Graphs.antt =====
-- The graph of dependents that the check builds, by its entries.
use mizu_navigator.Prelude.{
  ℕ, ◌≡◌, refl, ap, Option, List, [], ◌∷◌, ◌++◌, ◌==◌, ◌⊎◌, inl, inr, Bool-cases, Among,
  Among-append, Among-append_left, Among-append_right, ==_iff, ==_refl,
}
use mathlib.Core.Path.{subst}
use mizu_navigator.Value.{ok}
use mizu_navigator.Evaluator.{with_entry}
use mizu_navigator.Evaluator.Syntax.{ExprTree}
use mizu_navigator.Flow.{>>=-eq-ok}
use mizu_navigator.Flow.Walk.{extract_deps, depth_of}
use mizu_navigator.Flow.Taint.{Dependent, Graph, push_each, build_graph}

-- An entry of a list of dependents reads a symbol.
pub record Flows (gst : Option ℕ) (ds : List (Dependent × ExprTree)) (s : ℕ) (d : Dependent)
    : Type 0 where
  pub tree : ExprTree
  pub deps : List ℕ
  pub listed : Among (d, tree) ds
  pub extracted : extract_deps gst (depth_of tree) tree.arena tree.root [] ≡ ok deps
  pub reads : Among s deps

entry-Among :
    (graph : Graph) (k s : ℕ) (d x : Dependent)
    → Among x (graph s)
    → Among x (with_entry graph k (graph k ++ (d ∷ [])) s)
entry-Among graph k s d x h = elim (Bool-cases (s == k)) [
  | inl e ↦
      rw e (
        Among-append_left x (graph k) (d ∷ [])
          (subst (λ y. Among x (graph y)) ((==_iff s k).0 e) h))
  | inr e ↦ rw e h
]

entry_added :
    (graph : Graph) (k : ℕ) (d : Dependent) → Among d (with_entry graph k (graph k ++ (d ∷ [])) k)
entry_added graph k d = rw (==_refl k) (Among-append_right d (graph k) (d ∷ []) (inl refl))

entry_only :
    (graph : Graph) (k s : ℕ) (d x : Dependent)
    → Among x (with_entry graph k (graph k ++ (d ∷ [])) s)
    → Among x (graph s) ⊎ ((s ≡ k) × (x ≡ d))
entry_only graph k s d x h = elim (Bool-cases (s == k)) [
  | inl e ↦
      let q : s ≡ k = (==_iff s k).0 e in
      (elim (Among-append x (graph k) (d ∷ []) (rw e at h)) [
        | inl l ↦ inl (rw q l)
        | inr (inl r) ↦ inr (q, r)
        | inr (inr r) ↦ absurd r
      ])
  | inr e ↦ inl (rw e at h)
]

push_each_kept :
    (d : Dependent) (deps : List ℕ) (graph : Graph) (s : ℕ) (x : Dependent)
    → Among x (graph s)
    → Among x (push_each d deps graph s)
unfolding push_each
push_each_kept d [] graph s x h = h
push_each_kept d (k ∷ deps) graph s x h =
    push_each_kept d deps (with_entry graph k (graph k ++ (d ∷ []))) s x
      (entry-Among graph k s d x h)

push_each_added :
    (d : Dependent) (deps : List ℕ) (graph : Graph) (s : ℕ)
    → Among s deps
    → Among d (push_each d deps graph s)
unfolding push_each
push_each_added d [] graph s h = absurd h
push_each_added d (k ∷ deps) graph s (inl e) =
    push_each_kept d deps (with_entry graph k (graph k ++ (d ∷ []))) s d
      (rw e (entry_added graph k d))
push_each_added d (k ∷ deps) graph s (inr h) =
    push_each_added d deps (with_entry graph k (graph k ++ (d ∷ []))) s h

push_each_only :
    (d : Dependent) (deps : List ℕ) (graph : Graph) (s : ℕ) (x : Dependent)
    → Among x (push_each d deps graph s)
    → Among x (graph s) ⊎ (Among s deps × (x ≡ d))
unfolding push_each
push_each_only d [] graph s x h = inl h
push_each_only d (k ∷ deps) graph s x h =
    elim (push_each_only d deps (with_entry graph k (graph k ++ (d ∷ []))) s x h) [
      | inl l ↦ elim (entry_only graph k s d x l) [ inl l ↦ inl l | inr (e, q) ↦ inr (inl e, q) ]
      | inr (l, q) ↦ inr (inr l, q)
    ]

module _ (gst : Option ℕ) where
  built_kept :
      (ds : List (Dependent × ExprTree)) (graph built : Graph)
      → build_graph gst ds graph ≡ ok built
      → (s : ℕ) (x : Dependent) → Among x (graph s)
      → Among x (built s)
  unfolding build_graph
  built_kept [] graph built h s x a =
      let e : graph ≡ built = cc in subst (λ (g : Graph). Among x (g s)) e a
  built_kept ((d, tree) ∷ ds) graph built h s x a =
      let (deps, e, k) = >>=-eq-ok (extract_deps gst (depth_of tree) tree.arena tree.root []) _ h in
      built_kept ds (push_each d deps graph) built k s x (push_each_kept d deps graph s x a)

  pub built_added :
      (ds : List (Dependent × ExprTree)) (graph built : Graph)
      → build_graph gst ds graph ≡ ok built
      → (d : Dependent) (tree : ExprTree) → Among (d, tree) ds
      → (deps : List ℕ) × (extract_deps gst (depth_of tree) tree.arena tree.root [] ≡ ok deps)
        × ((s : ℕ) → Among s deps → Among d (built s))
  unfolding build_graph
  built_added [] graph built h d tree a = absurd a
  built_added ((x, t) ∷ ds) graph built h d tree (inl a) =
      let (deps, e, k) = >>=-eq-ok (extract_deps gst (depth_of t) t.arena t.root []) _ h in
      let p : d ≡ x = ap (λ (y : Dependent × ExprTree). y.0) a in
      let q : tree ≡ t = ap (λ (y : Dependent × ExprTree). y.1) a in
      (
        deps,
        rw q e,
        λ s m.
            built_kept ds (push_each x deps graph) built k s d
              (rw p (push_each_added x deps graph s m)),
      )
  built_added ((x, t) ∷ ds) graph built h d tree (inr a) =
      let (deps, e, k) = >>=-eq-ok (extract_deps gst (depth_of t) t.arena t.root []) _ h in
      built_added ds (push_each x deps graph) built k d tree a

  pub built_only :
      (ds : List (Dependent × ExprTree)) (graph built : Graph)
      → build_graph gst ds graph ≡ ok built
      → (s : ℕ) (x : Dependent) → Among x (built s)
      → Among x (graph s) ⊎ Flows gst ds s x
  unfolding build_graph
  built_only [] graph built h s x a =
      let e : built ≡ graph = cc in inl (subst (λ (g : Graph). Among x (g s)) e a)
  built_only ((d, tree) ∷ ds) graph built h s x a =
      let (deps, e, k) = >>=-eq-ok (extract_deps gst (depth_of tree) tree.arena tree.root []) _ h in
      elim (built_only ds (push_each d deps graph) built k s x a) [
        | inl l ↦ elim (push_each_only d deps graph s x l) [
          | inl l ↦ inl l
          | inr (m, q) ↦ inr (record {
            tree = tree;
            deps = deps;
            listed = inl (ap (λ y. (y, tree)) q);
            extracted = e;
            reads = m;
          })
        ]
        | inr f ↦ inr (record {
          tree = f.tree;
          deps = f.deps;
          listed = inr f.listed;
          extracted = f.extracted;
          reads = f.reads;
        })
      ]
