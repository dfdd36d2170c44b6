-- ===== src/Flow/Closed.antt =====
-- An expression none of whose dependencies is tainted reads no tainted symbol.
use mizu_navigator.Prelude.{
  insert, contains-Among, contains, ℕ, zero, suc, ◌≡◌, refl, Bool, true, false, Option, none, some,
  List, [], ◌∷◌, get_elem?, if◌then◌else◌, inl, inr, Bool-cases, All, Among, leb, length, ◌+◌,
}
use mathlib.Core.Path.{subst}
use mizu_navigator.Value.{Outcome, ok, panicked}
use mizu_navigator.Evaluator.Syntax.{
  Expr, literal, variable, binary_op, function_call, let_in, not_of, if_else, field_access, Arena,
  args,
}
use mizu_navigator.Flow.{◌>>=◌, >>=-eq-ok}
use mizu_navigator.Flow.Walk.{Taint, is_symbol, walk_all, call_args, extract_expr, extract_deps}
use mizu_navigator.Flow.Clean.{Clean, CleanExpr, CleanNode, CleanCall}

insert_kept : (s x : ℕ) (xs : List ℕ) → Among x xs → Among x (insert s xs)
insert_kept s x xs h = elim (Bool-cases (contains s xs)) [ inl e ↦ rw e h | inr e ↦ rw e (inr h) ]

insert_added : (s : ℕ) (xs : List ℕ) → Among s (insert s xs)
insert_added s xs = elim (Bool-cases (contains s xs)) [
  | inl e ↦ rw e (contains-Among s xs e)
  | inr e ↦ rw e (inl refl)
]

module _ (taint : Taint) (gst : Option ℕ) where
  abbrev pub Untainted : List ℕ → Type 0
  Untainted deps = (s : ℕ) → Among s deps → (taint.vars s ≡ false) × (taint.functions s ≡ false)

  -- What a walk from an accumulator to another says of the nodes that it met
  abbrev Walked : List ℕ → List ℕ → Type 0 → Type 0
  Walked acc deps P = ((s : ℕ) → Among s acc → Among s deps) × (Untainted deps → P)

  module _ (arena : Arena) (walk : ℕ → List ℕ → Outcome (List ℕ)) (deep : ℕ → Type 0)
      (below : (id : ℕ) (acc deps : List ℕ)
        → walk id acc ≡ ok deps
        → Walked acc deps (deep id)) where
    walk_two :
        (m : Outcome (List ℕ)) (P : Type 0) (acc deps : List ℕ) (id : ℕ)
        → ((mid : List ℕ) → m ≡ ok mid → Walked acc mid P)
        → (m >>= walk id) ≡ ok deps
        → Walked acc deps (P × deep id)
    walk_two m P acc deps id f h =
        let (mid, p, q) = >>=-eq-ok m (walk id) h in
        let (k, g) = f mid p in
        let (l, b) = below id mid deps q in (λ s a. l s (k s a), λ u. (g (λ s a. u s (l s a)), b u))

    walk_all-Walked :
        (ids acc deps : List ℕ) → walk_all walk ids acc ≡ ok deps → Walked acc deps (All deep ids)
    unfolding walk_all
    walk_all-Walked [] acc deps h =
        let e : acc ≡ deps = cc in (λ s a. subst (λ xs. Among s xs) e a, λ u. tt)
    walk_all-Walked (id ∷ ids) acc deps h =
        let (mid, p, q) = >>=-eq-ok (walk id acc) (walk_all walk ids) h in
        let (k, g) = below id acc mid p in
        let (l, b) = walk_all-Walked ids mid deps q in
        (λ s a. l s (k s a), λ u. (g (λ s a. u s (l s a)), b u))

    call-Walked :
        (name : ℕ) (ids acc deps : List ℕ)
        → walk_all walk ids (if is_symbol gst name then acc else insert name acc) ≡ ok deps
        → Walked acc deps (CleanCall taint gst deep name ids)
    call-Walked name ids acc deps h = elim (Bool-cases (is_symbol gst name)) [
      | inl e ↦ let (k, g) = walk_all-Walked ids acc deps (rw e at h) in (k, λ u. inl e)
      | inr e ↦
          let (k, g) = walk_all-Walked ids (insert name acc) deps (rw e at h) in
          (
            λ s a. k s (insert_kept name s acc a),
            λ u. inr ((u name (k name (insert_added name acc))).1, g u),
          )
    ]

    abbrev Window : ℕ → Option (List ℕ) → Type 0
    Window name o = elim o as (λ _. Type 0) [
      | none ↦ Unit
      | some ids ↦ CleanCall taint gst deep name ids
    ]

    opened-Walked :
        (name : ℕ) (o : Option (List ℕ)) (acc deps : List ℕ)
        → elim o as (λ _. Outcome (List ℕ)) [
          | some ids ↦ walk_all walk ids (if is_symbol gst name then acc else insert name acc)
          | none ↦ panicked
        ]
          ≡ ok deps
        → Walked acc deps (Window name o)
    opened-Walked name none acc deps h = absurd (cc)
    opened-Walked name (some ids) acc deps h = call-Walked name ids acc deps h

    empty-Window :
        (name : ℕ) (b : Bool)
        → CleanCall taint gst deep name []
        → Window name (if b then some [] else none)
    empty-Window name true h = h
    empty-Window name false h = tt

    window-Walked :
        (name start len : ℕ) (acc deps : List ℕ)
        → elim (call_args arena start len) as (λ _. Outcome (List ℕ)) [
          | some ids ↦ walk_all walk ids (if is_symbol gst name then acc else insert name acc)
          | none ↦ panicked
        ]
          ≡ ok deps
        → Walked acc deps (CleanExpr taint gst arena deep (function_call name start len))
    unfolding args
    window-Walked name start zero acc deps h =
        let (k, g) = call-Walked name [] acc deps h in
        (k, λ u. empty-Window name (leb (start + 0) (length arena.args_pool)) (g u))
    window-Walked name start (suc len) acc deps h =
        opened-Walked name (args arena start (suc len)) acc deps h

    extract_expr-Walked :
        (e : Expr) (acc deps : List ℕ)
        → extract_expr gst arena walk e acc ≡ ok deps
        → Walked acc deps (CleanExpr taint gst arena deep e)
    unfolding extract_expr
    extract_expr-Walked (literal v) acc deps h =
        let e : acc ≡ deps = cc in (λ s a. subst (λ xs. Among s xs) e a, λ u. tt)
    extract_expr-Walked (variable name) acc deps h =
        let e : insert name acc ≡ deps = cc in
        (
          λ s a. subst (λ xs. Among s xs) e (insert_kept name s acc a),
          λ u. (u name (subst (λ xs. Among name xs) e (insert_added name acc))).0,
        )
    extract_expr-Walked (binary_op left op right) acc deps h =
        walk_two (walk left acc) (deep left) acc deps right (below left acc) h
    extract_expr-Walked (function_call name start len) acc deps h =
        window-Walked name start len acc deps h
    extract_expr-Walked (let_in name value body) acc deps h =
        walk_two (walk value acc) (deep value) acc deps body (below value acc) h
    extract_expr-Walked (not_of inner) acc deps h = below inner acc deps h
    extract_expr-Walked (if_else condition then_expr else_expr) acc deps h =
        let (k, g) =
          walk_two (walk condition acc >>= walk then_expr) (deep condition × deep then_expr) acc
            deps else_expr
            (λ mid.
              walk_two (walk condition acc) (deep condition) acc mid then_expr
                (below condition acc))
            h in
        (k, λ u. let ((a, b), c) = g u in (a, b, c))
    extract_expr-Walked (field_access base name hash) acc deps h = below base acc deps h

  node-Walked :
      (arena : Arena) (walk : ℕ → List ℕ → Outcome (List ℕ)) (deep : ℕ → Type 0)
      → ((id : ℕ) (acc deps : List ℕ) → walk id acc ≡ ok deps → Walked acc deps (deep id))
      → (o : Option Expr) (acc deps : List ℕ)
      → elim o as (λ _. Outcome (List ℕ)) [
        | some e ↦ extract_expr gst arena walk e acc
        | none ↦ panicked
      ]
        ≡ ok deps
      → Walked acc deps (CleanNode taint gst arena deep o)
  node-Walked arena walk deep below none acc deps h = absurd (cc)
  node-Walked arena walk deep below (some e) acc deps h =
      extract_expr-Walked arena walk deep below e acc deps h

  extract_deps-Walked :
      (fuel : ℕ) (arena : Arena) (id : ℕ) (acc deps : List ℕ)
      → extract_deps gst fuel arena id acc ≡ ok deps
      → Walked acc deps (Clean taint gst fuel arena id)
  unfolding extract_deps
  extract_deps-Walked zero arena id acc deps h = absurd (cc)
  extract_deps-Walked (suc fuel) arena id acc deps h =
      node-Walked arena (extract_deps gst fuel arena) (Clean taint gst fuel arena)
        (extract_deps-Walked fuel arena) (get_elem? arena.nodes id) acc deps h

  pub extract_deps-Clean :
      (fuel : ℕ) (arena : Arena) (id : ℕ) (deps : List ℕ)
      → extract_deps gst fuel arena id [] ≡ ok deps
      → Untainted deps
      → Clean taint gst fuel arena id
  extract_deps-Clean fuel arena id deps h = (extract_deps-Walked fuel arena id [] deps h).1
