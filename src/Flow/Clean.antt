-- ===== src/Flow/Clean.antt =====
-- Expressions that read no tainted symbol: what `is_expr_tainted` rejects none of, and what
-- `extract_deps` finds no tainted dependency in.
use mizu_navigator.Prelude.{
  ℕ, zero, suc, ◌≡◌, refl, arith, Bool, true, false, Option, none, some, List, [], ◌∷◌, get_elem?,
  if◌then◌else◌, ◌⊎◌, inl, inr, Bool-cases, All,
}
use mizu_navigator.Value.{Outcome, ok, err, panicked, out_of_fuel}
use mizu_navigator.Evaluator.Syntax.{
  Expr, literal, variable, binary_op, function_call, let_in, not_of, if_else, field_access, Arena,
  args,
}
use mizu_navigator.Flow.Walk.{Taint, is_symbol, or_else, any_tainted, tainted_expr, is_expr_tainted}

module _ (taint : Taint) (gst : Option ℕ) where
  abbrev pub CleanCall : (ℕ → Type 0) → ℕ → List ℕ → Type 0
  CleanCall deep name ids =
      (is_symbol gst name ≡ true) ⊎ ((taint.functions name ≡ false) × All deep ids)

  abbrev pub CleanExpr : Arena → (ℕ → Type 0) → Expr → Type 0
  CleanExpr arena deep (literal v) = Unit
  CleanExpr arena deep (variable name) = taint.vars name ≡ false
  CleanExpr arena deep (binary_op left op right) = deep left × deep right
  CleanExpr arena deep (function_call name start len) = elim (args arena start len) [
    | none ↦ Unit
    | some ids ↦ CleanCall deep name ids
  ]
  CleanExpr arena deep (let_in name value body) = deep value × deep body
  CleanExpr arena deep (not_of inner) = deep inner
  CleanExpr arena deep (if_else condition then_expr else_expr) =
      deep condition × deep then_expr × deep else_expr
  CleanExpr arena deep (field_access base name hash) = deep base

  abbrev pub CleanNode : Arena → (ℕ → Type 0) → Option Expr → Type 0
  CleanNode arena deep none = Unit
  CleanNode arena deep (some e) = CleanExpr arena deep e

  -- A node that is clean down to some depth, beyond which it has no nodes.
  abbrev pub Clean : ℕ → Arena → ℕ → Type 0
  Clean zero arena id = ⊥
  Clean (suc fuel) arena id = CleanNode arena (Clean fuel arena) (get_elem? arena.nodes id)

  module _ (arena : Arena) (test : ℕ → Outcome Bool) (deep : ℕ → Type 0)
      (below : (id : ℕ) → test id ≡ ok false → deep id) where
    or_else-false : (m n : Outcome Bool) → or_else m n ≡ ok false → (m ≡ ok false) × (n ≡ ok false)
    or_else-false (ok true) n h = absurd (cc)
    or_else-false (ok false) n h = (refl, h)
    or_else-false (err e) n h = absurd (cc)
    or_else-false panicked n h = absurd (cc)
    or_else-false out_of_fuel n h = absurd (cc)

    any_tainted-false : (ids : List ℕ) → any_tainted test ids ≡ ok false → All deep ids
    unfolding any_tainted
    any_tainted-false [] h = tt
    any_tainted-false (id ∷ ids) h =
        let (p, q) = or_else-false (test id) (any_tainted test ids) h in
        (below id p, any_tainted-false ids q)

    CleanCall-false :
        (name : ℕ) (o : Option (List ℕ))
        → (if is_symbol gst name
            then ok false
            else if taint.functions name
            then ok true
            else elim o [ some ids ↦ any_tainted test ids | none ↦ panicked ])
          ≡ ok false
        → elim o as (λ _. Type 0) [ none ↦ Unit | some ids ↦ CleanCall deep name ids ]
    CleanCall-false name none h = tt
    CleanCall-false name (some ids) h = elim (Bool-cases (is_symbol gst name)) [
      | inl e ↦ inl e
      | inr e ↦ elim (Bool-cases (taint.functions name)) [
        | inl f ↦ absurd (ground (arith, e, f))
        | inr f ↦ inr (f, any_tainted-false ids (ground (arith, e, f)))
      ]
    ]

    tainted_expr-false :
        (e : Expr) → tainted_expr taint gst arena test e ≡ ok false → CleanExpr arena deep e
    unfolding tainted_expr
    tainted_expr-false (literal v) h = tt
    tainted_expr-false (variable name) h = cc
    tainted_expr-false (binary_op left op right) h =
        let (p, q) = or_else-false (test left) (test right) h in (below left p, below right q)
    tainted_expr-false (function_call name start len) h =
        CleanCall-false name (args arena start len) h
    tainted_expr-false (let_in name value body) h =
        let (p, q) = or_else-false (test value) (test body) h in (below value p, below body q)
    tainted_expr-false (not_of inner) h = below inner h
    tainted_expr-false (if_else condition then_expr else_expr) h =
        let (p, r) = or_else-false (test condition) (or_else (test then_expr) (test else_expr)) h in
        let (q, s) = or_else-false (test then_expr) (test else_expr) r in
        (below condition p, below then_expr q, below else_expr s)
    tainted_expr-false (field_access base name hash) h = below base h

  CleanNode-false :
      (arena : Arena) (test : ℕ → Outcome Bool) (deep : ℕ → Type 0)
      → ((id : ℕ) → test id ≡ ok false → deep id)
      → (o : Option Expr)
      → elim o as (λ _. Outcome Bool) [
        | some e ↦ tainted_expr taint gst arena test e
        | none ↦ panicked
      ]
        ≡ ok false
      → CleanNode arena deep o
  CleanNode-false arena test deep below none h = tt
  CleanNode-false arena test deep below (some e) h = tainted_expr-false arena test deep below e h

  -- An expression that the test accepts is clean.
  pub is_expr_tainted-Clean :
      (fuel : ℕ) (arena : Arena) (id : ℕ)
      → is_expr_tainted taint gst fuel arena id ≡ ok false
      → Clean fuel arena id
  unfolding is_expr_tainted
  is_expr_tainted-Clean zero arena id h = absurd (cc)
  is_expr_tainted-Clean (suc fuel) arena id h =
      CleanNode-false arena (is_expr_tainted taint gst fuel arena) (Clean fuel arena)
        (is_expr_tainted-Clean fuel arena) (get_elem? arena.nodes id) h
