-- ===== src/Flow/Ordered.antt =====
-- Walks over the expressions that the parser builds, where a node refers only to nodes that were
-- allocated before it: one step down.
use mizu_navigator.Prelude.{
  insert, ℕ, zero, suc, ◌+◌, ◌<◌, ◌≡◌, refl, arith, Bool, true, false, Option, none, some, List, [],
  ◌∷◌, length, get_elem?, if◌then◌else◌, All, ◌==◌,
}
use mathlib.Core.Path.{subst}
use mizu_navigator.Value.{Outcome, ok, err, panicked, out_of_fuel}
use mizu_navigator.Evaluator.Syntax.{
  Expr, literal, variable, binary_op, function_call, let_in, not_of, if_else, field_access, Arena,
  ExprTree, args,
}
use mizu_navigator.Flow.{◌>>=◌}
use mizu_navigator.Flow.Walk.{
  Taint, is_symbol, walk_all, extract_expr, or_else, any_tainted, tainted_expr, call_target,
  targets_expr,
}

-- A verdict: neither a panic nor an end of the fuel
abbrev pub Fine {ℓ} : {A : Type ℓ} → Outcome A → Type 0
Fine (ok a) = Unit
Fine (err e) = Unit
Fine panicked = ⊥
Fine out_of_fuel = ⊥

pub bind-Fine :
    {A B : Type 0} (m : Outcome A) (f : A → Outcome B)
    → Fine m
    → ((a : A) → m ≡ ok a → Fine (f a))
    → Fine (m >>= f)
bind-Fine (ok a) f h k = k a refl
bind-Fine (err e) f h k = tt
bind-Fine panicked f h k = h
bind-Fine out_of_fuel f h k = h

pub or_else-Fine : (m n : Outcome Bool) → Fine m → Fine n → Fine (or_else m n)
or_else-Fine (ok true) n h k = tt
or_else-Fine (ok false) n h k = k
or_else-Fine (err e) n h k = tt
or_else-Fine panicked n h k = h
or_else-Fine out_of_fuel n h k = h

pub node-Fine :
    {A : Type 0} (o : Option Expr) (k : Expr → Outcome A) (e : Expr)
    → o ≡ some e
    → Fine (k e)
    → Fine (elim o as (λ _. Outcome A) [ some x ↦ k x | none ↦ panicked ])
node-Fine none k e p h = absurd (cc)
node-Fine (some x) k e p h = let q : e ≡ x = cc in subst (λ y. Fine (k y)) q h

abbrev pub Below : Arena → ℕ → Expr → Type 0
Below arena i (literal v) = Unit
Below arena i (variable name) = Unit
Below arena i (binary_op left op right) = (left < i) × (right < i)
Below arena i (function_call name start len) = elim (args arena start len) [
  | none ↦ ⊥
  | some ids ↦ All (λ id. id < i) ids
]
Below arena i (let_in name value body) = (value < i) × (body < i)
Below arena i (not_of inner) = inner < i
Below arena i (if_else condition then_expr else_expr) =
    (condition < i) × (then_expr < i) × (else_expr < i)
Below arena i (field_access base name hash) = base < i

-- The nodes from the index i on
abbrev pub OrderedFrom : Arena → ℕ → List Expr → Type 0
OrderedFrom arena i [] = Unit
OrderedFrom arena i (e ∷ es) = Below arena i e × OrderedFrom arena (suc i) es

abbrev pub IsOrdered : ExprTree → Type 0
IsOrdered tree = (tree.root < length tree.arena.nodes) × OrderedFrom tree.arena 0 tree.arena.nodes

abbrev pub Found : Arena → ℕ → Option Expr → Type 0
Found arena i none = ⊥
Found arena i (some e) = Below arena i e

pub ordered-Found :
    (arena : Arena) (i id : ℕ) (es : List Expr)
    → OrderedFrom arena i es
    → id < length es
    → Found arena (i + id) (get_elem? es id)
ordered-Found arena i id [] h l = absurd (omega arith)
ordered-Found arena i zero (e ∷ es) h l = let q : i + 0 ≡ i = omega arith in rw q h.0
ordered-Found arena i (suc id) (e ∷ es) h l =
    let q : i + suc id ≡ suc i + id = omega arith in
    rw q (ordered-Found arena (suc i) id es h.1 (omega arith))

module _ (walk : ℕ → List ℕ → Outcome (List ℕ)) (i : ℕ)
    (below : (id : ℕ) (acc : List ℕ) → id < i → Fine (walk id acc)) where
  walk_all-Fine : (ids acc : List ℕ) → All (λ id. id < i) ids → Fine (walk_all walk ids acc)
  unfolding walk_all
  walk_all-Fine [] acc h = tt
  walk_all-Fine (id ∷ ids) acc h =
      bind-Fine (walk id acc) (walk_all walk ids) (below id acc h.0)
        (λ mid e. walk_all-Fine ids mid h.1)

  two-Fine : (a b : ℕ) (acc : List ℕ) → a < i → b < i → Fine (walk a acc >>= walk b)
  two-Fine a b acc h k = bind-Fine (walk a acc) (walk b) (below a acc h) (λ mid e. below b mid k)

  three-Fine :
      (a b c : ℕ) (acc : List ℕ) → a < i → b < i → c < i → Fine ((walk a acc >>= walk b) >>= walk c)
  three-Fine a b c acc h k l =
      bind-Fine (walk a acc >>= walk b) (walk c) (two-Fine a b acc h k) (λ mid e. below c mid l)

  module _ (gst : Option ℕ) (arena : Arena) where
    extract_call-Fine :
        (name start len : ℕ) (acc : List ℕ)
        → Below arena i (function_call name start len)
        → Fine (extract_expr gst arena walk (function_call name start len) acc)
    unfolding extract_expr
    extract_call-Fine name start zero acc h = walk_all-Fine [] _ tt
    extract_call-Fine name start (suc len) acc h = opened (args arena start (suc len)) h
      where
        opened :
            (o : Option (List ℕ))
            → elim o as (λ _. Type 0) [ none ↦ ⊥ | some ids ↦ All (λ id. id < i) ids ]
            → Fine (elim o as (λ _. Outcome (List ℕ)) [
              | some ids ↦ walk_all walk ids (if is_symbol gst name then acc else insert name acc)
              | none ↦ panicked
            ])
        opened none q = absurd q
        opened (some ids) q = walk_all-Fine ids _ q

    pub extract_expr-Fine :
        (e : Expr) (acc : List ℕ) → Below arena i e → Fine (extract_expr gst arena walk e acc)
    unfolding extract_expr
    extract_expr-Fine (literal v) acc h = tt
    extract_expr-Fine (variable name) acc h = tt
    extract_expr-Fine (binary_op left op right) acc h = two-Fine left right acc h.0 h.1
    extract_expr-Fine (function_call name start len) acc h = extract_call-Fine name start len acc h
    extract_expr-Fine (let_in name value body) acc h = two-Fine value body acc h.0 h.1
    extract_expr-Fine (not_of inner) acc h = below inner acc h
    extract_expr-Fine (if_else c t e) acc h = three-Fine c t e acc h.0 h.1 h.2
    extract_expr-Fine (field_access base name hash) acc h = below base acc h

  module _ (gst : ℕ) (arena : Arena)
      (found : (id : ℕ) → id < i → (e : Expr) × (get_elem? arena.nodes id ≡ some e)) where
    call_target-Fine :
        (ids acc : List ℕ) → All (λ id. id < i) ids → Fine (call_target arena ids acc)
    call_target-Fine [] acc h = tt
    call_target-Fine (a ∷ []) acc h =
        let (e, p) = found a h.0 in node-Fine (get_elem? arena.nodes a) _ e p tt
    call_target-Fine (a ∷ b ∷ ids) acc h = tt

    named_target-Fine :
        (b : Bool) (ids acc : List ℕ)
        → All (λ id. id < i) ids
        → Fine (if b then call_target arena ids acc else ok acc)
    named_target-Fine true ids acc h = call_target-Fine ids acc h
    named_target-Fine false ids acc h = tt

    targets_call-Fine :
        (name : ℕ) (acc : List ℕ) (o : Option (List ℕ))
        → elim o as (λ _. Type 0) [ none ↦ ⊥ | some ids ↦ All (λ id. id < i) ids ]
        → Fine (elim o as (λ _. Outcome (List ℕ)) [
          | some ids ↦
              (if name == gst then call_target arena ids acc else ok acc) >>= walk_all walk ids
          | none ↦ panicked
        ])
    targets_call-Fine name acc none h = absurd h
    targets_call-Fine name acc (some ids) h =
        bind-Fine (if name == gst then call_target arena ids acc else ok acc) (walk_all walk ids)
          (named_target-Fine (name == gst) ids acc h) (λ mid e. walk_all-Fine ids mid h)

    pub targets_expr-Fine :
        (e : Expr) (acc : List ℕ) → Below arena i e → Fine (targets_expr gst arena walk e acc)
    unfolding targets_expr
    targets_expr-Fine (literal v) acc h = tt
    targets_expr-Fine (variable name) acc h = tt
    targets_expr-Fine (binary_op left op right) acc h = two-Fine left right acc h.0 h.1
    targets_expr-Fine (function_call name start len) acc h =
        targets_call-Fine name acc (args arena start len) h
    targets_expr-Fine (let_in name value body) acc h = two-Fine value body acc h.0 h.1
    targets_expr-Fine (not_of inner) acc h = below inner acc h
    targets_expr-Fine (if_else c t e) acc h = three-Fine c t e acc h.0 h.1 h.2
    targets_expr-Fine (field_access base name hash) acc h = below base acc h

module _ (test : ℕ → Outcome Bool) (i : ℕ) (below : (id : ℕ) → id < i → Fine (test id))
    (taint : Taint) (gst : Option ℕ) (arena : Arena) where
  any_tainted-Fine : (ids : List ℕ) → All (λ id. id < i) ids → Fine (any_tainted test ids)
  unfolding any_tainted
  any_tainted-Fine [] h = tt
  any_tainted-Fine (id ∷ ids) h =
      or_else-Fine (test id) (any_tainted test ids) (below id h.0) (any_tainted-Fine ids h.1)

  tainted_call-Fine :
      (b c : Bool) (o : Option (List ℕ))
      → elim o as (λ _. Type 0) [ none ↦ ⊥ | some ids ↦ All (λ id. id < i) ids ]
      → Fine (
          if b
          then ok false
          else if c
          then ok true
          else elim o as (λ _. Outcome Bool) [ some ids ↦ any_tainted test ids | none ↦ panicked ])
  tainted_call-Fine true c o h = tt
  tainted_call-Fine false true o h = tt
  tainted_call-Fine false false none h = h
  tainted_call-Fine false false (some ids) h = any_tainted-Fine ids h

  pub tainted_expr-Fine : (e : Expr) → Below arena i e → Fine (tainted_expr taint gst arena test e)
  unfolding tainted_expr
  tainted_expr-Fine (literal v) h = tt
  tainted_expr-Fine (variable name) h = tt
  tainted_expr-Fine (binary_op left op right) h =
      or_else-Fine (test left) (test right) (below left h.0) (below right h.1)
  tainted_expr-Fine (function_call name start len) h =
      tainted_call-Fine (is_symbol gst name) (taint.functions name) (args arena start len) h
  tainted_expr-Fine (let_in name value body) h =
      or_else-Fine (test value) (test body) (below value h.0) (below body h.1)
  tainted_expr-Fine (not_of inner) h = below inner h
  tainted_expr-Fine (if_else c t e) h =
      or_else-Fine (test c) (or_else (test t) (test e)) (below c h.0)
        (or_else-Fine (test t) (test e) (below t h.1) (below e h.2))
  tainted_expr-Fine (field_access base name hash) h = below base h
