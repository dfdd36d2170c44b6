-- ===== src/Evaluator/Syntax.antt =====
-- crates/core/src/parser/logic/ast/mod.rs: expressions, in an arena that their nodes refer into by
-- number, functions, actions and types.
use mizu_navigator.Prelude.{
  ℕ, ◌+◌, Bool, true, ◌&&◌, Option, none, some, List, [], ◌∷◌, length, take, drop, ltb, leb,
  if◌then◌else◌, Bytes,
}
use mizu_navigator.Value.{Value}
use mizu_navigator.Value.Operators.{BinOp}

-- Record types hold a list of names and types.
mutual
  pub data ValueType : Type 0 where
    num_type str_type bool_type : ValueType
    list_type : ValueType → ValueType
    record_type : FieldTypes → ValueType
    nullable : ValueType → ValueType

  pub data FieldTypes : Type 0 where
    no_type : FieldTypes
    field_type : Bytes → ValueType → FieldTypes → FieldTypes

pub data Expr : Type 0 where
  literal : Value → Expr
  variable : ℕ → Expr
  -- the left operand, the operator and the right operand
  binary_op : ℕ → BinOp → ℕ → Expr
  -- the name, and the window of the arena's argument pool
  function_call : ℕ → ℕ → ℕ → Expr
  -- the name, the value and the body
  let_in : ℕ → ℕ → ℕ → Expr
  not_of : ℕ → Expr
  if_else : ℕ → ℕ → ℕ → Expr
  -- the base, the field's symbol and its hash
  field_access : ℕ → ℕ → ℕ → Expr

pub record Arena : Type 0 where
  pub nodes : List Expr
  pub args_pool : List ℕ

-- `ExprTree`: an arena and its root
pub record ExprTree : Type 0 where
  pub root : ℕ
  pub arena : Arena

pub record MizuFunction : Type 0 where
  pub params : List (ℕ × ValueType)
  pub body : ExprTree

-- What evaluation reads: the functions by name, and the interner's texts.
pub record Program : Type 0 where
  pub functions : ℕ → Option MizuFunction
  pub resolve : ℕ → Option Bytes

-- `args`; the slice panics past the pool's end.
unfoldable pub args : Arena → ℕ → ℕ → Option (List ℕ)
args arena start len =
    if leb (start + len) (length arena.args_pool)
    then some (take len (drop start arena.args_pool))
    else none

-- The node tests of `validate_references`
unfoldable pub refers_within : ℕ → ℕ → Expr → Bool
refers_within node_count pool_len (literal v) = true
refers_within node_count pool_len (variable sym) = true
refers_within node_count pool_len (not_of inner) = ltb inner node_count
refers_within node_count pool_len (binary_op left op right) =
    ltb left node_count && ltb right node_count
refers_within node_count pool_len (let_in sym value body) =
    ltb value node_count && ltb body node_count
refers_within node_count pool_len (if_else condition then_expr else_expr) =
    ltb condition node_count && (ltb then_expr node_count && ltb else_expr node_count)
refers_within node_count pool_len (field_access base field hash) = ltb base node_count
refers_within node_count pool_len (function_call name start len) = leb (start + len) pool_len

abbrev pub all {ℓ} : {A : Type ℓ} → (A → Bool) → List A → Bool
all p [] = true
all p (x ∷ xs) = p x && all p xs

-- `validate_references(..).is_ok()`
unfoldable pub validate_references : Arena → Bool
validate_references arena =
    all (refers_within (length arena.nodes) (length arena.args_pool)) arena.nodes
    && all (λ id. ltb id (length arena.nodes)) arena.args_pool
