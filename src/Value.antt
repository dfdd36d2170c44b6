-- ===== src/Value.antt =====
-- crates/core/src/core/types/value.rs and crates/core/src/core/errors.rs: the values of a
-- document, what an operation on them returns, and the lookup of a record's field. A string is
-- its bytes; an opaque file handle is the identity of its allocation.
mod Integers
pub mod Order
pub mod Equality
pub mod Structural
pub mod Decides
pub mod Budget
pub mod Operators
pub mod Ranges
pub mod Exact
mod Tests
pub mod Display
pub mod Records
use mizu_navigator.Prelude.{
  ℕ, zero, suc, ◌+◌, ◌*◌, ◌/◌, ◌%◌, ◌^◌, Bool, true, false, ◌&&◌, Option, none, some, List, [], ◌∷◌,
  ltb, leb, ◌==◌, if◌then◌else◌, Bytes, bytes_eq,
}
unfoldable pub use Integers.*

mutual
  pub data Value : Type 0 where
    null : Value
    bool : Bool → Value
    int : ℤ → Value
    decimal : ℤ → Value
    string : Bytes → Value
    list : Values → Value
    record_of : Fields → Value
    file_handle : ℕ → Value

  pub data Values : Type 0 where
    nil : Values
    cons : Value → Values → Values

  -- `RecordField`s: a hash, a key and a value each.
  pub data Fields : Type 0 where
    no_field : Fields
    field : ℕ → Bytes → Value → Fields → Fields

abbrev pub items : Values → List Value
items nil = []
items (cons v vs) = v ∷ items vs

abbrev pub of_items : List Value → Values
of_items [] = nil
of_items (v ∷ vs) = cons v (of_items vs)

abbrev pub decimal_scale : ℕ
decimal_scale = 100000000

-- The names that `type_name` prints.
pub data TypeName : Type 0 where
  num_name string_name bool_name list_name record_name null_name file_name operands_name : TypeName

-- `type_name`
abbrev pub type_name : Value → TypeName
type_name null = null_name
type_name (bool b) = bool_name
type_name (int n) = num_name
type_name (decimal n) = num_name
type_name (string s) = string_name
type_name (list vs) = list_name
type_name (record_of fs) = record_name
type_name (file_handle i) = file_name

-- The variants of `MizuError` that evaluation returns, without their messages.
pub data MizuError : Type 0 where
  timeout integer_overflow division_by_zero execution_error parse_error : MizuError
  type_error : TypeName → MizuError
  variable_not_found : Bytes → MizuError

-- What a Rust call does: `Ok`, `Err`, or a panic on an index out of range. The last is the model's
-- own, for a run that needs more fuel than it was given.
pub data Outcome {ℓ} (A : Type ℓ) : Type ℓ where
  ok : A → Outcome A
  err : MizuError → Outcome A
  panicked out_of_fuel : Outcome A

-- `a ^ b` on the lowest `w` bits
unfoldable pub xor : ℕ → ℕ → ℕ → ℕ
xor zero a b = 0
xor (suc w) a b = (a % 2 + b % 2) % 2 + 2 * xor w (a / 2) (b / 2)

unfoldable pub hash_bytes : ℕ → Bytes → ℕ
hash_bytes h [] = h
hash_bytes h (b ∷ bs) = hash_bytes (xor 32 h b * 16777619 % 2 ^ 32) bs

-- `hash_field`: FNV-1a on 32 bits.
abbrev pub hash_field : Bytes → ℕ
hash_field s = hash_bytes 2166136261 s

unfoldable pub find_field : Fields → ℕ → Bytes → Option Value
find_field no_field hash name = none
find_field (field h key v fs) hash name =
    if (h == hash) && bytes_eq key name then some v else find_field fs hash name

unfoldable pub get_field : Value → ℕ → Bytes → Option Value
get_field (record_of fs) hash name = find_field fs hash name
get_field null hash name = none
get_field (bool b) hash name = none
get_field (int n) hash name = none
get_field (decimal n) hash name = none
get_field (string s) hash name = none
get_field (list vs) hash name = none
get_field (file_handle i) hash name = none
