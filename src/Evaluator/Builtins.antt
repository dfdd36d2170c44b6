-- ===== src/Evaluator/Builtins.antt =====
-- The built-in functions of crates/core/src/core/types/eval/evaluate.rs, each given the evaluation
-- of an argument by its number.
pub mod Lists
pub mod Dispatch
use mizu_navigator.Prelude.{
  ℕ, zero, suc, ◌+◌, ◌*◌, ◌/◌, Bool, true, false, not, ◌&&◌, Option, none, some, List, [], ◌∷◌,
  ◌++◌, length, get_elem?, ltb, leb, ◌==◌, if◌then◌else◌, Bytes, codes, bytes_eq, contains_bytes,
  saturating_add,
}
use mizu_navigator.Value.{
  Value, null, bool, int, decimal, string, list, record_of, file_handle, items, ℤ, pos, type_error,
  type_name, execution_error, timeout, Outcome, ok, err, get_field, hash_field,
}
use mizu_navigator.Value.Equality.{count_items}
use mizu_navigator.Value.Display.{format_int, format_decimal, format_bool}
use mizu_navigator.Evaluator.{
  Evaluator, RuntimeAction, copy_to_clipboard, get_system_time, store_local, download_alias,
}
use mizu_navigator.Evaluator.Syntax.{Expr, variable, Arena}
use mizu_navigator.Evaluator.Monad.{M, ◌>>=◌, ◌>>◌, return, raise, panic, charge, metered, queue}

-- A value that must be a string, or the type error that names it
abbrev pub expect_string : Value → M Bytes
expect_string (string s) = return s
expect_string v = raise (type_error (type_name v))

abbrev pub expect_list : Value → M (List Value)
expect_list (list vs) = return (items vs)
expect_list v = raise (type_error (type_name v))

-- The same, with the error of `store_local` and `copy_to_clipboard`
abbrev pub string_or_fail : Value → M Bytes
string_or_fail (string s) = return s
string_or_fail v = raise execution_error

abbrev pub symbol_of : Expr → M ℕ
symbol_of (variable sym) = return sym
symbol_of e = raise execution_error

-- The symbol of a bare variable, which is not evaluated
abbrev pub bare_variable : Arena → ℕ → M ℕ
bare_variable arena id = elim (get_elem? arena.nodes id) [ none ↦ panic | some e ↦ symbol_of e ]

abbrev pub is_computed : ℕ → M Bool
is_computed sym s = (ok (s.computed_var_syms sym), s)

-- A computation that a failed guard refuses
abbrev pub unless : Bool → M Value → M Value
unless b m = if b then raise execution_error else m

-- The bytes that start a character
abbrev pub char_count : Bytes → ℕ
char_count [] = 0
char_count (c ∷ s) = if c / 64 == 2 then char_count s else suc (char_count s)

-- A string's length is charged by its characters, after a test by its bytes.
unfoldable pub measure_string : Bytes → ℕ → ℕ → Outcome Value × ℕ
measure_string s count max =
    if ltb max (saturating_add count (length s))
    then (err timeout, count)
    else (ok (int (pos (char_count s))), saturating_add count (char_count s))

-- The value of `length`
unfoldable pub measure : Value → M Value
measure (list vs) = return (int (pos (count_items vs)))
measure (string s) = metered (measure_string s)
measure v = raise (type_error (type_name v))

unfoldable pub stringify : Value → M Value
stringify (int n) = return (string (format_int n))
stringify (decimal n) = return (string (format_decimal n false))
stringify (bool b) = return (string (format_bool b))
stringify v = raise (type_error (type_name v))

unfoldable pub field_present : Value → Value → M Value
field_present (record_of fs) name = do
  s ← expect_string name
  return (bool (elim (get_field (record_of fs) (hash_field s) s) [ some v ↦ true | none ↦ false ]))
field_present v name = raise (type_error (type_name v))

module _ (arena : Arena) (run : ℕ → M Value) where
  unfoldable pub call_copy_to_clipboard : List ℕ → M Value
  call_copy_to_clipboard (a ∷ []) = do
    v ← run a
    node_id ← string_or_fail v
    queue (copy_to_clipboard node_id)
    return (bool true)
  call_copy_to_clipboard args = raise execution_error

  unfoldable pub call_get_system_time : List ℕ → M Value
  call_get_system_time (a ∷ []) = do
    target ← bare_variable arena a
    computed ← is_computed target
    unless computed (queue (get_system_time target) >> return (bool true))
  call_get_system_time args = raise execution_error

  unfoldable pub call_store_local : List ℕ → M Value
  call_store_local (k ∷ v ∷ []) = do
    key_val ← run k
    key ← string_or_fail key_val
    value ← run v
    queue (store_local key value)
    return (bool true)
  call_store_local args = raise execution_error

  unfoldable pub call_download : ℕ → M Value
  call_download a = do
    alias_sym ← bare_variable arena a
    queue (download_alias alias_sym)
    return null

  unfoldable pub call_length : ℕ → M Value
  call_length a = run a >>= measure

  unfoldable pub call_to_string : ℕ → M Value
  call_to_string a = run a >>= stringify

  unfoldable pub call_contains : ℕ → ℕ → M Value
  call_contains h n = do
    haystack_val ← run h
    needle_val ← run n
    haystack ← expect_string haystack_val
    needle ← expect_string needle_val
    charge (length haystack)
    return (bool (contains_bytes needle haystack))

  unfoldable pub call_has_field : ℕ → ℕ → M Value
  call_has_field r n = do record_val ← run r; name_val ← run n; field_present record_val name_val
