-- ===== src/Value/Operators.antt =====
-- crates/core/src/parser/logic/eval.rs: the binary operators on two evaluated values.
use mizu_navigator.Prelude.{
  ℕ, Bool, true, false, not, ◌&&◌, ◌||◌, none, some, ◌++◌, length, ltb, if◌then◌else◌, Bytes,
  bytes_eq, saturating_add,
}
use mizu_navigator.Value.{
  Value, null, bool, int, decimal, string, ℤ, pos, ◌+ℤ◌, ◌-ℤ◌, ◌*ℤ◌, ◌/ℤ◌, eq_ℤ, ltb_ℤ, leb_ℤ,
  to_i64, decimal_scale, timeout, integer_overflow, division_by_zero, type_error, Outcome, ok, err,
  TypeName, type_name, num_name, string_name, bool_name, null_name,
}
use mizu_navigator.Value.Order.{bytes_ltb}

pub data BinOp : Type 0 where
  add sub mul div eq ne lt gt le ge and or : BinOp

abbrev pub is_comparison : BinOp → Bool
is_comparison eq = true
is_comparison ne = true
is_comparison lt = true
is_comparison gt = true
is_comparison le = true
is_comparison ge = true
is_comparison add = false
is_comparison sub = false
is_comparison mul = false
is_comparison div = false
is_comparison and = false
is_comparison or = false

unfoldable pub compare_op : BinOp → ℤ → ℤ → Bool
compare_op eq l r = eq_ℤ l r
compare_op ne l r = not (eq_ℤ l r)
compare_op lt l r = ltb_ℤ l r
compare_op gt l r = ltb_ℤ r l
compare_op le l r = leb_ℤ l r
compare_op ge l r = leb_ℤ r l
compare_op add l r = false
compare_op sub l r = false
compare_op mul l r = false
compare_op div l r = false
compare_op and l r = false
compare_op or l r = false

abbrev pub scale : ℤ
scale = pos decimal_scale

-- `.map(wrap).ok_or(IntegerOverflow)`
abbrev pub checked : (ℤ → Value) → ℤ → Outcome Value
checked wrap n = elim (to_i64 n) [ some m ↦ ok (wrap m) | none ↦ err integer_overflow ]

abbrev pub divided : ℤ → ℤ → Outcome Value
divided n r = if eq_ℤ r (pos 0) then err division_by_zero else checked decimal (n /ℤ r)

-- The arms of `apply_binop` whose operands are two integers
unfoldable pub binop_int : BinOp → ℤ → ℤ → Outcome Value
binop_int add l r = checked int (l +ℤ r)
binop_int sub l r = checked int (l -ℤ r)
binop_int mul l r = checked int (l *ℤ r)
binop_int div l r = divided (l *ℤ scale) r
binop_int eq l r = ok (bool (eq_ℤ l r))
binop_int ne l r = ok (bool (not (eq_ℤ l r)))
binop_int lt l r = ok (bool (ltb_ℤ l r))
binop_int gt l r = ok (bool (ltb_ℤ r l))
binop_int le l r = ok (bool (leb_ℤ l r))
binop_int ge l r = ok (bool (leb_ℤ r l))
binop_int and l r = err (type_error num_name)
binop_int or l r = err (type_error num_name)

-- two decimals
unfoldable pub binop_decimal : BinOp → ℤ → ℤ → Outcome Value
binop_decimal add l r = checked decimal (l +ℤ r)
binop_decimal sub l r = checked decimal (l -ℤ r)
binop_decimal mul l r = checked decimal ((l *ℤ r) /ℤ scale)
binop_decimal div l r = divided (l *ℤ scale) r
binop_decimal eq l r = ok (bool (eq_ℤ l r))
binop_decimal ne l r = ok (bool (not (eq_ℤ l r)))
binop_decimal lt l r = ok (bool (ltb_ℤ l r))
binop_decimal gt l r = ok (bool (ltb_ℤ r l))
binop_decimal le l r = ok (bool (leb_ℤ l r))
binop_decimal ge l r = ok (bool (leb_ℤ r l))
binop_decimal and l r = err (type_error num_name)
binop_decimal or l r = err (type_error num_name)

-- an integer and a decimal, in either order: a comparison is exact, arithmetic promotes
unfoldable pub binop_int_decimal : BinOp → ℤ → ℤ → Outcome Value
binop_int_decimal op l r =
    if is_comparison op
    then ok (bool (compare_op op (l *ℤ scale) r))
    else elim (to_i64 (l *ℤ scale)) [
      | some scaled ↦ binop_decimal op scaled r
      | none ↦ err integer_overflow
    ]

unfoldable pub binop_decimal_int : BinOp → ℤ → ℤ → Outcome Value
binop_decimal_int op l r =
    if is_comparison op
    then ok (bool (compare_op op l (r *ℤ scale)))
    else elim (to_i64 (r *ℤ scale)) [
      | some scaled ↦ binop_decimal op l scaled
      | none ↦ err integer_overflow
    ]

-- two strings, with the count after the operation: only `+` is charged
unfoldable pub binop_string : BinOp → Bytes → Bytes → ℕ → ℕ → Outcome Value × ℕ
binop_string add l r count max =
    let count' = saturating_add count (saturating_add (length l) (length r)) in
    if ltb max count' then (err timeout, count') else (ok (string (l ++ r)), count')
binop_string eq l r count max = (ok (bool (bytes_eq l r)), count)
binop_string ne l r count max = (ok (bool (not (bytes_eq l r))), count)
binop_string lt l r count max = (ok (bool (bytes_ltb l r)), count)
binop_string gt l r count max = (ok (bool (bytes_ltb r l)), count)
binop_string le l r count max = (ok (bool (not (bytes_ltb r l))), count)
binop_string ge l r count max = (ok (bool (not (bytes_ltb l r))), count)
binop_string sub l r count max = (err (type_error string_name), count)
binop_string mul l r count max = (err (type_error string_name), count)
binop_string div l r count max = (err (type_error string_name), count)
binop_string and l r count max = (err (type_error string_name), count)
binop_string or l r count max = (err (type_error string_name), count)

abbrev pub bool_eq : Bool → Bool → Bool
bool_eq true b = b
bool_eq false b = not b

-- two booleans
unfoldable pub binop_bool : BinOp → Bool → Bool → Outcome Value
binop_bool eq l r = ok (bool (bool_eq l r))
binop_bool ne l r = ok (bool (not (bool_eq l r)))
binop_bool and l r = ok (bool (l && r))
binop_bool or l r = ok (bool (l || r))
binop_bool add l r = err (type_error bool_name)
binop_bool sub l r = err (type_error bool_name)
binop_bool mul l r = err (type_error bool_name)
binop_bool div l r = err (type_error bool_name)
binop_bool lt l r = err (type_error bool_name)
binop_bool gt l r = err (type_error bool_name)
binop_bool le l r = err (type_error bool_name)
binop_bool ge l r = err (type_error bool_name)

-- An operand is null: `same` when both are, `name` is the left one's type.
unfoldable pub binop_null : BinOp → Bool → TypeName → Outcome Value
binop_null eq same name = ok (bool same)
binop_null ne same name = ok (bool (not same))
binop_null add same name = err (type_error name)
binop_null sub same name = err (type_error name)
binop_null mul same name = err (type_error name)
binop_null div same name = err (type_error name)
binop_null lt same name = err (type_error name)
binop_null gt same name = err (type_error name)
binop_null le same name = err (type_error name)
binop_null ge same name = err (type_error name)
binop_null and same name = err (type_error name)
binop_null or same name = err (type_error name)

-- `apply_binop`: the result and the instruction count after it.
unfoldable pub apply_binop : BinOp → Value → Value → ℕ → ℕ → Outcome Value × ℕ
apply_binop op (int l) (int r) count max = (binop_int op l r, count)
apply_binop op (decimal l) (decimal r) count max = (binop_decimal op l r, count)
apply_binop op (int l) (decimal r) count max = (binop_int_decimal op l r, count)
apply_binop op (decimal l) (int r) count max = (binop_decimal_int op l r, count)
apply_binop op (string l) (string r) count max = binop_string op l r count max
apply_binop op (bool l) (bool r) count max = (binop_bool op l r, count)
apply_binop op null null count max = (binop_null op true null_name, count)
apply_binop op null r count max = (binop_null op false null_name, count)
apply_binop op l null count max = (binop_null op false (type_name l), count)
apply_binop op l r count max = (err (type_error (type_name l)), count)
