-- ===== src/Value/Ranges.antt =====
-- The numbers that the binary operators give stay in the range of `i64`.
use mizu_navigator.Prelude.{
  ℕ, ◌≡◌, refl, Bool, true, false, Option, none, some, Bytes, arith, if◌then◌else◌,
}
use mizu_navigator.Value.{
  Value, null, bool, int, decimal, string, list, record_of, file_handle, ℤ, pos, to_i64, IsI64,
  to_i64-IsI64, ◌*ℤ◌, ◌+ℤ◌, ◌-ℤ◌, ◌/ℤ◌, eq_ℤ, integer_overflow, division_by_zero, Outcome, ok, err,
  panicked, out_of_fuel, TypeName, type_name, null_name,
}
use mizu_navigator.Value.Operators.{
  BinOp, add, sub, mul, div, scale, checked, divided, is_comparison, compare_op, apply_binop,
  binop_int, binop_decimal, binop_int_decimal, binop_decimal_int, binop_string, binop_bool,
  binop_null,
}

abbrev pub InRange : Value → Type 0
InRange (int n) = IsI64 n
InRange (decimal n) = IsI64 n
InRange null = Unit
InRange (bool b) = Unit
InRange (string s) = Unit
InRange (list vs) = Unit
InRange (record_of fs) = Unit
InRange (file_handle i) = Unit

abbrev pub Ranged : Outcome Value → Type 0
Ranged (ok v) = InRange v
Ranged (err e) = Unit
Ranged panicked = Unit
Ranged out_of_fuel = Unit

found-Ranged :
    (o : Option ℤ)
    → ((m : ℤ) → o ≡ some m → IsI64 m)
    → Ranged (elim o [ some m ↦ ok (int m) | none ↦ err integer_overflow ])
      × Ranged (elim o [ some m ↦ ok (decimal m) | none ↦ err integer_overflow ])
found-Ranged none h = (tt, tt)
found-Ranged (some m) h = (h m refl, h m refl)

checked-Ranged : (n : ℤ) → Ranged (checked int n) × Ranged (checked decimal n)
checked-Ranged n = found-Ranged (to_i64 n) (λ m e. to_i64-IsI64 n m e)

divided-Ranged : (n r : ℤ) → Ranged (divided n r)
divided-Ranged n r = guarded (eq_ℤ r (pos 0))
  where
    guarded : (b : Bool) → Ranged (if b then err division_by_zero else checked decimal (n /ℤ r))
    guarded true = tt
    guarded false = (checked-Ranged (n /ℤ r)).1

binop_int-Ranged : (op : BinOp) (l r : ℤ) → Ranged (binop_int op l r)
unfolding binop_int
binop_int-Ranged add l r = (checked-Ranged (l +ℤ r)).0
binop_int-Ranged sub l r = (checked-Ranged (l -ℤ r)).0
binop_int-Ranged mul l r = (checked-Ranged (l *ℤ r)).0
binop_int-Ranged div l r = divided-Ranged (l *ℤ scale) r
binop_int-Ranged op l r = tt

pub binop_decimal-Ranged : (op : BinOp) (l r : ℤ) → Ranged (binop_decimal op l r)
unfolding binop_decimal
binop_decimal-Ranged add l r = (checked-Ranged (l +ℤ r)).1
binop_decimal-Ranged sub l r = (checked-Ranged (l -ℤ r)).1
binop_decimal-Ranged mul l r = (checked-Ranged ((l *ℤ r) /ℤ scale)).1
binop_decimal-Ranged div l r = divided-Ranged (l *ℤ scale) r
binop_decimal-Ranged op l r = tt

scaled-Ranged :
    (b c : Bool) (o : Option ℤ) (f : ℤ → Outcome Value)
    → ((n : ℤ) → Ranged (f n))
    → Ranged (if b then ok (bool c) else elim o [ some n ↦ f n | none ↦ err integer_overflow ])
scaled-Ranged true c o f h = tt
scaled-Ranged false c none f h = tt
scaled-Ranged false c (some n) f h = h n

binop_bool-Ranged : (op : BinOp) (l r : Bool) → Ranged (binop_bool op l r)
unfolding binop_bool
binop_bool-Ranged op l r = ground arith

binop_null-Ranged : (op : BinOp) (same : Bool) (name : TypeName) → Ranged (binop_null op same name)
unfolding binop_null
binop_null-Ranged op same name = ground arith

binop_string-Ranged :
    (op : BinOp) (l r : Bytes) (count max : ℕ) → Ranged (binop_string op l r count max).0
unfolding binop_string
binop_string-Ranged op l r count max = ground arith

pub apply_binop-Ranged :
    (op : BinOp) (l r : Value) (count max : ℕ) → Ranged (apply_binop op l r count max).0
unfolding apply_binop binop_int_decimal binop_decimal_int
apply_binop-Ranged op (int l) (int r) count max = binop_int-Ranged op l r
apply_binop-Ranged op (decimal l) (decimal r) count max = binop_decimal-Ranged op l r
apply_binop-Ranged op (int l) (decimal r) count max =
    scaled-Ranged (is_comparison op) (compare_op op (l *ℤ scale) r) (to_i64 (l *ℤ scale))
      (λ n. binop_decimal op n r) (λ n. binop_decimal-Ranged op n r)
apply_binop-Ranged op (decimal l) (int r) count max =
    scaled-Ranged (is_comparison op) (compare_op op l (r *ℤ scale)) (to_i64 (r *ℤ scale))
      (λ n. binop_decimal op l n) (λ n. binop_decimal-Ranged op l n)
apply_binop-Ranged op (string l) (string r) count max = binop_string-Ranged op l r count max
apply_binop-Ranged op (bool l) (bool r) count max = binop_bool-Ranged op l r
apply_binop-Ranged op null null count max = binop_null-Ranged op true null_name
apply_binop-Ranged op null r count max = binop_null-Ranged op false null_name
apply_binop-Ranged op l null count max = binop_null-Ranged op false (type_name l)
apply_binop-Ranged op l r count max = tt
