-- ===== src/Value/Tests.antt =====
-- Runs of the operators, of the comparisons and of the texts, and the theorems at concrete operands.
use mizu_navigator.Prelude.{◌-◌, ◌^◌, ◌≡◌, refl, Bool, true, false, codes, bytes_eq, arith}
use mizu_navigator.Value.{
  Value, int, decimal, string, list, cons, nil, pos, negsuc, ◌*ℤ◌, ◌+ℤ◌, ◌/ℤ◌, to_i64, ok, err,
  integer_overflow, hash_field, hash_bytes, xor,
}
use mizu_navigator.Value.Operators.{apply_binop, add, div, binop_int}
use mizu_navigator.Value.Equality.{budget_eq, compare_pairs, visit}
use mizu_navigator.Value.Structural.{same_value}
use mizu_navigator.Value.Decides.{budget_eq-same_value}
use mizu_navigator.Value.Display.{
  format_decimal, format_scaled, format_fraction, fixed_digits, digit_count,
}

abbrev largest : Value
largest = int (pos (2 ^ 63 - 1))

-- `7 / 2` is the decimal 3.5.
half : (apply_binop div (int (pos 7)) (int (pos 2)) 0 20000).0 ≡ ok (decimal (pos 350000000))
unfolding apply_binop binop_int ◌*ℤ◌ ◌/ℤ◌ to_i64
half = refl

overflow : (apply_binop add largest (int (pos 1)) 0 20000).0 ≡ err integer_overflow
unfolding apply_binop binop_int ◌+ℤ◌ to_i64
overflow = refl

-- Division rounds towards zero.
negative : negsuc 6 /ℤ pos 2 ≡ negsuc 2
unfolding ◌/ℤ◌
negative = refl

minus_half : format_decimal (negsuc 49999999) false ≡ codes "-0.5"
unfolding format_decimal format_scaled format_fraction fixed_digits digit_count
minus_half = refl

-- The published value of FNV-1a for one letter
hash_a : hash_field (codes "a") ≡ 3826002220
unfolding hash_bytes xor
hash_a = refl

-- `[1, "a"]` twice, as two allocations
abbrev listed : Value
listed = list (cons (int (pos 1)) (cons (string (codes "a")) nil))

abbrev fresh_copy : Value
fresh_copy = list (cons (decimal (pos 100000000)) (cons (string (codes "a")) nil))

abbrev never : Value → Value → Bool
never x y = false

compared : (budget_eq never listed fresh_copy 0 20000).0 ≡ ok true
unfolding budget_eq compare_pairs visit ◌*ℤ◌ bytes_eq
compared = refl

budget_eq-same_value_example : true ≡ same_value listed fresh_copy
budget_eq-same_value_example =
    budget_eq-same_value never (λ x y h. absurd (ground arith)) listed fresh_copy 0 20000 true
      compared
