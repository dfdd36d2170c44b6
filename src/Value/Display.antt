-- ===== src/Value/Display.antt =====
-- The text of a number or a boolean: `format_decimal` and `Display` of
-- crates/core/src/core/types/value.rs.
use mizu_navigator.Prelude.{
  ℕ, zero, suc, ◌+◌, ◌/◌, ◌%◌, Bool, true, false, [], ◌∷◌, ◌++◌, ltb, ◌==◌, if◌then◌else◌, Bytes,
  codes,
}
use mizu_navigator.Value.{ℤ, pos, negsuc, decimal_scale}

-- `k` decimal digits, with leading zeros
unfoldable pub fixed_digits : ℕ → ℕ → Bytes
fixed_digits zero n = []
fixed_digits (suc k) n = fixed_digits k (n / 10) ++ ((48 + n % 10) ∷ [])

-- How many digits a number below 10 ^ 20 has
unfoldable pub digit_count : ℕ → ℕ → ℕ
digit_count zero n = 1
digit_count (suc k) n = let rest = digit_count k (n / 10) in if ltb n 10 then 1 else suc rest

-- `format!("{n}")` of an `i64`
abbrev pub format_nat : ℕ → Bytes
format_nat n = fixed_digits (digit_count 19 n) n

unfoldable pub format_int : ℤ → Bytes
format_int (pos n) = format_nat n
format_int (negsuc n) = 45 ∷ format_nat (suc n)

-- The loop that drops the trailing zeros, then the print of what is left.
unfoldable pub format_fraction : ℕ → ℕ → Bytes
format_fraction zero frac = []
format_fraction (suc k) frac =
    let shorter = format_fraction k (frac / 10) in
    if frac % 10 == 0 then shorter else fixed_digits (suc k) frac

-- `format_decimal` on the scaled value's sign and size
unfoldable pub format_scaled : Bytes → ℕ → Bool → Bytes
format_scaled sign size always_fractional =
    let whole = sign ++ format_nat (size / decimal_scale) in
    if size % decimal_scale == 0
    then (if always_fractional then whole ++ codes ".0" else whole)
    else whole ++ codes "." ++ format_fraction 8 (size % decimal_scale)

unfoldable pub format_decimal : ℤ → Bool → Bytes
format_decimal (pos n) always_fractional = format_scaled [] n always_fractional
format_decimal (negsuc n) always_fractional = format_scaled (codes "-") (suc n) always_fractional

unfoldable pub format_bool : Bool → Bytes
format_bool true = codes "true"
format_bool false = codes "false"
