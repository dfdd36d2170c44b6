-- ===== src/Value/Order.antt =====
-- crates/core/src/core/types/eval/compare.rs: the order by which `sort` compares two fields.
use mizu_navigator.Prelude.{ℕ, Bool, true, false, Option, none, some, [], ◌∷◌, if◌then◌else◌, Bytes}
use Prim.Native.Nat.{compare, Ordering}
use mizu_navigator.Value.{
  Value, null, bool, int, decimal, string, list, record_of, file_handle, Values, nil, cons, Fields,
  no_field, field, ℤ, pos, ltb_ℤ, eq_ℤ, ◌*ℤ◌, decimal_scale,
}

-- `<` on strings, byte by byte
unfoldable pub bytes_ltb : Bytes → Bytes → Bool
bytes_ltb [] [] = false
bytes_ltb [] (d ∷ t) = true
bytes_ltb (c ∷ s) [] = false
bytes_ltb (c ∷ s) (d ∷ t) = elim (compare c d) [
  | Ordering.lt ↦ true
  | Ordering.gt ↦ false
  | Ordering.eq ↦ bytes_ltb s t
]

-- `cmp` on strings
unfoldable pub compare_bytes : Bytes → Bytes → Ordering
compare_bytes [] [] = Ordering.eq
compare_bytes [] (d ∷ t) = Ordering.lt
compare_bytes (c ∷ s) [] = Ordering.gt
compare_bytes (c ∷ s) (d ∷ t) = elim (compare c d) [
  | Ordering.lt ↦ Ordering.lt
  | Ordering.gt ↦ Ordering.gt
  | Ordering.eq ↦ compare_bytes s t
]

abbrev pub compare_ℤ : ℤ → ℤ → Ordering
compare_ℤ a b = if ltb_ℤ a b then Ordering.lt else if eq_ℤ a b then Ordering.eq else Ordering.gt

abbrev pub compare_bool : Bool → Bool → Ordering
compare_bool false false = Ordering.eq
compare_bool false true = Ordering.lt
compare_bool true false = Ordering.gt
compare_bool true true = Ordering.eq

unfoldable pub variant_weight : Value → ℕ
variant_weight null = 1
variant_weight (bool b) = 2
variant_weight (int n) = 3
variant_weight (decimal n) = 3
variant_weight (string s) = 4
variant_weight (list vs) = 5
variant_weight (record_of fs) = 6
variant_weight (file_handle i) = 7

-- `compare_values` on two values that are present; a list or a record that is a prefix of the
-- other, which the code tells by its length, is the smaller.
unfoldable mutual
  pub compare_value : Value → Value → Ordering
  compare_value null null = Ordering.eq
  compare_value (bool x) (bool y) = compare_bool x y
  compare_value (int x) (int y) = compare_ℤ x y
  compare_value (decimal x) (decimal y) = compare_ℤ x y
  compare_value (int x) (decimal y) = compare_ℤ (x *ℤ pos decimal_scale) y
  compare_value (decimal x) (int y) = compare_ℤ x (y *ℤ pos decimal_scale)
  compare_value (string x) (string y) = compare_bytes x y
  compare_value (list x) (list y) = compare_list x y
  compare_value (record_of x) (record_of y) = compare_fields x y
  compare_value x y = compare (variant_weight x) (variant_weight y)

  pub compare_list : Values → Values → Ordering
  compare_list nil nil = Ordering.eq
  compare_list nil (cons y ys) = Ordering.lt
  compare_list (cons x xs) nil = Ordering.gt
  compare_list (cons x xs) (cons y ys) = elim (compare_value x y) [
    | Ordering.eq ↦ compare_list xs ys
    | Ordering.lt ↦ Ordering.lt
    | Ordering.gt ↦ Ordering.gt
  ]

  pub compare_fields : Fields → Fields → Ordering
  compare_fields no_field no_field = Ordering.eq
  compare_fields no_field (field h k y ys) = Ordering.lt
  compare_fields (field h k x xs) no_field = Ordering.gt
  compare_fields (field h k x xs) (field i l y ys) = elim (compare_bytes k l) [
    | Ordering.eq ↦ elim (compare_value x y) [
      | Ordering.eq ↦ compare_fields xs ys
      | Ordering.lt ↦ Ordering.lt
      | Ordering.gt ↦ Ordering.gt
    ]
    | Ordering.lt ↦ Ordering.lt
    | Ordering.gt ↦ Ordering.gt
  ]

-- `compare_values`: a missing field is the smallest.
unfoldable pub compare_values : Option Value → Option Value → Ordering
compare_values none none = Ordering.eq
compare_values none (some y) = Ordering.lt
compare_values (some x) none = Ordering.gt
compare_values (some x) (some y) = compare_value x y
