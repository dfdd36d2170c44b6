-- ===== src/Value/Structural.antt =====
-- What `budget_eq` decides: the structural equality of two values.
use mizu_navigator.Prelude.{
  ℕ, suc, ◌≡◌, refl, ap, ◌∙◌, Bool, true, false, ◌&&◌, List, [], ◌∷◌, arith, ◌==◌, bytes_eq,
}
use mizu_navigator.Value.{
  Value, null, bool, int, decimal, string, list, record_of, file_handle, Values, nil, cons, Fields,
  no_field, field, pos, eq_ℤ, ◌*ℤ◌, decimal_scale,
}
use mizu_navigator.Value.Operators.{bool_eq}
use mizu_navigator.Value.Equality.{
  count_items, count_fields, zip_items, zip_fields, same_keys, push_all,
}

-- Equality by structure: an integer equals the decimal of its value, and two records are equal
-- field by field, hash, key and value.
unfoldable mutual
  pub same_value : Value → Value → Bool
  same_value null null = true
  same_value (bool x) (bool y) = bool_eq x y
  same_value (int x) (int y) = eq_ℤ x y
  same_value (decimal x) (decimal y) = eq_ℤ x y
  same_value (int x) (decimal y) = eq_ℤ (x *ℤ pos decimal_scale) y
  same_value (decimal y) (int x) = eq_ℤ (x *ℤ pos decimal_scale) y
  same_value (string x) (string y) = bytes_eq x y
  same_value (file_handle x) (file_handle y) = x == y
  same_value (list x) (list y) = same_items x y
  same_value (record_of x) (record_of y) = same_fields x y
  same_value x y = false

  pub same_items : Values → Values → Bool
  same_items nil nil = true
  same_items nil (cons y ys) = false
  same_items (cons x xs) nil = false
  same_items (cons x xs) (cons y ys) = same_value x y && same_items xs ys

  pub same_fields : Fields → Fields → Bool
  same_fields no_field no_field = true
  same_fields no_field (field i l y ys) = false
  same_fields (field h k x xs) no_field = false
  same_fields (field h k x xs) (field i l y ys) =
      ((h == i) && bytes_eq k l) && (same_value x y && same_fields xs ys)

-- All pairs of a work stack are equal.
abbrev pub all_same : List (Value × Value) → Bool
all_same [] = true
all_same ((x, y) ∷ stack) = same_value x y && all_same stack

same_suc : (m n : ℕ) (b : Bool) → (suc m == suc n) ≡ b → (m == n) ≡ b
same_suc m n b h = ground arith

and_false : (k b : Bool) → (k && (b && false)) ≡ false
and_false k b = ground arith

exchange : (k v s a : Bool) → (k && (v && (s && a))) ≡ ((k && s) && (v && a))
exchange k v s a = ground arith

pub items-zip :
    (x y : Values)
    → ((count_items x == count_items y) ≡ true → same_items x y ≡ all_same (zip_items x y))
      × ((count_items x == count_items y) ≡ false → same_items x y ≡ false)
unfolding same_value
items-zip nil nil = (λ h. refl, λ h. ground arith)
items-zip nil (cons y ys) = (λ h. ground arith, λ h. refl)
items-zip (cons x xs) nil = (λ h. ground arith, λ h. refl)
items-zip (cons x xs) (cons y ys) = (
  λ h.
      ap (λ b. same_value x y && b)
        ((items-zip xs ys).0 (same_suc (count_items xs) (count_items ys) true h)),
  λ h.
      ap (λ b. same_value x y && b)
        ((items-zip xs ys).1 (same_suc (count_items xs) (count_items ys) false h))
      ∙ and_false true (same_value x y),
)

pub fields-zip :
    (x y : Fields)
    → ((count_fields x == count_fields y) ≡ true
        → same_fields x y ≡ (same_keys x y && all_same (zip_fields x y)))
      × ((count_fields x == count_fields y) ≡ false → same_fields x y ≡ false)
unfolding same_value
fields-zip no_field no_field = (λ h. refl, λ h. ground arith)
fields-zip no_field (field i l y ys) = (λ h. ground arith, λ h. refl)
fields-zip (field h k x xs) no_field = (λ h. ground arith, λ h. refl)
fields-zip (field h k x xs) (field i l y ys) = (
  λ e.
      ap (λ b. ((h == i) && bytes_eq k l) && (same_value x y && b))
        ((fields-zip xs ys).0 (same_suc (count_fields xs) (count_fields ys) true e))
      ∙ exchange ((h == i) && bytes_eq k l) (same_value x y) (same_keys xs ys)
          (all_same (zip_fields xs ys)),
  λ e.
      ap (λ b. ((h == i) && bytes_eq k l) && (same_value x y && b))
        ((fields-zip xs ys).1 (same_suc (count_fields xs) (count_fields ys) false e))
      ∙ and_false ((h == i) && bytes_eq k l) (same_value x y),
)

pub all_same-push_all :
    (ps stack : List (Value × Value))
    → all_same (push_all ps stack) ≡ (all_same ps && all_same stack)
all_same-push_all [] stack = refl
all_same-push_all ((x, y) ∷ ps) stack = ground (arith, all_same-push_all ps ((x, y) ∷ stack))
