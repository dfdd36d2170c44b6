-- ===== src/Value/Equality.antt =====
-- `Value::budget_eq` of crates/core/src/core/types/value.rs: the comparison of two values under a
-- budget, on a work stack whose last element stands first.  `ptr_eq` says whether two values are
-- one allocation (`Arc::ptr_eq`), which the model's values do not record.
use mizu_navigator.Prelude.{
  ℕ, zero, suc, Bool, true, false, ◌&&◌, List, [], ◌∷◌, length, ltb, ◌==◌, if◌then◌else◌, bytes_eq,
  saturating_add,
}
use mizu_navigator.Value.{
  Value, null, bool, int, decimal, string, list, record_of, file_handle, Values, nil, cons, Fields,
  no_field, field, pos, eq_ℤ, ◌*ℤ◌, decimal_scale, timeout, Outcome, ok, err, out_of_fuel,
}
use mizu_navigator.Value.Operators.{bool_eq}

-- What the code does with one pair: goes on, answers false, or charges a cost and then has a
-- verdict or pushes more pairs.
pub data Visit : Type 0 where
  agree differ : Visit
  charge : ℕ → Bool → List (Value × Value) → Visit

abbrev pub count_items : Values → ℕ
count_items nil = 0
count_items (cons v vs) = suc (count_items vs)

abbrev pub count_fields : Fields → ℕ
count_fields no_field = 0
count_fields (field h k v fs) = suc (count_fields fs)

-- The pairs in the order of `zip`
abbrev pub zip_items : Values → Values → List (Value × Value)
zip_items nil ys = []
zip_items (cons x xs) nil = []
zip_items (cons x xs) (cons y ys) = (x, y) ∷ zip_items xs ys

-- Whether all pairs of fields have the same hash and key
abbrev pub same_keys : Fields → Fields → Bool
same_keys no_field ys = true
same_keys (field h k x xs) no_field = true
same_keys (field h k x xs) (field i l y ys) = ((h == i) && bytes_eq k l) && same_keys xs ys

abbrev pub zip_fields : Fields → Fields → List (Value × Value)
zip_fields no_field ys = []
zip_fields (field h k x xs) no_field = []
zip_fields (field h k x xs) (field i l y ys) = (x, y) ∷ zip_fields xs ys

abbrev pub verdict : Bool → Visit
verdict b = if b then agree else differ

abbrev smaller : ℕ → ℕ → ℕ
smaller a b = if ltb b a then b else a

-- `stack.extend(pairs)`
abbrev pub push_all {ℓ} : {A : Type ℓ} → List A → List A → List A
push_all [] stack = stack
push_all (p ∷ ps) stack = push_all ps (p ∷ stack)

module _ (ptr_eq : Value → Value → Bool) where
  unfoldable pub visit : Value → Value → Visit
  visit null null = agree
  visit (bool x) (bool y) = verdict (bool_eq x y)
  visit (int x) (int y) = verdict (eq_ℤ x y)
  visit (decimal x) (decimal y) = verdict (eq_ℤ x y)
  visit (int x) (decimal y) = verdict (eq_ℤ (x *ℤ pos decimal_scale) y)
  visit (decimal y) (int x) = verdict (eq_ℤ (x *ℤ pos decimal_scale) y)
  visit (string x) (string y) =
      if ptr_eq (string x) (string y)
      then agree
      else charge (smaller (length x) (length y)) (bytes_eq x y) []
  visit (file_handle x) (file_handle y) = verdict (x == y)
  visit (list x) (list y) =
      if ptr_eq (list x) (list y)
      then agree
      else if count_items x == count_items y
      then charge (count_items x) true (zip_items x y)
      else differ
  visit (record_of x) (record_of y) =
      if ptr_eq (record_of x) (record_of y)
      then agree
      else if count_fields x == count_fields y
      then charge (count_fields x) (same_keys x y) (zip_fields x y)
      else differ
  visit x y = differ

  -- The loop, with the budget spent when it ends.
  unfoldable pub compare_pairs : ℕ → List (Value × Value) → ℕ → ℕ → Outcome Bool × ℕ
  compare_pairs fuel [] budget max = (ok true, budget)
  compare_pairs zero (p ∷ stack) budget max = (out_of_fuel, budget)
  compare_pairs (suc fuel) ((x, y) ∷ stack) budget max =
      let spent = saturating_add budget 1 in
      let rest = compare_pairs fuel stack spent max in
      if ltb max spent then (err timeout, spent) else elim (visit x y) [
        | agree ↦ rest
        | differ ↦ (ok false, spent)
        | charge cost same pairs ↦
            let charged = saturating_add spent cost in
            if ltb max charged then (err timeout, charged) else elim same [
              | true ↦ compare_pairs fuel (push_all pairs stack) charged max
              | false ↦ (ok false, charged)
            ]
      ]

  -- `budget_eq`; every turn of the loop spends budget, so the budget is enough fuel.
  unfoldable pub budget_eq : Value → Value → ℕ → ℕ → Outcome Bool × ℕ
  budget_eq x y budget max = compare_pairs (suc max) ((x, y) ∷ []) budget max
