-- ===== src/Value/Decides.antt =====
-- The loop of `budget_eq` answers what structural equality answers.
use mizu_navigator.Prelude.{
  ℕ, zero, suc, ◌≡◌, refl, ◌∙◌, Bool, true, false, ◌&&◌, List, [], ◌∷◌, arith, ltb, ◌==◌,
  if◌then◌else◌, bytes_eq, saturating_add,
}
use mathlib.Core.Path.{subst}
use mizu_navigator.Value.{
  Value, null, bool, int, decimal, string, list, record_of, file_handle, pos, eq_ℤ, ◌*ℤ◌,
  decimal_scale, timeout, Outcome, ok, err, panicked, out_of_fuel,
}
use mizu_navigator.Value.Operators.{bool_eq}
use mizu_navigator.Value.Equality.{
  Visit, agree, differ, charge, count_items, count_fields, zip_items, zip_fields, same_keys,
  push_all, visit, compare_pairs, budget_eq, verdict,
}
use mizu_navigator.Value.Structural.{
  same_value, same_items, same_fields, all_same, items-zip, fields-zip, all_same-push_all,
}

-- What a visit says of the equality of its pair.
abbrev Says : Visit → Bool → Type 0
Says agree b = b ≡ true
Says differ b = b ≡ false
Says (charge cost same pairs) b = b ≡ (same && all_same pairs)

verdict-Says : (b : Bool) → Says (verdict b) b
verdict-Says true = refl
verdict-Says false = refl

shared-Says :
    (p : Bool) (v : Visit) (b : Bool)
    → (p ≡ true → b ≡ true)
    → Says v b
    → Says (if p then agree else v) b
shared-Says true v b h k = h refl
shared-Says false v b h k = k

counted-Says :
    (c same : Bool) (cost : ℕ) (pairs : List (Value × Value)) (b : Bool)
    → (c ≡ true → b ≡ (same && all_same pairs))
    → (c ≡ false → b ≡ false)
    → Says (if c then charge cost same pairs else differ) b
counted-Says true same cost pairs b h k = h refl
counted-Says false same cost pairs b h k = k refl

-- Two values of one allocation are the same value.
module _ (ptr_eq : Value → Value → Bool)
    (shared : (x y : Value) → ptr_eq x y ≡ true → same_value x y ≡ true) where
  visit-Says : (x y : Value) → Says (visit ptr_eq x y) (same_value x y)
  unfolding visit same_value
  visit-Says null null = refl
  visit-Says (bool x) (bool y) = verdict-Says (bool_eq x y)
  visit-Says (int x) (int y) = verdict-Says (eq_ℤ x y)
  visit-Says (decimal x) (decimal y) = verdict-Says (eq_ℤ x y)
  visit-Says (int x) (decimal y) = verdict-Says (eq_ℤ (x *ℤ pos decimal_scale) y)
  visit-Says (decimal y) (int x) = verdict-Says (eq_ℤ (x *ℤ pos decimal_scale) y)
  visit-Says (string x) (string y) =
      shared-Says (ptr_eq (string x) (string y)) _ (bytes_eq x y) (shared (string x) (string y))
        (ground arith)
  visit-Says (file_handle x) (file_handle y) = verdict-Says (x == y)
  visit-Says (list x) (list y) =
      shared-Says (ptr_eq (list x) (list y)) _ (same_items x y) (shared (list x) (list y)) (
        counted-Says (count_items x == count_items y) true (count_items x) (zip_items x y)
          (same_items x y) (items-zip x y).0 (items-zip x y).1)
  visit-Says (record_of x) (record_of y) =
      shared-Says (ptr_eq (record_of x) (record_of y)) _ (same_fields x y)
        (shared (record_of x) (record_of y))
        (counted-Says (count_fields x == count_fields y) (same_keys x y) (count_fields x)
          (zip_fields x y) (same_fields x y) (fields-zip x y).0 (fields-zip x y).1)
  visit-Says x y = refl

  -- What the loop answers, if it answers
  abbrev Answers : Outcome Bool × ℕ → Bool → Type 0
  Answers (ok a, budget) b = a ≡ b
  Answers (err e, budget) b = Unit
  Answers (panicked, budget) b = Unit
  Answers (out_of_fuel, budget) b = Unit

  turn :
      (v : Visit) (first others : Bool) (spent max : ℕ) (rest : Outcome Bool × ℕ)
      (go : List (Value × Value) → ℕ → Outcome Bool × ℕ)
      → Says v first
      → Answers rest others
      → ((ps : List (Value × Value)) (c : ℕ) → Answers (go ps c) (all_same ps && others))
      → Answers
          (if ltb max spent then (err timeout, spent) else elim v [
            | agree ↦ rest
            | differ ↦ (ok false, spent)
            | charge cost same pairs ↦
                let charged = saturating_add spent cost in
                if ltb max charged
                then (err timeout, charged)
                else elim same [ true ↦ go pairs charged | false ↦ (ok false, charged) ]
          ])
          (first && others)
  turn v first others spent max rest go h k g = cases (ltb max spent) v h
    where
      ends :
          (late : Bool) (c : ℕ) (x : Outcome Bool × ℕ) (b : Bool)
          → Answers x b
          → Answers (if late then (err timeout, c) else x) b
      ends true c x b a = tt
      ends false c x b a = a

      cases :
          (late : Bool) (v : Visit)
          → Says v first
          → Answers
              (if late then (err timeout, spent) else elim v [
                | agree ↦ rest
                | differ ↦ (ok false, spent)
                | charge cost same pairs ↦
                    let charged = saturating_add spent cost in
                    if ltb max charged
                    then (err timeout, charged)
                    else elim same [ true ↦ go pairs charged | false ↦ (ok false, charged) ]
              ])
              (first && others)
      cases true v h = tt
      cases false agree h = rw h k
      cases false differ h = rw h refl
      cases false (charge cost true pairs) h =
          ends (ltb max (saturating_add spent cost)) (saturating_add spent cost)
            (go pairs (saturating_add spent cost)) (first && others)
            (rw h (g pairs (saturating_add spent cost)))
      cases false (charge cost false pairs) h =
          ends (ltb max (saturating_add spent cost)) (saturating_add spent cost)
            (ok false, saturating_add spent cost) (first && others) (rw h refl)

  compare_pairs-Answers :
      (fuel : ℕ) (stack : List (Value × Value)) (budget max : ℕ)
      → Answers (compare_pairs ptr_eq fuel stack budget max) (all_same stack)
  unfolding compare_pairs
  compare_pairs-Answers fuel [] budget max = refl
  compare_pairs-Answers zero ((x, y) ∷ stack) budget max = tt
  compare_pairs-Answers (suc fuel) ((x, y) ∷ stack) budget max =
      turn (visit ptr_eq x y) (same_value x y) (all_same stack) (saturating_add budget 1) max
        (compare_pairs ptr_eq fuel stack (saturating_add budget 1) max)
        (λ ps c. compare_pairs ptr_eq fuel (push_all ps stack) c max) (visit-Says x y)
        (compare_pairs-Answers fuel stack (saturating_add budget 1) max)
        (λ ps c.
          subst (λ b. Answers (compare_pairs ptr_eq fuel (push_all ps stack) c max) b)
            (all_same-push_all ps stack) (compare_pairs-Answers fuel (push_all ps stack) c max))

  -- Where two values of one allocation are equal, the budgeted comparison, when it answers, answers
  -- structural equality: that integers and decimals meet at their values, and lists and records
  -- element by element, however the work stack orders them.
  pub budget_eq-same_value :
      (x y : Value) (budget max : ℕ) (b : Bool)
      → (budget_eq ptr_eq x y budget max).0 ≡ ok b
      → b ≡ same_value x y
  unfolding budget_eq
  budget_eq-same_value x y budget max b h =
      answered (budget_eq ptr_eq x y budget max) h
        (compare_pairs-Answers (suc max) ((x, y) ∷ []) budget max)
      ∙ and_true (same_value x y)
    where
      and_true : (b : Bool) → (b && true) ≡ b
      and_true true = refl
      and_true false = refl

      answered :
          (r : Outcome Bool × ℕ)
          → r.0 ≡ ok b
          → Answers r (all_same ((x, y) ∷ []))
          → b ≡ all_same ((x, y) ∷ [])
      answered (ok a, c) h k = ground (arith, h, k)
      answered (err e, c) h k = absurd (ground arith)
      answered (panicked, c) h k = absurd (ground arith)
      answered (out_of_fuel, c) h k = absurd (ground arith)
