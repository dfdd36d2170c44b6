-- ===== src/Evaluator/Frame/Charges.antt =====
-- The metered steps: operators, comparisons and the loop of `filter` stay within the budget.
use mizu_navigator.Prelude.{
  ℕ, zero, suc, ◌+◌, ◌-◌, ◌≤◌, ◌<◌, ◌^◌, refl, Option, none, some, List, [], ◌∷◌, arith, length,
  Bool, true, false, ltb, if◌then◌else◌, saturating_add, Bytes, inl, inr,
}
use mizu_navigator.Value.{
  Value, ◌*ℤ◌, decimal_scale, type_name, null_name, TypeName, Outcome, ok, err, panicked,
  out_of_fuel, null, bool, int, decimal, string, to_i64, ℤ, pos, get_field, hash_field, type_error,
  timeout, integer_overflow, division_by_zero, execution_error, parse_error, variable_not_found,
}
use mizu_navigator.Value.Equality.{
  Visit, agree, differ, charge, visit, compare_pairs, budget_eq, push_all,
}
use mizu_navigator.Value.Operators.{
  BinOp, apply_binop, binop_int, binop_decimal, is_comparison, compare_op, binop_int_decimal,
  binop_decimal_int, binop_string, binop_bool, binop_null,
}
use mizu_navigator.Evaluator.Builtins.{measure_string, char_count}
use mizu_navigator.Evaluator.Builtins.Lists.{
  FilterOp, comparison, substring, passes, passes_result, with_item, keep_item, filter_items,
}
use mizu_navigator.Evaluator.Frame.Effects.{Settled, IsMetered}

-- An operation that does not charge and does not run out of fuel
abbrev Answers : {A : Type 0} → Outcome A → Type 0
Answers (ok a) = Unit
Answers (err e) = Unit
Answers panicked = Unit
Answers out_of_fuel = ⊥

uncharged :
    {A : Type 0} (r : Outcome A) (count max : ℕ) → Answers r → count ≤ max → Settled max (r, count)
uncharged (ok a) count max h k = k
uncharged (err e) count max h k = inr k
uncharged panicked count max h k = tt
uncharged out_of_fuel count max h k = h

binop_int-Answers : (op : BinOp) (l r : ℤ) → Answers (binop_int op l r)
unfolding binop_int
binop_int-Answers op l r = ground arith

binop_decimal-Answers : (op : BinOp) (l r : ℤ) → Answers (binop_decimal op l r)
unfolding binop_decimal
binop_decimal-Answers op l r = ground arith

mixed-Answers :
    (op : BinOp) (l r : ℤ) → Answers (binop_int_decimal op l r) × Answers (binop_decimal_int op l r)
unfolding binop_int_decimal binop_decimal_int
mixed-Answers op l r =
    (mixed_left (to_i64 (l *ℤ pos decimal_scale)), mixed_right (to_i64 (r *ℤ pos decimal_scale)))
  where
    mixed_left :
        (o : Option ℤ)
        → Answers (
            if is_comparison op
            then ok (bool (compare_op op (l *ℤ pos decimal_scale) r))
            else elim o [ some n ↦ binop_decimal op n r | none ↦ err integer_overflow ])
    mixed_left (some n) = ground (arith, binop_decimal-Answers op n r)
    mixed_left none = ground arith

    mixed_right :
        (o : Option ℤ)
        → Answers (
            if is_comparison op
            then ok (bool (compare_op op l (r *ℤ pos decimal_scale)))
            else elim o [ some n ↦ binop_decimal op l n | none ↦ err integer_overflow ])
    mixed_right (some n) = ground (arith, binop_decimal-Answers op l n)
    mixed_right none = ground arith

binop_bool-Answers : (op : BinOp) (l r : Bool) → Answers (binop_bool op l r)
unfolding binop_bool
binop_bool-Answers op l r = ground arith

binop_null-Answers :
    (op : BinOp) (same : Bool) (name : TypeName) → Answers (binop_null op same name)
unfolding binop_null
binop_null-Answers op same name = ground arith

binop_string-Settled :
    (op : BinOp) (l r : Bytes) (count max : ℕ)
    → count ≤ max
    → Settled max (binop_string op l r count max)
unfolding binop_string
binop_string-Settled op l r count max h = ground arith

pub apply_binop-IsMetered : (op : BinOp) (l r : Value) → IsMetered (apply_binop op l r)
unfolding apply_binop
apply_binop-IsMetered op (int l) (int r) count max h b =
    uncharged (binop_int op l r) count max (binop_int-Answers op l r) h
apply_binop-IsMetered op (decimal l) (decimal r) count max h b =
    uncharged (binop_decimal op l r) count max (binop_decimal-Answers op l r) h
apply_binop-IsMetered op (int l) (decimal r) count max h b =
    uncharged (binop_int_decimal op l r) count max (mixed-Answers op l r).0 h
apply_binop-IsMetered op (decimal l) (int r) count max h b =
    uncharged (binop_decimal_int op l r) count max (mixed-Answers op l r).1 h
apply_binop-IsMetered op (string l) (string r) count max h b =
    binop_string-Settled op l r count max h
apply_binop-IsMetered op (bool l) (bool r) count max h b =
    uncharged (binop_bool op l r) count max (binop_bool-Answers op l r) h
apply_binop-IsMetered op null null count max h b =
    uncharged (binop_null op true null_name) count max (binop_null-Answers op true null_name) h
apply_binop-IsMetered op null r count max h b =
    uncharged (binop_null op false null_name) count max (binop_null-Answers op false null_name) h
apply_binop-IsMetered op l null count max h b =
    uncharged (binop_null op false (type_name l)) count max
      (binop_null-Answers op false (type_name l)) h
apply_binop-IsMetered op l r count max h b = inr h

module _ (ptr_eq : Value → Value → Bool) where
  visited :
      (v : Visit) (spent max : ℕ) (rest : Outcome Bool × ℕ)
      (go : List (Value × Value) → ℕ → Outcome Bool × ℕ)
      → max < 2 ^ 64 - 1
      → (spent ≤ max → Settled max rest)
      → ((pairs : List (Value × Value)) (c : ℕ) → c ≤ max → spent ≤ c → Settled max (go pairs c))
      → Settled max (
          if ltb max spent then (err timeout, spent) else elim v [
            | agree ↦ rest
            | differ ↦ (ok false, spent)
            | charge cost same pairs ↦
                let charged = saturating_add spent cost in
                if ltb max charged
                then (err timeout, charged)
                else elim same [ true ↦ go pairs charged | false ↦ (ok false, charged) ]
          ])
  visited agree spent max rest go b h k = ground arith
  visited differ spent max rest go b h k = ground arith
  visited (charge cost true pairs) spent max rest go b h k =
      ground (arith, k pairs (saturating_add spent cost))
  visited (charge cost false pairs) spent max rest go b h k = ground arith

  -- Every turn of the loop spends a unit of the budget, so the fuel outlasts it.
  compare_pairs-Settled :
      (fuel : ℕ) (stack : List (Value × Value)) (budget max : ℕ)
      → budget ≤ max
      → max < fuel + budget
      → max < 2 ^ 64 - 1
      → Settled max (compare_pairs ptr_eq fuel stack budget max)
  unfolding compare_pairs
  compare_pairs-Settled fuel [] budget max h f b = ground arith
  compare_pairs-Settled zero (p ∷ stack) budget max h f b = absurd (omega arith)
  compare_pairs-Settled (suc fuel) ((x, y) ∷ stack) budget max h f b =
      visited (visit ptr_eq x y) (saturating_add budget 1) max
        (compare_pairs ptr_eq fuel stack (saturating_add budget 1) max)
        (λ pairs c. compare_pairs ptr_eq fuel (push_all pairs stack) c max) b
        (λ k. compare_pairs-Settled fuel stack (saturating_add budget 1) max k (ground arith) b)
        (λ pairs c k l. compare_pairs-Settled fuel (push_all pairs stack) c max k (ground arith) b)

  pub budget_eq-IsMetered : (x y : Value) → IsMetered (budget_eq ptr_eq x y)
  unfolding budget_eq
  budget_eq-IsMetered x y budget max h b =
      compare_pairs-Settled (suc max) ((x, y) ∷ []) budget max h (omega arith) b

char_count-le : (s : Bytes) → char_count s ≤ length s
char_count-le [] = omega arith
char_count-le (c ∷ s) = ground (arith, char_count-le s)

pub measure_string-IsMetered : (s : Bytes) → IsMetered (measure_string s)
unfolding measure_string
measure_string-IsMetered s count max h b = ground (arith, char_count-le s)

passes_result-Settled :
    (max : ℕ) (x : Outcome Value × ℕ)
    → Settled max x
    → Settled max (let (r, count) = x in (passes_result r, count))
passes_result-Settled max (ok v, c) h = h
passes_result-Settled max (err timeout, c) h = inl refl
passes_result-Settled max (err integer_overflow, c) h = h
passes_result-Settled max (err division_by_zero, c) h = h
passes_result-Settled max (err execution_error, c) h = h
passes_result-Settled max (err parse_error, c) h = h
passes_result-Settled max (err (type_error t), c) h = ground arith
passes_result-Settled max (err (variable_not_found n), c) h = h
passes_result-Settled max (panicked, c) h = h
passes_result-Settled max (out_of_fuel, c) h = h

passes-IsMetered : (op : FilterOp) (v target : Value) → IsMetered (passes op v target)
unfolding passes
passes-IsMetered (comparison op) v target count max h b =
    passes_result-Settled max (apply_binop op v target count max)
      (apply_binop-IsMetered op v target count max h b)
passes-IsMetered substring v target count max h b = h

with_item-Settled :
    (max : ℕ) (item : Value) (x : Outcome (List Value) × ℕ)
    → Settled max x
    → Settled max (with_item item x.0, x.1)
with_item-Settled max item (ok vs, c) h = h
with_item-Settled max item (err e, c) h = h
with_item-Settled max item (panicked, c) h = h
with_item-Settled max item (out_of_fuel, c) h = h

kept-Settled :
    (count max : ℕ) (item : Value) (x : Outcome Bool × ℕ) (rest : ℕ → Outcome (List Value) × ℕ)
    → count ≤ max
    → Settled max x
    → ((c : ℕ) → c ≤ max → Settled max (rest c))
    → Settled max (keep_item count item x (rest x.1))
kept-Settled count max item (ok true, c) rest k h r = with_item-Settled max item (rest c) (r c h)
kept-Settled count max item (ok false, c) rest k h r = r c h
kept-Settled count max item (err e, c) rest k h r = inr k
kept-Settled count max item (panicked, c) rest k h r = tt
kept-Settled count max item (out_of_fuel, c) rest k h r = h

filtered-Settled :
    (o : Option Value) (op : FilterOp) (item target : Value) (count max : ℕ)
    (rest : ℕ → Outcome (List Value) × ℕ)
    → count ≤ max
    → max < 2 ^ 64 - 1
    → ((c : ℕ) → c ≤ max → Settled max (rest c))
    → Settled {A = List Value} max (elim o [
      | none ↦ rest count
      | some v ↦ let x = passes op v target count max in keep_item count item x (rest x.1)
    ])
filtered-Settled none op item target count max rest h b r = r count h
filtered-Settled (some v) op item target count max rest h b r =
    kept-Settled count max item (passes op v target count max) rest h
      (passes-IsMetered op v target count max h b) r

pub filter_items-IsMetered :
    (op : FilterOp) (name : Bytes) (target : Value) (vs : List Value)
    → IsMetered (filter_items op name target vs)
unfolding filter_items
filter_items-IsMetered op name target [] count max h b = h
filter_items-IsMetered op name target (item ∷ vs) count max h b =
    filtered-Settled (get_field item (hash_field name) name) op item target count max
      (λ c. filter_items op name target vs c max) h b
      (λ c k. filter_items-IsMetered op name target vs c max k b)
