-- ===== src/Evaluator/Builtins/Lists.antt =====
-- `filter`, `count` and `sort` of crates/core/src/core/types/eval/evaluate.rs, which charge the
-- budget for the list before they walk over it.
use mizu_navigator.Prelude.{
  ℕ, zero, suc, ◌+◌, ◌/◌, Bool, true, false, not, ◌&&◌, ◌||◌, Option, none, some, List, [], ◌∷◌,
  length, ◌==◌, if◌then◌else◌, Bytes, codes, bytes_eq, contains_bytes, saturating_mul,
}
use Prim.Native.Nat.{Ordering}
use mizu_navigator.Value.{
  Value, null, bool, int, string, list, record_of, file_handle, of_items, pos, type_error,
  execution_error, Outcome, ok, err, panicked, out_of_fuel, get_field, hash_field,
}
use mizu_navigator.Value.Equality.{budget_eq}
use mizu_navigator.Value.Order.{compare_values}
use mizu_navigator.Value.Operators.{BinOp, apply_binop, eq, ne, lt, le, gt, ge}
use mizu_navigator.Evaluator.{Evaluator}
use mizu_navigator.Evaluator.Monad.{M, ◌>>=◌, ◌>>◌, return, raise, charge, metered}
use mizu_navigator.Evaluator.Builtins.{expect_string, expect_list, unless}

-- How `filter` reads its operator: one of `apply_binop`, or a substring test.
pub data FilterOp : Type 0 where
  comparison : BinOp → FilterOp
  substring : FilterOp

unfoldable pub filter_op : Bytes → Option FilterOp
filter_op op =
    if bytes_eq op (codes "eq")
    then some (comparison eq)
    else if bytes_eq op (codes "ne")
    then some (comparison ne)
    else if bytes_eq op (codes "lt")
    then some (comparison lt)
    else if bytes_eq op (codes "le")
    then some (comparison le)
    else if bytes_eq op (codes "gt")
    then some (comparison gt)
    else if bytes_eq op (codes "ge")
    then some (comparison ge)
    else if bytes_eq op (codes "contains")
    then some substring
    else none

abbrev text_length : Option Value → ℕ
text_length (some (string s)) = length s
text_length (some v) = 0
text_length none = 0

-- What a `contains` filter pays on top: the texts that it scans.
unfoldable pub scan_cost : Bytes → List Value → ℕ
scan_cost name [] = 0
scan_cost name (item ∷ rest) =
    text_length (get_field item (hash_field name) name) + scan_cost name rest

abbrev truth : Value → Bool
truth (bool b) = b
truth v = false

abbrev is_substring : Value → Value → Bool
is_substring (string h) (string n) = contains_bytes n h
is_substring h n = false

-- Whether a field passes: a type error is a field that does not, any other error ends the filter.
abbrev pub passes_result : Outcome Value → Outcome Bool
passes_result (ok v) = ok (truth v)
passes_result (err (type_error found)) = ok false
passes_result (err e) = err e
passes_result panicked = panicked
passes_result out_of_fuel = out_of_fuel

unfoldable pub passes : FilterOp → Value → Value → ℕ → ℕ → Outcome Bool × ℕ
passes (comparison op) v target count max =
    let (r, count') = apply_binop op v target count max in (passes_result r, count')
passes substring v target count max = (ok (is_substring v target), count)

abbrev pub with_item : Value → Outcome (List Value) → Outcome (List Value)
with_item item (ok kept) = ok (item ∷ kept)
with_item item (err e) = err e
with_item item panicked = panicked
with_item item out_of_fuel = out_of_fuel

-- One turn of `filter`'s loop: whether the item passes, and the rest of the loop after that.
abbrev pub keep_item :
    ℕ → Value → Outcome Bool × ℕ → Outcome (List Value) × ℕ → Outcome (List Value) × ℕ
keep_item count item (ok include, c) rest =
    if include then (with_item item rest.0, rest.1) else rest
keep_item count item (err e, c) rest = (err e, count)
keep_item count item (panicked, c) rest = (panicked, count)
keep_item count item (out_of_fuel, c) rest = (out_of_fuel, count)

-- The loop of `filter`, with its own running count
unfoldable pub filter_items :
    FilterOp → Bytes → Value → List Value → ℕ → ℕ → Outcome (List Value) × ℕ
filter_items op name target [] count max = (ok [], count)
filter_items op name target (item ∷ items) count max =
    elim (get_field item (hash_field name) name) [
      | none ↦ filter_items op name target items count max
      | some v ↦
          let x = passes op v target count max in
          keep_item count item x (filter_items op name target items x.1 max)
    ]

-- The state's count is that of the loop when it ends, and is left alone when it fails.
abbrev pub commit : {A : Type 0} → Evaluator → Outcome A × ℕ → Outcome A × Evaluator
commit s (ok a, count) = (ok a, record s { instruction_count = count })
commit s (err e, count) = (err e, s)
commit s (panicked, count) = (panicked, s)
commit s (out_of_fuel, count) = (out_of_fuel, s)

abbrev pub committed : {A : Type 0} → (ℕ → ℕ → Outcome A × ℕ) → M A
committed f s = commit s (f s.instruction_count s.max_instructions)

abbrev pub filtered : Bytes → Bytes → Value → List Value → M Value
filtered name op target vs = elim (filter_op op) [
  | some o ↦ committed (filter_items o name target vs) >>= (λ kept. return (list (of_items kept)))
  | none ↦ raise execution_error
]

-- What `filter` charges: the list, and for `contains` the texts in it.
unfoldable pub filter_cost : Bytes → Bytes → List Value → ℕ
filter_cost name op vs =
    length vs + (if bytes_eq op (codes "contains") then scan_cost name vs else 0)

abbrev keyed : Option Value → Bool
keyed none = true
keyed (some (list vs)) = false
keyed (some (record_of fs)) = false
keyed (some (file_handle i)) = false
keyed (some v) = true

-- Whether every item has a sortable field, or none by that name
unfoldable pub all_keyed : Bytes → List Value → Bool
all_keyed name [] = true
all_keyed name (item ∷ rest) = keyed (get_field item (hash_field name) name) && all_keyed name rest

-- Whether an item is strictly before another, in the order reversed for "desc".
unfoldable pub precedes : Bool → Bytes → Value → Value → Bool
precedes descending name x y =
    elim (compare_values (get_field x (hash_field name) name)
      (get_field y (hash_field name) name)) [
        | Ordering.lt ↦ not descending
        | Ordering.eq ↦ false
        | Ordering.gt ↦ descending
      ]

-- `sort_by`, which is stable: an item passes only those that are strictly before it.
unfoldable pub insert_by : (Value → Value → Bool) → Value → List Value → List Value
insert_by before x [] = x ∷ []
insert_by before x (y ∷ ys) =
    let rest = insert_by before x ys in if before y x then y ∷ rest else x ∷ y ∷ ys

unfoldable pub sort_by : (Value → Value → Bool) → List Value → List Value
sort_by before [] = []
sort_by before (x ∷ xs) = insert_by before x (sort_by before xs)

-- `usize::BITS - n.leading_zeros()`, 0 for 0
unfoldable pub bit_length : ℕ → ℕ → ℕ
bit_length zero n = 0
bit_length (suc k) n = let rest = bit_length k (n / 2) in if n == 0 then 0 else suc rest

module _ (ptr_eq : Value → Value → Bool) where
  -- The loop of `count`
  unfoldable pub count_matching : Bytes → Value → List Value → M ℕ
  count_matching name target [] = return 0
  count_matching name target (item ∷ rest) = elim (get_field item (hash_field name) name) [
    | none ↦ count_matching name target rest
    | some v ↦
        (metered (budget_eq ptr_eq v target) >>= (λ same.
          count_matching name target rest >>= (λ n. return (if same then suc n else n))))
  ]

  unfoldable pub call_count : (ℕ → M Value) → ℕ → ℕ → ℕ → M Value
  call_count run l f t = do
    list_val ← run l
    field_val ← run f
    target ← run t
    vs ← expect_list list_val
    charge (length vs)
    name ← expect_string field_val
    n ← count_matching name target vs
    return (int (pos n))

module _ (run : ℕ → M Value) where
  unfoldable pub call_filter : ℕ → ℕ → ℕ → ℕ → M Value
  call_filter l f o t = do
    list_val ← run l
    field_val ← run f
    op_val ← run o
    target ← run t
    vs ← expect_list list_val
    name ← expect_string field_val
    op ← expect_string op_val
    charge (filter_cost name op vs)
    filtered name op target vs

  unfoldable pub call_sort : ℕ → ℕ → ℕ → M Value
  call_sort l f d = do
    list_val ← run l
    field_val ← run f
    direction_val ← run d
    vs ← expect_list list_val
    charge (saturating_mul (length vs) (bit_length 64 (length vs)))
    name ← expect_string field_val
    direction ← expect_string direction_val
    unless (not (bytes_eq direction (codes "asc") || bytes_eq direction (codes "desc")))
        (return null)
    unless (not (all_keyed name vs)) (return null)
    return (list (of_items (sort_by (precedes (bytes_eq direction (codes "desc")) name) vs)))
