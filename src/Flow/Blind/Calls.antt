-- ===== src/Flow/Blind/Calls.antt =====
-- The built-in functions do not see the tainted globals when their arguments do not.
use mizu_navigator.Prelude.{
  ℕ, List, [], ◌∷◌, length, Bool, true, false, get_elem?, Bytes, saturating_mul, All, refl, Option,
}
use mizu_navigator.Value.{Value, bool, int, decimal, string, list, record_of, get_field, hash_field}
use mizu_navigator.Value.Equality.{budget_eq}
use mizu_navigator.Evaluator.Syntax.{Arena, Expr, variable}
use mizu_navigator.Evaluator.Monad.{M}
use mizu_navigator.Evaluator.Builtins.{
  expect_string, expect_list, string_or_fail, bare_variable, symbol_of, is_computed, unless,
  measure, measure_string, stringify, field_present, call_copy_to_clipboard, call_get_system_time,
  call_store_local, call_download, call_length, call_to_string, call_contains, call_has_field,
}
use mizu_navigator.Evaluator.Builtins.Lists.{
  filter_op, filter_cost, filter_items, filtered, count_matching, call_count, call_filter,
  call_sort, bit_length,
}
use mizu_navigator.Evaluator.Builtins.Dispatch.{
  Builtin, copy_text_of, ask_time, store, filter_list, count_matches, download_file, sort_list,
  length_of, to_string, contains_text, has_field, call_builtin,
}
use mizu_navigator.Flow.Blind.{
  Blind, bind-Blind, then-Blind, return-Blind, raise-Blind, panic-Blind, metered-Blind,
  charge-Blind, queue-Blind, committed-Blind, option-Blind,
}

module _ (tainted : ℕ → Bool) (g : ℕ → Option Value) where
  expect_string-Blind : (v : Value) → Blind tainted g (expect_string v)
  expect_string-Blind (string s) = return-Blind tainted g _
  expect_string-Blind v = raise-Blind tainted g _

  expect_list-Blind : (v : Value) → Blind tainted g (expect_list v)
  expect_list-Blind (list vs) = return-Blind tainted g _
  expect_list-Blind v = raise-Blind tainted g _

  pub string_or_fail-Blind : (v : Value) → Blind tainted g (string_or_fail v)
  string_or_fail-Blind (string s) = return-Blind tainted g _
  string_or_fail-Blind v = raise-Blind tainted g _

  unless-Blind : (b : Bool) {m : M Value} → Blind tainted g m → Blind tainted g (unless b m)
  unless-Blind true h = raise-Blind tainted g _
  unless-Blind false h = h

  measure-Blind : (v : Value) → Blind tainted g (measure v)
  unfolding measure
  measure-Blind (list vs) = return-Blind tainted g _
  measure-Blind (string s) = metered-Blind tainted g (measure_string s)
  measure-Blind v = raise-Blind tainted g _

  stringify-Blind : (v : Value) → Blind tainted g (stringify v)
  unfolding stringify
  stringify-Blind (int n) = return-Blind tainted g _
  stringify-Blind (decimal n) = return-Blind tainted g _
  stringify-Blind (bool n) = return-Blind tainted g _
  stringify-Blind v = raise-Blind tainted g _

  field_present-Blind : (v name : Value) → Blind tainted g (field_present v name)
  unfolding field_present
  field_present-Blind (record_of fs) name =
      bind-Blind tainted g (expect_string-Blind name) (λ s. return-Blind tainted g _)
  field_present-Blind v name = raise-Blind tainted g _

  symbol_of-Blind : (e : Expr) → Blind tainted g (symbol_of e)
  symbol_of-Blind (variable name) = return-Blind tainted g _
  symbol_of-Blind e = raise-Blind tainted g _

  bare_variable-Blind : (arena : Arena) (id : ℕ) → Blind tainted g (bare_variable arena id)
  bare_variable-Blind arena id =
      option-Blind tainted g (get_elem? arena.nodes id) (panic-Blind tainted g) symbol_of-Blind

  is_computed-Blind : (name : ℕ) → Blind tainted g (is_computed name)
  is_computed-Blind name = record { on = λ s a. (refl, refl) }

  filtered-Blind :
      (name op : Bytes) (target : Value) (vs : List Value)
      → Blind tainted g (filtered name op target vs)
  filtered-Blind name op target vs =
      option-Blind tainted g (filter_op op) (raise-Blind tainted g _) (λ o.
        bind-Blind tainted g (committed-Blind tainted g (filter_items o name target vs))
          (λ kept. return-Blind tainted g _))

  module _ (ptr_eq : Value → Value → Bool) where
    count_matching-Blind :
        (name : Bytes) (target : Value) (vs : List Value)
        → Blind tainted g (count_matching ptr_eq name target vs)
    unfolding count_matching
    count_matching-Blind name target [] = return-Blind tainted g _
    count_matching-Blind name target (item ∷ vs) =
        option-Blind tainted g (get_field item (hash_field name) name)
          (count_matching-Blind name target vs)
          (λ v. bind-Blind tainted g (metered-Blind tainted g (budget_eq ptr_eq v target)) (λ b.
            bind-Blind tainted g (count_matching-Blind name target vs)
              (λ n. return-Blind tainted g _)))

    module _ (arena : Arena) (run : ℕ → M Value) where
      abbrev pub Sees : ℕ → Type 0
      Sees id = Blind tainted g (run id)

      call_copy_to_clipboard-Blind :
          (ids : List ℕ) → All Sees ids → Blind tainted g (call_copy_to_clipboard arena run ids)
      unfolding call_copy_to_clipboard
      call_copy_to_clipboard-Blind (a ∷ []) (h, z) = bind-Blind tainted g h (λ v.
          bind-Blind tainted g (string_or_fail-Blind v)
            (λ s. then-Blind tainted g (queue-Blind tainted g _) (return-Blind tainted g _)))
      call_copy_to_clipboard-Blind [] h = raise-Blind tainted g _
      call_copy_to_clipboard-Blind (a ∷ b ∷ ids) h = raise-Blind tainted g _

      -- The argument is not evaluated.
      pub call_get_system_time-Blind :
          (ids : List ℕ) → Blind tainted g (call_get_system_time arena run ids)
      unfolding call_get_system_time
      call_get_system_time-Blind (a ∷ []) =
          bind-Blind tainted g (bare_variable-Blind arena a) (λ target.
            bind-Blind tainted g (is_computed-Blind target) (λ c.
              unless-Blind c
                (then-Blind tainted g (queue-Blind tainted g _) (return-Blind tainted g _))))
      call_get_system_time-Blind [] = raise-Blind tainted g _
      call_get_system_time-Blind (a ∷ b ∷ ids) = raise-Blind tainted g _

      call_store_local-Blind :
          (ids : List ℕ) → All Sees ids → Blind tainted g (call_store_local arena run ids)
      unfolding call_store_local
      call_store_local-Blind (k ∷ v ∷ []) (h, (e, z)) = bind-Blind tainted g h (λ x.
          bind-Blind tainted g (string_or_fail-Blind x) (λ key.
            bind-Blind tainted g e
              (λ y. then-Blind tainted g (queue-Blind tainted g _) (return-Blind tainted g _))))
      call_store_local-Blind [] h = raise-Blind tainted g _
      call_store_local-Blind (k ∷ []) h = raise-Blind tainted g _
      call_store_local-Blind (k ∷ v ∷ w ∷ ids) h = raise-Blind tainted g _

      call_download-Blind : (a : ℕ) → Blind tainted g (call_download arena run a)
      unfolding call_download
      call_download-Blind a =
          bind-Blind tainted g (bare_variable-Blind arena a)
            (λ name. then-Blind tainted g (queue-Blind tainted g _) (return-Blind tainted g _))

      call_contains-Blind :
          (h n : ℕ) → Sees h → Sees n → Blind tainted g (call_contains arena run h n)
      unfolding call_contains
      call_contains-Blind h n p q = bind-Blind tainted g p (λ x. bind-Blind tainted g q (λ y.
          bind-Blind tainted g (expect_string-Blind x) (λ haystack.
            bind-Blind tainted g (expect_string-Blind y) (λ needle.
              then-Blind tainted g (charge-Blind tainted g (length haystack))
                (return-Blind tainted g _)))))

      call_count-Blind :
          (l f t : ℕ) → Sees l → Sees f → Sees t → Blind tainted g (call_count ptr_eq run l f t)
      unfolding call_count
      call_count-Blind l f t p q r = bind-Blind tainted g p (λ x. bind-Blind tainted g q (λ y.
          bind-Blind tainted g r (λ target. bind-Blind tainted g (expect_list-Blind x) (λ vs.
            then-Blind tainted g (charge-Blind tainted g (length vs)) (
              bind-Blind tainted g (expect_string-Blind y) (λ name.
                bind-Blind tainted g (count_matching-Blind name target vs)
                  (λ n. return-Blind tainted g _)))))))

      call_filter-Blind :
          (l f o t : ℕ)
          → Sees l
          → Sees f
          → Sees o
          → Sees t
          → Blind tainted g (call_filter run l f o t)
      unfolding call_filter
      call_filter-Blind l f o t a b c d = bind-Blind tainted g a (λ x. bind-Blind tainted g b (λ y.
          bind-Blind tainted g c (λ z. bind-Blind tainted g d (λ target.
            bind-Blind tainted g (expect_list-Blind x) (λ vs.
              bind-Blind tainted g (expect_string-Blind y) (λ name.
                bind-Blind tainted g (expect_string-Blind z) (λ op.
                  then-Blind tainted g (charge-Blind tainted g (filter_cost name op vs))
                    (filtered-Blind name op target vs))))))))

      call_sort-Blind :
          (l f d : ℕ) → Sees l → Sees f → Sees d → Blind tainted g (call_sort run l f d)
      unfolding call_sort
      call_sort-Blind l f d a b c = bind-Blind tainted g a (λ x. bind-Blind tainted g b (λ y.
          bind-Blind tainted g c (λ z. bind-Blind tainted g (expect_list-Blind x) (λ vs.
            then-Blind tainted g
              (charge-Blind tainted g (saturating_mul (length vs) (bit_length 64 (length vs))))
              (bind-Blind tainted g (expect_string-Blind y) (λ name.
                bind-Blind tainted g (expect_string-Blind z) (λ direction.
                  then-Blind tainted g (unless-Blind _ (return-Blind tainted g _)) (
                    then-Blind tainted g (unless-Blind _ (return-Blind tainted g _))
                      (return-Blind tainted g _)))))))))

      pub call_builtin-Blind :
          (b : Builtin) (ids : List ℕ)
          → All Sees ids
          → Blind tainted g (call_builtin ptr_eq arena run b ids)
      unfolding call_builtin call_length call_to_string call_has_field
      call_builtin-Blind copy_text_of ids h = call_copy_to_clipboard-Blind ids h
      call_builtin-Blind ask_time ids h = call_get_system_time-Blind ids
      call_builtin-Blind store ids h = call_store_local-Blind ids h
      call_builtin-Blind filter_list (l ∷ f ∷ o ∷ t ∷ []) (a, (b, (c, (d, z)))) =
          call_filter-Blind l f o t a b c d
      call_builtin-Blind count_matches (l ∷ f ∷ t ∷ []) (a, (b, (c, z))) =
          call_count-Blind l f t a b c
      call_builtin-Blind download_file (a ∷ []) h = call_download-Blind a
      call_builtin-Blind sort_list (l ∷ f ∷ d ∷ []) (a, (b, (c, z))) = call_sort-Blind l f d a b c
      call_builtin-Blind length_of (a ∷ []) (h, z) = bind-Blind tainted g h measure-Blind
      call_builtin-Blind to_string (a ∷ []) (h, z) = bind-Blind tainted g h stringify-Blind
      call_builtin-Blind contains_text (h ∷ n ∷ []) (a, (b, z)) = call_contains-Blind h n a b
      call_builtin-Blind has_field (r ∷ n ∷ []) (a, (b, z)) =
          bind-Blind tainted g a (λ x. bind-Blind tainted g b (λ y. field_present-Blind x y))
      call_builtin-Blind b ids h = panic-Blind tainted g
