-- ===== src/Evaluator/Frame/ListCalls.antt =====
-- `filter`, `count` and `sort` keep the frame, and with them every built-in.
use mizu_navigator.Prelude.{ℕ, List, [], ◌∷◌, length, Bool, Bytes, saturating_mul}
use mizu_navigator.Value.{Value, get_field, hash_field}
use mizu_navigator.Value.Equality.{budget_eq}
use mizu_navigator.Evaluator.Syntax.{Arena}
use mizu_navigator.Evaluator.Monad.{M}
use mizu_navigator.Evaluator.Builtins.Lists.{
  filter_op, filter_cost, filter_items, filtered, count_matching, call_count, call_filter,
  call_sort, bit_length,
}
use mizu_navigator.Evaluator.Builtins.Dispatch.{
  Builtin, copy_text_of, ask_time, store, filter_list, count_matches, download_file, sort_list,
  length_of, to_string, contains_text, has_field, call_builtin,
}
use mizu_navigator.Evaluator.Frame.{
  Tame, bind-Tame, then-Tame, return-Tame, raise-Tame, panic-Tame, option-Tame,
}
use mizu_navigator.Evaluator.Frame.Effects.{charge-Tame, metered-Tame, committed-Tame}
use mizu_navigator.Evaluator.Frame.Charges.{budget_eq-IsMetered, filter_items-IsMetered}
use mizu_navigator.Evaluator.Frame.Calls.{
  expect_string-Tame, expect_list-Tame, unless-Tame, call_copy_to_clipboard-Tame,
  call_get_system_time-Tame, call_store_local-Tame, call_download-Tame, call_length-Tame,
  call_to_string-Tame, call_contains-Tame, call_has_field-Tame,
}

module _ (fuel : ℕ) (ptr_eq : Value → Value → Bool) where
  filtered-Tame :
      (name op : Bytes) (target : Value) (vs : List Value) → Tame fuel (filtered name op target vs)
  filtered-Tame name op target vs = option-Tame (filter_op op) (raise-Tame _) (λ o.
      bind-Tame
        (committed-Tame (filter_items o name target vs) (filter_items-IsMetered o name target vs))
        (λ kept. (return-Tame _)))

  count_matching-Tame :
      (name : Bytes) (target : Value) (vs : List Value)
      → Tame fuel (count_matching ptr_eq name target vs)
  unfolding count_matching
  count_matching-Tame name target [] = return-Tame _
  count_matching-Tame name target (item ∷ vs) =
      option-Tame (get_field item (hash_field name) name) (count_matching-Tame name target vs) (λ v.
        bind-Tame (metered-Tame (budget_eq ptr_eq v target) (budget_eq-IsMetered ptr_eq v target))
          (λ b. bind-Tame (count_matching-Tame name target vs) (λ n. (return-Tame _))))

  module _ (arena : Arena) (run : ℕ → M Value) (run-Tame : (id : ℕ) → Tame fuel (run id)) where
    call_count-Tame : (l f t : ℕ) → Tame fuel (call_count ptr_eq run l f t)
    unfolding call_count
    call_count-Tame l f t = bind-Tame (run-Tame l) (λ x. bind-Tame (run-Tame f) (λ y.
        bind-Tame (run-Tame t) (λ target. bind-Tame (expect_list-Tame fuel x) (λ vs.
          then-Tame (charge-Tame (length vs)) (
            bind-Tame (expect_string-Tame fuel y)
              (λ name. bind-Tame (count_matching-Tame name target vs) (λ n. (return-Tame _))))))))

    call_filter-Tame : (l f o t : ℕ) → Tame fuel (call_filter run l f o t)
    unfolding call_filter
    call_filter-Tame l f o t = bind-Tame (run-Tame l) (λ x. bind-Tame (run-Tame f) (λ y.
        bind-Tame (run-Tame o) (λ z. bind-Tame (run-Tame t) (λ target.
          bind-Tame (expect_list-Tame fuel x) (λ vs. bind-Tame (expect_string-Tame fuel y) (λ name.
            bind-Tame (expect_string-Tame fuel z) (λ op.
              then-Tame (charge-Tame (filter_cost name op vs))
                (filtered-Tame name op target vs))))))))

    call_sort-Tame : (l f d : ℕ) → Tame fuel (call_sort run l f d)
    unfolding call_sort
    call_sort-Tame l f d = bind-Tame (run-Tame l) (λ x. bind-Tame (run-Tame f) (λ y.
        bind-Tame (run-Tame d) (λ z. bind-Tame (expect_list-Tame fuel x) (λ vs.
          then-Tame (charge-Tame (saturating_mul (length vs) (bit_length 64 (length vs)))) (
            bind-Tame (expect_string-Tame fuel y) (λ name.
              bind-Tame (expect_string-Tame fuel z) (λ direction.
                then-Tame (unless-Tame fuel _ _ (return-Tame _))
                  (then-Tame (unless-Tame fuel _ _ (return-Tame _)) ((return-Tame _))))))))))

    pub call_builtin-Tame :
        (b : Builtin) (ids : List ℕ) → Tame fuel (call_builtin ptr_eq arena run b ids)
    unfolding call_builtin
    call_builtin-Tame copy_text_of ids = call_copy_to_clipboard-Tame fuel arena run run-Tame ids
    call_builtin-Tame ask_time ids = call_get_system_time-Tame fuel arena run run-Tame ids
    call_builtin-Tame store ids = call_store_local-Tame fuel arena run run-Tame ids
    call_builtin-Tame filter_list (l ∷ f ∷ o ∷ t ∷ []) = call_filter-Tame l f o t
    call_builtin-Tame count_matches (l ∷ f ∷ t ∷ []) = call_count-Tame l f t
    call_builtin-Tame download_file (a ∷ []) = call_download-Tame fuel arena run run-Tame a
    call_builtin-Tame sort_list (l ∷ f ∷ d ∷ []) = call_sort-Tame l f d
    call_builtin-Tame length_of (a ∷ []) = call_length-Tame fuel arena run run-Tame a
    call_builtin-Tame to_string (a ∷ []) = call_to_string-Tame fuel arena run run-Tame a
    call_builtin-Tame contains_text (h ∷ n ∷ []) = call_contains-Tame fuel arena run run-Tame h n
    call_builtin-Tame has_field (r ∷ n ∷ []) = call_has_field-Tame fuel arena run run-Tame r n
    call_builtin-Tame b ids = panic-Tame
