-- ===== src/Evaluator/Frame/Calls.antt =====
-- The built-in functions keep the frame when the evaluation of their arguments does.
use mizu_navigator.Prelude.{ℕ, List, [], ◌∷◌, length, Bool, true, false, get_elem?}
use mizu_navigator.Value.{Value, bool, int, decimal, string, list, record_of}
use mizu_navigator.Evaluator.Syntax.{Arena, Expr, variable}
use mizu_navigator.Evaluator.Monad.{M}
use mizu_navigator.Evaluator.Builtins.{
  expect_string, expect_list, string_or_fail, bare_variable, symbol_of, is_computed, unless,
  measure, measure_string, stringify, field_present, call_copy_to_clipboard, call_get_system_time,
  call_store_local, call_download, call_length, call_to_string, call_contains, call_has_field,
}
use mizu_navigator.Evaluator.Frame.{
  Tame, bind-Tame, then-Tame, return-Tame, raise-Tame, panic-Tame, option-Tame, Done-refl,
}
use mizu_navigator.Evaluator.Frame.Effects.{charge-Tame, metered-Tame, queue-Tame}
use mizu_navigator.Evaluator.Frame.Charges.{measure_string-IsMetered}

module _ (fuel : ℕ) where
  pub expect_string-Tame : (v : Value) → Tame fuel (expect_string v)
  expect_string-Tame (string s) = return-Tame _
  expect_string-Tame v = raise-Tame _

  pub expect_list-Tame : (v : Value) → Tame fuel (expect_list v)
  expect_list-Tame (list vs) = return-Tame _
  expect_list-Tame v = raise-Tame _

  pub string_or_fail-Tame : (v : Value) → Tame fuel (string_or_fail v)
  string_or_fail-Tame (string s) = return-Tame _
  string_or_fail-Tame v = raise-Tame _

  pub unless-Tame : (b : Bool) (m : M Value) → Tame fuel m → Tame fuel (unless b m)
  unless-Tame true m h = raise-Tame _
  unless-Tame false m h = h

  measure-Tame : (v : Value) → Tame fuel (measure v)
  unfolding measure
  measure-Tame (list vs) = return-Tame _
  measure-Tame (string s) = metered-Tame (measure_string s) (measure_string-IsMetered s)
  measure-Tame v = raise-Tame _

  stringify-Tame : (v : Value) → Tame fuel (stringify v)
  unfolding stringify
  stringify-Tame (int n) = return-Tame _
  stringify-Tame (decimal n) = return-Tame _
  stringify-Tame (bool n) = return-Tame _
  stringify-Tame v = raise-Tame _

  field_present-Tame : (v name : Value) → Tame fuel (field_present v name)
  unfolding field_present
  field_present-Tame (record_of fs) name =
      bind-Tame (expect_string-Tame name) (λ s. (return-Tame _))
  field_present-Tame v name = raise-Tame _

  variable_symbol-Tame : (arena : Arena) (id : ℕ) → Tame fuel (bare_variable arena id)
  variable_symbol-Tame arena id = option-Tame (get_elem? arena.nodes id) panic-Tame symbol
    where
      symbol : (e : Expr) → Tame fuel (symbol_of e)
      symbol (variable name) = return-Tame _
      symbol e = raise-Tame _

  is_computed-Tame : (target : ℕ) → Tame fuel (is_computed target)
  is_computed-Tame target = record { on = λ s r. Done-refl s r }

  module _ (arena : Arena) (run : ℕ → M Value) (run-Tame : (id : ℕ) → Tame fuel (run id)) where
    pub call_copy_to_clipboard-Tame :
        (ids : List ℕ) → Tame fuel (call_copy_to_clipboard arena run ids)
    unfolding call_copy_to_clipboard
    call_copy_to_clipboard-Tame (a ∷ []) =
        bind-Tame (run-Tame a)
          (λ v. bind-Tame (string_or_fail-Tame v) (λ s. then-Tame (queue-Tame _) (return-Tame _)))
    call_copy_to_clipboard-Tame ids = raise-Tame _

    pub call_get_system_time-Tame : (ids : List ℕ) → Tame fuel (call_get_system_time arena run ids)
    unfolding call_get_system_time
    call_get_system_time-Tame (a ∷ []) = bind-Tame (variable_symbol-Tame arena a) (λ target.
        bind-Tame (is_computed-Tame target)
          (λ c. unless-Tame c _ (then-Tame (queue-Tame _) (return-Tame _))))
    call_get_system_time-Tame ids = raise-Tame _

    pub call_store_local-Tame : (ids : List ℕ) → Tame fuel (call_store_local arena run ids)
    unfolding call_store_local
    call_store_local-Tame (k ∷ v ∷ []) = bind-Tame (run-Tame k) (λ x.
        bind-Tame (string_or_fail-Tame x)
          (λ key. bind-Tame (run-Tame v) (λ y. then-Tame (queue-Tame _) (return-Tame _))))
    call_store_local-Tame ids = raise-Tame _

    pub call_download-Tame : (a : ℕ) → Tame fuel (call_download arena run a)
    unfolding call_download
    call_download-Tame a =
        bind-Tame (variable_symbol-Tame arena a) (λ name. then-Tame (queue-Tame _) (return-Tame _))

    pub call_length-Tame : (a : ℕ) → Tame fuel (call_length arena run a)
    unfolding call_length
    call_length-Tame a = bind-Tame (run-Tame a) measure-Tame

    pub call_to_string-Tame : (a : ℕ) → Tame fuel (call_to_string arena run a)
    unfolding call_to_string
    call_to_string-Tame a = bind-Tame (run-Tame a) stringify-Tame

    pub call_contains-Tame : (h n : ℕ) → Tame fuel (call_contains arena run h n)
    unfolding call_contains
    call_contains-Tame h n = bind-Tame (run-Tame h) (λ x. bind-Tame (run-Tame n) (λ y.
        bind-Tame (expect_string-Tame x) (λ haystack.
          bind-Tame (expect_string-Tame y)
            (λ needle. then-Tame (charge-Tame (length haystack)) (return-Tame _)))))

    pub call_has_field-Tame : (r n : ℕ) → Tame fuel (call_has_field arena run r n)
    unfolding call_has_field
    call_has_field-Tame r n =
        bind-Tame (run-Tame r) (λ x. bind-Tame (run-Tame n) (λ y. field_present-Tame x y))
