-- ===== src/Evaluator/Builtins/Dispatch.antt =====
-- The choice of a built-in by its name and the number of arguments, in
-- crates/core/src/core/types/eval/evaluate.rs.
use mizu_navigator.Prelude.{
  ℕ, Bool, ◌&&◌, Option, none, some, List, [], ◌∷◌, ◌==◌, if◌then◌else◌, Bytes, codes, bytes_eq,
}
use mizu_navigator.Value.{Value}
use mizu_navigator.Evaluator.Syntax.{Arena}
use mizu_navigator.Evaluator.Monad.{M, panic}
use mizu_navigator.Evaluator.Builtins.{
  call_copy_to_clipboard, call_get_system_time, call_store_local, call_download, call_length,
  call_to_string, call_contains, call_has_field,
}
use mizu_navigator.Evaluator.Builtins.Lists.{call_count, call_filter, call_sort}

pub data Builtin : Type 0 where
  copy_text_of ask_time store filter_list count_matches download_file : Builtin
  sort_list length_of to_string contains_text has_field : Builtin

-- The first three are refused on a wrong number of arguments; the others then are no built-ins.
unfoldable pub builtin_of : Bytes → ℕ → Option Builtin
builtin_of name arity =
    if bytes_eq name (codes "copy_to_clipboard")
    then some copy_text_of
    else if bytes_eq name (codes "get_system_time")
    then some ask_time
    else if bytes_eq name (codes "store_local")
    then some store
    else if bytes_eq name (codes "filter") && (arity == 4)
    then some filter_list
    else if bytes_eq name (codes "count") && (arity == 3)
    then some count_matches
    else if bytes_eq name (codes "download") && (arity == 1)
    then some download_file
    else if bytes_eq name (codes "sort") && (arity == 3)
    then some sort_list
    else if bytes_eq name (codes "length") && (arity == 1)
    then some length_of
    else if bytes_eq name (codes "to_string") && (arity == 1)
    then some to_string
    else if bytes_eq name (codes "contains") && (arity == 2)
    then some contains_text
    else if bytes_eq name (codes "has_field") && (arity == 2)
    then some has_field
    else none

-- The built-in's arm; `builtin_of` leaves no other number of arguments.
unfoldable pub call_builtin :
    (Value → Value → Bool) → Arena → (ℕ → M Value) → Builtin → List ℕ → M Value
call_builtin ptr_eq arena run copy_text_of ids = call_copy_to_clipboard arena run ids
call_builtin ptr_eq arena run ask_time ids = call_get_system_time arena run ids
call_builtin ptr_eq arena run store ids = call_store_local arena run ids
call_builtin ptr_eq arena run filter_list (l ∷ f ∷ o ∷ t ∷ []) = call_filter run l f o t
call_builtin ptr_eq arena run count_matches (l ∷ f ∷ t ∷ []) = call_count ptr_eq run l f t
call_builtin ptr_eq arena run download_file (a ∷ []) = call_download arena run a
call_builtin ptr_eq arena run sort_list (l ∷ f ∷ d ∷ []) = call_sort run l f d
call_builtin ptr_eq arena run length_of (a ∷ []) = call_length arena run a
call_builtin ptr_eq arena run to_string (a ∷ []) = call_to_string arena run a
call_builtin ptr_eq arena run contains_text (h ∷ n ∷ []) = call_contains arena run h n
call_builtin ptr_eq arena run has_field (r ∷ n ∷ []) = call_has_field arena run r n
call_builtin ptr_eq arena run b ids = panic
