-- ===== src/Evaluator/Actions.antt =====
-- `execute_action` of crates/core/src/parser/logic/eval.rs, with `path_param_ok` of
-- parser/logic/parse/helpers.rs and `set_runtime` of core/types/store.rs. `symbol` is the interner's
-- map from a text to its symbol; methods and formats are numbers.
use mizu_navigator.Prelude.{
  ℕ, Bool, true, false, not, ◌&&◌, ◌||◌, Option, none, some, List, [], ◌∷◌, any, ltb, ◌==◌,
  if◌then◌else◌, Bytes, codes, contains_bytes,
}
use mizu_navigator.Value.{Value, string, decimal, execution_error, ok}
use mizu_navigator.Value.Display.{format_int}
use mizu_navigator.Evaluator.{navigate, network_call, set_global}
use mizu_navigator.Evaluator.Syntax.{ExprTree, Program}
use mizu_navigator.Evaluator.Monad.{M, ◌>>=◌, ◌>>◌, return, raise, queue}
use mizu_navigator.Evaluator.Builtins.{string_or_fail, is_computed}
use mizu_navigator.Evaluator.Run.{evaluate, run_node}

pub data Action : Type 0 where
  eval : ExprTree → Action
  assign : Bytes → ExprTree → Action
  navigate_to : ExprTree → Action
  -- method, alias, payload, path parameter, target, format and headers
  call_network :
      ℕ → ℕ → Option ExprTree → Option ExprTree → Bytes → ℕ → List (Bytes × ExprTree) → Action

unfoldable pub path_param_ok : Bytes → Bool
path_param_ok s =
    not (any (λ c. (c == b'/' || c == b'\\') || (ltb c 0x20 || c == 0x7f)) s)
    && not (contains_bytes (codes "..") s)

-- The path parameter's text: a decimal is printed as its scaled integer.
abbrev pub path_text : Value → M Bytes
path_text (string s) = return s
path_text (decimal n) = return (format_int n)
path_text v = raise execution_error

abbrev pub checked_path : Bytes → M (Option Bytes)
checked_path s = if path_param_ok s then return (some s) else raise execution_error

-- The symbol of a call's target, which must be declared
abbrev pub declared : Option ℕ → M ℕ
declared (some sym) = return sym
declared none = raise execution_error

-- Enough fuel for the 256 levels that `evaluate` allows
abbrev pub enough : ℕ
enough = 257

module _ (ptr_eq : Value → Value → Bool) (program : Program) (symbol : Bytes → Option ℕ) where
  -- An expression at frame 0
  unfoldable pub run_tree : ExprTree → M Value
  run_tree tree = run_node ptr_eq program (evaluate ptr_eq program enough) tree.arena 0 tree.root

  unfoldable pub run_payload : Option ExprTree → M (Option Value)
  run_payload none = return none
  run_payload (some tree) = run_tree tree >>= (λ v. return (some v))

  unfoldable pub run_path : Option ExprTree → M (Option Bytes)
  run_path none = return none
  run_path (some tree) = (run_tree tree >>= path_text) >>= checked_path

  unfoldable pub run_headers : List (Bytes × ExprTree) → M (List (Bytes × Value))
  run_headers [] = return []
  run_headers ((name, tree) ∷ headers) =
      run_tree tree >>= (λ v. run_headers headers >>= (λ vs. return ((name, v) ∷ vs)))

  -- An assignment's symbol, if it is a computed variable
  abbrev pub computed_target : Option ℕ → M Bool
  computed_target none = return false
  computed_target (some sym) = is_computed sym

  abbrev pub set_runtime : Option ℕ → Value → M (Unit {0})
  set_runtime none v s = (ok tt, s)
  set_runtime (some sym) v s = (ok tt, set_global sym v s)

  unfoldable pub perform : Action → M Bool
  perform (eval tree) = run_tree tree >> return false
  perform (assign target tree) = computed_target (symbol target) >>= (λ c.
      if c
      then raise execution_error
      else (run_tree tree >>= (λ v. set_runtime (symbol target) v >> return true)))
  perform (navigate_to tree) =
      (run_tree tree >>= string_or_fail) >>= (λ url. queue (navigate url) >> return true)
  perform (call_network method name payload path target format headers) =
      run_payload payload >>= (λ body. run_path path >>= (λ segment.
        declared (symbol target) >>= (λ variable. run_headers headers >>= (λ values.
          queue (network_call method name body segment variable format values) >> return true))))

  -- `execute_action`: the budget starts anew.
  unfoldable pub execute_action : Action → M Bool
  execute_action action s = perform action (record s { instruction_count = 0 })
