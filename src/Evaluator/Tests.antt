-- ===== src/Evaluator/Tests.antt =====
-- Runs of the evaluator, and the theorems at a concrete call.
use mizu_navigator.Prelude.{
  Bytes, true, ◌≡◌, ◌≢◌, refl, ℕ, Option, Bool, false, none, some, [], ◌∷◌, arith, codes, bytes_eq,
  ◌==◌, if◌then◌else◌,
}
use mizu_navigator.Value.{
  Value, int, string, pos, ◌+ℤ◌, to_i64, ok, err, out_of_fuel, type_error, string_name, Outcome,
}
use mizu_navigator.Value.Operators.{add, apply_binop, binop_int}
use mizu_navigator.Evaluator.{
  Evaluator, new, push_local, pop_local, truncate_locals, unindex_all, get_local, get_global,
}
use mizu_navigator.Evaluator.Syntax.{
  literal, variable, binary_op, function_call, Arena, Program, MizuFunction, num_type, args,
}
use mizu_navigator.Evaluator.Monad.{◌>>=◌, ◌>>◌, return, raise, panic, metered}
use mizu_navigator.Evaluator.Types.{check_type, has_type}
use mizu_navigator.Evaluator.Builtins.Dispatch.{builtin_of}
use mizu_navigator.Evaluator.Run.{
  evaluate, evaluate_impl, guarded, call_name, call_function, eval_args, bind_params, framed,
  scoped, eval_variable,
}
use mizu_navigator.Evaluator.Locals.{
  IsIndexed, positions, lookup, push_local-IsIndexed, get_local-lookup,
}
use mizu_navigator.Evaluator.Actions.{Action, assign, execute_action}
use mizu_navigator.Evaluator.Assignments.{execute_action-globals}
use mizu_navigator.Evaluator.Frame.{IsReady, Done, Kept}
use mizu_navigator.Evaluator.Frame.Evaluate.{
  evaluate_frame, evaluate_error_frame, evaluate_terminates,
}

-- `fn sum(a: num, b: num) = a + b`
abbrev sum : MizuFunction
sum = record {
  params = (1, num_type) ∷ (2, num_type) ∷ [];
  body = record {
    root = 2;
    arena = record { nodes = variable 1 ∷ variable 2 ∷ binary_op 0 add 1 ∷ []; args_pool = [] };
  };
}

abbrev program : Program
program = record {
  functions = λ name. if name == 5 then some sum else none;
  resolve = λ name. if name == 5 then some (codes "sum") else none;
}

-- `sum(2, 3)`, and `sum(2, "x")`
abbrev call_of : Value → Arena
call_of v = record {
  nodes = literal (int (pos 2)) ∷ literal v ∷ function_call 5 0 2 ∷ [];
  args_pool = 0 ∷ 1 ∷ [];
}

abbrev by_value : Value → Value → Bool
by_value x y = false

abbrev idle : Evaluator
idle = new 20000

idle-IsReady : IsReady idle
unfolding new
idle-IsReady = record {
  indexed = record { indexed = λ name. unfold positions in refl; paired = refl };
  within = omega arith;
  bounded = omega arith;
}

-- `evaluate` with all that it calls, for the runs below.
run : Value → Outcome Value × Evaluator
unfolding evaluate evaluate_impl guarded call_name call_function eval_args bind_params framed scoped
    eval_variable push_local pop_local truncate_locals unindex_all get_local get_global check_type
    has_type builtin_of bytes_eq args ◌>>=◌ ◌>>◌ return raise panic metered apply_binop binop_int
    ◌+ℤ◌ to_i64 new
run v = evaluate by_value program 257 (call_of v) 0 (function_call 5 0 2) idle

-- The sum, with no binding left behind.
sum_result : ((run (int (pos 3))).0 ≡ ok (int (pos 5))) × ((run (int (pos 3))).1.local_stack ≡ [])
unfolding run
sum_result = (refl, refl)

-- A type error on the second parameter leaves the first one bound: an evaluation at frame 0 that
-- comes later finds it, in the place of a global of that name.
leaked :
    ((run (string [])).0 ≡ err (type_error string_name))
    × ((run (string [])).1.local_symbols ≡ 1 ∷ [])
    × (get_local 1 0 (run (string [])).1 ≡ some (int (pos 2)))
unfolding run
leaked = (refl, refl, refl)

evaluate_frame_example :
    Done idle (evaluate by_value program 257 (call_of (int (pos 3))) 0 (function_call 5 0 2) idle).1
evaluate_frame_example =
    evaluate_frame by_value program 257 (call_of (int (pos 3))) 0 (function_call 5 0 2) idle
      idle-IsReady (int (pos 5)) (unfold run in sum_result.0)

evaluate_error_frame_example :
    Kept idle (evaluate by_value program 257 (call_of (string [])) 0 (function_call 5 0 2) idle).1
evaluate_error_frame_example =
    evaluate_error_frame by_value program 257 (call_of (string [])) 0 (function_call 5 0 2) idle
      idle-IsReady (type_error string_name) (unfold run in leaked.0)

evaluate_terminates_example :
    (evaluate by_value program 257 (call_of (string [])) 0 (function_call 5 0 2) idle).0
    ≢ out_of_fuel
evaluate_terminates_example =
    evaluate_terminates by_value program 257 (call_of (string [])) 0 (function_call 5 0 2) idle
      idle-IsReady (unfold new in omega arith)

-- Two bindings of symbol 1, with one of symbol 2 between them, seen from a frame that begins at 1.
abbrev shadowed : Evaluator
shadowed = push_local 1 (int (pos 7)) (push_local 2 (int (pos 8)) (push_local 1 (int (pos 9)) idle))

shadowed-IsIndexed : IsIndexed shadowed
shadowed-IsIndexed =
    push_local-IsIndexed 1 (int (pos 7))
      (push_local 2 (int (pos 8)) (push_local 1 (int (pos 9)) idle))
      (push_local-IsIndexed 2 (int (pos 8)) (push_local 1 (int (pos 9)) idle)
        (push_local-IsIndexed 1 (int (pos 9)) idle idle-IsReady.indexed))

get_local-lookup_example :
    get_local 1 1 shadowed ≡ lookup 1 1 shadowed.local_symbols shadowed.local_stack
get_local-lookup_example = get_local-lookup 1 1 shadowed shadowed-IsIndexed

-- `a = 3` from an idle state leaves the global `b` alone.
abbrev assignment : Action
assignment = assign (codes "a") (record { root = 0; arena = call_of (int (pos 3)) })

abbrev symbol : Bytes → Option ℕ
symbol name = if bytes_eq name (codes "a") then some 1 else some 2

other_symbol : symbol (codes "a") ≡ some 2 → false ≡ true
unfolding bytes_eq
other_symbol h = absurd (ground (arith, h))

execute_action-globals_example :
    (execute_action by_value program symbol assignment idle).1.global_store 2 ≡ idle.global_store 2
execute_action-globals_example =
    execute_action-globals by_value program symbol assignment 2 idle idle-IsReady.indexed
      (unfold new in omega arith) (λ h. unfold new in other_symbol h)
