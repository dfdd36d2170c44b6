-- ===== src/Evaluator/Run.antt =====
-- `evaluate` and `evaluate_impl` of crates/core/src/core/types/eval/evaluate.rs. The recursion is
-- on fuel, one unit for each level of nesting.
use mizu_navigator.Prelude.{
  ℕ, zero, suc, ◌+◌, ◌-◌, ◌%◌, ◌^◌, Bool, true, false, not, none, some, List, [], ◌∷◌, length,
  get_elem?, ltb, ◌==◌, if◌then◌else◌, Bytes, codes,
}
use mizu_navigator.Value.{
  Value, null, bool, record_of, type_error, type_name, execution_error, parse_error,
  variable_not_found, timeout, Outcome, ok, err, out_of_fuel, find_field,
}
use mizu_navigator.Value.Operators.{apply_binop}
use mizu_navigator.Evaluator.{
  Evaluator, max_eval_depth, push_local, pop_local, truncate_locals, get_local, get_global,
}
use mizu_navigator.Evaluator.Syntax.{
  Expr, literal, variable, binary_op, function_call, let_in, not_of, if_else, field_access, Arena,
  MizuFunction, Program, ValueType, args,
}
use mizu_navigator.Evaluator.Monad.{M, ◌>>=◌, ◌>>◌, return, raise, panic, metered}
use mizu_navigator.Evaluator.Types.{check_type}
use mizu_navigator.Evaluator.Builtins.Dispatch.{builtin_of, call_builtin}

abbrev pub name_of : Program → ℕ → Bytes → Bytes
name_of program sym fallback = elim (program.resolve sym) [ some name ↦ name | none ↦ fallback ]

abbrev pub if_bound : Bytes → Value → Outcome Value
if_bound name null = err (variable_not_found name)
if_bound name v = ok v

-- A local, or else a global that is not null
unfoldable pub eval_variable : Program → ℕ → ℕ → M Value
eval_variable program frame_pointer sym s = elim (get_local sym frame_pointer s) [
  | some v ↦ (ok v, s)
  | none ↦ (if_bound (name_of program sym (codes "<unknown>")) (get_global sym s), s)
]

abbrev pub negate : Value → M Value
negate (bool b) = return (bool (not b))
negate v = raise (type_error (type_name v))

abbrev pub choose : Value → M Value → M Value → M Value
choose (bool true) m n = m
choose (bool false) m n = n
choose v m n = raise (type_error (type_name v))

unfoldable pub project : Program → ℕ → ℕ → Value → M Value
project program sym hash (record_of fs) = elim (find_field fs hash (name_of program sym [])) [
  | some v ↦ return v
  | none ↦ raise (variable_not_found (name_of program sym []))
]
project program sym hash v = raise (type_error (type_name v))

-- The arguments, in order
unfoldable pub eval_args : (ℕ → M Value) → List ℕ → M (List Value)
eval_args run [] = return []
eval_args run (id ∷ ids) = do v ← run id; vs ← eval_args run ids; return (v ∷ vs)

-- Each argument is tested against its parameter's type and bound, before the next is tested.
unfoldable pub bind_params : List (ℕ × ValueType) → List Value → M (Unit {0})
bind_params [] vs = return tt
bind_params (p ∷ params) [] = return tt
bind_params ((sym, t) ∷ params) (v ∷ vs) =
    (λ s. (check_type v t, s)) >> (λ s. (ok tt, push_local sym v s)) >> bind_params params vs

-- A body with one more binding, which goes whatever the outcome.
unfoldable pub scoped : ℕ → Value → M Value → M Value
scoped sym v body s = let (r, t) = body (push_local sym v s) in (r, pop_local t)

-- `let new_fp = self.local_stack.len()`
abbrev pub enter_frame : (ℕ → M Value) → M Value
enter_frame f s = f (length s.local_stack) s

-- A body in a frame that begins at `new_fp`; its bindings go whatever the outcome.
unfoldable pub framed : ℕ → M Value → M Value
framed new_fp body s = let (r, t) = body s in (r, truncate_locals new_fp t)

-- One level deeper, with the step counted, and back
abbrev pub enter_level : ℕ → Evaluator → Evaluator
enter_level count s = record s { instruction_count = count; eval_depth = s.eval_depth + 1 }

abbrev pub leave_level : Outcome Value × Evaluator → Outcome Value × Evaluator
leave_level (r, t) = (r, record t { eval_depth = t.eval_depth - 1 })

-- The guards of `evaluate`: the budget, then the depth, which is restored on the way out.
unfoldable pub guarded : M Value → M Value
guarded body s =
    let count = (s.instruction_count + 1) % 2 ^ 64 in
    if ltb s.max_instructions count
    then (err timeout, record s { instruction_count = count })
    else if ltb max_eval_depth (s.eval_depth + 1)
    then (err execution_error, record s { instruction_count = count })
    else leave_level (body (enter_level count s))

module _ (ptr_eq : Value → Value → Bool) (program : Program) where
  -- `&arena[id]`
  abbrev pub run_node : (Arena → ℕ → Expr → M Value) → Arena → ℕ → ℕ → M Value
  run_node eval arena frame_pointer id = elim (get_elem? arena.nodes id) [
    | some e ↦ eval arena frame_pointer e
    | none ↦ panic
  ]

  -- The call of a user's function
  unfoldable pub call_function :
      (Arena → ℕ → Expr → M Value) → Arena → ℕ → MizuFunction → List ℕ → M Value
  call_function eval arena frame_pointer func ids =
      if length ids == length func.params
      then eval_args (run_node eval arena frame_pointer) ids >>= (λ vs. enter_frame (λ new_fp.
        bind_params func.params vs
        >> framed new_fp (run_node eval func.body.arena new_fp func.body.root)))
      else raise parse_error

  unfoldable pub call_name : (Arena → ℕ → Expr → M Value) → Arena → ℕ → ℕ → List ℕ → M Value
  call_name eval arena frame_pointer name ids =
      elim (builtin_of (name_of program name (codes "<unknown>")) (length ids)) [
        | some b ↦ call_builtin ptr_eq arena (run_node eval arena frame_pointer) b ids
        | none ↦ elim (program.functions name) [
          | some func ↦ call_function eval arena frame_pointer func ids
          | none ↦ raise parse_error
        ]
      ]

  -- `evaluate_impl`, given the evaluation of what lies one level deeper
  unfoldable pub evaluate_impl : (Arena → ℕ → Expr → M Value) → Arena → ℕ → Expr → M Value
  evaluate_impl eval arena fp (literal v) = return v
  evaluate_impl eval arena fp (variable sym) = eval_variable program fp sym
  evaluate_impl eval arena fp (binary_op left op right) = do
    lv ← run_node eval arena fp left
    rv ← run_node eval arena fp right
    metered (apply_binop op lv rv)
  evaluate_impl eval arena fp (function_call name start len) = elim (args arena start len) [
    | some ids ↦ call_name eval arena fp name ids
    | none ↦ panic
  ]
  evaluate_impl eval arena fp (let_in sym value body) =
      run_node eval arena fp value >>= (λ v. scoped sym v (run_node eval arena fp body))
  evaluate_impl eval arena fp (not_of inner) = run_node eval arena fp inner >>= negate
  evaluate_impl eval arena fp (if_else condition then_expr else_expr) = do
    v ← run_node eval arena fp condition
    choose v (run_node eval arena fp then_expr) (run_node eval arena fp else_expr)
  evaluate_impl eval arena fp (field_access base sym hash) =
      run_node eval arena fp base >>= project program sym hash

  unfoldable pub evaluate : ℕ → Arena → ℕ → Expr → M Value
  evaluate zero arena fp e = guarded (λ s. (out_of_fuel, s))
  evaluate (suc fuel) arena fp e = guarded (evaluate_impl (evaluate fuel) arena fp e)
