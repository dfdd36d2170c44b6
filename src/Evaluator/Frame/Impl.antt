-- ===== src/Evaluator/Frame/Impl.antt =====
-- `evaluate_impl` keeps the frame when the evaluation of what lies deeper does.
use mizu_navigator.Prelude.{
  ℕ, Option, none, some, List, [], ◌∷◌, length, get_elem?, Bool, true, false, ◌==◌, Bytes, codes,
}
use mizu_navigator.Value.{Value, null, bool, record_of, ok, find_field}
use mizu_navigator.Value.Operators.{apply_binop}
use mizu_navigator.Evaluator.{Evaluator, get_local, get_global}
use mizu_navigator.Evaluator.Syntax.{
  Expr, literal, variable, binary_op, function_call, let_in, not_of, if_else, field_access, Arena,
  MizuFunction, Program, args,
}
use mizu_navigator.Evaluator.Monad.{M}
use mizu_navigator.Evaluator.Builtins.Dispatch.{builtin_of}
use mizu_navigator.Evaluator.Run.{
  name_of, eval_variable, if_bound, negate, choose, project, eval_args, run_node, call_function,
  call_name, evaluate_impl,
}
use mizu_navigator.Evaluator.Frame.{
  IsReady, Post, Tame, bind-Tame, return-Tame, raise-Tame, panic-Tame, if-Tame, option-Tame,
  Kept-refl, Done-refl,
}
use mizu_navigator.Evaluator.Frame.Effects.{metered-Tame}
use mizu_navigator.Evaluator.Frame.Charges.{apply_binop-IsMetered}
use mizu_navigator.Evaluator.Frame.Scopes.{scoped-Tame}
use mizu_navigator.Evaluator.Frame.Functions.{call-Tame}
use mizu_navigator.Evaluator.Frame.ListCalls.{call_builtin-Tame}

module _ (fuel : ℕ) where
  negate-Tame : (v : Value) → Tame fuel (negate v)
  negate-Tame (bool b) = return-Tame _
  negate-Tame v = raise-Tame _

  choose-Tame : (v : Value) (m n : M Value) → Tame fuel m → Tame fuel n → Tame fuel (choose v m n)
  choose-Tame (bool true) m n h k = h
  choose-Tame (bool false) m n h k = k
  choose-Tame v m n h k = raise-Tame _

  eval_args-Tame :
      (run : ℕ → M Value) (ids : List ℕ)
      → ((id : ℕ) → Tame fuel (run id))
      → Tame fuel (eval_args run ids)
  unfolding eval_args
  eval_args-Tame run [] h = return-Tame _
  eval_args-Tame run (id ∷ ids) h =
      bind-Tame (h id) (λ v. bind-Tame (eval_args-Tame run ids h) (λ vs. (return-Tame _)))

  project-Tame :
      (program : Program) (name hash : ℕ) (v : Value) → Tame fuel (project program name hash v)
  unfolding project
  project-Tame program name hash (record_of fs) =
      option-Tame (find_field fs hash (name_of program name [])) (raise-Tame _)
        (λ v. (return-Tame _))
  project-Tame program name hash v = raise-Tame _

  looked_up-Post :
      (o : Option Value) (v : Value) (name : Bytes) (s : Evaluator)
      → IsReady s
      → Post {A = Value} fuel s (elim o [ some w ↦ (ok w, s) | none ↦ (if_bound name v, s) ])
  looked_up-Post (some w) v name s r = Done-refl s r
  looked_up-Post none null name s r = Kept-refl s r.indexed
  looked_up-Post none v name s r = Done-refl s r

  eval_variable-Tame : (program : Program) (fp name : ℕ) → Tame fuel (eval_variable program fp name)
  unfolding eval_variable
  eval_variable-Tame program fp name = record {
    on = λ s r.
        looked_up-Post (get_local name fp s) (get_global name s)
          (name_of program name (codes "<unknown>")) s r;
  }

  -- The evaluation of what lies one level deeper
  abbrev pub Deeper : (Arena → ℕ → Expr → M Value) → Type 0
  Deeper eval = (arena : Arena) (fp : ℕ) (e : Expr) → Tame fuel (eval arena fp e)

  module _ (ptr_eq : Value → Value → Bool) (program : Program) (eval : Arena → ℕ → Expr → M Value)
      (deeper : Deeper eval) where
    run_node-Tame :
        (arena : Arena) (fp id : ℕ) → Tame fuel (run_node ptr_eq program eval arena fp id)
    run_node-Tame arena fp id =
        option-Tame (get_elem? arena.nodes id) panic-Tame (λ e. deeper arena fp e)

    call_function-Tame :
        (arena : Arena) (fp : ℕ) (func : MizuFunction) (ids : List ℕ)
        → Tame fuel (call_function ptr_eq program eval arena fp func ids)
    unfolding call_function
    call_function-Tame arena fp func ids =
        if-Tame (length ids == length func.params)
          (bind-Tame
            (eval_args-Tame (run_node ptr_eq program eval arena fp) ids (run_node-Tame arena fp))
            (λ vs.
              call-Tame func.params vs
                (λ new_fp. run_node-Tame func.body.arena new_fp func.body.root)))
          (raise-Tame _)

    call_name-Tame :
        (arena : Arena) (fp name : ℕ) (ids : List ℕ)
        → Tame fuel (call_name ptr_eq program eval arena fp name ids)
    unfolding call_name
    call_name-Tame arena fp name ids =
        option-Tame (builtin_of (name_of program name (codes "<unknown>")) (length ids))
          (option-Tame (program.functions name) (raise-Tame _)
            (λ func. call_function-Tame arena fp func ids))
          (λ b.
            call_builtin-Tame fuel ptr_eq arena (run_node ptr_eq program eval arena fp)
              (run_node-Tame arena fp) b ids)

    pub evaluate_impl-Tame :
        (arena : Arena) (fp : ℕ) (e : Expr)
        → Tame fuel (evaluate_impl ptr_eq program eval arena fp e)
    unfolding evaluate_impl
    evaluate_impl-Tame arena fp (literal v) = return-Tame _
    evaluate_impl-Tame arena fp (variable name) = eval_variable-Tame program fp name
    evaluate_impl-Tame arena fp (binary_op left op right) =
        bind-Tame (run_node-Tame arena fp left) (λ l.
          bind-Tame (run_node-Tame arena fp right)
            (λ r. metered-Tame (apply_binop op l r) (apply_binop-IsMetered op l r)))
    evaluate_impl-Tame arena fp (function_call name start len) =
        option-Tame (args arena start len) panic-Tame (λ ids. call_name-Tame arena fp name ids)
    evaluate_impl-Tame arena fp (let_in name value body) =
        bind-Tame (run_node-Tame arena fp value)
          (λ v. scoped-Tame name v (run_node-Tame arena fp body))
    evaluate_impl-Tame arena fp (not_of inner) =
        bind-Tame (run_node-Tame arena fp inner) (λ v. negate-Tame v)
    evaluate_impl-Tame arena fp (if_else condition then_expr else_expr) =
        bind-Tame (run_node-Tame arena fp condition) (λ v.
          choose-Tame v _ _ (run_node-Tame arena fp then_expr) (run_node-Tame arena fp else_expr))
    evaluate_impl-Tame arena fp (field_access base name hash) =
        bind-Tame (run_node-Tame arena fp base) (λ v. project-Tame program name hash v)
