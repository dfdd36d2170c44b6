-- ===== src/Flow/Blind/Evaluate.antt =====
-- The evaluation of an expression that reads no tainted symbol does not see the tainted globals.
use mizu_navigator.Prelude.{
  ℕ, zero, suc, ◌≡◌, refl, ap, ◌∙◌, bytes_eq, Option, none, some, List, [], ◌∷◌, length, get_elem?,
  Bool, true, false, ◌==◌, All, inl, inr, Bytes, codes,
}
use mizu_navigator.Value.{Value, bool, record_of, find_field, parse_error}
use mizu_navigator.Value.Operators.{apply_binop}
use mizu_navigator.Evaluator.Syntax.{
  Expr, literal, variable, binary_op, function_call, let_in, not_of, if_else, field_access, Arena,
  MizuFunction, Program, args,
}
use mizu_navigator.Evaluator.Monad.{M, panic, raise}
use mizu_navigator.Evaluator.Builtins.Dispatch.{Builtin, builtin_of, ask_time, call_builtin}
use mizu_navigator.Evaluator.Run.{
  name_of, negate, choose, project, eval_args, run_node, call_function, call_name, evaluate_impl,
  evaluate,
}
use mizu_navigator.Flow.Walk.{Taint, is_symbol}
use mizu_navigator.Flow.Clean.{Clean, CleanExpr, CleanNode, CleanCall}
use mizu_navigator.Flow.Blind.{
  Blind, bind-Blind, then-Blind, return-Blind, raise-Blind, panic-Blind, metered-Blind, if-Blind,
  option-Blind,
}
use mizu_navigator.Flow.Blind.Steps.{
  scoped-Blind, framed-Blind, enter_frame-Blind, bind_params-Blind, eval_variable-Blind,
  guarded-Blind,
}
use mizu_navigator.Flow.Blind.Calls.{call_get_system_time-Blind, call_builtin-Blind}

-- The bodies of the functions that are not tainted are clean.
abbrev pub CleanFunctions : Taint → Option ℕ → Program → Type 0
CleanFunctions taint gst program =
    (name : ℕ) (func : MizuFunction)
    → program.functions name ≡ some func
    → taint.functions name ≡ false
    → (k : ℕ) × Clean taint gst k func.body.arena func.body.root

-- The symbol of `get_system_time` stands for that text.
abbrev pub NamesTime : Option ℕ → Program → Type 0
NamesTime gst program =
    (name : ℕ) → is_symbol gst name ≡ true → program.resolve name ≡ some (codes "get_system_time")

module _ (taint : Taint) (gst : Option ℕ) (g : ℕ → Option Value) where
  negate-Blind : (v : Value) → Blind taint.vars g (negate v)
  negate-Blind (bool b) = return-Blind taint.vars g _
  negate-Blind v = raise-Blind taint.vars g _

  choose-Blind :
      (v : Value) {m n : M Value}
      → Blind taint.vars g m
      → Blind taint.vars g n
      → Blind taint.vars g (choose v m n)
  choose-Blind (bool true) h k = h
  choose-Blind (bool false) h k = k
  choose-Blind v h k = raise-Blind taint.vars g _

  project-Blind :
      (program : Program) (name hash : ℕ) (v : Value)
      → Blind taint.vars g (project program name hash v)
  unfolding project
  project-Blind program name hash (record_of fs) =
      option-Blind taint.vars g (find_field fs hash (name_of program name []))
        (raise-Blind taint.vars g _) (λ v. return-Blind taint.vars g _)
  project-Blind program name hash v = raise-Blind taint.vars g _

  eval_args-Blind :
      (run : ℕ → M Value) (ids : List ℕ)
      → All (λ id. Blind taint.vars g (run id)) ids
      → Blind taint.vars g (eval_args run ids)
  unfolding eval_args
  eval_args-Blind run [] h = return-Blind taint.vars g _
  eval_args-Blind run (id ∷ ids) h = bind-Blind taint.vars g h.0 (λ v.
      bind-Blind taint.vars g (eval_args-Blind run ids h.1) (λ vs. return-Blind taint.vars g _))

  module _ (ptr_eq : Value → Value → Bool) (program : Program)
      (bodies : CleanFunctions taint gst program) (named : NamesTime gst program) where
    -- The evaluation of what lies one level deeper
    abbrev Deeper : (Arena → ℕ → Expr → M Value) → Type 0
    Deeper eval =
        (k : ℕ) (arena : Arena) (fp : ℕ) (e : Expr)
        → CleanExpr taint gst arena (Clean taint gst k arena) e
        → Blind taint.vars g (eval arena fp e)

    module _ (eval : Arena → ℕ → Expr → M Value) (deeper : Deeper eval) where
      found-Blind :
          (k : ℕ) (arena : Arena) (fp : ℕ) (o : Option Expr)
          → CleanNode taint gst arena (Clean taint gst k arena) o
          → Blind taint.vars g
              (elim o as (λ _. M Value) [ some e ↦ eval arena fp e | none ↦ panic ])
      found-Blind k arena fp none h = panic-Blind taint.vars g
      found-Blind k arena fp (some e) h = deeper k arena fp e h

      run_node-Blind :
          (k : ℕ) (arena : Arena) (fp id : ℕ)
          → Clean taint gst k arena id
          → Blind taint.vars g (run_node ptr_eq program eval arena fp id)
      run_node-Blind zero arena fp id h = absurd h
      run_node-Blind (suc k) arena fp id h = found-Blind k arena fp (get_elem? arena.nodes id) h

      args-Blind :
          (k : ℕ) (arena : Arena) (fp : ℕ) (ids : List ℕ)
          → All (Clean taint gst k arena) ids
          → All (λ id. Blind taint.vars g (run_node ptr_eq program eval arena fp id)) ids
      args-Blind k arena fp [] h = tt
      args-Blind k arena fp (id ∷ ids) h =
          (run_node-Blind k arena fp id h.0, args-Blind k arena fp ids h.1)

      call_function-Blind :
          (k : ℕ) (arena : Arena) (fp : ℕ) (func : MizuFunction) (ids : List ℕ)
          → ((j : ℕ) × Clean taint gst j func.body.arena func.body.root)
          → All (Clean taint gst k arena) ids
          → Blind taint.vars g (call_function ptr_eq program eval arena fp func ids)
      unfolding call_function
      call_function-Blind k arena fp func ids (j, b) h =
          if-Blind taint.vars g (length ids == length func.params)
            (bind-Blind taint.vars g
              (eval_args-Blind (run_node ptr_eq program eval arena fp) ids
                (args-Blind k arena fp ids h))
              (λ vs. enter_frame-Blind taint.vars g _ (λ new_fp.
                then-Blind taint.vars g (bind_params-Blind taint.vars g func.params vs) (
                  framed-Blind taint.vars g new_fp
                    (run_node-Blind j func.body.arena new_fp func.body.root b)))))
            (raise-Blind taint.vars g _)

      user_call-Blind :
          (k : ℕ) (arena : Arena) (fp name : ℕ) (ids : List ℕ)
          → taint.functions name ≡ false
          → All (Clean taint gst k arena) ids
          → (o : Option MizuFunction) → program.functions name ≡ o
          → Blind taint.vars g (elim o as (λ _. M Value) [
            | some func ↦ call_function ptr_eq program eval arena fp func ids
            | none ↦ raise parse_error
          ])
      user_call-Blind k arena fp name ids f h none e = raise-Blind taint.vars g _
      user_call-Blind k arena fp name ids f h (some func) e =
          call_function-Blind k arena fp func ids (bodies name func e f) h

      time_builtin : (n : ℕ) → builtin_of (codes "get_system_time") n ≡ some ask_time
      unfolding builtin_of bytes_eq
      time_builtin n = refl

      time_name :
          (name : ℕ)
          → is_symbol gst name ≡ true
          → name_of program name (codes "<unknown>") ≡ codes "get_system_time"
      time_name name h =
          ap (λ (o : Option Bytes). elim o [ some text ↦ text | none ↦ codes "<unknown>" ])
            (named name h)

      time_call-Blind :
          (arena : Arena) (fp name : ℕ) (ids : List ℕ) (o : Option Builtin)
          → o ≡ some ask_time
          → Blind taint.vars g (elim o as (λ _. M Value) [
            | some b ↦ call_builtin ptr_eq arena (run_node ptr_eq program eval arena fp) b ids
            | none ↦ elim (program.functions name) [
              | some func ↦ call_function ptr_eq program eval arena fp func ids
              | none ↦ raise parse_error
            ]
          ])
      unfolding call_builtin
      time_call-Blind arena fp name ids none e = absurd (cc)
      time_call-Blind arena fp name ids (some b) e =
          let q : b ≡ ask_time = cc in
          rw q (
            call_get_system_time-Blind taint.vars g ptr_eq arena
              (run_node ptr_eq program eval arena fp) ids)

      call_name-Blind :
          (k : ℕ) (arena : Arena) (fp name : ℕ) (ids : List ℕ)
          → CleanCall taint gst (Clean taint gst k arena) name ids
          → Blind taint.vars g (call_name ptr_eq program eval arena fp name ids)
      unfolding call_name
      call_name-Blind k arena fp name ids (inl t) =
          time_call-Blind arena fp name ids _ (
            ap (λ text. builtin_of text (length ids)) (time_name name t)
            ∙ time_builtin (length ids))
      call_name-Blind k arena fp name ids (inr (f, h)) =
          option-Blind taint.vars g
            (builtin_of (name_of program name (codes "<unknown>")) (length ids))
            (user_call-Blind k arena fp name ids f h (program.functions name) refl)
            (λ b.
              call_builtin-Blind taint.vars g ptr_eq arena (run_node ptr_eq program eval arena fp) b
                ids (args-Blind k arena fp ids h))

      window-Blind :
          (k : ℕ) (arena : Arena) (fp name : ℕ) (o : Option (List ℕ))
          → elim o as (λ _. Type 0) [
            | none ↦ Unit
            | some ids ↦ CleanCall taint gst (Clean taint gst k arena) name ids
          ]
          → Blind taint.vars g (elim o as (λ _. M Value) [
            | some ids ↦ call_name ptr_eq program eval arena fp name ids
            | none ↦ panic
          ])
      window-Blind k arena fp name none h = panic-Blind taint.vars g
      window-Blind k arena fp name (some ids) h = call_name-Blind k arena fp name ids h

      evaluate_impl-Blind :
          (k : ℕ) (arena : Arena) (fp : ℕ) (e : Expr)
          → CleanExpr taint gst arena (Clean taint gst k arena) e
          → Blind taint.vars g (evaluate_impl ptr_eq program eval arena fp e)
      unfolding evaluate_impl
      evaluate_impl-Blind k arena fp (literal v) h = return-Blind taint.vars g _
      evaluate_impl-Blind k arena fp (variable name) h =
          eval_variable-Blind taint.vars g program fp name h
      evaluate_impl-Blind k arena fp (binary_op left op right) h =
          bind-Blind taint.vars g (run_node-Blind k arena fp left h.0) (λ l.
            bind-Blind taint.vars g (run_node-Blind k arena fp right h.1)
              (λ r. metered-Blind taint.vars g (apply_binop op l r)))
      evaluate_impl-Blind k arena fp (function_call name start len) h =
          window-Blind k arena fp name (args arena start len) h
      evaluate_impl-Blind k arena fp (let_in name value body) h =
          bind-Blind taint.vars g (run_node-Blind k arena fp value h.0)
            (λ v. scoped-Blind taint.vars g name v (run_node-Blind k arena fp body h.1))
      evaluate_impl-Blind k arena fp (not_of inner) h =
          bind-Blind taint.vars g (run_node-Blind k arena fp inner h) negate-Blind
      evaluate_impl-Blind k arena fp (if_else condition then_expr else_expr) h =
          bind-Blind taint.vars g (run_node-Blind k arena fp condition h.0) (λ v.
            choose-Blind v (run_node-Blind k arena fp then_expr h.1)
              (run_node-Blind k arena fp else_expr h.2))
      evaluate_impl-Blind k arena fp (field_access base name hash) h =
          bind-Blind taint.vars g (run_node-Blind k arena fp base h)
            (project-Blind program name hash)

    pub evaluate-Blind :
        (fuel k : ℕ) (arena : Arena) (fp : ℕ) (e : Expr)
        → CleanExpr taint gst arena (Clean taint gst k arena) e
        → Blind taint.vars g (evaluate ptr_eq program fuel arena fp e)
    unfolding evaluate
    evaluate-Blind zero k arena fp e h =
        guarded-Blind taint.vars g (record { on = λ s a. (refl, refl) })
    evaluate-Blind (suc fuel) k arena fp e h =
        guarded-Blind taint.vars g
          (evaluate_impl-Blind (evaluate ptr_eq program fuel) (evaluate-Blind fuel) k arena fp e h)

    pub tree-Blind :
        (fuel k : ℕ) (arena : Arena) (fp id : ℕ)
        → Clean taint gst k arena id
        → Blind taint.vars g (run_node ptr_eq program (evaluate ptr_eq program fuel) arena fp id)
    tree-Blind fuel k arena fp id h =
        run_node-Blind (evaluate ptr_eq program fuel) (evaluate-Blind fuel) k arena fp id h
