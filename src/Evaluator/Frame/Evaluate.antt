-- ===== src/Evaluator/Frame/Evaluate.antt =====
-- The evaluator as a whole: what any evaluation leaves of the state that it starts from.
use mizu_navigator.Prelude.{
  ℕ, zero, suc, ◌+◌, ◌-◌, ◌≤◌, ◌<◌, ◌^◌, ◌%◌, ◌≡◌, ◌≢◌, refl, arith, Bool, true, false, ltb,
  if◌then◌else◌,
}
use mathlib.Core.Path.{subst}
use mizu_navigator.Value.{
  Value, MizuError, timeout, execution_error, Outcome, ok, err, panicked, out_of_fuel,
}
use mizu_navigator.Evaluator.{Evaluator, max_eval_depth}
use mizu_navigator.Evaluator.Syntax.{Expr, Arena, Program}
use mizu_navigator.Evaluator.Monad.{M}
use mizu_navigator.Evaluator.Run.{guarded, enter_level, leave_level, evaluate_impl, evaluate}
use mizu_navigator.Evaluator.Frame.{Kept, Done, IsReady, Post, Tame}
use mizu_navigator.Evaluator.Frame.Effects.{count-Kept}
use mizu_navigator.Evaluator.Frame.Impl.{evaluate_impl-Tame}

enter_level-IsReady :
    (s : Evaluator) (count : ℕ)
    → IsReady s
    → count ≤ s.max_instructions
    → IsReady (enter_level count s)
enter_level-IsReady s count r h = record {
  indexed = record { indexed = r.indexed.indexed; paired = r.indexed.paired };
  within = h;
  bounded = r.bounded;
}

leave_level-Kept :
    (s t : Evaluator) (count : ℕ)
    → Kept (enter_level count s) t
    → Kept s (record t { eval_depth = t.eval_depth - 1 })
leave_level-Kept s t count k = record {
  globals = k.globals;
  undo = k.undo;
  computed = k.computed;
  budget = k.budget;
  depth = omega (arith, k.depth);
  actions = k.actions;
  symbols = k.symbols;
  values = k.values;
  indexed = record { indexed = k.indexed.indexed; paired = k.indexed.paired };
}

leave_level-Post :
    (fuel : ℕ) (s : Evaluator) (count : ℕ) (x : Outcome Value × Evaluator)
    → Post fuel (enter_level count s) x
    → Post (suc fuel) s (leave_level x)
leave_level-Post fuel s count (ok v, t) d = record {
  kept = leave_level-Kept s t count d.kept;
  symbols = d.symbols;
  values = d.values;
  spent = d.spent;
}
leave_level-Post fuel s count (err e, t) k = leave_level-Kept s t count k
leave_level-Post fuel s count (panicked, t) k = leave_level-Kept s t count k
leave_level-Post fuel s count (out_of_fuel, t) h = omega (arith, h)

guards-Post :
    (fuel : ℕ) (s e f : Evaluator) (b c : Bool) (x : Outcome Value × Evaluator)
    → Kept s e
    → Kept s f
    → (b ≡ false → c ≡ false → Post fuel s x)
    → Post fuel s (if b then (err timeout, e) else if c then (err execution_error, f) else x)
guards-Post fuel s e f true c x h k g = h
guards-Post fuel s e f false true x h k g = k
guards-Post fuel s e f false false x h k g = g refl refl

-- A step within the budget is counted without wrapping.
guarded-Post :
    (fuel : ℕ) (s : Evaluator) (body : M Value)
    → IsReady s
    → let count = (s.instruction_count + 1) % 2 ^ 64 in
      (count ≤ s.max_instructions
        → s.eval_depth + 1 ≤ 256
        → Post fuel s (leave_level (body (enter_level count s))))
      → Post fuel s (guarded body s)
unfolding guarded
guarded-Post fuel s body r h =
    let count = (s.instruction_count + 1) % 2 ^ 64 in
    guards-Post fuel s (record s { instruction_count = count })
      (record s { instruction_count = count }) (ltb s.max_instructions count)
      (ltb max_eval_depth (s.eval_depth + 1)) (leave_level (body (enter_level count s)))
      (count-Kept s count r) (count-Kept s count r) (λ p q. h (ground arith) (ground arith))

module _ (ptr_eq : Value → Value → Bool) (program : Program) where
  pub evaluate-Tame :
      (fuel : ℕ) (arena : Arena) (fp : ℕ) (e : Expr)
      → Tame fuel (evaluate ptr_eq program fuel arena fp e)
  unfolding evaluate
  evaluate-Tame zero arena fp e = record {
    on = λ s r. guarded-Post 0 s (λ t. (out_of_fuel, t)) r (λ h k. omega (arith, k));
  }
  evaluate-Tame (suc fuel) arena fp e = record {
    on = λ s r.
        let count = (s.instruction_count + 1) % 2 ^ 64 in
        let body = evaluate_impl ptr_eq program (evaluate ptr_eq program fuel) arena fp e in
        guarded-Post (suc fuel) s body r (λ h k.
          leave_level-Post fuel s count (body (enter_level count s)) (
            (evaluate_impl-Tame fuel ptr_eq program (evaluate ptr_eq program fuel)
                (evaluate-Tame fuel) arena fp e).on
              (enter_level count s) (enter_level-IsReady s count r h)));
  }

-- What `evaluate_frame` and `evaluate_error_frame` say, by the outcome.
abbrev Framed : ℕ → Evaluator → Outcome Value → Evaluator → Type 0
Framed fuel s (ok v) t = Done s t
Framed fuel s (err e) t = Kept s t
Framed fuel s panicked t = Kept s t
Framed fuel s out_of_fuel t = s.eval_depth + fuel < 257

Post-Framed :
    (fuel : ℕ) (s : Evaluator) (x : Outcome Value × Evaluator)
    → Post fuel s x
    → Framed fuel s x.0 x.1
Post-Framed fuel s (ok v, t) h = h
Post-Framed fuel s (err e, t) h = h
Post-Framed fuel s (panicked, t) h = h
Post-Framed fuel s (out_of_fuel, t) h = h

module _ (ptr_eq : Value → Value → Bool) (program : Program) (fuel : ℕ) (arena : Arena) (fp : ℕ)
    (e : Expr) (s : Evaluator) (r : IsReady s) where
  evaluate-Framed : let x = evaluate ptr_eq program fuel arena fp e s in Framed fuel s x.0 x.1
  evaluate-Framed =
      Post-Framed fuel s (evaluate ptr_eq program fuel arena fp e s)
        ((evaluate-Tame ptr_eq program fuel arena fp e).on s r)

  -- An evaluation that succeeds leaves the globals, the undo log, the budget, the depth and the
  -- local bindings as they were, with the index of the bindings in step, only adds actions to the
  -- queue, and has not spent more than the budget.
  pub evaluate_frame :
      (v : Value)
      → (evaluate ptr_eq program fuel arena fp e s).0 ≡ ok v
      → Done s (evaluate ptr_eq program fuel arena fp e s).1
  evaluate_frame v h =
      subst (λ o. Framed fuel s o (evaluate ptr_eq program fuel arena fp e s).1) h evaluate-Framed

  -- An evaluation that fails leaves the globals, the undo log, the budget and the depth as they were,
  -- and at most adds actions and local bindings, with the index of the bindings in step.
  pub evaluate_error_frame :
      (error : MizuError)
      → (evaluate ptr_eq program fuel arena fp e s).0 ≡ err error
      → Kept s (evaluate ptr_eq program fuel arena fp e s).1
  evaluate_error_frame error h =
      subst (λ o. Framed fuel s o (evaluate ptr_eq program fuel arena fp e s).1) h evaluate-Framed

  -- The limit on the depth ends every evaluation, whatever the program, even where expressions refer
  -- to themselves: with as much fuel as there are levels of nesting left, fuel does not run out.
  pub evaluate_terminates :
      257 ≤ s.eval_depth + fuel → (evaluate ptr_eq program fuel arena fp e s).0 ≢ out_of_fuel
  evaluate_terminates h = λ q. absurd (
      omega (
        arith,
        h,
        subst (λ o. Framed fuel s o (evaluate ptr_eq program fuel arena fp e s).1) q
            evaluate-Framed,
      ))
