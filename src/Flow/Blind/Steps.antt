-- ===== src/Flow/Blind/Steps.antt =====
-- The guards of evaluation, scopes and frames do not see the globals.
use mizu_navigator.Prelude.{
  ℕ, ◌+◌, ◌^◌, ◌%◌, ◌≡◌, refl, ap, ◌∙◌, Bool, true, false, Option, none, some, List, [], ◌∷◌,
  length, ltb, if◌then◌else◌, Bytes, codes,
}
use mizu_navigator.Value.{Value, null, Outcome, ok, err, timeout, execution_error}
use mizu_navigator.Evaluator.{
  Evaluator, max_eval_depth, push_local, pop_local, truncate_locals, get_local, get_global,
}
use mizu_navigator.Evaluator.Syntax.{ValueType, Program}
use mizu_navigator.Evaluator.Monad.{M}
use mizu_navigator.Evaluator.Run.{
  name_of, if_bound, eval_variable, scoped, framed, enter_frame, bind_params, guarded, enter_level,
  leave_level,
}
use mizu_navigator.Flow.Blind.{moved, carry, Blind, then-Blind, return-Blind}

module _ (tainted : ℕ → Bool) (g : ℕ → Option Value) where
  pop_from-Same :
      (symbols : List ℕ) (t : Evaluator)
      → (pop_local (record (moved g t) { local_symbols = symbols })
          ≡ moved g (pop_local (record t { local_symbols = symbols })))
        × ((pop_local (record t { local_symbols = symbols })).global_store ≡ t.global_store)
  unfolding pop_local
  pop_from-Same [] t = (refl, refl)
  pop_from-Same (x ∷ symbols) t = (refl, refl)

  pub scoped-Blind :
      (name : ℕ) (v : Value) {body : M Value}
      → Blind tainted g body
      → Blind tainted g (scoped name v body)
  unfolding scoped push_local
  scoped-Blind name v {body = body} h = record {
    on = λ s a.
        let (p, e) = h.on (push_local name v s) a in
        let t = (body (push_local name v s)).1 in
        let (q, d) = pop_from-Same t.local_symbols t in
        (
          ap (λ (x : Outcome Value × Evaluator). (x.0, pop_local x.1)) p
              ∙ ap (λ u. ((body (push_local name v s)).0, u)) q,
          d ∙ e,
        );
  }

  pub framed-Blind :
      (fp : ℕ) {body : M Value} → Blind tainted g body → Blind tainted g (framed fp body)
  unfolding framed truncate_locals
  framed-Blind fp h = record {
    on = λ s a.
        let (p, e) = h.on s a in
        (ap (λ (x : Outcome Value × Evaluator). (x.0, truncate_locals fp x.1)) p, e);
  }

  pub enter_frame-Blind :
      (f : ℕ → M Value) → ((fp : ℕ) → Blind tainted g (f fp)) → Blind tainted g (enter_frame f)
  enter_frame-Blind f h = record { on = λ s a. (h (length s.local_stack)).on s a }

  abbrev bind_one : ℕ → Value → M (Unit {0})
  bind_one name v s = (ok tt, push_local name v s)

  push-Blind : (name : ℕ) (v : Value) → Blind tainted g (bind_one name v)
  unfolding push_local
  push-Blind name v = record { on = λ s a. (refl, refl) }

  pub bind_params-Blind :
      (params : List (ℕ × ValueType)) (vs : List Value) → Blind tainted g (bind_params params vs)
  unfolding bind_params
  bind_params-Blind [] vs = return-Blind tainted g tt
  bind_params-Blind (p ∷ params) [] = return-Blind tainted g tt
  bind_params-Blind ((name, t) ∷ params) (v ∷ vs) =
      then-Blind tainted g
        (then-Blind tainted g (record { on = λ s a. (refl, refl) }) (push-Blind name v))
        (bind_params-Blind params vs)

  looked_up-Same :
      (o : Option Value) (name : Bytes) (v w : Value) (s : Evaluator)
      → w ≡ v
      → (◌≡◌ {A = Outcome Value × Evaluator}
          (elim o [ some x ↦ (ok x, moved g s) | none ↦ (if_bound name w, moved g s) ])
          (carry g (elim o [ some x ↦ (ok x, s) | none ↦ (if_bound name v, s) ])))
        × ((let x : Outcome Value × Evaluator = elim o [
          | some x ↦ (ok x, s)
          | none ↦ (if_bound name v, s)
        ] in
              x.1.global_store)
            ≡ s.global_store)
  looked_up-Same (some x) name v w s e = (refl, refl)
  looked_up-Same none name v w s e = (ap (λ u. (if_bound name u, moved g s)) e, refl)

  -- A variable that is not tainted
  pub eval_variable-Blind :
      (program : Program) (fp name : ℕ)
      → tainted name ≡ false
      → Blind tainted g (eval_variable program fp name)
  unfolding eval_variable get_local get_global
  eval_variable-Blind program fp name h = record {
    on = λ s a.
        looked_up-Same (get_local name fp s) (name_of program name (codes "<unknown>"))
          (get_global name s) (get_global name (moved g s)) s
          (ap (λ (o : Option Value). elim o [ some v ↦ v | none ↦ null ]) (a name h));
  }

  guards-Same :
      (b c : Bool) (s e : Evaluator) (x y : Outcome Value × Evaluator)
      → e.global_store ≡ s.global_store
      → (y ≡ carry g x) × (x.1.global_store ≡ s.global_store)
      → ((if b then (err timeout, moved g e) else if c then (err execution_error, moved g e) else y)
          ≡ carry g (if b then (err timeout, e) else if c then (err execution_error, e) else x))
        × ((if b
              then (err timeout, e)
              else if c
              then (err execution_error, e)
              else x).1.global_store
            ≡ s.global_store)
  guards-Same true c s e x y p q = (refl, p)
  guards-Same false true s e x y p q = (refl, p)
  guards-Same false false s e x y p q = q

  pub guarded-Blind : {body : M Value} → Blind tainted g body → Blind tainted g (guarded body)
  unfolding guarded
  guarded-Blind {body = body} h = record {
    on = λ s a.
        let count = (s.instruction_count + 1) % 2 ^ 64 in
        let (p, e) = h.on (enter_level count s) a in
        guards-Same (ltb s.max_instructions count) (ltb max_eval_depth (s.eval_depth + 1)) s
          (record s { instruction_count = count }) (leave_level (body (enter_level count s)))
          (leave_level (body (enter_level count (moved g s)))) refl (ap leave_level p, e);
  }
