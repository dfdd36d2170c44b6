-- ===== src/Evaluator/Frame/Functions.antt =====
-- The call of a function: its parameters are bound, and its frame is gone when its body ends.
use mizu_navigator.Prelude.{
  ℕ, ◌+◌, ◌-◌, ◌≡◌, refl, ap, ◌∙◌, List, [], ◌∷◌, arith, length, drop, drop-append_length,
  length-append, Bool, true, false, if◌then◌else◌,
}
use mizu_navigator.Value.{Value, type_error, type_name, Outcome, ok, err, panicked, out_of_fuel}
use mizu_navigator.Evaluator.{Evaluator, push_local, truncate_locals}
use mizu_navigator.Evaluator.Syntax.{ValueType}
use mizu_navigator.Evaluator.Monad.{M, after, return, ◌>>◌, ◌>>=◌}
use mizu_navigator.Evaluator.Types.{has_type, check_type}
use mizu_navigator.Evaluator.Run.{framed, bind_params, enter_frame}
use mizu_navigator.Evaluator.Locals.{IsIndexed, truncate_locals-IsIndexed}
use mizu_navigator.Evaluator.Frame.{Kept, IsReady, Post, Tame, Kept-refl, Kept-trans, Extends}
use mizu_navigator.Evaluator.Frame.Scopes.{push-Kept, push-IsReady}

-- Binding parameters adds bindings, whether it succeeds or not.
abbrev Bound : Evaluator → Outcome (Unit {0}) × Evaluator → Type 0
Bound s (ok a, t) = Kept s t × IsReady t
Bound s (err e, t) = Kept s t
Bound s (panicked, t) = Kept s t
Bound s (out_of_fuel, t) = ⊥

Kept-Bound :
    (s t : Evaluator) (x : Outcome (Unit {0}) × Evaluator) → Kept s t → Bound t x → Bound s x
Kept-Bound s t (ok a, u) k h = (Kept-trans s t u k h.0, h.1)
Kept-Bound s t (err e, u) k h = Kept-trans s t u k h
Kept-Bound s t (panicked, u) k h = Kept-trans s t u k h
Kept-Bound s t (out_of_fuel, u) k h = h

checked-Bound :
    (b : Bool) (name : ℕ) (v : Value) (s : Evaluator) (rest : M (Unit {0}))
    → IsReady s
    → Bound (push_local name v s) (rest (push_local name v s))
    → Bound s (
        after
          (λ _. rest)
          (after
            (λ _ s. (ok tt, push_local name v s))
            (if b then ok tt else err (type_error (type_name v)), s)))
checked-Bound true name v s rest r h =
    Kept-Bound s (push_local name v s) (rest (push_local name v s)) (push-Kept name v s r.indexed) h
checked-Bound false name v s rest r h = Kept-refl s r.indexed

bind_params-Bound :
    (params : List (ℕ × ValueType)) (vs : List Value) (s : Evaluator)
    → IsReady s
    → Bound s (bind_params params vs s)
unfolding bind_params check_type ◌>>=◌ ◌>>◌ return
bind_params-Bound [] vs s r = (Kept-refl s r.indexed, r)
bind_params-Bound (p ∷ params) [] s r = (Kept-refl s r.indexed, r)
bind_params-Bound ((name, t) ∷ params) (v ∷ vs) s r =
    checked-Bound (has_type t v) name v s (bind_params params vs) r
      (bind_params-Bound params vs (push_local name v s) (push-IsReady name v s r))

drop-Extends {ℓ} :
    {A : Type ℓ} (xs ys : List A) (n : ℕ)
    → n ≡ length xs
    → Extends xs ys
    → drop (length ys - n) ys ≡ xs
drop-Extends xs ys n e (zs, p) =
    ap (λ k. drop k ys) (count (ap length p ∙ length-append zs xs))
    ∙ ap (drop (length zs)) p
    ∙ drop-append_length zs xs
  where
    count : length ys ≡ length zs + length xs → length ys - n ≡ length zs
    count h = omega (arith, h, e)

restored :
    (s t : Evaluator)
    → IsIndexed s
    → Kept s t
    → let u = truncate_locals (length s.local_stack) t in
      Kept s u × (u.local_symbols ≡ s.local_symbols) × (u.local_stack ≡ s.local_stack)
unfolding truncate_locals
restored s t h k =
    let e =
      drop-Extends s.local_symbols t.local_symbols (length s.local_stack) h.paired k.symbols in
    let f = drop-Extends s.local_stack t.local_stack (length s.local_stack) refl k.values in
    (
      record {
        globals = k.globals;
        undo = k.undo;
        computed = k.computed;
        budget = k.budget;
        depth = k.depth;
        actions = k.actions;
        symbols = ([], e);
        values = ([], f);
        indexed =
            unfold truncate_locals in truncate_locals-IsIndexed (length s.local_stack) t k.indexed;
      },
      e,
      f,
    )

framed-Post :
    (fuel : ℕ) (s t : Evaluator) (x : Outcome Value × Evaluator)
    → IsIndexed s
    → Kept s t
    → Post fuel t x
    → Post fuel s (let (r, u) = x in (r, truncate_locals (length s.local_stack) u))
framed-Post fuel s t (ok a, u) h k d =
    let (kept, symbols, values) = restored s u h (Kept-trans s t u k d.kept) in
    record {
      kept = kept;
      symbols = symbols;
      values = values;
      spent = unfold truncate_locals in d.spent;
    }
framed-Post fuel s t (err e, u) h k d = (restored s u h (Kept-trans s t u k d)).0
framed-Post fuel s t (panicked, u) h k d = (restored s u h (Kept-trans s t u k d)).0
framed-Post fuel s t (out_of_fuel, u) h k d = omega (arith, k.depth, d)

called-Post :
    (fuel : ℕ) (s : Evaluator) (x : Outcome (Unit {0}) × Evaluator) (body : M Value)
    → IsReady s
    → Bound s x
    → Tame fuel body
    → Post fuel s (after (λ _. framed (length s.local_stack) body) x)
unfolding framed
called-Post fuel s (ok a, t) body r h b = framed-Post fuel s t (body t) r.indexed h.0 (b.on t h.1)
called-Post fuel s (err e, t) body r h b = h
called-Post fuel s (panicked, t) body r h b = h
called-Post fuel s (out_of_fuel, t) body r h b = absurd h

-- A call, from the evaluated arguments on.
pub call-Tame :
    {fuel : ℕ} {body : ℕ → M Value} (params : List (ℕ × ValueType)) (vs : List Value)
    → ((fp : ℕ) → Tame fuel (body fp))
    → Tame fuel (enter_frame (λ fp. bind_params params vs >> framed fp (body fp)))
unfolding ◌>>=◌ ◌>>◌
call-Tame {fuel = fuel} {body = body} params vs h = record {
  on = λ s r.
      called-Post fuel s (bind_params params vs s) (body (length s.local_stack)) r
        (bind_params-Bound params vs s r) (h (length s.local_stack));
}
