-- ===== src/Evaluator/Frame/Scopes.antt =====
-- A binding's scope and a function's frame: their bindings are gone when they end.
use mizu_navigator.Prelude.{ℕ, ◌≡◌, refl, ap, ◌∙◌, List, [], ◌∷◌, ◌++◌, arith}
use mizu_navigator.Value.{Value, Outcome, ok, err, panicked, out_of_fuel}
use mizu_navigator.Evaluator.{Evaluator, push_local, pop_local, tail}
use mizu_navigator.Evaluator.Monad.{M}
use mizu_navigator.Evaluator.Run.{scoped}
use mizu_navigator.Evaluator.Locals.{IsIndexed, push_local-IsIndexed, pop_local-Popped}
use mizu_navigator.Evaluator.Frame.{Kept, Done, IsReady, Post, Tame, Kept-refl, Extends}

-- With its local bindings pushed, and nothing else.
pub push-Kept : (name : ℕ) (v : Value) (s : Evaluator) → IsIndexed s → Kept s (push_local name v s)
unfolding push_local
push-Kept name v s h =
    let k = Kept-refl s h in
    record {
      globals = refl;
      undo = refl;
      computed = refl;
      budget = refl;
      depth = refl;
      actions = k.actions;
      symbols = (name ∷ [], refl);
      values = (v ∷ [], refl);
      indexed = push_local-IsIndexed name v s h;
    }

pub push-IsReady :
    (name : ℕ) (v : Value) (s : Evaluator) → IsReady s → IsReady (push_local name v s)
unfolding push_local
push-IsReady name v s h = record {
  indexed = push_local-IsIndexed name v s h.indexed;
  within = h.within;
  bounded = h.bounded;
}

tail-Extends {ℓ} :
    {A : Type ℓ} (x : A) (xs ys zs : List A) → ys ≡ zs ++ (x ∷ xs) → Extends xs (tail ys)
tail-Extends x xs ys [] e = ([], ap tail e)
tail-Extends {A = A} x xs ys (z ∷ zs) e = (zs ++ (x ∷ []), ap tail e ∙ shift zs)
  where
    shift : (ws : List A) → ws ++ (x ∷ xs) ≡ (ws ++ (x ∷ [])) ++ xs
    shift [] = refl
    shift (w ∷ ws) = ap (λ l. w ∷ l) (shift ws)

pop-Kept :
    (name : ℕ) (v : Value) (s t : Evaluator) → Kept (push_local name v s) t → Kept s (pop_local t)
unfolding push_local
pop-Kept name v s t k =
    let p = pop_local-Popped t k.indexed in
    record {
      globals = p.rest.globals ∙ k.globals;
      undo = p.rest.undo ∙ k.undo;
      computed = p.rest.computed ∙ k.computed;
      budget = p.rest.budget ∙ k.budget;
      depth = p.rest.depth ∙ k.depth;
      actions = (k.actions.0, p.rest.actions ∙ k.actions.1);
      symbols =
          let (zs, e) = tail-Extends name s.local_symbols t.local_symbols k.symbols.0 k.symbols.1 in
          (zs, p.symbols ∙ e);
      values =
          let (zs, e) = tail-Extends v s.local_stack t.local_stack k.values.0 k.values.1 in
          (zs, p.values ∙ e);
      indexed = p.indexed;
    }

pop-Done :
    (name : ℕ) (v : Value) (s t : Evaluator) → Done (push_local name v s) t → Done s (pop_local t)
unfolding push_local
pop-Done name v s t d =
    let p = pop_local-Popped t d.kept.indexed in
    record {
      kept = pop-Kept name v s t d.kept;
      symbols = p.symbols ∙ ap tail d.symbols;
      values = p.values ∙ ap tail d.values;
      spent = omega (arith, p.rest.count, p.rest.budget, d.spent);
    }

scoped-Post :
    (fuel name : ℕ) (v : Value) (s : Evaluator) (x : Outcome Value × Evaluator)
    → Post fuel (push_local name v s) x
    → Post fuel s (let (r, t) = x in (r, pop_local t))
unfolding push_local
scoped-Post fuel name v s (ok a, t) h = pop-Done name v s t h
scoped-Post fuel name v s (err e, t) h = pop-Kept name v s t h
scoped-Post fuel name v s (panicked, t) h = pop-Kept name v s t h
scoped-Post fuel name v s (out_of_fuel, t) h = h

pub scoped-Tame :
    {fuel : ℕ} {body : M Value} (name : ℕ) (v : Value)
    → Tame fuel body
    → Tame fuel (scoped name v body)
unfolding scoped
scoped-Tame {fuel = fuel} {body = body} name v h = record {
  on = λ s r.
      scoped-Post fuel name v s (body (push_local name v s))
        (h.on (push_local name v s) (push-IsReady name v s r));
}
