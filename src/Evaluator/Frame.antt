-- ===== src/Evaluator/Frame.antt =====
-- What a computation of the evaluator may do to the state, and that the steps it is built from keep
-- to it.
pub mod Effects
pub mod Charges
pub mod Scopes
pub mod Functions
pub mod Calls
pub mod ListCalls
pub mod Impl
pub mod Evaluate
use mizu_navigator.Prelude.{
  ℕ, suc, ◌+◌, ◌-◌, ◌≤◌, ◌<◌, ◌^◌, ◌≡◌, refl, sym, ap, ◌∙◌, Option, none, some, List, [], ◌∷◌, ◌++◌,
  arith, length, Bool, true, false, if◌then◌else◌,
}
use mizu_navigator.Value.{Value, MizuError, Outcome, ok, err, panicked, out_of_fuel}
use mizu_navigator.Evaluator.{Evaluator, RuntimeAction}
use mizu_navigator.Evaluator.Monad.{M, after, ◌>>=◌, ◌>>◌, return, raise, panic, queue}
use mizu_navigator.Evaluator.Locals.{IsIndexed}

-- A list with more elements in front.
abbrev pub Extends {ℓ} : {A : Type ℓ} → List A → List A → Type ℓ
Extends {A = A} xs ys = (zs : List A) × (ys ≡ zs ++ xs)

-- `s` before and `t` after: the globals, the undo log, the computed variables, the budget and the
-- depth are the same; actions and local bindings are at most added.
pub record Kept (s t : Evaluator) : Type 0 where
  pub globals : t.global_store ≡ s.global_store
  pub undo : t.undo_log ≡ s.undo_log
  pub computed : t.computed_var_syms ≡ s.computed_var_syms
  pub budget : t.max_instructions ≡ s.max_instructions
  pub depth : t.eval_depth ≡ s.eval_depth
  pub actions : (new : List RuntimeAction) × (t.accumulated_actions ≡ s.accumulated_actions ++ new)
  pub symbols : Extends s.local_symbols t.local_symbols
  pub values : Extends s.local_stack t.local_stack
  pub indexed : IsIndexed t

-- On success the local bindings are the same too, and the budget is not exceeded.
pub record Done (s t : Evaluator) : Type 0 where
  pub kept : Kept s t
  pub symbols : t.local_symbols ≡ s.local_symbols
  pub values : t.local_stack ≡ s.local_stack
  pub spent : t.instruction_count ≤ t.max_instructions

pub record IsReady (s : Evaluator) : Type 0 where
  pub indexed : IsIndexed s
  pub within : s.instruction_count ≤ s.max_instructions
  pub bounded : s.max_instructions < 2 ^ 64 - 1

-- Fuel runs out only where there is less of it than levels of nesting that are allowed.
abbrev pub Post : {A : Type 0} → ℕ → Evaluator → Outcome A × Evaluator → Type 0
Post fuel s (ok a, t) = Done s t
Post fuel s (err e, t) = Kept s t
Post fuel s (panicked, t) = Kept s t
Post fuel s (out_of_fuel, t) = s.eval_depth + fuel < 257

pub record Tame {A : Type 0} (fuel : ℕ) (m : M A) : Type 0 where
  pub on : (s : Evaluator) → IsReady s → Post fuel s (m s)

append-[] {ℓ} : {A : Type ℓ} (xs : List A) → xs ≡ xs ++ []
append-[] [] = refl
append-[] (x ∷ xs) = ap (λ l. x ∷ l) (append-[] xs)

pub Kept-refl : (s : Evaluator) → IsIndexed s → Kept s s
Kept-refl s h = record {
  globals = refl;
  undo = refl;
  computed = refl;
  budget = refl;
  depth = refl;
  actions = ([], append-[] s.accumulated_actions);
  symbols = ([], refl);
  values = ([], refl);
  indexed = h;
}

append_assoc {ℓ} : {A : Type ℓ} (xs ys zs : List A) → (xs ++ ys) ++ zs ≡ xs ++ (ys ++ zs)
append_assoc [] ys zs = refl
append_assoc (x ∷ xs) ys zs = ap (λ l. x ∷ l) (append_assoc xs ys zs)

pub Extends-trans {ℓ} :
    {A : Type ℓ} (xs ys zs : List A) → Extends xs ys → Extends ys zs → Extends xs zs
Extends-trans xs ys zs (us, p) (vs, q) =
    (vs ++ us, q ∙ ap (λ l. vs ++ l) p ∙ sym (append_assoc vs us xs))

pub Kept-trans : (s t u : Evaluator) → Kept s t → Kept t u → Kept s u
Kept-trans s t u h k = record {
  globals = k.globals ∙ h.globals;
  undo = k.undo ∙ h.undo;
  computed = k.computed ∙ h.computed;
  budget = k.budget ∙ h.budget;
  depth = k.depth ∙ h.depth;
  actions = (
    h.actions.0 ++ k.actions.0,
    k.actions.1
        ∙ ap (λ l. l ++ k.actions.0) h.actions.1
        ∙ append_assoc s.accumulated_actions h.actions.0 k.actions.0,
  );
  symbols = Extends-trans s.local_symbols t.local_symbols u.local_symbols h.symbols k.symbols;
  values = Extends-trans s.local_stack t.local_stack u.local_stack h.values k.values;
  indexed = k.indexed;
}

pub Done-trans : (s t u : Evaluator) → Done s t → Done t u → Done s u
Done-trans s t u h k = record {
  kept = Kept-trans s t u h.kept k.kept;
  symbols = k.symbols ∙ h.symbols;
  values = k.values ∙ h.values;
  spent = k.spent;
}

pub Done-refl : (s : Evaluator) → IsReady s → Done s s
Done-refl s h = record {
  kept = Kept-refl s h.indexed;
  symbols = refl;
  values = refl;
  spent = h.within;
}

pub Done-IsReady : (s t : Evaluator) → IsReady s → Done s t → IsReady t
Done-IsReady s t h d = record {
  indexed = d.kept.indexed;
  within = d.spent;
  bounded = rw d.kept.budget h.bounded;
}

-- After a success, what comes next.
pub Done-Post :
    {A : Type 0} (fuel : ℕ) (s t : Evaluator) (x : Outcome A × Evaluator)
    → Done s t
    → Post fuel t x
    → Post fuel s x
Done-Post fuel s t (ok a, u) d h = Done-trans s t u d h
Done-Post fuel s t (err e, u) d h = Kept-trans s t u d.kept h
Done-Post fuel s t (panicked, u) d h = Kept-trans s t u d.kept h
Done-Post fuel s t (out_of_fuel, u) d h = omega (arith, d.kept.depth, h)

after-Post :
    {A B : Type 0} (fuel : ℕ) (s : Evaluator) (x : Outcome A × Evaluator) (f : A → M B)
    → IsReady s
    → Post fuel s x
    → ((a : A) → Tame fuel (f a))
    → Post fuel s (after f x)
after-Post fuel s (ok a, t) f r h k =
    Done-Post fuel s t (f a t) h ((k a).on t (Done-IsReady s t r h))
after-Post fuel s (err e, t) f r h k = h
after-Post fuel s (panicked, t) f r h k = h
after-Post fuel s (out_of_fuel, t) f r h k = h

pub bind-Tame :
    {A B : Type 0} {fuel : ℕ} {m : M A} {f : A → M B}
    → Tame fuel m
    → ((a : A) → Tame fuel (f a))
    → Tame fuel (m >>= f)
unfolding ◌>>=◌
bind-Tame {fuel = fuel} {m = m} {f = f} h k = record {
  on = λ s r. after-Post fuel s (m s) f r (h.on s r) k;
}

pub then-Tame :
    {A B : Type 0} {fuel : ℕ} {m : M A} {n : M B} → Tame fuel m → Tame fuel n → Tame fuel (m >> n)
unfolding ◌>>◌
then-Tame h k = bind-Tame h (λ _. k)

pub return-Tame : {A : Type 0} {fuel : ℕ} (a : A) → Tame fuel (return a)
return-Tame a = unfold return in record { on = λ s r. Done-refl s r }

pub raise-Tame : {A : Type 0} {fuel : ℕ} (e : MizuError) → Tame fuel (raise {A = A} e)
raise-Tame e = unfold raise in record { on = λ s r. Kept-refl s r.indexed }

pub panic-Tame : {A : Type 0} {fuel : ℕ} → Tame fuel (panic {A = A})
panic-Tame = unfold panic in record { on = λ s r. Kept-refl s r.indexed }

pub if-Tame :
    {A : Type 0} {fuel : ℕ} {m n : M A} (b : Bool)
    → Tame fuel m
    → Tame fuel n
    → Tame fuel (if b then m else n)
if-Tame true h k = h
if-Tame false h k = k

pub option-Tame {ℓ} :
    {A : Type 0} {B : Type ℓ} {fuel : ℕ} {m : M A} {f : B → M A} (o : Option B)
    → Tame fuel m
    → ((b : B) → Tame fuel (f b))
    → Tame fuel (elim o [ none ↦ m | some b ↦ f b ])
option-Tame none h k = h
option-Tame (some b) h k = k b
