-- ===== src/Flow/Blind.antt =====
-- Computations that do not see the tainted globals: from two states that differ in those alone they
-- go the same way.
pub mod Steps
pub mod Calls
pub mod Evaluate
use mizu_navigator.Prelude.{
  ℕ, ◌≡◌, refl, ap, ◌∙◌, sym, Bool, true, false, Option, none, some, if◌then◌else◌,
}
use mizu_navigator.Value.{Value, MizuError, Outcome, ok, err, panicked, out_of_fuel}
use mizu_navigator.Evaluator.{Evaluator, RuntimeAction}
use mizu_navigator.Evaluator.Monad.{
  M, after, ◌>>=◌, ◌>>◌, return, raise, panic, metered, charge, queue,
}
use mizu_navigator.Evaluator.Builtins.Lists.{commit, committed}

-- The same globals, but for the tainted ones
abbrev pub Agrees : (ℕ → Bool) → (ℕ → Option Value) → (ℕ → Option Value) → Type 0
Agrees tainted g h = (k : ℕ) → tainted k ≡ false → g k ≡ h k

abbrev pub moved : (ℕ → Option Value) → Evaluator → Evaluator
moved g s = record s { global_store = g }

abbrev pub carry : {A : Type 0} → (ℕ → Option Value) → Outcome A × Evaluator → Outcome A × Evaluator
carry g x = (x.0, moved g x.1)

module _ (tainted : ℕ → Bool) (g : ℕ → Option Value) where
  abbrev pub Same : {A : Type 0} → M A → Evaluator → Type 0
  Same m s = (m (moved g s) ≡ carry g (m s)) × ((m s).1.global_store ≡ s.global_store)

  pub record Blind {A : Type 0} (m : M A) : Type 0 where
    pub on : (s : Evaluator) → Agrees tainted g s.global_store → Same m s

  after-Same :
      {A B : Type 0} (f : A → M B) (s : Evaluator) (x : Outcome A × Evaluator)
      → ((a : A) → Blind (f a))
      → Agrees tainted g s.global_store
      → x.1.global_store ≡ s.global_store
      → (after f (carry g x) ≡ carry g (after f x)) × ((after f x).1.global_store ≡ s.global_store)
  after-Same f s (ok a, t) k h e =
      let (p, q) = (k a).on t (λ n u. h n u ∙ ap (λ (m : ℕ → Option Value). m n) (sym e)) in
      (p, q ∙ e)
  after-Same f s (err x, t) k h e = (refl, e)
  after-Same f s (panicked, t) k h e = (refl, e)
  after-Same f s (out_of_fuel, t) k h e = (refl, e)

  pub bind-Blind :
      {A B : Type 0} {m : M A} {f : A → M B} → Blind m → ((a : A) → Blind (f a)) → Blind (m >>= f)
  unfolding ◌>>=◌
  bind-Blind {m = m} {f = f} h k = record {
    on = λ s a.
        let (p, e) = h.on s a in let (q, d) = after-Same f s (m s) k a e in (ap (after f) p ∙ q, d);
  }

  pub then-Blind : {A B : Type 0} {m : M A} {n : M B} → Blind m → Blind n → Blind (m >> n)
  unfolding ◌>>◌
  then-Blind h k = bind-Blind h (λ _. k)

  pub return-Blind : {A : Type 0} (a : A) → Blind (return a)
  return-Blind a = unfold return in record { on = λ s h. (refl, refl) }

  pub raise-Blind : {A : Type 0} (e : MizuError) → Blind (raise {A = A} e)
  raise-Blind e = unfold raise in record { on = λ s h. (refl, refl) }

  pub panic-Blind : {A : Type 0} → Blind (panic {A = A})
  panic-Blind = unfold panic in record { on = λ s h. (refl, refl) }

  pub metered-Blind : {A : Type 0} (f : ℕ → ℕ → Outcome A × ℕ) → Blind (metered f)
  metered-Blind f = unfold metered in record { on = λ s h. (refl, refl) }

  pub charge-Blind : (cost : ℕ) → Blind (charge cost)
  unfolding charge
  charge-Blind cost = metered-Blind _

  pub queue-Blind : (action : RuntimeAction) → Blind (queue action)
  queue-Blind action = unfold queue in record { on = λ s h. (refl, refl) }

  commit-Same :
      {A : Type 0} (s : Evaluator) (x : Outcome A × ℕ)
      → (commit (moved g s) x ≡ carry g (commit s x))
        × ((commit s x).1.global_store ≡ s.global_store)
  commit-Same s (ok a, count) = (refl, refl)
  commit-Same s (err e, count) = (refl, refl)
  commit-Same s (panicked, count) = (refl, refl)
  commit-Same s (out_of_fuel, count) = (refl, refl)

  pub committed-Blind : {A : Type 0} (f : ℕ → ℕ → Outcome A × ℕ) → Blind (committed f)
  committed-Blind f = record {
    on = λ s h. commit-Same s (f s.instruction_count s.max_instructions);
  }

  pub if-Blind :
      {A : Type 0} {m n : M A} (b : Bool) → Blind m → Blind n → Blind (if b then m else n)
  if-Blind true h k = h
  if-Blind false h k = k

  pub option-Blind {ℓ} :
      {A : Type 0} {B : Type ℓ} {m : M A} {f : B → M A} (o : Option B)
      → Blind m
      → ((b : B) → Blind (f b))
      → Blind (elim o [ none ↦ m | some b ↦ f b ])
  option-Blind none h k = h
  option-Blind (some b) h k = k b
