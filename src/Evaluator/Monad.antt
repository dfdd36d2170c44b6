-- ===== src/Evaluator/Monad.antt =====
-- The code's `&mut self` and `?`: a computation takes the evaluator's state and returns an outcome
-- and the state it leaves.
use mizu_navigator.Prelude.{ℕ, [], ◌∷◌, ◌++◌, ltb, if◌then◌else◌, saturating_add}
use mizu_navigator.Value.{MizuError, timeout, Outcome, ok, err, panicked, out_of_fuel}
use mizu_navigator.Evaluator.{Evaluator, RuntimeAction}

abbrev pub M : Type 0 → Type 0
M A = Evaluator → Outcome A × Evaluator

-- Goes on from a result.
abbrev pub after : {A B : Type 0} → (A → M B) → Outcome A × Evaluator → Outcome B × Evaluator
after f (ok a, t) = f a t
after f (err e, t) = (err e, t)
after f (panicked, t) = (panicked, t)
after f (out_of_fuel, t) = (out_of_fuel, t)

infixl 5 ◌>>=◌ ◌>>◌
unfoldable pub ◌>>=◌ : {A B : Type 0} → M A → (A → M B) → M B
◌>>=◌ m f s = after f (m s)

unfoldable pub ◌>>◌ : {A B : Type 0} → M A → M B → M B
m >> n = m >>= (λ _. n)

unfoldable pub return : {A : Type 0} → A → M A
return a s = (ok a, s)

unfoldable pub raise : {A : Type 0} → MizuError → M A
raise e s = (err e, s)

unfoldable pub panic : {A : Type 0} → M A
panic s = (panicked, s)

-- Runs a function that is given the count and the budget, and returns the count after it.
unfoldable pub metered : {A : Type 0} → (ℕ → ℕ → Outcome A × ℕ) → M A
metered f s =
    let (r, count) = f s.instruction_count s.max_instructions in
    (r, record s { instruction_count = count })

-- Charges the budget, and stops when it is exceeded.
unfoldable pub charged : ℕ → ℕ → ℕ → Outcome (Unit {0}) × ℕ
charged cost count max =
    let spent = saturating_add count cost in
    if ltb max spent then (err timeout, spent) else (ok tt, spent)

unfoldable pub charge : ℕ → M (Unit {0})
charge cost = metered (charged cost)

unfoldable pub queue : RuntimeAction → M (Unit {0})
queue action s = (ok tt, record s { accumulated_actions = s.accumulated_actions ++ (action ∷ []) })
