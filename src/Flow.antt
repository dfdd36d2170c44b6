-- ===== src/Flow.antt =====
-- crates/core/src/parser/flow: the check of information flow. This file has the contexts of actions
-- (flow/types.rs), the events and timers that hold them (layout/types.rs, logic/ast/mod.rs), and
-- sets of symbols.
pub mod Walk
pub mod Taint
pub mod Clean
pub mod Closed
pub mod Blind
pub mod Sound
pub mod Agreement
pub mod Ordered
pub mod Ends
mod Tests
use mizu_navigator.Prelude.{
  ℕ, Bool, true, false, ◌||◌, List, [], ◌∷◌, ◌==◌, if◌then◌else◌, Bytes, ◌≡◌, refl,
}
use mizu_navigator.Value.{Outcome, ok, err, panicked, out_of_fuel}
use mizu_navigator.Evaluator.Actions.{Action}

pub data ActionContext : Type 0 where
  user_gesture non_interactive : ActionContext

pub data EventBlock : Type 0 where
  click submit : Action → EventBlock

pub data TimerInterval : Type 0 where
  milliseconds : ℕ → TimerInterval
  named : Bytes → TimerInterval

pub record RootTimer : Type 0 where
  pub interval : TimerInterval
  pub action : Action

-- Results without a state: `?` and `return`, with the panics that Rust unwinds
infixl 5 ◌>>=◌
abbrev pub ◌>>=◌ {ℓ κ} : {A : Type ℓ} {B : Type κ} → Outcome A → (A → Outcome B) → Outcome B
out_of_fuel >>= next = out_of_fuel
panicked >>= next = panicked
err problem >>= next = err problem
ok value >>= next = next value

-- A chain succeeds only where its first part does.
pub >>=-eq-ok {ℓ κ} :
    {B : Type κ} {A : Type ℓ} (first : Outcome A) (next : A → Outcome B) {last : B}
    → (first >>= next) ≡ ok last
    → (value : A) × (first ≡ ok value) × (next value ≡ ok last)
>>=-eq-ok out_of_fuel next chained = cc
>>=-eq-ok panicked next chained = cc
>>=-eq-ok (err problem) next chained = cc
>>=-eq-ok (ok value) next chained = (value, refl, chained)
