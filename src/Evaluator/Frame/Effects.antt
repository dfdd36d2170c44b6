-- ===== src/Evaluator/Frame/Effects.antt =====
-- The steps that change the count of instructions or the queue of actions.
use mizu_navigator.Prelude.{ℕ, ◌-◌, ◌≤◌, ◌<◌, ◌^◌, ◌≡◌, refl, [], ◌∷◌, arith, ◌⊎◌}
use mizu_navigator.Value.{timeout, Outcome, ok, err, panicked, out_of_fuel}
use mizu_navigator.Evaluator.{Evaluator, RuntimeAction}
use mizu_navigator.Evaluator.Monad.{charge, charged, metered, queue}
use mizu_navigator.Evaluator.Builtins.Lists.{commit, committed}
use mizu_navigator.Evaluator.Frame.{Kept, Done, IsReady, Post, Tame, Kept-refl}

-- A count is within the budget, except after a timeout, and fuel does not run out.
abbrev pub Settled : {A : Type 0} → ℕ → Outcome A × ℕ → Type 0
Settled max (ok a, count) = count ≤ max
Settled max (err e, count) = (e ≡ timeout) ⊎ (count ≤ max)
Settled max (panicked, count) = Unit
Settled max (out_of_fuel, count) = ⊥

abbrev pub IsMetered : {A : Type 0} → (ℕ → ℕ → Outcome A × ℕ) → Type 0
IsMetered f = (count max : ℕ) → count ≤ max → max < 2 ^ 64 - 1 → Settled max (f count max)

pub count-Kept : (s : Evaluator) (c : ℕ) → IsReady s → Kept s (record s { instruction_count = c })
count-Kept s c r =
    let k = Kept-refl s r.indexed in
    record {
      globals = refl;
      undo = refl;
      computed = refl;
      budget = refl;
      depth = refl;
      actions = k.actions;
      symbols = k.symbols;
      values = k.values;
      indexed = record { indexed = r.indexed.indexed; paired = r.indexed.paired };
    }

count-Done :
    (s : Evaluator) (c : ℕ)
    → IsReady s
    → c ≤ s.max_instructions
    → Done s (record s { instruction_count = c })
count-Done s c r h = record { kept = count-Kept s c r; symbols = refl; values = refl; spent = h }

metered-Post :
    {A : Type 0} (fuel : ℕ) (s : Evaluator) (x : Outcome A × ℕ)
    → IsReady s
    → Settled s.max_instructions x
    → Post fuel s (let (r, count) = x in (r, record s { instruction_count = count }))
metered-Post fuel s (ok a, c) r h = count-Done s c r h
metered-Post fuel s (err e, c) r h = count-Kept s c r
metered-Post fuel s (panicked, c) r h = count-Kept s c r
metered-Post fuel s (out_of_fuel, c) r h = absurd h

pub metered-Tame :
    {A : Type 0} {fuel : ℕ} (f : ℕ → ℕ → Outcome A × ℕ) → IsMetered f → Tame fuel (metered f)
unfolding metered
metered-Tame {fuel = fuel} f h = record {
  on = λ s r.
      metered-Post fuel s (f s.instruction_count s.max_instructions) r
        (h s.instruction_count s.max_instructions r.within r.bounded);
}

committed-Post :
    {A : Type 0} (fuel : ℕ) (s : Evaluator) (x : Outcome A × ℕ)
    → IsReady s
    → Settled s.max_instructions x
    → Post fuel s (commit s x)
committed-Post fuel s (ok a, c) r h = count-Done s c r h
committed-Post fuel s (err e, c) r h = Kept-refl s r.indexed
committed-Post fuel s (panicked, c) r h = Kept-refl s r.indexed
committed-Post fuel s (out_of_fuel, c) r h = absurd h

pub committed-Tame :
    {A : Type 0} {fuel : ℕ} (f : ℕ → ℕ → Outcome A × ℕ) → IsMetered f → Tame fuel (committed f)
committed-Tame {fuel = fuel} f h = record {
  on = λ s r.
      committed-Post fuel s (f s.instruction_count s.max_instructions) r
        (h s.instruction_count s.max_instructions r.within r.bounded);
}

charged-IsMetered : (cost : ℕ) → IsMetered (charged cost)
unfolding charged
charged-IsMetered cost count max h b = ground arith

pub charge-Tame : {fuel : ℕ} (cost : ℕ) → Tame fuel (charge cost)
unfolding charge
charge-Tame cost = metered-Tame (charged cost) (charged-IsMetered cost)

queue-Done : (s : Evaluator) (action : RuntimeAction) → IsReady s → Done s (queue action s).1
unfolding queue
queue-Done s action r = record {
  kept = record {
    globals = refl;
    undo = refl;
    computed = refl;
    budget = refl;
    depth = refl;
    actions = (action ∷ [], refl);
    symbols = ([], refl);
    values = ([], refl);
    indexed = record { indexed = r.indexed.indexed; paired = r.indexed.paired };
  };
  symbols = refl;
  values = refl;
  spent = r.within;
}

pub queue-Tame : {fuel : ℕ} (action : RuntimeAction) → Tame fuel (queue action)
queue-Tame action = unfold queue in record { on = λ s r. queue-Done s action r }
