-- ===== src/History/Steps.antt =====
-- Steps through a tab's history: bounds, and that a step back is undone by a step forward.
use mizu_navigator.Prelude.{◌≤◌, ◌<◌, ◌≡◌, refl, some, List, [], ◌∷◌, arith, length, length-take-le}
use mizu_navigator.History.{
  HistoryStack, max_history_entries, push_capped, record_navigation, step_from, go_back, go_forward,
}

-- The reachable stacks: neither is longer than the limit.
pub record IsBounded {ℓ} {A : Type ℓ} (h : HistoryStack A) : Type 0 where
  pub back_le : length h.back ≤ max_history_entries
  pub forward_le : length h.forward ≤ max_history_entries

pub data Step {ℓ} (A : Type ℓ) : Type ℓ where
  visit back forward : A → Step A

module _ {ℓ} {A : Type ℓ} where
  unfoldable pub step : HistoryStack A → Step A → HistoryStack A
  step h (visit leaving) = record_navigation h leaving
  step h (back leaving) = (go_back h leaving).1
  step h (forward leaving) = (go_forward h leaving).1

  unfoldable pub run : HistoryStack A → List (Step A) → HistoryStack A
  run h [] = h
  run h (s ∷ ss) = run (step h s) ss

  push_capped-le :
      (stack : List A) (entry : A)
      → length stack ≤ max_history_entries
      → length (push_capped stack entry) ≤ max_history_entries
  unfolding push_capped
  push_capped-le stack entry h = ground (arith, length-take-le (length stack) (entry ∷ stack))

  step_from-le :
      (from to : List A) (leaving : A)
      → length from ≤ max_history_entries
      → length to ≤ max_history_entries
      → let (target, from', to') = step_from from to leaving in
        (length from' ≤ max_history_entries) × (length to' ≤ max_history_entries)
  unfolding step_from
  step_from-le [] to leaving h k = (omega arith, k)
  step_from-le (t ∷ from) to leaving h k = (omega (arith, h), push_capped-le to leaving k)

  step-IsBounded : (h : HistoryStack A) (s : Step A) → IsBounded h → IsBounded (step h s)
  unfolding step record_navigation go_back go_forward
  step-IsBounded h (visit leaving) b = record {
    back_le = push_capped-le h.back leaving b.back_le;
    forward_le = omega arith;
  }
  step-IsBounded h (back leaving) b =
      let (p, q) = step_from-le h.back h.forward leaving b.back_le b.forward_le in
      record { back_le = p; forward_le = q }
  step-IsBounded h (forward leaving) b =
      let (p, q) = step_from-le h.forward h.back leaving b.forward_le b.back_le in
      record { back_le = q; forward_le = p }

-- However a tab is navigated, neither of its stacks passes the limit.
pub run-IsBounded {ℓ} :
    {A : Type ℓ} (h : HistoryStack A) (ss : List (Step A)) → IsBounded h → IsBounded (run h ss)
unfolding run
run-IsBounded h [] b = b
run-IsBounded h (s ∷ ss) b = run-IsBounded (step h s) ss (step-IsBounded h s b)

push_capped-below {ℓ} :
    {A : Type ℓ} (stack : List A) (entry : A)
    → length stack < max_history_entries
    → push_capped stack entry ≡ entry ∷ stack
unfolding push_capped
push_capped-below stack entry h = ground arith

-- A step forward after a step back returns to the page that was left, with both stacks as they
-- were, while the forward stack is below its limit and the back stack is within it.
pub go_forward-go_back {ℓ} :
    {A : Type ℓ} (page target : A) (rest ahead : List A)
    → length rest < max_history_entries
    → length ahead < max_history_entries
    → let h : HistoryStack A = record { back = target ∷ rest; forward = ahead } in
      go_forward (go_back h page).1 target ≡ (some page, h)
unfolding go_forward go_back step_from
go_forward-go_back page target rest ahead b f =
    rw (push_capped-below ahead page f, push_capped-below rest target b) refl
