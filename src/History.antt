-- ===== src/History.antt =====
-- src/render/window/history/stack.rs and entry.rs: the back and forward stacks of one tab. Each is a
-- list whose first element is the page left last. An entry stands for any type: the stacks only move it.
pub mod Steps
mod Tests
use mizu_navigator.Prelude.{
  ℕ, ◌+◌, Bool, not, Option, none, some, List, [], ◌∷◌, length, take, is_empty, ltb, if◌then◌else◌,
}

abbrev pub max_history_entries : ℕ
max_history_entries = 100

pub record HistoryStack {ℓ} (A : Type ℓ) : Type ℓ where
  pub back : List A
  pub forward : List A

-- Past the limit the oldest entry goes.
unfoldable pub push_capped {ℓ} : {A : Type ℓ} → List A → A → List A
push_capped stack entry =
    if ltb max_history_entries (length (entry ∷ stack))
    then take (length stack) (entry ∷ stack)
    else entry ∷ stack

module _ {ℓ} {A : Type ℓ} where
  unfoldable pub can_go_back : HistoryStack A → Bool
  can_go_back h = not (is_empty h.back)

  unfoldable pub can_go_forward : HistoryStack A → Bool
  can_go_forward h = not (is_empty h.forward)

  unfoldable pub record_navigation : HistoryStack A → A → HistoryStack A
  record_navigation h leaving = record { back = push_capped h.back leaving; forward = [] }

  -- The target, if there is one, and the stacks after the step.
  unfoldable pub step_from : List A → List A → A → Option A × List A × List A
  step_from [] to leaving = (none, [], to)
  step_from (target ∷ rest) to leaving = (some target, rest, push_capped to leaving)

  unfoldable pub go_back : HistoryStack A → A → Option A × HistoryStack A
  go_back h leaving =
      let (target, back, forward) = step_from h.back h.forward leaving in
      (target, record { back = back; forward = forward })

  unfoldable pub go_forward : HistoryStack A → A → Option A × HistoryStack A
  go_forward h leaving =
      let (target, forward, back) = step_from h.forward h.back leaving in
      (target, record { back = back; forward = forward })
