-- ===== src/History/Tests.antt =====
-- A tab with two pages behind it, and the theorems there.
use mizu_navigator.Prelude.{ℕ, ◌≡◌, some, [], ◌∷◌, arith}
use mizu_navigator.History.{HistoryStack, go_back, go_forward}
use mizu_navigator.History.Steps.{
  IsBounded, visit, back, forward, run, run-IsBounded, go_forward-go_back,
}

abbrev tab : HistoryStack ℕ
tab = record { back = 2 ∷ 1 ∷ []; forward = [] }

tab-IsBounded : IsBounded tab
tab-IsBounded = record { back_le = omega arith; forward_le = omega arith }

run-IsBounded_example : IsBounded (run tab (visit 3 ∷ back 4 ∷ forward 3 ∷ []))
run-IsBounded_example = run-IsBounded tab (visit 3 ∷ back 4 ∷ forward 3 ∷ []) tab-IsBounded

go_forward-go_back_example : go_forward (go_back tab 3).1 2 ≡ (some 3, tab)
go_forward-go_back_example = go_forward-go_back 3 2 (1 ∷ []) [] (omega arith) (omega arith)
