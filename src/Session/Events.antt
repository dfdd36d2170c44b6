-- ===== src/Session/Events.antt =====
-- What each event leads to.
use mizu_navigator.Prelude.{◌≡◌, Bool, true, false, []}
use mizu_navigator.Value.{Value}
use mizu_navigator.Evaluator.{Evaluator}
use mizu_navigator.Computed.Ahead.{IsTopological}
use mizu_navigator.Session.{
  TabSession, UiEvent, reload, click, root_timer, submit_form, update_variable, close_tab, Reaction,
  nothing, responded, failed, crashed, unfinished,
}
use mizu_navigator.Session.Loaded.{IsLoaded}
use mizu_navigator.Session.Rollback.{IsRestored}

-- Whether an event is the user's own
abbrev pub is_gesture : UiEvent → Bool
is_gesture (click id) = true
is_gesture (submit_form id fields) = true
is_gesture (root_timer index) = false
is_gesture (update_variable name v) = false
is_gesture close_tab = false
is_gesture (reload payload) = false

-- A payload's computed variables are in order, as the parser sorts them.
abbrev pub Brings : UiEvent → Type 0
Brings (reload payload) = IsTopological payload.computed_bindings
Brings (click id) = Unit
Brings (submit_form id fields) = Unit
Brings (root_timer index) = Unit
Brings (update_variable name v) = Unit
Brings close_tab = Unit

-- A response with an empty queue behind it, whose flag says whose event it was; a failure after which
-- the store is as it was; or nothing. The session can take the next event.
abbrev pub Reacts : Bool → TabSession → Reaction → Type 0
Reacts gesture session (nothing t) = t ≡ session
Reacts gesture session (responded r t) =
    (r.gesture ≡ gesture) × (t.evaluator.accumulated_actions ≡ []) × IsLoaded t
Reacts gesture session (failed e t) = IsRestored session.evaluator t.evaluator × IsLoaded t
Reacts gesture session crashed = Unit
Reacts gesture session unfinished = ⊥
