-- ===== src/Session/State.antt =====
-- The data of crates/core/src/parser/logic_worker/session.rs and of messages.rs: a session, its
-- events and the responses to them.
use mizu_navigator.Prelude.{ℕ, Bool, Option, List, Bytes}
use mizu_navigator.Value.{Value, MizuError}
use mizu_navigator.Evaluator.{Evaluator, RuntimeAction}
use mizu_navigator.Evaluator.Syntax.{Program, MizuFunction}
use mizu_navigator.Evaluator.Actions.{Action}
use mizu_navigator.Computed.{ComputedBinding, ReverseIndex}
use mizu_navigator.Session.Endpoints.{UrlEndpoint}

pub record TabSession : Type 0 where
  pub evaluator : Evaluator
  pub program : Program
  pub symbol : Bytes → Option ℕ
  pub click_actions : ℕ → Option Action
  pub submit_actions : ℕ → Option Action
  pub root_timer_actions : List Action
  pub url_registry : ℕ → Option UrlEndpoint
  pub document_domain : Bytes
  pub computed_vars : List ComputedBinding
  pub computed_reverse_index : ReverseIndex
  pub defer_alias_resolution : Bool

-- What a reload brings, with the interner's two maps. The functions are in the order in which their
-- map is iterated.
pub record ReloadPayload : Type 0 where
  pub logic_fns : List (ℕ × MizuFunction)
  pub click_actions : ℕ → Option Action
  pub submit_actions : ℕ → Option Action
  pub root_timer_actions : List Action
  pub resolve : ℕ → Option Bytes
  pub symbol : Bytes → Option ℕ
  pub initial_variables : List (Bytes × Value)
  pub url_registry : ℕ → Option UrlEndpoint
  pub document_domain : Bytes
  pub computed_bindings : List ComputedBinding

pub data UiEvent : Type 0 where
  reload : ReloadPayload → UiEvent
  click : ℕ → UiEvent
  root_timer : ℕ → UiEvent
  submit_form : ℕ → List (Bytes × Value) → UiEvent
  update_variable : Bytes → Value → UiEvent
  close_tab : UiEvent

-- The actions of a response: those of the evaluator, and what resolving an alias makes of them
pub data ResponseAction : Type 0 where
  as_queued : RuntimeAction → ResponseAction
  resolved_call : ℕ → Bytes → Option Value → ℕ → ℕ → List (Bytes × Value) → ResponseAction
  download_media : Bytes → ResponseAction
  no_action : ResponseAction

pub record WorkerResponse : Type 0 where
  pub mutated_variables : List (ℕ × Value)
  pub runtime_actions : List ResponseAction
  pub gesture : Bool

-- What an event leads to: nothing, a response, an error, or a panic; `unfinished` is no outcome of
-- the code, but of the model's fuel.
pub data Reaction : Type 0 where
  nothing : TabSession → Reaction
  responded : WorkerResponse → TabSession → Reaction
  failed : MizuError → TabSession → Reaction
  crashed unfinished : Reaction
