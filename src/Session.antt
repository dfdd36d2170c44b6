-- ===== src/Session.antt =====
-- crates/core/src/parser/logic_worker/session.rs: a tab's document and the events that drive it. The
-- interner's two maps are `program.resolve` and `symbol`. `HashMap`s whose order does not matter are
-- functions; where it is seen, in the mutated variables of a response, it is that of their first
-- change. A panic ends the thread, and the session with it.
pub mod Endpoints
mod State
pub mod Rollback
pub mod Loaded
pub mod Initial
pub mod Events
pub mod Segments
mod Tests
pub use State.*
use mizu_navigator.Prelude.{
  ℕ, Bool, true, false, not, ◌&&◌, ◌||◌, Option, none, some, List, [], ◌∷◌, ◌++◌, length, is_empty,
  get_elem?, take, any, ◌==◌, if◌then◌else◌, insert, Bytes, codes,
}
use mizu_navigator.Value.{
  Value, null, string, pos, MizuError, Outcome, ok, err, panicked, out_of_fuel,
}
use mizu_navigator.Value.Equality.{budget_eq}
use mizu_navigator.Value.Display.{format_int}
use mizu_navigator.Value.Records.{record_from_unsorted}
use mizu_navigator.Evaluator.{
  Evaluator, RuntimeAction, copy_to_clipboard, get_system_time, store_local, download_alias,
  navigate, network_call, get_global, set_global, with_entry, new,
}
use mizu_navigator.Evaluator.Syntax.{Program, MizuFunction}
use mizu_navigator.Evaluator.Monad.{M, ◌>>=◌, return}
use mizu_navigator.Evaluator.Actions.{Action, run_tree, execute_action}
use mizu_navigator.Computed.{
  ComputedBinding, ReverseIndex, build_comp_reverse_index, recompute_computed_bindings,
}
use mizu_navigator.Session.Endpoints.{UrlEndpoint, resolve_endpoint_url}

abbrev pub eq_budget_per_variable : ℕ
eq_budget_per_variable = 10000

abbrev pub with_evaluator : Evaluator → TabSession → TabSession
with_evaluator s session = record session { evaluator = s }

abbrev pub cleared : Evaluator → Evaluator
cleared s = record s { undo_log = [] }

-- `set_runtime` on the session's store
abbrev pub set_known : Option ℕ → Value → Evaluator → Evaluator
set_known none v s = s
set_known (some sym) v s = set_global sym v s

unfoldable pub set_each : (Bytes → Option ℕ) → List (Bytes × Value) → Evaluator → Evaluator
set_each symbol [] s = s
set_each symbol ((name, v) ∷ fields) s = set_each symbol fields (set_known (symbol name) v s)

-- The undo log's entries put back, the last first
unfoldable pub undo : List (ℕ × Value) → Evaluator → Evaluator
undo [] s = s
undo ((sym, old) ∷ log) s =
    undo log (record s { global_store = with_entry s.global_store sym (some old) })

-- The store after a failed action, which began with a queue of the given length
unfoldable pub roll_back : ℕ → Evaluator → Evaluator
roll_back initial_actions_len s =
    let t = undo s.undo_log s in
    record t { accumulated_actions = take initial_actions_len t.accumulated_actions; undo_log = [] }

abbrev pub log_symbols : List (ℕ × Value) → List ℕ
log_symbols [] = []
log_symbols ((sym, old) ∷ log) = insert sym (log_symbols log)

-- The first value that the log, whose head is its last entry, has for each symbol
abbrev pub is_logged : ℕ → List (ℕ × Value) → Bool
is_logged sym entries = any (λ (entry : ℕ × Value). entry.0 == sym) entries

unfoldable pub original_values : List (ℕ × Value) → List (ℕ × Value)
original_values [] = []
original_values ((sym, old) ∷ log) =
    let rest = original_values log in if is_logged sym rest then rest else rest ++ ((sym, old) ∷ [])

-- Whether a comparison found a difference, or did not end within its budget
abbrev pub differs : Outcome Bool → Outcome Bool
differs (ok same) = ok (not same)
differs (err e) = ok true
differs panicked = panicked
differs out_of_fuel = out_of_fuel

abbrev pub alias_error : Bytes → Value
alias_error alias =
    string
      (codes "error: endpoint alias `" ++ (alias ++ codes "` is not declared in the urls block"))

abbrev pub text_of : Option Bytes → Bytes
text_of (some text) = text
text_of none = codes "<unknown>"

abbrev pub path_error : Value
path_error = string (codes "error: execution error: path_param must be a single path segment")

module _ (session : TabSession) where
  abbrev pub resolved_or_error :
      ℕ
      → Option Value
      → ℕ
      → ℕ
      → List (Bytes × Value)
      → Outcome Bytes
      → ResponseAction × List (Bytes × Value)
  resolved_or_error method payload target format headers (ok url) =
      (resolved_call method url payload target format headers, [])
  resolved_or_error method payload target format headers (err e) =
      (no_action, (text_of (session.program.resolve target), path_error) ∷ [])
  resolved_or_error method payload target format headers panicked = (no_action, [])
  resolved_or_error method payload target format headers out_of_fuel = (no_action, [])

  -- `resolve_one_action`: what is handed out, and the errors to show. The name under which an
  -- undeclared alias is reported is the number of the target's symbol.
  unfoldable pub resolve_alias : RuntimeAction → ResponseAction × List (Bytes × Value)
  resolve_alias (network_call method alias payload path target format headers) =
      elim (session.url_registry alias) [
        | none ↦ (
          no_action,
          (format_int (pos target), alias_error (text_of (session.program.resolve alias))) ∷ [],
        )
        | some ep ↦
            resolved_or_error method payload target format headers
              (resolve_endpoint_url session.document_domain ep path)
      ]
  resolve_alias (download_alias alias) = elim (session.url_registry alias) [
    | some ep ↦ (download_media ep.raw_target, [])
    | none ↦ (no_action, [])
  ]
  resolve_alias (copy_to_clipboard id) = (as_queued (copy_to_clipboard id), [])
  resolve_alias (get_system_time target) = (as_queued (get_system_time target), [])
  resolve_alias (store_local key v) = (as_queued (store_local key v), [])
  resolve_alias (navigate url) = (as_queued (navigate url), [])

  unfoldable pub resolve_one_action : RuntimeAction → ResponseAction × List (Bytes × Value)
  resolve_one_action action =
      if session.defer_alias_resolution then (as_queued action, []) else resolve_alias action

  unfoldable pub resolve_actions : List RuntimeAction → List ResponseAction × List (Bytes × Value)
  resolve_actions [] = ([], [])
  resolve_actions (action ∷ actions) =
      let (out, errors) = resolve_one_action action in
      let (outs, more) = resolve_actions actions in (out ∷ outs, errors ++ more)

-- The errors that have a declared variable to be shown in
unfoldable pub shown_errors : (Bytes → Option ℕ) → List (Bytes × Value) → List (ℕ × Value)
shown_errors symbol [] = []
shown_errors symbol ((name, v) ∷ errors) =
    let rest = shown_errors symbol errors in
    elim (symbol name) [ none ↦ rest | some sym ↦ (sym, v) ∷ rest ]

unfoldable pub function_of : List (ℕ × MizuFunction) → ℕ → Option MizuFunction
function_of [] sym = none
function_of ((name, func) ∷ entries) sym =
    let rest = function_of entries sym in if name == sym then some func else rest

-- The budget of `Evaluator::default`
abbrev pub default_instructions : ℕ
default_instructions = 20000

-- The session of a document that is loaded, before its functions run
abbrev pub loaded_session : ReloadPayload → TabSession → Evaluator → TabSession
loaded_session payload session first = record {
  evaluator = record first {
    undo_log = [];
    computed_var_syms = λ name. any (λ cb. cb.name == name) payload.computed_bindings;
  };
  program = record { functions = function_of payload.logic_fns; resolve = payload.resolve };
  symbol = payload.symbol;
  click_actions = payload.click_actions;
  submit_actions = payload.submit_actions;
  root_timer_actions = payload.root_timer_actions;
  url_registry = payload.url_registry;
  document_domain = payload.document_domain;
  computed_vars = payload.computed_bindings;
  computed_reverse_index = build_comp_reverse_index payload.computed_bindings;
  defer_alias_resolution = session.defer_alias_resolution;
}

module _ (ptr_eq : Value → Value → Bool) where
  -- The variables that differ from what they were
  unfoldable pub mutated : Evaluator → List (ℕ × Value) → Outcome (List (ℕ × Value))
  mutated s [] = ok []
  mutated s ((sym, old) ∷ originals) =
      elim (differs (budget_eq ptr_eq old (get_global sym s) 0 eq_budget_per_variable).0) [
        | ok changed ↦ elim (mutated s originals) [
          | ok rest ↦ ok (if changed then (sym, get_global sym s) ∷ rest else rest)
          | err e ↦ err e
          | panicked ↦ panicked
          | out_of_fuel ↦ out_of_fuel
        ]
        | err e ↦ err e
        | panicked ↦ panicked
        | out_of_fuel ↦ out_of_fuel
      ]

  -- The response to an event, once its variables are known
  unfoldable pub respond : Bool → List (ℕ × Value) → TabSession → Reaction
  respond gesture variables session =
      let (actions, errors) = resolve_actions session session.evaluator.accumulated_actions in
      let s = record session.evaluator { undo_log = []; accumulated_actions = [] } in
      responded
        (record {
          mutated_variables = variables ++ shown_errors session.symbol errors;
          runtime_actions = actions;
          gesture = gesture;
        })
        (with_evaluator (set_each session.symbol errors s) session)

  unfoldable pub build_response : Bool → TabSession → Reaction
  build_response gesture session =
      elim (mutated session.evaluator (original_values session.evaluator.undo_log)) [
        | ok variables ↦ respond gesture variables session
        | err e ↦ unfinished
        | panicked ↦ crashed
        | out_of_fuel ↦ unfinished
      ]

  -- `recompute_computed_bindings`, and the response
  unfoldable pub recompute_from : List ℕ → Bool → TabSession → Reaction
  recompute_from mutated_symbols gesture session =
      elim (recompute_computed_bindings ptr_eq session.program session.symbol session.computed_vars
        session.computed_reverse_index mutated_symbols session.evaluator) [
          | ok cascade ↦ build_response gesture (with_evaluator cascade.evaluator session)
          | err e ↦ unfinished
          | panicked ↦ crashed
          | out_of_fuel ↦ unfinished
        ]

  -- `recompute_after_mutation`, and the response
  abbrev pub recompute_and_respond : Bool → TabSession → Reaction
  recompute_and_respond gesture session =
      recompute_from (log_symbols session.evaluator.undo_log) gesture session

  abbrev pub concluded : ℕ → Bool → TabSession → Outcome Bool × Evaluator → Reaction
  concluded initial gesture session (ok b, t) =
      recompute_and_respond gesture (with_evaluator t session)
  concluded initial gesture session (err e, t) =
      failed e (with_evaluator (roll_back initial t) session)
  concluded initial gesture session (panicked, t) = crashed
  concluded initial gesture session (out_of_fuel, t) = unfinished

  unfoldable pub execute_action_and_build : Action → Bool → TabSession → Reaction
  execute_action_and_build action gesture session =
      concluded (length session.evaluator.accumulated_actions) gesture session
        (execute_action ptr_eq session.program session.symbol action (cleared session.evaluator))

  abbrev pub run_found : Bool → TabSession → Option Action → Reaction
  run_found gesture session none = nothing session
  run_found gesture session (some action) = execute_action_and_build action gesture session

  -- An action of a form, whose failure is only logged
  abbrev pub submitted : TabSession → Outcome Bool × Evaluator → Reaction
  submitted session (ok b, t) = recompute_and_respond true (with_evaluator t session)
  submitted session (err e, t) = recompute_and_respond true (with_evaluator t session)
  submitted session (panicked, t) = crashed
  submitted session (out_of_fuel, t) = unfinished

  abbrev pub submit_found : TabSession → Option Action → Reaction
  submit_found session none = recompute_and_respond true session
  submit_found session (some action) =
      submitted session
        (execute_action ptr_eq session.program session.symbol action session.evaluator)

  -- The functions without parameters, each with a budget of its own
  abbrev pub stored_result : ℕ → Outcome Value × Evaluator → Outcome Bool × Evaluator
  stored_result sym (ok v, t) = (ok true, set_global sym v t)
  stored_result sym (err e, t) = (ok true, t)
  stored_result sym (panicked, t) = (panicked, t)
  stored_result sym (out_of_fuel, t) = (out_of_fuel, t)

  unfoldable pub run_initial :
      Program → (Bytes → Option ℕ) → ℕ × MizuFunction → Evaluator → Outcome Bool × Evaluator
  run_initial program symbol (sym, func) s =
      if is_empty func.params
      then stored_result sym
          (run_tree ptr_eq program symbol func.body (record s { instruction_count = 0 }))
      else (ok true, s)

  unfoldable pub run_functions : Program → (Bytes → Option ℕ) → List (ℕ × MizuFunction) → M Bool
  run_functions program symbol [] = return true
  run_functions program symbol (entry ∷ entries) =
      run_initial program symbol entry >>= (λ _. run_functions program symbol entries)

  -- The computed variables after every global has been set, and the response
  abbrev pub reloaded : List ℕ → TabSession → Outcome Bool × Evaluator → Reaction
  reloaded initial session (ok b, t) =
      recompute_from (log_symbols t.undo_log ++ initial) false (with_evaluator t session)
  reloaded initial session (err e, t) = unfinished
  reloaded initial session (panicked, t) = crashed
  reloaded initial session (out_of_fuel, t) = unfinished

  -- `apply_reload`. The symbols in the store are those that have been set.
  unfoldable pub apply_reload : ReloadPayload → TabSession → Reaction
  apply_reload payload session =
      let first = set_each payload.symbol payload.initial_variables (new default_instructions) in
      let loaded = loaded_session payload session first in
      reloaded (log_symbols first.undo_log) loaded
        (run_functions loaded.program loaded.symbol payload.logic_fns loaded.evaluator)

  unfoldable pub apply_event : UiEvent → TabSession → Reaction
  apply_event close_tab session = nothing session
  apply_event (reload payload) session = apply_reload payload session
  apply_event (click node_id) session = run_found true session (session.click_actions node_id)
  apply_event (root_timer index) session =
      run_found false session (get_elem? session.root_timer_actions index)
  apply_event (submit_form node_id fields) session =
      let s =
        set_each session.symbol ((codes "$form", record_from_unsorted fields) ∷ fields)
          (cleared session.evaluator) in
      submit_found (with_evaluator s session) (session.submit_actions node_id)
  apply_event (update_variable name v) session =
      let s = set_known (session.symbol name) v (cleared session.evaluator) in
      recompute_and_respond false (with_evaluator s session)
