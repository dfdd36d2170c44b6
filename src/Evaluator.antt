-- ===== src/Evaluator.antt =====
-- crates/core/src/core/types/eval/types.rs: the evaluator's state and its local bindings. A `Vec`
-- that the code uses as a stack, and the undo log, is a list whose first element is the last of the
-- `Vec`; the queue of actions is in the order of its `Vec`. An entry
-- that is missing from `local_index` is an empty list, which every use treats alike.
pub mod Syntax
pub mod Monad
pub mod Types
pub mod Builtins
pub mod Run
pub mod Locals
pub mod Actions
pub mod Frame
pub mod Assignments
pub mod Failures
mod Tests
use mizu_navigator.Prelude.{
  ℕ, zero, suc, ◌+◌, ◌-◌, Bool, true, false, Option, none, some, List, [], ◌∷◌, ◌++◌, length,
  get_elem?, drop, leb, ◌==◌, if◌then◌else◌, Bytes,
}
use mizu_navigator.Value.{Value, null}

-- The `RuntimeAction`s that evaluating expressions and actions queues.
pub data RuntimeAction : Type 0 where
  copy_to_clipboard : Bytes → RuntimeAction
  get_system_time : ℕ → RuntimeAction
  store_local : Bytes → Value → RuntimeAction
  download_alias : ℕ → RuntimeAction
  navigate : Bytes → RuntimeAction
  network_call : ℕ → ℕ → Option Value → Option Bytes → ℕ → ℕ → List (Bytes × Value) → RuntimeAction

pub record Evaluator : Type 0 where
  pub global_store : ℕ → Option Value
  pub local_stack : List Value
  pub local_symbols : List ℕ
  pub local_index : ℕ → List ℕ
  pub instruction_count : ℕ
  pub max_instructions : ℕ
  pub eval_depth : ℕ
  pub accumulated_actions : List RuntimeAction
  pub undo_log : List (ℕ × Value)
  pub computed_var_syms : ℕ → Bool

abbrev pub max_eval_depth : ℕ
max_eval_depth = 256

-- `Evaluator::new`
unfoldable pub new : ℕ → Evaluator
new max_instructions = record {
  global_store = λ _. none;
  local_stack = [];
  local_symbols = [];
  local_index = λ _. [];
  instruction_count = 0;
  max_instructions = max_instructions;
  eval_depth = 0;
  accumulated_actions = [];
  undo_log = [];
  computed_var_syms = λ _. false;
}

-- A map with one entry changed.
abbrev pub with_entry {ℓ} : {A : Type ℓ} → (ℕ → A) → ℕ → A → ℕ → A
with_entry m k a j = if j == k then a else m j

abbrev pub tail {ℓ} : {A : Type ℓ} → List A → List A
tail [] = []
tail (x ∷ xs) = xs

unfoldable pub push_local : ℕ → Value → Evaluator → Evaluator
push_local sym val s = record s {
  local_stack = val ∷ s.local_stack;
  local_symbols = sym ∷ s.local_symbols;
  local_index = with_entry s.local_index sym (length s.local_stack ∷ s.local_index sym);
}

-- The index without the last entry of a symbol.
abbrev pub unindex : ℕ → (ℕ → List ℕ) → ℕ → List ℕ
unindex sym index = with_entry index sym (tail (index sym))

abbrev pop_from : List ℕ → Evaluator → Evaluator
pop_from [] s = s
pop_from (sym ∷ symbols) s = record s {
  local_stack = tail s.local_stack;
  local_symbols = symbols;
  local_index = unindex sym s.local_index;
}

unfoldable pub pop_local : Evaluator → Evaluator
pop_local s = pop_from s.local_symbols s

-- The loop of `truncate_locals`, on the number of bindings that go: the innermost first.
unfoldable pub unindex_all : ℕ → List ℕ → (ℕ → List ℕ) → ℕ → List ℕ
unindex_all zero symbols index = index
unindex_all (suc n) [] index = index
unindex_all (suc n) (sym ∷ symbols) index = unindex_all n symbols (unindex sym index)

unfoldable pub truncate_locals : ℕ → Evaluator → Evaluator
truncate_locals new_len s =
    let gone = length s.local_symbols - new_len in
    record s {
      local_index = unindex_all gone s.local_symbols s.local_index;
      local_stack = drop (length s.local_stack - new_len) s.local_stack;
      local_symbols = drop gone s.local_symbols;
    }

unfoldable pub set_global : ℕ → Value → Evaluator → Evaluator
set_global sym val s = record s {
  global_store = with_entry s.global_store sym (some val);
  undo_log = (sym, elim (s.global_store sym) [ some old ↦ old | none ↦ null ]) ∷ s.undo_log;
}

unfoldable pub get_global : ℕ → Evaluator → Value
get_global sym s = elim (s.global_store sym) [ some v ↦ v | none ↦ null ]

-- The element of a stack at an index that counts from its first element.
abbrev pub at_index {ℓ} : {A : Type ℓ} → List A → ℕ → Option A
at_index xs i = get_elem? xs (length xs - suc i)

abbrev pub innermost : List ℕ → ℕ → List Value → Option Value
innermost [] frame_pointer stack = none
innermost (i ∷ is) frame_pointer stack = if leb frame_pointer i then at_index stack i else none

unfoldable pub get_local : ℕ → ℕ → Evaluator → Option Value
get_local sym frame_pointer s = innermost (s.local_index sym) frame_pointer s.local_stack
