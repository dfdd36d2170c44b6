-- ===== src/Lib.antt =====
-- Verification library of the Mizu navigator.
--
-- Mizu is a browser for documents with a logic block. A page's expressions run in an evaluator
-- under an instruction budget; the actions that they queue (storage writes, navigations, network
-- calls) pass the policies of the security modules; the window keeps each tab's history. Paths
-- below are from the repository's root.
--
-- The parts and their files:
--   Value, Value/*        crates/core/src/core/types/value.rs (the data, get_field, hash_field,
--                         budget_eq, record_from_unsorted, the text of numbers), core/types/eval/compare.rs (the order
--                         that sort uses), parser/logic/eval.rs (apply_binop) and core/errors.
--   Evaluator             crates/core/src/core/types/eval/types.rs: the state and the operations on
--                         local bindings, one function for each method.
--   Evaluator/Syntax      parser/logic/ast/mod.rs: expressions in an arena, and its validation.
--   Evaluator/Types       check_type of parser/logic/eval.rs.
--   Evaluator/Builtins*   one function for each built-in arm of core/types/eval/evaluate.rs;
--                         Dispatch chooses among them by name and number of arguments.
--   Evaluator/Run         evaluate (its guards are `guarded`) and evaluate_impl.
--   Evaluator/Monad       `&mut self` and `?` as a state monad with outcomes.
--   Evaluator/Actions     execute_action of parser/logic/eval.rs, path_param_ok of
--                         parser/logic/parse/helpers.rs, set_runtime of core/types/store.rs.
--   Evaluator/Locals, Evaluator/Assignments, Evaluator/Frame*   the
--                         proofs about the bindings, the actions and evaluation.
--   Flow                  crates/core/src/parser/flow/types.rs and the events and timers of
--                         parser/layout/types.rs and parser/logic/ast/mod.rs.
--   Flow/Walk             parser/flow/helpers.rs and extract_deps of parser/flow/check.rs.
--   Flow/Taint            check_information_flow of parser/flow/check.rs, a function for each phase.
--   Flow/Taint/*          proofs about the fixpoint; Flow/Clean, Flow/Closed: expressions that read
--                         nothing tainted; Flow/Blind*: their evaluation; Flow/Sound and
--                         Flow/Agreement: noninterference; Flow/Ordered, Flow/Ends: termination.
--   Computed, Computed/*  parser/logic/comp.rs: the reverse index and the recomputation of computed
--                         variables, and the reference scan that the repository tests it against;
--                         Computed/Sort: their order by dependencies, Computed/Sort/*: its proofs.
--   Session, Session/State  parser/logic_worker/session.rs: a tab's state and one function for each
--                         event, reloads included, with the rollback of failed actions and the
--                         response to each event.
--   Session/Endpoints     resolve_endpoint_url of parser/logic_worker/helpers.rs.
--   Session/*             proofs about events, rollbacks, reloads and resolved addresses;
--                         Evaluator/Failures has what a failed action leaves, Computed/Ends and
--                         Value/Budget that recomputation and comparison end.
--   Navigation, Navigation/*   crates/core/src/security/navigation/mod.rs.
--   Network, Network/*    crates/core/src/security/network/mod.rs.
--   Quota, Quota/*        crates/core/src/security/quota.rs.
--   History, History/*    src/render/window/history/stack.rs and entry.rs.
--   Transport, Transport/*  crates/ipc/src/transport/frame.rs.
--   Address, Address/*    the IP addresses of Rust's standard library that the policies use.
--   Prelude, Prelude/*    Boolean tests, lists, byte strings and options.
--
-- How the code is represented. Strings are lists of bytes. An i64 is an integer whose range the
-- checked operations test; counts of instructions saturate or wrap at 64 bits as in the code. A
-- `Vec` used as a stack has its last element first. Maps are functions. Error values keep the
-- variant and drop the message. Clocks are arguments.
--
-- Bounds and fuel. `evaluate` recurs on fuel, one unit for each level of nesting; the code refuses
-- more than 256 levels, so 257 units are always enough, also where an arena refers to itself.
-- `budget_eq` recurs on the budget, of which each turn of its loop spends a unit. The evaluator's
-- theorems assume a budget below 2^64 - 1 (the code's default is 20,000) and a count within it, as
-- callers leave it when they reset the count. The walks of the flow check recur on fuel too, one unit
-- for each level; a tree is given one more than its arena has nodes, and its fixpoint one round for
-- each dependent and each source. The cascade of computed variables is given a turn for each binding,
-- and so is the queue of their sort, which each index enters at most once.
--
-- Parameters. `ptr_eq` stands for Arc::ptr_eq, which values do not record; `parse` and
-- `parse_domain` for the url crate. What a theorem assumes of them is among its hypotheses.
--
-- Not modelled: the parsers, the type and purity checks, the worker's threads and channels,
-- storage encryption, the other parts of IPC, network transport and rendering. These process text, or
-- call the operating system and third-party crates. The diagnostics of the flow check are left out
-- with the texts of errors.
pub mod Prelude
pub mod Address
pub mod Navigation
pub mod Network
pub mod Quota
pub mod Value
pub mod Evaluator
pub mod Computed
pub mod Flow
pub mod Session
pub mod History
pub mod Transport
