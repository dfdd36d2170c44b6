-- ===== src/Session/Tests.antt =====
-- A session at work, and the theorems at a concrete event and address.
use mizu_navigator.Prelude.{
  ◌≡◌, refl, arith, Bool, true, false, none, some, List, [], ◌∷◌, ◌==◌, if◌then◌else◌, codes,
  contains_bytes, strip_prefix,
}
use mizu_navigator.Value.{Value, string, ok}
use mizu_navigator.Evaluator.Syntax.{literal, ExprTree}
use mizu_navigator.Evaluator.Actions.{navigate_to, path_param_ok}
use mizu_navigator.Session.{TabSession}
use mizu_navigator.Session.Endpoints.{
  UrlEndpoint, api, base_url, trim_start, split_at, percent_encode, fill_placeholder,
  resolve_endpoint_url,
}
use mizu_navigator.Session.Rollback.{Change, write, enqueue}
use mizu_navigator.Evaluator.{navigate}
use mizu_navigator.Session.Segments.{Resolves, resolve_endpoint_url-Resolves}

abbrev page : ExprTree
page = record {
  root = 0;
  arena = record { nodes = literal (string (codes "mizu://a/")) ∷ []; args_pool = [] };
}

abbrev session : TabSession
session = record {
  evaluator = record {
    global_store = λ _. none;
    local_stack = [];
    local_symbols = [];
    local_index = λ _. [];
    instruction_count = 0;
    max_instructions = 100;
    eval_depth = 0;
    accumulated_actions = [];
    undo_log = [];
    computed_var_syms = λ _. false;
  };
  program = record { functions = λ _. none; resolve = λ _. none };
  symbol = λ _. none;
  click_actions = λ id. if id == 7 then some (navigate_to page) else none;
  submit_actions = λ _. none;
  root_timer_actions = [];
  url_registry = λ _. none;
  document_domain = codes "a";
  computed_vars = [];
  computed_reverse_index = λ _. [];
  defer_alias_resolution = true;
}

same_value : Value → Value → Bool
same_value x y = false

-- A write and a queued action, as of an action that then fails
abbrev changes : List Change
changes = write 3 (string (codes "x")) ∷ enqueue (navigate (codes "mizu://b/")) ∷ []

abbrev users : UrlEndpoint
users = record { kind = api; raw_target = codes "/users/{id}/posts" }

resolved :
    resolve_endpoint_url (codes "a") users (some (codes "x y"))
    ≡ ok (codes "mizu://a/users/x%20y/posts")
unfolding resolve_endpoint_url path_param_ok contains_bytes strip_prefix fill_placeholder split_at
    trim_start percent_encode
resolved = refl

resolve_endpoint_url-Resolves_example :
    Resolves
      (base_url (codes "a") users api)
      (codes "x y")
      (resolve_endpoint_url (codes "a") users (some (codes "x y")))
resolve_endpoint_url-Resolves_example =
    resolve_endpoint_url-Resolves (codes "a") users (codes "x y") (omega arith)
