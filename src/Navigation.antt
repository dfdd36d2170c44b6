-- ===== src/Navigation.antt =====
-- crates/core/src/security/navigation/mod.rs: who initiated a navigation, which hosts `mizu://`
-- admits, and the single policy function. A `&str` is the list of its bytes; the human-readable
-- reason of a block is an enumeration.
pub mod Host
pub mod Policy
pub mod Addresses
pub mod Origin
pub mod Chain
mod Tests
use mizu_navigator.Prelude.{
  ℕ, Bool, true, false, not, ◌&&◌, ◌||◌, Option, none, some, List, [], ◌∷◌, ◌++◌, ◌==◌, ltb, leb,
  any, is_empty, if◌then◌else◌, Bytes, codes, strip_prefix, starts_with, contains_bytes, take_until,
  eq_ignore_case, ◌>>=◌,
}
use mizu_navigator.Address.{parse_v6}

pub data Initiator : Type 0 where
  user_gesture document_logic : Initiator
  redirect_of : Initiator → Initiator
  history_step : Initiator

-- `NavigationInitiator::redirect_of`: a chain is collapsed.
unfoldable pub redirect : Initiator → Initiator
redirect (redirect_of inner) = redirect_of inner
redirect root = redirect_of root

pub data Reason : Type 0 where
  empty_target control_characters http_scheme remote_to_file file_from_unknown : Reason
  empty_domain malformed_host cross_origin unrecognised_scheme : Reason

pub data Verdict : Type 0 where
  allow : Bytes → Verdict
  block : Reason → Verdict

abbrev pub mizu_scheme : Bytes
mizu_scheme = codes "mizu://"

abbrev pub file_scheme : Bytes
file_scheme = codes "file://"

abbrev pub http_scheme_prefix : Bytes
http_scheme_prefix = codes "http://"

abbrev pub https_scheme_prefix : Bytes
https_scheme_prefix = codes "https://"

abbrev pub scheme_mark : Bytes
scheme_mark = codes "://"

abbrev pub ends_host : ℕ → Bool
ends_host c = c == b'/' || (c == b'?' || c == b'#')

-- The end of `mizu_domain`: `end == 0` gives `None`.
abbrev pub non_empty : Bytes → Option Bytes
non_empty [] = none
non_empty (c ∷ s) = some (c ∷ s)

unfoldable pub mizu_domain : Bytes → Option Bytes
mizu_domain url = do rest ← strip_prefix mizu_scheme url; non_empty (take_until ends_host rest)

-- The WHATWG forbidden host code points, less `:`.
unfoldable pub forbidden : ℕ → Bool
forbidden b =
    leb b 0x20
    || (b == b'#'
        || (b == b'/'
            || (b == b'<'
                || (b == b'>'
                    || (b == b'?'
                        || (b == b'['
                            || (b == 92
                                || (b == b']' || (b == b'^' || (b == b'|' || b == 0x7f))))))))))

-- `rest.strip_suffix(']')`
unfoldable pub strip_bracket : Bytes → Option Bytes
strip_bracket [] = none
strip_bracket (c ∷ []) = if c == b']' then some [] else none
strip_bracket (c ∷ d ∷ s) = do t ← strip_bracket (d ∷ s); some (c ∷ t)

abbrev pub is_some_v6 : Bytes → Bool
is_some_v6 inner = elim (parse_v6 inner) [ none ↦ false | some _ ↦ true ]

-- The bracketed form: the inside is not empty and parses as an IPv6 address.
unfoldable pub bracketed : Bytes → Option Bytes
bracketed rest = do
  inner ← strip_bracket rest
  if not (is_empty inner) && is_some_v6 inner then some inner else none

-- The text whose bytes are checked: the inside of the brackets, or a host without a colon.
unfoldable pub unbracketed : Bytes → Option Bytes
unbracketed host = elim (strip_prefix (b'[' ∷ []) host) [
  | some rest ↦ bracketed rest
  | none ↦ if any (λ c. c == b':') host then none else some host
]

unfoldable pub is_wellformed_mizu_host : Bytes → Bool
is_wellformed_mizu_host host =
    if is_empty host || any (λ c. c == b'@') host
    then false
    else elim (unbracketed host) [ none ↦ false | some t ↦ not (any forbidden t) ]

unfoldable pub has_user_agency : Initiator → Bool
has_user_agency user_gesture = true
has_user_agency document_logic = false
has_user_agency (redirect_of inner) = has_user_agency inner
has_user_agency history_step = true

-- Both hosts are well formed, and equal without case.
unfoldable pub same_host : Bytes → Bytes → Bool
same_host a b = is_wellformed_mizu_host a && (is_wellformed_mizu_host b && eq_ignore_case a b)

unfoldable pub is_same_origin : Bytes → Bytes → Bool
is_same_origin current target = elim (mizu_domain current) [
  | none ↦ false
  | some a ↦ elim (mizu_domain target) [ none ↦ false | some b ↦ same_host a b ]
]

abbrev pub is_control : ℕ → Bool
is_control b = ltb b 0x20 || b == 0x7f

-- The `mizu://` branch of `check_navigation`.
unfoldable pub check_mizu : Bytes → Bytes → Initiator → Verdict
check_mizu current target initiator = elim (mizu_domain target) [
  | none ↦ block empty_domain
  | some host ↦
      if not (is_wellformed_mizu_host host)
      then block malformed_host
      else if is_same_origin current target
      then allow target
      else if has_user_agency initiator
      then allow target
      else block cross_origin
]

-- `check_navigation` from the scheme gate on.
unfoldable pub check_scheme : Bytes → Bytes → Initiator → Verdict
check_scheme current target initiator =
    if starts_with http_scheme_prefix target || starts_with https_scheme_prefix target
    then block http_scheme
    else if starts_with file_scheme target
    then if starts_with mizu_scheme current
      then block remote_to_file
      else if starts_with file_scheme current
      then allow target
      else block file_from_unknown
    else if starts_with mizu_scheme target
    then check_mizu current target initiator
    else block unrecognised_scheme

-- `check_navigation`
unfoldable pub check_navigation : Bytes → Bytes → Initiator → Verdict
check_navigation current target initiator =
    if is_empty target
    then block empty_target
    else if any is_control target
    then block control_characters
    else if contains_bytes scheme_mark target
    then check_scheme current target initiator
    else if starts_with file_scheme current
    then allow target
    else check_scheme current (mizu_scheme ++ target) initiator
