-- ===== src/Session/Endpoints.antt =====
-- `resolve_endpoint_url` of crates/core/src/parser/logic_worker/helpers.rs, and the endpoints of
-- parser/urls/mod.rs. Texts are bytes.
use mizu_navigator.Prelude.{
  ℕ, ◌+◌, ◌/◌, ◌%◌, Bool, ◌&&◌, ◌||◌, Option, none, some, [], ◌∷◌, ◌++◌, is_empty, ltb, leb, ◌==◌,
  if◌then◌else◌, Bytes, codes,
}
use mizu_navigator.Value.{Outcome, ok, err, execution_error}
use mizu_navigator.Evaluator.Actions.{path_param_ok}

pub data EndpointKind : Type 0 where
  api media : EndpointKind

pub record UrlEndpoint : Type 0 where
  pub kind : EndpointKind
  pub raw_target : Bytes

unfoldable pub trim_start : ℕ → Bytes → Bytes
trim_start c [] = []
trim_start c (b ∷ s) = if b == c then trim_start c s else b ∷ s

unfoldable pub trim_end : ℕ → Bytes → Bytes
trim_end c [] = []
trim_end c (b ∷ s) = let rest = trim_end c s in if is_empty rest && b == c then [] else b ∷ rest

abbrev pub base_url : Bytes → UrlEndpoint → EndpointKind → Bytes
base_url domain ep api = codes "mizu://" ++ (domain ++ (b'/' ∷ trim_start b'/' ep.raw_target))
base_url domain ep media = ep.raw_target

-- The bytes that are left as they are
abbrev pub is_unreserved : ℕ → Bool
is_unreserved b =
    (leb b'A' b && leb b b'Z')
    || (leb b'a' b && leb b b'z')
    || (leb b'0' b && leb b b'9')
    || (b == b'-' || (b == b'_' || (b == b'.' || b == b'~')))

abbrev pub hex_digit : ℕ → ℕ
hex_digit n = if ltb n 10 then n + 48 else n + 55

unfoldable pub percent_encode : Bytes → Bytes
percent_encode [] = []
percent_encode (b ∷ s) =
    if is_unreserved b
    then b ∷ percent_encode s
    else b'%' ∷ hex_digit (b / 16) ∷ hex_digit (b % 16) ∷ percent_encode s

-- What stands before and after the first byte of a value
unfoldable pub split_at : ℕ → Bytes → Option (Bytes × Bytes)
split_at c [] = none
split_at c (b ∷ s) =
    let rest = split_at c s in
    if b == c
    then some ([], s)
    else elim rest [ none ↦ none | some (before, after) ↦ some (b ∷ before, after) ]

abbrev pub appended : Bytes → Bytes → Bytes
appended base segment = trim_end b'/' base ++ (b'/' ∷ segment)

-- The first `{…}` replaced, or else the segment appended
abbrev pub closed_at : Bytes → Bytes → Bytes → Option (Bytes × Bytes) → Bytes
closed_at base before segment none = appended base segment
closed_at base before segment (some (name, after)) = before ++ (segment ++ after)

abbrev pub opened_at : Bytes → Bytes → Option (Bytes × Bytes) → Bytes
opened_at base segment none = appended base segment
opened_at base segment (some (before, after)) = closed_at base before segment (split_at b'}' after)

unfoldable pub fill_placeholder : Bytes → Bytes → Bytes
fill_placeholder base segment = opened_at base segment (split_at b'{' base)

unfoldable pub resolve_endpoint_url : Bytes → UrlEndpoint → Option Bytes → Outcome Bytes
resolve_endpoint_url domain ep none = ok (base_url domain ep ep.kind)
resolve_endpoint_url domain ep (some path_param) =
    if path_param_ok path_param
    then ok (fill_placeholder (base_url domain ep ep.kind) (percent_encode path_param))
    else err execution_error
