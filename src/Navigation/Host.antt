-- ===== src/Navigation/Host.antt =====
-- What a host that `is_wellformed_mizu_host` accepts looks like.
use mizu_navigator.Prelude.{
  inl, inr, ℕ, Bool, true, false, ◌≡◌, ◌≢◌, ◌↔◌, refl, sym, ap, List, ◌||◌, ltb, contains, codes,
  none, some, [], ◌∷◌, ◌++◌, arith, ◌==◌, any, Bytes, strip_prefix, Option-cases, any-append,
  strip_prefix_sound, strip_prefix-append, ◌∙◌,
}
use mizu_navigator.Address.{Ipv6, parse_v6}
use mizu_navigator.Navigation.{
  forbidden, strip_bracket, bracketed, unbracketed, is_wellformed_mizu_host,
}

abbrev pub is_at : ℕ → Bool
is_at c = c == b'@'

abbrev pub is_colon : ℕ → Bool
is_colon c = c == b':'

abbrev pub open_bracket : Bytes
open_bracket = b'[' ∷ []

abbrev pub close_bracket : Bytes
close_bracket = b']' ∷ []

-- The bytes that the WHATWG URL standard forbids in a host, less `:`: the C0 controls and the space,
-- DEL, and these. 92 is the backslash.
abbrev pub forbidden_points : List ℕ
forbidden_points = 0x7f ∷ 92 ∷ codes "#/<>?[]^|"

abbrev pub is_forbidden_point : ℕ → Bool
is_forbidden_point c = ltb c 0x21 || contains c forbidden_points

forbidden_point : (c : ℕ) → forbidden c ≡ is_forbidden_point c
unfolding forbidden
forbidden_point c = ground (arith)

any-forbidden : (s : Bytes) → any forbidden s ≡ any is_forbidden_point s
any-forbidden [] = refl
any-forbidden (c ∷ s) = rw (forbidden_point c) (rw (any-forbidden s) refl)

-- A name without a user part, a port or a forbidden byte, or an IPv6 address in brackets.
pub data IsHost (host : Bytes) : Type 0 where
  name :
      host ≢ []
      → any is_at host ≡ false
      → any is_colon host ≡ false
      → any is_forbidden_point host ≡ false
      → IsHost host
  literal :
      (inner : Bytes) (address : Ipv6)
      → host ≡ open_bracket ++ inner ++ close_bracket
      → parse_v6 inner ≡ some address
      → any is_at inner ≡ false
      → any is_forbidden_point inner ≡ false
      → IsHost host

strip_bracket_sound : (s t : Bytes) → strip_bracket s ≡ some t → s ≡ t ++ close_bracket
unfolding strip_bracket
strip_bracket_sound [] t h = cc
strip_bracket_sound (c ∷ []) t h = ground arith
strip_bracket_sound (c ∷ d ∷ s) t h = elim (Option-cases (strip_bracket (d ∷ s))) [
  | inl e ↦ absurd (ground arith)
  | inr (u, e) ↦ ground (arith, strip_bracket_sound (d ∷ s) u e)
]

strip_bracket-append : (t : Bytes) → strip_bracket (t ++ close_bracket) ≡ some t
unfolding strip_bracket
strip_bracket-append [] = refl
strip_bracket-append (c ∷ []) = refl
strip_bracket-append (c ∷ d ∷ t) = ground (arith, strip_bracket-append (d ∷ t))

abbrev pub IsV6 : Bytes → Type 0
IsV6 t = (a : Ipv6) × (parse_v6 t ≡ some a)

bracketed_sound : (rest t : Bytes) → bracketed rest ≡ some t → (rest ≡ t ++ close_bracket) × IsV6 t
unfolding bracketed
bracketed_sound rest t h = elim (Option-cases (strip_bracket rest)) [
  | inl e ↦ absurd (ground arith)
  | inr (u, e) ↦ elim (Option-cases (parse_v6 u)) [
    | inl f ↦ absurd (ground arith)
    | inr (a, f) ↦ (ground (arith, strip_bracket_sound rest u e), (a, ground arith))
  ]
]

open_bracket-forbidden :
    (host rest : Bytes) → host ≡ open_bracket ++ rest → any forbidden host ≡ true
unfolding forbidden
open_bracket-forbidden host rest e = rw e

-- The brackets add no `@`.
at-brackets : (inner : Bytes) → any is_at (open_bracket ++ inner ++ close_bracket) ≡ any is_at inner
at-brackets inner = ground (arith, any-append is_at inner close_bracket)

wellformed-IsHost : (host : Bytes) → is_wellformed_mizu_host host ≡ true → IsHost host
unfolding is_wellformed_mizu_host unbracketed
wellformed-IsHost host h = elim (Option-cases (strip_prefix open_bracket host)) [
  | inl e ↦
      name (ground arith) (ground arith) (ground arith) (sym (any-forbidden host) ∙ ground arith)
  | inr (rest, e) ↦ elim (Option-cases (bracketed rest)) [
    | inl f ↦ absurd (ground arith)
    | inr (t, f) ↦
        let (g, v) = bracketed_sound rest t f in
        let shape : host ≡ open_bracket ++ t ++ close_bracket =
          strip_prefix_sound open_bracket host rest e ∙ ap (λ l. open_bracket ++ l) g in
        literal t v.0 shape v.1 (ground (arith, at-brackets t, ap (any is_at) shape))
          (sym (any-forbidden t) ∙ ground arith)
  ]
]

parse_empty : parse_v6 [] ≡ none
unfolding parse_v6
parse_empty = refl

bracketed-append :
    (t : Bytes) {a : Ipv6} → parse_v6 t ≡ some a → bracketed (t ++ close_bracket) ≡ some t
unfolding bracketed
bracketed-append [] q = absurd (cc (parse_empty, q))
bracketed-append (c ∷ t) q = ground (arith, strip_bracket-append (c ∷ t))

strip_open_name :
    (host : Bytes) → any forbidden host ≡ false → strip_prefix open_bracket host ≡ none
unfolding forbidden strip_prefix
strip_open_name [] h = refl
strip_open_name (c ∷ s) h = ground arith

IsHost-wellformed : (host : Bytes) → IsHost host → is_wellformed_mizu_host host ≡ true
unfolding is_wellformed_mizu_host unbracketed
IsHost-wellformed host (name ne a c g) =
    let f : any forbidden host ≡ false = any-forbidden host ∙ g in
    ground (arith, strip_open_name host f)
IsHost-wellformed host (literal t v e q a g) =
    let f : any forbidden t ≡ false = any-forbidden t ∙ g in
    rw e (
      ground (
        arith,
        at-brackets t,
        strip_prefix-append open_bracket (t ++ close_bracket),
        bracketed-append t q,
      ))

-- `is_wellformed_mizu_host` accepts exactly the hosts: non-empty names without `@`, `:`, a control, a
-- space or any of `#/<>?[\]^|`, and texts in brackets without `@` or any of these, that parse as an
-- IPv6 address.
pub is_wellformed_mizu_host_iff :
    (host : Bytes) → (is_wellformed_mizu_host host ≡ true) ↔ IsHost host
is_wellformed_mizu_host_iff host = (wellformed-IsHost host, IsHost-wellformed host)
