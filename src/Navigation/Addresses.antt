-- ===== src/Navigation/Addresses.antt =====
-- The shape of a `mizu://` address: what `mizu_domain` finds in it.
use mizu_navigator.Prelude.{
  Bool-cases, any, any-append, ◌==◌, ==_iff, if◌then◌else◌, ◌≢◌, some, [], ◌∷◌, ◌++◌, ap,
  take_until, strip_prefix, strip_prefix_sound, strip_prefix-append, ℕ, true, false, ◌≡◌, refl, sym,
  ◌∙◌, arith, Bytes, Option-cases, inl, inr,
}
use mathlib.Core.Path.{subst}
use mizu_navigator.Navigation.{mizu_scheme, mizu_domain, ends_host, non_empty}
use mizu_navigator.Navigation.Host.{
  IsHost, name, literal, is_forbidden_point, close_bracket, is_wellformed_mizu_host_iff,
}
use mizu_navigator.Navigation.Policy.{IsMizuUrl}

-- An address `mizu://host…` whose host ends with the text, or at the first `/`, `?` or `#`
pub data Follows : Bytes → Type 0 where
  nothing : Follows []
  path : (s : Bytes) → Follows (b'/' ∷ s)
  query : (s : Bytes) → Follows (b'?' ∷ s)
  fragment : (s : Bytes) → Follows (b'#' ∷ s)

pub record HasHost (u host : Bytes) : Type 0 where
  pub is_host : IsHost host
  pub rest : Bytes
  pub follows : Follows rest
  pub shape : u ≡ mizu_scheme ++ (host ++ rest)

-- What `take_until` leaves
rest_of : Bytes → Bytes
rest_of [] = []
rest_of (c ∷ s) = let t = rest_of s in if ends_host c then c ∷ s else t

take_until-rest_of : (s : Bytes) → s ≡ take_until ends_host s ++ rest_of s
unfolding take_until rest_of
take_until-rest_of [] = refl
take_until-rest_of (c ∷ s) = elim (Bool-cases (ends_host c)) [
  | inl e ↦ rw e refl
  | inr e ↦ rw e (ap (λ t. c ∷ t) (take_until-rest_of s))
]

ender-Follows : (c : ℕ) (s : Bytes) → ends_host c ≡ true → Follows (c ∷ s)
ender-Follows c s h = elim (Bool-cases (c == b'/')) [
  | inl e ↦ subst (λ x. Follows (x ∷ s)) (sym ((==_iff c b'/').0 e)) (path s)
  | inr e ↦ elim (Bool-cases (c == b'?')) [
    | inl f ↦ subst (λ x. Follows (x ∷ s)) (sym ((==_iff c b'?').0 f)) (query s)
    | inr f ↦
        let g : (c == b'#') ≡ true = ground (arith, h, e, f) in
        subst (λ x. Follows (x ∷ s)) (sym ((==_iff c b'#').0 g)) (fragment s)
  ]
]

rest_of-Follows : (s : Bytes) → Follows (rest_of s)
unfolding rest_of
rest_of-Follows [] = nothing
rest_of-Follows (c ∷ s) = elim (Bool-cases (ends_host c)) [
  | inl e ↦ rw e (ender-Follows c s e)
  | inr e ↦ rw e (rest_of-Follows s)
]

take_until-append :
    (host rest : Bytes)
    → any ends_host host ≡ false
    → Follows rest
    → take_until ends_host (host ++ rest) ≡ host
unfolding take_until
take_until-append [] [] h nothing = refl
take_until-append [] rest h (path s) = refl
take_until-append [] rest h (query s) = refl
take_until-append [] rest h (fragment s) = refl
take_until-append (c ∷ host) rest h f =
    ground (arith, h, take_until-append host rest (ground arith) f)

non_empty-found : (s host : Bytes) → non_empty s ≡ some host → s ≡ host
non_empty-found [] host h = absurd (cc h)
non_empty-found (c ∷ s) host h = cc h

domain_shape :
    (u host : Bytes)
    → mizu_domain u ≡ some host
    → (rest : Bytes) × Follows rest × (u ≡ mizu_scheme ++ (host ++ rest))
unfolding mizu_domain
domain_shape u host h = elim (Option-cases (strip_prefix mizu_scheme u)) [
  | inl e ↦ absurd (ground arith)
  | inr (r, e) ↦
      let q : take_until ends_host r ≡ host =
        non_empty-found (take_until ends_host r) host (ground (arith, h, e)) in
      (
        rest_of r,
        rest_of-Follows r,
        strip_prefix_sound mizu_scheme u r e
            ∙ ap (λ t. mizu_scheme ++ t) (take_until-rest_of r ∙ ap (λ t. t ++ rest_of r) q),
      )
]

-- A host has no byte that ends one.
ends_host-forbidden : (s : Bytes) → any is_forbidden_point s ≡ false → any ends_host s ≡ false
ends_host-forbidden [] h = refl
ends_host-forbidden (c ∷ s) h = ground (arith, h, ends_host-forbidden s)

IsHost-ends_host : (host : Bytes) → IsHost host → (any ends_host host ≡ false) × (host ≢ [])
IsHost-ends_host host (name ne a c f) = (ends_host-forbidden host f, ne)
IsHost-ends_host host (literal t v e q a f) =
    rw e (ground (arith, ends_host-forbidden t f, any-append ends_host t close_bracket), λ n. cc n)

pub IsMizuUrl-HasHost : (u : Bytes) (m : IsMizuUrl u) → HasHost u m.host
IsMizuUrl-HasHost u m =
    let (rest, f, e) = domain_shape u m.host m.domain in
    record {
      is_host = (is_wellformed_mizu_host_iff m.host).0 m.wellformed;
      rest = rest;
      follows = f;
      shape = e;
    }

non_empty-some : (s : Bytes) → s ≢ [] → non_empty s ≡ some s
non_empty-some [] h = absurd (h refl)
non_empty-some (c ∷ s) h = refl

pub HasHost-mizu_domain : (u host : Bytes) → HasHost u host → mizu_domain u ≡ some host
unfolding mizu_domain
HasHost-mizu_domain u host h =
    let (n, ne) = IsHost-ends_host host h.is_host in
    rw h.shape (
      ground (
        arith,
        strip_prefix-append mizu_scheme (host ++ h.rest),
        take_until-append host h.rest n h.follows,
        non_empty-some host ne,
      ))

unfoldable pub HasHost-IsMizuUrl :
    (u host : Bytes) → HasHost u host → (m : IsMizuUrl u) × (m.host ≡ host)
HasHost-IsMizuUrl u host h = (
  record {
    host = host;
    domain = HasHost-mizu_domain u host h;
    wellformed = (is_wellformed_mizu_host_iff host).1 h.is_host;
  },
  refl,
)
