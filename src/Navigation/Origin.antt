-- ===== src/Navigation/Origin.antt =====
-- `is_same_origin` as a relation, and the invariant that it gives: a chain of navigations that the
-- user did not ask for never leaves the origin on which it began.
use mizu_navigator.Prelude.{
  inl, inr, ◌↔◌, ℕ, true, false, ◌≡◌, refl, sym, ◌∙◌, map, arith, Bytes, starts_with, to_lower,
  eq_ignore_case_iff, Option-cases,
}
use mizu_navigator.Navigation.{
  Initiator, allow, mizu_scheme, mizu_domain, has_user_agency, same_host, is_same_origin,
  check_navigation,
}
use mizu_navigator.Navigation.Addresses.{HasHost, IsMizuUrl-HasHost, HasHost-IsMizuUrl}
use mizu_navigator.Navigation.Policy.{IsMizuUrl, no_agency_same_origin}
use mizu_navigator.Navigation.Chain.{redirects, agency-redirects}

-- Two `mizu://` addresses whose hosts are well formed and have the same lower-case spelling.
pub record SameOrigin (u v : Bytes) : Type 0 where
  pub left : IsMizuUrl u
  pub right : IsMizuUrl v
  pub spelling : map to_lower left.host ≡ map to_lower right.host

pub is_same_origin_sound : (u v : Bytes) → is_same_origin u v ≡ true → SameOrigin u v
unfolding is_same_origin same_host
is_same_origin_sound u v h = elim (Option-cases (mizu_domain u)) [
  | inl e ↦ absurd (ground arith)
  | inr (a, p) ↦ elim (Option-cases (mizu_domain v)) [
    | inl e ↦ absurd (ground arith)
    | inr (b, q) ↦ record {
      left = record { host = a; domain = p; wellformed = ground arith };
      right = record { host = b; domain = q; wellformed = ground arith };
      spelling = (eq_ignore_case_iff a b).0 (ground arith);
    }
  ]
]

pub is_same_origin_complete : (u v : Bytes) → SameOrigin u v → is_same_origin u v ≡ true
unfolding is_same_origin same_host
is_same_origin_complete u v s = ground (
  arith,
  s.left.domain,
  s.right.domain,
  s.left.wellformed,
  s.right.wellformed,
  (eq_ignore_case_iff s.left.host s.right.host).1 s.spelling,
)

-- The host of an address is determined.
host_unique : {u : Bytes} (m n : IsMizuUrl u) → m.host ≡ n.host
host_unique m n = cc (m.domain, n.domain)

-- Two addresses whose hosts are equal but for the case of letters
pub record SameHost (u v : Bytes) : Type 0 where
  pub host_u : Bytes
  pub host_v : Bytes
  pub left : HasHost u host_u
  pub right : HasHost v host_v
  pub spelling : map to_lower host_u ≡ map to_lower host_v

-- "Same origin" is symmetric and transitive, and a well-formed address is on its own origin.
is_same_origin_equivalence :
    (u v w : Bytes)
    → ((is_same_origin u v ≡ true) → is_same_origin v u ≡ true)
      × ((is_same_origin u v ≡ true) → (is_same_origin v w ≡ true) → is_same_origin u w ≡ true)
      × (IsMizuUrl u → is_same_origin u u ≡ true)
is_same_origin_equivalence u v w = (
  λ h.
      let s = is_same_origin_sound u v h in
      is_same_origin_complete v u
        (record { left = s.right; right = s.left; spelling = sym s.spelling }),
  λ h k.
      let s = is_same_origin_sound u v h in
      let t = is_same_origin_sound v w k in
      is_same_origin_complete u w (record {
        left = s.left;
        right = t.right;
        spelling = cc (s.spelling, t.spelling, host_unique s.right t.left);
      }),
  λ m. is_same_origin_complete u u (record { left = m; right = m; spelling = refl }),
)

-- `is_same_origin` holds exactly of two `mizu://` addresses with well-formed hosts that differ at
-- most in the case of letters, whatever path, query or fragment follows the hosts.
pub is_same_origin_iff : (u v : Bytes) → (is_same_origin u v ≡ true) ↔ SameHost u v
unfolding HasHost-IsMizuUrl
is_same_origin_iff u v = (
  λ h.
      let s = is_same_origin_sound u v h in
      record {
        host_u = s.left.host;
        host_v = s.right.host;
        left = IsMizuUrl-HasHost u s.left;
        right = IsMizuUrl-HasHost v s.right;
        spelling = s.spelling;
      },
  λ s. is_same_origin_complete u v (record {
    left = (HasHost-IsMizuUrl u s.host_u s.left).0;
    right = (HasHost-IsMizuUrl v s.host_v s.right).0;
    spelling = s.spelling;
  }),
)

-- The addresses that allowed navigations and redirects by one initiator lead to.
pub data Reach (i : Initiator) (start : Bytes) : Bytes → Type 0 where
  here : Reach i start start
  hop :
      {u v : Bytes}
      → Reach i start u
      → (target : Bytes) (n : ℕ) → check_navigation u target (redirects n i) ≡ allow v
      → Reach i start v

IsMizuUrl-scheme : (u : Bytes) → IsMizuUrl u → starts_with mizu_scheme u ≡ true
unfolding mizu_domain
IsMizuUrl-scheme u m = let e = m.domain in ground arith

-- From a `mizu://` page, whatever document logic asks for and however servers redirect it, every
-- page that is reached without the user is on the origin of the first.
pub Reach-same_origin :
    (i : Initiator) (start : Bytes)
    → has_user_agency i ≡ false
    → IsMizuUrl start
    → {u : Bytes} → Reach i start u
    → is_same_origin start u ≡ true
Reach-same_origin i start a m here = (is_same_origin_equivalence start start start).2 m
Reach-same_origin i start a m (hop {u = u} {v = v} r target n h) =
    let s = Reach-same_origin i start a m r in
    let step =
      no_agency_same_origin u target v (redirects n i)
        (IsMizuUrl-scheme u (is_same_origin_sound start u s).right) (agency-redirects n i ∙ a) h in
    (is_same_origin_equivalence start u v).1 s step
