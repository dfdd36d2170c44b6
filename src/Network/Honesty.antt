-- ===== src/Network/Honesty.antt =====
-- N6: what a connection that `authorize` lets through can reach.
use mizu_navigator.Prelude.{
  Bool, true, false, ◌≡◌, refl, Option, none, some, ◌||◌, arith, Bytes, Option-cases, Bool-cases,
  inl, inr, ◌⊎◌,
}
use mizu_navigator.Address.{Ipv6, IpAddr, v4, v6, ip_eq, is_loopback}
use mizu_navigator.Address.V4
use mizu_navigator.Address.V6
use mizu_navigator.Network.{
  is_loopback_name, is_local_host, is_publicly_routable_v4, is_publicly_routable_v6, embedded_ipv4,
  is_reserved_v6, is_publicly_routable, ok, authorize,
}

loopback_v6_embeds_none : (i : Ipv6) → V6.is_loopback i ≡ true → embedded_ipv4 i ≡ none
unfolding embedded_ipv4
loopback_v6_embeds_none i h = ground arith

routable_not_loopback : (ip : IpAddr) → is_publicly_routable ip ≡ true → is_loopback ip ≡ false
unfolding is_publicly_routable is_loopback is_publicly_routable_v4 is_publicly_routable_v6
    is_reserved_v6
routable_not_loopback (v4 i) h = ground arith
routable_not_loopback (v6 i) h = elim (Bool-cases (V6.is_loopback i)) [
  | inl e ↦ absurd (ground (arith, loopback_v6_embeds_none i e))
  | inr e ↦ e
]

ip_eq_loopback : (x y : IpAddr) → ip_eq x y ≡ true → is_loopback x ≡ is_loopback y
unfolding ip_eq is_loopback
ip_eq_loopback (v4 i) (v4 j) h = ground arith
ip_eq_loopback (v4 i) (v6 j) h = cc
ip_eq_loopback (v6 i) (v4 j) h = cc
ip_eq_loopback (v6 i) (v6 j) h = ground arith

-- Whether a connection to an address ends at the machine itself: a loopback address, or an IPv6 one
-- that embeds an IPv4 loopback address
abbrev pub reaches_loopback : IpAddr → Bool
reaches_loopback (v4 i) = V4.is_loopback i
reaches_loopback (v6 i) =
    V6.is_loopback i || elim (embedded_ipv4 i) [ none ↦ false | some q ↦ V4.is_loopback q ]

routable_away : (ip : IpAddr) → is_publicly_routable ip ≡ true → reaches_loopback ip ≡ false
unfolding is_publicly_routable is_publicly_routable_v4 is_publicly_routable_v6 is_reserved_v6
    is_loopback
routable_away (v4 i) h = ground arith
routable_away (v6 i) h = elim (Option-cases (embedded_ipv4 i)) [
  | inl e ↦ ground (arith, e)
  | inr (q, e) ↦
      let l : V6.is_loopback i ≡ false = routable_not_loopback (v6 i) h in ground (arith, e, l)
]

loopback_reached : (ip : IpAddr) → is_loopback ip ≡ true → reaches_loopback ip ≡ true
unfolding is_loopback
loopback_reached (v4 i) h = h
loopback_reached (v6 i) h = rw h refl

-- An authorised connection goes to one of `std`'s loopback addresses exactly when its host is
-- classified as local. It ends at the machine itself, an embedded IPv4 loopback address included,
-- exactly then too, unless the host is a literal, of that very address, that the user typed.
-- No loopback name is taken to parse as a literal.
pub authorize-loopback :
    (parse : Bytes → Option IpAddr) (host : Bytes) (ip : IpAddr) (allow_private_literal : Bool)
    → (is_loopback_name host ≡ true → parse host ≡ none)
    → authorize parse host ip allow_private_literal ≡ ok
    → (is_loopback ip ≡ is_local_host parse host)
      × ((reaches_loopback ip ≡ is_local_host parse host)
          ⊎ ((allow_private_literal ≡ true)
              × (literal : IpAddr) × (parse host ≡ some literal)
              × (ip_eq literal ip ≡ true)))
unfolding authorize is_local_host
authorize-loopback parse host ip allowed names h = elim (Option-cases (parse host)) [
  | inl e ↦ (
    ground (arith, routable_not_loopback ip),
    inl (ground (arith, h, e, routable_not_loopback ip, routable_away ip, loopback_reached ip)),
  )
  | inr (l, e) ↦ (
    ground (arith, ip_eq_loopback l ip),
    elim (Bool-cases allowed) [
      | inl t ↦ inr (t, l, e, ground (arith, h, e))
      | inr f ↦
          inl (
            ground
              (arith, h, e, f, ip_eq_loopback l ip, routable_not_loopback ip, routable_away ip))
    ],
  )
]

-- A host that is not a loopback name is only ever connected to a publicly routable address if it
-- is a name (the DNS-rebinding block) or if a document supplied it (the SSRF block).
pub remote_host_routable :
    (parse : Bytes → Option IpAddr) (host : Bytes) (ip : IpAddr) (allow_private_literal : Bool)
    → is_loopback_name host ≡ false
    → (parse host ≡ none) ⊎ (allow_private_literal ≡ false)
    → authorize parse host ip allow_private_literal ≡ ok
    → is_publicly_routable ip ≡ true
unfolding authorize is_local_host
remote_host_routable parse host ip a n c h = ground arith
