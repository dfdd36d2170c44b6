-- ===== src/Network/Embedded.antt =====
-- The four ways to write an IPv4 address inside an IPv6 one, and what `is_publicly_routable` says
-- of them.
use mizu_navigator.Prelude.{ℕ, ◌+◌, ◌-◌, ◌*◌, ◌≡◌, ◌≢◌, some, arith}
use mizu_navigator.Address.{Ipv4, Ipv6, IsIpv4, v4, v6}
use mizu_navigator.Network.{is_publicly_routable_v6, is_publicly_routable, embedded_ipv4}

abbrev pub hi : Ipv4 → ℕ
hi i = i.a * 256 + i.b

abbrev pub lo : Ipv4 → ℕ
lo i = i.c * 256 + i.d

-- ::ffff:a.b.c.d
abbrev pub mapped : Ipv4 → Ipv6
mapped i = record { s0 = 0; s1 = 0; s2 = 0; s3 = 0; s4 = 0; s5 = 65535; s6 = hi i; s7 = lo i }

-- ::a.b.c.d
abbrev pub compatible : Ipv4 → Ipv6
compatible i = record { s0 = 0; s1 = 0; s2 = 0; s3 = 0; s4 = 0; s5 = 0; s6 = hi i; s7 = lo i }

-- 2002:ab:cd::/48, with any subnet and interface
abbrev pub six_to_four : Ipv4 → Ipv6 → Ipv6
six_to_four i rest = record rest { s0 = 0x2002; s1 = hi i; s2 = lo i }

-- 2001:0::/32 with the client's address inverted at the end
abbrev pub teredo : Ipv4 → Ipv6 → Ipv6
teredo i rest = record rest { s0 = 0x2001; s1 = 0; s6 = 65535 - hi i; s7 = 65535 - lo i }

module _ (i : Ipv4) (h : IsIpv4 i) where
  embedded-mapped : embedded_ipv4 (mapped i) ≡ some i
  unfolding embedded_ipv4
  embedded-mapped = ground arith

  embedded-compatible : hi i ≢ 0 → embedded_ipv4 (compatible i) ≡ some i
  unfolding embedded_ipv4
  embedded-compatible n = ground arith

  embedded-six_to_four : (rest : Ipv6) → embedded_ipv4 (six_to_four i rest) ≡ some i
  unfolding embedded_ipv4
  embedded-six_to_four rest = ground arith

  embedded-teredo : (rest : Ipv6) → embedded_ipv4 (teredo i rest) ≡ some i
  unfolding embedded_ipv4
  embedded-teredo rest = ground arith

embedded-routable :
    (i : Ipv4) (w : Ipv6)
    → embedded_ipv4 w ≡ some i
    → is_publicly_routable (v6 w) ≡ is_publicly_routable (v4 i)
unfolding is_publicly_routable is_publicly_routable_v6
embedded-routable i w e = rw (e, is_publicly_routable_v6)

-- Each of the transition spellings of an IPv4 address, IPv4-mapped, IPv4-compatible (where the
-- upper half of the address is not 0), 6to4 and Teredo with any other bits, is publicly routable
-- exactly when the address that it carries is.
pub routable_embedded :
    (i : Ipv4) (rest : Ipv6)
    → IsIpv4 i
    → let r = is_publicly_routable (v4 i) in
      (is_publicly_routable (v6 (mapped i)) ≡ r)
      × (hi i ≢ 0 → is_publicly_routable (v6 (compatible i)) ≡ r)
      × (is_publicly_routable (v6 (six_to_four i rest)) ≡ r)
      × (is_publicly_routable (v6 (teredo i rest)) ≡ r)
routable_embedded i rest h = (
  embedded-routable i (mapped i) (embedded-mapped i h),
  λ n. embedded-routable i (compatible i) (embedded-compatible i h n),
  embedded-routable i (six_to_four i rest) (embedded-six_to_four i h rest),
  embedded-routable i (teredo i rest) (embedded-teredo i h rest),
)
