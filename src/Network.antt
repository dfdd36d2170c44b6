-- ===== src/Network.antt =====
-- crates/core/src/security/network/mod.rs: which hosts are local, which addresses are publicly
-- routable, and the gate that every outbound connection passes. `url::Host::parse` is not code of
-- this repository, so the parse of a host literal is a parameter, as in the source's `_with`
-- functions; an error is a `Violation`, without the text of its message.
pub mod Blocks
pub mod Embedded
pub mod Honesty
pub mod Suffix
mod Tests
use mizu_navigator.Prelude.{
  ℕ, ◌-◌, ◌/◌, ◌%◌, Bool, true, false, not, ◌&&◌, ◌||◌, Option, none, some, ◌==◌, ltb, leb,
  if◌then◌else◌, length, drop, Bytes, codes, eq_ignore_case,
}
use mizu_navigator.Address.{Ipv4, Ipv6, IpAddr, v4, v6, ip_eq, is_loopback}
use mizu_navigator.Address.V4
use mizu_navigator.Address.V6

abbrev pub localhost : Bytes
localhost = codes "localhost"

abbrev pub dot_localhost : Bytes
dot_localhost = codes ".localhost"

-- `ends_with_ignore_ascii_case`
unfoldable pub ends_with_ignore_case : Bytes → Bytes → Bool
ends_with_ignore_case haystack suffix =
    leb (length suffix) (length haystack)
    && eq_ignore_case (drop (length haystack - length suffix) haystack) suffix

-- The names that RFC 6761 reserves for the loopback interface.
unfoldable pub is_loopback_name : Bytes → Bool
is_loopback_name host = eq_ignore_case host localhost || ends_with_ignore_case host dot_localhost

-- `is_local_host_with`
unfoldable pub is_local_host : (Bytes → Option IpAddr) → Bytes → Bool
is_local_host parse host =
    if is_loopback_name host
    then true
    else elim (parse host) [ none ↦ false | some addr ↦ is_loopback addr ]

unfoldable pub is_publicly_routable_v4 : Ipv4 → Bool
is_publicly_routable_v4 i = not (
    V4.is_unspecified i
    || (V4.is_loopback i
        || (V4.is_private i
            || (V4.is_link_local i
                || (V4.is_multicast i
                    || (V4.is_broadcast i
                        || (V4.is_documentation i
                            || (i.a == 100 && (leb 64 i.b && ltb i.b 128)
                                || (i.a == 192 && (i.b == 0 && i.c == 0)
                                    || (i.a == 198 && (i.b == 18 || i.b == 19)
                                        || leb 240 i.a))))))))))

-- `(hi >> 8, hi & 0xff, lo >> 8, lo & 0xff)` of two segments
abbrev pub of_segments : ℕ → ℕ → Ipv4
of_segments hi lo = record { a = hi / 256; b = hi % 256; c = lo / 256; d = lo % 256 }

-- `!w` on a `u16`
abbrev pub not_u16 : ℕ → ℕ
not_u16 w = 65535 - w

unfoldable pub embedded_ipv4 : Ipv6 → Option Ipv4
unfolding V6.to_ipv4_mapped
embedded_ipv4 i = elim (V6.to_ipv4_mapped i) [
  | some q ↦ some q
  | none ↦
      if s0 == 0 && (s1 == 0 && (s2 == 0 && (s3 == 0 && (s4 == 0 && (s5 == 0 && not (s6 == 0))))))
      then some (of_segments s6 s7)
      else if s0 == 0x2002
      then some (of_segments s1 s2)
      else if s0 == 0x2001 && s1 == 0
      then some (of_segments (not_u16 s6) (not_u16 s7))
      else none
]
  where
    open i use {s0, s1, s2, s3, s4, s5, s6, s7}

-- The tests on an IPv6 address that embeds no IPv4 address; `w & 0xfe00` and `w & 0xffc0` keep the
-- upper 7 and 10 bits.
unfoldable pub is_reserved_v6 : Ipv6 → Bool
is_reserved_v6 i =
    V6.is_unspecified i
    || (V6.is_loopback i
        || (V6.is_multicast i
            || (i.s0 / 512 == 0xfc00 / 512
                || (i.s0 / 64 == 0xfe80 / 64
                    || (i.s0 == 0x2001 && i.s1 == 0x0db8
                        || i.s0 == 0x0100 && (i.s1 == 0 && (i.s2 == 0 && i.s3 == 0)))))))

unfoldable pub is_publicly_routable_v6 : Ipv6 → Bool
is_publicly_routable_v6 i = elim (embedded_ipv4 i) [
  | some q ↦ is_publicly_routable_v4 q
  | none ↦ not (is_reserved_v6 i)
]

unfoldable pub is_publicly_routable : IpAddr → Bool
is_publicly_routable (v4 i) = is_publicly_routable_v4 i
is_publicly_routable (v6 i) = is_publicly_routable_v6 i

pub data Violation : Type 0 where
  literal_mismatch literal_not_routable loopback_name rebinding : Violation

pub data Authorization : Type 0 where
  ok : Authorization
  violation : Violation → Authorization

-- `authorize_resolved_address_with`
unfoldable pub authorize : (Bytes → Option IpAddr) → Bytes → IpAddr → Bool → Authorization
authorize parse host ip allow_private_literal = elim (parse host) [
  | some literal ↦
      if not (ip_eq literal ip)
      then violation literal_mismatch
      else if allow_private_literal || is_publicly_routable ip
      then ok
      else violation literal_not_routable
  | none ↦
      if is_local_host parse host
      then if is_loopback ip then ok else violation loopback_name
      else if is_publicly_routable ip
      then ok
      else violation rebinding
]
