-- ===== src/Address/V6.antt =====
-- The classifications of `std::net::Ipv6Addr`.
use mizu_navigator.Prelude.{Bool, ◌&&◌, ◌/◌, ◌%◌, Option, none, some, ◌==◌, if◌then◌else◌}
use mizu_navigator.Address.Defs.{Ipv4, Ipv6}

-- The segments before the last are 0.
abbrev is_low : Ipv6 → Bool
is_low i =
    i.s0 == 0
    && (i.s1 == 0 && (i.s2 == 0 && (i.s3 == 0 && (i.s4 == 0 && (i.s5 == 0 && i.s6 == 0)))))

-- ::
abbrev pub is_unspecified : Ipv6 → Bool
is_unspecified i = is_low i && i.s7 == 0

-- ::1
abbrev pub is_loopback : Ipv6 → Bool
is_loopback i = is_low i && i.s7 == 1

-- ff00::/8
abbrev pub is_multicast : Ipv6 → Bool
is_multicast i = i.s0 / 256 == 255

-- ::ffff:a.b.c.d
unfoldable pub to_ipv4_mapped : Ipv6 → Option Ipv4
to_ipv4_mapped i =
    if i.s0 == 0 && (i.s1 == 0 && (i.s2 == 0 && (i.s3 == 0 && (i.s4 == 0 && i.s5 == 65535))))
    then some (record { a = i.s6 / 256; b = i.s6 % 256; c = i.s7 / 256; d = i.s7 % 256 })
    else none
