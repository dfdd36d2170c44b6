-- ===== src/Address/V4.antt =====
-- The classifications of `std::net::Ipv4Addr`.
use mizu_navigator.Prelude.{Bool, ◌&&◌, ◌||◌, ◌==◌, leb}
use mizu_navigator.Address.Defs.{Ipv4}

-- 0.0.0.0
abbrev pub is_unspecified : Ipv4 → Bool
is_unspecified i = i.a == 0 && (i.b == 0 && (i.c == 0 && i.d == 0))

-- 127.0.0.0/8
abbrev pub is_loopback : Ipv4 → Bool
is_loopback i = i.a == 127

-- 10.0.0.0/8, 172.16.0.0/12, 192.168.0.0/16
abbrev pub is_private : Ipv4 → Bool
is_private i = i.a == 10 || (i.a == 172 && (leb 16 i.b && leb i.b 31) || i.a == 192 && i.b == 168)

-- 169.254.0.0/16
abbrev pub is_link_local : Ipv4 → Bool
is_link_local i = i.a == 169 && i.b == 254

-- 224.0.0.0/4
abbrev pub is_multicast : Ipv4 → Bool
is_multicast i = leb 224 i.a && leb i.a 239

-- 255.255.255.255
abbrev pub is_broadcast : Ipv4 → Bool
is_broadcast i = i.a == 255 && (i.b == 255 && (i.c == 255 && i.d == 255))

-- 192.0.2.0/24, 198.51.100.0/24, 203.0.113.0/24
abbrev pub is_documentation : Ipv4 → Bool
is_documentation i =
    i.a == 192 && (i.b == 0 && i.c == 2)
    || (i.a == 198 && (i.b == 51 && i.c == 100) || i.a == 203 && (i.b == 0 && i.c == 113))
