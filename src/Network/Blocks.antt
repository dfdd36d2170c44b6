-- ===== src/Network/Blocks.antt =====
-- The IPv4 classification against the blocks of the RFCs that it cites, written as prefixes.
use mizu_navigator.Prelude.{
  ℕ, ◌+◌, ◌-◌, ◌*◌, ◌/◌, ◌^◌, Bool, not, ◌≡◌, List, [], ◌∷◌, ◌==◌, any, arith, false, leb, ltb,
  ◌&&◌, ◌||◌,
}
use mizu_navigator.Address.{Ipv4, IsIpv4}
use mizu_navigator.Address.V4
use mizu_navigator.Network.{is_publicly_routable_v4}

-- An address block in CIDR notation: `base/length`.
pub record Block : Type 0 where
  pub base : ℕ
  pub length : ℕ

abbrev pub bits : Ipv4 → ℕ
bits i = i.a * 16777216 + i.b * 65536 + i.c * 256 + i.d

abbrev pub cidr : ℕ → ℕ → ℕ → ℕ → ℕ → Block
cidr a b c d n = record { base = bits (record { a = a; b = b; c = c; d = d }); length = n }

-- The upper `length` bits agree.
abbrev pub covers : ℕ → Block → Bool
covers x block = x / 2 ^ (32 - block.length) == block.base / 2 ^ (32 - block.length)

abbrev pub special_blocks : List Block
special_blocks =
    cidr 0 0 0 0 32
    ∷ cidr 127 0 0 0 8
    ∷ cidr 10 0 0 0 8
    ∷ cidr 172 16 0 0 12
    ∷ cidr 192 168 0 0 16
    ∷ cidr 169 254 0 0 16
    ∷ cidr 224 0 0 0 4
    ∷ cidr 192 0 2 0 24
    ∷ cidr 198 51 100 0 24
    ∷ cidr 203 0 113 0 24
    ∷ cidr 100 64 0 0 10
    ∷ cidr 192 0 0 0 24
    ∷ cidr 198 18 0 0 15
    ∷ cidr 240 0 0 0 4
    ∷ []

module _ (i : Ipv4) (h : IsIpv4 i) where
  unspecified : covers (bits i) (cidr 0 0 0 0 32) ≡ V4.is_unspecified i
  unspecified = ground arith

  loopback : covers (bits i) (cidr 127 0 0 0 8) ≡ V4.is_loopback i
  loopback = ground arith

  private_8 : covers (bits i) (cidr 10 0 0 0 8) ≡ i.a == 10
  private_8 = ground arith

  private_12 : covers (bits i) (cidr 172 16 0 0 12) ≡ (i.a == 172 && (leb 16 i.b && leb i.b 31))
  private_12 = ground arith

  private_16 : covers (bits i) (cidr 192 168 0 0 16) ≡ (i.a == 192 && i.b == 168)
  private_16 = ground arith

  link_local : covers (bits i) (cidr 169 254 0 0 16) ≡ V4.is_link_local i
  link_local = ground arith

  multicast : covers (bits i) (cidr 224 0 0 0 4) ≡ V4.is_multicast i
  multicast = ground arith

  documentation_1 : covers (bits i) (cidr 192 0 2 0 24) ≡ (i.a == 192 && (i.b == 0 && i.c == 2))
  documentation_1 = ground arith

  documentation_2 :
      covers (bits i) (cidr 198 51 100 0 24) ≡ (i.a == 198 && (i.b == 51 && i.c == 100))
  documentation_2 = ground arith

  documentation_3 : covers (bits i) (cidr 203 0 113 0 24) ≡ (i.a == 203 && (i.b == 0 && i.c == 113))
  documentation_3 = ground arith

  nat : covers (bits i) (cidr 100 64 0 0 10) ≡ (i.a == 100 && (leb 64 i.b && ltb i.b 128))
  nat = ground arith

  protocol : covers (bits i) (cidr 192 0 0 0 24) ≡ (i.a == 192 && (i.b == 0 && i.c == 0))
  protocol = ground arith

  benchmark : covers (bits i) (cidr 198 18 0 0 15) ≡ (i.a == 198 && (i.b == 18 || i.b == 19))
  benchmark = ground arith

  reserved : covers (bits i) (cidr 240 0 0 0 4) ≡ leb 240 i.a
  reserved = ground arith

broadcast-reserved : (i : Ipv4) → (V4.is_broadcast i || leb 240 i.a) ≡ leb 240 i.a
broadcast-reserved i = ground arith

-- The order of the tests in the source, and that of the table.
regroup :
    (u l p q r k m b x y z n t e h : Bool)
    → (b || h) ≡ h
    → not (
        u
        || (l
            || ((p || (q || r))
                || (k || (m || (b || ((x || (y || z)) || (n || (t || (e || h))))))))))
      ≡ not (
          u
          || (l
              || (p
                  || (q
                      || (r
                          || (k
                              || (m || (x || (y || (z || (n || (t || (e || (h || false))))))))))))))
regroup u l p q r k m b x y z n t e h w = ground arith

-- An IPv4 address is publicly routable exactly when its 32 bits lie in no special block.
pub is_publicly_routable_v4-blocks :
    (i : Ipv4) → IsIpv4 i → is_publicly_routable_v4 i ≡ not (any (covers (bits i)) special_blocks)
unfolding is_publicly_routable_v4
is_publicly_routable_v4-blocks i h =
    rw
      (
        unspecified i h,
        loopback i h,
        private_8 i h,
        private_12 i h,
        private_16 i h,
        link_local i h,
        multicast i h,
        documentation_1 i h,
        documentation_2 i h,
        documentation_3 i h,
        nat i h,
        protocol i h,
        benchmark i h,
        reserved i h,
      )
      (regroup (V4.is_unspecified i) (V4.is_loopback i) (i.a == 10)
        (i.a == 172 && (leb 16 i.b && leb i.b 31)) (i.a == 192 && i.b == 168) (V4.is_link_local i)
        (V4.is_multicast i) (V4.is_broadcast i) (i.a == 192 && (i.b == 0 && i.c == 2))
        (i.a == 198 && (i.b == 51 && i.c == 100)) (i.a == 203 && (i.b == 0 && i.c == 113))
        (i.a == 100 && (leb 64 i.b && ltb i.b 128)) (i.a == 192 && (i.b == 0 && i.c == 0))
        (i.a == 198 && (i.b == 18 || i.b == 19)) (leb 240 i.a) (broadcast-reserved i))
