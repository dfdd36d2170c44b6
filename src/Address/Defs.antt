-- ===== src/Address/Defs.antt =====
-- The addresses, their well-formedness and their equality.
use mizu_navigator.Prelude.{ℕ, Bool, false, ◌&&◌, ◌<◌, ◌==◌}

pub record Ipv4 : Type 0 where
  pub a : ℕ
  pub b : ℕ
  pub c : ℕ
  pub d : ℕ

pub record Ipv6 : Type 0 where
  pub s0 : ℕ
  pub s1 : ℕ
  pub s2 : ℕ
  pub s3 : ℕ
  pub s4 : ℕ
  pub s5 : ℕ
  pub s6 : ℕ
  pub s7 : ℕ

pub data IpAddr : Type 0 where
  v4 : Ipv4 → IpAddr
  v6 : Ipv6 → IpAddr

-- The octets are bytes.
pub record IsIpv4 (i : Ipv4) : Type 0 where
  pub a_byte : i.a < 256
  pub b_byte : i.b < 256
  pub c_byte : i.c < 256
  pub d_byte : i.d < 256

-- The segments are 16-bit words.
pub record IsIpv6 (i : Ipv6) : Type 0 where
  pub s0_word : i.s0 < 65536
  pub s1_word : i.s1 < 65536
  pub s2_word : i.s2 < 65536
  pub s3_word : i.s3 < 65536
  pub s4_word : i.s4 < 65536
  pub s5_word : i.s5 < 65536
  pub s6_word : i.s6 < 65536
  pub s7_word : i.s7 < 65536

-- `==` on addresses
ipv4_eq : Ipv4 → Ipv4 → Bool
ipv4_eq x y = x.a == y.a && (x.b == y.b && (x.c == y.c && x.d == y.d))

ipv6_eq : Ipv6 → Ipv6 → Bool
ipv6_eq x y =
    x.s0 == y.s0
    && (x.s1 == y.s1
        && (x.s2 == y.s2
            && (x.s3 == y.s3
                && (x.s4 == y.s4 && (x.s5 == y.s5 && (x.s6 == y.s6 && x.s7 == y.s7))))))

unfoldable pub ip_eq : IpAddr → IpAddr → Bool
unfolding ipv4_eq ipv6_eq
ip_eq (v4 x) (v4 y) = ipv4_eq x y
ip_eq (v4 x) (v6 y) = false
ip_eq (v6 x) (v4 y) = false
ip_eq (v6 x) (v6 y) = ipv6_eq x y
