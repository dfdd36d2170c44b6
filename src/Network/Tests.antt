-- ===== src/Network/Tests.antt =====
-- Runs of the classifications and of the gate, and the theorems at concrete connections.
use mizu_navigator.Prelude.{
  Bool, true, false, not, ◌≡◌, ◌≢◌, ◌↔◌, refl, Option, none, some, inl, ◌⊎◌, arith, any, Bytes,
  codes, eq_ignore_case, to_lower,
}
use mizu_navigator.Address.{Ipv4, Ipv6, IpAddr, v4, v6, IsIpv4, is_loopback, ip_eq}
use mizu_navigator.Network.{
  ends_with_ignore_case, is_loopback_name, is_local_host, is_publicly_routable_v4,
  is_publicly_routable_v6, embedded_ipv4, is_reserved_v6, is_publicly_routable, Authorization, ok,
  violation, rebinding, literal_not_routable, authorize,
}
use mizu_navigator.Network.Blocks.{bits, covers, special_blocks, is_publicly_routable_v4-blocks}
use mizu_navigator.Network.Embedded.{hi, mapped, compatible, six_to_four, teredo, routable_embedded}
use mizu_navigator.Network.Honesty.{reaches_loopback, authorize-loopback, remote_host_routable}
use mizu_navigator.Network.Suffix.{EndsWith, ends_with_ignore_case_iff}

abbrev metadata : Ipv4
metadata = record { a = 169; b = 254; c = 169; d = 254 }

abbrev public : Ipv4
public = record { a = 8; b = 8; c = 8; d = 8 }

abbrev home_loopback : Ipv4
home_loopback = record { a = 127; b = 0; c = 0; d = 1 }

-- A parser that finds no literals: every host is a name.
abbrev no_literals : Bytes → Option IpAddr
no_literals host = none

-- `authorize` with all that it calls, for the runs below.
gate : (Bytes → Option IpAddr) → Bytes → IpAddr → Bool → Authorization
unfolding authorize is_local_host is_loopback_name ends_with_ignore_case is_publicly_routable
    is_publicly_routable_v4 is_publicly_routable_v6 embedded_ipv4 is_reserved_v6 eq_ignore_case
    to_lower is_loopback ip_eq
gate = authorize

rebinding_attempt :
    authorize no_literals (codes "evil.com") (v4 home_loopback) true ≡ violation rebinding
unfolding gate
rebinding_attempt = refl

metadata_image :
    authorize (λ _. some (v4 metadata)) (codes "169.254.169.254") (v4 metadata) false
    ≡ violation literal_not_routable
unfolding gate
metadata_image = refl

public_name : authorize no_literals (codes "example.com") (v4 public) false ≡ ok
unfolding gate
public_name = refl

local_name : authorize no_literals (codes "API.LocalHost") (v4 home_loopback) false ≡ ok
unfolding gate
local_name = refl

metadata-IsIpv4 : IsIpv4 metadata
metadata-IsIpv4 = omega arith

is_publicly_routable_v4-blocks_example :
    is_publicly_routable_v4 metadata ≡ not (any (covers (bits metadata)) special_blocks)
is_publicly_routable_v4-blocks_example = is_publicly_routable_v4-blocks metadata metadata-IsIpv4

abbrev rest : Ipv6
rest = mapped public

routable_embedded_example :
    let r = is_publicly_routable (v4 metadata) in
    (is_publicly_routable (v6 (mapped metadata)) ≡ r)
    × (hi metadata ≢ 0 → is_publicly_routable (v6 (compatible metadata)) ≡ r)
    × (is_publicly_routable (v6 (six_to_four metadata rest)) ≡ r)
    × (is_publicly_routable (v6 (teredo metadata rest)) ≡ r)
routable_embedded_example = routable_embedded metadata rest metadata-IsIpv4

authorize-loopback_example :
    (is_loopback (v4 home_loopback) ≡ is_local_host no_literals (codes "API.LocalHost"))
    × ((reaches_loopback (v4 home_loopback) ≡ is_local_host no_literals (codes "API.LocalHost"))
        ⊎ ((false ≡ true)
            × (literal : IpAddr) × (no_literals (codes "API.LocalHost") ≡ some literal)
            × (ip_eq literal (v4 home_loopback) ≡ true)))
authorize-loopback_example =
    authorize-loopback no_literals (codes "API.LocalHost") (v4 home_loopback) false (λ _. refl)
      local_name

remote_host_routable_example : is_publicly_routable (v4 public) ≡ true
unfolding gate
remote_host_routable_example =
    remote_host_routable no_literals (codes "example.com") (v4 public) false refl (inl refl)
      public_name

ends_with_ignore_case_iff_example :
    (ends_with_ignore_case (codes "a.LOCALHOST") (codes ".localhost") ≡ true)
    ↔ EndsWith (codes "a.LOCALHOST") (codes ".localhost")
ends_with_ignore_case_iff_example =
    ends_with_ignore_case_iff (codes "a.LOCALHOST") (codes ".localhost")
