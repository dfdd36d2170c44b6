-- ===== src/Address.antt =====
-- `std::net`'s addresses as the code uses them: the octets of an IPv4 address, the segments of an
-- IPv6 address, and the standard library's classifications of them.
mod Defs
pub mod V4
pub mod V6
mod Parse
pub use Defs.{Ipv4, Ipv6, IpAddr, v4, v6, IsIpv4, IsIpv6}
unfoldable pub use Defs.{ip_eq}
unfoldable pub use Parse.{parse_v6}
use mizu_navigator.Prelude.{Bool}

unfoldable pub is_loopback : IpAddr → Bool
is_loopback (v4 i) = V4.is_loopback i
is_loopback (v6 i) = V6.is_loopback i
