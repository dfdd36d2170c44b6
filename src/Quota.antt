-- ===== src/Quota.antt =====
-- crates/core/src/security/quota.rs: the storage bytes charged per origin, and the policy of a tab.
-- The ledger's map is a function that is 0 where the map has no entry; the clock is a number of
-- nanoseconds that each call is given; an error is a `Rejection`, without its message.
pub mod Ledger
pub mod Rate
mod Tests
use mizu_navigator.Prelude.{
  ℕ, ◌+◌, ◌-◌, ◌*◌, ◌/◌, ◌^◌, Bool, true, false, saturating_add, Option, none, some, ltb, leb,
  if◌then◌else◌, Bytes, bytes_eq, starts_with,
}
use mizu_navigator.Address.{IpAddr}
use mizu_navigator.Navigation.{file_scheme}
use mizu_navigator.Network.{is_local_host}

abbrev pub quota_bytes_remote : ℕ
quota_bytes_remote = 512 * 1024

abbrev pub quota_bytes_local_file : ℕ
quota_bytes_local_file = 1024 * 1024

abbrev pub quota_bytes_localhost : ℕ
quota_bytes_localhost = 10 * 1024 * 1024

abbrev pub rate_limit_writes_per_sec : ℕ
rate_limit_writes_per_sec = 10

-- `StorageUsageLedger`
abbrev pub Ledger : Type 0
Ledger = Bytes → ℕ

-- `with_total` writes the entry of one origin.
unfoldable pub with_total : Ledger → Bytes → ℕ → Ledger
with_total used key total k = if bytes_eq key k then total else used k

pub record Policy : Type 0 where
  pub origin_key : Bytes
  pub quota_bytes : ℕ
  pub write_count : ℕ
  pub window_start : ℕ

pub data Rejection : Type 0 where
  rate_limit quota : Rejection

-- What `check_write_budget` leaves in its two counters, and its verdict.
pub record Budget : Type 0 where
  pub bytes_stored : ℕ
  pub write_count : ℕ
  pub rejection : Option Rejection

unfoldable pub check_write_budget : ℕ → ℕ → ℕ → Bool → ℕ → Budget
check_write_budget bytes_stored quota_bytes write_count window_expired byte_count =
    let count = if window_expired then 0 else write_count in
    let new_total = saturating_add bytes_stored byte_count in
    if leb rate_limit_writes_per_sec count
    then record { bytes_stored = bytes_stored; write_count = count; rejection = some rate_limit }
    else if ltb quota_bytes new_total
    then record { bytes_stored = bytes_stored; write_count = count; rejection = some quota }
    else record { bytes_stored = new_total; write_count = count + 1; rejection = none }

-- `elapsed().as_secs() >= 1`
unfoldable pub window_expired : Policy → ℕ → Bool
window_expired p now = leb 1 ((now - p.window_start) / 1000000000)

-- `check_storage_write` on a policy and the ledger that all tabs share.
unfoldable pub check_storage_write : Policy → Ledger → ℕ → ℕ → Policy × Ledger × Option Rejection
check_storage_write p used now byte_count =
    let expired = window_expired p now in
    let b = check_write_budget (used p.origin_key) p.quota_bytes p.write_count expired byte_count in
    (
      record p {
        write_count = b.write_count;
        window_start = if expired then now else p.window_start;
      },
      with_total used p.origin_key b.bytes_stored,
      b.rejection,
    )

-- The quota tier of an address; `parse_domain` is the domain that `MizuUri::parse` finds and
-- `parse` the parse of a host literal, both by the `url` crate.
unfoldable pub quota_of : (Bytes → Option Bytes) → (Bytes → Option IpAddr) → Bytes → ℕ
quota_of parse_domain parse url =
    if starts_with file_scheme url then quota_bytes_local_file else elim (parse_domain url) [
      | some domain ↦
          if is_local_host parse domain then quota_bytes_localhost else quota_bytes_remote
      | none ↦ quota_bytes_remote
    ]

-- `CapabilityPolicy::new`
unfoldable pub new : (Bytes → Option Bytes) → (Bytes → Option IpAddr) → Bytes → Bytes → ℕ → Policy
new parse_domain parse url key now = record {
  origin_key = key;
  quota_bytes = quota_of parse_domain parse url;
  write_count = 0;
  window_start = now;
}
