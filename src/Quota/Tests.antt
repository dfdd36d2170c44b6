-- ===== src/Quota/Tests.antt =====
-- Runs of the storage budget, and the theorems at a concrete session.
use mizu_navigator.Prelude.{
  ℕ, ◌+◌, ◌*◌, ◌≤◌, ◌≡◌, refl, Option, none, some, List, [], ◌∷◌, arith, Bytes, codes, bytes_eq,
  strip_prefix, eq_ignore_case, to_lower,
}
use mizu_navigator.Address.{IpAddr}
use mizu_navigator.Network.{is_local_host, is_loopback_name, ends_with_ignore_case}
use mizu_navigator.Quota.{
  check_storage_write, check_write_budget, window_expired, with_total, quota_of, new,
  quota_bytes_remote, rate_limit_writes_per_sec,
}
use mizu_navigator.Quota.Ledger.{
  World, Event, write, navigate, step, run, granted, total_granted, IsWithin, ledger_exact,
}
use mizu_navigator.Quota.Rate.{accepted, seconds, accepted-le}

abbrev key : Bytes
key = codes "k"

abbrev url : Bytes
url = codes "mizu://a.org"

abbrev domain : Bytes → Option Bytes
domain u = some (codes "a.org")

abbrev no_literals : Bytes → Option IpAddr
no_literals host = none

-- A window of tabs on one origin that has stored nothing.
abbrev fresh : World
fresh = record {
  used = λ _. 0;
  tabs = λ _. record {
    origin_key = key;
    quota_bytes = quota_bytes_remote;
    write_count = 0;
    window_start = 0;
  };
}

-- Two tabs of one origin, a navigation between their writes.
abbrev session : List Event
session = write 0 5 500000 ∷ write 1 6 30000 ∷ navigate 0 url key 7 ∷ write 0 8 20000 ∷ []

-- `run` with all that it calls, for the runs below.
session_world : World
unfolding run step check_storage_write check_write_budget window_expired with_total new quota_of
    is_local_host is_loopback_name ends_with_ignore_case strip_prefix eq_ignore_case to_lower
    bytes_eq granted total_granted
session_world = run domain no_literals fresh session

-- The second tab's write is refused, and so would be the 20,001st byte after the navigation.
session_total : session_world.used key ≡ 520000
unfolding session_world
session_total = refl

session_granted : total_granted domain no_literals fresh session key ≡ 520000
unfolding session_world
session_granted = refl

fresh-IsWithin : IsWithin (λ _. quota_bytes_remote) fresh
fresh-IsWithin = record { charged = λ _. omega arith; quotas = λ _. omega arith }

ledger_exact_example :
    ((run domain no_literals fresh session).used key
      ≡ fresh.used key + total_granted domain no_literals fresh session key)
    × ((run domain no_literals fresh session).used key ≤ quota_bytes_remote)
unfolding session_world
ledger_exact_example =
    ledger_exact domain no_literals (λ _. quota_bytes_remote) (λ _. omega arith) fresh session key
      fresh-IsWithin (tt, (tt, (omega arith, (tt, tt))))

abbrev burst : List (ℕ × ℕ)
burst = (1, 5) ∷ (2, 5) ∷ (2000000000, 5) ∷ []

accepted-le_example :
    accepted (fresh.tabs 0) fresh.used burst + 0
    ≤ rate_limit_writes_per_sec * (1 + seconds 0 2500000000)
accepted-le_example =
    accepted-le (fresh.tabs 0) fresh.used burst 2500000000 (omega arith) (omega arith)
