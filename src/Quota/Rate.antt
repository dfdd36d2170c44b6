-- ===== src/Quota/Rate.antt =====
-- The rate limit of one page: how many writes its policy accepts.
use mizu_navigator.Prelude.{
  ◌≡◌, true, All, leb→le, ◌-◌, ◌/◌, ℕ, suc, ◌+◌, ◌*◌, ◌≤◌, Bool, none, some, List, [], ◌∷◌, arith,
  if◌then◌else◌,
}
use mizu_navigator.Quota.{
  Ledger, Policy, check_write_budget, check_storage_write, window_expired,
  rate_limit_writes_per_sec,
}

-- The writes that a policy accepts out of a sequence of times and sizes
unfoldable pub accepted : Policy → Ledger → List (ℕ × ℕ) → ℕ
accepted p used [] = 0
accepted p used ((now, n) ∷ ws) =
    let (p', used', r) = check_storage_write p used now n in
    let rest = accepted p' used' ws in elim r [ none ↦ suc rest | some _ ↦ rest ]

abbrev pub seconds : ℕ → ℕ → ℕ
seconds start finish = (finish - start) / 1000000000

one_write :
    (stored quota count : ℕ) (expired : Bool) (n : ℕ)
    → count ≤ rate_limit_writes_per_sec
    → let b = check_write_budget stored quota count expired n in
      (b.write_count ≤ rate_limit_writes_per_sec)
      × (elim b.rejection [ none ↦ 1 | some _ ↦ 0 ] + (if expired then 0 else count)
          ≤ b.write_count)
unfolding check_write_budget
one_write stored quota count expired n h = ground arith

-- A window that has expired took a second.
another_second :
    (start now finish : ℕ)
    → 1 ≤ seconds start now
    → now ≤ finish
    → 1 + seconds now finish ≤ seconds start finish
another_second start now finish h l = omega arith

expired_second :
    (p : Policy) (now : ℕ) → window_expired p now ≡ true → 1 ≤ seconds p.window_start now
unfolding window_expired
expired_second p now h = leb→le 1 (seconds p.window_start now) h

-- Up to any moment, a page has at most ten writes accepted for the window that is open and ten for
-- each second since that window began; those that the open window has seen before, at most ten, count.
-- The writes may have any times up to that moment.
pub accepted-le :
    (p : Policy) (used : Ledger) (ws : List (ℕ × ℕ)) (finish : ℕ)
    → p.write_count ≤ rate_limit_writes_per_sec
    → All (λ (w : ℕ × ℕ). w.0 ≤ finish) ws
    → accepted p used ws + p.write_count
      ≤ rate_limit_writes_per_sec * (1 + seconds p.window_start finish)
unfolding accepted check_storage_write
accepted-le p used [] finish h l = omega (arith, h)
accepted-le p used ((now, n) ∷ ws) finish h (l, ls) =
    let (p', used', r) = check_storage_write p used now n in
    ground (
      arith,
      one_write (used p.origin_key) p.quota_bytes p.write_count (window_expired p now) n h,
      accepted-le p' used' ws finish,
      expired_second p now,
      another_second p.window_start now finish,
      ls,
    )
