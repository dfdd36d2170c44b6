-- ===== src/Quota/Ledger.antt =====
-- Every tab of the window over one ledger: writes and navigations in any order.
use mizu_navigator.Prelude.{
  ℕ, ◌+◌, ◌-◌, ◌≤◌, ◌<◌, ◌^◌, Bool, ◌≡◌, ◌≢◌, refl, Option, none, some, List, [], ◌∷◌, arith, ◌==◌,
  if◌then◌else◌, Bytes, bytes_eq, bytes_eq_iff, ◌⊎◌,
}
use mizu_navigator.Address.{IpAddr}
use mizu_navigator.Quota.{
  Ledger, with_total, Policy, Rejection, check_write_budget, check_storage_write, window_expired,
  quota_of, new,
}

-- Tabs are numbered; each has the policy of the page that it shows.
pub record World : Type 0 where
  pub used : Ledger
  pub tabs : ℕ → Policy

pub data Event : Type 0 where
  -- a tab's page stores bytes at a time
  write : ℕ → ℕ → ℕ → Event
  -- a tab navigates to an address, with its storage identity, at a time
  navigate : ℕ → Bytes → Bytes → ℕ → Event

abbrev pub put : (ℕ → Policy) → ℕ → Policy → ℕ → Policy
put tabs t p s = if s == t then p else tabs s

module _ (parse_domain : Bytes → Option Bytes) (parse : Bytes → Option IpAddr) where
  unfoldable pub step : World → Event → World × Option Rejection
  step w (write t now n) =
      let (p, used, r) = check_storage_write (w.tabs t) w.used now n in
      (record w { used = used; tabs = put w.tabs t p }, r)
  step w (navigate t url key now) =
      (record w { tabs = put w.tabs t (new parse_domain parse url key now) }, none)

  unfoldable pub run : World → List Event → World
  run w [] = w
  run w (e ∷ es) = run (step w e).0 es

  -- The bytes that an event adds to what an origin is charged: those of an accepted write.
  unfoldable pub granted : World → Event → Bytes → ℕ
  granted w (write t now n) key =
      if bytes_eq (w.tabs t).origin_key key
      then elim (check_storage_write (w.tabs t) w.used now n).2 [ none ↦ n | some _ ↦ 0 ]
      else 0
  granted w (navigate t url k now) key = 0

  unfoldable pub total_granted : World → List Event → Bytes → ℕ
  total_granted w [] key = 0
  total_granted w (e ∷ es) key = granted w e key + total_granted (step w e).0 es key

  -- A navigation's quota is within what its storage identity may hold.
  abbrev pub Fits : (Bytes → ℕ) → Event → Type 0
  Fits limit (write t now n) = Unit
  Fits limit (navigate t url key now) = quota_of parse_domain parse url ≤ limit key

  abbrev pub AllFit : (Bytes → ℕ) → List Event → Type 0
  AllFit limit [] = Unit
  AllFit limit (e ∷ es) = Fits limit e × AllFit limit es

-- No origin has more than its limit, no page's quota is above its origin's limit, and no limit
-- comes near the end of `usize`.
pub record IsWithin (limit : Bytes → ℕ) (w : World) : Type 0 where
  pub charged : (key : Bytes) → w.used key ≤ limit key
  pub quotas : (t : ℕ) → (w.tabs t).quota_bytes ≤ limit (w.tabs t).origin_key

budget_cases :
    (stored quota count : ℕ) (expired : Bool) (n : ℕ)
    → quota < 2 ^ 64 - 1
    → let b = check_write_budget stored quota count expired n in
      ((b.rejection ≡ none) × (b.bytes_stored ≡ stored + n) × (b.bytes_stored ≤ quota))
      ⊎ ((b.rejection ≢ none) × (b.bytes_stored ≡ stored))
unfolding check_write_budget
budget_cases stored quota count expired n h = ground arith

-- What a write does to the origin's total and to the others'.
write-used :
    (p : Policy) (used : Ledger) (now n : ℕ) (key : Bytes)
    → p.quota_bytes < 2 ^ 64 - 1
    → (check_storage_write p used now n).1 key
      ≡ used key
        + (if bytes_eq p.origin_key key
            then elim (check_storage_write p used now n).2 [ none ↦ n | some _ ↦ 0 ]
            else 0)
unfolding check_storage_write with_total
write-used p used now n key h = ground (
  arith,
  (bytes_eq_iff p.origin_key key).0,
  budget_cases (used p.origin_key) p.quota_bytes p.write_count (window_expired p now) n h,
)

write-charged :
    (p : Policy) (used : Ledger) (now n limit : ℕ) (key : Bytes)
    → p.quota_bytes < 2 ^ 64 - 1
    → (p.origin_key ≡ key → p.quota_bytes ≤ limit)
    → used key ≤ limit
    → (check_storage_write p used now n).1 key ≤ limit
unfolding check_storage_write with_total
write-charged p used now n limit key h q c = ground (
  arith,
  (bytes_eq_iff p.origin_key key).0,
  budget_cases (used p.origin_key) p.quota_bytes p.write_count (window_expired p now) n h,
)

-- The origin and the quota of a policy are not touched by a write.
write-policy :
    (p : Policy) (used : Ledger) (now n : ℕ)
    → ((check_storage_write p used now n).0.origin_key ≡ p.origin_key)
      × ((check_storage_write p used now n).0.quota_bytes ≡ p.quota_bytes)
unfolding check_storage_write
write-policy p used now n = (refl, refl)

module _ (parse_domain : Bytes → Option Bytes) (parse : Bytes → Option IpAddr) (limit : Bytes → ℕ)
    (bounded : (key : Bytes) → limit key < 2 ^ 64 - 1) where
  step-used :
      (w : World) (e : Event) (key : Bytes)
      → IsWithin limit w
      → (step parse_domain parse w e).0.used key ≡ w.used key + granted parse_domain parse w e key
  unfolding step granted
  step-used w (write t now n) key h =
      write-used (w.tabs t) w.used now n key
        (omega (arith, h.quotas t, bounded (w.tabs t).origin_key))
  step-used w (navigate t url k now) key h = omega arith

  step-IsWithin :
      (w : World) (e : Event)
      → IsWithin limit w
      → Fits parse_domain parse limit e
      → IsWithin limit (step parse_domain parse w e).0
  unfolding step
  step-IsWithin w (write t now n) h f = record {
    charged = λ key.
        write-charged (w.tabs t) w.used now n (limit key) key
          (omega (arith, h.quotas t, bounded (w.tabs t).origin_key)) (λ e. rw (← e) (h.quotas t))
          (h.charged key);
    quotas = λ s. ground (arith, h.quotas s, h.quotas t, write-policy (w.tabs t) w.used now n);
  }
  step-IsWithin w (navigate t url k now) h f = record {
    charged = h.charged;
    quotas = λ s. unfold new in ground (arith, h.quotas s, f);
  }

  run-used :
      (w : World) (es : List Event) (key : Bytes)
      → IsWithin limit w
      → AllFit parse_domain parse limit es
      → ((run parse_domain parse w es).used key
          ≡ w.used key + total_granted parse_domain parse w es key)
        × IsWithin limit (run parse_domain parse w es)
  unfolding run total_granted
  run-used w [] key h f = (omega arith, h)
  run-used w (e ∷ es) key h f =
      let h' = step-IsWithin w e h f.0 in
      let (u, v) = run-used (step parse_domain parse w e).0 es key h' f.1 in
      (omega (arith, u, step-used w e key h), v)

-- However writes and navigations of any tabs interleave, an origin's total grows by exactly the
-- bytes of its accepted writes, and never passes the origin's limit: neither a navigation nor a
-- second tab gives it a new budget.
pub ledger_exact :
    (parse_domain : Bytes → Option Bytes) (parse : Bytes → Option IpAddr) (limit : Bytes → ℕ)
    → ((key : Bytes) → limit key < 2 ^ 64 - 1)
    → (w : World) (es : List Event) (key : Bytes) → IsWithin limit w
    → AllFit parse_domain parse limit es
    → ((run parse_domain parse w es).used key
        ≡ w.used key + total_granted parse_domain parse w es key)
      × ((run parse_domain parse w es).used key ≤ limit key)
ledger_exact d p limit b w es key h f =
    let (u, v) = run-used d p limit b w es key h f in (u, v.charged key)
