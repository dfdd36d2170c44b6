-- ===== src/Navigation/Chain.antt =====
-- Server redirects: an initiator's agency through a chain of hops, and where a chain can lead.
use mizu_navigator.Prelude.{ℕ, zero, suc, ◌≤◌, ◌≡◌, refl, arith, Bytes, ◌++◌}
use mizu_navigator.Navigation.{
  Initiator, redirect_of, redirect, mizu_scheme, has_user_agency, check_mizu, check_scheme,
  check_navigation,
}

-- The initiator after `n` redirects.
abbrev pub redirects : ℕ → Initiator → Initiator
redirects zero i = i
redirects (suc n) i = redirect (redirects n i)

-- How deep `RedirectOf` is nested.
abbrev pub depth : Initiator → ℕ
depth (redirect_of i) = suc (depth i)
depth _ = 0

agency-redirect : (i : Initiator) → has_user_agency (redirect i) ≡ has_user_agency i
unfolding redirect has_user_agency
agency-redirect (redirect_of i) = refl
agency-redirect _ = refl

pub agency-redirects : (n : ℕ) (i : Initiator) → has_user_agency (redirects n i) ≡ has_user_agency i
agency-redirects zero i = refl
agency-redirects (suc n) i = rw (agency-redirect (redirects n i)) (agency-redirects n i)

depth-redirect : (i : Initiator) → depth i ≤ 1 → depth (redirect i) ≤ 1
unfolding redirect
depth-redirect (redirect_of i) h = h
depth-redirect _ h = omega arith

depth-redirects : (n : ℕ) (i : Initiator) → depth i ≤ 1 → depth (redirects n i) ≤ 1
depth-redirects zero i h = h
depth-redirects (suc n) i h = depth-redirect (redirects n i) (depth-redirects n i h)

module _ (current target : Bytes) (i j : Initiator)
    (e : has_user_agency i ≡ has_user_agency j) where
  check_mizu-agency : (t : Bytes) → check_mizu current t i ≡ check_mizu current t j
  unfolding check_mizu
  check_mizu-agency t = ground arith

  check_scheme-agency : (t : Bytes) → check_scheme current t i ≡ check_scheme current t j
  unfolding check_scheme
  check_scheme-agency t = ground (arith, check_mizu-agency t)

  check_navigation-agency : check_navigation current target i ≡ check_navigation current target j
  unfolding check_navigation
  check_navigation-agency =
      ground (arith, check_scheme-agency target, check_scheme-agency (mizu_scheme ++ target))

-- However many redirects a server strings together, the verdict is that of the navigation they
-- began with, and the initiator stays nested at most one level deep.
pub check_navigation-redirects :
    (current target : Bytes) (n : ℕ) (i : Initiator)
    → depth i ≤ 1
    → (check_navigation current target (redirects n i) ≡ check_navigation current target i)
      × (depth (redirects n i) ≤ 1)
check_navigation-redirects current target n i h = (
  check_navigation-agency current target (redirects n i) i (agency-redirects n i),
  depth-redirects n i h,
)
