-- ===== src/Navigation/Policy.antt =====
-- What `check_navigation` allows and what it refuses: invariants N3 and N4.
use mizu_navigator.Prelude.{
  true, false, ◌≡◌, ◌≢◌, ◌↔◌, ◌⊎◌, inl, inr, refl, some, [], ◌++◌, arith, any, is_empty, Bytes,
  strip_prefix, strip_prefix_sound, starts_with, contains_bytes, Bool-cases, Option-cases,
}
use mizu_navigator.Navigation.{
  Initiator, allow, mizu_scheme, file_scheme, scheme_mark, mizu_domain, is_wellformed_mizu_host,
  has_user_agency, is_same_origin, is_control, check_mizu, check_scheme, check_navigation,
}

-- A `mizu://` address with a well-formed host.
pub record IsMizuUrl (u : Bytes) : Type 0 where
  pub host : Bytes
  pub domain : mizu_domain u ≡ some host
  pub wellformed : is_wellformed_mizu_host host ≡ true

-- What entitles a navigation to a `mizu://` address: the origin stays, or the user asked for it.
abbrev pub Entitled : Bytes → Bytes → Initiator → Type 0
Entitled current u i = (is_same_origin current u ≡ true) ⊎ (has_user_agency i ≡ true)

pub mizu_split :
    (s : Bytes) → starts_with mizu_scheme s ≡ true → (rest : Bytes) × (s ≡ mizu_scheme ++ rest)
mizu_split s h = elim (Option-cases (strip_prefix mizu_scheme s)) [
  | inl e ↦ absurd (ground arith)
  | inr (rest, e) ↦ (rest, strip_prefix_sound mizu_scheme s rest e)
]

pub check_mizu_sound :
    (current target u : Bytes) (i : Initiator)
    → check_mizu current target i ≡ allow u
    → (u ≡ target) × IsMizuUrl target × Entitled current target i
unfolding check_mizu
check_mizu_sound current target u i h = elim (Option-cases (mizu_domain target)) [
  | inl e ↦ absurd (ground arith)
  | inr (host, e) ↦
      (ground arith, record { host = host; domain = e; wellformed = ground arith }, ground arith)
]

pub check_mizu_complete :
    (current target : Bytes) (i : Initiator)
    → IsMizuUrl target
    → Entitled current target i
    → check_mizu current target i ≡ allow target
unfolding check_mizu
check_mizu_complete current target i m e = ground (arith, m.domain, m.wellformed)

-- A `mizu://` address has no other scheme.
pub check_scheme-mizu :
    (current target : Bytes) (i : Initiator)
    → starts_with mizu_scheme target ≡ true
    → check_scheme current target i ≡ check_mizu current target i
check_scheme-mizu current target i h =
    let (rest, e) = mizu_split target h in rw e (unfold check_scheme strip_prefix in refl)

pub contains-scheme_mark :
    (target : Bytes)
    → starts_with mizu_scheme target ≡ true
    → contains_bytes scheme_mark target ≡ true
contains-scheme_mark target h =
    let (rest, e) = mizu_split target h in rw e (unfold contains_bytes strip_prefix in refl)

starts_with-prefixed :
    (target : Bytes)
    → (starts_with mizu_scheme (mizu_scheme ++ target) ≡ true)
      × (starts_with file_scheme (mizu_scheme ++ target) ≡ false)
unfolding strip_prefix
starts_with-prefixed target = (refl, refl)

file_not_mizu :
    (s : Bytes) → starts_with file_scheme s ≡ true → ¬ (starts_with mizu_scheme s ≡ true)
file_not_mizu s f m =
    let (rest, e) = mizu_split s m in
    let g : starts_with file_scheme (mizu_scheme ++ rest) ≡ true = rw e at f in
    ground (arith, g, starts_with-prefixed rest)

mizu_not_empty : (s : Bytes) → starts_with mizu_scheme s ≡ true → is_empty s ≡ false
mizu_not_empty s h = let (rest, e) = mizu_split s h in rw e

-- The three ways in which a navigation is allowed.
pub data Permitted (current target : Bytes) (i : Initiator) (u : Bytes) : Type 0 where
  relative_file :
      starts_with file_scheme current ≡ true
      → contains_bytes scheme_mark target ≡ false
      → u ≡ target
      → Permitted current target i u
  absolute_file :
      starts_with file_scheme current ≡ true
      → starts_with file_scheme target ≡ true
      → u ≡ target
      → Permitted current target i u
  mizu :
      (u ≡ target) ⊎ (u ≡ mizu_scheme ++ target)
      → IsMizuUrl u
      → Entitled current u i
      → Permitted current target i u

check_scheme_sound :
    (current target u : Bytes) (i : Initiator)
    → check_scheme current target i ≡ allow u
    → ((starts_with file_scheme current ≡ true)
        × (starts_with file_scheme target ≡ true)
        × (u ≡ target))
      ⊎ ((u ≡ target) × IsMizuUrl target × Entitled current target i)
unfolding check_scheme
check_scheme_sound current target u i h = ground (arith, check_mizu_sound current target u i)

given-Permitted :
    (current target u : Bytes) (i : Initiator)
    → check_scheme current target i ≡ allow u
    → Permitted current target i u
given-Permitted current target u i h = elim (check_scheme_sound current target u i h) [
  | inl (c, t, e) ↦ absolute_file c t e
  | inr (e, m, n) ↦ mizu (inl e) (rw e m) (rw e n)
]

prefixed-Permitted :
    (current target u : Bytes) (i : Initiator)
    → check_scheme current (mizu_scheme ++ target) i ≡ allow u
    → Permitted current target i u
prefixed-Permitted current target u i h =
    elim (check_scheme_sound current (mizu_scheme ++ target) u i h) [
      | inl (c, t, e) ↦ absurd (ground (arith, starts_with-prefixed target))
      | inr (e, m, n) ↦ mizu (inr e) (rw e m) (rw e n)
    ]

resolved-Permitted :
    (current target u : Bytes) (i : Initiator)
    → check_navigation current target i ≡ allow u
    → Permitted current target i u
unfolding check_navigation
resolved-Permitted current target u i h = elim (Bool-cases (contains_bytes scheme_mark target)) [
  | inl e ↦ given-Permitted current target u i (ground arith)
  | inr e ↦ elim (Bool-cases (starts_with file_scheme current)) [
    | inl f ↦ relative_file f e (ground arith)
    | inr f ↦ prefixed-Permitted current target u i (ground arith)
  ]
]

-- Whatever `check_navigation` allows is no empty text, has no control byte, and is permitted: a
-- navigation between local files, or one to a `mizu://` address with a well-formed host that stays
-- on the origin or has the user behind it.
pub check_navigation_sound :
    (current target u : Bytes) (i : Initiator)
    → check_navigation current target i ≡ allow u
    → (target ≢ []) × (any is_control target ≡ false) × Permitted current target i u
unfolding check_navigation
check_navigation_sound current target u i h =
    (ground arith, ground arith, resolved-Permitted current target u i h)

-- A `mizu://` target without control bytes is allowed, unchanged, exactly when its host is well
-- formed and the navigation stays on the origin or has the user behind it.
pub check_navigation-mizu_iff :
    (current target : Bytes) (i : Initiator)
    → starts_with mizu_scheme target ≡ true
    → any is_control target ≡ false
    → (check_navigation current target i ≡ allow target)
      ↔ (IsMizuUrl target × Entitled current target i)
check_navigation-mizu_iff current target i s c =
    let e : check_navigation current target i ≡ check_mizu current target i =
      unfold check_navigation in
      ground (
        arith,
        mizu_not_empty target s,
        contains-scheme_mark target,
        check_scheme-mizu current target i,
      ) in
    rw e (
      λ h. let (_, m, n) = check_mizu_sound current target target i h in (m, n),
      λ (m, n). check_mizu_complete current target i m n,
    )

-- Without the user, no navigation leaves a `mizu://` origin: an allowed one stays on it.
pub no_agency_same_origin :
    (current target u : Bytes) (i : Initiator)
    → starts_with mizu_scheme current ≡ true
    → has_user_agency i ≡ false
    → check_navigation current target i ≡ allow u
    → is_same_origin current u ≡ true
no_agency_same_origin current target u i s a h = elim (resolved-Permitted current target u i h) [
  | relative_file f m e ↦ absurd (file_not_mizu current f s)
  | absolute_file f t e ↦ absurd (file_not_mizu current f s)
  | mizu w m e ↦ elim e [ inl o ↦ o | inr y ↦ cc ]
]
