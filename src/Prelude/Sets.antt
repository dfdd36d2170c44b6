-- ===== src/Prelude/Sets.antt =====
-- Sets of numbers, as lists without repetitions.
use Prim.Native.Nat.{ℕ}
use mathlib.Core.Path.{◌≡◌, refl}
use mathlib.Core.Logic.{inl, inr}
use mathlib.Core.Bool.{Bool, true, false, ◌||◌}
use mathlib.Core.List.{List, [], ◌∷◌, ◌++◌}
use native.Mathlib.Omega.{arith}
use mizu_navigator.Prelude.Tests.{==_comm, ◌==◌, if◌then◌else◌, Bool-cases, ==_iff, ==_refl}
use mizu_navigator.Prelude.Lists.{Among, any}

abbrev pub contains : ℕ → List ℕ → Bool
contains a [] = false
contains a (x ∷ xs) = a == x || contains a xs

abbrev pub insert : ℕ → List ℕ → List ℕ
insert a xs = if contains a xs then xs else a ∷ xs

pub contains-Among : (a : ℕ) (xs : List ℕ) → contains a xs ≡ true → Among a xs
contains-Among a [] h = absurd (cc)
contains-Among a (x ∷ xs) h = elim (Bool-cases (a == x)) [
  | inl e ↦ inl ((==_iff a x).0 e)
  | inr e ↦ inr (contains-Among a xs (ground arith))
]

pub Among-contains : (a : ℕ) (xs : List ℕ) → Among a xs → contains a xs ≡ true
Among-contains a [] m = absurd m
Among-contains a (x ∷ xs) (inl e) = ground (arith, (==_iff a x).1 e)
Among-contains a (x ∷ xs) (inr m) = ground (arith, Among-contains a xs m)

pub contains-append :
    (a : ℕ) (xs ys : List ℕ) → contains a (xs ++ ys) ≡ (contains a xs || contains a ys)
contains-append a [] ys = refl
contains-append a (x ∷ xs) ys = ground (arith, contains-append a xs ys)

pub contains-insert : (a x : ℕ) (xs : List ℕ) → contains a (insert x xs) ≡ (a == x || contains a xs)
contains-insert a x xs = elim (Bool-cases (contains x xs)) [
  | inl e ↦ elim (Bool-cases (a == x)) [
    | inl q ↦ let p : a ≡ x = (==_iff a x).0 q in rw (e, p) (ground (arith, e, ==_refl x))
    | inr q ↦ rw (e, q) refl
  ]
  | inr e ↦ rw e refl
]

-- Whether some element of a list is in a set with one more element
pub any-insert :
    (x : ℕ) (xs ds : List ℕ)
    → any (λ d. contains d (insert x xs)) ds ≡ (any (λ d. contains d xs) ds || contains x ds)
any-insert x xs [] = refl
any-insert x xs (d ∷ ds) = elim (Bool-cases (d == x)) [
  | inl q ↦
      let p : d ≡ x = (==_iff d x).0 q in
      ground (arith, contains-insert d x xs, any-insert x xs ds, (==_iff x d).1 (rw p refl), q)
  | inr q ↦ ground (arith, contains-insert d x xs, any-insert x xs ds, ==_comm x d, q)
]

any-cons :
    (x : ℕ) (xs ds : List ℕ)
    → any (λ d. contains d (x ∷ xs)) ds ≡ (contains x ds || any (λ d. contains d xs) ds)
any-cons x xs [] = refl
any-cons x xs (d ∷ ds) = ground (arith, any-cons x xs ds, ==_comm x d)

any-empty : (ds : List ℕ) → any (λ d. contains d []) ds ≡ false
any-empty [] = refl
any-empty (d ∷ ds) = any-empty ds

-- That two lists have a common element does not depend on which of them is searched.
pub any_swap : (xs ds : List ℕ) → any (λ x. contains x ds) xs ≡ any (λ d. contains d xs) ds
any_swap [] ds = rw (any-empty ds) refl
any_swap (x ∷ xs) ds = ground (arith, any_swap xs ds, any-cons x xs ds)
