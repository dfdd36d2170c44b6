-- ===== src/Prelude/Distinct.antt =====
-- Lists of numbers without repetitions, and how long they can be.
use Prim.Native.Nat.{ℕ, zero, suc, ◌≤◌, ◌<◌}
use mathlib.Core.Path.{◌≡◌, refl, ◌∙◌}
use mathlib.Core.Logic.{◌⊎◌, inl, inr}
use mathlib.Core.Bool.{true, false}
use mathlib.Core.List.{List, [], ◌∷◌, ◌++◌}
use native.Mathlib.Omega.{arith}
use mizu_navigator.Prelude.Tests.{◌==◌, if◌then◌else◌, Bool-cases, ==_iff, ==_refl, ==_ne}
use mizu_navigator.Prelude.Lists.{length}
use mizu_navigator.Prelude.Sets.{contains, contains-append}

abbrev pub Nodup : List ℕ → Type 0
Nodup [] = Unit
Nodup (x ∷ xs) = (contains x xs ≡ false) × Nodup xs

pub Nodup-append_one :
    (x : ℕ) (xs : List ℕ) → contains x xs ≡ false → Nodup xs → Nodup (xs ++ (x ∷ []))
Nodup-append_one x [] h n = (refl, tt)
Nodup-append_one x (y ∷ xs) h n = (
  contains-append y xs (x ∷ []) ∙ ground (arith, h, n.0, ==_iff x y, ==_iff y x),
  Nodup-append_one x xs (ground arith) n.1,
)

-- The list without the first occurrence of a number
erase : ℕ → List ℕ → List ℕ
erase m [] = []
erase m (x ∷ xs) = if m == x then xs else x ∷ erase m xs

length-erase : (m : ℕ) (xs : List ℕ) → length xs ≤ suc (length (erase m xs))
unfolding erase
length-erase m [] = omega arith
length-erase m (x ∷ xs) = ground (arith, length-erase m xs)

contains-erase : (k m : ℕ) (xs : List ℕ) → contains k (erase m xs) ≡ true → contains k xs ≡ true
unfolding erase
contains-erase k m [] h = h
contains-erase k m (x ∷ xs) h = ground (arith, contains-erase k m xs)

erased : (m : ℕ) (xs : List ℕ) → Nodup xs → contains m (erase m xs) ≡ false
unfolding erase
erased m [] n = refl
erased m (x ∷ xs) n = elim (Bool-cases (m == x)) [
  | inl e ↦ let p : m ≡ x = (==_iff m x).0 e in rw e (rw p n.0)
  | inr e ↦ rw e (rw e (erased m xs n.1))
]

erase-Nodup : (m : ℕ) (xs : List ℕ) → Nodup xs → Nodup (erase m xs)
unfolding erase
erase-Nodup m [] n = tt
erase-Nodup m (x ∷ xs) n = elim (Bool-cases (m == x)) [
  | inl e ↦ rw e n.1
  | inr e ↦
      let f : contains x (erase m xs) ≡ false = elim (Bool-cases (contains x (erase m xs))) [
        | inl t ↦ absurd (cc (contains-erase x m xs t, n.0))
        | inr f ↦ f
      ] in
      rw e (f, erase-Nodup m xs n.1)
]

pub length_bound :
    (n : ℕ) (xs : List ℕ) → Nodup xs → ((j : ℕ) → contains j xs ≡ true → j < n) → length xs ≤ n
length_bound zero [] d b = omega arith
length_bound zero (x ∷ xs) d b =
    let p : x < 0 = b x (rw (==_refl x) refl) in absurd (omega (arith, p))
length_bound (suc n) xs d b =
    let smaller : length (erase n xs) ≤ n = length_bound n (erase n xs) (erase-Nodup n xs d) (λ j h.
      let p : j < suc n = b j (contains-erase j n xs h) in
      elim (Bool-cases (j == n)) [
        | inl e ↦ let q : j ≡ n = (==_iff j n).0 e in absurd (cc (q, h, erased n xs d))
        | inr e ↦ ground (arith, p, e, ==_iff j n)
      ]) in
    omega (arith, smaller, length-erase n xs)

length-erase_one :
    (m : ℕ) (xs : List ℕ) → contains m xs ≡ true → suc (length (erase m xs)) ≡ length xs
unfolding erase
length-erase_one m [] h = absurd (cc)
length-erase_one m (x ∷ xs) h = ground (arith, length-erase_one m xs, h)

erase-contains :
    (k m : ℕ) (xs : List ℕ)
    → (k == m) ≡ false
    → contains k xs ≡ true
    → contains k (erase m xs) ≡ true
unfolding erase
erase-contains k m [] d h = h
erase-contains k m (x ∷ xs) d h = ground (arith, d, h, erase-contains k m xs d)

all_inside : (n : ℕ) (xs : List ℕ) → ((j : ℕ) → j < n → contains j xs ≡ true) → n ≤ length xs
all_inside zero xs f = omega arith
all_inside (suc n) xs f =
    let smaller : n ≤ length (erase n xs) = all_inside n (erase n xs) (λ j l.
      erase-contains j n xs (==_ne j n (λ e. omega (arith, l, e))) (f j (omega (arith, l)))) in
    omega (arith, smaller, length-erase_one n xs (f n (omega arith)))

search_outside :
    (n : ℕ) (xs : List ℕ)
    → ((j : ℕ) → j < n → contains j xs ≡ true) ⊎ ((j : ℕ) × (j < n) × (contains j xs ≡ false))
search_outside zero xs = inl (λ j l. absurd (omega (arith, l)))
search_outside (suc n) xs = elim (search_outside n xs) [
  | inr (j, l, e) ↦ inr (j, omega (arith, l), e)
  | inl f ↦ elim (Bool-cases (contains n xs)) [
    | inr e ↦ inr (n, omega arith, e)
    | inl e ↦ inl (λ j l. elim (Bool-cases (j == n)) [
      | inl q ↦ let p : j ≡ n = (==_iff j n).0 q in rw p e
      | inr q ↦ f j (ground (arith, q, l, ==_iff j n))
    ])
  ]
]

-- Too short a list misses a number.
pub outside : (n : ℕ) (xs : List ℕ) → length xs < n → (j : ℕ) × (j < n) × (contains j xs ≡ false)
outside n xs l = elim (search_outside n xs) [
  | inl f ↦ absurd (omega (arith, all_inside n xs f, l))
  | inr r ↦ r
]
