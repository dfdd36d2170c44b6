-- ===== src/Value/Integers.antt =====
-- Rust's signed integers: `i128` products and quotients of `i64` operands never overflow, so they
-- are those of ℤ; a checked operation tests the range of `i64`.
use mizu_navigator.Prelude.{
  ℕ, suc, ◌+◌, ◌-◌, ◌*◌, ◌/◌, ◌<◌, ◌^◌, ◌≡◌, Bool, Option, none, some, arith, ltb, leb, ◌==◌,
  if◌then◌else◌, refl, ◌⊎◌, inl, inr, Bool-cases, ltb→lt, lt→ltb,
}

-- `negsuc n` is -(n + 1).
pub data ℤ : Type 0 where
  pos : ℕ → ℤ
  negsuc : ℕ → ℤ

abbrev pub pos_part : ℤ → ℕ
pos_part (pos n) = n
pos_part (negsuc n) = 0

abbrev pub neg_part : ℤ → ℕ
neg_part (pos n) = 0
neg_part (negsuc n) = suc n

-- a - b, as an integer.
abbrev pub sub_ℕ : ℕ → ℕ → ℤ
sub_ℕ a b = if leb b a then pos (a - b) else negsuc (b - a - 1)

infixl 65 ◌+ℤ◌ ◌-ℤ◌
infixl 70 ◌*ℤ◌ ◌/ℤ◌
unfoldable pub ◌+ℤ◌ : ℤ → ℤ → ℤ
a +ℤ b = sub_ℕ (pos_part a + pos_part b) (neg_part a + neg_part b)

unfoldable pub ◌-ℤ◌ : ℤ → ℤ → ℤ
a -ℤ b = sub_ℕ (pos_part a + neg_part b) (neg_part a + pos_part b)

unfoldable pub ◌*ℤ◌ : ℤ → ℤ → ℤ
a *ℤ b =
    sub_ℕ (pos_part a * pos_part b + neg_part a * neg_part b)
      (pos_part a * neg_part b + neg_part a * pos_part b)

-- Rust's division, which rounds towards zero.
unfoldable pub ◌/ℤ◌ : ℤ → ℤ → ℤ
pos a /ℤ pos b = pos (a / b)
pos a /ℤ negsuc b = sub_ℕ 0 (a / suc b)
negsuc a /ℤ pos b = sub_ℕ 0 (suc a / b)
negsuc a /ℤ negsuc b = pos (suc a / suc b)

abbrev pub eq_ℤ : ℤ → ℤ → Bool
eq_ℤ a b = pos_part a + neg_part b == pos_part b + neg_part a

abbrev pub ltb_ℤ : ℤ → ℤ → Bool
ltb_ℤ a b = ltb (pos_part a + neg_part b) (pos_part b + neg_part a)

abbrev pub leb_ℤ : ℤ → ℤ → Bool
leb_ℤ a b = leb (pos_part a + neg_part b) (pos_part b + neg_part a)

-- `i64::try_from`, and the range test of `checked_add` and its like.
unfoldable pub to_i64 : ℤ → Option ℤ
to_i64 (pos n) = if ltb n (2 ^ 63) then some (pos n) else none
to_i64 (negsuc n) = if ltb n (2 ^ 63) then some (negsuc n) else none

abbrev pub IsI64 : ℤ → Type 0
IsI64 (pos n) = n < 2 ^ 63
IsI64 (negsuc n) = n < 2 ^ 63

pub to_i64-IsI64 : (a b : ℤ) → to_i64 a ≡ some b → IsI64 b
unfolding to_i64
to_i64-IsI64 (pos n) b h = ground arith
to_i64-IsI64 (negsuc n) b h = ground arith

pub to_i64-cases : (a : ℤ) → (IsI64 a × (to_i64 a ≡ some a)) ⊎ ((¬ (IsI64 a)) × (to_i64 a ≡ none))
unfolding to_i64
to_i64-cases (pos n) = elim (Bool-cases (ltb n (2 ^ 63))) [
  | inl e ↦ inl (ltb→lt n (2 ^ 63) e, rw e refl)
  | inr e ↦ inr (λ l. absurd (cc (e, lt→ltb n (2 ^ 63) l)), rw e refl)
]
to_i64-cases (negsuc n) = elim (Bool-cases (ltb n (2 ^ 63))) [
  | inl e ↦ inl (ltb→lt n (2 ^ 63) e, rw e refl)
  | inr e ↦ inr (λ l. absurd (cc (e, lt→ltb n (2 ^ 63) l)), rw e refl)
]
