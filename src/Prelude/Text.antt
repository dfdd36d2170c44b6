-- ===== src/Prelude/Text.antt =====
-- A Rust `str` or `[u8]` as the list of its bytes, and the operations that the code calls on it.
use Prim.Native.Nat.{ℕ, ◌+◌}
use Prim.Native.Char.{code}
use Prim.Native.String.{String}
use mathlib.Core.Path.{◌≡◌, refl}
use mathlib.Core.Logic.{◌↔◌}
use mathlib.Core.List.{List, [], ◌∷◌, ◌++◌, map}
use mathlib.Core.Option.{Option, none, some}
use mathlib.Core.Bool.{Bool, true, false, ◌||◌, ◌&&◌}
use native.Mathlib.Omega.{arith}
use mizu_navigator.Prelude.Tests.{leb, ◌==◌, if◌then◌else◌}

abbrev pub Bytes : Type 0
Bytes = List ℕ

-- The bytes of an ASCII literal.
abbrev pub codes : String → Bytes
codes String.[] = []
codes (String.◌∷◌ c s) = code c ∷ codes s

-- `a == b` on byte strings
unfoldable pub bytes_eq : Bytes → Bytes → Bool
bytes_eq [] [] = true
bytes_eq [] (d ∷ t) = false
bytes_eq (c ∷ s) [] = false
bytes_eq (c ∷ s) (d ∷ t) = (c == d) && bytes_eq s t

pub bytes_eq_iff : (s t : Bytes) → (bytes_eq s t ≡ true) ↔ (s ≡ t)
unfolding bytes_eq
bytes_eq_iff [] [] = (λ h. refl, λ h. refl)
bytes_eq_iff [] (d ∷ t) = (λ h. cc, λ h. cc)
bytes_eq_iff (c ∷ s) [] = (λ h. cc, λ h. cc)
bytes_eq_iff (c ∷ s) (d ∷ t) =
    (λ h. ground (arith, (bytes_eq_iff s t).0), λ h. ground (arith, (bytes_eq_iff s t).1))

-- `s.strip_prefix(p)`
unfoldable pub strip_prefix : Bytes → Bytes → Option Bytes
strip_prefix [] s = some s
strip_prefix (p ∷ ps) [] = none
strip_prefix (p ∷ ps) (c ∷ s) = if p == c then strip_prefix ps s else none

pub strip_prefix_sound : (p s rest : Bytes) → strip_prefix p s ≡ some rest → s ≡ p ++ rest
unfolding strip_prefix
strip_prefix_sound [] s rest h = ground arith
strip_prefix_sound (p ∷ ps) [] rest h = cc
strip_prefix_sound (p ∷ ps) (c ∷ s) rest h = ground (arith, strip_prefix_sound ps s rest)

pub strip_prefix-append : (p rest : Bytes) → strip_prefix p (p ++ rest) ≡ some rest
unfolding strip_prefix
strip_prefix-append [] rest = refl
strip_prefix-append (p ∷ ps) rest = ground (arith, strip_prefix-append ps rest)

-- `s.starts_with(p)`
abbrev pub starts_with : Bytes → Bytes → Bool
starts_with p s = elim (strip_prefix p s) [ none ↦ false | some _ ↦ true ]

-- `s.contains(p)` for a byte string `p`
unfoldable pub contains_bytes : Bytes → Bytes → Bool
contains_bytes p [] = starts_with p []
contains_bytes p (c ∷ s) = starts_with p (c ∷ s) || contains_bytes p s

-- The bytes before the first that `stop` accepts: `&s[..s.find(stop).unwrap_or(s.len())]`.
unfoldable pub take_until : (ℕ → Bool) → Bytes → Bytes
take_until stop [] = []
take_until stop (c ∷ s) = if stop c then [] else c ∷ take_until stop s

-- `u8::to_ascii_lowercase`
unfoldable pub to_lower : ℕ → ℕ
to_lower c = if leb b'A' c && leb c b'Z' then c + 32 else c

-- `a.eq_ignore_ascii_case(b)`
unfoldable pub eq_ignore_case : Bytes → Bytes → Bool
eq_ignore_case [] [] = true
eq_ignore_case [] (d ∷ t) = false
eq_ignore_case (c ∷ s) [] = false
eq_ignore_case (c ∷ s) (d ∷ t) = (to_lower c == to_lower d) && eq_ignore_case s t

-- Equality without case is equality of the lowered texts.
pub eq_ignore_case_iff :
    (s t : Bytes) → (eq_ignore_case s t ≡ true) ↔ (map to_lower s ≡ map to_lower t)
unfolding eq_ignore_case
eq_ignore_case_iff [] [] = (λ h. refl, λ h. refl)
eq_ignore_case_iff [] (d ∷ t) = (λ h. cc, λ h. cc)
eq_ignore_case_iff (c ∷ s) [] = (λ h. cc, λ h. cc)
eq_ignore_case_iff (c ∷ s) (d ∷ t) = (
  λ h. ground (arith, (eq_ignore_case_iff s t).0),
  λ h. ground (arith, (eq_ignore_case_iff s t).1),
)
