-- ===== src/Network/Suffix.antt =====
-- `ends_with_ignore_ascii_case` against the lower-case spellings.
use mathlib.Core.List.{map-append}
use mizu_navigator.Prelude.{
  ◌+◌, ◌-◌, true, ◌≡◌, ◌↔◌, sym, ap, ◌∙◌, ◌++◌, map, arith, length, take, drop, Bytes, to_lower,
  eq_ignore_case_iff, drop-append_length, length-append, take-append-drop, map-drop, length-map,
}
use mizu_navigator.Network.{ends_with_ignore_case}

-- The lower-case spelling of `haystack` ends in that of `suffix`.
abbrev pub EndsWith : Bytes → Bytes → Type 0
EndsWith haystack suffix = (front : Bytes) × (map to_lower haystack ≡ front ++ map to_lower suffix)

accepted_suffix :
    (haystack suffix : Bytes)
    → ends_with_ignore_case haystack suffix ≡ true
    → EndsWith haystack suffix
unfolding ends_with_ignore_case
accepted_suffix haystack suffix h =
    let n = length haystack - length suffix in
    let low = (eq_ignore_case_iff (drop n haystack) suffix).0 (ground arith) in
    (
      map to_lower (take n haystack),
      ap (map to_lower) (sym (take-append-drop n haystack))
          ∙ map-append to_lower (take n haystack) (drop n haystack)
          ∙ ap (λ l. map to_lower (take n haystack) ++ l) low,
    )

suffix_accepted :
    (haystack suffix : Bytes)
    → EndsWith haystack suffix
    → ends_with_ignore_case haystack suffix ≡ true
unfolding ends_with_ignore_case
suffix_accepted haystack suffix (front, e) =
    let n : length haystack ≡ length front + length suffix =
      sym (length-map to_lower haystack)
      ∙ ap length e
      ∙ length-append front (map to_lower suffix)
      ∙ ap (λ k. length front + k) (length-map to_lower suffix) in
    let m : length haystack - length suffix ≡ length front = omega arith in
    let d : map to_lower (drop (length haystack - length suffix) haystack) ≡ map to_lower suffix =
      map-drop to_lower (length haystack - length suffix) haystack
      ∙ rw (m, e) (drop-append_length front (map to_lower suffix)) in
    ground
      (arith, n, (eq_ignore_case_iff (drop (length haystack - length suffix) haystack) suffix).1 d)

-- The suffix test holds exactly when the lower-case spelling of the text ends in that of the
-- suffix, however short the text is.
pub ends_with_ignore_case_iff :
    (haystack suffix : Bytes)
    → (ends_with_ignore_case haystack suffix ≡ true) ↔ EndsWith haystack suffix
ends_with_ignore_case_iff haystack suffix =
    (accepted_suffix haystack suffix, suffix_accepted haystack suffix)
