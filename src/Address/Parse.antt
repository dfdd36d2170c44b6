-- ===== src/Address/Parse.antt =====
-- `Ipv6Addr::from_str` and `Ipv4Addr`'s part of it, after the standard library's parser: each
-- reader returns what it read and the rest of the input.
use mizu_navigator.Prelude.{
  ℕ, zero, suc, ◌+◌, ◌-◌, ◌*◌, Bool, true, false, not, ◌&&◌, ◌||◌, ◌≡◌, refl, Option, none, some,
  List, [], ◌∷◌, ◌++◌, ◌==◌, ltb, leb, if◌then◌else◌, length, replicate, Bytes, codes, ◌>>=◌,
}
use mizu_navigator.Address.Defs.{Ipv4, Ipv6}

-- `char::to_digit(radix)`
to_digit : ℕ → ℕ → Option ℕ
to_digit radix c =
    let v =
      if leb b'0' c && leb c b'9'
      then c - b'0'
      else if leb b'a' c && leb c b'f'
      then c - b'a' + 10
      else if leb b'A' c && leb c b'F'
      then c - b'A' + 10
      else 99 in
    if ltb v radix then some v else none

-- The digits at the front: their value, how many they are, and the rest.
read_digits : ℕ → ℕ → ℕ → Bytes → ℕ × ℕ × Bytes
read_digits radix value count [] = (value, count, [])
read_digits radix value count (c ∷ s) = elim (to_digit radix c) [
  | none ↦ (value, count, c ∷ s)
  | some v ↦ read_digits radix (value * radix + v) (suc count) s
]

starts_with_zero : Bytes → Bool
starts_with_zero [] = false
starts_with_zero (c ∷ s) = c == b'0'

-- `read_number(radix, Some(max_digits), allow_zero_prefix)`, the value at most `max`
read_number : ℕ → ℕ → ℕ → Bool → Bytes → Option (ℕ × Bytes)
read_number radix max_digits max zero_prefix s =
    let (value, count, rest) = read_digits radix 0 0 s in
    if count == 0 || ltb max_digits count
    then none
    else if ltb max value || (not zero_prefix && (starts_with_zero s && ltb 1 count))
    then none
    else some (value, rest)

read_char : ℕ → Bytes → Option Bytes
read_char k [] = none
read_char k (c ∷ s) = if c == k then some s else none

-- `read_separator(sep, i, …)`: the separator stands before every part but the first.
read_separator : ℕ → ℕ → Bytes → Option Bytes
read_separator sep i s = if i == 0 then some s else read_char sep s

read_octet : ℕ → Bytes → Option (ℕ × Bytes)
read_octet i s = do t ← read_separator b'.' i s; read_number 10 3 255 false t

read_ipv4 : Bytes → Option (Ipv4 × Bytes)
read_ipv4 s = do
  (a, s1) ← read_octet 0 s
  (b, s2) ← read_octet 1 s1
  (c, s3) ← read_octet 2 s2
  (d, s4) ← read_octet 3 s3
  some (record { a = a; b = b; c = c; d = d }, s4)

-- `read_groups` into the `n` slots that are left, from slot `i`: the groups, whether the last two
-- come from an IPv4 tail, and the rest of the input.
read_groups : ℕ → ℕ → Bytes → List ℕ × Bool × Bytes
read_groups zero i s = ([], false, s)
read_groups (suc n) i s =
    let tail = if n == 0 then none else (read_separator b':' i s >>= read_ipv4) in
    elim tail [
      | some (q, r) ↦ ((q.a * 256 + q.b) ∷ (q.c * 256 + q.d) ∷ [], true, r)
      | none ↦ elim (read_separator b':' i s >>= read_number 16 4 65535 true) [
        | none ↦ ([], false, s)
        | some (g, r) ↦ let (more, is_v4, rest) = read_groups n (suc i) r in (g ∷ more, is_v4, rest)
      ]
    ]

of_groups : List ℕ → Option Ipv6
of_groups (g0 ∷ g1 ∷ g2 ∷ g3 ∷ g4 ∷ g5 ∷ g6 ∷ g7 ∷ []) =
    some (record { s0 = g0; s1 = g1; s2 = g2; s3 = g3; s4 = g4; s5 = g5; s6 = g6; s7 = g7 })
of_groups _ = none

at_end : Option Ipv6 → Bytes → Option Ipv6
at_end o [] = o
at_end o (c ∷ s) = none

-- `s.parse::<Ipv6Addr>()`
unfoldable pub parse_v6 : Bytes → Option Ipv6
unfolding read_groups read_ipv4 read_octet read_separator read_char read_number read_digits to_digit
    starts_with_zero of_groups at_end
parse_v6 s =
    let (head, head_v4, rest) = read_groups 8 0 s in
    if length head == 8 then at_end (of_groups head) rest else if head_v4 then none else do
      r1 ← read_char b':' rest
      r2 ← read_char b':' r1
      let (back, back_v4, r3) = read_groups (7 - length head) 0 r2
      at_end (of_groups (head ++ replicate (8 - length head - length back) 0 ++ back)) r3

parse_v6_loopback :
    parse_v6 (codes "::1")
    ≡ some (record { s0 = 0; s1 = 0; s2 = 0; s3 = 0; s4 = 0; s5 = 0; s6 = 0; s7 = 1 })
unfolding parse_v6
parse_v6_loopback = refl

parse_v6_mapped :
    parse_v6 (codes "::ffff:127.0.0.1")
    ≡ some (record { s0 = 0; s1 = 0; s2 = 0; s3 = 0; s4 = 0; s5 = 65535; s6 = 32512; s7 = 1 })
unfolding parse_v6
parse_v6_mapped = refl

parse_v6_rejects : parse_v6 (codes "1:2:3") ≡ none
unfolding parse_v6
parse_v6_rejects = refl
