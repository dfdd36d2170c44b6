-- ===== src/Session/Segments.antt =====
-- A path parameter becomes one path segment of the resolved address, from which it can be read back.
use mizu_navigator.Prelude.{
  ℕ, ◌+◌, ◌-◌, ◌*◌, ◌/◌, ◌%◌, ◌<◌, ◌≡◌, refl, ap, ◌∙◌, arith, true, false, ◌||◌, Option, none, some,
  Bool, any, [], ◌∷◌, ◌++◌, leb, ◌==◌, if◌then◌else◌, inl, inr, Bool-cases, All, Bytes, ==_iff,
}
use mizu_navigator.Value.{Outcome, ok, err, panicked, out_of_fuel}
use mizu_navigator.Evaluator.Actions.{path_param_ok}
use mizu_navigator.Session.Endpoints.{
  UrlEndpoint, is_unreserved, hex_digit, percent_encode, split_at, trim_end, base_url, closed_at,
  opened_at, fill_placeholder, resolve_endpoint_url,
}

-- What a percent-encoded segment stands for
hex_value : ℕ → ℕ
hex_value c = if leb b'A' c then c - 55 else c - 48

pub percent_decode : Bytes → Bytes
percent_decode [] = []
percent_decode (c ∷ []) = c ∷ []
percent_decode (c ∷ h ∷ []) = c ∷ h ∷ []
percent_decode (c ∷ h ∷ l ∷ s) =
    let escaped = (hex_value h * 16 + hex_value l) ∷ percent_decode s in
    let other = c ∷ percent_decode (h ∷ l ∷ s) in if c == b'%' then escaped else other

percent_decode_other :
    (c : ℕ) (s : Bytes) → (c == b'%') ≡ false → percent_decode (c ∷ s) ≡ c ∷ percent_decode s
unfolding percent_decode
percent_decode_other c [] e = refl
percent_decode_other c (h ∷ []) e = refl
percent_decode_other c (h ∷ l ∷ s) e = rw e refl

hex_value-hex_digit : (n : ℕ) → n < 16 → hex_value (hex_digit n) ≡ n
unfolding hex_value
hex_value-hex_digit n h = ground arith

unreserved_other : (b : ℕ) → is_unreserved b ≡ true → (b == b'%') ≡ false
unreserved_other b h = ground arith

percent_decode-percent_encode :
    (s : Bytes) → All (λ b. b < 256) s → percent_decode (percent_encode s) ≡ s
unfolding percent_encode percent_decode
percent_decode-percent_encode [] h = refl
percent_decode-percent_encode (b ∷ s) h = elim (Bool-cases (is_unreserved b)) [
  | inl e ↦ rw e (
      percent_decode_other b (percent_encode s) (unreserved_other b e)
      ∙ ap (λ t. b ∷ t) (percent_decode-percent_encode s h.1))
  | inr e ↦ rw e (
      ground (
        arith,
        h.0,
        hex_value-hex_digit (b / 16),
        hex_value-hex_digit (b % 16),
        percent_decode-percent_encode s h.1,
      ))
]

-- The bytes of a segment: no delimiter of an address is among them.
abbrev pub SegmentByte : ℕ → Type 0
SegmentByte b = (is_unreserved b || b == b'%') ≡ true

hex_digit-SegmentByte : (n : ℕ) → n < 16 → SegmentByte (hex_digit n)
hex_digit-SegmentByte n h = ground arith

percent_encode-SegmentByte : (s : Bytes) → All (λ b. b < 256) s → All SegmentByte (percent_encode s)
unfolding percent_encode
percent_encode-SegmentByte [] h = tt
percent_encode-SegmentByte (b ∷ s) h = elim (Bool-cases (is_unreserved b)) [
  | inl e ↦ rw e (rw e refl, percent_encode-SegmentByte s h.1)
  | inr e ↦ rw e (
    refl,
    (
      hex_digit-SegmentByte (b / 16) (omega (arith, h.0)),
      (hex_digit-SegmentByte (b % 16) (omega arith), percent_encode-SegmentByte s h.1),
    ),
  )
]

-- Whether a byte occurs
abbrev pub has : ℕ → Bytes → Bool
has c s = any (λ b. b == c) s

split_at_sound :
    (c : ℕ) (s before after : Bytes)
    → split_at c s ≡ some (before, after)
    → (s ≡ before ++ (c ∷ after)) × (has c before ≡ false)
unfolding split_at
split_at_sound c [] before after h = absurd (cc)
split_at_sound c (b ∷ s) before after h = elim (Bool-cases (b == c)) [
  | inl e ↦
      let p : [] ≡ before = cc (rw e at h) in
      let q : s ≡ after = cc (rw e at h) in
      rw (← p) (rw (← q) (ap (λ x. x ∷ s) ((==_iff b c).0 e), refl))
  | inr e ↦ deeper e (split_at_sound c s) (split_at c s) refl (rw e at h)
]
  where
    deeper :
        (b == c) ≡ false
        → ((x y : Bytes) → split_at c s ≡ some (x, y) → (s ≡ x ++ (c ∷ y)) × (has c x ≡ false))
        → (o : Option (Bytes × Bytes)) → split_at c s ≡ o
        → elim o as (λ _. Option (Bytes × Bytes)) [ none ↦ none | some (x, y) ↦ some (b ∷ x, y) ]
          ≡ some (before, after)
        → (b ∷ s ≡ before ++ (c ∷ after)) × (has c before ≡ false)
    deeper d found none p q = absurd (cc)
    deeper d found (some (x, y)) p q =
        let e : b ∷ x ≡ before = cc in
        let f : y ≡ after = cc in
        let (g, h) = found x y p in rw (← e) (rw (← f) (ap (λ t. b ∷ t) g, rw d h))

split_at-none : (c : ℕ) (s : Bytes) → split_at c s ≡ none → has c s ≡ false
unfolding split_at
split_at-none c [] h = refl
split_at-none c (b ∷ s) h = elim (Bool-cases (b == c)) [
  | inl e ↦ absurd (cc (rw e at h))
  | inr e ↦ rw e (deeper (split_at-none c s) (split_at c s) refl (rw e at h))
]
  where
    deeper :
        (split_at c s ≡ none → has c s ≡ false)
        → (o : Option (Bytes × Bytes)) → split_at c s ≡ o
        → elim o as (λ _. Option (Bytes × Bytes)) [ none ↦ none | some (x, y) ↦ some (b ∷ x, y) ]
          ≡ none
        → has c s ≡ false
    deeper found none p q = found p
    deeper found (some (x, y)) p q = absurd (cc q)

-- No `{` is followed by a `}`: there is no `{`, or else no `}` after the first one.
pub data Unmarked (base : Bytes) : Type 0 where
  unopened : has b'{' base ≡ false → Unmarked base
  unclosed :
      (before rest : Bytes)
      → base ≡ before ++ (b'{' ∷ rest)
      → has b'{' before ≡ false
      → has b'}' rest ≡ false
      → Unmarked base

-- Where the segment stands: in the place of the first `{…}`, or at the end if there is none
pub data Placed (base segment : Bytes) : Bytes → Type 0 where
  in_place :
      {url : Bytes} (before name after : Bytes)
      → base ≡ before ++ (b'{' ∷ (name ++ (b'}' ∷ after)))
      → has b'{' before ≡ false
      → has b'}' name ≡ false
      → url ≡ before ++ (segment ++ after)
      → Placed base segment url
  at_end :
      {url : Bytes}
      → Unmarked base
      → url ≡ trim_end b'/' base ++ (b'/' ∷ segment)
      → Placed base segment url

fill_placeholder-Placed :
    (base segment : Bytes) → Placed base segment (fill_placeholder base segment)
unfolding fill_placeholder
fill_placeholder-Placed base segment = opened (split_at b'{' base) refl
  where
    closed :
        (before rest : Bytes) (o : Option (Bytes × Bytes))
        → base ≡ before ++ (b'{' ∷ rest)
        → has b'{' before ≡ false
        → split_at b'}' rest ≡ o
        → Placed base segment (closed_at base before segment o)
    closed before rest none p f q =
        at_end (unclosed before rest p f (split_at-none b'}' rest q)) refl
    closed before rest (some (name, after)) p f q =
        let (e, g) = split_at_sound b'}' rest name after q in
        in_place before name after (p ∙ ap (λ t. before ++ (b'{' ∷ t)) e) f g refl

    opened :
        (o : Option (Bytes × Bytes))
        → split_at b'{' base ≡ o
        → Placed base segment (opened_at base segment o)
    opened none p = at_end (unopened (split_at-none b'{' base p)) refl
    opened (some (before, rest)) p =
        let (e, f) = split_at_sound b'{' base before rest p in
        closed before rest (split_at b'}' rest) e f refl

pub record IsFilled (base path_param url : Bytes) : Type 0 where
  pub segment : Bytes
  pub undelimited : All SegmentByte segment
  pub readable : percent_decode segment ≡ path_param
  pub placed : Placed base segment url

abbrev pub Resolves : Bytes → Bytes → Outcome Bytes → Type 0
Resolves base path_param (ok url) = (path_param_ok path_param ≡ true) × IsFilled base path_param url
Resolves base path_param (err e) = path_param_ok path_param ≡ false
Resolves base path_param panicked = ⊥
Resolves base path_param out_of_fuel = ⊥

-- Exactly the path parameters, as bytes, that `path_param_ok` accepts are resolved; the others are an
-- error. A parameter that is accepted becomes one segment, without any delimiter of addresses, from
-- which percent-decoding gives the parameter back. The segment replaces the first `{` with what
-- follows up to the next `}`; only where no `}` follows the first `{`, or there is no `{`, it is
-- appended. The rest is the address declared.
pub resolve_endpoint_url-Resolves :
    (domain : Bytes) (ep : UrlEndpoint) (path_param : Bytes)
    → All (λ b. b < 256) path_param
    → Resolves
        (base_url domain ep ep.kind)
        path_param
        (resolve_endpoint_url domain ep (some path_param))
unfolding resolve_endpoint_url
resolve_endpoint_url-Resolves domain ep path_param h =
    elim (Bool-cases (path_param_ok path_param)) [
      | inl t ↦
          let base = base_url domain ep ep.kind in
          rw t (
            t,
            record {
              segment = percent_encode path_param;
              undelimited = percent_encode-SegmentByte path_param h;
              readable = percent_decode-percent_encode path_param h;
              placed = fill_placeholder-Placed base (percent_encode path_param);
            },
          )
      | inr f ↦ rw f f
    ]
