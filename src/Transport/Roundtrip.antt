-- ===== src/Transport/Roundtrip.antt =====
-- What one process writes the other reads, and a reader never takes more than it may.
use mizu_navigator.Prelude.{
  ℕ, ◌+◌, ◌*◌, ◌/◌, ◌%◌, ◌≤◌, ◌<◌, ◌^◌, ◌≡◌, refl, ap, ◌∙◌, some, [], ◌∷◌, ◌++◌, arith, length,
  length-append, length-take-le, take-append-drop, take-append_length, drop-append_length, Bytes,
}
use mizu_navigator.Transport.{
  max_frame_bytes, frame, to_le_bytes, write_frame, read_body, read_frame,
}

le_bytes_value :
    (n : ℕ)
    → n < 2 ^ 32
    → n % 256 + 256 * (n / 256 % 256 + 256 * (n / 65536 % 256 + 256 * (n / 16777216 % 256))) ≡ n
le_bytes_value n h = omega arith

read_body-append :
    (body rest : Bytes)
    → length body ≤ max_frame_bytes
    → read_body (length body) (body ++ rest) ≡ frame body rest
unfolding read_body
read_body-append body rest h =
    ground
      (arith, length-append body rest, take-append_length body rest, drop-append_length body rest)

written :
    (body rest : Bytes)
    → length body ≤ max_frame_bytes
    → read_frame ((to_le_bytes (length body) ++ body) ++ rest) ≡ frame body rest
unfolding read_frame to_le_bytes
written body rest h =
    ap (λ n. read_body n (body ++ rest)) (le_bytes_value (length body) (omega (arith, h)))
    ∙ read_body-append body rest h

-- A frame that is written is read back whole, and the stream is left at what follows it.
pub read_frame-write_frame :
    (body rest sent : Bytes)
    → write_frame body ≡ some sent
    → read_frame (sent ++ rest) ≡ frame body rest
unfolding write_frame
read_frame-write_frame body rest sent h = ground (arith, written body rest, h)

read_body_sound :
    (len : ℕ) (stream body rest : Bytes)
    → read_body len stream ≡ frame body rest
    → (length body ≤ max_frame_bytes) × (stream ≡ body ++ rest)
unfolding read_body
read_body_sound len stream body rest h =
    ground (arith, length-take-le len stream, take-append-drop len stream)

-- Whatever bytes arrive, a body that is read is within the limit and is what follows the four bytes
-- of the header, up to what is left of the stream.
pub read_frame_sound :
    (stream body rest : Bytes)
    → read_frame stream ≡ frame body rest
    → (header : Bytes) × (length header ≡ 4)
      × (length body ≤ max_frame_bytes)
      × (stream ≡ header ++ (body ++ rest))
unfolding read_frame
read_frame_sound [] body rest h = ground arith
read_frame_sound (a ∷ []) body rest h = ground arith
read_frame_sound (a ∷ b ∷ []) body rest h = ground arith
read_frame_sound (a ∷ b ∷ c ∷ []) body rest h = ground arith
read_frame_sound (a ∷ b ∷ c ∷ d ∷ stream) body rest h =
    let (p, q) = read_body_sound (a + 256 * (b + 256 * (c + 256 * d))) stream body rest h in
    (a ∷ b ∷ c ∷ d ∷ [], refl, p, ap (λ l. a ∷ b ∷ c ∷ d ∷ l) q)
