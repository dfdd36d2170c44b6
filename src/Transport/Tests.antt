-- ===== src/Transport/Tests.antt =====
-- Frames of a few bytes, and the theorem there.
use mizu_navigator.Prelude.{◌≡◌, ◌≤◌, Bytes, length, refl, some, ◌∷◌, ◌++◌, codes}
use mizu_navigator.Transport.{
  frame, failed, worker_died, frame_too_large, write_frame, read_frame, max_frame_bytes, read_body,
  to_le_bytes,
}
use mizu_navigator.Transport.Roundtrip.{read_frame-write_frame, read_frame_sound}

sent : write_frame (codes "ab") ≡ some (2 ∷ 0 ∷ 0 ∷ 0 ∷ codes "ab")
unfolding write_frame to_le_bytes
sent = refl

cut_short : read_frame (2 ∷ 0 ∷ 0 ∷ 0 ∷ codes "a") ≡ failed worker_died
unfolding read_frame read_body
cut_short = refl

oversized : read_frame (1 ∷ 0 ∷ 0 ∷ 4 ∷ codes "a") ≡ failed frame_too_large
unfolding read_frame read_body
oversized = refl

read_frame-write_frame_example :
    read_frame ((2 ∷ 0 ∷ 0 ∷ 0 ∷ codes "ab") ++ codes "rest") ≡ frame (codes "ab") (codes "rest")
read_frame-write_frame_example =
    read_frame-write_frame (codes "ab") (codes "rest") (2 ∷ 0 ∷ 0 ∷ 0 ∷ codes "ab") sent

received : read_frame (2 ∷ 0 ∷ 0 ∷ 0 ∷ codes "abc") ≡ frame (codes "ab") (codes "c")
unfolding read_frame read_body
received = refl

read_frame_sound_example :
    (header : Bytes) × (length header ≡ 4)
    × (length (codes "ab") ≤ max_frame_bytes)
    × ((2 ∷ 0 ∷ 0 ∷ 0 ∷ codes "abc") ≡ header ++ (codes "ab" ++ codes "c"))
read_frame_sound_example =
    read_frame_sound (2 ∷ 0 ∷ 0 ∷ 0 ∷ codes "abc") (codes "ab") (codes "c") received
