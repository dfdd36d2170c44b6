-- ===== src/Transport.antt =====
-- crates/ipc/src/transport/frame.rs: frames on the socket between the processes. A stream is the list
-- of the bytes that will still arrive before its end; what a writer is given is appended to it. Errors
-- of the operating system other than the end of the stream are not modelled.
pub mod Roundtrip
mod Tests
use mizu_navigator.Prelude.{
  ℕ, ◌+◌, ◌*◌, ◌/◌, ◌%◌, Option, none, some, List, [], ◌∷◌, ◌++◌, length, take, drop, ltb, leb,
  if◌then◌else◌, Bytes,
}

abbrev pub max_frame_bytes : ℕ
max_frame_bytes = 64 * 1024 * 1024

pub data IpcError : Type 0 where
  frame_too_large worker_died : IpcError

pub data Read : Type 0 where
  frame : Bytes → Bytes → Read
  failed : IpcError → Read

-- `u32::to_le_bytes`
unfoldable pub to_le_bytes : ℕ → Bytes
to_le_bytes n = n % 256 ∷ n / 256 % 256 ∷ n / 65536 % 256 ∷ n / 16777216 % 256 ∷ []

-- The bytes that `write_frame` hands to the writer, or `FrameTooLarge`
unfoldable pub write_frame : Bytes → Option Bytes
write_frame body =
    if leb (length body) max_frame_bytes then some (to_le_bytes (length body) ++ body) else none

-- The body after a header; the length is tested before anything is read.
unfoldable pub read_body : ℕ → Bytes → Read
read_body len stream =
    if ltb max_frame_bytes len
    then failed frame_too_large
    else if ltb (length stream) len
    then failed worker_died
    else frame (take len stream) (drop len stream)

-- `read_frame`: the body and what is left of the stream
unfoldable pub read_frame : Bytes → Read
read_frame (a ∷ b ∷ c ∷ d ∷ stream) = read_body (a + 256 * (b + 256 * (c + 256 * d))) stream
read_frame stream = failed worker_died
