-- ===== src/Wire.antt =====
-- Bytes on the wire: the length-prefixed codec of
-- machineplane/machine/src/libp2p_beemesh/request_response_codec.rs, and the big-endian numbers
-- that it and machineplane/machine/src/provider/announcements.rs write. A stream is the list of
-- the bytes that are still to come; a connection's end is the list's.
pub mod Frames
mod Tests
use beemesh.Prelude.{
  ℕ, zero, suc, ◌+◌, ◌*◌, ◌/◌, ◌%◌, ◌^◌, Option, none, some, List, [], ◌∷◌, ◌++◌, Result, ok, err,
  ◌>>=◌, Bytes, length, take, drop, ltb, if◌then◌else◌,
}

-- `u32::to_be_bytes` and `u64::to_be_bytes`
unfoldable pub be32 : ℕ → Bytes
be32 n = (n / 2 ^ 24 % 256) ∷ (n / 2 ^ 16 % 256) ∷ (n / 2 ^ 8 % 256) ∷ (n % 256) ∷ []

unfoldable pub be64 : ℕ → Bytes
unfolding be32
be64 n = be32 (n / 2 ^ 32) ++ be32 n

-- `from_be_bytes`, of either width
unfoldable pub from_be : ℕ → Bytes → ℕ
from_be acc [] = acc
from_be acc (b ∷ bs) = from_be (acc * 256 + b) bs

-- the first `n` bytes and the others; `none` where there are fewer
unfoldable pub split_at : ℕ → Bytes → Option (Bytes × Bytes)
split_at n bytes = if ltb (length bytes) n then none else some (take n bytes, drop n bytes)

pub data IoError : Type 0 where
  unexpected_eof : IoError

pub or_eof : Option (Bytes × Bytes) → Result (Bytes × Bytes) IoError
or_eof none = err unexpected_eof
or_eof (some s) = ok s

-- `AsyncReadExt::read_exact` into a buffer of `n` bytes: what was read, and what is still to come
pub read_exact : ℕ → Bytes → Result (Bytes × Bytes) IoError
unfolding or_eof split_at
read_exact n io = or_eof (split_at n io)

unfoldable pub read_request : Bytes → Result (Bytes × Bytes) IoError
unfolding read_exact from_be
read_request io = do (len_buf, io) ← read_exact 4 io; let len = from_be 0 len_buf; read_exact len io

unfoldable pub read_response : Bytes → Result (Bytes × Bytes) IoError
unfolding read_exact from_be
read_response io = do
  (len_buf, io) ← read_exact 4 io
  let len = from_be 0 len_buf
  read_exact len io

-- What is written to the stream. The length is cast to 32 bits.
unfoldable pub write_request : Bytes → Bytes
unfolding be32
write_request req = be32 (length req % 2 ^ 32) ++ req

unfoldable pub write_response : Bytes → Bytes
unfolding be32
write_response res = be32 (length res % 2 ^ 32) ++ res
