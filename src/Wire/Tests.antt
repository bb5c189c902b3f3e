-- ===== src/Wire/Tests.antt =====
-- Runs of the codec, and its theorems at them.
use beemesh.Prelude.{
  ℕ, ◌+◌, ◌^◌, ◌≢◌, ◌%◌, ◌≡◌, refl, ok, err, [], ◌∷◌, ◌++◌, Bytes, take, length, arith, zero, suc,
  ap,
}
use beemesh.Wire.{
  unexpected_eof, read_request, read_response, write_request, write_response, be64, from_be,
}
use beemesh.Wire.Frames.{read_request-write_request, read_request_cut, write_request_wraps}

abbrev message : Bytes
message = 1 ∷ 2 ∷ 3 ∷ []

frame_run : write_request message ≡ 0 ∷ 0 ∷ 0 ∷ 3 ∷ 1 ∷ 2 ∷ 3 ∷ []
unfolding write_request
frame_run = refl

be64_run : from_be 0 (be64 1_234_567_890_123) ≡ 1_234_567_890_123
unfolding from_be be64
be64_run = refl

read_request-write_request_example :
    (read_request (write_request message ++ 9 ∷ []) ≡ ok (message, 9 ∷ []))
    × (read_response (write_response message ++ 9 ∷ []) ≡ ok (message, 9 ∷ []))
read_request-write_request_example = read_request-write_request message (9 ∷ []) (omega arith)

read_request_cut_example :
    (read_request (take 6 (write_request message)) ≡ err unexpected_eof)
    × (read_response (take 6 (write_response message)) ≡ err unexpected_eof)
read_request_cut_example = read_request_cut 6 message (omega arith) (omega arith)

-- a message too long for its length field; never computed
zeros : ℕ → Bytes
zeros zero = []
zeros (suc n) = 0 ∷ zeros n

length-zeros : (n : ℕ) → length (zeros n) ≡ n
unfolding zeros
length-zeros zero = refl
length-zeros (suc n) = ap suc (length-zeros n)

write_request_wraps_example :
    (kept : Bytes) × (left : Bytes) × (read_request (write_request (zeros (2 ^ 32 + 1)))
      ≡ ok (kept, left))
    × (length kept ≡ length (zeros (2 ^ 32 + 1)) % 2 ^ 32)
    × (kept ++ left ≡ zeros (2 ^ 32 + 1))
    × (kept ≢ zeros (2 ^ 32 + 1))
write_request_wraps_example =
    write_request_wraps (zeros (2 ^ 32 + 1)) (omega (arith, length-zeros (2 ^ 32 + 1)))
