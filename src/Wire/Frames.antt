-- ===== src/Wire/Frames.antt =====
-- What the codec of request_response_codec.rs reads back from what it has written, and what it
-- makes of a frame that was cut short.
use beemesh.Prelude.{
  ℕ, zero, suc, ◌+◌, ◌-◌, ◌*◌, ◌/◌, ◌%◌, ◌^◌, ◌≤◌, ◌<◌, ◌≡◌, ◌≢◌, refl, sym, ap, none, some, [],
  ◌∷◌, ◌++◌, ok, err, Bytes, length, length-append, length-take, length-take-le, take, drop, arith,
}
use beemesh.Wire.{
  be32, be64, from_be, split_at, unexpected_eof, or_eof, read_exact, read_request, read_response,
  write_request, write_response,
}
use mathlib.Core.List.{append_assoc}
use native.Mathlib.Decide.{dec_lt}
use native.Mathlib.Nat.{zero-add}

pub from_be-be32 : (n : ℕ) → n < 2 ^ 32 → from_be 0 (be32 n) ≡ n
unfolding from_be be32
from_be-be32 n h = omega arith

from_be-append : (acc : ℕ) (xs ys : Bytes) → from_be acc (xs ++ ys) ≡ from_be (from_be acc xs) ys
unfolding from_be
from_be-append acc [] ys = refl
from_be-append acc (x ∷ xs) ys = from_be-append (acc * 256 + x) xs ys

from_be-be32_low : (acc n : ℕ) → from_be acc (be32 n) ≡ acc * 2 ^ 32 + n % 2 ^ 32
unfolding from_be be32
from_be-be32_low acc n = omega arith

pub from_be-be64 : (n : ℕ) → n < 2 ^ 64 → from_be 0 (be64 n) ≡ n
unfolding be64
from_be-be64 n h =
    rw (from_be-append 0 (be32 (n / 2 ^ 32)) (be32 n))
      (rw (from_be-be32 (n / 2 ^ 32) (omega arith), from_be-be32_low (n / 2 ^ 32) n) (omega arith))

pub length-be32 : (n : ℕ) → length (be32 n) ≡ 4
unfolding be32
length-be32 n = refl

pub length-be64 : (n : ℕ) → length (be64 n) ≡ 8
unfolding be64 be32
length-be64 n = refl

take-append : (xs ys : Bytes) → take (length xs) (xs ++ ys) ≡ xs
take-append [] ys = refl
take-append (x ∷ xs) ys = ap (λ t. x ∷ t) (take-append xs ys)

drop-append : (xs ys : Bytes) → drop (length xs) (xs ++ ys) ≡ ys
drop-append [] ys = refl
drop-append (x ∷ xs) ys = drop-append xs ys

-- a part that is all there is read whole, and leaves the rest
pub split_at-append :
    (n : ℕ) (xs ys : Bytes) → length xs ≡ n → split_at n (xs ++ ys) ≡ some (xs, ys)
unfolding split_at
split_at-append n xs ys h =
    rw (← h) (ground (arith, take-append xs ys, drop-append xs ys, length-append xs ys))

pub split_at_short : (n : ℕ) (bytes : Bytes) → length bytes < n → split_at n bytes ≡ none
unfolding split_at
split_at_short n bytes h = ground arith

read_exact-append : (n : ℕ) (xs ys : Bytes) → length xs ≡ n → read_exact n (xs ++ ys) ≡ ok (xs, ys)
unfolding read_exact
read_exact-append n xs ys h = rw (split_at-append n xs ys h, or_eof) refl

read_exact_short :
    (n : ℕ) (bytes : Bytes) → length bytes < n → read_exact n bytes ≡ err unexpected_eof
unfolding read_exact
read_exact_short n bytes h = rw (split_at_short n bytes h, or_eof) refl

read_exact_split :
    (n : ℕ) (bytes : Bytes)
    → n ≤ length bytes
    → read_exact n bytes ≡ ok (take n bytes, drop n bytes)
unfolding read_exact or_eof split_at
read_exact_split n bytes h = ground arith

-- A frame whose length field is `len`.
read_framed :
    (len : ℕ) (body : Bytes) → len < 2 ^ 32 → read_request (be32 len ++ body) ≡ read_exact len body
unfolding read_request
read_framed len body h =
    rw (read_exact-append 4 (be32 len) body (length-be32 len), from_be-be32 len h) refl

-- The two directions of the protocol have the same frames.
read_response-eq : (io : Bytes) → read_response io ≡ read_request io
unfolding read_response read_request
read_response-eq io = refl

write_response-eq : (res : Bytes) → write_response res ≡ write_request res
unfolding write_response write_request
write_response-eq res = refl

request_round_trip :
    (req rest : Bytes)
    → length req < 2 ^ 32
    → read_request (write_request req ++ rest) ≡ ok (req, rest)
unfolding write_request
request_round_trip req rest h =
    let len : length req % 2 ^ 32 ≡ length req = omega arith in
    rw (len, append_assoc (be32 (length req)) req rest, read_framed (length req) (req ++ rest) h)
      (read_exact-append (length req) req rest refl)

-- Either direction: a message of less than 2^32 bytes is read back as it was written, and what
-- follows its frame on the stream is left there.
pub read_request-write_request :
    (message rest : Bytes)
    → length message < 2 ^ 32
    → (read_request (write_request message ++ rest) ≡ ok (message, rest))
      × (read_response (write_response message ++ rest) ≡ ok (message, rest))
read_request-write_request message rest h = (
  request_round_trip message rest h,
  rw (write_response-eq message, read_response-eq (write_request message ++ rest))
      (request_round_trip message rest h),
)

length-write_request : (req : Bytes) → length (write_request req) ≡ 4 + length req
unfolding write_request be32
length-write_request req = omega arith

take-append_beyond :
    (n k : ℕ) (xs ys : Bytes) → length xs ≡ k → take (k + n) (xs ++ ys) ≡ xs ++ take n ys
take-append_beyond n k [] ys h = let e : k ≡ 0 = sym h in rw e (rw (zero-add n) refl)
take-append_beyond n zero (x ∷ xs) ys h = absurd (omega arith)
take-append_beyond n (suc k) (x ∷ xs) ys h =
    let e : suc k + n ≡ suc (k + n) = omega arith in
    rw e (ap (λ t. x ∷ t) (take-append_beyond n k xs ys (omega arith)))

-- the part after the length field is cut
body_cut :
    (m : ℕ) (req : Bytes)
    → length req < 2 ^ 32
    → m < length req
    → read_request (take (4 + m) (write_request req)) ≡ err unexpected_eof
unfolding write_request
body_cut m req small cut =
    let len : length req % 2 ^ 32 ≡ length req = omega arith in
    rw (len, take-append_beyond m 4 (be32 (length req)) req (length-be32 (length req)))
      (rw (read_framed (length req) (take m req) small)
        (read_exact_short (length req) (take m req) (omega (arith, length-take-le m req))))

take-append-drop : (n : ℕ) (xs : Bytes) → take n xs ++ drop n xs ≡ xs
take-append-drop zero xs = refl
take-append-drop (suc n) [] = refl
take-append-drop (suc n) (x ∷ xs) = ap (λ t. x ∷ t) (take-append-drop n xs)

request_cut :
    (n : ℕ) (req : Bytes)
    → length req < 2 ^ 32
    → n < 4 + length req
    → read_request (take n (write_request req)) ≡ err unexpected_eof
request_cut n req small cut = elim (dec_lt n 4) [
  | yes h ↦
      unfold read_request in
      rw
        (read_exact_short 4 (take n (write_request req))
          (omega (arith, length-take-le n (write_request req))))
        refl
  | no h ↦
      let split : n ≡ 4 + (n - 4) = omega arith in
      rw split (body_cut (n - 4) req small (omega arith))
]

-- Either direction: a frame that ends before its last byte is refused as such, wherever it ends.
pub read_request_cut :
    (n : ℕ) (message : Bytes)
    → length message < 2 ^ 32
    → n < 4 + length message
    → (read_request (take n (write_request message)) ≡ err unexpected_eof)
      × (read_response (take n (write_response message)) ≡ err unexpected_eof)
read_request_cut n message small cut = (
  request_cut n message small cut,
  rw (write_response-eq message, read_response-eq (take n (write_request message)))
      (request_cut n message small cut),
)

-- A message of 2^32 bytes or more is not read back: the reader gets only as many bytes of it as its
-- length leaves modulo 2^32, and takes the others for what follows the frame.
pub write_request_wraps :
    (message : Bytes)
    → 2 ^ 32 ≤ length message
    → (kept : Bytes) × (left : Bytes) × (read_request (write_request message) ≡ ok (kept, left))
      × (length kept ≡ length message % 2 ^ 32)
      × (kept ++ left ≡ message)
      × (kept ≢ message)
unfolding write_request
write_request_wraps message h = (
  take (length message % 2 ^ 32) message,
  drop (length message % 2 ^ 32) message,
  rw (read_framed (length message % 2 ^ 32) message (omega arith))
      (read_exact_split (length message % 2 ^ 32) message (omega arith)),
  length-take (length message % 2 ^ 32) message (omega arith),
  take-append-drop (length message % 2 ^ 32) message,
  λ same.
      absurd (
        omega (arith, ap length same, length-take (length message % 2 ^ 32) message (omega arith))),
)
