-- ===== src/Provider/Announcements/RoundTrip.antt =====
-- What announcements.rs reads back from the bytes of an announcement.
use beemesh.Prelude.{
  ℕ, ◌*◌, ◌/◌, ◌%◌, ◌^◌, ◌≤◌, ◌<◌, ◌≡◌, refl, ap, String, Option, none, some, [], ◌∷◌, ◌++◌, ok,
  err, Bytes, length, arith,
}
use beemesh.HashMap.{HashMap}
use beemesh.Wire.{be32, be64, from_be}
use beemesh.Wire.Frames.{from_be-be32, from_be-be64, length-be32, length-be64, split_at-append}
use beemesh.Provider.{second}
use beemesh.Provider.Announcements.{
  ProviderAnnouncement, Formats, Part, prefixed, signature_bytes, to_bytes, read_number,
  read_prefixed, from_epoch, read_flagged, read_signature, from_bytes, peer_id_part,
  manifest_id_part, timestamp_part, ttl_part, metadata_part, flag_part, signature_part, panics,
}
use mathlib.Core.List.{append_assoc}

-- what is there satisfies `P`
abbrev pub AllSome : (Bytes → Type 0) → Option Bytes → Type 0
AllSome P none = Unit
AllSome P (some s) = P s

read_number-be32 :
    (part : Part) (n : ℕ) (rest : Bytes)
    → n < 2 ^ 32
    → read_number part 4 (be32 n ++ rest) ≡ ok (n, rest)
unfolding read_number
read_number-be32 part n rest h =
    rw (split_at-append 4 (be32 n) rest (length-be32 n)) (rw (from_be-be32 n h) refl)

pub read_number-be64 :
    (part : Part) (n : ℕ) (rest : Bytes)
    → n < 2 ^ 64
    → read_number part 8 (be64 n ++ rest) ≡ ok (n, rest)
unfolding read_number
read_number-be64 part n rest h =
    rw (split_at-append 8 (be64 n) rest (length-be64 n)) (rw (from_be-be64 n h) refl)

read_number-byte :
    (part : Part) (b : ℕ) (rest : Bytes) → read_number part 1 (b ∷ rest) ≡ ok (b, rest)
unfolding read_number
read_number-byte part b rest =
    rw (split_at-append 1 (b ∷ []) rest refl)
      (unfold from_be in ap (λ (n : ℕ). ok (n, rest)) (omega arith))

pub read_prefixed-prefixed :
    (part : Part) (bytes rest : Bytes)
    → length bytes < 2 ^ 32
    → read_prefixed part (prefixed bytes ++ rest) ≡ ok (bytes, rest)
unfolding read_prefixed prefixed
read_prefixed-prefixed part bytes rest h =
    let len : length bytes % 2 ^ 32 ≡ length bytes = omega arith in
    rw
      (
        len,
        append_assoc (be32 (length bytes)) bytes rest,
        read_number-be32 part (length bytes) (bytes ++ rest) h,
        split_at-append (length bytes) bytes rest refl,
      )
      refl

read_signature-signature_bytes :
    (signature : Option Bytes) (rest : Bytes)
    → AllSome (λ s. length s < 2 ^ 32) signature
    → read_signature (signature_bytes signature ++ rest) ≡ ok signature
unfolding signature_bytes read_signature read_flagged
read_signature-signature_bytes none rest h = rw (read_number-byte flag_part 0 rest) refl
read_signature-signature_bytes (some s) rest h =
    rw (read_number-byte flag_part 1 (prefixed s ++ rest))
      (rw (read_prefixed-prefixed signature_part s rest h) refl)

pub from_epoch_lem : (secs : ℕ) → secs < 2 ^ 63 → from_epoch secs ≡ ok (secs * second)
unfolding from_epoch
from_epoch_lem secs h = ground arith

from_epoch_beyond : (secs : ℕ) → 2 ^ 63 ≤ secs → from_epoch secs ≡ err panics
unfolding from_epoch
from_epoch_beyond secs h = ground arith

-- the six parts of an announcement and what follows, bracketed to the right
regroup :
    (a b c d e f rest : Bytes)
    → (a ++ (b ++ (c ++ (d ++ (e ++ f))))) ++ rest ≡ a ++ (b ++ (c ++ (d ++ (e ++ (f ++ rest)))))
regroup a b c d e f rest = simp append_assoc

-- What the libraries do with an announcement's own values, and that its parts have lengths and
-- numbers that their fields hold. `json` is what the metadata are written as, and `metadata` is
-- what they are read back as.
pub record IsReadable (fmt : Formats) (a : ProviderAnnouncement) (json : String)
    (metadata : HashMap String) : Type 0 where
  pub peer_id_back : fmt.peer_id_of (fmt.peer_id_bytes a.peer_id) ≡ some a.peer_id
  pub manifest_id_back : fmt.from_utf8 (fmt.as_bytes a.manifest_id) ≡ some a.manifest_id
  pub written : fmt.to_json a.metadata ≡ some json
  pub json_back : fmt.from_utf8 (fmt.as_bytes json) ≡ some json
  pub read : fmt.from_json json ≡ some metadata
  pub peer_id_fits : length (fmt.peer_id_bytes a.peer_id) < 2 ^ 32
  pub manifest_id_fits : length (fmt.as_bytes a.manifest_id) < 2 ^ 32
  pub json_fits : length (fmt.as_bytes json) < 2 ^ 32
  pub signature_fits : AllSome (λ s. length s < 2 ^ 32) a.signature
  pub timestamp_fits : a.timestamp / second < 2 ^ 63
  pub ttl_fits : a.ttl_seconds < 2 ^ 64

-- An announcement whose bytes another node reads comes out as it was sent, with its timestamp cut
-- to whole seconds; what follows it is ignored.
pub from_bytes-to_bytes :
    (fmt : Formats) (a : ProviderAnnouncement) (json : String) (metadata : HashMap String)
    (rest : Bytes)
    → IsReadable fmt a json metadata
    → from_bytes fmt (to_bytes fmt a ++ rest)
      ≡ ok (record a { timestamp = a.timestamp / second * second; metadata = metadata })
unfolding from_bytes to_bytes
from_bytes-to_bytes fmt a json metadata rest h =
    let peer = fmt.peer_id_bytes a.peer_id in
    let id = fmt.as_bytes a.manifest_id in
    let t = a.timestamp / second in
    let sig = signature_bytes a.signature in
    let r5 = prefixed (fmt.as_bytes json) ++ (sig ++ rest) in
    let r4 = be64 a.ttl_seconds ++ r5 in
    let r3 = be64 t ++ r4 in
    let r2 = prefixed id ++ r3 in
    rw (h.written) (
      rw
        (regroup (prefixed peer) (prefixed id) (be64 t) (be64 a.ttl_seconds)
          (prefixed (fmt.as_bytes json)) sig rest)
        (rw (read_prefixed-prefixed peer_id_part peer r2 h.peer_id_fits, h.peer_id_back)
          (rw (read_prefixed-prefixed manifest_id_part id r3 h.manifest_id_fits, h.manifest_id_back)
            (rw
              (
                read_number-be64 timestamp_part t r4 (omega arith),
                from_epoch_lem t h.timestamp_fits,
              )
              (rw
                (
                  read_number-be64 ttl_part a.ttl_seconds r5 h.ttl_fits,
                  read_prefixed-prefixed metadata_part (fmt.as_bytes json) (sig ++ rest)
                      h.json_fits,
                  h.json_back,
                  h.read,
                  read_signature-signature_bytes a.signature rest h.signature_fits,
                )
                refl)))))

-- Bytes that start with a readable peer id and manifest id, and whose timestamp has 2^63 seconds or
-- more, make the reader panic, whatever follows: they are not refused with an error.
pub from_bytes_panics :
    (fmt : Formats) (peer id rest : Bytes) (t : ℕ) (peer_id manifest_id : String)
    → length peer < 2 ^ 32
    → length id < 2 ^ 32
    → fmt.peer_id_of peer ≡ some peer_id
    → fmt.from_utf8 id ≡ some manifest_id
    → 2 ^ 63 ≤ t
    → t < 2 ^ 64
    → from_bytes fmt (prefixed peer ++ (prefixed id ++ (be64 t ++ rest))) ≡ err panics
unfolding from_bytes
from_bytes_panics fmt peer id rest t peer_id manifest_id hp hi peer_back id_back low high =
    rw (read_prefixed-prefixed peer_id_part peer (prefixed id ++ (be64 t ++ rest)) hp, peer_back)
      (rw (read_prefixed-prefixed manifest_id_part id (be64 t ++ rest) hi, id_back)
        (rw (read_number-be64 timestamp_part t rest high, from_epoch_beyond t low) refl))
