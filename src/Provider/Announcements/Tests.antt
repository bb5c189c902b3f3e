-- ===== src/Provider/Announcements/Tests.antt =====
-- Runs of announcements.rs, and its theorems at them.
use beemesh.Prelude.{
  ◌+◌, ◌*◌, ◌^◌, ◌≡◌, refl, true, none, some, [], ◌∷◌, ◌++◌, ok, err, ◌==◌, str_eq, if◌then◌else◌,
  length, arith,
}
use beemesh.Text.{join}
use beemesh.Wire.{be32, be64}
use beemesh.Provider.{second}
use beemesh.Provider.Announcements.{
  ProviderAnnouncement, Formats, panics, prefixed, signature_bytes, to_bytes, from_bytes,
  create_metadata, validate_announcement, announce_provider,
}
use beemesh.Provider.Announcements.RoundTrip.{IsReadable, from_bytes-to_bytes, from_bytes_panics}

-- one peer, one manifest, and empty metadata
abbrev toy_formats : Formats
toy_formats = record {
  peer_id_bytes = λ p. 7 ∷ 8 ∷ [];
  peer_id_of = λ b. if length b == 2 then some "peer" else none;
  as_bytes = λ s. if str_eq s "m1" then 109 ∷ 49 ∷ [] else 123 ∷ 125 ∷ [];
  from_utf8 = λ b. elim b [ [] ↦ none | c ∷ _ ↦ some (if c == 109 then "m1" else "{}") ];
  to_json = λ m. some "{}";
  from_json = λ s. if str_eq s "{}" then some [] else none;
}

abbrev announcement : ProviderAnnouncement
announcement = record {
  peer_id = "peer";
  manifest_id = "m1";
  timestamp = 1_700_000_000 * second + 5;
  ttl_seconds = 3600;
  metadata = [];
  signature = some (1 ∷ 2 ∷ 3 ∷ []);
}

announcement-IsReadable : IsReadable toy_formats announcement "{}" []
announcement-IsReadable = record {
  peer_id_back = refl;
  manifest_id_back = refl;
  written = refl;
  json_back = refl;
  read = refl;
  peer_id_fits = omega arith;
  manifest_id_fits = omega arith;
  json_fits = omega arith;
  signature_fits = omega arith;
  timestamp_fits = omega arith;
  ttl_fits = omega arith;
}

from_bytes-to_bytes_example :
    from_bytes toy_formats (to_bytes toy_formats announcement ++ 9 ∷ [])
    ≡ ok (record announcement { timestamp = 1_700_000_000 * second; metadata = [] })
from_bytes-to_bytes_example =
    from_bytes-to_bytes toy_formats announcement "{}" [] (9 ∷ []) announcement-IsReadable

from_bytes_panics_example :
    from_bytes toy_formats
      (prefixed (7 ∷ 8 ∷ []) ++ (prefixed (109 ∷ 49 ∷ []) ++ (be64 (2 ^ 63) ++ [])))
    ≡ err panics
from_bytes_panics_example =
    from_bytes_panics toy_formats (7 ∷ 8 ∷ []) (109 ∷ 49 ∷ []) [] (2 ^ 63) "peer" "m1" (omega arith)
      (omega arith) refl refl (omega arith) (omega arith)

metadata_run :
    create_metadata
      (5 * second)
      ("docker" ∷ "gpu" ∷ [])
      (some (("cpu", "4") ∷ []))
      (("zone", "a") ∷ ("announced_at", "never") ∷ [])
    ≡ ("capabilities", "docker,gpu")
      ∷ ("resource.cpu", "4")
      ∷ ("zone", "a")
      ∷ ("announced_at", "5")
      ∷ []
unfolding create_metadata join
metadata_run = refl

-- with no signature, the last byte of the announcement is its flag
unsigned_run : length (to_bytes toy_formats (record announcement { signature = none })) ≡ 35
unfolding to_bytes prefixed be32 be64 signature_bytes
unsigned_run = refl

validated_run : validate_announcement (1_700_003_601 * second) announcement ≡ true
unfolding validate_announcement
validated_run = refl

-- a failed store starts nothing
failed_run : length (announce_provider toy_formats 0 (err "full") (ok tt) "peer" "m1" 60 []).0 ≡ 1
unfolding announce_provider
failed_run = refl
