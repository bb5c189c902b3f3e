-- ===== src/Provider/Announcements.antt =====
-- machineplane/machine/src/provider/announcements.rs: the announcement that a node stores in the
-- DHT, its bytes, and the calls that store it. Peer ids, UTF-8 and JSON are the parameter `Formats`.
-- A rest of the bytes stands for the code's offset into them.
pub mod RoundTrip
mod Tests
use Prim.Native.String.{◌++◌ as append}
use beemesh.Prelude.{
  ℕ, ◌+◌, ◌-◌, ◌*◌, ◌/◌, ◌%◌, ◌^◌, String, Bool, true, false, not, Option, none, some, List, [],
  ◌∷◌, ◌++◌, Result, ok, err, ◌>>=◌, ◌>>◌, Bytes, leb, ltb, ◌==◌, str_eq, if◌then◌else◌, unwrap_or,
  length, is_empty,
}
use beemesh.HashMap.{HashMap, insert}
use beemesh.Text.{join, to_decimal}
use beemesh.Wire.{be32, be64, from_be, split_at}
use beemesh.Provider.{PeerId, ProviderError, ProviderResult, dht_error, second}

pub record ProviderAnnouncement : Type 0 where
  pub peer_id : PeerId
  pub manifest_id : String
  pub timestamp : ℕ
  pub ttl_seconds : ℕ
  pub metadata : HashMap String
  pub signature : Option Bytes

pub record Formats : Type 0 where
  -- `PeerId::to_bytes` and `PeerId::from_bytes`
  pub peer_id_bytes : PeerId → Bytes
  pub peer_id_of : Bytes → Option PeerId
  -- `str::as_bytes` and `String::from_utf8`
  pub as_bytes : String → Bytes
  pub from_utf8 : Bytes → Option String
  -- `serde_json::to_string` and `serde_json::from_str`
  pub to_json : HashMap String → Option String
  pub from_json : String → Option (HashMap String)

unfoldable pub new :
    (now : ℕ)
    → PeerId
    → (manifest_id : String) → (ttl_seconds : ℕ) → HashMap String
    → ProviderAnnouncement
new now peer_id manifest_id ttl_seconds metadata = record {
  peer_id = peer_id;
  manifest_id = manifest_id;
  timestamp = now;
  ttl_seconds = ttl_seconds;
  metadata = metadata;
  signature = none;
}

unfoldable pub new_signed :
    (now : ℕ)
    → PeerId
    → (manifest_id : String) → (ttl_seconds : ℕ) → HashMap String
    → Bytes
    → ProviderAnnouncement
new_signed now peer_id manifest_id ttl_seconds metadata signature = record {
  peer_id = peer_id;
  manifest_id = manifest_id;
  timestamp = now;
  ttl_seconds = ttl_seconds;
  metadata = metadata;
  signature = some signature;
}

unfoldable pub is_expired : (now : ℕ) → ProviderAnnouncement → Bool
is_expired now a =
    if leb a.timestamp now then ltb a.ttl_seconds ((now - a.timestamp) / second) else true

unfoldable pub get_dht_key : ProviderAnnouncement → String
get_dht_key a = append "provider:" a.manifest_id

-- a part after its length, which is cast to 32 bits
unfoldable pub prefixed : Bytes → Bytes
prefixed part = be32 (length part % 2 ^ 32) ++ part

unfoldable pub signature_bytes : Option Bytes → Bytes
signature_bytes none = 0 ∷ []
signature_bytes (some signature) = 1 ∷ prefixed signature

unfoldable pub to_bytes : Formats → ProviderAnnouncement → Bytes
to_bytes fmt a =
    prefixed (fmt.peer_id_bytes a.peer_id)
    ++ (prefixed (fmt.as_bytes a.manifest_id)
        ++ (be64 (a.timestamp / second)
            ++ (be64 a.ttl_seconds
                ++ (prefixed (fmt.as_bytes (unwrap_or (fmt.to_json a.metadata) ""))
                    ++ signature_bytes a.signature))))

pub data Part : Type 0 where
  peer_id_part manifest_id_part timestamp_part ttl_part metadata_part flag_part signature_part :
      Part

-- `panics`: the sum of the epoch and the seconds read does not fit a `SystemTime`, whose seconds
-- are an `i64`, and `+` panics
pub data FormatError : Type 0 where
  missing too_short : Part → FormatError
  invalid_peer_id invalid_utf8 invalid_json panics : FormatError

abbrev pub or_error {ℓ κ} : {A : Type ℓ} {E : Type κ} → E → Option A → Result A E
or_error e none = err e
or_error e (some a) = ok a

unfoldable pub read_number : Part → ℕ → Bytes → Result (ℕ × Bytes) FormatError
read_number part width bytes = do
  (number, rest) ← or_error (missing part) (split_at width bytes)
  ok (from_be 0 number, rest)

unfoldable pub read_prefixed : Part → Bytes → Result (Bytes × Bytes) FormatError
read_prefixed part bytes = do
  (len, rest) ← read_number part 4 bytes
  or_error (too_short part) (split_at len rest)

-- `UNIX_EPOCH + Duration::from_secs(secs)`
unfoldable pub from_epoch : ℕ → Result ℕ FormatError
from_epoch secs = if ltb secs (2 ^ 63) then ok (secs * second) else err panics

unfoldable pub read_flagged : Bool → Bytes → Result (Option Bytes) FormatError
read_flagged true bytes = do
  (signature, rest) ← read_prefixed signature_part bytes
  ok (some signature)
read_flagged false bytes = ok none

unfoldable pub read_signature : Bytes → Result (Option Bytes) FormatError
read_signature bytes = do
  (flag, bytes) ← read_number flag_part 1 bytes
  read_flagged (flag == 1) bytes

unfoldable pub from_bytes : Formats → Bytes → Result ProviderAnnouncement FormatError
from_bytes fmt bytes = do
  (peer_id_bytes, bytes) ← read_prefixed peer_id_part bytes
  peer_id ← or_error invalid_peer_id (fmt.peer_id_of peer_id_bytes)
  (manifest_id_bytes, bytes) ← read_prefixed manifest_id_part bytes
  manifest_id ← or_error invalid_utf8 (fmt.from_utf8 manifest_id_bytes)
  (timestamp_secs, bytes) ← read_number timestamp_part 8 bytes
  timestamp ← from_epoch timestamp_secs
  (ttl_seconds, bytes) ← read_number ttl_part 8 bytes
  (metadata_bytes, bytes) ← read_prefixed metadata_part bytes
  metadata_json ← or_error invalid_utf8 (fmt.from_utf8 metadata_bytes)
  metadata ← or_error invalid_json (fmt.from_json metadata_json)
  signature ← read_signature bytes
  ok (record {
    peer_id = peer_id;
    manifest_id = manifest_id;
    timestamp = timestamp;
    ttl_seconds = ttl_seconds;
    metadata = metadata;
    signature = signature;
  })

-- the calls of Kademlia, in their order
pub data DhtCall : Type 0 where
  put_record : (key : String) → (value : Bytes) → (publisher : PeerId) → DhtCall
  start_providing stop_providing : (key : String) → DhtCall

unfoldable pub provided : (start : Result (Unit {0}) String) → ProviderResult (Unit {0})
provided (ok _) = ok tt
provided (err e) = err (dht_error (append "Failed to start providing: " e))

-- `put` and `start` are the answers to the two calls
unfoldable pub announce_provider :
    Formats
    → (now : ℕ) → (put start : Result (Unit {0}) String) → (local_peer_id : PeerId)
    → (manifest_id : String) → (ttl_seconds : ℕ) → HashMap String
    → List DhtCall × ProviderResult (Unit {0})
unfolding new get_dht_key to_bytes provided
announce_provider fmt now put start local_peer_id manifest_id ttl_seconds metadata =
    let a = new now local_peer_id manifest_id ttl_seconds metadata in
    let stored = put_record (get_dht_key a) (to_bytes fmt a) local_peer_id in
    elim put [
      | err e ↦ (stored ∷ [], err (dht_error (append "Failed to put record: " e)))
      | ok _ ↦ (stored ∷ start_providing (get_dht_key a) ∷ [], provided start)
    ]

unfoldable pub stop_announcing : (manifest_id : String) → List DhtCall × ProviderResult (Unit {0})
stop_announcing manifest_id = (stop_providing (append "provider:" manifest_id) ∷ [], ok tt)

pub add_capabilities : List String → HashMap String → HashMap String
add_capabilities [] m = m
add_capabilities (c ∷ cs) m = insert "capabilities" (join "," (c ∷ cs)) m

pub add_resources : HashMap String → HashMap String → HashMap String
add_resources [] m = m
add_resources ((key, value) ∷ rest) m = add_resources rest (insert (append "resource." key) value m)

pub add_fields : HashMap String → HashMap String → HashMap String
add_fields [] m = m
add_fields ((key, value) ∷ rest) m = add_fields rest (insert key value m)

unfoldable pub create_metadata :
    (now : ℕ)
    → (node_capabilities : List String) → (resource_info : Option (HashMap String))
    → (custom_fields : HashMap String) → HashMap String
unfolding add_capabilities add_resources add_fields to_decimal
create_metadata now node_capabilities resource_info custom_fields =
    insert "announced_at" (to_decimal (now / second)) (
      add_fields custom_fields
        (add_resources (unwrap_or resource_info []) (add_capabilities node_capabilities [])))

unfoldable pub validate_announcement : (now : ℕ) → ProviderAnnouncement → Bool
unfolding is_expired
validate_announcement now a =
    if is_expired now a then false else if str_eq a.manifest_id "" then false else true
