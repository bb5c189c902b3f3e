-- ===== src/Node.antt =====
-- A node's handlers of the messages of other nodes: machineplane/machine/src/workload_integration.rs
-- and machineplane/machine/src/libp2p_beemesh/{security,utils,capacity,reply}.rs with the handlers
-- of its folder behaviour. The process-wide registry, provider manager, resource verifier, owner
-- map and nonce store are the record `Node`; what the engines keep outside is `W`. FlatBuffers,
-- base64, signatures, YAML (whose values are `Y`), UTF-8 and decryption are the parameter
-- `Libraries`.
pub mod Deployment
pub mod Removal
pub mod Apply
pub mod Delete
pub mod Bidding
pub mod Owners
pub mod Withdrawal
pub mod Sweep
pub mod Takeover
pub mod Bids
pub mod Requests
mod Tests
use beemesh.Prelude.{
  ℕ, ◌*◌, Bytes, String, Bool, true, false, Option, none, some, List, [], Result, ok, err,
  if◌then◌else◌,
}
use beemesh.HashMap.{HashMap, get, insert, remove}
use beemesh.Envelope.{
  EnvelopeTable, Primitives, NonceStore, EnvelopeError, VerifiedEnvelopeParts,
  verify_flatbuffer_envelope_for_peer,
}
use beemesh.Provider.{ProviderManager, second}
use beemesh.Resources.{ResourceVerifier}
use beemesh.Runtime.{RuntimeResult, RuntimeError, WorkloadInfo, DeploymentConfig}
use beemesh.Runtime.Registry.{RuntimeRegistry}

-- the FlatBuffers tables of the requests, as their accessors show them
pub record ApplyRequest : Type 0 where
  pub replicas : ℕ
  pub operation_id : Option String
  pub manifest_json : Option String
  pub manifest_id : Option String

pub record DeleteRequest : Type 0 where
  pub manifest_id : Option String
  pub operation_id : Option String
  pub force : Bool

pub record CapacityRequest : Type 0 where
  pub request_id : Option String
  pub cpu_milli : ℕ
  pub memory_bytes : ℕ
  pub storage_bytes : ℕ
  pub replicas : ℕ

pub record CapacityReplyTable : Type 0 where
  pub ok : Bool
  pub request_id : Option String
  pub kem_pubkey : Option String

pub record Libraries (Y : Type 0) : Type 0 where
  -- FlatBuffers' envelopes, base64 and ML-DSA-65
  pub prim : Primitives
  pub root_as_apply_request : Bytes → Option ApplyRequest
  pub root_as_delete_request : Bytes → Option DeleteRequest
  pub root_as_capacity_request : Bytes → Option CapacityRequest
  pub root_as_capacity_reply : Bytes → Option CapacityReplyTable
  -- `str::as_bytes`, `String::from_utf8` and `String::from_utf8_lossy`
  pub as_bytes : String → Bytes
  pub from_utf8 : Bytes → Option String
  pub from_utf8_lossy : Bytes → String
  -- `serde_yaml::from_str` and `serde_yaml::to_string`; `get`, and a write through `get_mut`;
  -- whether `as_mapping_mut` finds a mapping; the mapping's `insert`; `as_str`; the number 1
  pub from_yaml : String → Option Y
  pub to_yaml : Y → Option String
  pub field : String → Y → Option Y
  pub set_field : String → Y → Y → Y
  pub is_mapping : Y → Bool
  pub insert_key : String → Y → Y → Y
  pub as_str : Y → Option String
  pub one : Y
  -- `decrypt_payload_from_recipient_blob` with the node's KEM key, where both calls succeed
  pub decrypt : Bytes → Option Bytes

pub record Node (W : Type 0) : Type 0 where
  pub registry : Option (RuntimeRegistry W)
  pub provider_manager : Option ProviderManager
  pub verifier : ResourceVerifier
  pub owners : HashMap Bytes
  pub nonces : NonceStore
  pub host : W

-- what a handler reads of its surroundings: the clocks of the envelope's nonce check, of the
-- verifier and of the provider manager, and the DHT's answer to an announcement
pub record Moment : Type 0 where
  pub nonce_clock : ℕ
  pub instant : ℕ
  pub t_announced : ℕ
  pub t_seen : ℕ
  pub dht : Result (Unit {0}) String
  pub local_peer_id : String

module _ {W : Type 0} where
  unfoldable pub record_manifest_owner : (manifest_id : String) → Bytes → Node W → Node W
  record_manifest_owner manifest_id owner_pubkey n = record n {
    owners = insert manifest_id owner_pubkey n.owners;
  }

  unfoldable pub get_manifest_owner : (manifest_id : String) → Node W → Option Bytes
  get_manifest_owner manifest_id n = get manifest_id n.owners

  unfoldable pub remove_manifest_owner : (manifest_id : String) → Node W → Node W
  remove_manifest_owner manifest_id n = record n { owners = remove manifest_id n.owners }

-- `EnvelopeValidator::require_signed_messages`
unfoldable pub require_signed_messages : Bool
require_signed_messages = true

-- `verify_envelope_and_check_nonce_for_peer`: nonces count for 300 seconds
unfoldable pub verify_envelope_and_check_nonce_for_peer :
    Primitives
    → (now : ℕ) → NonceStore
    → Bytes
    → (peer_id : String) → NonceStore × Result VerifiedEnvelopeParts EnvelopeError
verify_envelope_and_check_nonce_for_peer prim now store envelope_bytes peer_id =
    verify_flatbuffer_envelope_for_peer prim now store envelope_bytes (300 * second) peer_id

unfoldable pub verify_envelope_and_check_nonce :
    Primitives
    → (now : ℕ) → NonceStore
    → Bytes
    → NonceStore × Result VerifiedEnvelopeParts EnvelopeError
verify_envelope_and_check_nonce prim now store envelope_bytes =
    verify_envelope_and_check_nonce_for_peer prim now store envelope_bytes "global"

abbrev pub accepted : Result VerifiedEnvelopeParts EnvelopeError → Option VerifiedEnvelopeParts
accepted (ok parts) = some parts
accepted (err e) = none

-- `verify_signed_message` with `verify_signed_payload_for_peer`
unfoldable pub verify_signed_message :
    Primitives
    → (now : ℕ) → NonceStore
    → (peer : String) → Bytes
    → NonceStore × Option VerifiedEnvelopeParts
verify_signed_message prim now store peer message_bytes =
    let (store', answer) =
      verify_envelope_and_check_nonce_for_peer prim now store message_bytes peer in
    (store', accepted answer)
