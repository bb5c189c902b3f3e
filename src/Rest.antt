-- ===== src/Rest.antt =====
-- machineplane/machine/src/restapi: the HTTP handlers of a node, and the middleware that opens the
-- envelopes of requests. What `axum` and the control channel do is an argument: the request as it
-- was read, and what comes back on the reply channels. A reply is the FlatBuffers table that is
-- built for it. Random numbers and clocks are arguments too.
pub mod Ids
pub mod Tasks
pub mod Deletion
pub mod Forwarding
pub mod Candidates
pub mod Lifecycle
pub mod Anyone
pub mod Verdicts
pub mod Admission
mod Tests
use beemesh.Prelude.{
  ℕ, ◌*◌, Bytes, String, Bool, true, false, Option, none, some, List, [], Result, ok, err, str_eq,
  if◌then◌else◌, unwrap_or, is_empty,
}
use beemesh.HashMap.{HashMap}
use beemesh.Envelope.{
  EnvelopeTable, Primitives, NonceStore, EnvelopeError, VerifiedEnvelopeParts,
  verify_flatbuffer_envelope_for_peer,
}
use beemesh.Provider.{second}
use beemesh.Node.{Libraries, Node}

pub record EnvelopeMetadata : Type 0 where
  pub signing_pubkey : Bytes
  pub kem_pubkey : Bytes
  pub peer_id : Option String

abbrev pub empty_metadata : EnvelopeMetadata
empty_metadata = record { signing_pubkey = []; kem_pubkey = []; peer_id = none }

-- the `content-type`, where it is text, and the body, where it could be read
pub record Request : Type 0 where
  pub content_type : Option String
  pub body : Option Bytes

pub data StatusCode : Type 0 where
  bad_request unauthorized : StatusCode

-- the tables that the handlers build
pub data Reply : Type 0 where
  task_create_response : (ok : Bool) → (task_id manifest_id : String) → (timeout : ℕ) → Reply
  task_status_response :
      (task_id state : String) → (assigned distributed : List String) → Option String → Reply
  manifest_id_json : (manifest_id : String) → Reply
  delete_response :
      (ok : Bool) → (operation_id message manifest_id : String) → (removed : List String) → Reply
  apply_response : (ok : Bool) → (operation_id message : String) → Reply
  candidates_response : (ok : Bool) → List (String × String) → Reply

-- `encrypted_for` is the KEM key that the reply is encrypted with
pub record Answer : Type 0 where
  pub reply : Reply
  pub encrypted_for : Option Bytes

unfoldable pub create_response_with_fallback : Reply → Answer
create_response_with_fallback reply = record { reply = reply; encrypted_for = none }

-- `encrypts`: whether `encrypt_response_envelope_with_key` succeeds with the key
unfoldable pub create_encrypted_response_with_key :
    (encrypts : Bytes → Bool) → Reply → (peer_id : Option String) → (kem_pubkey : Bytes) → Answer
create_encrypted_response_with_key encrypts reply none kem_pubkey = record {
  reply = reply;
  encrypted_for = none;
}
create_encrypted_response_with_key encrypts reply (some peer_id) kem_pubkey =
    if encrypts kem_pubkey
    then record { reply = reply; encrypted_for = some kem_pubkey }
    else record { reply = reply; encrypted_for = none }

unfoldable pub create_response_for_envelope_metadata :
    (encrypts : Bytes → Bool) → Reply → EnvelopeMetadata → Answer
unfolding create_encrypted_response_with_key create_response_with_fallback
create_response_for_envelope_metadata encrypts reply metadata =
    if is_empty metadata.kem_pubkey
    then create_response_with_fallback reply
    else create_encrypted_response_with_key encrypts reply metadata.peer_id metadata.kem_pubkey

abbrev decoded : Primitives → Option String → Bytes
decoded prim none = []
decoded prim (some text) = unwrap_or (prim.decode text) []

-- the payload and the metadata with which an envelope is handed on
unfoldable pub or_unauthorized :
    {W : Type 0}
    → EnvelopeMetadata
    → Node W × Option Bytes
    → Node W × Result (EnvelopeMetadata × Bytes) StatusCode
or_unauthorized metadata (n, none) = (n, err unauthorized)
or_unauthorized metadata (n, some payload) = (n, ok (metadata, payload))

module _ {Y : Type 0} (lib : Libraries Y) where
  -- what the envelope of a request says of its sender
  unfoldable pub envelope_metadata : EnvelopeTable → EnvelopeMetadata
  envelope_metadata env = record {
    signing_pubkey = decoded lib.prim env.pubkey;
    kem_pubkey = decoded lib.prim env.kem_pubkey;
    peer_id = env.peer_id;
  }

  -- behind the verification: the payload, decrypted with the node's KEM key
  unfoldable pub decrypted :
      EnvelopeTable → Result VerifiedEnvelopeParts EnvelopeError → Option Bytes
  decrypted env (err e) = none
  decrypted env (ok parts) = elim env.payload [
    | none ↦ none
    | some encrypted_payload ↦ lib.decrypt encrypted_payload
  ]

module _ {W Y : Type 0} (lib : Libraries Y) where
  unfoldable pub decrypt_request_envelope :
      (nonce_clock : ℕ) → EnvelopeTable → Bytes → Node W → Node W × Option Bytes
  unfolding decrypted
  decrypt_request_envelope nonce_clock env bytes n =
      let (store, answer) =
        verify_flatbuffer_envelope_for_peer lib.prim nonce_clock n.nonces bytes (300 * second)
          (unwrap_or env.peer_id "global") in
      (record n { nonces = store }, decrypted lib env answer)

  unfoldable pub open_if_envelope :
      (nonce_clock : ℕ)
      → Option EnvelopeTable
      → Bytes
      → Node W
      → Node W × Result (EnvelopeMetadata × Bytes) StatusCode
  unfolding envelope_metadata decrypt_request_envelope or_unauthorized
  open_if_envelope nonce_clock none bytes n = (n, ok (empty_metadata, bytes))
  open_if_envelope nonce_clock (some env) bytes n =
      or_unauthorized (envelope_metadata lib env) (decrypt_request_envelope nonce_clock env bytes n)

  unfoldable pub open_body :
      (nonce_clock : ℕ)
      → Option Bytes
      → Node W
      → Node W × Result (EnvelopeMetadata × Bytes) StatusCode
  unfolding open_if_envelope
  open_body nonce_clock none n = (n, err bad_request)
  open_body nonce_clock (some bytes) n =
      open_if_envelope nonce_clock (lib.prim.root_as_envelope bytes) bytes n

  -- what is handed on to the handler; a body of another type is handed on as it is
  unfoldable pub envelope_middleware :
      (nonce_clock : ℕ) → Request → Node W → Node W × Result (EnvelopeMetadata × Bytes) StatusCode
  unfolding open_body
  envelope_middleware nonce_clock request n =
      if str_eq (unwrap_or request.content_type "") "application/octet-stream"
      then open_body nonce_clock request.body n
      else (n, ok (empty_metadata, unwrap_or request.body []))
