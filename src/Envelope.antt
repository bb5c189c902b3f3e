-- ===== src/Envelope.antt =====
-- Signed envelopes: machineplane/machine/src/libp2p_beemesh/envelope.rs, the nonce store of
-- machineplane/crypto/src/flatbuffer_envelope.rs, the signature calls of
-- machineplane/crypto/src/lib.rs and the builders of machineplane/protocol/src/lib.rs.
-- FlatBuffers, base64 and ML-DSA-65 are the parameter `Primitives`. An `Instant` is a number of
-- nanoseconds, the clock is an argument, and the process-wide nonce store is passed on as state.
pub mod Nonces
pub mod Signing
pub mod Replay
mod Tests
use Prim.Native.Char.{code}
use Prim.Native.String.{◌++◌ as append}
use beemesh.Prelude.{
  ℕ, Bytes, ◌-◌, String, Bool, true, false, Option, none, some, List, [], Result, ok, err, ◌>>=◌,
  ◌>>◌, leb, ◌==◌, str_eq, if◌then◌else◌, unwrap_or,
}
use beemesh.HashMap.{HashMap, get, insert, retain, contains_key}

-- the FlatBuffers table `Envelope`, as its accessors show it
pub record EnvelopeTable : Type 0 where
  pub payload : Option Bytes
  pub payload_type : Option String
  pub nonce : Option String
  pub ts : ℕ
  pub alg : Option String
  pub sig : Option String
  pub pubkey : Option String
  pub peer_id : Option String
  pub kem_pubkey : Option String

pub record Primitives : Type 0 where
  -- `Envelope::create`, `finish` and `finished_data`; `root_as_envelope`
  pub finish : EnvelopeTable → Bytes
  pub root_as_envelope : Bytes → Option EnvelopeTable
  -- base64 in the standard alphabet
  pub encode : Bytes → String
  pub decode : String → Option Bytes
  -- whether `ensure_pqc_init` succeeds
  pub pqc_ready : Bool
  -- `MlDsaPublicKey::from_bytes`, back to bytes
  pub public_key : Bytes → Option Bytes
  -- `sign` with the secret key of these bytes; `none` where a call of the library fails
  pub sign : (secret message : Bytes) → Option Bytes
  -- `verify` with the public key and the signature of these bytes
  pub verify : (public message signature : Bytes) → Option Bool

pub data EnvelopeError : Type 0 where
  malformed_envelope bad_signature_encoding bad_pubkey_encoding : EnvelopeError
  empty_nonce replay_detected : EnvelopeError
  pqc_unavailable bad_key signing_failed invalid_signature : EnvelopeError

-- The first of the builders' tables: the canonical form has an empty signature and key.
unfoldable pub canonical_table :
    Bytes
    → (payload_type nonce : String) → (ts : ℕ) → (alg peer_id : String) → Option String
    → EnvelopeTable
canonical_table payload payload_type nonce ts alg peer_id kem_pub = record {
  payload = some payload;
  payload_type = some payload_type;
  nonce = some nonce;
  ts = ts;
  alg = some alg;
  sig = some "";
  pubkey = some "";
  peer_id = some peer_id;
  kem_pubkey = some (unwrap_or kem_pub "");
}

unfoldable pub signed_table :
    Bytes
    → (payload_type nonce : String) → (ts : ℕ)
    → (alg sig_prefix sig_b64 pubkey_b64 peer_id : String) → Option String
    → EnvelopeTable
signed_table payload payload_type nonce ts alg sig_prefix sig_b64 pubkey_b64 peer_id kem_pub =
    record {
      payload = some payload;
      payload_type = some payload_type;
      nonce = some nonce;
      ts = ts;
      alg = some alg;
      sig = some (append sig_prefix (append ":" sig_b64));
      pubkey = some pubkey_b64;
      peer_id = some peer_id;
      kem_pubkey = some (unwrap_or kem_pub "");
    }

-- what stands behind the first colon, if there is one
unfoldable pub after_colon : String → Option String
after_colon String.[] = none
after_colon (String.◌∷◌ c s) = let rest = after_colon s in if code c == b':' then some s else rest

abbrev pub NonceStore : Type 0
NonceStore = HashMap (HashMap ℕ)

unfoldable pub check_and_insert_nonce_for_peer :
    (now : ℕ)
    → NonceStore
    → (nonce : String) → (window : ℕ) → (peer_id : String)
    → NonceStore × Result (Unit {0}) EnvelopeError
check_and_insert_nonce_for_peer now store nonce window peer_id =
    let peer_store = retain (λ _ t. leb (now - t) window) (unwrap_or (get peer_id store) []) in
    if str_eq nonce ""
    then (store, err empty_nonce)
    else if contains_key nonce peer_store
    then (insert peer_id peer_store store, err replay_detected)
    else (insert peer_id (insert nonce now peer_store) store, ok tt)

pub check_and_insert_nonce :
    (now : ℕ)
    → NonceStore
    → (nonce : String) → (window : ℕ) → NonceStore × Result (Unit {0}) EnvelopeError
check_and_insert_nonce now store nonce window =
    check_and_insert_nonce_for_peer now store nonce window "global"

pub record VerifiedEnvelopeParts : Type 0 where
  pub payload : Bytes
  pub pubkey : Bytes
  pub signature : Bytes
  pub timestamp_ms : ℕ
  pub payload_type : String

pub record SignedEnvelope : Type 0 where
  pub bytes : Bytes
  pub nonce : String
  pub timestamp : ℕ

pub record SignEnvelopeConfig : Type 0 where
  pub nonce : Option String
  pub timestamp : Option ℕ
  pub peer_id : Option String
  pub kem_pub_b64 : Option String
  pub algorithm : String
  pub signature_prefix : String

abbrev pub default_sign_config : SignEnvelopeConfig
default_sign_config = record {
  nonce = none;
  timestamp = none;
  peer_id = none;
  kem_pub_b64 = none;
  algorithm = "ml-dsa-65";
  signature_prefix = "ml-dsa-65";
}

-- an `Option` that `?` turns into an error
abbrev pub or_fail {ℓ} : {A : Type ℓ} → Option A → EnvelopeError → Result A EnvelopeError
or_fail none e = err e
or_fail (some a) e = ok a

abbrev pub guard : Bool → EnvelopeError → Result (Unit {0}) EnvelopeError
guard true e = ok tt
guard false e = err e

module _ (prim : Primitives) where
  open prim use {finish, root_as_envelope, encode, decode, pqc_ready, public_key, sign, verify}

  unfoldable pub normalize_and_decode_signature : Option String → Result Bytes EnvelopeError
  normalize_and_decode_signature sig =
      let sig_str = unwrap_or sig "" in
      or_fail (decode (unwrap_or (after_colon sig_str) sig_str)) bad_signature_encoding

  pub sign_envelope : (secret public message : Bytes) → Result (String × String) EnvelopeError
  sign_envelope secret public message = do
    guard pqc_ready pqc_unavailable
    key ← or_fail (public_key public) bad_key
    signature ← or_fail (sign secret message) signing_failed
    ok (encode signature, encode key)

  unfoldable pub verify_envelope :
      (public message signature : Bytes) → Result (Unit {0}) EnvelopeError
  verify_envelope public message signature = do
    guard pqc_ready pqc_unavailable
    valid ← or_fail (verify public message signature) bad_key
    guard valid invalid_signature

  -- `fresh_nonce` is the UUID and `now_ms` the clock that stand in where the configuration has none
  pub sign_with_existing_keypair :
      (fresh_nonce : String)
      → (now_ms : ℕ) → Bytes
      → (payload_type : String) → SignEnvelopeConfig
      → (public secret : Bytes) → Result SignedEnvelope EnvelopeError
  sign_with_existing_keypair fresh_nonce now_ms payload payload_type config public secret =
      let nonce = unwrap_or config.nonce fresh_nonce in
      let ts = unwrap_or config.timestamp now_ms in
      let peer = unwrap_or config.peer_id "" in
      do
        signed ← sign_envelope secret public (
            finish (
              canonical_table payload payload_type nonce ts config.algorithm peer
                config.kem_pub_b64))
        ok (record {
          bytes = finish (
              signed_table payload payload_type nonce ts config.algorithm config.signature_prefix
                signed.0 signed.1 peer config.kem_pub_b64);
          nonce = nonce;
          timestamp = ts;
        })

  -- the bytes whose signature is checked
  unfoldable pub canonical_of : EnvelopeTable → Bytes
  canonical_of env = finish (
      canonical_table (unwrap_or env.payload []) (unwrap_or env.payload_type "")
        (unwrap_or env.nonce "") env.ts (unwrap_or env.alg "") (unwrap_or env.peer_id "")
        env.kem_pubkey)

  -- the signature check and the answer, behind the nonce check
  unfoldable pub verified :
      EnvelopeTable
      → (message sig_bytes pub_bytes : Bytes) → Result VerifiedEnvelopeParts EnvelopeError
  verified env message sig_bytes pub_bytes = do
    verify_envelope pub_bytes message sig_bytes
    ok (record {
      payload = unwrap_or env.payload [];
      pubkey = pub_bytes;
      signature = sig_bytes;
      timestamp_ms = env.ts;
      payload_type = unwrap_or env.payload_type "";
    })

  -- the part of the verification before the nonce check
  unfoldable pub opened : Bytes → Result (EnvelopeTable × Bytes × Bytes) EnvelopeError
  opened bytes = do
    env ← or_fail (root_as_envelope bytes) malformed_envelope
    sig_bytes ← normalize_and_decode_signature (some (unwrap_or env.sig ""))
    pub_bytes ← or_fail (decode (unwrap_or env.pubkey "")) bad_pubkey_encoding
    ok (env, sig_bytes, pub_bytes)

  -- The nonce check and the signature check of an envelope that could be opened. An empty nonce is
  -- not checked.
  unfoldable pub check_opened :
      (now : ℕ)
      → NonceStore
      → (window : ℕ) → (peer_id : String) → Result (EnvelopeTable × Bytes × Bytes) EnvelopeError
      → NonceStore × Result VerifiedEnvelopeParts EnvelopeError
  check_opened now store window peer_id (err e) = (store, err e)
  check_opened now store window peer_id (ok (env, sig_bytes, pub_bytes)) =
      let nonce = unwrap_or env.nonce "" in
      let answer = verified env (canonical_of env) sig_bytes pub_bytes in
      if str_eq nonce ""
      then (store, answer)
      else let (store', fresh) = check_and_insert_nonce_for_peer now store nonce window peer_id in
        (store', (do fresh; answer))

  unfoldable pub verify_flatbuffer_envelope_for_peer :
      (now : ℕ)
      → NonceStore
      → Bytes
      → (window : ℕ) → (peer_id : String) → NonceStore × Result VerifiedEnvelopeParts EnvelopeError
  unfolding check_opened
  verify_flatbuffer_envelope_for_peer now store bytes window peer_id =
      check_opened now store window peer_id (opened bytes)

  pub verify_flatbuffer_envelope :
      (now : ℕ)
      → NonceStore
      → Bytes
      → (window : ℕ) → NonceStore × Result VerifiedEnvelopeParts EnvelopeError
  verify_flatbuffer_envelope now store bytes window =
      verify_flatbuffer_envelope_for_peer now store bytes window "global"

  -- Its canonical form leaves the peer id and the KEM key empty, whatever the envelope holds.
  pub verify_flatbuffer_envelope_skip_nonce_check :
      Bytes → Result VerifiedEnvelopeParts EnvelopeError
  verify_flatbuffer_envelope_skip_nonce_check bytes = do
    parts ← opened bytes
    let env = parts.0
    verified env
        (finish (
          canonical_table (unwrap_or env.payload []) (unwrap_or env.payload_type "")
            (unwrap_or env.nonce "") env.ts (unwrap_or env.alg "") "" none))
        parts.1 parts.2
