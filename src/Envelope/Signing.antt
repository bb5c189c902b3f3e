-- ===== src/Envelope/Signing.antt =====
-- What this node signs, every node accepts: the round trip through the wire format.
use Prim.Native.Char.{code}
use Prim.Native.String.{◌++◌ as append}
use text.Mathlib.TextLemmas.{cons-append, nil-append}
use beemesh.Prelude.{
  Bytes, ℕ, ◌≡◌, String, true, none, some, Option-cases, arith, ok, ◌==◌, str_eq, unwrap_or,
  Bool-cases, inl, inr,
}
use beemesh.Envelope.{
  EnvelopeTable, Primitives, NonceStore, SignedEnvelope, SignEnvelopeConfig, canonical_table,
  signed_table, after_colon, normalize_and_decode_signature, sign_envelope, verify_envelope,
  sign_with_existing_keypair, canonical_of, verified, opened, check_opened,
  check_and_insert_nonce_for_peer, verify_flatbuffer_envelope_for_peer,
}

-- What the libraries document of their operations, for one key pair.
pub record Laws (prim : Primitives) (public secret : Bytes) : Type 0 where
  pub parse_finish : (env : EnvelopeTable) → prim.root_as_envelope (prim.finish env) ≡ some env
  pub decode_encode : (bytes : Bytes) → prim.decode (prim.encode bytes) ≡ some bytes
  pub key_bytes : prim.public_key public ≡ some public
  pub verify_sign :
      (message signature : Bytes)
      → prim.sign secret message ≡ some signature
      → prim.verify public message signature ≡ some true

-- A prefix without a colon is cut off exactly.
pub after_colon-append :
    (prefix rest : String)
    → after_colon prefix ≡ none
    → after_colon (append prefix (append ":" rest)) ≡ some rest
unfolding after_colon
after_colon-append String.[] rest h = rw (nil-append, cons-append, nil-append)
after_colon-append (String.◌∷◌ c s) rest h = rw cons-append (elim (Bool-cases (code c == b':')) [
  | inl colon ↦ absurd (ground arith)
  | inr other ↦ rw other (after_colon-append s rest (ground arith))
])

module _ (prim : Primitives) (public secret : Bytes) (laws : Laws prim public secret)
    (payload : Bytes) (payload_type fresh_nonce : String) (now_ms : ℕ)
    (config : SignEnvelopeConfig) where
  abbrev nonce : String
  nonce = unwrap_or config.nonce fresh_nonce

  abbrev ts : ℕ
  ts = unwrap_or config.timestamp now_ms

  abbrev peer : String
  peer = unwrap_or config.peer_id ""

  abbrev message : Bytes
  message =
      prim.finish
        (canonical_table payload payload_type nonce ts config.algorithm peer config.kem_pub_b64)

  abbrev table : Bytes → EnvelopeTable
  table signature =
      signed_table payload payload_type nonce ts config.algorithm config.signature_prefix
        (prim.encode signature) (prim.encode public) peer config.kem_pub_b64

  -- What a successful call of `sign_with_existing_keypair` has made.
  signing_inversion :
      (signed : SignedEnvelope)
      → sign_with_existing_keypair prim fresh_nonce now_ms payload payload_type config public secret
        ≡ ok signed
      → (signature : Bytes) × (prim.pqc_ready ≡ true)
        × (prim.sign secret message ≡ some signature)
        × (signed ≡ record { bytes = prim.finish (table signature); nonce = nonce; timestamp = ts })
  unfolding sign_with_existing_keypair sign_envelope
  signing_inversion signed e = elim (Bool-cases prim.pqc_ready) [
    | inr down ↦ absurd (ground arith)
    | inl ready ↦ elim (Option-cases (prim.sign secret message)) [
      | inl failed ↦ absurd (ground (arith, laws.key_bytes))
      | inr (signature, made) ↦ (signature, ready, made, ground (arith, laws.key_bytes))
    ]
  ]

  opened_signed :
      (signature : Bytes)
      → after_colon config.signature_prefix ≡ none
      → opened prim (prim.finish (table signature)) ≡ ok (table signature, signature, public)
  unfolding opened normalize_and_decode_signature signed_table
  opened_signed signature plain = rw (
    laws.parse_finish,
    after_colon-append config.signature_prefix (prim.encode signature) plain,
    laws.decode_encode,
    laws.decode_encode,
  )

  verified_signed :
      (signature : Bytes)
      → prim.pqc_ready ≡ true
      → prim.sign secret message ≡ some signature
      → verified prim (table signature) (canonical_of prim (table signature)) signature public
        ≡ ok (record {
          payload = payload;
          pubkey = public;
          signature = signature;
          timestamp_ms = ts;
          payload_type = payload_type;
        })
  unfolding verified verify_envelope canonical_of signed_table canonical_table
  verified_signed signature ready made = rw (ready, laws.verify_sign message signature made)

  -- An envelope that `sign_with_existing_keypair` makes, with a signature prefix that has no colon,
  -- is verified by every node whose nonce check lets its nonce through: the answer has the payload,
  -- its type, the timestamp and the signer's public key.
  pub sign-verify :
      (signed : SignedEnvelope) (now : ℕ) (store : NonceStore) (window : ℕ) (peer_id : String)
      → after_colon config.signature_prefix ≡ none
      → sign_with_existing_keypair prim fresh_nonce now_ms payload payload_type config public secret
        ≡ ok signed
      → (check_and_insert_nonce_for_peer now store signed.nonce window peer_id).1 ≡ ok tt
      → (signature : Bytes) × ((verify_flatbuffer_envelope_for_peer prim now store signed.bytes
            window peer_id).1
          ≡ ok (record {
            payload = payload;
            pubkey = public;
            signature = signature;
            timestamp_ms = signed.timestamp;
            payload_type = payload_type;
          }))
  unfolding verify_flatbuffer_envelope_for_peer check_opened signed_table
  sign-verify signed now store window peer_id plain made fresh =
      let (signature, ready, signs, is) = signing_inversion signed made in
      let o = opened_signed signature plain in
      let v = verified_signed signature ready signs in
      let fresh' : (check_and_insert_nonce_for_peer now store nonce window peer_id).1 ≡ ok tt =
        rw is at fresh in
      (
        signature,
        rw (is, o, v)
            (elim (Bool-cases (str_eq nonce "")) [
              | inl blank ↦ rw blank
              | inr filled ↦ rw (filled, fresh')
            ]),
      )
