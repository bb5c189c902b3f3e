-- ===== src/Rest/Admission.antt =====
-- machineplane/machine/src/restapi/envelope_handler.rs: which requests the middleware hands on.
use beemesh.Prelude.{
  ℕ, ◌*◌, ◌≡◌, ◌⊎◌, refl, ap, sym, ◌∙◌, Bytes, false, Option, none, some, [], Result, ok, err,
  str_eq, unwrap_or, Bool-cases, Option-cases, inl, inr,
}
use beemesh.Envelope.{
  EnvelopeTable, EnvelopeError, VerifiedEnvelopeParts, opened, verify_flatbuffer_envelope_for_peer,
}
use beemesh.Provider.{second}
use beemesh.Node.{Libraries, Node}
use beemesh.Rest.{
  EnvelopeMetadata, empty_metadata, Request, envelope_metadata, decrypted, or_unauthorized,
  decrypt_request_envelope, open_if_envelope, open_body, envelope_middleware,
}
use beemesh.Rest.Verdicts.{opened_ok, verified_ok, check_opened_ok, SignedBy}

module _ {Y : Type 0} (lib : Libraries Y) where
  signing_pubkey_decoded :
      lib.prim.decode "" ≡ some []
      → (env : EnvelopeTable) (pub_bytes : Bytes)
      → lib.prim.decode (unwrap_or env.pubkey "") ≡ some pub_bytes
      → (envelope_metadata lib env).signing_pubkey ≡ pub_bytes
  unfolding envelope_metadata
  signing_pubkey_decoded empty_text env pub_bytes e = elim (Option-cases env.pubkey) [
    | inl missing ↦ rw missing (let at_empty = rw missing at e in cc)
    | inr (key, there) ↦ rw there (let at_key = rw there at e in rw at_key refl)
  ]

  decrypted-some :
      (env : EnvelopeTable) (answer : Result VerifiedEnvelopeParts EnvelopeError) (payload : Bytes)
      → decrypted lib env answer ≡ some payload
      → ((parts : VerifiedEnvelopeParts) × (answer ≡ ok parts))
        × ((content : Bytes) × (env.payload ≡ some content) × (lib.decrypt content ≡ some payload))
  unfolding decrypted
  decrypted-some env (err x) payload e = cc
  decrypted-some env (ok parts) payload e = elim (Option-cases env.payload) [
    | inl missing ↦ cc (rw missing at e)
    | inr (content, there) ↦ ((parts, refl), (content, there, rw there at e))
  ]

module _ {W : Type 0} where
  or_unauthorized_ok :
      (made metadata : EnvelopeMetadata) (payload : Bytes) (n n' : Node W) (o : Option Bytes)
      → or_unauthorized made (n, o) ≡ (n', ok (metadata, payload))
      → (n ≡ n') × (made ≡ metadata) × (o ≡ some payload)
  unfolding or_unauthorized
  or_unauthorized_ok made metadata payload n n' none e = cc
  or_unauthorized_ok made metadata payload n n' (some p) e = (cc, cc, cc)

module _ {W Y : Type 0} (lib : Libraries Y) (nonce_clock : ℕ) (request : Request) (n : Node W) where
  -- what was no envelope is handed on as it is
  abbrev pub Unsigned : EnvelopeMetadata → Bytes → Node W → Type 0
  Unsigned metadata payload n' =
      (metadata ≡ empty_metadata)
      × (payload ≡ unwrap_or request.body [])
      × (n' ≡ n)
      × ((str_eq (unwrap_or request.content_type "") "application/octet-stream" ≡ false)
          ⊎ (lib.prim.root_as_envelope payload ≡ none))

  -- what was an envelope is verified, and is handed on decrypted, with the key of its signature
  pub record Signed (metadata : EnvelopeMetadata) (payload : Bytes) (n' : Node W) : Type 0 where
    pub bytes : Bytes
    pub env : EnvelopeTable
    pub parts : VerifiedEnvelopeParts
    pub content : Bytes
    pub body : request.body ≡ some bytes
    pub opens : lib.prim.root_as_envelope bytes ≡ some env
    pub of_envelope : metadata ≡ envelope_metadata lib env
    pub signed : SignedBy lib.prim env metadata.signing_pubkey
    pub fresh :
        verify_flatbuffer_envelope_for_peer lib.prim nonce_clock n.nonces bytes
          (300 * second)
          (unwrap_or env.peer_id "global")
        ≡ (n'.nonces, ok parts)
    pub kept : n' ≡ record n { nonces = n'.nonces }
    pub encrypted : env.payload ≡ some content
    pub decrypts : lib.decrypt content ≡ some payload

  signed_parts :
      lib.prim.decode "" ≡ some []
      → (bytes : Bytes) (env : EnvelopeTable) (parts : VerifiedEnvelopeParts)
      → lib.prim.root_as_envelope bytes ≡ some env
      → (verify_flatbuffer_envelope_for_peer lib.prim nonce_clock n.nonces bytes
          (300 * second)
          (unwrap_or env.peer_id "global")).1
        ≡ ok parts
      → SignedBy lib.prim env (envelope_metadata lib env).signing_pubkey
  unfolding verify_flatbuffer_envelope_for_peer
  signed_parts empty_text bytes env parts opens e =
      let (env', sig_bytes, pub_bytes, opened_as, valid) =
        check_opened_ok lib.prim _ _ _ _ (opened lib.prim bytes) parts e in
      let (opens', decodes) = opened_ok lib.prim bytes env' sig_bytes pub_bytes opened_as in
      let same : env' ≡ env = cc in
      let key = signing_pubkey_decoded lib empty_text env' pub_bytes decodes in
      let signature = (verified_ok lib.prim env' _ sig_bytes pub_bytes parts valid).0 in
      rw (← same, key) (sig_bytes, signature)

  opened_envelope :
      lib.prim.decode "" ≡ some []
      → (bytes : Bytes) (env : EnvelopeTable) → request.body ≡ some bytes
      → lib.prim.root_as_envelope bytes ≡ some env
      → (metadata : EnvelopeMetadata) (payload : Bytes) (n' : Node W)
      → open_if_envelope lib nonce_clock (some env) bytes n ≡ (n', ok (metadata, payload))
      → Signed metadata payload n'
  unfolding open_if_envelope decrypt_request_envelope
  opened_envelope empty_text bytes env body opens metadata payload n' e =
      let verdict =
        verify_flatbuffer_envelope_for_peer lib.prim nonce_clock n.nonces bytes (300 * second)
          (unwrap_or env.peer_id "global") in
      let noted : Node W = record n { nonces = verdict.0 } in
      let (node, of_envelope, decrypts) =
        or_unauthorized_ok (envelope_metadata lib env) metadata payload noted n'
          (decrypted lib env verdict.1) e in
      let ((parts, answer), (content, encrypted, plain)) =
        decrypted-some lib env verdict.1 payload decrypts in
      record {
        bytes = bytes;
        env = env;
        parts = parts;
        content = content;
        body = body;
        opens = opens;
        of_envelope = sym of_envelope;
        signed = rw⁻¹ of_envelope (signed_parts empty_text bytes env parts opens answer);
        fresh = ap (λ a. (verdict.0, a)) answer ∙ ap (λ (m : Node W). (m.nonces, ok parts)) node;
        kept = sym node ∙ ap (λ (m : Node W). record n { nonces = m.nonces }) node;
        encrypted = encrypted;
        decrypts = plain;
      }

  open_body_ok :
      lib.prim.decode "" ≡ some []
      → (body : Option Bytes) → request.body ≡ body
      → (metadata : EnvelopeMetadata) (payload : Bytes) (n' : Node W)
      → open_body lib nonce_clock body n ≡ (n', ok (metadata, payload))
      → Unsigned metadata payload n' ⊎ Signed metadata payload n'
  unfolding open_body open_if_envelope
  open_body_ok empty_text none body metadata payload n' e = cc
  open_body_ok empty_text (some bytes) body metadata payload n' e =
      elim (Option-cases (lib.prim.root_as_envelope bytes)) [
        | inl no_envelope ↦
            (let as_is = rw no_envelope at e in
              let same : bytes ≡ payload = cc in
              inl (cc, (rw body (sym same)), cc, inr (rw⁻¹ same no_envelope)))
        | inr (env, opens) ↦
            inr
              (opened_envelope empty_text bytes env body opens metadata payload n' (rw opens at e))
      ]

  -- Where base64 reads the empty text as no bytes, a request that the middleware hands on to a
  -- handler is one of two. Either its type is not that of an envelope or its body does not parse as
  -- one: then it goes on as it is, without a key, and the node is unchanged. Or its body is an
  -- envelope that passes the replay check and whose signature verifies with the very key that the
  -- handler is told; then the handler gets the decrypted payload, and only the nonces have changed.
  pub envelope_middleware_admits :
      lib.prim.decode "" ≡ some []
      → (metadata : EnvelopeMetadata) (payload : Bytes) (n' : Node W)
      → envelope_middleware lib nonce_clock request n ≡ (n', ok (metadata, payload))
      → Unsigned metadata payload n' ⊎ Signed metadata payload n'
  unfolding envelope_middleware
  envelope_middleware_admits empty_text metadata payload n' e =
      elim (Bool-cases (str_eq (unwrap_or request.content_type "") "application/octet-stream")) [
        | inl octets ↦
            open_body_ok empty_text request.body refl metadata payload n' (rw octets at e)
        | inr other ↦ (let as_is = rw other at e in inl (cc, cc, cc, inl other))
      ]
