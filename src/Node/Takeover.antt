-- ===== src/Node/Takeover.antt =====
-- What an apply request needs, and whom it makes the owner of its manifest: the handlers of
-- workload_integration.rs and of delete_message.rs together.
use beemesh.Prelude.{
  Bytes, ◌≡◌, ◌≢◌, ◌⊎◌, ◌∙◌, inl, inr, refl, String, true, false, Bool-cases, Option-cases,
  Result-cases, Option, none, some, Result, ok, err, arith, str_eq, eq_iff, unwrap_or, is_empty,
}
use beemesh.HashMap.{get}
use beemesh.HashMap.Laws.{get-insert}
use beemesh.Envelope.{VerifiedEnvelopeParts}
use beemesh.Resources.{ResourceVerifier, has_active_reservation_for_manifest}
use beemesh.Runtime.{RuntimeResult, WorkloadInfo}
use beemesh.Runtime.Registry.{RuntimeEngine}
use beemesh.Node.{
  ApplyRequest, Libraries, Node, Moment, get_manifest_owner,
  verify_envelope_and_check_nonce_for_peer,
}
use beemesh.Node.Deployment.{
  Deploy, DeployError, decrypt_manifest_content, deploy_decrypted, record_owner, prepare,
  deploy_prepared, finish_deployment, deploy_with, create_deployment_config,
  process_manifest_deployment,
}
use beemesh.Node.Apply.{
  ApplyResponse, ApplyMessage, apply_request, apply_verified, apply_parsed, apply_manifest,
  deploy_reserved, reject, missing_manifest_id, no_active_reservation, missing_manifest_json,
  invalid_format,
}
use beemesh.Node.Owners.{owner_matches}
use beemesh.Node.Delete.{remove_all, process_delete_request}

module _ {W : Type 0} where
  -- what happens behind the owner's record leaves the owners alone
  deploy_prepared-owners :
      (at : Moment) (mock : Option (Deploy W)) (req : ApplyRequest) (id : String)
      (p : Result (Bytes × String × RuntimeEngine W) DeployError) (n : Node W)
      → (deploy_prepared at mock req id p n).0.owners ≡ n.owners
  unfolding deploy_prepared
  deploy_prepared-owners at mock req id (err e) n = refl
  deploy_prepared-owners at mock req id (ok (content, name, engine)) n = finished (
      deploy_with mock name engine id content (create_deployment_config req) at.local_peer_id
        n.host)
    where
      finished :
          (a : W × RuntimeResult WorkloadInfo)
          → (finish_deployment at id name a n).0.owners ≡ n.owners
      finished (w, err e) = refl
      finished (w, ok info) = refl

  get-record_owner :
      (id : String) (key : Bytes) (n : Node W)
      → is_empty key ≡ false
      → get id (record_owner id key n).owners ≡ some key
  unfolding record_owner
  get-record_owner id key n full =
      rw full (ground (arith, get-insert id id key n.owners, eq_iff id id))

  process_manifest_deployment-owner :
      {Y : Type 0} (lib : Libraries Y) (at : Moment) (mock : Option (Deploy W)) (req : ApplyRequest)
      (json id : String) (key content : Bytes) (n : Node W)
      → req.manifest_id ≡ some id
      → is_empty key ≡ false
      → decrypt_manifest_content lib json ≡ ok content
      → get id (process_manifest_deployment lib at mock req json key n).0.owners ≡ some key
  unfolding process_manifest_deployment
  process_manifest_deployment-owner lib at mock req json id key content n named full opened =
      rw (opened, deploy_decrypted, named)
        (rw
          (deploy_prepared-owners at mock req id (prepare lib content (record_owner id key n))
            (record_owner id key n))
          (get-record_owner id key n full))

module _ {Y W : Type 0} (lib : Libraries Y) (at : Moment) (mock : Option (Deploy W)) where
  -- only the nonces and the reservations may differ, and the reply is a refusal
  pub record Untouched (n : Node W) (answer : Node W × ApplyResponse) : Type 0 where
    pub host_kept : answer.0.host ≡ n.host
    pub owners_kept : answer.0.owners ≡ n.owners
    pub provider_kept : answer.0.provider_manager ≡ n.provider_manager
    pub registry_kept : answer.0.registry ≡ n.registry
    pub refused : answer.1.ok ≡ false

  -- the bytes are an envelope of the peer with a request for the manifest
  pub record Asks (bytes : Bytes) (peer : String) (n : Node W) (id : String) : Type 0 where
    pub parts : VerifiedEnvelopeParts
    pub req : ApplyRequest
    pub json : String
    pub signed :
        (verify_envelope_and_check_nonce_for_peer lib.prim at.nonce_clock n.nonces bytes peer).1
        ≡ ok parts
    pub parsed : lib.root_as_apply_request parts.payload ≡ some req
    pub content : req.manifest_json ≡ some json
    pub named : req.manifest_id ≡ some id
    pub nonempty : id ≢ ""

  refusal :
      (n : Node W) (operation_id : String) (message : ApplyMessage) (v : ResourceVerifier)
      → Untouched n (record n { verifier = v }, reject operation_id message)
  unfolding reject
  refusal n operation_id message v = record {
    host_kept = refl;
    owners_kept = refl;
    provider_kept = refl;
    registry_kept = refl;
    refused = refl;
  }

  apply_manifest_needs :
      (req : ApplyRequest) (json id : String) (key : Bytes) (n : Node W)
      → Untouched n (apply_manifest lib at mock req json id key n)
        ⊎ ((id ≢ "") × ((has_active_reservation_for_manifest n.verifier at.instant id).1 ≡ true))
  unfolding apply_manifest
  apply_manifest_needs req json id key n = elim (Bool-cases (str_eq id "")) [
    | inl empty ↦ inl (rw empty (refusal n "unknown" missing_manifest_id n.verifier))
    | inr full ↦
        elim (Bool-cases (has_active_reservation_for_manifest n.verifier at.instant id).1) [
          | inl active ↦ inr ((λ e. ground (arith, eq_iff id "")), active)
          | inr none_active ↦ inl (
              rw (full, none_active, deploy_reserved)
                (refusal n id no_active_reservation
                  (has_active_reservation_for_manifest n.verifier at.instant id).0))
        ]
  ]

  -- the manifest has a reservation that has not run out
  abbrev pub Reserved : String → Node W → Type 0
  Reserved id n = (has_active_reservation_for_manifest n.verifier at.instant id).1 ≡ true

  name_of : (name : Option String) → unwrap_or name "" ≢ "" → name ≡ some (unwrap_or name "")
  name_of none h = absurd (h refl)
  name_of (some id) h = refl

  apply_parsed_needs :
      (parts : VerifiedEnvelopeParts) (parsed : Option ApplyRequest) (n : Node W)
      → Untouched n (apply_parsed lib at mock parsed parts.pubkey n)
        ⊎ ((id : String) × ((req : ApplyRequest) × ((json : String) × ((parsed ≡ some req)
                  × ((req.manifest_json ≡ some json)
                      × ((req.manifest_id ≡ some id) × ((id ≢ "") × Reserved id n)))))))
  unfolding apply_parsed
  apply_parsed_needs parts none n = inl (refusal n "unknown" invalid_format n.verifier)
  apply_parsed_needs parts (some req) n = elim (Option-cases req.manifest_json) [
    | inl absent ↦
        inl (rw (absent, apply_parsed) (refusal n "unknown" missing_manifest_json n.verifier))
    | inr (json, content) ↦
        elim (apply_manifest_needs req json (unwrap_or req.manifest_id "") parts.pubkey n) [
          | inl kept ↦ inl (rw (content, apply_parsed) kept)
          | inr (nonempty, reserved) ↦
              let named : req.manifest_id ≡ some (unwrap_or req.manifest_id "") =
                name_of req.manifest_id nonempty in
              inr (
                unwrap_or req.manifest_id "",
                (req, (json, (refl, (content, (named, (nonempty, reserved)))))),
              )
        ]
  ]

  -- An apply request changes neither the workloads nor the owners nor the provider records, and is
  -- refused, unless its bytes are an envelope that passes the signature and the nonce check of its
  -- peer, ask for a named manifest, and the node holds a reservation for that manifest which has
  -- not run out.
  pub apply_request_needs :
      (bytes : Bytes) (peer : String) (n : Node W)
      → Untouched n (apply_request lib at mock bytes peer n)
        ⊎ ((id : String) × (Asks bytes peer n id × Reserved id n))
  unfolding apply_request
  apply_request_needs bytes peer n =
      let (nonces', answer) =
        verify_envelope_and_check_nonce_for_peer lib.prim at.nonce_clock n.nonces bytes peer in
      let n' : Node W = record n { nonces = nonces' } in
      elim (Result-cases answer) [
        | inl (parts, signed) ↦
            elim (apply_parsed_needs parts (lib.root_as_apply_request parts.payload) n') [
              | inl u ↦ inl (
                  rw (signed, apply_verified)
                    (record {
                      host_kept = u.host_kept;
                      owners_kept = u.owners_kept;
                      provider_kept = u.provider_kept;
                      registry_kept = u.registry_kept;
                      refused = u.refused;
                    }))
              | inr (id, (req, (json, (parsed, (content, (named, (nonempty, reserved))))))) ↦ inr (
                id,
                (
                  record {
                    parts = parts;
                    req = req;
                    json = json;
                    signed = signed;
                    parsed = parsed;
                    content = content;
                    named = named;
                    nonempty = nonempty;
                  },
                  reserved,
                ),
              )
            ]
        | inr (e, unsigned) ↦ inl (
            rw (unsigned, apply_verified)
              (unfold reject in
                record {
                  host_kept = refl;
                  owners_kept = refl;
                  provider_kept = refl;
                  registry_kept = refl;
                  refused = refl;
                }))
      ]

  apply_parsed-eq :
      (req : ApplyRequest) (json id : String) (key : Bytes) (n : Node W)
      → req.manifest_json ≡ some json
      → req.manifest_id ≡ some id
      → apply_parsed lib at mock (some req) key n ≡ apply_manifest lib at mock req json id key n
  unfolding apply_parsed
  apply_parsed-eq req json id key n content named = simp (content, named)

  -- a request for a manifest that is reserved is deployed
  pub apply_manifest_reserved :
      (req : ApplyRequest) (json id : String) (key : Bytes) (n : Node W)
      → id ≢ ""
      → Reserved id n
      → apply_manifest lib at mock req json id key n
        ≡ deploy_reserved lib at mock true req json id key (record n {
          verifier = (has_active_reservation_for_manifest n.verifier at.instant id).0;
        })
  unfolding apply_manifest
  apply_manifest_reserved req json id key n nonempty reserved = elim (Bool-cases (str_eq id "")) [
    | inl empty ↦ absurd (nonempty ((eq_iff id "").0 empty))
    | inr full ↦ rw (full, reserved) refl
  ]

  module _ (bytes : Bytes) (peer : String) (n : Node W) (id : String) (asks : Asks bytes peer n id)
      (reserved : Reserved id n) where
    after_nonces : Node W
    after_nonces = record n {
      nonces =
          (verify_envelope_and_check_nonce_for_peer lib.prim at.nonce_clock n.nonces bytes peer).0;
    }

    apply_request-eq :
        apply_request lib at mock bytes peer n
        ≡ deploy_reserved lib at mock true asks.req asks.json id asks.parts.pubkey
            (record after_nonces {
              verifier = (has_active_reservation_for_manifest n.verifier at.instant id).0;
            })
    unfolding apply_request after_nonces
    apply_request-eq =
        rw (asks.signed, apply_verified)
          (rw (asks.parsed) (
            apply_parsed-eq asks.req asks.json id asks.parts.pubkey after_nonces asks.content
              asks.named
            ∙ apply_manifest_reserved asks.req asks.json id asks.parts.pubkey after_nonces
                asks.nonempty reserved))

    -- A peer whose request for a reserved manifest could be decrypted may delete the manifest
    -- afterwards, and does so as its owner does: whoever owned the manifest before, and whether the
    -- deployment succeeded or not.
    pub apply_request_takes_over :
        (content : Bytes)
        → is_empty asks.parts.pubkey ≡ false
        → decrypt_manifest_content lib asks.json ≡ ok content
        → let n' = (apply_request lib at mock bytes peer n).0 in
          process_delete_request id false asks.parts.pubkey n' ≡ remove_all id n'
    unfolding get_manifest_owner deploy_reserved
    apply_request_takes_over content full opened =
        owner_matches id false asks.parts.pubkey (apply_request lib at mock bytes peer n).0
          (rw apply_request-eq (
            process_manifest_deployment-owner lib at mock asks.req asks.json id asks.parts.pubkey
              content _ asks.named full opened))
          full
