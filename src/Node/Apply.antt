-- ===== src/Node/Apply.antt =====
-- The handlers of apply requests in workload_integration.rs.
use beemesh.Prelude.{
  Bytes, String, Bool, true, false, Option, none, some, [], Result, ok, err, str_eq, if◌then◌else◌,
  unwrap_or,
}
use beemesh.Envelope.{EnvelopeError, VerifiedEnvelopeParts}
use beemesh.Resources.{has_active_reservation_for_manifest}
use beemesh.Node.{
  ApplyRequest, Libraries, Node, Moment, require_signed_messages,
  verify_envelope_and_check_nonce_for_peer,
}
use beemesh.Node.Deployment.{Deploy, DeployError, process_manifest_deployment}

-- the messages of the replies
pub data ApplyMessage : Type 0 where
  unsigned_or_invalid missing_manifest_id no_active_reservation deployed : ApplyMessage
  missing_manifest_json invalid_format : ApplyMessage
  deployment_failed : DeployError → ApplyMessage

-- `build_apply_response`; the operation is the workload's id, the manifest's, or unknown
pub record ApplyResponse : Type 0 where
  pub ok : Bool
  pub operation_id : String
  pub message : ApplyMessage

unfoldable pub reject : (operation_id : String) → ApplyMessage → ApplyResponse
reject operation_id message = record { ok = false; operation_id = operation_id; message = message }

unfoldable pub deployment_reply : Result String DeployError → ApplyResponse
unfolding reject
deployment_reply (ok workload_id) = record {
  ok = true;
  operation_id = workload_id;
  message = deployed;
}
deployment_reply (err e) = reject "unknown" (deployment_failed e)

-- a message of the request-response protocol
pub data Message : Type 0 where
  request response : Bytes → Message

module _ {Y W : Type 0} (lib : Libraries Y) (at : Moment) (mock_deploy : Option (Deploy W)) where
  unfoldable pub deploy_reserved :
      (reserved : Bool)
      → ApplyRequest
      → (manifest_json manifest_id : String) → (owner : Bytes) → Node W
      → Node W × ApplyResponse
  unfolding process_manifest_deployment deployment_reply reject
  deploy_reserved false apply_req manifest_json manifest_id owner n =
      (n, reject manifest_id no_active_reservation)
  deploy_reserved true apply_req manifest_json manifest_id owner n =
      let (n', answer) =
        process_manifest_deployment lib at mock_deploy apply_req manifest_json owner n in
      (n', deployment_reply answer)

  unfoldable pub apply_manifest :
      ApplyRequest
      → (manifest_json manifest_id : String) → (owner : Bytes) → Node W
      → Node W × ApplyResponse
  unfolding deploy_reserved reject
  apply_manifest apply_req manifest_json manifest_id owner n =
      if str_eq manifest_id ""
      then (n, reject "unknown" missing_manifest_id)
      else let (verifier', reserved) =
          has_active_reservation_for_manifest n.verifier at.instant manifest_id in
        deploy_reserved reserved apply_req manifest_json manifest_id owner
          (record n { verifier = verifier' })

  unfoldable pub apply_parsed :
      Option ApplyRequest → (owner : Bytes) → Node W → Node W × ApplyResponse
  unfolding apply_manifest reject
  apply_parsed none owner n = (n, reject "unknown" invalid_format)
  apply_parsed (some apply_req) owner n = elim apply_req.manifest_json [
    | none ↦ (n, reject "unknown" missing_manifest_json)
    | some manifest_json ↦
        apply_manifest apply_req manifest_json (unwrap_or apply_req.manifest_id "") owner n
  ]

  -- behind the verification; without it, a request would be taken as it is, with no owner
  unfoldable pub apply_verified :
      (bytes : Bytes) → Result VerifiedEnvelopeParts EnvelopeError → Node W → Node W × ApplyResponse
  unfolding apply_parsed require_signed_messages reject
  apply_verified bytes (ok parts) n =
      apply_parsed (lib.root_as_apply_request parts.payload) parts.pubkey n
  apply_verified bytes (err e) n =
      if require_signed_messages
      then (n, reject "unknown" unsigned_or_invalid)
      else apply_parsed (lib.root_as_apply_request bytes) [] n

  unfoldable pub apply_request : (bytes : Bytes) → (peer : String) → Node W → Node W × ApplyResponse
  unfolding verify_envelope_and_check_nonce_for_peer apply_verified
  apply_request bytes peer n =
      let (nonces', answer) =
        verify_envelope_and_check_nonce_for_peer lib.prim at.nonce_clock n.nonces bytes peer in
      apply_verified bytes answer (record n { nonces = nonces' })

  -- the reply goes back through the request's channel; a response has none
  unfoldable pub handle_apply_message :
      Message → (peer : String) → Node W → Node W × Option ApplyResponse
  unfolding apply_request
  handle_apply_message (request bytes) peer n =
      let (n', reply) = apply_request bytes peer n in (n', some reply)
  handle_apply_message (response bytes) peer n = (n, none)

  -- The node's own request: `own_key` is the default signing key, where there is one. No reply is
  -- sent.
  unfoldable pub self_apply_parsed :
      (own_key : Option Bytes) → Option ApplyRequest → Node W → Node W
  unfolding process_manifest_deployment
  self_apply_parsed own_key none n = n
  self_apply_parsed own_key (some apply_req) n = elim apply_req.manifest_json [
    | none ↦ n
    | some manifest_json ↦
        (process_manifest_deployment lib at mock_deploy apply_req manifest_json
          (unwrap_or own_key []) n).0
  ]

  unfoldable pub process_enhanced_self_apply_request :
      (own_key : Option Bytes) → (manifest : Bytes) → Node W → Node W
  unfolding self_apply_parsed
  process_enhanced_self_apply_request own_key manifest n =
      self_apply_parsed own_key (lib.root_as_apply_request manifest) n
