-- ===== src/Node/Delete.antt =====
-- machineplane/machine/src/libp2p_beemesh/behaviour/delete_message.rs: who may delete a manifest's
-- workloads, and what is done then. The work of the spawned task is a function of the node.
use beemesh.Prelude.{
  ℕ, Bytes, String, Bool, true, false, ◌&&◌, Option, none, some, List, [], ◌∷◌, Result, ok, err,
  ◌==◌, if◌then◌else◌, unwrap_or, is_empty, length,
}
use beemesh.Envelope.{VerifiedEnvelopeParts}
use beemesh.Node.{DeleteRequest, Libraries, Node, get_manifest_owner, verify_signed_message}
use beemesh.Node.Deployment.{DeployError}
use beemesh.Node.Removal.{remove_workloads_by_manifest_id}

pub data OwnershipStatus : Type 0 where
  matches mismatch unknown : OwnershipStatus

-- `==` on `Vec<u8>`
unfoldable pub same_bytes : Bytes → Bytes → Bool
same_bytes [] [] = true
same_bytes [] (b ∷ bs) = false
same_bytes (a ∷ xs) [] = false
same_bytes (a ∷ xs) (b ∷ bs) = a == b && same_bytes xs bs

unfoldable pub compare_owner :
    (stored_owner : Option Bytes) → (envelope_pubkey : Bytes) → OwnershipStatus
unfolding same_bytes
compare_owner none envelope_pubkey = unknown
compare_owner (some owner_pubkey) envelope_pubkey =
    if is_empty owner_pubkey
    then unknown
    else if same_bytes owner_pubkey envelope_pubkey
    then matches
    else mismatch

pub data DeleteMessage : Type 0 where
  not_owner owner_unknown no_workloads : DeleteMessage
  removed : (count : ℕ) → DeleteMessage
  removal_failed : DeployError → DeleteMessage

-- `success`, `message` and `removed_workloads`
abbrev pub Outcome : Type 0
Outcome = Bool × DeleteMessage × List String

unfoldable pub removal_outcome : Result (List String) DeployError → Outcome
removal_outcome (ok []) = (true, no_workloads, [])
removal_outcome (ok (w ∷ ws)) = (true, removed (length (w ∷ ws)), w ∷ ws)
removal_outcome (err e) = (false, removal_failed e, [])

module _ {W : Type 0} where
  unfoldable pub verify_delete_ownership :
      (manifest_id : String) → (envelope_pubkey : Bytes) → Node W → OwnershipStatus
  unfolding get_manifest_owner compare_owner
  verify_delete_ownership manifest_id envelope_pubkey n =
      compare_owner (get_manifest_owner manifest_id n) envelope_pubkey

  unfoldable pub remove_all : (manifest_id : String) → Node W → Node W × Outcome
  unfolding remove_workloads_by_manifest_id removal_outcome
  remove_all manifest_id n =
      let (n', answer) = remove_workloads_by_manifest_id manifest_id n in
      (n', removal_outcome answer)

  unfoldable pub delete_as :
      OwnershipStatus → (manifest_id : String) → (force : Bool) → Node W → Node W × Outcome
  unfolding remove_all
  delete_as matches manifest_id force n = remove_all manifest_id n
  delete_as mismatch manifest_id force n =
      if force then remove_all manifest_id n else (n, (false, not_owner, []))
  delete_as unknown manifest_id force n = (n, (false, owner_unknown, []))

  unfoldable pub process_delete_request :
      (manifest_id : String)
      → (force : Bool) → (envelope_pubkey : Bytes) → Node W
      → Node W × Outcome
  unfolding verify_delete_ownership delete_as
  process_delete_request manifest_id force envelope_pubkey n =
      delete_as (verify_delete_ownership manifest_id envelope_pubkey n) manifest_id force n

-- the immediate reply: an error, or an acknowledgement of the operation and the manifest
pub data DeleteReply : Type 0 where
  unsigned invalid_format : DeleteReply
  acknowledged : (operation_id manifest_id : String) → DeleteReply

module _ {Y W : Type 0} (lib : Libraries Y) where
  unfoldable pub delete_parsed :
      Option DeleteRequest → (pubkey : Bytes) → Node W → Node W × DeleteReply
  unfolding process_delete_request
  delete_parsed none pubkey n = (n, invalid_format)
  delete_parsed (some delete_req) pubkey n = (
    (process_delete_request (unwrap_or delete_req.manifest_id "") delete_req.force pubkey n).0,
    acknowledged (unwrap_or delete_req.operation_id "unknown")
        (unwrap_or delete_req.manifest_id "unknown"),
  )

  unfoldable pub delete_verified : Option VerifiedEnvelopeParts → Node W → Node W × DeleteReply
  unfolding delete_parsed
  delete_verified none n = (n, unsigned)
  delete_verified (some parts) n =
      delete_parsed (lib.root_as_delete_request parts.payload) parts.pubkey n

  -- a request, with the spawned task run to its end
  unfoldable pub delete_message :
      (nonce_clock : ℕ) → (bytes : Bytes) → (peer : String) → Node W → Node W × DeleteReply
  unfolding verify_signed_message delete_verified
  delete_message nonce_clock bytes peer n =
      let (nonces', verified) = verify_signed_message lib.prim nonce_clock n.nonces peer bytes in
      delete_verified verified (record n { nonces = nonces' })
