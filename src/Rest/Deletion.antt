-- ===== src/Rest/Deletion.antt =====
-- machineplane/machine/src/restapi/mod.rs: the deletion of a task on every node that provides it.
use Prim.Native.String.{◌++◌ as append}
use beemesh.Prelude.{
  ℕ, ◌+◌, Bytes, String, Bool, true, false, not, Option, none, some, List, [], ◌∷◌, ◌++◌, Result,
  ok, err, str_eq, if◌then◌else◌, unwrap_or, is_empty, length,
}
use beemesh.Text.{codes, to_decimal}
use beemesh.Text.Affixes.{contains}
use beemesh.Node.{Libraries, Node}
use beemesh.Node.Deployment.{DeployError}
use beemesh.Node.Removal.{remove_workloads_by_manifest_id}
use beemesh.Rest.{
  EnvelopeMetadata, Reply, Answer, delete_response, create_response_for_envelope_metadata,
}

-- how a wait for a reply ends
pub data Received (A : Type 0) : Type 0 where
  received : A → Received A
  closed timed_out : Received A

-- What the control channel answers, where the message could be sent: the providers that the DHT
-- names, the node's own peer id, and what a peer says to a delete request with this manifest, id,
-- origin and force flag, or to a manifest. `peer_error` says why a text is no peer id. The DHT and
-- the node print peer ids alike, so two of them are equal where their texts are.
pub record Control : Type 0 where
  pub holders : (manifest_id : String) → Option (Received (List String))
  pub local_peer : Option (Received String)
  pub peer_error : String → Option String
  pub ask_delete :
      (peer manifest_id operation_id origin : String)
      → (force : Bool) → Option (Received (Result String String))
  pub ask_apply : (peer : String) → (manifest : Bytes) → Option (Received (Result String String))
  pub send_error : String
  pub debug_list : List String → String
  pub error_text : DeployError → String

unfoldable pub found : Option (Received (List String)) → List String
found none = []
found (some (received providers)) = providers
found (some closed) = []
found (some timed_out) = []

unfoldable pub find_manifest_providers : Control → (task_id : String) → List String
unfolding found
find_manifest_providers c task_id = found (c.holders task_id)

unfoldable pub replied :
    (send_error : String) → Option (Received (Result String String)) → Result String String
replied send_error none =
    err (append "Failed to send delete request to libp2p control: " send_error)
replied send_error (some (received result)) = result
replied send_error (some closed) = err "Reply channel closed"
replied send_error (some timed_out) = err "Request timed out"

unfoldable pub send_delete_request_to_peer :
    Control
    → (peer manifest_id operation_id origin : String) → (force : Bool) → Result String String
unfolding replied
send_delete_request_to_peer c peer manifest_id operation_id origin force =
    elim (c.peer_error peer) [
      | none ↦ replied c.send_error (c.ask_delete peer manifest_id operation_id origin force)
      | some e ↦ err (append "Invalid peer ID '" (append peer (append "': " e)))
    ]

unfoldable pub local_result :
    Control → Result (List String) DeployError → Result (List String) String
local_result c (ok removed_workloads) = ok removed_workloads
local_result c (err e) = err (append "local deletion failed: " (c.error_text e))

-- the force flag is not looked at
unfoldable pub handle_local_delete :
    {W : Type 0}
    → Control
    → (manifest_id : String) → (force : Bool) → Node W
    → Node W × Result (List String) String
unfolding local_result
handle_local_delete c manifest_id _ n =
    let (n', answer) = remove_workloads_by_manifest_id manifest_id n in (n', local_result c answer)

-- what the loop over the providers has so far
pub record Deletes : Type 0 where
  pub successful : List String
  pub failed : List String
  pub removed : List String

unfoldable pub note_local : (provider : String) → Result (List String) String → Deletes → Deletes
note_local provider (ok workloads) r = record r {
  successful = r.successful ++ provider ∷ [];
  removed = r.removed ++ workloads;
}
note_local provider (err e) r = record r {
  failed = r.failed ++ append provider (append ":self_delete_failed:" e) ∷ [];
}

unfoldable pub note_remote : (provider : String) → Result String String → Deletes → Deletes
note_remote provider (ok _) r = record r { successful = r.successful ++ provider ∷ [] }
note_remote provider (err e) r = record r {
  failed = r.failed ++ append provider (append ":" e) ∷ [];
}

unfoldable pub delete_message : Control → Deletes → String
unfolding to_decimal
delete_message c r =
    if is_empty r.successful
    then append "Failed to send delete requests to any providers: " (c.debug_list r.failed)
    else if is_empty r.failed
    then append "Delete requests sent to " (append (to_decimal (length r.successful)) " providers")
    else append "Delete requests sent to " (
        append (to_decimal (length r.successful)) (
          append "/" (
            append (to_decimal (length r.successful + length r.failed))
              (append " providers. Failures: " (c.debug_list r.failed)))))

unfoldable pub delete_reply : Control → (task_id operation_id : String) → Deletes → Reply
unfolding delete_message
delete_reply c task_id operation_id r =
    delete_response (not (is_empty r.successful)) operation_id (delete_message c r) task_id
      r.removed

module _ {W : Type 0} (c : Control) (task_id operation_id origin : String) (force : Bool) where
  unfoldable pub delete_on_peer : (local provider : String) → Node W × Deletes → Node W × Deletes
  unfolding note_local note_remote handle_local_delete send_delete_request_to_peer
  delete_on_peer local provider (n, r) =
      if str_eq provider local
      then (let (n', answer) = handle_local_delete c task_id force n in
          (n', note_local provider answer r))
      else (
        n,
        note_remote provider
            (send_delete_request_to_peer c provider task_id operation_id origin force) r,
      )

  unfoldable pub delete_if_peer :
      (local provider : String) → Option String → Node W × Deletes → Node W × Deletes
  unfolding delete_on_peer
  delete_if_peer local provider none s = delete_on_peer local provider s
  delete_if_peer local provider (some _) (n, r) =
      (n, record r { failed = r.failed ++ append provider ":invalid_peer_id" ∷ [] })

  unfoldable pub delete_each : (local : String) → List String → Node W × Deletes → Node W × Deletes
  delete_each local [] s = s
  delete_each local (provider ∷ providers) s =
      delete_each local providers (delete_if_peer local provider (c.peer_error provider) s)

  unfoldable pub delete_as : Option (Received String) → List String → Node W → Node W × Reply
  unfolding delete_each delete_reply
  delete_as none providers n = (
    n,
    delete_response false operation_id (append "Failed to get local peer ID: " c.send_error) task_id
        [],
  )
  delete_as (some closed) providers n =
      (n, delete_response false operation_id "Timeout getting local peer ID" task_id [])
  delete_as (some timed_out) providers n =
      (n, delete_response false operation_id "Timeout getting local peer ID" task_id [])
  delete_as (some (received local)) providers n =
      let (n', r) =
        delete_each local providers (n, record { successful = []; failed = []; removed = [] }) in
      (n', delete_reply c task_id operation_id r)

  unfoldable pub delete_on : (providers : List String) → Node W → Node W × Reply
  unfolding delete_as
  delete_on [] n = (n, delete_response true operation_id "No providers found for task" task_id [])
  delete_on (provider ∷ providers) n = delete_as c.local_peer (provider ∷ providers) n

-- `now_ms` is the clock; the force flag is read from the body
unfoldable pub delete_task :
    {W Y : Type 0}
    → Libraries Y
    → Control
    → (encrypts : Bytes → Bool) → (now_ms : ℕ) → (task_id : String) → EnvelopeMetadata
    → (body : Bytes) → Node W
    → Node W × Answer
unfolding delete_on find_manifest_providers contains to_decimal
    create_response_for_envelope_metadata
delete_task lib c encrypts now_ms task_id metadata body n =
    let (n', reply) =
      delete_on c task_id (append "delete-" (append task_id (append "-" (to_decimal now_ms))))
        (unwrap_or metadata.peer_id "unknown")
        (contains (codes "force=true") (codes (lib.from_utf8_lossy body)))
        (find_manifest_providers c task_id) n in
    (n', create_response_for_envelope_metadata encrypts reply metadata)
