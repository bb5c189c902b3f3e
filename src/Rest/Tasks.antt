-- ===== src/Rest/Tasks.antt =====
-- machineplane/machine/src/restapi/mod.rs: the store of tasks.
use beemesh.Prelude.{
  ℕ, Bytes, String, Bool, true, Option, none, some, List, [], ◌∷◌, map, ◌==◌, if◌then◌else◌,
  unwrap_or, filter,
}
use beemesh.HashMap.{HashMap, get, insert}
use beemesh.Envelope.{canonical_table}
use beemesh.Node.{Libraries, Node}
use beemesh.Node.Deployment.{record_owner}
use beemesh.Rest.{
  EnvelopeMetadata, Reply, Answer, task_create_response, task_status_response, manifest_id_json,
  create_response_with_fallback, create_response_for_envelope_metadata,
}
use beemesh.Rest.Ids.{hash_id, extract_manifest_name}

pub record TaskRecord : Type 0 where
  pub manifest_bytes : Bytes
  pub created_at : ℕ
  pub shares_distributed : HashMap Bool
  pub manifests_distributed : HashMap String
  pub assigned_peers : Option (List String)
  pub manifest_cid : Option String
  pub last_operation_id : Option String
  pub owner_pubkey : Bytes

-- the node, the handlers' store of tasks, and the process-wide OPERATION_MANIFEST_MAPPING
pub record RestState (W : Type 0) : Type 0 where
  pub node : Node W
  pub task_store : HashMap TaskRecord
  pub operation_manifest_mapping : HashMap String

-- FREE_CAPACITY_TIMEOUT_MS
abbrev pub free_capacity_timeout_ms : ℕ
free_capacity_timeout_ms = 500

-- what a new task draws: a UUID, sixteen random bytes, and the clock
pub record Fresh : Type 0 where
  pub uuid : String
  pub envelope_nonce : Bytes
  pub now_ms : ℕ
  pub now : ℕ

-- `DefaultHasher` on a text and on bytes
pub record Hashes : Type 0 where
  pub of_text : String → ℕ
  pub of_bytes : Bytes → ℕ

module _ {Y : Type 0} (lib : Libraries Y) (hashes : Hashes) where
  unfoldable pub manifest_hash : (payload : Bytes) → ℕ
  unfolding extract_manifest_name
  manifest_hash payload = elim (extract_manifest_name lib payload) [
    | none ↦ hashes.of_bytes payload
    | some name ↦ hashes.of_text name
  ]

  -- the id that the caller gives, or else the payload's; `none` is a panic
  unfoldable pub manifest_id_for : (params : HashMap String) → (payload : Bytes) → Option String
  unfolding manifest_hash hash_id
  manifest_id_for params payload = elim (get "manifest_id" params) [
    | some id ↦ some id
    | none ↦ hash_id (manifest_hash payload)
  ]

  -- a payload that begins as an encrypted manifest does is wrapped as an envelope
  unfoldable pub bytes_to_store : Fresh → (payload : Bytes) → Bytes
  bytes_to_store fresh [] = []
  bytes_to_store fresh (first ∷ rest) =
      if first == 2
      then lib.prim.finish (
          canonical_table (first ∷ rest) "manifest" (lib.prim.encode fresh.envelope_nonce)
            fresh.now_ms "ml-kem-512" "" none)
      else first ∷ rest

  unfoldable pub new_task :
      Fresh → (manifest_id operation_id : String) → (owner_pubkey payload : Bytes) → TaskRecord
  unfolding bytes_to_store
  new_task fresh manifest_id operation_id owner_pubkey payload = record {
    manifest_bytes = bytes_to_store fresh payload;
    created_at = fresh.now;
    shares_distributed = [];
    manifests_distributed = [];
    assigned_peers = none;
    manifest_cid = some manifest_id;
    last_operation_id = some operation_id;
    owner_pubkey = owner_pubkey;
  }

  unfoldable pub store_task :
      {W : Type 0}
      → Fresh
      → (manifest_id operation_id : String) → (owner_pubkey payload : Bytes) → RestState W
      → RestState W
  unfolding new_task record_owner
  store_task fresh manifest_id operation_id owner_pubkey payload st = record {
    node = record_owner manifest_id owner_pubkey st.node;
    task_store =
        insert manifest_id (new_task fresh manifest_id operation_id owner_pubkey payload)
          st.task_store;
    operation_manifest_mapping = insert operation_id manifest_id st.operation_manifest_mapping;
  }

  unfoldable pub create_with :
      {W : Type 0}
      → (encrypts : Bytes → Bool) → Fresh
      → (params : HashMap String) → EnvelopeMetadata
      → (payload : Bytes) → Option String
      → RestState W
      → Option (RestState W × Answer)
  unfolding store_task create_response_for_envelope_metadata
  create_with encrypts fresh params metadata payload none st = none
  create_with encrypts fresh params metadata payload (some manifest_id) st = some (
    store_task fresh manifest_id (unwrap_or (get "operation_id" params) fresh.uuid)
        metadata.signing_pubkey payload st,
    create_response_for_envelope_metadata encrypts
        (task_create_response true manifest_id manifest_id free_capacity_timeout_ms) metadata,
  )

  unfoldable pub create_task :
      {W : Type 0}
      → (encrypts : Bytes → Bool) → Fresh
      → (params : HashMap String) → EnvelopeMetadata
      → (payload : Bytes) → RestState W
      → Option (RestState W × Answer)
  unfolding create_with manifest_id_for
  create_task encrypts fresh params metadata payload st =
      create_with encrypts fresh params metadata payload (manifest_id_for params payload) st

abbrev error_status : Reply
error_status = task_status_response "" "Error" [] [] none

-- the mapped id, or else that of the record
unfoldable pub cid_reply : Option String → Option String → Reply
cid_reply (some cid) own = manifest_id_json cid
cid_reply none (some cid) = manifest_id_json cid
cid_reply none none = error_status

unfoldable pub task_status : (task_id : String) → Option TaskRecord → Reply
task_status task_id none = error_status
task_status task_id (some r) =
    task_status_response task_id "Pending" (unwrap_or r.assigned_peers [])
      (map (λ e. e.0) (filter (λ e. e.1) r.shares_distributed)) r.manifest_cid

module _ {W : Type 0} where
  unfoldable pub get_manifest_cid_for_operation :
      (operation_id : String) → RestState W → Option String
  get_manifest_cid_for_operation operation_id st = get operation_id st.operation_manifest_mapping

  unfoldable pub task_cid : Option TaskRecord → RestState W → Reply
  unfolding cid_reply get_manifest_cid_for_operation
  task_cid none st = error_status
  task_cid (some task) st = elim task.last_operation_id [
    | none ↦ error_status
    | some operation_id ↦
        cid_reply (get_manifest_cid_for_operation operation_id st) task.manifest_cid
  ]

  unfoldable pub get_task_manifest_id : (task_id : String) → RestState W → Answer
  unfolding task_cid create_response_with_fallback
  get_task_manifest_id task_id st =
      create_response_with_fallback (task_cid (get task_id st.task_store) st)

  unfoldable pub get_task_status : (task_id : String) → RestState W → Answer
  unfolding task_status create_response_with_fallback
  get_task_status task_id st =
      create_response_with_fallback (task_status task_id (get task_id st.task_store))
