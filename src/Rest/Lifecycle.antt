-- ===== src/Rest/Lifecycle.antt =====
-- What the store of tasks and the node hold after a task was created.
use beemesh.Prelude.{
  ◌≡◌, refl, ◌∙◌, Bytes, String, Bool, true, Option, none, some, [], eq_iff, if◌then◌else◌,
  unwrap_or, is_empty, Bool-cases, inl, inr,
}
use beemesh.HashMap.{HashMap, get, insert}
use beemesh.HashMap.Laws.{get-insert}
use beemesh.Node.{Libraries, record_manifest_owner}
use beemesh.Node.Deployment.{record_owner}
use beemesh.Rest.{
  EnvelopeMetadata, task_create_response, task_status_response, manifest_id_json,
  create_response_for_envelope_metadata, Answer, Reply, create_encrypted_response_with_key,
}
use beemesh.Rest.Tasks.{
  RestState, Fresh, Hashes, free_capacity_timeout_ms, manifest_id_for, new_task, store_task,
  create_with, create_task, get_task_manifest_id, get_task_status, task_cid, task_status, cid_reply,
  get_manifest_cid_for_operation,
}

get-insert_self {ℓ} :
    {V : Type ℓ} (k : String) (v : V) (m : HashMap V) → get k (insert k v m) ≡ some v
get-insert_self k v m = get-insert k k v m ∙ rw ((eq_iff k k).1 refl) refl

encrypted_reply :
    (encrypts : Bytes → Bool) (reply : Reply) (peer_id : Option String) (key : Bytes)
    → (create_encrypted_response_with_key encrypts reply peer_id key).reply ≡ reply
unfolding create_encrypted_response_with_key
encrypted_reply encrypts reply none key = refl
encrypted_reply encrypts reply (some peer_id) key = elim (Bool-cases (encrypts key)) [
  | inl sealed ↦ rw sealed refl
  | inr plain ↦ rw plain refl
]

pub same_reply :
    (encrypts : Bytes → Bool) (reply : Reply) (metadata : EnvelopeMetadata)
    → (create_response_for_envelope_metadata encrypts reply metadata).reply ≡ reply
unfolding create_response_for_envelope_metadata
same_reply encrypts reply metadata = elim (Bool-cases (is_empty metadata.kem_pubkey)) [
  | inl plain ↦ rw plain refl
  | inr keyed ↦ rw keyed (encrypted_reply encrypts reply metadata.peer_id metadata.kem_pubkey)
]

module _ {Y W : Type 0} (lib : Libraries Y) (hashes : Hashes) where
  owner-store_task :
      (fresh : Fresh) (id operation : String) (owner payload : Bytes) (st : RestState W)
      → get id (store_task lib hashes fresh id operation owner payload st).node.owners
        ≡ (if is_empty owner then get id st.node.owners else some owner)
  unfolding store_task record_owner record_manifest_owner
  owner-store_task fresh id operation owner payload st = elim (Bool-cases (is_empty owner)) [
    | inl missing ↦ rw missing refl
    | inr there ↦ rw there (get-insert_self id owner st.node.owners)
  ]

  cid-store_task :
      (fresh : Fresh) (id operation : String) (owner payload : Bytes) (st : RestState W)
      → (get_task_manifest_id id (store_task lib hashes fresh id operation owner payload st)).reply
        ≡ manifest_id_json id
  unfolding get_task_manifest_id store_task task_cid new_task get_manifest_cid_for_operation
  cid-store_task fresh id operation owner payload st =
      rw
        (
          get-insert_self id (new_task lib hashes fresh id operation owner payload) st.task_store,
          get-insert_self operation id st.operation_manifest_mapping,
        )
        (unfold cid_reply in refl)

  status-store_task :
      (fresh : Fresh) (id operation : String) (owner payload : Bytes) (st : RestState W)
      → (get_task_status id (store_task lib hashes fresh id operation owner payload st)).reply
        ≡ task_status_response id "Pending" [] [] (some id)
  unfolding get_task_status store_task task_status new_task
  status-store_task fresh id operation owner payload st =
      rw (get-insert_self id (new_task lib hashes fresh id operation owner payload) st.task_store)
        refl

  -- what a created task is: the reply, what the task is asked after, and the owner
  abbrev pub Created :
      (id : String) → EnvelopeMetadata → RestState W → RestState W × Answer → Type 0
  Created id metadata st (st', answer) =
      (answer.reply ≡ task_create_response true id id free_capacity_timeout_ms)
      × ((get_task_manifest_id id st').reply ≡ manifest_id_json id)
      × ((get_task_status id st').reply ≡ task_status_response id "Pending" [] [] (some id))
      × (get id st'.node.owners ≡ (
          if is_empty metadata.signing_pubkey
          then get id st.node.owners
          else some metadata.signing_pubkey))

  create_with-Created :
      (encrypts : Bytes → Bool) (fresh : Fresh) (params : HashMap String)
      (metadata : EnvelopeMetadata) (payload : Bytes) (named : Option String) (id : String)
      (st : RestState W)
      → named ≡ some id
      → (done : RestState W × Answer) × (create_with lib hashes encrypts fresh params metadata
            payload named st
          ≡ some done)
        × Created id metadata st done
  unfolding create_with
  create_with-Created encrypts fresh params metadata payload none id st e = cc
  create_with-Created encrypts fresh params metadata payload (some named) id st e =
      let same : named ≡ id = cc in
      let operation = unwrap_or (get "operation_id" params) fresh.uuid in
      let owner = metadata.signing_pubkey in
      rw same (
        _,
        refl,
        (
          same_reply encrypts (task_create_response true id id free_capacity_timeout_ms) metadata,
          cid-store_task fresh id operation owner payload st,
          status-store_task fresh id operation owner payload st,
          owner-store_task fresh id operation owner payload st,
        ),
      )

  -- Where the manifest has an id, given or hashed, the task is created under it: the reply names
  -- it, the task is pending under that id with no peers, and its manifest id is found again. The
  -- key in the request's envelope, if there is one, becomes the owner of the manifest, whoever owned
  -- it before.
  pub create_task-Created :
      (encrypts : Bytes → Bool) (fresh : Fresh) (params : HashMap String)
      (metadata : EnvelopeMetadata) (payload : Bytes) (id : String) (st : RestState W)
      → manifest_id_for lib hashes params payload ≡ some id
      → (done : RestState W × Answer) × (create_task lib hashes encrypts fresh params metadata
            payload st
          ≡ some done)
        × Created id metadata st done
  unfolding create_task
  create_task-Created encrypts fresh params metadata payload id st e =
      create_with-Created encrypts fresh params metadata payload _ id st e
