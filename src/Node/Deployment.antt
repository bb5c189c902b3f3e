-- ===== src/Node/Deployment.antt =====
-- How workload_integration.rs deploys the manifest of a request.
use beemesh.Prelude.{
  Bytes, String, Bool, false, Option, none, some, [], ◌∷◌, Result, ok, err, ◌>>=◌, ◌==◌, str_eq,
  if◌then◌else◌, unwrap_or, is_some, is_empty,
}
use beemesh.HashMap.{HashMap, get, insert}
use beemesh.HashMap.Laws.{map_option}
use beemesh.Provider.{announce_provider}
use beemesh.Runtime.{
  RuntimeError, RuntimeResult, WorkloadInfo, DeploymentConfig, default_deployment_config,
}
use beemesh.Runtime.Registry.{RuntimeEngine, RuntimeRegistry, get_engine, check_available_engines}
use beemesh.Node.{ApplyRequest, Libraries, Node, Moment, record_manifest_owner}

pub data DeployError : Type 0 where
  bad_base64 bad_envelope missing_payload unsupported_payload decryption_failed not_utf8 :
      DeployError
  bad_yaml no_suitable_engine registry_not_initialized : DeployError
  engine_not_available : String → DeployError
  engine_failed : RuntimeError → DeployError

abbrev pub or_error {ℓ} : {A : Type ℓ} → DeployError → Option A → Result A DeployError
or_error e none = err e
or_error e (some a) = ok a

abbrev pub and_then {ℓ κ} : {A : Type ℓ} {B : Type κ} → Option A → (A → Option B) → Option B
and_then none f = none
and_then (some a) f = f a

unfoldable pub has_version : Bytes → Bool
has_version [] = false
has_version (b ∷ _) = b == 2

module _ {Y : Type 0} (lib : Libraries Y) where
  open lib use {
    prim, as_bytes, from_utf8, from_utf8_lossy, from_yaml, to_yaml, field, set_field, is_mapping,
    insert_key, as_str, one, decrypt,
  }

  unfoldable pub decrypt_manifest_from_envelope :
      (payload_bytes : Bytes) → Result String DeployError
  unfolding has_version
  decrypt_manifest_from_envelope payload_bytes =
      if has_version payload_bytes
      then (do
        plaintext ← or_error decryption_failed (decrypt payload_bytes)
        or_error not_utf8 (from_utf8 plaintext))
      else err unsupported_payload

  -- behind the envelope's parsing; a payload that is no manifest leaves the request's text
  unfoldable pub decrypt_typed :
      (manifest_json payload_type : String) → (payload : Option Bytes) → Result Bytes DeployError
  unfolding decrypt_manifest_from_envelope
  decrypt_typed manifest_json payload_type payload =
      if str_eq payload_type "manifest"
      then (do
        payload_bytes ← or_error missing_payload payload
        content ← decrypt_manifest_from_envelope payload_bytes
        ok (as_bytes content))
      else ok (as_bytes manifest_json)

  unfoldable pub decrypt_manifest_content : (manifest_json : String) → Result Bytes DeployError
  unfolding decrypt_typed
  decrypt_manifest_content manifest_json = do
    envelope_bytes ← or_error bad_base64 (prim.decode manifest_json)
    envelope ← or_error bad_envelope (prim.root_as_envelope envelope_bytes)
    decrypt_typed manifest_json (unwrap_or envelope.payload_type "") envelope.payload

  unfoldable pub with_replicas : Y → Y
  with_replicas mapping = if is_mapping mapping then insert_key "replicas" one mapping else mapping

  -- the document with its `spec`, where there is one
  unfoldable pub set_replicas : Option Y → Y → Y
  unfolding with_replicas
  set_replicas (some spec) doc =
      if is_mapping spec then set_field "spec" (insert_key "replicas" one spec) doc else doc
  set_replicas none doc = if is_some (field "replicas" doc) then with_replicas doc else doc

  unfoldable pub modify_parsed : (manifest_content : Bytes) → Option Y → Result Bytes DeployError
  unfolding set_replicas
  modify_parsed manifest_content none = ok manifest_content
  modify_parsed manifest_content (some doc) = do
    modified_yaml ← or_error bad_yaml (to_yaml (set_replicas (field "spec" doc) doc))
    ok (as_bytes modified_yaml)

  unfoldable pub modify_manifest_replicas : (manifest_content : Bytes) → Result Bytes DeployError
  unfolding modify_parsed
  modify_manifest_replicas manifest_content =
      modify_parsed manifest_content (from_yaml (from_utf8_lossy manifest_content))

  -- the engine that the manifest's annotation names
  unfoldable pub engine_annotation : (manifest_content : Bytes) → Option String
  engine_annotation manifest_content =
      and_then (from_yaml (from_utf8_lossy manifest_content)) λ doc.
        and_then (field "metadata" doc) λ metadata.
          and_then (field "annotations" metadata)
            λ annotations. and_then (field "beemesh.io/runtime-engine" annotations) as_str

unfoldable pub add_operation : Option String → DeploymentConfig → DeploymentConfig
add_operation none config = config
add_operation (some operation_id) config = record config {
  env = insert "BEEMESH_OPERATION_ID" operation_id config.env;
}

unfoldable pub create_deployment_config : ApplyRequest → DeploymentConfig
unfolding add_operation
create_deployment_config apply_req =
    add_operation apply_req.operation_id
      (record default_deployment_config { replicas = apply_req.replicas })

unfoldable pub best_available : HashMap Bool → Result String DeployError
best_available available =
    if unwrap_or (get "podman" available) false
    then ok "podman"
    else if unwrap_or (get "docker" available) false
    then ok "docker"
    else if unwrap_or (get "mock" available) false
    then ok "mock"
    else err no_suitable_engine

-- What the call of an engine for a deployment is. In a debug build, the mock engine's is another
-- than the interface's, and takes the node's own peer id.
abbrev pub Deploy : Type 0 → Type 0
Deploy W =
    (manifest_id : String)
    → Bytes
    → DeploymentConfig
    → (local_peer_id : String) → W
    → W × RuntimeResult WorkloadInfo

module _ {W : Type 0} where
  unfoldable pub best_of : Option (RuntimeRegistry W) → W → Result String DeployError
  unfolding best_available check_available_engines
  best_of none w = err no_suitable_engine
  best_of (some registry) w = best_available (check_available_engines registry w)

  unfoldable pub named_or_best :
      Option String → Option (RuntimeRegistry W) → W → Result String DeployError
  unfolding best_of
  named_or_best (some engine) registry w = ok engine
  named_or_best none registry w = best_of registry w

  unfoldable pub select_runtime_engine :
      {Y : Type 0} → Libraries Y → (manifest_content : Bytes) → Node W → Result String DeployError
  unfolding named_or_best engine_annotation
  select_runtime_engine lib manifest_content n =
      named_or_best (engine_annotation lib manifest_content) n.registry n.host

  unfoldable pub find_engine :
      (engine_name : String) → Option (RuntimeRegistry W) → Result (RuntimeEngine W) DeployError
  unfolding get_engine
  find_engine engine_name none = err registry_not_initialized
  find_engine engine_name (some registry) =
      or_error (engine_not_available engine_name) (get_engine engine_name registry)

  -- `mock_deploy` is there in a debug build
  unfoldable pub deploy_with :
      (mock_deploy : Option (Deploy W)) → (engine_name : String) → RuntimeEngine W → Deploy W
  deploy_with none engine_name engine id content config peer =
      engine.deploy_workload id content config
  deploy_with (some mock) engine_name engine id content config peer =
      if str_eq engine_name "mock"
      then mock id content config peer
      else engine.deploy_workload id content config

  unfoldable pub announce :
      Moment → (manifest_id engine_name workload_id : String) → Node W → Node W
  unfolding announce_provider
  announce at manifest_id engine_name workload_id n = record n {
    provider_manager =
        map_option
          (λ m.
            (announce_provider at.t_announced at.t_seen at.dht at.local_peer_id manifest_id
              (("runtime_engine", engine_name)
                ∷ ("workload_id", workload_id)
                ∷ ("node_type", "beemesh-machine")
                ∷ [])
              m).0)
          n.provider_manager;
  }

  -- behind the engine's answer
  unfoldable pub finish_deployment :
      Moment
      → (manifest_id engine_name : String) → W × RuntimeResult WorkloadInfo
      → Node W
      → Node W × Result String DeployError
  unfolding announce
  finish_deployment at manifest_id engine_name (w, err e) n =
      (record n { host = w }, err (engine_failed e))
  finish_deployment at manifest_id engine_name (w, ok info) n =
      (announce at manifest_id engine_name info.id (record n { host = w }), ok info.id)

  -- the node's engine, and what is to be deployed on it
  unfoldable pub prepare :
      {Y : Type 0}
      → Libraries Y
      → (manifest_content : Bytes) → Node W
      → Result (Bytes × String × RuntimeEngine W) DeployError
  unfolding modify_manifest_replicas select_runtime_engine find_engine
  prepare lib manifest_content n = do
    content ← modify_manifest_replicas lib manifest_content
    engine_name ← select_runtime_engine lib content n
    engine ← find_engine engine_name n.registry
    ok (content, engine_name, engine)

  unfoldable pub deploy_prepared :
      Moment
      → Option (Deploy W)
      → ApplyRequest
      → (manifest_id : String) → Result (Bytes × String × RuntimeEngine W) DeployError
      → Node W
      → Node W × Result String DeployError
  unfolding create_deployment_config deploy_with finish_deployment
  deploy_prepared at mock_deploy apply_req manifest_id (err e) n = (n, err e)
  deploy_prepared at mock_deploy apply_req manifest_id (ok (content, engine_name, engine)) n =
      finish_deployment at manifest_id engine_name
        (deploy_with mock_deploy engine_name engine manifest_id content
          (create_deployment_config apply_req) at.local_peer_id n.host)
        n

  -- an empty key is not recorded
  unfoldable pub record_owner : (manifest_id : String) → Bytes → Node W → Node W
  unfolding record_manifest_owner
  record_owner manifest_id owner_pubkey n =
      if is_empty owner_pubkey then n else record_manifest_owner manifest_id owner_pubkey n

  unfoldable pub deploy_decrypted :
      {Y : Type 0}
      → Libraries Y
      → Moment
      → Option (Deploy W)
      → ApplyRequest
      → Bytes
      → Result Bytes DeployError
      → Node W
      → Node W × Result String DeployError
  unfolding record_owner prepare deploy_prepared
  deploy_decrypted lib at mock_deploy apply_req owner_pubkey (err e) n = (n, err e)
  deploy_decrypted lib at mock_deploy apply_req owner_pubkey (ok content) n =
      let id = unwrap_or apply_req.manifest_id "unknown" in
      let owned = record_owner id owner_pubkey n in
      deploy_prepared at mock_deploy apply_req id (prepare lib content owned) owned

  unfoldable pub process_manifest_deployment :
      {Y : Type 0}
      → Libraries Y
      → Moment
      → Option (Deploy W)
      → ApplyRequest
      → (manifest_json : String) → (owner_pubkey : Bytes) → Node W
      → Node W × Result String DeployError
  unfolding decrypt_manifest_content deploy_decrypted
  process_manifest_deployment lib at mock_deploy apply_req manifest_json owner_pubkey n =
      deploy_decrypted lib at mock_deploy apply_req owner_pubkey
        (decrypt_manifest_content lib manifest_json) n
