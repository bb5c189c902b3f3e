-- ===== src/Engines/Mock/Operations.antt =====
-- machineplane/machine/src/runtime/mock.rs: the engine's operations, and the engine.
use Prim.Native.String.{◌++◌ as append}
use mathlib.Core.List.{reverse}
use beemesh.Prelude.{
  ℕ, Bytes, String, Bool, true, ◌||◌, Option, none, some, List, [], ◌∷◌, map, ok, err, str_eq, ltb,
  if◌then◌else◌, is_some, is_empty, unwrap_or, take, sort_by,
}
use beemesh.HashMap.{HashMap, get, insert, remove, values}
use beemesh.Text.{join, to_decimal}
use beemesh.Text.Affixes.{trim}
use beemesh.Runtime.{
  RuntimeResult, WorkloadInfo, DeploymentConfig, PortMapping, ResourceLimits, invalid_manifest,
  deployment_failed, workload_not_found,
}
use beemesh.Runtime.Registry.{RuntimeEngine}
use beemesh.Node.{Libraries}
use beemesh.Engines.{System, deployed_info}
use beemesh.Engines.Mock.{
  MockWorkload, MockConfig, Books, parse_manifest_metadata, generate_workload_id,
  generate_workload_id_with_peer, generate_port_mappings,
}

abbrev log_lines : List String
log_lines =
    "2024-01-01T00:00:00Z [INFO] Mock workload started"
    ∷ "2024-01-01T00:00:01Z [INFO] Initializing services"
    ∷ "2024-01-01T00:00:02Z [INFO] Services ready"
    ∷ "2024-01-01T00:00:03Z [INFO] Workload running normally"
    ∷ "2024-01-01T00:00:04Z [DEBUG] Processing requests"
    ∷ "2024-01-01T00:00:05Z [INFO] Health check passed" ∷ []

-- `rev().take(n).rev()`
unfoldable pub last_lines : (tail : Option ℕ) → List String → List String
last_lines none lines = lines
last_lines (some n) lines = reverse (take n (reverse lines))

unfoldable pub mock_logs : (tail : Option ℕ) → WorkloadInfo → String
unfolding last_lines join
mock_logs tail info = join "" (
    join "\n" (last_lines tail log_lines)
    ∷ "\n2024-01-01T00:00:06Z [INFO] Mock logs for workload "
    ∷ info.id
    ∷ " (manifest_id: "
    ∷ info.manifest_id
    ∷ ")"
    ∷ [])

unfoldable pub port_lines : List PortMapping → String
unfolding to_decimal
port_lines [] = ""
port_lines (port ∷ ports) = append "\n        - containerPort: " (
    append (to_decimal port.container_port)
      (append "\n          protocol: " (append port.protocol (port_lines ports))))

unfoldable pub env_lines : HashMap String → String
env_lines [] = ""
env_lines ((key, value) ∷ rest) =
    append "\n        - name: "
      (append key (append "\n          value: \"" (append value (append "\"" (env_lines rest)))))

unfoldable pub limit_line : (front : String) → Option String → String
limit_line front none = ""
limit_line front (some text) = append front (append text "\"")

abbrev map_text : (ℕ → String) → Option ℕ → Option String
map_text text none = none
map_text text (some n) = some (text n)

unfoldable pub resource_lines : (f64_text : ℕ → String) → ResourceLimits → String
unfolding limit_line to_decimal
resource_lines f64_text resources =
    if is_some resources.cpu || is_some resources.memory
    then append "\n        resources:\n          limits:" (
        append (limit_line "\n            cpu: \"" (map_text f64_text resources.cpu))
          (limit_line "\n            memory: \"" (map_text to_decimal resources.memory)))
    else ""

-- the manifest that is made up from what the books have of a workload
unfoldable pub mock_manifest : (f64_text : ℕ → String) → MockWorkload → String
unfolding join to_decimal port_lines env_lines resource_lines
mock_manifest f64_text workload =
    let info = workload.info in
    let config = workload.config in
    let name = unwrap_or (get "name" info.metadata) info.id in
    join "" (
      "apiVersion: "
      ∷ unwrap_or (get "apiVersion" info.metadata) "apps/v1"
      ∷ "\nkind: "
      ∷ unwrap_or (get "kind" info.metadata) "Deployment"
      ∷ "\nmetadata:\n  name: "
      ∷ name
      ∷ "\n  namespace: "
      ∷ unwrap_or (get "namespace" info.metadata) "default"
      ∷ "\n  labels:\n    beemesh.io/workload-id: "
      ∷ info.id
      ∷ "\n    beemesh.io/manifest-id: "
      ∷ info.manifest_id
      ∷ "\n    beemesh.io/generated: \"true\"\nspec:\n  replicas: "
      ∷ to_decimal config.replicas
      ∷ "\n  selector:\n    matchLabels:\n      app: "
      ∷ name
      ∷ "\n  template:\n    metadata:\n      labels:\n        app: "
      ∷ name
      ∷ "\n        beemesh.io/workload-id: "
      ∷ info.id
      ∷ "\n    spec:\n      containers:\n      - name: mock-container\n        image: mock:latest\n        ports:"
      ∷ (if is_empty info.ports
          then "\n        - containerPort: 80\n          protocol: TCP"
          else port_lines info.ports)
      ∷ (if is_empty config.env then "" else append "\n        env:" (env_lines config.env))
      ∷ resource_lines f64_text config.resources
      ∷ [])

abbrev pub with_time : (now : ℕ) → WorkloadInfo → WorkloadInfo
with_time now info = record info { updated_at = now }

abbrev pub created_before : WorkloadInfo → WorkloadInfo → Bool
created_before a b = ltb a.created_at b.created_at

module _ {W Y J : Type 0} (lib : Libraries Y) (sys : System W Y J) (books : Books W)
    (config : MockConfig) where
  unfoldable pub validate_manifest : (manifest_content : Bytes) → RuntimeResult (Unit {0})
  unfolding trim
  validate_manifest manifest_content =
      let manifest_str = lib.from_utf8_lossy manifest_content in
      if str_eq (trim manifest_str) ""
      then err (invalid_manifest "Empty manifest")
      else if is_some (lib.from_yaml manifest_str)
      then ok tt
      else err (invalid_manifest "Invalid YAML format")

  unfoldable pub store : MockWorkload → W → W
  store workload w = books.keep (insert workload.info.id workload (books.workloads w)) w

  -- what a deployment that is drawn to succeed stores and returns
  unfoldable pub store_new :
      (id manifest_id : String)
      → HashMap String
      → DeploymentConfig
      → W
      → W × RuntimeResult WorkloadInfo
  unfolding store generate_port_mappings
  store_new id manifest_id metadata deployment w =
      let info =
        deployed_info id manifest_id metadata (sys.now w) (generate_port_mappings config) in
      (store (record { info = info; config = deployment }) w, ok info)

  unfoldable pub deploy_valid :
      (manifest_id : String)
      → (manifest_content : Bytes) → DeploymentConfig
      → RuntimeResult (Unit {0})
      → W
      → W × RuntimeResult WorkloadInfo
  unfolding store_new generate_workload_id parse_manifest_metadata
  deploy_valid manifest_id manifest_content deployment (err e) w = (w, err e)
  deploy_valid manifest_id manifest_content deployment (ok _) w =
      if books.drawn config.deployment_success_rate w
      then store_new (generate_workload_id lib sys manifest_id manifest_content) manifest_id
          (parse_manifest_metadata lib sys manifest_content) deployment w
      else (w, err (deployment_failed "Mock deployment failure"))

  unfoldable pub deploy_workload :
      (manifest_id : String)
      → (manifest_content : Bytes) → DeploymentConfig
      → W
      → W × RuntimeResult WorkloadInfo
  unfolding deploy_valid validate_manifest
  deploy_workload manifest_id manifest_content deployment w =
      deploy_valid manifest_id manifest_content deployment (validate_manifest manifest_content) w

  -- the call of a debug build for this engine, which does not look at the manifest first
  unfoldable pub deploy_workload_with_peer :
      (manifest_id : String)
      → (manifest_content : Bytes) → DeploymentConfig
      → (local_peer_id : String) → W
      → W × RuntimeResult WorkloadInfo
  unfolding store_new generate_workload_id_with_peer parse_manifest_metadata
  deploy_workload_with_peer manifest_id manifest_content deployment local_peer_id w =
      if books.drawn config.deployment_success_rate w
      then store_new
          (generate_workload_id_with_peer lib sys manifest_id manifest_content local_peer_id)
          manifest_id
          (insert "local_peer_id" local_peer_id (parse_manifest_metadata lib sys manifest_content))
          deployment w
      else (w, err (deployment_failed "Mock deployment failure"))

  unfoldable pub get_workload_status : (workload_id : String) → W → RuntimeResult WorkloadInfo
  get_workload_status workload_id w = elim (get workload_id (books.workloads w)) [
    | none ↦ err (workload_not_found workload_id)
    | some workload ↦ ok (with_time (sys.now w) workload.info)
  ]

  unfoldable pub list_workloads : W → RuntimeResult (List WorkloadInfo)
  unfolding sort_by
  list_workloads w = ok (
      sort_by created_before
        (map (λ workload. with_time (sys.now w) workload.info) (values (books.workloads w))))

  unfoldable pub remove_stored :
      (workload_id : String) → Option MockWorkload → W → W × RuntimeResult (Unit {0})
  remove_stored workload_id none w = (w, err (workload_not_found workload_id))
  remove_stored workload_id (some _) w =
      (books.keep (remove workload_id (books.workloads w)) w, ok tt)

  unfoldable pub remove_workload : (workload_id : String) → W → W × RuntimeResult (Unit {0})
  unfolding remove_stored
  remove_workload workload_id w = remove_stored workload_id (get workload_id (books.workloads w)) w

  unfoldable pub get_workload_logs :
      (workload_id : String) → (tail : Option ℕ) → W → RuntimeResult String
  unfolding mock_logs
  get_workload_logs workload_id tail w = elim (get workload_id (books.workloads w)) [
    | none ↦ err (workload_not_found workload_id)
    | some workload ↦ ok (mock_logs tail (record workload.info { id = workload_id }))
  ]

  unfoldable pub export_manifest : (workload_id : String) → W → RuntimeResult Bytes
  unfolding mock_manifest
  export_manifest workload_id w = elim (get workload_id (books.workloads w)) [
    | none ↦ err (workload_not_found workload_id)
    | some workload ↦ ok (lib.as_bytes (mock_manifest sys.f64_text workload))
  ]

  -- the engine as the registry holds it
  unfoldable pub mock_engine : RuntimeEngine W
  mock_engine = record {
    name = "mock";
    is_available = λ w. true;
    deploy_workload = deploy_workload;
    get_workload_status = get_workload_status;
    list_workloads = list_workloads;
    remove_workload = remove_workload;
    get_workload_logs = get_workload_logs;
    validate_manifest = λ content w. validate_manifest content;
    export_manifest = export_manifest;
  }
