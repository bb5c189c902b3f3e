-- ===== src/Runtime/Registry.antt =====
-- machineplane/machine/src/runtime/mod.rs: the engines' interface and the registry of engines.
-- `W` is what the engines keep outside of this program (containers, their logs): an engine reads
-- and changes it. The engines themselves are parameters.
pub mod Preference
mod Tests
use beemesh.Prelude.{
  ℕ, String, Bool, true, false, Option, none, some, List, ◌∷◌, [], map, Result, ok, err, ◌>>=◌,
  str_eq, if◌then◌else◌, unwrap_or, filter, is_some,
}
use beemesh.HashMap.{HashMap, get, insert, contains_key, keys}
use beemesh.Runtime.{RuntimeResult, WorkloadInfo, DeploymentConfig, engine_not_available}

pub record RuntimeEngine (W : Type 0) : Type 0 where
  pub name : String
  pub is_available : W → Bool
  pub deploy_workload : String → List ℕ → DeploymentConfig → W → W × RuntimeResult WorkloadInfo
  pub get_workload_status : String → W → RuntimeResult WorkloadInfo
  pub list_workloads : W → RuntimeResult (List WorkloadInfo)
  pub remove_workload : String → W → W × RuntimeResult (Unit {0})
  pub get_workload_logs : String → Option ℕ → W → RuntimeResult String
  pub validate_manifest : List ℕ → W → RuntimeResult (Unit {0})
  pub export_manifest : String → W → RuntimeResult (List ℕ)

pub record RuntimeRegistry (W : Type 0) : Type 0 where
  pub engines : HashMap (RuntimeEngine W)
  pub default_engine : Option String

-- `get("local_peer_id").map(== peer).unwrap_or(false)`
unfoldable pub of_peer : (local_peer_id : String) → WorkloadInfo → Bool
of_peer local_peer_id info = elim (get "local_peer_id" info.metadata) [
  | none ↦ false
  | some peer_id ↦ str_eq peer_id local_peer_id
]

module _ {W : Type 0} where
  pub deploy_workload_with_peer :
      RuntimeEngine W
      → (manifest_id : String) → (manifest_content : List ℕ) → DeploymentConfig
      → (local_peer_id : String) → W
      → W × RuntimeResult WorkloadInfo
  deploy_workload_with_peer engine manifest_id manifest_content config local_peer_id w =
      let (w', r) = engine.deploy_workload manifest_id manifest_content config w in
      (
        w',
        r >>= λ info.
            ok (record info { metadata = insert "local_peer_id" local_peer_id info.metadata }),
      )

  pub list_workloads_by_peer :
      RuntimeEngine W → (local_peer_id : String) → W → RuntimeResult (List WorkloadInfo)
  unfolding of_peer
  list_workloads_by_peer engine local_peer_id w =
      engine.list_workloads w >>= λ all. ok (filter (of_peer local_peer_id) all)

  unfoldable pub new_registry : RuntimeRegistry W
  new_registry = record { engines = []; default_engine = none }

  unfoldable pub register : RuntimeEngine W → RuntimeRegistry W → RuntimeRegistry W
  register engine r = record {
    engines = insert engine.name engine r.engines;
    default_engine = if is_some r.default_engine then r.default_engine else some engine.name;
  }

  unfoldable pub get_engine : (name : String) → RuntimeRegistry W → Option (RuntimeEngine W)
  get_engine name r = get name r.engines

  unfoldable pub get_default_engine : RuntimeRegistry W → Option (RuntimeEngine W)
  get_default_engine r = elim r.default_engine [ none ↦ none | some name ↦ get_engine name r ]

  unfoldable pub set_default_engine :
      (name : String) → RuntimeRegistry W → RuntimeRegistry W × RuntimeResult (Unit {0})
  set_default_engine name r =
      if contains_key name r.engines
      then (record r { default_engine = some name }, ok tt)
      else (r, err (engine_not_available name))

  unfoldable pub list_engines : RuntimeRegistry W → List String
  list_engines r = keys r.engines

  unfoldable pub check_all : HashMap (RuntimeEngine W) → W → HashMap Bool → HashMap Bool
  check_all [] w results = results
  check_all ((name, engine) ∷ rest) w results =
      check_all rest w (insert name (engine.is_available w) results)

  unfoldable pub check_available_engines : RuntimeRegistry W → W → HashMap Bool
  unfolding check_all
  check_available_engines r w = check_all r.engines w []

  -- A release build has no mock engine: `mock` is then `none`.
  unfoldable pub register_mock : Option (RuntimeEngine W) → RuntimeRegistry W → RuntimeRegistry W
  register_mock none r = r
  register_mock (some engine) r = register engine r

  unfoldable pub default_mock : Option (RuntimeEngine W) → RuntimeRegistry W → RuntimeRegistry W
  default_mock none r = r
  default_mock (some _) r = (set_default_engine "mock" r).0

  unfoldable pub create_default_registry :
      (podman docker : RuntimeEngine W) → (mock : Option (RuntimeEngine W)) → W → RuntimeRegistry W
  unfolding register_mock default_mock
  create_default_registry podman docker mock w =
      let registry = register_mock mock (register docker (register podman new_registry)) in
      let available = check_available_engines registry w in
      if unwrap_or (get "podman" available) false
      then (set_default_engine "podman" registry).0
      else if unwrap_or (get "docker" available) false
      then (set_default_engine "docker" registry).0
      else default_mock mock registry

  -- The variant of debug builds; a release build calls `create_default_registry`.
  unfoldable pub create_mock_only_registry : (mock : RuntimeEngine W) → RuntimeRegistry W
  create_mock_only_registry mock = (set_default_engine "mock" (register mock new_registry)).0
