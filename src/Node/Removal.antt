-- ===== src/Node/Removal.antt =====
-- How workload_integration.rs starts the node, and how it removes and asks after workloads.
use Prim.Native.String.{◌++◌ as append}
use beemesh.Prelude.{
  ℕ, String, Bool, ◌||◌, Option, none, some, List, [], ◌∷◌, ◌++◌, Result, ok, err, ◌>>=◌, str_eq,
  if◌then◌else◌, is_empty,
}
use beemesh.HashMap.{HashMap}
use beemesh.HashMap.Laws.{map_option}
use beemesh.Provider.{default_provider_config, new_manager, stop_providing}
use beemesh.Resources.{SystemResources}
use beemesh.Runtime.{RuntimeError, RuntimeResult, WorkloadInfo}
use beemesh.Runtime.Registry.{
  RuntimeEngine, RuntimeRegistry, get_engine, list_engines, check_available_engines,
  create_default_registry, create_mock_only_registry,
}
use beemesh.Node.{Node, remove_manifest_owner}
use beemesh.Node.Deployment.{DeployError, engine_failed, find_engine, registry_not_initialized}

-- what was removed, and what went wrong, in their order
pub record Removals : Type 0 where
  pub removed_workloads : List String
  pub errors : List String

unfoldable pub engine_answer {ℓ} : {A : Type ℓ} → Result A RuntimeError → Result A DeployError
engine_answer (ok a) = ok a
engine_answer (err e) = err (engine_failed e)

-- the engine's answer to a removal
unfoldable pub note_removal :
    (engine_name id : String) → Removals → RuntimeResult (Unit {0}) → Removals
note_removal engine_name id r (ok _) = record r {
  removed_workloads = r.removed_workloads ++ id ∷ [];
}
note_removal engine_name id r (err _) = record r {
  errors = r.errors ++ append engine_name (append ":" id) ∷ [];
}

module _ {W : Type 0} where
  -- the registry of a start; a release build has no mock engine, and `mock` is then `none`
  unfoldable pub choose_registry :
      (use_mock_registry : Bool)
      → (podman docker : RuntimeEngine W) → Option (RuntimeEngine W)
      → W
      → RuntimeRegistry W
  unfolding create_default_registry create_mock_only_registry
  choose_registry use_mock podman docker none w = create_default_registry podman docker none w
  choose_registry use_mock podman docker (some mock) w =
      if use_mock
      then create_mock_only_registry mock
      else create_default_registry podman docker (some mock) w

  -- `measured`: the verifier's resources after `update_system_resources`, where that succeeds
  unfoldable pub initialize_workload_manager :
      (force_mock_runtime mock_only_runtime scheduling_enabled : Bool)
      → (podman docker : RuntimeEngine W) → Option (RuntimeEngine W)
      → (measured : Option SystemResources) → Node W
      → Node W
  unfolding choose_registry new_manager
  initialize_workload_manager force_mock mock_only enabled podman docker mock measured n =
      if enabled
      then record n {
        registry = some (choose_registry (force_mock || mock_only) podman docker mock n.host);
        provider_manager =
            some (new_manager (record default_provider_config { default_ttl_seconds = 3600 }));
        verifier = elim measured [
          | none ↦ n.verifier
          | some resources ↦ record n.verifier { system_resources = resources }
        ];
      }
      else n

  unfoldable pub remove_one :
      (engine_name manifest_id : String)
      → RuntimeEngine W
      → WorkloadInfo
      → W × Removals
      → W × Removals
  unfolding note_removal
  remove_one engine_name manifest_id engine info (w, r) =
      if str_eq info.manifest_id manifest_id
      then (let (w', answer) = engine.remove_workload info.id w in
          (w', note_removal engine_name info.id r answer))
      else (w, r)

  -- the workloads of an engine's list, in their order
  unfoldable pub remove_matching :
      (engine_name manifest_id : String)
      → RuntimeEngine W
      → List WorkloadInfo
      → W × Removals
      → W × Removals
  unfolding remove_one
  remove_matching engine_name manifest_id engine [] s = s
  remove_matching engine_name manifest_id engine (info ∷ rest) s =
      remove_matching engine_name manifest_id engine rest
        (remove_one engine_name manifest_id engine info s)

  unfoldable pub remove_listed :
      (engine_name manifest_id : String)
      → RuntimeEngine W
      → RuntimeResult (List WorkloadInfo)
      → W × Removals
      → W × Removals
  unfolding remove_matching
  remove_listed engine_name manifest_id engine (ok workloads) s =
      remove_matching engine_name manifest_id engine workloads s
  remove_listed engine_name manifest_id engine (err _) (w, r) =
      (w, record r { errors = r.errors ++ append "list:" engine_name ∷ [] })

  unfoldable pub remove_found :
      (engine_name manifest_id : String) → Option (RuntimeEngine W) → W × Removals → W × Removals
  unfolding remove_listed
  remove_found engine_name manifest_id none s = s
  remove_found engine_name manifest_id (some engine) s =
      remove_listed engine_name manifest_id engine (engine.list_workloads s.0) s

  -- every engine of the registry
  unfoldable pub remove_from_all :
      (manifest_id : String) → RuntimeRegistry W → List String → W × Removals → W × Removals
  unfolding remove_found get_engine
  remove_from_all manifest_id registry [] s = s
  remove_from_all manifest_id registry (engine_name ∷ rest) s =
      remove_from_all manifest_id registry rest
        (remove_found engine_name manifest_id (get_engine engine_name registry) s)

  -- behind the loop: the announcement ends, and the owner is forgotten if nothing went wrong
  unfoldable pub withdraw : (manifest_id : String) → W × Removals → Node W → Node W
  unfolding stop_providing remove_manifest_owner
  withdraw manifest_id (w, r) n =
      let stopped = record n {
        host = w;
        provider_manager = map_option (λ m. (stop_providing manifest_id m).0) n.provider_manager;
      } in
      if is_empty r.errors then remove_manifest_owner manifest_id stopped else stopped

  unfoldable pub remove_with :
      (manifest_id : String)
      → Option (RuntimeRegistry W)
      → Node W
      → Node W × Result (List String) DeployError
  unfolding list_engines remove_from_all withdraw
  remove_with manifest_id none n = (n, err registry_not_initialized)
  remove_with manifest_id (some registry) n =
      let done =
        remove_from_all manifest_id registry (list_engines registry)
          (n.host, record { removed_workloads = []; errors = [] }) in
      (withdraw manifest_id done n, ok (done.1).removed_workloads)

  unfoldable pub remove_workloads_by_manifest_id :
      (manifest_id : String) → Node W → Node W × Result (List String) DeployError
  unfolding remove_with
  remove_workloads_by_manifest_id manifest_id n = remove_with manifest_id n.registry n

  unfoldable pub remove_on :
      (workload_id : String)
      → Result (RuntimeEngine W) DeployError
      → Node W
      → Node W × Result (Unit {0}) DeployError
  unfolding engine_answer
  remove_on workload_id (err e) n = (n, err e)
  remove_on workload_id (ok engine) n =
      let (w, answer) = engine.remove_workload workload_id n.host in
      (record n { host = w }, engine_answer answer)

  unfoldable pub remove_workload_by_id :
      (workload_id engine_name : String) → Node W → Node W × Result (Unit {0}) DeployError
  unfolding remove_on find_engine
  remove_workload_by_id workload_id engine_name n =
      remove_on workload_id (find_engine engine_name n.registry) n

  unfoldable pub get_workload_logs_by_id :
      (workload_id engine_name : String) → (tail : Option ℕ) → Node W → Result String DeployError
  unfolding find_engine engine_answer
  get_workload_logs_by_id workload_id engine_name tail n =
      find_engine engine_name n.registry >>= λ engine.
      engine_answer (engine.get_workload_logs workload_id tail n.host)

  unfoldable pub list_available_engines : Node W → List String
  unfolding list_engines
  list_available_engines n = elim n.registry [ none ↦ [] | some registry ↦ list_engines registry ]

  unfoldable pub get_runtime_registry_stats : Node W → HashMap Bool
  unfolding check_available_engines
  get_runtime_registry_stats n = elim n.registry [
    | none ↦ []
    | some registry ↦ check_available_engines registry n.host
  ]
