-- ===== src/Workload.antt =====
-- machineplane/machine/src/workload_manager.rs: deployments on runtime engines, and their
-- announcement. `W` is what the engines keep outside of this program. The manager's record holds it
-- as `host`, and what its event channel was sent as `events`, the newest last.
pub mod Changes
pub mod Stats
use beemesh.Prelude.{
  ℕ, ◌+◌, String, Bool, true, false, Option, none, some, List, [], ◌∷◌, ◌++◌, map, Result, ok, err,
  ◌>>=◌, ◌>>◌, str_eq, if◌then◌else◌, length, filter,
}
use beemesh.HashMap.{HashMap, get, insert, remove, keys, values}
use beemesh.Runtime.{RuntimeError, RuntimeResult, WorkloadStatus, WorkloadInfo, DeploymentConfig}
use beemesh.Runtime.Registry.{
  RuntimeEngine, RuntimeRegistry, get_engine, get_default_engine, create_default_registry,
}
use beemesh.Provider.{
  PeerId, ProviderError, ProviderManager, ProviderStats, default_provider_config, new_manager,
}

pub data WorkloadManagerError : Type 0 where
  runtime_error : RuntimeError → WorkloadManagerError
  provider_error : ProviderError → WorkloadManagerError
  workload_not_found manifest_validation_failed : String → WorkloadManagerError
  no_runtime_engine_available : WorkloadManagerError
  network_error : String → WorkloadManagerError

abbrev pub WorkloadManagerResult : Type 0 → Type 0
WorkloadManagerResult A = Result A WorkloadManagerError

pub record WorkloadManagerConfig : Type 0 where
  pub announce_as_provider : Bool
  pub provider_ttl_seconds : ℕ
  pub preferred_runtime : Option String
  pub validate_manifests : Bool
  pub max_concurrent_deployments : ℕ

abbrev pub default_workload_config : WorkloadManagerConfig
default_workload_config = record {
  announce_as_provider = true;
  provider_ttl_seconds = 3600;
  preferred_runtime = none;
  validate_manifests = true;
  max_concurrent_deployments = 10;
}

pub record DeploymentStatus : Type 0 where
  pub workload_id : String
  pub manifest_id : String
  pub status : WorkloadStatus
  pub runtime_engine : String
  pub announced_as_provider : Bool
  pub deployed_at : ℕ
  pub last_updated : ℕ
  pub config : DeploymentConfig

pub data WorkloadEvent : Type 0 where
  workload_deployed : (workload_id manifest_id runtime_engine : String) → WorkloadEvent
  deployment_failed : (manifest_id error : String) → WorkloadEvent
  workload_removed : (workload_id manifest_id : String) → WorkloadEvent
  provider_announced : (manifest_id : String) → PeerId → WorkloadEvent
  provider_stopped : (manifest_id : String) → WorkloadEvent

pub record WorkloadManager (W : Type 0) : Type 0 where
  pub runtime_registry : RuntimeRegistry W
  pub provider_manager : ProviderManager
  pub deployments : HashMap DeploymentStatus
  pub config : WorkloadManagerConfig
  pub event_sender : Bool
  pub host : W
  pub events : List WorkloadEvent

-- the metadata of an announcement
pub announced_metadata : (engine_name : String) → HashMap String
announced_metadata engine_name =
    insert "node_type" "beemesh-machine" (insert "runtime_engine" engine_name [])

-- `ok_or(NoRuntimeEngineAvailable)`
pub engine_or_error :
    {W : Type 0} → Option (RuntimeEngine W) → WorkloadManagerResult (RuntimeEngine W)
engine_or_error none = err no_runtime_engine_available
engine_or_error (some engine) = ok engine

-- `?` on an engine's result
pub from_runtime : {A : Type 0} → RuntimeResult A → WorkloadManagerResult A
from_runtime (ok a) = ok a
from_runtime (err e) = err (runtime_error e)

pub deployment_or_error :
    (workload_id : String) → Option DeploymentStatus → WorkloadManagerResult DeploymentStatus
deployment_or_error workload_id none = err (workload_not_found workload_id)
deployment_or_error workload_id (some d) = ok d

module _ {W : Type 0} where
  pub new :
      (podman docker : RuntimeEngine W)
      → (mock : Option (RuntimeEngine W)) → WorkloadManagerConfig
      → W
      → WorkloadManager W
  new podman docker mock config w = record {
    runtime_registry = create_default_registry podman docker mock w;
    provider_manager =
        new_manager
          (record default_provider_config { default_ttl_seconds = config.provider_ttl_seconds });
    deployments = [];
    config = config;
    event_sender = false;
    host = w;
    events = [];
  }

  pub set_event_channel : WorkloadManager W → WorkloadManager W
  set_event_channel m = record m { event_sender = true }

  -- `if let Some(ref sender) = self.event_sender { … }`
  pub send : WorkloadEvent → WorkloadManager W → WorkloadManager W
  send e m = if m.event_sender then record m { events = m.events ++ e ∷ [] } else m

  -- the engine, where it is available
  pub if_available : W → Option (RuntimeEngine W) → Option (RuntimeEngine W)
  if_available w none = none
  if_available w (some engine) = if engine.is_available w then some engine else none

  pub default_runtime : WorkloadManager W → WorkloadManagerResult String
  unfolding if_available
  default_runtime m = elim (if_available m.host (get_default_engine m.runtime_registry)) [
    | none ↦ err no_runtime_engine_available
    | some engine ↦ ok engine.name
  ]

  -- the preferred engine by name, or else the default one
  pub preferred_or_default : Option String → WorkloadManager W → WorkloadManagerResult String
  unfolding if_available default_runtime
  preferred_or_default none m = default_runtime m
  preferred_or_default (some preferred) m =
      elim (if_available m.host (get_engine preferred m.runtime_registry)) [
        | none ↦ default_runtime m
        | some _ ↦ ok preferred
      ]

  pub get_runtime_engine : WorkloadManager W → WorkloadManagerResult String
  unfolding preferred_or_default
  get_runtime_engine m = preferred_or_default m.config.preferred_runtime m

  pub get_runtime_engine_by_name :
      (name : String) → WorkloadManager W → WorkloadManagerResult String
  unfolding engine_or_error
  get_runtime_engine_by_name name m =
      engine_or_error (get_engine name m.runtime_registry) >>= λ _. ok name

  pub validate_manifest_content :
      (manifest_content : List ℕ) → WorkloadManager W → WorkloadManagerResult (Unit {0})
  unfolding engine_or_error from_runtime
  validate_manifest_content manifest_content m = do
    engine_name ← get_runtime_engine m
    engine ← engine_or_error (get_engine engine_name m.runtime_registry)
    from_runtime (engine.validate_manifest manifest_content m.host)

  -- the deployment's engine, for the operations on one workload
  pub deployed_on :
      (workload_id : String)
      → WorkloadManager W
      → WorkloadManagerResult (DeploymentStatus × RuntimeEngine W)
  unfolding deployment_or_error engine_or_error
  deployed_on workload_id m = do
    d ← deployment_or_error workload_id (get workload_id m.deployments)
    engine ← engine_or_error (get_engine d.runtime_engine m.runtime_registry)
    ok (d, engine)

  pub list_workloads : WorkloadManager W → List DeploymentStatus
  list_workloads m = values m.deployments

  pub get_workload_logs :
      (workload_id : String) → (tail : Option ℕ) → WorkloadManager W → WorkloadManagerResult String
  unfolding deployed_on from_runtime
  get_workload_logs workload_id tail m = do
    (d, engine) ← deployed_on workload_id m
    from_runtime (engine.get_workload_logs workload_id tail m.host)

  pub export_workload_manifest :
      (workload_id : String) → WorkloadManager W → WorkloadManagerResult (List ℕ)
  unfolding deployed_on from_runtime
  export_workload_manifest workload_id m = do
    (d, engine) ← deployed_on workload_id m
    from_runtime (engine.export_manifest workload_id m.host)
