-- ===== src/Workload/Changes.antt =====
-- machineplane/machine/src/workload_manager.rs: the operations that change the manager. What the
-- swarm and the clock answer is an argument. `get_workload_status` and `remove_workload` release the
-- deployments' lock across the call of the engine: each is here the run that nothing interrupts, in
-- which `refreshed` and `finish_removal` are the part behind the call.
pub mod Removal
pub mod Deploying
pub mod Reachable
mod Stale
mod Tests
use beemesh.Prelude.{
  ℕ, ◌+◌, ◌>>=◌, String, Bool, true, false, Option, none, some, List, [], ◌∷◌, ◌++◌, map, Result,
  ok, err, str_eq, if◌then◌else◌, length, filter, unwrap_or,
}
use beemesh.HashMap.{HashMap, get, insert, remove, keys, values}
use beemesh.Runtime.{WorkloadStatus, WorkloadInfo, DeploymentConfig, RuntimeResult}
use beemesh.Runtime.Registry.{RuntimeEngine, get_engine, of_peer}
use beemesh.Provider.{PeerId, ProviderStats, ProviderResult, announce_provider, stop_providing}
use beemesh.Provider as Provider
use beemesh.Workload.{
  WorkloadManager, WorkloadManagerResult, WorkloadManagerError, DeploymentStatus, WorkloadEvent,
  workload_deployed, workload_removed, provider_announced, provider_stopped, runtime_error,
  announced_metadata, engine_or_error, from_runtime, deployment_or_error, send, get_runtime_engine,
  validate_manifest_content, deployed_on,
}

-- The swarm as `announce_provider` meets it: two clock readings, Kademlia's answer, the own id.
pub record Announcing : Type 0 where
  pub t_announced : ℕ
  pub t_seen : ℕ
  pub dht : Result (Unit {0}) String
  pub local_peer_id : PeerId

-- the status that is stored, and returned where nothing is announced
pub stored_status :
    (manifest_id engine_name : String) → DeploymentConfig → WorkloadInfo → DeploymentStatus
stored_status manifest_id engine_name config info = record {
  workload_id = info.id;
  manifest_id = manifest_id;
  status = info.status;
  runtime_engine = engine_name;
  announced_as_provider = false;
  deployed_at = info.created_at;
  last_updated = info.updated_at;
  config = config;
}

pub deployed_from : (manifest_id : String) → HashMap DeploymentStatus → List String
deployed_from manifest_id deployments =
    keys (filter (λ e. str_eq e.1.manifest_id manifest_id) deployments)

pub keep_removed : WorkloadManagerResult (Unit {0}) → String → List String → List String
keep_removed (ok _) workload_id removed = workload_id ∷ removed
keep_removed (err _) workload_id removed = removed

module _ {W : Type 0} where
  -- the event, and the flag of the returned copy, where the announcement succeeded
  pub if_announced :
      Announcing
      → (manifest_id : String) → ProviderResult (Unit {0})
      → DeploymentStatus
      → WorkloadManager W
      → WorkloadManager W × DeploymentStatus
  if_announced net manifest_id (ok _) d m = (
    send (provider_announced manifest_id net.local_peer_id) m,
    record d { announced_as_provider = true },
  )
  if_announced net manifest_id (err _) d m = (m, d)

  pub announce_deployment :
      Announcing
      → (manifest_id engine_name : String) → DeploymentStatus
      → WorkloadManager W
      → WorkloadManager W × DeploymentStatus
  unfolding if_announced
  announce_deployment net manifest_id engine_name d m =
      if m.config.announce_as_provider
      then (let (p, answer) =
            announce_provider net.t_announced net.t_seen net.dht net.local_peer_id manifest_id
              (announced_metadata engine_name) m.provider_manager in
          if_announced net manifest_id answer d (record m { provider_manager = p }))
      else (m, d)

  -- `deploy_workload` once the engine has answered
  pub finish_deployment :
      Announcing
      → (manifest_id engine_name : String) → DeploymentConfig
      → RuntimeResult WorkloadInfo
      → WorkloadManager W
      → WorkloadManager W × WorkloadManagerResult DeploymentStatus
  unfolding announce_deployment
  finish_deployment net manifest_id engine_name config (err e) m = (m, err (runtime_error e))
  finish_deployment net manifest_id engine_name config (ok info) m =
      let d = stored_status manifest_id engine_name config info in
      let stored : WorkloadManager W = record m { deployments = insert info.id d m.deployments } in
      let (announced, final_status) = announce_deployment net manifest_id engine_name d stored in
      (send (workload_deployed info.id manifest_id engine_name) announced, ok final_status)

  -- what is decided before the engine is called: the manifest is valid where that is configured,
  -- and there is an engine
  pub chosen_engine :
      (manifest_content : List ℕ)
      → WorkloadManager W
      → WorkloadManagerResult (String × RuntimeEngine W)
  unfolding engine_or_error
  chosen_engine manifest_content m = do
    _ ←
        (if m.config.validate_manifests
          then validate_manifest_content manifest_content m
          else ok tt)
    engine_name ← get_runtime_engine m
    engine ← engine_or_error (get_engine engine_name m.runtime_registry)
    ok (engine_name, engine)

  pub deploy_on :
      Announcing
      → (manifest_id : String) → (manifest_content : List ℕ) → DeploymentConfig
      → WorkloadManagerResult (String × RuntimeEngine W)
      → WorkloadManager W
      → WorkloadManager W × WorkloadManagerResult DeploymentStatus
  deploy_on net manifest_id manifest_content config (err e) m = (m, err e)
  deploy_on net manifest_id manifest_content config (ok (engine_name, engine)) m =
      let (host', answer) = engine.deploy_workload manifest_id manifest_content config m.host in
      finish_deployment net manifest_id engine_name config answer (record m { host = host' })

  pub deploy_workload :
      Announcing
      → (manifest_id : String) → (manifest_content : List ℕ) → DeploymentConfig
      → WorkloadManager W
      → WorkloadManager W × WorkloadManagerResult DeploymentStatus
  unfolding deploy_on chosen_engine
  deploy_workload net manifest_id manifest_content config m =
      deploy_on net manifest_id manifest_content config (chosen_engine manifest_content m) m

  -- the event, where providing has stopped
  pub if_stopped :
      (manifest_id : String) → ProviderResult (Unit {0}) → WorkloadManager W → WorkloadManager W
  if_stopped manifest_id (ok _) m = send (provider_stopped manifest_id) m
  if_stopped manifest_id (err _) m = m

  pub stop_announcing : (manifest_id : String) → WorkloadManager W → WorkloadManager W
  unfolding if_stopped
  stop_announcing manifest_id m =
      let (p, answer) = stop_providing manifest_id m.provider_manager in
      if_stopped manifest_id answer (record m { provider_manager = p })

  -- `remove_workload` once the engine has answered
  pub finish_removal :
      (workload_id : String)
      → DeploymentStatus
      → RuntimeResult (Unit {0})
      → WorkloadManager W
      → WorkloadManager W × WorkloadManagerResult (Unit {0})
  unfolding stop_announcing
  finish_removal workload_id d (err e) m = (m, err (runtime_error e))
  finish_removal workload_id d (ok _) m =
      let quiet = if d.announced_as_provider then stop_announcing d.manifest_id m else m in
      let removed : WorkloadManager W = record quiet {
        deployments = remove workload_id quiet.deployments;
      } in
      (send (workload_removed workload_id d.manifest_id) removed, ok tt)

  pub remove_from :
      (workload_id : String)
      → WorkloadManagerResult (DeploymentStatus × RuntimeEngine W)
      → WorkloadManager W
      → WorkloadManager W × WorkloadManagerResult (Unit {0})
  unfolding finish_removal
  remove_from workload_id (err e) m = (m, err e)
  remove_from workload_id (ok (d, engine)) m =
      let (host', answer) = engine.remove_workload workload_id m.host in
      finish_removal workload_id d answer (record m { host = host' })

  pub remove_workload :
      (workload_id : String)
      → WorkloadManager W
      → WorkloadManager W × WorkloadManagerResult (Unit {0})
  unfolding remove_from deployed_on
  remove_workload workload_id m = remove_from workload_id (deployed_on workload_id m) m

  -- A workload that cannot be removed is passed over.
  pub remove_each : List String → WorkloadManager W → WorkloadManager W × List String
  unfolding keep_removed
  remove_each [] m = (m, [])
  remove_each (workload_id ∷ rest) m =
      let (m', answer) = remove_workload workload_id m in
      let (last, removed) = remove_each rest m' in (last, keep_removed answer workload_id removed)

  pub remove_workloads_by_manifest_id :
      (manifest_id : String) → WorkloadManager W → WorkloadManager W × List String
  unfolding deployed_from remove_each
  remove_workloads_by_manifest_id manifest_id m =
      remove_each (deployed_from manifest_id m.deployments) m

  -- the engine's fresh answer updates the stored status; without one, the stored status is returned
  pub refreshed :
      (workload_id : String)
      → DeploymentStatus
      → RuntimeResult WorkloadInfo
      → WorkloadManager W
      → WorkloadManager W × DeploymentStatus
  refreshed workload_id d (err _) m = (m, d)
  refreshed workload_id d (ok info) m =
      let d' : DeploymentStatus = record d {
        status = info.status;
        last_updated = info.updated_at;
      } in
      (record m { deployments = insert workload_id d' m.deployments }, d')

  pub refresh_from :
      (workload_id : String)
      → WorkloadManagerResult (DeploymentStatus × RuntimeEngine W)
      → WorkloadManager W
      → WorkloadManager W × WorkloadManagerResult DeploymentStatus
  unfolding refreshed
  refresh_from workload_id (err e) m = (m, err e)
  refresh_from workload_id (ok (d, engine)) m =
      let (m', fresh) = refreshed workload_id d (engine.get_workload_status workload_id m.host) m in
      (m', ok fresh)

  pub get_workload_status :
      (workload_id : String)
      → WorkloadManager W
      → WorkloadManager W × WorkloadManagerResult DeploymentStatus
  unfolding refresh_from deployed_on
  get_workload_status workload_id m = refresh_from workload_id (deployed_on workload_id m) m
