-- ===== src/Workload/Changes/Stale.antt =====
-- machineplane/machine/src/workload_manager.rs: `get_workload_status` that is interrupted, since it
-- holds no lock on the deployments while it waits for the engine.
use mathlib.Core.Path.{subst}
use beemesh.Prelude.{String, ◌≡◌, refl, none, some, ok, eq_iff}
use beemesh.HashMap.{get}
use beemesh.HashMap.Laws.{get-insert, get-remove}
use beemesh.Runtime.{WorkloadInfo}
use beemesh.Workload.{WorkloadManager, DeploymentStatus}
use beemesh.Workload.Changes.{remove_workload, refreshed}
use beemesh.Workload.Changes.Removal.{RemovedOrKept, remove_workload-deployments}

module _ {W : Type 0} (workload_id : String) (d : DeploymentStatus) (info : WorkloadInfo) where
  -- A status that was read before a removal and is stored after it brings the workload back: it is
  -- removed with success, and then among the deployments again.
  status_brings_back :
      (m : WorkloadManager W)
      → (remove_workload workload_id m).1 ≡ ok tt
      → let gone = (remove_workload workload_id m).0 in
        (get workload_id gone.deployments ≡ none)
        × (get workload_id (refreshed workload_id d (ok info) gone).0.deployments
            ≡ some (record d { status = info.status; last_updated = info.updated_at }))
  unfolding refreshed
  status_brings_back m removed =
      let gone = (remove_workload workload_id m).0 in
      let same = (eq_iff workload_id workload_id).1 refl in
      let now =
        subst (λ a. RemovedOrKept workload_id a m.deployments gone.deployments) removed
          (remove_workload-deployments workload_id m) in
      (rw (now, get-remove, same) refl, rw (get-insert, same) refl)
