-- ===== src/Workload/Changes/Deploying.antt =====
-- Deploying: what is stored, what is returned and what is announced.
use beemesh.Prelude.{
  ℕ, String, ◌≡◌, refl, ap, sym, ◌∙◌, true, false, inl, inr, List, ok, err, Result-cases, Result,
  is_ok, Bool, ◌&&◌, if◌then◌else◌,
}
use beemesh.HashMap.{insert, contains_key}
use beemesh.Runtime.{RuntimeResult, DeploymentConfig, WorkloadInfo}
use beemesh.Runtime.Registry.{RuntimeEngine}
use beemesh.Provider.{ProviderManager, ProviderResult, announce_via_dht, announce_provider}
use beemesh.Provider.Local.{announce_provider-provides}
use beemesh.Workload.{announced_metadata, WorkloadManager, WorkloadManagerResult, DeploymentStatus}
use beemesh.Workload.Changes.{
  Announcing, stored_status, if_announced, announce_deployment, finish_deployment, chosen_engine,
  deploy_on, deploy_workload,
}
use beemesh.Workload.Changes.Removal.{send-deployments, send-provider_manager}

is_ok-announce_via_dht : (dht : Result (Unit {0}) String) → is_ok (announce_via_dht dht) ≡ is_ok dht
unfolding announce_via_dht
is_ok-announce_via_dht (ok _) = refl
is_ok-announce_via_dht (err e) = refl

module _ {W : Type 0} (net : Announcing) where
  -- What an answer says of the manager before and after.
  abbrev pub Deployed :
      (manifest_id : String)
      → WorkloadManagerResult DeploymentStatus
      → (before after : WorkloadManager W) → Type 0
  Deployed k (err _) before after =
      (after.deployments ≡ before.deployments)
      × (after.provider_manager ≡ before.provider_manager)
      × (after.events ≡ before.events)
  Deployed k (ok d) before after =
      (after.deployments
        ≡ insert d.workload_id (record d { announced_as_provider = false }) before.deployments)
      × (d.manifest_id ≡ k)
      × (d.announced_as_provider ≡ (before.config.announce_as_provider && is_ok net.dht))
      × (before.config.announce_as_provider ≡ true
          → contains_key k after.provider_manager.local_providers ≡ true)

  -- A status that is announced or not, and the manager that holds its unannounced copy.
  abbrev Announced :
      DeploymentStatus → WorkloadManager W → WorkloadManager W × DeploymentStatus → Type 0
  Announced d m (m', d') =
      (m'.deployments ≡ m.deployments)
      × (record d' { announced_as_provider = false } ≡ d)
      × (d'.announced_as_provider ≡ (m.config.announce_as_provider && is_ok net.dht))
      × (m.config.announce_as_provider ≡ true
          → contains_key d.manifest_id m'.provider_manager.local_providers ≡ true)

  if_announced-Announced :
      (answer : ProviderResult (Unit {0})) (d : DeploymentStatus) (m : WorkloadManager W)
      → d.announced_as_provider ≡ false
      → m.config.announce_as_provider ≡ true
      → is_ok answer ≡ is_ok net.dht
      → contains_key d.manifest_id m.provider_manager.local_providers ≡ true
      → Announced d m (if_announced net d.manifest_id answer d m)
  unfolding if_announced
  if_announced-Announced (ok _) d m e on same h =
      (send-deployments _ m, rw (← e) refl, rw (on, ← same) refl, λ _. rw send-provider_manager h)
  if_announced-Announced (err _) d m e on same h = (refl, rw (← e) refl, rw (on, ← same) e, λ _. h)

  announce_deployment-Announced :
      (engine_name : String) (d : DeploymentStatus) (m : WorkloadManager W)
      → d.announced_as_provider ≡ false
      → Announced d m (announce_deployment net d.manifest_id engine_name d m)
  unfolding announce_deployment announce_provider
  announce_deployment-Announced engine_name d m e = decide m.config.announce_as_provider refl
    where
      asked : ProviderManager × ProviderResult (Unit {0})
      asked =
          announce_provider net.t_announced net.t_seen net.dht net.local_peer_id d.manifest_id
            (announced_metadata engine_name) m.provider_manager

      told : WorkloadManager W
      told = record m { provider_manager = asked.0 }

      decide :
          (announces : Bool)
          → m.config.announce_as_provider ≡ announces
          → Announced d m
              (if announces then if_announced net d.manifest_id asked.1 d told else (m, d))
      decide true on = if_announced-Announced asked.1 d told e on (is_ok-announce_via_dht net.dht) (
          announce_provider-provides net.t_announced net.t_seen net.dht net.local_peer_id
            d.manifest_id (announced_metadata engine_name) m.provider_manager)
      decide false off = (refl, rw (← e) refl, rw off e, λ on. cc)

  finish_deployment-Deployed :
      (k engine_name : String) (config : DeploymentConfig) (answer : RuntimeResult WorkloadInfo)
      (m : WorkloadManager W)
      → Deployed k
          (finish_deployment net k engine_name config answer m).1
          m
          (finish_deployment net k engine_name config answer m).0
  unfolding finish_deployment stored_status
  finish_deployment-Deployed k engine_name config (err e) m = (refl, refl, refl)
  finish_deployment-Deployed k engine_name config (ok info) m =
      let d = stored_status k engine_name config info in
      let stored : WorkloadManager W = record m { deployments = insert info.id d m.deployments } in
      let (same, copy, flag, provided) = announce_deployment-Announced engine_name d stored refl in
      (
        send-deployments _ _ ∙ same ∙ ap (λ c. insert c.workload_id c m.deployments) (sym copy),
        ap (λ c. c.manifest_id) copy,
        flag,
        λ on. rw send-provider_manager (provided on),
      )

  deploy_on-Deployed :
      (k : String) (content : List ℕ) (config : DeploymentConfig)
      (chosen : WorkloadManagerResult (String × RuntimeEngine W)) (m : WorkloadManager W)
      → Deployed k
          (deploy_on net k content config chosen m).1
          m
          (deploy_on net k content config chosen m).0
  unfolding deploy_on finish_deployment
  deploy_on-Deployed k content config (err e) m = (refl, refl, refl)
  deploy_on-Deployed k content config (ok (engine_name, engine)) m =
      let (host', answer) = engine.deploy_workload k content config m.host in
      let called : WorkloadManager W = record m { host = host' } in
      elim (Result-cases answer) [
        | inl (info, done) ↦
            let h = finish_deployment-Deployed k engine_name config (ok info) called in rw done h
        | inr (e, failed) ↦
            let h = finish_deployment-Deployed k engine_name config (err e) called in rw failed h
      ]

  -- A failed deployment leaves the deployments, the provider manager and the events as they were.
  -- One that succeeds adds one deployment, stored under its own id as not announced. The status
  -- that is returned differs from the stored one only in that flag, belongs to the manifest, and
  -- says that it is announced exactly when announcing is configured and the network accepted the
  -- announcement. Where it is configured, the node provides the manifest, accepted or not.
  pub deploy_workload-Deployed :
      (manifest_id : String) (manifest_content : List ℕ) (config : DeploymentConfig)
      (m : WorkloadManager W)
      → Deployed manifest_id
          (deploy_workload net manifest_id manifest_content config m).1
          m
          (deploy_workload net manifest_id manifest_content config m).0
  unfolding deploy_workload
  deploy_workload-Deployed k content config m =
      deploy_on-Deployed k content config (chosen_engine content m) m
