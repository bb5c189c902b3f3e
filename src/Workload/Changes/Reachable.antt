-- ===== src/Workload/Changes/Reachable.antt =====
-- The states that the manager's operations reach, and what holds in all of them.
use beemesh.Prelude.{
  Bool, ◌&&◌, is_ok, sym, ◌∙◌, ℕ, String, ◌≡◌, refl, true, false, Bool-cases, inl, inr, ◌⊎◌, Option,
  none, some, Option-cases, List, ok, err, Result-cases, if◌then◌else◌, arith, str_eq,
}
use beemesh.HashMap.{HashMap, get, insert, remove, contains_key}
use beemesh.HashMap.Laws.{IsMap, IsMap-insert, IsMap-remove, get-insert, get-remove}
use beemesh.Runtime.{RuntimeResult, DeploymentConfig, WorkloadInfo}
use beemesh.Runtime.Registry.{RuntimeEngine, get_engine}
use beemesh.Provider.{ProviderManager}
use beemesh.Workload.{
  WorkloadManager, WorkloadManagerConfig, DeploymentStatus, new, set_event_channel, deployed_on,
  deployment_or_error, engine_or_error,
}
use beemesh.Workload.Changes.{
  Announcing, deploy_workload, remove_workload, remove_from, finish_removal,
  remove_workloads_by_manifest_id, deployed_from, get_workload_status, refreshed, refresh_from,
  remove_each,
}
use beemesh.Workload.Changes.Removal.{
  listed, send-provider_manager, remove_workload-deployments, remove_each-deployments,
  remove_each-listed, listed-deployed_from,
}
use beemesh.Workload.Changes.Deploying.{deploy_workload-Deployed}

-- Each id stands once, and no stored deployment is marked as announced.
abbrev pub NeverAnnounced : HashMap DeploymentStatus → Type 0
NeverAnnounced deployments =
    IsMap deployments
    × ((k : String) (d : DeploymentStatus)
        → get k deployments ≡ some d
        → d.announced_as_provider ≡ false)

NeverAnnounced-insert :
    (k : String) (d : DeploymentStatus) (deployments : HashMap DeploymentStatus)
    → d.announced_as_provider ≡ false
    → NeverAnnounced deployments
    → NeverAnnounced (insert k d deployments)
NeverAnnounced-insert k d deployments e h = (
  IsMap-insert k d deployments h.0,
  λ j c found. elim (Bool-cases (str_eq k j)) [
    | inl here ↦
        let at_k = rw (get-insert, here) at found in
        let same : d ≡ c = ground arith in rw (← same) e
    | inr there ↦ h.1 j c (rw (get-insert, there) at found)
  ],
)

NeverAnnounced-remove :
    (k : String) (deployments : HashMap DeploymentStatus)
    → NeverAnnounced deployments
    → NeverAnnounced (remove k deployments)
NeverAnnounced-remove k deployments h = (
  IsMap-remove k deployments h.0,
  λ j c found. elim (Bool-cases (str_eq k j)) [
    | inl here ↦ let at_k = rw (get-remove, here) at found in absurd (ground arith)
    | inr there ↦ h.1 j c (rw (get-remove, there) at found)
  ],
)

module _ {W : Type 0} where
  -- The other tasks of the node change the provider manager at any time.
  pub data Step : WorkloadManager W → WorkloadManager W → Type 0 where
    deployed :
        {m : WorkloadManager W} (net : Announcing) (manifest_id : String) (content : List ℕ)
        (config : DeploymentConfig)
        → Step m (deploy_workload net manifest_id content config m).0
    removed :
        {m : WorkloadManager W} (workload_id : String) → Step m (remove_workload workload_id m).0
    asked :
        {m : WorkloadManager W} (workload_id : String)
        → Step m (get_workload_status workload_id m).0
    channelled : {m : WorkloadManager W} → Step m (set_event_channel m)
    provider_changed :
        {m : WorkloadManager W} (p : ProviderManager) → Step m (record m { provider_manager = p })
    host_changed : {m : WorkloadManager W} (w : W) → Step m (record m { host = w })

  pub data Reach (podman docker : RuntimeEngine W) (mock : Option (RuntimeEngine W))
      : WorkloadManager W → Type 0 where
    start :
        (config : WorkloadManagerConfig) (w : W)
        → Reach podman docker mock (new podman docker mock config w)
    next :
        {m n : WorkloadManager W}
        → Reach podman docker mock m
        → Step m n
        → Reach podman docker mock n

  deployed_on-stored :
      (k : String) (m : WorkloadManager W) (d : DeploymentStatus) (engine : RuntimeEngine W)
      → deployed_on k m ≡ ok (d, engine)
      → get k m.deployments ≡ some d
  unfolding deployed_on deployment_or_error engine_or_error
  deployed_on-stored k m d engine e = elim (Option-cases (get k m.deployments)) [
    | inl absent ↦ let e' = rw absent at e in absurd (ground arith)
    | inr (c, there) ↦ elim (Option-cases (get_engine c.runtime_engine m.runtime_registry)) [
      | inl none_there ↦ let e' = rw (there, none_there) at e in absurd (ground arith)
      | inr (g, found) ↦ let e' = rw (there, found) at e in ground arith
    ]
  ]

  deploy_workload-NeverAnnounced :
      (net : Announcing) (k : String) (content : List ℕ) (config : DeploymentConfig)
      (m : WorkloadManager W)
      → NeverAnnounced m.deployments
      → NeverAnnounced (deploy_workload net k content config m).0.deployments
  deploy_workload-NeverAnnounced net k content config m h =
      let what = deploy_workload-Deployed net k content config m in
      elim (Result-cases (deploy_workload net k content config m).1) [
        | inl (d, done) ↦
            let stored = (rw done at what).0 in
            rw stored (
              NeverAnnounced-insert d.workload_id (record d { announced_as_provider = false })
                m.deployments refl h)
        | inr (e, failed) ↦ rw (rw failed at what).0 h
      ]

  remove_workload-NeverAnnounced :
      (k : String) (m : WorkloadManager W)
      → NeverAnnounced m.deployments
      → NeverAnnounced (remove_workload k m).0.deployments
  remove_workload-NeverAnnounced k m h =
      let what = remove_workload-deployments k m in
      elim (Result-cases (remove_workload k m).1) [
        | inl (_, done) ↦ rw (rw done at what) (NeverAnnounced-remove k m.deployments h)
        | inr (e, failed) ↦ rw (rw failed at what) h
      ]

  refreshed-NeverAnnounced :
      (k : String) (d : DeploymentStatus) (fresh : RuntimeResult WorkloadInfo)
      (m : WorkloadManager W)
      → d.announced_as_provider ≡ false
      → NeverAnnounced m.deployments
      → NeverAnnounced (refreshed k d fresh m).0.deployments
  unfolding refreshed
  refreshed-NeverAnnounced k d (err e) m q h = h
  refreshed-NeverAnnounced k d (ok info) m q h = NeverAnnounced-insert k _ m.deployments q h

  get_workload_status-NeverAnnounced :
      (k : String) (m : WorkloadManager W)
      → NeverAnnounced m.deployments
      → NeverAnnounced (get_workload_status k m).0.deployments
  unfolding get_workload_status refresh_from
  get_workload_status-NeverAnnounced k m h = elim (Result-cases (deployed_on k m)) [
    | inl ((d, engine), found) ↦
        let q = h.1 k d (deployed_on-stored k m d engine found) in
        rw found (refreshed-NeverAnnounced k d (engine.get_workload_status k m.host) m q h)
    | inr (e, failed) ↦ rw failed h
  ]

  Step-NeverAnnounced :
      {m n : WorkloadManager W}
      → Step m n
      → NeverAnnounced m.deployments
      → NeverAnnounced n.deployments
  unfolding set_event_channel
  Step-NeverAnnounced (deployed net k content config) h =
      deploy_workload-NeverAnnounced net k content config _ h
  Step-NeverAnnounced (removed k) h = remove_workload-NeverAnnounced k _ h
  Step-NeverAnnounced (asked k) h = get_workload_status-NeverAnnounced k _ h
  Step-NeverAnnounced channelled h = h
  Step-NeverAnnounced (provider_changed p) h = h
  Step-NeverAnnounced (host_changed w) h = h

  -- In every state that the manager reaches, each workload id is stored once, and no stored
  -- deployment is marked as announced, whatever was announced.
  pub Reach-NeverAnnounced :
      {podman docker : RuntimeEngine W} {mock : Option (RuntimeEngine W)} {m : WorkloadManager W}
      → Reach podman docker mock m
      → NeverAnnounced m.deployments
  unfolding new
  Reach-NeverAnnounced (start config w) = (tt, λ k d e. absurd (ground arith))
  Reach-NeverAnnounced (next r s) = Step-NeverAnnounced s (Reach-NeverAnnounced r)

  unannounced-provider_manager :
      (k : String) (m : WorkloadManager W)
      → NeverAnnounced m.deployments
      → (remove_workload k m).0.provider_manager ≡ m.provider_manager
  unfolding remove_workload remove_from
  unannounced-provider_manager k m h = elim (Result-cases (deployed_on k m)) [
    | inl ((d, engine), found) ↦
        let q = h.1 k d (deployed_on-stored k m d engine found) in
        rw found (
          finish k d (engine.remove_workload k m.host).1
            (record m { host = (engine.remove_workload k m.host).0 }) q)
    | inr (e, failed) ↦ rw failed refl
  ]
    where
      finish :
          (k : String) (d : DeploymentStatus) (answer : RuntimeResult (Unit {0}))
          (m : WorkloadManager W)
          → d.announced_as_provider ≡ false
          → (finish_removal k d answer m).0.provider_manager ≡ m.provider_manager
      finish k d (err e) m q = unfold finish_removal in refl
      finish k d (ok _) m q = unfold finish_removal in rw (send-provider_manager, q) refl

  -- In a state that the manager reaches, after a deployment whose status says that it is announced
  -- and then the removal of a workload, this one or another, the node still provides the manifest.
  pub remove-deploy_still_provides :
      {podman docker : RuntimeEngine W} {mock : Option (RuntimeEngine W)} (net : Announcing)
      (manifest_id : String) (content : List ℕ) (config : DeploymentConfig) (m : WorkloadManager W)
      (d : DeploymentStatus) (workload_id : String)
      → Reach podman docker mock m
      → (deploy_workload net manifest_id content config m).1 ≡ ok d
      → d.announced_as_provider ≡ true
      → contains_key manifest_id
          (remove_workload workload_id
            (deploy_workload net manifest_id content config m).0).0.provider_manager.local_providers
        ≡ true
  remove-deploy_still_provides net k content config m d workload_id r done announced =
      let deployed_or_not = deploy_workload-Deployed net k content config m in
      let what = rw done at deployed_or_not in
      let after = deploy_workload-NeverAnnounced net k content config m (Reach-NeverAnnounced r) in
      rw (unannounced-provider_manager workload_id (deploy_workload net k content config m).0 after)
        (what.3 (announces m.config.announce_as_provider (sym announced ∙ what.2)))
    where
      announces : (b : Bool) → true ≡ (b && is_ok net.dht) → b ≡ true
      announces true h = refl
      announces false h = cc

  -- In every state that the manager reaches, removing a manifest's workloads removes exactly the
  -- deployments that it names in its answer, and each of these was a deployment of that manifest.
  -- All others are as before.
  pub remove_workloads_by_manifest_id_exact :
      {podman docker : RuntimeEngine W} {mock : Option (RuntimeEngine W)} (manifest_id : String)
      (m : WorkloadManager W) (j : String)
      → Reach podman docker mock m
      → (let (after, answer) = remove_workloads_by_manifest_id manifest_id m in
          (get j after.deployments ≡ (if listed j answer then none else get j m.deployments))
          × ((listed j answer ≡ false)
              ⊎ ((d : DeploymentStatus) × (get j m.deployments ≡ some d)
                  × (d.manifest_id ≡ manifest_id))))
  unfolding remove_workloads_by_manifest_id
  remove_workloads_by_manifest_id_exact k m j r = (
    remove_each-deployments (deployed_from k m.deployments) m j,
    elim (Bool-cases (listed j (remove_each (deployed_from k m.deployments) m).1)) [
      | inl named ↦ inr (
          listed-deployed_from k m.deployments j (Reach-NeverAnnounced r).0
            (remove_each-listed (deployed_from k m.deployments) m j named))
      | inr other ↦ inl other
    ],
  )
