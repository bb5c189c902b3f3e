-- ===== src/Engines/Mock/Storing.antt =====
-- What a deployment on the mock engine leaves in the books, and what the engine then says of it.
use beemesh.Prelude.{
  ◌≡◌, refl, ◌∙◌, Bytes, String, some, ok, err, str_eq, eq_iff, if◌then◌else◌, Bool-cases, inl, inr,
}
use beemesh.HashMap.{HashMap, get, insert}
use beemesh.HashMap.Laws.{get-insert}
use beemesh.Runtime.{RuntimeResult, WorkloadInfo, DeploymentConfig}
use beemesh.Node.{Libraries}
use beemesh.Engines.{System}
use beemesh.Engines.Mock.{MockWorkload, MockConfig, Books, generate_workload_id}
use beemesh.Engines.Mock.Operations.{
  with_time, store, store_new, deploy_valid, deploy_workload, get_workload_status,
}

module _ {W Y J : Type 0} (lib : Libraries Y) (sys : System W Y J) (books : Books W)
    (config : MockConfig) where
  -- what the state and the answer of a deployment are, for a workload id that is asked after
  abbrev pub Stored :
      (id : String)
      → Bytes
      → DeploymentConfig
      → (j : String) → W
      → W × RuntimeResult WorkloadInfo
      → Type 0
  Stored id content deployment j w (w', err e) = w' ≡ w
  Stored id content deployment j w (w', ok info) =
      (info.manifest_id ≡ id)
      × (info.id ≡ generate_workload_id lib sys id content)
      × (get j (books.workloads w') ≡ (
          if str_eq info.id j
          then some (record { info = info; config = deployment })
          else get j (books.workloads w)))
      × (get_workload_status lib sys books config info.id w' ≡ ok (with_time (sys.now w') info))

  status_stored :
      (workload : MockWorkload) (w : W)
      → get workload.info.id (books.workloads w) ≡ some workload
      → get_workload_status lib sys books config workload.info.id w
        ≡ ok (with_time (sys.now w) workload.info)
  unfolding get_workload_status
  status_stored workload w stored = rw (stored, get_workload_status) refl

  get-store :
      (workload : MockWorkload) (j : String) (w : W)
      → get j (books.workloads (store lib sys books config workload w))
        ≡ (if str_eq workload.info.id j then some workload else get j (books.workloads w))
  unfolding store
  get-store workload j w =
      rw (books.workloads-keep (insert workload.info.id workload (books.workloads w)) w)
        (get-insert workload.info.id j workload (books.workloads w))

  get-store_self :
      (workload : MockWorkload) (w : W)
      → get workload.info.id (books.workloads (store lib sys books config workload w))
        ≡ some workload
  get-store_self workload w =
      get-store workload workload.info.id w
      ∙ rw ((eq_iff workload.info.id workload.info.id).1 refl) refl

  store_new-Stored :
      (id : String) (content : Bytes) (metadata : HashMap String) (deployment : DeploymentConfig)
      (j : String) (w : W)
      → Stored id content deployment j w (
          store_new lib sys books config
            (generate_workload_id lib sys id content)
            id
            metadata
            deployment
            w)
  unfolding store_new
  store_new-Stored id content metadata deployment j w =
      (refl, refl, get-store _ j w, status_stored _ _ (get-store_self _ w))

  deploy_valid-Stored :
      (id : String) (content : Bytes) (deployment : DeploymentConfig)
      (checked : RuntimeResult (Unit {0})) (j : String) (w : W)
      → Stored id content deployment j w
          (deploy_valid lib sys books config id content deployment checked w)
  unfolding deploy_valid
  deploy_valid-Stored id content deployment (err e) j w = refl
  deploy_valid-Stored id content deployment (ok _) j w =
      elim (Bool-cases (books.drawn config.deployment_success_rate w)) [
        | inl drawn ↦ rw drawn (store_new-Stored id content _ deployment j w)
        | inr failed ↦ rw failed refl
      ]

  -- A deployment that fails leaves the host as it was. One that succeeds answers with the manifest
  -- and the id that is made from it, stores the workload under that id with its configuration and
  -- no other change to the books, and the engine then reports it as it answered, at the new time.
  pub deploy_workload-Stored :
      (id : String) (content : Bytes) (deployment : DeploymentConfig) (j : String) (w : W)
      → Stored id content deployment j w
          (deploy_workload lib sys books config id content deployment w)
  unfolding deploy_workload
  deploy_workload-Stored id content deployment j w = deploy_valid-Stored id content deployment _ j w
