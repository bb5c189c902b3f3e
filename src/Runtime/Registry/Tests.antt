-- ===== src/Runtime/Registry/Tests.antt =====
-- The registry of a node without Podman.
use beemesh.Prelude.{ℕ, ◌≡◌, refl, String, Bool, true, some, [], ◌∷◌, ok, err}
use beemesh.Runtime.{WorkloadInfo, running, default_deployment_config, workload_not_found}
use beemesh.Runtime.Registry.{
  RuntimeEngine, deploy_workload_with_peer, list_workloads_by_peer, of_peer, list_engines,
  new_registry, register, create_mock_only_registry, get_default_engine, get_engine,
  set_default_engine,
}

abbrev info : WorkloadInfo
info = record {
  id = "w";
  manifest_id = "m";
  status = running;
  metadata = ("local_peer_id", "p") ∷ [];
  created_at = 1;
  updated_at = 1;
  ports = [];
}

abbrev engine : String → Bool → RuntimeEngine ℕ
engine name available = record {
  name = name;
  is_available = λ w. available;
  deploy_workload = λ manifest_id content config w. (w, ok info);
  get_workload_status = λ id w. err (workload_not_found id);
  list_workloads = λ w. ok (info ∷ []);
  remove_workload = λ id w. (w, ok tt);
  get_workload_logs = λ id tail w. ok "";
  validate_manifest = λ content w. ok tt;
  export_manifest = λ id w. ok [];
}

of_this_peer : list_workloads_by_peer (engine "podman" true) "p" 0 ≡ ok (info ∷ [])
unfolding list_workloads_by_peer of_peer
of_this_peer = refl

deployed_with_peer :
    (deploy_workload_with_peer (engine "podman" true) "m" [] default_deployment_config "q" 0).1
    ≡ ok (record info { metadata = ("local_peer_id", "q") ∷ [] })
unfolding deploy_workload_with_peer
deployed_with_peer = refl

engines_listed : list_engines (register (engine "mock" true) new_registry) ≡ "mock" ∷ []
unfolding list_engines register new_registry
engines_listed = refl

mock_only :
    get_default_engine (create_mock_only_registry (engine "mock" true)) ≡ some (engine "mock" true)
unfolding create_mock_only_registry get_default_engine get_engine set_default_engine register
    new_registry
mock_only = refl
