-- ===== src/Workload/Stats/Tests.antt =====
-- The statistics of a manager with two deployments.
use beemesh.Prelude.{ℕ, ◌≡◌, refl, String, false, none, [], ◌∷◌}
use beemesh.Runtime.{running, default_deployment_config}
use beemesh.Provider.{default_provider_config}
use beemesh.Workload.{WorkloadManager, DeploymentStatus, default_workload_config}
use beemesh.Workload.Stats.{get_stats, deployed_by, list_workloads_by_peer, count_by, count}

abbrev deployment : String → String → DeploymentStatus
deployment id engine = record {
  workload_id = id;
  manifest_id = "m";
  status = running;
  runtime_engine = engine;
  announced_as_provider = false;
  deployed_at = 0;
  last_updated = 0;
  config = default_deployment_config;
}

abbrev manager : WorkloadManager ℕ
manager = record {
  runtime_registry = record { engines = []; default_engine = none };
  provider_manager = record {
    local_providers = [];
    remote_providers = [];
    pending_queries = [];
    config = default_provider_config;
  };
  deployments = ("v", deployment "v" "docker") ∷ ("w", deployment "w" "podman") ∷ [];
  config = default_workload_config;
  event_sender = false;
  host = 0;
  events = [];
}

engines_counted :
    (get_stats (λ s. "Running") manager).engine_counts ≡ ("docker", 1) ∷ ("podman", 1) ∷ []
unfolding get_stats count_by count
engines_counted = refl

nobody : list_workloads_by_peer "p" none manager ≡ []
unfolding list_workloads_by_peer deployed_by
nobody = refl
