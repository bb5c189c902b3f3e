-- ===== src/Workload/Changes/Tests.antt =====
-- Runs of the workload manager on engines that keep the number of their containers.
use beemesh.Prelude.{
  ℕ, ◌⊎◌, ◌+◌, ◌-◌, ◌≡◌, refl, String, true, false, none, some, [], ◌∷◌, ok, if◌then◌else◌,
}
use beemesh.HashMap.{get, contains_key}
use beemesh.Runtime.{WorkloadInfo, running, default_deployment_config}
use beemesh.Runtime.Registry.{
  RuntimeEngine, new_registry, register, get_engine, get_default_engine, set_default_engine,
  check_all, check_available_engines, register_mock, default_mock, create_default_registry,
}
use beemesh.Provider.{announce_provider, announce_via_dht, new_manager}
use beemesh.Workload.{
  WorkloadManager, DeploymentStatus, default_workload_config, new, set_event_channel,
  list_workloads, get_workload_logs, export_workload_manifest, get_runtime_engine,
  get_runtime_engine_by_name, validate_manifest_content, preferred_or_default, default_runtime,
  if_available, engine_or_error, from_runtime, announced_metadata, send, deployed_on,
  deployment_or_error,
}
use beemesh.Workload.Changes.{
  Announcing, deploy_workload, remove_workload, remove_workloads_by_manifest_id,
  get_workload_status, stored_status, deploy_on, chosen_engine, finish_deployment,
  announce_deployment, if_announced, remove_from, finish_removal, stop_announcing, if_stopped,
  remove_each, keep_removed, deployed_from, refreshed, refresh_from,
}
use beemesh.Workload.Changes.Removal.{listed}
use beemesh.Workload.Changes.Deploying.{Deployed, deploy_workload-Deployed}
use beemesh.Workload.Changes.Reachable.{
  NeverAnnounced, Reach, start, next, deployed, channelled, Reach-NeverAnnounced,
  remove-deploy_still_provides, remove_workloads_by_manifest_id_exact,
}

abbrev info : String → WorkloadInfo
info id = record {
  id = id;
  manifest_id = "m";
  status = running;
  metadata = [];
  created_at = 1;
  updated_at = 1;
  ports = [];
}

abbrev engine : String → RuntimeEngine ℕ
engine name = record {
  name = name;
  is_available = λ w. true;
  deploy_workload = λ manifest_id content config w. (w + 1, ok (info "w"));
  get_workload_status = λ id w. ok (info id);
  list_workloads = λ w. ok [];
  remove_workload = λ id w. (w - 1, ok tt);
  get_workload_logs = λ id tail w. ok "log";
  validate_manifest = λ content w. ok tt;
  export_manifest = λ id w. ok [];
}

abbrev net : Announcing
net = record { t_announced = 0; t_seen = 0; dht = ok tt; local_peer_id = "self" }

fresh : WorkloadManager ℕ
fresh = set_event_channel (new (engine "podman") (engine "docker") none default_workload_config 0)

abbrev status : DeploymentStatus
status = record (stored_status "m" "podman" default_deployment_config (info "w")) {
  announced_as_provider = true;
}

deployed_status : (deploy_workload net "m" [] default_deployment_config fresh).1 ≡ ok status
unfolding fresh new set_event_channel deploy_workload deploy_on chosen_engine
    validate_manifest_content get_runtime_engine preferred_or_default default_runtime if_available
    engine_or_error from_runtime finish_deployment announce_deployment if_announced
    announced_metadata stored_status send announce_provider announce_via_dht new_manager
    new_registry register get_engine get_default_engine set_default_engine check_all
    check_available_engines register_mock default_mock create_default_registry
deployed_status = refl

abbrev running_manager : WorkloadManager ℕ
running_manager = (deploy_workload net "m" [] default_deployment_config fresh).0

removed_all : (remove_workloads_by_manifest_id "m" running_manager).1 ≡ "w" ∷ []
unfolding remove_workloads_by_manifest_id remove_each keep_removed deployed_from deployed_on
    deployment_or_error remove_workload remove_from finish_removal stop_announcing if_stopped fresh
    new set_event_channel deploy_workload deploy_on chosen_engine validate_manifest_content
    get_runtime_engine preferred_or_default default_runtime if_available engine_or_error
    from_runtime finish_deployment announce_deployment if_announced announced_metadata stored_status
    send announce_provider announce_via_dht new_manager new_registry register get_engine
    get_default_engine set_default_engine check_all check_available_engines register_mock
    default_mock create_default_registry
removed_all = refl

asked_status :
    (get_workload_status "w" running_manager).1
    ≡ ok (record status { announced_as_provider = false })
unfolding get_workload_status refreshed refresh_from deployed_on deployment_or_error fresh new
    set_event_channel deploy_workload deploy_on chosen_engine validate_manifest_content
    get_runtime_engine preferred_or_default default_runtime if_available engine_or_error
    from_runtime finish_deployment announce_deployment if_announced announced_metadata stored_status
    send announce_provider announce_via_dht new_manager new_registry register get_engine
    get_default_engine set_default_engine check_all check_available_engines register_mock
    default_mock create_default_registry
asked_status = refl

listed_status :
    list_workloads running_manager ≡ record status { announced_as_provider = false } ∷ []
unfolding list_workloads fresh new set_event_channel deploy_workload deploy_on chosen_engine
    validate_manifest_content get_runtime_engine preferred_or_default default_runtime if_available
    engine_or_error from_runtime finish_deployment announce_deployment if_announced
    announced_metadata stored_status send announce_provider announce_via_dht new_manager
    new_registry register get_engine get_default_engine set_default_engine check_all
    check_available_engines register_mock default_mock create_default_registry
listed_status = refl

logged : get_workload_logs "w" none running_manager ≡ ok "log"
unfolding get_workload_logs deployed_on deployment_or_error fresh new set_event_channel
    deploy_workload deploy_on chosen_engine validate_manifest_content get_runtime_engine
    preferred_or_default default_runtime if_available engine_or_error from_runtime finish_deployment
    announce_deployment if_announced announced_metadata stored_status send announce_provider
    announce_via_dht new_manager new_registry register get_engine get_default_engine
    set_default_engine check_all check_available_engines register_mock default_mock
    create_default_registry
logged = refl

exported : export_workload_manifest "w" running_manager ≡ ok []
unfolding export_workload_manifest deployed_on deployment_or_error fresh new set_event_channel
    deploy_workload deploy_on chosen_engine validate_manifest_content get_runtime_engine
    preferred_or_default default_runtime if_available engine_or_error from_runtime finish_deployment
    announce_deployment if_announced announced_metadata stored_status send announce_provider
    announce_via_dht new_manager new_registry register get_engine get_default_engine
    set_default_engine check_all check_available_engines register_mock default_mock
    create_default_registry
exported = refl

named_engine : get_runtime_engine_by_name "docker" running_manager ≡ ok "docker"
unfolding get_runtime_engine_by_name fresh new set_event_channel deploy_workload deploy_on
    chosen_engine validate_manifest_content get_runtime_engine preferred_or_default default_runtime
    if_available engine_or_error from_runtime finish_deployment announce_deployment if_announced
    announced_metadata stored_status send announce_provider announce_via_dht new_manager
    new_registry register get_engine get_default_engine set_default_engine check_all
    check_available_engines register_mock default_mock create_default_registry
named_engine = refl

fresh-Reach : Reach (engine "podman") (engine "docker") none fresh
unfolding fresh
fresh-Reach = next (start default_workload_config 0) channelled

deploy_workload-Deployed_example :
    Deployed net "m"
      (deploy_workload net "m" [] default_deployment_config fresh).1
      fresh
      (deploy_workload net "m" [] default_deployment_config fresh).0
deploy_workload-Deployed_example =
    deploy_workload-Deployed net "m" [] default_deployment_config fresh

Reach-NeverAnnounced_example : NeverAnnounced running_manager.deployments
Reach-NeverAnnounced_example =
    Reach-NeverAnnounced (next fresh-Reach (deployed net "m" [] default_deployment_config))

remove-deploy_still_provides_example :
    contains_key "m" (remove_workload "w" running_manager).0.provider_manager.local_providers ≡ true
remove-deploy_still_provides_example =
    remove-deploy_still_provides net "m" [] default_deployment_config fresh status "w" fresh-Reach
      deployed_status refl

remove_workloads_by_manifest_id_exact_example :
    (let (after, answer) = remove_workloads_by_manifest_id "m" running_manager in
      (get "w" after.deployments
        ≡ (if listed "w" answer then none else get "w" running_manager.deployments))
      × ((listed "w" answer ≡ false)
          ⊎ ((d : DeploymentStatus) × (get "w" running_manager.deployments ≡ some d)
              × (d.manifest_id ≡ "m"))))
remove_workloads_by_manifest_id_exact_example =
    remove_workloads_by_manifest_id_exact "m" running_manager "w"
      (next fresh-Reach (deployed net "m" [] default_deployment_config))
