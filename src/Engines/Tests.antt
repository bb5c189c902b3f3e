-- ===== src/Engines/Tests.antt =====
-- Runs of the engines on a host that keeps the mock engine's books, and the theorems at them.
use Prim.Native.String.{◌++◌ as append}
use beemesh.Prelude.{
  ◌≡◌, ◌≢◌, refl, String, Bool, true, false, Option, none, some, List, [], ◌∷◌, ok, err, Result,
  str_eq, if◌then◌else◌, inl, map,
}
use beemesh.HashMap.{HashMap, get}
use beemesh.Text.Affixes.{trim}
use beemesh.Envelope.{Primitives}
use beemesh.Resources.{new_verifier}
use beemesh.Runtime.{WorkloadInfo, default_deployment_config, command_failed, running}
use beemesh.Runtime.Registry.{
  check_available_engines, set_default_engine, create_default_registry, register, new_registry,
  create_mock_only_registry, RuntimeRegistry,
}
use beemesh.Node.{Libraries, Node}
use beemesh.Node.Removal.{remove_with, remove_workloads_by_manifest_id}
use beemesh.Engines.{unknown_info, Command, Output, System, deployed_info, json_text}
use beemesh.Engines.Podman.{PodmanEngine, remote_command, execute_command}
use beemesh.Engines.Podman.Manifests.{is_available, generate_workload_id}
use beemesh.Engines.Podman.Listing as Listing
use beemesh.Engines.Podman.Listing.{pod_infos}
use beemesh.Engines.Podman.Operations.{deploy_workload, podman_engine}
use beemesh.Engines.Podman.Sockets.{
  configured, forced_remote, execute_command-remote, execute_command_blank,
}
use beemesh.Engines.Podman.Names.{pod_infos-deploy_workload}
use beemesh.Engines.Docker.{new_docker}
use beemesh.Engines.Docker.Operations as Docker
use beemesh.Engines.Docker.Removals.{remove_workloads_by_manifest_id_docker}
use beemesh.Engines.Mock.{MockWorkload, Books, default_mock_config, note_lines}
use beemesh.Engines.Mock.Operations as Mock
use beemesh.Engines.Mock.Workloads.{Reach, new, next, deploys}
use beemesh.Engines.Mock.Storing.{Stored, deploy_workload-Stored}
use beemesh.Engines.Mock.Completeness.{of_others, remove_workloads_by_manifest_id_complete}

abbrev Host : Type 0
Host = HashMap MockWorkload

-- what the engines are shown of JSON: a text, an object of texts, a list
data Json : Type 0 where
  text : String → Json
  object : List (String × String) → Json
  names : List String → Json

abbrev field : String → Json → Option Json
field key (text s) = none
field key (object entries) = elim (get key entries) [ none ↦ none | some s ↦ some (text s) ]
field key (names l) = none

abbrev as_text : Json → Option String
as_text (text s) = some s
as_text (object entries) = none
as_text (names l) = none

abbrev prim : Primitives
prim = record {
  finish = λ env. [];
  root_as_envelope = λ bytes. none;
  encode = λ bytes. "";
  decode = λ s. none;
  pqc_ready = true;
  public_key = λ bytes. none;
  sign = λ secret message. none;
  verify = λ public message signature. none;
}

abbrev lib : Libraries String
lib = record {
  prim = prim;
  root_as_apply_request = λ bytes. none;
  root_as_delete_request = λ bytes. none;
  root_as_capacity_request = λ bytes. none;
  root_as_capacity_reply = λ bytes. none;
  as_bytes = λ s. 7 ∷ [];
  from_utf8 = λ bytes. none;
  from_utf8_lossy = λ bytes. "name: web";
  from_yaml = λ s. some s;
  to_yaml = λ doc. some doc;
  field = λ key doc. some doc;
  set_field = λ key value doc. value;
  is_mapping = λ doc. true;
  insert_key = λ key value doc. doc;
  as_str = λ doc. some doc;
  one = "1";
  decrypt = λ bytes. none;
}

abbrev answered : Output
answered = record { success = true; stdout = []; stderr = [] }

abbrev system : System Host String Json
system = record {
  output = λ command w. (w, ok answered);
  write_file = λ path content w. (w, ok tt);
  remove_file = λ path w. w;
  temp_path = λ name w. append "/tmp/" name;
  is_utf8_path = λ path. true;
  new_v4 = λ w. "u1";
  now = λ w. 5;
  f64_text = λ bits. "1.5";
  yaml_error = λ s. "bad";
  yaml_write_error = λ doc. "bad";
  yaml_string = λ s. s;
  mapping_keys = λ doc. [];
  from_json = λ s. none;
  json_field = field;
  json_str = as_text;
  as_array = λ v. none;
  as_object = λ v. none;
}

abbrev podman : PodmanEngine
podman = record { podman_binary = "podman"; podman_socket = none; force_remote = false }

abbrev podman_info : WorkloadInfo
podman_info =
    deployed_info "beemesh-m1" "m1"
      (("kind", "name: web")
        ∷ ("apiVersion", "name: web")
        ∷ ("name", "name: web")
        ∷ ("namespace", "name: web")
        ∷ [])
      5 []

podman_deploys :
    deploy_workload lib system podman "m1" [] default_deployment_config [] ≡ ([], ok podman_info)
unfolding deploy_workload
podman_deploys = refl

abbrev pod : Json
pod = object (("Name", "beemesh-m1-pod") ∷ [])

pod_name : json_text system "Name" pod ≡ some "beemesh-m1-pod"
unfolding json_text
pod_name = refl

m1_pod : "beemesh-m1-pod" ≡ append (generate_workload_id "m1") "-pod"
unfolding generate_workload_id
m1_pod = refl

pod_infos-deploy_workload_example :
    (listed : WorkloadInfo) × (pod_infos lib system podman 9 (pod ∷ [])
      ≡ listed ∷ pod_infos lib system podman 9 [])
    × (listed.id ≡ podman_info.id)
    × (listed.manifest_id ≡ podman_info.manifest_id)
pod_infos-deploy_workload_example =
    pod_infos-deploy_workload lib system podman "m1" [] default_deployment_config [] [] podman_info
      podman_deploys 9 pod [] "beemesh-m1-pod" (inl m1_pod) pod_name

abbrev first_is_remote : List String → Bool
first_is_remote [] = false
first_is_remote (arg ∷ args) = str_eq arg "--remote"

-- answers remote commands alone
abbrev remote_only : Command → Host → Host × Result Output String
remote_only command w =
    if first_is_remote command.args then (w, ok answered) else (w, err "not found")

same_remote :
    (socket : String) (args : List String) (w : Host)
    → remote_only (remote_command (configured "/run/p.sock") socket args) w
      ≡ system.output (remote_command (configured "/run/p.sock") socket args) w
unfolding remote_command
same_remote socket args w = refl

execute_command-remote_example :
    execute_command lib
      (record system { output = remote_only })
      (configured "/run/p.sock")
      ("pod" ∷ "ls" ∷ [])
      []
    ≡ execute_command lib system (configured "/run/p.sock") ("pod" ∷ "ls" ∷ []) []
execute_command-remote_example =
    execute_command-remote lib system (configured "/run/p.sock") remote_only
      (forced_remote "/run/p.sock") same_remote ("pod" ∷ "ls" ∷ []) []

blank : trim " \t" ≡ ""
unfolding trim
blank = refl

execute_command_blank_example :
    (is_available lib system (configured " \t") [] ≡ false)
    × ((args : List String)
        → execute_command lib system (configured " \t") args []
          ≡ ([], err (command_failed "Podman socket command failed and fallback disabled")))
execute_command_blank_example = execute_command_blank lib system " \t" blank []

-- a node with these engines
abbrev node : Option (RuntimeRegistry Host) → Host → Node Host
node registry host = record {
  registry = registry;
  provider_manager = none;
  verifier = new_verifier;
  owners = ("m1", 1 ∷ []) ∷ [];
  nonces = [];
  host = host;
}

-- docker lists one container
abbrev docker_system : System Host String Json
docker_system = record system {
  from_json = λ s. some (object (("Names", "web-1") ∷ ("State", "running") ∷ []));
}

docker_lists :
    (w : Host)
    → Docker.list_workloads lib docker_system new_docker w
      ≡ ok (unknown_info "web-1" running 5 ∷ [])
unfolding Docker.list_workloads
docker_lists w = refl

abbrev both_engines : RuntimeRegistry Host
both_engines =
    create_default_registry (podman_engine lib docker_system podman)
      (Docker.docker_engine lib docker_system new_docker) none []

abbrev docker_node : Node Host
docker_node = node (some both_engines) []

m1_known : ◌≢◌ {A = String} "m1" "unknown"
m1_known = cc

remove_workloads_by_manifest_id_docker_example :
    remove_workloads_by_manifest_id "m1" docker_node
    ≡ remove_with "m1"
        (some (register (podman_engine lib docker_system podman) new_registry))
        docker_node
unfolding podman_engine
remove_workloads_by_manifest_id_docker_example =
    remove_workloads_by_manifest_id_docker lib docker_system new_docker
      (podman_engine lib docker_system podman) "m1" [] docker_node
      (unknown_info "web-1" running 5 ∷ []) m1_known refl refl (docker_lists _)

-- the answer is a success, and the owner is forgotten
docker_keeps :
    ((remove_workloads_by_manifest_id "m1" docker_node).1 ≡ ok [])
    × (get "m1" (remove_workloads_by_manifest_id "m1" docker_node).0.owners ≡ none)
unfolding remove_workloads_by_manifest_id podman_engine Docker.docker_engine create_default_registry
    check_available_engines register new_registry is_available set_default_engine
    Docker.list_workloads Listing.list_workloads execute_command
docker_keeps = (refl, refl)

-- the engine of the whole host, whose draws succeed
abbrev books : Books Host
books = record {
  workloads = λ w. w;
  keep = λ m w. m;
  workloads-keep = λ m w. refl;
  drawn = λ rate w. true;
}

-- one workload is deployed on empty books
abbrev deployed : Host
deployed =
    (Mock.deploy_workload lib system books default_mock_config "m1" [] default_deployment_config
      []).0

reached : Reach lib system books default_mock_config deployed
reached = next (new refl) (deploys "m1" [] default_deployment_config)

deploy_workload-Stored_example :
    Stored lib system books default_mock_config "m1" [] default_deployment_config "mock-web-m1" [] (
      Mock.deploy_workload lib system books default_mock_config "m1" [] default_deployment_config
        [])
deploy_workload-Stored_example =
    deploy_workload-Stored lib system books default_mock_config "m1" [] default_deployment_config
      "mock-web-m1" []

-- it is stored under the manifest's name and id
mock_stores : map (λ e. e.0) deployed ≡ "mock-web-m1" ∷ []
unfolding Mock.deploy_workload
mock_stores = refl

abbrev mock_node : Node Host
mock_node =
    node (some (create_mock_only_registry (Mock.mock_engine lib system books default_mock_config)))
      deployed

remove_workloads_by_manifest_id_complete_example :
    get "mock-web-m1" (remove_workloads_by_manifest_id "m1" mock_node).0.host
    ≡ of_others "m1" (get "mock-web-m1" deployed)
remove_workloads_by_manifest_id_complete_example =
    remove_workloads_by_manifest_id_complete lib system books default_mock_config "m1" "mock-web-m1"
      mock_node refl reached

-- the last line with `name:` gives the name, which may be a container's
container_name :
    get "name" (note_lines ("metadata:" ∷ "  name: web" ∷ "  - name: nginx" ∷ []) []) ≡ some "nginx"
unfolding note_lines
container_name = refl
