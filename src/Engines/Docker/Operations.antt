-- ===== src/Engines/Docker/Operations.antt =====
-- machineplane/machine/src/runtime/engines/docker.rs: what the engine asks of containers that run.
use Prim.Native.String.{◌++◌ as append}
use beemesh.Prelude.{
  ℕ, Bytes, String, Option, none, some, List, [], ◌∷◌, ◌++◌, ok, err, ◌>>=◌, str_eq, if◌then◌else◌,
}
use beemesh.Text.{codes, parse_unsigned}
use beemesh.Text.Affixes.{trim, text_lines, strip_suffix}
use beemesh.Runtime.{RuntimeResult, WorkloadInfo, PortMapping, running, stopped, workload_not_found}
use beemesh.Runtime.Registry.{RuntimeEngine}
use beemesh.Node.{Libraries}
use beemesh.Engines.{System, unknown_info, error_text, logs_or_notice, tail_args, json_text}
use beemesh.Engines.Docker.{
  DockerEngine, execute_command, is_available, validate_manifest, deploy_workload, container_status,
  service_lines,
}

abbrev parse_u16 : String → Option ℕ
parse_u16 text = parse_unsigned 65535 (codes text)

module _ {W Y J : Type 0} (lib : Libraries Y) (sys : System W Y J) (d : DockerEngine) where
  -- the host port of the first binding
  unfoldable pub host_port : Option (List J) → Option ℕ
  unfolding json_text parse_unsigned
  host_port none = none
  host_port (some []) = none
  host_port (some (binding ∷ _)) = elim (json_text sys "HostPort" binding) [
    | none ↦ none
    | some text ↦ parse_u16 text
  ]

  -- the port of a key such as `80/tcp`
  unfoldable pub tcp_port : (container_port : String) → Option ℕ
  unfolding strip_suffix parse_unsigned
  tcp_port container_port = elim (strip_suffix "/tcp" container_port) [
    | none ↦ none
    | some port_str ↦ parse_u16 port_str
  ]

  unfoldable pub port_mappings : List (String × J) → List PortMapping
  unfolding host_port tcp_port
  port_mappings [] = []
  port_mappings ((container_port, host_bindings) ∷ rest) =
      let more = port_mappings rest in
      elim (tcp_port container_port) [
        | none ↦ more
        | some port ↦
            record {
              container_port = port;
              host_port = host_port (sys.as_array host_bindings);
              protocol = "tcp";
            }
            ∷ more
      ]

  unfoldable pub read_ports : Option J → List PortMapping
  unfolding port_mappings
  read_ports none = []
  read_ports (some v) = elim (sys.as_object v) [ none ↦ [] | some ports ↦ port_mappings ports ]

  -- marked as dead code
  unfoldable pub extract_port_mappings :
      (container_name : String) → W → RuntimeResult (List PortMapping)
  unfolding execute_command read_ports
  extract_port_mappings container_name w = do
    output ←
        (execute_command lib sys d
          ("inspect" ∷ container_name ∷ "--format" ∷ "{{json .NetworkSettings.Ports}}" ∷ []) w).1
    ok (read_ports (sys.from_json output))

  unfoldable pub get_workload_status : (workload_id : String) → W → RuntimeResult WorkloadInfo
  unfolding execute_command trim
  get_workload_status workload_id w = do
    output ←
        (execute_command lib sys d
          ("compose" ∷ "-p" ∷ workload_id ∷ "ps" ∷ "--format" ∷ "json" ∷ []) w).1
    ok (unknown_info workload_id (if str_eq (trim output) "" then stopped else running) (sys.now w))

  -- a line of `docker ps`: its container, if it is JSON with a name
  unfoldable pub container_info : (now : ℕ) → (line : String) → List WorkloadInfo
  unfolding json_text container_status
  container_info now line = elim (sys.from_json line) [
    | none ↦ []
    | some v ↦ elim (json_text sys "Names" v) [
      | none ↦ []
      | some name ↦ unknown_info name (container_status (json_text sys "State" v)) now ∷ []
    ]
  ]

  unfoldable pub container_infos : (now : ℕ) → (lines : List String) → List WorkloadInfo
  unfolding container_info
  container_infos now [] = []
  container_infos now (line ∷ lines) = container_info now line ++ container_infos now lines

  unfoldable pub list_workloads : W → RuntimeResult (List WorkloadInfo)
  unfolding execute_command container_infos text_lines
  list_workloads w = do
    output ←
        (execute_command lib sys d
          ("ps" ∷ "-a" ∷ "--filter" ∷ "name=beemesh-" ∷ "--format" ∷ "json" ∷ []) w).1
    ok (container_infos (sys.now w) (text_lines output))

  -- behind the answer of `compose down`; that of `container rm` is not looked at
  unfoldable pub after_down :
      (workload_id : String) → W × RuntimeResult String → W × RuntimeResult (Unit {0})
  unfolding execute_command
  after_down workload_id (w, ok output) = (w, ok tt)
  after_down workload_id (w, err e) =
      ((execute_command lib sys d ("container" ∷ "rm" ∷ "-f" ∷ workload_id ∷ []) w).0, ok tt)

  unfoldable pub remove_workload : (workload_id : String) → W → W × RuntimeResult (Unit {0})
  unfolding after_down execute_command
  remove_workload workload_id w =
      after_down workload_id
        (execute_command lib sys d ("compose" ∷ "-p" ∷ workload_id ∷ "down" ∷ "-v" ∷ []) w)

  unfoldable pub get_workload_logs :
      (workload_id : String) → (tail : Option ℕ) → W → RuntimeResult String
  unfolding execute_command tail_args
  get_workload_logs workload_id tail w =
      logs_or_notice
        (execute_command lib sys d ("compose" ∷ "-p" ∷ workload_id ∷ "logs" ∷ tail_args tail) w).1

  unfoldable pub service : (line : String) → String
  unfolding json_text service_lines
  service line = elim (sys.from_json line) [
    | none ↦ ""
    | some v ↦ elim (json_text sys "Names" v) [
      | none ↦ ""
      | some names ↦ elim (json_text sys "Image" v) [
        | none ↦ ""
        | some image ↦ service_lines names image
      ]
    ]
  ]

  unfoldable pub all_services : (lines : List String) → String
  unfolding service
  all_services [] = ""
  all_services (line ∷ lines) = append (service line) (all_services lines)

  -- what the containers of a filter by name show of the services
  unfoldable pub generated : (workload_id : String) → RuntimeResult String → RuntimeResult Bytes
  unfolding all_services text_lines trim error_text
  generated workload_id (err e) = err (
      workload_not_found (
        append "Failed to export manifest for workload "
          (append workload_id (append ": " (error_text e)))))
  generated workload_id (ok containers_output) =
      if str_eq (trim containers_output) ""
      then err (workload_not_found (append "No containers found for workload " workload_id))
      else ok (
          lib.as_bytes (
            append "# Generated Docker Compose manifest for workload: " (
              append workload_id (
                append "\nversion: '3.8'\nservices:\n"
                  (all_services (text_lines containers_output))))))

  unfoldable pub after_config :
      (workload_id : String) → W × RuntimeResult String → RuntimeResult Bytes
  unfolding generated execute_command
  after_config workload_id (w, ok compose_config) = ok (lib.as_bytes compose_config)
  after_config workload_id (w, err e) =
      generated workload_id
        (execute_command lib sys d
          ("ps" ∷ "-a" ∷ "--filter" ∷ append "name=" workload_id ∷ "--format" ∷ "json" ∷ []) w).1

  unfoldable pub export_manifest : (workload_id : String) → W → RuntimeResult Bytes
  unfolding after_config execute_command
  export_manifest workload_id w =
      after_config workload_id
        (execute_command lib sys d ("compose" ∷ "-p" ∷ workload_id ∷ "config" ∷ []) w)

  -- the engine as the registry holds it
  unfoldable pub docker_engine : RuntimeEngine W
  docker_engine = record {
    name = "docker";
    is_available = is_available lib sys d;
    deploy_workload = deploy_workload lib sys d;
    get_workload_status = get_workload_status;
    list_workloads = list_workloads;
    remove_workload = remove_workload;
    get_workload_logs = get_workload_logs;
    validate_manifest = λ content w. validate_manifest lib sys d content;
    export_manifest = export_manifest;
  }
