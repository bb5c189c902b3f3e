-- ===== src/Engines/Docker.antt =====
-- machineplane/machine/src/runtime/engines/docker.rs: the engine that runs `docker compose`.
pub mod Operations
pub mod Removals
use Prim.Native.String.{◌++◌ as append}
use beemesh.Prelude.{
  ℕ, Bytes, String, Bool, true, false, Option, none, some, List, [], ◌∷◌, ◌++◌, map, Result, ok,
  err, ◌>>=◌, str_eq, ltb, if◌then◌else◌, is_some, unwrap_or,
}
use beemesh.HashMap.{HashMap, get, insert}
use beemesh.Text.{codes, join, split, parse_unsigned}
use beemesh.Text.Affixes.{trim, text_lines, strip_suffix}
use beemesh.Runtime.{
  RuntimeError, RuntimeResult, WorkloadStatus, WorkloadInfo, PortMapping, DeploymentConfig,
  invalid_manifest, io_error, starting, running, stopped, unknown, deployment_failed,
  workload_not_found,
}
use beemesh.Runtime.Registry.{RuntimeEngine}
use beemesh.Node.{Libraries}
use beemesh.Engines.{
  Command, System, deployed_info, unknown_info, error_text, noted, text_field, note_field, document,
  command_answer, logs_or_notice, tail_args, json_text,
}

pub record DockerEngine : Type 0 where
  pub docker_binary : String

abbrev pub new_docker : DockerEngine
new_docker = record { docker_binary = "docker" }

-- `up`, with the scaling that is asked for
unfoldable pub up_args : (replicas : ℕ) → List String
up_args replicas =
    if ltb 1 replicas then "up" ∷ "-d" ∷ "--scale" ∷ "service=1" ∷ [] else "up" ∷ "-d" ∷ []

unfoldable pub container_status : Option String → WorkloadStatus
container_status none = unknown
container_status (some s) =
    if str_eq s "running"
    then running
    else if str_eq s "exited"
    then stopped
    else if str_eq s "created"
    then starting
    else unknown

-- the last part of a name that is split at slashes
unfoldable pub last_part : (names : String) → List String → String
last_part last [] = last
last_part last (part ∷ parts) = last_part part parts

-- the lines of a service in the generated file
unfoldable pub service_lines : (names image : String) → String
unfolding last_part split
service_lines names image = join "" (
    "  "
    ∷ last_part names (split b'/' names)
    ∷ ":\n    image: "
    ∷ image
    ∷ "\n    container_name: "
    ∷ names
    ∷ "\n    restart: unless-stopped\n"
    ∷ [])

module _ {W Y J : Type 0} (lib : Libraries Y) (sys : System W Y J) (d : DockerEngine) where
  unfoldable pub execute_command : (args : List String) → W → W × RuntimeResult String
  unfolding command_answer
  execute_command args w =
      let (w', answer) =
        sys.output (record { program = d.docker_binary; args = args; env = [] }) w in
      (w', command_answer lib answer)

  -- `status().await`
  unfoldable pub is_available : W → Bool
  is_available w =
      elim (sys.output (record { program = d.docker_binary; args = "--version" ∷ []; env = [] })
        w).1 [ ok output ↦ output.success | err _ ↦ false ]

  -- `filter_map(as_str)`
  unfoldable pub texts : List Y → List String
  texts [] = []
  texts (key ∷ keys) =
      let more = texts keys in elim (lib.as_str key) [ none ↦ more | some text ↦ text ∷ more ]

  -- `and_then(as_mapping)`
  unfoldable pub mapping : Option Y → Option Y
  mapping none = none
  mapping (some v) = if lib.is_mapping v then some v else none

  unfoldable pub services : Option Y → Option String
  unfolding texts
  services none = none
  services (some v) = some (join "," (texts (sys.mapping_keys v)))

  unfoldable pub document_field : (key : String) → Option Y → Option Y
  document_field key none = none
  document_field key (some doc) = lib.field key doc

  unfoldable pub parse_manifest_metadata : (manifest_content : Bytes) → HashMap String
  unfolding document note_field noted services mapping document_field
  parse_manifest_metadata manifest_content =
      let doc = document lib manifest_content in
      note_field lib "name" (mapping (document_field "metadata" doc)) (
        noted "services" (services (mapping (document_field "services" doc)))
          (note_field lib "version" doc []))

  unfoldable pub generate_workload_id : (manifest_id : String) → (manifest_content : Bytes) → String
  unfolding parse_manifest_metadata
  generate_workload_id manifest_id manifest_content = append "beemesh-" (
      append (unwrap_or (get "name" (parse_manifest_metadata manifest_content)) "unnamed")
        (append "-" manifest_id))

  unfoldable pub create_temp_manifest_file : Bytes → W → W × RuntimeResult String
  create_temp_manifest_file manifest_content w =
      let path = sys.temp_path (append "beemesh-compose-" (append (sys.new_v4 w) ".yml")) w in
      let (w', written) = sys.write_file path manifest_content w in
      (w', elim written [ ok _ ↦ ok path | err e ↦ err (io_error e) ])

  unfoldable pub check_document : Bytes → Option Y → RuntimeResult (Unit {0})
  check_document manifest_content none = err (
      invalid_manifest
        (append "YAML parse error: " (sys.yaml_error (lib.from_utf8_lossy manifest_content))))
  check_document manifest_content (some doc) =
      if is_some (lib.field "services" doc)
      then ok tt
      else err (invalid_manifest "Missing services section in Docker Compose")

  unfoldable pub validate_manifest : (manifest_content : Bytes) → RuntimeResult (Unit {0})
  unfolding check_document document
  validate_manifest manifest_content =
      check_document manifest_content (document lib manifest_content)

  -- behind the answer of `compose up`
  unfoldable pub upped :
      (manifest_id : String)
      → Bytes
      → (path : String) → W × RuntimeResult String
      → W × RuntimeResult WorkloadInfo
  unfolding generate_workload_id parse_manifest_metadata
  upped manifest_id manifest_content path (w, ok output) =
      let w' = sys.remove_file path w in
      (
        w',
        ok (
            deployed_info (generate_workload_id manifest_id manifest_content) manifest_id
              (parse_manifest_metadata manifest_content) (sys.now w') []),
      )
  upped manifest_id manifest_content path (w, err e) = (
    sys.remove_file path w,
    err (deployment_failed (append "Docker deployment failed: " (error_text e))),
  )

  unfoldable pub up :
      (manifest_id : String)
      → Bytes
      → (replicas : ℕ) → W × RuntimeResult String
      → W × RuntimeResult WorkloadInfo
  unfolding upped execute_command up_args
  up manifest_id manifest_content replicas (w, err e) = (w, err e)
  up manifest_id manifest_content replicas (w, ok path) =
      if sys.is_utf8_path path
      then upped manifest_id manifest_content path (
          execute_command
            ("compose"
              ∷ "-f"
              ∷ path
              ∷ "-p"
              ∷ generate_workload_id manifest_id manifest_content
              ∷ up_args replicas)
            w)
      else (w, err (invalid_manifest "Invalid temporary file path"))

  unfoldable pub deploy_workload :
      (manifest_id : String)
      → (manifest_content : Bytes) → DeploymentConfig
      → W
      → W × RuntimeResult WorkloadInfo
  unfolding up validate_manifest create_temp_manifest_file
  deploy_workload manifest_id manifest_content config w =
      elim (validate_manifest manifest_content) [
        | err e ↦ (w, err e)
        | ok _ ↦
            up manifest_id manifest_content config.replicas
              (create_temp_manifest_file manifest_content w)
      ]
