-- ===== src/Engines/Podman/Manifests.antt =====
-- machineplane/machine/src/runtime/engines/podman.rs: the arguments of a deployment, the
-- checks of a manifest, and the file that `podman` reads.
use Prim.Native.String.{◌++◌ as append}
use beemesh.Prelude.{
  ℕ, Bytes, String, Bool, false, Option, none, some, List, [], ◌∷◌, ◌++◌, ok, err, str_eq, ltb,
  if◌then◌else◌, is_some, is_ok,
}
use beemesh.HashMap.{HashMap}
use beemesh.Text.{to_decimal}
use beemesh.Runtime.{RuntimeResult, DeploymentConfig, invalid_manifest, io_error}
use beemesh.Node.{Libraries}
use beemesh.Engines.{System, document}
use beemesh.Engines.Podman.{PodmanEngine, execute_command_with_socket, execute_command_local}

-- the id of a workload, which is also the name of its pod
unfoldable pub generate_workload_id : (manifest_id : String) → String
generate_workload_id manifest_id = append "beemesh-" manifest_id

-- the flags of the options that are known; others are ignored
unfoldable pub option_args : HashMap String → List String
option_args [] = []
option_args ((key, value) ∷ rest) =
    let more = option_args rest in
    if str_eq key "network"
    then "--network" ∷ value ∷ more
    else if str_eq key "volume"
    then "--volume" ∷ value ∷ more
    else if str_eq key "security-opt"
    then "--security-opt" ∷ value ∷ more
    else more

unfoldable pub replica_args : ℕ → List String
unfolding to_decimal
replica_args n = if ltb 1 n then "--replicas" ∷ to_decimal n ∷ [] else []

unfoldable pub memory_args : Option ℕ → List String
unfolding to_decimal
memory_args none = []
memory_args (some n) = "--memory" ∷ append (to_decimal n) "b" ∷ []

unfoldable pub cpu_args : (ℕ → String) → Option ℕ → List String
cpu_args text none = []
cpu_args text (some cpu) = "--cpus" ∷ text cpu ∷ []

module _ {W Y J : Type 0} (lib : Libraries Y) (sys : System W Y J) where
  unfoldable pub play_args : (path : String) → DeploymentConfig → List String
  unfolding replica_args memory_args cpu_args option_args
  play_args path config =
      "kube"
      ∷ "play"
      ∷ "--replace"
      ∷ (replica_args config.replicas
          ++ (memory_args config.resources.memory
              ++ (cpu_args sys.f64_text config.resources.cpu
                  ++ (option_args config.runtime_options ++ path ∷ []))))

  unfoldable pub is_available : PodmanEngine → W → Bool
  unfolding execute_command_with_socket execute_command_local
  is_available p w = elim p.podman_socket [
    | some socket ↦ is_ok (execute_command_with_socket lib sys p ("--version" ∷ []) socket w).1
    | none ↦
        if p.force_remote
        then false
        else is_ok (execute_command_local lib sys p ("--version" ∷ []) w).1
  ]

  unfoldable pub check_document : Bytes → Option Y → RuntimeResult (Unit {0})
  check_document manifest_content none = err (
      invalid_manifest
        (append "YAML parse error: " (sys.yaml_error (lib.from_utf8_lossy manifest_content))))
  check_document manifest_content (some doc) =
      if is_some (lib.field "apiVersion" doc)
      then (if is_some (lib.field "kind" doc)
          then ok tt
          else err (invalid_manifest "Missing kind field"))
      else err (invalid_manifest "Missing apiVersion field")

  unfoldable pub validate_manifest : (manifest_content : Bytes) → RuntimeResult (Unit {0})
  unfolding check_document document
  validate_manifest manifest_content =
      check_document manifest_content (document lib manifest_content)

  -- the mapping under a key gets a name
  unfoldable pub rename : (key name : String) → Y → Y
  rename key name doc = elim (lib.field key doc) [
    | none ↦ doc
    | some m ↦
        if lib.is_mapping m
        then lib.set_field key (lib.insert_key "name" (sys.yaml_string name) m) doc
        else doc
  ]

  -- the same under `spec` and `template`
  unfoldable pub rename_template : (name : String) → Y → Y
  unfolding rename
  rename_template name doc = elim (lib.field "spec" doc) [
    | none ↦ doc
    | some spec ↦ elim (lib.field "template" spec) [
      | none ↦ doc
      | some template ↦
          lib.set_field "spec" (lib.set_field "template" (rename "metadata" name template) spec) doc
    ]
  ]

  unfoldable pub renamed : (manifest_id : String) → Y → Y
  unfolding rename rename_template generate_workload_id
  renamed manifest_id doc =
      let pod_name = generate_workload_id manifest_id in
      rename_template (append pod_name "-pod") (rename "metadata" pod_name doc)

  -- the manifest that is written: its text, or the error of reading or printing it
  unfoldable pub modified_manifest : Bytes → (manifest_id : String) → RuntimeResult String
  unfolding renamed document
  modified_manifest manifest_content manifest_id = elim (document lib manifest_content) [
    | none ↦ err (
        invalid_manifest
          (append "YAML parse error: " (sys.yaml_error (lib.from_utf8_lossy manifest_content))))
    | some doc ↦ elim (lib.to_yaml (renamed manifest_id doc)) [
      | none ↦ err (
          invalid_manifest
            (append "YAML serialize error: " (sys.yaml_write_error (renamed manifest_id doc))))
      | some text ↦ ok text
    ]
  ]

  unfoldable pub write_manifest : RuntimeResult String → W → W × RuntimeResult String
  write_manifest (err e) w = (w, err e)
  write_manifest (ok text) w =
      let path = sys.temp_path (append "beemesh-manifest-" (append (sys.new_v4 w) ".yaml")) w in
      let (w', written) = sys.write_file path (lib.as_bytes text) w in
      (w', elim written [ ok _ ↦ ok path | err e ↦ err (io_error e) ])

  unfoldable pub create_temp_manifest_file :
      Bytes → (manifest_id : String) → W → W × RuntimeResult String
  unfolding modified_manifest write_manifest
  create_temp_manifest_file manifest_content manifest_id w =
      write_manifest (modified_manifest manifest_content manifest_id) w
