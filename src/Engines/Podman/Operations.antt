-- ===== src/Engines/Podman/Operations.antt =====
-- machineplane/machine/src/runtime/engines/podman.rs: the engine's operations, and the engine.
use Prim.Native.String.{◌++◌ as append}
use beemesh.Prelude.{
  ℕ, Bytes, String, Option, none, some, List, [], ◌∷◌, ◌++◌, Result, ok, err, ◌>>=◌, str_eq,
  if◌then◌else◌, filter, not, map, ◌&&◌,
}
use beemesh.HashMap.{insert}
use beemesh.Text.{codes}
use beemesh.Text.Affixes.{contains, trim, text_lines}
use beemesh.Runtime.{
  RuntimeError, RuntimeResult, WorkloadInfo, DeploymentConfig, invalid_manifest, unknown,
  deployment_failed, workload_not_found,
}
use beemesh.Runtime.Registry.{RuntimeEngine}
use beemesh.Node.{Libraries}
use beemesh.Engines.{System, deployed_info, error_text, unknown_info, logs_or_notice, tail_args}
use beemesh.Engines.Podman.Listing.{list_workloads}
use beemesh.Engines.Podman.Manifests.{
  generate_workload_id, play_args, is_available, validate_manifest, create_temp_manifest_file,
}
use beemesh.Engines.Podman.{
  PodmanEngine, execute_command, parse_manifest_metadata, extract_port_mappings,
}

module _ {W Y J : Type 0} (lib : Libraries Y) (sys : System W Y J) (p : PodmanEngine) where
  -- behind the answer of `kube play`
  unfoldable pub played :
      (manifest_id : String)
      → Bytes
      → (path : String) → W × RuntimeResult String
      → W × RuntimeResult WorkloadInfo
  unfolding generate_workload_id parse_manifest_metadata extract_port_mappings
  played manifest_id manifest_content path (w, ok output) =
      let (w', ports) =
        extract_port_mappings lib sys p (generate_workload_id manifest_id)
          (sys.remove_file path w) in
      (
        w',
        ok (
            deployed_info (generate_workload_id manifest_id) manifest_id
              (parse_manifest_metadata lib sys manifest_content) (sys.now w') ports),
      )
  played manifest_id manifest_content path (w, err e) = (
    sys.remove_file path w,
    err (deployment_failed (append "Podman deployment failed: " (error_text e))),
  )

  -- behind the file; a path that is not UTF-8 leaves it there
  unfoldable pub play :
      (manifest_id : String)
      → Bytes
      → DeploymentConfig
      → W × RuntimeResult String
      → W × RuntimeResult WorkloadInfo
  unfolding played play_args execute_command
  play manifest_id manifest_content config (w, err e) = (w, err e)
  play manifest_id manifest_content config (w, ok path) =
      if sys.is_utf8_path path
      then played manifest_id manifest_content path
          (execute_command lib sys p (play_args lib sys path config) w)
      else (w, err (invalid_manifest "Invalid temporary file path"))

  unfoldable pub deploy_valid :
      (manifest_id : String)
      → Bytes
      → DeploymentConfig
      → RuntimeResult (Unit {0})
      → W
      → W × RuntimeResult WorkloadInfo
  unfolding play create_temp_manifest_file
  deploy_valid manifest_id manifest_content config (err e) w = (w, err e)
  deploy_valid manifest_id manifest_content config (ok _) w =
      play manifest_id manifest_content config
        (create_temp_manifest_file lib sys manifest_content manifest_id w)

  unfoldable pub deploy_workload :
      (manifest_id : String)
      → (manifest_content : Bytes) → DeploymentConfig
      → W
      → W × RuntimeResult WorkloadInfo
  unfolding deploy_valid validate_manifest
  deploy_workload manifest_id manifest_content config w =
      deploy_valid manifest_id manifest_content config (validate_manifest lib sys manifest_content)
        w

  -- `deploy_workload_with_peer`, which no part of the program calls: neither replicas nor limits nor
  -- options are passed on, and a path that is not UTF-8 is a panic, `none`
  unfoldable pub played_with_peer :
      (local_peer_id : String) → W × RuntimeResult WorkloadInfo → W × RuntimeResult WorkloadInfo
  played_with_peer local_peer_id (w, err e) = (w, err e)
  played_with_peer local_peer_id (w, ok info) =
      (w, ok (record info { metadata = insert "local_peer_id" local_peer_id info.metadata }))

  unfoldable pub play_with_peer :
      (manifest_id : String)
      → Bytes
      → (local_peer_id : String) → W × RuntimeResult String
      → Option (W × RuntimeResult WorkloadInfo)
  unfolding played_with_peer played execute_command
  play_with_peer manifest_id manifest_content local_peer_id (w, err e) = some (w, err e)
  play_with_peer manifest_id manifest_content local_peer_id (w, ok path) =
      if sys.is_utf8_path path
      then some (
          played_with_peer local_peer_id (
            played manifest_id manifest_content path
              (execute_command lib sys p ("kube" ∷ "play" ∷ "--replace" ∷ path ∷ []) w)))
      else none

  unfoldable pub deploy_workload_with_peer :
      (manifest_id : String)
      → (manifest_content : Bytes) → DeploymentConfig
      → (local_peer_id : String) → W
      → Option (W × RuntimeResult WorkloadInfo)
  unfolding play_with_peer validate_manifest create_temp_manifest_file
  deploy_workload_with_peer manifest_id manifest_content config local_peer_id w =
      elim (validate_manifest lib sys manifest_content) [
        | err e ↦ some (w, err e)
        | ok _ ↦
            play_with_peer manifest_id manifest_content local_peer_id
              (create_temp_manifest_file lib sys manifest_content manifest_id w)
      ]

  unfoldable pub get_workload_status : (workload_id : String) → W → RuntimeResult WorkloadInfo
  unfolding execute_command
  get_workload_status workload_id w = do
    output ← (execute_command lib sys p ("pod" ∷ "ls" ∷ "--format" ∷ "json" ∷ []) w).1
    ok (unknown_info workload_id unknown (sys.now w))

  -- `podman pod rm -f`
  unfoldable pub remove_pod : (name : String) → W → W × RuntimeResult String
  unfolding execute_command
  remove_pod name w = execute_command lib sys p ("pod" ∷ "rm" ∷ "-f" ∷ name ∷ []) w

  unfoldable pub remove_lines : List String → W → W
  unfolding remove_pod trim
  remove_lines [] w = w
  remove_lines (line ∷ rest) w =
      remove_lines rest (if str_eq (trim line) "" then w else (remove_pod (trim line) w).0)

  -- the pods that a filter by name finds
  unfoldable pub remove_filtered : W × RuntimeResult String → W × RuntimeResult (Unit {0})
  unfolding remove_lines text_lines
  remove_filtered (w, err e) = (w, err e)
  remove_filtered (w, ok output) = (remove_lines (text_lines output) w, ok tt)

  unfoldable pub after_exact :
      (workload_id : String) → W × RuntimeResult String → W × RuntimeResult (Unit {0})
  unfolding remove_filtered execute_command
  after_exact workload_id (w, ok output) = (w, ok tt)
  after_exact workload_id (w, err e) = remove_filtered (
      execute_command lib sys p ("pod" ∷ "ls" ∷ "-q" ∷ "--filter" ∷ append "name=" workload_id ∷ [])
        w)

  unfoldable pub after_suffixed :
      (workload_id : String) → W × RuntimeResult String → W × RuntimeResult (Unit {0})
  unfolding after_exact remove_pod
  after_suffixed workload_id (w, ok output) = (w, ok tt)
  after_suffixed workload_id (w, err e) = after_exact workload_id (remove_pod workload_id w)

  unfoldable pub remove_workload : (workload_id : String) → W → W × RuntimeResult (Unit {0})
  unfolding after_suffixed remove_pod
  remove_workload workload_id w =
      after_suffixed workload_id (remove_pod (append workload_id "-pod") w)

  unfoldable pub get_workload_logs :
      (workload_id : String) → (tail : Option ℕ) → W → RuntimeResult String
  unfolding execute_command tail_args
  get_workload_logs workload_id tail w =
      logs_or_notice
        (execute_command lib sys p ("pod" ∷ "logs" ∷ (tail_args tail ++ workload_id ∷ [])) w).1

  -- the first name that a manifest can be generated for, or else the last error
  unfoldable pub export_first :
      List String → Option RuntimeError → W → W × Result Bytes (Option RuntimeError)
  unfolding execute_command
  export_first [] last w = (w, err last)
  export_first (name ∷ names) last w =
      let (w', answer) = execute_command lib sys p ("generate" ∷ "kube" ∷ name ∷ []) w in
      elim answer [
        | ok manifest_yaml ↦ (w', ok (lib.as_bytes manifest_yaml))
        | err e ↦ export_first names (some e) w'
      ]

  unfoldable pub export_listed :
      (workload_id : String)
      → W × Result Bytes (Option RuntimeError)
      → Result Bytes (Option RuntimeError)
  unfolding export_first execute_command text_lines trim contains
  export_listed workload_id (w, ok bytes) = ok bytes
  export_listed workload_id (w, err last) =
      let (w', answer) =
        execute_command lib sys p
          ("pod" ∷ "ls" ∷ "--format" ∷ "{{.Name}}" ∷ "--filter" ∷ append "name=" workload_id ∷ [])
          w in
      elim answer [
        | err e ↦ err (some e)
        | ok output ↦
            (export_first
              (filter (λ name. not (str_eq name "") && contains (codes workload_id) (codes name))
                (map trim (text_lines output)))
              last w').1
      ]

  unfoldable pub exported :
      (workload_id : String) → Result Bytes (Option RuntimeError) → RuntimeResult Bytes
  unfolding error_text
  exported workload_id (ok bytes) = ok bytes
  exported workload_id (err none) =
      err (workload_not_found (append "No running pod found for workload " workload_id))
  exported workload_id (err (some e)) = err (
      workload_not_found (
        append "Failed to export manifest for workload "
          (append workload_id (append ": " (error_text e)))))

  unfoldable pub export_manifest : (workload_id : String) → W → RuntimeResult Bytes
  unfolding exported export_listed export_first
  export_manifest workload_id w = exported workload_id (
      export_listed workload_id
        (export_first (append workload_id "-pod" ∷ workload_id ∷ []) none w))

  -- the engine as the registry holds it
  unfoldable pub podman_engine : RuntimeEngine W
  podman_engine = record {
    name = "podman";
    is_available = is_available lib sys p;
    deploy_workload = deploy_workload;
    get_workload_status = get_workload_status;
    list_workloads = list_workloads lib sys p;
    remove_workload = remove_workload;
    get_workload_logs = get_workload_logs;
    validate_manifest = λ content w. validate_manifest lib sys content;
    export_manifest = export_manifest;
  }
