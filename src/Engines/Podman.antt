-- ===== src/Engines/Podman.antt =====
-- machineplane/machine/src/runtime/engines/podman.rs: how the engine runs `podman`, over its socket
-- or locally, and how it prepares a manifest.
pub mod Manifests
pub mod Listing
pub mod Operations
pub mod Sockets
pub mod Names
use Prim.Native.String.{◌++◌ as append}
use beemesh.Prelude.{
  ℕ, Bytes, String, Bool, true, false, not, ◌||◌, Option, none, some, List, [], ◌∷◌, ◌++◌, Result,
  ok, err, ◌>>=◌, ◌>>◌, str_eq, if◌then◌else◌, is_some,
}
use beemesh.HashMap.{HashMap}
use beemesh.Text.{codes}
use beemesh.Text.Affixes.{contains, to_ascii_lowercase, trim}
use beemesh.Runtime.{
  RuntimeError, RuntimeResult, PortMapping, command_failed, invalid_manifest, io_error,
}
use beemesh.Node.{Libraries}
use beemesh.Engines.{Command, System, note_field, document, command_answer}

pub record PodmanEngine : Type 0 where
  pub podman_binary : String
  pub podman_socket : Option String
  pub force_remote : Bool

-- the process-wide PODMAN_SOCKET_OVERRIDE and PODMAN_FORCE_REMOTE
pub record PodmanSettings : Type 0 where
  pub socket_override : Option String
  pub force_remote : Bool

unfoldable pub normalize_socket : (value : String) → String
unfolding contains
normalize_socket value =
    if contains (codes "://") (codes value) then value else append "unix://" value

unfoldable pub normalized : (trimmed : String) → Option String
unfolding normalize_socket
normalized trimmed = if str_eq trimmed "" then none else some (normalize_socket trimmed)

unfoldable pub configure_runtime : (socket : Option String) → (force_remote : Bool) → PodmanSettings
unfolding normalized trim
configure_runtime socket force_remote = record {
  socket_override = elim socket [ none ↦ none | some value ↦ normalized (trim value) ];
  force_remote = force_remote;
}

-- the caller in runtime/mod.rs
unfoldable pub configure_podman_runtime : (socket : Option String) → PodmanSettings
unfolding configure_runtime
configure_podman_runtime socket = configure_runtime socket (is_some socket)

unfoldable pub with_binary : (binary_path : String) → PodmanSettings → PodmanEngine
with_binary binary_path settings = record {
  podman_binary = binary_path;
  podman_socket = settings.socket_override;
  force_remote = settings.force_remote;
}

unfoldable pub new_podman : PodmanSettings → PodmanEngine
unfolding with_binary
new_podman settings = with_binary "podman" settings

unfoldable pub is_socket_connection_error : (stderr : String) → Bool
unfolding contains to_ascii_lowercase
is_socket_connection_error stderr =
    let lower = to_ascii_lowercase (codes stderr) in
    contains (codes "dial unix") lower
    || contains (codes "connect:") lower
    || contains (codes "connection refused") lower
    || contains (codes "no such file or directory") lower

-- a failed command that is tried again without the socket
unfoldable pub falls_back : RuntimeError → Bool
unfolding is_socket_connection_error
falls_back (RuntimeError.command_failed stderr) = is_socket_connection_error stderr
falls_back (RuntimeError.engine_not_available _) = false
falls_back (RuntimeError.invalid_manifest _) = false
falls_back (RuntimeError.deployment_failed _) = false
falls_back (RuntimeError.workload_not_found _) = false
falls_back (RuntimeError.io_error _) = false

unfoldable pub remote_command : PodmanEngine → (socket : String) → (args : List String) → Command
remote_command p socket args = record {
  program = p.podman_binary;
  args = "--remote" ∷ "--url" ∷ socket ∷ args;
  env = ("CONTAINER_HOST", socket) ∷ ("PODMAN_HOST", socket) ∷ [];
}

unfoldable pub local_command : PodmanEngine → (args : List String) → Command
local_command p args = record { program = p.podman_binary; args = args; env = [] }

module _ {W Y J : Type 0} (lib : Libraries Y) (sys : System W Y J) where
  unfoldable pub execute : Command → W → W × RuntimeResult String
  unfolding command_answer
  execute command w = let (w', answer) = sys.output command w in (w', command_answer lib answer)

  unfoldable pub execute_command_with_socket :
      PodmanEngine → (args : List String) → (socket : String) → W → W × RuntimeResult String
  unfolding execute remote_command
  execute_command_with_socket p args socket w = execute (remote_command p socket args) w

  unfoldable pub execute_command_local :
      PodmanEngine → (args : List String) → W → W × RuntimeResult String
  unfolding execute local_command
  execute_command_local p args w = execute (local_command p args) w

  -- behind the answer over the socket
  unfoldable pub after_socket :
      PodmanEngine → (args : List String) → W × RuntimeResult String → W × RuntimeResult String
  unfolding falls_back execute_command_local
  after_socket p args (w, ok output) = (w, ok output)
  after_socket p args (w, err e) =
      if p.force_remote
      then (w, err e)
      else if falls_back e
      then execute_command_local p args w
      else (w, err e)

  unfoldable pub execute_on :
      PodmanEngine → Option String → (args : List String) → W → W × RuntimeResult String
  unfolding execute_command_with_socket after_socket execute_command_local
  execute_on p (some socket) args w =
      after_socket p args (execute_command_with_socket p args socket w)
  execute_on p none args w =
      if p.force_remote
      then (w, err (command_failed "Podman socket command failed and fallback disabled"))
      else execute_command_local p args w

  unfoldable pub execute_command :
      PodmanEngine → (args : List String) → W → W × RuntimeResult String
  unfolding execute_on
  execute_command p args w = execute_on p p.podman_socket args w

  unfoldable pub parse_manifest_metadata : (manifest_content : Bytes) → HashMap String
  unfolding document note_field
  parse_manifest_metadata manifest_content =
      let doc = document lib manifest_content in
      let meta : Option Y = elim doc [ none ↦ none | some d ↦ lib.field "metadata" d ] in
      note_field lib "namespace" meta (
        note_field lib "name" meta (note_field lib "apiVersion" doc (note_field lib "kind" doc [])))

  -- the output of `pod inspect` is not read
  unfoldable pub extract_port_mappings :
      PodmanEngine → (pod_name : String) → W → W × List PortMapping
  unfolding execute_command
  extract_port_mappings p pod_name w =
      let (w', answer) =
        execute_command p ("pod" ∷ "inspect" ∷ append pod_name "-pod" ∷ "--format" ∷ "json" ∷ [])
          w in
      elim answer [
        | ok _ ↦ (w', [])
        | err _ ↦
            ((execute_command p ("pod" ∷ "inspect" ∷ pod_name ∷ "--format" ∷ "json" ∷ []) w').0, [])
      ]
