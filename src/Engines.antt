-- ===== src/Engines.antt =====
-- machineplane/machine/src/runtime/engines: the engines that run `podman` and `docker`, and
-- machineplane/machine/src/runtime/mock.rs, the engine that only keeps books. What they call is a
-- parameter: `System` is the operating system, whose state is `W`, and serde's JSON, whose values
-- are `J`; YAML and UTF-8 are those of Node's `Libraries`.
pub mod Podman
pub mod Docker
pub mod Mock
mod Tests
use Prim.Native.String.{◌++◌ as append}
use beemesh.Prelude.{
  ℕ, Bytes, String, Bool, Option, none, some, List, [], ◌∷◌, Result, ok, err, if◌then◌else◌,
}
use beemesh.HashMap.{HashMap, insert}
use beemesh.Text.{to_decimal}
use beemesh.Runtime.{
  RuntimeError, RuntimeResult, WorkloadStatus, WorkloadInfo, PortMapping, running, command_failed,
  io_error,
}
use beemesh.Node.{Libraries}

-- `tokio::process::Command`; `env` holds what is set besides the process's own environment
pub record Command : Type 0 where
  pub program : String
  pub args : List String
  pub env : HashMap String

pub record Output : Type 0 where
  pub success : Bool
  pub stdout : Bytes
  pub stderr : Bytes

pub record System (W Y J : Type 0) : Type 0 where
  -- `output().await`, whose error is the text of an `io::Error`
  pub output : Command → W → W × Result Output String
  -- `File::create` with `write_all` and `flush`, and `remove_file`
  pub write_file : (path : String) → Bytes → W → W × Result (Unit {0}) String
  pub remove_file : (path : String) → W → W
  -- `temp_dir().join`, and whether the path is UTF-8
  pub temp_path : (name : String) → W → String
  pub is_utf8_path : (path : String) → Bool
  pub new_v4 : W → String
  pub now : W → ℕ
  -- `{}` of an `f64`, from its bits
  pub f64_text : ℕ → String
  -- the texts of serde_yaml's errors, on reading and on writing
  pub yaml_error : String → String
  pub yaml_write_error : Y → String
  -- a YAML string
  pub yaml_string : String → Y
  -- the keys of a mapping, which `as_mapping` finds
  pub mapping_keys : Y → List Y
  pub from_json : String → Option J
  pub json_field : String → J → Option J
  pub json_str : J → Option String
  pub as_array : J → Option (List J)
  pub as_object : J → Option (List (String × J))

-- what the two engines' `WorkloadInfo`s of a deployment share
abbrev pub deployed_info :
    (id manifest_id : String) → HashMap String → (now : ℕ) → List PortMapping → WorkloadInfo
deployed_info id manifest_id metadata now ports = record {
  id = id;
  manifest_id = manifest_id;
  status = running;
  metadata = metadata;
  created_at = now;
  updated_at = now;
  ports = ports;
}

-- what is said of a workload that was not looked up
abbrev pub unknown_info : (id : String) → WorkloadStatus → (now : ℕ) → WorkloadInfo
unknown_info id status now = record {
  id = id;
  manifest_id = "unknown";
  status = status;
  metadata = [];
  created_at = now;
  updated_at = now;
  ports = [];
}

-- what `Display` of a `RuntimeError` says
unfoldable pub error_text : RuntimeError → String
error_text (RuntimeError.engine_not_available s) = append "Runtime engine not available: " s
error_text (RuntimeError.invalid_manifest s) = append "Invalid manifest format: " s
error_text (RuntimeError.deployment_failed s) = append "Deployment failed: " s
error_text (RuntimeError.workload_not_found s) = append "Workload not found: " s
error_text (RuntimeError.io_error s) = append "IO error: " s
error_text (RuntimeError.command_failed s) = append "Command execution failed: " s

-- a failed command for the logs is told as their text
unfoldable pub logs_or_notice : RuntimeResult String → RuntimeResult String
unfolding error_text
logs_or_notice (ok logs) = ok logs
logs_or_notice (err e) = ok (append "Failed to retrieve logs: " (error_text e))

unfoldable pub tail_args : (tail : Option ℕ) → List String
unfolding to_decimal
tail_args none = []
tail_args (some n) = "--tail" ∷ to_decimal n ∷ []

-- an entry of the metadata, where the document has the text
unfoldable pub noted : (key : String) → Option String → HashMap String → HashMap String
noted key none metadata = metadata
noted key (some value) metadata = insert key value metadata

module _ {Y : Type 0} (lib : Libraries Y) where
  -- `get(key).and_then(as_str)`
  unfoldable pub text_field : (key : String) → Option Y → Option String
  text_field key none = none
  text_field key (some doc) = elim (lib.field key doc) [ none ↦ none | some v ↦ lib.as_str v ]

  -- the text of a document's field, noted under its key
  unfoldable pub note_field : (key : String) → Option Y → HashMap String → HashMap String
  unfolding noted text_field
  note_field key doc metadata = noted key (text_field key doc) metadata

  -- the document of a manifest, if it is YAML
  unfoldable pub document : (manifest_content : Bytes) → Option Y
  document manifest_content = lib.from_yaml (lib.from_utf8_lossy manifest_content)

  -- the answer of a command that was run
  unfoldable pub process_command_output : Output → RuntimeResult String
  process_command_output output =
      if output.success
      then ok (lib.from_utf8_lossy output.stdout)
      else err (command_failed (lib.from_utf8_lossy output.stderr))

  -- with `?` before it
  unfoldable pub command_answer : Result Output String → RuntimeResult String
  unfolding process_command_output
  command_answer (ok output) = process_command_output output
  command_answer (err e) = err (io_error e)

module _ {W Y J : Type 0} (sys : System W Y J) where
  -- `get(key).and_then(as_str)` of a JSON value
  unfoldable pub json_text : (key : String) → J → Option String
  json_text key v = elim (sys.json_field key v) [ none ↦ none | some field ↦ sys.json_str field ]
