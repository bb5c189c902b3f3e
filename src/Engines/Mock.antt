-- ===== src/Engines/Mock.antt =====
-- machineplane/machine/src/runtime/mock.rs: the engine that only keeps books of its workloads. The
-- books are a part of the host's state, which `Books` reads and writes; a draw of a random number is
-- a part of it too. The delay of a deployment is left out.
pub mod Operations
pub mod Workloads
pub mod Storing
pub mod Completeness
use Prim.Native.String.{◌++◌ as append, len, slice}
use beemesh.Prelude.{
  ℕ, ◌-◌, ◌≡◌, Bytes, String, Bool, true, false, Option, none, some, List, [], ◌∷◌, map, str_eq,
  ltb, if◌then◌else◌, unwrap_or, is_some, filter, length,
}
use beemesh.HashMap.{HashMap, get, insert, values}
use beemesh.Text.{codes}
use beemesh.Text.Affixes.{contains, trim, text_lines, strip_prefix, after, before}
use beemesh.Runtime.{WorkloadInfo, DeploymentConfig, PortMapping}
use beemesh.Runtime.Registry.{of_peer}
use beemesh.Node.{Libraries}
use beemesh.Engines.{System, noted, json_text}

pub record MockWorkload : Type 0 where
  pub info : WorkloadInfo
  pub config : DeploymentConfig

-- the rate is an `f64`, by its bits
pub record MockConfig : Type 0 where
  pub deployment_success_rate : ℕ
  pub deployment_delay_ms : ℕ
  pub simulate_ports : Bool
  pub default_ports : List PortMapping

-- 1.0 is 0x3ff0000000000000
abbrev pub default_mock_config : MockConfig
default_mock_config = record {
  deployment_success_rate = 0x3ff0000000000000;
  deployment_delay_ms = 100;
  simulate_ports = true;
  default_ports = record { container_port = 80; host_port = some 8080; protocol = "tcp" } ∷ [];
}

-- where the engine's map stands in the host's state; `drawn` is whether `gen::<f64>()` is below
-- the rate
pub record Books (W : Type 0) : Type 0 where
  pub workloads : W → HashMap MockWorkload
  pub keep : HashMap MockWorkload → W → W
  pub workloads-keep : (m : HashMap MockWorkload) (w : W) → workloads (keep m w) ≡ m
  pub drawn : (rate : ℕ) → W → Bool

-- a line of YAML: `line` is trimmed
unfoldable pub note_line : (line : String) → HashMap String → HashMap String
unfolding strip_prefix contains after before trim
note_line line metadata = elim (strip_prefix "kind:" line) [
  | some value ↦ insert "kind" (trim value) metadata
  | none ↦ elim (strip_prefix "apiVersion:" line) [
    | some value ↦ insert "apiVersion" (trim value) metadata
    | none ↦ elim (after "name:" line) [
      | none ↦ metadata
      | some rest ↦
          let value = trim (before "name:" rest) in
          if str_eq value "" then metadata else insert "name" value metadata
    ]
  ]
]

unfoldable pub note_lines : (lines : List String) → HashMap String → HashMap String
unfolding note_line trim
note_lines [] metadata = metadata
note_lines (line ∷ lines) metadata = note_lines lines (note_line (trim line) metadata)

-- the last twelve characters of a peer id, which is ASCII
unfoldable pub peer_short : (peer_str : String) → String
peer_short peer_str =
    if ltb 12 (len peer_str) then slice peer_str (len peer_str - 12) (len peer_str) else peer_str

unfoldable pub generate_port_mappings : MockConfig → List PortMapping
generate_port_mappings config = if config.simulate_ports then config.default_ports else []

module _ {W Y J : Type 0} (lib : Libraries Y) (sys : System W Y J) where
  unfoldable pub object_text : (key : String) → HashMap J → Option String
  object_text key entries = elim (get key entries) [ none ↦ none | some v ↦ sys.json_str v ]

  unfoldable pub note_metadata : Option J → HashMap String → HashMap String
  unfolding object_text noted
  note_metadata none metadata = metadata
  note_metadata (some v) metadata = elim (sys.as_object v) [
    | none ↦ metadata
    | some entries ↦
        noted "namespace" (object_text "namespace" entries)
          (noted "name" (object_text "name" entries) metadata)
  ]

  unfoldable pub json_metadata : J → HashMap String
  unfolding note_metadata noted json_text
  json_metadata v =
      note_metadata (sys.json_field "metadata" v) (
        noted "apiVersion" (json_text sys "apiVersion" v)
          (noted "kind" (json_text sys "kind" v) []))

  unfoldable pub parse_manifest_metadata : (manifest_content : Bytes) → HashMap String
  unfolding json_metadata note_lines text_lines
  parse_manifest_metadata manifest_content =
      let manifest_str = lib.from_utf8_lossy manifest_content in
      elim (sys.from_json manifest_str) [
        | some v ↦ json_metadata v
        | none ↦ note_lines (text_lines manifest_str) []
      ]

  unfoldable pub generate_workload_id : (manifest_id : String) → (manifest_content : Bytes) → String
  unfolding parse_manifest_metadata
  generate_workload_id manifest_id manifest_content = append "mock-" (
      append (unwrap_or (get "name" (parse_manifest_metadata manifest_content)) "unnamed")
        (append "-" manifest_id))

  unfoldable pub generate_workload_id_with_peer :
      (manifest_id : String) → (manifest_content : Bytes) → (peer_id : String) → String
  unfolding generate_workload_id peer_short
  generate_workload_id_with_peer manifest_id manifest_content peer_id =
      append (generate_workload_id manifest_id manifest_content) (append "-" (peer_short peer_id))

module _ {W : Type 0} (books : Books W) where
  unfoldable pub workload_count : W → ℕ
  workload_count w = length (books.workloads w)

  unfoldable pub get_workloads_by_peer : (local_peer_id : String) → W → List MockWorkload
  unfolding of_peer
  get_workloads_by_peer local_peer_id w =
      filter (λ workload. of_peer local_peer_id workload.info) (values (books.workloads w))

  unfoldable pub clear_workloads : W → W
  clear_workloads w = books.keep [] w

  unfoldable pub get_workload_config : (workload_id : String) → W → Option DeploymentConfig
  get_workload_config workload_id w = elim (get workload_id (books.workloads w)) [
    | none ↦ none
    | some workload ↦ some workload.config
  ]
