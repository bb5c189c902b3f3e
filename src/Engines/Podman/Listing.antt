-- ===== src/Engines/Podman/Listing.antt =====
-- machineplane/machine/src/runtime/engines/podman.rs: what the engine makes of the list of pods.

use beemesh.Prelude.{
  ℕ, ◌*◌, ◌^◌, String, Option, none, some, List, [], ◌∷◌, ok, ◌>>=◌, str_eq, ltb, if◌then◌else◌,
  is_some, unwrap_or, u64_max,
}
use beemesh.HashMap.{HashMap}
use beemesh.Text.{codes, parse_unsigned}
use beemesh.Text.Affixes.{trim, strip_prefix, strip_suffix, ends_with}
use beemesh.Provider.{second}
use beemesh.Runtime.{RuntimeResult, WorkloadStatus, WorkloadInfo, running, stopped, failed, unknown}
use beemesh.Node.{Libraries}
use beemesh.Engines.{json_text, System, noted}
use beemesh.Engines.Podman.Manifests.{generate_workload_id}
use beemesh.Engines.Podman.{PodmanEngine, execute_command}

-- the name of a pod: the manifest's id
unfoldable pub manifest_id_of : (pod_name : String) → String
unfolding ends_with strip_prefix
manifest_id_of pod_name =
    if ends_with "-pod" pod_name
    then unwrap_or (strip_suffix "-pod" (unwrap_or (strip_prefix "beemesh-" pod_name) pod_name))
        pod_name
    else unwrap_or (strip_prefix "beemesh-" pod_name) pod_name

unfoldable pub pod_status : Option String → WorkloadStatus
pod_status none = unknown
pod_status (some s) =
    if str_eq s "Running"
    then running
    else if str_eq s "Stopped"
    then stopped
    else if str_eq s "Exited"
    then stopped
    else if str_eq s "Error"
    then failed "Pod in error state"
    else if str_eq s "Failed"
    then failed "Pod failed"
    else unknown

-- a time in whole seconds; a text that is no number counts as 0
unfoldable pub created_time : (now : ℕ) → Option String → ℕ
unfolding parse_unsigned
created_time now none = now
created_time now (some text) =
    let secs = unwrap_or (parse_unsigned u64_max (codes text)) 0 in
    if ltb secs (2 ^ 63) then secs * second else now

module _ {W Y J : Type 0} (lib : Libraries Y) (sys : System W Y J) (p : PodmanEngine) where
  unfoldable pub labels : List (String × J) → HashMap String → HashMap String
  unfolding noted
  labels [] metadata = metadata
  labels ((key, value) ∷ rest) metadata = labels rest (noted key (sys.json_str value) metadata)

  unfoldable pub pod_labels : J → HashMap String
  unfolding labels
  pod_labels pod = elim (sys.json_field "Labels" pod) [
    | none ↦ []
    | some v ↦ elim (sys.as_object v) [ none ↦ [] | some entries ↦ labels entries [] ]
  ]

  unfoldable pub pod_info : (now : ℕ) → (pod_name : String) → J → WorkloadInfo
  unfolding generate_workload_id manifest_id_of pod_status pod_labels created_time
  pod_info now pod_name pod = record {
    id = generate_workload_id (manifest_id_of pod_name);
    manifest_id = manifest_id_of pod_name;
    status = pod_status (json_text sys "Status" pod);
    metadata = pod_labels pod;
    created_at = created_time now (json_text sys "Created" pod);
    updated_at = now;
    ports = [];
  }

  -- a pod is listed if its name begins as this engine's do
  unfoldable pub if_named : (now : ℕ) → Option String → J → List WorkloadInfo → List WorkloadInfo
  unfolding pod_info
  if_named now none pod more = more
  if_named now (some pod_name) pod more =
      if is_some (strip_prefix "beemesh-" pod_name) then pod_info now pod_name pod ∷ more else more

  unfoldable pub pod_infos : (now : ℕ) → List J → List WorkloadInfo
  pod_infos now [] = []
  pod_infos now (pod ∷ rest) = if_named now (json_text sys "Name" pod) pod (pod_infos now rest)

  unfoldable pub listed_pods : (now : ℕ) → (output : String) → List WorkloadInfo
  unfolding pod_infos trim
  listed_pods now output = if str_eq (trim output) "" then [] else elim (sys.from_json output) [
    | none ↦ []
    | some v ↦ elim (sys.as_array v) [ none ↦ [] | some pods ↦ pod_infos now pods ]
  ]

  unfoldable pub list_workloads : W → RuntimeResult (List WorkloadInfo)
  unfolding listed_pods
  list_workloads w = do
    output ← (execute_command lib sys p ("pod" ∷ "ls" ∷ "--format" ∷ "json" ∷ []) w).1
    ok (listed_pods (sys.now w) output)
