-- ===== src/Engines/Podman/Names.antt =====
-- The names of podman's pods: what the list of pods makes of the pod that a deployment names.
use Prim.Native.String.{◌++◌ as append}
use text.Mathlib.TextLemmas.{append_assoc}
use beemesh.Prelude.{
  ℕ, Bytes, ◌≡◌, refl, sym, ap, ◌∙◌, ◌⊎◌, inl, inr, String, true, false, some, List, ◌∷◌, ok, err,
  arith, Bool-cases, Result-cases,
}
use beemesh.Runtime.{RuntimeResult, WorkloadInfo, DeploymentConfig}
use beemesh.Node.{Libraries}
use beemesh.Text.Affixes.{ends_with, strip_prefix-append, strip_suffix-append}
use beemesh.Engines.{System, json_text}
use beemesh.Engines.Podman.{PodmanEngine}
use beemesh.Engines.Podman.Manifests.{
  generate_workload_id, validate_manifest, create_temp_manifest_file,
}
use beemesh.Engines.Podman.Listing.{manifest_id_of, pod_info, if_named, pod_infos}
use beemesh.Engines.Podman.Operations.{played, play, deploy_valid, deploy_workload}

ends_with-append : (s : String) → ends_with "-pod" (append s "-pod") ≡ true
unfolding ends_with
ends_with-append s = rw (strip_suffix-append s "-pod") refl

manifest_id_of-suffixed :
    (id : String) → manifest_id_of (append (generate_workload_id id) "-pod") ≡ id
unfolding manifest_id_of generate_workload_id
manifest_id_of-suffixed id =
    rw
      (
        ends_with-append (append "beemesh-" id),
        append_assoc "beemesh-" id "-pod",
        strip_prefix-append "beemesh-" (append id "-pod"),
        strip_suffix-append id "-pod",
      )
      refl

manifest_id_of-plain :
    (id : String)
    → ends_with "-pod" (generate_workload_id id) ≡ false
    → manifest_id_of (generate_workload_id id) ≡ id
unfolding manifest_id_of generate_workload_id
manifest_id_of-plain id plain = rw (plain, strip_prefix-append "beemesh-" id) refl

-- the names that podman gives the pod of a workload: with a suffix, or the workload's own if that
-- does not look like the other
abbrev pub PodOf : (id name : String) → Type 0
PodOf id name =
    (name ≡ append (generate_workload_id id) "-pod")
    ⊎ ((name ≡ generate_workload_id id) × (ends_with "-pod" (generate_workload_id id) ≡ false))

manifest_id_of-pod : (id name : String) → PodOf id name → manifest_id_of name ≡ id
manifest_id_of-pod id name (inl suffixed) = ap manifest_id_of suffixed ∙ manifest_id_of-suffixed id
manifest_id_of-pod id name (inr (same, plain)) =
    ap manifest_id_of same ∙ manifest_id_of-plain id plain

abbrev Prefixed : String → Type 0
Prefixed name = (rest : String) × (name ≡ append "beemesh-" rest)

prefixed : (id name : String) → PodOf id name → Prefixed name
unfolding generate_workload_id
prefixed id name (inl suffixed) = (append id "-pod", suffixed ∙ append_assoc "beemesh-" id "-pod")
prefixed id name (inr (same, _)) = (id, same)

module _ {W Y J : Type 0} (lib : Libraries Y) (sys : System W Y J) (p : PodmanEngine) where
  if_named-pod :
      (now : ℕ) (pod : J) (more : List WorkloadInfo) (name : String)
      → Prefixed name
      → if_named lib sys p now (some name) pod more ≡ pod_info lib sys p now name pod ∷ more
  unfolding if_named
  if_named-pod now pod more name (rest, e) = rw (e, strip_prefix-append "beemesh-" rest) refl

  played-ok :
      (id : String) (content : Bytes) (path : String) (s : W × RuntimeResult String) (w : W)
      (info : WorkloadInfo)
      → played lib sys p id content path s ≡ (w, ok info)
      → (info.id ≡ generate_workload_id id) × (info.manifest_id ≡ id)
  unfolding played
  played-ok id content path (w, ok output) w' info h = ground arith
  played-ok id content path (w, err e) w' info h = ground arith

  play-ok :
      (id : String) (content : Bytes) (config : DeploymentConfig) (s : W × RuntimeResult String)
      (w : W) (info : WorkloadInfo)
      → play lib sys p id content config s ≡ (w, ok info)
      → (info.id ≡ generate_workload_id id) × (info.manifest_id ≡ id)
  unfolding play
  play-ok id content config (w, err e) w' info h = cc
  play-ok id content config (w, ok path) w' info h = elim (Bool-cases (sys.is_utf8_path path)) [
    | inl utf8 ↦ played-ok id content path _ w' info (rw utf8 at h)
    | inr other ↦ cc (rw other at h)
  ]

  deploy_workload-ok :
      (id : String) (content : Bytes) (config : DeploymentConfig) (w w' : W) (info : WorkloadInfo)
      → deploy_workload lib sys p id content config w ≡ (w', ok info)
      → (info.id ≡ generate_workload_id id) × (info.manifest_id ≡ id)
  unfolding deploy_workload
  deploy_workload-ok id content config w w' info h =
      elim (Result-cases (validate_manifest lib sys content)) [
        | inl (u, valid) ↦
            play-ok id content config (create_temp_manifest_file lib sys content id w) w' info
              (rw valid at h)
        | inr (e, invalid) ↦ cc (rw (invalid, deploy_valid) at h)
      ]

  -- What a deployment says of its workload, the list of pods says again: whichever of the two names
  -- podman gave the pod, it is listed with the id and the manifest of the deployment's answer. The
  -- name without the suffix must not end in `-pod` itself.
  pub pod_infos-deploy_workload :
      (id : String) (content : Bytes) (config : DeploymentConfig) (w w' : W) (info : WorkloadInfo)
      → deploy_workload lib sys p id content config w ≡ (w', ok info)
      → (now : ℕ) (pod : J) (pods : List J) (name : String) → PodOf id name
      → json_text sys "Name" pod ≡ some name
      → (listed : WorkloadInfo) × (pod_infos lib sys p now (pod ∷ pods)
          ≡ listed ∷ pod_infos lib sys p now pods)
        × (listed.id ≡ info.id)
        × (listed.manifest_id ≡ info.manifest_id)
  unfolding pod_infos pod_info generate_workload_id
  pod_infos-deploy_workload id content config w w' info deployed now pod pods name of named =
      let (same_id, same_manifest) = deploy_workload-ok id content config w w' info deployed in
      let read = manifest_id_of-pod id name of in
      (
        pod_info lib sys p now name pod,
        rw named (if_named-pod now pod (pod_infos lib sys p now pods) name (prefixed id name of)),
        ap generate_workload_id read ∙ sym same_id,
        read ∙ sym same_manifest,
      )

-- A pod without the suffix whose manifest's id ends in `-pod` is taken for the suffixed pod of
-- another manifest.
pub manifest_id_of_ambiguous :
    (id : String) → manifest_id_of (generate_workload_id (append id "-pod")) ≡ id
unfolding generate_workload_id
manifest_id_of_ambiguous id =
    ap manifest_id_of (sym (append_assoc "beemesh-" id "-pod"))
    ∙ unfold generate_workload_id in manifest_id_of-suffixed id
