-- ===== src/Engines/Docker/Removals.antt =====
-- What a removal by manifest does on docker, whose list names no manifest.
use mathlib.Core.Path.{subst}
use beemesh.Prelude.{
  ap, ◌>>=◌, ℕ, ◌≡◌, ◌≢◌, refl, sym, ◌∙◌, String, none, some, List, [], ◌∷◌, ◌++◌, ok, err, inl,
  inr, All, Bool-cases, eq_iff, str_eq, arith,
}
use beemesh.Text.Affixes.{text_lines}
use beemesh.Runtime.{WorkloadInfo, RuntimeResult}
use beemesh.Runtime.Registry.{
  create_default_registry, set_default_engine, check_available_engines, check_all, register_mock,
  default_mock, RuntimeEngine, new_registry, RuntimeRegistry, register, list_engines, get_engine,
}
use beemesh.Node.{Libraries, Node}
use beemesh.Node.Removal.{
  Removals, remove_one, remove_matching, remove_listed, remove_found, remove_from_all, withdraw,
  remove_with, remove_workloads_by_manifest_id,
}
use beemesh.Engines.{System}
use beemesh.Engines.Docker.{DockerEngine}
use beemesh.Engines.Docker.Operations.{
  container_info, container_infos, list_workloads, docker_engine,
}

abbrev Unnamed : List WorkloadInfo → Type 0
Unnamed = All (λ info. info.manifest_id ≡ "unknown")

Unnamed-append : (xs ys : List WorkloadInfo) → Unnamed xs → Unnamed ys → Unnamed (xs ++ ys)
Unnamed-append [] ys h k = k
Unnamed-append (x ∷ xs) ys h k = (h.0, Unnamed-append xs ys h.1 k)

module _ {W Y J : Type 0} (lib : Libraries Y) (sys : System W Y J) (d : DockerEngine) where
  container_info-Unnamed : (now : ℕ) (line : String) → Unnamed (container_info lib sys d now line)
  unfolding container_info
  container_info-Unnamed now line = ground arith

  container_infos-Unnamed :
      (now : ℕ) (lines : List String) → Unnamed (container_infos lib sys d now lines)
  unfolding container_infos
  container_infos-Unnamed now [] = tt
  container_infos-Unnamed now (line ∷ lines) =
      Unnamed-append (container_info lib sys d now line) (container_infos lib sys d now lines)
        (container_info-Unnamed now line) (container_infos-Unnamed now lines)

  bind-Unnamed :
      (now : ℕ) (answer : RuntimeResult String) (infos : List WorkloadInfo)
      → (answer >>= λ output. ok (container_infos lib sys d now (text_lines output))) ≡ ok infos
      → Unnamed infos
  bind-Unnamed now (ok output) infos h =
      let same : container_infos lib sys d now (text_lines output) ≡ infos = cc in
      subst Unnamed same (container_infos-Unnamed now (text_lines output))
  bind-Unnamed now (err e) infos h = cc

  list_workloads-Unnamed :
      (w : W) (infos : List WorkloadInfo) → list_workloads lib sys d w ≡ ok infos → Unnamed infos
  unfolding list_workloads
  list_workloads-Unnamed w infos h = bind-Unnamed (sys.now w) _ infos h

module _ {W : Type 0} (name id : String) (engine : RuntimeEngine W) where
  remove_one-Unnamed :
      (info : WorkloadInfo) (s : W × Removals)
      → id ≢ "unknown"
      → info.manifest_id ≡ "unknown"
      → remove_one name id engine info s ≡ s
  unfolding remove_one
  remove_one-Unnamed info (w, r) other unnamed = elim (Bool-cases (str_eq info.manifest_id id)) [
    | inl mine ↦ absurd (other (sym ((eq_iff info.manifest_id id).0 mine) ∙ unnamed))
    | inr theirs ↦ rw theirs refl
  ]

  remove_matching-Unnamed :
      (infos : List WorkloadInfo) (s : W × Removals)
      → id ≢ "unknown"
      → Unnamed infos
      → remove_matching name id engine infos s ≡ s
  unfolding remove_matching
  remove_matching-Unnamed [] s other h = refl
  remove_matching-Unnamed (info ∷ infos) s other h =
      rw (remove_one-Unnamed info s other h.0) (remove_matching-Unnamed infos s other h.1)

  remove_found-Unnamed :
      (s : W × Removals) (infos : List WorkloadInfo)
      → id ≢ "unknown"
      → engine.list_workloads s.0 ≡ ok infos
      → Unnamed infos
      → remove_found name id (some engine) s ≡ s
  unfolding remove_found remove_listed
  remove_found-Unnamed s infos other listed h = rw listed (remove_matching-Unnamed infos s other h)

abbrev nothing : Removals
nothing = record { removed_workloads = []; errors = [] }

module _ {W : Type 0} (podman docker : RuntimeEngine W) where
  -- the registry of a start, whatever is available
  engines-create_default_registry :
      (w : W)
      → podman.name ≡ "podman"
      → docker.name ≡ "docker"
      → (create_default_registry podman docker none w).engines
        ≡ ("podman", podman) ∷ ("docker", docker) ∷ []
  unfolding create_default_registry set_default_engine register new_registry check_available_engines
      check_all register_mock default_mock
  engines-create_default_registry w p d = simp (p, d) (ground arith)

  remove_from_all-two :
      (id : String) (registry : RuntimeRegistry W) (s : W × Removals)
      → registry.engines ≡ ("podman", podman) ∷ ("docker", docker) ∷ []
      → remove_from_all id registry (list_engines registry) s
        ≡ remove_found "docker" id (some docker) (remove_found "podman" id (some podman) s)
  unfolding remove_from_all list_engines get_engine
  remove_from_all-two id registry s e = rw e refl

  remove_from_all-one :
      (id : String) (s : W × Removals)
      → podman.name ≡ "podman"
      → remove_from_all id
          (register podman new_registry)
          (list_engines (register podman new_registry))
          s
        ≡ remove_found "podman" id (some podman) s
  unfolding remove_from_all list_engines get_engine register new_registry
  remove_from_all-one id s p = simp p refl

module _ {W Y J : Type 0} (lib : Libraries Y) (sys : System W Y J) (d : DockerEngine) where
  -- On a node with the registry of a release build, podman and docker, a removal by manifest never
  -- removes a workload of docker: where docker's containers can be listed once podman's workloads
  -- are removed, the node and the answer are those of a node that has podman alone, whichever
  -- containers are listed. The one exception is the manifest `unknown`.
  pub remove_workloads_by_manifest_id_docker :
      (podman : RuntimeEngine W) (id : String) (started : W) (n : Node W)
      (infos : List WorkloadInfo)
      → id ≢ "unknown"
      → podman.name ≡ "podman"
      → n.registry ≡ some (create_default_registry podman (docker_engine lib sys d) none started)
      → list_workloads lib sys d (remove_found "podman" id (some podman) (n.host, nothing)).0
        ≡ ok infos
      → remove_workloads_by_manifest_id id n
        ≡ remove_with id (some (register podman new_registry)) n
  unfolding remove_workloads_by_manifest_id docker_engine remove_with
  remove_workloads_by_manifest_id_docker podman id started n infos other named both listed =
      let docker = docker_engine lib sys d in
      let registry = create_default_registry podman docker none started in
      let s : W × Removals = (n.host, nothing) in
      let same : remove_from_all id registry (list_engines registry) s
          ≡ remove_from_all id (register podman new_registry)
              (list_engines (register podman new_registry)) s =
        remove_from_all-two podman docker id registry s
          (engines-create_default_registry podman docker started named refl)
        ∙ remove_found-Unnamed "docker" id docker (remove_found "podman" id (some podman) s) infos
            other listed (list_workloads-Unnamed lib sys d _ infos listed)
        ∙ sym (remove_from_all-one podman docker id s named) in
      ap (λ r. remove_with id r n) both
      ∙ ap (λ (t : W × Removals). (withdraw id t n, ok (t.1).removed_workloads)) same
