-- ===== src/Workload/Changes/Removal.antt =====
-- Removing workloads: what goes, what stays, and what is never taken back.
use beemesh.Prelude.{
  String, ◌≡◌, refl, ap, ◌∙◌, Bool, true, false, Bool-cases, inl, inr, none, some, List, [], ◌∷◌,
  ok, err, Result-cases, str_eq, eq_iff, if◌then◌else◌, arith, ◌||◌,
}
use beemesh.HashMap.{HashMap, get, remove}
use beemesh.HashMap.Laws.{IsMap, get-remove}
use beemesh.Runtime.{RuntimeResult}
use beemesh.Runtime.Registry.{RuntimeEngine}
use beemesh.Provider.{ProviderResult}
use beemesh.Workload.{
  WorkloadManager, WorkloadManagerResult, DeploymentStatus, WorkloadEvent, send, deployed_on,
}
use beemesh.Workload.Changes.{
  if_stopped, stop_announcing, finish_removal, remove_from, remove_workload, keep_removed,
  remove_each, deployed_from,
}

-- What `answer` says of the deployments before and after.
abbrev pub RemovedOrKept :
    String → WorkloadManagerResult (Unit {0}) → (before after : HashMap DeploymentStatus) → Type 0
RemovedOrKept k (ok _) before after = after ≡ remove k before
RemovedOrKept k (err _) before after = after ≡ before

abbrev pub listed : String → List String → Bool
listed j [] = false
listed j (k ∷ ks) = str_eq k j || listed j ks

module _ {W : Type 0} where
  pub send-deployments :
      (e : WorkloadEvent) (m : WorkloadManager W) → (send e m).deployments ≡ m.deployments
  unfolding send
  send-deployments e m = elim (Bool-cases m.event_sender) [
    | inl on ↦ rw on refl
    | inr off ↦ rw off refl
  ]

  pub send-provider_manager :
      (e : WorkloadEvent) (m : WorkloadManager W) → (send e m).provider_manager ≡ m.provider_manager
  unfolding send
  send-provider_manager e m = elim (Bool-cases m.event_sender) [
    | inl on ↦ rw on refl
    | inr off ↦ rw off refl
  ]

  if_stopped-deployments :
      (k : String) (answer : ProviderResult (Unit {0})) (m : WorkloadManager W)
      → (if_stopped k answer m).deployments ≡ m.deployments
  unfolding if_stopped
  if_stopped-deployments k (ok _) m = send-deployments _ m
  if_stopped-deployments k (err _) m = refl

  pub stop_announcing-deployments :
      (k : String) (m : WorkloadManager W) → (stop_announcing k m).deployments ≡ m.deployments
  unfolding stop_announcing
  stop_announcing-deployments k m = if_stopped-deployments k _ _

  quiet-deployments :
      (d : DeploymentStatus) (m : WorkloadManager W)
      → (if d.announced_as_provider then stop_announcing d.manifest_id m else m).deployments
        ≡ m.deployments
  quiet-deployments d m = elim (Bool-cases d.announced_as_provider) [
    | inl announced ↦ rw announced (stop_announcing-deployments d.manifest_id m)
    | inr quiet ↦ rw quiet refl
  ]

  finish_removal-deployments :
      (k : String) (d : DeploymentStatus) (answer : RuntimeResult (Unit {0}))
      (m : WorkloadManager W)
      → RemovedOrKept k
          (finish_removal k d answer m).1
          m.deployments
          (finish_removal k d answer m).0.deployments
  unfolding finish_removal
  finish_removal-deployments k d (err e) m = refl
  finish_removal-deployments k d (ok _) m = rw (send-deployments, quiet-deployments) refl

  remove_from-deployments :
      (k : String) (found : WorkloadManagerResult (DeploymentStatus × RuntimeEngine W))
      (m : WorkloadManager W)
      → RemovedOrKept k
          (remove_from k found m).1
          m.deployments
          (remove_from k found m).0.deployments
  unfolding remove_from
  remove_from-deployments k (err e) m = refl
  remove_from-deployments k (ok (d, engine)) m =
      finish_removal-deployments k d (engine.remove_workload k m.host).1
        (record m { host = (engine.remove_workload k m.host).0 })

  pub remove_workload-deployments :
      (k : String) (m : WorkloadManager W)
      → RemovedOrKept k (remove_workload k m).1 m.deployments (remove_workload k m).0.deployments
  unfolding remove_workload
  remove_workload-deployments k m = remove_from-deployments k (deployed_on k m) m

  pub remove_each-deployments :
      (ks : List String) (m : WorkloadManager W) (j : String)
      → get j (remove_each ks m).0.deployments
        ≡ (if listed j (remove_each ks m).1 then none else get j m.deployments)
  unfolding remove_each keep_removed
  remove_each-deployments [] m j = refl
  remove_each-deployments (k ∷ ks) m j =
      let first = remove_workload-deployments k m in
      let ih = remove_each-deployments ks (remove_workload k m).0 j in
      elim (Result-cases (remove_workload k m).1) [
        | inl (_, removed) ↦
            let gone : get j (remove_workload k m).0.deployments
                ≡ (if str_eq k j then none else get j m.deployments) =
              ap (get j) (rw removed at first) ∙ get-remove k j m.deployments in
            rw removed (ih ∙ (ground (arith)))
        | inr (_, kept) ↦
            let same : (remove_workload k m).0.deployments ≡ m.deployments = rw kept at first in
            rw kept (rw same at ih)
      ]

  pub remove_each-listed :
      (ks : List String) (m : WorkloadManager W) (j : String)
      → listed j (remove_each ks m).1 ≡ true
      → listed j ks ≡ true
  unfolding remove_each keep_removed
  remove_each-listed [] m j h = h
  remove_each-listed (k ∷ ks) m j h =
      let ih = remove_each-listed ks (remove_workload k m).0 j in
      elim (Result-cases (remove_workload k m).1) [
        | inl (_, removed) ↦ let h' = rw removed at h in ground arith
        | inr (_, kept) ↦ let h' = rw kept at h in ground arith
      ]

pub listed-deployed_from :
    (manifest_id : String) (deployments : HashMap DeploymentStatus) (j : String)
    → IsMap deployments
    → listed j (deployed_from manifest_id deployments) ≡ true
    → (d : DeploymentStatus) × (get j deployments ≡ some d) × (d.manifest_id ≡ manifest_id)
unfolding deployed_from
listed-deployed_from k [] j u h = absurd (ground arith)
listed-deployed_from k ((i, d) ∷ rest) j u h = elim (Bool-cases (str_eq d.manifest_id k)) [
  | inl mine ↦ elim (Bool-cases (str_eq i j)) [
    | inl here ↦ (d, rw here refl, (eq_iff d.manifest_id k).0 mine)
    | inr there ↦
        let h' = rw mine at h in
        let (e, found, of_k) = listed-deployed_from k rest j u.1 (ground arith) in
        (e, rw there found, of_k)
  ]
  | inr other ↦
      let (e, found, of_k) = listed-deployed_from k rest j u.1 (rw other at h) in
      elim (Bool-cases (str_eq i j)) [
        | inl here ↦
            let same : i ≡ j = (eq_iff i j).0 here in
            let absent : get j rest ≡ none = rw same at u.0 in absurd (ground arith)
        | inr there ↦ (e, rw there found, of_k)
      ]
]
