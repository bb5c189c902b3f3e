-- ===== src/Node/Sweep.antt =====
-- remove_workloads_by_manifest_id of workload_integration.rs over all engines of a node, whose
-- containers are apart.
use Prim.Native.String.{◌++◌ as append}
use beemesh.Prelude.{
  ℕ, ◌+◌, ◌≤◌, ◌≡◌, String, Option, none, some, List, [], ◌∷◌, ◌++◌, map, ok, err, arith, length,
  length-append, All,
}
use beemesh.Runtime.{RuntimeResult, WorkloadInfo}
use beemesh.Runtime.Registry.{RuntimeEngine, RuntimeRegistry, get_engine}
use beemesh.Node.{Node}
use beemesh.Node.Removal.{Removals, remove_listed, remove_found}
use beemesh.Node.Withdrawal.{count, of_manifest, remove_matching-count, errors-le}

-- the workloads of the manifest in an engine's list, which may fail
abbrev pub ids_listed : (id : String) → RuntimeResult (List WorkloadInfo) → List String
ids_listed id (ok infos) = map (λ info. info.id) (of_manifest id infos)
ids_listed id (err _) = []

-- how many removals and failures an engine's list makes
abbrev pub weight : (id : String) → RuntimeResult (List WorkloadInfo) → ℕ
weight id (ok infos) = length (of_manifest id infos)
weight id (err _) = 1

abbrev pub list_of : {W : Type 0} → Option (RuntimeEngine W) → W → RuntimeResult (List WorkloadInfo)
list_of none w = ok []
list_of (some engine) w = engine.list_workloads w

module _ {W : Type 0} (registry : RuntimeRegistry W) where
  -- what an engine lists; a name without an engine lists nothing
  abbrev pub listing : String → W → RuntimeResult (List WorkloadInfo)
  listing name = list_of (get_engine name registry)

  -- the workloads of the manifest that the engines list, in the engines' order
  abbrev pub all_listed : (id : String) → W → List String → List String
  all_listed id w [] = []
  all_listed id w (name ∷ names) = ids_listed id (listing name w) ++ all_listed id w names

  abbrev pub total : (id : String) → W → List String → ℕ
  total id w [] = 0
  total id w (name ∷ names) = weight id (listing name w) + total id w names

  -- a removal by the engine is not seen in the list of the other
  abbrev pub Unseen : RuntimeEngine W → String → Type 0
  Unseen engine other =
      (id : String) (w : W) → listing other (engine.remove_workload id w).0 ≡ listing other w

  -- no engine's removals are seen in the lists of the later ones
  abbrev pub Apart : List String → Type 0
  Apart [] = Unit
  Apart (name ∷ names) =
      ((engine : RuntimeEngine W)
        → get_engine name registry ≡ some engine
        → All (Unseen engine) names)
      × Apart names

  module _ (name id : String) (engine : RuntimeEngine W) where
    -- what one engine's list makes of the lists of a removal
    pub listed_counts :
        (answer : RuntimeResult (List WorkloadInfo)) (s : W × Removals)
        → (count (remove_listed name id engine answer s).1 ≡ count s.1 + weight id answer)
          × (length (s.1).errors ≤ length (remove_listed name id engine answer s).1.errors)
    unfolding remove_listed
    listed_counts (ok infos) s =
        (remove_matching-count name id engine infos s, errors-le name id engine infos s)
    listed_counts (err e) (w, r) =
        let l = length-append r.errors (append "list:" name ∷ []) in
        (omega (arith, l), omega (arith, l))

  module _ (id name : String) (s : W × Removals) where
    abbrev visit : W × Removals
    visit = remove_found name id (get_engine name registry) s
