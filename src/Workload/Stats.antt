-- ===== src/Workload/Stats.antt =====
-- machineplane/machine/src/workload_manager.rs: the manager's statistics, and the workloads of a
-- peer.
mod Tests
use beemesh.Prelude.{
  ℕ, suc, ◌+◌, ◌≡◌, refl, String, Bool, false, Option, none, some, List, [], ◌∷◌, ok, err, eq_iff,
  if◌then◌else◌, length, filter, unwrap_or, arith, ap,
}
use beemesh.HashMap.{HashMap, get, insert, values}
use beemesh.Runtime.{WorkloadStatus}
use beemesh.Runtime.Registry.{RuntimeRegistry, get_engine, of_peer}
use beemesh.Provider.{ProviderStats}
use beemesh.Provider
use beemesh.Workload.{WorkloadManager, DeploymentStatus}

pub record WorkloadManagerStats : Type 0 where
  pub total_workloads : ℕ
  pub status_counts : HashMap ℕ
  pub engine_counts : HashMap ℕ
  pub announced_providers : ℕ
  pub provider_stats : ProviderStats

-- `*counts.entry(key).or_insert(0) += 1`
count : String → HashMap ℕ → HashMap ℕ
count key counts = insert key (unwrap_or (get key counts) 0 + 1) counts

count_by : (DeploymentStatus → String) → List DeploymentStatus → HashMap ℕ → HashMap ℕ
unfolding count
count_by key [] counts = counts
count_by key (d ∷ ds) counts = count_by key ds (count (key d) counts)

count_announced : List DeploymentStatus → ℕ
count_announced [] = 0
count_announced (d ∷ ds) =
    let rest = count_announced ds in if d.announced_as_provider then rest + 1 else rest

pub sum : List ℕ → ℕ
sum [] = 0
sum (n ∷ ns) = n + sum ns

sum-insert :
    (k : String) (n : ℕ) (counts : HashMap ℕ)
    → sum (values (insert k n counts)) + unwrap_or (get k counts) 0 ≡ sum (values counts) + n
unfolding sum
sum-insert k n [] = ground arith
sum-insert k n ((j, i) ∷ rest) = ground (arith, sum-insert k n rest, eq_iff j k)

sum-count :
    (k : String) (counts : HashMap ℕ) → sum (values (count k counts)) ≡ sum (values counts) + 1
unfolding count
sum-count k counts = let h = sum-insert k (unwrap_or (get k counts) 0 + 1) counts in omega arith

sum-count_by :
    (key : DeploymentStatus → String) (ds : List DeploymentStatus) (counts : HashMap ℕ)
    → sum (values (count_by key ds counts)) ≡ sum (values counts) + length ds
unfolding count_by
sum-count_by key [] counts = omega arith
sum-count_by key (d ∷ ds) counts =
    let h = sum-count (key d) counts in
    let ih = sum-count_by key ds (count (key d) counts) in omega arith

length-values : (ds : HashMap DeploymentStatus) → length (values ds) ≡ length ds
length-values [] = refl
length-values (d ∷ ds) = ap suc (length-values ds)

module _ {W : Type 0} where
  -- `debug` is `WorkloadStatus`'s derived `Debug`.
  pub get_stats : (debug : WorkloadStatus → String) → WorkloadManager W → WorkloadManagerStats
  unfolding count_by count_announced
  get_stats debug m =
      let ds = values m.deployments in
      record {
        total_workloads = length m.deployments;
        status_counts = count_by (λ d. debug d.status) ds [];
        engine_counts = count_by (λ d. d.runtime_engine) ds [];
        announced_providers = count_announced ds;
        provider_stats = Provider.get_stats m.provider_manager;
      }

  -- The counts by status, and the counts by engine, each add up to the number of workloads.
  get_stats-totals :
      (debug : WorkloadStatus → String) (m : WorkloadManager W)
      → (sum (values (get_stats debug m).status_counts) ≡ (get_stats debug m).total_workloads)
        × (sum (values (get_stats debug m).engine_counts) ≡ (get_stats debug m).total_workloads)
  unfolding get_stats sum
  get_stats-totals debug m = (
    counted (sum-count_by (λ d. debug d.status) (values m.deployments) []),
    counted (sum-count_by (λ d. d.runtime_engine) (values m.deployments) []),
  )
    where
      counted : {n : ℕ} → n ≡ sum [] + length (values m.deployments) → n ≡ length m.deployments
      counted h = let same = length-values m.deployments in omega (arith, same)

  -- The registry is the one that the node's other tasks share, where there is one.
  pub deployed_by :
      (local_peer_id : String) → Option (RuntimeRegistry W) → W → DeploymentStatus → Bool
  deployed_by local_peer_id none w d = false
  deployed_by local_peer_id (some registry) w d = elim (get_engine d.runtime_engine registry) [
    | none ↦ false
    | some engine ↦ elim (engine.get_workload_status d.workload_id w) [
      | ok info ↦ of_peer local_peer_id info
      | err _ ↦ false
    ]
  ]

  pub list_workloads_by_peer :
      (local_peer_id : String)
      → (global_registry : Option (RuntimeRegistry W)) → WorkloadManager W
      → List DeploymentStatus
  unfolding deployed_by
  list_workloads_by_peer local_peer_id global_registry m =
      filter (deployed_by local_peer_id global_registry m.host) (values m.deployments)
