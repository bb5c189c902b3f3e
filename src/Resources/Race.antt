-- ===== src/Resources/Race.antt =====
-- `reserve_capacity` gives up its locks between the comparison and the insertion: the phases of a
-- call, what they are when nothing comes between, and what two calls can do to one another.
use beemesh.Prelude.{
  ℕ, ◌+◌, ◌<◌, ◌≡◌, ◌≢◌, refl, String, false, Option, none, some, [], arith, Result, ok, err,
  if◌then◌else◌, str_eq, eq_iff,
}
use beemesh.HashMap.{HashMap, modify, contains_key}
use beemesh.Resources.{
  CapacityReservation, ResourceRequest, ResourceVerifier, SystemResources, Shortage,
  available_cpu_milli, total_cpu_milli, prune_expired_reservations, refresh, admit, commit,
  reserve_capacity,
}
use beemesh.Resources.Amounts.{total_cpu}
use beemesh.Resources.Reserve.{Fits}

pub record Call : Type 0 where
  pub request_id : String
  pub manifest_id : Option String
  pub request : ResourceRequest

-- Where a call stands: it has done nothing, it has passed the comparisons, or it has answered.
pub data Phase : Type 0 where
  begun admitted : Phase
  answered : Result (Unit {0}) Shortage → Phase

-- One phase of a call, with the clocks of its pruning and of its new expiry.
pub run_phase : (t_prune t_hold : ℕ) → Call → Phase → ResourceVerifier → ResourceVerifier × Phase
run_phase t_prune t_hold c begun v =
    let pruned = record v { reservations = prune_expired_reservations t_prune v.reservations } in
    if contains_key c.request_id pruned.reservations
    then (
      record pruned {
        reservations = modify c.request_id (refresh t_hold c.manifest_id) pruned.reservations;
      },
      answered (ok tt),
    )
    else elim (admit pruned c.request) [
      | some shortage ↦ (pruned, answered (err shortage))
      | none ↦ (pruned, admitted)
    ]
run_phase t_prune t_hold c admitted v = (
  record v { reservations = commit t_hold c.request_id c.manifest_id c.request v.reservations },
  answered (ok tt),
)
run_phase t_prune t_hold c (answered r) v = (v, answered r)

module _ (t_prune t_hold : ℕ) where
  -- Two phases of one call, with nothing between them, are `reserve_capacity`.
  run_phase-reserve_capacity :
      (c : Call) (v : ResourceVerifier)
      → (let (v', phase) = run_phase t_prune t_hold c begun v in
          run_phase t_prune t_hold c phase v')
        ≡ (let (v', answer) =
              reserve_capacity v t_prune t_hold c.request_id c.manifest_id c.request in
            (v', answered answer))
  unfolding run_phase reserve_capacity
  run_phase-reserve_capacity c v = ground arith

  -- the schedule in which both calls compare before either inserts
  pub both_compare_first : Call → Call → ResourceVerifier → ResourceVerifier × Phase × Phase
  both_compare_first a b v =
      let (v₁, a₁) = run_phase t_prune t_hold a begun v in
      let (v₂, b₁) = run_phase t_prune t_hold b begun v₁ in
      let (v₃, a₂) = run_phase t_prune t_hold a a₁ v₂ in
      let (v₄, b₂) = run_phase t_prune t_hold b b₁ v₃ in (v₄, a₂, b₂)

  abbrev pub unreserved : SystemResources → ResourceVerifier
  unreserved resources = record { system_resources = resources; reservations = [] }

  compared :
      (c : Call) (resources : SystemResources)
      → admit (unreserved resources) c.request ≡ none
      → run_phase t_prune t_hold c begun (unreserved resources) ≡ (unreserved resources, admitted)
  unfolding run_phase prune_expired_reservations
  compared c resources e = rw e

  both_committed : Call → Call → HashMap CapacityReservation
  both_committed a b =
      commit t_hold b.request_id b.manifest_id b.request
        (commit t_hold a.request_id a.manifest_id a.request [])

  both_compare_first_lem :
      (a b : Call) (resources : SystemResources)
      → admit (unreserved resources) a.request ≡ none
      → admit (unreserved resources) b.request ≡ none
      → both_compare_first a b (unreserved resources) ≡ (
        record { system_resources = resources; reservations = both_committed a b },
        answered (ok tt),
        answered (ok tt),
      )
  unfolding both_compare_first both_committed
  both_compare_first_lem a b resources ea eb =
      rw (compared a resources ea, compared b resources eb) (unfold run_phase in refl)

  total_cpu-both_committed :
      (a b : Call)
      → a.request_id ≢ b.request_id
      → total_cpu (both_committed a b) ≡ total_cpu_milli a.request + total_cpu_milli b.request
  unfolding both_committed commit
  total_cpu-both_committed a b differ =
      let other : str_eq a.request_id b.request_id ≡ false =
        ground (arith, eq_iff a.request_id b.request_id) in
      rw other (omega arith)

  -- On a node without reservations, two calls with different ids that are each admitted, and that
  -- together ask for more CPU than the node can give, are both accepted if both compare before
  -- either inserts: the reservations then exceed the node.
  pub reserve_capacity_race :
      (a b : Call) (resources : SystemResources)
      → a.request_id ≢ b.request_id
      → admit (unreserved resources) a.request ≡ none
      → admit (unreserved resources) b.request ≡ none
      → available_cpu_milli resources < total_cpu_milli a.request + total_cpu_milli b.request
      → ((both_compare_first a b (unreserved resources)).1 ≡ answered (ok tt))
        × ((both_compare_first a b (unreserved resources)).2 ≡ answered (ok tt))
        × (¬ Fits resources (both_compare_first a b (unreserved resources)).0.reservations)
  reserve_capacity_race a b resources differ admit_a admit_b exceeds =
      rw (both_compare_first_lem a b resources admit_a admit_b)
        (refl, refl, λ fits. let f = fits.cpu in omega (arith, total_cpu-both_committed a b differ))
