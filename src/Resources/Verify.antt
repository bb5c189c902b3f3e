-- ===== src/Resources/Verify.antt =====
-- The capacity check: what its answer means, and that a reservation agrees with it.
use beemesh.Prelude.{
  ℕ, ◌-◌, ◌≤◌, ◌≡◌, refl, ◌↔◌, String, true, false, Option, none, Option-cases, arith, is_ok,
  is_some, if◌then◌else◌, inl, inr,
}
use beemesh.HashMap.{get}
use beemesh.Resources.{
  ResourceRequest, ResourceVerifier, Reserved, available_cpu_milli, available_memory_bytes,
  available_storage_bytes, total_cpu_milli, total_memory_bytes, total_storage_bytes,
  prune_expired_reservations, admit, first_shortage, reserve_capacity, reservable,
  total_reserved_resources, verify_capacity, can_accept_more_workloads,
}
use beemesh.Resources.Amounts.{total_cpu, total_memory, total_storage, reservable_lem}
use beemesh.Resources.Reserve.{first_shortage-none}

first_shortage_of_le :
    (request : ResourceRequest) (left : Reserved)
    → total_cpu_milli request ≤ left.cpu
    → total_memory_bytes request ≤ left.memory
    → total_storage_bytes request ≤ left.storage
    → first_shortage request left ≡ none
unfolding first_shortage
first_shortage_of_le request left a b c = ground arith

module _ (v : ResourceVerifier) (now : ℕ) (request : ResourceRequest) where
  abbrev pub live_cpu : ℕ
  live_cpu = total_cpu (prune_expired_reservations now v.reservations)

  abbrev pub live_memory : ℕ
  live_memory = total_memory (prune_expired_reservations now v.reservations)

  abbrev pub live_storage : ℕ
  live_storage = total_storage (prune_expired_reservations now v.reservations)

  -- The check answers yes exactly when the request, over all its replicas, fits into what the node
  -- can give less the exact sums of the reservations that have not expired: of CPU, of memory and
  -- of storage. It gives a reason exactly when it answers no.
  pub verify_capacity_iff :
      (((verify_capacity v now request).1.has_capacity ≡ true) ↔ (
        (total_cpu_milli request ≤ available_cpu_milli v.system_resources - live_cpu)
        × (total_memory_bytes request ≤ available_memory_bytes v.system_resources - live_memory)
        × (total_storage_bytes request
            ≤ available_storage_bytes v.system_resources - live_storage)))
      × (is_some (verify_capacity v now request).1.rejection_reason
          ≡ (if (verify_capacity v now request).1.has_capacity then false else true))
  unfolding verify_capacity can_accept_more_workloads
  verify_capacity_iff =
      let live = prune_expired_reservations now v.reservations in
      let left = reservable v.system_resources (total_reserved_resources live) in
      let exact = reservable_lem v.system_resources live in
      elim (Option-cases (first_shortage request left)) [
        | inl fits ↦
            let f = first_shortage-none request left fits in
            rw (fits, verify_capacity) ((λ _. omega (arith, f, exact), λ _. refl), refl)
        | inr (shortage, e) ↦
            rw (e, verify_capacity)
              (
                (
                  (λ h. cc),
                  (λ h.
                      let n =
                        first_shortage_of_le request left (omega (arith, exact))
                          (omega (arith, exact)) (omega (arith, exact)) in
                      cc),
                ),
                refl,
              )
      ]

  -- With no reservation of its own request id, an uninterrupted `reserve_capacity` succeeds exactly
  -- when the check, at the same clock, answers yes.
  pub reserve_capacity-verify_capacity :
      (t_hold : ℕ) (request_id : String) (manifest_id : Option String)
      → get request_id (prune_expired_reservations now v.reservations) ≡ none
      → is_ok (reserve_capacity v now t_hold request_id manifest_id request).1
        ≡ (verify_capacity v now request).1.has_capacity
  unfolding reserve_capacity verify_capacity can_accept_more_workloads admit
  reserve_capacity-verify_capacity t_hold request_id manifest_id absent = ground arith
