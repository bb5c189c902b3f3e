-- ===== src/Resources/Reserve.antt =====
-- Reservations: they never promise more than the node has, and they live for the hold duration.
use beemesh.Prelude.{
  ℕ, ◌+◌, ◌-◌, ◌≤◌, ◌<◌, ◌≡◌, refl, String, true, false, Option, none, some, Option-cases, arith,
  ok, eq_iff, inl, inr, ltb, lt→ltb,
}
use beemesh.HashMap.{HashMap, get, modify}
use beemesh.HashMap.Laws.{
  IsMap, IsMap-retain, IsMap-modify, IsMap-insert, get-modify, get-insert, get-retain_kept,
  get-retain_dropped, any-values,
}
use beemesh.Resources.{
  CapacityReservation, ResourceRequest, ResourceVerifier, Reserved, SystemResources,
  available_cpu_milli, available_memory_bytes, available_storage_bytes, total_cpu_milli,
  total_memory_bytes, total_storage_bytes, prune_expired_reservations, refresh, admit,
  first_shortage, commit, reserve_capacity, reservation_hold_duration,
  has_active_reservation_for_manifest, is_for,
}
use beemesh.Resources.Amounts.{
  total_cpu, total_memory, total_storage, total-retain-le, total-modify, total-insert,
  reservable_lem,
}

-- The reservations together stay within what the node can give.
pub record Fits (s : SystemResources) (m : HashMap CapacityReservation) : Type 0 where
  pub cpu : total_cpu m ≤ available_cpu_milli s
  pub memory : total_memory m ≤ available_memory_bytes s
  pub storage : total_storage m ≤ available_storage_bytes s

pub prune-Fits :
    (now : ℕ) (s : SystemResources) (m : HashMap CapacityReservation)
    → Fits s m
    → Fits s (prune_expired_reservations now m)
unfolding prune_expired_reservations
prune-Fits now s m h = omega (
  arith,
  total-retain-le (λ r. r.cpu_milli) (λ _ r. ltb now r.expires_at) m,
  total-retain-le (λ r. r.memory_bytes) (λ _ r. ltb now r.expires_at) m,
  total-retain-le (λ r. r.storage_bytes) (λ _ r. ltb now r.expires_at) m,
)

refresh_amounts :
    (now : ℕ) (manifest_id : Option String) (r : CapacityReservation)
    → ((refresh now manifest_id r).cpu_milli ≡ r.cpu_milli)
      × ((refresh now manifest_id r).memory_bytes ≡ r.memory_bytes)
      × ((refresh now manifest_id r).storage_bytes ≡ r.storage_bytes)
unfolding refresh
refresh_amounts now none r = (refl, refl, refl)
refresh_amounts now (some m) r = (refl, refl, refl)

pub modify-refresh-Fits :
    (now : ℕ) (manifest_id : Option String) (k : String) (s : SystemResources)
    (m : HashMap CapacityReservation)
    → Fits s m
    → Fits s (modify k (refresh now manifest_id) m)
modify-refresh-Fits now manifest_id k s m h =
    let same = refresh_amounts now manifest_id in
    omega (
      arith,
      total-modify (λ r. r.cpu_milli) k (refresh now manifest_id) m (λ r. (same r).0),
      total-modify (λ r. r.memory_bytes) k (refresh now manifest_id) m (λ r. (same r).1),
      total-modify (λ r. r.storage_bytes) k (refresh now manifest_id) m (λ r. (same r).2),
    )

-- An admitted request leaves the sums in bounds.
pub record Admitted (s : SystemResources) (m : HashMap CapacityReservation)
    (request : ResourceRequest) : Type 0 where
  pub cpu : total_cpu_milli request ≤ available_cpu_milli s - total_cpu m
  pub memory : total_memory_bytes request ≤ available_memory_bytes s - total_memory m
  pub storage : total_storage_bytes request ≤ available_storage_bytes s - total_storage m

pub first_shortage-none :
    (request : ResourceRequest) (left : Reserved)
    → first_shortage request left ≡ none
    → (total_cpu_milli request ≤ left.cpu)
      × (total_memory_bytes request ≤ left.memory)
      × (total_storage_bytes request ≤ left.storage)
unfolding first_shortage
first_shortage-none request left e = ground arith

pub admit-Admitted :
    (v : ResourceVerifier) (request : ResourceRequest)
    → admit v request ≡ none
    → Admitted v.system_resources v.reservations request
unfolding admit
admit-Admitted v request e =
    omega (arith, first_shortage-none request _ e, reservable_lem v.system_resources v.reservations)

pub commit-Fits :
    (now : ℕ) (k : String) (manifest_id : Option String) (request : ResourceRequest)
    (s : SystemResources) (m : HashMap CapacityReservation)
    → Fits s m
    → Admitted s m request
    → Fits s (commit now k manifest_id request m)
unfolding commit
commit-Fits now k manifest_id request s m h a = elim (Option-cases (get k m)) [
  | inl absent ↦
      let r : CapacityReservation = record {
        cpu_milli = total_cpu_milli request;
        memory_bytes = total_memory_bytes request;
        storage_bytes = total_storage_bytes request;
        manifest_id = manifest_id;
        expires_at = now + reservation_hold_duration;
      } in
      rw absent (
        omega (
          arith,
          total-insert (λ r. r.cpu_milli) k r m absent,
          total-insert (λ r. r.memory_bytes) k r m absent,
          total-insert (λ r. r.storage_bytes) k r m absent,
        ))
  | inr (r, present) ↦ rw present (modify-refresh-Fits now manifest_id k s m h)
]

-- `r` was made or refreshed at `now` for the manifest, if one was given.
abbrev pub Held : ℕ → Option String → CapacityReservation → Type 0
Held now manifest_id r =
    (r.expires_at ≡ now + reservation_hold_duration)
    × ((m : String) → manifest_id ≡ some m → r.manifest_id ≡ some m)

refresh-Held :
    (now : ℕ) (manifest_id : Option String) (r : CapacityReservation)
    → Held now manifest_id (refresh now manifest_id r)
unfolding refresh
refresh-Held now none r = (refl, λ m e. cc)
refresh-Held now (some n) r = (refl, λ m e. e)

is_for_lem : (m : String) (r : CapacityReservation) → r.manifest_id ≡ some m → is_for m r ≡ true
unfolding is_for
is_for_lem m r e = ground (arith, eq_iff m m)

module _ (v : ResourceVerifier) (t_prune t_hold : ℕ) (request_id : String)
    (manifest_id : Option String) (request : ResourceRequest) where
  abbrev pruned : HashMap CapacityReservation
  pruned = prune_expired_reservations t_prune v.reservations

  -- Where the reservations together are within what the node can give, of CPU, of memory and of
  -- storage, an uninterrupted `reserve_capacity` keeps them so, whether it makes a reservation,
  -- refreshes one or refuses.
  pub reserve_capacity-Fits :
      Fits v.system_resources v.reservations
      → Fits v.system_resources
          (reserve_capacity v t_prune t_hold request_id manifest_id request).0.reservations
  unfolding reserve_capacity
  reserve_capacity-Fits h =
      let fits = prune-Fits t_prune v.system_resources v.reservations h in
      let p : ResourceVerifier = record v { reservations = pruned } in
      elim (Option-cases (get request_id pruned)) [
        | inr (r, present) ↦
            rw present
              (modify-refresh-Fits t_hold manifest_id request_id v.system_resources pruned fits)
        | inl absent ↦ elim (Option-cases (admit p request)) [
          | inl admitted ↦
              rw (absent, admitted)
                (commit-Fits t_hold request_id manifest_id request v.system_resources pruned fits
                  (admit-Admitted p request admitted))
          | inr (shortage, refused) ↦ rw (absent, refused) fits
        ]
      ]

  get-reserve_capacity :
      (reserve_capacity v t_prune t_hold request_id manifest_id request).1 ≡ ok tt
      → (r : CapacityReservation) × (get request_id
            (reserve_capacity v t_prune t_hold request_id manifest_id request).0.reservations
          ≡ some r)
        × Held t_hold manifest_id r
  unfolding reserve_capacity commit
  get-reserve_capacity e =
      let p : ResourceVerifier = record v { reservations = pruned } in
      elim (Option-cases (get request_id pruned)) [
        | inr (r, present) ↦ (
          refresh t_hold manifest_id r,
          rw (present, get-modify) (ground (arith, eq_iff request_id request_id)),
          refresh-Held t_hold manifest_id r,
        )
        | inl absent ↦
            let made : CapacityReservation = record {
              cpu_milli = total_cpu_milli request;
              memory_bytes = total_memory_bytes request;
              storage_bytes = total_storage_bytes request;
              manifest_id = manifest_id;
              expires_at = t_hold + reservation_hold_duration;
            } in
            elim (Option-cases (admit p request)) [
              | inl admitted ↦ (
                made,
                rw (absent, admitted, absent, get-insert)
                    (ground (arith, eq_iff request_id request_id)),
                (refl, λ m same. same),
              )
              | inr (shortage, refused) ↦ absurd (ground arith)
            ]
      ]

  IsMap-reserve_capacity :
      IsMap v.reservations
      → IsMap (reserve_capacity v t_prune t_hold request_id manifest_id request).0.reservations
  unfolding reserve_capacity commit prune_expired_reservations
  IsMap-reserve_capacity u =
      let kept : IsMap pruned = IsMap-retain _ v.reservations u in
      let p : ResourceVerifier = record v { reservations = pruned } in
      elim (Option-cases (get request_id pruned)) [
        | inr (r, present) ↦
            rw present (IsMap-modify request_id (refresh t_hold manifest_id) pruned kept)
        | inl absent ↦ elim (Option-cases (admit p request)) [
          | inl admitted ↦ rw (absent, admitted, absent) (IsMap-insert request_id _ pruned kept)
          | inr (shortage, refused) ↦ rw (absent, refused) kept
        ]
      ]

  -- After a reservation for a manifest was accepted or refreshed, the manifest has an active
  -- reservation at every moment before the hold duration is over.
  pub has_active-reserve_capacity :
      (m : String) (now : ℕ)
      → manifest_id ≡ some m
      → (reserve_capacity v t_prune t_hold request_id manifest_id request).1 ≡ ok tt
      → now < t_hold + reservation_hold_duration
      → (has_active_reservation_for_manifest
          (reserve_capacity v t_prune t_hold request_id manifest_id request).0
          now
          m).1
        ≡ true
  unfolding has_active_reservation_for_manifest prune_expired_reservations
  has_active-reserve_capacity m now given e early =
      let (r, found, held) = get-reserve_capacity e in
      let live : ltb now r.expires_at ≡ true = rw held.0 (lt→ltb _ _ early) in
      let mine : is_for m r ≡ true = is_for_lem m r (held.1 m given) in
      any-values (is_for m) request_id r _ (get-retain_kept _ request_id r _ found live) mine

  -- After a call that succeeded, on reservations among which no id stands twice, the first pruning
  -- at or after the end of the hold duration leaves no reservation of that id.
  reserve_capacity_expires :
      (now : ℕ)
      → IsMap v.reservations
      → (reserve_capacity v t_prune t_hold request_id manifest_id request).1 ≡ ok tt
      → t_hold + reservation_hold_duration ≤ now
      → get request_id (
          prune_expired_reservations now
            (reserve_capacity v t_prune t_hold request_id manifest_id request).0.reservations)
        ≡ none
  unfolding prune_expired_reservations
  reserve_capacity_expires now u e late =
      let (r, found, held) = get-reserve_capacity e in
      let dead : ltb now r.expires_at ≡ false = rw held.0 (ground arith) in
      get-retain_dropped _ request_id r _ (IsMap-reserve_capacity u) found dead
