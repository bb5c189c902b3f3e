-- ===== src/Resources/Amounts.antt =====
-- Sums over the reservations: the saturating fold of `total_reserved_resources` is the exact sum,
-- cut at the width of the integer, and each map operation changes the sum as it should.
use beemesh.Prelude.{
  ℕ, ◌+◌, ◌-◌, ◌≤◌, ◌≡◌, refl, String, Bool, none, [], ◌∷◌, arith, min, str_eq, u32_max, u64_max,
  Bool-cases, inl, inr,
}
use beemesh.HashMap.{HashMap, get, insert, modify, retain, values}
use beemesh.Resources.{
  CapacityReservation, Reserved, SystemResources, add_reservation, fold_reserved,
  total_reserved_resources, reservable, available_cpu_milli, available_memory_bytes,
  available_storage_bytes,
}

abbrev pub total : (CapacityReservation → ℕ) → HashMap CapacityReservation → ℕ
total f [] = 0
total f ((_, r) ∷ m) = f r + total f m

abbrev pub total_cpu : HashMap CapacityReservation → ℕ
total_cpu = total (λ r. r.cpu_milli)

abbrev pub total_memory : HashMap CapacityReservation → ℕ
total_memory = total (λ r. r.memory_bytes)

abbrev pub total_storage : HashMap CapacityReservation → ℕ
total_storage = total (λ r. r.storage_bytes)

fold_reserved_lem :
    (acc : Reserved) (m : HashMap CapacityReservation)
    → acc.cpu ≤ u32_max
    → acc.memory ≤ u64_max
    → acc.storage ≤ u64_max
    → ((fold_reserved acc (values m)).cpu ≡ min (acc.cpu + total_cpu m) u32_max)
      × ((fold_reserved acc (values m)).memory ≡ min (acc.memory + total_memory m) u64_max)
      × ((fold_reserved acc (values m)).storage ≡ min (acc.storage + total_storage m) u64_max)
unfolding fold_reserved
fold_reserved_lem acc [] a b c = omega arith
fold_reserved_lem acc ((k, r) ∷ m) a b c =
    omega
      (arith, fold_reserved_lem (add_reservation acc r) m (omega arith) (omega arith) (omega arith))

pub total_reserved_resources_lem :
    (m : HashMap CapacityReservation)
    → ((total_reserved_resources m).cpu ≡ min (total_cpu m) u32_max)
      × ((total_reserved_resources m).memory ≡ min (total_memory m) u64_max)
      × ((total_reserved_resources m).storage ≡ min (total_storage m) u64_max)
unfolding total_reserved_resources
total_reserved_resources_lem m = omega (
  arith,
  fold_reserved_lem (record { cpu = 0; memory = 0; storage = 0 }) m (omega arith) (omega arith)
      (omega arith),
)

available_bounds :
    (r : SystemResources)
    → (available_cpu_milli r ≤ u32_max)
      × (available_memory_bytes r ≤ u64_max)
      × (available_storage_bytes r ≤ u64_max)
unfolding available_cpu_milli available_memory_bytes available_storage_bytes
available_bounds r = omega arith

-- The saturation is never seen: what is reservable is what the exact sums leave.
pub reservable_lem :
    (s : SystemResources) (m : HashMap CapacityReservation)
    → ((reservable s (total_reserved_resources m)).cpu ≡ available_cpu_milli s - total_cpu m)
      × ((reservable s (total_reserved_resources m)).memory
          ≡ available_memory_bytes s - total_memory m)
      × ((reservable s (total_reserved_resources m)).storage
          ≡ available_storage_bytes s - total_storage m)
unfolding reservable
reservable_lem s m = omega (arith, total_reserved_resources_lem m, available_bounds s)

module _ (f : CapacityReservation → ℕ) where
  pub total-retain-le :
      (p : String → CapacityReservation → Bool) (m : HashMap CapacityReservation)
      → total f (retain p m) ≤ total f m
  total-retain-le p [] = omega arith
  total-retain-le p ((k, r) ∷ m) = elim (Bool-cases (p k r)) [
    | inl kept ↦ rw kept (omega (arith, total-retain-le p m))
    | inr gone ↦ rw gone (omega (arith, total-retain-le p m))
  ]

  pub total-modify :
      (k : String) (g : CapacityReservation → CapacityReservation) (m : HashMap CapacityReservation)
      → ((r : CapacityReservation) → f (g r) ≡ f r)
      → total f (modify k g m) ≡ total f m
  total-modify k g [] h = refl
  total-modify k g ((j, r) ∷ m) h = elim (Bool-cases (str_eq j k)) [
    | inl here ↦ rw here (omega (arith, h r))
    | inr there ↦ rw there (omega (arith, total-modify k g m h))
  ]

  pub total-insert :
      (k : String) (r : CapacityReservation) (m : HashMap CapacityReservation)
      → get k m ≡ none
      → total f (insert k r m) ≡ total f m + f r
  total-insert k r [] h = omega arith
  total-insert k r ((j, s) ∷ m) h = elim (Bool-cases (str_eq j k)) [
    | inl here ↦ ground arith
    | inr there ↦
        let h' : get k m ≡ none = ground arith in rw there (omega (arith, total-insert k r m h'))
  ]
