-- ===== src/Resources.antt =====
-- machineplane/machine/src/resource_verifier.rs and the constants of
-- machineplane/protocol/src/libp2p_constants.rs: what a node can host, and short reservations of it.
-- An `Instant` is a number of nanoseconds, and every reading of the clock is an argument. An
-- arithmetic overflow wraps, as in a release build. The messages of errors are data.
mod Amounts
pub mod Host
pub mod Reserve
pub mod Verify
pub mod Race
mod Tests
use beemesh.Prelude.{
  ℕ, ◌+◌, ◌-◌, ◌*◌, ◌/◌, ◌%◌, ◌^◌, max, String, Bool, true, false, Option, none, some, List, [],
  ◌∷◌, Result, ok, err, ◌>>=◌, ltb, leb, ◌==◌, if◌then◌else◌, is_some, unwrap_or, any, str_eq,
  u32_max, u64_max, saturating_add, saturating_mul, length, filter, get_elem?,
}
use beemesh.HashMap.{HashMap, get, insert, modify, retain, contains_key, values}
use beemesh.Text.{codes, lines, starts_with, split_whitespace, parse_unsigned}
use beemesh.Runtime.{WorkloadInfo, RuntimeResult}

abbrev pub max_cpu_allocation_percent : ℕ
max_cpu_allocation_percent = 90

abbrev pub max_memory_allocation_percent : ℕ
max_memory_allocation_percent = 90

abbrev pub max_storage_allocation_percent : ℕ
max_storage_allocation_percent = 90

abbrev pub min_free_memory_bytes : ℕ
min_free_memory_bytes = 512 * 1024 * 1024

abbrev pub min_free_storage_bytes : ℕ
min_free_storage_bytes = 1024 * 1024 * 1024

abbrev pub max_workloads_per_node : ℕ
max_workloads_per_node = 0

abbrev pub default_cpu_request_milli : ℕ
default_cpu_request_milli = 100

abbrev pub default_memory_request_bytes : ℕ
default_memory_request_bytes = 128 * 1024 * 1024

abbrev pub default_storage_request_bytes : ℕ
default_storage_request_bytes = 1024 * 1024 * 1024

pub record SystemResources : Type 0 where
  pub total_cpu_cores : ℕ
  pub total_cpu_milli : ℕ
  pub total_memory_bytes : ℕ
  pub total_storage_bytes : ℕ
  pub allocated_cpu_milli : ℕ
  pub allocated_memory_bytes : ℕ
  pub allocated_storage_bytes : ℕ
  pub running_workloads : ℕ

unfoldable pub available_cpu_milli : SystemResources → ℕ
available_cpu_milli r =
    (r.total_cpu_milli * max_cpu_allocation_percent / 100) % 2 ^ 32 - r.allocated_cpu_milli

unfoldable pub available_memory_bytes : SystemResources → ℕ
available_memory_bytes r =
    (r.total_memory_bytes * max_memory_allocation_percent) % 2 ^ 64 / 100
    - min_free_memory_bytes
    - r.allocated_memory_bytes

unfoldable pub available_storage_bytes : SystemResources → ℕ
available_storage_bytes r =
    (r.total_storage_bytes * max_storage_allocation_percent) % 2 ^ 64 / 100
    - min_free_storage_bytes
    - r.allocated_storage_bytes

unfoldable pub can_accept_more_workloads : SystemResources → Bool
can_accept_more_workloads r =
    if max_workloads_per_node == 0 then true else ltb r.running_workloads max_workloads_per_node

pub record ResourceRequest : Type 0 where
  pub cpu_milli : ℕ
  pub memory_bytes : ℕ
  pub storage_bytes : ℕ
  pub replicas : ℕ

-- `ResourceRequest::new`
unfoldable pub new_request : Option ℕ → Option ℕ → Option ℕ → ℕ → ResourceRequest
new_request cpu_milli memory_bytes storage_bytes replicas = record {
  cpu_milli = unwrap_or cpu_milli default_cpu_request_milli;
  memory_bytes = unwrap_or memory_bytes default_memory_request_bytes;
  storage_bytes = unwrap_or storage_bytes default_storage_request_bytes;
  replicas = max replicas 1;
}

unfoldable pub total_cpu_milli : ResourceRequest → ℕ
total_cpu_milli r = saturating_mul u32_max r.cpu_milli r.replicas

unfoldable pub total_memory_bytes : ResourceRequest → ℕ
total_memory_bytes r = saturating_mul u64_max r.memory_bytes r.replicas

unfoldable pub total_storage_bytes : ResourceRequest → ℕ
total_storage_bytes r = saturating_mul u64_max r.storage_bytes r.replicas

pub record CapacityReservation : Type 0 where
  pub cpu_milli : ℕ
  pub memory_bytes : ℕ
  pub storage_bytes : ℕ
  pub manifest_id : Option String
  pub expires_at : ℕ

pub record ResourceVerifier : Type 0 where
  pub system_resources : SystemResources
  pub reservations : HashMap CapacityReservation

-- `ResourceVerifier::new`
abbrev pub new_verifier : ResourceVerifier
new_verifier = record {
  system_resources = record {
    total_cpu_cores = 0;
    total_cpu_milli = 0;
    total_memory_bytes = 0;
    total_storage_bytes = 0;
    allocated_cpu_milli = 0;
    allocated_memory_bytes = 0;
    allocated_storage_bytes = 0;
    running_workloads = 0;
  };
  reservations = [];
}

-- `RESERVATION_HOLD_SECS`, as a duration
abbrev pub reservation_hold_duration : ℕ
reservation_hold_duration = 3 * 1_000_000_000

unfoldable pub prune_expired_reservations :
    ℕ → HashMap CapacityReservation → HashMap CapacityReservation
prune_expired_reservations now = retain (λ _ reservation. ltb now reservation.expires_at)

-- the triple of CPU, memory and storage that `total_reserved_resources` returns
pub record Reserved : Type 0 where
  pub cpu : ℕ
  pub memory : ℕ
  pub storage : ℕ

abbrev pub add_reservation : Reserved → CapacityReservation → Reserved
add_reservation acc r = record {
  cpu = saturating_add u32_max acc.cpu r.cpu_milli;
  memory = saturating_add u64_max acc.memory r.memory_bytes;
  storage = saturating_add u64_max acc.storage r.storage_bytes;
}

unfoldable pub fold_reserved : Reserved → List CapacityReservation → Reserved
fold_reserved acc [] = acc
fold_reserved acc (r ∷ rs) = fold_reserved (add_reservation acc r) rs

unfoldable pub total_reserved_resources : HashMap CapacityReservation → Reserved
total_reserved_resources reservations =
    fold_reserved (record { cpu = 0; memory = 0; storage = 0 }) (values reservations)

-- what is left of the node's resources behind the reservations
unfoldable pub reservable : SystemResources → Reserved → Reserved
reservable resources reserved = record {
  cpu = available_cpu_milli resources - reserved.cpu;
  memory = available_memory_bytes resources - reserved.memory;
  storage = available_storage_bytes resources - reserved.storage;
}

-- the reasons for a refusal, with the amounts that the messages show
pub data Shortage : Type 0 where
  insufficient_cpu : (need available : ℕ) → Shortage
  insufficient_memory : (need_mb available_mb : ℕ) → Shortage
  insufficient_storage : (need_gb available_gb : ℕ) → Shortage
  workload_count_reached : (running : ℕ) → Shortage

abbrev pub megabyte : ℕ
megabyte = 1024 * 1024

abbrev pub gigabyte : ℕ
gigabyte = 1024 * 1024 * 1024

-- the three comparisons, in their order, as `reserve_capacity` and `verify_capacity` make them
unfoldable pub first_shortage : ResourceRequest → Reserved → Option Shortage
first_shortage request left =
    if ltb left.cpu (total_cpu_milli request)
    then some (insufficient_cpu (total_cpu_milli request) left.cpu)
    else if ltb left.memory (total_memory_bytes request)
    then some (insufficient_memory (total_memory_bytes request / megabyte) (left.memory / megabyte))
    else if ltb left.storage (total_storage_bytes request)
    then some
        (insufficient_storage (total_storage_bytes request / gigabyte) (left.storage / gigabyte))
    else none

-- the writes through `get_mut`: a new expiry, and a new manifest if one is given
unfoldable pub refresh : ℕ → Option String → CapacityReservation → CapacityReservation
refresh now manifest_id existing = elim manifest_id [
  | none ↦ record existing { expires_at = now + reservation_hold_duration }
  | some m ↦ record existing { expires_at = now + reservation_hold_duration; manifest_id = some m }
]

-- the second phase of `reserve_capacity`: the reads of both locks and the comparisons
unfoldable pub admit : ResourceVerifier → ResourceRequest → Option Shortage
admit v request =
    first_shortage request (reservable v.system_resources (total_reserved_resources v.reservations))

-- the last phase, under the write lock: a reservation made in between is refreshed
unfoldable pub commit :
    ℕ
    → String
    → Option String
    → ResourceRequest
    → HashMap CapacityReservation
    → HashMap CapacityReservation
commit now request_id manifest_id request reservations =
    if contains_key request_id reservations
    then modify request_id (refresh now manifest_id) reservations
    else insert request_id
        (record {
          cpu_milli = total_cpu_milli request;
          memory_bytes = total_memory_bytes request;
          storage_bytes = total_storage_bytes request;
          manifest_id = manifest_id;
          expires_at = now + reservation_hold_duration;
        })
        reservations

-- `t_prune` is the clock of the pruning and `t_hold` that of the new expiry. The locks are taken
-- anew for each phase; this is the run in which no other task comes between them.
unfoldable pub reserve_capacity :
    ResourceVerifier
    → (t_prune t_hold : ℕ) → (request_id : String) → (manifest_id : Option String) → ResourceRequest
    → ResourceVerifier × Result (Unit {0}) Shortage
reserve_capacity v t_prune t_hold request_id manifest_id request =
    let pruned = record v { reservations = prune_expired_reservations t_prune v.reservations } in
    if contains_key request_id pruned.reservations
    then (
      record pruned {
        reservations = modify request_id (refresh t_hold manifest_id) pruned.reservations;
      },
      ok tt,
    )
    else elim (admit pruned request) [
      | some shortage ↦ (pruned, err shortage)
      | none ↦ (
        record pruned {
          reservations = commit t_hold request_id manifest_id request pruned.reservations;
        },
        ok tt,
      )
    ]

is_for : String → CapacityReservation → Bool
is_for manifest_id r = elim r.manifest_id [ none ↦ false | some m ↦ str_eq m manifest_id ]

unfoldable pub has_active_reservation_for_manifest :
    ResourceVerifier → ℕ → String → ResourceVerifier × Bool
unfolding is_for
has_active_reservation_for_manifest v now manifest_id =
    let live = prune_expired_reservations now v.reservations in
    (record v { reservations = live }, any (is_for manifest_id) (values live))

pub record CapacityCheckResult : Type 0 where
  pub has_capacity : Bool
  pub rejection_reason : Option Shortage
  pub available_cpu_milli : ℕ
  pub available_memory_bytes : ℕ
  pub available_storage_bytes : ℕ

unfoldable pub verify_capacity :
    ResourceVerifier → ℕ → ResourceRequest → ResourceVerifier × CapacityCheckResult
verify_capacity v now request =
    let live = prune_expired_reservations now v.reservations in
    let left = reservable v.system_resources (total_reserved_resources live) in
    let answer : Option Shortage → CapacityCheckResult = λ reason. record {
      has_capacity = if is_some reason then false else true;
      rejection_reason = reason;
      available_cpu_milli = left.cpu;
      available_memory_bytes = left.memory;
      available_storage_bytes = left.storage;
    } in
    (
      record v { reservations = live },
      elim (first_shortage request left) [
        | some shortage ↦ answer (some shortage)
        | none ↦
            if can_accept_more_workloads v.system_resources
            then answer none
            else answer (some (workload_count_reached v.system_resources.running_workloads))
      ],
    )
