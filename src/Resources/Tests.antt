-- ===== src/Resources/Tests.antt =====
-- Runs of the verifier on a node of 10 cores, with 16 GB of memory and 100 GB of storage.
use beemesh.Prelude.{
  ◌*◌, ◌-◌, ◌≤◌, ◌≡◌, refl, ◌↔◌, String, true, false, none, some, [], ok, err, is_ok, is_some,
  if◌then◌else◌, arith, eq_iff,
}
use beemesh.Resources.{
  SystemResources, ResourceRequest, ResourceVerifier, insufficient_cpu, new_request,
  reserve_capacity, verify_capacity, admit, commit, has_active_reservation_for_manifest,
  prune_expired_reservations, available_cpu_milli, available_memory_bytes, available_storage_bytes,
  total_cpu_milli, total_memory_bytes, total_storage_bytes, first_shortage, reservable,
  total_reserved_resources, fold_reserved, gigabyte,
}
use beemesh.Resources.Reserve.{Fits, reserve_capacity-Fits, has_active-reserve_capacity}
use beemesh.Resources.Verify.{
  verify_capacity_iff, reserve_capacity-verify_capacity, live_cpu, live_memory, live_storage,
}
use beemesh.Resources.Race.{Call, answered, both_compare_first, reserve_capacity_race}

abbrev node : SystemResources
node = record {
  total_cpu_cores = 10;
  total_cpu_milli = 10000;
  total_memory_bytes = 16 * gigabyte;
  total_storage_bytes = 100 * gigabyte;
  allocated_cpu_milli = 0;
  allocated_memory_bytes = 0;
  allocated_storage_bytes = 0;
  running_workloads = 0;
}

abbrev empty : ResourceVerifier
empty = record { system_resources = node; reservations = [] }

-- 5 of the 9 cores that the node gives away
abbrev half : ResourceRequest
half = record { cpu_milli = 5000; memory_bytes = gigabyte; storage_bytes = gigabyte; replicas = 1 }

abbrev call : String → Call
call name = record { request_id = name; manifest_id = some "m"; request = half }

new_request_defaults :
    new_request none none none 0
    ≡ record { cpu_milli = 100; memory_bytes = 134217728; storage_bytes = 1073741824; replicas = 1 }
unfolding new_request
new_request_defaults = refl

node_cpu : available_cpu_milli node ≡ 9000
unfolding available_cpu_milli
node_cpu = refl

half_admitted : admit empty half ≡ none
unfolding admit first_shortage reservable available_cpu_milli available_memory_bytes
    available_storage_bytes total_reserved_resources fold_reserved total_cpu_milli
    total_memory_bytes total_storage_bytes
half_admitted = refl

reserved_half : (reserve_capacity empty 0 0 "r" (some "m") half).1 ≡ ok tt
unfolding reserve_capacity prune_expired_reservations commit admit first_shortage reservable
    available_cpu_milli available_memory_bytes available_storage_bytes total_reserved_resources
    fold_reserved total_cpu_milli total_memory_bytes total_storage_bytes
reserved_half = refl

second_refused :
    (reserve_capacity (reserve_capacity empty 0 0 "r" none half).0 0 0 "s" none half).1
    ≡ err (insufficient_cpu 5000 4000)
unfolding reserve_capacity prune_expired_reservations commit admit first_shortage reservable
    available_cpu_milli available_memory_bytes available_storage_bytes total_reserved_resources
    fold_reserved total_cpu_milli total_memory_bytes total_storage_bytes
second_refused = refl

empty-Fits : Fits node []
empty-Fits = record { cpu = omega arith; memory = omega arith; storage = omega arith }

reserve_capacity-Fits_example :
    Fits node (reserve_capacity empty 0 0 "r" (some "m") half).0.reservations
reserve_capacity-Fits_example = reserve_capacity-Fits empty 0 0 "r" (some "m") half empty-Fits

has_active-reserve_capacity_example :
    (has_active_reservation_for_manifest
      (reserve_capacity empty 0 0 "r" (some "m") half).0
      2_999_999_999
      "m").1
    ≡ true
has_active-reserve_capacity_example =
    has_active-reserve_capacity empty 0 0 "r" (some "m") half "m" 2_999_999_999 refl reserved_half
      (omega arith)

verify_capacity_iff_example :
    (((verify_capacity empty 0 half).1.has_capacity ≡ true) ↔ (
      (total_cpu_milli half ≤ available_cpu_milli node - live_cpu empty 0 half)
      × (total_memory_bytes half ≤ available_memory_bytes node - live_memory empty 0 half)
      × (total_storage_bytes half ≤ available_storage_bytes node - live_storage empty 0 half)))
    × (is_some (verify_capacity empty 0 half).1.rejection_reason
        ≡ (if (verify_capacity empty 0 half).1.has_capacity then false else true))
verify_capacity_iff_example = verify_capacity_iff empty 0 half

reserve_capacity-verify_capacity_example :
    is_ok (reserve_capacity empty 0 0 "r" (some "m") half).1
    ≡ (verify_capacity empty 0 half).1.has_capacity
unfolding prune_expired_reservations
reserve_capacity-verify_capacity_example =
    reserve_capacity-verify_capacity empty 0 half 0 "r" (some "m") refl

reserve_capacity_race_example :
    ((both_compare_first 0 0 (call "r") (call "s") empty).1 ≡ answered (ok tt))
    × ((both_compare_first 0 0 (call "r") (call "s") empty).2 ≡ answered (ok tt))
    × (¬ Fits node (both_compare_first 0 0 (call "r") (call "s") empty).0.reservations)
unfolding available_cpu_milli total_cpu_milli
reserve_capacity_race_example =
    reserve_capacity_race 0 0 (call "r") (call "s") node (λ e. ground (arith, eq_iff "r" "s"))
      half_admitted half_admitted (omega arith)
