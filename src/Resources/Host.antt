-- ===== src/Resources/Host.antt =====
-- machineplane/machine/src/resource_verifier.rs: what the host and the runtime report. A file, and
-- the output of `df`, is a list of character codes, or `none` where it cannot be read.
mod Tests
use beemesh.Prelude.{
  ℕ, ◌+◌, ◌*◌, ◌%◌, ◌^◌, String, Option, none, some, List, [], ◌∷◌, Result, ok, err, ◌>>=◌, ◌==◌,
  if◌then◌else◌, unwrap_or, u32_max, u64_max, saturating_add, length, filter, get_elem?,
}
use beemesh.HashMap.{get}
use beemesh.Text.{codes, lines, starts_with, split_whitespace, parse_unsigned}
use beemesh.Runtime.{WorkloadInfo, RuntimeResult}
use beemesh.Resources.{SystemResources, ResourceVerifier}

-- what the deployed workloads' metadata add up to
pub record Allocated : Type 0 where
  pub cpu : ℕ
  pub memory : ℕ
  pub storage : ℕ
  pub workloads : ℕ

-- a metadata entry that is missing or no number counts as 0
abbrev metadata_number : ℕ → String → WorkloadInfo → ℕ
metadata_number bound key workload = elim (get key workload.metadata) [
  | none ↦ 0
  | some text ↦ unwrap_or (parse_unsigned bound (codes text)) 0
]

pub add_workloads : Allocated → List WorkloadInfo → Allocated
add_workloads acc [] = acc
add_workloads acc (w ∷ ws) =
    add_workloads
      (record {
        cpu = saturating_add u32_max acc.cpu (metadata_number u32_max "cpu_milli" w);
        memory = saturating_add u64_max acc.memory (metadata_number u64_max "memory_bytes" w);
        storage = saturating_add u64_max acc.storage (metadata_number u64_max "storage_bytes" w);
        workloads = (acc.workloads + 1) % 2 ^ 32;
      })
      ws

-- `registry` is the global registry if there is one, with the listing of its default engine if it
-- has one.
pub update_allocated_resources :
    (registry : Option (Option (RuntimeResult (List WorkloadInfo))))
    → SystemResources
    → SystemResources
update_allocated_resources none resources = resources
update_allocated_resources (some listing) resources =
    let total =
      add_workloads (record { cpu = 0; memory = 0; storage = 0; workloads = 0 })
        (elim listing [
          | none ↦ []
          | some result ↦ elim result [ ok workloads ↦ workloads | err _ ↦ [] ]
        ]) in
    record resources {
      allocated_cpu_milli = total.cpu;
      allocated_memory_bytes = total.memory;
      allocated_storage_bytes = total.storage;
      running_workloads = total.workloads;
    }

pub data HostError : Type 0 where
  unreadable not_found bad_number : HostError

-- the text of `/proc/cpuinfo`, or `none` where it cannot be read
pub get_cpu_info : Option (List ℕ) → Result (ℕ × ℕ) HostError
get_cpu_info none = err unreadable
get_cpu_info (some cpuinfo) =
    let num_cpus = length (filter (starts_with (codes "processor")) (lines cpuinfo)) % 2 ^ 32 in
    if num_cpus == 0 then err not_found else ok (num_cpus, (num_cpus * 1000) % 2 ^ 32)

-- the number in the second word of a line
second_number : (missing : HostError) → List ℕ → Option (Result ℕ HostError)
second_number missing line = elim (get_elem? (split_whitespace line) 1) [
  | none ↦ none
  | some word ↦ elim (parse_unsigned u64_max word) [
    | none ↦ some (err bad_number)
    | some n ↦ some (ok n)
  ]
]

memory_line : List (List ℕ) → Result ℕ HostError
memory_line [] = err not_found
memory_line (line ∷ rest) =
    let further = memory_line rest in
    if starts_with (codes "MemTotal:") line
    then (elim (second_number not_found line) [
      | none ↦ further
      | some found ↦ do kb ← found; ok ((kb * 1024) % 2 ^ 64)
    ])
    else further

-- the text of `/proc/meminfo`
pub get_memory_info : Option (List ℕ) → Result ℕ HostError
unfolding memory_line second_number
get_memory_info none = err unreadable
get_memory_info (some meminfo) = memory_line (lines meminfo)

-- the output of `df -B1 /var/lib/containers/storage`
pub get_storage_info : Option (List ℕ) → Result ℕ HostError
unfolding second_number
get_storage_info none = err unreadable
get_storage_info (some stdout) = elim (get_elem? (lines stdout) 1) [
  | none ↦ err not_found
  | some line ↦ unwrap_or (second_number not_found line) (err not_found)
]

-- a reading, or its default where the host gives none
abbrev or_default {ℓ} : {A : Type ℓ} → Result A HostError → A → A
or_default (ok a) d = a
or_default (err e) d = d

pub update_system_resources :
    (cpuinfo meminfo df : Option (List ℕ))
    → (registry : Option (Option (RuntimeResult (List WorkloadInfo)))) → ResourceVerifier
    → ResourceVerifier
update_system_resources cpuinfo meminfo df registry v =
    let (cores, milli) = or_default (get_cpu_info cpuinfo) (4, 4000) in
    record v {
      system_resources = update_allocated_resources registry (record v.system_resources {
        total_cpu_cores = cores;
        total_cpu_milli = milli;
        total_memory_bytes = or_default (get_memory_info meminfo) (8 * 1024 * 1024 * 1024);
        total_storage_bytes = or_default (get_storage_info df) (100 * 1024 * 1024 * 1024);
      });
    }
