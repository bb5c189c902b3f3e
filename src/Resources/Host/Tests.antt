-- ===== src/Resources/Host/Tests.antt =====
-- What is read from some files of `/proc`, from `df` and from two workloads.
use beemesh.Prelude.{◌*◌, ◌≡◌, refl, none, some, [], ◌∷◌, ok, err}
use beemesh.Text.{codes, lines, starts_with, split_whitespace, parse_unsigned}
use beemesh.Runtime.{WorkloadInfo, running}
use beemesh.Resources.{new_verifier, gigabyte}
use beemesh.Resources.Host.{
  update_system_resources, update_allocated_resources, get_cpu_info, get_memory_info,
  get_storage_info, add_workloads, memory_line, second_number, not_found,
}

cpu_of_two : get_cpu_info (some (codes "processor\t: 0\nflags\nprocessor\t: 1\n")) ≡ ok (2, 2000)
unfolding get_cpu_info lines starts_with
cpu_of_two = refl

no_cpu : get_cpu_info (some (codes "flags\n")) ≡ err not_found
unfolding get_cpu_info lines starts_with
no_cpu = refl

memory_read : get_memory_info (some (codes "MemFree: 1 kB\nMemTotal:   16 kB\n")) ≡ ok 16384
unfolding get_memory_info memory_line second_number lines starts_with split_whitespace
    parse_unsigned
memory_read = refl

storage_read : get_storage_info (some (codes "Filesystem 1B-blocks\n/dev/a 4096 1 1\n")) ≡ ok 4096
unfolding get_storage_info second_number lines split_whitespace parse_unsigned
storage_read = refl

abbrev workload : WorkloadInfo
workload = record {
  id = "w";
  manifest_id = "m";
  status = running;
  metadata = ("cpu_milli", "250") ∷ [];
  created_at = 0;
  updated_at = 0;
  ports = [];
}

updated :
    (update_system_resources none none none
      (some (some (ok (workload ∷ workload ∷ []))))
      new_verifier).system_resources
    ≡ record {
      total_cpu_cores = 4;
      total_cpu_milli = 4000;
      total_memory_bytes = 8 * gigabyte;
      total_storage_bytes = 100 * gigabyte;
      allocated_cpu_milli = 500;
      allocated_memory_bytes = 0;
      allocated_storage_bytes = 0;
      running_workloads = 2;
    }
unfolding update_system_resources update_allocated_resources add_workloads get_cpu_info
    get_memory_info get_storage_info parse_unsigned
updated = refl
