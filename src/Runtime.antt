-- ===== src/Runtime.antt =====
-- machineplane/machine/src/runtime/mod.rs: the types that runtime engines share.
pub mod Registry
use beemesh.Prelude.{ℕ, String, Option, none, List, [], Result}
use beemesh.HashMap.{HashMap}

-- An `IoError` carries the text of the operating system's error.
pub data RuntimeError : Type 0 where
  engine_not_available invalid_manifest deployment_failed workload_not_found io_error
        command_failed :
      String → RuntimeError

abbrev pub RuntimeResult : Type 0 → Type 0
RuntimeResult A = Result A RuntimeError

pub data WorkloadStatus : Type 0 where
  starting running stopped : WorkloadStatus
  failed : String → WorkloadStatus
  unknown : WorkloadStatus

pub record PortMapping : Type 0 where
  pub container_port : ℕ
  pub host_port : Option ℕ
  pub protocol : String

-- A `SystemTime` is the number of nanoseconds since the epoch.
pub record WorkloadInfo : Type 0 where
  pub id : String
  pub manifest_id : String
  pub status : WorkloadStatus
  pub metadata : HashMap String
  pub created_at : ℕ
  pub updated_at : ℕ
  pub ports : List PortMapping

-- An `f64` is its bit pattern: nothing computes with it.
pub record ResourceLimits : Type 0 where
  pub cpu : Option ℕ
  pub memory : Option ℕ
  pub storage : Option ℕ

pub record DeploymentConfig : Type 0 where
  pub replicas : ℕ
  pub resources : ResourceLimits
  pub env : HashMap String
  pub runtime_options : HashMap String

abbrev pub default_deployment_config : DeploymentConfig
default_deployment_config = record {
  replicas = 1;
  resources = record { cpu = none; memory = none; storage = none };
  env = [];
  runtime_options = [];
}
