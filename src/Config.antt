-- ===== src/Config.antt =====
-- The configuration of internal/config/config.go. An `int` is a signed integer. The two thresholds are
-- floating-point percentages in Go; here they are integers in a unit fine enough for the values at
-- hand, say millionths, and are only compared. Fields that no modelled code reads are left out.
pub mod Defaults
pub mod Validation
pub mod Services
pub mod Loading
pub mod Save
mod Tests
use dockward.Prelude.{ℕ, Bool, List}
use dockward.Prelude.Int.{ℤ}
use dockward.Prelude.Text.{Text}

pub record Service : Type 0 where
  pub name : Text
  pub images : List Text
  pub silent : Bool
  pub compose_files : List Text
  pub compose_project : Text
  pub container_name : Text
  pub env_file : Text
  pub auto_update : Bool
  pub auto_start : Bool
  pub auto_heal : Bool
  pub compose_watch : Bool
  pub cpu_threshold : ℤ
  pub memory_threshold : ℤ
  pub health_grace : ℤ
  pub heal_cooldown : ℤ
  pub heal_max_restarts : ℤ

-- Why a service is invalid: the cases of the messages, with the index of a compose file.
pub data Reason : Type 0 where
  name_required invalid_project : Reason
  file_not_absolute file_traversal file_not_found file_stat_error file_not_regular : ℕ → Reason
  env_not_absolute env_traversal env_not_found env_stat_error env_not_regular : Reason
  images_required compose_files_required project_required project_or_container_required : Reason
  bad_cpu_threshold bad_memory_threshold : Reason
  negative_grace negative_cooldown negative_max_restarts : Reason

-- `ServiceValidationError`
pub record ServiceValidationError : Type 0 where
  pub index : ℕ
  pub reason : Reason
  pub service : Service

-- `Config`, with the fields of `Registry`, `Monitor`, `DockerHealth` and `API` in it.
pub record Config : Type 0 where
  pub runtime : Text
  pub registry_url : Text
  pub poll_interval : ℤ
  pub stats_interval : ℤ
  pub check_interval : ℤ
  pub timeout : ℤ
  pub address : List Text
  pub services : List Service
  pub invalid_services : List ServiceValidationError
