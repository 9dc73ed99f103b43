-- ===== src/Config.antt =====
-- The configuration: include/myqueue/config.h and src/core/config.cpp.
pub mod Arguments
pub mod Record
use myqueue.Prelude.{ℕ, Bool, false, List, []}
use myqueue.Prelude.Int.{ℤ, pos}
use myqueue.Prelude.Text.{Bytes}
use myqueue.Monitor.ProcStat.{Double}

pub record Config : Type 0 where
  pub gpu_memory_threshold_mb : ℕ
  pub cpu_util_threshold : Double
  pub cpu_check_duration_ms : ℤ
  pub scheduling_interval_ms : ℤ
  pub process_check_interval_ms : ℤ
  pub total_cpus : ℤ
  pub total_gpus : ℤ
  pub socket_path : Bytes
  pub data_dir : Bytes
  pub log_dir : Bytes
  pub enable_logging : Bool
  pub enable_job_log : Bool
  pub excluded_cpus : List ℤ
  pub excluded_gpus : List ℤ

-- The initial values of the members; 40.0 is a double.
abbrev pub default_config : Config
default_config = record {
  gpu_memory_threshold_mb = 2000;
  cpu_util_threshold = 0x4044000000000000;
  cpu_check_duration_ms = pos 3000;
  scheduling_interval_ms = pos 1000;
  process_check_interval_ms = pos 500;
  total_cpus = pos 64;
  total_gpus = pos 8;
  socket_path = [];
  data_dir = [];
  log_dir = [];
  enable_logging = false;
  enable_job_log = false;
  excluded_cpus = [];
  excluded_gpus = [];
}
