-- ===== src/Server/Setup.antt =====
-- The members that the constructor of Server in src/core/server.cpp makes of the configuration, with
-- the constructors of ResourceMonitor, CPUMonitor and GPUMonitor on it. The directories that it
-- makes with mkdir and its log messages are left out.
use myqueue.Prelude.{not, [], is_empty, if◌then◌else◌, false}
use myqueue.Prelude.Int.{pos}
use myqueue.Config.{Config}
use myqueue.Queue.{new_queue}
use myqueue.Queue.Persist.{Files}
use myqueue.Monitor.Cpu.{CpuMonitor, new_cpu_monitor}
use myqueue.Monitor.Gpu.{GpuMonitor, new_gpu_monitor}
use myqueue.Monitor.Resource.{Monitor, set_excluded_cpus, set_excluded_gpus}
use myqueue.Scheduler.{System}

unfoldable pub configured_gpu_monitor : Config → GpuMonitor
configured_gpu_monitor config = new_gpu_monitor config.gpu_memory_threshold_mb config.total_gpus

unfoldable pub configured_cpu_monitor : Config → CpuMonitor
configured_cpu_monitor config =
    new_cpu_monitor config.cpu_util_threshold config.total_cpus config.cpu_check_duration_ms
      (pos 500)

unfoldable pub new_monitor : Config → Monitor
new_monitor config = record {
  gpu_monitor = configured_gpu_monitor config;
  cpu_monitor = configured_cpu_monitor config;
  excluded_cpus = [];
  excluded_gpus = [];
}

-- "Set excluded resources"
unfoldable pub exclude : Config → Monitor → Monitor
exclude config m =
    let m' =
      if not (is_empty config.excluded_cpus) then set_excluded_cpus m config.excluded_cpus else m in
    if not (is_empty config.excluded_gpus) then set_excluded_gpus m' config.excluded_gpus else m'

-- No callback is set. The files are those of the disk, and the moments are counted from here.
unfoldable pub new_server : Config → Files → System
new_server config files = record {
  queue = new_queue config.data_dir;
  monitor = exclude config (new_monitor config);
  files = files;
  has_callback = false;
  notices = [];
  now = 0;
}
