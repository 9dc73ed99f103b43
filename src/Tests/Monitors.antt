-- ===== src/Tests/Monitors.antt =====
-- The theorems on the monitors and on the executor, applied.
use myqueue.Prelude.{ℕ, ◌+◌, ◌*◌, ◌==◌, ◌<◌, ◌≡◌, ◌↔◌, refl, true, false, some, [], ◌∷◌, arith, ◌/◌}
use myqueue.Prelude.Int.{pos, negsuc, ltz}
use myqueue.Prelude.Set.{insert_all, contains}
use myqueue.Monitor.Gpu.{new_gpu_monitor, get_available_gpus}
use myqueue.Monitor.Cpu.{
  get_affinity_group, allocate_cpus, check_loop, new_cpu_monitor, get_affinity_group, check_count,
  check_cpu_available, get_available_cpus,
}
use myqueue.Monitor.Cpu.Available.{contains-get_available_cpus, InGroup}
use myqueue.Monitor.Cpu.Samples.{Count, check_cpu_available_iff}
use myqueue.Monitor.Cpu.Readings.{Passes}
use myqueue.Monitor.ProcStat.{Fpu, minus_one_double}
use myqueue.Monitor.Resource.Outcome.{Outcome, allocate-Outcome, has_cpu, has_gpu}
use myqueue.Monitor.Resource.Release.{release-allocate}
use myqueue.Monitor.Resource.{
  pick_cpus, enough_cpus, any_in_group2, any_in_group1, determine_affinity_group, try_auto_cpus,
  try_cpus, allocate_with_gpus, pick_gpus, try_auto_gpus, try_gpus, Allocation, allocate, release,
}
use myqueue.Executor.{wait_for}
use myqueue.Executor.Wait.{polls, wait_for-polls}
use myqueue.Tests.Worlds.{small_fpu, small_world, small_monitor, small_IsShuffle, small_os}

abbrev small_allocation : Allocation
small_allocation = record { cpus = pos 0 ∷ pos 1 ∷ []; gpus = pos 0 ∷ [] }

small_allocated :
    (allocate small_world small_monitor 1 (pos 2) (pos 1) [] []).0 ≡ some small_allocation
unfolding allocate try_gpus try_auto_gpus pick_gpus get_available_gpus new_gpu_monitor contains
    allocate_with_gpus try_cpus try_auto_cpus get_available_cpus determine_affinity_group
    any_in_group1 get_affinity_group any_in_group2 new_cpu_monitor enough_cpus pick_cpus
    check_cpu_available check_loop allocate_cpus insert_all
small_allocated = refl

allocate-Outcome_example :
    Outcome small_world small_monitor
      (pos 2)
      (pos 1)
      []
      []
      (allocate small_world small_monitor 1 (pos 2) (pos 1) [] [])
allocate-Outcome_example =
    allocate-Outcome small_world small_monitor (pos 2) (pos 1) [] [] 1 small_IsShuffle

release-allocate_example :
    let m =
      release
        (allocate small_world small_monitor 1 (pos 2) (pos 1) [] []).1
        (pos 0 ∷ pos 1 ∷ [])
        (pos 0 ∷ []) in
    (has_cpu m (pos 1) ≡ has_cpu small_monitor (pos 1))
    × (has_gpu m (pos 1) ≡ has_gpu small_monitor (pos 1))
release-allocate_example =
    release-allocate small_world small_monitor 1 (pos 2) (pos 1) [] [] small_allocation
      small_IsShuffle small_allocated (pos 1)

contains-get_available_cpus_example :
    ((contains (pos 3) (get_available_cpus small_monitor.cpu_monitor 1) ≡ true) ↔ (
      InGroup 1 3
      × ((ltz (pos 3) small_monitor.cpu_monitor.total_cpus ≡ true)
          × (contains (pos 3) small_monitor.cpu_monitor.allocated_cpus ≡ false))))
    × (contains (negsuc 3) (get_available_cpus small_monitor.cpu_monitor 1) ≡ false)
contains-get_available_cpus_example = contains-get_available_cpus small_monitor.cpu_monitor 1 3

-- Doubles with the comparison of -1 with 0.
abbrev signed_fpu : Fpu
signed_fpu = record small_fpu { flt = λ a b. a == minus_one_double }

check_cpu_available_iff_example :
    (((check_cpu_available signed_fpu small_world.proc_stat small_monitor.cpu_monitor 1 (pos 0)).0
        ≡ true)
      ↔ ((contains (pos 0) small_monitor.cpu_monitor.allocated_cpus ≡ false)
          × ((i : ℕ)
              → i < check_count small_monitor.cpu_monitor
              → Passes signed_fpu small_world.proc_stat small_monitor.cpu_monitor
                  (pos 0)
                  (1 + 2 * i))))
    × Count small_monitor.cpu_monitor.check_duration_ms small_monitor.cpu_monitor.check_interval_ms
        (check_count small_monitor.cpu_monitor)
check_cpu_available_iff_example =
    check_cpu_available_iff signed_fpu small_world.proc_stat small_monitor.cpu_monitor (pos 0) 1
      refl

wait_for-polls_example :
    wait_for small_os 7 (pos 42) (pos 250) ≡ polls small_os (pos 42) ((250 + 99) / 100) 7
wait_for-polls_example = wait_for-polls small_os (pos 42) 250 7 (omega arith)
