-- ===== src/Monitor/Cpu.antt =====
-- The CPU monitor: include/myqueue/cpu_monitor.h and src/core/cpu_monitor.cpp. The texts that
-- /proc/stat holds are a parameter, by moment, empty where the file does not open. A moment is the
-- count of the readings so far.
pub mod Available
pub mod Readings
pub mod Samples
pub mod Status
use myqueue.Prelude.{
  ℕ, zero, suc, ◌+◌, ◌-◌, ◌/◌, Bool, true, false, not, ◌||◌, Option, none, some, List, [], ◌∷◌,
  if◌then◌else◌, ◌==◌,
}
use Prim.Native.Nat.{min}
use myqueue.Prelude.Int.{ℤ, pos, negsuc, ltz, negate}
use myqueue.Prelude.Set.{contains, insert_all, erase_all}
use myqueue.Prelude.Text.{Bytes}
use myqueue.Monitor.ProcStat.{
  Double, Fpu, zero_double, minus_one_double, find_core, read_proc_stat, calculate_utilization,
}

pub record CpuMonitor : Type 0 where
  pub util_threshold : Double
  pub total_cpus : ℤ
  pub check_duration_ms : ℤ
  pub check_interval_ms : ℤ
  pub allocated_cpus : List ℤ
  pub mock_mode : Bool
  pub mock_utilization : List (ℤ × Double)

unfoldable pub new_cpu_monitor : Double → ℤ → ℤ → ℤ → CpuMonitor
new_cpu_monitor threshold total duration interval = record {
  util_threshold = threshold;
  total_cpus = total;
  check_duration_ms = duration;
  check_interval_ms = interval;
  allocated_cpus = [];
  mock_mode = false;
  mock_utilization = [];
}

unfoldable pub get_affinity_group : ℤ → ℕ
get_affinity_group gpu = if ltz gpu (pos 4) then 1 else 2

-- The first CPU of a group, and the one after its last.
unfoldable pub get_cpu_range_for_group : ℕ → ℕ × ℕ
get_cpu_range_for_group group =
    if group == 1 then (0, 32) else if group == 2 then (32, 64) else (0, 64)

-- The bound of a loop `for (int i = ...; i < end; ++i)`.
abbrev pub at_least_zero : ℤ → ℕ
at_least_zero (pos n) = n
at_least_zero (negsuc n) = 0

abbrev pub at_least_one : ℤ → ℕ
at_least_one (pos zero) = 1
at_least_one (pos (suc n)) = suc n
at_least_one (negsuc n) = 1

abbrev pub or_else : Double → Option Double → Double
or_else d none = d
or_else d (some v) = v

-- The first CPU of a group and the one after its last among the CPUs of the machine.
abbrev pub machine_range : CpuMonitor → ℕ → ℕ × ℕ
machine_range m group =
    let (start, end) = get_cpu_range_for_group group in
    (start, min end (at_least_zero m.total_cpus))

-- The CPUs from `i` on, `n` of them, that are not allocated.
free_from : List ℤ → ℕ → ℕ → List ℤ
free_from allocated i zero = []
free_from allocated i (suc n) =
    if not (contains (pos i) allocated)
    then pos i ∷ free_from allocated (suc i) n
    else free_from allocated (suc i) n

unfoldable pub get_available_cpus : CpuMonitor → ℕ → List ℤ
unfolding free_from get_cpu_range_for_group
get_available_cpus m group =
    let (start, end) = machine_range m group in free_from m.allocated_cpus start (end - start)

unfoldable pub allocate_cpus : CpuMonitor → List ℤ → CpuMonitor
allocate_cpus m ids = record m { allocated_cpus = insert_all ids m.allocated_cpus }

unfoldable pub release_cpus : CpuMonitor → List ℤ → CpuMonitor
release_cpus m ids = record m { allocated_cpus = erase_all ids m.allocated_cpus }

abbrev pub get_allocated_cpus : CpuMonitor → List ℤ
get_allocated_cpus m = m.allocated_cpus

-- The division of two ints, which rounds to 0. A divisor 0, for which the program has no defined
-- behaviour, gives 0.
abbrev pub int_div : ℤ → ℤ → ℤ
int_div (pos a) (pos b) = pos (a / b)
int_div (pos a) (negsuc b) = negate (a / suc b)
int_div (negsuc a) (pos b) = negate (suc a / b)
int_div (negsuc a) (negsuc b) = pos (suc a / suc b)

-- The number of checks: at least one.
abbrev pub check_count : CpuMonitor → ℕ
check_count m = at_least_one (int_div m.check_duration_ms m.check_interval_ms)

module _ (fpu : Fpu) (proc_stat : ℕ → Bytes) (m : CpuMonitor) where
  -- The utilization of a core and the next moment: two readings at most.
  unfoldable pub get_cpu_utilization : ℕ → ℤ → Double × ℕ
  get_cpu_utilization now core =
      if m.mock_mode
      then (or_else zero_double (find_core core m.mock_utilization), now)
      else elim (find_core core (read_proc_stat (proc_stat now))) [
        | none ↦ (minus_one_double, now + 1)
        | some s1 ↦ elim (find_core core (read_proc_stat (proc_stat (now + 1)))) [
          | none ↦ (minus_one_double, now + 2)
          | some s2 ↦ (calculate_utilization fpu s1 s2, now + 2)
        ]
      ]

  -- `util < 0 || util >= util_threshold_`
  abbrev pub too_busy : Double → Bool
  too_busy util = fpu.flt util zero_double || fpu.fge util m.util_threshold

  -- The loop with `n` checks left.
  unfoldable pub check_loop : ℕ → ℕ → ℤ → Bool × ℕ
  check_loop zero now core = (true, now)
  check_loop (suc n) now core =
      let (util, now') = get_cpu_utilization now core in
      elim (too_busy util) [ true ↦ (false, now') | false ↦ check_loop n now' core ]

  unfoldable pub check_cpu_available : ℕ → ℤ → Bool × ℕ
  check_cpu_available now core =
      if contains core m.allocated_cpus then (false, now) else check_loop (check_count m) now core
