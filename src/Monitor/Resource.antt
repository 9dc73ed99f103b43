-- ===== src/Monitor/Resource.antt =====
-- The allocator: include/myqueue/resource_monitor.h and src/core/resource_monitor.cpp. Its mutex is
-- held for the whole of `allocate` and of `release`. The world outside is a parameter: what nvidia-smi
-- and /proc/stat say at each moment, the doubles, and std::shuffle.
pub mod Gpus
pub mod Cpus
pub mod Outcome
pub mod Release
pub mod Affinity
use myqueue.Prelude.{
  ℕ, ◌+◌, Bool, true, false, not, ◌&&◌, ◌||◌, Option, none, some, List, [], ◌∷◌, ◌++◌, length,
  is_empty, keep, if◌then◌else◌, ◌==◌,
}
use myqueue.Prelude.Int.{ℤ, pos, ltz, lez}
use myqueue.Prelude.Set.{contains, insert_all}
use myqueue.Prelude.Text.{Bytes}
use myqueue.Monitor.ProcStat.{Fpu}
use myqueue.Monitor.Gpu.{GpuMonitor, is_gpu_busy, get_available_gpus, allocate_gpus, release_gpus}
use myqueue.Monitor.Cpu.{
  CpuMonitor, get_available_cpus, allocate_cpus, release_cpus, check_cpu_available,
  get_affinity_group,
}

pub record World : Type 0 where
  pub fpu : Fpu
  pub proc_stat : ℕ → Bytes
  pub nvidia_smi : ℕ → Bytes
  pub shuffle : ℕ → List ℤ → List ℤ

pub record Monitor : Type 0 where
  pub gpu_monitor : GpuMonitor
  pub cpu_monitor : CpuMonitor
  pub excluded_cpus : List ℤ
  pub excluded_gpus : List ℤ

pub record Allocation : Type 0 where
  pub cpus : List ℤ
  pub gpus : List ℤ

abbrev pub size_of : List ℤ → ℤ
size_of is = pos (length is)

-- Whether some id is in the set.
unfoldable pub any_in : List ℤ → List ℤ → Bool
any_in excluded [] = false
any_in excluded (id ∷ ids) = contains id excluded || any_in excluded ids

-- The two flags of determineAffinityGroup.
unfoldable pub any_in_group1 : List ℤ → Bool
any_in_group1 [] = false
any_in_group1 (id ∷ ids) = get_affinity_group id == 1 || any_in_group1 ids

unfoldable pub any_in_group2 : List ℤ → Bool
any_in_group2 [] = false
any_in_group2 (id ∷ ids) = not (get_affinity_group id == 1) || any_in_group2 ids

-- 0 stands for any CPU.
unfoldable pub determine_affinity_group : List ℤ → ℕ
determine_affinity_group gpus =
    if is_empty gpus
    then 0
    else if any_in_group1 gpus && any_in_group2 gpus
    then 0
    else if any_in_group1 gpus
    then 1
    else 2

-- Whether `allocate` finds what it got too little: not all of the specific ids, or less than the count.
abbrev pub too_few : List ℤ → ℤ → List ℤ → Bool
too_few got count specific =
    if not (is_empty specific) then not (length got == length specific) else ltz (size_of got) count

-- The loop that picks GPUs in order, with those picked so far.
unfoldable pub pick_gpus : List ℤ → ℤ → List ℤ → List ℤ → List ℤ
pick_gpus excluded ngpu allocated [] = allocated
pick_gpus excluded ngpu allocated (id ∷ ids) =
    if contains id excluded
    then pick_gpus excluded ngpu allocated ids
    else if lez ngpu (size_of allocated)
    then allocated
    else pick_gpus excluded ngpu (allocated ++ id ∷ []) ids

-- The last test of allocateCPUs: CPUs that do not suffice are given back.
unfoldable pub enough_cpus : ℤ → List ℤ × CpuMonitor × ℕ → List ℤ × CpuMonitor × ℕ
enough_cpus ncpu (allocated, c, now) =
    if ltz (size_of allocated) ncpu
    then ([], if not (is_empty allocated) then release_cpus c allocated else c, now)
    else (allocated, c, now)

module _ (w : World) where
  -- `for (int gpu_id : specific_gpus) if (isGPUBusy(gpu_id)) return {}`, and the moment after it.
  unfoldable pub any_busy : GpuMonitor → ℕ → List ℤ → Bool × ℕ
  any_busy g now [] = (false, now)
  any_busy g now (id ∷ ids) = elim (is_gpu_busy g (w.nvidia_smi now) id) [
    | true ↦ (true, now + 1)
    | false ↦ any_busy g (now + 1) ids
  ]

  -- The private allocateGPUs in its two parts: the ids, the monitor and the next moment.
  unfoldable pub try_specific_gpus : Monitor → ℕ → List ℤ → List ℤ × GpuMonitor × ℕ
  try_specific_gpus m now specific =
      let (busy, now') = any_busy m.gpu_monitor now specific in
      if any_in m.excluded_gpus specific
      then ([], m.gpu_monitor, now)
      else if busy
      then ([], m.gpu_monitor, now')
      else (specific, allocate_gpus m.gpu_monitor specific, now')

  unfoldable pub try_auto_gpus : Monitor → ℕ → ℤ → List ℤ × GpuMonitor × ℕ
  try_auto_gpus m now ngpu =
      let available = get_available_gpus m.gpu_monitor (w.nvidia_smi now) in
      let picked = pick_gpus m.excluded_gpus ngpu [] available in
      if ltz (size_of picked) ngpu
      then ([], m.gpu_monitor, now + 1)
      else (picked, allocate_gpus m.gpu_monitor picked, now + 1)

  unfoldable pub try_gpus : Monitor → ℕ → ℤ → List ℤ → List ℤ × GpuMonitor × ℕ
  try_gpus m now ngpu specific =
      if not (is_empty specific) then try_specific_gpus m now specific else try_auto_gpus m now ngpu

  -- `for (int cpu_id : specific_cpus) if (!checkCPUAvailable(cpu_id)) return {}`
  unfoldable pub all_available : CpuMonitor → ℕ → List ℤ → Bool × ℕ
  all_available c now [] = (true, now)
  all_available c now (id ∷ ids) =
      let (available, now') = check_cpu_available w.fpu w.proc_stat c now id in
      elim available [ true ↦ all_available c now' ids | false ↦ (false, now') ]

  -- The loop that checks the candidates and allocates each that passes.
  unfoldable pub pick_cpus : ℤ → List ℤ → CpuMonitor → ℕ → List ℤ → List ℤ × CpuMonitor × ℕ
  pick_cpus ncpu allocated c now [] = (allocated, c, now)
  pick_cpus ncpu allocated c now (id ∷ ids) =
      let (available, now') = check_cpu_available w.fpu w.proc_stat c now id in
      elim (lez ncpu (size_of allocated)) [
        | true ↦ (allocated, c, now)
        | false ↦ elim available [
          | true ↦ pick_cpus ncpu (allocated ++ id ∷ []) (allocate_cpus c (id ∷ [])) now' ids
          | false ↦ pick_cpus ncpu allocated c now' ids
        ]
      ]

  -- The private allocateCPUs in its two parts.
  unfoldable pub try_specific_cpus : Monitor → ℕ → List ℤ → List ℤ × CpuMonitor × ℕ
  try_specific_cpus m now specific =
      let (available, now') = all_available m.cpu_monitor now specific in
      if any_in m.excluded_cpus specific
      then ([], m.cpu_monitor, now)
      else if available
      then (specific, allocate_cpus m.cpu_monitor specific, now')
      else ([], m.cpu_monitor, now')

  unfoldable pub try_auto_cpus : Monitor → ℕ → ℤ → ℕ → List ℤ × CpuMonitor × ℕ
  try_auto_cpus m now ncpu group =
      let free = get_available_cpus m.cpu_monitor group in
      let candidates = keep (λ id. not (contains id m.excluded_cpus)) free in
      if ltz (size_of candidates) ncpu
      then ([], m.cpu_monitor, now)
      else enough_cpus ncpu (pick_cpus ncpu [] m.cpu_monitor (now + 1) (w.shuffle now candidates))

  unfoldable pub try_cpus : Monitor → ℕ → ℤ → ℕ → List ℤ → List ℤ × CpuMonitor × ℕ
  try_cpus m now ncpu group specific =
      if not (is_empty specific)
      then try_specific_cpus m now specific
      else try_auto_cpus m now ncpu group

  -- Steps 2 and 3 of `allocate`, after the GPUs.
  unfoldable pub allocate_with_gpus :
      Monitor → ℕ → List ℤ → ℤ → List ℤ → Option Allocation × Monitor × ℕ
  allocate_with_gpus m now gpus ncpu specific_cpus =
      let (cpus, c, now') = try_cpus m now ncpu (determine_affinity_group gpus) specific_cpus in
      if not (ltz (pos 0) ncpu || not (is_empty specific_cpus))
      then (some (record { cpus = []; gpus = gpus }), m, now)
      else if too_few cpus ncpu specific_cpus
      then (
        none,
        record m {
          gpu_monitor =
              if not (is_empty gpus) then release_gpus m.gpu_monitor gpus else m.gpu_monitor;
          cpu_monitor = c;
        },
        now',
      )
      else (some (record { cpus = cpus; gpus = gpus }), record m { cpu_monitor = c }, now')

  -- The result, the monitor and the next moment.
  unfoldable pub allocate : Monitor → ℕ → ℤ → ℤ → List ℤ → List ℤ → Option Allocation × Monitor × ℕ
  allocate m now ncpu ngpu specific_cpus specific_gpus =
      let (gpus, g, now') = try_gpus m now ngpu specific_gpus in
      if not (ltz (pos 0) ngpu || not (is_empty specific_gpus))
      then allocate_with_gpus m now [] ncpu specific_cpus
      else if too_few gpus ngpu specific_gpus
      then (none, record m { gpu_monitor = g }, now')
      else allocate_with_gpus (record m { gpu_monitor = g }) now' gpus ncpu specific_cpus

unfoldable pub release : Monitor → List ℤ → List ℤ → Monitor
release m cpus gpus = record m {
  cpu_monitor = if not (is_empty cpus) then release_cpus m.cpu_monitor cpus else m.cpu_monitor;
  gpu_monitor = if not (is_empty gpus) then release_gpus m.gpu_monitor gpus else m.gpu_monitor;
}

unfoldable pub set_excluded_cpus : Monitor → List ℤ → Monitor
set_excluded_cpus m cpus = record m { excluded_cpus = insert_all cpus [] }

unfoldable pub set_excluded_gpus : Monitor → List ℤ → Monitor
set_excluded_gpus m gpus = record m { excluded_gpus = insert_all gpus [] }
