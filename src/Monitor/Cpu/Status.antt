-- ===== src/Monitor/Cpu/Status.antt =====
-- getCPUStatus of src/core/cpu_monitor.cpp, and what it says of each CPU.
use myqueue.Prelude.{
  ℕ, zero, suc, ◌+◌, ◌<◌, ◌≡◌, refl, ap, Bool, Option, none, some, List, [], ◌∷◌, nth,
  if◌then◌else◌, ltb, if_ind, subst, arith,
}
use myqueue.Prelude.Int.{ℤ, pos}
use myqueue.Prelude.Set.{contains}
use myqueue.Prelude.Text.{Bytes}
use myqueue.Monitor.ProcStat.{
  Double, Fpu, CpuStats, zero_double, find_core, read_proc_stat, calculate_utilization,
}
use myqueue.Monitor.Cpu.{CpuMonitor, at_least_zero, or_else}

pub record CpuInfo : Type 0 where
  pub core_id : ℤ
  pub utilization : Double
  pub is_allocated : Bool
  pub affinity_group : ℕ

module _ (fpu : Fpu) where
  -- The utilization of a core that both readings have.
  abbrev utilization_between : List (ℤ × CpuStats) → List (ℤ × CpuStats) → ℤ → Option Double
  utilization_between stats1 stats2 core = elim (find_core core stats2) [
    | none ↦ none
    | some curr ↦ elim (find_core core stats1) [
      | none ↦ none
      | some prev ↦ some (calculate_utilization fpu prev curr)
    ]
  ]

  -- The loop over the CPUs from `i` on, `n` of them.
  unfoldable pub status_from : (ℤ → Option Double) → List ℤ → ℕ → ℕ → List CpuInfo
  status_from utilizations allocated i zero = []
  status_from utilizations allocated i (suc n) =
      record {
        core_id = pos i;
        utilization = or_else zero_double (utilizations (pos i));
        is_allocated = contains (pos i) allocated;
        affinity_group = if ltb i 32 then 1 else 2;
      }
      ∷ status_from utilizations allocated (suc i) n

  -- With the next moment: two readings outside the mock mode.
  unfoldable pub get_cpu_status : (ℕ → Bytes) → CpuMonitor → ℕ → List CpuInfo × ℕ
  unfolding status_from
  get_cpu_status proc_stat m now =
      let n = at_least_zero m.total_cpus in
      let measured =
        utilization_between (read_proc_stat (proc_stat now))
          (read_proc_stat (proc_stat (now + 1))) in
      if m.mock_mode
      then (status_from (λ core. find_core core m.mock_utilization) m.allocated_cpus 0 n, now)
      else (status_from measured m.allocated_cpus 0 n, now + 2)

  status_from-nth :
      (u : ℤ → Option Double) (allocated : List ℤ) (i n k : ℕ)
      → k < n
      → nth k (status_from u allocated i n)
        ≡ some (record {
          core_id = pos (i + k);
          utilization = or_else zero_double (u (pos (i + k)));
          is_allocated = contains (pos (i + k)) allocated;
          affinity_group = if ltb (i + k) 32 then 1 else 2;
        })
  unfolding status_from
  status_from-nth u allocated i zero k h = absurd (omega arith)
  status_from-nth u allocated i (suc n) zero h = let e : i + 0 ≡ i = omega arith in rw e refl
  status_from-nth u allocated i (suc n) (suc k) h =
      let e : suc i + k ≡ i + suc k = omega arith in
      subst
        (λ j.
          nth k (status_from u allocated (suc i) n)
          ≡ some (record {
            core_id = pos j;
            utilization = or_else zero_double (u (pos j));
            is_allocated = contains (pos j) allocated;
            affinity_group = if ltb j 32 then 1 else 2;
          }))
        e (status_from-nth u allocated (suc i) n k (omega arith))

  -- The report has an entry for each CPU of the machine, at its own place, which tells whether the CPU
  -- is allocated and its affinity group.
  pub get_cpu_status_entry :
      (proc_stat : ℕ → Bytes) (m : CpuMonitor) (now k : ℕ)
      → k < at_least_zero m.total_cpus
      → (info : CpuInfo) × ((nth k (get_cpu_status proc_stat m now).0 ≡ some info)
          × ((info.core_id ≡ pos k) × (info.is_allocated ≡ contains (pos k) m.allocated_cpus)))
  unfolding get_cpu_status
  get_cpu_status_entry proc_stat m now k h =
      if_ind
        (λ (r : List CpuInfo × ℕ).
          (info : CpuInfo) × ((nth k r.0 ≡ some info)
            × ((info.core_id ≡ pos k) × (info.is_allocated ≡ contains (pos k) m.allocated_cpus))))
        m.mock_mode (λ e. entry (λ core. find_core core m.mock_utilization))
        (λ e. entry (
          utilization_between (read_proc_stat (proc_stat now))
            (read_proc_stat (proc_stat (now + 1)))))
    where
      same : 0 + k ≡ k
      same = omega arith

      entry :
          (u : ℤ → Option Double)
          → (info : CpuInfo) × ((nth k
                  (status_from u m.allocated_cpus 0 (at_least_zero m.total_cpus))
                ≡ some info)
              × ((info.core_id ≡ pos k) × (info.is_allocated ≡ contains (pos k) m.allocated_cpus)))
      entry u = (
        _,
        (
          status_from-nth u m.allocated_cpus 0 (at_least_zero m.total_cpus) k h,
          (ap pos same, ap (λ j. contains (pos j) m.allocated_cpus) same),
        ),
      )
