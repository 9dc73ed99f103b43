-- ===== src/Monitor/Cpu/Readings.antt =====
-- One check of checkCPUAvailable in cpu_monitor.cpp: the utilization between two readings.
use mathlib.Core.Bool.{false≢true}
use mathlib.Core.Option.{some-injective}
use myqueue.Prelude.{
  ℕ, ◌+◌, ◌≡◌, ◌↔◌, ◌⊎◌, refl, true, false, none, some, arith, Bool-cases, Option-cases, sym, ◌∙◌,
  inl, inr, subst,
}
use myqueue.Prelude.Int.{ℤ}
use myqueue.Prelude.Text.{Bytes}
use myqueue.Monitor.ProcStat.{
  Double, Fpu, CpuStats, find_core, read_proc_stat, calculate_utilization, zero_double,
  minus_one_double,
}
use myqueue.Monitor.Cpu.{CpuMonitor, get_cpu_utilization, too_busy}

module _ (fpu : Fpu) (proc_stat : ℕ → Bytes) (m : CpuMonitor) (core : ℤ) where
  -- Not negative, and below the threshold.
  abbrev pub Below : Double → Type 0
  Below util = (fpu.flt util zero_double ≡ false) × (fpu.fge util m.util_threshold ≡ false)

  -- The readings at a moment and at the next have the core, with a utilization between them that is
  -- below the threshold.
  pub record Sampled (now : ℕ) : Type 0 where
    pub prev : CpuStats
    pub curr : CpuStats
    pub before : find_core core (read_proc_stat (proc_stat now)) ≡ some prev
    pub after : find_core core (read_proc_stat (proc_stat (now + 1))) ≡ some curr
    pub below : Below (calculate_utilization fpu prev curr)

  -- The utilization that is set for the core in the mock mode, 0 if none is, is below the threshold.
  abbrev pub MockSampled : Type 0
  MockSampled =
      (util : Double) × ((find_core core m.mock_utilization ≡ some util)
        ⊎ ((find_core core m.mock_utilization ≡ none) × (util ≡ zero_double)))
      × Below util

  -- A check at a moment passes.
  abbrev pub Passes : ℕ → Type 0
  Passes now = ((m.mock_mode ≡ true) × MockSampled) ⊎ ((m.mock_mode ≡ false) × Sampled now)

  Below-iff : (util : Double) → (too_busy fpu proc_stat m util ≡ false) ↔ Below util
  Below-iff util = (λ h. ground arith, λ h. ground arith)

  abbrev pub utilization : ℕ → Double
  utilization now = (get_cpu_utilization fpu proc_stat m now core).0

  -- A check passes exactly when a value that it finds is below the threshold.
  value_iff :
      (P : Type 0) (util value : Double)
      → util ≡ value
      → (P → Below value)
      → (Below value → P)
      → (too_busy fpu proc_stat m util ≡ false) ↔ P
  value_iff P util value e to from = (
    λ h. from (subst Below e ((Below-iff util).0 h)),
    λ p. (Below-iff util).1 (subst Below (sym e) (to p)),
  )

  mock_next :
      (now : ℕ) → m.mock_mode ≡ true → (get_cpu_utilization fpu proc_stat m now core).1 ≡ now
  unfolding get_cpu_utilization
  mock_next now e = rw e refl

  mock_none :
      (now : ℕ)
      → m.mock_mode ≡ true
      → find_core core m.mock_utilization ≡ none
      → utilization now ≡ zero_double
  unfolding get_cpu_utilization
  mock_none now e f = rw e (rw f refl)

  mock_some :
      (now : ℕ) (v : Double)
      → m.mock_mode ≡ true
      → find_core core m.mock_utilization ≡ some v
      → utilization now ≡ v
  unfolding get_cpu_utilization
  mock_some now v e f = rw e (rw f refl)

  mock_mode_lem :
      (now : ℕ)
      → m.mock_mode ≡ true
      → (too_busy fpu proc_stat m (utilization now) ≡ false) ↔ Passes now
  mock_mode_lem now e = elim (Option-cases (find_core core m.mock_utilization)) [
    | inl f ↦
        value_iff (Passes now) (utilization now) zero_double (mock_none now e f) (none_set f)
          (λ b. inl (e, (zero_double, inr (f, refl), b)))
    | inr (v, f) ↦
        value_iff (Passes now) (utilization now) v (mock_some now v e f) (some_set v f)
          (λ b. inl (e, (v, inl f, b)))
  ]
    where
      none_set : find_core core m.mock_utilization ≡ none → Passes now → Below zero_double
      none_set f (inl (t, (u, inl g, b))) = absurd (ground arith)
      none_set f (inl (t, (u, inr (g, z), b))) = subst Below z b
      none_set f (inr (t, s)) = absurd (false≢true (sym t ∙ e))

      some_set : (v : Double) → find_core core m.mock_utilization ≡ some v → Passes now → Below v
      some_set v f (inl (t, (u, inl g, b))) = subst Below (some-injective u v (sym g ∙ f)) b
      some_set v f (inl (t, (u, inr (g, z), b))) = absurd (ground arith)
      some_set v f (inr (t, s)) = absurd (false≢true (sym t ∙ e))

  file_first :
      (now : ℕ)
      → m.mock_mode ≡ false
      → find_core core (read_proc_stat (proc_stat now)) ≡ none
      → (get_cpu_utilization fpu proc_stat m now core).0 ≡ minus_one_double
  unfolding get_cpu_utilization
  file_first now e f = rw e (rw f refl)

  file_second :
      (now : ℕ) (s1 : CpuStats)
      → m.mock_mode ≡ false
      → find_core core (read_proc_stat (proc_stat now)) ≡ some s1
      → find_core core (read_proc_stat (proc_stat (now + 1))) ≡ none
      → (get_cpu_utilization fpu proc_stat m now core).0 ≡ minus_one_double
  unfolding get_cpu_utilization
  file_second now s1 e f g = rw e (rw (f, g) refl)

  file_both :
      (now : ℕ) (s1 s2 : CpuStats)
      → m.mock_mode ≡ false
      → find_core core (read_proc_stat (proc_stat now)) ≡ some s1
      → find_core core (read_proc_stat (proc_stat (now + 1))) ≡ some s2
      → (get_cpu_utilization fpu proc_stat m now core).0 ≡ calculate_utilization fpu s1 s2
  unfolding get_cpu_utilization
  file_both now s1 s2 e f g = rw e (rw (f, g) refl)

  -- A reading that does not have the core fails the check, since -1 is below 0.
  proc_stat_lem :
      (now : ℕ)
      → fpu.flt minus_one_double zero_double ≡ true
      → m.mock_mode ≡ false
      → (too_busy fpu proc_stat m (utilization now) ≡ false) ↔ Passes now
  proc_stat_lem now neg e = elim (Option-cases (find_core core (read_proc_stat (proc_stat now)))) [
    | inl f ↦
        value_iff (Passes now) (utilization now) minus_one_double (file_first now e f) (no_before f)
          (λ b. absurd (false≢true (sym b.0 ∙ neg)))
    | inr (s1, f) ↦ elim (Option-cases (find_core core (read_proc_stat (proc_stat (now + 1))))) [
      | inl g ↦
          value_iff (Passes now) (utilization now) minus_one_double (file_second now s1 e f g)
            (no_after g) (λ b. absurd (false≢true (sym b.0 ∙ neg)))
      | inr (s2, g) ↦
          value_iff (Passes now) (utilization now) (calculate_utilization fpu s1 s2)
            (file_both now s1 s2 e f g) (both s1 s2 f g)
            (λ b. inr (e, record { prev = s1; curr = s2; before = f; after = g; below = b }))
    ]
  ]
    where
      no_before :
          find_core core (read_proc_stat (proc_stat now)) ≡ none
          → Passes now
          → Below minus_one_double
      no_before f (inl p) = absurd (false≢true (sym e ∙ p.0))
      no_before f (inr (t, s)) = absurd (ground (arith, s.before))

      no_after :
          find_core core (read_proc_stat (proc_stat (now + 1))) ≡ none
          → Passes now
          → Below minus_one_double
      no_after g (inl p) = absurd (false≢true (sym e ∙ p.0))
      no_after g (inr (t, s)) = absurd (ground (arith, s.after))

      both :
          (s1 s2 : CpuStats)
          → find_core core (read_proc_stat (proc_stat now)) ≡ some s1
          → find_core core (read_proc_stat (proc_stat (now + 1))) ≡ some s2
          → Passes now
          → Below (calculate_utilization fpu s1 s2)
      both s1 s2 f g (inl p) = absurd (false≢true (sym e ∙ p.0))
      both s1 s2 f g (inr (t, s)) =
          subst (λ c. Below (calculate_utilization fpu s1 c))
            (some-injective s.curr s2 (sym s.after ∙ g))
            (subst (λ c. Below (calculate_utilization fpu c s.curr))
              (some-injective s.prev s1 (sym s.before ∙ f)) s.below)

  pub file_next :
      (now : ℕ)
      → m.mock_mode ≡ false
      → Passes now
      → (get_cpu_utilization fpu proc_stat m now core).1 ≡ now + 2
  unfolding get_cpu_utilization
  file_next now e (inl p) = absurd (false≢true (sym e ∙ p.0))
  file_next now e (inr (f, s)) = rw e (rw (s.before, s.after) refl)

  pub Passes-iff :
      (now : ℕ)
      → fpu.flt minus_one_double zero_double ≡ true
      → (too_busy fpu proc_stat m (utilization now) ≡ false) ↔ Passes now
  Passes-iff now neg = elim (Bool-cases m.mock_mode) [
    | inl e ↦ mock_mode_lem now e
    | inr e ↦ proc_stat_lem now neg e
  ]
