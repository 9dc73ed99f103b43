-- ===== src/Monitor/Cpu/Samples.antt =====
-- The continuous monitoring of checkCPUAvailable in cpu_monitor.cpp.
use Prim.Native.Nat.{max}
use mathlib.Core.Bool.{false≢true}
use myqueue.Prelude.{
  ℕ, zero, suc, ◌+◌, ◌*◌, ◌/◌, ◌≤◌, ◌<◌, ◌≡◌, ◌↔◌, refl, true, false, arith, Bool-cases, sym, ◌∙◌,
  inl, inr, subst,
}
use myqueue.Prelude.Int.{ℤ, pos, negsuc, negate}
use myqueue.Prelude.Set.{contains}
use myqueue.Prelude.Text.{Bytes}
use myqueue.Monitor.ProcStat.{Fpu, zero_double, minus_one_double}
use myqueue.Monitor.Cpu.{
  CpuMonitor, get_cpu_utilization, too_busy, check_loop, check_cpu_available, check_count,
  at_least_one, int_div,
}
use myqueue.Monitor.Cpu.Readings.{Passes, utilization, file_next, Passes-iff}

-- The number of checks for a duration and an interval: the intervals that fit, and at least one.
abbrev pub Count : ℤ → ℤ → ℕ → Type 0
Count (pos d) (pos (suc b)) n = n ≡ max 1 (d / suc b)
Count (negsuc d) (pos (suc b)) n = n ≡ 1
Count d (pos zero) n = 1 ≤ n
Count d (negsuc b) n = 1 ≤ n

module _ (fpu : Fpu) (proc_stat : ℕ → Bytes) (m : CpuMonitor) (core : ℤ) where
  abbrev CheckPasses : ℕ → Type 0
  CheckPasses = Passes fpu proc_stat m core

  -- The passing checks of a loop, from the moment that it begins.
  abbrev AllPass : ℕ → ℕ → Type 0
  AllPass n now = (i : ℕ) → i < n → CheckPasses (now + 2 * i)

  -- Where the check at `now` passes, the rest of the loop begins two readings later, or, in the mock
  -- mode, where every moment is alike, at once.
  rest_iff :
      (n now : ℕ)
      → fpu.flt minus_one_double zero_double ≡ true
      → CheckPasses now
      → AllPass n (get_cpu_utilization fpu proc_stat m now core).1 ↔ AllPass n (now + 2)
  rest_iff n now neg (inl (e, u)) = (λ h i l. inl (e, u), λ h i l. inl (e, u))
  rest_iff n now neg (inr p) = rw (file_next fpu proc_stat m core now p.0 (inr p)) (λ h. h, λ h. h)

  check_loop_iff :
      (n now : ℕ)
      → fpu.flt minus_one_double zero_double ≡ true
      → ((check_loop fpu proc_stat m n now core).0 ≡ true) ↔ AllPass n now
  unfolding check_loop
  check_loop_iff zero now neg = (λ h i l. absurd (omega arith), λ h. refl)
  check_loop_iff (suc n) now neg =
      elim (Bool-cases (too_busy fpu proc_stat m (utilization fpu proc_stat m core now))) [
        | inl b ↦ (
          λ h. absurd (false≢true (rw (b, check_loop) at h)),
          λ h.
              let first =
                (Passes-iff fpu proc_stat m core now neg).1
                  (subst CheckPasses (omega arith) (h 0 (omega arith))) in
              absurd (false≢true (sym first ∙ b)),
        )
        | inr b ↦
            let first = (Passes-iff fpu proc_stat m core now neg).0 b in
            let (to, from) =
              check_loop_iff n (get_cpu_utilization fpu proc_stat m now core).1 neg in
            let (later, sooner) = rest_iff n now neg first in
            (
              λ h. from_first n now first (later (to (rw (b, check_loop) at h))),
              λ h.
                  rw (b, check_loop)
                    (from
                      (sooner (λ i l. subst CheckPasses (omega arith) (h (suc i) (omega arith))))),
            )
      ]
    where
      from_first : (n now : ℕ) → CheckPasses now → AllPass n (now + 2) → AllPass (suc n) now
      from_first n now p h zero l = subst CheckPasses (omega arith) p
      from_first n now p h (suc i) l = subst CheckPasses (omega arith) (h i (omega arith))

at_least_one-pos : (n : ℕ) → at_least_one (pos n) ≡ max 1 n
at_least_one-pos zero = omega arith
at_least_one-pos (suc n) = omega arith

at_least_one-negate : (n : ℕ) → at_least_one (negate n) ≡ 1
at_least_one-negate zero = refl
at_least_one-negate (suc n) = refl

one-le-at_least_one : (a : ℤ) → 1 ≤ at_least_one a
one-le-at_least_one (pos zero) = omega arith
one-le-at_least_one (pos (suc n)) = omega arith
one-le-at_least_one (negsuc n) = omega arith

division-Count :
    (duration interval : ℤ) → Count duration interval (at_least_one (int_div duration interval))
division-Count (pos d) (pos (suc b)) = at_least_one-pos (d / suc b)
division-Count (negsuc d) (pos (suc b)) = at_least_one-negate (suc d / suc b)
division-Count d (pos zero) = one-le-at_least_one (int_div d (pos 0))
division-Count d (negsuc b) = one-le-at_least_one (int_div d (negsuc b))

-- A core is available exactly when it is not allocated and every check passes: the i-th, from the
-- (2 * i)-th reading of /proc/stat on, finds the core in two readings in a row, with a utilization
-- between them that is not negative and below the threshold; in the mock mode the one that is set for
-- the core is so, or 0 if none is set. The checks are as many as intervals fit in the duration, and at
-- least one. The condition is that -1 is less than 0 as a double.
pub check_cpu_available_iff :
    (fpu : Fpu) (proc_stat : ℕ → Bytes) (m : CpuMonitor) (core : ℤ) (now : ℕ)
    → fpu.flt minus_one_double zero_double ≡ true
    → (((check_cpu_available fpu proc_stat m now core).0 ≡ true) ↔ (
        (contains core m.allocated_cpus ≡ false)
        × ((i : ℕ) → i < check_count m → Passes fpu proc_stat m core (now + 2 * i))))
      × Count m.check_duration_ms m.check_interval_ms (check_count m)
unfolding check_cpu_available
check_cpu_available_iff fpu proc_stat m core now neg = (
  elim (Bool-cases (contains core m.allocated_cpus)) [
    | inl e ↦ (
      λ h. absurd (false≢true (rw (e, check_cpu_available) at h)),
      λ h. absurd (false≢true (sym h.0 ∙ e)),
    )
    | inr e ↦
        let (to, from) = check_loop_iff fpu proc_stat m core (check_count m) now neg in
        (
          λ h. (e, to (rw (e, check_cpu_available) at h)),
          λ h. rw (e, check_cpu_available) (from h.1),
        )
  ],
  division-Count m.check_duration_ms m.check_interval_ms,
)
