-- ===== src/Monitor/Cpu/Available.antt =====
-- Which CPUs cpu_monitor.cpp offers, and the affinity of CPUs and GPUs.
use Prim.Native.Nat.{min}
use myqueue.Prelude.{
  ℕ, zero, suc, ◌+◌, ◌↔◌, refl, sym, ◌∙◌, ◌-◌, ◌≤◌, ◌<◌, ◌≡◌, Bool, true, false, not, ◌&&◌, List,
  ltb, leb, arith, Bool-cases, inl, inr, All, if_ind,
}
use myqueue.Prelude.Int.{ℤ, pos, negsuc, ltz}
use myqueue.Prelude.Set.{contains}
use myqueue.Monitor.Cpu.{
  CpuMonitor, get_cpu_range_for_group, at_least_zero, free_from, get_available_cpus, machine_range,
}

contains-free_from :
    (allocated : List ℤ) (k i n : ℕ)
    → contains (pos k) (free_from allocated i n)
      ≡ (leb i k && ltb k (i + n) && not (contains (pos k) allocated))
unfolding free_from contains
contains-free_from allocated k i zero = ground arith
contains-free_from allocated k i (suc n) = ground (arith, contains-free_from allocated k (suc i) n)

contains-free_from_negative :
    (allocated : List ℤ) (k i n : ℕ) → contains (negsuc k) (free_from allocated i n) ≡ false
unfolding free_from contains
contains-free_from_negative allocated k i zero = refl
contains-free_from_negative allocated k i (suc n) =
    ground (arith, contains-free_from_negative allocated k (suc i) n)

-- A CPU of the group: 0 to 31 for group 1, 32 to 63 for group 2, and 0 to 63 for any other number.
pub record InGroup (group k : ℕ) : Type 0 where
  pub first_half : group ≡ 1 → k < 32
  pub second_half : group ≡ 2 → 32 ≤ k
  pub machine : k < 64

pub InGroup-iff :
    (group k : ℕ)
    → InGroup group k ↔ (
        leb (get_cpu_range_for_group group).0 k ≡ true
        × ltb k (get_cpu_range_for_group group).1 ≡ true)
unfolding get_cpu_range_for_group
InGroup-iff group k = (
  λ h. (
    ground (arith, h.first_half, h.second_half, h.machine),
    ground (arith, h.first_half, h.second_half, h.machine),
  ),
  λ h. record {
    first_half = λ e. ground arith;
    second_half = λ e. ground arith;
    machine = ground arith;
  },
)

pub below_total : (k : ℕ) (total : ℤ) → ltb k (at_least_zero total) ≡ ltz (pos k) total
below_total k (pos n) = refl
below_total k (negsuc n) = ground arith

offered :
    (m : CpuMonitor) (group k : ℕ)
    → contains (pos k) (get_available_cpus m group) ≡ (
        leb (machine_range m group).0 k
        && ltb k (machine_range m group).1
        && not (contains (pos k) m.allocated_cpus))
unfolding get_available_cpus
offered m group k = ground (
  arith,
  contains-free_from m.allocated_cpus k (machine_range m group).0
      ((machine_range m group).1 - (machine_range m group).0),
)

-- The two ends of the group and the end of the machine together.
in_machine_iff :
    (lo hi n k : ℕ) (taken : Bool)
    → ((leb lo k && ltb k (min hi n) && not taken) ≡ true)
      ↔ ((leb lo k ≡ true × ltb k hi ≡ true) × (ltb k n ≡ true × taken ≡ false))
in_machine_iff lo hi n k taken = (λ h. ground arith, λ h. ground arith)

-- The CPUs offered for a group are exactly those that belong to the group, are among the CPUs that the
-- machine has by its configured number, and are not allocated.
pub contains-get_available_cpus :
    (m : CpuMonitor) (group k : ℕ)
    → ((contains (pos k) (get_available_cpus m group) ≡ true) ↔ (
        InGroup group k
        × ((ltz (pos k) m.total_cpus ≡ true) × (contains (pos k) m.allocated_cpus ≡ false))))
      × (contains (negsuc k) (get_available_cpus m group) ≡ false)
unfolding get_available_cpus
contains-get_available_cpus m group k =
    let (lo, hi) = get_cpu_range_for_group group in
    let (to, from) =
      in_machine_iff lo hi (at_least_zero m.total_cpus) k (contains (pos k) m.allocated_cpus) in
    let below = below_total k m.total_cpus in
    let here = offered m group k in
    (
      (
        λ h. let (g, (b, a)) = to (sym here ∙ h) in ((InGroup-iff group k).1 g, (sym below ∙ b, a)),
        λ h. here ∙ from ((InGroup-iff group k).0 h.0, (below ∙ h.1.0, h.1.1)),
      ),
      contains-free_from_negative m.allocated_cpus k _ _,
    )

-- Whether a CPU is in a range of CPUs.
abbrev pub in_range : ℕ × ℕ → ℤ → Bool
in_range (start, end) (pos k) = leb start k && ltb k end
in_range (start, end) (negsuc k) = false

free_from_range :
    (allocated : List ℤ) (lo hi i n : ℕ)
    → lo ≤ i
    → i + n ≤ hi
    → All (λ id. in_range (lo, hi) id ≡ true) (free_from allocated i n)
unfolding free_from
free_from_range allocated lo hi i zero h k = tt
free_from_range allocated lo hi i (suc n) h k =
    let rest = free_from_range allocated lo hi (suc i) n (omega arith) (omega arith) in
    if_ind (All (λ id. in_range (lo, hi) id ≡ true)) (not (contains (pos i) allocated))
      (λ _. (ground arith, rest)) (λ _. rest)

empty_range :
    (allocated : List ℤ) (start end : ℕ)
    → end < start
    → All (λ id. in_range (start, end) id ≡ true) (free_from allocated start (end - start))
unfolding free_from
empty_range allocated start end h = let e : end - start ≡ 0 = omega arith in rw (e, free_from) tt

pub get_available_cpus_range :
    (m : CpuMonitor) (group : ℕ)
    → All (λ id. in_range (machine_range m group) id ≡ true) (get_available_cpus m group)
unfolding get_available_cpus
get_available_cpus_range m group =
    elim (Bool-cases (leb (machine_range m group).0 (machine_range m group).1)) [
      | inl e ↦
          free_from_range m.allocated_cpus (machine_range m group).0 (machine_range m group).1
            (machine_range m group).0 ((machine_range m group).1 - (machine_range m group).0)
            (omega arith) (ground arith)
      | inr e ↦
          empty_range m.allocated_cpus (machine_range m group).0 (machine_range m group).1
            (ground arith)
    ]
