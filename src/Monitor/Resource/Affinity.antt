-- ===== src/Monitor/Resource/Affinity.antt =====
-- CPUs and GPUs of one socket: determineAffinityGroup of resource_monitor.cpp with the tables of
-- cpu_monitor.cpp.
use myqueue.Prelude.{
  ℕ, ◌≡◌, ◌≢◌, refl, sym, Bool, if◌then◌else◌, leb, ltb, ap, ◌∙◌, true, false, List, [], ◌∷◌, some,
  All, arith, subst,
}
use Prim.Native.Nat.{min}
use myqueue.Prelude.Int.{ℤ, pos, negsuc, ltz}
use myqueue.Prelude.Members.{All-map}
use myqueue.Monitor.Cpu.{get_affinity_group, get_cpu_range_for_group, machine_range, at_least_zero}
use myqueue.Monitor.Cpu.Available.{in_range, InGroup, InGroup-iff, below_total}
use myqueue.Monitor.Resource.Cpus.{IsShuffle}
use myqueue.Monitor.Resource.Outcome.{Outcome-some, allocate-Outcome}
use myqueue.Monitor.Resource.{
  World, Monitor, Allocation, any_in_group1, any_in_group2, determine_affinity_group, allocate,
}

one_group_flags :
    (gpus : List ℤ) (g : ℕ)
    → All (λ id. get_affinity_group id ≡ g) gpus
    → ((g ≡ 1 → any_in_group2 gpus ≡ false) × (g ≢ 1 → any_in_group1 gpus ≡ false))
unfolding any_in_group1 any_in_group2
one_group_flags [] g h = (λ _. refl, λ _. refl)
one_group_flags (id ∷ gpus) g h = (
  λ e. ground (arith, one_group_flags gpus g h.1),
  λ n. ground (arith, one_group_flags gpus g h.1),
)

pub determine_affinity_group_one :
    (gpu : ℤ) (gpus : List ℤ) (g : ℕ)
    → All (λ id. get_affinity_group id ≡ g) (gpu ∷ gpus)
    → determine_affinity_group (gpu ∷ gpus) ≡ g
unfolding determine_affinity_group any_in_group1 any_in_group2 get_affinity_group
determine_affinity_group_one gpu gpus g h = ground (arith, one_group_flags (gpu ∷ gpus) g h)

-- The first CPU and the one after the last that go with the GPUs on a machine with `total` CPUs.
abbrev pub range_near : ℤ → List ℤ → ℕ × ℕ
range_near total gpus =
    let (start, end) = get_cpu_range_for_group (determine_affinity_group gpus) in
    (start, min end (at_least_zero total))

-- A CPU that goes with the GPUs on a machine with `total` CPUs, at most 64: below 32 if all the GPUs
-- are below 4, and from 32 on if they all are from 4 on.
pub record NearGpus (total : ℤ) (gpus : List ℤ) (cpu : ℤ) : Type 0 where
  pub not_negative : ltz cpu (pos 0) ≡ false
  pub in_machine : ltz cpu total ≡ true
  pub in_table : ltz cpu (pos 64) ≡ true
  pub first_half : gpus ≢ [] → All (λ g. ltz g (pos 4) ≡ true) gpus → ltz cpu (pos 32) ≡ true
  pub second_half : gpus ≢ [] → All (λ g. ltz g (pos 4) ≡ false) gpus → ltz cpu (pos 32) ≡ false

determine_affinity_group_same :
    (b : Bool) (gpus : List ℤ)
    → gpus ≢ []
    → All (λ g. ltz g (pos 4) ≡ b) gpus
    → determine_affinity_group gpus ≡ (if b then 1 else 2)
unfolding get_affinity_group
determine_affinity_group_same b [] n h = absurd (n refl)
determine_affinity_group_same b (g ∷ gpus) n h =
    determine_affinity_group_one g gpus _
      (All-map (λ id (e : ltz id (pos 4) ≡ b). rw e refl) (g ∷ gpus) h)

machine_range_ends :
    (group : ℕ) (total : ℤ) (k : ℕ)
    → in_range
        (let (start, end) = get_cpu_range_for_group group in (start, min end (at_least_zero total)))
        (pos k)
      ≡ true
    → InGroup group k × (ltz (pos k) total ≡ true)
machine_range_ends group total k h =
    let (lo, hi) = get_cpu_range_for_group group in
    let n = at_least_zero total in
    let above : leb lo k ≡ true = ground arith in
    let below : ltb k hi ≡ true = ground arith in
    let inside : ltb k n ≡ true = ground arith in
    ((InGroup-iff group k).1 (above, below), sym (below_total k total) ∙ inside)

pub range_near-NearGpus :
    (total : ℤ) (gpus : List ℤ) (cpu : ℤ)
    → in_range (range_near total gpus) cpu ≡ true
    → NearGpus total gpus cpu
range_near-NearGpus total gpus (negsuc k) h = absurd (ground arith)
range_near-NearGpus total gpus (pos k) h =
    let (g, inside) = machine_range_ends (determine_affinity_group gpus) total k h in
    record {
      not_negative = ground arith;
      in_machine = inside;
      in_table = ground (arith, g.machine);
      first_half =
          λ n a. ground (arith, g.first_half (determine_affinity_group_same true gpus n a));
      second_half =
          λ n a. ground (arith, g.second_half (determine_affinity_group_same false gpus n a));
    }

in_machine_range :
    (id : ℤ) (start end total : ℕ)
    → in_range (start, min end total) id ≡ true
    → in_range (start, end) id ≡ true
in_machine_range (pos k) start end total h = ground arith
in_machine_range (negsuc k) start end total h = h

-- If std::shuffle permutes, and an allocation has GPUs that all belong to one group and names no CPUs,
-- then the CPUs that the program chose for it are in that group's range.
pub allocate_affinity :
    (w : World) (m : Monitor) (now : ℕ) (ncpu ngpu : ℤ) (specific_gpus : List ℤ) (a : Allocation)
    (gpu : ℤ) (gpus : List ℤ) (g : ℕ)
    → IsShuffle w
    → (allocate w m now ncpu ngpu [] specific_gpus).0 ≡ some a
    → a.gpus ≡ gpu ∷ gpus
    → All (λ id. get_affinity_group id ≡ g) (gpu ∷ gpus)
    → All (λ id. in_range (get_cpu_range_for_group g) id ≡ true) a.cpus
allocate_affinity w m now ncpu ngpu specific_gpus a gpu gpus g s e q h =
    let o =
      Outcome-some m ncpu ngpu [] specific_gpus w _ a
        (allocate-Outcome w m ncpu ngpu [] specific_gpus now s) e in
    let group : determine_affinity_group a.gpus ≡ g =
      ap determine_affinity_group q ∙ determine_affinity_group_one gpu gpus g h in
    All-map
      (λ id r.
        in_machine_range id (get_cpu_range_for_group g).0 (get_cpu_range_for_group g).1 _
          (subst (λ k. in_range (machine_range m.cpu_monitor k) id ≡ true) group r))
      a.cpus o.affinity
