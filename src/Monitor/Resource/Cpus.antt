-- ===== src/Monitor/Resource/Cpus.antt =====
-- What the private allocateCPUs of resource_monitor.cpp gets, on its two paths.
use mathlib.Core.Bool.{false≢true}
use myqueue.Prelude.{
  ℕ, ◌+◌, ◌≤◌, ◌≡◌, refl, ap, ◌⊎◌, inl, inr, Bool, true, false, not, ◌||◌, List, [], ◌∷◌, ◌++◌,
  length, is_empty, if◌then◌else◌, arith, Bool-cases, All, if_ind, Perm, keep,
}
use myqueue.Prelude.Int.{ℤ, eqb_iff, ltz, lez}
use myqueue.Prelude.Members.{
  All-append, All-map, All-zip, All-keep, keep_passes, All-perm, contains-append,
}
use myqueue.Prelude.Set.{contains, contains-insert_all, contains-erase_all}
use myqueue.Monitor.Cpu.{
  CpuMonitor, allocate_cpus, release_cpus, check_cpu_available, get_available_cpus, machine_range,
  at_least_zero,
}
use myqueue.Monitor.Cpu.Available.{in_range, get_available_cpus_range}
use myqueue.Monitor.Resource.Gpus.{Outside, Got, any_in-Outside, room, full}
use myqueue.Monitor.Resource.{
  World, Monitor, size_of, any_in, all_available, pick_cpus, enough_cpus, try_specific_cpus,
  try_auto_cpus, try_cpus,
}

-- What std::shuffle promises.
abbrev pub IsShuffle : World → Type 0
IsShuffle w = (now : ℕ) (ids : List ℤ) → Perm (w.shuffle now ids) ids

-- The ids that the program chose, none being asked for, are in the range.
abbrev pub ChosenIn : ℕ × ℕ → List ℤ → List ℤ → Type 0
ChosenIn range [] = All (λ id. in_range range id ≡ true)
ChosenIn range (id ∷ ids) = λ got. Unit {0}

-- The monitor `c'` is `c` with its allocated CPUs as the test says.
pub record Holds (c c' : CpuMonitor) (test : ℤ → Bool) : Type 0 where
  pub members : (id : ℤ) → contains id c'.allocated_cpus ≡ test id
  pub rest : c' ≡ record c { allocated_cpus = c'.allocated_cpus }

available_free :
    (w : World) (c : CpuMonitor) (now : ℕ) (id : ℤ)
    → (check_cpu_available w.fpu w.proc_stat c now id).0 ≡ true
    → contains id c.allocated_cpus ≡ false
unfolding check_cpu_available
available_free w c now id h = elim (Bool-cases (contains id c.allocated_cpus)) [
  | inl e ↦ absurd (false≢true (rw e at h))
  | inr e ↦ e
]

all_available-Outside :
    (w : World) (c : CpuMonitor) (now : ℕ) (ids : List ℤ)
    → (all_available w c now ids).0 ≡ true
    → Outside c.allocated_cpus ids
unfolding all_available
all_available-Outside w c now [] h = tt
all_available-Outside w c now (id ∷ ids) h =
    elim (Bool-cases (check_cpu_available w.fpu w.proc_stat c now id).0) [
      | inl e ↦ (
        available_free w c now id e,
        all_available-Outside w c (check_cpu_available w.fpu w.proc_stat c now id).1 ids
            (rw (e, all_available) at h),
      )
      | inr e ↦ absurd (false≢true (rw (e, all_available) at h))
    ]

module _ (w : World) (c : CpuMonitor) (ncpu : ℤ) (Q : ℤ → Type 0) where
  -- What the loop has got so far, and the monitor then.
  record Picked (got : List ℤ) (c' : CpuMonitor) : Type 0 where
    free : Outside c.allocated_cpus got
    good : All Q got
    short : length got ≤ at_least_zero ncpu
    holds : Holds c c' (λ id. contains id got || contains id c.allocated_cpus)

  pick_one :
      (got : List ℤ) (c' : CpuMonitor) (id : ℤ)
      → Picked got c'
      → Q id
      → contains id c'.allocated_cpus ≡ false
      → lez ncpu (size_of got) ≡ false
      → Picked (got ++ id ∷ []) (allocate_cpus c' (id ∷ []))
  unfolding allocate_cpus contains
  pick_one got c' id p q f l = record {
    free = All-append _ got (id ∷ []) p.free (ground (arith, p.holds.members id), tt);
    good = All-append Q got (id ∷ []) p.good (q, tt);
    short = room ncpu got id l;
    holds = record {
      members = λ j. ground (
        arith,
        contains-append j got (id ∷ []),
        contains-insert_all j (id ∷ []) c'.allocated_cpus,
        p.holds.members j,
      );
      rest =
          ap
            (λ (d : CpuMonitor). record d {
              allocated_cpus = (allocate_cpus c' (id ∷ [])).allocated_cpus;
            })
            p.holds.rest;
    };
  }

  pick_cpus-Picked :
      (got : List ℤ) (c' : CpuMonitor) (now : ℕ) (ids : List ℤ)
      → Picked got c'
      → All Q ids
      → Picked (pick_cpus w ncpu got c' now ids).0 (pick_cpus w ncpu got c' now ids).1
  unfolding pick_cpus
  pick_cpus-Picked got c' now [] p a = p
  pick_cpus-Picked got c' now (id ∷ ids) p a = elim (Bool-cases (lez ncpu (size_of got))) [
    | inl e ↦ rw (e, pick_cpus) p
    | inr e ↦ elim (Bool-cases (check_cpu_available w.fpu w.proc_stat c' now id).0) [
      | inl f ↦
          rw (e, f, pick_cpus)
            (pick_cpus-Picked (got ++ id ∷ []) (allocate_cpus c' (id ∷ []))
              (check_cpu_available w.fpu w.proc_stat c' now id).1 ids
              (pick_one got c' id p a.0 (available_free w c' now id f) e) a.1)
      | inr f ↦
          rw (e, f, pick_cpus)
            (pick_cpus-Picked got c' (check_cpu_available w.fpu w.proc_stat c' now id).1 ids p a.1)
    ]
  ]

pub Outside-contains :
    (s ids : List ℤ) (id : ℤ) → Outside s ids → contains id ids ≡ true → contains id s ≡ false
unfolding contains
Outside-contains s [] id o h = cc
Outside-contains s (x ∷ ids) id o h = ground (arith, eqb_iff x id, Outside-contains s ids id o.1)

release-Holds :
    (c c' : CpuMonitor) (got : List ℤ)
    → Outside c.allocated_cpus got
    → Holds c c' (λ id. contains id got || contains id c.allocated_cpus)
    → Holds c (release_cpus c' got) (λ id. contains id c.allocated_cpus)
unfolding release_cpus
release-Holds c c' got o h = record {
  members = λ id. ground (
    arith,
    contains-erase_all id got c'.allocated_cpus,
    h.members id,
    Outside-contains c.allocated_cpus got id o,
  );
  rest =
      ap (λ (d : CpuMonitor). record d { allocated_cpus = (release_cpus c' got).allocated_cpus })
        h.rest;
}

module _ (w : World) (m : Monitor) (ncpu : ℤ) (group : ℕ) where
  open m use {cpu_monitor, excluded_cpus}

  -- Either nothing is taken, or ids that may be handed out are added to the allocated ones; those
  -- that the program chose are in the group's range.
  abbrev pub CpuOutcome : List ℤ → List ℤ × CpuMonitor × ℕ → Type 0
  CpuOutcome specific (got, c, now) =
      ((got ≡ []) × Holds cpu_monitor c (λ id. contains id cpu_monitor.allocated_cpus))
      ⊎ (Got excluded_cpus cpu_monitor.allocated_cpus ncpu specific got
          × Holds cpu_monitor c (λ id. contains id got || contains id cpu_monitor.allocated_cpus)
          × ChosenIn (machine_range cpu_monitor group) specific got)

  unchanged : Holds cpu_monitor cpu_monitor (λ id. contains id cpu_monitor.allocated_cpus)
  unchanged = record { members = λ id. refl; rest = refl }

  specific_outcome :
      (now : ℕ) (id : ℤ) (ids : List ℤ)
      → CpuOutcome (id ∷ ids) (try_specific_cpus w m now (id ∷ ids))
  unfolding try_specific_cpus allocate_cpus
  specific_outcome now id ids =
      let specific = id ∷ ids in
      if_ind (CpuOutcome specific) (any_in excluded_cpus specific) (λ _. inl (refl, unchanged))
        (λ e.
          if_ind (CpuOutcome specific) (all_available w cpu_monitor now specific).0
            (λ f. inr (
              record {
                free = all_available-Outside w cpu_monitor now specific f;
                allowed = any_in-Outside excluded_cpus specific e;
                fits = refl;
              },
              record {
                members = λ j. contains-insert_all j specific cpu_monitor.allocated_cpus;
                rest = refl;
              },
              tt,
            ))
            (λ _. inl (refl, unchanged)))

  -- What is asked of a candidate: not excluded, and in the group's range.
  abbrev Candidate : ℤ → Type 0
  Candidate id =
      (contains id excluded_cpus ≡ false) × (in_range (machine_range cpu_monitor group) id ≡ true)

  given_back :
      (got : List ℤ) (c : CpuMonitor)
      → Picked w cpu_monitor ncpu Candidate got c
      → Holds cpu_monitor
          (if not (is_empty got) then release_cpus c got else c)
          (λ id. contains id cpu_monitor.allocated_cpus)
  unfolding contains
  given_back [] c p = p.holds
  given_back (id ∷ got) c p = release-Holds cpu_monitor c (id ∷ got) p.free p.holds

  enough_outcome :
      (got : List ℤ) (c : CpuMonitor) (now : ℕ)
      → Picked w cpu_monitor ncpu Candidate got c
      → CpuOutcome [] (enough_cpus ncpu (got, c, now))
  unfolding enough_cpus
  enough_outcome got c now p =
      if_ind (CpuOutcome []) (ltz (size_of got) ncpu) (λ _. inl (refl, given_back got c p))
        (λ f. inr (
          record {
            free = p.free;
            allowed = All-map (λ id h. h.0) got p.good;
            fits = full ncpu got f p.short;
          },
          p.holds,
          All-map (λ id h. h.1) got p.good,
        ))

  nothing-Picked : Picked w cpu_monitor ncpu Candidate [] cpu_monitor
  unfolding contains
  nothing-Picked = record { free = tt; good = tt; short = omega arith; holds = unchanged }

  auto_outcome : (now : ℕ) → IsShuffle w → CpuOutcome [] (try_auto_cpus w m now ncpu group)
  unfolding try_auto_cpus
  auto_outcome now s =
      let free = get_available_cpus cpu_monitor group in
      let allowed : ℤ → Bool = λ id. not (contains id excluded_cpus) in
      let candidates = keep allowed free in
      let range : ℤ → Bool = in_range (machine_range cpu_monitor group) in
      let shuffled = w.shuffle now candidates in
      let good : All Candidate shuffled =
        All-zip _ _ shuffled
          (All-map (λ id h. ground arith) shuffled
            (All-perm allowed true shuffled candidates (s now candidates)
              (keep_passes allowed free)))
          (All-perm range true shuffled candidates (s now candidates)
            (All-keep _ allowed free (get_available_cpus_range cpu_monitor group))) in
      if_ind (CpuOutcome []) (ltz (size_of candidates) ncpu) (λ _. inl (refl, unchanged))
        (λ _. enough_outcome _ _ _ (
          pick_cpus-Picked w cpu_monitor ncpu Candidate [] cpu_monitor (now + 1) shuffled
            nothing-Picked good))

  pub try_cpus_outcome :
      (now : ℕ) (specific : List ℤ)
      → IsShuffle w
      → CpuOutcome specific (try_cpus w m now ncpu group specific)
  unfolding try_cpus
  try_cpus_outcome now [] s = auto_outcome now s
  try_cpus_outcome now (id ∷ ids) s = specific_outcome now id ids
