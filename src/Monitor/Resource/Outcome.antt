-- ===== src/Monitor/Resource/Outcome.antt =====
-- The two ends of `allocate` in resource_monitor.cpp, and `release` after it.
use myqueue.Prelude.{
  ℕ, zero, suc, ◌≡◌, refl, ap, ◌∙◌, inl, inr, Bool, true, false, not, ◌||◌, List, [], ◌∷◌, is_empty,
  if◌then◌else◌, arith, if_ind, Option, none, some, subst,
}
use myqueue.Prelude.Int.{ℤ, pos, negsuc, ltz}
use myqueue.Prelude.Set.{contains, contains-insert_all, contains-erase_all}
use myqueue.Monitor.Cpu.{CpuMonitor, machine_range}
use myqueue.Monitor.Gpu.{GpuMonitor, allocate_gpus, release_gpus}
use myqueue.Monitor.Resource.Gpus.{Fits, Got, GpuOutcome, try_gpus_outcome}
use myqueue.Monitor.Resource.Cpus.{
  Holds, ChosenIn, IsShuffle, Outside-contains, CpuOutcome, try_cpus_outcome,
}
use myqueue.Monitor.Resource.{
  World, Monitor, Allocation, too_few, determine_affinity_group, allocate_with_gpus, allocate,
}

-- The GPU monitor `g'` is `g` with its allocated GPUs as the test says.
pub record GpuHolds (g g' : GpuMonitor) (test : ℤ → Bool) : Type 0 where
  pub members : (id : ℤ) → contains id g'.allocated_gpus ≡ test id
  pub rest : g' ≡ record g { allocated_gpus = g'.allocated_gpus }

-- The monitor `m'` is `m` with its allocations as the tests say.
pub record Tracks (m m' : Monitor) (cpu_test gpu_test : ℤ → Bool) : Type 0 where
  pub cpus : Holds m.cpu_monitor m'.cpu_monitor cpu_test
  pub gpus : GpuHolds m.gpu_monitor m'.gpu_monitor gpu_test
  pub excluded_cpus : m'.excluded_cpus ≡ m.excluded_cpus
  pub excluded_gpus : m'.excluded_gpus ≡ m.excluded_gpus

abbrev pub has_cpu : Monitor → ℤ → Bool
has_cpu m id = contains id m.cpu_monitor.allocated_cpus

abbrev pub has_gpu : Monitor → ℤ → Bool
has_gpu m id = contains id m.gpu_monitor.allocated_gpus

-- An allocation that was made.
pub record Allocated (m : Monitor) (ncpu ngpu : ℤ) (specific_cpus specific_gpus : List ℤ)
    (m' : Monitor) (a : Allocation) : Type 0 where
  pub cpus : Got m.excluded_cpus m.cpu_monitor.allocated_cpus ncpu specific_cpus a.cpus
  pub gpus : Got m.excluded_gpus m.gpu_monitor.allocated_gpus ngpu specific_gpus a.gpus
  pub affinity :
      ChosenIn (machine_range m.cpu_monitor (determine_affinity_group a.gpus)) specific_cpus a.cpus
  pub tracks :
      Tracks m m'
        (λ id. contains id a.cpus || has_cpu m id)
        (λ id. contains id a.gpus || has_gpu m id)

-- Whether a step of `allocate` is taken at all.
abbrev wanted : ℤ → List ℤ → Bool
wanted count specific = ltz (pos 0) count || not (is_empty specific)

unwanted-Fits :
    (count : ℤ) (specific : List ℤ) → not (wanted count specific) ≡ true → Fits count specific []
unwanted-Fits (pos zero) [] h = refl
unwanted-Fits (pos (suc n)) [] h = ground arith
unwanted-Fits (negsuc n) [] h = refl
unwanted-Fits count (id ∷ ids) h = ground arith

none_too_few :
    (count : ℤ) (specific got : List ℤ)
    → not (wanted count specific) ≡ false
    → got ≡ []
    → too_few got count specific ≡ true
none_too_few (pos zero) [] got h e = ground arith
none_too_few (pos (suc n)) [] got h e = rw e (ground arith)
none_too_few (negsuc n) [] got h e = ground arith
none_too_few count (id ∷ ids) got h e = rw e (ground arith)

Fits-too_few :
    (count : ℤ) (specific got : List ℤ)
    → Fits count specific got
    → too_few got count specific ≡ false
Fits-too_few (pos n) [] got f = ground arith
Fits-too_few (negsuc n) [] got f = refl
Fits-too_few count (id ∷ ids) got f = rw f (ground arith)

chosen_none : (range : ℕ × ℕ) (specific : List ℤ) → ChosenIn range specific []
chosen_none range [] = tt
chosen_none range (id ∷ ids) = tt

module _ (w : World) (m : Monitor) (ncpu ngpu : ℤ) (specific_cpus specific_gpus : List ℤ) where
  -- A refusal leaves every allocation as it was.
  abbrev pub Outcome : Option Allocation × Monitor × ℕ → Type 0
  Outcome (none, m', now) = Tracks m m' (has_cpu m) (has_gpu m)
  Outcome (some a, m', now) = Allocated m ncpu ngpu specific_cpus specific_gpus m' a

  -- The GPUs are taken.
  record Taken (gpus : List ℤ) (g : GpuMonitor) : Type 0 where
    got : Got m.excluded_gpus m.gpu_monitor.allocated_gpus ngpu specific_gpus gpus
    holds : GpuHolds m.gpu_monitor g (λ id. contains id gpus || has_gpu m id)

  rolled_back :
      (gpus : List ℤ) (g : GpuMonitor)
      → Taken gpus g
      → GpuHolds m.gpu_monitor (if not (is_empty gpus) then release_gpus g gpus else g) (has_gpu m)
  unfolding contains release_gpus
  rolled_back [] g t = t.holds
  rolled_back (id ∷ gpus) g t = record {
    members = λ j. ground (
      arith,
      contains-erase_all j (id ∷ gpus) g.allocated_gpus,
      t.holds.members j,
      Outside-contains m.gpu_monitor.allocated_gpus (id ∷ gpus) j t.got.free,
    );
    rest =
        ap
          (λ (h : GpuMonitor). record h {
            allocated_gpus = (release_gpus g (id ∷ gpus)).allocated_gpus;
          })
          t.holds.rest;
  }

  -- The last branch of `allocate`, on what allocateCPUs returned.
  cpus_end :
      (gpus : List ℤ) (g : GpuMonitor) (cpus : List ℤ) (c : CpuMonitor) (now : ℕ)
      → Taken gpus g
      → not (wanted ncpu specific_cpus) ≡ false
      → CpuOutcome w m ncpu (determine_affinity_group gpus) specific_cpus (cpus, c, now)
      → Outcome (
          if too_few cpus ncpu specific_cpus
          then (
            none,
            record m {
              gpu_monitor = if not (is_empty gpus) then release_gpus g gpus else g;
              cpu_monitor = c;
            },
            now,
          )
          else (
            some (record { cpus = cpus; gpus = gpus }),
            record m { gpu_monitor = g; cpu_monitor = c },
            now,
          ))
  cpus_end gpus g cpus c now t h (inl (e, k)) =
      rw (none_too_few ncpu specific_cpus cpus h e) (record {
        cpus = k;
        gpus = rolled_back gpus g t;
        excluded_cpus = refl;
        excluded_gpus = refl;
      })
  cpus_end gpus g cpus c now t h (inr (got, k, range)) =
      rw (Fits-too_few ncpu specific_cpus cpus got.fits) (record {
        cpus = got;
        gpus = t.got;
        affinity = range;
        tracks = record { cpus = k; gpus = t.holds; excluded_cpus = refl; excluded_gpus = refl };
      })

  no_cpus :
      (gpus : List ℤ) (g : GpuMonitor)
      → Taken gpus g
      → not (wanted ncpu specific_cpus) ≡ true
      → Allocated m ncpu ngpu specific_cpus specific_gpus
          (record m { gpu_monitor = g })
          (record { cpus = []; gpus = gpus })
  unfolding contains
  no_cpus gpus g t h = record {
    cpus = record { free = tt; allowed = tt; fits = unwanted-Fits ncpu specific_cpus h };
    gpus = t.got;
    affinity = chosen_none _ specific_cpus;
    tracks = record {
      cpus = record { members = λ id. refl; rest = refl };
      gpus = t.holds;
      excluded_cpus = refl;
      excluded_gpus = refl;
    };
  }

  with_gpus :
      (now : ℕ) (gpus : List ℤ) (g : GpuMonitor)
      → IsShuffle w
      → Taken gpus g
      → Outcome (allocate_with_gpus w (record m { gpu_monitor = g }) now gpus ncpu specific_cpus)
  unfolding allocate_with_gpus
  with_gpus now gpus g s t =
      if_ind Outcome (not (wanted ncpu specific_cpus)) (λ h. no_cpus gpus g t h)
        (λ h. cpus_end gpus g _ _ _ t h (
          try_cpus_outcome w (record m { gpu_monitor = g }) ncpu (determine_affinity_group gpus) now
            specific_cpus s))

  no_gpus : not (wanted ngpu specific_gpus) ≡ true → Taken [] m.gpu_monitor
  unfolding contains
  no_gpus h = record {
    got = record { free = tt; allowed = tt; fits = unwanted-Fits ngpu specific_gpus h };
    holds = record { members = λ id. refl; rest = refl };
  }

  gpus_end :
      (now : ℕ) (gpus : List ℤ) (g : GpuMonitor)
      → IsShuffle w
      → not (wanted ngpu specific_gpus) ≡ false
      → GpuOutcome w m ngpu specific_gpus (gpus, g, now)
      → Outcome (
          if too_few gpus ngpu specific_gpus
          then (none, record m { gpu_monitor = g }, now)
          else allocate_with_gpus w (record m { gpu_monitor = g }) now gpus ncpu specific_cpus)
  unfolding allocate_gpus
  gpus_end now gpus g s h (inl (e, k)) = rw (none_too_few ngpu specific_gpus gpus h e) (record {
    cpus = record { members = λ id. refl; rest = refl };
    gpus = record {
      members = λ id. ap (λ (g : GpuMonitor). contains id g.allocated_gpus) k;
      rest = cc;
    };
    excluded_cpus = refl;
    excluded_gpus = refl;
  })
  gpus_end now gpus g s h (inr (got, k)) = rw (Fits-too_few ngpu specific_gpus gpus got.fits) (
      with_gpus now gpus g s (record {
        got = got;
        holds = record {
          members = λ id.
              ap (λ (g : GpuMonitor). contains id g.allocated_gpus) k
              ∙ contains-insert_all id gpus m.gpu_monitor.allocated_gpus;
          rest = cc;
        };
      }))

  -- If std::shuffle permutes, `allocate` either refuses, with every allocation as it was, or hands out
  -- CPUs and GPUs as asked for, that were neither allocated nor excluded, and adds exactly these to the
  -- allocations.
  pub allocate-Outcome :
      (now : ℕ) → IsShuffle w → Outcome (allocate w m now ncpu ngpu specific_cpus specific_gpus)
  unfolding allocate
  allocate-Outcome now s =
      if_ind Outcome (not (wanted ngpu specific_gpus))
        (λ h. with_gpus now [] m.gpu_monitor s (no_gpus h))
        (λ h. gpus_end _ _ _ s h (try_gpus_outcome w m ngpu now specific_gpus))

module _ (m : Monitor) (ncpu ngpu : ℤ) (specific_cpus specific_gpus : List ℤ) where
  -- The result of an allocation, from its ends.
  pub Outcome-some :
      (w : World) (r : Option Allocation × Monitor × ℕ) (a : Allocation)
      → Outcome w m ncpu ngpu specific_cpus specific_gpus r
      → r.0 ≡ some a
      → Allocated m ncpu ngpu specific_cpus specific_gpus r.1 a
  Outcome-some w (none, m', now) a o e = absurd (ground arith)
  Outcome-some w (some b, m', now) a o e =
      let q : b ≡ a = cc in subst (Allocated m ncpu ngpu specific_cpus specific_gpus m') q o

  pub Outcome-none :
      (w : World) (r : Option Allocation × Monitor × ℕ)
      → Outcome w m ncpu ngpu specific_cpus specific_gpus r
      → r.0 ≡ none
      → Tracks m r.1 (has_cpu m) (has_gpu m)
  Outcome-none w (none, m', now) o e = o
  Outcome-none w (some b, m', now) o e = absurd (ground arith)
