-- ===== src/Monitor/Resource/Release.antt =====
-- `release` in resource_monitor.cpp, by itself and after `allocate`.
use myqueue.Prelude.{ℕ, ◌≡◌, not, ◌&&◌, List, [], ◌∷◌, arith, some}
use myqueue.Prelude.Int.{ℤ}
use myqueue.Prelude.Set.{contains, contains-erase_all}
use myqueue.Monitor.Cpu.{release_cpus}
use myqueue.Monitor.Gpu.{release_gpus}
use myqueue.Monitor.Resource.Cpus.{IsShuffle, Outside-contains}
use myqueue.Monitor.Resource.{World, Monitor, Allocation, allocate, release}
use myqueue.Monitor.Resource.Outcome.{has_cpu, has_gpu, Allocated, allocate-Outcome, Outcome-some}

pub release_cpu :
    (m : Monitor) (cpus gpus : List ℤ) (id : ℤ)
    → has_cpu (release m cpus gpus) id ≡ (has_cpu m id && not (contains id cpus))
unfolding release release_cpus contains
release_cpu m [] gpus id = ground arith
release_cpu m (c ∷ cpus) gpus id = contains-erase_all id (c ∷ cpus) m.cpu_monitor.allocated_cpus

pub release_gpu :
    (m : Monitor) (cpus gpus : List ℤ) (id : ℤ)
    → has_gpu (release m cpus gpus) id ≡ (has_gpu m id && not (contains id gpus))
unfolding release release_gpus contains
release_gpu m cpus [] id = ground arith
release_gpu m cpus (g ∷ gpus) id = contains-erase_all id (g ∷ gpus) m.gpu_monitor.allocated_gpus

pub Allocated-release :
    (m m' : Monitor) (ncpu ngpu : ℤ) (specific_cpus specific_gpus : List ℤ) (a : Allocation)
    (id : ℤ)
    → Allocated m ncpu ngpu specific_cpus specific_gpus m' a
    → (has_cpu (release m' a.cpus a.gpus) id ≡ has_cpu m id)
      × (has_gpu (release m' a.cpus a.gpus) id ≡ has_gpu m id)
Allocated-release m m' ncpu ngpu specific_cpus specific_gpus a id o = (
  ground (
    arith,
    release_cpu m' a.cpus a.gpus id,
    o.tracks.cpus.members id,
    Outside-contains m.cpu_monitor.allocated_cpus a.cpus id o.cpus.free,
  ),
  ground (
    arith,
    release_gpu m' a.cpus a.gpus id,
    o.tracks.gpus.members id,
    Outside-contains m.gpu_monitor.allocated_gpus a.gpus id o.gpus.free,
  ),
)

-- If std::shuffle permutes, releasing what an allocation handed out restores every allocation.
pub release-allocate :
    (w : World) (m : Monitor) (now : ℕ) (ncpu ngpu : ℤ) (specific_cpus specific_gpus : List ℤ)
    (a : Allocation)
    → IsShuffle w
    → (allocate w m now ncpu ngpu specific_cpus specific_gpus).0 ≡ some a
    → let m' = release (allocate w m now ncpu ngpu specific_cpus specific_gpus).1 a.cpus a.gpus in
      (id : ℤ) → (has_cpu m' id ≡ has_cpu m id) × (has_gpu m' id ≡ has_gpu m id)
release-allocate w m now ncpu ngpu specific_cpus specific_gpus a s e id =
    let r = allocate w m now ncpu ngpu specific_cpus specific_gpus in
    let o =
      Outcome-some m ncpu ngpu specific_cpus specific_gpus w r a
        (allocate-Outcome w m ncpu ngpu specific_cpus specific_gpus now s) e in
    Allocated-release m r.1 ncpu ngpu specific_cpus specific_gpus a id o
