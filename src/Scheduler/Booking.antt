-- ===== src/Scheduler/Booking.antt =====
-- The books of scheduler.cpp: what the running tasks hold against what the monitor has allocated.
use myqueue.Prelude.{
  ℕ, ◌+◌, ◌≤◌, ◌≡◌, ◌≢◌, refl, sym, ap, ◌∙◌, false, ◌&&◌, none, some, List, ◌==◌, if◌then◌else◌,
  bit, arith,
}
use myqueue.Prelude.Int.{ℤ}
use myqueue.Prelude.Map.{find, erase, total, at, total-put, total-erase, at-le-total, find-erase}
use myqueue.Prelude.Set.{contains}
use myqueue.Task.{Task, pending, running, status_eq}
use myqueue.Queue.{TaskQueue, started, overwrite}
use myqueue.Queue.Invariant.{IsValid, put-IsValid, find-Keyed}
use myqueue.Monitor.Resource.{Monitor, Allocation, release}
use myqueue.Monitor.Resource.Cpus.{Outside-contains}
use myqueue.Monitor.Resource.Outcome.{has_cpu, has_gpu, Allocated}
use myqueue.Monitor.Resource.Release.{release_cpu, release_gpu}

-- 1 for a running task that holds the CPU, or the GPU.
abbrev pub holds_cpu : ℤ → Task → ℕ
holds_cpu c t = bit (status_eq t.status running && contains c t.allocated_cpus)

abbrev pub holds_gpu : ℤ → Task → ℕ
holds_gpu g t = bit (status_eq t.status running && contains g t.allocated_gpus)

-- Every CPU and GPU is held by exactly one running task if it is allocated, and by none if not.
pub record Booked (q : TaskQueue) (m : Monitor) : Type 0 where
  pub valid : IsValid q
  pub cpus : (c : ℤ) → total (holds_cpu c) q.tasks ≡ bit (has_cpu m c)
  pub gpus : (g : ℤ) → total (holds_gpu g) q.tasks ≡ bit (has_gpu m g)

-- Two entries together hold no more than all.
pub two-le-total :
    (f : Task → ℕ) (q : TaskQueue) (i j : ℕ)
    → IsValid q
    → i ≢ j
    → at f (find i q.tasks) + at f (find j q.tasks) ≤ total f q.tasks
two-le-total f q i j v n = omega (
  arith,
  total-erase f i 0 q.tasks v.ascending,
  at-le-total f j (erase i q.tasks),
  ap (at f) (find-erase j i q.tasks ∙ miss),
)
  where
    miss : (if i == j then none else find j q.tasks) ≡ find j q.tasks
    miss = ground arith

-- No CPU and no GPU is ever held by two running tasks.
pub Booked-exclusive :
    (q : TaskQueue) (m : Monitor) (t u : Task) (id : ℤ)
    → Booked q m
    → find t.id q.tasks ≡ some t
    → find u.id q.tasks ≡ some u
    → t.id ≢ u.id
    → t.status ≡ running
    → u.status ≡ running
    → ((contains id t.allocated_cpus && contains id u.allocated_cpus) ≡ false)
      × ((contains id t.allocated_gpus && contains id u.allocated_gpus) ≡ false)
Booked-exclusive q m t u id b f g n r s = (
  ground (arith, two-le-total (holds_cpu id) q t.id u.id b.valid n, b.cpus id),
  ground (arith, two-le-total (holds_gpu id) q t.id u.id b.valid n, b.gpus id),
)

-- One entry is overwritten: the books are kept if the monitor changes by what it held and holds.
overwrite-Booked :
    (q : TaskQueue) (m m' : Monitor) (id : ℕ) (t t' : Task)
    → Booked q m
    → find id q.tasks ≡ some t
    → t'.id ≡ t.id
    → ((c : ℤ) → bit (has_cpu m' c) + holds_cpu c t ≡ bit (has_cpu m c) + holds_cpu c t')
    → ((g : ℤ) → bit (has_gpu m' g) + holds_gpu g t ≡ bit (has_gpu m g) + holds_gpu g t')
    → Booked (overwrite q id t') m'
overwrite-Booked q m m' id t t' b f e hc hg = record {
  valid =
      put-IsValid q id t' b.valid (e ∙ (find-Keyed q.next_id id t q.tasks b.valid.keyed f).0)
        (find-Keyed q.next_id id t q.tasks b.valid.keyed f).1;
  cpus = λ c. omega (
    arith,
    total-put (holds_cpu c) id 0 t' q.tasks b.valid.ascending,
    ap (at (holds_cpu c)) f,
    b.cpus c,
    hc c,
  );
  gpus = λ g. omega (
    arith,
    total-put (holds_gpu g) id 0 t' q.tasks b.valid.ascending,
    ap (at (holds_gpu g)) f,
    b.gpus g,
    hg g,
  );
}

-- The monitor has the same allocations.
pub monitor-Booked :
    (q : TaskQueue) (m m' : Monitor)
    → Booked q m
    → ((c : ℤ) → has_cpu m' c ≡ has_cpu m c)
    → ((g : ℤ) → has_gpu m' g ≡ has_gpu m g)
    → Booked q m'
monitor-Booked q m m' b hc hg = record {
  valid = b.valid;
  cpus = λ c. b.cpus c ∙ ap bit (sym (hc c));
  gpus = λ g. b.gpus g ∙ ap bit (sym (hg g));
}

-- A task that is not running is overwritten by another such task.
pub idle-Booked :
    (q : TaskQueue) (m : Monitor) (id : ℕ) (t t' : Task)
    → Booked q m
    → find id q.tasks ≡ some t
    → t'.id ≡ t.id
    → status_eq t.status running ≡ false
    → status_eq t'.status running ≡ false
    → Booked (overwrite q id t') m
idle-Booked q m id t t' b f e n n' =
    overwrite-Booked q m m id t t' b f e (λ c. rw (n, n')) (λ g. rw (n, n'))

-- A pending task starts on an allocation.
pub start-Booked :
    (q : TaskQueue) (m m' : Monitor) (id : ℕ) (t : Task) (a : Allocation) (pid : ℤ) (now : ℕ)
    (ncpu ngpu : ℤ) (specific_cpus specific_gpus : List ℤ)
    → Booked q m
    → Allocated m ncpu ngpu specific_cpus specific_gpus m' a
    → find id q.tasks ≡ some t
    → t.status ≡ pending
    → Booked (overwrite q id (started t pid a.cpus a.gpus now)) m'
start-Booked q m m' id t a pid now ncpu ngpu specific_cpus specific_gpus b al f p =
    overwrite-Booked q m m' id t (started t pid a.cpus a.gpus now) b f refl
      (λ c. ground (
        arith,
        al.tracks.cpus.members c,
        Outside-contains m.cpu_monitor.allocated_cpus a.cpus c al.cpus.free,
      ))
      (λ g. ground (
        arith,
        al.tracks.gpus.members g,
        Outside-contains m.gpu_monitor.allocated_gpus a.gpus g al.gpus.free,
      ))

-- A running task holds only what is allocated.
holds-allocated :
    (q : TaskQueue) (m : Monitor) (id : ℕ) (t : Task)
    → Booked q m
    → find id q.tasks ≡ some t
    → ((c : ℤ) → holds_cpu c t ≤ bit (has_cpu m c)) × ((g : ℤ) → holds_gpu g t ≤ bit (has_gpu m g))
holds-allocated q m id t b f = (
  λ c. omega (arith, at-le-total (holds_cpu c) id q.tasks, ap (at (holds_cpu c)) f, b.cpus c),
  λ g. omega (arith, at-le-total (holds_gpu g) id q.tasks, ap (at (holds_gpu g)) f, b.gpus g),
)

-- A running task ends, and what it held is released.
pub end-Booked :
    (q : TaskQueue) (m : Monitor) (id : ℕ) (t t' : Task)
    → Booked q m
    → find id q.tasks ≡ some t
    → t.status ≡ running
    → t'.id ≡ t.id
    → status_eq t'.status running ≡ false
    → Booked (overwrite q id t') (release m t.allocated_cpus t.allocated_gpus)
end-Booked q m id t t' b f r e n =
    overwrite-Booked q m _ id t t' b f e
      (λ c. ground (
        arith,
        release_cpu m t.allocated_cpus t.allocated_gpus c,
        (holds-allocated q m id t b f).0 c,
      ))
      (λ g. ground (
        arith,
        release_gpu m t.allocated_cpus t.allocated_gpus g,
        (holds-allocated q m id t b f).1 g,
      ))

-- An entry is erased: the same for what it held.
pub erase-Booked :
    (q : TaskQueue) (m m' : Monitor) (id : ℕ) (t : Task)
    → Booked q m
    → IsValid (record q { tasks = erase id q.tasks })
    → find id q.tasks ≡ some t
    → ((c : ℤ) → bit (has_cpu m' c) + holds_cpu c t ≡ bit (has_cpu m c))
    → ((g : ℤ) → bit (has_gpu m' g) + holds_gpu g t ≡ bit (has_gpu m g))
    → Booked (record q { tasks = erase id q.tasks }) m'
erase-Booked q m m' id t b v f hc hg = record {
  valid = v;
  cpus = λ c. omega (
    arith,
    total-erase (holds_cpu c) id 0 q.tasks b.valid.ascending,
    ap (at (holds_cpu c)) f,
    b.cpus c,
    hc c,
  );
  gpus = λ g. omega (
    arith,
    total-erase (holds_gpu g) id 0 q.tasks b.valid.ascending,
    ap (at (holds_gpu g)) f,
    b.gpus g,
    hg g,
  );
}

-- A running task is erased, and what it held is released.
pub cancel-Booked :
    (q : TaskQueue) (m : Monitor) (id : ℕ) (t : Task)
    → Booked q m
    → IsValid (record q { tasks = erase id q.tasks })
    → find id q.tasks ≡ some t
    → t.status ≡ running
    → Booked (record q { tasks = erase id q.tasks }) (release m t.allocated_cpus t.allocated_gpus)
cancel-Booked q m id t b v f r =
    erase-Booked q m _ id t b v f
      (λ c. ground (
        arith,
        release_cpu m t.allocated_cpus t.allocated_gpus c,
        (holds-allocated q m id t b f).0 c,
      ))
      (λ g. ground (
        arith,
        release_gpu m t.allocated_cpus t.allocated_gpus g,
        (holds-allocated q m id t b f).1 g,
      ))

-- A task that is not running is erased.
pub forget-Booked :
    (q : TaskQueue) (m : Monitor) (id : ℕ) (t : Task)
    → Booked q m
    → IsValid (record q { tasks = erase id q.tasks })
    → find id q.tasks ≡ some t
    → status_eq t.status running ≡ false
    → Booked (record q { tasks = erase id q.tasks }) m
forget-Booked q m id t b v f n =
    erase-Booked q m m id t b v f (λ c. rw n (omega arith)) (λ g. rw n (omega arith))
