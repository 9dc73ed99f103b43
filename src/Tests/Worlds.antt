-- ===== src/Tests/Worlds.antt =====
-- A concrete world: a machine of four CPUs and two free GPUs, an insertion sort, and a scheduler.
use mathlib.Core.List.Perm
use myqueue.Prelude.{
  ℕ, ◌+◌, ◌≤◌, true, false, none, List, [], ◌∷◌, leb, Perm, All, if◌then◌else◌, arith, if_ind,
}
use myqueue.Prelude.Int.{pos}
use myqueue.Prelude.Text.{Bytes, text}
use myqueue.Task.{Task}
use myqueue.Queue.{SubmitRequest, new_queue}
use myqueue.Queue.Pending.{Ordered, IsSort}
use myqueue.Monitor.ProcStat.{Fpu}
use myqueue.Monitor.Gpu.{GpuInfo, new_gpu_monitor}
use myqueue.Monitor.Cpu.{new_cpu_monitor}
use myqueue.Monitor.Resource.{World, Monitor}
use myqueue.Monitor.Resource.Cpus.{IsShuffle}
use myqueue.Executor.{Os}
use myqueue.Scheduler.{Env, System}
use myqueue.Server.{PathKind, directory}
use myqueue.Tests.Values.{Value, values_json, plain_calendar}

insert_task : Task → List Task → List Task
insert_task t [] = t ∷ []
insert_task t (u ∷ us) =
    let later = insert_task t us in
    if leb t.submit_time u.submit_time then t ∷ u ∷ us else u ∷ later

unfoldable pub sort_tasks : List Task → List Task
unfolding insert_task
sort_tasks [] = []
sort_tasks (t ∷ ts) = insert_task t (sort_tasks ts)

All-later :
    (n m : ℕ) (ts : List Task)
    → n ≤ m
    → All (λ u. m ≤ u.submit_time) ts
    → All (λ u. n ≤ u.submit_time) ts
All-later n m [] h a = tt
All-later n m (t ∷ ts) h a = (omega (arith, a.0), All-later n m ts h a.1)

insert_task-All :
    (n : ℕ) (t : Task) (ts : List Task)
    → n ≤ t.submit_time
    → All (λ u. n ≤ u.submit_time) ts
    → All (λ u. n ≤ u.submit_time) (insert_task t ts)
unfolding insert_task
insert_task-All n t [] h a = (h, tt)
insert_task-All n t (u ∷ us) h a =
    if_ind (All (λ u. n ≤ u.submit_time)) (leb t.submit_time u.submit_time) (λ e. (h, a))
      (λ e. (a.0, insert_task-All n t us h a.1))

insert_task-Ordered : (t : Task) (ts : List Task) → Ordered ts → Ordered (insert_task t ts)
unfolding insert_task
insert_task-Ordered t [] o = (tt, tt)
insert_task-Ordered t (u ∷ us) o =
    if_ind Ordered (leb t.submit_time u.submit_time)
      (λ e. ((ground arith, All-later t.submit_time u.submit_time us (ground arith) o.0), o))
      (λ e. (insert_task-All u.submit_time t us (ground arith) o.0, insert_task-Ordered t us o.1))

insert_task-Perm : (t : Task) (ts : List Task) → Perm (insert_task t ts) (t ∷ ts)
unfolding insert_task
insert_task-Perm t [] = Perm.refl _
insert_task-Perm t (u ∷ us) =
    if_ind (λ vs. Perm vs (t ∷ u ∷ us)) (leb t.submit_time u.submit_time) (λ e. Perm.refl _)
      (λ e. Perm.trans (Perm.cons u (insert_task-Perm t us)) (Perm.swap t u us))

sort_tasks-Perm : (ts : List Task) → Perm (sort_tasks ts) ts
unfolding sort_tasks
sort_tasks-Perm [] = Perm.refl _
sort_tasks-Perm (t ∷ ts) =
    Perm.trans (insert_task-Perm t (sort_tasks ts)) (Perm.cons t (sort_tasks-Perm ts))

sort_tasks-Ordered : (ts : List Task) → Ordered (sort_tasks ts)
unfolding sort_tasks
sort_tasks-Ordered [] = tt
sort_tasks-Ordered (t ∷ ts) = insert_task-Ordered t (sort_tasks ts) (sort_tasks-Ordered ts)

pub sort_tasks-IsSort : IsSort sort_tasks
sort_tasks-IsSort = record { perm = sort_tasks-Perm; ordered = sort_tasks-Ordered }

-- Doubles that are small whole numbers, each its own pattern.
abbrev pub small_fpu : Fpu
small_fpu = record {
  flt = λ a b. false;
  fge = λ a b. false;
  fdiv = λ a b. 0;
  fmul = λ a b. 0;
  fmin = λ a b. a;
  fmax = λ a b. a;
  of_ull = λ n. n;
}

abbrev pub small_world : World
small_world = record {
  fpu = small_fpu;
  proc_stat = λ now. text "cpu0 1 0 0 9 0 0 0 0\n";
  nvidia_smi = λ now. text "0, 100, 0\n1, 100, 0\n";
  shuffle = λ now ids. ids;
}

pub small_IsShuffle : IsShuffle small_world
small_IsShuffle now ids = Perm.refl _

abbrev pub free_gpu : ℕ → GpuInfo
free_gpu n = record {
  device_id = pos n;
  memory_used_mb = 0;
  memory_total_mb = 8000;
  is_busy = false;
  is_allocated = false;
}

abbrev pub small_monitor : Monitor
small_monitor = record {
  gpu_monitor = record (new_gpu_monitor 2000 (pos 2)) {
    mock_mode = true;
    mock_data = free_gpu 0 ∷ free_gpu 1 ∷ [];
  };
  cpu_monitor = new_cpu_monitor 0 (pos 4) (pos 1000) (pos 100);
  excluded_cpus = [];
  excluded_gpus = [];
}

-- Processes start, are found running, and obey signals.
abbrev pub small_os : Os
small_os = record {
  fork = λ now. pos (100 + now);
  waitpid = λ now pid. (pos 0, 0);
  kill = λ now pid sig. pos 0;
}

abbrev pub small_env : Env Value
small_env = record {
  world = small_world;
  os = small_os;
  clock = λ now. now;
  sort = sort_tasks;
  json = values_json;
  calendar = plain_calendar;
  can_write = λ path. true;
}

abbrev pub small_system : System
small_system = record {
  queue = new_queue [];
  monitor = small_monitor;
  files = λ path. none;
  has_callback = true;
  notices = [];
  now = 1;
}

abbrev pub small_request : SubmitRequest
small_request = record {
  script_path = text "/a.sh";
  workdir = text "/w";
  ncpu = pos 2;
  ngpu = pos 1;
  specific_cpus = [];
  specific_gpus = [];
  log_file = [];
}

abbrev pub all_directories : Bytes → PathKind
all_directories path = directory
