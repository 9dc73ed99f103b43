-- ===== src/Queue.antt =====
-- The task queue: include/myqueue/task_queue.h and src/core/task_queue.cpp. Each operation holds the
-- mutex for its whole body, and is a function from the queue to the queue. A call of
-- system_clock::now() is an argument.
pub mod Cases
pub mod Invariant
pub mod Lifecycle
pub mod Pending
pub mod IdRange
pub mod Persist
pub mod Batch
pub mod Requests
pub mod Spec
use myqueue.Prelude.{
  ℕ, suc, ◌+◌, ◌%◌, ◌^◌, Bool, true, false, not, ◌&&◌, Option, none, some, List, [], ◌∷◌, length,
  is_empty, keep, if◌then◌else◌,
}
use myqueue.Prelude.Int.{ℤ, pos}
use myqueue.Prelude.Map.{find, put, erase, values}
use myqueue.Prelude.Text.{Bytes}
use myqueue.Task.{
  Task, TaskStatus, pending, running, completed, failed, cancelled, status_eq, is_terminal,
}

-- protocol.h: what a client asks for.
pub record SubmitRequest : Type 0 where
  pub script_path : Bytes
  pub workdir : Bytes
  pub ncpu : ℤ
  pub ngpu : ℤ
  pub specific_cpus : List ℤ
  pub specific_gpus : List ℤ
  pub log_file : Bytes

pub record TaskQueue : Type 0 where
  pub data_dir : Bytes
  pub tasks : List (ℕ × Task)
  pub next_id : ℕ

-- The constructor.
unfoldable pub new_queue : Bytes → TaskQueue
new_queue dir = record { data_dir = dir; tasks = []; next_id = 1 }

-- The range of uint64_t.
abbrev pub u64_mod : ℕ
u64_mod = 2 ^ 64

-- The task that `submit` makes of a request.
unfoldable pub new_task : ℕ → SubmitRequest → ℕ → Task
new_task id req now = record {
  id = id;
  script_path = req.script_path;
  workdir = req.workdir;
  ncpu = req.ncpu;
  ngpu = req.ngpu;
  specific_cpus = req.specific_cpus;
  specific_gpus = req.specific_gpus;
  log_file = req.log_file;
  allocated_cpus = [];
  allocated_gpus = [];
  status = pending;
  pid = pos 0;
  exit_code = pos 0;
  submit_time = now;
  start_time = none;
  end_time = none;
}

unfoldable pub submit : TaskQueue → SubmitRequest → ℕ → ℕ × TaskQueue
submit q req now = (
  q.next_id,
  record q {
    tasks = put q.next_id (new_task q.next_id req now) q.tasks;
    next_id = (q.next_id + 1) % u64_mod;
  },
)

-- The request that `submitBatch` makes for one directory.
abbrev pub batch_request : Bytes → ℤ → ℤ → Bytes → SubmitRequest
batch_request script ncpu ngpu workdir = record {
  script_path = script;
  workdir = workdir;
  ncpu = ncpu;
  ngpu = ngpu;
  specific_cpus = [];
  specific_gpus = [];
  log_file = [];
}

-- `clock i` is the time at the i-th submission.
unfoldable pub submit_batch : TaskQueue → Bytes → List Bytes → ℤ → ℤ → (ℕ → ℕ) → List ℕ × TaskQueue
submit_batch q script [] ncpu ngpu clock = ([], q)
submit_batch q script (workdir ∷ workdirs) ncpu ngpu clock =
    let (id, q') = submit q (batch_request script ncpu ngpu workdir) (clock 0) in
    let (ids, q'') = submit_batch q' script workdirs ncpu ngpu (λ i. clock (suc i)) in
    (id ∷ ids, q'')

abbrev pub get_task : TaskQueue → ℕ → Option Task
get_task q id = find id q.tasks

unfoldable pub get_all_tasks : TaskQueue → List Task
get_all_tasks q = values q.tasks

unfoldable pub get_running_tasks : TaskQueue → List Task
get_running_tasks q = keep (λ t. status_eq t.status running) (values q.tasks)

-- `sort` is std::sort by `submit_time`, whose order of equal times is not specified.
unfoldable pub get_pending_tasks : (List Task → List Task) → TaskQueue → List Task
get_pending_tasks sort q = sort (keep (λ t. status_eq t.status pending) (values q.tasks))

-- The entry is changed in place.
abbrev pub overwrite : TaskQueue → ℕ → Task → TaskQueue
overwrite q id task = record q { tasks = put id task q.tasks }

-- What each of the next four operations writes into the entry.
abbrev pub started : Task → ℤ → List ℤ → List ℤ → ℕ → Task
started task pid cpus gpus now = record task {
  status = running;
  pid = pid;
  allocated_cpus = cpus;
  allocated_gpus = gpus;
  start_time = some now;
}

abbrev pub finished : Task → ℤ → ℕ → Task
finished task exit_code now = record task {
  status = completed;
  exit_code = exit_code;
  end_time = some now;
}

abbrev pub ended : TaskStatus → Task → ℕ → Task
ended status task now = record task { status = status; end_time = some now }

unfoldable pub set_task_running : TaskQueue → ℕ → ℤ → List ℤ → List ℤ → ℕ → Bool × TaskQueue
set_task_running q id pid cpus gpus now = elim (find id q.tasks) [
  | none ↦ (false, q)
  | some task ↦
      if not (status_eq task.status pending)
      then (false, q)
      else (true, overwrite q id (started task pid cpus gpus now))
]

unfoldable pub set_task_completed : TaskQueue → ℕ → ℤ → ℕ → Bool × TaskQueue
set_task_completed q id exit_code now = elim (find id q.tasks) [
  | none ↦ (false, q)
  | some task ↦
      if not (status_eq task.status running)
      then (false, q)
      else (true, overwrite q id (finished task exit_code now))
]

unfoldable pub set_task_failed : TaskQueue → ℕ → ℕ → Bool × TaskQueue
set_task_failed q id now = elim (find id q.tasks) [
  | none ↦ (false, q)
  | some task ↦
      if not (status_eq task.status pending) && not (status_eq task.status running)
      then (false, q)
      else (true, overwrite q id (ended failed task now))
]

-- `deleteTask` marks a task that is not finished, and erases the entry in either case.
unfoldable pub delete_task : TaskQueue → ℕ → ℕ → Bool × TaskQueue
delete_task q id now = elim (find id q.tasks) [
  | none ↦ (false, q)
  | some task ↦
      let marked =
        if not (is_terminal task) then put id (ended cancelled task now) q.tasks else q.tasks in
      (true, record q { tasks = erase id marked })
]

-- `clock i` is the time at the i-th deletion.
unfoldable pub delete_tasks : TaskQueue → List ℕ → (ℕ → ℕ) → List Bool × TaskQueue
delete_tasks q [] clock = ([], q)
delete_tasks q (id ∷ ids) clock =
    let (r, q') = delete_task q id (clock 0) in
    let (rs, q'') = delete_tasks q' ids (λ i. clock (suc i)) in (r ∷ rs, q'')

abbrev pub get_next_id : TaskQueue → ℕ
get_next_id q = q.next_id

abbrev pub size : TaskQueue → ℕ
size q = length q.tasks

abbrev pub empty : TaskQueue → Bool
empty q = is_empty q.tasks

unfoldable pub clear : TaskQueue → TaskQueue
clear q = record q { tasks = []; next_id = 1 }
