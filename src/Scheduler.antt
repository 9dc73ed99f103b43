-- ===== src/Scheduler.antt =====
-- The scheduler: include/myqueue/scheduler.h and src/core/scheduler.cpp. A method runs here without
-- a method of another thread in between. The state is all that its methods change: the queue, the
-- monitor, the files, the calls of the callback, and the moment, which counts the questions to the
-- world.
pub mod Booking
pub mod Starting
pub mod Ending
pub mod Checking
pub mod Late
pub mod Outcome
pub mod Ends
pub mod Progress
pub mod Grants
pub mod Shares
use myqueue.Prelude.{
  ℕ, ◌+◌, Bool, true, false, not, ◌||◌, none, some, List, [], ◌∷◌, length, is_some, if◌then◌else◌,
}
use myqueue.Prelude.Int.{ℤ, pos, lez}
use myqueue.Prelude.Text.{Bytes}
use myqueue.Json.{Json, Calendar}
use myqueue.Task.{Task, TaskStatus, pending, running, completed, failed, cancelled, status_eq}
use myqueue.Queue.{
  TaskQueue, get_task, get_pending_tasks, get_running_tasks, set_task_running, set_task_completed,
  set_task_failed, delete_task,
}
use myqueue.Queue.Persist.{Files, save}
use myqueue.Monitor.Resource.{World, Monitor, Allocation, allocate, release}
use myqueue.Executor.{Os, execute, check_status, terminate, wait_for}

-- What the scheduler is given: the world, the system calls, the clock by moment, std::sort by
-- submission time, and what `save` needs.
pub record Env (Value : Type 0) : Type 0 where
  pub world : World
  pub os : Os
  pub clock : ℕ → ℕ
  pub sort : List Task → List Task
  pub json : Json Value
  pub calendar : Calendar
  pub can_write : Bytes → Bool

-- One call of the callback.
pub record Notice : Type 0 where
  pub task_id : ℕ
  pub old_status : TaskStatus
  pub new_status : TaskStatus

pub record System : Type 0 where
  pub queue : TaskQueue
  pub monitor : Monitor
  pub files : Files
  pub has_callback : Bool
  pub notices : List Notice
  pub now : ℕ

unfoldable pub notify_state_change : System → ℕ → TaskStatus → TaskStatus → System
notify_state_change s id old new =
    if s.has_callback
    then record s {
      notices = record { task_id = id; old_status = old; new_status = new } ∷ s.notices;
    }
    else s

abbrev pub release_in : System → List ℤ → List ℤ → System
release_in s cpus gpus = record s { monitor = release s.monitor cpus gpus }

module _ {Value : Type 0} (env : Env Value) where
  abbrev pub save_in : System → System
  save_in s = record s { files = save env.json env.calendar env.can_write s.queue s.files }

  -- The end of `tryScheduleNext` when the process could not be started.
  unfoldable pub start_failed : System → Task → Allocation → System
  start_failed s task a =
      let s' = release_in s a.cpus a.gpus in
      notify_state_change
        (record s' { queue = (set_task_failed s'.queue task.id (env.clock s'.now)).1 }) task.id
        pending failed

  -- Its end when the process runs.
  unfoldable pub start_succeeded : System → Task → Allocation → ℤ → Bool × System
  start_succeeded s task a pid =
      let (done, q) = set_task_running s.queue task.id pid a.cpus a.gpus (env.clock s.now) in
      let (killed, now') = terminate env.os s.now pid true in
      if done
      then (
        true,
        save_in (notify_state_change (record s { queue = q }) task.id task.status running),
      )
      else (false, release_in (record s { queue = q; now = now' }) a.cpus a.gpus)

  -- From the start of the process on.
  unfoldable pub start_task : System → Task → Allocation → Bool × System
  start_task s task a =
      let (pid, now') = execute env.os s.now in
      let s' = record s { now = now' } in
      if lez pid (pos 0) then (false, start_failed s' task a) else start_succeeded s' task a pid

  unfoldable pub schedule_task : System → Task → Bool × System
  schedule_task s task =
      let (allocation, m, now') =
        allocate env.world s.monitor s.now task.ncpu task.ngpu task.specific_cpus
          task.specific_gpus in
      let s' = record s { monitor = m; now = now' } in
      elim allocation [ none ↦ (false, s') | some a ↦ start_task s' task a ]

  -- The result, and the new state.
  unfoldable pub try_schedule_next : System → Bool × System
  try_schedule_next s = elim (get_pending_tasks env.sort s.queue) [
    | [] ↦ (false, s)
    | task ∷ tasks ↦ schedule_task s task
  ]

  abbrev pub schedule_once : System → Bool × System
  schedule_once = try_schedule_next

  -- Both branches of the source on the exit code do the same.
  unfoldable pub handle_task_completion : System → ℕ → ℤ → System
  handle_task_completion s id exit_code = elim (get_task s.queue id) [
    | none ↦ s
    | some task ↦
        let s' = release_in s task.allocated_cpus task.allocated_gpus in
        save_in (
          notify_state_change
            (record s' { queue = (set_task_completed s'.queue id exit_code (env.clock s'.now)).1 })
            id task.status completed)
  ]

  -- The body of the loop of `checkRunningTasks`.
  unfoldable pub check_task : System → Task → System
  check_task s task =
      let (status, now') = check_status env.os s.now task.pid in
      let s' = record s { now = now' } in
      if lez task.pid (pos 0)
      then s
      else if not status.running
      then handle_task_completion s' task.id status.exit_code
      else s'

  unfoldable pub check_tasks : System → List Task → System
  check_tasks s [] = s
  check_tasks s (task ∷ tasks) = check_tasks (check_task s task) tasks

  unfoldable pub check_running_tasks : System → System
  check_running_tasks s = check_tasks s (get_running_tasks s.queue)

  -- The waits of `terminateTask`, with SIGKILL if the first is in vain: the moment after them.
  unfoldable pub wait_for_end : ℕ → ℤ → ℕ
  wait_for_end now pid =
      let (code, now1) = wait_for env.os now pid (pos 2000) in
      let (killed, now2) = terminate env.os now1 pid true in
      let (code', now3) = wait_for env.os now2 pid (pos 1000) in if is_some code then now1 else now3

  -- What `terminateTask` does after a signal was delivered.
  unfoldable pub end_task : System → ℕ → Task → System
  end_task s id task =
      let s' = release_in s task.allocated_cpus task.allocated_gpus in
      save_in (
        notify_state_change (record s' { queue = (delete_task s'.queue id (env.clock s'.now)).1 })
          id task.status cancelled)

  unfoldable pub terminate_running : System → ℕ → Task → Bool × System
  terminate_running s id task =
      let (sent, now') = terminate env.os s.now task.pid false in
      if sent
      then (true, end_task (record s { now = wait_for_end now' task.pid }) id task)
      else (false, record s { now = now' })

  unfoldable pub terminate_task : System → ℕ → Bool × System
  terminate_task s id = elim (get_task s.queue id) [
    | none ↦ (false, s)
    | some task ↦
        if not (status_eq task.status running) || lez task.pid (pos 0)
        then (false, s)
        else terminate_running s id task
  ]

abbrev pub get_running_count : System → ℕ
get_running_count s = length (get_running_tasks s.queue)
