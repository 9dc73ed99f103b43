-- ===== src/Server.antt =====
-- The request handlers of src/core/server.cpp that change the state, on parsed requests, and the
-- start of the server. Log messages are left out; a response is the values that its JSON object gets.
pub mod Books
pub mod Histories
pub mod Restart
pub mod Attempts
pub mod Outcome
pub mod Queries
pub mod Dispatch
pub mod Progress
pub mod Setup
pub mod Shares
pub mod Durable
use myqueue.Prelude.{
  ℕ, zero, suc, ◌+◌, Bool, true, false, not, ◌||◌, none, some, List, [], ◌∷◌, if◌then◌else◌, ◌++◌,
}
use myqueue.Prelude.Int.{ℤ, pos, negsuc}
use myqueue.Prelude.Text.{Bytes}
use myqueue.Task.{Task, pending, running, status_eq}
use myqueue.Queue.{
  SubmitRequest, submit, get_task, get_all_tasks, get_running_tasks, set_task_failed, delete_task,
}
use myqueue.Queue.Persist.{load}
use myqueue.Protocol.Responses.{DeleteAllResponse}
use myqueue.Executor.{check_status}
use myqueue.Scheduler.{Env, System, save_in, terminate_task}

-- What stat tells of a path.
pub data PathKind : Type 0 where
  missing : PathKind
  directory : PathKind
  other : PathKind

abbrev pub exists : PathKind → Bool
exists missing = false
exists directory = true
exists other = true

abbrev pub is_directory : PathKind → Bool
is_directory missing = false
is_directory directory = true
is_directory other = false

-- The responses of handleSubmit.
pub data Submitted : Type 0 where
  script_not_found : Bytes → Submitted
  workdir_not_found : Bytes → Submitted
  task_id : ℕ → Submitted

-- The entries of handleDelete's response.
pub data Deleted : Type 0 where
  not_found : Deleted
  termination_failed : Deleted
  terminated : Deleted
  deleted : Bool → Deleted

abbrev pub increment : ℤ → ℤ
increment (pos n) = pos (suc n)
increment (negsuc zero) = pos 0
increment (negsuc (suc n)) = negsuc n

abbrev pub no_deletion : DeleteAllResponse
no_deletion = record {
  deleted_count = pos 0;
  running_terminated = pos 0;
  pending_deleted = pos 0;
  completed_deleted = pos 0;
}

module _ {Value : Type 0} (env : Env Value) where
  unfoldable pub handle_submit : (Bytes → PathKind) → System → SubmitRequest → Submitted × System
  handle_submit stat s req =
      let (id, q) = submit s.queue req (env.clock s.now) in
      if not (exists (stat req.script_path))
      then (script_not_found req.script_path, s)
      else if not (exists (stat req.workdir)) || not (is_directory (stat req.workdir))
      then (workdir_not_found req.workdir, s)
      else (task_id id, save_in env (record s { queue = q }))

  -- Two attempts to terminate a running task.
  unfoldable pub terminate_twice : System → ℕ → Bool × System
  terminate_twice s id =
      let (done, s') = terminate_task env s id in
      if done then (true, s') else terminate_task env s' id

  -- `deleteTask` on the state.
  unfoldable pub delete_in : System → ℕ → Bool × System
  delete_in s id =
      let (done, q) = delete_task s.queue id (env.clock s.now) in (done, record s { queue = q })

  -- The body of the loop of handleDelete, for a task with the status read before.
  unfoldable pub delete_found : System → ℕ → Task → Deleted × System
  delete_found s id task =
      let (ended, s1) = terminate_twice s id in
      let (done, s2) = delete_in s id in
      if status_eq task.status running
      then (if ended then terminated else termination_failed, s1)
      else (deleted done, s2)

  unfoldable pub delete_one : System → ℕ → Deleted × System
  delete_one s id = elim (get_task s.queue id) [
    | none ↦ (not_found, s)
    | some task ↦ delete_found s id task
  ]

  unfoldable pub delete_each : System → List ℕ → List (ℕ × Deleted) × System
  delete_each s [] = ([], s)
  delete_each s (id ∷ ids) =
      let (result, s') = delete_one s id in
      let (results, s'') = delete_each s' ids in ((id, result) ∷ results, s'')

  unfoldable pub handle_delete : System → List ℕ → List (ℕ × Deleted) × System
  handle_delete s ids = let (results, s') = delete_each s ids in (results, save_in env s')

  abbrev count_running : DeleteAllResponse → DeleteAllResponse
  count_running resp = record resp {
    running_terminated = increment resp.running_terminated;
    deleted_count = increment resp.deleted_count;
  }

  abbrev count_pending : DeleteAllResponse → DeleteAllResponse
  count_pending resp = record resp {
    pending_deleted = increment resp.pending_deleted;
    deleted_count = increment resp.deleted_count;
  }

  abbrev count_completed : DeleteAllResponse → DeleteAllResponse
  count_completed resp = record resp {
    completed_deleted = increment resp.completed_deleted;
    deleted_count = increment resp.deleted_count;
  }

  -- The body of the loop of handleDeleteAll: it goes by the status in the list, which was copied
  -- before the loop.
  unfoldable pub delete_listed : DeleteAllResponse → System → Task → DeleteAllResponse × System
  delete_listed resp s task =
      let (ended, s1) = terminate_twice s task.id in
      let (done, s2) = delete_in s task.id in
      if status_eq task.status running
      then (if ended then count_running resp else resp, s1)
      else if status_eq task.status pending
      then (if done then count_pending resp else resp, s2)
      else (if done then count_completed resp else resp, s2)

  unfoldable pub delete_all_listed :
      DeleteAllResponse → System → List Task → DeleteAllResponse × System
  delete_all_listed resp s [] = (resp, s)
  delete_all_listed resp s (task ∷ tasks) =
      let (resp', s') = delete_listed resp s task in delete_all_listed resp' s' tasks

  unfoldable pub handle_delete_all : System → DeleteAllResponse × System
  handle_delete_all s =
      let (resp, s') = delete_all_listed no_deletion s (get_all_tasks s.queue) in
      (resp, save_in env s')

  -- The body of the loop of `start` over the running tasks.
  unfoldable pub recover_task : System → Task → System
  recover_task s task =
      let (status, now') = check_status env.os s.now task.pid in
      record s {
        now = now';
        queue =
            if status.running
            then s.queue
            else (set_task_failed s.queue task.id (env.clock now')).1;
      }

  unfoldable pub recover_tasks : System → List Task → System
  recover_tasks s [] = s
  recover_tasks s (task ∷ tasks) = recover_tasks (recover_task s task) tasks

  -- `start`, up to the threads.
  unfoldable pub start : System → System
  start s =
      let s' = record s { queue = load env.json env.calendar s.queue s.files } in
      recover_tasks s' (get_running_tasks s'.queue)
