-- ===== src/Scheduler/Ends.antt =====
-- What a call of terminateTask and a check of checkRunningTasks in scheduler.cpp do to the queue and
-- the monitor, end by end.
use myqueue.Prelude.{
  ℕ, ◌≡◌, refl, ap, ◌∙◌, ◌⊎◌, inl, inr, Bool, true, false, not, ◌||◌, none, some, Option-cases,
  Bool-cases, if_ind, arith,
}
use myqueue.Prelude.Int.{ℤ, pos, lez}
use myqueue.Prelude.Map.{find, find-erase}
use myqueue.Task.{Task, running, cancelled, completed, status_eq}
use myqueue.Queue.{TaskQueue, overwrite, finished, delete_task}
use myqueue.Queue.Cases.{delete_task_cases}
use myqueue.Monitor.Resource.{release}
use myqueue.Executor.{terminate, check_status}
use myqueue.Scheduler.Ending.{notify-queue, notify-monitor, set_task_completed_running}
use myqueue.Scheduler.{
  Env, System, end_task, terminate_running, terminate_task, wait_for_end, handle_task_completion,
  check_task,
}

pub find-delete_task : (q : TaskQueue) (id now : ℕ) → find id (delete_task q id now).1.tasks ≡ none
find-delete_task q id now = elim (delete_task_cases q id now) [
  | inl (e, d) ↦ rw d e
  | inr (u, g, d) ↦ rw d (find-erase id id q.tasks ∙ ground arith)
]

module _ {Value : Type 0} (env : Env Value) where
  -- The ends of terminateTask, with the result and the new state in `r`.
  pub data Termination (s : System) (id : ℕ) (r : Bool × System) : Type 0 where
    refused : r.0 ≡ false → r.1.queue ≡ s.queue → r.1.monitor ≡ s.monitor → Termination s id r
    gone :
        (t : Task)
        → find id s.queue.tasks ≡ some t
        → t.status ≡ running
        → r.0 ≡ true
        → find id r.1.queue.tasks ≡ none
        → r.1.monitor ≡ release s.monitor t.allocated_cpus t.allocated_gpus
        → Termination s id r

  pub end_task_lem :
      (s : System) (id : ℕ) (t : Task)
      → (find id (end_task env s id t).queue.tasks ≡ none)
        × ((end_task env s id t).monitor ≡ release s.monitor t.allocated_cpus t.allocated_gpus)
  unfolding end_task
  end_task_lem s id t = (
    ap (λ (q : TaskQueue). find id q.tasks) (notify-queue _ id t.status cancelled)
        ∙ find-delete_task s.queue id (env.clock s.now),
    notify-monitor _ id t.status cancelled,
  )

  terminate_running-Termination :
      (s : System) (id : ℕ) (t : Task)
      → find id s.queue.tasks ≡ some t
      → t.status ≡ running
      → Termination s id (terminate_running env s id t)
  unfolding terminate_running
  terminate_running-Termination s id t f p =
      let now = wait_for_end env (terminate env.os s.now t.pid false).1 t.pid in
      let ended = end_task_lem (record s { now = now }) id t in
      if_ind (Termination s id) (terminate env.os s.now t.pid false).0
        (λ h. gone t f p refl ended.0 ended.1) (λ h. refused refl refl refl)

  -- terminateTask either fails, with the queue and the monitor as they were, or succeeds on a running
  -- task, which is in the queue no more, and whose CPUs and GPUs are released.
  pub terminate_task-Termination :
      (s : System) (id : ℕ) → Termination s id (terminate_task env s id)
  unfolding terminate_task
  terminate_task-Termination s id = elim (Option-cases (find id s.queue.tasks)) [
    | inl e ↦ rw (e, terminate_task) (refused refl refl refl)
    | inr (t, e) ↦
        rw (e, terminate_task)
          (if_ind (Termination s id) (not (status_eq t.status running) || lez t.pid (pos 0))
            (λ h. refused refl refl refl)
            (λ h. terminate_running-Termination s id t e (ground arith)))
  ]

  handle_task_completion_lem :
      (s : System) (t : Task) (code : ℤ)
      → find t.id s.queue.tasks ≡ some t
      → t.status ≡ running
      → let s' = handle_task_completion env s t.id code in
        (s'.queue ≡ overwrite s.queue t.id (finished t code (env.clock s.now)))
        × (s'.monitor ≡ release s.monitor t.allocated_cpus t.allocated_gpus)
  unfolding handle_task_completion
  handle_task_completion_lem s t code f r =
      rw (f, handle_task_completion)
        (rw (set_task_completed_running s.queue t.id t code (env.clock s.now) f r)
          (notify-queue _ t.id t.status completed, notify-monitor _ t.id t.status completed))

  pub check_task_lem :
      (s : System) (t : Task)
      → find t.id s.queue.tasks ≡ some t
      → t.status ≡ running
      → lez t.pid (pos 0) ≡ false
      → let (status, now) = check_status env.os s.now t.pid in
        let s' = check_task env s t in
        ((status.running ≡ true) × ((s'.queue ≡ s.queue) × (s'.monitor ≡ s.monitor)))
        ⊎ ((status.running ≡ false)
            × ((s'.queue ≡ overwrite s.queue t.id (finished t status.exit_code (env.clock now)))
                × (s'.monitor ≡ release s.monitor t.allocated_cpus t.allocated_gpus)))
  unfolding check_task
  check_task_lem s t f r p = elim (Bool-cases (check_status env.os s.now t.pid).0.running) [
    | inl e ↦ inl (e, rw (p, e, check_task) (refl, refl))
    | inr e ↦
        let (status, now) = check_status env.os s.now t.pid in
        inr (
          e,
          rw (p, e, check_task)
              (handle_task_completion_lem (record s { now = now }) t status.exit_code f r),
        )
  ]
