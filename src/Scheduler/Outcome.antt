-- ===== src/Scheduler/Outcome.antt =====
-- What a call of `tryScheduleNext`, of `terminateTask` and a check of `checkRunningTasks` in
-- scheduler.cpp do to the queue, end by end.
use myqueue.Prelude.{
  ℕ, ◌≡◌, refl, ap, ◌∙◌, ◌⊎◌, inl, inr, Bool, true, false, Option, none, some, List, [], ◌∷◌,
  Option-cases, List-cases, Bool-cases,
}
use myqueue.Prelude.Int.{ℤ, pos, lez}
use myqueue.Prelude.Map.{find}
use myqueue.Task.{Task, pending, running, failed}
use myqueue.Queue.{TaskQueue, overwrite, started, ended, get_pending_tasks}
use myqueue.Queue.Invariant.{IsValid}
use myqueue.Queue.Pending.{IsSort, get_pending_tasks_head}
use myqueue.Monitor.Resource.{Monitor, Allocation, allocate}
use myqueue.Executor.{execute}
use myqueue.Scheduler.Ending.{notify-queue}
use myqueue.Scheduler.Starting.{set_task_running_pending, set_task_failed_pending}
use myqueue.Scheduler.{
  Env, System, start_failed, start_succeeded, start_task, schedule_task, try_schedule_next,
}

module _ {Value : Type 0} (env : Env Value) where
  -- What `allocate` and then `execute` answer for a task.
  abbrev pub allocation : System → Task → Option Allocation × Monitor × ℕ
  allocation s t = allocate env.world s.monitor s.now t.ncpu t.ngpu t.specific_cpus t.specific_gpus

  abbrev pub pid_of : System → Task → ℤ
  pid_of s t = (execute env.os (allocation s t).2).0

  -- The ends of an attempt to start the task `t`, with the result and the new state in `r`.
  pub data Attempt (s : System) (t : Task) (r : Bool × System) : Type 0 where
    refused : (allocation s t).0 ≡ none → r.0 ≡ false → r.1.queue ≡ s.queue → Attempt s t r
    not_started :
        (a : Allocation) (now : ℕ)
        → (allocation s t).0 ≡ some a
        → lez (pid_of s t) (pos 0) ≡ true
        → r.0 ≡ false
        → r.1.queue ≡ overwrite s.queue t.id (ended failed t now)
        → Attempt s t r
    runs :
        (a : Allocation) (now : ℕ)
        → (allocation s t).0 ≡ some a
        → lez (pid_of s t) (pos 0) ≡ false
        → r.0 ≡ true
        → r.1.queue ≡ overwrite s.queue t.id (started t (pid_of s t) a.cpus a.gpus now)
        → Attempt s t r

  module _ (s : System) (t : Task) (a : Allocation) (f : find t.id s.queue.tasks ≡ some t)
      (p : t.status ≡ pending) where
    start_failed-queue :
        (start_failed env s t a).queue ≡ overwrite s.queue t.id (ended failed t (env.clock s.now))
    unfolding start_failed
    start_failed-queue =
        notify-queue _ t.id pending failed
        ∙ ap (λ (o : Bool × TaskQueue). o.1)
            (set_task_failed_pending s.queue t (env.clock s.now) f p)

    start_succeeded_lem :
        (pid : ℤ)
        → ((start_succeeded env s t a pid).0 ≡ true)
          × ((start_succeeded env s t a pid).1.queue
              ≡ overwrite s.queue t.id (started t pid a.cpus a.gpus (env.clock s.now)))
    unfolding start_succeeded
    start_succeeded_lem pid =
        rw (set_task_running_pending s.queue t (env.clock s.now) f p pid a.cpus a.gpus)
          (refl, notify-queue _ t.id t.status running)

  schedule_task-Attempt :
      (s : System) (t : Task)
      → find t.id s.queue.tasks ≡ some t
      → t.status ≡ pending
      → Attempt s t (schedule_task env s t)
  unfolding schedule_task start_task
  schedule_task-Attempt s t f p = elim (Option-cases (allocation s t).0) [
    | inl e ↦ refused e (rw (e, schedule_task) refl) (rw (e, schedule_task) refl)
    | inr (a, e) ↦
        let s' = record s {
          monitor = (allocation s t).1;
          now = (execute env.os (allocation s t).2).1;
        } in
        elim (Bool-cases (lez (pid_of s t) (pos 0))) [
          | inl h ↦
              not_started a (env.clock s'.now) e h (rw (e, schedule_task) (rw h refl))
                (rw (e, schedule_task) (rw h (start_failed-queue s' t a f p)))
          | inr h ↦
              let ok = start_succeeded_lem s' t a f p (pid_of s t) in
              runs a (env.clock s'.now) e h (rw (e, schedule_task) (rw h ok.0))
                (rw (e, schedule_task) (rw h ok.1))
        ]
  ]

  -- If std::sort sorts and the queue is well formed, tryScheduleNext either finds no pending task and
  -- changes nothing, or tries the head of the pending list: the task stays as it is if `allocate`
  -- refuses, is marked as failed if its process does not start, and runs on the CPUs and GPUs of its
  -- allocation otherwise. The result is true in the last case only.
  pub try_schedule_next-Attempt :
      (s : System)
      → IsSort env.sort
      → IsValid s.queue
      → ((get_pending_tasks env.sort s.queue ≡ []) × (try_schedule_next env s ≡ (false, s)))
        ⊎ ((t : Task) × ((ts : List Task) × ((get_pending_tasks env.sort s.queue ≡ t ∷ ts)
                × Attempt s t (try_schedule_next env s))))
  unfolding try_schedule_next
  try_schedule_next-Attempt s so v = elim (List-cases (get_pending_tasks env.sort s.queue)) [
    | inl e ↦ inl (e, rw (e, try_schedule_next) refl)
    | inr (t, (ts, e)) ↦
        let h = get_pending_tasks_head env.sort s.queue t ts so v e in
        inr (t, (ts, (e, rw (e, try_schedule_next) (schedule_task-Attempt s t h.0 h.1))))
  ]
