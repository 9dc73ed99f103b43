-- ===== src/Scheduler/Ending.antt =====
-- The books of scheduler.cpp, and what terminateTask does to them.
use myqueue.Prelude.{
  ℕ, ◌≡◌, ◌≢◌, refl, ap, ◌∙◌, ◌⊎◌, inl, inr, Bool, true, false, not, ◌||◌, none, some, arith,
  Option-cases, if_ind, if◌then◌else◌, ◌==◌, subst,
}
use myqueue.Prelude.Int.{ℤ, pos, lez}
use myqueue.Prelude.Map.{find, find-erase, erase}
use myqueue.Task.{Task, TaskStatus, running, cancelled, status_eq}
use myqueue.Queue.{TaskQueue, overwrite, finished, set_task_completed, delete_task}
use myqueue.Queue.Cases.{delete_task_cases}
use myqueue.Queue.Invariant.{IsValid, delete_task-IsValid}
use myqueue.Monitor.Resource.{Monitor, release}
use myqueue.Executor.{terminate}
use myqueue.Scheduler.Booking.{Booked, cancel-Booked}
use myqueue.Scheduler.{
  Env, System, notify_state_change, wait_for_end, end_task, terminate_running, terminate_task,
}

-- The books of the whole state.
abbrev pub Balanced : System → Type 0
Balanced s = Booked s.queue s.monitor

pub notify-Balanced :
    (s : System) (id : ℕ) (old new : TaskStatus)
    → Balanced s
    → Balanced (notify_state_change s id old new)
unfolding notify_state_change
notify-Balanced s id old new b = if_ind Balanced s.has_callback (λ e. b) (λ e. b)

-- The callback and the file are no part of the books.
pub notify-queue :
    (s : System) (id : ℕ) (old new : TaskStatus)
    → (notify_state_change s id old new).queue ≡ s.queue
unfolding notify_state_change
notify-queue s id old new =
    if_ind (λ (r : System). r.queue ≡ s.queue) s.has_callback (λ e. refl) (λ e. refl)

pub notify-monitor :
    (s : System) (id : ℕ) (old new : TaskStatus)
    → (notify_state_change s id old new).monitor ≡ s.monitor
unfolding notify_state_change
notify-monitor s id old new =
    if_ind (λ (r : System). r.monitor ≡ s.monitor) s.has_callback (λ e. refl) (λ e. refl)

-- Only the entry of the deleted task changes.
pub delete_task-others :
    (q : TaskQueue) (id now j : ℕ) → id ≢ j → find j (delete_task q id now).1.tasks ≡ find j q.tasks
delete_task-others q id now j n = elim (delete_task_cases q id now) [
  | inl (e, d) ↦ rw d refl
  | inr (u, g, d) ↦ rw d (find-erase j id q.tasks ∙ miss)
]
  where
    miss : (if id == j then none else find j q.tasks) ≡ find j q.tasks
    miss = ground arith

pub set_task_completed_running :
    (q : TaskQueue) (id : ℕ) (t : Task) (code : ℤ) (now : ℕ)
    → find id q.tasks ≡ some t
    → t.status ≡ running
    → set_task_completed q id code now ≡ (true, overwrite q id (finished t code now))
unfolding set_task_completed
set_task_completed_running q id t code now f r = rw (f, set_task_completed) (rw r refl)

module _ {Value : Type 0} (env : Env Value) where
  end_task-Balanced :
      (s : System) (id : ℕ) (t : Task)
      → Balanced s
      → find id s.queue.tasks ≡ some t
      → t.status ≡ running
      → Balanced (end_task env s id t)
  unfolding end_task
  end_task-Balanced s id t b f r = notify-Balanced _ id t.status cancelled (
      cancelled_books (delete_task_cases s.queue id (env.clock s.now))
        (delete_task-IsValid s.queue id (env.clock s.now) b.valid))
    where
      m : Monitor
      m = release s.monitor t.allocated_cpus t.allocated_gpus

      cancelled_books :
          ((find id s.queue.tasks ≡ none)
              × (delete_task s.queue id (env.clock s.now) ≡ (false, s.queue)))
            ⊎ ((u : Task) × (find id s.queue.tasks ≡ some u)
                × (delete_task s.queue id (env.clock s.now)
                    ≡ (true, record s.queue { tasks = erase id s.queue.tasks })))
          → IsValid (delete_task s.queue id (env.clock s.now)).1
          → Booked (delete_task s.queue id (env.clock s.now)).1 m
      cancelled_books (inl (e, d)) v = absurd (ground arith)
      cancelled_books (inr (u, g, d)) v =
          rw d (cancel-Booked s.queue s.monitor id t b (subst IsValid (ap (λ r. r.1) d) v) f r)

  pub end_task-others :
      (s : System) (id j : ℕ) (t : Task)
      → id ≢ j
      → find j (end_task env s id t).queue.tasks ≡ find j s.queue.tasks
  unfolding end_task
  end_task-others s id j t n =
      ap (λ (q : TaskQueue). find j q.tasks) (notify-queue _ id t.status cancelled)
      ∙ delete_task-others s.queue id (env.clock s.now) j n

  terminate_running-Balanced :
      (s : System) (id : ℕ) (t : Task)
      → Balanced s
      → find id s.queue.tasks ≡ some t
      → t.status ≡ running
      → Balanced (terminate_running env s id t).1
  unfolding terminate_running
  terminate_running-Balanced s id t b f r =
      if_ind (λ (o : Bool × System). Balanced o.1) (terminate env.os s.now t.pid false).0
        (λ h.
          end_task-Balanced
            (record s { now = wait_for_end env (terminate env.os s.now t.pid false).1 t.pid }) id t
            b f r)
        (λ h. b)

  -- A termination keeps the books, whether it succeeds or not.
  pub terminate_task-Balanced :
      (s : System) (id : ℕ) → Balanced s → Balanced (terminate_task env s id).1
  unfolding terminate_task
  terminate_task-Balanced s id b = elim (Option-cases (find id s.queue.tasks)) [
    | inl e ↦ rw (e, terminate_task) b
    | inr (t, e) ↦
        rw (e, terminate_task)
          (if_ind (λ (r : Bool × System). Balanced r.1)
            (not (status_eq t.status running) || lez t.pid (pos 0)) (λ h. b)
            (λ h. terminate_running-Balanced s id t b e (ground arith)))
  ]
