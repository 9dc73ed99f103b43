-- ===== src/Server/Durable/Starting.antt =====
-- What the disk holds of the queue through tryScheduleNext of scheduler.cpp.
use myqueue.Prelude.{◌≡◌, refl, ◌⊎◌, inl, inr, Bool, some, if_ind, Option-cases, List-cases}
use myqueue.Prelude.Int.{ℤ, pos, lez}
use myqueue.Prelude.Map.{find}
use myqueue.Task.{Task, pending, running, failed}
use myqueue.Queue.{overwrite, started, ended, get_pending_tasks}
use myqueue.Queue.Invariant.{IsValid}
use myqueue.Queue.Pending.{IsSort, get_pending_tasks_head}
use myqueue.Monitor.Resource.{Allocation, allocate}
use myqueue.Executor.{execute}
use myqueue.Scheduler.{
  Env, System, notify_state_change, start_failed, start_succeeded, start_task, schedule_task,
  try_schedule_next,
}
use myqueue.Scheduler.Starting.{set_task_running_pending, set_task_failed_pending}
use myqueue.Scheduler.Grants.{AtHome, Keeps-refl, notify-Keeps}
use myqueue.Scheduler.Shares.{start_failed-Keeps}
use myqueue.Server.Durable.{OnDisk, Settled, Lags-failed}

module _ {Value : Type 0} (env : Env Value) where
  -- A failed start is not saved.
  start_failed-OnDisk :
      (s : System) (t : Task) (a : Allocation)
      → find t.id s.queue.tasks ≡ some t
      → t.status ≡ pending
      → OnDisk env s.queue s.files
      → let r = start_failed env s t a in OnDisk env r.queue r.files
  unfolding start_failed notify_state_change
  start_failed-OnDisk s t a f p d = rw (set_task_failed_pending s.queue t (env.clock s.now) f p) (
      if_ind (λ (r : System). OnDisk env r.queue r.files) s.has_callback (λ _. failed_later)
        (λ _. failed_later))
    where
      failed_later : OnDisk env (overwrite s.queue t.id (ended failed t (env.clock s.now))) s.files
      failed_later = record {
        old = d.old;
        lags = Lags-failed d.old s.queue t.id (env.clock s.now) t d.lags f p;
        read = d.read;
      }

  -- The queue stays at home, and the disk is as after a save, as before, or as before the failure.
  abbrev pub Moves : System → System → Type 0
  Moves s r =
      AtHome s.queue r.queue
      × (Settled env s r ⊎ (OnDisk env s.queue s.files → OnDisk env r.queue r.files))

  start_succeeded-Moves :
      (s : System) (t : Task) (a : Allocation) (pid : ℤ)
      → find t.id s.queue.tasks ≡ some t
      → t.status ≡ pending
      → Moves s (start_succeeded env s t a pid).1
  unfolding start_succeeded
  start_succeeded-Moves s t a pid f p =
      let s' = record s {
        queue = overwrite s.queue t.id (started t pid a.cpus a.gpus (env.clock s.now));
      } in
      rw (set_task_running_pending s.queue t (env.clock s.now) f p pid a.cpus a.gpus)
        ((notify-Keeps s' s' t.id t.status running (Keeps-refl s')).runs.1, inl (inr (_, refl)))

  start_task-Moves :
      (s : System) (t : Task) (a : Allocation)
      → find t.id s.queue.tasks ≡ some t
      → t.status ≡ pending
      → Moves s (start_task env s t a).1
  unfolding start_task
  start_task-Moves s t a f p =
      let (pid, now') = execute env.os s.now in
      let s' = record s { now = now' } in
      if_ind (λ (o : Bool × System). Moves s o.1) (lez pid (pos 0))
        (λ _. ((start_failed-Keeps env s' t a).runs.1, inr (start_failed-OnDisk s' t a f p)))
        (λ _. start_succeeded-Moves s' t a pid f p)

  schedule_task-Moves :
      (s : System) (t : Task)
      → find t.id s.queue.tasks ≡ some t
      → t.status ≡ pending
      → Moves s (schedule_task env s t).1
  unfolding schedule_task
  schedule_task-Moves s t f p =
      let r = allocate env.world s.monitor s.now t.ncpu t.ngpu t.specific_cpus t.specific_gpus in
      elim (Option-cases r.0) [
        | inl e ↦ rw (e, schedule_task) ((refl, λ h. h), inl (inl (refl, refl)))
        | inr (a, e) ↦
            rw (e, schedule_task) (start_task-Moves (record s { monitor = r.1; now = r.2 }) t a f p)
      ]

  pub try_schedule_next-Moves :
      (s : System) → IsSort env.sort → IsValid s.queue → Moves s (try_schedule_next env s).1
  unfolding try_schedule_next
  try_schedule_next-Moves s so v = elim (List-cases (get_pending_tasks env.sort s.queue)) [
    | inl e ↦ rw (e, try_schedule_next) ((refl, λ h. h), inl (inl (refl, refl)))
    | inr (t, (ts, e)) ↦
        let h = get_pending_tasks_head env.sort s.queue t ts so v e in
        rw (e, try_schedule_next) (schedule_task-Moves s t h.0 h.1)
  ]
