-- ===== src/Scheduler/Starting.antt =====
-- The books of scheduler.cpp through `tryScheduleNext`, path by path.
use myqueue.Prelude.{
  ℕ, ◌≡◌, refl, Bool, true, some, List, Option-cases, List-cases, inl, inr, if_ind, arith,
}
use myqueue.Prelude.Int.{ℤ, pos, lez}
use myqueue.Prelude.Map.{find}
use myqueue.Task.{Task, pending, running, failed}
use myqueue.Queue.{
  TaskQueue, overwrite, started, ended, set_task_running, set_task_failed, get_pending_tasks,
}
use myqueue.Queue.Pending.{IsSort, get_pending_tasks_head}
use myqueue.Monitor.Resource.{Monitor, Allocation, allocate}
use myqueue.Monitor.Resource.Cpus.{IsShuffle}
use myqueue.Monitor.Resource.Outcome.{Allocated, allocate-Outcome, Outcome-some, Outcome-none}
use myqueue.Monitor.Resource.Release.{Allocated-release}
use myqueue.Executor.{execute}
use myqueue.Scheduler.Booking.{Booked, monitor-Booked, idle-Booked, start-Booked}
use myqueue.Scheduler.Ending.{Balanced, notify-Balanced}
use myqueue.Scheduler.{
  Env, System, start_failed, start_succeeded, start_task, schedule_task, try_schedule_next,
}

module _ (q : TaskQueue) (t : Task) (now : ℕ) (f : find t.id q.tasks ≡ some t)
    (p : t.status ≡ pending) where
  pub set_task_running_pending :
      (pid : ℤ) (cpus gpus : List ℤ)
      → set_task_running q t.id pid cpus gpus now
        ≡ (true, overwrite q t.id (started t pid cpus gpus now))
  unfolding set_task_running
  set_task_running_pending pid cpus gpus = rw (f, set_task_running) (rw p refl)

  pub set_task_failed_pending :
      set_task_failed q t.id now ≡ (true, overwrite q t.id (ended failed t now))
  unfolding set_task_failed
  set_task_failed_pending = rw (f, set_task_failed) (rw p refl)

module _ {Value : Type 0} (env : Env Value) where
  module _ (s : System) (m : Monitor) (t : Task) (a : Allocation) (b : Booked s.queue m)
      (al : Allocated m t.ncpu t.ngpu t.specific_cpus t.specific_gpus s.monitor a)
      (f : find t.id s.queue.tasks ≡ some t) (p : t.status ≡ pending) where
    start_failed-Balanced : Balanced (start_failed env s t a)
    unfolding start_failed
    start_failed-Balanced =
        let back = λ (id : ℤ).
          Allocated-release m s.monitor t.ncpu t.ngpu t.specific_cpus t.specific_gpus a id al in
        notify-Balanced _ t.id pending failed (
          rw (set_task_failed_pending s.queue t (env.clock s.now) f p) (
            idle-Booked s.queue _ t.id t _
              (monitor-Booked s.queue m _ b (λ c. (back c).0) (λ g. (back g).1)) f refl
              (ground arith) refl))

    start_succeeded-Balanced : (pid : ℤ) → Balanced (start_succeeded env s t a pid).1
    unfolding start_succeeded
    start_succeeded-Balanced pid =
        rw (set_task_running_pending s.queue t (env.clock s.now) f p pid a.cpus a.gpus) (
          notify-Balanced _ t.id t.status running (
            start-Booked s.queue m s.monitor t.id t a pid (env.clock s.now) t.ncpu t.ngpu
              t.specific_cpus t.specific_gpus b al f p))

  start_task-Balanced :
      (s : System) (m : Monitor) (t : Task) (a : Allocation)
      → Booked s.queue m
      → Allocated m t.ncpu t.ngpu t.specific_cpus t.specific_gpus s.monitor a
      → find t.id s.queue.tasks ≡ some t
      → t.status ≡ pending
      → Balanced (start_task env s t a).1
  unfolding start_task
  start_task-Balanced s m t a b al f p =
      let r = execute env.os s.now in
      if_ind (λ (o : Bool × System). Balanced o.1) (lez r.0 (pos 0))
        (λ h. start_failed-Balanced (record s { now = r.1 }) m t a b al f p)
        (λ h. start_succeeded-Balanced (record s { now = r.1 }) m t a b al f p r.0)

  schedule_task-Balanced :
      (s : System) (t : Task)
      → IsShuffle env.world
      → Balanced s
      → find t.id s.queue.tasks ≡ some t
      → t.status ≡ pending
      → Balanced (schedule_task env s t).1
  unfolding schedule_task
  schedule_task-Balanced s t sh b f p =
      let r = allocate env.world s.monitor s.now t.ncpu t.ngpu t.specific_cpus t.specific_gpus in
      let o =
        allocate-Outcome env.world s.monitor t.ncpu t.ngpu t.specific_cpus t.specific_gpus s.now
          sh in
      elim (Option-cases r.0) [
        | inl e ↦
            let k =
              Outcome-none s.monitor t.ncpu t.ngpu t.specific_cpus t.specific_gpus env.world r o
                e in
            rw (e, schedule_task)
              (monitor-Booked s.queue s.monitor r.1 b k.cpus.members k.gpus.members)
        | inr (a, e) ↦
            rw (e, schedule_task)
              (start_task-Balanced (record s { monitor = r.1; now = r.2 }) s.monitor t a b
                (Outcome-some s.monitor t.ncpu t.ngpu t.specific_cpus t.specific_gpus env.world r a
                  o e)
                f p)
      ]

  -- An attempt to start the next task keeps the books, whatever becomes of it.
  pub try_schedule_next-Balanced :
      (s : System)
      → IsShuffle env.world
      → IsSort env.sort
      → Balanced s
      → Balanced (try_schedule_next env s).1
  unfolding try_schedule_next
  try_schedule_next-Balanced s sh so b = elim (List-cases (get_pending_tasks env.sort s.queue)) [
    | inl e ↦ rw (e, try_schedule_next) b
    | inr (t, (ts, e)) ↦
        let h = get_pending_tasks_head env.sort s.queue t ts so b.valid e in
        rw (e, try_schedule_next) (schedule_task-Balanced s t sh b h.0 h.1)
  ]
