-- ===== src/Scheduler/Late.antt =====
-- The last part of terminateTask in scheduler.cpp, when other methods ran during its waits: it works on
-- the copy of the task that it read before them.
use myqueue.Prelude.{ℕ, ◌≡◌, ◌≢◌, ap, ◌∙◌, true, false, some, arith}
use myqueue.Prelude.Int.{ℤ}
use myqueue.Prelude.Map.{find, at-le-total}
use myqueue.Prelude.Set.{contains}
use myqueue.Task.{Task, running, cancelled}
use myqueue.Queue.{TaskQueue}
use myqueue.Monitor.Resource.{Monitor, release}
use myqueue.Monitor.Resource.Outcome.{has_cpu}
use myqueue.Monitor.Resource.Release.{release_cpu}
use myqueue.Scheduler.Booking.{Booked, holds_cpu}
use myqueue.Scheduler.Ending.{Balanced, notify-monitor, end_task-others}
use myqueue.Scheduler.{Env, System, end_task}

-- A running task holds a CPU that is not allocated: the books are wrong.
pub unbooked :
    (q : TaskQueue) (m : Monitor) (u : Task) (c : ℤ)
    → find u.id q.tasks ≡ some u
    → u.status ≡ running
    → contains c u.allocated_cpus ≡ true
    → has_cpu m c ≡ false
    → ¬ Booked q m
unbooked q m u c f r h n b =
    absurd (ground (arith, at-le-total (holds_cpu c) u.id q.tasks, b.cpus c))

-- If terminateTask comes to its end after another running task was given a CPU of the copy that it
-- read, then it releases that CPU under the other task, which goes on running: the books are wrong.
pub end_task_late :
    {Value : Type 0} (env : Env Value) (s : System) (id : ℕ) (copy u : Task) (c : ℤ)
    → find u.id s.queue.tasks ≡ some u
    → u.status ≡ running
    → contains c u.allocated_cpus ≡ true
    → contains c copy.allocated_cpus ≡ true
    → id ≢ u.id
    → ¬ Balanced (end_task env s id copy)
unfolding end_task
end_task_late env s id copy u c f r h k n =
    unbooked (end_task env s id copy).queue (end_task env s id copy).monitor u c
      (end_task-others env s id u.id copy n ∙ f) r h
      (ap (λ (m : Monitor). has_cpu m c) (notify-monitor _ id copy.status cancelled) ∙ gone)
  where
    gone : has_cpu (release s.monitor copy.allocated_cpus copy.allocated_gpus) c ≡ false
    gone = ground (arith, release_cpu s.monitor copy.allocated_cpus copy.allocated_gpus c)
