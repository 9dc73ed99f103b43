-- ===== src/Server/Restart.antt =====
-- The start of the server after a restart: the loop of Server::start over the running tasks.
use myqueue.Prelude.{◌≡◌, refl, ap, ◌∙◌, true, false, some, List, [], ◌∷◌}
use myqueue.Prelude.Int.{ℤ}
use myqueue.Prelude.Map.{find}
use myqueue.Prelude.Set.{contains}
use myqueue.Task.{Task, running}
use myqueue.Queue.{get_running_tasks}
use myqueue.Queue.Persist.{load}
use myqueue.Monitor.Resource.{Monitor}
use myqueue.Monitor.Resource.Outcome.{has_cpu}
use myqueue.Scheduler.Ending.{Balanced}
use myqueue.Scheduler.Late.{unbooked}
use myqueue.Scheduler.{Env, System}
use myqueue.Server.{recover_task, recover_tasks, start}

module _ {Value : Type 0} (env : Env Value) where
  recover_tasks-monitor :
      (s : System) (ts : List Task) → (recover_tasks env s ts).monitor ≡ s.monitor
  unfolding recover_tasks recover_task
  recover_tasks-monitor s [] = refl
  recover_tasks-monitor s (t ∷ ts) = recover_tasks-monitor (recover_task env s t) ts

  start-monitor : (s : System) → (start env s).monitor ≡ s.monitor
  unfolding start
  start-monitor s =
      let s' = record s { queue = load env.json env.calendar s.queue s.files } in
      recover_tasks-monitor s' (get_running_tasks s'.queue)

  -- The start leaves the monitor as it is, and so allocates nothing: if a task runs on after it with a
  -- CPU that was not allocated before it, which is so when the monitor is new, then the books are wrong.
  pub start_unbooked :
      (s : System)
      → ((start env s).monitor ≡ s.monitor)
        × ((u : Task) (c : ℤ)
            → has_cpu s.monitor c ≡ false
            → find u.id (start env s).queue.tasks ≡ some u
            → u.status ≡ running
            → contains c u.allocated_cpus ≡ true
            → ¬ Balanced (start env s))
  start_unbooked s = (
    start-monitor s,
    λ u c n f r h.
        unbooked (start env s).queue (start env s).monitor u c f r h
          (ap (λ (m : Monitor). has_cpu m c) (start-monitor s) ∙ n),
  )
