-- ===== src/Scheduler/Shares.antt =====
-- The shares of the running tasks through tryScheduleNext of scheduler.cpp.
use myqueue.Prelude.{
  List, [], ◌∷◌, ℕ, ◌≡◌, refl, ap, ◌∙◌, inl, inr, Bool, some, arith, Option-cases, List-cases,
  if_ind, ◌==◌, subst, Bool-cases,
}
use myqueue.Prelude.Int.{ℤ, pos, lez}
use myqueue.Prelude.Map.{find, find-put}
use myqueue.Task.{Task, pending, running, failed}
use myqueue.Queue.{TaskQueue, overwrite, started, ended, set_task_failed, get_pending_tasks}
use myqueue.Queue.Cases.{set_task_failed_cases}
use myqueue.Queue.Invariant.{IsValid}
use myqueue.Queue.Pending.{IsSort, get_pending_tasks_head}
use myqueue.Monitor.Cpu.{machine_range, CpuMonitor}
use myqueue.Monitor.Resource.{Monitor, determine_affinity_group, Allocation, allocate}
use myqueue.Monitor.Resource.Cpus.{IsShuffle, ChosenIn}
use myqueue.Monitor.Resource.Affinity.{NearGpus, range_near-NearGpus}
use myqueue.Prelude.Members.{All-map}
use myqueue.Monitor.Resource.Outcome.{Tracks, allocate-Outcome, Outcome-some, Outcome-none}
use myqueue.Executor.{execute}
use myqueue.Scheduler.{
  Env, System, start_failed, start_succeeded, start_task, schedule_task, try_schedule_next,
}
use myqueue.Scheduler.Grants.{
  Limits, Served, Chosen, release-limits, limits, Granted, Runs, Runs-refl, overwrite-Runs, Keeps,
  Keeps-refl, notify-Keeps, save-Keeps, later-Keeps,
}
use myqueue.Scheduler.Starting.{set_task_running_pending}

Tracks-limits :
    (m m' : Monitor) (cpu_test gpu_test : ℤ → Bool)
    → Tracks m m' cpu_test gpu_test
    → limits m' ≡ limits m
Tracks-limits m m' cpu_test gpu_test k =
    rw (k.excluded_cpus, k.excluded_gpus, ap (λ (c : CpuMonitor). c.total_cpus) k.cpus.rest) refl

-- The running tasks hold their shares, and these are the limits.
pub record Permitted (l : Limits) (s : System) : Type 0 where
  pub granted : Granted l s.queue
  pub within : limits s.monitor ≡ l

module _ (l : Limits) where
  pub Keeps-Permitted : (s s' : System) → Keeps s s' → Permitted l s → Permitted l s'
  Keeps-Permitted s s' k p = record {
    granted = λ j t f r. p.granted j t (k.runs.0 j t f r) r;
    within = k.same ∙ p.within;
  }

  -- A task that is started with its share.
  started-Granted :
      (q : TaskQueue) (t : Task) (pid : ℤ) (a : Allocation) (now : ℕ)
      → Granted l q
      → Served l (started t pid a.cpus a.gpus now)
      → Granted l (overwrite q t.id (started t pid a.cpus a.gpus now))
  started-Granted q t pid a now g d j u f r = elim (Bool-cases (t.id == j)) [
    | inl e ↦
        let same : started t pid a.cpus a.gpus now ≡ u =
          ground (arith, find-put j t.id (started t pid a.cpus a.gpus now) q.tasks) in
        subst (Served l) same d
    | inr e ↦ g j u (ground (arith, find-put j t.id (started t pid a.cpus a.gpus now) q.tasks)) r
  ]

-- The CPUs that `allocate` chose go with its GPUs.
Chosen-nearby :
    (m : Monitor) (a : Allocation) (specific : List ℤ)
    → ChosenIn (machine_range m.cpu_monitor (determine_affinity_group a.gpus)) specific a.cpus
    → Chosen (NearGpus m.cpu_monitor.total_cpus a.gpus) specific a.cpus
Chosen-nearby m a [] h =
    All-map (λ id r. range_near-NearGpus m.cpu_monitor.total_cpus a.gpus id r) a.cpus h
Chosen-nearby m a (id ∷ ids) h = tt

module _ {Value : Type 0} (env : Env Value) where
  pub start_failed-Keeps :
      (s : System) (t : Task) (a : Allocation) → Keeps s (start_failed env s t a)
  unfolding start_failed
  start_failed-Keeps s t a =
      notify-Keeps s _ t.id pending failed
        (record { runs = failed_runs; same = release-limits s.monitor a.cpus a.gpus })
    where
      failed_runs : Runs s.queue (set_task_failed s.queue t.id (env.clock s.now)).1
      failed_runs = elim (set_task_failed_cases s.queue t.id (env.clock s.now)) [
        | inl d ↦ rw d (Runs-refl s.queue)
        | inr (u, g, r, d) ↦
            rw d (overwrite-Runs s.queue t.id (ended failed u (env.clock s.now)) refl)
      ]

  module _ (l : Limits) where
    start_succeeded-Permitted :
        (s : System) (t : Task) (a : Allocation) (pid : ℤ)
        → Permitted l s
        → ((pid : ℤ) (now : ℕ) → Served l (started t pid a.cpus a.gpus now))
        → find t.id s.queue.tasks ≡ some t
        → t.status ≡ pending
        → Permitted l (start_succeeded env s t a pid).1
    unfolding start_succeeded
    start_succeeded-Permitted s t a pid p d f q =
        let s' = record s {
          queue = overwrite s.queue t.id (started t pid a.cpus a.gpus (env.clock s.now));
        } in
        let here : Permitted l s' = record {
          granted =
              started-Granted l s.queue t pid a (env.clock s.now) p.granted
                (d pid (env.clock s.now));
          within = p.within;
        } in
        rw (set_task_running_pending s.queue t (env.clock s.now) f q pid a.cpus a.gpus) (
          Keeps-Permitted l s' _
            (save-Keeps env s' _ (notify-Keeps s' s' t.id t.status running (Keeps-refl s'))) here)

    start_task-Permitted :
        (s : System) (t : Task) (a : Allocation)
        → Permitted l s
        → ((pid : ℤ) (now : ℕ) → Served l (started t pid a.cpus a.gpus now))
        → find t.id s.queue.tasks ≡ some t
        → t.status ≡ pending
        → Permitted l (start_task env s t a).1
    unfolding start_task
    start_task-Permitted s t a p d f q =
        let (pid, now') = execute env.os s.now in
        let s' = record s { now = now' } in
        let p' = Keeps-Permitted l s s' (later-Keeps env s now') p in
        if_ind (λ (o : Bool × System). Permitted l o.1) (lez pid (pos 0))
          (λ _. Keeps-Permitted l s' _ (start_failed-Keeps s' t a) p')
          (λ _. start_succeeded-Permitted s' t a pid p' d f q)

    schedule_task-Permitted :
        (s : System) (t : Task)
        → IsShuffle env.world
        → Permitted l s
        → find t.id s.queue.tasks ≡ some t
        → t.status ≡ pending
        → Permitted l (schedule_task env s t).1
    unfolding schedule_task
    schedule_task-Permitted s t sh p f q =
        let r = allocate env.world s.monitor s.now t.ncpu t.ngpu t.specific_cpus t.specific_gpus in
        let o =
          allocate-Outcome env.world s.monitor t.ncpu t.ngpu t.specific_cpus t.specific_gpus s.now
            sh in
        elim (Option-cases r.0) [
          | inl e ↦
              let k =
                Outcome-none s.monitor t.ncpu t.ngpu t.specific_cpus t.specific_gpus env.world r o
                  e in
              rw (e, schedule_task)
                (record {
                  granted = p.granted;
                  within = Tracks-limits s.monitor r.1 _ _ k ∙ p.within;
                })
          | inr (a, e) ↦
              let al =
                Outcome-some s.monitor t.ncpu t.ngpu t.specific_cpus t.specific_gpus env.world r a o
                  e in
              rw (e, schedule_task)
                (start_task-Permitted (record s { monitor = r.1; now = r.2 }) t a
                  (record {
                    granted = p.granted;
                    within = Tracks-limits s.monitor r.1 _ _ al.tracks ∙ p.within;
                  })
                  (λ pid now.
                    subst (λ l. Served l (started t pid a.cpus a.gpus now)) p.within
                      (record {
                        cpus = (al.cpus.allowed, al.cpus.fits);
                        gpus = (al.gpus.allowed, al.gpus.fits);
                        near = Chosen-nearby s.monitor a t.specific_cpus al.affinity;
                      }))
                  f q)
        ]

    pub try_schedule_next-Permitted :
        (s : System)
        → IsShuffle env.world
        → IsSort env.sort
        → IsValid s.queue
        → Permitted l s
        → Permitted l (try_schedule_next env s).1
    unfolding try_schedule_next
    try_schedule_next-Permitted s sh so v p =
        elim (List-cases (get_pending_tasks env.sort s.queue)) [
          | inl e ↦ rw (e, try_schedule_next) p
          | inr (t, (ts, e)) ↦
              let h = get_pending_tasks_head env.sort s.queue t ts so v e in
              rw (e, try_schedule_next) (schedule_task-Permitted s t sh p h.0 h.1)
        ]
