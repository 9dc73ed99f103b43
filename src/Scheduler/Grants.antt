-- ===== src/Scheduler/Grants.antt =====
-- What a running task holds against what it asked for and what is excluded, through the operations
-- of scheduler.cpp.
use myqueue.Prelude.{
  All, ℕ, ◌<◌, ◌≡◌, refl, sym, ◌∙◌, inl, inr, Bool, false, not, ◌||◌, some, List, arith, [], ◌∷◌,
  is_empty, Option-cases, if_ind, if◌then◌else◌, ◌==◌,
}
use myqueue.Prelude.Int.{ℤ, pos, lez}
use myqueue.Prelude.Map.{find, find-put, find-erase}
use myqueue.Task.{Task, TaskStatus, running, completed, cancelled, status_eq}
use myqueue.Queue.{
  TaskQueue, u64_mod, overwrite, set_task_completed, delete_task, get_running_tasks,
}
use myqueue.Queue.Cases.{delete_task_cases, set_task_completed_cases}
use myqueue.Monitor.Cpu.{CpuMonitor, release_cpus}
use myqueue.Monitor.Resource.{Monitor, release}
use myqueue.Monitor.Resource.Affinity.{NearGpus}
use myqueue.Monitor.Resource.Gpus.{Outside, Fits}
use myqueue.Executor.{check_status, terminate}
use myqueue.Scheduler.{
  Env, System, notify_state_change, handle_task_completion, check_task, check_tasks,
  check_running_tasks, wait_for_end, save_in, end_task, terminate_running, terminate_task,
}

-- The ids are what was asked for, and none is excluded.
abbrev pub Share : List ℤ → ℤ → List ℤ → List ℤ → Type 0
Share excluded count specific got = Outside excluded got × Fits count specific got

-- Ids that the program chose, none being asked for, pass the test.
abbrev pub Chosen : (ℤ → Type 0) → List ℤ → List ℤ → Type 0
Chosen P [] = All P
Chosen P (id ∷ ids) = λ got. Unit {0}

-- What is fixed while the server runs.
pub record Limits : Type 0 where
  pub excluded_cpus : List ℤ
  pub excluded_gpus : List ℤ
  pub total_cpus : ℤ

-- The task holds its share of the CPUs and of the GPUs. CPUs that it did not name go with its GPUs.
pub record Served (l : Limits) (t : Task) : Type 0 where
  pub cpus : Share l.excluded_cpus t.ncpu t.specific_cpus t.allocated_cpus
  pub gpus : Share l.excluded_gpus t.ngpu t.specific_gpus t.allocated_gpus
  pub near : Chosen (NearGpus l.total_cpus t.allocated_gpus) t.specific_cpus t.allocated_cpus

-- Each running task does.
abbrev pub Granted : Limits → TaskQueue → Type 0
Granted l q = (id : ℕ) (t : Task) → find id q.tasks ≡ some t → t.status ≡ running → Served l t

abbrev pub limits : Monitor → Limits
limits m = record {
  excluded_cpus = m.excluded_cpus;
  excluded_gpus = m.excluded_gpus;
  total_cpus = m.cpu_monitor.total_cpus;
}

-- The queue keeps its directory, and a counter in the range of its type.
abbrev pub AtHome : TaskQueue → TaskQueue → Type 0
AtHome q q' = (q'.data_dir ≡ q.data_dir) × (q.next_id < u64_mod → q'.next_id < u64_mod)

-- A task that runs after ran before, as the same task, in a queue at home.
abbrev pub Runs : TaskQueue → TaskQueue → Type 0
Runs q q' =
    ((id : ℕ) (t : Task)
      → find id q'.tasks ≡ some t
      → t.status ≡ running
      → find id q.tasks ≡ some t)
    × AtHome q q'

pub Runs-refl : (q : TaskQueue) → Runs q q
Runs-refl q = (λ j t f r. f, (refl, λ h. h))

-- A task that is written and does not run adds none.
pub overwrite-Runs :
    (q : TaskQueue) (id : ℕ) (u : Task)
    → status_eq u.status running ≡ false
    → Runs q (overwrite q id u)
overwrite-Runs q id u n =
    (λ j t f r. ran_before j t (sym (find-put j id u q.tasks) ∙ f) r, (refl, λ h. h))
  where
    ran_before :
        (j : ℕ) (t : Task)
        → (if id == j then some u else find j q.tasks) ≡ some t
        → t.status ≡ running
        → find j q.tasks ≡ some t
    ran_before j t f r = ground arith

pub delete_task-Runs : (q : TaskQueue) (id now : ℕ) → Runs q (delete_task q id now).1
delete_task-Runs q id now = elim (delete_task_cases q id now) [
  | inl (e, d) ↦ rw d (Runs-refl q)
  | inr (u, g, d) ↦ rw d (λ j t f r. ground (arith, find-erase j id q.tasks), (refl, λ h. h))
]

pub release-limits : (m : Monitor) (cpus gpus : List ℤ) → limits (release m cpus gpus) ≡ limits m
unfolding release release_cpus
release-limits m cpus gpus =
    if_ind (λ (c : CpuMonitor). limits (record m { cpu_monitor = c }) ≡ limits m)
      (not (is_empty cpus)) (λ _. refl) (λ _. refl)

-- No running task is new, and the limits stay.
pub record Keeps (s s' : System) : Type 0 where
  pub runs : Runs s.queue s'.queue
  pub same : limits s'.monitor ≡ limits s.monitor

pub Keeps-refl : (s : System) → Keeps s s
Keeps-refl s = record { runs = Runs-refl s.queue; same = refl }

pub Keeps-trans : (s s' s'' : System) → Keeps s s' → Keeps s' s'' → Keeps s s''
Keeps-trans s s' s'' k l = record {
  runs = (
    λ j t f r. k.runs.0 j t (l.runs.0 j t f r) r,
    (l.runs.1.0 ∙ k.runs.1.0, λ h. l.runs.1.1 (k.runs.1.1 h)),
  );
  same = l.same ∙ k.same;
}

pub notify-Keeps :
    (s s' : System) (id : ℕ) (old new : TaskStatus)
    → Keeps s s'
    → Keeps s (notify_state_change s' id old new)
unfolding notify_state_change
notify-Keeps s s' id old new k =
    if_ind (Keeps s) s'.has_callback (λ e. record { runs = k.runs; same = k.same }) (λ e. k)

module _ {Value : Type 0} (env : Env Value) where
  pub save-Keeps : (s s' : System) → Keeps s s' → Keeps s (save_in env s')
  save-Keeps s s' k = record { runs = k.runs; same = k.same }

  handle_task_completion-Keeps :
      (s : System) (id : ℕ) (code : ℤ) → Keeps s (handle_task_completion env s id code)
  unfolding handle_task_completion
  handle_task_completion-Keeps s id code = elim (Option-cases (find id s.queue.tasks)) [
    | inl e ↦ rw (e, handle_task_completion) (Keeps-refl s)
    | inr (t, e) ↦
        rw (e, handle_task_completion)
          (save-Keeps s _ (
            notify-Keeps s _ id t.status completed (record {
              runs = completed_runs;
              same = release-limits s.monitor t.allocated_cpus t.allocated_gpus;
            })))
  ]
    where
      completed_runs : Runs s.queue (set_task_completed s.queue id code (env.clock s.now)).1
      completed_runs = elim (set_task_completed_cases s.queue id code (env.clock s.now)) [
        | inl d ↦ rw d (Runs-refl s.queue)
        | inr (t, g, r, d) ↦ rw d (overwrite-Runs s.queue id _ refl)
      ]

  -- Time passes.
  pub later-Keeps : (s : System) (now : ℕ) → Keeps s (record s { now = now })
  later-Keeps s now = record { runs = Runs-refl s.queue; same = refl }

  check_task-Keeps : (s : System) (t : Task) → Keeps s (check_task env s t)
  unfolding check_task
  check_task-Keeps s t =
      let (status, now') = check_status env.os s.now t.pid in
      let s' = record s { now = now' } in
      if_ind (Keeps s) (lez t.pid (pos 0)) (λ _. Keeps-refl s)
        (λ _.
          if_ind (Keeps s) (not status.running)
            (λ _.
              Keeps-trans s s' _ (later-Keeps s now')
                (handle_task_completion-Keeps s' t.id status.exit_code))
            (λ _. later-Keeps s now'))

  check_tasks-Keeps : (s : System) (ts : List Task) → Keeps s (check_tasks env s ts)
  unfolding check_tasks
  check_tasks-Keeps s [] = Keeps-refl s
  check_tasks-Keeps s (t ∷ ts) =
      Keeps-trans s (check_task env s t) _ (check_task-Keeps s t)
        (check_tasks-Keeps (check_task env s t) ts)

  pub check_running_tasks-Keeps : (s : System) → Keeps s (check_running_tasks env s)
  unfolding check_running_tasks get_running_tasks
  check_running_tasks-Keeps s = check_tasks-Keeps s (get_running_tasks s.queue)

  end_task-Keeps : (s : System) (id : ℕ) (t : Task) → Keeps s (end_task env s id t)
  unfolding end_task
  end_task-Keeps s id t = save-Keeps s _ (
      notify-Keeps s _ id t.status cancelled (record {
        runs = delete_task-Runs s.queue id (env.clock s.now);
        same = release-limits s.monitor t.allocated_cpus t.allocated_gpus;
      }))

  terminate_running-Keeps :
      (s : System) (id : ℕ) (t : Task) → Keeps s (terminate_running env s id t).1
  unfolding terminate_running
  terminate_running-Keeps s id t =
      let (sent, now') = terminate env.os s.now t.pid false in
      if_ind (λ (o : Bool × System). Keeps s o.1) sent
        (λ _.
          let s' = record s { now = wait_for_end env now' t.pid } in
          Keeps-trans s s' _ (later-Keeps s s'.now) (end_task-Keeps s' id t))
        (λ _. later-Keeps s now')

  pub terminate_task-Keeps : (s : System) (id : ℕ) → Keeps s (terminate_task env s id).1
  unfolding terminate_task
  terminate_task-Keeps s id = elim (Option-cases (find id s.queue.tasks)) [
    | inl e ↦ rw (e, terminate_task) (Keeps-refl s)
    | inr (t, e) ↦
        rw (e, terminate_task)
          (if_ind (λ (o : Bool × System). Keeps s o.1)
            (not (status_eq t.status running) || lez t.pid (pos 0)) (λ _. Keeps-refl s)
            (λ _. terminate_running-Keeps s id t))
  ]
