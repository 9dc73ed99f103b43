-- ===== src/Scheduler/Progress.antt =====
-- Running tasks come to their end: the pass of checkRunningTasks in scheduler.cpp.
use mathlib.Core.Logic.Or
use mathlib.Core.Option
use mathlib.Core.List.{mem-cons, not-mem-nil}
use myqueue.Prelude.{
  ℕ, suc, ◌+◌, ◌≤◌, ◌<◌, ◌≡◌, refl, ap, ◌∙◌, false, not, Option, some, List, [], ◌∷◌, Mem, arith,
  if_ind, Option-cases, inl, inr, ==_self, subst,
}
use myqueue.Prelude.Int.{ℤ, pos, lez}
use myqueue.Prelude.Map.{find, find-put, values}
use myqueue.Task.{Task, TaskStatus, running, completed, status_eq}
use myqueue.Queue.{TaskQueue, finished, get_running_tasks}
use myqueue.Queue.Pending.{mem-keep, mem_of_find}
use myqueue.Executor.{check_status}
use myqueue.Scheduler.Checking.{
  Listed, Rising, Listed-kept, check_task_running, keep-Rising, get_running_tasks-Listed,
}
use myqueue.Scheduler.Ending.{Balanced}
use myqueue.Scheduler.Ends.{check_task_lem}
use myqueue.Scheduler.{
  Env, System, notify_state_change, handle_task_completion, check_task, check_tasks,
  check_running_tasks,
}

-- The status of the task under an id.
abbrev pub status_at : ℕ → System → Option TaskStatus
status_at id s = Option.map (λ t. t.status) (find id s.queue.tasks)

status_set : IsSet (Option TaskStatus)
status_set = hlevel

module _ {Value : Type 0} (env : Env Value) where
  -- From the moment `since` on, the process is found to have ended.
  abbrev pub EndedSince : ℕ → ℤ → Type 0
  EndedSince since pid = (now : ℕ) → since ≤ now → (check_status env.os now pid).0.running ≡ false

  notify_now :
      (s : System) (id : ℕ) (old new : TaskStatus) → (notify_state_change s id old new).now ≡ s.now
  unfolding notify_state_change
  notify_now s id old new =
      if_ind (λ (r : System). r.now ≡ s.now) s.has_callback (λ e. refl) (λ e. refl)

  completion_now :
      (s : System) (id : ℕ) (code : ℤ) → (handle_task_completion env s id code).now ≡ s.now
  unfolding handle_task_completion
  completion_now s id code = elim (Option-cases (find id s.queue.tasks)) [
    | inl e ↦ rw (e, handle_task_completion) refl
    | inr (t, e) ↦ rw (e, handle_task_completion) (notify_now _ id t.status completed)
  ]

  check_task_now : (s : System) (t : Task) → s.now ≤ (check_task env s t).now
  unfolding check_task check_status
  check_task_now s t =
      if_ind (λ (r : System). s.now ≤ r.now) (lez t.pid (pos 0)) {x = s} (λ e. omega arith)
        (λ e.
          if_ind (λ (r : System). s.now ≤ r.now) (not (check_status env.os s.now t.pid).0.running)
            (λ e'.
              let n =
                completion_now (record s { now = s.now + 1 }) t.id
                  (check_status env.os s.now t.pid).0.exit_code in
              rw n (omega arith))
            (λ e'. omega arith))

  -- The check of a task whose process has ended completes it.
  check_task_completes :
      (s : System) (t : Task)
      → find t.id s.queue.tasks ≡ some t
      → t.status ≡ running
      → lez t.pid (pos 0) ≡ false
      → (check_status env.os s.now t.pid).0.running ≡ false
      → status_at t.id (check_task env s t) ≡ some completed
  check_task_completes s t f r p ended = elim (check_task_lem env s t f r p) [
    | inl (e, same) ↦ absurd (ground arith)
    | inr (e, (q, m)) ↦
        ap (λ (q' : TaskQueue). Option.map (λ t. t.status) (find t.id q'.tasks)) q
        ∙ rw (find-put t.id t.id (finished t _ _) s.queue.tasks, ==_self t.id) refl
  ]

  -- Tasks with higher ids leave a status as it is.
  check_tasks_below :
      (s : System) (lo id : ℕ) (ts : List Task)
      → Balanced s
      → id < lo
      → Rising lo ts
      → Listed s.queue ts
      → status_at id (check_tasks env s ts) ≡ status_at id s
  unfolding check_tasks
  check_tasks_below s lo id [] b h r l = refl
  check_tasks_below s lo id (t ∷ ts) b h r l =
      let (b', kept) = check_task_running env s t b l.0.0 l.0.1 in
      let s' = check_task env s t in
      check_tasks_below s' (suc t.id) id ts b' (omega arith) r.1
        (Listed-kept env s.queue s'.queue (suc t.id) t.id ts kept (omega arith) r.1 l.1)
      ∙ ap (Option.map (λ t. t.status)) (kept id (λ e. absurd (omega (arith, e))))

  check_tasks_completes :
      (s : System) (lo : ℕ) (ts : List Task) (t : Task) (since : ℕ)
      → Balanced s
      → Rising lo ts
      → Listed s.queue ts
      → Mem t ts
      → lez t.pid (pos 0) ≡ false
      → EndedSince since t.pid
      → since ≤ s.now
      → status_at t.id (check_tasks env s ts) ≡ some completed
  unfolding check_tasks
  check_tasks_completes s lo [] t since b r l m p ended late = absurd (not-mem-nil m)
  check_tasks_completes s lo (u ∷ ts) t since b r l m p ended late =
      let (b', kept) = check_task_running env s u b l.0.0 l.0.1 in
      let s' = check_task env s u in
      let l' = Listed-kept env s.queue s'.queue (suc u.id) u.id ts kept (omega arith) r.1 l.1 in
      Or.elim (status_set _ _) (mem-cons.0 m)
        (λ e.
          check_tasks_below s' (suc u.id) t.id ts b' (rw e (omega arith)) r.1 l'
          ∙ rw e (
              check_task_completes s u l.0.0 l.0.1
                (subst (λ (v : Task). lez v.pid (pos 0) ≡ false) e p)
                (subst (λ (v : Task). EndedSince since v.pid) e ended s.now late)))
        (λ m'.
          check_tasks_completes s' (suc u.id) ts t since b' r.1 l' m' p ended
            (omega (arith, check_task_now s u)))

  -- If the books are right, the next pass of checkRunningTasks completes every running task whose
  -- process, of a positive id, is found to have ended from now on.
  pub check_running_tasks_completes :
      (s : System) (t : Task)
      → Balanced s
      → find t.id s.queue.tasks ≡ some t
      → t.status ≡ running
      → lez t.pid (pos 0) ≡ false
      → EndedSince s.now t.pid
      → status_at t.id (check_running_tasks env s) ≡ some completed
  unfolding check_running_tasks get_running_tasks
  check_running_tasks_completes s t b f r p ended =
      check_tasks_completes s 0 (get_running_tasks s.queue) t s.now b
        (keep-Rising _ s.queue.next_id 0 s.queue.tasks b.valid.ascending b.valid.keyed)
        (get_running_tasks-Listed s.queue b.valid)
        ((mem-keep (λ t. status_eq t.status running) (values s.queue.tasks)).1
          (mem_of_find t.id t s.queue.tasks f, ground arith))
        p ended (omega arith)
