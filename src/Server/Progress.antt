-- ===== src/Server/Progress.antt =====
-- A task comes to its end: rounds of schedulingLoop and monitoringLoop in scheduler.cpp, one after the
-- other.
use myqueue.Prelude.{
  ℕ, ◌+◌, ◌≤◌, ◌≡◌, refl, sym, ap, ◌∙◌, Bool, false, some, List, [], ◌∷◌, arith, inl, inr, ==_self,
  subst,
}
use myqueue.Prelude.Int.{pos, lez}
use myqueue.Prelude.Map.{find, find-put}
use myqueue.Prelude.Text.{Bytes}
use myqueue.Task.{Task, completed}
use myqueue.Queue.{TaskQueue, get_pending_tasks, started, overwrite}
use myqueue.Queue.Pending.{IsSort}
use myqueue.Monitor.Resource.{Allocation}
use myqueue.Monitor.Resource.Cpus.{IsShuffle}
use myqueue.Scheduler.Ending.{Balanced}
use myqueue.Scheduler.Outcome.{
  allocation, pid_of, Attempt, refused, not_started, runs, try_schedule_next-Attempt,
}
use myqueue.Scheduler.Progress.{status_at, EndedSince, check_running_tasks_completes}
use myqueue.Scheduler.Starting.{try_schedule_next-Balanced}
use myqueue.Scheduler.{Env, System, try_schedule_next}
use myqueue.Server.{PathKind}
use myqueue.Server.Histories.{schedules, passes, checks, run}

heads : (u t : Task) (us ts : List Task) → u ∷ us ≡ t ∷ ts → u ≡ t
heads u t us ts e = ground arith

module _ {Value : Type 0} (env : Env Value) where
  -- The entry of a task that an attempt started.
  started_entry :
      (s : System) (t : Task) (a : Allocation) (r : Bool × System)
      → Attempt env s t r
      → (allocation env s t).0 ≡ some a
      → lez (pid_of env s t) (pos 0) ≡ false
      → (now : ℕ) × (r.1.queue
          ≡ overwrite s.queue t.id (started t (pid_of env s t) a.cpus a.gpus now))
  started_entry s t a r (refused e x q) ea p = absurd (ground arith)
  started_entry s t a r (not_started b now e h x q) ea p = absurd (ground arith)
  started_entry s t a r (runs b now e h y x) ea p = (
    now,
    let same : b ≡ a = ground arith in
        x
        ∙ ap
            (λ (c : Allocation).
              overwrite s.queue t.id (started t (pid_of env s t) c.cpus c.gpus now))
            same,
  )

  schedule_runs :
      (s : System) (t : Task) (ts : List Task) (a : Allocation)
      → IsSort env.sort
      → Balanced s
      → get_pending_tasks env.sort s.queue ≡ t ∷ ts
      → (allocation env s t).0 ≡ some a
      → lez (pid_of env s t) (pos 0) ≡ false
      → (now : ℕ) × ((try_schedule_next env s).1.queue
          ≡ overwrite s.queue t.id (started t (pid_of env s t) a.cpus a.gpus now))
  schedule_runs s t ts a so b e ea p = elim (try_schedule_next-Attempt env s so b.valid) [
    | inl (none_left, x) ↦ absurd (ground arith)
    | inr (u, (us, (e', attempt))) ↦
        let same : u ≡ t = heads u t us ts (sym e' ∙ e) in
        started_entry s t a (try_schedule_next env s)
          (subst (λ v. Attempt env s v (try_schedule_next env s)) same attempt) ea p
  ]

  -- A pending task is served: if it is the head of the pending list, `allocate` has its CPUs and GPUs
  -- and its process starts, then it is completed after a round of the scheduling thread, a time of `n`
  -- moments, and a round of the monitoring thread, where the process is found to have ended from some
  -- moment up to `n` on. The books are right at first, std::shuffle permutes and std::sort sorts.
  pub run_served :
      (stat : Bytes → PathKind) (s : System) (t : Task) (ts : List Task) (a : Allocation)
      (since n : ℕ)
      → IsShuffle env.world
      → IsSort env.sort
      → Balanced s
      → get_pending_tasks env.sort s.queue ≡ t ∷ ts
      → (allocation env s t).0 ≡ some a
      → lez (pid_of env s t) (pos 0) ≡ false
      → EndedSince env since (pid_of env s t)
      → since ≤ n
      → status_at t.id (run env stat s (schedules ∷ passes n ∷ checks ∷ [])) ≡ some completed
  unfolding run
  run_served stat s t ts a since n sh so b e ea p ended late =
      let (now, q) = schedule_runs s t ts a so b e ea p in
      let s1 = (try_schedule_next env s).1 in
      let s2 = record s1 { now = s1.now + n } in
      let t' = started t (pid_of env s t) a.cpus a.gpus now in
      let f : find t.id s2.queue.tasks ≡ some t' =
        ap (λ (q' : TaskQueue). find t.id q'.tasks) q
        ∙ rw (find-put t.id t.id t' s.queue.tasks, ==_self t.id) refl in
      check_running_tasks_completes env s2 t' (try_schedule_next-Balanced env s sh so b) f refl p
        (λ k h. ended k (omega arith))
