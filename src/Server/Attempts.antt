-- ===== src/Server/Attempts.antt =====
-- The two attempts of handleDelete in server.cpp to terminate a running task, signal by signal.
use mathlib.Core.Bool.{false≢true}
use myqueue.Prelude.{
  ℕ, ◌+◌, ◌≡◌, ◌≢◌, refl, sym, ap, ◌∙◌, ◌⊎◌, inl, inr, Bool, true, false, not, ◌||◌, none, some,
  Bool-cases, if_ind, arith, subst,
}
use myqueue.Prelude.Int.{ℤ, pos, lez, eqb, eqb_iff}
use myqueue.Prelude.Map.{find}
use myqueue.Task.{Task, running, status_eq}
use myqueue.Queue.{TaskQueue}
use myqueue.Monitor.Resource.{Monitor, release}
use myqueue.Executor.{terminate, negated, sigterm}
use myqueue.Scheduler.{Env, System, terminate_running, terminate_task, wait_for_end}
use myqueue.Scheduler.Ending.{end_task-others}
use myqueue.Scheduler.Ends.{end_task_lem}
use myqueue.Server.{terminate_twice}

-- The entry is gone, and every other entry is as it was.
abbrev pub Erased : System → ℕ → System → Type 0
Erased s id s' =
    (find id s'.queue.tasks ≡ none)
    × ((j : ℕ) → id ≢ j → find j s'.queue.tasks ≡ find j s.queue.tasks)

module _ {Value : Type 0} (env : Env Value) where
  -- kill tells that SIGTERM was delivered, to the process group at this moment or to the process alone
  -- at the next.
  abbrev pub Delivered : ℕ → ℤ → Type 0
  Delivered now pid =
      (env.os.kill now (negated pid) sigterm ≡ pos 0) ⊎ (env.os.kill (now + 1) pid sigterm ≡ pos 0)

  -- It tells that neither was.
  abbrev pub Undelivered : ℕ → ℤ → Type 0
  Undelivered now pid =
      (env.os.kill now (negated pid) sigterm ≢ pos 0) × (env.os.kill (now + 1) pid sigterm ≢ pos 0)

  terminate_cases :
      (now : ℕ) (pid : ℤ)
      → let r = terminate env.os now pid false in
        ((r.0 ≡ true) × Delivered now pid) ⊎ ((r ≡ (false, now + 2)) × Undelivered now pid)
  unfolding terminate
  terminate_cases now pid =
      elim (Bool-cases (eqb (env.os.kill now (negated pid) sigterm) (pos 0))) [
        | inl e ↦ inl (rw (e, terminate) refl, inl ((eqb_iff _ _).0 e))
        | inr e ↦ elim (Bool-cases (eqb (env.os.kill (now + 1) pid sigterm) (pos 0))) [
          | inl e' ↦ inl (rw (e, terminate) e', inr ((eqb_iff _ _).0 e'))
          | inr e' ↦ inr (
            rw (e, terminate) (rw e' refl),
            (
              λ h. absurd (false≢true (sym e ∙ (eqb_iff _ _).1 h)),
              λ h. absurd (false≢true (sym e' ∙ (eqb_iff _ _).1 h)),
            ),
          )
        ]
      ]

  -- A success erases the task and releases what it held; a failure changes neither the queue nor the
  -- monitor.
  abbrev Ended : System → ℕ → Task → System → Type 0
  Ended s id t s' =
      Erased s id s' × (s'.monitor ≡ release s.monitor t.allocated_cpus t.allocated_gpus)

  abbrev Same : System → System → Type 0
  Same s s' = (s'.queue ≡ s.queue) × (s'.monitor ≡ s.monitor)

  -- The ends of one attempt: with the signal delivered, without a process id, and with the signal
  -- refused.
  data Attempt (s : System) (id : ℕ) (t : Task) (r : Bool × System) : Type 0 where
    succeeded :
        lez t.pid (pos 0) ≡ false
        → Delivered s.now t.pid
        → r.0 ≡ true
        → Ended s id t r.1
        → Attempt s id t r
    no_process : lez t.pid (pos 0) ≡ true → r.0 ≡ false → Same s r.1 → Attempt s id t r
    refused :
        Undelivered s.now t.pid → r.0 ≡ false → r.1.now ≡ s.now + 2 → Same s r.1 → Attempt s id t r

  terminate_running-Attempt :
      (s : System) (id : ℕ) (t : Task)
      → lez t.pid (pos 0) ≡ false
      → Attempt s id t (terminate_running env s id t)
  unfolding terminate_running
  terminate_running-Attempt s id t p = elim (terminate_cases s.now t.pid) [
    | inl (e, d) ↦
        let s' = record s { now = wait_for_end env (terminate env.os s.now t.pid false).1 t.pid } in
        let (gone, released) = end_task_lem env s' id t in
        rw (e, terminate_running)
          (succeeded p d refl ((gone, λ j n. end_task-others env s' id j t n), released))
    | inr (e, d) ↦ rw (e, terminate_running) (refused d refl refl (refl, refl))
  ]

  terminate_task-Attempt :
      (s : System) (id : ℕ) (t : Task)
      → find id s.queue.tasks ≡ some t
      → t.status ≡ running
      → Attempt s id t (terminate_task env s id)
  unfolding terminate_task
  terminate_task-Attempt s id t f r =
      rw (f, terminate_task)
        (if_ind (Attempt s id t) (not (status_eq t.status running) || lez t.pid (pos 0))
          (λ h. no_process (ground arith) refl (refl, refl))
          (λ h. terminate_running-Attempt s id t (ground arith)))

  -- The ends of both attempts: one signal was delivered, the first if possible, or none was.
  pub data TwoAttempts (s : System) (id : ℕ) (t : Task) (r : Bool × System) : Type 0 where
    done :
        lez t.pid (pos 0) ≡ false
        → Delivered s.now t.pid ⊎ (Undelivered s.now t.pid × Delivered (s.now + 2) t.pid)
        → r.0 ≡ true
        → Ended s id t r.1
        → TwoAttempts s id t r
    vain :
        (lez t.pid (pos 0) ≡ true) ⊎ (Undelivered s.now t.pid × Undelivered (s.now + 2) t.pid)
        → r.0 ≡ false
        → Same s r.1
        → TwoAttempts s id t r

  -- The second attempt, after a first that failed in the state `s`.
  retry :
      (s s' : System) (id : ℕ) (t : Task) (r : Bool × System)
      → (lez t.pid (pos 0) ≡ true) ⊎ (Undelivered s.now t.pid × (s'.now ≡ s.now + 2))
      → Same s s'
      → Attempt s' id t r
      → TwoAttempts s id t r
  retry s s' id t r (inl p) same (succeeded q d e h) = absurd (false≢true (sym q ∙ p))
  retry s s' id t r (inr (u, n)) (sq, sm) (succeeded q d e ((g, o), m)) =
      done q (inr (u, subst (λ k. Delivered k t.pid) n d)) e (
        (g, λ j i. o j i ∙ ap (λ (q : TaskQueue). find j q.tasks) sq),
        m ∙ ap (λ (m : Monitor). release m t.allocated_cpus t.allocated_gpus) sm,
      )
  retry s s' id t r c (sq, sm) (no_process p e (q, m)) = vain (inl p) e (q ∙ sq, m ∙ sm)
  retry s s' id t r (inl p) (sq, sm) (refused u e n (q, m)) = vain (inl p) e (q ∙ sq, m ∙ sm)
  retry s s' id t r (inr (u, n)) (sq, sm) (refused u' e n' (q, m)) =
      vain (inr (u, subst (λ k. Undelivered k t.pid) n u')) e (q ∙ sq, m ∙ sm)

  again :
      (s : System) (id : ℕ) (t : Task)
      → find id s.queue.tasks ≡ some t
      → t.status ≡ running
      → (terminate_task env s id).0 ≡ false
      → let s' = (terminate_task env s id).1 in
        (lez t.pid (pos 0) ≡ true) ⊎ (Undelivered s.now t.pid × (s'.now ≡ s.now + 2))
        → Same s s'
        → TwoAttempts s id t (terminate_twice env s id)
  unfolding terminate_twice
  again s id t f r e c same =
      let s' = (terminate_task env s id).1 in
      let found = ap (λ (q : TaskQueue). find id q.tasks) same.0 ∙ f in
      rw (e, terminate_twice)
        (retry s s' id t (terminate_task env s' id) c same (terminate_task-Attempt s' id t found r))

  pub terminate_twice-TwoAttempts :
      (s : System) (id : ℕ) (t : Task)
      → find id s.queue.tasks ≡ some t
      → t.status ≡ running
      → TwoAttempts s id t (terminate_twice env s id)
  unfolding terminate_twice
  terminate_twice-TwoAttempts s id t f r = elim (terminate_task-Attempt s id t f r) [
    | succeeded p d e h ↦ rw (e, terminate_twice) (done p (inl d) refl h)
    | no_process p e h ↦ again s id t f r e (inl p) h
    | refused u e n h ↦ again s id t f r e (inr (u, n)) h
  ]
