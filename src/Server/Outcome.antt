-- ===== src/Server/Outcome.antt =====
-- What handleSubmit and the loop body of handleDelete in server.cpp do, end by end.
use myqueue.Prelude.{
  ℕ, ◌+◌, ◌≡◌, ◌≢◌, refl, ap, ◌∙◌, ◌⊎◌, inl, inr, Bool, true, false, not, ◌||◌, none, some,
  Option-cases, Bool-cases, if_ind, if◌then◌else◌, ◌==◌, arith,
}
use myqueue.Prelude.Map.{find, find-put}
use myqueue.Prelude.Text.{Bytes}
use myqueue.Task.{Task, running, status_eq}
use myqueue.Queue.{TaskQueue, SubmitRequest, submit, new_task}
use myqueue.Queue.Requests.{PendingFor, new_task-PendingFor}
use myqueue.Queue.Cases.{delete_task_cases}
use myqueue.Scheduler.{Env, System}
use myqueue.Scheduler.Ends.{find-delete_task}
use myqueue.Prelude.Int.{pos, lez}
use myqueue.Monitor.Resource.{release}
use myqueue.Scheduler.Ending.{delete_task-others}
use myqueue.Server.Attempts.{
  Erased, Delivered, Undelivered, done, vain, terminate_twice-TwoAttempts,
}
use myqueue.Server.{
  PathKind, exists, is_directory, Submitted, script_not_found, workdir_not_found, task_id,
  handle_submit, Deleted, not_found, termination_failed, terminated, deleted, delete_in,
  delete_found, delete_one,
}

module _ {Value : Type 0} (env : Env Value) where
  -- The ends of handleSubmit, with the response and the new state in `r`.
  pub data Submission (stat : Bytes → PathKind) (s : System) (req : SubmitRequest)
      (r : Submitted × System) : Type 0 where
    no_script :
        exists (stat req.script_path) ≡ false
        → r ≡ (script_not_found req.script_path, s)
        → Submission stat s req r
    no_workdir :
        exists (stat req.script_path) ≡ true
        → is_directory (stat req.workdir) ≡ false
        → r ≡ (workdir_not_found req.workdir, s)
        → Submission stat s req r
    accepted :
        exists (stat req.script_path) ≡ true
        → is_directory (stat req.workdir) ≡ true
        → r.0 ≡ task_id s.queue.next_id
        → (t : Task) → find s.queue.next_id r.1.queue.tasks ≡ some t
        → PendingFor s.queue.next_id req (env.clock s.now) t
        → ((j : ℕ) → s.queue.next_id ≢ j → find j r.1.queue.tasks ≡ find j s.queue.tasks)
        → r.1.monitor ≡ s.monitor
        → Submission stat s req r

  directory_exists : (k : PathKind) → is_directory k ≡ true → exists k ≡ true
  directory_exists k h = ground arith

  -- handleSubmit refuses a script or a working directory that stat does not find, with nothing changed,
  -- and otherwise answers with the next id, under which a pending task stands that was submitted now,
  -- asks for all that the request asks for and holds nothing yet, and leaves every other task and the
  -- monitor as they were.
  pub handle_submit-Submission :
      (stat : Bytes → PathKind) (s : System) (req : SubmitRequest)
      → Submission stat s req (handle_submit env stat s req)
  unfolding handle_submit submit
  handle_submit-Submission stat s req =
      if_ind (Submission stat s req) (not (exists (stat req.script_path)))
        (λ h. no_script (ground arith) refl)
        (λ h.
          if_ind (Submission stat s req)
            (not (exists (stat req.workdir)) || not (is_directory (stat req.workdir)))
            (λ p. no_workdir (ground arith) (missing p) refl)
            (λ p.
              accepted (ground arith) (ground arith) refl
                (new_task s.queue.next_id req (env.clock s.now))
                (find-put s.queue.next_id s.queue.next_id _ s.queue.tasks ∙ ground arith)
                (new_task-PendingFor s.queue.next_id req (env.clock s.now))
                (λ j n. find-put j s.queue.next_id _ s.queue.tasks ∙ other j n) refl))
    where
      missing :
          (not (exists (stat req.workdir)) || not (is_directory (stat req.workdir))) ≡ true
          → is_directory (stat req.workdir) ≡ false
      missing p = ground arith

      other :
          (j : ℕ)
          → s.queue.next_id ≢ j
          → (if s.queue.next_id == j
              then some (new_task s.queue.next_id req (env.clock s.now))
              else find j s.queue.tasks)
            ≡ find j s.queue.tasks
      other j n = ground arith

  -- The ends of a deletion, with the entry of the response and the new state in `r`.
  pub data Deletion (s : System) (id : ℕ) (r : Deleted × System) : Type 0 where
    absent : find id s.queue.tasks ≡ none → r ≡ (not_found, s) → Deletion s id r
    removed :
        (t : Task)
        → find id s.queue.tasks ≡ some t
        → t.status ≢ running
        → r.0 ≡ deleted true
        → Erased s id r.1
        → r.1.monitor ≡ s.monitor
        → Deletion s id r
    stopped :
        (t : Task)
        → find id s.queue.tasks ≡ some t
        → t.status ≡ running
        → lez t.pid (pos 0) ≡ false
        → Delivered env s.now t.pid
          ⊎ (Undelivered env s.now t.pid × Delivered env (s.now + 2) t.pid)
        → r.0 ≡ terminated
        → Erased s id r.1
        → r.1.monitor ≡ release s.monitor t.allocated_cpus t.allocated_gpus
        → Deletion s id r
    kept :
        (t : Task)
        → find id s.queue.tasks ≡ some t
        → t.status ≡ running
        → (lez t.pid (pos 0) ≡ true)
          ⊎ (Undelivered env s.now t.pid × Undelivered env (s.now + 2) t.pid)
        → r.0 ≡ termination_failed
        → r.1.queue ≡ s.queue
        → r.1.monitor ≡ s.monitor
        → Deletion s id r

  delete_in_lem :
      (s : System) (id : ℕ) (t : Task)
      → find id s.queue.tasks ≡ some t
      → ((delete_in env s id).0 ≡ true) × Erased s id (delete_in env s id).1
  unfolding delete_in
  delete_in_lem s id t f = (
    elim (delete_task_cases s.queue id (env.clock s.now)) [
      | inl (e, d) ↦ absurd (ground arith)
      | inr (u, g, d) ↦ ap (λ (o : Bool × TaskQueue). o.0) d
    ],
    (
      find-delete_task s.queue id (env.clock s.now),
      λ j n. delete_task-others s.queue id (env.clock s.now) j n,
    ),
  )

  delete_found-Deletion :
      (s : System) (id : ℕ) (t : Task)
      → find id s.queue.tasks ≡ some t
      → Deletion s id (delete_found env s id t)
  unfolding delete_found delete_in
  delete_found-Deletion s id t f = elim (Bool-cases (status_eq t.status running)) [
    | inr n ↦
        let (a, b) = delete_in_lem s id t f in
        rw (n, delete_found) (removed t f (λ r. absurd (ground arith)) (ap deleted a) b refl)
    | inl r ↦ elim (terminate_twice-TwoAttempts env s id t f (ground arith)) [
      | done p d e (g, m) ↦ rw (r, delete_found) (stopped t f (ground arith) p d (rw e refl) g m)
      | vain v e (q, m) ↦ rw (r, delete_found) (kept t f (ground arith) v (rw e refl) q m)
    ]
  ]

  -- A deletion of an id. An id that is not in the queue changes nothing. A task that is not running is
  -- erased, with the monitor as it was. A running task with a process id is erased and its CPUs and GPUs released
  -- if kill delivers the first SIGTERM, or refuses that and delivers the second; if it refuses both, or
  -- there is no process id, then the queue and the monitor are as they were. No other entry changes, and the
  -- response says which end it was.
  pub delete_one-Deletion : (s : System) (id : ℕ) → Deletion s id (delete_one env s id)
  unfolding delete_one
  delete_one-Deletion s id = elim (Option-cases (find id s.queue.tasks)) [
    | inl e ↦ absent e (rw (e, delete_one) refl)
    | inr (t, e) ↦ rw (e, delete_one) (delete_found-Deletion s id t e)
  ]
