-- ===== src/Server/Durable.antt =====
-- What the disk holds of the queue: `save` after the requests of server.cpp and in the rounds of
-- scheduler.cpp, against `load` in the next start.
pub mod Starting
pub mod Histories
use myqueue.Prelude.{
  ℕ, ◌<◌, ◌≡◌, refl, sym, ap, ◌∙◌, ◌⊎◌, inl, inr, true, false, not, ◌||◌, Option, some, List, [],
  ◌∷◌, arith, if_ind, is_empty, if◌then◌else◌, ◌==◌, Option-cases, Bool-cases,
}
use myqueue.Prelude.Int.{ℤ, pos, lez}
use myqueue.Prelude.Map.{find, find-put}
use myqueue.Prelude.Text.{Bytes}
use myqueue.Json.{JsonLaws, IsCalendar}
use myqueue.Task.{Task, pending, failed}
use myqueue.Queue.{TaskQueue, u64_mod, overwrite, ended, new_queue, SubmitRequest, get_all_tasks}
use myqueue.Queue.Invariant.{IsValid}
use myqueue.Queue.Persist.{Files, get_tasks_file_path, save, load}
use myqueue.Queue.Persist.RoundTrip.{cut_entries, load-save}
use myqueue.Executor.{check_status}
use myqueue.Scheduler.{Env, System, handle_task_completion, check_task, check_tasks}
use myqueue.Scheduler.Grants.{AtHome}
use myqueue.Server.{
  PathKind, exists, is_directory, Submitted, handle_submit, delete_each, handle_delete,
  delete_all_listed, no_deletion, handle_delete_all,
}

-- What an entry on the disk is for one in memory: the same, or still pending for a task whose process
-- could not be started.
abbrev pub Behind : Option Task → Option Task → Type 0
Behind old new =
    (old ≡ new)
    ⊎ ((t : Task) × (old ≡ some t)
        × (t.status ≡ pending)
        × ((now : ℕ) × (new ≡ some (ended failed t now))))

-- The queue `old` is `new` before such failures.
pub record Lags (old new : TaskQueue) : Type 0 where
  pub next_id : old.next_id ≡ new.next_id
  pub data_dir : old.data_dir ≡ new.data_dir
  pub entries : (id : ℕ) → Behind (find id old.tasks) (find id new.tasks)

pub Lags-refl : (q : TaskQueue) → Lags q q
Lags-refl q = record { next_id = refl; data_dir = refl; entries = λ id. inl refl }

-- A pending task is written as failed.
pub Lags-failed :
    (old q : TaskQueue) (id now : ℕ) (t : Task)
    → Lags old q
    → find id q.tasks ≡ some t
    → t.status ≡ pending
    → Lags old (overwrite q id (ended failed t now))
Lags-failed old q id now t l f p = record {
  next_id = l.next_id;
  data_dir = l.data_dir;
  entries = λ j. elim (Bool-cases (id == j)) [
    | inl e ↦ was_pending j e (l.entries j)
    | inr e ↦ rw (find-put j id (ended failed t now) q.tasks) (rw e (l.entries j))
  ];
}
  where
    was_pending :
        (j : ℕ)
        → (id == j) ≡ true
        → Behind (find j old.tasks) (find j q.tasks)
        → Behind (find j old.tasks) (find j (overwrite q id (ended failed t now)).tasks)
    was_pending j e (inl s) =
        inr (t, ground arith, p, (now, ground (arith, find-put j id (ended failed t now) q.tasks)))
    was_pending j e (inr (u, s, r, (n, w))) = absurd (ground arith)

module _ {Value : Type 0} (env : Env Value) where
  -- A start with the files reads the queue as it was before such failures, its times cut to seconds.
  pub record OnDisk (q : TaskQueue) (files : Files) : Type 0 where
    pub old : TaskQueue
    pub lags : Lags old q
    pub read :
        load env.json env.calendar (new_queue q.data_dir) files
        ≡ record old { tasks = cut_entries old.tasks }

  -- The queue has a file, which can be written.
  abbrev pub HasFile : TaskQueue → Type 0
  HasFile q =
      (is_empty q.data_dir ≡ false)
      × ((env.can_write (get_tasks_file_path q) ≡ true) × (q.next_id < u64_mod))

  pub HasFile-AtHome : (q q' : TaskQueue) → HasFile q → AtHome q q' → HasFile q'
  unfolding get_tasks_file_path
  HasFile-AtHome q q' (named, (opens, room)) (e, r) = (rw e named, (rw e opens, r room))

  -- An operation leaves the queue and the files, or ends with a save of its queue.
  abbrev pub Settled : System → System → Type 0
  Settled s r =
      ((r.queue ≡ s.queue) × (r.files ≡ s.files))
      ⊎ ((files : Files) × (r.files ≡ save env.json env.calendar env.can_write r.queue files))

  Settled-trans : (s s' s'' : System) → Settled s s' → Settled s' s'' → Settled s s''
  Settled-trans s s' s'' (inl (e, f)) (inl (e', f')) = inl (e' ∙ e, f' ∙ f)
  Settled-trans s s' s'' (inr (files, f)) (inl (e', f')) =
      inr (files, f' ∙ f ∙ ap (λ q. save env.json env.calendar env.can_write q files) (sym e'))
  Settled-trans s s' s'' a (inr b) = inr b

  pub handle_submit-Settled :
      (stat : Bytes → PathKind) (s : System) (req : SubmitRequest)
      → Settled s (handle_submit env stat s req).1
  unfolding handle_submit
  handle_submit-Settled stat s req =
      if_ind (λ (o : Submitted × System). Settled s o.1) (not (exists (stat req.script_path)))
        (λ _. inl (refl, refl))
        (λ _.
          if_ind (λ (o : Submitted × System). Settled s o.1)
            (not (exists (stat req.workdir)) || not (is_directory (stat req.workdir)))
            (λ _. inl (refl, refl)) (λ _. inr (s.files, refl)))

  pub handle_delete-Settled : (s : System) (ids : List ℕ) → Settled s (handle_delete env s ids).1
  unfolding handle_delete
  handle_delete-Settled s ids = inr ((delete_each env s ids).1.files, refl)

  pub handle_delete_all-Settled : (s : System) → Settled s (handle_delete_all env s).1
  unfolding handle_delete_all
  handle_delete_all-Settled s =
      inr ((delete_all_listed env no_deletion s (get_all_tasks s.queue)).1.files, refl)

  handle_task_completion-Settled :
      (s : System) (id : ℕ) (code : ℤ) → Settled s (handle_task_completion env s id code)
  unfolding handle_task_completion
  handle_task_completion-Settled s id code = elim (Option-cases (find id s.queue.tasks)) [
    | inl e ↦ rw (e, handle_task_completion) (inl (refl, refl))
    | inr (t, e) ↦ rw (e, handle_task_completion) (inr (_, refl))
  ]

  check_task-Settled : (s : System) (t : Task) → Settled s (check_task env s t)
  unfolding check_task
  check_task-Settled s t =
      let (status, now') = check_status env.os s.now t.pid in
      let s' = record s { now = now' } in
      if_ind (Settled s) (lez t.pid (pos 0)) (λ _. inl (refl, refl))
        (λ _.
          if_ind (Settled s) (not status.running)
            (λ _. handle_task_completion-Settled s' t.id status.exit_code) (λ _. inl (refl, refl)))

  pub check_tasks-Settled : (s : System) (ts : List Task) → Settled s (check_tasks env s ts)
  unfolding check_tasks
  check_tasks-Settled s [] = inl (refl, refl)
  check_tasks-Settled s (t ∷ ts) =
      let s' = check_task env s t in
      Settled-trans s s' (check_tasks env s' ts) (check_task-Settled s t)
        (check_tasks-Settled s' ts)

  module _ (L : JsonLaws env.json) (C : IsCalendar env.calendar) where
    -- A save brings the disk up to date.
    pub save-OnDisk :
        (q : TaskQueue) (files : Files)
        → IsValid q
        → HasFile q
        → OnDisk q (save env.json env.calendar env.can_write q files)
    unfolding new_queue
    save-OnDisk q files v (named, (opens, room)) = record {
      old = q;
      lags = Lags-refl q;
      read =
          load-save env.json env.calendar env.can_write q (new_queue q.data_dir) files L C v room
            named refl opens;
    }

    pub Settled-OnDisk :
        (s r : System)
        → IsValid r.queue
        → HasFile r.queue
        → OnDisk s.queue s.files
        → Settled s r
        → OnDisk r.queue r.files
    Settled-OnDisk s r v h d (inl (e, f)) = rw (e, f) d
    Settled-OnDisk s r v h d (inr (files, f)) = rw f (save-OnDisk r.queue files v h)
