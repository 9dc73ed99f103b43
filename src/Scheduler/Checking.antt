-- ===== src/Scheduler/Checking.antt =====
-- The books of scheduler.cpp through handleTaskCompletion and checkRunningTasks.
use mathlib.Core.List.{mem-cons_self, mem-cons_of_mem}
use myqueue.Prelude.{
  ℕ, suc, ◌≤◌, ◌≡◌, ◌≢◌, refl, ◌∙◌, Bool, some, List, [], ◌∷◌, Mem, All, keep, arith, if_ind,
  if◌then◌else◌, ◌==◌,
}
use myqueue.Prelude.Int.{ℤ, pos, lez}
use myqueue.Prelude.Map.{find, find-put, values, Asc}
use myqueue.Task.{Task, running, completed, status_eq}
use myqueue.Queue.{TaskQueue, overwrite, finished, get_running_tasks}
use myqueue.Queue.Invariant.{IsValid, Keyed}
use myqueue.Queue.Pending.{mem-keep, find_of_mem}
use myqueue.Executor.{check_status}
use myqueue.Scheduler.Booking.{end-Booked}
use myqueue.Scheduler.{
  Env, System, handle_task_completion, check_task, check_tasks, check_running_tasks,
}
use myqueue.Scheduler.Ending.{Balanced, notify-Balanced, notify-queue, set_task_completed_running}

-- A listed task stands in the map and runs.
abbrev pub Listed : TaskQueue → List Task → Type 0
Listed q ts = All (λ t. (find t.id q.tasks ≡ some t) × (t.status ≡ running)) ts

-- Ids in ascending order.
abbrev pub Rising : ℕ → List Task → Type 0
Rising lo [] = Unit {0}
Rising lo (t ∷ ts) = (lo ≤ t.id) × Rising (suc t.id) ts

module _ {Value : Type 0} (env : Env Value) where
  -- One task is completed: the books are kept, and only its entry has changed.
  pub handle_task_completion_running :
      (s : System) (t : Task) (code : ℤ)
      → Balanced s
      → find t.id s.queue.tasks ≡ some t
      → t.status ≡ running
      → let s' = handle_task_completion env s t.id code in
        Balanced s' × ((now : ℕ) × (s'.queue ≡ overwrite s.queue t.id (finished t code now)))
  unfolding handle_task_completion
  handle_task_completion_running s t code b f r =
      rw (f, handle_task_completion)
        (rw (set_task_completed_running s.queue t.id t code (env.clock s.now) f r) (
          notify-Balanced _ t.id t.status completed
              (end-Booked s.queue s.monitor t.id t _ b f r refl refl),
          (env.clock s.now, notify-queue _ t.id t.status completed),
        ))

  -- A check of a listed task: the books are kept, and no other entry changes.
  pub check_task_running :
      (s : System) (t : Task)
      → Balanced s
      → find t.id s.queue.tasks ≡ some t
      → t.status ≡ running
      → let s' = check_task env s t in
        Balanced s' × ((j : ℕ) → t.id ≢ j → find j s'.queue.tasks ≡ find j s.queue.tasks)
  unfolding check_task
  check_task_running s t b f r =
      if_ind Kept (lez t.pid (pos 0)) (λ e. (b, λ j n. refl))
        (λ e.
          if_ind Kept _
            (λ e'.
              let (b', (now, e'')) =
                handle_task_completion_running
                  (record s { now = (check_status env.os s.now t.pid).1 }) t
                  (check_status env.os s.now t.pid).0.exit_code b f r in
              (b', λ j n. rw e'' (find-put j t.id _ s.queue.tasks ∙ other _ j n)))
            (λ e'. (b, λ j n. refl)))
    where
      Kept : System → Type 0
      Kept s' = Balanced s' × ((j : ℕ) → t.id ≢ j → find j s'.queue.tasks ≡ find j s.queue.tasks)

      other :
          (u : Task) (j : ℕ)
          → t.id ≢ j
          → (if t.id == j then some u else find j s.queue.tasks) ≡ find j s.queue.tasks
      other u j n = ground arith

  pub Listed-kept :
      (q q' : TaskQueue) (lo k : ℕ) (ts : List Task)
      → ((j : ℕ) → k ≢ j → find j q'.tasks ≡ find j q.tasks)
      → suc k ≤ lo
      → Rising lo ts
      → Listed q ts
      → Listed q' ts
  Listed-kept q q' lo k [] h n r l = tt
  Listed-kept q q' lo k (t ∷ ts) h n r l = (
    (h t.id (λ e. absurd (omega (arith, e))) ∙ l.0.0, l.0.1),
    Listed-kept q q' (suc t.id) k ts h (omega arith) r.1 l.1,
  )

  check_tasks-Balanced :
      (s : System) (lo : ℕ) (ts : List Task)
      → Balanced s
      → Rising lo ts
      → Listed s.queue ts
      → Balanced (check_tasks env s ts)
  unfolding check_tasks
  check_tasks-Balanced s lo [] b r l = b
  check_tasks-Balanced s lo (t ∷ ts) b r l =
      let (b', kept) = check_task_running s t b l.0.0 l.0.1 in
      check_tasks-Balanced (check_task env s t) (suc t.id) ts b' r.1 (
        Listed-kept s.queue (check_task env s t).queue (suc t.id) t.id ts kept (omega arith) r.1
          l.1)

Rising-mono : (lo lo' : ℕ) (ts : List Task) → lo' ≤ lo → Rising lo ts → Rising lo' ts
Rising-mono lo lo' [] h r = tt
Rising-mono lo lo' (t ∷ ts) h r = (omega arith, r.1)

pub keep-Rising :
    (p : Task → Bool) (n lo : ℕ) (m : List (ℕ × Task))
    → Asc lo m
    → Keyed n m
    → Rising lo (keep p (values m))
keep-Rising p n lo [] a k = tt
keep-Rising p n lo ((i, t) ∷ m) a k =
    let rest = keep-Rising p n (suc i) m a.1 k.2 in
    if_ind (Rising lo) (p t) (λ e. (omega (arith, k.0), rw k.0 rest))
      (λ e. Rising-mono (suc i) lo _ (omega arith) rest)

pub values-Rising : (n lo : ℕ) (m : List (ℕ × Task)) → Asc lo m → Keyed n m → Rising lo (values m)
values-Rising n lo [] a k = tt
values-Rising n lo ((i, t) ∷ m) a k =
    (omega (arith, k.0), rw k.0 (values-Rising n (suc i) m a.1 k.2))

All-of_mem : (P : Task → Type 0) (ts : List Task) → ((t : Task) → Mem t ts → P t) → All P ts
All-of_mem P [] h = tt
All-of_mem P (t ∷ ts) h = (h t mem-cons_self, All-of_mem P ts (λ u m. h u (mem-cons_of_mem t m)))

pub values_found :
    (q : TaskQueue) → IsValid q → All (λ t. find t.id q.tasks ≡ some t) (values q.tasks)
values_found q v = All-of_mem _ _ (λ t i. find_of_mem q.next_id 0 t q.tasks v.ascending v.keyed i)

pub get_running_tasks-Listed : (q : TaskQueue) → IsValid q → Listed q (get_running_tasks q)
unfolding get_running_tasks
get_running_tasks-Listed q v = All-of_mem _ _ (λ t m.
    let (i, e) = (mem-keep (λ t. status_eq t.status running) (values q.tasks)).0 m in
    (find_of_mem q.next_id 0 t q.tasks v.ascending v.keyed i, ground arith))

module _ {Value : Type 0} (env : Env Value) where
  -- The pass over the running tasks keeps the books.
  pub check_running_tasks-Balanced :
      (s : System) → Balanced s → Balanced (check_running_tasks env s)
  unfolding check_running_tasks get_running_tasks
  check_running_tasks-Balanced s b =
      check_tasks-Balanced env s 0 (get_running_tasks s.queue) b
        (keep-Rising _ s.queue.next_id 0 s.queue.tasks b.valid.ascending b.valid.keyed)
        (get_running_tasks-Listed s.queue b.valid)
