-- ===== src/Server/Books.antt =====
-- The books of scheduler.cpp through the request handlers of server.cpp.
use myqueue.Prelude.{
  ℕ, suc, ◌≤◌, ◌<◌, ◌≡◌, ◌≢◌, refl, ap, ◌∙◌, subst, Bool, false, not, ◌||◌, some, List, [], ◌∷◌,
  All, arith, Option-cases, inl, inr, if_ind,
}
use myqueue.Prelude.Int.{pos, lez}
use myqueue.Prelude.Map.{find, total-put, at, values}
use myqueue.Prelude.Text.{Bytes}
use myqueue.Task.{Task, pending, running, status_eq}
use myqueue.Queue.{TaskQueue, SubmitRequest, u64_mod, submit, new_task, delete_task, get_all_tasks}
use myqueue.Queue.Cases.{delete_task_cases}
use myqueue.Queue.Invariant.{IsValid, find_above, submit-IsValid, delete_task-IsValid}
use myqueue.Monitor.Resource.{Monitor}
use myqueue.Executor.{terminate}
use myqueue.Scheduler.Booking.{Booked, holds_cpu, holds_gpu, forget-Booked}
use myqueue.Scheduler.Ending.{
  delete_task-others, end_task-others, Balanced, terminate_task-Balanced,
}
use myqueue.Scheduler.Checking.{Rising, values-Rising, values_found}
use myqueue.Scheduler.{Env, System, terminate_running, terminate_task, wait_for_end}
use myqueue.Protocol.Responses.{DeleteAllResponse}
use myqueue.Server.{
  PathKind, handle_submit, terminate_twice, delete_in, delete_found, delete_one, delete_each,
  handle_delete, delete_listed, delete_all_listed, no_deletion, handle_delete_all, Deleted,
  Submitted, exists, is_directory,
}

-- A new task is pending: it holds nothing.
pub submit-Booked :
    (q : TaskQueue) (m : Monitor) (req : SubmitRequest) (now : ℕ)
    → suc q.next_id < u64_mod
    → Booked q m
    → Booked (submit q req now).1 m
unfolding submit new_task
submit-Booked q m req now room b =
    let unused = find_above q.next_id q.next_id q.tasks b.valid.keyed (omega arith) in
    record {
      valid = submit-IsValid q req now room b.valid;
      cpus = λ c. omega (
        arith,
        total-put (holds_cpu c) q.next_id 0 (new_task q.next_id req now) q.tasks b.valid.ascending,
        ap (at (holds_cpu c)) unused,
        b.cpus c,
      );
      gpus = λ g. omega (
        arith,
        total-put (holds_gpu g) q.next_id 0 (new_task q.next_id req now) q.tasks b.valid.ascending,
        ap (at (holds_gpu g)) unused,
        b.gpus g,
      );
    }

-- A task that is not running is deleted.
pub delete_task-Booked :
    (q : TaskQueue) (m : Monitor) (id : ℕ) (t : Task) (now : ℕ)
    → Booked q m
    → find id q.tasks ≡ some t
    → status_eq t.status running ≡ false
    → Booked (delete_task q id now).1 m
delete_task-Booked q m id t now b f n = elim (delete_task_cases q id now) [
  | inl (e, d) ↦ rw d b
  | inr (u, g, d) ↦ rw d (
      forget-Booked q m id t b
        (subst IsValid (ap (λ r. r.1) d) (delete_task-IsValid q id now b.valid)) f n)
]

module _ {Value : Type 0} (env : Env Value) where
  terminate_running-others :
      (s : System) (id j : ℕ) (t : Task)
      → id ≢ j
      → find j (terminate_running env s id t).1.queue.tasks ≡ find j s.queue.tasks
  unfolding terminate_running
  terminate_running-others s id j t n =
      if_ind (λ (o : Bool × System). find j o.1.queue.tasks ≡ find j s.queue.tasks)
        (terminate env.os s.now t.pid false).0
        (λ h.
          end_task-others env
            (record s { now = wait_for_end env (terminate env.os s.now t.pid false).1 t.pid }) id j
            t n)
        (λ h. refl)

  terminate_task-others :
      (s : System) (id j : ℕ)
      → id ≢ j
      → find j (terminate_task env s id).1.queue.tasks ≡ find j s.queue.tasks
  unfolding terminate_task
  terminate_task-others s id j n = elim (Option-cases (find id s.queue.tasks)) [
    | inl e ↦ rw (e, terminate_task) refl
    | inr (t, e) ↦
        rw (e, terminate_task)
          (if_ind (λ (o : Bool × System). find j o.1.queue.tasks ≡ find j s.queue.tasks)
            (not (status_eq t.status running) || lez t.pid (pos 0)) (λ h. refl)
            (λ h. terminate_running-others s id j t n))
  ]

  -- The books are kept, and only one entry has changed.
  abbrev pub KeptBut : ℕ → System → System → Type 0
  KeptBut id s s' = Balanced s' × ((j : ℕ) → id ≢ j → find j s'.queue.tasks ≡ find j s.queue.tasks)

  terminate_twice-KeptBut :
      (s : System) (id : ℕ) → Balanced s → KeptBut id s (terminate_twice env s id).1
  unfolding terminate_twice
  terminate_twice-KeptBut s id b =
      let s' = (terminate_task env s id).1 in
      let b' = terminate_task-Balanced env s id b in
      if_ind (λ (o : Bool × System). KeptBut id s o.1) (terminate_task env s id).0
        (λ h. (b', λ j n. terminate_task-others s id j n))
        (λ h. (
          terminate_task-Balanced env s' id b',
          λ j n. terminate_task-others s' id j n ∙ terminate_task-others s id j n,
        ))

  delete_in-KeptBut :
      (s : System) (id : ℕ) (t : Task)
      → Balanced s
      → find id s.queue.tasks ≡ some t
      → status_eq t.status running ≡ false
      → KeptBut id s (delete_in env s id).1
  unfolding delete_in
  delete_in-KeptBut s id t b f n = (
    delete_task-Booked s.queue s.monitor id t (env.clock s.now) b f n,
    λ j m. delete_task-others s.queue id (env.clock s.now) j m,
  )

  delete_found-KeptBut :
      (s : System) (id : ℕ) (t : Task)
      → Balanced s
      → find id s.queue.tasks ≡ some t
      → KeptBut id s (delete_found env s id t).1
  unfolding delete_found
  delete_found-KeptBut s id t b f =
      if_ind (λ (o : Deleted × System). KeptBut id s o.1) (status_eq t.status running)
        (λ h. terminate_twice-KeptBut s id b) (λ h. delete_in-KeptBut s id t b f h)

  delete_one-Balanced : (s : System) (id : ℕ) → Balanced s → Balanced (delete_one env s id).1
  unfolding delete_one
  delete_one-Balanced s id b = elim (Option-cases (find id s.queue.tasks)) [
    | inl e ↦ rw (e, delete_one) b
    | inr (t, e) ↦ rw (e, delete_one) (delete_found-KeptBut s id t b e).0
  ]

  delete_each-Balanced :
      (s : System) (ids : List ℕ) → Balanced s → Balanced (delete_each env s ids).1
  unfolding delete_each
  delete_each-Balanced s [] b = b
  delete_each-Balanced s (id ∷ ids) b =
      delete_each-Balanced (delete_one env s id).1 ids (delete_one-Balanced s id b)

  pub handle_delete-Balanced :
      (s : System) (ids : List ℕ) → Balanced s → Balanced (handle_delete env s ids).1
  unfolding handle_delete
  handle_delete-Balanced s ids b = delete_each-Balanced s ids b

  delete_listed-KeptBut :
      (resp : DeleteAllResponse) (s : System) (t : Task)
      → Balanced s
      → find t.id s.queue.tasks ≡ some t
      → KeptBut t.id s (delete_listed env resp s t).1
  unfolding delete_listed
  delete_listed-KeptBut resp s t b f =
      if_ind (λ (o : DeleteAllResponse × System). KeptBut t.id s o.1) (status_eq t.status running)
        (λ h. terminate_twice-KeptBut s t.id b)
        (λ h.
          if_ind (λ (o : DeleteAllResponse × System). KeptBut t.id s o.1)
            (status_eq t.status pending) (λ p. delete_in-KeptBut s t.id t b f h)
            (λ p. delete_in-KeptBut s t.id t b f h))

  delete_all_listed-Balanced :
      (resp : DeleteAllResponse) (s : System) (lo : ℕ) (ts : List Task)
      → Balanced s
      → Rising lo ts
      → All (λ t. find t.id s.queue.tasks ≡ some t) ts
      → Balanced (delete_all_listed env resp s ts).1
  unfolding delete_all_listed
  delete_all_listed-Balanced resp s lo [] b r l = b
  delete_all_listed-Balanced resp s lo (t ∷ ts) b r l =
      let o = delete_listed env resp s t in
      let (b', kept) = delete_listed-KeptBut resp s t b l.0 in
      delete_all_listed-Balanced o.0 o.1 (suc t.id) ts b' r.1
        (found_kept s o.1 (suc t.id) t.id ts kept (omega arith) r.1 l.1)
    where
      found_kept :
          (s s' : System) (lo k : ℕ) (ts : List Task)
          → ((j : ℕ) → k ≢ j → find j s'.queue.tasks ≡ find j s.queue.tasks)
          → suc k ≤ lo
          → Rising lo ts
          → All (λ t. find t.id s.queue.tasks ≡ some t) ts
          → All (λ t. find t.id s'.queue.tasks ≡ some t) ts
      found_kept s s' lo k [] h n r l = tt
      found_kept s s' lo k (t ∷ ts) h n r l = (
        h t.id (λ e. absurd (omega (arith, e))) ∙ l.0,
        found_kept s s' (suc t.id) k ts h (omega arith) r.1 l.1,
      )

  pub handle_delete_all-Balanced : (s : System) → Balanced s → Balanced (handle_delete_all env s).1
  unfolding handle_delete_all get_all_tasks
  handle_delete_all-Balanced s b =
      delete_all_listed-Balanced no_deletion s 0 (values s.queue.tasks) b
        (values-Rising s.queue.next_id 0 s.queue.tasks b.valid.ascending b.valid.keyed)
        (values_found s.queue b.valid)

  pub handle_submit-Balanced :
      (stat : Bytes → PathKind) (s : System) (req : SubmitRequest)
      → suc s.queue.next_id < u64_mod
      → Balanced s
      → Balanced (handle_submit env stat s req).1
  unfolding handle_submit
  handle_submit-Balanced stat s req room b =
      if_ind (λ (o : Submitted × System). Balanced o.1) (not (exists (stat req.script_path)))
        (λ h. b)
        (λ h.
          if_ind (λ (o : Submitted × System). Balanced o.1)
            (not (exists (stat req.workdir)) || not (is_directory (stat req.workdir))) (λ p. b)
            (λ p. submit-Booked s.queue s.monitor req (env.clock s.now) room b))
