-- ===== src/Server/Histories.antt =====
-- Histories of the server: requests (server.cpp) and the rounds of the scheduler's two threads
-- (scheduler.cpp), in any order.
use myqueue.Prelude.{
  ℕ, suc, ◌+◌, ◌<◌, ◌≡◌, refl, false, some, List, [], ◌∷◌, ◌≢◌, ◌&&◌, keep, Bool-cases, inl, inr,
  arith,
}
use myqueue.Prelude.Int.{ℤ}
use myqueue.Prelude.Map.{find, total, values}
use myqueue.Prelude.Set.{contains}
use myqueue.Prelude.Text.{Bytes}
use myqueue.Task.{Task, running, status_eq}
use myqueue.Queue.{SubmitRequest, u64_mod, new_queue, get_running_tasks}
use myqueue.Queue.Invariant.{new_queue-IsValid}
use myqueue.Queue.Pending.{IsSort}
use myqueue.Monitor.Resource.Cpus.{IsShuffle}
use myqueue.Monitor.Resource.Outcome.{has_cpu, has_gpu}
use myqueue.Scheduler.Booking.{holds_cpu, holds_gpu, Booked-exclusive}
use myqueue.Scheduler.Ending.{Balanced}
use myqueue.Scheduler.Checking.{check_running_tasks-Balanced}
use myqueue.Scheduler.Starting.{try_schedule_next-Balanced}
use myqueue.Scheduler.{Env, System, try_schedule_next, check_running_tasks}
use myqueue.Server.Books.{
  handle_submit-Balanced, handle_delete-Balanced, handle_delete_all-Balanced,
}
use myqueue.Server.{PathKind, handle_submit, handle_delete, handle_delete_all}

-- What changes the state: a request, or one round of schedulingLoop or monitoringLoop. The world
-- may change between two of them: time passes.
pub data Event : Type 0 where
  submits : SubmitRequest → Event
  deletes : List ℕ → Event
  deletes_all : Event
  schedules : Event
  checks : Event
  passes : ℕ → Event

module _ {Value : Type 0} (env : Env Value) (stat : Bytes → PathKind) where
  abbrev pub step : System → Event → System
  step s (submits req) = (handle_submit env stat s req).1
  step s (deletes ids) = (handle_delete env s ids).1
  step s deletes_all = (handle_delete_all env s).1
  step s schedules = (try_schedule_next env s).1
  step s checks = check_running_tasks env s
  step s (passes n) = record s { now = s.now + n }

  -- Ids are left at every submission on the way.
  abbrev pub HasRoom : System → Event → Type 0
  HasRoom s (submits req) = suc s.queue.next_id < u64_mod
  HasRoom s (deletes ids) = Unit {0}
  HasRoom s deletes_all = Unit {0}
  HasRoom s schedules = Unit {0}
  HasRoom s checks = Unit {0}
  HasRoom s (passes n) = Unit {0}

  unfoldable pub run : System → List Event → System
  run s [] = s
  run s (e ∷ es) = run (step s e) es

  abbrev pub RoomOnTheWay : System → List Event → Type 0
  RoomOnTheWay s [] = Unit {0}
  RoomOnTheWay s (e ∷ es) = HasRoom s e × RoomOnTheWay (step s e) es

  module _ (sh : IsShuffle env.world) (so : IsSort env.sort) where
    pub step-Balanced : (s : System) (e : Event) → HasRoom s e → Balanced s → Balanced (step s e)
    step-Balanced s (submits req) h b = handle_submit-Balanced env stat s req h b
    step-Balanced s (deletes ids) h b = handle_delete-Balanced env s ids b
    step-Balanced s deletes_all h b = handle_delete_all-Balanced env s b
    step-Balanced s schedules h b = try_schedule_next-Balanced env s sh so b
    step-Balanced s checks h b = check_running_tasks-Balanced env s b
    step-Balanced s (passes n) h b = b

    -- Whatever requests and rounds of the scheduler's threads come, in any order: if the books are
    -- right at first, they are right after them. That is, each CPU and each GPU is held by exactly
    -- one running task if the monitor has it as allocated, and by none otherwise. The conditions are
    -- that std::shuffle permutes, that std::sort sorts, and that ids are left at each submission.
    pub run-Balanced :
        (s : System) (es : List Event) → RoomOnTheWay s es → Balanced s → Balanced (run s es)
    unfolding run
    run-Balanced s [] h b = b
    run-Balanced s (e ∷ es) h b = run-Balanced (step s e) es h.1 (step-Balanced s e h.0 b)

-- A server with nothing in its queue and nothing allocated.
pub record Fresh (s : System) : Type 0 where
  pub queue : s.queue ≡ new_queue s.queue.data_dir
  pub cpus : s.monitor.cpu_monitor.allocated_cpus ≡ []
  pub gpus : s.monitor.gpu_monitor.allocated_gpus ≡ []

pub Fresh-Balanced : (s : System) → Fresh s → Balanced s
unfolding new_queue total contains
Fresh-Balanced s f = record {
  valid = rw f.queue (new_queue-IsValid s.queue.data_dir);
  cpus = λ c. rw (f.queue, f.cpus) refl;
  gpus = λ g. rw (f.queue, f.gpus) refl;
}

none_held :
    (f : Task → ℕ) (m : List (ℕ × Task))
    → ((t : Task) → status_eq t.status running ≡ false → f t ≡ 0)
    → keep (λ t. status_eq t.status running) (values m) ≡ []
    → total f m ≡ 0
unfolding total
none_held f [] h e = refl
none_held f ((k, t) ∷ m) h e = elim (Bool-cases (status_eq t.status running)) [
  | inl r ↦ absurd (ground arith)
  | inr r ↦ omega (arith, h t r, none_held f m h (ground arith))
]

module _ {Value : Type 0} (env : Env Value) (stat : Bytes → PathKind) (s : System)
    (es : List Event) where
  -- No CPU and no GPU is given to two running tasks, after any requests and rounds of the scheduler's
  -- threads in any order from a fresh server. The conditions are that std::shuffle permutes, that
  -- std::sort sorts, and that ids are left at each submission.
  pub run-exclusive :
      (t u : Task) (id : ℤ)
      → IsShuffle env.world
      → IsSort env.sort
      → Fresh s
      → RoomOnTheWay env stat s es
      → let q = (run env stat s es).queue in
        find t.id q.tasks ≡ some t
        → find u.id q.tasks ≡ some u
        → t.id ≢ u.id
        → t.status ≡ running
        → u.status ≡ running
        → ((contains id t.allocated_cpus && contains id u.allocated_cpus) ≡ false)
          × ((contains id t.allocated_gpus && contains id u.allocated_gpus) ≡ false)
  run-exclusive t u id sh so f room ft fu n rt ru =
      let s' = run env stat s es in
      let b = run-Balanced env stat sh so s es room (Fresh-Balanced s f) in
      Booked-exclusive s'.queue s'.monitor t u id b ft fu n rt ru

  -- No CPU and no GPU leaks: when no task is running, nothing is allocated, after any requests and
  -- rounds of the scheduler's threads in any order from a fresh server. The conditions are that
  -- std::shuffle permutes, that std::sort sorts, and that ids are left at each submission.
  pub run_idle :
      (id : ℤ)
      → IsShuffle env.world
      → IsSort env.sort
      → Fresh s
      → RoomOnTheWay env stat s es
      → let s' = run env stat s es in
        get_running_tasks s'.queue ≡ []
        → (has_cpu s'.monitor id ≡ false) × (has_gpu s'.monitor id ≡ false)
  unfolding get_running_tasks
  run_idle id sh so f room e =
      let s' = run env stat s es in
      let b = run-Balanced env stat sh so s es room (Fresh-Balanced s f) in
      (
        ground (arith, b.cpus id, none_held (holds_cpu id) s'.queue.tasks (λ t n. rw n refl) e),
        ground (arith, b.gpus id, none_held (holds_gpu id) s'.queue.tasks (λ t n. rw n refl) e),
      )
