-- ===== src/Server/Durable/Histories.antt =====
-- What the disk holds of the queue in the histories of the server: all events together.
use mathlib.Core.Option
use myqueue.Prelude.{
  ℕ, ◌≡◌, refl, sym, ap, is_empty, ◌∙◌, ◌⊎◌, inl, inr, true, false, Option, none, some, List, [],
  ◌∷◌, arith,
}
use myqueue.Prelude.Map.{find}
use myqueue.Prelude.Text.{Bytes}
use myqueue.Json.{JsonLaws, IsCalendar}
use myqueue.Task.{Task, pending, failed}
use myqueue.Task.RoundTrip.{cut_times}
use myqueue.Queue.{TaskQueue, ended, get_running_tasks, new_queue}
use myqueue.Queue.Pending.{IsSort}
use myqueue.Queue.Persist.{Files, load, get_tasks_file_path}
use myqueue.Queue.Persist.RoundTrip.{cut_entries}
use myqueue.Monitor.Resource.Cpus.{IsShuffle}
use myqueue.Scheduler.{Env, System, check_running_tasks}
use myqueue.Scheduler.Ending.{Balanced}
use myqueue.Server.{PathKind}
use myqueue.Scheduler.Grants.{check_running_tasks-Keeps}
use myqueue.Server.Shares.{handle_submit-Keeps, handle_delete-Keeps, handle_delete_all-Keeps}
use myqueue.Server.Histories.{
  Event, submits, deletes, deletes_all, schedules, checks, passes, step, run, RoomOnTheWay,
  step-Balanced, Fresh-Balanced,
}
use myqueue.Config.{Config}
use myqueue.Server.Setup.{new_server}
use myqueue.Server.Shares.Histories.{new_server-Fresh}
use myqueue.Server.Durable.{
  Behind, Lags-refl, OnDisk, HasFile, HasFile-AtHome, Settled-OnDisk, handle_submit-Settled,
  handle_delete-Settled, handle_delete_all-Settled, check_tasks-Settled,
}
use myqueue.Server.Durable.Starting.{Moves, try_schedule_next-Moves}

module _ {Value : Type 0} (env : Env Value) (stat : Bytes → PathKind) (L : JsonLaws env.json)
    (C : IsCalendar env.calendar) (sh : IsShuffle env.world) (so : IsSort env.sort)
    (dir : Bytes) where
  -- The books are kept, the queue has its file, and the disk follows.
  record Stored (s : System) : Type 0 where
    books : Balanced s
    home : HasFile env s.queue
    same : s.queue.data_dir ≡ dir
    disk : OnDisk env s.queue s.files

  moved : (s r : System) → Stored s → Balanced r → Moves env s r → Stored r
  moved s r k b (h, m) = record {
    books = b;
    home = HasFile-AtHome env s.queue r.queue k.home h;
    same = h.0 ∙ k.same;
    disk = elim m [
      | inl e ↦
          Settled-OnDisk env L C s r b.valid (HasFile-AtHome env s.queue r.queue k.home h) k.disk e
      | inr f ↦ f k.disk
    ];
  }

  step-Moves : (s : System) (e : Event) → Stored s → Moves env s (step env stat s e)
  unfolding check_running_tasks get_running_tasks
  step-Moves s (submits req) k =
      ((handle_submit-Keeps env stat s req).runs.1, inl (handle_submit-Settled env stat s req))
  step-Moves s (deletes ids) k =
      ((handle_delete-Keeps env s ids).runs.1, inl (handle_delete-Settled env s ids))
  step-Moves s deletes_all k =
      ((handle_delete_all-Keeps env s).runs.1, inl (handle_delete_all-Settled env s))
  step-Moves s schedules k = try_schedule_next-Moves env s so k.books.valid
  step-Moves s checks k = (
    (check_running_tasks-Keeps env s).runs.1,
    inl (check_tasks-Settled env s (get_running_tasks s.queue)),
  )
  step-Moves s (passes n) k = ((refl, λ h. h), inl (inl (refl, refl)))

  run-Stored :
      (s : System) (es : List Event)
      → RoomOnTheWay env stat s es
      → Stored s
      → Stored (run env stat s es)
  unfolding run
  run-Stored s [] room k = k
  run-Stored s (e ∷ es) room k =
      let s' = step env stat s e in
      run-Stored s' es room.1
        (moved s s' k (step-Balanced env stat sh so s e room.0 k.books) (step-Moves s e k))

find-cut_entries :
    (id : ℕ) (m : List (ℕ × Task)) → find id (cut_entries m) ≡ Option.map cut_times (find id m)
unfolding find
find-cut_entries id [] = refl
find-cut_entries id ((k, t) ∷ m) = ground (arith, find-cut_entries id m)

-- What a start finds under an id for what there was before: the same task, its times cut to seconds,
-- or a pending one for a task whose process could not be started.
abbrev pub Recalled : Option Task → Option Task → Type 0
Recalled found there =
    (found ≡ Option.map cut_times there)
    ⊎ ((t : Task) × (found ≡ some (cut_times t))
        × (t.status ≡ pending)
        × ((now : ℕ) × (there ≡ some (ended failed t now))))

Behind-Recalled :
    (old there found : Option Task)
    → found ≡ Option.map cut_times old
    → Behind old there
    → Recalled found there
Behind-Recalled old there found e (inl s) = inl (e ∙ ap (Option.map cut_times) s)
Behind-Recalled old there found e (inr (t, s, p, w)) =
    inr (t, e ∙ ap (Option.map cut_times) s, p, w)

module _ {Value : Type 0} (env : Env Value) (stat : Bytes → PathKind) (config : Config)
    (files : Files) (es : List Event) where
  new_server-Stored :
      (L : JsonLaws env.json) (C : IsCalendar env.calendar) (sh : IsShuffle env.world)
      (so : IsSort env.sort)
      → is_empty config.data_dir ≡ false
      → files (get_tasks_file_path (new_queue config.data_dir)) ≡ none
      → env.can_write (get_tasks_file_path (new_queue config.data_dir)) ≡ true
      → Stored env stat L C sh so config.data_dir (new_server config files)
  unfolding new_server new_queue load
  new_server-Stored L C sh so named nothing opens = record {
    books = Fresh-Balanced (new_server config files) (new_server-Fresh config files);
    home = (named, (opens, omega arith));
    same = refl;
    disk = record {
      old = new_queue config.data_dir;
      lags = Lags-refl (new_queue config.data_dir);
      read = rw named (rw nothing refl);
    };
  }

  -- The queue survives a crash. When the server is stopped at any time between two of its steps, after
  -- any requests and rounds of the scheduler's threads in any order on a new server without a file of
  -- tasks, the next start reads the counter of ids as it was, and under each id the task that was
  -- there with its times cut to seconds, or nothing if there was none; only a task that had failed
  -- because its process could not be started may be read as pending again. The conditions are the laws
  -- of JSON and of the calendar, that std::shuffle permutes and std::sort sorts, that there is a data
  -- directory in which the file can be written, and that ids are left at each submission.
  pub run-Recalled :
      JsonLaws env.json
      → IsCalendar env.calendar
      → IsShuffle env.world
      → IsSort env.sort
      → is_empty config.data_dir ≡ false
      → files (get_tasks_file_path (new_queue config.data_dir)) ≡ none
      → env.can_write (get_tasks_file_path (new_queue config.data_dir)) ≡ true
      → RoomOnTheWay env stat (new_server config files) es
      → let s = run env stat (new_server config files) es in
        let q = load env.json env.calendar (new_queue config.data_dir) s.files in
        (q.next_id ≡ s.queue.next_id)
        × ((id : ℕ) → Recalled (find id q.tasks) (find id s.queue.tasks))
  run-Recalled L C sh so named nothing opens room =
      let s = run env stat (new_server config files) es in
      let k =
        run-Stored env stat L C sh so config.data_dir (new_server config files) es room
          (new_server-Stored L C sh so named nothing opens) in
      let d = k.disk in
      let read =
        ap (λ dir. load env.json env.calendar (new_queue dir) s.files) (sym k.same) ∙ d.read in
      (
        ap (λ (q : TaskQueue). q.next_id) read ∙ d.lags.next_id,
        λ id.
            Behind-Recalled (find id d.old.tasks) (find id s.queue.tasks) _
              (ap (λ (q : TaskQueue). find id q.tasks) read ∙ find-cut_entries id d.old.tasks)
              (d.lags.entries id),
      )
