-- ===== src/Server/Queries/Entries.antt =====
-- What the entries of handleQueryQueue in server.cpp say of their tasks.
use myqueue.Prelude.{
  ℕ, ◌-◌, ◌/◌, ◌≤◌, ◌<◌, ◌≡◌, ◌⊎◌, refl, sym, subst, true, Option, none, some, arith, inl, inr, ◌∙◌,
  ◌||◌,
}
use myqueue.Prelude.Int.{ℤ, pos, negate}
use myqueue.Prelude.Text.{Bytes, text}
use myqueue.Task.{
  Task, TaskStatus, task_status_to_string, running, pending, completed, failed, cancelled,
  status_eq,
}
use myqueue.Protocol.Responses.Tasks.{TaskInfo}
use myqueue.Server.Queries.{
  running_info, pending_info, completed_info, is_over, seconds_between, seconds_since, lasted,
}

-- The whole seconds from one time to another, towards 0; 0 if one of them is missing.
abbrev pub Lasts : Option ℕ → Option ℕ → ℤ → Type 0
Lasts none end d = d ≡ pos 0
Lasts (some start) none d = d ≡ pos 0
Lasts (some start) (some end) d =
    (start ≤ end → d ≡ pos ((end - start) / 1_000_000_000))
    × (end < start → d ≡ negate ((start - end) / 1_000_000_000))

-- What every entry has of its task.
pub record EntryOf (t : Task) (info : TaskInfo) : Type 0 where
  pub id : info.id ≡ t.id
  pub script : info.script ≡ t.script_path
  pub workdir : info.workdir ≡ t.workdir

-- An entry for a running task: what it holds, and the time since its start.
pub record RunningEntry (now : ℕ) (t : Task) (info : TaskInfo) : Type 0 where
  pub runs : t.status ≡ running
  pub status : info.status ≡ text "running"
  pub entry : EntryOf t info
  pub cpus : info.cpus ≡ t.allocated_cpus
  pub gpus : info.gpus ≡ t.allocated_gpus
  pub exit_code : info.exit_code ≡ pos 0
  pub duration : Lasts t.start_time (some now) info.duration_seconds

-- An entry for a pending task: what it asks for by name.
pub record PendingEntry (t : Task) (info : TaskInfo) : Type 0 where
  pub waits : t.status ≡ pending
  pub status : info.status ≡ text "pending"
  pub entry : EntryOf t info
  pub cpus : info.cpus ≡ t.specific_cpus
  pub gpus : info.gpus ≡ t.specific_gpus
  pub exit_code : info.exit_code ≡ pos 0
  pub duration : info.duration_seconds ≡ pos 0

-- The statuses of a task that is over, and how they are written.
abbrev pub OverAs : Task → Bytes → Type 0
OverAs t status =
    ((t.status ≡ completed) × (status ≡ text "completed"))
    ⊎ (((t.status ≡ failed) × (status ≡ text "failed"))
        ⊎ ((t.status ≡ cancelled) × (status ≡ text "cancelled")))

-- An entry for a task that is over: what it held, its exit code, and the time from its start to its end.
pub record OverEntry (t : Task) (info : TaskInfo) : Type 0 where
  pub status : OverAs t info.status
  pub entry : EntryOf t info
  pub cpus : info.cpus ≡ t.allocated_cpus
  pub gpus : info.gpus ≡ t.allocated_gpus
  pub exit_code : info.exit_code ≡ t.exit_code
  pub duration : Lasts t.start_time t.end_time info.duration_seconds

Lasts-lasted : (start end : Option ℕ) → Lasts start end (lasted start end)
unfolding seconds_between
Lasts-lasted none end = refl
Lasts-lasted (some start) none = refl
Lasts-lasted (some start) (some end) = (λ h. ground arith, λ h. ground arith)

Lasts-unique : (start end : Option ℕ) (d : ℤ) → Lasts start end d → lasted start end ≡ d
unfolding seconds_between
Lasts-unique none end d h = sym h
Lasts-unique (some start) none d h = sym h
Lasts-unique (some start) (some end) d h = ground arith

seconds_since-lasted :
    (start : Option ℕ) (now : ℕ) → lasted start (some now) ≡ seconds_since start now
seconds_since-lasted none now = refl
seconds_since-lasted (some start) now = refl

-- Entries with the same fields are the same.
info_eq :
    (x y : TaskInfo)
    → y.id ≡ x.id
    → y.status ≡ x.status
    → y.script ≡ x.script
    → y.workdir ≡ x.workdir
    → y.cpus ≡ x.cpus
    → y.gpus ≡ x.gpus
    → y.exit_code ≡ x.exit_code
    → y.duration_seconds ≡ x.duration_seconds
    → x ≡ y
info_eq x y a b c d e f g h = rw (a, b, c, d, e, f, g, h) refl

pub running_info-RunningEntry :
    (now : ℕ) (t : Task) → t.status ≡ running → RunningEntry now t (running_info now t)
unfolding running_info
running_info-RunningEntry now t r = record {
  runs = r;
  status = refl;
  entry = record { id = refl; script = refl; workdir = refl };
  cpus = refl;
  gpus = refl;
  exit_code = refl;
  duration =
      subst (Lasts t.start_time (some now)) (seconds_since-lasted t.start_time now)
        (Lasts-lasted t.start_time (some now));
}

pub RunningEntry-unique :
    (now : ℕ) (t : Task) (info : TaskInfo) → RunningEntry now t info → running_info now t ≡ info
unfolding running_info
RunningEntry-unique now t info e =
    info_eq (running_info now t) info e.entry.id e.status e.entry.script e.entry.workdir e.cpus
      e.gpus e.exit_code
      (sym (Lasts-unique t.start_time (some now) info.duration_seconds e.duration)
        ∙ seconds_since-lasted t.start_time now)

pub pending_info-PendingEntry : (t : Task) → t.status ≡ pending → PendingEntry t (pending_info t)
unfolding pending_info
pending_info-PendingEntry t p = record {
  waits = p;
  status = refl;
  entry = record { id = refl; script = refl; workdir = refl };
  cpus = refl;
  gpus = refl;
  exit_code = refl;
  duration = refl;
}

pub PendingEntry-unique : (t : Task) (info : TaskInfo) → PendingEntry t info → pending_info t ≡ info
unfolding pending_info
PendingEntry-unique t info e =
    info_eq (pending_info t) info e.entry.id e.status e.entry.script e.entry.workdir e.cpus e.gpus
      e.exit_code e.duration

is_over-OverAs : (t : Task) → is_over t ≡ true → OverAs t (task_status_to_string t.status)
unfolding task_status_to_string
is_over-OverAs t h = by_status t.status h
  where
    by_status :
        (st : TaskStatus)
        → (status_eq st completed || (status_eq st failed || status_eq st cancelled)) ≡ true
        → ((st ≡ completed) × (task_status_to_string st ≡ text "completed"))
          ⊎ (((st ≡ failed) × (task_status_to_string st ≡ text "failed"))
              ⊎ ((st ≡ cancelled) × (task_status_to_string st ≡ text "cancelled")))
    by_status completed h = inl (refl, refl)
    by_status failed h = inr (inl (refl, refl))
    by_status cancelled h = inr (inr (refl, refl))
    by_status pending h = absurd (ground arith)
    by_status running h = absurd (ground arith)

pub OverAs-is_over :
    (t : Task) (status : Bytes)
    → OverAs t status
    → (is_over t ≡ true) × (status ≡ task_status_to_string t.status)
unfolding task_status_to_string
OverAs-is_over t status (inl (e, s)) = (rw e refl, rw e s)
OverAs-is_over t status (inr (inl (e, s))) = (rw e refl, rw e s)
OverAs-is_over t status (inr (inr (e, s))) = (rw e refl, rw e s)

pub completed_info-OverEntry : (t : Task) → is_over t ≡ true → OverEntry t (completed_info t)
unfolding completed_info
completed_info-OverEntry t h = record {
  status = is_over-OverAs t h;
  entry = record { id = refl; script = refl; workdir = refl };
  cpus = refl;
  gpus = refl;
  exit_code = refl;
  duration = Lasts-lasted t.start_time t.end_time;
}

pub OverEntry-unique : (t : Task) (info : TaskInfo) → OverEntry t info → completed_info t ≡ info
unfolding completed_info
OverEntry-unique t info e =
    info_eq (completed_info t) info e.entry.id (OverAs-is_over t info.status e.status).1
      e.entry.script e.entry.workdir e.cpus e.gpus e.exit_code
      (sym (Lasts-unique t.start_time t.end_time info.duration_seconds e.duration))
