-- ===== src/Task.antt =====
-- A task and its status: include/myqueue/task.h and src/core/task.cpp. A time point is a number of
-- nanoseconds since the epoch.
pub mod Status
pub mod Equality
pub mod Record
pub mod RoundTrip
use myqueue.Prelude.{
  ℕ, ◌/◌, ◌≡◌, Bool, true, false, ◌||◌, Option, none, some, List, [], ◌∷◌, all_of, ◌==◌,
  if◌then◌else◌,
}
use myqueue.Prelude.Int.{ℤ, eqb, ints_eq}
use myqueue.Prelude.Text.{Bytes, text, text_eq}

pub data TaskStatus : Type 0 where
  pending running completed failed cancelled : TaskStatus

pub record Task : Type 0 where
  pub id : ℕ
  pub script_path : Bytes
  pub workdir : Bytes
  pub ncpu : ℤ
  pub ngpu : ℤ
  pub specific_cpus : List ℤ
  pub specific_gpus : List ℤ
  pub log_file : Bytes
  pub allocated_cpus : List ℤ
  pub allocated_gpus : List ℤ
  pub status : TaskStatus
  pub pid : ℤ
  pub exit_code : ℤ
  pub submit_time : ℕ
  pub start_time : Option ℕ
  pub end_time : Option ℕ

unfoldable pub task_status_to_string : TaskStatus → Bytes
task_status_to_string pending = text "pending"
task_status_to_string running = text "running"
task_status_to_string completed = text "completed"
task_status_to_string failed = text "failed"
task_status_to_string cancelled = text "cancelled"

-- `none` is the std::invalid_argument.
pub task_status_from_string : Bytes → Option TaskStatus
task_status_from_string str =
    if text_eq str (text "pending")
    then some pending
    else if text_eq str (text "running")
    then some running
    else if text_eq str (text "completed")
    then some completed
    else if text_eq str (text "failed")
    then some failed
    else if text_eq str (text "cancelled")
    then some cancelled
    else none

-- `==` of the enumeration.
abbrev pub status_eq : TaskStatus → TaskStatus → Bool
status_eq pending pending = true
status_eq running running = true
status_eq completed completed = true
status_eq failed failed = true
status_eq cancelled cancelled = true
status_eq _ _ = false

unfoldable pub is_terminal : Task → Bool
is_terminal t =
    status_eq t.status completed || (status_eq t.status failed || status_eq t.status cancelled)

unfoldable pub can_schedule : Task → Bool
can_schedule t = status_eq t.status pending

-- `toSeconds`, a duration_cast.
abbrev pub to_seconds : ℕ → ℕ
to_seconds tp = tp / 1_000_000_000

-- The two comparisons that the operator makes on an optional time.
abbrev pub time_eq : Option ℕ → Option ℕ → Bool
time_eq none none = true
time_eq none (some b) = false
time_eq (some a) none = false
time_eq (some a) (some b) = to_seconds a == to_seconds b

-- `operator==`, which returns at the first comparison that fails.
pub task_eq : Task → Task → Bool
task_eq a b = all_of (
    (a.id == b.id)
    ∷ (text_eq a.script_path b.script_path)
    ∷ (text_eq a.workdir b.workdir)
    ∷ (eqb a.ncpu b.ncpu)
    ∷ (eqb a.ngpu b.ngpu)
    ∷ (ints_eq a.specific_cpus b.specific_cpus)
    ∷ (ints_eq a.specific_gpus b.specific_gpus)
    ∷ (text_eq a.log_file b.log_file)
    ∷ (ints_eq a.allocated_cpus b.allocated_cpus)
    ∷ (ints_eq a.allocated_gpus b.allocated_gpus)
    ∷ (status_eq a.status b.status)
    ∷ (eqb a.pid b.pid)
    ∷ (eqb a.exit_code b.exit_code)
    ∷ (to_seconds a.submit_time == to_seconds b.submit_time)
    ∷ (time_eq a.start_time b.start_time)
    ∷ (time_eq a.end_time b.end_time)
    ∷ [])
