-- ===== src/Server/Queries.antt =====
-- The queries of src/core/server.cpp: handleQueryQueue, handleGetTaskInfo and handleGetTaskLog, on
-- parsed requests. They read the state and change nothing.
pub mod Entries
pub mod Listing
pub mod Tail
use myqueue.Prelude.{
  ℕ, ◌-◌, ◌/◌, Bool, true, false, not, ◌||◌, Option, none, some, List, [], ◌∷◌, ◌++◌, map, keep,
  length, drop, is_empty, if◌then◌else◌, leb,
}
use myqueue.Prelude.Decimal.{decimal}
use myqueue.Prelude.Int.{ℤ, pos, negate, ltz, lez}
use myqueue.Prelude.Parse.{split_on}
use myqueue.Prelude.Text.{Bytes, text}
use myqueue.Config.{Config}
use myqueue.Task.{Task, completed, failed, cancelled, status_eq, task_status_to_string, to_seconds}
use myqueue.Queue.{get_task, get_all_tasks, get_running_tasks, get_pending_tasks}
use myqueue.Queue.Persist.{Files}
use myqueue.Protocol.Responses.{TaskLogResponse}
use myqueue.Protocol.Responses.Tasks.{TaskInfo, QueueResponse, TaskDetailResponse, to_int32}
use myqueue.Scheduler.{Env, System}

-- A duration_cast to seconds of `end - start`, towards 0.
unfoldable pub seconds_between : ℕ → ℕ → ℤ
seconds_between start end =
    if leb start end
    then pos ((end - start) / 1_000_000_000)
    else negate ((start - end) / 1_000_000_000)

abbrev seconds_since : Option ℕ → ℕ → ℤ
seconds_since none now = pos 0
seconds_since (some start) now = seconds_between start now

abbrev lasted : Option ℕ → Option ℕ → ℤ
lasted none end = pos 0
lasted (some start) none = pos 0
lasted (some start) (some end) = seconds_between start end

unfoldable pub running_info : ℕ → Task → TaskInfo
running_info now t = record {
  id = t.id;
  status = text "running";
  script = t.script_path;
  workdir = t.workdir;
  cpus = t.allocated_cpus;
  gpus = t.allocated_gpus;
  exit_code = pos 0;
  duration_seconds = seconds_since t.start_time now;
}

unfoldable pub pending_info : Task → TaskInfo
pending_info t = record {
  id = t.id;
  status = text "pending";
  script = t.script_path;
  workdir = t.workdir;
  cpus = t.specific_cpus;
  gpus = t.specific_gpus;
  exit_code = pos 0;
  duration_seconds = pos 0;
}

unfoldable pub completed_info : Task → TaskInfo
completed_info t = record {
  id = t.id;
  status = task_status_to_string t.status;
  script = t.script_path;
  workdir = t.workdir;
  cpus = t.allocated_cpus;
  gpus = t.allocated_gpus;
  exit_code = t.exit_code;
  duration_seconds = lasted t.start_time t.end_time;
}

abbrev pub is_over : Task → Bool
is_over t =
    status_eq t.status completed || (status_eq t.status failed || status_eq t.status cancelled)

-- The response for a task that is not found, before its id is set.
abbrev pub no_detail : TaskDetailResponse
no_detail = record {
  id = 0;
  status = [];
  script = [];
  workdir = [];
  ncpu = pos 0;
  ngpu = pos 0;
  specific_cpus = [];
  specific_gpus = [];
  allocated_cpus = [];
  allocated_gpus = [];
  log_file = [];
  exit_code = pos 0;
  pid = pos 0;
  submit_time = [];
  start_time = [];
  end_time = [];
  duration_seconds = pos 0;
  found = false;
}

abbrev pub no_log : TaskLogResponse
no_log = record { task_id = 0; log_path = []; content = []; found = false; error = [] }

-- `formatTime` of the times that are there. `local` is localtime_r with put_time, on a count of seconds.
abbrev format_time : (ℕ → Bytes) → Option ℕ → Bytes
format_time local none = []
format_time local (some tp) = local (to_seconds tp)

abbrev or_now : ℕ → Option ℕ → ℕ
or_now now none = now
or_now now (some end) = end

unfoldable pub task_detail : (ℕ → Bytes) → ℕ → Task → TaskDetailResponse
task_detail local now t = record {
  id = t.id;
  status = task_status_to_string t.status;
  script = t.script_path;
  workdir = t.workdir;
  ncpu = t.ncpu;
  ngpu = t.ngpu;
  specific_cpus = t.specific_cpus;
  specific_gpus = t.specific_gpus;
  allocated_cpus = t.allocated_cpus;
  allocated_gpus = t.allocated_gpus;
  log_file = t.log_file;
  exit_code = t.exit_code;
  pid = t.pid;
  submit_time = local (to_seconds t.submit_time);
  start_time = format_time local t.start_time;
  end_time = format_time local t.end_time;
  duration_seconds = seconds_since t.start_time (or_now now t.end_time);
  found = true;
}

-- The file that handleGetTaskLog reads, empty if there is none.
unfoldable pub log_path_of : Config → Task → Bytes
log_path_of config t =
    if not (is_empty t.log_file)
    then t.workdir ++ text "/" ++ t.log_file
    else if config.enable_job_log
    then t.workdir ++ text "/job.log"
    else if not (is_empty config.log_dir)
    then config.log_dir ++ text "/task_" ++ decimal t.id ++ text ".out"
    else []

-- The loop that keeps the last lines. The size is compared as an int.
unfoldable pub keep_last : ℤ → List Bytes → List Bytes → List Bytes
keep_last n kept [] = kept
keep_last n kept (line ∷ lines) =
    let more = kept ++ line ∷ [] in
    keep_last n (if ltz n (to_int32 (pos (length more))) then drop 1 more else more) lines

unfoldable pub with_line_ends : List Bytes → Bytes
with_line_ends [] = []
with_line_ends (l ∷ ls) = l ++ 10 ∷ with_line_ends ls

unfoldable pub log_content : ℤ → Bytes → Bytes
unfolding keep_last with_line_ends
log_content tail_lines content =
    if not (lez tail_lines (pos 0))
    then with_line_ends (keep_last tail_lines [] (split_on 10 content))
    else content

-- The response for a task, by its path.
unfoldable pub task_log : Files → ℤ → ℕ → Bytes → TaskLogResponse
task_log files tail_lines id [] = record no_log {
  task_id = id;
  error = text "No log file configured for this task";
}
task_log files tail_lines id (c ∷ path) = elim (files (c ∷ path)) [
  | none ↦ record no_log {
    task_id = id;
    log_path = c ∷ path;
    error = text "Log file not found: " ++ c ∷ path;
  }
  | some content ↦ record no_log {
    task_id = id;
    log_path = c ∷ path;
    found = true;
    content = log_content tail_lines content;
  }
]

module _ {Value : Type 0} (env : Env Value) where
  unfoldable pub handle_query_queue : System → Bool → QueueResponse
  handle_query_queue s include_completed = record {
    running = map (running_info (env.clock s.now)) (get_running_tasks s.queue);
    pending = map pending_info (get_pending_tasks env.sort s.queue);
    completed =
        if include_completed then map completed_info (keep is_over (get_all_tasks s.queue)) else [];
  }

  unfoldable pub handle_get_task_info : (ℕ → Bytes) → System → ℕ → TaskDetailResponse
  handle_get_task_info local s id = elim (get_task s.queue id) [
    | none ↦ record no_detail { id = id }
    | some t ↦ task_detail local (env.clock s.now) t
  ]

-- The log files are among the files of the system.
unfoldable pub handle_get_task_log : Config → System → ℕ → ℤ → TaskLogResponse
handle_get_task_log config s id tail_lines = elim (get_task s.queue id) [
  | none ↦ record no_log { task_id = id; error = text "Task not found" }
  | some t ↦ task_log s.files tail_lines t.id (log_path_of config t)
]
