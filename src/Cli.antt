-- ===== src/Cli.antt =====
-- The command line: src/cli/main.cpp. A command uses a client, an interface that IPCClient fills, and
-- gives the exit code and what it prints, a constructor for each text.
pub mod Submit
pub mod Delete
pub mod Show
use myqueue.Prelude.{ℕ, Bool, Option, none, some, List, [], ◌∷◌, ◌++◌, if◌then◌else◌, ◌==◌}
use myqueue.Prelude.Int.{ℤ}
use myqueue.Prelude.Text.{Bytes, text}
use myqueue.Queue.{SubmitRequest}
use myqueue.Protocol.Responses.{DeleteAllResponse, TaskLogResponse}
use myqueue.Protocol.Responses.Tasks.{QueueResponse, TaskDetailResponse}

-- What the commands ask of a client. `connects` is connect().
pub record Client (S : Type 0) : Type 0 where
  pub connects : S → Bool
  pub submit_request : SubmitRequest → S → Option ℕ × S
  pub query_queue : Bool → S → Option QueueResponse × S
  pub delete_by_ids : List ℕ → S → List Bool × S
  pub delete_all : S → Option DeleteAllResponse × S
  pub get_task_info : ℕ → S → Option TaskDetailResponse × S
  pub get_task_log : ℕ → ℤ → S → Option TaskLogResponse × S
  pub shutdown : S → Bool × S

-- What is printed, to either stream.
pub data Line : Type 0 where
  missing_script missing_task_id no_server invalid_task_id invalid_line_count : Line
  no_valid_directory submit_failed delete_all_failed no_valid_ids query_failed info_failed : Line
  log_failed stop_failed stop_sent queue_empty : Line
  skipped_directory submit_warning : Bytes → Line
  submitted : ℕ → Line
  submitted_batch : List ℕ → Line
  deleted_all : DeleteAllResponse → Line
  task_deleted task_not_deleted : ℕ → Line
  deleted_summary : (done failed : ℕ) → Line
  summary : (running pending : ℕ) → Option ℕ → Line
  row : List Bytes → Line
  detail : TaskDetailResponse → Line
  task_not_found : ℕ → Line
  log_error log_header log_text : Bytes → Line

-- The exit code, the lines and the state.
pub record Exit (S : Type 0) : Type 0 where
  pub code : ℕ
  pub lines : List Line
  pub state : S

abbrev pub exit : {S : Type 0} → ℕ → List Line → S → Exit S
exit code lines s = record { code = code; lines = lines; state = s }

-- getenv("HOME") and getcwd.
pub record Shell : Type 0 where
  pub home : Option Bytes
  pub cwd : Option Bytes

abbrev from_cwd : Option Bytes → Bytes → Bytes
from_cwd none path = path
from_cwd (some dir) path = dir ++ text "/" ++ path

abbrev from_home : Shell → Bytes → Bytes → Bytes
from_home shell path rest = elim shell.home [
  | some home ↦ home ++ rest
  | none ↦ from_cwd shell.cwd path
]

unfoldable pub get_absolute_path : Shell → Bytes → Bytes
get_absolute_path shell [] = []
get_absolute_path shell (c ∷ rest) =
    if c == b'/'
    then c ∷ rest
    else if c == b'~'
    then from_home shell (c ∷ rest) rest
    else from_cwd shell.cwd (c ∷ rest)
