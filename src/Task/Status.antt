-- ===== src/Task/Status.antt =====
-- The names of the statuses.
use myqueue.Prelude.{◌≡◌, refl, ◌↔◌, some, arith, ap, ◌∙◌}
use myqueue.Prelude.Text.{Bytes, text, text_eq, text_eq_iff}
use myqueue.Task.{
  TaskStatus, pending, running, completed, failed, cancelled, task_status_to_string,
  task_status_from_string,
}

-- The name of a status parses to it.
pub from_string-to_string :
    (s : TaskStatus) → task_status_from_string (task_status_to_string s) ≡ some s
unfolding task_status_to_string task_status_from_string text_eq
from_string-to_string pending = refl
from_string-to_string running = refl
from_string-to_string completed = refl
from_string-to_string failed = refl
from_string-to_string cancelled = refl

reads :
    (str : Bytes) (s : TaskStatus)
    → task_status_from_string str ≡ some s
    → str ≡ task_status_to_string s
unfolding task_status_to_string task_status_from_string
reads str s h = ground (
  arith,
  text_eq_iff str (text "pending"),
  text_eq_iff str (text "running"),
  text_eq_iff str (text "completed"),
  text_eq_iff str (text "failed"),
  text_eq_iff str (text "cancelled"),
)

-- A text parses to a status exactly when it is that status's name.
pub from_string_iff :
    (str : Bytes) (s : TaskStatus)
    → (task_status_from_string str ≡ some s) ↔ (str ≡ task_status_to_string s)
from_string_iff str s = (reads str s, λ e. ap task_status_from_string e ∙ from_string-to_string s)
