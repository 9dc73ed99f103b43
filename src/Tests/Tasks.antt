-- ===== src/Tests/Tasks.antt =====
-- The theorems on tasks, applied.
use myqueue.Prelude.{◌≡◌, ◌↔◌, true, arith}
use myqueue.Json.{ok}
use myqueue.Task.{Task, task_eq}
use myqueue.Task.Equality.{to_the_second, task_eq_iff}
use myqueue.Task.Record.{from_json, to_json}
use myqueue.Task.RoundTrip.{cut_times, from_json-to_json}
use myqueue.Queue.{new_task}
use myqueue.Tests.Values.{values_json, values_laws, plain_calendar, plain_IsCalendar}
use myqueue.Tests.Worlds.{small_request}

abbrev early : Task
early = new_task 1 small_request 7_000_000_001

abbrev late : Task
late = new_task 1 small_request 7_900_000_000

task_eq_iff_example : (task_eq early late ≡ true) ↔ (to_the_second early ≡ to_the_second late)
task_eq_iff_example = task_eq_iff early late

from_json-to_json_example :
    (from_json values_json plain_calendar (to_json values_json plain_calendar early)
      ≡ ok (cut_times early))
    × (task_eq (cut_times early) early ≡ true)
unfolding new_task
from_json-to_json_example =
    from_json-to_json values_json plain_calendar early values_laws plain_IsCalendar (omega arith)
