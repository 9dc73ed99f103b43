-- ===== src/Tests/Queues.antt =====
-- The theorems on the task queue, applied.
use mathlib.Core.List.{Mem}
use myqueue.Prelude.{
  nth, Bool, ℕ, ◌+◌, ◌<◌, ◌≤◌, ◌≡◌, ◌↔◌, refl, true, none, some, List, [], ◌∷◌, arith, length,
}
use myqueue.Prelude.Int.{pos}
use myqueue.Prelude.Map.{find, put, erase}
use myqueue.Prelude.Parse.{
  find_last_not_of, find_first_not_of, split_on, index_of, stoull, digits_from, skip_space,
}
use myqueue.Prelude.Text.{Bytes, text, text_eq}
use myqueue.Task.{Task, pending, is_terminal}
use myqueue.Queue.{
  submit_batch, TaskQueue, new_queue, new_task, submit, get_pending_tasks, u64_mod, delete_task,
}
use myqueue.Queue.Invariant.{IsValid, new_queue-IsValid}
use myqueue.Queue.Lifecycle.{
  Call, submits, starts, completes, fails, deletes, step, run, run-IsValid, run-find_gone,
}
use myqueue.Queue.Pending.{mem-get_pending_tasks, get_pending_tasks_head}
use myqueue.Queue.IdRange.{
  range_dash, parse_id_range, from, parse_id_range-from, parse_id_range_endless,
}
use myqueue.Queue.Batch.{line_dir, submit_batch_lem, parse_workdirs_file}
use myqueue.Queue.Requests.{PendingFor}
use myqueue.Queue.Persist.{Files, get_tasks_file_path, load, save}
use myqueue.Queue.Persist.RoundTrip.{cut_entries, load-save}
use myqueue.Tests.Values.{values_json, values_laws, plain_calendar, plain_IsCalendar}
use myqueue.Tests.Worlds.{small_request, sort_tasks, sort_tasks-IsSort}

abbrev data_queue : TaskQueue
data_queue = new_queue (text "/data")

abbrev one_task : TaskQueue
one_task = (submit data_queue small_request 7_000_000_001).1

abbrev calls : List (ℕ × Call)
calls =
    (1, submits small_request)
    ∷ (2, submits small_request)
    ∷ (3, starts 1 (pos 40) (pos 0 ∷ []) [])
    ∷ (4, fails 2)
    ∷ (5, completes 1 (pos 0))
    ∷ (6, deletes 1)
    ∷ []

data_room : data_queue.next_id + length calls < u64_mod
unfolding new_queue
data_room = omega arith

abbrev submitted : Task
submitted = new_task 1 small_request 7_000_000_001

run-IsValid_example : IsValid (run data_queue calls)
run-IsValid_example = run-IsValid data_queue calls data_room (new_queue-IsValid (text "/data"))

one_room : data_queue.next_id + 1 < u64_mod
unfolding new_queue
one_room = omega arith

one_task-IsValid : IsValid one_task
unfolding step run
one_task-IsValid =
    run-IsValid data_queue ((7_000_000_001, submits small_request) ∷ []) one_room
      (new_queue-IsValid (text "/data"))

one_task_found :
    (find submitted.id one_task.tasks ≡ some submitted)
    × (get_pending_tasks sort_tasks one_task ≡ submitted ∷ [])
unfolding submit new_queue new_task find get_pending_tasks sort_tasks put
one_task_found = (refl, refl)

after_room :
    ((step one_task (8, deletes 1)).next_id + length calls < u64_mod)
    × ((1 < (step one_task (8, deletes 1)).next_id)
        × (find 1 (step one_task (8, deletes 1)).tasks ≡ none))
unfolding step submit new_queue new_task put find erase delete_task is_terminal
after_room = (omega arith, (omega arith, refl))

run-find_gone_example : find 1 (run (step one_task (8, deletes 1)) calls).tasks ≡ none
run-find_gone_example =
    run-find_gone (step one_task (8, deletes 1)) calls 1 after_room.0 after_room.1.0 after_room.1.1

mem-get_pending_tasks_example :
    Mem submitted (get_pending_tasks sort_tasks one_task)
    ↔ ((find submitted.id one_task.tasks ≡ some submitted) × (submitted.status ≡ pending))
mem-get_pending_tasks_example =
    mem-get_pending_tasks sort_tasks one_task submitted sort_tasks-IsSort one_task-IsValid

get_pending_tasks_head_example :
    (find submitted.id one_task.tasks ≡ some submitted)
    × (submitted.status ≡ pending)
    × ((u : Task)
        → find u.id one_task.tasks ≡ some u
        → u.status ≡ pending
        → submitted.submit_time ≤ u.submit_time)
get_pending_tasks_head_example =
    get_pending_tasks_head sort_tasks one_task submitted [] sort_tasks-IsSort one_task-IsValid
      one_task_found.1

parse_id_range-from_example : parse_id_range 9 (text "3-7") ≡ some (from 3 5)
unfolding range_dash stoull digits_from skip_space index_of
parse_id_range-from_example =
    parse_id_range-from 9 3 7 1 (text "3-7") refl refl refl (omega arith) (omega arith)

parse_id_range_endless_example : parse_id_range 99 (text "5-18446744073709551615") ≡ none
unfolding range_dash stoull digits_from skip_space index_of
parse_id_range_endless_example =
    parse_id_range_endless 99 5 1 (text "5-18446744073709551615") refl refl refl (omega arith)

load-save_example :
    load values_json plain_calendar data_queue
      (save values_json plain_calendar (λ path. true) one_task (λ path. none))
    ≡ record one_task { tasks = cut_entries one_task.tasks }
unfolding submit new_queue get_tasks_file_path
load-save_example =
    load-save values_json plain_calendar (λ path. true) one_task data_queue (λ path. none)
      values_laws plain_IsCalendar one_task-IsValid (omega arith) refl refl refl

abbrev two_dirs : List Bytes
two_dirs = text "/w1" ∷ text "/w2" ∷ []

two_dirs_room : data_queue.next_id + length two_dirs < u64_mod
unfolding new_queue
two_dirs_room = omega arith

submit_batch_lem_example :
    let (ids, q) = submit_batch data_queue (text "/a.sh") two_dirs (pos 2) (pos 1) (λ i. i) in
    (ids ≡ from data_queue.next_id 2)
    × (((k : ℕ) → k < data_queue.next_id → find k q.tasks ≡ find k data_queue.tasks)
        × ((i : ℕ) (w : Bytes)
            → nth i two_dirs ≡ some w
            → (t : Task) × (find (data_queue.next_id + i) q.tasks ≡ some t)
              × PendingFor
                  (data_queue.next_id + i)
                  (record {
                    script_path = text "/a.sh";
                    workdir = w;
                    ncpu = pos 2;
                    ngpu = pos 1;
                    specific_cpus = [];
                    specific_gpus = [];
                    log_file = [];
                  })
                  i
                  t))
submit_batch_lem_example =
    submit_batch_lem data_queue (text "/a.sh") two_dirs (pos 2) (pos 1) (λ i. i) two_dirs_room

abbrev dirs_file : Files
dirs_file path = some (text "# jobs\n /w1 \n\n/none\n")

abbrev only_w1 : Bytes → Bool
only_w1 path = text_eq path (text "/w1")

dirs_read :
    parse_workdirs_file only_w1 dirs_file (text "/dirs") ≡ (text "/w1" ∷ [], text "/none" ∷ [])
unfolding parse_workdirs_file split_on line_dir find_first_not_of find_last_not_of text_eq
dirs_read = refl
