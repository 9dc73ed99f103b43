-- ===== src/Queue/Persist.antt =====
-- `save` and `load` of src/core/task_queue.cpp. The files are a function from paths to contents;
-- which paths open for writing is a parameter, and with it whether `mkdir -p` made the directory.
pub mod RoundTrip
use myqueue.Prelude.{ℕ, Bool, Option, none, some, List, [], ◌∷◌, ◌++◌, is_empty, if◌then◌else◌}
use myqueue.Prelude.Map.{put, values}
use myqueue.Prelude.Text.{Bytes, text, text_eq}
use myqueue.Json.{Json, Calendar, Result, ok, err, parse_error, ◌>>=◌, or_throw}
use myqueue.Task.{Task}
use myqueue.Task.Record.{to_json, from_json, field}
use myqueue.Queue.{TaskQueue}

abbrev pub Files : Type 0
Files = Bytes → Option Bytes

unfoldable pub get_tasks_file_path : TaskQueue → Bytes
get_tasks_file_path q = if is_empty q.data_dir then [] else q.data_dir ++ text "/tasks.json"

-- The file is written whole.
unfoldable pub write_file : Files → Bytes → Bytes → Files
write_file files path content name = if text_eq path name then some content else files name

module _ {Value : Type 0} (json : Json Value) (calendar : Calendar) where
  -- `json::parse(task.toJson())` for each task; `none` if one of them throws.
  unfoldable pub task_values : List Task → Option (List Value)
  task_values [] = some []
  task_values (t ∷ ts) = elim (json.parse (to_json json calendar t)) [
    | none ↦ none
    | some v ↦ elim (task_values ts) [ none ↦ none | some vs ↦ some (v ∷ vs) ]
  ]

  unfoldable pub queue_value : TaskQueue → List Value → Value
  queue_value q vs =
      json.set (text "tasks") (json.array vs)
        (json.set (text "next_id") (json.of_uint q.next_id) json.object)

  -- An exception comes before the file is opened, and leaves the files as they are.
  unfoldable pub save : (Bytes → Bool) → TaskQueue → Files → Files
  save can_write q files =
      if is_empty q.data_dir then files else elim (task_values (values q.tasks)) [
        | none ↦ files
        | some vs ↦
            if can_write (get_tasks_file_path q)
            then write_file files (get_tasks_file_path q) (json.dump_indented (queue_value q vs))
            else files
      ]

  -- `for (const auto& task_json : j.at("tasks")) ...`, into the map so far.
  unfoldable pub load_tasks : List (ℕ × Task) → List Value → Result (List (ℕ × Task))
  load_tasks m [] = ok m
  load_tasks m (v ∷ vs) = do
    task ← from_json json calendar (json.dump v)
    load_tasks (put task.id task m) vs

  -- The next id and the map that a file holds.
  unfoldable pub read_queue : Bytes → Result (ℕ × List (ℕ × Task))
  read_queue content = do
    j ← or_throw parse_error (json.parse content)
    next_id ← field json calendar (text "next_id") json.get_uint j
    tasks ← or_throw parse_error (json.at (text "tasks") j)
    m ← load_tasks [] (json.elements tasks)
    ok (next_id, m)

  -- Any exception leaves an empty queue.
  unfoldable pub load : TaskQueue → Files → TaskQueue
  load q files = if is_empty q.data_dir then q else elim (files (get_tasks_file_path q)) [
    | none ↦ q
    | some content ↦ elim (read_queue content) [
      | ok (next_id, m) ↦ record q { tasks = m; next_id = next_id }
      | err e ↦ record q { tasks = []; next_id = 1 }
    ]
  ]
