-- ===== src/Task/Record.antt =====
-- Task::toJson and Task::fromJson of src/core/task.cpp.
use mathlib.Core.Option
use myqueue.Prelude.{ℕ, ◌*◌, Option, none, some, [], if◌then◌else◌}
use myqueue.Prelude.Text.{Bytes, text}
use myqueue.Json.{
  Json, Calendar, Result, ok, err, parse_error, invalid_argument, runtime_error, ◌>>=◌, or_throw,
}
use myqueue.Task.{Task, task_status_to_string, task_status_from_string, to_seconds}

module _ {Value : Type 0} (json : Json Value) (calendar : Calendar) where
  unfoldable pub time_point_to_string : ℕ → Bytes
  time_point_to_string tp = calendar.print_time (to_seconds tp)

  unfoldable pub string_to_time_point : Bytes → Result ℕ
  string_to_time_point s =
      or_throw runtime_error (Option.map (λ t. t * 1_000_000_000) (calendar.read_time s))

  abbrev pub time_value : Option ℕ → Value
  time_value none = json.null
  time_value (some tp) = json.of_text (time_point_to_string tp)

  -- The value that `toJson` builds, assignment by assignment.
  unfoldable pub task_value : Task → Value
  task_value t = json.set (text "end_time") (time_value t.end_time) (
      json.set (text "start_time") (time_value t.start_time) (
        json.set (text "submit_time") (json.of_text (time_point_to_string t.submit_time)) (
          json.set (text "exit_code") (json.of_int t.exit_code) (
            json.set (text "pid") (json.of_int t.pid) (
              json.set (text "status") (json.of_text (task_status_to_string t.status)) (
                json.set (text "allocated_gpus") (json.of_ints t.allocated_gpus) (
                  json.set (text "allocated_cpus") (json.of_ints t.allocated_cpus) (
                    json.set (text "log_file") (json.of_text t.log_file) (
                      json.set (text "specific_gpus") (json.of_ints t.specific_gpus) (
                        json.set (text "specific_cpus") (json.of_ints t.specific_cpus) (
                          json.set (text "ngpu") (json.of_int t.ngpu) (
                            json.set (text "ncpu") (json.of_int t.ncpu) (
                              json.set (text "workdir") (json.of_text t.workdir) (
                                json.set (text "script_path") (json.of_text t.script_path) (
                                  json.set (text "id") (json.of_uint t.id)
                                    json.object)))))))))))))))

  unfoldable pub to_json : Task → Bytes
  unfolding task_value
  to_json t = json.dump (task_value t)

  -- `j.at(key).get<...>()`
  unfoldable pub field : {A : Type 0} → Bytes → (Value → Option A) → Value → Result A
  field key get j = elim (json.at key j) [
    | none ↦ err parse_error
    | some v ↦ or_throw parse_error (get v)
  ]

  -- `j.value(key, "")`
  unfoldable pub text_or_empty : Bytes → Value → Result Bytes
  text_or_empty key j = elim (json.at key j) [
    | none ↦ ok []
    | some v ↦ or_throw parse_error (json.get_text v)
  ]

  unfoldable pub time_of : Value → Result (Option ℕ)
  time_of v =
      if json.is_null v
      then ok none
      else do s ← or_throw parse_error (json.get_text v); tp ← string_to_time_point s; ok (some tp)

  unfoldable pub time_field : Bytes → Value → Result (Option ℕ)
  time_field key j = elim (json.at key j) [ none ↦ err parse_error | some v ↦ time_of v ]

  unfoldable pub task_of : Value → Result Task
  task_of j = do
    id ← field (text "id") json.get_uint j
    script_path ← field (text "script_path") json.get_text j
    workdir ← field (text "workdir") json.get_text j
    ncpu ← field (text "ncpu") json.get_int j
    ngpu ← field (text "ngpu") json.get_int j
    specific_cpus ← field (text "specific_cpus") json.get_ints j
    specific_gpus ← field (text "specific_gpus") json.get_ints j
    log_file ← text_or_empty (text "log_file") j
    allocated_cpus ← field (text "allocated_cpus") json.get_ints j
    allocated_gpus ← field (text "allocated_gpus") json.get_ints j
    status_text ← field (text "status") json.get_text j
    status ← or_throw invalid_argument (task_status_from_string status_text)
    pid ← field (text "pid") json.get_int j
    exit_code ← field (text "exit_code") json.get_int j
    submit_text ← field (text "submit_time") json.get_text j
    submit_time ← string_to_time_point submit_text
    start_time ← time_field (text "start_time") j
    end_time ← time_field (text "end_time") j
    ok (record {
      id = id;
      script_path = script_path;
      workdir = workdir;
      ncpu = ncpu;
      ngpu = ngpu;
      specific_cpus = specific_cpus;
      specific_gpus = specific_gpus;
      log_file = log_file;
      allocated_cpus = allocated_cpus;
      allocated_gpus = allocated_gpus;
      status = status;
      pid = pid;
      exit_code = exit_code;
      submit_time = submit_time;
      start_time = start_time;
      end_time = end_time;
    })

  unfoldable pub from_json : Bytes → Result Task
  unfolding task_of
  from_json s = elim (json.parse s) [ none ↦ err parse_error | some j ↦ task_of j ]
