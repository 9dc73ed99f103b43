-- ===== src/Task/RoundTrip.antt =====
-- The round trip of Task::toJson and Task::fromJson.
use myqueue.Prelude.{ℕ, ◌*◌, ◌^◌, ◌<◌, ◌≡◌, refl, ap, true, Option, none, some, arith}
use myqueue.Prelude.Text.{Bytes, text, text_eq}
use myqueue.Json.{Json, JsonLaws, Calendar, IsCalendar, ok}
use myqueue.Task.{Task, task_status_to_string, to_seconds, task_eq}
use myqueue.Task.Equality.{task_eq_iff, seconds_of}
use myqueue.Task.Status.{from_string-to_string}
use myqueue.Task.Record.{
  time_point_to_string, string_to_time_point, time_value, task_value, to_json, field, text_or_empty,
  time_of, time_field, task_of, from_json,
}

-- A time cut to whole seconds.
abbrev pub cut : ℕ → ℕ
cut tp = to_seconds tp * 1_000_000_000

abbrev pub cut_option : Option ℕ → Option ℕ
cut_option none = none
cut_option (some tp) = some (cut tp)

abbrev pub cut_times : Task → Task
cut_times t = record t {
  submit_time = cut t.submit_time;
  start_time = cut_option t.start_time;
  end_time = cut_option t.end_time;
}

module _ {Value : Type 0} (json : Json Value) (calendar : Calendar) (L : JsonLaws json)
    (C : IsCalendar calendar) where
  pub field_read :
      {A : Type 0} (key : Bytes) (get : Value → Option A) (j v : Value) (a : A)
      → json.at key j ≡ some v
      → get v ≡ some a
      → field json calendar key get j ≡ ok a
  unfolding field
  field_read key get j v a e g = ground arith

  text_read :
      (key s : Bytes) (j : Value)
      → json.at key j ≡ some (json.of_text s)
      → text_or_empty json calendar key j ≡ ok s
  unfolding text_or_empty
  text_read key s j e = ground (arith, L.get_text-of_text s)

  time_point_read :
      (tp : ℕ)
      → string_to_time_point json calendar (time_point_to_string json calendar tp) ≡ ok (cut tp)
  unfolding string_to_time_point time_point_to_string
  time_point_read tp = rw (C (to_seconds tp))

  time_read :
      (key : Bytes) (j : Value) (o : Option ℕ)
      → json.at key j ≡ some (time_value json calendar o)
      → time_field json calendar key j ≡ ok (cut_option o)
  unfolding time_field time_of
  time_read key j none e = ground (arith, L.is_null-null)
  time_read key j (some tp) e = ground (
    arith,
    L.is_null-of_text (time_point_to_string json calendar tp),
    L.get_text-of_text (time_point_to_string json calendar tp),
    time_point_read tp,
  )

  module _ (t : Task) where
    abbrev value : Value
    value = task_value json calendar t

    task_of-task_value : t.id < 2 ^ 64 → task_of json calendar value ≡ ok (cut_times t)
    unfolding task_of task_value text_eq
    task_of-task_value room = rw (
      field_read (text "id") json.get_uint value (json.of_uint t.id) t.id (simp L.at-set)
          (L.get_uint-of_uint t.id room),
      field_read (text "script_path") json.get_text value (json.of_text t.script_path) t.script_path
          (simp L.at-set) (L.get_text-of_text t.script_path),
      field_read (text "workdir") json.get_text value (json.of_text t.workdir) t.workdir
          (simp L.at-set) (L.get_text-of_text t.workdir),
      field_read (text "ncpu") json.get_int value (json.of_int t.ncpu) t.ncpu (simp L.at-set)
          (L.get_int-of_int t.ncpu),
      field_read (text "ngpu") json.get_int value (json.of_int t.ngpu) t.ngpu (simp L.at-set)
          (L.get_int-of_int t.ngpu),
      field_read (text "specific_cpus") json.get_ints value (json.of_ints t.specific_cpus)
          t.specific_cpus (simp L.at-set) (L.get_ints-of_ints t.specific_cpus),
      field_read (text "specific_gpus") json.get_ints value (json.of_ints t.specific_gpus)
          t.specific_gpus (simp L.at-set) (L.get_ints-of_ints t.specific_gpus),
      text_read (text "log_file") t.log_file value (simp L.at-set),
      field_read (text "allocated_cpus") json.get_ints value (json.of_ints t.allocated_cpus)
          t.allocated_cpus (simp L.at-set) (L.get_ints-of_ints t.allocated_cpus),
      field_read (text "allocated_gpus") json.get_ints value (json.of_ints t.allocated_gpus)
          t.allocated_gpus (simp L.at-set) (L.get_ints-of_ints t.allocated_gpus),
      field_read (text "status") json.get_text value (json.of_text (task_status_to_string t.status))
          (task_status_to_string t.status) (simp L.at-set) (L.get_text-of_text _),
      from_string-to_string t.status,
      field_read (text "pid") json.get_int value (json.of_int t.pid) t.pid (simp L.at-set)
          (L.get_int-of_int t.pid),
      field_read (text "exit_code") json.get_int value (json.of_int t.exit_code) t.exit_code
          (simp L.at-set) (L.get_int-of_int t.exit_code),
      field_read (text "submit_time") json.get_text value
          (json.of_text (time_point_to_string json calendar t.submit_time))
          (time_point_to_string json calendar t.submit_time) (simp L.at-set) (L.get_text-of_text _),
      time_point_read t.submit_time,
      time_read (text "start_time") value t.start_time (simp L.at-set),
      time_read (text "end_time") value t.end_time (simp L.at-set),
    )

seconds_of-cut : (tp : ℕ) → to_seconds (cut tp) ≡ to_seconds tp
seconds_of-cut tp = omega arith

seconds_of-cut_option : (o : Option ℕ) → seconds_of (cut_option o) ≡ seconds_of o
seconds_of-cut_option none = refl
seconds_of-cut_option (some tp) = ap some (seconds_of-cut tp)

cut_times-task_eq : (t : Task) → task_eq (cut_times t) t ≡ true
cut_times-task_eq t = (task_eq_iff (cut_times t) t).1 (
    ground (
      arith,
      seconds_of-cut t.submit_time,
      seconds_of-cut_option t.start_time,
      seconds_of-cut_option t.end_time,
    ))

-- A task with an id below 2^64, read back from its own JSON, is the task with its times cut to whole
-- seconds, which the equality operator takes for the same task. The JSON library and the calendar keep
-- their laws.
pub from_json-to_json :
    {Value : Type 0} (json : Json Value) (calendar : Calendar) (t : Task)
    → JsonLaws json
    → IsCalendar calendar
    → t.id < 2 ^ 64
    → (from_json json calendar (to_json json calendar t) ≡ ok (cut_times t))
      × (task_eq (cut_times t) t ≡ true)
unfolding from_json to_json
from_json-to_json json calendar t L C room = (
  rw (L.parse-dump (task_value json calendar t), from_json)
      (task_of-task_value json calendar L C t room),
  cut_times-task_eq t,
)
