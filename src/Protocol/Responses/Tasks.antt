-- ===== src/Protocol/Responses/Tasks.antt =====
-- TaskInfo, QueueResponse and TaskDetailResponse of src/ipc/protocol.cpp.
pub mod RoundTrip
use mathlib.Core.Option
use myqueue.Prelude.{
  ℕ, ◌%◌, ◌^◌, ◌-◌, Bool, false, Option, none, some, List, [], ◌∷◌, map, if◌then◌else◌, ltb, ◌==◌,
  all_of,
}
use myqueue.Prelude.Int.{ℤ, pos, negsuc, eqb, ints_eq}
use myqueue.Prelude.Text.{Bytes, text, text_eq}
use myqueue.Json.{Json, Result, ok, parse_error, ◌>>=◌, or_throw}
use myqueue.Protocol.{required, value_or}
use myqueue.Protocol.Responses.{value_in}

pub record TaskInfo : Type 0 where
  pub id : ℕ
  pub status : Bytes
  pub script : Bytes
  pub workdir : Bytes
  pub cpus : List ℤ
  pub gpus : List ℤ
  pub exit_code : ℤ
  pub duration_seconds : ℤ

pub record QueueResponse : Type 0 where
  pub running : List TaskInfo
  pub pending : List TaskInfo
  pub completed : List TaskInfo

pub record TaskDetailResponse : Type 0 where
  pub id : ℕ
  pub status : Bytes
  pub script : Bytes
  pub workdir : Bytes
  pub ncpu : ℤ
  pub ngpu : ℤ
  pub specific_cpus : List ℤ
  pub specific_gpus : List ℤ
  pub allocated_cpus : List ℤ
  pub allocated_gpus : List ℤ
  pub log_file : Bytes
  pub exit_code : ℤ
  pub pid : ℤ
  pub submit_time : Bytes
  pub start_time : Bytes
  pub end_time : Bytes
  pub duration_seconds : ℤ
  pub found : Bool

-- A conversion of int64_t to int, which keeps the low 32 bits.
unfoldable pub to_int32 : ℤ → ℤ
to_int32 (pos n) =
    let low = n % 2 ^ 32 in if ltb low (2 ^ 31) then pos low else negsuc (2 ^ 32 - 1 - low)
to_int32 (negsuc n) =
    let low = n % 2 ^ 32 in if ltb low (2 ^ 31) then negsuc low else pos (2 ^ 32 - 1 - low)

pub task_info_eq : TaskInfo → TaskInfo → Bool
task_info_eq a b = all_of (
    (a.id == b.id)
    ∷ text_eq a.status b.status
    ∷ text_eq a.script b.script
    ∷ text_eq a.workdir b.workdir
    ∷ ints_eq a.cpus b.cpus
    ∷ ints_eq a.gpus b.gpus
    ∷ eqb a.exit_code b.exit_code
    ∷ eqb a.duration_seconds b.duration_seconds
    ∷ [])

module _ {Value : Type 0} (json : Json Value) where
  pub task_info_value : TaskInfo → Value
  task_info_value info = json.set (text "duration_seconds") (json.of_int64 info.duration_seconds) (
      json.set (text "exit_code") (json.of_int info.exit_code) (
        json.set (text "gpus") (json.of_ints info.gpus) (
          json.set (text "cpus") (json.of_ints info.cpus) (
            json.set (text "workdir") (json.of_text info.workdir) (
              json.set (text "script") (json.of_text info.script) (
                json.set (text "status") (json.of_text info.status)
                  (json.set (text "id") (json.of_uint info.id) json.object)))))))

  pub task_info_to_json : TaskInfo → Bytes
  task_info_to_json info = json.dump (task_info_value info)

  -- `j.value("duration_seconds", 0)` is an int, as the default is.
  pub get_seconds : Value → Option ℤ
  get_seconds v = Option.map to_int32 (json.get_int64 v)

  -- A missing `id`, `status`, `script` or `workdir` of an entry of a QueueResponse, for which the
  -- program has no defined behaviour, is an error here.
  pub task_info_of : Value → Result TaskInfo
  task_info_of j = do
    id ← required json (text "id") json.get_uint j
    status ← required json (text "status") json.get_text j
    script ← required json (text "script") json.get_text j
    workdir ← required json (text "workdir") json.get_text j
    cpus ← value_or json (text "cpus") json.get_ints [] j
    gpus ← value_or json (text "gpus") json.get_ints [] j
    exit_code ← value_in json (text "exit_code") json.get_int (pos 0) j
    duration_seconds ← value_in json (text "duration_seconds") get_seconds (pos 0) j
    ok (record {
      id = id;
      status = status;
      script = script;
      workdir = workdir;
      cpus = cpus;
      gpus = gpus;
      exit_code = exit_code;
      duration_seconds = duration_seconds;
    })

  pub task_info_from_json : Bytes → Result TaskInfo
  task_info_from_json str = do j ← or_throw parse_error (json.parse str); task_info_of j

  unfoldable pub queue_response_value : QueueResponse → Value
  queue_response_value resp =
      json.set (text "completed") (json.array (map task_info_value resp.completed)) (
        json.set (text "pending") (json.array (map task_info_value resp.pending))
          (json.set (text "running") (json.array (map task_info_value resp.running)) json.object))

  unfoldable pub queue_response_to_json : QueueResponse → Bytes
  queue_response_to_json resp = json.dump (queue_response_value resp)

  -- The loop over the entries of one list.
  pub task_infos_of : List Value → Result (List TaskInfo)
  task_infos_of [] = ok []
  task_infos_of (v ∷ vs) = do info ← task_info_of v; infos ← task_infos_of vs; ok (info ∷ infos)

  -- One of the lists, if it is there.
  pub tasks_at : Bytes → Value → Result (List TaskInfo)
  tasks_at key j = elim (json.at key j) [ none ↦ ok [] | some v ↦ task_infos_of (json.elements v) ]

  pub queue_response_from_json : Bytes → Result QueueResponse
  queue_response_from_json str = do
    j ← or_throw parse_error (json.parse str)
    running ← tasks_at (text "running") j
    pending ← tasks_at (text "pending") j
    completed ← tasks_at (text "completed") j
    ok (record { running = running; pending = pending; completed = completed })

  pub task_detail_value : TaskDetailResponse → Value
  task_detail_value r = json.set (text "found") (json.of_bool r.found) (
      json.set (text "duration_seconds") (json.of_int64 r.duration_seconds) (
        json.set (text "end_time") (json.of_text r.end_time) (
          json.set (text "start_time") (json.of_text r.start_time) (
            json.set (text "submit_time") (json.of_text r.submit_time) (
              json.set (text "pid") (json.of_int r.pid) (
                json.set (text "exit_code") (json.of_int r.exit_code) (
                  json.set (text "log_file") (json.of_text r.log_file) (
                    json.set (text "allocated_gpus") (json.of_ints r.allocated_gpus) (
                      json.set (text "allocated_cpus") (json.of_ints r.allocated_cpus) (
                        json.set (text "specific_gpus") (json.of_ints r.specific_gpus) (
                          json.set (text "specific_cpus") (json.of_ints r.specific_cpus) (
                            json.set (text "ngpu") (json.of_int r.ngpu) (
                              json.set (text "ncpu") (json.of_int r.ncpu) (
                                json.set (text "workdir") (json.of_text r.workdir) (
                                  json.set (text "script") (json.of_text r.script) (
                                    json.set (text "status") (json.of_text r.status) (
                                      json.set (text "id") (json.of_uint r.id)
                                        json.object)))))))))))))))))

  pub task_detail_to_json : TaskDetailResponse → Bytes
  task_detail_to_json r = json.dump (task_detail_value r)

  pub task_detail_of : Value → Result TaskDetailResponse
  task_detail_of j = do
    id ← value_in json (text "id") json.get_uint 0 j
    status ← value_in json (text "status") json.get_text [] j
    script ← value_in json (text "script") json.get_text [] j
    workdir ← value_in json (text "workdir") json.get_text [] j
    ncpu ← value_in json (text "ncpu") json.get_int (pos 0) j
    ngpu ← value_in json (text "ngpu") json.get_int (pos 0) j
    specific_cpus ← value_or json (text "specific_cpus") json.get_ints [] j
    specific_gpus ← value_or json (text "specific_gpus") json.get_ints [] j
    allocated_cpus ← value_or json (text "allocated_cpus") json.get_ints [] j
    allocated_gpus ← value_or json (text "allocated_gpus") json.get_ints [] j
    log_file ← value_in json (text "log_file") json.get_text [] j
    exit_code ← value_in json (text "exit_code") json.get_int (pos 0) j
    pid ← value_in json (text "pid") json.get_int (pos 0) j
    submit_time ← value_in json (text "submit_time") json.get_text [] j
    start_time ← value_in json (text "start_time") json.get_text [] j
    end_time ← value_in json (text "end_time") json.get_text [] j
    duration_seconds ← value_in json (text "duration_seconds") json.get_int64 (pos 0) j
    found ← value_in json (text "found") json.get_bool false j
    ok (record {
      id = id;
      status = status;
      script = script;
      workdir = workdir;
      ncpu = ncpu;
      ngpu = ngpu;
      specific_cpus = specific_cpus;
      specific_gpus = specific_gpus;
      allocated_cpus = allocated_cpus;
      allocated_gpus = allocated_gpus;
      log_file = log_file;
      exit_code = exit_code;
      pid = pid;
      submit_time = submit_time;
      start_time = start_time;
      end_time = end_time;
      duration_seconds = duration_seconds;
      found = found;
    })

  pub task_detail_from_json : Bytes → Result TaskDetailResponse
  task_detail_from_json str = do j ← or_throw parse_error (json.parse str); task_detail_of j
