-- ===== src/Protocol/Responses/Tasks/RoundTrip.antt =====
-- The responses read back from their own JSON.
use mathlib.Core.Option
use myqueue.Prelude.{◌^◌, ◌<◌, ◌≡◌, refl, ap, false, true, Option, some, List, [], ◌∷◌, map, All}
use myqueue.Prelude.Int.{pos}
use myqueue.Prelude.Text.{Bytes, text, text_eq}
use myqueue.Json.{Json, JsonLaws, IsInt64, ok}
use myqueue.Protocol.RoundTrip.{required_read, value_or_read}
use myqueue.Protocol.Responses.{value_in}
use myqueue.Protocol.Responses.Tasks.{
  TaskInfo, QueueResponse, TaskDetailResponse, to_int32, task_info_value, task_info_of, get_seconds,
  queue_response_value, queue_response_to_json, queue_response_from_json, task_infos_of, tasks_at,
  task_detail_value, task_detail_of, task_detail_to_json, task_detail_from_json,
}

-- What is left of a TaskInfo on the client's side.
abbrev pub received : TaskInfo → TaskInfo
received info = record info { duration_seconds = to_int32 info.duration_seconds }

-- Its numbers are in the range of their C++ types.
abbrev pub InRange : TaskInfo → Type 0
InRange info = (info.id < 2 ^ 64) × IsInt64 info.duration_seconds

module _ {Value : Type 0} (json : Json Value) (L : JsonLaws json) where
  pub value_read :
      {A : Type 0} (key : Bytes) (get : Value → Option A) (default : A) (j v : Value) (a : A)
      → json.is_object j ≡ true
      → json.at key j ≡ some v
      → get v ≡ some a
      → value_in json key get default j ≡ ok a
  unfolding value_in
  value_read key get default j v a o e g = rw o (value_or_read json L key get default j v a e g)

  get_seconds_read :
      (info : TaskInfo)
      → IsInt64 info.duration_seconds
      → get_seconds json (json.of_int64 info.duration_seconds)
        ≡ some (to_int32 info.duration_seconds)
  unfolding get_seconds
  get_seconds_read info h = ap (Option.map to_int32) (L.get_int64-of_int64 info.duration_seconds h)

  task_info_value_object : (info : TaskInfo) → json.is_object (task_info_value json info) ≡ true
  unfolding task_info_value
  task_info_value_object info = L.is_object-set _ _ _ (
      L.is_object-set _ _ _ (
        L.is_object-set _ _ _ (
          L.is_object-set _ _ _ (
            L.is_object-set _ _ _ (
              L.is_object-set _ _ _
                (L.is_object-set _ _ _ (L.is_object-set _ _ _ L.is_object-object)))))))

  pub task_info_of-value :
      (info : TaskInfo)
      → InRange info
      → task_info_of json (task_info_value json info) ≡ ok (received info)
  unfolding task_info_of task_info_value text_eq
  task_info_of-value info range =
      let v = task_info_value json info in
      let object = task_info_value_object info in
      rw (
        required_read json L (text "id") json.get_uint v (json.of_uint info.id) info.id
            (simp L.at-set) (L.get_uint-of_uint info.id range.0),
        required_read json L (text "status") json.get_text v (json.of_text info.status) info.status
            (simp L.at-set) (L.get_text-of_text info.status),
        required_read json L (text "script") json.get_text v (json.of_text info.script) info.script
            (simp L.at-set) (L.get_text-of_text info.script),
        required_read json L (text "workdir") json.get_text v (json.of_text info.workdir)
            info.workdir (simp L.at-set) (L.get_text-of_text info.workdir),
        value_or_read json L (text "cpus") json.get_ints [] v (json.of_ints info.cpus) info.cpus
            (simp L.at-set) (L.get_ints-of_ints info.cpus),
        value_or_read json L (text "gpus") json.get_ints [] v (json.of_ints info.gpus) info.gpus
            (simp L.at-set) (L.get_ints-of_ints info.gpus),
        value_read (text "exit_code") json.get_int (pos 0) v (json.of_int info.exit_code)
            info.exit_code object (simp L.at-set) (L.get_int-of_int info.exit_code),
        value_read (text "duration_seconds") (get_seconds json) (pos 0) v
            (json.of_int64 info.duration_seconds) (to_int32 info.duration_seconds) object
            (simp L.at-set) (get_seconds_read info range.1),
      )

  pub task_infos_back :
      (infos : List TaskInfo)
      → All InRange infos
      → task_infos_of json (map (task_info_value json) infos) ≡ ok (map received infos)
  unfolding task_infos_of
  task_infos_back [] range = refl
  task_infos_back (info ∷ infos) range =
      rw (task_info_of-value info range.0, task_infos_back infos range.1) refl

  tasks_at_back :
      (key : Bytes) (j : Value) (infos : List TaskInfo)
      → All InRange infos
      → json.at key j ≡ some (json.array (map (task_info_value json) infos))
      → tasks_at json key j ≡ ok (map received infos)
  unfolding tasks_at
  tasks_at_back key j infos range e =
      rw (e, tasks_at, L.elements-array (map (task_info_value json) infos))
        (task_infos_back infos range)

  task_detail_object : (r : TaskDetailResponse) → json.is_object (task_detail_value json r) ≡ true
  unfolding task_detail_value
  task_detail_object r = L.is_object-set _ _ _ (
      L.is_object-set _ _ _ (
        L.is_object-set _ _ _ (
          L.is_object-set _ _ _ (
            L.is_object-set _ _ _ (
              L.is_object-set _ _ _ (
                L.is_object-set _ _ _ (
                  L.is_object-set _ _ _ (
                    L.is_object-set _ _ _ (
                      L.is_object-set _ _ _ (
                        L.is_object-set _ _ _ (
                          L.is_object-set _ _ _ (
                            L.is_object-set _ _ _ (
                              L.is_object-set _ _ _ (
                                L.is_object-set _ _ _ (
                                  L.is_object-set _ _ _ (
                                    L.is_object-set _ _ _
                                      (L.is_object-set _ _ _ L.is_object-object)))))))))))))))))

  task_detail_of-value :
      (r : TaskDetailResponse)
      → (r.id < 2 ^ 64) × IsInt64 r.duration_seconds
      → task_detail_of json (task_detail_value json r) ≡ ok r
  unfolding task_detail_of task_detail_value text_eq
  task_detail_of-value r range =
      let v = task_detail_value json r in
      let object = task_detail_object r in
      rw (
        value_read (text "id") json.get_uint 0 v (json.of_uint r.id) r.id object (simp L.at-set)
            (L.get_uint-of_uint r.id range.0),
        value_read (text "status") json.get_text [] v (json.of_text r.status) r.status object
            (simp L.at-set) (L.get_text-of_text r.status),
        value_read (text "script") json.get_text [] v (json.of_text r.script) r.script object
            (simp L.at-set) (L.get_text-of_text r.script),
        value_read (text "workdir") json.get_text [] v (json.of_text r.workdir) r.workdir object
            (simp L.at-set) (L.get_text-of_text r.workdir),
        value_read (text "ncpu") json.get_int (pos 0) v (json.of_int r.ncpu) r.ncpu object
            (simp L.at-set) (L.get_int-of_int r.ncpu),
        value_read (text "ngpu") json.get_int (pos 0) v (json.of_int r.ngpu) r.ngpu object
            (simp L.at-set) (L.get_int-of_int r.ngpu),
        value_or_read json L (text "specific_cpus") json.get_ints [] v
            (json.of_ints r.specific_cpus) r.specific_cpus (simp L.at-set)
            (L.get_ints-of_ints r.specific_cpus),
        value_or_read json L (text "specific_gpus") json.get_ints [] v
            (json.of_ints r.specific_gpus) r.specific_gpus (simp L.at-set)
            (L.get_ints-of_ints r.specific_gpus),
        value_or_read json L (text "allocated_cpus") json.get_ints [] v
            (json.of_ints r.allocated_cpus) r.allocated_cpus (simp L.at-set)
            (L.get_ints-of_ints r.allocated_cpus),
        value_or_read json L (text "allocated_gpus") json.get_ints [] v
            (json.of_ints r.allocated_gpus) r.allocated_gpus (simp L.at-set)
            (L.get_ints-of_ints r.allocated_gpus),
        value_read (text "log_file") json.get_text [] v (json.of_text r.log_file) r.log_file object
            (simp L.at-set) (L.get_text-of_text r.log_file),
        value_read (text "exit_code") json.get_int (pos 0) v (json.of_int r.exit_code) r.exit_code
            object (simp L.at-set) (L.get_int-of_int r.exit_code),
        value_read (text "pid") json.get_int (pos 0) v (json.of_int r.pid) r.pid object
            (simp L.at-set) (L.get_int-of_int r.pid),
        value_read (text "submit_time") json.get_text [] v (json.of_text r.submit_time)
            r.submit_time object (simp L.at-set) (L.get_text-of_text r.submit_time),
        value_read (text "start_time") json.get_text [] v (json.of_text r.start_time) r.start_time
            object (simp L.at-set) (L.get_text-of_text r.start_time),
        value_read (text "end_time") json.get_text [] v (json.of_text r.end_time) r.end_time object
            (simp L.at-set) (L.get_text-of_text r.end_time),
        value_read (text "duration_seconds") json.get_int64 (pos 0) v
            (json.of_int64 r.duration_seconds) r.duration_seconds object (simp L.at-set)
            (L.get_int64-of_int64 r.duration_seconds range.1),
        value_read (text "found") json.get_bool false v (json.of_bool r.found) r.found object
            (simp L.at-set) (L.get_bool-of_bool r.found),
      )

-- A queue listing read back from its own JSON is the same but for the durations, of which the low 32
-- bits are left, as a signed number. The ids are in the range of uint64_t and the durations in that of
-- int64_t; the JSON library keeps its laws.
pub queue_response_back :
    {Value : Type 0} (json : Json Value) (resp : QueueResponse)
    → JsonLaws json
    → All InRange resp.running
    → All InRange resp.pending
    → All InRange resp.completed
    → queue_response_from_json json (queue_response_to_json json resp)
      ≡ ok (record {
        running = map received resp.running;
        pending = map received resp.pending;
        completed = map received resp.completed;
      })
unfolding queue_response_from_json queue_response_to_json queue_response_value text_eq
queue_response_back json resp L r p c =
    let v = queue_response_value json resp in
    rw
      (
        L.parse-dump v,
        tasks_at_back json L (text "running") v resp.running r (simp L.at-set),
        tasks_at_back json L (text "pending") v resp.pending p (simp L.at-set),
        tasks_at_back json L (text "completed") v resp.completed c (simp L.at-set),
      )
      refl

-- The details of a task, with an id below 2^64 and a duration in the range of int64_t, read back from
-- their own JSON are the same. The JSON library keeps its laws.
pub task_detail_back :
    {Value : Type 0} (json : Json Value) (r : TaskDetailResponse)
    → JsonLaws json
    → r.id < 2 ^ 64
    → IsInt64 r.duration_seconds
    → task_detail_from_json json (task_detail_to_json json r) ≡ ok r
unfolding task_detail_from_json task_detail_to_json
task_detail_back json r L small time =
    rw (L.parse-dump (task_detail_value json r)) (task_detail_of-value json L r (small, time))
