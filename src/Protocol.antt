-- ===== src/Protocol.antt =====
-- Messages: include/myqueue/protocol.h and src/ipc/protocol.cpp, the message types and the requests
-- that change the queue. Every failure of a fromJson is a MyQueueException with FILE_PARSE_ERROR.
pub mod RoundTrip
pub mod Responses
use mathlib.Core.Option
use myqueue.Prelude.{ℕ, ◌≡◌, Option, none, some, List, [], if◌then◌else◌}
use myqueue.Prelude.Int.{pos}
use myqueue.Prelude.Text.{Bytes, text, text_eq}
use myqueue.Json.{Json, Result, ok, err, parse_error, ◌>>=◌, or_throw}
use myqueue.Queue.{SubmitRequest}

pub data MsgType : Type 0 where
  submit_message query_queue_message delete_task_message shutdown_message delete_all_message
        query_queue_all_message :
      MsgType
  get_task_info_message get_task_log_message ok_message error_message : MsgType

unfoldable pub msg_type_to_string : MsgType → Bytes
msg_type_to_string submit_message = text "SUBMIT"
msg_type_to_string query_queue_message = text "QUERY_QUEUE"
msg_type_to_string delete_task_message = text "DELETE_TASK"
msg_type_to_string shutdown_message = text "SHUTDOWN"
msg_type_to_string delete_all_message = text "DELETE_ALL"
msg_type_to_string query_queue_all_message = text "QUERY_QUEUE_ALL"
msg_type_to_string get_task_info_message = text "GET_TASK_INFO"
msg_type_to_string get_task_log_message = text "GET_TASK_LOG"
msg_type_to_string ok_message = text "OK"
msg_type_to_string error_message = text "ERROR"

-- `none` is the std::invalid_argument.
pub msg_type_from_string : Bytes → Option MsgType
msg_type_from_string str =
    if text_eq str (text "SUBMIT")
    then some submit_message
    else if text_eq str (text "QUERY_QUEUE")
    then some query_queue_message
    else if text_eq str (text "DELETE_TASK")
    then some delete_task_message
    else if text_eq str (text "SHUTDOWN")
    then some shutdown_message
    else if text_eq str (text "DELETE_ALL")
    then some delete_all_message
    else if text_eq str (text "QUERY_QUEUE_ALL")
    then some query_queue_all_message
    else if text_eq str (text "GET_TASK_INFO")
    then some get_task_info_message
    else if text_eq str (text "GET_TASK_LOG")
    then some get_task_log_message
    else if text_eq str (text "OK")
    then some ok_message
    else if text_eq str (text "ERROR")
    then some error_message
    else none

-- `DeleteRequest`.
pub record DeleteRequest : Type 0 where
  pub task_ids : List ℕ

module _ {Value : Type 0} (json : Json Value) where
  unfoldable pub submit_request_value : SubmitRequest → Value
  submit_request_value req = json.set (text "log_file") (json.of_text req.log_file) (
      json.set (text "specific_gpus") (json.of_ints req.specific_gpus) (
        json.set (text "specific_cpus") (json.of_ints req.specific_cpus) (
          json.set (text "ngpu") (json.of_int req.ngpu) (
            json.set (text "ncpu") (json.of_int req.ncpu) (
              json.set (text "workdir") (json.of_text req.workdir)
                (json.set (text "script_path") (json.of_text req.script_path) json.object))))))

  unfoldable pub submit_request_to_json : SubmitRequest → Bytes
  submit_request_to_json req = json.dump (submit_request_value req)

  -- A field that has to be there.
  unfoldable pub required : {A : Type 0} → Bytes → (Value → Option A) → Value → Result A
  required key get j = elim (json.at key j) [
    | none ↦ err parse_error
    | some v ↦ or_throw parse_error (get v)
  ]

  -- `j.value(key, default)`, and the fields read only if `j.contains(key)`.
  unfoldable pub value_or : {A : Type 0} → Bytes → (Value → Option A) → A → Value → Result A
  value_or key get default j = elim (json.at key j) [
    | none ↦ ok default
    | some v ↦ or_throw parse_error (get v)
  ]

  unfoldable pub submit_request_of : Value → Result SubmitRequest
  submit_request_of j = do
    script_path ← required (text "script_path") json.get_text j
    workdir ← required (text "workdir") json.get_text j
    ncpu ← value_or (text "ncpu") json.get_int (pos 1) j
    ngpu ← value_or (text "ngpu") json.get_int (pos 1) j
    specific_cpus ← value_or (text "specific_cpus") json.get_ints [] j
    specific_gpus ← value_or (text "specific_gpus") json.get_ints [] j
    log_file ← value_or (text "log_file") json.get_text [] j
    ok (record {
      script_path = script_path;
      workdir = workdir;
      ncpu = ncpu;
      ngpu = ngpu;
      specific_cpus = specific_cpus;
      specific_gpus = specific_gpus;
      log_file = log_file;
    })

  unfoldable pub submit_request_from_json : Bytes → Result SubmitRequest
  submit_request_from_json str = do j ← or_throw parse_error (json.parse str); submit_request_of j

  unfoldable pub delete_request_to_json : DeleteRequest → Bytes
  delete_request_to_json req =
      json.dump (json.set (text "task_ids") (json.of_uints req.task_ids) json.object)

  unfoldable pub delete_request_from_json : Bytes → Result DeleteRequest
  delete_request_from_json str = do
    j ← or_throw parse_error (json.parse str)
    task_ids ← required (text "task_ids") json.get_uints j
    ok (record { task_ids = task_ids })
