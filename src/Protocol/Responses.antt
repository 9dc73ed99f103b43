-- ===== src/Protocol/Responses.antt =====
-- The responses of include/myqueue/protocol.h and src/ipc/protocol.cpp, and the requests that only ask.
-- A value of `j.value(key, default)` is an exception if `j` is no object.
pub mod Tasks
use mathlib.Core.Option
use myqueue.Prelude.{ℕ, ◌%◌, ◌^◌, ◌-◌, Bool, false, Option, List, [], if◌then◌else◌}
use myqueue.Prelude.Int.{ℤ, pos}
use myqueue.Prelude.Text.{Bytes, text}
use myqueue.Json.{Json, Result, ok, err, parse_error, ◌>>=◌, or_throw}
use myqueue.Protocol.{required, value_or}

pub record SubmitResponse : Type 0 where
  pub task_id : ℕ

pub record DeleteResponse : Type 0 where
  pub results : List Bool

pub record ErrorResponse : Type 0 where
  pub code : ℤ
  pub message : Bytes

-- The counters are ints.
pub record DeleteAllResponse : Type 0 where
  pub deleted_count : ℤ
  pub running_terminated : ℤ
  pub pending_deleted : ℤ
  pub completed_deleted : ℤ

pub record TaskInfoRequest : Type 0 where
  pub task_id : ℕ

pub record TaskLogRequest : Type 0 where
  pub task_id : ℕ
  pub tail_lines : ℤ

pub record TaskLogResponse : Type 0 where
  pub task_id : ℕ
  pub log_path : Bytes
  pub content : Bytes
  pub found : Bool
  pub error : Bytes

module _ {Value : Type 0} (json : Json Value) where
  -- `j.value(key, default)`.
  pub value_in : {A : Type 0} → Bytes → (Value → Option A) → A → Value → Result A
  value_in key get default j =
      if json.is_object j then value_or json key get default j else err parse_error

  abbrev parsed : Bytes → Result Value
  parsed str = or_throw parse_error (json.parse str)

  pub submit_response_value : SubmitResponse → Value
  submit_response_value resp = json.set (text "task_id") (json.of_uint resp.task_id) json.object

  pub submit_response_to_json : SubmitResponse → Bytes
  submit_response_to_json resp = json.dump (submit_response_value resp)

  unfoldable pub submit_response_from_json : Bytes → Result SubmitResponse
  submit_response_from_json str = do
    j ← parsed str
    task_id ← required json (text "task_id") json.get_uint j
    ok (record { task_id = task_id })

  pub delete_response_to_json : DeleteResponse → Bytes
  delete_response_to_json resp =
      json.dump (json.set (text "results") (json.of_bools resp.results) json.object)

  unfoldable pub delete_response_from_json : Bytes → Result DeleteResponse
  delete_response_from_json str = do
    j ← parsed str
    results ← required json (text "results") json.get_bools j
    ok (record { results = results })

  pub error_response_value : ErrorResponse → Value
  error_response_value resp =
      json.set (text "message") (json.of_text resp.message)
        (json.set (text "code") (json.of_int resp.code) json.object)

  pub error_response_to_json : ErrorResponse → Bytes
  error_response_to_json resp = json.dump (error_response_value resp)

  pub error_response_from_json : Bytes → Result ErrorResponse
  error_response_from_json str = do
    j ← parsed str
    code ← value_in (text "code") json.get_int (pos 0) j
    message ← value_in (text "message") json.get_text [] j
    ok (record { code = code; message = message })

  pub delete_all_response_value : DeleteAllResponse → Value
  delete_all_response_value resp =
      json.set (text "completed_deleted") (json.of_int resp.completed_deleted) (
        json.set (text "pending_deleted") (json.of_int resp.pending_deleted) (
          json.set (text "running_terminated") (json.of_int resp.running_terminated)
            (json.set (text "deleted_count") (json.of_int resp.deleted_count) json.object)))

  pub delete_all_response_to_json : DeleteAllResponse → Bytes
  delete_all_response_to_json resp = json.dump (delete_all_response_value resp)

  pub delete_all_response_from_json : Bytes → Result DeleteAllResponse
  delete_all_response_from_json str = do
    j ← parsed str
    deleted_count ← value_in (text "deleted_count") json.get_int (pos 0) j
    running_terminated ← value_in (text "running_terminated") json.get_int (pos 0) j
    pending_deleted ← value_in (text "pending_deleted") json.get_int (pos 0) j
    completed_deleted ← value_in (text "completed_deleted") json.get_int (pos 0) j
    ok (record {
      deleted_count = deleted_count;
      running_terminated = running_terminated;
      pending_deleted = pending_deleted;
      completed_deleted = completed_deleted;
    })

  pub task_info_request_to_json : TaskInfoRequest → Bytes
  task_info_request_to_json req =
      json.dump (json.set (text "task_id") (json.of_uint req.task_id) json.object)

  pub task_info_request_from_json : Bytes → Result TaskInfoRequest
  task_info_request_from_json str = do
    j ← parsed str
    task_id ← value_in (text "task_id") json.get_uint 0 j
    ok (record { task_id = task_id })

  pub task_log_request_value : TaskLogRequest → Value
  task_log_request_value req =
      json.set (text "tail_lines") (json.of_int req.tail_lines)
        (json.set (text "task_id") (json.of_uint req.task_id) json.object)

  pub task_log_request_to_json : TaskLogRequest → Bytes
  task_log_request_to_json req = json.dump (task_log_request_value req)

  pub task_log_request_from_json : Bytes → Result TaskLogRequest
  task_log_request_from_json str = do
    j ← parsed str
    task_id ← value_in (text "task_id") json.get_uint 0 j
    tail_lines ← value_in (text "tail_lines") json.get_int (pos 0) j
    ok (record { task_id = task_id; tail_lines = tail_lines })

  pub task_log_response_value : TaskLogResponse → Value
  task_log_response_value resp = json.set (text "error") (json.of_text resp.error) (
      json.set (text "found") (json.of_bool resp.found) (
        json.set (text "content") (json.of_text resp.content) (
          json.set (text "log_path") (json.of_text resp.log_path)
            (json.set (text "task_id") (json.of_uint resp.task_id) json.object))))

  pub task_log_response_to_json : TaskLogResponse → Bytes
  task_log_response_to_json resp = json.dump (task_log_response_value resp)

  pub task_log_response_from_json : Bytes → Result TaskLogResponse
  task_log_response_from_json str = do
    j ← parsed str
    task_id ← value_in (text "task_id") json.get_uint 0 j
    log_path ← value_in (text "log_path") json.get_text [] j
    content ← value_in (text "content") json.get_text [] j
    found ← value_in (text "found") json.get_bool false j
    error ← value_in (text "error") json.get_text [] j
    ok (record {
      task_id = task_id;
      log_path = log_path;
      content = content;
      found = found;
      error = error;
    })
