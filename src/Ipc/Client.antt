-- ===== src/Ipc/Client.antt =====
-- The operations of src/ipc/ipc_client.cpp over an exchange of one message for another, which changes
-- the state of whoever answers. `connected` is isConnected(). The texts of last_error_ are left out.
use myqueue.Prelude.{ℕ, Bool, true, false, Option, none, some, List, [], is_empty, if◌then◌else◌}
use myqueue.Prelude.Int.{ℤ}
use myqueue.Prelude.Text.{Bytes, text}
use myqueue.Json.{Json, Result, ok, err}
use myqueue.Queue.{SubmitRequest}
use myqueue.Protocol.{
  MsgType, submit_message, query_queue_message, delete_task_message, shutdown_message,
  delete_all_message, query_queue_all_message, get_task_info_message, get_task_log_message,
  ok_message, error_message, submit_request_to_json, delete_request_to_json,
}
use myqueue.Protocol.Responses.{
  DeleteResponse, DeleteAllResponse, TaskLogResponse, submit_response_from_json,
  delete_response_from_json, delete_all_response_from_json, task_info_request_to_json,
  task_log_request_to_json, task_log_response_from_json,
}
use myqueue.Protocol.Responses.Tasks.{
  QueueResponse, TaskDetailResponse, queue_response_from_json, task_detail_from_json,
}

-- `sendRequest`: the type and the payload of the response, or `none` if it fails.
abbrev pub Exchange {ℓ} : Type ℓ → Type ℓ
Exchange S = MsgType → Bytes → S → Option (MsgType × Bytes) × S

abbrev is_error : MsgType → Bool
is_error error_message = true
is_error _ = false

abbrev is_ok : MsgType → Bool
is_ok ok_message = true
is_ok _ = false

abbrev result_or_none {ℓ} : {A : Type ℓ} → Result A → Option A
result_or_none (ok a) = some a
result_or_none (err e) = none

-- What a client makes of the response.
unfoldable pub answer_of {ℓ} :
    {A : Type ℓ} → (Bytes → Result A) → Option (MsgType × Bytes) → Option A
answer_of read none = none
answer_of read (some (type, payload)) =
    if is_error type then none else result_or_none (read payload)

unfoldable pub is_accepted : Option (MsgType × Bytes) → Bool
is_accepted none = false
is_accepted (some (type, payload)) = is_ok type

module _ {Value S : Type 0} (json : Json Value) (connected : Bool) (exchange : Exchange S) where
  -- One request and its answer, on a client that is connected.
  unfoldable pub ask : {A : Type 0} → MsgType → Bytes → (Bytes → Result A) → S → Option A × S
  ask type payload read s =
      let (response, s') = exchange type payload s in
      if connected then (answer_of read response, s') else (none, s)

  unfoldable pub client_submit : SubmitRequest → S → Option ℕ × S
  client_submit req s =
      let (resp, s') =
        ask submit_message (submit_request_to_json json req) (submit_response_from_json json) s in
      (elim resp [ none ↦ none | some r ↦ some r.task_id ], s')

  unfoldable pub client_query_queue : Bool → S → Option QueueResponse × S
  client_query_queue include_completed s =
      ask (if include_completed then query_queue_all_message else query_queue_message) (text "{}")
        (queue_response_from_json json) s

  abbrev results_or_none : Option DeleteResponse → List Bool
  results_or_none none = []
  results_or_none (some r) = r.results

  unfoldable pub client_delete_tasks : List ℕ → S → List Bool × S
  client_delete_tasks ids s =
      let (resp, s') =
        ask delete_task_message (delete_request_to_json json (record { task_ids = ids }))
          (delete_response_from_json json) s in
      if is_empty ids then ([], s) else (results_or_none resp, s')

  unfoldable pub client_delete_all : S → Option DeleteAllResponse × S
  client_delete_all s = ask delete_all_message (text "{}") (delete_all_response_from_json json) s

  unfoldable pub client_get_task_info : ℕ → S → Option TaskDetailResponse × S
  client_get_task_info id s =
      ask get_task_info_message (task_info_request_to_json json (record { task_id = id }))
        (task_detail_from_json json) s

  unfoldable pub client_get_task_log : ℕ → ℤ → S → Option TaskLogResponse × S
  client_get_task_log id tail_lines s =
      ask get_task_log_message
        (task_log_request_to_json json (record { task_id = id; tail_lines = tail_lines }))
        (task_log_response_from_json json) s

  unfoldable pub client_shutdown : S → Bool × S
  client_shutdown s =
      let (response, s') = exchange shutdown_message (text "{}") s in
      if connected then (is_accepted response, s') else (false, s)
