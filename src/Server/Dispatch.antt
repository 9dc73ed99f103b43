-- ===== src/Server/Dispatch.antt =====
-- handleRequest of src/core/server.cpp and the JSON that the handlers read and write.
use myqueue.Prelude.{ℕ, Bool, true, false, List, ◌++◌, map}
use myqueue.Prelude.Text.{Bytes, text}
use myqueue.Json.{Json, Thrown, ok, err}
use myqueue.Config.{Config}
use myqueue.Protocol.{
  MsgType, submit_message, query_queue_message, delete_task_message, shutdown_message,
  delete_all_message, query_queue_all_message, get_task_info_message, get_task_log_message,
  ok_message, error_message, submit_request_from_json, delete_request_from_json,
}
use myqueue.Protocol.Responses.{
  delete_all_response_to_json, task_info_request_from_json, task_log_request_from_json,
  task_log_response_to_json,
}
use myqueue.Protocol.Responses.Tasks.{queue_response_to_json, task_detail_to_json}
use myqueue.Scheduler.{Env, System}
use myqueue.Server.{
  PathKind, Submitted, script_not_found, workdir_not_found, task_id, Deleted, not_found,
  termination_failed, terminated, deleted, handle_submit, handle_delete, handle_delete_all,
}
use myqueue.Server.Queries.{
  no_detail, no_log, handle_query_queue, handle_get_task_info, handle_get_task_log,
}

-- The server: its system and shutdown_requested_.
pub record Daemon : Type 0 where
  pub system : System
  pub shutdown_requested : Bool

abbrev pub in_daemon : Daemon → System → Daemon
in_daemon d s = record d { system = s }

-- What the handlers get from outside: stat, localtime_r with put_time, and the message of an exception.
pub record Outside : Type 0 where
  pub stat : Bytes → PathKind
  pub local : ℕ → Bytes
  pub what : Thrown → Bytes

module _ {Value : Type 0} (json : Json Value) where
  abbrev pub success_value : Bool → Value
  success_value b = json.set (text "success") (json.of_bool b) json.object

  abbrev pub failure_value : Bytes → Value
  failure_value error = json.set (text "error") (json.of_text error) (success_value false)

  unfoldable pub submitted_value : Submitted → Value
  submitted_value (script_not_found path) = failure_value (text "Script file not found: " ++ path)
  submitted_value (workdir_not_found path) =
      failure_value (text "Working directory not found: " ++ path)
  submitted_value (task_id id) = json.set (text "task_id") (json.of_uint id) (success_value true)

  -- The members of an entry but its id.
  unfoldable pub deleted_value : Value → Deleted → Value
  deleted_value v not_found =
      json.set (text "error") (json.of_text (text "Task not found"))
        (json.set (text "success") (json.of_bool false) v)
  deleted_value v termination_failed =
      json.set (text "error") (json.of_text (text "Failed to terminate task"))
        (json.set (text "success") (json.of_bool false) v)
  deleted_value v terminated = json.set (text "success") (json.of_bool true) v
  deleted_value v (deleted b) = json.set (text "success") (json.of_bool b) v

  unfoldable pub entry_value : ℕ × Deleted → Value
  unfolding deleted_value
  entry_value (id, result) =
      deleted_value (json.set (text "id") (json.of_uint id) json.object) result

  unfoldable pub deletions_value : List (ℕ × Deleted) → Value
  unfolding entry_value
  deletions_value results =
      json.set (text "results") (json.array (map entry_value results)) (success_value true)

  -- The response to a request that does not parse.
  abbrev pub unparsed_value : Bytes → Value
  unparsed_value what = failure_value (text "Failed to parse request: " ++ what)

module _ {Value : Type 0} (env : Env Value) (config : Config) (outside : Outside) where
  unfoldable pub answer_submit : Bytes → System → Bytes × System
  answer_submit body s = elim (submit_request_from_json env.json body) [
    | err e ↦ (env.json.dump (unparsed_value env.json (outside.what e)), s)
    | ok req ↦
        let (r, s') = handle_submit env outside.stat s req in
        (env.json.dump (submitted_value env.json r), s')
  ]

  unfoldable pub answer_delete : Bytes → System → Bytes × System
  answer_delete body s = elim (delete_request_from_json env.json body) [
    | err e ↦ (env.json.dump (unparsed_value env.json (outside.what e)), s)
    | ok req ↦
        let (rs, s') = handle_delete env s req.task_ids in
        (env.json.dump (deletions_value env.json rs), s')
  ]

  unfoldable pub answer_delete_all : System → Bytes × System
  answer_delete_all s =
      let (resp, s') = handle_delete_all env s in (delete_all_response_to_json env.json resp, s')

  unfoldable pub answer_query_queue : System → Bool → Bytes
  answer_query_queue s include_completed =
      queue_response_to_json env.json (handle_query_queue env s include_completed)

  unfoldable pub answer_get_task_info : Bytes → System → Bytes
  answer_get_task_info body s =
      task_detail_to_json env.json (elim (task_info_request_from_json env.json body) [
        | err e ↦ no_detail
        | ok req ↦ handle_get_task_info env outside.local s req.task_id
      ])

  unfoldable pub answer_get_task_log : Bytes → System → Bytes
  answer_get_task_log body s =
      task_log_response_to_json env.json (elim (task_log_request_from_json env.json body) [
        | err e ↦ record no_log { error = outside.what e }
        | ok req ↦ handle_get_task_log config s req.task_id req.tail_lines
      ])

  unfoldable pub handle_shutdown : Daemon → Bytes × Daemon
  handle_shutdown d = (
    env.json.dump (
        env.json.set (text "message") (env.json.of_text (text "Server shutting down"))
          (success_value env.json true)),
    record d { shutdown_requested = true },
  )

  unfoldable pub handle_request : MsgType → Bytes → Daemon → Bytes × Daemon
  handle_request submit_message body d =
      let (r, s') = answer_submit body d.system in (r, in_daemon d s')
  handle_request query_queue_message body d = (answer_query_queue d.system false, d)
  handle_request query_queue_all_message body d = (answer_query_queue d.system true, d)
  handle_request delete_task_message body d =
      let (r, s') = answer_delete body d.system in (r, in_daemon d s')
  handle_request delete_all_message body d =
      let (r, s') = answer_delete_all d.system in (r, in_daemon d s')
  handle_request get_task_info_message body d = (answer_get_task_info body d.system, d)
  handle_request get_task_log_message body d = (answer_get_task_log body d.system, d)
  handle_request shutdown_message body d = handle_shutdown d
  handle_request ok_message body d =
      (env.json.dump (failure_value env.json (text "Unknown message type")), d)
  handle_request error_message body d =
      (env.json.dump (failure_value env.json (text "Unknown message type")), d)
