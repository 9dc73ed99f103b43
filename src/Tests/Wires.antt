-- ===== src/Tests/Wires.antt =====
-- The theorems on a client and the server together, applied.
use mathlib.Core.List.{append-nil}
use myqueue.Prelude.{◌≡◌, refl, true, false, some, List, [], ◌∷◌, arith}
use myqueue.Prelude.Int.{pos}
use myqueue.Prelude.Text.{Bytes, text, text_eq}
use myqueue.Json.{ok}
use myqueue.Config.{default_config}
use myqueue.Protocol.Responses.Tasks.{
  queue_response_to_json, queue_response_value, TaskDetailResponse, task_detail_to_json,
  task_detail_from_json,
}
use myqueue.Protocol.Responses.Tasks.RoundTrip.{task_detail_back}
use myqueue.Ipc.{Delivery, interrupted, arrived}
use myqueue.Ipc.Client.{client_submit}
use myqueue.Server.{handle_submit, handle_delete, delete_each, delete_one}
use myqueue.Server.Queries.{handle_query_queue}
use myqueue.Server.Dispatch.{
  submitted_value, deletions_value, entry_value, deleted_value, Daemon, in_daemon, Outside,
}
use myqueue.Wire.{Fits, IsNetwork, over_wire}
use myqueue.Wire.Submit.{IdFits, submitted_id, client_submit_lem}
use myqueue.Wire.Commands.{wire_client, delete_command_silent}
use myqueue.Cli.{exit}
use myqueue.Cli.Delete.{ids_of, delete_command}
use myqueue.Queue.IdRange.{parse_id_range, single_id, range_dash}
use myqueue.Prelude.Parse.{index_of, stoull, skip_space, digits_from}
use myqueue.Queue.{new_queue, submit, get_running_tasks, get_pending_tasks, get_all_tasks}
use myqueue.Prelude.Map.{find}
use myqueue.Tests.Values.{
  values_json, values_laws, encode, encode_one, decode, push, int_text, dump_of, parse_of,
}
use myqueue.Protocol.{
  submit_message, ok_message, delete_task_message, submit_request_to_json, submit_request_value,
  delete_request_to_json, msg_type_to_string,
}
use myqueue.Ipc.Envelope.{message_value, payload_value}
use myqueue.Tests.Worlds.{sort_tasks, small_env, small_system, small_request, all_directories}

abbrev some_detail : TaskDetailResponse
some_detail = record {
  id = 7;
  status = text "completed";
  script = text "/a.sh";
  workdir = text "/w";
  ncpu = pos 2;
  ngpu = pos 1;
  specific_cpus = [];
  specific_gpus = [];
  allocated_cpus = pos 0 ∷ pos 1 ∷ [];
  allocated_gpus = pos 0 ∷ [];
  log_file = [];
  exit_code = pos 0;
  pid = pos 900;
  submit_time = text "2024-01-01 00:00:00";
  start_time = text "2024-01-01 00:00:05";
  end_time = text "2024-01-01 00:01:00";
  duration_seconds = pos 55;
  found = true;
}

task_detail_back_example :
    task_detail_from_json values_json (task_detail_to_json values_json some_detail) ≡ ok some_detail
task_detail_back_example =
    task_detail_back values_json some_detail values_laws (omega arith) (omega arith)

-- Each message comes after an interrupted read.
abbrev late_cut : Bytes → List Delivery
late_cut [] = interrupted ∷ []
late_cut (b ∷ bs) = interrupted ∷ arrived b bs ∷ []

late_IsNetwork : IsNetwork late_cut
late_IsNetwork [] = (refl, tt)
late_IsNetwork (b ∷ bs) = (append-nil (b ∷ bs), tt)

abbrev small_outside : Outside
small_outside = record { stat = all_directories; local = λ t. []; what = λ e. [] }

abbrev small_daemon : Daemon
small_daemon = record { system = small_system; shutdown_requested = false }

submission_Fits : Fits values_json submit_message (submit_request_to_json values_json small_request)
unfolding submit_request_to_json submit_request_value delete_request_to_json message_value
    payload_value msg_type_to_string encode encode_one decode push int_text dump_of parse_of text_eq
    handle_submit submit new_queue submitted_value handle_delete delete_each delete_one find
    deletions_value entry_value deleted_value handle_query_queue get_running_tasks get_pending_tasks
    sort_tasks get_all_tasks queue_response_to_json queue_response_value
submission_Fits = omega arith

accepted_Fits : Fits values_json ok_message (
    dump_of (
      submitted_value values_json
        (handle_submit small_env all_directories small_system small_request).0))
unfolding submit_request_to_json submit_request_value delete_request_to_json message_value
    payload_value msg_type_to_string encode encode_one decode push int_text dump_of parse_of text_eq
    handle_submit submit new_queue submitted_value handle_delete delete_each delete_one find
    deletions_value entry_value deleted_value handle_query_queue get_running_tasks get_pending_tasks
    sort_tasks get_all_tasks queue_response_to_json queue_response_value
accepted_Fits = omega arith

accepted_IdFits : IdFits (handle_submit small_env all_directories small_system small_request).0
unfolding handle_submit submit new_queue
accepted_IdFits = omega arith

deletion_Fits :
    Fits values_json delete_task_message
      (delete_request_to_json values_json (record { task_ids = 5 ∷ [] }))
unfolding submit_request_to_json submit_request_value delete_request_to_json message_value
    payload_value msg_type_to_string encode encode_one decode push int_text dump_of parse_of text_eq
    handle_submit submit new_queue submitted_value handle_delete delete_each delete_one find
    deletions_value entry_value deleted_value handle_query_queue get_running_tasks get_pending_tasks
    sort_tasks get_all_tasks queue_response_to_json queue_response_value
deletion_Fits = omega arith

deleted_Fits :
    Fits values_json ok_message
      (dump_of (deletions_value values_json (handle_delete small_env small_system (5 ∷ [])).0))
unfolding submit_request_to_json submit_request_value delete_request_to_json message_value
    payload_value msg_type_to_string encode encode_one decode push int_text dump_of parse_of text_eq
    handle_submit submit new_queue submitted_value handle_delete delete_each delete_one find
    deletions_value entry_value deleted_value handle_query_queue get_running_tasks get_pending_tasks
    sort_tasks get_all_tasks queue_response_to_json queue_response_value
deleted_Fits = omega arith

client_submit_lem_example :
    let (r, s') = handle_submit small_env all_directories small_system small_request in
    client_submit values_json true
      (over_wire small_env default_config small_outside late_cut)
      small_request
      small_daemon
    ≡ (submitted_id r, in_daemon small_daemon s')
client_submit_lem_example =
    client_submit_lem small_env default_config small_outside late_cut small_request small_daemon
      values_laws late_IsNetwork submission_Fits accepted_Fits accepted_IdFits

five_listed : ids_of 3 (text "5" ∷ []) ≡ some (5 ∷ [])
unfolding ids_of parse_id_range single_id range_dash index_of stoull skip_space digits_from
five_listed = refl

five_named : text_eq (text "5") (text "all") ≡ false
unfolding text_eq
five_named = refl

delete_command_silent_example :
    delete_command
      (wire_client small_env default_config small_outside late_cut)
      3
      (text "5" ∷ [])
      small_daemon
    ≡ some (exit 0 [] (in_daemon small_daemon (handle_delete small_env small_system (5 ∷ [])).1))
delete_command_silent_example =
    delete_command_silent small_env default_config small_outside late_cut 3 (text "5") [] 5 []
      small_daemon values_laws late_IsNetwork five_named five_listed (omega arith, tt) deletion_Fits
      deleted_Fits
