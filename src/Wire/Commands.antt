-- ===== src/Wire/Commands.antt =====
-- The commands of src/cli/main.cpp on a client whose server runs.
use myqueue.Prelude.{
  ℕ, ◌^◌, ◌<◌, ◌≡◌, refl, ap, true, false, some, List, [], ◌∷◌, length, arith, is_empty, All,
  if◌then◌else◌, ltb,
}
use myqueue.Prelude.Text.{Bytes, text, text_eq}
use myqueue.Json.{JsonLaws}
use myqueue.Config.{Config}
use myqueue.Protocol.{delete_task_message, ok_message, delete_request_to_json}
use myqueue.Ipc.{Delivery}
use myqueue.Ipc.Client.{
  client_submit, client_query_queue, client_delete_tasks, client_delete_all, client_get_task_info,
  client_get_task_log, client_shutdown,
}
use myqueue.Cli.{Client, exit, deleted_summary}
use myqueue.Cli.Delete.{ids_of, report, delete_ids, delete_command}
use myqueue.Scheduler.{Env}
use myqueue.Server.{handle_delete}
use myqueue.Server.Dispatch.{Daemon, in_daemon, Outside, deletions_value}
use myqueue.Wire.{IsNetwork, Fits, over_wire}
use myqueue.Wire.Delete.{client_delete_tasks_unread}

-- The client of a running server fills the interface of the commands.
abbrev pub wire_client :
    {Value : Type 0} → Env Value → Config → Outside → (Bytes → List Delivery) → Client Daemon
wire_client env config outside cut =
    let wire = over_wire env config outside cut in
    record {
      connects = λ d. true;
      submit_request = client_submit env.json true wire;
      query_queue = client_query_queue env.json true wire;
      delete_by_ids = client_delete_tasks env.json true wire;
      delete_all = client_delete_all env.json true wire;
      get_task_info = client_get_task_info env.json true wire;
      get_task_log = client_get_task_log env.json true wire;
      shutdown = client_shutdown env.json true wire;
    }

delete_ids_silent :
    {S : Type 0} (client : Client S) (id : ℕ) (ids : List ℕ) (s s' : S)
    → client.delete_by_ids (id ∷ ids) s ≡ ([], s')
    → delete_ids client (id ∷ ids) s
      ≡ exit 0 (if is_empty ids then [] else deleted_summary 0 0 ∷ []) s'
unfolding delete_ids report
delete_ids_silent client id [] s s' e = rw e refl
delete_ids_silent client id (k ∷ ids) s s' e =
    let more : ltb 1 (length (id ∷ k ∷ ids)) ≡ true = ground arith in rw (e, more) refl

-- The command `del` on ids reports nothing of what the server did: it ends with code 0 and prints only,
-- for more than one id, that no task was deleted, while handleDelete ran on the server and its state
-- stays. The first argument is not `all`, the arguments name at least one id, which the fuel is enough
-- to list, and ids below 2^64; the socket delivers every byte in order, however cut; the request and the
-- response fit in the limit on messages; the JSON library keeps its laws.
pub delete_command_silent :
    {Value : Type 0} (env : Env Value) (config : Config) (outside : Outside)
    (cut : Bytes → List Delivery) (fuel : ℕ) (arg : Bytes) (args : List Bytes) (id : ℕ)
    (ids : List ℕ) (d : Daemon)
    → JsonLaws env.json
    → IsNetwork cut
    → text_eq arg (text "all") ≡ false
    → ids_of fuel (arg ∷ args) ≡ some (id ∷ ids)
    → All (λ n. n < 2 ^ 64) (id ∷ ids)
    → let (rs, s') = handle_delete env d.system (id ∷ ids) in
      Fits env.json delete_task_message
        (delete_request_to_json env.json (record { task_ids = id ∷ ids }))
      → Fits env.json ok_message (env.json.dump (deletions_value env.json rs))
      → delete_command (wire_client env config outside cut) fuel (arg ∷ args) d
        ≡ some (exit 0 (if is_empty ids then [] else deleted_summary 0 0 ∷ []) (in_daemon d s'))
unfolding delete_command
delete_command_silent env config outside cut fuel arg args id ids d L network named listed small
      fits fits' =
    let unread =
      client_delete_tasks_unread env config outside cut id ids d L network small fits fits' in
    rw (named, delete_command, listed)
      (ap some (delete_ids_silent (wire_client env config outside cut) id ids d _ unread))
