-- ===== src/Wire/Delete.antt =====
-- IPCClient::deleteTasks with the server's handleDelete at the other end.
use myqueue.Prelude.{ℕ, ◌^◌, ◌<◌, ◌≡◌, refl, true, none, some, List, [], ◌∷◌, map, All}
use myqueue.Prelude.Text.{Bytes, text, text_eq}
use myqueue.Json.{Json, JsonLaws, err, parse_error}
use myqueue.Config.{Config}
use myqueue.Protocol.{delete_task_message, ok_message, delete_request_to_json, required}
use myqueue.Protocol.RoundTrip.{delete_request_back}
use myqueue.Protocol.Responses.{delete_response_from_json}
use myqueue.Ipc.{Delivery}
use myqueue.Ipc.Client.{ask, answer_of, client_delete_tasks}
use myqueue.Scheduler.{Env}
use myqueue.Server.{
  Deleted, not_found, termination_failed, terminated, deleted, handle_delete, delete_each,
  delete_one,
}
use myqueue.Server.Dispatch.{
  Daemon, in_daemon, Outside, deleted_value, entry_value, deletions_value, answer_delete,
  handle_request,
}
use myqueue.Wire.{IsNetwork, Fits, over_wire, over_wire_lem}
use myqueue.Wire.Submit.{success_object}

module _ {Value : Type 0} (json : Json Value) (L : JsonLaws json) where
  deletions_object : (rs : List (ℕ × Deleted)) → json.is_object (deletions_value json rs) ≡ true
  unfolding deletions_value
  deletions_object rs = L.is_object-set _ _ _ (success_object json L true)

  -- An entry of the response is an object, and no boolean.
  no_booleans :
      (r : Deleted) (id : ℕ) (vs : List Value)
      → json.get_bools (json.array (entry_value json (id, r) ∷ vs)) ≡ none
  unfolding entry_value deleted_value
  no_booleans not_found id vs =
      L.get_bools-object _ _ _ vs (L.is_object-set _ _ _ (L.is_object-set _ _ _ L.is_object-object))
  no_booleans termination_failed id vs =
      L.get_bools-object _ _ _ vs (L.is_object-set _ _ _ (L.is_object-set _ _ _ L.is_object-object))
  no_booleans terminated id vs =
      L.get_bools-object _ _ _ vs (L.is_object-set _ _ _ L.is_object-object)
  no_booleans (deleted b) id vs =
      L.get_bools-object _ _ _ vs (L.is_object-set _ _ _ L.is_object-object)

  unreadable :
      (r : Deleted) (id : ℕ) (rs : List (ℕ × Deleted))
      → delete_response_from_json json (json.dump (deletions_value json ((id, r) ∷ rs)))
        ≡ err parse_error
  unfolding delete_response_from_json required deletions_value text_eq
  unreadable r id rs =
      let v = deletions_value json ((id, r) ∷ rs) in
      let e : json.at (text "results") v
          ≡ some (json.array (entry_value json (id, r) ∷ map (entry_value json) rs)) =
        simp L.at-set in
      rw (L.parse-dump v, e, required, no_booleans r id (map (entry_value json) rs)) refl

delete_served :
    {Value : Type 0} (env : Env Value) (config : Config) (outside : Outside) (ids : List ℕ)
    (d : Daemon)
    → JsonLaws env.json
    → All (λ n. n < 2 ^ 64) ids
    → let (rs, s') = handle_delete env d.system ids in
      handle_request env config outside delete_task_message
        (delete_request_to_json env.json (record { task_ids = ids }))
        d
      ≡ (env.json.dump (deletions_value env.json rs), in_daemon d s')
unfolding handle_request answer_delete
delete_served env config outside ids d L small =
    rw (delete_request_back env.json (record { task_ids = ids }) L small, answer_delete) refl

-- A client that is connected and asks to delete at least one task gets an empty list of results,
-- whatever the server did: handleDelete runs, and its state stays, but its results are objects and the
-- client reads booleans. The socket delivers every byte in order, however cut; the request and the
-- response fit in the limit on messages; the ids are below 2^64; the JSON library keeps its laws.
pub client_delete_tasks_unread :
    {Value : Type 0} (env : Env Value) (config : Config) (outside : Outside)
    (cut : Bytes → List Delivery) (id : ℕ) (ids : List ℕ) (d : Daemon)
    → JsonLaws env.json
    → IsNetwork cut
    → All (λ n. n < 2 ^ 64) (id ∷ ids)
    → let (rs, s') = handle_delete env d.system (id ∷ ids) in
      Fits env.json delete_task_message
        (delete_request_to_json env.json (record { task_ids = id ∷ ids }))
      → Fits env.json ok_message (env.json.dump (deletions_value env.json rs))
      → client_delete_tasks env.json true (over_wire env config outside cut) (id ∷ ids) d
        ≡ ([], in_daemon d s')
unfolding client_delete_tasks ask answer_of delete_request_to_json handle_delete delete_each
client_delete_tasks_unread env config outside cut id ids d L network small fits fits' =
    let rs = (handle_delete env d.system (id ∷ ids)).0 in
    let s' = (handle_delete env d.system (id ∷ ids)).1 in
    let v = env.json.set (text "task_ids") (env.json.of_uints (id ∷ ids)) env.json.object in
    rw
      (over_wire_lem env config outside cut L network delete_task_message v
        (deletions_value env.json rs) d (in_daemon d s') (L.is_object-set _ _ _ L.is_object-object)
        (deletions_object env.json L rs) (delete_served env config outside (id ∷ ids) d L small)
        fits fits')
      (rw
        (unreadable env.json L (delete_one env d.system id).0 id
          (delete_each env (delete_one env d.system id).1 ids).0)
        refl)
