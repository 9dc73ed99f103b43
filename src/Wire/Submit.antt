-- ===== src/Wire/Submit.antt =====
-- IPCClient::submit with the server's handleSubmit at the other end.
use myqueue.Prelude.{◌^◌, ◌<◌, ◌≡◌, refl, ap, Bool, true, false, Option, none, some, List, ℕ}
use myqueue.Prelude.Text.{Bytes, text, text_eq}
use myqueue.Json.{Json, JsonLaws, err, parse_error}
use myqueue.Config.{Config}
use myqueue.Queue.{SubmitRequest}
use myqueue.Protocol.{
  submit_message, ok_message, submit_request_value, submit_request_to_json, required,
}
use myqueue.Protocol.RoundTrip.{submit_request_back, required_read}
use myqueue.Protocol.Responses.{submit_response_from_json}
use myqueue.Ipc.{Delivery}
use myqueue.Ipc.Client.{ask, answer_of, client_submit}
use myqueue.Scheduler.{Env}
use myqueue.Server.{Submitted, script_not_found, workdir_not_found, task_id, handle_submit}
use myqueue.Server.Dispatch.{
  Daemon, in_daemon, Outside, submitted_value, success_value, answer_submit, handle_request,
}
use myqueue.Wire.{IsNetwork, Fits, over_wire, over_wire_lem}

-- The id that a response to a submission tells.
abbrev pub submitted_id : Submitted → Option ℕ
submitted_id (script_not_found path) = none
submitted_id (workdir_not_found path) = none
submitted_id (task_id id) = some id

-- An id of a response is in the range of uint64_t.
abbrev pub IdFits : Submitted → Type 0
IdFits (script_not_found path) = Unit
IdFits (workdir_not_found path) = Unit
IdFits (task_id id) = id < 2 ^ 64

module _ {Value : Type 0} (json : Json Value) (L : JsonLaws json) where
  pub success_object : (b : Bool) → json.is_object (success_value json b) ≡ true
  success_object b = L.is_object-set _ _ _ L.is_object-object

  submitted_object : (r : Submitted) → json.is_object (submitted_value json r) ≡ true
  unfolding submitted_value
  submitted_object (script_not_found path) = L.is_object-set _ _ _ (success_object false)
  submitted_object (workdir_not_found path) = L.is_object-set _ _ _ (success_object false)
  submitted_object (task_id id) = L.is_object-set _ _ _ (success_object true)

  submit_request_object :
      (req : SubmitRequest) → json.is_object (submit_request_value json req) ≡ true
  unfolding submit_request_value
  submit_request_object req = L.is_object-set _ _ _ (
      L.is_object-set _ _ _ (
        L.is_object-set _ _ _ (
          L.is_object-set _ _ _ (
            L.is_object-set _ _ _
              (L.is_object-set _ _ _ (L.is_object-set _ _ _ L.is_object-object))))))

  no_id :
      (v : Value)
      → json.at (text "task_id") v ≡ none
      → submit_response_from_json json (json.dump v) ≡ err parse_error
  unfolding submit_response_from_json required
  no_id v e = rw (L.parse-dump v, e, required) refl

  -- What the client reads in a response.
  submitted_read :
      (r : Submitted)
      → IdFits r
      → (elim (answer_of
          (submit_response_from_json json)
          (some (ok_message, json.dump (submitted_value json r)))) [
            | none ↦ none
            | some a ↦ some a.task_id
          ])
        ≡ submitted_id r
  unfolding answer_of submitted_value submit_response_from_json text_eq
  submitted_read (script_not_found path) h =
      rw (no_id (submitted_value json (script_not_found path)) (simp (L.at-set, L.at-object))) refl
  submitted_read (workdir_not_found path) h =
      rw (no_id (submitted_value json (workdir_not_found path)) (simp (L.at-set, L.at-object))) refl
  submitted_read (task_id id) h =
      let v = submitted_value json (task_id id) in
      rw
        (
          L.parse-dump v,
          required_read json L (text "task_id") json.get_uint v (json.of_uint id) id (simp L.at-set)
              (L.get_uint-of_uint id h),
        )
        refl

submit_served :
    {Value : Type 0} (env : Env Value) (config : Config) (outside : Outside) (req : SubmitRequest)
    (d : Daemon)
    → JsonLaws env.json
    → let (r, s') = handle_submit env outside.stat d.system req in
      handle_request env config outside submit_message (submit_request_to_json env.json req) d
      ≡ (env.json.dump (submitted_value env.json r), in_daemon d s')
unfolding handle_request answer_submit
submit_served env config outside req d L =
    rw (submit_request_back env.json req L, answer_submit) refl

-- A submission by a client that is connected ends as handleSubmit ends on the server: the client gets the
-- id of the new task, or nothing if the server refused, and the server's state is the one that
-- handleSubmit leaves. The socket delivers every byte in order, however cut; the request and the response
-- fit in the limit on messages; an id is below 2^64; the JSON library keeps its laws.
pub client_submit_lem :
    {Value : Type 0} (env : Env Value) (config : Config) (outside : Outside)
    (cut : Bytes → List Delivery) (req : SubmitRequest) (d : Daemon)
    → JsonLaws env.json
    → IsNetwork cut
    → let (r, s') = handle_submit env outside.stat d.system req in
      Fits env.json submit_message (submit_request_to_json env.json req)
      → Fits env.json ok_message (env.json.dump (submitted_value env.json r))
      → IdFits r
      → client_submit env.json true (over_wire env config outside cut) req d
        ≡ (submitted_id r, in_daemon d s')
unfolding client_submit ask submit_request_to_json
client_submit_lem env config outside cut req d L network fits fits' small =
    let r = (handle_submit env outside.stat d.system req).0 in
    let s' = (handle_submit env outside.stat d.system req).1 in
    let v = submit_request_value env.json req in
    let served : handle_request env config outside submit_message (env.json.dump v) d
        ≡ (env.json.dump (submitted_value env.json r), in_daemon d s') =
      submit_served env config outside req d L in
    rw
      (over_wire_lem env config outside cut L network submit_message v (submitted_value env.json r)
        d (in_daemon d s') (submit_request_object env.json L req) (submitted_object env.json L r)
        served fits fits')
      (ap (λ (o : Option ℕ). (o, in_daemon d s')) (submitted_read env.json L r small))
