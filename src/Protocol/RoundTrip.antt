-- ===== src/Protocol/RoundTrip.antt =====
-- The texts of protocol.cpp read back.
use myqueue.Prelude.{◌^◌, ◌<◌, ◌≡◌, ◌↔◌, refl, ap, ◌∙◌, Option, some, [], All, arith}
use myqueue.Prelude.Int.{pos}
use myqueue.Prelude.Text.{Bytes, text, text_eq, text_eq_iff}
use myqueue.Json.{Json, JsonLaws, ok}
use myqueue.Queue.{SubmitRequest}
use myqueue.Protocol.{
  MsgType, submit_message, query_queue_message, delete_task_message, shutdown_message,
  delete_all_message, query_queue_all_message, get_task_info_message, get_task_log_message,
  ok_message, error_message, msg_type_to_string, msg_type_from_string, DeleteRequest,
  submit_request_value, submit_request_to_json, submit_request_from_json, submit_request_of,
  required, value_or, delete_request_to_json, delete_request_from_json,
}

msg_type_read : (type : MsgType) → msg_type_from_string (msg_type_to_string type) ≡ some type
unfolding msg_type_from_string msg_type_to_string text_eq
msg_type_read submit_message = refl
msg_type_read query_queue_message = refl
msg_type_read delete_task_message = refl
msg_type_read shutdown_message = refl
msg_type_read delete_all_message = refl
msg_type_read query_queue_all_message = refl
msg_type_read get_task_info_message = refl
msg_type_read get_task_log_message = refl
msg_type_read ok_message = refl
msg_type_read error_message = refl

msg_type_names :
    (str : Bytes) (type : MsgType)
    → msg_type_from_string str ≡ some type
    → str ≡ msg_type_to_string type
unfolding msg_type_from_string msg_type_to_string
msg_type_names str type h = ground (
  arith,
  text_eq_iff str (text "SUBMIT"),
  text_eq_iff str (text "QUERY_QUEUE"),
  text_eq_iff str (text "DELETE_TASK"),
  text_eq_iff str (text "SHUTDOWN"),
  text_eq_iff str (text "DELETE_ALL"),
  text_eq_iff str (text "QUERY_QUEUE_ALL"),
  text_eq_iff str (text "GET_TASK_INFO"),
  text_eq_iff str (text "GET_TASK_LOG"),
  text_eq_iff str (text "OK"),
  text_eq_iff str (text "ERROR"),
)

-- A text is read as a message type exactly when it is that type's name.
pub msg_type_from_string_iff :
    (str : Bytes) (type : MsgType)
    → (msg_type_from_string str ≡ some type) ↔ (str ≡ msg_type_to_string type)
msg_type_from_string_iff str type =
    (msg_type_names str type, λ e. ap msg_type_from_string e ∙ msg_type_read type)

module _ {Value : Type 0} (json : Json Value) (L : JsonLaws json) where
  pub required_read :
      {A : Type 0} (key : Bytes) (get : Value → Option A) (j v : Value) (a : A)
      → json.at key j ≡ some v
      → get v ≡ some a
      → required json key get j ≡ ok a
  unfolding required
  required_read key get j v a e g = ground arith

  pub value_or_read :
      {A : Type 0} (key : Bytes) (get : Value → Option A) (default : A) (j v : Value) (a : A)
      → json.at key j ≡ some v
      → get v ≡ some a
      → value_or json key get default j ≡ ok a
  unfolding value_or
  value_or_read key get default j v a e g = ground arith

  submit_request_of-value :
      (req : SubmitRequest) → submit_request_of json (submit_request_value json req) ≡ ok req
  unfolding submit_request_of submit_request_value text_eq
  submit_request_of-value req =
      let v = submit_request_value json req in
      rw (
        required_read (text "script_path") json.get_text v (json.of_text req.script_path)
            req.script_path (simp L.at-set) (L.get_text-of_text req.script_path),
        required_read (text "workdir") json.get_text v (json.of_text req.workdir) req.workdir
            (simp L.at-set) (L.get_text-of_text req.workdir),
        value_or_read (text "ncpu") json.get_int (pos 1) v (json.of_int req.ncpu) req.ncpu
            (simp L.at-set) (L.get_int-of_int req.ncpu),
        value_or_read (text "ngpu") json.get_int (pos 1) v (json.of_int req.ngpu) req.ngpu
            (simp L.at-set) (L.get_int-of_int req.ngpu),
        value_or_read (text "specific_cpus") json.get_ints [] v (json.of_ints req.specific_cpus)
            req.specific_cpus (simp L.at-set) (L.get_ints-of_ints req.specific_cpus),
        value_or_read (text "specific_gpus") json.get_ints [] v (json.of_ints req.specific_gpus)
            req.specific_gpus (simp L.at-set) (L.get_ints-of_ints req.specific_gpus),
        value_or_read (text "log_file") json.get_text [] v (json.of_text req.log_file) req.log_file
            (simp L.at-set) (L.get_text-of_text req.log_file),
      )

-- A submission read back from its own JSON is the same. The JSON library keeps its laws.
pub submit_request_back :
    {Value : Type 0} (json : Json Value) (req : SubmitRequest)
    → JsonLaws json
    → submit_request_from_json json (submit_request_to_json json req) ≡ ok req
unfolding submit_request_from_json submit_request_to_json
submit_request_back json req L =
    rw (L.parse-dump (submit_request_value json req)) (submit_request_of-value json L req)

-- A deletion of ids below 2^64, read back from its own JSON, is the same. The JSON library keeps its
-- laws.
pub delete_request_back :
    {Value : Type 0} (json : Json Value) (req : DeleteRequest)
    → JsonLaws json
    → All (λ n. n < 2 ^ 64) req.task_ids
    → delete_request_from_json json (delete_request_to_json json req) ≡ ok req
unfolding delete_request_from_json delete_request_to_json text_eq
delete_request_back json req L room =
    let v = json.set (text "task_ids") (json.of_uints req.task_ids) json.object in
    rw (
      L.parse-dump v,
      required_read json L (text "task_ids") json.get_uints v (json.of_uints req.task_ids)
          req.task_ids (simp L.at-set) (L.get_uints-of_uints req.task_ids room),
    )
