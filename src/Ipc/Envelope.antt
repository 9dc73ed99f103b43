-- ===== src/Ipc/Envelope.antt =====
-- A message with its type and payload in JSON: readMessage and writeMessage of src/ipc/ipc_server.cpp,
-- and those of src/ipc/ipc_client.cpp, which are the same.
use myqueue.Prelude.{◌≤◌, ◌≡◌, refl, true, Option, none, some, List, ◌++◌, length, if◌then◌else◌}
use myqueue.Prelude.Text.{Bytes, text, text_eq}
use myqueue.Json.{Json, JsonLaws}
use myqueue.Protocol.{MsgType, msg_type_to_string, msg_type_from_string}
use myqueue.Protocol.RoundTrip.{msg_type_from_string_iff}
use myqueue.Ipc.{Delivery, max_message_size, frame, read_body}
use myqueue.Ipc.Framing.{sent, NoFailure, read_body-frame}

module _ {Value : Type 0} (json : Json Value) where
  -- The payload as JSON, or as a string if it is none.
  unfoldable pub payload_value : Bytes → Value
  payload_value payload = elim (json.parse payload) [ some v ↦ v | none ↦ json.of_text payload ]

  unfoldable pub message_value : MsgType → Bytes → Value
  message_value type payload =
      json.set (text "payload") (payload_value payload)
        (json.set (text "type") (json.of_text (msg_type_to_string type)) json.object)

  unfoldable pub write_message : MsgType → Bytes → Bytes
  write_message type payload = frame (json.dump (message_value type payload))

  -- `none` is an exception, or the missing type.
  unfoldable pub message_type : Value → Option MsgType
  message_type j = elim (json.at (text "type") j) [
    | none ↦ none
    | some t ↦ elim (json.get_text t) [ none ↦ none | some name ↦ msg_type_from_string name ]
  ]

  -- The payload of a message: the text of a string, the JSON of any other value, "{}" if there is none.
  unfoldable pub message_payload : Value → Option Bytes
  message_payload j = elim (json.at (text "payload") j) [
    | none ↦ some (text "{}")
    | some v ↦ if json.is_string v then json.get_text v else some (json.dump v)
  ]

  abbrev both : Option MsgType → Option Bytes → Option (MsgType × Bytes)
  both none p = none
  both (some t) none = none
  both (some t) (some p) = some (t, p)

  unfoldable pub parse_message : Bytes → Option (MsgType × Bytes)
  unfolding message_type message_payload
  parse_message message = elim (json.parse message) [
    | none ↦ none
    | some j ↦ both (message_type j) (message_payload j)
  ]

  -- `none` closes the connection.
  unfoldable pub read_message : List Delivery → Option ((MsgType × Bytes) × List Delivery)
  unfolding parse_message
  read_message ds = elim (read_body ds) [
    | none ↦ none
    | some (message, ds') ↦ elim (parse_message message) [ none ↦ none | some m ↦ some (m, ds') ]
  ]

module _ {Value : Type 0} (json : Json Value) (L : JsonLaws json) where
  message_type_back :
      (type : MsgType) (payload : Bytes)
      → message_type json (message_value json type payload) ≡ some type
  unfolding message_type message_value text_eq
  message_type_back type payload =
      let j = message_value json type payload in
      let name = json.of_text (msg_type_to_string type) in
      let e : json.at (text "type") j ≡ some name = simp L.at-set in
      rw (e, message_type, L.get_text-of_text (msg_type_to_string type))
        ((msg_type_from_string_iff (msg_type_to_string type) type).1 refl)

  message_payload_back :
      (type : MsgType) (v : Value)
      → json.is_object v ≡ true
      → message_payload json (message_value json type (json.dump v)) ≡ some (json.dump v)
  unfolding message_payload message_value payload_value text_eq
  message_payload_back type v o =
      let j = message_value json type (json.dump v) in
      let p : payload_value json (json.dump v) ≡ v = rw (L.parse-dump v, payload_value) refl in
      let e : json.at (text "payload") j ≡ some v = simp (L.at-set, p) in
      rw (e, message_payload, L.is_string_of-is_object v o) refl

  parse_message_back :
      (type : MsgType) (v : Value)
      → json.is_object v ≡ true
      → parse_message json (json.dump (message_value json type (json.dump v)))
        ≡ some (type, json.dump v)
  unfolding parse_message
  parse_message_back type v o =
      rw
        (
          L.parse-dump (message_value json type (json.dump v)),
          parse_message,
          message_type_back type (json.dump v),
          message_payload_back type v o,
        )
        refl

  -- A message whose payload is a JSON object is read as it was written, with what follows it left to
  -- read, however the socket cuts it, if it is no longer than the limit. The JSON library keeps its laws.
  pub read_message-write_message :
      (ds : List Delivery) (type : MsgType) (v : Value) (rest : Bytes)
      → NoFailure ds
      → sent ds ≡ write_message json type (json.dump v) ++ rest
      → json.is_object v ≡ true
      → length (json.dump (message_value json type (json.dump v))) ≤ max_message_size
      → (ds' : List Delivery) × ((read_message json ds ≡ some ((type, json.dump v), ds'))
          × ((sent ds' ≡ rest) × NoFailure ds'))
  unfolding read_message write_message message_value
  read_message-write_message ds type v rest h e o fits =
      let message = json.dump (message_value json type (json.dump v)) in
      let (ds', (r, left)) = read_body-frame ds message rest h e (L.dump_some _ _ _) fits in
      (ds', (rw (r, read_message, parse_message_back type v o) refl, left))
