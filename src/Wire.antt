-- ===== src/Wire.antt =====
-- The client and the server together: a request of src/ipc/ipc_client.cpp goes over the socket to one
-- round of handleClient in src/ipc/ipc_server.cpp, which calls the server's handler, and the response
-- comes back the same way.
pub mod Submit
pub mod Delete
pub mod Query
pub mod Commands
use myqueue.Prelude.{◌≤◌, ◌≡◌, refl, sym, ◌∙◌, true, Option, none, some, List, [], ◌++◌, length}
use mathlib.Core.List.{append-nil}
use myqueue.Prelude.Text.{Bytes}
use myqueue.Json.{Json, JsonLaws}
use myqueue.Config.{Config}
use myqueue.Protocol.{MsgType, ok_message}
use myqueue.Ipc.{Delivery, max_message_size}
use myqueue.Ipc.Framing.{sent, NoFailure}
use myqueue.Ipc.Envelope.{message_value, write_message, read_message, read_message-write_message}
use myqueue.Ipc.Client.{Exchange}
use myqueue.Scheduler.{Env}
use myqueue.Server.Dispatch.{Daemon, Outside, handle_request}

abbrev first {ℓ κ} : {A : Type ℓ} {B : Type κ} → Option (A × B) → Option A
first none = none
first (some (a, b)) = some a

-- How the socket delivers what is written: every byte in order, cut and interrupted in any way.
abbrev pub IsNetwork : (Bytes → List Delivery) → Type 0
IsNetwork cut = (bytes : Bytes) → (sent (cut bytes) ≡ bytes) × NoFailure (cut bytes)

module _ {Value : Type 0} (env : Env Value) (config : Config) (outside : Outside)
    (cut : Bytes → List Delivery) where
  -- One round of handleClient on a message that was read; no handler throws.
  unfoldable pub serve : MsgType × Bytes → Daemon → Bytes × Daemon
  serve (type, payload) d =
      let (response, d') = handle_request env config outside type payload d in
      (write_message env.json ok_message response, d')

  -- `sendRequest` with the server at the other end.
  unfoldable pub over_wire : Exchange Daemon
  unfolding serve
  over_wire type payload d =
      elim (read_message env.json (cut (write_message env.json type payload))) [
        | none ↦ (none, d)
        | some (request, rest) ↦
            let (response, d') = serve request d in
            (first (read_message env.json (cut response)), d')
      ]

-- What is written as one message fits in the limit on messages.
abbrev pub Fits : {Value : Type 0} → Json Value → MsgType → Bytes → Type 0
Fits json type payload = length (json.dump (message_value json type payload)) ≤ max_message_size

module _ {Value : Type 0} (env : Env Value) (config : Config) (outside : Outside)
    (cut : Bytes → List Delivery) (L : JsonLaws env.json) (network : IsNetwork cut) where
  arrives :
      (type : MsgType) (v : Value)
      → env.json.is_object v ≡ true
      → Fits env.json type (env.json.dump v)
      → (rest : List Delivery) × (read_message env.json
            (cut (write_message env.json type (env.json.dump v)))
          ≡ some ((type, env.json.dump v), rest))
  arrives type v o fits =
      let bytes = write_message env.json type (env.json.dump v) in
      let (ds, (r, left)) =
        read_message-write_message env.json L (cut bytes) type v [] (network bytes).1
          ((network bytes).0 ∙ sym (append-nil bytes)) o fits in
      (ds, r)

  -- A request that is an object and a response that is one come over whole.
  pub over_wire_lem :
      (type : MsgType) (v w : Value) (d d' : Daemon)
      → env.json.is_object v ≡ true
      → env.json.is_object w ≡ true
      → handle_request env config outside type (env.json.dump v) d ≡ (env.json.dump w, d')
      → Fits env.json type (env.json.dump v)
      → Fits env.json ok_message (env.json.dump w)
      → over_wire env config outside cut type (env.json.dump v) d
        ≡ (some (ok_message, env.json.dump w), d')
  unfolding over_wire serve
  over_wire_lem type v w d d' ov ow h fv fw =
      let (there, r) = arrives type v ov fv in
      let (back, r') = arrives ok_message w ow fw in rw (r, over_wire, h, r') refl
