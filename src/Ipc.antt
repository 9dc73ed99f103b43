-- ===== src/Ipc.antt =====
-- The framing of messages on the socket: readExact, readMessage and writeMessage of
-- src/ipc/ipc_server.cpp. What read gives is a list of deliveries; its end is the closed connection.
pub mod Framing
pub mod Envelope
pub mod Client
use myqueue.Prelude.{
  ℕ, zero, suc, ◌+◌, ◌-◌, ◌*◌, ◌/◌, ◌%◌, ◌^◌, Bool, true, false, ◌||◌, Option, none, some, List, [],
  ◌∷◌, ◌++◌, length, take, drop, if◌then◌else◌, ltb, leb, ◌==◌,
}
use myqueue.Prelude.Text.{Bytes}

-- A read that is interrupted, one that fails, and one that finds bytes, of which there is at least one.
-- A read of fewer bytes than are there leaves the rest.
pub data Delivery : Type 0 where
  interrupted : Delivery
  failure : Delivery
  arrived : ℕ → Bytes → Delivery

abbrev pub put_back : Bytes → List Delivery → List Delivery
put_back [] ds = ds
put_back (b ∷ bs) ds = arrived b bs ∷ ds

abbrev pub with_front : Bytes → Option (Bytes × List Delivery) → Option (Bytes × List Delivery)
with_front front none = none
with_front front (some (bytes, ds)) = some (front ++ bytes, ds)

-- `n` bytes and what is left to read.
unfoldable pub read_exact : List Delivery → ℕ → Option (Bytes × List Delivery)
read_exact ds zero = some ([], ds)
read_exact [] (suc n) = none
read_exact (interrupted ∷ ds) (suc n) = read_exact ds (suc n)
read_exact (failure ∷ ds) (suc n) = none
read_exact (arrived b bs ∷ ds) (suc n) =
    let more = read_exact ds (suc n - length (b ∷ bs)) in
    if leb (length (b ∷ bs)) (suc n)
    then with_front (b ∷ bs) more
    else some (take (suc n) (b ∷ bs), put_back (drop (suc n) (b ∷ bs)) ds)

-- What write does with the bytes that are left: it is interrupted, fails, or takes some of them, maybe
-- none.
pub data Acceptance : Type 0 where
  write_interrupted write_failure : Acceptance
  wrote : ℕ → Acceptance

-- The result of writeExact and the bytes that went out. When the list of answers is at its end, the
-- socket is closed and write fails.
unfoldable pub write_exact : List Acceptance → Bytes → Bool × Bytes
write_exact ws [] = (true, [])
write_exact [] (b ∷ bs) = (false, [])
write_exact (write_interrupted ∷ ws) (b ∷ bs) = write_exact ws (b ∷ bs)
write_exact (write_failure ∷ ws) (b ∷ bs) = (false, [])
write_exact (wrote n ∷ ws) (b ∷ bs) =
    let (done, out) = write_exact ws (drop n (b ∷ bs)) in (done, take n (b ∷ bs) ++ out)

-- htonl and ntohl on the four bytes of the header.
unfoldable pub header : ℕ → Bytes
header n = (n / 2 ^ 24 % 256) ∷ (n / 2 ^ 16 % 256) ∷ (n / 2 ^ 8 % 256) ∷ (n % 256) ∷ []

unfoldable pub length_of : Bytes → ℕ
length_of [] = 0
length_of (a ∷ []) = 0
length_of (a ∷ b ∷ []) = 0
length_of (a ∷ b ∷ c ∷ []) = 0
length_of (a ∷ b ∷ c ∷ d ∷ s) = a * 2 ^ 24 + b * 2 ^ 16 + c * 2 ^ 8 + d

abbrev pub max_message_size : ℕ
max_message_size = 16 * 1024 * 1024

-- What writeMessage sends for a message, when every write succeeds. The size is cut to a uint32_t.
unfoldable pub frame : Bytes → Bytes
frame message = header (length message % 2 ^ 32) ++ message

-- The body that readMessage reads; `none` is its failure before the body is parsed.
unfoldable pub read_body : List Delivery → Option (Bytes × List Delivery)
read_body ds = elim (read_exact ds 4) [
  | none ↦ none
  | some (bytes, ds') ↦
      let body = read_exact ds' (length_of bytes) in
      if length_of bytes == 0 || ltb max_message_size (length_of bytes) then none else body
]
