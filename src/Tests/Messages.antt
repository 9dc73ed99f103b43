-- ===== src/Tests/Messages.antt =====
-- The theorems on messages, applied.
use myqueue.Prelude.{refl, List, none, ◌++◌, ◌^◌, ◌≡◌, some, [], ◌∷◌, arith}
use myqueue.Prelude.Text.{Bytes}
use myqueue.Ipc.{Delivery, interrupted, arrived, frame, header, read_body}
use myqueue.Ipc.Framing.{sent, NoFailure, read_body-frame, read_body_refused}

-- Two bytes and their header in four deliveries with an interruption, and a byte of the next message.
abbrev cut_up : List Delivery
cut_up = arrived 0 (0 ∷ []) ∷ interrupted ∷ arrived 0 (2 ∷ 55 ∷ []) ∷ arrived 56 (9 ∷ []) ∷ []

abbrev two_bytes : Bytes
two_bytes = 55 ∷ 56 ∷ []

cut_up-sent : sent cut_up ≡ frame two_bytes ++ 9 ∷ []
unfolding frame header
cut_up-sent = refl

read_body-frame_example :
    (ds : List Delivery) × ((read_body cut_up ≡ some (two_bytes, ds))
      × ((sent ds ≡ 9 ∷ []) × NoFailure ds))
read_body-frame_example =
    read_body-frame cut_up two_bytes (9 ∷ []) tt cut_up-sent (omega arith) (omega arith)

-- A header that announces 2 ^ 31 bytes.
abbrev huge : List Delivery
huge = arrived 128 (0 ∷ 0 ∷ 0 ∷ 7 ∷ []) ∷ []

huge-sent : sent huge ≡ header (2 ^ 31) ++ 7 ∷ []
unfolding header
huge-sent = refl

read_body_refused_example : read_body huge ≡ none
read_body_refused_example = read_body_refused huge (2 ^ 31) (7 ∷ []) tt huge-sent (omega arith) refl
