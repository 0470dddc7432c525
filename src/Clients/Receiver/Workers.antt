-- ===== src/Clients/Receiver/Workers.antt =====
-- The two tasks that write on the connection of the receiver: `ack_sender_worker` and `heartbeat_task` of
-- clients/receiver_1/src/main.rs. The commands that were written are in front of the state.
use cipher_mq.Common.{String, Bool, true, false, List, [], ◌∷◌, ◌++◌, if◌then◌else◌, format}

-- What the worker finds within 500 milliseconds: an id and whether its command was written and flushed,
-- a closed channel, or nothing, and whether `running` was set before.
pub data Queued : Type 0 where
  queued : String → Bool → Queued
  closed elapsed : Queued

abbrev pub ack_command : String → String
ack_command message_id = format ("ack " ∷ message_id ∷ "\n" ∷ [])

-- One round, the commands that it wrote, and whether the loop goes on.
unfoldable pub ack_round : Queued → List String × Bool
ack_round (queued message_id written) =
    ((if written then ack_command message_id ∷ [] else []), written)
ack_round closed = ([], false)
ack_round elapsed = ([], true)

unfoldable pub ack_sender_worker : List (Bool × Queued) → List String
unfolding ack_round
ack_sender_worker [] = []
ack_sender_worker ((running, found) ∷ founds) =
    let (commands, goes_on) = ack_round found in
    let rest = ack_sender_worker founds in
    if running then commands ++ (if goes_on then rest else []) else []

-- Each round: `running` before the sleep and behind it, and whether the command was written.
unfoldable pub heartbeat_task : List (Bool × Bool × Bool) → List String
heartbeat_task [] = []
heartbeat_task ((before, behind, written) ∷ rounds) =
    let rest = heartbeat_task rounds in
    if before then (if behind then (if written then "heartbeat\n" ∷ rest else []) else []) else []
