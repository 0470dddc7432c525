-- ===== src/Clients/Sender/Retries.antt =====
-- What the sender does behind its last batch: it waits for the acknowledgements that are missing, and sends
-- the messages without one again. The last part of `send_messages_async_pipeline` of
-- clients/sender_1/src/main.rs.
use cipher_mq.Common.{
  ℕ, zero, suc, ◌+◌, ◌^◌, String, Bool, true, false, List, [], ◌∷◌, ◌==◌, if◌then◌else◌, ltb, Table,
  length,
}
use cipher_mq.Clients.Sender.{EncryptedMessage}
use cipher_mq.Clients.Sender.Pipeline.{AckResult, acked, io_error}

-- What the wait finds within 100 milliseconds: the messages that are still pending, the time that is gone,
-- and what the channel gave.
pub data Heard : Type 0 where
  result : AckResult → Heard
  closed elapsed : Heard

abbrev pub stops_wait : Heard → Bool
stops_wait (result (io_error e)) = true
stops_wait (result r) = false
stops_wait closed = true
stops_wait elapsed = false

-- The rounds of the wait for the last acknowledgements: the pending messages where it stops, and whether
-- it did.
unfoldable pub wait_for_acks :
    ℕ
    → List (Table EncryptedMessage × ℕ × Heard)
    → Table EncryptedMessage
    → Bool × Table EncryptedMessage
wait_for_acks drain_timeout [] pending = (false, pending)
wait_for_acks drain_timeout ((now, gone, heard) ∷ rounds) pending =
    let rest = wait_for_acks drain_timeout rounds now in
    if ltb 0 (length now)
    then (if ltb drain_timeout gone
        then (true, now)
        else if stops_wait heard
        then (true, now)
        else rest)
    else (true, now)

-- One attempt to send a message again: the command is not written, nothing comes from the channel in
-- time, or a result does.
pub data Attempt : Type 0 where
  unwritten silent : Attempt
  answers : AckResult → Attempt

abbrev pub is_ack_of : String → Attempt → Bool
is_ack_of message_id (answers (acked id)) = id == message_id
is_ack_of message_id (answers r) = false
is_ack_of message_id unwritten = false
is_ack_of message_id silent = false

-- Whether a message got through, how many attempts were made, and how many seconds were slept behind
-- those that failed.
pub record Retried : Type 0 where
  pub success : Bool
  pub attempts : ℕ
  pub slept : ℕ

-- `left` attempts from `attempt` on.
unfoldable pub retry_from : (ℕ → Attempt) → String → ℕ → ℕ → Retried
retry_from outcome message_id zero attempt = record { success = false; attempts = 0; slept = 0 }
retry_from outcome message_id (suc left) attempt =
    let rest = retry_from outcome message_id left (attempt + 1) in
    if is_ack_of message_id (outcome attempt)
    then record { success = true; attempts = 1; slept = 0 }
    else record rest { attempts = rest.attempts + 1; slept = 2 ^ attempt + rest.slept }

abbrev pub retry : ℕ → (ℕ → Attempt) → String → Retried
retry max_retries outcome message_id = retry_from outcome message_id max_retries 0

-- The messages that got through on no attempt.
unfoldable pub final_failed : ℕ → (String → ℕ → Attempt) → List EncryptedMessage → ℕ
unfolding retry_from
final_failed max_retries outcome [] = 0
final_failed max_retries outcome (em ∷ unacked) =
    (if (retry max_retries (outcome em.message_id) em.message_id).success then 0 else 1)
    + final_failed max_retries outcome unacked
