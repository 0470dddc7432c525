-- ===== src/Clients/Sender/Pipeline.antt =====
-- The pipeline of clients/sender_1/src/main.rs: the semaphore, the messages that wait for an
-- acknowledgement, the channel of the results, the task that reads the answers, and the loop that
-- sends. What the sender does for one message, and the reader for one line, is one step.
pub mod Balance
pub mod Bounds
use text.Mathlib.Text.{starts_with}
use cipher_mq.Common.{
  ℕ, zero, suc, ◌+◌, ◌*◌, ◌-◌, ◌<◌, ◌≡◌, String, Bool, true, false, Option, none, some, List, [],
  ◌∷◌, ◌++◌, if◌then◌else◌, ltb, length, Table, insert, remove, format, strip_prefix, trim,
}
use cipher_mq.Clients.Sender.{EncryptedMessage}

pub data AckResult : Type 0 where
  acked : String → AckResult
  server_error : String → AckResult
  unrecognised : String → AckResult
  io_error : String → AckResult

-- `held` is a result that the reader has and the full channel does not take yet.
pub record Pipeline : Type 0 where
  pub permits : ℕ
  pub capacity : ℕ
  pub pending : Table EncryptedMessage
  pub results : List AckResult
  pub held : Option AckResult
  pub sent_count : ℕ
  pub failed_ids : List String

unfoldable pub start : ℕ → Pipeline
start max_inflight = record {
  permits = max_inflight;
  capacity = max_inflight * 2;
  pending = [];
  results = [];
  held = none;
  sent_count = 0;
  failed_ids = [];
}

-- The command for a message; `payload` is its JSON.
abbrev pub publish_command : String → String → String → String
publish_command exchange routing_key payload =
    format ("publish " ∷ exchange ∷ " " ∷ routing_key ∷ " " ∷ payload ∷ "\n" ∷ [])

-- One message of the loop, once the semaphore gave a permit: whether it was written and flushed. A
-- message that was not gives back its permit twice, with `add_permits` and when it is dropped; one that
-- was keeps it.
unfoldable pub send_one : Bool → EncryptedMessage → Pipeline → Pipeline
send_one written em s =
    let kept = insert em.message_id em s.pending in
    if written
    then record s { permits = s.permits - 1; pending = kept; sent_count = s.sent_count + 1 }
    else record s {
      permits = s.permits + 1;
      pending = remove em.message_id kept;
      failed_ids = s.failed_ids ++ em.message_id ∷ [];
    }

-- What the reader makes of a line.
unfoldable pub result_of : String → AckResult
unfolding strip_prefix
result_of response = elim (strip_prefix "ACK " response) [
  | some id ↦ acked id
  | none ↦ if starts_with response "Error:" then server_error response else unrecognised response
]

-- Puts a result into the channel, or waits with it.
unfoldable pub put : AckResult → Pipeline → Pipeline
put result s =
    if ltb (length s.results) s.capacity
    then record s { results = s.results ++ result ∷ [] }
    else record s { held = some result }

unfoldable pub settle : AckResult → Pipeline → Pipeline
settle (acked id) s = record s { permits = s.permits + 1; pending = remove id s.pending }
settle _ s = s

-- The answer of a read: an acknowledgement is settled, and every result goes to the channel.
unfoldable pub read_result : AckResult → Pipeline → Pipeline
unfolding settle put
read_result result s = put result (settle result s)

abbrev pub read_line : String → Pipeline → Pipeline
read_line line = read_result (result_of (trim line))

-- The loop of `try_recv`, between batches; it also takes a result that the reader held.
unfoldable pub drain : Pipeline → Pipeline
drain s = record s { results = []; held = none }

-- What can happen while the messages of one batch are sent: the loop waits without a permit, and the
-- reader while it holds a result. A read that fails is the reader's last, one that times out or finds the
-- end changes nothing.
pub data Step (s : Pipeline) (t : Pipeline) : Type 0 where
  sends :
      (written : Bool) (em : EncryptedMessage)
      → 0 < s.permits
      → t ≡ send_one written em s
      → Step s t
  hears : (line : String) → s.held ≡ none → t ≡ read_line line s → Step s t
  breaks : (e : String) → s.held ≡ none → t ≡ read_result (io_error e) s → Step s t

-- The states that a batch goes through.
pub data Reach (s : Pipeline) : Pipeline → Type 0 where
  here : Reach s s
  next : {t u : Pipeline} → Reach s t → Step t u → Reach s u
