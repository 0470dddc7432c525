-- ===== src/Tests/Clients.antt =====
-- Runs of the clients (clients/sender_1/src/main.rs and clients/receiver_1/src/main.rs).
use cipher_mq.Common.{
  ℕ, zero, suc, ◌+◌, ◌*◌, ◌≤◌, ◌<◌, ◌≡◌, refl, String, Bool, true, false, Option, none, some, List,
  [], ◌∷◌, ◌++◌, map, length, trim, if◌then◌else◌, eqb, ltb, Distinct, Result, ok, err, arith,
}
use cipher_mq.Clients.Primitives.{Bytes, Primitives, Laws}
use cipher_mq.Clients.Sender.{Random, PlainMessage, EncryptedMessage, encrypt_message}
use cipher_mq.Clients.Receiver.{
  EncryptedEnvelope, Receiver, fresh, Round, continues, Read, times_out, ends, gives, writer_ended,
  decrypt_message, round, receive_loop,
}
use cipher_mq.Clients.Receiver.Once.{id_of, IsFront, receive_loop-once}
use cipher_mq.Clients.Receiver.Handshake.{Config}
use cipher_mq.Clients.Receiver.Writer.{
  StoredRecord, Event, received, closed, elapsed, BufWriter, Writer, process_messages_task,
}
use cipher_mq.Clients.Receiver.Writer.Complete.{IsComplete, process_messages_task-IsComplete}
use cipher_mq.Clients.Receiver.Reconnect.{
  Attempt, tcp_fails, tls_fails, connects, Client, connection_loop, connection_loop-once,
}
use cipher_mq.Clients.Sender.Pipeline.{
  Pipeline, start, publish_command, send_one, read_line, sends, hears, Reach, here, next,
}
use cipher_mq.Clients.Sender.Pipeline.Bounds.{sent_count-bound}
use cipher_mq.Clients.Sender.Pipeline.Balance.{acks_of}
use cipher_mq.Clients.Sender.Batches.{
  batches, numbers, sent_until, concat, IsChunked, concat-batches,
}
use cipher_mq.Clients.Wire.{process_request-publish_command, round-message_line}
use cipher_mq.RateLimiter.{check}
use cipher_mq.Server.Requests.{handle_publish}
use cipher_mq.Server.Dispatch.{no_task, heard, process_request}
use cipher_mq.Server.Lifecycle.{message_line}
use cipher_mq.Clients.RoundTrip.{envelope_of}
use cipher_mq.Tests.Broker.{api}
use cipher_mq.Tests.Rules.{whole}
use cipher_mq.Tests.Connections.{json, server, session, clock}
use cipher_mq.Tests.Primitives.{
  primitives, laws, key_bytes, codes, from_codes, attach, char_of, is_scalar,
}
use cipher_mq.Tests.Layers.{write, read_from, strokes, push, tag_bytes, drop}

abbrev pub random : Random
random = record {
  epk_secret = 5 ∷ [];
  session_key = key_bytes 9;
  nonce_bytes = 1 ∷ 2 ∷ 3 ∷ 4 ∷ 5 ∷ 6 ∷ 7 ∷ 8 ∷ 9 ∷ 10 ∷ 11 ∷ 12 ∷ [];
}

abbrev pub greeting : PlainMessage
greeting = record {
  correlation_id = "c1";
  sender_id = "alice";
  sent_timestamp = "1.000";
  content = "hi";
}

abbrev pub private_key : Bytes
private_key = 7 ∷ []

abbrev pub public_key : String
public_key = primitives.encode (primitives.public_of private_key)

abbrev pub encrypted : EncryptedMessage
encrypted = record {
  message_id = "alice-c1-bob";
  receiver_client_id = "bob";
  enc_session_key = primitives.encode (key_bytes 5 ++ tag_bytes ++ key_bytes 9);
  nonce = primitives.encode random.nonce_bytes;
  ciphertext = primitives.encode (tag_bytes ++ codes "hi");
  sent_time = "t1";
  routing_key = "bob_key";
}

pub key_decodes : primitives.decode (trim public_key) ≡ ok (primitives.public_of private_key)
unfolding read_from trim write strokes push
key_decodes = refl

pub greeting_encrypts :
    encrypt_message primitives random "t1" greeting public_key "bob" "bob_key" ≡ ok encrypted
unfolding encrypt_message read_from trim write strokes push
greeting_encrypts = refl

abbrev payload : String
payload = "{}"

-- A parser that knows one message.
abbrev pub from_str : String → Result String EncryptedEnvelope
from_str text = ok (envelope_of encrypted)

round-message_line_example :
    round primitives from_str private_key (gives (message_line "m1" payload)) fresh ≡ (
      continues,
      record fresh { processed = "m1" ∷ []; messages = ("m1", "hi") ∷ []; acks = "m1" ∷ [] },
    )
unfolding cipher_mq.Common.is_word cipher_mq.Common.is_whitespace cipher_mq.Common.ends_solid
round-message_line_example =
    round-message_line primitives laws from_str random "t1" greeting public_key "bob" "bob_key"
      private_key encrypted "m1" payload fresh key_decodes refl refl greeting_encrypts refl refl
      refl refl refl refl

process_request-publish_command_example :
    process_request api json whole session clock (publish_command "mail" "news" payload) server
    ≡ no_task (
        handle_publish api json session clock
          ("mail" ∷ "news" ∷ payload ∷ [])
          (record (heard session clock server) {
            rate_limiter = (check whole session.client_id true clock.now server.rate_limiter).1;
          }))
unfolding cipher_mq.Common.is_word cipher_mq.Common.is_whitespace cipher_mq.Common.ends_solid
    cipher_mq.Acl.check_command check cipher_mq.Common.get cipher_mq.RateLimiter.new
process_request-publish_command_example =
    process_request-publish_command api json whole session clock "mail" "news" payload server refl
      refl refl refl refl

-- A line that comes twice, with others around it; the writer ends before the last message.
abbrev heard_lines : List Read
heard_lines =
    gives "\n"
    ∷ gives (message_line "m1" payload)
    ∷ times_out
    ∷ gives (message_line "m1" payload)
    ∷ gives (message_line "m2" payload)
    ∷ writer_ended
    ∷ gives (message_line "m3" payload)
    ∷ ends
    ∷ []

receive_loop-once_example :
    let r = (receive_loop primitives from_str private_key heard_lines fresh).1 in
    Distinct r.processed
    × IsFront r.writer_open (map id_of r.messages) r.processed
    × IsFront r.acks_open r.acks r.processed
receive_loop-once_example = receive_loop-once primitives from_str private_key heard_lines

-- The last message is acknowledged and not written.
acked_unwritten :
    let r = (receive_loop primitives from_str private_key heard_lines fresh).1 in
    (r.acks ≡ "m1" ∷ "m2" ∷ "m3" ∷ []) × (map id_of r.messages ≡ "m1" ∷ "m2" ∷ [])
unfolding receive_loop cipher_mq.Clients.Receiver.after_send
    cipher_mq.Clients.Receiver.handle_parsed cipher_mq.Clients.Receiver.parse_line
    cipher_mq.Common.strip_prefix trim cipher_mq.Common.splitn read_from write strokes push codes
    drop cipher_mq.Clients.Primitives.split_at from_codes attach char_of is_scalar
    cipher_mq.Clients.Receiver.accept decrypt_message cipher_mq.Clients.Receiver.open_box
    cipher_mq.Clients.Receiver.process_decrypted cipher_mq.Clients.Receiver.process_envelope round
    cipher_mq.Common.is_blank cipher_mq.Common.is_whitespace cipher_mq.Common.split_space
    cipher_mq.Common.trim_end cipher_mq.Common.trim_start
acked_unwritten = (refl, refl)

abbrev stored : String → StoredRecord
stored id = record { message_id = id; message = "hi"; timestamp = 1 }

abbrev to_string : StoredRecord → Result String String
to_string entry = ok entry.message_id

abbrev found : List Event
found =
    received (stored "m1")
    ∷ elapsed true
    ∷ received (stored "m2")
    ∷ closed
    ∷ received (stored "m3")
    ∷ []

-- A buffered writer whose second call fails and writes nothing: the texts that it took, and its calls.
abbrev disk : BufWriter (List String × ℕ)
disk = record {
  write_all = λ text (taken, n).
      if eqb n 1 then (err "disk full", (taken, n + 1)) else (ok tt, (taken ++ text ∷ [], n + 1));
  flush = λ (taken, n). (ok tt, (taken, n + 1));
}

process_messages_task-IsComplete_example :
    (ended : Bool) × (w : Writer (List String × ℕ)) × (process_messages_task disk to_string true
        (some ([], 0))
        found
      ≡ some (ended, w))
    × IsComplete disk to_string found ([], 0) ended w
process_messages_task-IsComplete_example =
    process_messages_task-IsComplete disk to_string found ([], 0)

abbrev client : Client
client = record { running = true; attempts = 0; receiver = fresh; crashed = false }

abbrev config : Config
config = record {
  server_address = "localhost";
  server_port = 5672;
  queue_name = "bob_queue";
  exchange_name = "mail";
  routing_key = "bob";
}

abbrev answers : String → Result String String
answers cmd = ok "Public key registered\n"

abbrev takes : String → Result String (Unit {0})
takes cmd = ok tt

-- The second connection answers about the key and then breaks.
abbrev failures : List Attempt
failures = tcp_fails true ∷ connects answers (λ _. err "gone") (ok (1 ∷ [])) [] true ∷ []

connection_loop-once_example :
    let done =
      connection_loop primitives from_str config private_key
        (failures ++ connects answers takes (ok (1 ∷ [])) heard_lines true ∷ tls_fails true ∷ [])
        client in
    (done.running ≡ false) × (done.attempts ≡ 3)
unfolding cipher_mq.Clients.Receiver.Handshake.handshake trim
connection_loop-once_example =
    connection_loop-once primitives from_str config private_key failures answers takes (ok (1 ∷ []))
      true heard_lines true (tls_fails true ∷ []) client refl (refl, (refl, tt)) refl

-- One message may be in flight: it is sent and acknowledged, and the next one cannot be written.
abbrev sent_one : Pipeline
sent_one = send_one true encrypted (start 1)

abbrev acked_one : Pipeline
acked_one = read_line "ACK alice-c1-bob\n" sent_one

abbrev failed_one : Pipeline
failed_one = send_one false encrypted acked_one

a_permit : 0 < 1
a_permit = omega arith

in_one_batch : Reach (start 1) failed_one
unfolding start send_one trim cipher_mq.Clients.Sender.Pipeline.read_result
    cipher_mq.Clients.Sender.Pipeline.result_of
in_one_batch =
    next
      (next (next here (sends true encrypted a_permit refl)) (hears "ACK alice-c1-bob\n" refl refl))
      (sends false encrypted a_permit refl)

starts_empty : length (start 1).results ≤ (start 1).capacity
unfolding start
starts_empty = ground arith

sent_count-bound_example :
    (failed_one.permits + failed_one.sent_count + length (start 1).failed_ids + acks_of (start 1)
      ≡ (start 1).permits
        + (start 1).sent_count
        + length failed_one.failed_ids
        + acks_of failed_one)
    × (failed_one.sent_count + length (start 1).failed_ids
        ≤ (start 1).sent_count
          + (start 1).permits
          + (start 1).capacity
          + 1
          + length failed_one.failed_ids)
sent_count-bound_example = sent_count-bound (start 1) failed_one starts_empty in_one_batch

-- The fifth message waits for a permit in vain.
abbrev four : ℕ → Bool
four n = ltb n 5

concat-batches_example :
    let (sent, all_sent) = batches four 6 2 6 0 in
    (Path (List ℕ × Bool) (concat sent, all_sent) (sent_until four (numbers 0 6)))
    × IsChunked 2 sent
concat-batches_example = concat-batches four 6 2 6 0 (omega arith) (omega arith) (omega arith)

unfold_batches : batches (λ n. true) 5 2 5 0 ≡ ((1 ∷ 2 ∷ []) ∷ (3 ∷ 4 ∷ []) ∷ (5 ∷ []) ∷ [], true)
unfolding batches
unfold_batches = refl
