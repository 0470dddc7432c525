-- ===== src/Tests/Broker.antt =====
-- Runs of the broker of server/src/state.rs on a database layer that counts its commands.
use cipher_mq.Common.{
  ◌≤◌, eq_iff, All-get, ℕ, ◌+◌, ◌≡◌, ◌≢◌, ◌↔◌, refl, inl, inr, String, Bool, true, false, Option,
  none, some, List, [], ◌∷◌, map, retain, ◌==◌, if◌then◌else◌, contains, Distinct, keys, Table, get,
  contains_key, get_elem?, eqb, All, Result, ok, err, length, arith, ◌++◌,
}
use mathlib.Core.Option
use cipher_mq.Storage.{StorageApi}
use cipher_mq.State.{
  EncryptedInputData, Entry, Channel, MessageStatus, ServerState, new, sent, delivered, without,
  set_or_empty,
}
use cipher_mq.State.Publish.{publish, duplicate}
use cipher_mq.State.Publish.Queues.{push_bounded, room_in}
use cipher_mq.State.Publish.Delivery.{
  is_bound, publish_enqueues_once, publish_refused, publish_succeeds_iff,
}
use cipher_mq.State.Publish.Outcome.{save_result}
use cipher_mq.State.Deliver.{
  deliver_pending, is_deliverable, register_consumer, acknowledge, pending,
}
use cipher_mq.State.Deliver.Acknowledge.{IsFree, acknowledge_removes}
use cipher_mq.State.Deliver.Pending.{register_consumer-deliver_pending}
use cipher_mq.State.Deliver.RoundTrip.{acknowledge-publish}
use cipher_mq.State.Deliver.Eviction.{evicted_is_lost}
use cipher_mq.State.Cleanup.{cleanup_old_messages, cleanup_dead_consumers}
use cipher_mq.State.Cleanup.Expiry.{
  expired_status, copies, cleanup_old_messages-selects, cleanup_old_messages-keeps,
}
use cipher_mq.State.Cleanup.Consumers.{kept_senders, get-cleanup_dead_consumers}
use cipher_mq.State.Invariant.{IsValid}
use cipher_mq.State.Invariant.Run.{
  Call, declares_queue, declares_exchange, binds, publishes, run, run-new-IsValid,
}

abbrev pub api : StorageApi ℕ
api = record {
  save_metadata = λ metadata n. (ok tt, n + 1);
  update_delivered_time_async = λ id time n. n + 1;
  update_acknowledged_time_async = λ id time n. n + 1;
  get_client_id_for_message = λ id n. (ok (some "alice"), n + 1);
  save_public_key = λ key n. (ok tt, n + 1);
  get_public_key = λ client_id n. (ok none, n + 1);
}

abbrev pub letter : String → EncryptedInputData
letter id = record {
  message_id = id;
  receiver_client_id = "bob";
  enc_session_key = "key";
  nonce = "nonce";
  ciphertext = "text";
}

abbrev pub setup : List Call
setup =
    declares_queue "inbox"
    ∷ declares_queue "copy"
    ∷ declares_exchange "mail"
    ∷ binds "inbox" "mail" "news"
    ∷ []

abbrev pub size : ℕ
size = 2

-- A broker with the queue `inbox` bound to `mail` under `news`.
abbrev pub bound : ServerState ℕ
bound = run api setup (new 0 size)

abbrev pub after : ServerState ℕ
after = (publish api "mail" "news" (letter "m1") "alice" 5 "t5" bound).1

publish_runs : publish api "mail" "news" (letter "m1") "alice" 5 "t5" bound ≡ (ok tt, after)
unfolding publish run get cipher_mq.State.Invariant.Run.perform cipher_mq.State.bind_queue
    cipher_mq.State.declare_exchange cipher_mq.State.declare_queue cipher_mq.Common.or_insert new
    cipher_mq.Common.insert
publish_runs = refl

pub valid : IsValid bound
valid = run-new-IsValid api 0 size setup

publish_enqueues_once_example :
    ((q : String)
      → get q after.queues ≡ (
          if is_bound bound q "mail" "news"
          then Option.map
              (push_bounded bound.max_queue_size ("m1", letter "m1"))
              (get q bound.queues)
          else get q bound.queues))
    × (get "m1" after.message_status ≡ some (sent 5))
publish_enqueues_once_example =
    publish_enqueues_once api "mail" "news" (letter "m1") "alice" 5 "t5" bound after valid
      publish_runs

abbrev no_queue : String
no_queue = "No queues bound to exchange 'mail' with routing key 'sport'"

abbrev unrouted : ServerState ℕ
unrouted = record bound { storage = 1 }

unrouted_runs :
    publish api "mail" "sport" (letter "m1") "alice" 5 "t5" bound ≡ (err no_queue, unrouted)
unfolding publish get run cipher_mq.State.Invariant.Run.perform cipher_mq.State.bind_queue
    cipher_mq.State.declare_exchange cipher_mq.State.declare_queue cipher_mq.Common.or_insert new
    cipher_mq.Common.insert
unrouted_runs = refl

publish_refused_example : unrouted ≡ record bound { storage = unrouted.storage }
publish_refused_example =
    publish_refused api "mail" "sport" (letter "m1") "alice" 5 "t5" bound no_queue unrouted
      unrouted_runs

publish_succeeds_iff_example :
    ((publish api "mail" "news" (letter "m1") "alice" 5 "t5" bound).0 ≡ ok tt) ↔ (
      (contains_key "m1" bound.message_status ≡ false)
      × (save_result api "mail" "news" (letter "m1") "alice" 5 "t5" bound ≡ ok tt)
      × ((q : String) × (is_bound bound q "mail" "news" ≡ true)))
publish_succeeds_iff_example =
    publish_succeeds_iff api "mail" "news" (letter "m1") "alice" 5 "t5" bound

is_known : contains_key "m1" after.message_status ≡ true
unfolding get publish run cipher_mq.State.Invariant.Run.perform cipher_mq.State.bind_queue
    cipher_mq.State.declare_exchange cipher_mq.State.declare_queue cipher_mq.Common.or_insert new
    cipher_mq.Common.insert cipher_mq.State.Publish.notify cipher_mq.State.Publish.enqueue
is_known = refl

acknowledge_removes_example :
    ((q : String)
      → get q (acknowledge api "m1" 9 "t9" after).queues ≡ (
          if contains q (set_or_empty (get "m1" after.message_queues))
          then Option.map (without "m1") (get q after.queues)
          else get q after.queues))
    × ((j : String)
        → (get j (acknowledge api "m1" 9 "t9" after).message_status
            ≡ (if "m1" == j then none else get j after.message_status))
          × (get j (acknowledge api "m1" 9 "t9" after).message_queues
              ≡ (if "m1" == j then none else get j after.message_queues)))
acknowledge_removes_example = acknowledge_removes api "m1" 9 "t9" after is_known

abbrev open_channel : Channel
open_channel = record { is_open = true; waiting = [] }

abbrev listening : ServerState ℕ
listening = record after { channels = open_channel ∷ [] }

abbrev queued : List Entry
queued = ("m1", letter "m1") ∷ []

has_queue : get "inbox" listening.queues ≡ some queued
unfolding get publish run cipher_mq.State.Invariant.Run.perform cipher_mq.State.bind_queue
    cipher_mq.State.declare_exchange cipher_mq.State.declare_queue cipher_mq.Common.or_insert new
    cipher_mq.Common.insert cipher_mq.State.Publish.notify cipher_mq.State.Publish.enqueue
has_queue = refl

register_consumer-deliver_pending_example :
    (get_elem?
        (deliver_pending 0
          (register_consumer "inbox" 0 listening).1
          (register_consumer "inbox" 0 listening).0.channels)
        0
      ≡ (if eqb 0 0
          then some (record open_channel {
            waiting =
                open_channel.waiting
                ++ retain (λ e. is_deliverable listening.message_status e.0) queued;
          })
          else get_elem? listening.channels 0))
    × (get "inbox" (register_consumer "inbox" 0 listening).0.queues ≡ some queued)
register_consumer-deliver_pending_example =
    register_consumer-deliver_pending "inbox" 0 0 listening queued open_channel has_queue refl refl

all-IsFree : All (λ (q : String × List Entry). IsFree "m1" q.1) bound.queues
unfolding run cipher_mq.State.Invariant.Run.perform cipher_mq.State.bind_queue get
    cipher_mq.State.declare_exchange cipher_mq.State.declare_queue cipher_mq.Common.or_insert new
    cipher_mq.Common.insert
all-IsFree = (tt, (tt, tt))

queues-IsFree :
    (q : String) (entries : List Entry) → get q bound.queues ≡ some entries → IsFree "m1" entries
queues-IsFree q entries found =
    All-get (λ q. IsFree "m1" q.1) q entries bound.queues all-IsFree found

acknowledge-publish_example : get "inbox" (acknowledge api "m1" 9 "t9" after).queues ≡ (
    if is_bound bound "inbox" "mail" "news"
    then Option.map (room_in bound.max_queue_size) (get "inbox" bound.queues)
    else get "inbox" bound.queues)
acknowledge-publish_example =
    acknowledge-publish api "mail" "news" (letter "m1") "alice" 5 9 "t5" "t9" bound after valid
      queues-IsFree publish_runs "inbox"

abbrev filling : List Call
filling =
    declares_queue "inbox"
    ∷ declares_queue "copy"
    ∷ declares_exchange "mail"
    ∷ binds "inbox" "mail" "news"
    ∷ binds "copy" "mail" "old"
    ∷ publishes "mail" "news" (letter "m1") "alice" 5 "t5"
    ∷ publishes "mail" "news" (letter "m2") "alice" 6 "t6"
    ∷ []

-- A broker whose queue `inbox` is full.
abbrev full : ServerState ℕ
full = run api filling (new 0 size)

abbrev overflowed : ServerState ℕ
overflowed = (publish api "mail" "news" (letter "m3") "alice" 7 "t7" full).1

overflow_runs : publish api "mail" "news" (letter "m3") "alice" 7 "t7" full ≡ (ok tt, overflowed)
unfolding publish get run cipher_mq.State.Invariant.Run.perform cipher_mq.State.bind_queue
    cipher_mq.State.declare_exchange cipher_mq.State.declare_queue cipher_mq.Common.or_insert new
    cipher_mq.Common.insert cipher_mq.Common.modify cipher_mq.State.Publish.notify
    cipher_mq.State.Publish.enqueue
overflow_runs = refl

full-is_bound : is_bound full "inbox" "mail" "news" ≡ true
unfolding get run cipher_mq.State.Invariant.Run.perform publish cipher_mq.State.bind_queue
    cipher_mq.State.declare_exchange cipher_mq.State.declare_queue cipher_mq.Common.or_insert new
    cipher_mq.Common.insert cipher_mq.Common.modify cipher_mq.State.Publish.notify
    cipher_mq.State.Publish.enqueue
full-is_bound = refl

abbrev held : List Entry
held = ("m1", letter "m1") ∷ ("m2", letter "m2") ∷ []

full_queue : get "inbox" full.queues ≡ some held
unfolding get run cipher_mq.State.Invariant.Run.perform publish cipher_mq.State.bind_queue
    cipher_mq.State.declare_exchange cipher_mq.State.declare_queue cipher_mq.Common.or_insert new
    cipher_mq.Common.insert cipher_mq.Common.modify cipher_mq.State.Publish.notify
    cipher_mq.State.Publish.enqueue
full_queue = refl

full_size : full.max_queue_size ≡ 2
unfolding run cipher_mq.State.Invariant.Run.perform publish get cipher_mq.State.bind_queue
    cipher_mq.State.declare_exchange cipher_mq.State.declare_queue cipher_mq.Common.or_insert new
    cipher_mq.Common.insert cipher_mq.Common.modify cipher_mq.State.Publish.notify
    cipher_mq.State.Publish.enqueue
full_size = refl

full_at_limit : full.max_queue_size ≤ length held
full_at_limit = ground (arith, full_size)

other_message : (letter "m1").message_id ≢ (letter "m3").message_id
other_message = ground (arith, eq_iff "m1" "m3")

evicted_is_lost_example :
    ((queue : String) → IsFree "m1" (pending overflowed queue))
    × (acknowledge api "m1" 9 "t9" overflowed ≡ overflowed)
evicted_is_lost_example =
    evicted_is_lost api "mail" "news" (letter "m3") "alice" 7 9 "t7" "t9" full overflowed "inbox"
      ("m1", letter "m1") (("m2", letter "m2") ∷ []) (run-new-IsValid api 0 size filling)
      overflow_runs full-is_bound full_queue full_at_limit other_message

abbrev aged : ServerState ℕ
aged = record after { message_status = ("m1", delivered 6 (sent 5)) ∷ ("m2", sent 6) ∷ [] }

cleanup_old_messages-selects_example :
    get "m1" (cleanup_old_messages 100 50 aged).message_status ≡ (
      if expired_status 100 50 (get "m1" aged.message_status)
      then none
      else get "m1" aged.message_status)
cleanup_old_messages-selects_example =
    cleanup_old_messages-selects 100 50 "m1" aged (refl, (refl, tt))

cleanup_old_messages-keeps_example :
    copies "m2" (get "inbox" (cleanup_old_messages 100 50 aged).queues)
    ≡ copies "m2" (get "inbox" aged.queues)
unfolding get cipher_mq.State.Cleanup.is_expired
cleanup_old_messages-keeps_example =
    cleanup_old_messages-keeps 100 50 "m2" "inbox" aged (refl, (refl, tt)) refl

abbrev watched : ServerState ℕ
watched = record listening { consumers = ("inbox", 0 ∷ 1 ∷ []) ∷ [] }

get-cleanup_dead_consumers_example :
    get "inbox" (cleanup_dead_consumers watched).consumers
    ≡ kept_senders watched.channels (get "inbox" watched.consumers)
get-cleanup_dead_consumers_example = get-cleanup_dead_consumers "inbox" watched (refl, tt)
