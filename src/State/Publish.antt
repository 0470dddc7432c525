-- ===== src/State/Publish.antt =====
-- `ServerState::publish` of server/src/state.rs: the duplicate check, the metadata, the target
-- queues, the loop that adds the message to each, and the loop that notifies their consumers.
pub mod Queues
pub mod Outcome
pub mod Delivery
pub mod Consumers
pub mod Notified
use cipher_mq.Common.{
  ℕ, String, Bool, true, false, none, some, List, [], ◌∷◌, ◌++◌, map, ◌==◌, leb, if◌then◌else◌,
  length, retain, set_insert, set_remove, get, contains_key, insert, remove, modify, Result, ok,
  err, format,
}
use cipher_mq.Storage.{MessageMetadata, StorageApi, display}
use cipher_mq.State.{EncryptedInputData, Entry, Channel, ServerState, sent, is_closed, send}

-- The queues that are bound to the exchange under the routing key, as often as they are bound.
unfoldable pub targets_in : String → List (String × String) → List String
targets_in key bs = map (λ b. b.0) (retain (λ b. b.1 == key) bs)

-- One consumer: whether it is kept, and the channels after the attempt to send.
unfoldable pub offer : Entry → ℕ → List Channel → Bool × List Channel
offer e sender chs =
    if is_closed chs sender
    then (false, chs)
    else elim (send sender e chs) [ some chs' ↦ (true, chs') | none ↦ (false, chs) ]

-- `consumer_senders.retain(…)`, which sends as it goes.
unfoldable pub offer_all : Entry → List ℕ → List Channel → List ℕ × List Channel
offer_all e [] chs = ([], chs)
offer_all e (sender ∷ senders) chs =
    let (kept, chs₁) = offer e sender chs in
    let (rest, chs₂) = offer_all e senders chs₁ in (if kept then sender ∷ rest else rest, chs₂)

module _ {S : Type 0} where
  unfoldable pub target_queues : ServerState S → String → String → List String
  unfolding targets_in
  target_queues st exchange key = elim (get exchange st.bindings) [
    | some bs ↦ targets_in key bs
    | none ↦ []
  ]

  -- `pop_front` and what is forgotten about the popped message.
  unfoldable pub evict : String → List Entry → ServerState S → List Entry × ServerState S
  evict name [] st = ([], st)
  evict name (old ∷ rest) st = (
    rest,
    record st {
      message_queues = modify old.0 (set_remove name) st.message_queues;
      message_status = remove old.0 st.message_status;
    },
  )

  -- The size check.
  unfoldable pub make_room : String → List Entry → ServerState S → List Entry × ServerState S
  make_room name queue st =
      if leb st.max_queue_size (length queue) then evict name queue st else (queue, st)

  -- One round of the loop over the target queues.
  unfoldable pub enqueue :
      Entry → String → ServerState S × List String → ServerState S × List String
  unfolding make_room evict
  enqueue e name (st, queue_set) = elim (get name st.queues) [
    | none ↦ (st, queue_set)
    | some queue ↦
        let (room, st') = make_room name queue st in
        (record st' { queues = insert name (room ++ e ∷ []) st'.queues }, set_insert name queue_set)
  ]

  unfoldable pub enqueue_all :
      Entry → List String → ServerState S × List String → ServerState S × List String
  enqueue_all e [] s = s
  enqueue_all e (name ∷ names) s = enqueue_all e names (enqueue e name s)

  -- One round of the loop that notifies the consumers.
  unfoldable pub notify : Entry → String → ServerState S → ServerState S
  notify e name st = elim (get name st.consumers) [
    | none ↦ st
    | some senders ↦
        let (kept, chs) = offer_all e senders st.channels in
        record st { consumers = insert name kept st.consumers; channels = chs }
  ]

  unfoldable pub notify_all : Entry → List String → ServerState S → ServerState S
  notify_all e [] st = st
  notify_all e (name ∷ names) st = notify_all e names (notify e name st)

  -- The tracking structures are updated when the message is in its queues.
  unfoldable pub track : Entry → ℕ → ServerState S × List String → ServerState S
  track e received_time (st, queue_set) = record st {
    message_queues = insert e.0 queue_set st.message_queues;
    message_status = insert e.0 (sent received_time) st.message_status;
  }

  -- What follows once there are target queues.
  unfoldable pub distribute : Entry → ℕ → List String → ServerState S → ServerState S
  unfolding enqueue_all track notify_all
  distribute e received_time names st =
      notify_all e names (track e received_time (enqueue_all e names (st, [])))

  -- The target lookup, and the answer when there is none.
  unfoldable pub route :
      String
      → String
      → EncryptedInputData
      → ℕ
      → ServerState S
      → Result String (Unit {0}) × ServerState S
  unfolding distribute target_queues
  route exchange key message received_time st = elim (target_queues st exchange key) [
    | [] ↦ (
      err (
          format
            ("No queues bound to exchange '" ∷ exchange ∷ "' with routing key '" ∷ key ∷ "'" ∷ [])),
      st,
    )
    | name ∷ names ↦
        (ok tt, distribute (message.message_id, message) received_time (name ∷ names) st)
  ]

abbrev pub duplicate : String → String
duplicate id = format ("Duplicate message " ∷ id ∷ " ignored" ∷ [])

-- `utc_now` is the text of `chrono::Utc::now()`.
abbrev pub metadata_of : String → String → EncryptedInputData → String → String → MessageMetadata
metadata_of exchange key message client_id utc_now = record {
  message_id = message.message_id;
  client_id = client_id;
  exchange_name = exchange;
  routing_key = key;
  sent_time = some utc_now;
  delivered_time = none;
  acknowledged_time = none;
}

module _ {S : Type 0} (api : StorageApi S) where
  unfoldable pub publish :
      String
      → String
      → EncryptedInputData
      → String
      → ℕ
      → String
      → ServerState S
      → Result String (Unit {0}) × ServerState S
  unfolding route
  publish exchange key message client_id received_time utc_now st =
      if contains_key message.message_id st.message_status
      then (err (duplicate message.message_id), st)
      else let (saved, storage) =
          api.save_metadata (metadata_of exchange key message client_id utc_now) st.storage in
        let st' : ServerState S = record st { storage = storage } in
        elim saved [
          | err e ↦ (err (format ("Failed to save metadata: " ∷ display e ∷ [])), st')
          | ok _ ↦ route exchange key message received_time st'
        ]
