-- ===== src/State.antt =====
-- server/src/state.rs: the broker's state and its operations, and the mpsc channels of the
-- consumers. Each operation is one atomic step; an `Instant` is a number of milliseconds; a sender
-- of a channel is its index in `channels`, so clones of a sender share the channel.
pub mod Publish
pub mod Deliver
pub mod Cleanup
pub mod Invariant
pub mod Overlap
use cipher_mq.Common.{
  ℕ, ◌+◌, ◌-◌, ◌%◌, ◌^◌, String, Bool, true, false, not, ◌&&◌, ◌||◌, Option, none, some, List, [],
  ◌∷◌, ◌++◌, map, ◌==◌, ltb, leb, if◌then◌else◌, length, get_elem?, set, retain, count, contains,
  set_insert, set_remove, Table, get, is_some, contains_key, insert, remove, modify, or_insert,
  Result, ok, err, map_err, format,
}
use cipher_mq.Storage.{MessageMetadata, PublicKeyData, StorageApi, StorageError, display}

pub record EncryptedInputData : Type 0 where
  pub message_id : String
  pub receiver_client_id : String
  pub enc_session_key : String
  pub nonce : String
  pub ciphertext : String

pub record MessageStatus : Type 0 where
  pub sent_time : Option ℕ
  pub delivered_time : Option ℕ
  pub acknowledged_time : Option ℕ

abbrev pub sent : ℕ → MessageStatus
sent time = record { sent_time = some time; delivered_time = none; acknowledged_time = none }

abbrev pub delivered : ℕ → MessageStatus → MessageStatus
delivered time s = record s { delivered_time = some time }

abbrev pub acknowledged : ℕ → MessageStatus → MessageStatus
acknowledged time s = record s { acknowledged_time = some time }

abbrev pub can_deliver : MessageStatus → Bool
can_deliver s = not (is_some s.acknowledged_time)

abbrev pub Entry : Type 0
Entry = String × EncryptedInputData

-- An unbounded channel: whether its receiver is still there, and what waits in it, oldest first.
pub record Channel : Type 0 where
  pub is_open : Bool
  pub waiting : List Entry

pub record ServerState (S : Type 0) : Type 0 where
  pub queues : Table (List Entry)
  pub message_queues : Table (List String)
  pub bindings : Table (List (String × String))
  pub exchanges : Table (List String)
  pub consumers : Table (List ℕ)
  pub message_status : Table MessageStatus
  pub connected_clients : ℕ
  pub storage : S
  pub max_queue_size : ℕ
  pub channels : List Channel

-- `is_closed` and `send` of a sender; a send fails when the receiver is gone.
abbrev pub is_closed : List Channel → ℕ → Bool
is_closed chs sender = elim (get_elem? chs sender) [ none ↦ true | some c ↦ not c.is_open ]

unfoldable pub send : ℕ → Entry → List Channel → Option (List Channel)
send sender e chs = elim (get_elem? chs sender) [
  | none ↦ none
  | some c ↦
      if c.is_open then some (set chs sender (record c { waiting = c.waiting ++ e ∷ [] })) else none
]

-- A receiver that is dropped closes its channel.
unfoldable pub close : ℕ → List Channel → List Channel
close sender chs = elim (get_elem? chs sender) [
  | none ↦ chs
  | some c ↦ set chs sender (record c { is_open = false })
]

-- `usize` on the server's 64-bit target.
abbrev pub usize_mod : ℕ
usize_mod = 2 ^ 64

-- Every entry of the message goes from a queue.
abbrev pub without : String → List Entry → List Entry
without id = retain (λ e. not (e.0 == id))

-- The loop over the queues of a message's set.
unfoldable pub remove_from_queues : String → List String → Table (List Entry) → Table (List Entry)
remove_from_queues id [] qs = qs
remove_from_queues id (q ∷ names) qs = remove_from_queues id names (modify q (without id) qs)

abbrev pub set_or_empty : Option (List String) → List String
set_or_empty none = []
set_or_empty (some names) = names

-- `Vec::contains` on pairs, and the branch of `bind_queue` for an exchange that has bindings: a pair
-- that is there already is not added again.
abbrev pub contains_pair : String × String → List (String × String) → Bool
contains_pair b [] = false
contains_pair b (c ∷ bs) = (c.0 == b.0 && c.1 == b.1) || contains_pair b bs

unfoldable pub add_binding : String × String → List (String × String) → List (String × String)
add_binding b bs = if contains_pair b bs then bs else bs ++ b ∷ []

-- `entry(exchange).and_modify(…).or_insert_with(…)` of `bind_queue`.
unfoldable pub add_to_exchange :
    String → String × String → Table (List (String × String)) → Table (List (String × String))
unfolding add_binding
add_to_exchange exchange b bindings = elim (get exchange bindings) [
  | some _ ↦ modify exchange (add_binding b) bindings
  | none ↦ insert exchange (b ∷ []) bindings
]

module _ {S : Type 0} where
  -- The state that `ServerState::new` begins with; the two loops that it spawns are
  -- `cleanup_old_messages` and `cleanup_dead_consumers` below, one round at a time.
  unfoldable pub new : S → ℕ → ServerState S
  new storage max_queue_size = record {
    queues = [];
    message_queues = [];
    bindings = [];
    exchanges = [];
    consumers = [];
    message_status = [];
    connected_clients = 0;
    storage = storage;
    max_queue_size = max_queue_size;
    channels = [];
  }

  unfoldable pub declare_queue : String → ServerState S → ServerState S
  declare_queue name st = record st { queues = or_insert name [] st.queues }

  unfoldable pub declare_exchange : String → ServerState S → ServerState S
  declare_exchange name st = record st { exchanges = or_insert name [] st.exchanges }

  unfoldable pub bind_queue : String → String → String → ServerState S → ServerState S
  unfolding add_to_exchange
  bind_queue queue exchange key st =
      if contains_key queue st.queues && contains_key exchange st.exchanges
      then record st { bindings = add_to_exchange exchange (queue, key) st.bindings }
      else st

  -- `fetch_add` and `fetch_sub` wrap around.
  unfoldable pub increment_client_count : ServerState S → ServerState S
  increment_client_count st = record st {
    connected_clients = (st.connected_clients + 1) % usize_mod;
  }

  unfoldable pub decrement_client_count : ServerState S → ServerState S
  decrement_client_count st = record st {
    connected_clients = (st.connected_clients + usize_mod - 1) % usize_mod;
  }

module _ {S : Type 0} (api : StorageApi S) where
  unfoldable pub save_public_key :
      String → String → ServerState S → Result String (Unit {0}) × ServerState S
  save_public_key client_id public_key st =
      let (result, storage) =
        api.save_public_key (record { client_id = client_id; public_key = public_key })
          st.storage in
      (
        map_err (λ e. format ("Failed to save public key: " ∷ display e ∷ [])) result,
        record st { storage = storage },
      )

  unfoldable pub get_public_key :
      String → ServerState S → Result String (Option String) × ServerState S
  get_public_key client_id st =
      let (result, storage) = api.get_public_key client_id st.storage in
      (
        map_err (λ e. format ("Failed to get public key: " ∷ display e ∷ [])) result,
        record st { storage = storage },
      )
