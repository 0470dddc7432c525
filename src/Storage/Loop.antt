-- ===== src/Storage/Loop.antt =====
-- The loop of the worker task of server/src/storage.rs and the channel in front of it: a command that finds the
-- pool closed waits for a new one, and is dropped with its reply channel where there is none.
use cipher_mq.Common.{String, Bool, Option, none, some, List, if◌then◌else◌, Result, err}
use cipher_mq.Storage.{StorageError, channel_send, channel_receive, MessageMetadata, PublicKeyData}
use cipher_mq.Storage.Worker.{
  Worker, save_metadata, update_delivered_time_async, update_acknowledged_time_async,
  update_delivered_time_sync, update_acknowledged_time_sync, flush_updates,
  load_unacknowledged_metadata, get_client_id_for_message,
}
use cipher_mq.Storage.Keys.{Bytes, Crypto, save_public_key, get_public_key}

pub data StorageCommand : Type 0 where
  saves_metadata : MessageMetadata → StorageCommand
  buffers_delivered buffers_acknowledged sets_delivered sets_acknowledged :
      String → String → StorageCommand
  loads_unacknowledged : StorageCommand
  gets_client_id : String → StorageCommand
  saves_public_key : PublicKeyData → StorageCommand
  gets_public_key : String → StorageCommand
  flushes : StorageCommand

-- What goes into the reply channel of a command that has one.
pub data Answer : Type 0 where
  silent : Answer
  done : Result StorageError (Unit {0}) → Answer
  found : Result StorageError (Option String) → Answer
  loaded : Result StorageError (List MessageMetadata) → Answer

-- How the statements of a command end, and the nonce that is drawn.
pub record Fate : Type 0 where
  pub failure : Option String
  pub second_failure : Option String
  pub nonce : Bytes

abbrev pub answered : Result StorageError (Unit {0}) × Worker → Answer × Worker
answered (result, w) = (done result, w)

module _ (crypto : Crypto) where
  -- The `match` on the command.
  unfoldable pub execute : Fate → StorageCommand → Worker → Answer × Worker
  unfolding save_metadata update_delivered_time_async update_acknowledged_time_async
      update_delivered_time_sync update_acknowledged_time_sync flush_updates
      load_unacknowledged_metadata get_client_id_for_message save_public_key get_public_key
  execute f (saves_metadata metadata) w = answered (save_metadata f.failure metadata w)
  execute f (buffers_delivered id time) w =
      (silent, update_delivered_time_async f.failure id time w)
  execute f (buffers_acknowledged id time) w =
      (silent, update_acknowledged_time_async f.failure id time w)
  execute f (sets_delivered id time) w = answered (update_delivered_time_sync f.failure id time w)
  execute f (sets_acknowledged id time) w =
      answered (update_acknowledged_time_sync f.failure id time w)
  execute f loads_unacknowledged w = (loaded (load_unacknowledged_metadata f.failure w), w)
  execute f (gets_client_id id) w = (found (get_client_id_for_message f.failure id w), w)
  execute f (saves_public_key key_data) w =
      answered (save_public_key crypto f.failure f.nonce key_data w)
  execute f (gets_public_key client_id) w = (found (get_public_key crypto f.failure client_id w), w)
  execute f flushes w = (silent, flush_updates f.failure f.second_failure w)

  -- A command that the loop receives, with whether the pool is open, or is opened again; `none` is a reply
  -- channel that was dropped.
  unfoldable pub receive : Bool → Bool → Fate → StorageCommand → Worker → Option Answer × Worker
  unfolding execute
  receive is_closed reconnects f command w =
      let (answer, w₁) = execute f command w in
      if is_closed then (if reconnects then (some answer, w₁) else (none, w)) else (some answer, w₁)

-- What a method makes of its reply channel: `recv` gives `None` where the channel was dropped.
abbrev pub result_of_done : Option Answer → Result StorageError (Unit {0})
result_of_done (some (done result)) = result
result_of_done _ = err channel_receive

abbrev pub result_of_found : Option Answer → Result StorageError (Option String)
result_of_found (some (found result)) = result
result_of_found _ = err channel_receive

-- `save_metadata` of `Storage`, whose worker may have ended.
unfoldable pub ask_save_metadata :
    Crypto
    → Bool
    → Bool
    → Bool
    → Fate
    → MessageMetadata
    → Worker
    → Result StorageError (Unit {0}) × Worker
unfolding receive
ask_save_metadata crypto has_worker is_closed reconnects f metadata w =
    let (answer, w₁) = receive crypto is_closed reconnects f (saves_metadata metadata) w in
    if has_worker
    then (result_of_done answer, w₁)
    else (err (channel_send "Failed to send SaveMetadata command"), w)

unfoldable pub ask_client_id :
    Crypto → Bool → Bool → Bool → Fate → String → Worker → Result StorageError (Option String)
unfolding receive
ask_client_id crypto has_worker is_closed reconnects f id w =
    let answer = (receive crypto is_closed reconnects f (gets_client_id id) w).0 in
    if has_worker
    then result_of_found answer
    else err (channel_send "Failed to send GetClientIdForMessage command")
