-- ===== src/Storage.antt =====
-- server/src/storage.rs: what the rest of the server sees of the database layer.
pub mod Worker
pub mod Keys
pub mod Service
pub mod Connect
pub mod Loop
use cipher_mq.Common.{String, Option, [], ◌∷◌, Result, format}

-- `StorageError`; the text of a `sqlx::Error` comes from outside.
pub data StorageError : Type 0 where
  postgres : String → StorageError
  channel_send : String → StorageError
  channel_receive : StorageError
  encryption_error : String → StorageError

-- The `#[error]` attributes.
abbrev pub display : StorageError → String
display (postgres e) = format ("PostgreSQL error: " ∷ e ∷ [])
display (channel_send e) = format ("Channel send error: " ∷ e ∷ [])
display channel_receive = "Channel receive error"
display (encryption_error e) = format ("Encryption error: " ∷ e ∷ [])

pub record MessageMetadata : Type 0 where
  pub message_id : String
  pub client_id : String
  pub exchange_name : String
  pub routing_key : String
  pub sent_time : Option String
  pub delivered_time : Option String
  pub acknowledged_time : Option String

pub record PublicKeyData : Type 0 where
  pub client_id : String
  pub public_key : String

-- The public methods of `Storage` that the broker calls, on a state `S` of the database layer.
pub record StorageApi (S : Type 0) : Type 0 where
  pub save_metadata : MessageMetadata → S → Result StorageError (Unit {0}) × S
  pub update_delivered_time_async : String → String → S → S
  pub update_acknowledged_time_async : String → String → S → S
  pub get_client_id_for_message : String → S → Result StorageError (Option String) × S
  pub save_public_key : PublicKeyData → S → Result StorageError (Unit {0}) × S
  pub get_public_key : String → S → Result StorageError (Option String) × S
