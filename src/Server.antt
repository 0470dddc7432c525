-- ===== src/Server.antt =====
-- server/src/server.rs: what the connections share, and what each connection has of its own.
pub mod Requests
pub mod Dispatch
pub mod Effects
pub mod Safety
pub mod Lifecycle
pub mod World
use cipher_mq.Common.{ℕ, String, List, [], Result}
use cipher_mq.Storage.{StorageApi}
use cipher_mq.State.{EncryptedInputData, Entry, ServerState}
use cipher_mq.Heartbeat.{HeartbeatMonitor}
use cipher_mq.RateLimiter.{Float, RateLimiter}
use cipher_mq.Metrics.{Metrics}
use cipher_mq.Acl.{AclManager, Role}

-- `serde_json`, which comes from outside.
pub record Json : Type 0 where
  pub parse_message : String → Result String EncryptedInputData
  pub parse_batch : String → Result String (List EncryptedInputData)
  pub show_message : EncryptedInputData → String

-- What is behind the `Arc`s.
pub record Server (S F : Type 0) : Type 0 where
  pub state : ServerState S
  pub heartbeat_monitor : HeartbeatMonitor
  pub metrics : Metrics
  pub rate_limiter : RateLimiter F

-- A connection: the name in its certificate, its address, its role, and the sender of its channel.
pub record Session : Type 0 where
  pub client_id : String
  pub ip : String
  pub role : Role
  pub channel : ℕ

-- The moment of a call, as `Instant::now()` and as the text of `Utc::now()`.
pub record Clock : Type 0 where
  pub now : ℕ
  pub utc_now : String

-- How far an answer has to get for the connection to go on.
pub data Need : Type 0 where
  nothing written flushed : Need

-- The text that answers a request, and the messages for a new consumer's task.
pub record Reply : Type 0 where
  pub text : String
  pub need : Need
  pub task : List Entry

abbrev pub plain : String → Reply
plain text = record { text = text; need = nothing; task = [] }
