-- ===== src/Server/World.antt =====
-- The server as its tasks run side by side: the accept loop of server/src/main.rs, one task for each connection that
-- is handled, the heartbeat monitor and the two clean-up loops. Each round of a task is one step, and the steps
-- of the tasks come in any order. A request is a round at a time; State/Overlap takes a publication apart at the
-- place where it waits for the database.
pub mod Owners
pub mod Hearts
pub mod Invariant
use cipher_mq.Common.{
  ℕ, ◌+◌, ◌*◌, ◌≡◌, String, Option, none, some, List, [], ◌∷◌, ◌++◌, if◌then◌else◌,
}
use cipher_mq.Storage.{StorageApi}
use cipher_mq.State
use cipher_mq.State.Cleanup.{cleanup_old_messages, cleanup_dead_consumers}
use cipher_mq.Heartbeat.{remove_client, monitor_task}
use cipher_mq.Heartbeat
use cipher_mq.Metrics
use cipher_mq.RateLimiter.{Float, RateLimitConfig}
use cipher_mq.RateLimiter
use cipher_mq.Acl.{AclManager}
use cipher_mq.Server.{Json, Server, Session, Clock}
use cipher_mq.Server.Lifecycle.{Event, Turn, count_out, connect, leave, step}

-- The age at which the loop in `ServerState::new` lets a delivered message expire.
abbrev pub max_age : ℕ
max_age = 3000 * 1000

-- The server, the connections whose loops go on, and how many handshakes failed.
pub record World (S F : Type 0) : Type 0 where
  pub server : Server S F
  pub live : List Session
  pub failures : ℕ

module _ {S F : Type 0} where
  -- `main` before the first connection.
  abbrev pub started : S → ℕ → ℕ → RateLimitConfig F → World S F
  started storage max_queue_size timeout_seconds limits = record {
    server = record {
      state = State.new storage max_queue_size;
      heartbeat_monitor = Heartbeat.new timeout_seconds;
      metrics = Metrics.new;
      rate_limiter = RateLimiter.new limits;
    };
    live = [];
    failures = 0;
  }

  -- A connection whose `handle_client` is begun. Where that returns at once, main.rs forgets the
  -- heartbeat of the name.
  unfoldable pub welcome : String → Option Session × Turn S F → World S F → World S F
  welcome client_id (some sess, turn) w = record w {
    server = turn.server;
    live = w.live ++ sess ∷ [];
  }
  welcome client_id (none, turn) w = record w {
    server = record (turn.server) {
      heartbeat_monitor = remove_client client_id turn.server.heartbeat_monitor;
    };
  }

  -- A round of the connection that stands between `before` and `after`.
  unfoldable pub go_on : Session → List Session → List Session → Turn S F → World S F → World S F
  unfolding leave
  go_on sess before after turn w =
      if turn.goes_on
      then record w { server = turn.server }
      else record w { server = leave sess turn.server; live = before ++ after }

  abbrev pub tick : ℕ → World S F → World S F
  tick now w = record w {
    server = record (w.server) { heartbeat_monitor = monitor_task now w.server.heartbeat_monitor };
  }

  abbrev pub expire : ℕ → World S F → World S F
  expire now w = record w {
    server = record (w.server) { state = cleanup_old_messages now max_age w.server.state };
  }

  abbrev pub sweep : World S F → World S F
  sweep w = record w {
    server = record (w.server) { state = cleanup_dead_consumers w.server.state };
  }

  abbrev pub fail : World S F → World S F
  fail w = record w { server = count_out w.server; failures = w.failures + 1 }

module _ {S F : Type 0} (api : StorageApi S) (json : Json) (float : Float F)
    (acl : AclManager) where
  -- A handshake succeeds or fails, a connection runs a round, the monitor or a clean-up loop runs a round.
  pub data Step (w : World S F) (v : World S F) : Type 0 where
    connects :
        (client_id ip : String) (clock : Clock)
        → v ≡ welcome client_id (connect acl client_id ip clock w.server) w
        → Step w v
    fails : v ≡ fail w → Step w v
    runs :
        (before after : List Session) (sess : Session) (clock : Clock) (event : Event)
        → w.live ≡ before ++ sess ∷ after
        → v ≡ go_on sess before after (step api json float sess clock event w.server) w
        → Step w v
    ticks : (now : ℕ) → v ≡ tick now w → Step w v
    expires : (now : ℕ) → v ≡ expire now w → Step w v
    sweeps : v ≡ sweep w → Step w v

  pub data Reach (w : World S F) : World S F → Type 0 where
    here : Reach w w
    next : {u v : World S F} → Reach w u → Step u v → Reach w v
