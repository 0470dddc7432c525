-- ===== src/Server/Lifecycle.antt =====
-- The life of a connection: `handle_client` in server/src/server.rs from the role of the client to the
-- end of its loop, and what server/src/main.rs does before and after.
pub mod Delivery
pub mod Counting
pub mod Limits
pub mod Validity
pub mod Drain
pub mod Arrival
use cipher_mq.Common.{
  ℕ, zero, suc, ◌+◌, String, Bool, true, false, Option, none, some, List, [], ◌∷◌, ◌++◌, leb,
  if◌then◌else◌, length, get_elem?, set, get, modify, format,
}
use cipher_mq.Storage.{StorageApi}
use cipher_mq.State.{
  Channel, Entry, ServerState, delivered, close, increment_client_count, decrement_client_count,
}
use cipher_mq.State.Deliver.{deliver_pending, is_deliverable}
use cipher_mq.Heartbeat.{remove_client}
use cipher_mq.RateLimiter.{Float, check_connection, is_allowed}
use cipher_mq.Metrics.{bump}
use cipher_mq.Acl.{AclManager, Role, resolve_role}
use cipher_mq.Acl
use cipher_mq.Server.{Json, Server, Session, Clock, Need, nothing, written}
use cipher_mq.Server.Dispatch.{heard, process_request}

-- The line of a message, and of its JSON.
abbrev pub message_line : String → String → String
message_line id payload = format ("Message: " ∷ id ∷ " " ∷ payload ∷ "\n" ∷ [])

-- What becomes of an attempt to write to the stream and to flush it.
pub data Attempt : Type 0 where
  write_fails flush_fails succeeds : Attempt

-- What `select!` finds: a read, with the fate of the answer, or the channel's next message, with the
-- fate of each attempt to send it.
pub data Event : Type 0 where
  reads : String → Attempt → Event
  read_ends read_fails read_times_out : Event
  receives : (ℕ → Attempt) → Event

-- A server after a step, what was written to the stream, and whether the loop goes on.
pub record Turn (S F : Type 0) : Type 0 where
  pub server : Server S F
  pub output : List String
  pub goes_on : Bool

-- How the loop of the retries ends.
pub data Sending : Type 0 where
  sent exhausted given_up : Sending

abbrev pub max_retries : ℕ
max_retries = 3

-- The loop, and how often the text was written; `left` is `MAX_RETRIES - retry_count`.
unfoldable pub send_retrying : ℕ → ℕ → (ℕ → Attempt) → Sending × ℕ
send_retrying zero retry_count stream = (exhausted, 0)
send_retrying (suc left) retry_count stream =
    let (end, writes) = send_retrying left (retry_count + 1) stream in
    elim (stream retry_count) [
      | succeeds ↦ (sent, 1)
      | flush_fails ↦ (end, writes + 1)
      | write_fails ↦ if leb max_retries (retry_count + 1) then (given_up, 0) else (end, writes)
    ]

unfoldable pub copies : ℕ → String → List String
copies zero text = []
copies (suc n) text = text ∷ copies n text

-- Whether an answer got as far as it has to.
abbrev pub is_met : Need → Attempt → Bool
is_met nothing _ = true
is_met _ succeeds = true
is_met written flush_fails = true
is_met _ _ = false

abbrev pub output_of : String → Attempt → List String
output_of text write_fails = []
output_of text _ = text ∷ []

-- `rx.recv()`: the first message that waits, and the channel without it.
unfoldable pub recv : ℕ → List Channel → Option (Entry × List Channel)
recv channel chs = elim (get_elem? chs channel) [
  | none ↦ none
  | some c ↦ elim (c.waiting) [
    | [] ↦ none
    | e ∷ es ↦ some (e, set chs channel (record c { waiting = es }))
  ]
]

module _ {S F : Type 0} where
  -- The end of the loop where a client is counted out and its heartbeat is dropped.
  unfoldable pub disconnect : Session → Server S F → Server S F
  disconnect sess srv = record srv {
    state = decrement_client_count srv.state;
    heartbeat_monitor = remove_client sess.client_id srv.heartbeat_monitor;
  }

  -- The end of the loop where it is only counted out.
  unfoldable pub count_out : Server S F → Server S F
  count_out srv = record srv { state = decrement_client_count srv.state }

  -- `tokio::spawn` of a new consumer's task, which is done at once.
  unfoldable pub spawn : Session → List Entry → Server S F → Server S F
  spawn sess task srv = record srv {
    state = record (srv.state) { channels = deliver_pending sess.channel task srv.state.channels };
  }

  -- From the role to the first heartbeat and the new channel; `none` where the connection is refused.
  unfoldable pub connect :
      AclManager → String → String → Clock → Server S F → Option Session × Turn S F
  connect acl client_id ip clock srv = elim (resolve_role acl client_id) [
    | Acl.unknown ↦ (
      none,
      record {
        server = srv;
        output = "Access denied: unrecognized client identity\n" ∷ [];
        goes_on = false;
      },
    )
    | role ↦
        let (verdict, limiter) = check_connection client_id ip srv.rate_limiter in
        let limited : Server S F = record srv { rate_limiter = limiter } in
        let sess : Session = record {
          client_id = client_id;
          ip = ip;
          role = role;
          channel = length srv.state.channels;
        } in
        let welcome : ServerState S = increment_client_count srv.state in
        if is_allowed verdict
        then (
          some sess,
          record {
            server = heard sess clock (record limited {
              metrics = record (srv.metrics) {
                connections_total = bump srv.metrics.connections_total;
              };
              state = record welcome {
                channels = welcome.channels ++ record { waiting = []; is_open = true } ∷ [];
              };
            });
            output = [];
            goes_on = true;
          },
        )
        else (
          none,
          record {
            server = record limited {
              metrics = record (srv.metrics) {
                connections_rejected_conn_limit = bump srv.metrics.connections_rejected_conn_limit;
              };
            };
            output = [];
            goes_on = false;
          },
        )
  ]

  -- When `handle_client` is done its receiver is dropped, and main.rs forgets the heartbeat.
  unfoldable pub leave : Session → Server S F → Server S F
  leave sess srv = record srv {
    state = record (srv.state) { channels = close sess.channel srv.state.channels };
    heartbeat_monitor = remove_client sess.client_id srv.heartbeat_monitor;
  }

module _ {S : Type 0} (api : StorageApi S) where
  -- A message that has no delivery time yet gets one.
  unfoldable pub mark_delivered : String → Clock → ServerState S → ServerState S
  mark_delivered id clock st = elim (get id st.message_status) [
    | none ↦ st
    | some status ↦ elim (status.delivered_time) [
      | some _ ↦ st
      | none ↦ record st {
        message_status = modify id (delivered clock.now) st.message_status;
        storage = api.update_delivered_time_async id clock.utc_now st.storage;
      }
    ]
  ]

module _ {S F : Type 0} (api : StorageApi S) (json : Json) where
  -- What follows the loop of the retries, for a text that was written so often.
  unfoldable pub conclude : Clock → String → String → Sending × ℕ → Server S F → Turn S F
  unfolding mark_delivered count_out copies
  conclude clock id text (sent, writes) srv =
      let once = mark_delivered api id clock srv.state in
      record {
        server = record srv { state = mark_delivered api id clock once };
        output = copies writes text;
        goes_on = true;
      }
  conclude clock id text (exhausted, writes) srv = record {
    server = record srv { state = mark_delivered api id clock srv.state };
    output = copies writes text;
    goes_on = true;
  }
  conclude clock id text (given_up, writes) srv = record {
    server = count_out srv;
    output = copies writes text;
    goes_on = false;
  }

  -- The branch of `select!` for a message of the channel.
  unfoldable pub deliver : Clock → Entry → (ℕ → Attempt) → Server S F → Turn S F
  unfolding conclude send_retrying
  deliver clock e stream srv =
      let text = message_line e.0 (json.show_message e.1) in
      if is_deliverable srv.state.message_status e.0
      then conclude clock e.0 text (send_retrying max_retries 0 stream) srv
      else record { server = srv; output = []; goes_on = true }

module _ {S F : Type 0} (api : StorageApi S) (json : Json) (float : Float F) where
  unfoldable pub answer : Session → Clock → String → Attempt → Server S F → Turn S F
  unfolding process_request spawn count_out
  answer sess clock input fate srv =
      let (served, reply) = process_request api json float sess clock input srv in
      let tasked = spawn sess reply.task served in
      record {
        server = if is_met reply.need fate then tasked else count_out tasked;
        output = output_of reply.text fate;
        goes_on = is_met reply.need fate;
      }

  -- A round of the loop.
  unfoldable pub step : Session → Clock → Event → Server S F → Turn S F
  unfolding answer deliver disconnect recv
  step sess clock (reads input fate) srv = answer sess clock input fate srv
  step sess clock read_ends srv = record {
    server = disconnect sess srv;
    output = [];
    goes_on = false;
  }
  step sess clock read_fails srv = record {
    server = disconnect sess srv;
    output = [];
    goes_on = false;
  }
  step sess clock read_times_out srv = record { server = srv; output = []; goes_on = true }
  step sess clock (receives stream) srv = elim (recv sess.channel srv.state.channels) [
    | none ↦ record { server = srv; output = []; goes_on = true }
    | some (e, chs) ↦
        deliver api json clock e stream
          (record srv { state = record (srv.state) { channels = chs } })
  ]

  -- The loop, on what `select!` finds in each round.
  unfoldable pub rounds : Session → List (Clock × Event) → Server S F → Turn S F
  unfolding step leave
  rounds sess [] srv = record { server = srv; output = []; goes_on = true }
  rounds sess (e ∷ es) srv =
      let turn = step sess e.0 e.1 srv in
      let rest = rounds sess es turn.server in
      if turn.goes_on
      then record rest { output = turn.output ++ rest.output }
      else record turn { server = leave sess turn.server }
