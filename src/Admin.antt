-- ===== src/Admin.antt =====
-- server/src/admin_server.rs: the console that the admins see. What the commands read is the server's state
-- at the time of the command; `serde_json` and the printing of tables come from outside.
use cipher_mq.Common.{
  ℕ, ◌+◌, String, Bool, true, false, ◌||◌, Option, none, some, List, [], ◌∷◌, ◌++◌, map, ◌==◌,
  if◌then◌else◌, length, Table, get, keys, format, trim,
}
use cipher_mq.Metrics.{Metrics, ServerSnapshot, render_prometheus, render_status}
use cipher_mq.Acl.{AclManager, Role, admin, resolve_role}
use cipher_mq.Server.{Server}

pub record QueueStatus : Type 0 where
  pub name : String
  pub message_count : ℕ
  pub consumer_count : ℕ

pub record BindingStatus : Type 0 where
  pub exchange : String
  pub queue : String
  pub routing_key : String

pub record LiveStatus : Type 0 where
  pub connected_clients : ℕ
  pub queues : ℕ
  pub total_messages : ℕ
  pub total_consumers : ℕ
  pub exchanges : ℕ

pub record ConnectionStatus : Type 0 where
  pub active_by_ip : ℕ
  pub active_by_cn : ℕ
  pub by_ip : Table ℕ
  pub by_cn : Table ℕ

-- The value of `json!`; the name and the health of the server are always the same texts.
pub record Status : Type 0 where
  pub uptime_secs : ℕ
  pub max_queue_size : ℕ
  pub counters : Metrics
  pub snapshot : ServerSnapshot
  pub live : LiveStatus
  pub connection_stats : ConnectionStatus
  pub queues : List QueueStatus
  pub bindings : List BindingStatus
  pub exchanges : List String

-- The lengths of the lists of a table, added up.
unfoldable pub total : {A : Type 0} → Table (List A) → ℕ
total [] = 0
total ((k, xs) ∷ m) = length xs + total m

unfoldable pub values_sum : Table ℕ → ℕ
values_sum [] = 0
values_sum ((k, n) ∷ m) = n + values_sum m

abbrev pub length_or_zero : {A : Type 0} → Option (List A) → ℕ
length_or_zero none = 0
length_or_zero (some xs) = length xs

unfoldable pub binding_statuses : Table (List (String × String)) → List BindingStatus
binding_statuses [] = []
binding_statuses ((exchange, pairs) ∷ m) =
    map (λ (b : String × String). record { exchange = exchange; queue = b.0; routing_key = b.1 })
      pairs
    ++ binding_statuses m

module _ {S F : Type 0} where
  unfoldable pub json_status : ServerSnapshot → ℕ → Server S F → Status
  unfolding total values_sum binding_statuses
  json_status snapshot uptime srv =
      let s = srv.state in
      let c = srv.rate_limiter.connections in
      record {
        uptime_secs = uptime;
        max_queue_size = s.max_queue_size;
        counters = srv.metrics;
        snapshot = snapshot;
        live = record {
          connected_clients = s.connected_clients;
          queues = length s.queues;
          total_messages = total s.queues;
          total_consumers = total s.consumers;
          exchanges = length s.exchanges;
        };
        connection_stats = record {
          active_by_ip = values_sum c.by_ip;
          active_by_cn = values_sum c.by_cn;
          by_ip = c.by_ip;
          by_cn = c.by_cn;
        };
        queues =
            map
              (λ q. record {
                name = q.0;
                message_count = length (q.1);
                consumer_count = length_or_zero (get (q.0) s.consumers);
              })
              s.queues;
        bindings = binding_statuses s.bindings;
        exchanges = keys s.exchanges;
      }

-- What comes from outside: the numbers, the JSON and the `{:?}` of a table as texts.
pub record Printer : Type 0 where
  pub show : ℕ → String
  pub to_string : Status → String
  pub debug : Table ℕ → String

-- What a round of the loop of a console finds: a line, whether its answer could be written, and the seconds
-- since the start; the end of the stream; or an error.
pub data Line (S F : Type 0) : Type 0 where
  gives : String → Bool → ℕ → Server S F → Line S F
  ends fails : Line S F

abbrev pub is_admin : Role → Bool
is_admin admin = true
is_admin _ = false

module _ {S F : Type 0} (p : Printer) (snapshot : ServerSnapshot) where
  unfoldable pub respond : String → ℕ → Server S F → String
  unfolding json_status render_prometheus render_status total
  respond cmd uptime srv =
      if cmd == "json"
      then p.to_string (json_status snapshot uptime srv)
      else if cmd == "metrics"
      then render_prometheus p.show snapshot uptime srv.metrics
      else if cmd == "status"
      then render_status p.show snapshot uptime srv.metrics
      else if cmd == "connections"
      then format (
          "By IP: "
          ∷ p.debug srv.rate_limiter.connections.by_ip
          ∷ "\nBy CN: "
          ∷ p.debug srv.rate_limiter.connections.by_cn
          ∷ "\n"
          ∷ [])
      else if cmd == "queues"
      then format (
          "Queues: "
          ∷ p.show (length srv.state.queues)
          ∷ "\nMessages: "
          ∷ p.show (total srv.state.queues)
          ∷ "\nConsumers: "
          ∷ p.show (total srv.state.consumers)
          ∷ "\n"
          ∷ [])
      else "Unknown command\n"

  -- What is written on a connection, behind the banner.
  unfoldable pub command_loop : List (Line S F) → List String
  unfolding respond
  command_loop [] = []
  command_loop (ends ∷ lines) = []
  command_loop (fails ∷ lines) = []
  command_loop (gives line written uptime srv ∷ lines) =
      let cmd = trim line in
      let rest = command_loop lines in
      let response = format (respond cmd uptime srv ∷ "\n" ∷ []) in
      if cmd == "quit" || cmd == "exit" then [] else if written then response ∷ rest else []

  -- A connection, with the name in its certificate and whether the banner could be written.
  unfoldable pub serve_connection : AclManager → String → Bool → List (Line S F) → List String
  unfolding command_loop resolve_role
  serve_connection acl client_cn greets lines =
      let answers = command_loop lines in
      if is_admin (resolve_role acl client_cn)
      then (if greets then "CipherMQ Admin\n" ∷ answers else [])
      else []
