-- ===== src/Server/World/Hearts.antt =====
-- Whose heartbeats the monitor holds: what the rounds of a connection (server/src/server.rs) do to them.
use cipher_mq.Common.{
  ℕ, ◌≤◌, ◌≡◌, ◌⊎◌, refl, inl, inr, String, ◌==◌, if◌then◌else◌, contains_key, splitn, trim, arith,
  Option-cases, Bool-cases, contains_key-insert, get-remove, get-remove_all, keys_where,
}
use cipher_mq.Storage.{StorageApi}
use cipher_mq.Heartbeat.{
  HeartbeatMonitor, record_heartbeat, remove_client, monitor_task, is_timed_out,
}
use cipher_mq.RateLimiter.{Float, check, is_allowed}
use cipher_mq.Acl.{AuthResult-cases, check_command}
use cipher_mq.Server.{Json, Server, Session, Clock}
use cipher_mq.Server.Requests.{count_rate_limited}
use cipher_mq.Server.Effects.Untouched.{dispatch-Beat}
use cipher_mq.Server.Dispatch.{part, is_publish, heard, limit_request, authorise, process_request}
use cipher_mq.Server.Lifecycle.{
  message_line, Event, reads, read_ends, read_fails, read_times_out, receives, Sending,
  send_retrying, max_retries, recv, disconnect, count_out, spawn, conclude, deliver, answer, step,
}

-- 1 where the monitor has a heartbeat of the client.
abbrev pub beats : String → HeartbeatMonitor → ℕ
beats id m = if contains_key id m.heartbeats then 1 else 0

pub beats-record_heartbeat :
    (id client_id : String) (now : ℕ) (m : HeartbeatMonitor)
    → beats id (record_heartbeat client_id now m) ≡ (if client_id == id then 1 else beats id m)
unfolding record_heartbeat
beats-record_heartbeat id client_id now m =
    ground (arith, contains_key-insert id client_id now m.heartbeats)

pub beats-remove_client :
    (id client_id : String) (m : HeartbeatMonitor)
    → beats id (remove_client client_id m) ≡ (if client_id == id then 0 else beats id m)
unfolding remove_client
beats-remove_client id client_id m = ground (arith, get-remove id client_id m.heartbeats)

pub beats-monitor_task :
    (id : String) (now : ℕ) (m : HeartbeatMonitor) → beats id (monitor_task now m) ≤ beats id m
unfolding monitor_task
beats-monitor_task id now m = ground (
  arith,
  get-remove_all id (keys_where (is_timed_out now m.timeout_duration) m.heartbeats) m.heartbeats,
)

module _ {S F : Type 0} (api : StorageApi S) (json : Json) (float : Float F) where
  -- The monitor is as it was, or it has one more heartbeat of the client.
  abbrev Kin : Session → Clock → Server S F → Server S F → Type 0
  Kin sess clock srv srv' =
      (srv'.heartbeat_monitor ≡ srv.heartbeat_monitor)
      ⊎ (srv'.heartbeat_monitor ≡ record_heartbeat sess.client_id clock.now srv.heartbeat_monitor)

  limit_request-Kin :
      (sess : Session) (clock : Clock) (command args : String) (srv : Server S F)
      → Kin sess clock srv (limit_request api json float sess clock command args srv).0
  unfolding limit_request count_rate_limited
  limit_request-Kin sess clock command args srv =
      let (verdict, limiter) =
        check float sess.client_id (is_publish command) clock.now srv.rate_limiter in
      elim (Bool-cases (is_allowed verdict)) [
        | inl passed ↦
            rw (limit_request, passed)
              (dispatch-Beat api json sess clock command args
                (record srv { rate_limiter = limiter })).1
        | inr limited ↦ rw (limit_request, limited) (inl refl)
      ]

  process_request-Kin :
      (sess : Session) (clock : Clock) (input : String) (srv : Server S F)
      → Kin sess clock
          (heard sess clock srv)
          (process_request api json float sess clock input srv).0
  unfolding process_request authorise count_rate_limited
  process_request-Kin sess clock input srv =
      let command = part 0 (splitn 2 (trim input)) in
      elim (AuthResult-cases (check_command sess.role command)) [
        | inr (reason, refused) ↦ rw (refused, authorise) (inl refl)
        | inl permitted ↦
            rw (permitted, authorise)
              (limit_request-Kin sess clock command (part 1 (splitn 2 (trim input)))
                (heard sess clock srv))
      ]

  beats-process_request :
      (id : String) (sess : Session) (clock : Clock) (input : String) (srv : Server S F)
      → beats id (process_request api json float sess clock input srv).0.heartbeat_monitor
        ≡ (if sess.client_id == id then 1 else beats id srv.heartbeat_monitor)
  beats-process_request id sess clock input srv =
      let once = record_heartbeat sess.client_id clock.now srv.heartbeat_monitor in
      ground (
        arith,
        process_request-Kin sess clock input srv,
        beats-record_heartbeat id sess.client_id clock.now srv.heartbeat_monitor,
        beats-record_heartbeat id sess.client_id clock.now once,
      )

  conclude-heartbeat_monitor :
      (clock : Clock) (id text : String) (end : Sending × ℕ) (srv : Server S F)
      → (conclude api json clock id text end srv).server.heartbeat_monitor ≡ srv.heartbeat_monitor
  unfolding conclude count_out
  conclude-heartbeat_monitor clock id text (end, n) srv = ground arith

  -- A round of a connection adds no heartbeat but its own client's.
  pub beats-step :
      (id : String) (sess : Session) (clock : Clock) (event : Event) (srv : Server S F)
      → beats id (step api json float sess clock event srv).server.heartbeat_monitor
        ≤ (if sess.client_id == id then 1 else beats id srv.heartbeat_monitor)
  unfolding step disconnect answer count_out spawn deliver
  beats-step id sess clock (reads input fate) srv =
      ground (arith, beats-process_request id sess clock input srv)
  beats-step id sess clock read_ends srv =
      ground (arith, beats-remove_client id sess.client_id srv.heartbeat_monitor)
  beats-step id sess clock read_fails srv =
      ground (arith, beats-remove_client id sess.client_id srv.heartbeat_monitor)
  beats-step id sess clock read_times_out srv = ground arith
  beats-step id sess clock (receives stream) srv =
      elim (Option-cases (recv sess.channel srv.state.channels)) [
        | inl empty ↦ rw (empty, step) (ground arith)
        | inr ((e, chs), found) ↦
            let text = message_line e.0 (json.show_message e.1) in
            rw (found, step)
              (ground (
                arith,
                conclude-heartbeat_monitor clock e.0 text (send_retrying max_retries 0 stream)
                    (record srv { state = record (srv.state) { channels = chs } }),
              ))
      ]
