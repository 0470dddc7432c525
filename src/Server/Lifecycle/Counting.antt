-- ===== src/Server/Lifecycle/Counting.antt =====
-- What the lives of connections (server/src/server.rs) add up to: the count of the clients, and the
-- counters of the rate limiter.
use cipher_mq.Common.{
  ℕ, ◌+◌, ◌-◌, ◌%◌, ◌<◌, ◌≡◌, refl, inl, inr, String, Bool, some, List, [], ◌∷◌, if◌then◌else◌,
  Option-cases, arith,
}
use cipher_mq.Storage.{StorageApi}
use cipher_mq.State.{Entry, ServerState, decrement_client_count, increment_client_count, usize_mod}
use cipher_mq.RateLimiter.{Float, check_connection}
use cipher_mq.Acl.{AclManager}
use cipher_mq.Server.{Json, Server, Session, Clock}
use cipher_mq.Server.Safety.{process_request-connected_clients}
use cipher_mq.Server.Lifecycle.{
  message_line, Attempt, Event, reads, read_ends, read_fails, read_times_out, receives, Sending,
  send_retrying, max_retries, recv, disconnect, count_out, spawn, connect, leave, mark_delivered,
  conclude, deliver, answer, step, rounds,
}

-- The count after a step on a count: one less when the loop ends.
abbrev pub counted : ℕ → Bool → ℕ
counted n goes_on = if goes_on then n else (n + usize_mod - 1) % usize_mod

module _ {S : Type 0} (api : StorageApi S) where
  mark_delivered-connected_clients :
      (id : String) (clock : Clock) (st : ServerState S)
      → (mark_delivered api id clock st).connected_clients ≡ st.connected_clients
  unfolding mark_delivered
  mark_delivered-connected_clients id clock st = ground arith

module _ {S F : Type 0} (api : StorageApi S) (json : Json) where
  conclude-counted :
      (clock : Clock) (id text : String) (end : Sending × ℕ) (srv : Server S F)
      → (conclude api json clock id text end srv).server.state.connected_clients
        ≡ counted srv.state.connected_clients (conclude api json clock id text end srv).goes_on
  unfolding conclude count_out decrement_client_count
  conclude-counted clock id text (end, n) srv = ground (
    arith,
    mark_delivered-connected_clients api id clock srv.state,
    mark_delivered-connected_clients api id clock (mark_delivered api id clock srv.state),
  )

  deliver-counted :
      (clock : Clock) (e : Entry) (stream : ℕ → Attempt) (srv : Server S F)
      → (deliver api json clock e stream srv).server.state.connected_clients
        ≡ counted srv.state.connected_clients (deliver api json clock e stream srv).goes_on
  unfolding deliver
  deliver-counted clock e stream srv =
      let text = message_line e.0 (json.show_message e.1) in
      ground (arith, conclude-counted clock e.0 text (send_retrying max_retries 0 stream) srv)

module _ {S F : Type 0} (api : StorageApi S) (json : Json) (float : Float F) where
  answer-counted :
      (sess : Session) (clock : Clock) (input : String) (fate : Attempt) (srv : Server S F)
      → (answer api json float sess clock input fate srv).server.state.connected_clients
        ≡ counted srv.state.connected_clients
            (answer api json float sess clock input fate srv).goes_on
  unfolding answer count_out spawn decrement_client_count
  answer-counted sess clock input fate srv =
      ground (arith, process_request-connected_clients api json float sess clock input srv)

  pub step-counted :
      (sess : Session) (clock : Clock) (e : Event) (srv : Server S F)
      → (step api json float sess clock e srv).server.state.connected_clients
        ≡ counted srv.state.connected_clients (step api json float sess clock e srv).goes_on
  unfolding step disconnect decrement_client_count
  step-counted sess clock (reads input fate) srv = answer-counted sess clock input fate srv
  step-counted sess clock read_ends srv = refl
  step-counted sess clock read_fails srv = refl
  step-counted sess clock read_times_out srv = refl
  step-counted sess clock (receives stream) srv =
      elim (Option-cases (recv sess.channel srv.state.channels)) [
        | inl empty ↦ rw (empty, step) refl
        | inr ((e, chs), found) ↦
            rw (found, step)
              (deliver-counted api json clock e stream
                (record srv { state = record (srv.state) { channels = chs } }))
      ]

  rounds-counted :
      (sess : Session) (es : List (Clock × Event)) (srv : Server S F)
      → (rounds api json float sess es srv).server.state.connected_clients
        ≡ counted srv.state.connected_clients (rounds api json float sess es srv).goes_on
  unfolding rounds leave
  rounds-counted sess [] srv = refl
  rounds-counted sess (e ∷ es) srv = ground (
    arith,
    step-counted sess e.0 e.1 srv,
    rounds-counted sess es (step api json float sess e.0 e.1 srv).server,
  )

  pub connect-counted :
      (acl : AclManager) (client_id ip : String) (clock : Clock) (srv : Server S F) (sess : Session)
      → (connect acl client_id ip clock srv).0 ≡ some sess
      → (connect acl client_id ip clock srv).1.server.state.connected_clients
        ≡ (srv.state.connected_clients + 1) % usize_mod
  unfolding connect increment_client_count check_connection
  connect-counted acl client_id ip clock srv sess accepted = ground (arith)

  -- A connection that is accepted is counted as a client for as long as its loop goes on, and when the
  -- loop has ended, in whatever way, the count is again what it was before the connection.
  pub rounds-connect :
      (acl : AclManager) (client_id ip : String) (clock : Clock) (srv : Server S F) (sess : Session)
      (es : List (Clock × Event))
      → (connect acl client_id ip clock srv).0 ≡ some sess
      → srv.state.connected_clients < usize_mod
      → let turn = rounds api json float sess es (connect acl client_id ip clock srv).1.server in
        turn.server.state.connected_clients ≡ (
          if turn.goes_on
          then (srv.state.connected_clients + 1) % usize_mod
          else srv.state.connected_clients)
  rounds-connect acl client_id ip clock srv sess es accepted h = ground (
    arith,
    connect-counted acl client_id ip clock srv sess accepted,
    rounds-counted sess es (connect acl client_id ip clock srv).1.server,
  )
