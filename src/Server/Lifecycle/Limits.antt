-- ===== src/Server/Lifecycle/Limits.antt =====
-- The connection counters of the rate limiter over the lives of connections: server/src/server.rs
-- asks for a connection, and gives none back.
use cipher_mq.Common.{
  ℕ, ◌+◌, ◌≡◌, ◌∙◌, ap, refl, inl, inr, String, Bool, some, List, [], ◌∷◌, Option-cases, arith,
  if_split, splitn, trim, eq_refl, get-insert,
}
use cipher_mq.Storage.{StorageApi}
use cipher_mq.RateLimiter.{Float, RateLimiter, check, check_connection, is_allowed, count_of}
use cipher_mq.Acl.{AclManager, AuthResult-cases, check_command}
use cipher_mq.Server.{Json, Server, Session, Clock, Reply}
use cipher_mq.Server.Requests.{count_rate_limited}
use cipher_mq.Server.Effects.Untouched.{dispatch-Beat}
use cipher_mq.Server.Dispatch.{part, heard, is_publish, limit_request, authorise, process_request}
use cipher_mq.Server.Lifecycle.{
  message_line, Event, reads, read_ends, read_fails, read_times_out, receives, Sending,
  send_retrying, max_retries, recv, disconnect, count_out, spawn, connect, leave, conclude, deliver,
  answer, step, rounds,
}

module _ {S F : Type 0} where
  -- The same counters of connections.
  abbrev Same : Server S F → Server S F → Type 0
  Same srv srv' = srv'.rate_limiter.connections ≡ srv.rate_limiter.connections

module _ {S F : Type 0} (api : StorageApi S) (json : Json) (float : Float F) where
  check-connections :
      (cn : String) (is_publication : Bool) (now : ℕ) (l : RateLimiter F)
      → (check float cn is_publication now l).1.connections ≡ l.connections
  unfolding check
  check-connections cn is_publication now l = ground arith

  limit_request-Same :
      (sess : Session) (clock : Clock) (command args : String) (srv : Server S F)
      → Same srv (limit_request api json float sess clock command args srv).0
  unfolding limit_request count_rate_limited
  limit_request-Same sess clock command args srv =
      let (verdict, limiter) =
        check float sess.client_id (is_publish command) clock.now srv.rate_limiter in
      if_split (λ (r : Server S F × Reply). Same srv r.0) (is_allowed verdict)
        (λ _.
          ap (λ l. l.connections)
            (dispatch-Beat api json sess clock command args
              (record srv { rate_limiter = limiter })).0
          ∙ check-connections sess.client_id (is_publish command) clock.now srv.rate_limiter)
        (check-connections sess.client_id (is_publish command) clock.now srv.rate_limiter)

  process_request-Same :
      (sess : Session) (clock : Clock) (input : String) (srv : Server S F)
      → Same srv (process_request api json float sess clock input srv).0
  unfolding process_request authorise count_rate_limited
  process_request-Same sess clock input srv =
      let command = part 0 (splitn 2 (trim input)) in
      elim (AuthResult-cases (check_command sess.role command)) [
        | inr (reason, refused) ↦ rw (refused, authorise) refl
        | inl permitted ↦
            rw (permitted, authorise)
              (limit_request-Same sess clock command (part 1 (splitn 2 (trim input)))
                (heard sess clock srv))
      ]

  conclude-Same :
      (clock : Clock) (id text : String) (end : Sending × ℕ) (srv : Server S F)
      → Same srv (conclude api json clock id text end srv).server
  unfolding conclude count_out
  conclude-Same clock id text (end, n) srv = ground arith

  step-Same :
      (sess : Session) (clock : Clock) (e : Event) (srv : Server S F)
      → Same srv (step api json float sess clock e srv).server
  unfolding step disconnect answer count_out spawn deliver
  step-Same sess clock (reads input fate) srv =
      ground (arith, process_request-Same sess clock input srv)
  step-Same sess clock read_ends srv = refl
  step-Same sess clock read_fails srv = refl
  step-Same sess clock read_times_out srv = refl
  step-Same sess clock (receives stream) srv =
      elim (Option-cases (recv sess.channel srv.state.channels)) [
        | inl empty ↦ rw (empty, step) refl
        | inr ((e, chs), found) ↦
            let text = message_line e.0 (json.show_message e.1) in
            rw (found, step)
              (ground (
                arith,
                conclude-Same clock e.0 text (send_retrying max_retries 0 stream)
                    (record srv { state = record (srv.state) { channels = chs } }),
              ))
      ]

  rounds-Same :
      (sess : Session) (es : List (Clock × Event)) (srv : Server S F)
      → Same srv (rounds api json float sess es srv).server
  unfolding rounds leave
  rounds-Same sess [] srv = refl
  rounds-Same sess (e ∷ es) srv = ground (
    arith,
    step-Same sess e.0 e.1 srv,
    rounds-Same sess es (step api json float sess e.0 e.1 srv).server,
  )

  -- A connection that is accepted adds one to the counters of its name and of its address, and neither
  -- its rounds nor its end take that back.
  pub rounds-connections :
      (acl : AclManager) (client_id ip : String) (clock : Clock) (srv : Server S F) (sess : Session)
      (es : List (Clock × Event))
      → (connect acl client_id ip clock srv).0 ≡ some sess
      → let c = srv.rate_limiter.connections in
        let c' =
          (rounds api json float sess es (connect acl client_id ip clock srv).1.server
            ).server.rate_limiter.connections in
        (count_of client_id c'.by_cn ≡ count_of client_id c.by_cn + 1)
        × (count_of ip c'.by_ip ≡ count_of ip c.by_ip + 1)
  unfolding connect check_connection
  rounds-connections acl client_id ip clock srv sess es accepted =
      let c = srv.rate_limiter.connections in
      ground (
        arith,
        rounds-Same sess es (connect acl client_id ip clock srv).1.server,
        eq_refl client_id,
        eq_refl ip,
        get-insert client_id client_id (count_of client_id c.by_cn + 1) c.by_cn,
        get-insert ip ip (count_of ip c.by_ip + 1) c.by_ip,
      )
