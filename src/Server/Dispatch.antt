-- ===== src/Server/Dispatch.antt =====
-- What `handle_client` in server/src/server.rs does with the text of one read: the heartbeat, the two
-- checks, and the `match` on the command.
use cipher_mq.Common.{
  ℕ, String, Bool, ◌||◌, List, [], ◌∷◌, ◌==◌, if◌then◌else◌, format, splitn, trim, get_elem?,
}
use mathlib.Core.Option
use cipher_mq.Storage.{StorageApi}
use cipher_mq.Heartbeat.{record_heartbeat}
use cipher_mq.RateLimiter.{Float, check, is_allowed}
use cipher_mq.Acl.{allowed, denied, as_str, check_command}
use cipher_mq.Server.{Json, Server, Session, Clock, Reply, plain}
use cipher_mq.Server.Requests.{
  count_rate_limited, handle_declare_queue, handle_declare_exchange, handle_bind, handle_consume,
  handle_heartbeat, handle_ack, handle_resend, handle_register_public_key, handle_get_public_key,
  handle_publish, handle_publish_batch,
}

-- `parts.get(i).unwrap_or(&"")`
abbrev pub part : ℕ → List String → String
part i parts = Option.get_or (get_elem? parts i) ""

-- The commands that the rate limiter counts as publications.
abbrev pub is_publish : String → Bool
is_publish command = command == "publish" || command == "publish_batch"

module _ {S F : Type 0} where
  abbrev pub no_task : Server S F × String → Server S F × Reply
  no_task r = (r.0, plain r.1)

  -- Notes the heartbeat of the read.
  abbrev pub heard : Session → Clock → Server S F → Server S F
  heard sess clock srv = record srv {
    heartbeat_monitor = record_heartbeat sess.client_id clock.now srv.heartbeat_monitor;
  }

module _ {S F : Type 0} (api : StorageApi S) (json : Json) where
  -- The `match` on the command.
  unfoldable pub dispatch : Session → Clock → String → String → Server S F → Server S F × Reply
  unfolding handle_declare_queue handle_declare_exchange handle_bind handle_consume handle_heartbeat
      handle_ack handle_resend handle_register_public_key handle_get_public_key handle_publish
      handle_publish_batch
  dispatch sess clock command args srv =
      if command == "declare_queue"
      then no_task (handle_declare_queue sess args srv)
      else if command == "declare_exchange"
      then no_task (handle_declare_exchange args srv)
      else if command == "bind"
      then no_task (handle_bind sess (splitn 3 args) srv)
      else if command == "publish"
      then no_task (handle_publish api json sess clock (splitn 3 args) srv)
      else if command == "publish_batch"
      then no_task (handle_publish_batch api json sess clock (splitn 3 args) srv)
      else if command == "consume"
      then handle_consume sess args srv
      else if command == "ack"
      then handle_ack api clock args srv
      else if command == "resend"
      then no_task (handle_resend api sess args srv)
      else if command == "register_public_key"
      then no_task (handle_register_public_key api sess args srv)
      else if command == "get_public_key"
      then no_task (handle_get_public_key api args srv)
      else if command == "heartbeat"
      then no_task (handle_heartbeat sess clock srv)
      else (srv, plain "Unknown command\n")

module _ {S F : Type 0} (api : StorageApi S) (json : Json) (float : Float F) where
  -- The rate limiter's check and what follows it.
  unfoldable pub limit_request : Session → Clock → String → String → Server S F → Server S F × Reply
  unfolding dispatch check count_rate_limited
  limit_request sess clock command args srv =
      let (verdict, limiter) =
        check float sess.client_id (is_publish command) clock.now srv.rate_limiter in
      let limited : Server S F = record srv { rate_limiter = limiter } in
      if is_allowed verdict
      then dispatch api json sess clock command args limited
      else (count_rate_limited limited, plain "Rate limited\n")

  -- A command that is denied does not reach the rate limiter.
  unfoldable pub authorise : Session → Clock → String → String → Server S F → Server S F × Reply
  unfolding limit_request check_command
  authorise sess clock command args srv = elim (check_command sess.role command) [
    | denied reason ↦ (
      count_rate_limited srv,
      plain (format ("Access denied: " ∷ reason ∷ " (role=" ∷ as_str sess.role ∷ ")\n" ∷ [])),
    )
    | allowed ↦ limit_request sess clock command args srv
  ]

  -- The whole text of the read is one request.
  unfoldable pub process_request : Session → Clock → String → Server S F → Server S F × Reply
  unfolding authorise
  process_request sess clock input srv =
      let parts = splitn 2 (trim input) in
      authorise sess clock (part 0 parts) (part 1 parts) (heard sess clock srv)
