-- ===== src/Startup.antt =====
-- `main` of server/src/main.rs: what it does until it serves, and the loop that accepts connections until the
-- shutdown. What the libraries and the operating system give are arguments.
use cipher_mq.Common.{
  ℕ, ◌≡◌, refl, inl, inr, String, Bool, true, false, Option, none, some, List, [], ◌∷◌, ◌==◌,
  if◌then◌else◌, is_some, Result, ok, err, ◌>>=◌, arith,
}
use cipher_mq.State.{decrement_client_count}
use cipher_mq.Config.{Config, TlsConfig}
use cipher_mq.Config.Checks.{IsUsable}
use cipher_mq.RateLimiter.{RateLimitConfig}
use cipher_mq.Acl.{AclManager}
use cipher_mq.Acl
use cipher_mq.Server.{Server}

-- How the program starts: an `unwrap` panics, `main` returns an error, or it serves with a handler.
pub data Start (H : Type 0) : Type 0 where
  panics : Start H
  exits : String → Start H
  serves : H → Start H

-- The limits and the roles that `main` takes from the configuration.
abbrev pub rate_limits : {F : Type 0} → Config F → RateLimitConfig F
rate_limits config = record {
  global_rps = config.rate_limit.global_rps;
  global_burst = config.rate_limit.global_burst;
  publish_rps = config.rate_limit.publish_rps;
  publish_burst = config.rate_limit.publish_burst;
  max_connections_per_ip = config.rate_limit.max_connections_per_ip;
  max_connections_per_cn = config.rate_limit.max_connections_per_cn;
}

abbrev pub roles : {F : Type 0} → Config F → AclManager
roles config = Acl.new config.acl.sender_cns config.acl.receiver_cns config.acl.admin_cns

-- `ok_or`
abbrev pub ok_or : {A : Type 0} → String → Option A → Result String A
ok_or e (some a) = ok a
ok_or e none = err e

abbrev pub started : {H : Type 0} → Result String H → Start H
started (ok handler) = serves handler
started (err e) = exits e

-- The `unwrap`s for the admin server.
abbrev pub has_paths : TlsConfig → Bool
has_paths tls =
    if is_some tls.cert_path
    then (if is_some tls.key_path then is_some tls.ca_cert_path else false)
    else false

module _ {F H : Type 0} (auth : String → String → String → Result String H) where
  -- The handler of the connections, by the type of connection.
  unfoldable pub handler_of : Config F → Result String H
  handler_of config =
      if config.server.connection_type == "tls"
      then (ok_or "Missing cert_path for TLS" config.tls.cert_path >>= λ cert_path.
          ok_or "Missing key_path for TLS" config.tls.key_path >>= λ key_path.
          ok_or "Missing ca_cert_path for TLS" config.tls.ca_cert_path >>= λ ca_cert_path.
          auth cert_path key_path ca_cert_path)
      else err "Invalid connection_type in config"

  -- What follows the loading of the configuration: the storage, the admin server, the listener, the
  -- messages that are not acknowledged, and the handler.
  unfoldable pub start :
      Result String (Unit {0})
      → Result String (Unit {0})
      → Result String (Unit {0})
      → Config F
      → Start H
  unfolding handler_of
  start (err e) listener unacknowledged config = exits e
  start (ok _) listener unacknowledged config =
      let rest = started (listener >>= λ _. unacknowledged >>= λ _. handler_of config) in
      if config.admin.enabled then (if has_paths config.tls then rest else panics) else rest

  -- The configuration of a server for TLS that was loaded starts the admin server without a panic.
  pub start-IsUsable :
      (decode : String → Result String (List ℕ))
      (storage listener unacknowledged : Result String (Unit {0})) (config : Config F)
      → IsUsable decode config
      → config.server.connection_type ≡ "tls"
      → start storage listener unacknowledged config
        ≡ started (storage >>= λ _. listener >>= λ _. unacknowledged >>= λ _. handler_of config)
  unfolding start
  start-IsUsable decode (err e) listener unacknowledged config v h = refl
  start-IsUsable decode (ok _) listener unacknowledged config v h = elim (v.certificates) [
    | inl other ↦ absurd (other h)
    | inr (cert, key, ca) ↦ ground arith
  ]

-- What the loop of `select!` finds: a connection, with its name or the error of its handshake, and its
-- address; a connection that was not accepted; or the signal to shut down.
pub data Accepted : Type 0 where
  connects : Result String String → String → Accepted
  fails shuts_down : Accepted

abbrev pub count_out : {S F : Type 0} → Server S F → Server S F
count_out srv = record srv { state = decrement_client_count srv.state }

-- The loop, and what it does behind it: the connections that `handle_client` is started for, the server,
-- and whether it was shut down. A handshake that fails counts a client out, and so does the shutdown.
unfoldable pub serve :
    {S F : Type 0} → List Accepted → Server S F → List (String × String) × Server S F × Bool
serve [] srv = ([], srv, false)
serve (connects (ok client_id) ip ∷ events) srv =
    let (spawned, srv₁, stopped) = serve events srv in ((client_id, ip) ∷ spawned, srv₁, stopped)
serve (connects (err e) ip ∷ events) srv = serve events (count_out srv)
serve (fails ∷ events) srv = serve events srv
serve (shuts_down ∷ events) srv = ([], count_out srv, true)
