-- ===== src/Server/World/Invariant.antt =====
-- What holds of the server however its tasks (server/src/main.rs, server/src/server.rs) take turns.
use cipher_mq.Common.{
  ℕ, ◌+◌, ◌-◌, ◌%◌, ◌≤◌, ◌<◌, ◌≡◌, ◌∙◌, refl, sym, subst, ap, inl, inr, String, Bool, true, false,
  Option, none, some, List, [], ◌∷◌, ◌++◌, ◌==◌, eqb, if◌then◌else◌, length, count, length-append,
  count-append, arith, Option-cases, Bool-cases, if_split,
}
use cipher_mq.Storage.{StorageApi}
use cipher_mq.State.{ServerState, new, usize_mod, increment_client_count, decrement_client_count}
use cipher_mq.State.Cleanup.{
  expired_messages, drop_message, drop_messages, cleanup_old_messages, cleanup_dead_consumers,
}
use cipher_mq.State.Invariant.{IsValid}
use cipher_mq.State.Invariant.Operations.{
  new-IsValid, cleanup_old_messages-IsValid, cleanup_dead_consumers-IsValid,
}
use cipher_mq.Heartbeat
use cipher_mq.RateLimiter.{Float, RateLimitConfig}
use cipher_mq.Acl.{AclManager}
use cipher_mq.Server.{Json, Session, Clock}
use cipher_mq.Server.Lifecycle.{Event, count_out, connect, leave, step}
use cipher_mq.Server.Lifecycle.Counting.{step-counted, connect-counted}
use cipher_mq.Server.World.{
  World, started, welcome, go_on, fail, tick, expire, sweep, Step, connects, fails, runs, ticks,
  expires, sweeps, Reach, here, next, max_age,
}
use cipher_mq.Server.Lifecycle.Validity.{step-IsValid}
use cipher_mq.Server.World.Owners.{
  flags, opened, owners, opened-close, opened-append, opened-le-one,
}
use cipher_mq.Server.World.Owners.Rounds.{flags-step}
use cipher_mq.Server.World.Hearts.{
  beats, beats-record_heartbeat, beats-remove_client, beats-monitor_task, beats-step,
}

-- How many of the connections are a client's.
abbrev pub connections_of : String → List Session → ℕ
connections_of id live = count (λ s. s.client_id == id) live

-- The broker is well-formed; the count of the clients is that of the connections less the handshakes that
-- failed; each open channel has one connection that receives from it, and each connection an open channel
-- of its own; and each heartbeat is that of a client with a connection.
pub record Sound {S F : Type 0} (w : World S F) : Type 0 where
  pub valid : IsValid w.server.state
  pub counted :
      (w.server.state.connected_clients + w.failures) % usize_mod ≡ length w.live % usize_mod
  pub owned : (i : ℕ) → owners i w.live ≡ opened (flags w.server.state.channels) i
  pub beating : (id : String) → beats id w.server.heartbeat_monitor ≤ connections_of id w.live

pub started-Sound :
    {S F : Type 0} (storage : S) (size timeout : ℕ) (limits : RateLimitConfig F)
    → Sound (started storage size timeout limits)
unfolding new cipher_mq.Heartbeat.new cipher_mq.Common.get
started-Sound storage size timeout limits = record {
  valid = new-IsValid storage size;
  counted = refl;
  owned = λ i. refl;
  beating = λ id. omega arith;
}

module _ {S F : Type 0} (api : StorageApi S) (json : Json) (float : Float F) (acl : AclManager)
    (client_id ip : String) (clock : Clock) (w : World S F) (s : Sound w) where
  accepted-Sound :
      (sess : Session)
      → (connect acl client_id ip clock w.server).0 ≡ some sess
      → Sound (record w {
        server = (connect acl client_id ip clock w.server).1.server;
        live = w.live ++ sess ∷ [];
      })
  unfolding connect increment_client_count
  accepted-Sound sess accepted =
      let v = s.valid in
      record {
        valid = record { queues = ground (arith, v.queues); bindings = ground (arith, v.bindings) };
        counted = ground (
          arith,
          s.counted,
          length-append w.live (sess ∷ []),
          connect-counted api json float acl client_id ip clock w.server sess accepted,
        );
        owned = λ i. ground (
          arith,
          s.owned i,
          count-append (λ (s : Session). eqb s.channel i) w.live (sess ∷ []),
          opened-append w.server.state.channels (record { waiting = []; is_open = true }) i,
        );
        beating = λ id. ground (
          arith,
          s.beating id,
          count-append (λ (s : Session). s.client_id == id) w.live (sess ∷ []),
          beats-record_heartbeat id client_id clock.now w.server.heartbeat_monitor,
        );
      }

  refused-Sound :
      (connect acl client_id ip clock w.server).0 ≡ none
      → Sound (welcome client_id (none, (connect acl client_id ip clock w.server).1) w)
  unfolding connect welcome
  refused-Sound refused =
      let v = s.valid in
      record {
        valid = record { queues = ground (arith, v.queues); bindings = ground (arith, v.bindings) };
        counted = ground (arith, s.counted);
        owned = λ i. ground (arith, s.owned i);
        beating = λ id.
            ground
              (arith, s.beating id, beats-remove_client id client_id w.server.heartbeat_monitor);
      }

  welcome-Sound : Sound (welcome client_id (connect acl client_id ip clock w.server) w)
  unfolding welcome
  welcome-Sound = elim (Option-cases (connect acl client_id ip clock w.server).0) [
    | inl refused ↦
        subst (λ o. Sound (welcome client_id (o, (connect acl client_id ip clock w.server).1) w))
          (sym refused) (refused-Sound refused)
    | inr (sess, accepted) ↦
        subst (λ o. Sound (welcome client_id (o, (connect acl client_id ip clock w.server).1) w))
          (sym accepted) (accepted-Sound sess accepted)
  ]

module _ {S F : Type 0} (api : StorageApi S) (json : Json) (float : Float F) (w : World S F)
    (s : Sound w) where
  go_on-Sound :
      (before after : List Session) (sess : Session) (clock : Clock) (event : Event)
      → w.live ≡ before ++ sess ∷ after
      → Sound (go_on sess before after (step api json float sess clock event w.server) w)
  unfolding go_on leave
  go_on-Sound before after sess clock event is_live =
      let turn = step api json float sess clock event w.server in
      let v = step-IsValid api json float sess clock event w.server s.valid in
      record {
        valid =
            if_split (λ (u : World S F). IsValid u.server.state) turn.goes_on (λ _. v)
              (record { queues = v.queues; bindings = v.bindings });
        counted = ground (
          arith,
          s.counted,
          is_live,
          length-append before (sess ∷ after),
          length-append before after,
          step-counted api json float sess clock event w.server,
        );
        owned = λ i. ground (
          arith,
          s.owned i,
          is_live,
          count-append (λ (s : Session). eqb s.channel i) before (sess ∷ after),
          count-append (λ (s : Session). eqb s.channel i) before after,
          flags-step api json float sess clock event w.server,
          opened-le-one (flags w.server.state.channels) i,
          opened-close sess.channel i turn.server.state.channels,
        );
        beating = λ id. ground (
          arith,
          s.beating id,
          is_live,
          count-append (λ (s : Session). s.client_id == id) before (sess ∷ after),
          count-append (λ (s : Session). s.client_id == id) before after,
          beats-step api json float id sess clock event w.server,
          beats-remove_client id sess.client_id turn.server.heartbeat_monitor,
        );
      }

module _ {S : Type 0} where
  drop_messages-keeps :
      (ids : List String) (st : ServerState S)
      → ((drop_messages ids st).connected_clients ≡ st.connected_clients)
        × ((drop_messages ids st).channels ≡ st.channels)
  unfolding drop_messages drop_message
  drop_messages-keeps [] st = (refl, refl)
  drop_messages-keeps (id ∷ ids) st = drop_messages-keeps ids (drop_message id st)

  cleanup_old_messages-keeps :
      (now age : ℕ) (st : ServerState S)
      → ((cleanup_old_messages now age st).connected_clients ≡ st.connected_clients)
        × ((cleanup_old_messages now age st).channels ≡ st.channels)
  unfolding cleanup_old_messages
  cleanup_old_messages-keeps now age st =
      drop_messages-keeps (expired_messages now age st.message_status) st

module _ {S F : Type 0} where
  fail-Sound : (w : World S F) → Sound w → Sound (fail w)
  unfolding count_out decrement_client_count
  fail-Sound w s = record {
    valid = record { queues = s.valid.queues; bindings = s.valid.bindings };
    counted = omega (arith, s.counted);
    owned = s.owned;
    beating = s.beating;
  }

  tick-Sound : (now : ℕ) (w : World S F) → Sound w → Sound (tick now w)
  tick-Sound now w s = record {
    valid = s.valid;
    counted = s.counted;
    owned = s.owned;
    beating =
        λ id. omega (arith, s.beating id, beats-monitor_task id now w.server.heartbeat_monitor);
  }

  expire-Sound : (now : ℕ) (w : World S F) → Sound w → Sound (expire now w)
  expire-Sound now w s =
      let same = cleanup_old_messages-keeps now max_age w.server.state in
      record {
        valid = cleanup_old_messages-IsValid now max_age w.server.state s.valid;
        counted = ground (arith, s.counted, same);
        owned = λ i. ground (arith, s.owned i, same);
        beating = s.beating;
      }

  sweep-Sound : (w : World S F) → Sound w → Sound (sweep w)
  unfolding cleanup_dead_consumers
  sweep-Sound w s = record {
    valid = cleanup_dead_consumers-IsValid w.server.state s.valid;
    counted = s.counted;
    owned = s.owned;
    beating = s.beating;
  }

module _ {S F : Type 0} (api : StorageApi S) (json : Json) (float : Float F)
    (acl : AclManager) where
  Step-Sound : {w v : World S F} → Step api json float acl w v → Sound w → Sound v
  Step-Sound {w} (connects client_id ip clock e) s =
      subst Sound (sym e) (welcome-Sound api json float acl client_id ip clock w s)
  Step-Sound {w} (fails e) s = subst Sound (sym e) (fail-Sound w s)
  Step-Sound {w} (runs before after sess clock event is_live e) s =
      subst Sound (sym e) (go_on-Sound api json float w s before after sess clock event is_live)
  Step-Sound {w} (ticks now e) s = subst Sound (sym e) (tick-Sound now w s)
  Step-Sound {w} (expires now e) s = subst Sound (sym e) (expire-Sound now w s)
  Step-Sound {w} (sweeps e) s = subst Sound (sym e) (sweep-Sound w s)

  -- However the connections, the heartbeat monitor and the two clean-up loops of a new server take turns: its
  -- broker is well-formed; the count of its clients is, up to multiples of 2^64, the number of the connections
  -- less that of the handshakes that failed; each open channel has exactly one connection, and each connection
  -- an open channel that is its own; and the monitor holds heartbeats only of clients with a connection.
  pub Reach-Sound :
      (storage : S) (size timeout : ℕ) (limits : RateLimitConfig F) (w : World S F)
      → Reach api json float acl (started storage size timeout limits) w
      → Sound w
  Reach-Sound storage size timeout limits w here = started-Sound storage size timeout limits
  Reach-Sound storage size timeout limits w (next r step) =
      Step-Sound step (Reach-Sound storage size timeout limits _ r)
