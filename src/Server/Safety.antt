-- ===== src/Server/Safety.antt =====
-- What no request can do, whoever sends it: `handle_client` of server/src/server.rs seen from the
-- broker's state.
use cipher_mq.Common.{
  subst, sym, ℕ, ◌≡◌, ◌⊎◌, ◌∙◌, refl, inl, inr, String, true, Bool-cases, if_split, splitn, trim,
  arith,
}
use cipher_mq.Storage.{StorageApi}
use cipher_mq.State.{EncryptedInputData, ServerState, declare_queue, declare_exchange, bind_queue}
use cipher_mq.State.Publish.{target_queues, publish, route}
use cipher_mq.State.Publish.Queues.{distribute-SameTopology}
use cipher_mq.State.Publish.Outcome.{publish_cases, saved_storage}
use cipher_mq.State.Deliver.{acknowledge, register_consumer}
use cipher_mq.State.Invariant.{IsValid}
use cipher_mq.State.Invariant.Operations.{
  declare_queue-IsValid, declare_exchange-IsValid, bind_queue-IsValid, publish-IsValid,
  register_consumer-IsValid, acknowledge-IsValid,
}
use cipher_mq.RateLimiter.{Float, check, is_allowed}
use cipher_mq.Acl.{Role, sender, AuthResult-cases, allowed, check_command, permits}
use cipher_mq.Server.{Json, Server, Session, Clock, Reply}
use cipher_mq.Server.Requests.{count_rate_limited}
use cipher_mq.Server.Dispatch.{part, heard, is_publish, limit_request, authorise, process_request}
use cipher_mq.Server.Effects.{Kept, Permitted, dispatch-keeps}

module _ {S F : Type 0} (api : StorageApi S) (json : Json) (float : Float F) where
  limit_request-keeps :
      {P : ServerState S → Type 0} (sess : Session)
      → Kept api sess.role P
      → (clock : Clock) (command args : String) (srv : Server S F) → Permitted sess.role command
      → P srv.state
      → P (limit_request api json float sess clock command args srv).0.state
  unfolding limit_request count_rate_limited
  limit_request-keeps {P} sess kept clock command args srv p v =
      let (verdict, limiter) =
        check float sess.client_id (is_publish command) clock.now srv.rate_limiter in
      if_split (λ (r : Server S F × Reply). P r.0.state) (is_allowed verdict)
        (λ _.
          dispatch-keeps kept json sess clock command args (record srv { rate_limiter = limiter }) p
            v)
        v

  pub process_request-keeps :
      {P : ServerState S → Type 0} (sess : Session)
      → Kept api sess.role P
      → (clock : Clock) (input : String) (srv : Server S F) → P srv.state
      → P (process_request api json float sess clock input srv).0.state
  unfolding process_request authorise count_rate_limited
  process_request-keeps sess kept clock input srv v =
      let command = part 0 (splitn 2 (trim input)) in
      elim (AuthResult-cases (check_command sess.role command)) [
        | inr (reason, refused) ↦ rw (refused, authorise) v
        | inl permitted ↦
            rw (permitted, authorise)
              (limit_request-keeps sess kept clock command (part 1 (splitn 2 (trim input)))
                (heard sess clock srv) permitted v)
      ]

  IsValid-Kept : (role : Role) → Kept api role IsValid
  IsValid-Kept role = record {
    declares = λ name st _ v. declare_queue-IsValid name st v;
    declares_exchange = λ name st _ v. declare_exchange-IsValid name st v;
    binds = λ queue exchange key st _ v. bind_queue-IsValid queue exchange key st v;
    publishes = λ exchange key m client_id time utc_now st _ v.
        publish-IsValid api exchange key m client_id time utc_now st v;
    registers = λ queue channel st _ v. register_consumer-IsValid queue channel st v;
    acknowledges = λ id time utc_now st _ v. acknowledge-IsValid api id time utc_now st v;
    stores = λ storage st v. record { queues = v.queues; bindings = v.bindings };
  }

  -- Whatever the text of a request is and whoever sends it, a valid broker stays valid: no queue grows
  -- beyond its bound, every message stands under its own identifier, and every binding is that of a
  -- declared exchange to a declared queue and stands there once.
  pub process_request-IsValid :
      (sess : Session) (clock : Clock) (input : String) (srv : Server S F)
      → IsValid srv.state
      → IsValid (process_request api json float sess clock input srv).0.state
  process_request-IsValid sess clock input srv v =
      process_request-keeps sess (IsValid-Kept sess.role) clock input srv v

  -- A request changes the broker only if the role of its sender permits the command and the rate
  -- limiter lets it pass.
  pub process_request-is_guarded :
      (sess : Session) (clock : Clock) (input : String) (srv : Server S F)
      → let command = part 0 (splitn 2 (trim input)) in
        ((process_request api json float sess clock input srv).0.state ≡ srv.state)
        ⊎ (check_command sess.role command ≡ allowed)
          × (is_allowed
                (check float sess.client_id (is_publish command) clock.now srv.rate_limiter).0
              ≡ true)
  unfolding process_request authorise limit_request count_rate_limited
  process_request-is_guarded sess clock input srv =
      let command = part 0 (splitn 2 (trim input)) in
      elim (AuthResult-cases (check_command sess.role command)) [
        | inr (reason, refused) ↦ inl (rw (refused, authorise) refl)
        | inl permitted ↦
            elim (Bool-cases (
              is_allowed
                (check float sess.client_id (is_publish command) clock.now srv.rate_limiter).0)) [
                  | inl passed ↦ inr (permitted, passed)
                  | inr limited ↦ inl (rw (permitted, authorise, limit_request, limited) refl)
                ]
      ]

  publish-keeps_topology :
      (exchange key : String) (m : EncryptedInputData) (client_id : String) (time : ℕ)
      (utc_now : String) (st : ServerState S)
      → let st' = (publish api exchange key m client_id time utc_now st).1 in
        (st'.bindings ≡ st.bindings)
        × (st'.exchanges ≡ st.exchanges)
        × (st'.connected_clients ≡ st.connected_clients)
  unfolding route
  publish-keeps_topology exchange key m client_id time utc_now st =
      publish_cases api exchange key m client_id time utc_now st
        (λ r.
          (r.1.bindings ≡ st.bindings)
          × (r.1.exchanges ≡ st.exchanges)
          × (r.1.connected_clients ≡ st.connected_clients))
        (λ _. (refl, refl, refl)) (λ _ _. (refl, refl, refl))
        (λ _ _.
          let st₁ : ServerState S = record st {
            storage = saved_storage api exchange key m client_id time utc_now st;
          } in
          ground (
            arith,
            distribute-SameTopology (m.message_id, m) time (target_queues st₁ exchange key) st₁,
          ))

  -- What only receivers and administrators may change.
  abbrev Routes : ServerState S → ServerState S → Type 0
  Routes st st' = (st'.bindings ≡ st.bindings) × (st'.exchanges ≡ st.exchanges)

  Routes-Kept : (st : ServerState S) → Kept api sender (Routes st)
  unfolding declare_queue declare_exchange bind_queue register_consumer acknowledge check_command
      permits
  Routes-Kept st = record {
    declares = λ name st' p v. ground arith;
    declares_exchange = λ name st' p v. ground arith;
    binds = λ queue exchange key st' p v. ground arith;
    publishes = λ exchange key m client_id time utc_now st' _ v.
        let same = publish-keeps_topology exchange key m client_id time utc_now st' in
        (same.0 ∙ v.0, same.1 ∙ v.1);
    registers = λ queue channel st' p v. ground arith;
    acknowledges = λ id time utc_now st' _ v. ground arith;
    stores = λ storage st' v. v;
  }

  -- No request of a sender creates an exchange or changes a binding: where messages go is up to
  -- receivers and administrators.
  pub process_request-routes :
      (sess : Session)
      → sess.role ≡ sender
      → (clock : Clock) (input : String) (srv : Server S F)
      → let st' = (process_request api json float sess clock input srv).0.state in
        (st'.bindings ≡ srv.state.bindings) × (st'.exchanges ≡ srv.state.exchanges)
  process_request-routes sess is_sender clock input srv =
      process_request-keeps sess
        (subst (λ role. Kept api role (Routes srv.state)) (sym is_sender) (Routes-Kept srv.state))
        clock input srv (refl, refl)

  abbrev Clients : ℕ → ServerState S → Type 0
  Clients n st = st.connected_clients ≡ n

  Clients-Kept : (n : ℕ) (role : Role) → Kept api role (Clients n)
  unfolding declare_queue declare_exchange bind_queue register_consumer acknowledge
  Clients-Kept n role = record {
    declares = λ name st p v. ground arith;
    declares_exchange = λ name st p v. ground arith;
    binds = λ queue exchange key st p v. ground arith;
    publishes = λ exchange key m client_id time utc_now st _ v.
        (publish-keeps_topology exchange key m client_id time utc_now st).2 ∙ v;
    registers = λ queue channel st p v. ground arith;
    acknowledges = λ id time utc_now st _ v. ground arith;
    stores = λ storage st v. v;
  }

  pub process_request-connected_clients :
      (sess : Session) (clock : Clock) (input : String) (srv : Server S F)
      → (process_request api json float sess clock input srv).0.state.connected_clients
        ≡ srv.state.connected_clients
  process_request-connected_clients sess clock input srv =
      process_request-keeps sess (Clients-Kept srv.state.connected_clients sess.role) clock input
        srv refl
