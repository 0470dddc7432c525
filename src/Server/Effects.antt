-- ===== src/Server/Effects.antt =====
-- What a request can do to the broker: only calls of `ServerState`'s methods, and of the storage.
pub mod Untouched
use cipher_mq.Common.{
  ℕ, String, List, [], ◌∷◌, ◌==◌, arith, inl, inr, if_split, ◌≡◌, ◌⊎◌, true, subst, eq_iff,
  Result-cases, splitn,
}
use cipher_mq.Storage.{StorageApi}
use cipher_mq.State.{
  EncryptedInputData, ServerState, save_public_key, get_public_key, declare_queue, declare_exchange,
  bind_queue,
}
use cipher_mq.State.Publish.{publish}
use cipher_mq.State.Deliver.{register_consumer, acknowledge}
use cipher_mq.Acl.{Role, allowed, check_command}
use cipher_mq.Server.{Json, Server, Session, Clock, Reply}
use cipher_mq.Server.Requests.{
  count_published, handle_declare_queue, handle_declare_exchange, handle_bind, handle_consume,
  handle_ack, handle_resend, handle_register_public_key, handle_get_public_key, publish_one,
  publish_all, handle_publish, handle_publish_batch,
}
use cipher_mq.Server.Dispatch.{dispatch}

abbrev pub Permitted : Role → String → Type 0
Permitted role command = check_command role command ≡ allowed

abbrev pub Publishing : Role → Type 0
Publishing role = Permitted role "publish" ⊎ Permitted role "publish_batch"

-- A property of the broker that the methods behind a role's commands keep.
pub record Kept {S : Type 0} (api : StorageApi S) (role : Role) (P : ServerState S → Type 0)
    : Type 0 where
  pub declares :
      (name : String) (st : ServerState S)
      → Permitted role "declare_queue"
      → P st
      → P (declare_queue name st)
  pub declares_exchange :
      (name : String) (st : ServerState S)
      → Permitted role "declare_exchange"
      → P st
      → P (declare_exchange name st)
  pub binds :
      (queue exchange key : String) (st : ServerState S)
      → Permitted role "bind"
      → P st
      → P (bind_queue queue exchange key st)
  pub publishes :
      (exchange key : String) (m : EncryptedInputData) (client_id : String) (time : ℕ)
      (utc_now : String) (st : ServerState S)
      → Publishing role
      → P st
      → P (publish api exchange key m client_id time utc_now st).1
  pub registers :
      (queue : String) (sender : ℕ) (st : ServerState S)
      → Permitted role "consume"
      → P st
      → P (register_consumer queue sender st).0
  pub acknowledges :
      (id : String) (time : ℕ) (utc_now : String) (st : ServerState S)
      → Permitted role "ack"
      → P st
      → P (acknowledge api id time utc_now st)
  pub stores : (storage : S) (st : ServerState S) → P st → P (record st { storage = storage })

Permitted-as :
    (role : Role) (command name : String)
    → Permitted role command
    → (command == name) ≡ true
    → Permitted role name
Permitted-as role command name p h = subst (Permitted role) ((eq_iff command name).0 h) p

module _ {S F : Type 0} {api : StorageApi S} {role : Role} {P : ServerState S → Type 0}
    (kept : Kept api role P) (json : Json) where
  handle_declare_queue-keeps :
      (sess : Session) (args : String) (srv : Server S F)
      → Permitted role "declare_queue"
      → P srv.state
      → P (handle_declare_queue sess args srv).0.state
  unfolding handle_declare_queue
  handle_declare_queue-keeps sess args srv p v = ground (arith, kept.declares args srv.state p v)

  handle_declare_exchange-keeps :
      (args : String) (srv : Server S F)
      → Permitted role "declare_exchange"
      → P srv.state
      → P (handle_declare_exchange args srv).0.state
  unfolding handle_declare_exchange
  handle_declare_exchange-keeps args srv p v =
      ground (arith, kept.declares_exchange args srv.state p v)

  handle_bind-keeps :
      (sess : Session) (args : List String) (srv : Server S F)
      → Permitted role "bind"
      → P srv.state
      → P (handle_bind sess args srv).0.state
  unfolding handle_bind
  handle_bind-keeps sess [] srv p v = v
  handle_bind-keeps sess (queue ∷ []) srv p v = v
  handle_bind-keeps sess (queue ∷ exchange ∷ []) srv p v = v
  handle_bind-keeps sess (queue ∷ exchange ∷ key ∷ _) srv p v =
      ground (arith, kept.binds queue exchange key srv.state p v)

  handle_consume-keeps :
      (sess : Session) (args : String) (srv : Server S F)
      → Permitted role "consume"
      → P srv.state
      → P (handle_consume sess args srv).0.state
  unfolding handle_consume
  handle_consume-keeps sess args srv p v =
      ground (arith, kept.registers args sess.channel srv.state p v)

  handle_ack-keeps :
      (clock : Clock) (args : String) (srv : Server S F)
      → Permitted role "ack"
      → P srv.state
      → P (handle_ack api clock args srv).0.state
  unfolding handle_ack
  handle_ack-keeps clock args srv p v =
      ground (arith, kept.acknowledges args clock.now clock.utc_now srv.state p v)

  handle_resend-keeps :
      (sess : Session) (args : String) (srv : Server S F)
      → P srv.state
      → P (handle_resend api sess args srv).0.state
  unfolding handle_resend
  handle_resend-keeps sess args srv v =
      ground
        (arith, kept.stores (api.get_client_id_for_message args srv.state.storage).1 srv.state v)

  handle_register_public_key-keeps :
      (sess : Session) (args : String) (srv : Server S F)
      → P srv.state
      → P (handle_register_public_key api sess args srv).0.state
  unfolding handle_register_public_key save_public_key
  handle_register_public_key-keeps sess args srv v = ground (
    arith,
    kept.stores
        (api.save_public_key (record { client_id = sess.client_id; public_key = args })
          srv.state.storage).1
        srv.state v,
  )

  handle_get_public_key-keeps :
      (args : String) (srv : Server S F)
      → P srv.state
      → P (handle_get_public_key api args srv).0.state
  unfolding handle_get_public_key get_public_key
  handle_get_public_key-keeps args srv v =
      ground (arith, kept.stores (api.get_public_key args srv.state.storage).1 srv.state v)

  publish_one-keeps :
      (sess : Session) (clock : Clock) (exchange key : String) (m : EncryptedInputData)
      (srv : Server S F)
      → Publishing role
      → P srv.state
      → P (publish_one api sess clock exchange key m srv).1.state
  unfolding publish_one count_published
  publish_one-keeps sess clock exchange key m srv p v =
      elim (Result-cases
        (publish api exchange key m sess.client_id clock.now clock.utc_now srv.state).0) [
          | inl (u, saved) ↦
              rw (saved, publish_one)
                (kept.publishes exchange key m sess.client_id clock.now clock.utc_now srv.state p v)
          | inr (e, refused) ↦
              rw (refused, publish_one)
                (kept.publishes exchange key m sess.client_id clock.now clock.utc_now srv.state p v)
        ]

  publish_all-keeps :
      (sess : Session) (clock : Clock) (exchange key : String) (ms : List EncryptedInputData)
      (srv : Server S F)
      → Publishing role
      → P srv.state
      → P (publish_all api sess clock exchange key ms srv).0.state
  unfolding publish_all
  publish_all-keeps sess clock exchange key [] srv p v = v
  publish_all-keeps sess clock exchange key (m ∷ ms) srv p v =
      publish_all-keeps sess clock exchange key ms (publish_one api sess clock exchange key m srv).1
        p (publish_one-keeps sess clock exchange key m srv p v)

  handle_publish-keeps :
      (sess : Session) (clock : Clock) (args : List String) (srv : Server S F)
      → Publishing role
      → P srv.state
      → P (handle_publish api json sess clock args srv).0.state
  unfolding handle_publish
  handle_publish-keeps sess clock [] srv p v = v
  handle_publish-keeps sess clock (exchange ∷ []) srv p v = v
  handle_publish-keeps sess clock (exchange ∷ key ∷ []) srv p v = v
  handle_publish-keeps sess clock (exchange ∷ key ∷ text ∷ _) srv p v =
      elim (Result-cases (json.parse_message text)) [
        | inl (m, parsed) ↦
            rw (parsed, handle_publish) (publish_one-keeps sess clock exchange key m srv p v)
        | inr (e, failed) ↦ rw (failed, handle_publish) v
      ]

  handle_publish_batch-keeps :
      (sess : Session) (clock : Clock) (args : List String) (srv : Server S F)
      → Publishing role
      → P srv.state
      → P (handle_publish_batch api json sess clock args srv).0.state
  unfolding handle_publish_batch
  handle_publish_batch-keeps sess clock [] srv p v = v
  handle_publish_batch-keeps sess clock (exchange ∷ []) srv p v = v
  handle_publish_batch-keeps sess clock (exchange ∷ key ∷ []) srv p v = v
  handle_publish_batch-keeps sess clock (exchange ∷ key ∷ text ∷ _) srv p v =
      elim (Result-cases (json.parse_batch text)) [
        | inl (ms, parsed) ↦
            rw (parsed, handle_publish_batch) (publish_all-keeps sess clock exchange key ms srv p v)
        | inr (e, failed) ↦ rw (failed, handle_publish_batch) v
      ]

  pub dispatch-keeps :
      (sess : Session) (clock : Clock) (command args : String) (srv : Server S F)
      → Permitted role command
      → P srv.state
      → P (dispatch api json sess clock command args srv).0.state
  unfolding dispatch
  dispatch-keeps sess clock command args srv p v =
      let Q : Server S F × Reply → Type 0 = λ r. P r.0.state in
      let may = Permitted-as role command in
      if_split Q (command == "declare_queue")
        (λ h. handle_declare_queue-keeps sess args srv (may "declare_queue" p h) v)
        (if_split Q (command == "declare_exchange")
          (λ h. handle_declare_exchange-keeps args srv (may "declare_exchange" p h) v)
          (if_split Q (command == "bind")
            (λ h. handle_bind-keeps sess (splitn 3 args) srv (may "bind" p h) v)
            (if_split Q (command == "publish")
              (λ h. handle_publish-keeps sess clock (splitn 3 args) srv (inl (may "publish" p h)) v)
              (if_split Q (command == "publish_batch")
                (λ h.
                  handle_publish_batch-keeps sess clock (splitn 3 args) srv
                    (inr (may "publish_batch" p h)) v)
                (if_split Q (command == "consume")
                  (λ h. handle_consume-keeps sess args srv (may "consume" p h) v)
                  (if_split Q (command == "ack")
                    (λ h. handle_ack-keeps clock args srv (may "ack" p h) v)
                    (if_split Q (command == "resend") (λ h. handle_resend-keeps sess args srv v)
                      (if_split Q (command == "register_public_key")
                        (λ h. handle_register_public_key-keeps sess args srv v)
                        (if_split Q (command == "get_public_key")
                          (λ h. handle_get_public_key-keeps args srv v)
                          (if_split Q (command == "heartbeat") (λ h. v) v))))))))))
