-- ===== src/Server/Effects/Untouched.antt =====
-- What the handlers of the requests (server/src/server.rs) leave alone beside the broker: the rate limiter, and, but
-- for the client's own heartbeat, the heartbeat monitor.
use cipher_mq.Common.{
  ◌≡◌, ◌∙◌, ◌⊎◌, refl, inl, inr, String, List, [], ◌∷◌, ◌==◌, Result-cases, arith, if_split, splitn,
}
use cipher_mq.Storage.{StorageApi}
use cipher_mq.State.{EncryptedInputData}
use cipher_mq.State.Publish.{publish}
use cipher_mq.Heartbeat.{record_heartbeat}
use cipher_mq.Server.{Json, Server, Session, Clock, Reply}
use cipher_mq.Server.Requests.{
  count_published, handle_declare_queue, handle_declare_exchange, handle_bind, handle_consume,
  handle_heartbeat, handle_ack, handle_resend, handle_register_public_key, handle_get_public_key,
  publish_one, publish_all, handle_publish, handle_publish_batch,
}
use cipher_mq.Server.Dispatch.{dispatch}

module _ {S F : Type 0} where
  -- The same limiter and the same heartbeats.
  abbrev Same : Server S F → Server S F → Type 0
  Same srv srv' =
      (srv'.rate_limiter ≡ srv.rate_limiter) × (srv'.heartbeat_monitor ≡ srv.heartbeat_monitor)

  -- The same limiter, and at most a heartbeat of the client more.
  abbrev pub Beat : Session → Clock → Server S F → Server S F → Type 0
  Beat sess clock srv srv' =
      (srv'.rate_limiter ≡ srv.rate_limiter)
      × ((srv'.heartbeat_monitor ≡ srv.heartbeat_monitor)
          ⊎ (srv'.heartbeat_monitor
              ≡ record_heartbeat sess.client_id clock.now srv.heartbeat_monitor))

module _ {S F : Type 0} (api : StorageApi S) where
  publish_one-Same :
      (sess : Session) (clock : Clock) (exchange key : String) (m : EncryptedInputData)
      (srv : Server S F)
      → Same srv (publish_one api sess clock exchange key m srv).1
  unfolding publish_one count_published
  publish_one-Same sess clock exchange key m srv =
      elim (Result-cases
        (publish api exchange key m sess.client_id clock.now clock.utc_now srv.state).0) [
          | inl (u, saved) ↦ rw (saved, publish_one) (refl, refl)
          | inr (e, refused) ↦ rw (refused, publish_one) (refl, refl)
        ]

  publish_all-Same :
      (sess : Session) (clock : Clock) (exchange key : String) (ms : List EncryptedInputData)
      (srv : Server S F)
      → Same srv (publish_all api sess clock exchange key ms srv).0
  unfolding publish_all
  publish_all-Same sess clock exchange key [] srv = (refl, refl)
  publish_all-Same sess clock exchange key (m ∷ ms) srv =
      let one = publish_one-Same sess clock exchange key m srv in
      let rest =
        publish_all-Same sess clock exchange key ms
          (publish_one api sess clock exchange key m srv).1 in
      (rest.0 ∙ one.0, rest.1 ∙ one.1)

module _ {S F : Type 0} (api : StorageApi S) (json : Json) where
  handle_publish-Same :
      (sess : Session) (clock : Clock) (args : List String) (srv : Server S F)
      → Same srv (handle_publish api json sess clock args srv).0
  unfolding handle_publish
  handle_publish-Same sess clock [] srv = (refl, refl)
  handle_publish-Same sess clock (exchange ∷ []) srv = (refl, refl)
  handle_publish-Same sess clock (exchange ∷ key ∷ []) srv = (refl, refl)
  handle_publish-Same sess clock (exchange ∷ key ∷ text ∷ _) srv =
      elim (Result-cases (json.parse_message text)) [
        | inl (m, parsed) ↦
            rw (parsed, handle_publish) (publish_one-Same api sess clock exchange key m srv)
        | inr (e, failed) ↦ rw (failed, handle_publish) (refl, refl)
      ]

  handle_publish_batch-Same :
      (sess : Session) (clock : Clock) (args : List String) (srv : Server S F)
      → Same srv (handle_publish_batch api json sess clock args srv).0
  unfolding handle_publish_batch
  handle_publish_batch-Same sess clock [] srv = (refl, refl)
  handle_publish_batch-Same sess clock (exchange ∷ []) srv = (refl, refl)
  handle_publish_batch-Same sess clock (exchange ∷ key ∷ []) srv = (refl, refl)
  handle_publish_batch-Same sess clock (exchange ∷ key ∷ text ∷ _) srv =
      elim (Result-cases (json.parse_batch text)) [
        | inl (ms, parsed) ↦
            rw (parsed, handle_publish_batch) (publish_all-Same api sess clock exchange key ms srv)
        | inr (e, failed) ↦ rw (failed, handle_publish_batch) (refl, refl)
      ]

  handle_bind-Same :
      (sess : Session) (args : List String) (srv : Server S F)
      → Same srv (handle_bind sess args srv).0
  unfolding handle_bind
  handle_bind-Same sess [] srv = (refl, refl)
  handle_bind-Same sess (queue ∷ []) srv = (refl, refl)
  handle_bind-Same sess (queue ∷ exchange ∷ []) srv = (refl, refl)
  handle_bind-Same sess (queue ∷ exchange ∷ key ∷ _) srv = ground arith

  pub dispatch-Beat :
      (sess : Session) (clock : Clock) (command args : String) (srv : Server S F)
      → Beat sess clock srv (dispatch api json sess clock command args srv).0
  unfolding dispatch handle_declare_queue handle_declare_exchange handle_consume handle_heartbeat
      handle_ack handle_resend handle_register_public_key handle_get_public_key
  dispatch-Beat sess clock command args srv =
      let Q : Server S F × Reply → Type 0 = λ r. Beat sess clock srv r.0 in
      if_split Q (command == "declare_queue") (λ _. ground arith)
        (if_split Q (command == "declare_exchange") (λ _. ground arith)
          (if_split Q (command == "bind")
            (λ _. let s = handle_bind-Same sess (splitn 3 args) srv in (s.0, inl s.1))
            (if_split Q (command == "publish")
              (λ _. let s = handle_publish-Same sess clock (splitn 3 args) srv in (s.0, inl s.1))
              (if_split Q (command == "publish_batch")
                (λ _.
                  let s = handle_publish_batch-Same sess clock (splitn 3 args) srv in
                  (s.0, inl s.1))
                (if_split Q (command == "consume") (λ _. ground arith)
                  (if_split Q (command == "ack") (λ _. ground arith)
                    (if_split Q (command == "resend") (λ _. ground arith)
                      (if_split Q (command == "register_public_key") (λ _. ground arith)
                        (if_split Q (command == "get_public_key") (λ _. ground arith)
                          (if_split Q (command == "heartbeat") (λ _. (refl, inr refl))
                            (refl, inl refl)))))))))))
