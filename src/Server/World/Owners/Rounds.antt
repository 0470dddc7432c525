-- ===== src/Server/World/Owners/Rounds.antt =====
-- A round of a connection (server/src/server.rs) opens no channel and closes none.
use cipher_mq.Common.{
  ℕ, ◌≡◌, ◌∙◌, refl, ap, inl, inr, String, Bool, List, [], ◌∷◌, get, arith, Option-cases,
}
use cipher_mq.Storage.{StorageApi}
use cipher_mq.State.{
  EncryptedInputData, Entry, ServerState, declare_queue, declare_exchange, bind_queue,
  decrement_client_count,
}
use cipher_mq.State.Publish.{
  enqueue_all, track, notify, notify_all, distribute, target_queues, route, publish,
}
use cipher_mq.State.Publish.Notified.{enqueue_all-Unheard}
use cipher_mq.State.Publish.Outcome.{publish_cases, saved_storage}
use cipher_mq.State.Deliver.{register_consumer, acknowledge}
use cipher_mq.RateLimiter.{Float}
use cipher_mq.Acl.{Role}
use cipher_mq.Server.{Json, Server, Session, Clock}
use cipher_mq.Server.Effects.{Kept}
use cipher_mq.Server.Safety.{process_request-keeps}
use cipher_mq.Server.Dispatch.{process_request}
use cipher_mq.Server.Lifecycle.{
  message_line, Attempt, Event, reads, read_ends, read_fails, read_times_out, receives, Sending,
  send_retrying, max_retries, recv, disconnect, count_out, spawn, mark_delivered, conclude, deliver,
  answer, step,
}
use cipher_mq.Server.World.Owners.{flags, flags-offer_all, flags-deliver_pending, flags-recv}

module _ {S : Type 0} where
  abbrev Open : List Bool → ServerState S → Type 0
  Open bs st = flags st.channels ≡ bs

  flags-notify :
      (e : Entry) (name : String) (st : ServerState S)
      → flags (notify e name st).channels ≡ flags st.channels
  unfolding notify
  flags-notify e name st = elim (Option-cases (get name st.consumers)) [
    | inl missing ↦ rw (missing, notify) refl
    | inr (senders, found) ↦ rw (found, notify) (flags-offer_all e senders st.channels)
  ]

  flags-notify_all :
      (e : Entry) (names : List String) (st : ServerState S)
      → flags (notify_all e names st).channels ≡ flags st.channels
  unfolding notify_all
  flags-notify_all e [] st = refl
  flags-notify_all e (name ∷ names) st =
      flags-notify_all e names (notify e name st) ∙ flags-notify e name st

  flags-distribute :
      (e : Entry) (time : ℕ) (names : List String) (st : ServerState S)
      → flags (distribute e time names st).channels ≡ flags st.channels
  unfolding distribute track
  flags-distribute e time names st =
      flags-notify_all e names (track e time (enqueue_all e names (st, [])))
      ∙ ap flags (enqueue_all-Unheard e names st []).channels

module _ {S : Type 0} (api : StorageApi S) where
  flags-publish :
      (exchange key : String) (m : EncryptedInputData) (client_id : String) (time : ℕ)
      (utc_now : String) (st : ServerState S)
      → flags (publish api exchange key m client_id time utc_now st).1.channels ≡ flags st.channels
  unfolding route
  flags-publish exchange key m client_id time utc_now st =
      publish_cases api exchange key m client_id time utc_now st
        (λ r. flags r.1.channels ≡ flags st.channels) (λ _. refl) (λ _ _. refl)
        (λ _ _.
          let st₁ : ServerState S = record st {
            storage = saved_storage api exchange key m client_id time utc_now st;
          } in
          ground
            (arith, flags-distribute (m.message_id, m) time (target_queues st₁ exchange key) st₁))

  Open-Kept : (bs : List Bool) (role : Role) → Kept api role (Open bs)
  unfolding declare_queue declare_exchange bind_queue register_consumer acknowledge
  Open-Kept bs role = record {
    declares = λ name st p v. ground arith;
    declares_exchange = λ name st p v. ground arith;
    binds = λ queue exchange key st p v. ground arith;
    publishes = λ exchange key m client_id time utc_now st _ v.
        flags-publish exchange key m client_id time utc_now st ∙ v;
    registers = λ queue channel st p v. ground arith;
    acknowledges = λ id time utc_now st _ v. ground arith;
    stores = λ storage st v. v;
  }

  pub mark_delivered-channels :
      (id : String) (clock : Clock) (st : ServerState S)
      → (mark_delivered api id clock st).channels ≡ st.channels
  unfolding mark_delivered
  mark_delivered-channels id clock st = ground arith

module _ {S F : Type 0} (api : StorageApi S) (json : Json) where
  conclude-channels :
      (clock : Clock) (id text : String) (end : Sending × ℕ) (srv : Server S F)
      → (conclude api json clock id text end srv).server.state.channels ≡ srv.state.channels
  unfolding conclude count_out decrement_client_count
  conclude-channels clock id text (end, n) srv = ground (
    arith,
    mark_delivered-channels api id clock srv.state,
    mark_delivered-channels api id clock (mark_delivered api id clock srv.state),
  )

  deliver-channels :
      (clock : Clock) (e : Entry) (stream : ℕ → Attempt) (srv : Server S F)
      → (deliver api json clock e stream srv).server.state.channels ≡ srv.state.channels
  unfolding deliver
  deliver-channels clock e stream srv =
      let text = message_line e.0 (json.show_message e.1) in
      ground (arith, conclude-channels clock e.0 text (send_retrying max_retries 0 stream) srv)

module _ {S F : Type 0} (api : StorageApi S) (json : Json) (float : Float F) where
  flags-answer :
      (sess : Session) (clock : Clock) (input : String) (fate : Attempt) (srv : Server S F)
      → flags (answer api json float sess clock input fate srv).server.state.channels
        ≡ flags srv.state.channels
  unfolding answer count_out spawn decrement_client_count
  flags-answer sess clock input fate srv =
      let (served, reply) = process_request api json float sess clock input srv in
      ground (
        arith,
        flags-deliver_pending sess.channel reply.task served.state.channels,
        process_request-keeps api json float sess
            (Open-Kept api (flags srv.state.channels) sess.role) clock input srv refl,
      )

  -- A round of a connection opens and closes no channel.
  pub flags-step :
      (sess : Session) (clock : Clock) (event : Event) (srv : Server S F)
      → flags (step api json float sess clock event srv).server.state.channels
        ≡ flags srv.state.channels
  unfolding step disconnect decrement_client_count
  flags-step sess clock (reads input fate) srv = flags-answer sess clock input fate srv
  flags-step sess clock read_ends srv = refl
  flags-step sess clock read_fails srv = refl
  flags-step sess clock read_times_out srv = refl
  flags-step sess clock (receives stream) srv =
      elim (Option-cases (recv sess.channel srv.state.channels)) [
        | inl empty ↦ rw (empty, step) refl
        | inr ((e, chs), found) ↦
            rw (found, step)
              (ap flags (
                  deliver-channels api json clock e stream
                    (record srv { state = record (srv.state) { channels = chs } }))
                ∙ flags-recv sess.channel srv.state.channels e chs found)
      ]
