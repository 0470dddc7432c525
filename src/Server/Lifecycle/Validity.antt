-- ===== src/Server/Lifecycle/Validity.antt =====
-- A round of a connection (server/src/server.rs) and the well-formedness of the broker.
use cipher_mq.Common.{ℕ, inl, inr, String, arith, Option-cases, if_split}
use cipher_mq.State.Deliver.{is_deliverable}
use cipher_mq.Storage.{StorageApi}
use cipher_mq.State.{Entry, ServerState, decrement_client_count}
use cipher_mq.State.Invariant.{IsValid}
use cipher_mq.RateLimiter.{Float}
use cipher_mq.Server.{Json, Server, Session, Clock}
use cipher_mq.Server.Safety.{process_request-IsValid}
use cipher_mq.Server.Dispatch.{process_request}
use cipher_mq.Server.Lifecycle.{
  message_line, Attempt, Event, reads, read_ends, read_fails, read_times_out, receives, Sending,
  send_retrying, max_retries, recv, Turn, disconnect, count_out, spawn, mark_delivered, is_met,
  conclude, deliver, answer, step,
}

module _ {S : Type 0} (api : StorageApi S) where
  mark_delivered-IsValid :
      (id : String) (clock : Clock) (st : ServerState S)
      → IsValid st
      → IsValid (mark_delivered api id clock st)
  unfolding mark_delivered
  mark_delivered-IsValid id clock st v = record {
    queues = ground (arith, v.queues);
    bindings = ground (arith, v.bindings);
  }

module _ {S F : Type 0} (api : StorageApi S) (json : Json) where
  conclude-IsValid :
      (clock : Clock) (id text : String) (end : Sending × ℕ) (srv : Server S F)
      → IsValid srv.state
      → IsValid (conclude api json clock id text end srv).server.state
  unfolding conclude count_out decrement_client_count
  conclude-IsValid clock id text (Sending.sent, n) srv v =
      mark_delivered-IsValid api id clock (mark_delivered api id clock srv.state)
        (mark_delivered-IsValid api id clock srv.state v)
  conclude-IsValid clock id text (Sending.exhausted, n) srv v =
      mark_delivered-IsValid api id clock srv.state v
  conclude-IsValid clock id text (Sending.given_up, n) srv v = record {
    queues = v.queues;
    bindings = v.bindings;
  }

  deliver-IsValid :
      (clock : Clock) (e : Entry) (stream : ℕ → Attempt) (srv : Server S F)
      → IsValid srv.state
      → IsValid (deliver api json clock e stream srv).server.state
  unfolding deliver
  deliver-IsValid clock e stream srv v =
      let text = message_line e.0 (json.show_message e.1) in
      if_split (λ (t : Turn S F). IsValid t.server.state)
        (is_deliverable srv.state.message_status e.0)
        (λ _. conclude-IsValid clock e.0 text (send_retrying max_retries 0 stream) srv v) v

module _ {S F : Type 0} (api : StorageApi S) (json : Json) (float : Float F) where
  answer-IsValid :
      (sess : Session) (clock : Clock) (input : String) (fate : Attempt) (srv : Server S F)
      → IsValid srv.state
      → IsValid (answer api json float sess clock input fate srv).server.state
  unfolding answer count_out spawn decrement_client_count
  answer-IsValid sess clock input fate srv v =
      let (served, reply) = process_request api json float sess clock input srv in
      let w = process_request-IsValid api json float sess clock input srv v in
      if_split (λ (t : Server S F). IsValid t.state) (is_met reply.need fate)
        (λ _. record { queues = w.queues; bindings = w.bindings })
        (record { queues = w.queues; bindings = w.bindings })

  -- A round of a connection keeps the broker well-formed.
  pub step-IsValid :
      (sess : Session) (clock : Clock) (event : Event) (srv : Server S F)
      → IsValid srv.state
      → IsValid (step api json float sess clock event srv).server.state
  unfolding step disconnect decrement_client_count
  step-IsValid sess clock (reads input fate) srv v = answer-IsValid sess clock input fate srv v
  step-IsValid sess clock read_ends srv v = record { queues = v.queues; bindings = v.bindings }
  step-IsValid sess clock read_fails srv v = record { queues = v.queues; bindings = v.bindings }
  step-IsValid sess clock read_times_out srv v = v
  step-IsValid sess clock (receives stream) srv v =
      elim (Option-cases (recv sess.channel srv.state.channels)) [
        | inl empty ↦ rw (empty, step) v
        | inr ((e, chs), found) ↦
            rw (found, step)
              (deliver-IsValid api json clock e stream
                (record srv { state = record (srv.state) { channels = chs } })
                (record { queues = v.queues; bindings = v.bindings }))
      ]
