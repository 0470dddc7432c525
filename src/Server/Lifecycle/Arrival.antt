-- ===== src/Server/Lifecycle/Arrival.antt =====
-- From the call of `publish` (server/src/state.rs) in one connection to the line that another connection writes
-- (server/src/server.rs).
use cipher_mq.Common.{
  ℕ, zero, suc, ◌+◌, ◌≡◌, ◌∙◌, refl, ap, String, true, false, some, List, [], ◌∷◌, ◌++◌, map,
  length, length-append, All, get_elem?, ok, arith,
}
use cipher_mq.Storage.{StorageApi}
use cipher_mq.State.{EncryptedInputData, Entry, Channel, ServerState, is_closed}
use cipher_mq.State.Deliver.{is_deliverable}
use cipher_mq.State.Publish.{publish, target_queues}
use cipher_mq.State.Publish.Delivery.{publish_enqueues_once}
use cipher_mq.State.Publish.Consumers.{waiting_in, repeated}
use cipher_mq.State.Publish.Notified.{hearings, publish_notifies}
use cipher_mq.State.Invariant.{IsValid}
use cipher_mq.RateLimiter.{Float}
use cipher_mq.Server.{Json, Server, Session}
use cipher_mq.Server.Lifecycle.{rounds}
use cipher_mq.Server.Lifecycle.Drain.{
  Deliveries, delivering, IsPrompt, lines_of, due, rounds-delivering,
}

length-repeated : (n : ℕ) (e : Entry) → length (repeated n e) ≡ n
length-repeated zero e = refl
length-repeated (suc n) e = omega (arith, length-repeated n e)

open_channel :
    (chs : List Channel) (i : ℕ) (es : List Entry)
    → is_closed chs i ≡ false
    → waiting_in chs i ≡ es
    → get_elem? chs i ≡ some (record { is_open = true; waiting = es })
open_channel chs i es o w = ground arith

module _ {S F : Type 0} (api : StorageApi S) (json : Json) (float : Float F) where
  due-append :
      (srv : Server S F) (es ds : List Entry)
      → due api json float srv (es ++ ds) ≡ due api json float srv es ++ due api json float srv ds
  due-append srv [] ds = refl
  due-append srv (e ∷ es) ds = ground (arith, due-append srv es ds)

  due-repeated :
      (srv : Server S F) (n : ℕ) (e : Entry)
      → is_deliverable srv.state.message_status e.0 ≡ true
      → due api json float srv (repeated n e) ≡ repeated n e
  due-repeated srv zero e h = refl
  due-repeated srv (suc n) e h = ground (arith, due-repeated srv n e h)

  -- A publication that succeeds on a valid broker reaches each consumer: the connection whose channel is open
  -- writes, in as many deliveries as then wait for it, each of which succeeds at its first attempt, the lines of the
  -- deliverable messages that waited before, and behind them the line of the message, as often as the
  -- connection is a consumer of the queues that it was published to.
  pub rounds-publish :
      (exchange key : String) (m : EncryptedInputData) (client_id : String) (time : ℕ)
      (utc_now : String) (srv : Server S F) (st' : ServerState S) (sess : Session) (ds : Deliveries)
      → IsValid srv.state
      → publish api exchange key m client_id time utc_now srv.state ≡ (ok tt, st')
      → is_closed srv.state.channels sess.channel ≡ false
      → length ds
        ≡ length (waiting_in srv.state.channels sess.channel)
          + hearings srv.state (target_queues srv.state exchange key) sess.channel
      → All IsPrompt ds
      → let published : Server S F = record srv { state = st' } in
        let old = due api json float published (waiting_in srv.state.channels sess.channel) in
        let n = hearings srv.state (target_queues srv.state exchange key) sess.channel in
        (rounds api json float sess (map delivering ds) published).output
        ≡ lines_of json (old ++ repeated n (m.message_id, m))
  rounds-publish exchange key m client_id time utc_now srv st' sess ds v done is_open count prompt =
      let published : Server S F = record srv { state = st' } in
      let e : Entry = (m.message_id, m) in
      let n = hearings srv.state (target_queues srv.state exchange key) sess.channel in
      let before = waiting_in srv.state.channels sess.channel in
      let (waits, same) =
        publish_notifies api exchange key m client_id time utc_now srv.state st' sess.channel
          done in
      let (_, status) =
        publish_enqueues_once api exchange key m client_id time utc_now srv.state st' v done in
      let c : Channel = record { is_open = true; waiting = before ++ repeated n e } in
      (rounds-delivering api json float sess c ds published
        (open_channel st'.channels sess.channel (before ++ repeated n e) (same ∙ is_open) waits)
        (omega (arith, count, length-append before (repeated n e), length-repeated n e)) prompt).1
      ∙ ap (lines_of json) (
          due-append published before (repeated n e)
          ∙ ap (λ l. due api json float published before ++ l)
              (due-repeated published n e (ground (arith, status))))
