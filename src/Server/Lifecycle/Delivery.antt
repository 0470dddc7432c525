-- ===== src/Server/Lifecycle/Delivery.antt =====
-- The delivery of a channel's message in `handle_client` of server/src/server.rs: the retries, and
-- when a message counts as delivered.
use cipher_mq.Common.{
  ℕ, ◌≡◌, ◌+◌, ◌-◌, ◌%◌, refl, sym, subst, modify, inl, inr, String, Bool, true, false, some,
  is_some, ◌&&◌, ◌==◌, Bool-cases, not, ◌||◌, if◌then◌else◌, Option-cases, arith, eq_refl, get,
  get-modify,
}
use cipher_mq.Storage.{StorageApi}
use cipher_mq.State.{
  Entry, ServerState, MessageStatus, delivered, can_deliver, usize_mod, decrement_client_count,
}
use cipher_mq.State.Deliver.{is_deliverable}
use cipher_mq.Server.{Json, Server, Clock}
use cipher_mq.Server.Lifecycle.{
  Attempt, write_fails, succeeds, Sending, given_up, max_retries, send_retrying, count_out,
  mark_delivered, conclude, deliver,
}

abbrev is_success : Attempt → Bool
is_success succeeds = true
is_success _ = false

abbrev is_write_failure : Attempt → Bool
is_write_failure write_fails = true
is_write_failure _ = false

-- Whether the client is taken for reached: an attempt succeeds, or the last one fails after the write.
abbrev pub counts_as_delivered : (ℕ → Attempt) → Bool
counts_as_delivered stream =
    is_success (stream 0)
    || is_success (stream 1)
    || is_success (stream 2)
    || not (is_write_failure (stream 2))

abbrev gives_up : Sending → Bool
gives_up given_up = true
gives_up _ = false

gives_up-send_retrying :
    (stream : ℕ → Attempt)
    → gives_up (send_retrying max_retries 0 stream).0 ≡ not (counts_as_delivered stream)
unfolding send_retrying
gives_up-send_retrying stream = ground arith

module _ {S : Type 0} (api : StorageApi S) where
  mark_delivered-twice :
      (id : String) (clock : Clock) (st : ServerState S)
      → mark_delivered api id clock (mark_delivered api id clock st)
        ≡ mark_delivered api id clock st
  unfolding mark_delivered
  mark_delivered-twice id clock st = elim (Option-cases (get id st.message_status)) [
    | inl missing ↦ ground arith
    | inr (s, found) ↦
        ground (arith, eq_refl id, get-modify id id (delivered clock.now) st.message_status)
  ]

  -- What marking a message that has a status does.
  record IsMarked (id : String) (clock : Clock) (status : MessageStatus) (st st' : ServerState S)
      : Type 0 where
    marked :
        get id st'.message_status
        ≡ some (
            if is_some status.delivered_time
            then status
            else record status { delivered_time = some clock.now })
    others :
        (other : String)
        → (id == other) ≡ false
        → get other st'.message_status ≡ get other st.message_status
    storage : st'.storage ≡ (
        if is_some status.delivered_time
        then st.storage
        else api.update_delivered_time_async id clock.utc_now st.storage)
    queues : st'.queues ≡ st.queues
    connected_clients : st'.connected_clients ≡ st.connected_clients

  mark_delivered-IsMarked :
      (id : String) (clock : Clock) (status : MessageStatus) (st : ServerState S)
      → get id st.message_status ≡ some status
      → IsMarked id clock status st (mark_delivered api id clock st)
  unfolding mark_delivered
  mark_delivered-IsMarked id clock status st found = elim (Option-cases status.delivered_time) [
    | inl waits ↦
        let same : mark_delivered api id clock st ≡ record st {
          message_status = modify id (delivered clock.now) st.message_status;
          storage = api.update_delivered_time_async id clock.utc_now st.storage;
        } =
          ground (arith, found, waits) in
        subst (IsMarked id clock status st) (sym same) (record {
          marked = ground (
            arith,
            eq_refl id,
            found,
            waits,
            get-modify id id (delivered clock.now) st.message_status,
          );
          others = λ other h.
              ground (arith, h, get-modify other id (delivered clock.now) st.message_status);
          storage = ground (arith, waits);
          queues = refl;
          connected_clients = refl;
        })
    | inr (time, was) ↦
        let same : mark_delivered api id clock st ≡ st = ground (arith, found, was) in
        subst (IsMarked id clock status st) (sym same) (record {
          marked = ground (arith, found, was);
          others = λ other h. refl;
          storage = ground (arith, was);
          queues = refl;
          connected_clients = refl;
        })
  ]

module _ {S F : Type 0} (api : StorageApi S) (json : Json) where
  deliver-state :
      (clock : Clock) (e : Entry) (stream : ℕ → Attempt) (srv : Server S F)
      → is_deliverable srv.state.message_status e.0 ≡ true
      → ((deliver api json clock e stream srv).goes_on ≡ counts_as_delivered stream)
        × ((deliver api json clock e stream srv).server.state ≡ (
            if counts_as_delivered stream
            then mark_delivered api e.0 clock srv.state
            else decrement_client_count srv.state))
  unfolding deliver conclude count_out
  deliver-state clock e stream srv d =
      ground (arith, gives_up-send_retrying stream, mark_delivered-twice api e.0 clock srv.state)

  -- A deliverable message that is received gets the time of day of its delivery, unless it has one already,
  -- and the connection goes on, exactly when one of the three attempts succeeds or the last one fails only at
  -- the flush; then a message that had no time has it sent to the database, once. Otherwise the connection
  -- ends, the client is counted out and the message keeps its status. No other message's status changes, and
  -- no queue.
  pub deliver_lem :
      (clock : Clock) (e : Entry) (stream : ℕ → Attempt) (srv : Server S F) (status : MessageStatus)
      → get e.0 srv.state.message_status ≡ some status
      → can_deliver status ≡ true
      → let st = srv.state in
        let turn = deliver api json clock e stream srv in
        let st' = turn.server.state in
        (turn.goes_on ≡ counts_as_delivered stream)
        × (get e.0 st'.message_status
            ≡ some (
                if counts_as_delivered stream && not (is_some status.delivered_time)
                then record status { delivered_time = some clock.now }
                else status))
        × ((id : String)
            → (e.0 == id) ≡ false
            → get id st'.message_status ≡ get id st.message_status)
        × (st'.storage ≡ (
            if counts_as_delivered stream && not (is_some status.delivered_time)
            then api.update_delivered_time_async e.0 clock.utc_now st.storage
            else st.storage))
        × (st'.queues ≡ st.queues)
        × (st'.connected_clients ≡ (
            if counts_as_delivered stream
            then st.connected_clients
            else (st.connected_clients + usize_mod - 1) % usize_mod))
  unfolding decrement_client_count
  deliver_lem clock e stream srv status found waits =
      let (goes_on, ends) = deliver-state clock e stream srv (ground (arith, found, waits)) in
      elim (Bool-cases (counts_as_delivered stream)) [
        | inl reached ↦
            let v = mark_delivered-IsMarked api e.0 clock status srv.state found in
            let same : (deliver api json clock e stream srv).server.state
                ≡ mark_delivered api e.0 clock srv.state =
              ground (arith, ends, reached) in
            (
              goes_on,
              rw (same, reached) (ground (arith, v.marked)),
              λ id other. rw same (v.others id other),
              rw (same, reached) (ground (arith, v.storage)),
              rw same (v.queues),
              rw (same, reached) (v.connected_clients),
            )
        | inr failed ↦
            let same : (deliver api json clock e stream srv).server.state
                ≡ decrement_client_count srv.state =
              ground (arith, ends, failed) in
            (
              goes_on,
              rw (same, failed) found,
              λ id other. rw same refl,
              rw (same, failed) refl,
              rw same refl,
              rw (same, failed) refl,
            )
      ]
