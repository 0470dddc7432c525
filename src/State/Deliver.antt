-- ===== src/State/Deliver.antt =====
-- `register_consumer`, `consume` and `acknowledge` of server/src/state.rs, and the task that hands
-- the queued messages to a new consumer.
pub mod Acknowledge
pub mod Pending
pub mod RoundTrip
pub mod Eviction
use cipher_mq.Common.{
  ℕ, String, Bool, false, Option, none, some, List, [], ◌∷◌, ◌++◌, if◌then◌else◌, retain, Table,
  get, contains_key, insert, remove, modify, or_insert,
}
use cipher_mq.Storage.{StorageApi}
use cipher_mq.State.{
  Entry, Channel, MessageStatus, ServerState, delivered, acknowledged, can_deliver, send,
  declare_queue, remove_from_queues, set_or_empty,
}

-- The filter on the queued messages: an unknown message is left out.
abbrev pub is_deliverable : Table MessageStatus → String → Bool
is_deliverable status id = elim (get id status) [ none ↦ false | some s ↦ can_deliver s ]

-- The spawned task: it stops at the first message that cannot be sent.
unfoldable pub deliver_pending : ℕ → List Entry → List Channel → List Channel
deliver_pending sender [] chs = chs
deliver_pending sender (e ∷ es) chs = elim (send sender e chs) [
  | none ↦ chs
  | some chs' ↦ deliver_pending sender es chs'
]

module _ {S : Type 0} where
  -- What the task is given; `[]` also where no task is spawned.
  unfoldable pub pending : ServerState S → String → List Entry
  pending st queue = elim (get queue st.queues) [
    | none ↦ []
    | some entries ↦ retain (λ e. is_deliverable st.message_status e.0) entries
  ]

  -- The new state, and the messages for the spawned task.
  unfoldable pub register_consumer : String → ℕ → ServerState S → ServerState S × List Entry
  unfolding declare_queue pending
  register_consumer queue sender st =
      let st₁ : ServerState S = declare_queue queue st in
      let st₂ : ServerState S = record st₁ {
        consumers =
            modify queue (λ senders. senders ++ sender ∷ []) (or_insert queue [] st₁.consumers);
      } in
      (st₂, pending st₂ queue)

module _ {S : Type 0} (api : StorageApi S) where
  -- `time` is the moment of the call and `utc_now` its text.
  unfoldable pub consume : String → ℕ → String → ServerState S → Option Entry × ServerState S
  consume queue time utc_now st = elim (get queue st.queues) [
    | none ↦ (none, st)
    | some [] ↦ (none, st)
    | some (e ∷ rest) ↦ (
      some e,
      record st {
        queues = insert queue rest st.queues;
        message_status = modify e.0 (delivered time) st.message_status;
        storage = api.update_delivered_time_async e.0 utc_now st.storage;
      },
    )
  ]

  unfoldable pub acknowledge : String → ℕ → String → ServerState S → ServerState S
  unfolding remove_from_queues
  acknowledge id time utc_now st =
      if contains_key id st.message_status
      then record st {
        queues = remove_from_queues id (set_or_empty (get id st.message_queues)) st.queues;
        message_queues = remove id st.message_queues;
        message_status = remove id (modify id (acknowledged time) st.message_status);
        storage = api.update_acknowledged_time_async id utc_now st.storage;
      }
      else st
