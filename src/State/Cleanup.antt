-- ===== src/State/Cleanup.antt =====
-- The background loops of server/src/state.rs, a round at a time, and the administrator's helpers:
-- `cleanup_old_messages`, `cleanup_dead_consumers`, `cleanup_consumers_for_queue` and
-- `get_consumer_stats`.
pub mod Consumers
pub mod Expiry
use cipher_mq.Common.{
  ℕ, ◌-◌, String, Bool, true, false, not, ◌&&◌, none, some, List, [], ◌∷◌, map, ltb, if◌then◌else◌,
  length, retain, Table, get, keys_where, remove_all, keys_where, remove_all, is_some, insert,
  remove,
}
use cipher_mq.State.{
  Channel, MessageStatus, ServerState, is_closed, remove_from_queues, set_or_empty,
}

-- A message that was delivered longer ago than `max_age` and is not acknowledged. A time in the
-- future has age zero, as in `duration_since`.
unfoldable pub is_expired : ℕ → ℕ → MessageStatus → Bool
is_expired now max_age s = elim s.delivered_time [
  | none ↦ false
  | some time ↦ ltb max_age (now - time) && not (is_some s.acknowledged_time)
]

unfoldable pub expired_messages : ℕ → ℕ → Table MessageStatus → List String
unfolding is_expired
expired_messages now max_age m = keys_where (is_expired now max_age) m

abbrev pub open_senders : List Channel → List ℕ → List ℕ
open_senders chs = retain (λ sender. not (is_closed chs sender))

-- The loop over the consumer lists, and the queues that it leaves with none.
unfoldable pub retain_open : List Channel → Table (List ℕ) → Table (List ℕ)
retain_open chs [] = []
retain_open chs ((name, senders) ∷ m) = (name, open_senders chs senders) ∷ retain_open chs m

abbrev pub is_empty {ℓ} : {A : Type ℓ} → List A → Bool
is_empty [] = true
is_empty (_ ∷ _) = false

unfoldable pub empty_queues : Table (List ℕ) → List String
empty_queues m = keys_where is_empty m

module _ {S : Type 0} where
  -- The body of the loop over the expired messages.
  unfoldable pub drop_message : String → ServerState S → ServerState S
  unfolding remove_from_queues
  drop_message id st = record st {
    queues = remove_from_queues id (set_or_empty (get id st.message_queues)) st.queues;
    message_queues = remove id st.message_queues;
    message_status = remove id st.message_status;
  }

  unfoldable pub drop_messages : List String → ServerState S → ServerState S
  drop_messages [] st = st
  drop_messages (id ∷ ids) st = drop_messages ids (drop_message id st)

  unfoldable pub cleanup_old_messages : ℕ → ℕ → ServerState S → ServerState S
  unfolding drop_messages expired_messages
  cleanup_old_messages now max_age st =
      drop_messages (expired_messages now max_age st.message_status) st

  unfoldable pub cleanup_dead_consumers : ServerState S → ServerState S
  unfolding retain_open empty_queues
  cleanup_dead_consumers st =
      let kept = retain_open st.channels st.consumers in
      record st { consumers = remove_all (empty_queues kept) kept }

  unfoldable pub cleanup_consumers_for_queue : String → ServerState S → ℕ × ServerState S
  cleanup_consumers_for_queue queue st = elim (get queue st.consumers) [
    | none ↦ (0, st)
    | some senders ↦
        let kept = open_senders st.channels senders in
        (length senders - length kept, record st { consumers = insert queue kept st.consumers })
  ]

  unfoldable pub get_consumer_stats : ServerState S → List (String × ℕ × ℕ)
  get_consumer_stats st =
      map (λ e. (e.0, length e.1, length (open_senders st.channels e.1))) st.consumers
