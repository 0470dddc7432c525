-- ===== src/State/Invariant/Run.antt =====
-- Histories of the broker: any sequence of calls of its operations.
use cipher_mq.Common.{ℕ, inl, inr, String, Option-cases, List, [], ◌∷◌, get}
use cipher_mq.Storage.{StorageApi}
use cipher_mq.State.{
  EncryptedInputData, ServerState, new, declare_queue, declare_exchange, bind_queue,
  increment_client_count, decrement_client_count, save_public_key, get_public_key,
}
use cipher_mq.State.Publish.{publish}
use cipher_mq.State.Deliver.{register_consumer, consume, acknowledge}
use cipher_mq.State.Cleanup.{
  cleanup_old_messages, cleanup_dead_consumers, cleanup_consumers_for_queue,
}
use cipher_mq.State.Invariant.{IsValid}
use cipher_mq.State.Invariant.Operations.{
  new-IsValid, declare_queue-IsValid, declare_exchange-IsValid, bind_queue-IsValid, publish-IsValid,
  register_consumer-IsValid, consume-IsValid, acknowledge-IsValid, cleanup_old_messages-IsValid,
  cleanup_dead_consumers-IsValid,
}

-- The methods of `ServerState`, with their arguments and what they read from the clock.
pub data Call : Type 0 where
  declares_queue : String → Call
  declares_exchange : String → Call
  binds : String → String → String → Call
  publishes : String → String → EncryptedInputData → String → ℕ → String → Call
  registers : String → ℕ → Call
  consumes : String → ℕ → String → Call
  acknowledges : String → ℕ → String → Call
  connects : Call
  disconnects : Call
  saves_key : String → String → Call
  gets_key : String → Call
  expires : ℕ → ℕ → Call
  drops_consumers : Call
  drops_consumers_of : String → Call

module _ {S : Type 0} (api : StorageApi S) where
  unfoldable pub perform : Call → ServerState S → ServerState S
  perform (declares_queue name) st = declare_queue name st
  perform (declares_exchange name) st = declare_exchange name st
  perform (binds queue exchange key) st = bind_queue queue exchange key st
  perform (publishes exchange key m client_id time utc_now) st =
      (publish api exchange key m client_id time utc_now st).1
  perform (registers queue sender) st = (register_consumer queue sender st).0
  perform (consumes queue time utc_now) st = (consume api queue time utc_now st).1
  perform (acknowledges id time utc_now) st = acknowledge api id time utc_now st
  perform connects st = increment_client_count st
  perform disconnects st = decrement_client_count st
  perform (saves_key client_id key) st = (save_public_key api client_id key st).1
  perform (gets_key client_id) st = (get_public_key api client_id st).1
  perform (expires now max_age) st = cleanup_old_messages now max_age st
  perform drops_consumers st = cleanup_dead_consumers st
  perform (drops_consumers_of queue) st = (cleanup_consumers_for_queue queue st).1

  unfoldable pub run : List Call → ServerState S → ServerState S
  run [] st = st
  run (c ∷ cs) st = run cs (perform c st)

  cleanup_consumers_for_queue-IsValid :
      (queue : String) (st : ServerState S)
      → IsValid st
      → IsValid (cleanup_consumers_for_queue queue st).1
  unfolding cleanup_consumers_for_queue
  cleanup_consumers_for_queue-IsValid queue st v = elim (Option-cases (get queue st.consumers)) [
    | inl missing ↦ rw (missing, cleanup_consumers_for_queue) v
    | inr (senders, found) ↦
        rw (found, cleanup_consumers_for_queue)
          (record { queues = v.queues; bindings = v.bindings })
  ]

  pub perform-IsValid : (c : Call) (st : ServerState S) → IsValid st → IsValid (perform c st)
  unfolding perform increment_client_count decrement_client_count save_public_key get_public_key
  perform-IsValid (declares_queue name) st v = declare_queue-IsValid name st v
  perform-IsValid (declares_exchange name) st v = declare_exchange-IsValid name st v
  perform-IsValid (binds queue exchange key) st v = bind_queue-IsValid queue exchange key st v
  perform-IsValid (publishes exchange key m client_id time utc_now) st v =
      publish-IsValid api exchange key m client_id time utc_now st v
  perform-IsValid (registers queue sender) st v = register_consumer-IsValid queue sender st v
  perform-IsValid (consumes queue time utc_now) st v = consume-IsValid api queue time utc_now st v
  perform-IsValid (acknowledges id time utc_now) st v = acknowledge-IsValid api id time utc_now st v
  perform-IsValid (expires now max_age) st v = cleanup_old_messages-IsValid now max_age st v
  perform-IsValid drops_consumers st v = cleanup_dead_consumers-IsValid st v
  perform-IsValid (drops_consumers_of queue) st v = cleanup_consumers_for_queue-IsValid queue st v
  perform-IsValid _ st v = record { queues = v.queues; bindings = v.bindings }

  run-IsValid : (cs : List Call) (st : ServerState S) → IsValid st → IsValid (run cs st)
  unfolding run
  run-IsValid [] st v = v
  run-IsValid (c ∷ cs) st v = run-IsValid cs (perform c st) (perform-IsValid c st v)

  -- After any calls on a new broker, every queue holds at most `max_queue_size` messages (one where
  -- that is 0), each under its own identifier; no exchange has a binding twice; and every binding is
  -- that of a declared exchange to a declared queue.
  pub run-new-IsValid :
      (storage : S) (size : ℕ) (cs : List Call) → IsValid (run cs (new storage size))
  run-new-IsValid storage size cs = run-IsValid cs (new storage size) (new-IsValid storage size)
