-- ===== src/State/Invariant/Operations.antt =====
-- Every operation of the broker keeps the state well formed.
use cipher_mq.Common.{
  ℕ, ◌≡◌, refl, ◌∙◌, inl, inr, String, true, false, ◌||◌, ◌&&◌, some, List, [], ◌∷◌, ◌++◌, All,
  Table, get, contains_key, arith, All-get, All-insert, All-modify, All-or_insert, All-append,
  All_map, or_insert, eq_iff, contains_key-insert, Option-cases, Bool-cases, get-or_insert,
}
use cipher_mq.Storage.{StorageApi}
use cipher_mq.State.{
  Entry, EncryptedInputData, ServerState, new, contains_pair, add_binding, add_to_exchange,
  set_or_empty, declare_queue, declare_exchange, bind_queue,
}
use cipher_mq.State.Publish.{distribute, target_queues, route, publish}
use cipher_mq.State.Publish.Queues.{queues-distribute, distribute-SameTopology}
use cipher_mq.State.Publish.Outcome.{publish_cases, saved_storage}
use cipher_mq.State.Deliver.{register_consumer, consume, acknowledge}
use cipher_mq.State.Cleanup.{
  drop_message, drop_messages, expired_messages, cleanup_old_messages, cleanup_dead_consumers,
}
use cipher_mq.State.Invariant.{IsValid, QueueValid, IsKeyed, BindingsValid, DistinctPairs}
use cipher_mq.State.Invariant.Queues.{
  enqueue_all-QueueValid, contains_key-enqueue_all, remove_from_queues-QueueValid,
  contains_key-remove_from_queues,
}

-- Bindings stay valid where every key stays declared.
BindingsValid-mono :
    (xs xs' : Table (List String)) (qs qs' : Table (List Entry))
    → ((k : String) → contains_key k xs ≡ true → contains_key k xs' ≡ true)
    → ((k : String) → contains_key k qs ≡ true → contains_key k qs' ≡ true)
    → (b : String × List (String × String)) → BindingsValid xs qs b
    → BindingsValid xs' qs' b
BindingsValid-mono xs xs' qs qs' hx hq b v = (v.0, hx b.0 v.1, All_map (λ p. hq p.0) b.1 v.2)

contains_key-or_insert {ℓ} :
    {V : Type ℓ} (j k : String) (v : V) (m : Table V)
    → contains_key j m ≡ true
    → contains_key j (or_insert k v m) ≡ true
contains_key-or_insert j k v m h = ground (arith, get-or_insert j k v m)

-- Adding a pair that is not there keeps the pairs distinct.
contains_pair-append :
    (b c : String × String) (bs : List (String × String))
    → contains_pair b (bs ++ c ∷ []) ≡ (contains_pair b bs || contains_pair b (c ∷ []))
contains_pair-append b c [] = refl
contains_pair-append b c (d ∷ bs) = ground (arith, contains_pair-append b c bs)

DistinctPairs-append :
    (b : String × String) (bs : List (String × String))
    → contains_pair b bs ≡ false
    → DistinctPairs bs
    → DistinctPairs (bs ++ b ∷ [])
DistinctPairs-append b [] h d = (refl, tt)
DistinctPairs-append b (c ∷ bs) h d = (
  ground (
    arith,
    contains_pair-append c b bs,
    eq_iff c.0 b.0,
    eq_iff b.0 c.0,
    eq_iff c.1 b.1,
    eq_iff b.1 c.1,
  ),
  DistinctPairs-append b bs (ground arith) d.1,
)

add_binding-valid :
    (qs : Table (List Entry)) (b : String × String) (bs : List (String × String))
    → contains_key b.0 qs ≡ true
    → DistinctPairs bs × All (λ p. contains_key p.0 qs ≡ true) bs
    → DistinctPairs (add_binding b bs) × All (λ p. contains_key p.0 qs ≡ true) (add_binding b bs)
unfolding add_binding
add_binding-valid qs b bs k h = elim (Bool-cases (contains_pair b bs)) [
  | inl old ↦ rw old h
  | inr fresh ↦ rw fresh (
    DistinctPairs-append b bs fresh h.0,
    All-append (λ p. contains_key p.0 qs ≡ true) bs (b ∷ []) h.1 (k, tt),
  )
]

add_to_exchange-valid :
    (xs : Table (List String)) (qs : Table (List Entry)) (exchange : String) (b : String × String)
    (bindings : Table (List (String × String)))
    → contains_key b.0 qs ≡ true
    → contains_key exchange xs ≡ true
    → All (BindingsValid xs qs) bindings
    → All (BindingsValid xs qs) (add_to_exchange exchange b bindings)
unfolding add_to_exchange
add_to_exchange-valid xs qs exchange b bindings kq kx h =
    elim (Option-cases (get exchange bindings)) [
      | inl fresh ↦
          rw (fresh, add_to_exchange)
            (All-insert (BindingsValid xs qs) exchange (b ∷ []) bindings ((refl, tt), kx, (kq, tt))
              h)
      | inr (bs, found) ↦
          rw (found, add_to_exchange)
            (All-modify (BindingsValid xs qs) exchange (add_binding b) bindings
              (λ v p. let (d, a) = add_binding-valid qs b v kq (p.0, p.2) in (d, p.1, a)) h)
    ]

module _ {S : Type 0} where
  pub new-IsValid : (storage : S) (size : ℕ) → IsValid (new storage size)
  unfolding new
  new-IsValid storage size = record { queues = tt; bindings = tt }

  pub declare_queue-IsValid :
      (name : String) (st : ServerState S) → IsValid st → IsValid (declare_queue name st)
  unfolding declare_queue
  declare_queue-IsValid name st v = record {
    queues =
        All-or_insert (QueueValid st.max_queue_size) name [] st.queues (omega arith, tt) v.queues;
    bindings =
        All_map
          (BindingsValid-mono st.exchanges st.exchanges st.queues _ (λ k h. h)
            (λ k h. contains_key-or_insert k name [] st.queues h))
          st.bindings v.bindings;
  }

  pub declare_exchange-IsValid :
      (name : String) (st : ServerState S) → IsValid st → IsValid (declare_exchange name st)
  unfolding declare_exchange
  declare_exchange-IsValid name st v = record {
    queues = v.queues;
    bindings =
        All_map
          (BindingsValid-mono st.exchanges _ st.queues st.queues
            (λ k h. contains_key-or_insert k name [] st.exchanges h) (λ k h. h))
          st.bindings v.bindings;
  }

  pub bind_queue-IsValid :
      (queue exchange key : String) (st : ServerState S)
      → IsValid st
      → IsValid (bind_queue queue exchange key st)
  unfolding bind_queue
  bind_queue-IsValid queue exchange key st v =
      elim (Bool-cases (contains_key queue st.queues && contains_key exchange st.exchanges)) [
        | inl ready ↦ rw ready (record {
          queues = v.queues;
          bindings =
              add_to_exchange-valid st.exchanges st.queues exchange (queue, key) st.bindings
                (ground arith) (ground arith) v.bindings;
        })
        | inr missing ↦ rw missing v
      ]

  pub distribute-IsValid :
      (e : Entry) (time : ℕ) (names : List String) (st : ServerState S)
      → IsKeyed e
      → IsValid st
      → IsValid (distribute e time names st)
  distribute-IsValid e time names st k v =
      let same = distribute-SameTopology e time names st in
      record {
        queues =
            rw (same.max_queue_size, queues-distribute e time names st)
              (enqueue_all-QueueValid st.max_queue_size e names st [] k refl v.queues);
        bindings =
            rw (same.exchanges, same.bindings, queues-distribute e time names st)
              (All_map
                (BindingsValid-mono st.exchanges st.exchanges st.queues _ (λ q h. h)
                  (λ q h. contains_key-enqueue_all q e names st [] ∙ h))
                st.bindings v.bindings);
      }

  pub route-IsValid :
      (exchange key : String) (m : EncryptedInputData) (time : ℕ) (st : ServerState S)
      → IsValid st
      → IsValid (route exchange key m time st).1
  unfolding route
  route-IsValid exchange key m time st v =
      ground
        (arith, distribute-IsValid (m.message_id, m) time (target_queues st exchange key) st refl)

  pub drop_message-IsValid :
      (id : String) (st : ServerState S) → IsValid st → IsValid (drop_message id st)
  unfolding drop_message
  drop_message-IsValid id st v = record {
    queues =
        remove_from_queues-QueueValid st.max_queue_size id (set_or_empty (get id st.message_queues))
          st.queues v.queues;
    bindings =
        All_map
          (BindingsValid-mono st.exchanges st.exchanges st.queues _ (λ q h. h)
            (λ q h.
              contains_key-remove_from_queues q id (set_or_empty (get id st.message_queues))
                st.queues
              ∙ h))
          st.bindings v.bindings;
  }

  drop_messages-IsValid :
      (ids : List String) (st : ServerState S) → IsValid st → IsValid (drop_messages ids st)
  unfolding drop_messages
  drop_messages-IsValid [] st v = v
  drop_messages-IsValid (id ∷ ids) st v =
      drop_messages-IsValid ids (drop_message id st) (drop_message-IsValid id st v)

  pub cleanup_old_messages-IsValid :
      (now max_age : ℕ) (st : ServerState S)
      → IsValid st
      → IsValid (cleanup_old_messages now max_age st)
  unfolding cleanup_old_messages
  cleanup_old_messages-IsValid now max_age st v =
      drop_messages-IsValid (expired_messages now max_age st.message_status) st v

  pub cleanup_dead_consumers-IsValid :
      (st : ServerState S) → IsValid st → IsValid (cleanup_dead_consumers st)
  unfolding cleanup_dead_consumers
  cleanup_dead_consumers-IsValid st v = record { queues = v.queues; bindings = v.bindings }

  pub register_consumer-IsValid :
      (queue : String) (sender : ℕ) (st : ServerState S)
      → IsValid st
      → IsValid (register_consumer queue sender st).0
  unfolding register_consumer
  register_consumer-IsValid queue sender st v =
      let w = declare_queue-IsValid queue st v in
      record { queues = w.queues; bindings = w.bindings }

module _ {S : Type 0} (api : StorageApi S) where
  pub publish-IsValid :
      (exchange key : String) (m : EncryptedInputData) (client_id : String) (time : ℕ)
      (utc_now : String) (st : ServerState S)
      → IsValid st
      → IsValid (publish api exchange key m client_id time utc_now st).1
  unfolding publish
  publish-IsValid exchange key m client_id time utc_now st v =
      publish_cases api exchange key m client_id time utc_now st (λ r. IsValid r.1) (λ _. v)
        (λ e _. record { queues = v.queues; bindings = v.bindings })
        (λ _ _.
          route-IsValid exchange key m time
            (record st { storage = saved_storage api exchange key m client_id time utc_now st })
            (record { queues = v.queues; bindings = v.bindings }))

  acknowledged-IsValid :
      (id : String) (time : ℕ) (utc_now : String) (st : ServerState S)
      → contains_key id st.message_status ≡ true
      → IsValid st
      → IsValid (acknowledge api id time utc_now st)
  unfolding acknowledge drop_message
  acknowledged-IsValid id time utc_now st known v =
      let w = drop_message-IsValid id st v in
      rw known (record { queues = w.queues; bindings = w.bindings })

  pub acknowledge-IsValid :
      (id : String) (time : ℕ) (utc_now : String) (st : ServerState S)
      → IsValid st
      → IsValid (acknowledge api id time utc_now st)
  unfolding acknowledge
  acknowledge-IsValid id time utc_now st v = elim (Bool-cases (contains_key id st.message_status)) [
    | inl known ↦ acknowledged-IsValid id time utc_now st known v
    | inr unknown ↦ rw unknown v
  ]

  consumed-IsValid :
      (queue : String) (time : ℕ) (utc_now : String) (st : ServerState S) (entries : List Entry)
      → get queue st.queues ≡ some entries
      → IsValid st
      → IsValid (consume api queue time utc_now st).1
  unfolding consume
  consumed-IsValid queue time utc_now st [] found v = rw (found, consume) v
  consumed-IsValid queue time utc_now st (e ∷ rest) found v =
      let q = All-get (QueueValid st.max_queue_size) queue (e ∷ rest) st.queues v.queues found in
      rw (found, consume)
        (record {
          queues =
              All-insert (QueueValid st.max_queue_size) queue rest st.queues (omega arith, q.1.1)
                v.queues;
          bindings =
              All_map
                (BindingsValid-mono st.exchanges st.exchanges st.queues _ (λ k h. h)
                  (λ k h. ground (arith, contains_key-insert k queue rest st.queues)))
                st.bindings v.bindings;
        })

  pub consume-IsValid :
      (queue : String) (time : ℕ) (utc_now : String) (st : ServerState S)
      → IsValid st
      → IsValid (consume api queue time utc_now st).1
  unfolding consume
  consume-IsValid queue time utc_now st v = elim (Option-cases (get queue st.queues)) [
    | inl missing ↦ rw (missing, consume) v
    | inr (entries, found) ↦ consumed-IsValid queue time utc_now st entries found v
  ]
