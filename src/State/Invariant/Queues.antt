-- ===== src/State/Invariant/Queues.antt =====
-- Bounds and keys of the queues through the loops of `publish`, `acknowledge` and the clean-up.
use cipher_mq.Common.{
  ℕ, ◌≡◌, refl, ◌∙◌, inl, inr, String, not, eq_iff, none, some, List, [], ◌∷◌, ◌==◌, All, Table,
  get, contains_key, insert, modify, arith, All-get, All-insert, All-modify, All-append, All-retain,
  length-append, length-retain-le, contains_key-modify, Option-cases,
}
use cipher_mq.State.{Entry, ServerState, without, remove_from_queues}
use cipher_mq.State.Publish.{enqueue, enqueue_all}
use cipher_mq.State.Publish.Queues.{push_bounded, get-enqueue, make_room-room, enqueue-SameTopology}
use cipher_mq.State.Invariant.{QueueValid, IsKeyed}

push_bounded-QueueValid :
    (size : ℕ) (name : String) (e : Entry) (queue : List Entry)
    → IsKeyed e
    → QueueValid size (name, queue)
    → QueueValid size (name, push_bounded size e queue)
push_bounded-QueueValid size name e [] k h = ground arith
push_bounded-QueueValid size name e (x ∷ queue) k h = ground (
  arith,
  length-append queue (e ∷ []),
  length-append (x ∷ queue) (e ∷ []),
  All-append IsKeyed queue (e ∷ []),
)

module _ {S : Type 0} where
  queues-enqueue :
      (e : Entry) (name : String) (st : ServerState S) (done : List String) (queue : List Entry)
      → get name st.queues ≡ some queue
      → (enqueue e name (st, done)).0.queues
        ≡ insert name (push_bounded st.max_queue_size e queue) st.queues
  unfolding enqueue
  queues-enqueue e name st done queue found = ground (arith, make_room-room name queue st)

  queues-enqueue_missing :
      (e : Entry) (name : String) (st : ServerState S) (done : List String)
      → get name st.queues ≡ none
      → (enqueue e name (st, done)).0.queues ≡ st.queues
  unfolding enqueue
  queues-enqueue_missing e name st done missing = ground arith

  enqueue-QueueValid :
      (size : ℕ) (e : Entry) (name : String) (st : ServerState S) (done : List String)
      → IsKeyed e
      → st.max_queue_size ≡ size
      → All (QueueValid size) st.queues
      → All (QueueValid size) (enqueue e name (st, done)).0.queues
  enqueue-QueueValid size e name st done k m h = elim (Option-cases (get name st.queues)) [
    | inl missing ↦ rw (queues-enqueue_missing e name st done missing) h
    | inr (queue, found) ↦
        let valid =
          push_bounded-QueueValid size name e queue k
            (All-get (QueueValid size) name queue st.queues h found) in
        rw (queues-enqueue e name st done queue found, m)
          (All-insert (QueueValid size) name _ st.queues valid h)
  ]

  pub enqueue_all-QueueValid :
      (size : ℕ) (e : Entry) (names : List String) (st : ServerState S) (done : List String)
      → IsKeyed e
      → st.max_queue_size ≡ size
      → All (QueueValid size) st.queues
      → All (QueueValid size) (enqueue_all e names (st, done)).0.queues
  unfolding enqueue_all
  enqueue_all-QueueValid size e [] st done k m h = h
  enqueue_all-QueueValid size e (name ∷ names) st done k m h =
      enqueue_all-QueueValid size e names (enqueue e name (st, done)).0
        (enqueue e name (st, done)).1 k ((enqueue-SameTopology e name st done).max_queue_size ∙ m)
        (enqueue-QueueValid size e name st done k m h)

  -- A queue that was declared stays declared.
  pub contains_key-enqueue_all :
      (q : String) (e : Entry) (names : List String) (st : ServerState S) (done : List String)
      → contains_key q (enqueue_all e names (st, done)).0.queues ≡ contains_key q st.queues
  unfolding enqueue_all
  contains_key-enqueue_all q e [] st done = refl
  contains_key-enqueue_all q e (name ∷ names) st done =
      contains_key-enqueue_all q e names (enqueue e name (st, done)).0 (enqueue e name (st, done)).1
      ∙ ground (arith, get-enqueue q e name st done, eq_iff name q)

pub remove_from_queues-QueueValid :
    (size : ℕ) (id : String) (names : List String) (qs : Table (List Entry))
    → All (QueueValid size) qs
    → All (QueueValid size) (remove_from_queues id names qs)
unfolding remove_from_queues
remove_from_queues-QueueValid size id [] qs h = h
remove_from_queues-QueueValid size id (q ∷ names) qs h =
    remove_from_queues-QueueValid size id names (modify q (without id) qs) (
      All-modify (QueueValid size) q (without id) qs
        (λ v p. (
          omega (arith, length-retain-le (λ x. not (x.0 == id)) v, p.0),
          All-retain IsKeyed (λ x. not (x.0 == id)) v p.1,
        ))
        h)

pub contains_key-remove_from_queues :
    (q id : String) (names : List String) (qs : Table (List Entry))
    → contains_key q (remove_from_queues id names qs) ≡ contains_key q qs
unfolding remove_from_queues
contains_key-remove_from_queues q id [] qs = refl
contains_key-remove_from_queues q id (name ∷ names) qs =
    contains_key-remove_from_queues q id names (modify name (without id) qs)
    ∙ contains_key-modify q name (without id) qs
