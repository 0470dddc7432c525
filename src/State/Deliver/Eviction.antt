-- ===== src/State/Deliver/Eviction.antt =====
-- What becomes of a message that one full queue pushes out while another still holds it.
use cipher_mq.Common.{
  ℕ, ◌≤◌, ◌≡◌, ◌∙◌, ◌≢◌, inl, inr, String, true, none, some, List, [], ◌∷◌, ◌==◌, Table, length,
  retain, contains, Distinct, get, arith, eq_iff, get-insert, get-remove, get-remove_self,
  Bool-cases, Option-cases, ok,
}
use cipher_mq.Storage.{StorageApi}
use cipher_mq.State.{Entry, ServerState, EncryptedInputData, MessageStatus, sent}
use cipher_mq.State.Publish.{
  evict, make_room, enqueue, enqueue_all, track, distribute, publish, target_queues,
}
use cipher_mq.State.Publish.Queues.{get-enqueue, enqueue-SameTopology, notify_all-SameTopology}
use cipher_mq.State.Publish.Delivery.{
  is_bound, publish-eq-ok, saved, contains-target_queues, Distinct-target_queues,
}
use cipher_mq.State.Invariant.{IsValid}
use cipher_mq.State.Deliver.{is_deliverable, pending, acknowledge}
use cipher_mq.State.Deliver.Acknowledge.{IsFree, acknowledge_unknown}

module _ {S : Type 0} where
  evict_unknown :
      (id name : String) (queue : List Entry) (st : ServerState S)
      → get id st.message_status ≡ none
      → get id (evict name queue st).1.message_status ≡ none
  unfolding evict
  evict_unknown id name [] st h = h
  evict_unknown id name (old ∷ rest) st h = ground (arith, get-remove id old.0 st.message_status)

  -- The loop forgets statuses and records none.
  enqueue_unknown :
      (id : String) (e : Entry) (name : String) (st : ServerState S) (done : List String)
      → get id st.message_status ≡ none
      → get id (enqueue e name (st, done)).0.message_status ≡ none
  unfolding enqueue make_room
  enqueue_unknown id e name st done h = elim (Option-cases (get name st.queues)) [
    | inl missing ↦ ground arith
    | inr (queue, found) ↦ ground (arith, evict_unknown id name queue st h)
  ]

  enqueue_all_unknown :
      (id : String) (e : Entry) (names : List String) (st : ServerState S) (done : List String)
      → get id st.message_status ≡ none
      → get id (enqueue_all e names (st, done)).0.message_status ≡ none
  unfolding enqueue_all
  enqueue_all_unknown id e [] st done h = h
  enqueue_all_unknown id e (name ∷ names) st done h =
      enqueue_all_unknown id e names (enqueue e name (st, done)).0 (enqueue e name (st, done)).1
        (enqueue_unknown id e name st done h)

  -- A full queue forgets the status of its oldest message.
  enqueue_forgets :
      (e : Entry) (name : String) (st : ServerState S) (done : List String) (old : Entry)
      (rest : List Entry)
      → get name st.queues ≡ some (old ∷ rest)
      → st.max_queue_size ≤ length (old ∷ rest)
      → get old.0 (enqueue e name (st, done)).0.message_status ≡ none
  unfolding enqueue make_room evict
  enqueue_forgets e name st done old rest found full =
      ground (arith, get-remove_self old.0 st.message_status)

  enqueue_all_forgets :
      (q : String) (e : Entry) (names : List String) (st : ServerState S) (done : List String)
      (old : Entry) (rest : List Entry)
      → Distinct names
      → contains q names ≡ true
      → get q st.queues ≡ some (old ∷ rest)
      → st.max_queue_size ≤ length (old ∷ rest)
      → get old.0 (enqueue_all e names (st, done)).0.message_status ≡ none
  unfolding enqueue_all
  enqueue_all_forgets q e [] st done old rest d b found full = cc
  enqueue_all_forgets q e (name ∷ names) st done old rest d b found full =
      elim (Bool-cases (name == q)) [
        | inl here ↦
            enqueue_all_unknown old.0 e names (enqueue e name (st, done)).0
              (enqueue e name (st, done)).1
              (enqueue_forgets e name st done old rest (rw ((eq_iff name q).0 here) found) full)
        | inr later ↦
            enqueue_all_forgets q e names (enqueue e name (st, done)).0
              (enqueue e name (st, done)).1 old rest d.1 (ground arith)
              (ground (arith, get-enqueue q e name st done))
              (ground (arith, enqueue-SameTopology e name st done))
      ]

  distribute_forgets :
      (q : String) (e : Entry) (time : ℕ) (names : List String) (st : ServerState S) (old : Entry)
      (rest : List Entry)
      → Distinct names
      → contains q names ≡ true
      → get q st.queues ≡ some (old ∷ rest)
      → st.max_queue_size ≤ length (old ∷ rest)
      → old.0 ≢ e.0
      → get old.0 (distribute e time names st).message_status ≡ none
  unfolding distribute track
  distribute_forgets q e time names st old rest d b found full other = ground (
    arith,
    notify_all-SameTopology e names (track e time (enqueue_all e names (st, []))),
    eq_iff e.0 old.0,
    get-insert old.0 e.0 (sent time) (enqueue_all e names (st, [])).0.message_status,
    enqueue_all_forgets q e names st [] old rest d b found full,
  )

-- A message with no status is handed to no new consumer.
unknown_not_deliverable :
    (status : Table MessageStatus) (id : String) (entries : List Entry)
    → get id status ≡ none
    → IsFree id (retain (λ e. is_deliverable status e.0) entries)
unknown_not_deliverable status id [] h = tt
unknown_not_deliverable status id (e ∷ entries) h =
    ground (arith, eq_iff e.0 id, unknown_not_deliverable status id entries h)

module _ {S : Type 0} (api : StorageApi S) (exchange key : String) (m : EncryptedInputData)
    (client_id : String) (time time' : ℕ) (utc_now utc_now' : String) (st st' : ServerState S) where
  -- When a publication pushes the oldest message out of a full queue, and this is not a copy of the message
  -- that is published, that message is lost for every queue: it has no status, so no new consumer of
  -- any queue that still holds it is given it, and its acknowledgement is ignored and leaves its other
  -- copies where they are.
  pub evicted_is_lost :
      (q : String) (old : Entry) (rest : List Entry)
      → IsValid st
      → publish api exchange key m client_id time utc_now st ≡ (ok tt, st')
      → is_bound st q exchange key ≡ true
      → get q st.queues ≡ some (old ∷ rest)
      → st.max_queue_size ≤ length (old ∷ rest)
      → old.0 ≢ m.message_id
      → ((queue : String) → IsFree old.0 (pending st' queue))
        × (acknowledge api old.0 time' utc_now' st' ≡ st')
  unfolding pending
  evicted_is_lost q old rest v e b found full other =
      let (_, _, _, d) = publish-eq-ok api exchange key m client_id time utc_now st st' e in
      let names = target_queues st exchange key in
      let lost : get old.0 st'.message_status ≡ none = rw d (
        distribute_forgets q (m.message_id, m) time names
          (saved api exchange key m client_id time utc_now st) old rest
          (Distinct-target_queues st exchange key v) (contains-target_queues st q exchange key ∙ b)
          found full other) in
      (λ queue. no_copy queue lost, acknowledge_unknown api old.0 time' utc_now' st' (rw lost))
    where
      no_copy :
          (queue : String) → get old.0 st'.message_status ≡ none → IsFree old.0 (pending st' queue)
      no_copy queue lost = elim (Option-cases (get queue st'.queues)) [
        | inl missing ↦ rw (missing, pending) tt
        | inr (entries, here) ↦
            rw (here, pending) (unknown_not_deliverable st'.message_status old.0 entries lost)
      ]
