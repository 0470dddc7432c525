-- ===== src/State/Publish/Queues.antt =====
-- What `publish` does to the queues.
use mathlib.Core.Option
use cipher_mq.Common.{
  ℕ, ◌≡◌, refl, inl, inr, String, some, List, [], ◌∷◌, ◌++◌, ◌==◌, leb, if◌then◌else◌, length,
  contains, Distinct, get, arith, eq_iff, get-insert, get-insert_self, Option-cases,
}
use cipher_mq.State.{Entry, sent, ServerState}
use cipher_mq.State.Publish.{
  evict, make_room, enqueue, enqueue_all, track, notify, notify_all, distribute,
}

abbrev pub drop_oldest : List Entry → List Entry
drop_oldest [] = []
drop_oldest (_ ∷ rest) = rest

-- A queue after the size check.
abbrev pub room_in : ℕ → List Entry → List Entry
room_in max queue = if leb max (length queue) then drop_oldest queue else queue

-- A queue with one more message at its end, less its oldest one where it was full.
abbrev pub push_bounded : ℕ → Entry → List Entry → List Entry
push_bounded max e queue = room_in max queue ++ e ∷ []

module _ {S : Type 0} where
  -- What an operation leaves alone when it only moves messages.
  pub record SameTopology (st st' : ServerState S) : Type 0 where
    pub bindings : st'.bindings ≡ st.bindings
    pub exchanges : st'.exchanges ≡ st.exchanges
    pub max_queue_size : st'.max_queue_size ≡ st.max_queue_size
    pub connected_clients : st'.connected_clients ≡ st.connected_clients
    pub storage : st'.storage ≡ st.storage

  evict-room :
      (name : String) (queue : List Entry) (st : ServerState S)
      → ((evict name queue st).0 ≡ drop_oldest queue)
        × ((evict name queue st).1.queues ≡ st.queues)
        × SameTopology st (evict name queue st).1
  unfolding evict
  evict-room name [] st = ground arith
  evict-room name (old ∷ rest) st = ground arith

  pub make_room-room :
      (name : String) (queue : List Entry) (st : ServerState S)
      → ((make_room name queue st).0
          ≡ (if leb st.max_queue_size (length queue) then drop_oldest queue else queue))
        × ((make_room name queue st).1.queues ≡ st.queues)
        × SameTopology st (make_room name queue st).1
  unfolding make_room
  make_room-room name queue st = ground (arith, evict-room name queue st)

  pub enqueue-SameTopology :
      (e : Entry) (name : String) (st : ServerState S) (names : List String)
      → SameTopology st (enqueue e name (st, names)).0
  unfolding enqueue
  enqueue-SameTopology e name st names = elim (Option-cases (get name st.queues)) [
    | inl missing ↦ ground arith
    | inr (queue, found) ↦ ground (arith, make_room-room name queue st)
  ]

  pub get-enqueue :
      (q : String) (e : Entry) (name : String) (st : ServerState S) (names : List String)
      → get q (enqueue e name (st, names)).0.queues ≡ (
          if name == q
          then Option.map (push_bounded st.max_queue_size e) (get q st.queues)
          else get q st.queues)
  unfolding enqueue
  get-enqueue q e name st names = elim (Option-cases (get name st.queues)) [
    | inl missing ↦ ground (arith, eq_iff name q)
    | inr (queue, found) ↦ ground (
      arith,
      eq_iff name q,
      make_room-room name queue st,
      get-insert q name ((make_room name queue st).0 ++ e ∷ []) (make_room name queue st).1.queues,
    )
  ]

  pub enqueue_all-SameTopology :
      (e : Entry) (names : List String) (st : ServerState S) (done : List String)
      → SameTopology st (enqueue_all e names (st, done)).0
  unfolding enqueue_all
  enqueue_all-SameTopology e [] st done = ground arith
  enqueue_all-SameTopology e (name ∷ names) st done =
      let (st', done') = enqueue e name (st, done) in
      ground
        (arith, enqueue-SameTopology e name st done, enqueue_all-SameTopology e names st' done')

  get-enqueue_all :
      (q : String) (e : Entry) (names : List String) (st : ServerState S) (done : List String)
      → Distinct names
      → get q (enqueue_all e names (st, done)).0.queues ≡ (
          if contains q names
          then Option.map (push_bounded st.max_queue_size e) (get q st.queues)
          else get q st.queues)
  unfolding enqueue_all
  get-enqueue_all q e [] st done d = refl
  get-enqueue_all q e (name ∷ names) st done d = ground (
    arith,
    eq_iff name q,
    enqueue-SameTopology e name st done,
    get-enqueue q e name st done,
    get-enqueue_all q e names (enqueue e name (st, done)).0 (enqueue e name (st, done)).1 d.1,
  )

  pub notify-SameTopology :
      (e : Entry) (name : String) (st : ServerState S)
      → SameTopology st (notify e name st)
        × ((notify e name st).queues ≡ st.queues)
        × ((notify e name st).message_queues ≡ st.message_queues)
        × ((notify e name st).message_status ≡ st.message_status)
  unfolding notify
  notify-SameTopology e name st = ground arith

  pub notify_all-SameTopology :
      (e : Entry) (names : List String) (st : ServerState S)
      → SameTopology st (notify_all e names st)
        × ((notify_all e names st).queues ≡ st.queues)
        × ((notify_all e names st).message_queues ≡ st.message_queues)
        × ((notify_all e names st).message_status ≡ st.message_status)
  unfolding notify_all
  notify_all-SameTopology e [] st = ground arith
  notify_all-SameTopology e (name ∷ names) st =
      ground
        (arith, notify-SameTopology e name st, notify_all-SameTopology e names (notify e name st))

  pub distribute-SameTopology :
      (e : Entry) (time : ℕ) (names : List String) (st : ServerState S)
      → SameTopology st (distribute e time names st)
  unfolding distribute
  distribute-SameTopology e time names st = ground (
    arith,
    enqueue_all-SameTopology e names st [],
    notify_all-SameTopology e names (track e time (enqueue_all e names (st, []))),
  )

  pub queues-distribute :
      (e : Entry) (time : ℕ) (names : List String) (st : ServerState S)
      → (distribute e time names st).queues ≡ (enqueue_all e names (st, [])).0.queues
  unfolding distribute
  queues-distribute e time names st =
      ground (arith, notify_all-SameTopology e names (track e time (enqueue_all e names (st, []))))

  pub get-distribute :
      (q : String) (e : Entry) (time : ℕ) (names : List String) (st : ServerState S)
      → Distinct names
      → get q (distribute e time names st).queues ≡ (
          if contains q names
          then Option.map (push_bounded st.max_queue_size e) (get q st.queues)
          else get q st.queues)
  get-distribute q e time names st d =
      rw (queues-distribute e time names st) (get-enqueue_all q e names st [] d)

  -- The message is recorded as sent and not yet acknowledged.
  pub status-distribute :
      (e : Entry) (time : ℕ) (names : List String) (st : ServerState S)
      → get e.0 (distribute e time names st).message_status ≡ some (sent time)
  unfolding distribute
  status-distribute e time names st = ground (
    arith,
    notify_all-SameTopology e names (track e time (enqueue_all e names (st, []))),
    get-insert_self e.0 (sent time) (enqueue_all e names (st, [])).0.message_status,
  )
