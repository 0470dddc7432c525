-- ===== src/State/Deliver/RoundTrip.antt =====
-- Publishing a message and acknowledging it.
use mathlib.Core.Option
use cipher_mq.Common.{
  ℕ, ◌≡◌, refl, ap, ◌∙◌, inl, inr, String, Bool, true, not, ◌&&◌, ◌||◌, some, List, [], ◌∷◌, ◌++◌,
  ◌==◌, Table, if◌then◌else◌, contains, contains-set_insert, All, get, contains_key, arith, eq_iff,
  eq_refl, get-insert_self, Bool-cases, Option-cases, ok, All-get, append-nil,
}
use cipher_mq.Storage.{StorageApi}
use cipher_mq.State.{Entry, ServerState, EncryptedInputData, without, set_or_empty, contains_pair}
use cipher_mq.State.Publish.{enqueue, enqueue_all, track, distribute, publish, target_queues}
use cipher_mq.State.Publish.Queues.{push_bounded, room_in, notify_all-SameTopology}
use cipher_mq.State.Publish.Delivery.{
  is_bound, publish_enqueues_once, publish-eq-ok, saved, contains-target_queues,
}
use cipher_mq.State.Invariant.{IsValid, BindingsValid}
use cipher_mq.State.Invariant.Queues.{contains_key-enqueue_all}
use cipher_mq.State.Deliver.{acknowledge}
use cipher_mq.State.Deliver.Acknowledge.{
  IsFree, without-append, without_of_IsFree, acknowledge_removes,
}

paired_declared :
    (q key : String) (qs : Table (List Entry)) (bs : List (String × String))
    → All (λ p. contains_key p.0 qs ≡ true) bs
    → contains_pair (q, key) bs ≡ true
    → contains_key q qs ≡ true
paired_declared q key qs [] h b = cc
paired_declared q key qs (c ∷ bs) h b =
    ground (arith, eq_iff c.0 q, paired_declared q key qs bs h.1)

IsFree-room_in :
    (max : ℕ) (id : String) (queue : List Entry) → IsFree id queue → IsFree id (room_in max queue)
IsFree-room_in max id [] free = ground arith
IsFree-room_in max id (x ∷ queue) free = ground arith

without-push_bounded :
    (max : ℕ) (e : Entry) (queue : List Entry)
    → IsFree e.0 queue
    → without e.0 (push_bounded max e queue) ≡ room_in max queue
without-push_bounded max e queue free =
    without-append e.0 (room_in max queue) (e ∷ [])
    ∙ ap (λ l. l ++ without e.0 (e ∷ []))
        (without_of_IsFree e.0 (room_in max queue) (IsFree-room_in max e.0 queue free))
    ∙ ap (λ (b : Bool). room_in max queue ++ (if not b then e ∷ [] else [])) (eq_refl e.0)
    ∙ append-nil (room_in max queue)

module _ {S : Type 0} where
  contains-enqueue :
      (q : String) (e : Entry) (name : String) (st : ServerState S) (done : List String)
      → contains q (enqueue e name (st, done)).1
        ≡ ((name == q && contains_key q st.queues) || contains q done)
  unfolding enqueue
  contains-enqueue q e name st done = elim (Option-cases (get name st.queues)) [
    | inl missing ↦ ground (arith, eq_iff name q)
    | inr (queue, found) ↦ ground (arith, eq_iff name q, contains-set_insert q name done)
  ]

  contains-enqueue_all :
      (q : String) (e : Entry) (names : List String) (st : ServerState S) (done : List String)
      → contains q (enqueue_all e names (st, done)).1
        ≡ ((contains q names && contains_key q st.queues) || contains q done)
  unfolding enqueue_all
  contains-enqueue_all q e [] st done = refl
  contains-enqueue_all q e (name ∷ names) st done = ground (
    arith,
    contains-enqueue_all q e names (enqueue e name (st, done)).0 (enqueue e name (st, done)).1,
    contains-enqueue q e name st done,
    contains_key-enqueue_all q e (name ∷ []) st done,
  )

  -- The set that `publish` records.
  message_queues-distribute :
      (e : Entry) (time : ℕ) (names : List String) (st : ServerState S)
      → get e.0 (distribute e time names st).message_queues ≡ some (enqueue_all e names (st, [])).1
  unfolding distribute
  message_queues-distribute e time names st = ground (
    arith,
    notify_all-SameTopology e names (track e time (enqueue_all e names (st, []))),
    get-insert_self e.0 (enqueue_all e names (st, [])).1
        (enqueue_all e names (st, [])).0.message_queues,
  )

  bound_declared :
      (st : ServerState S) (q exchange key : String)
      → IsValid st
      → is_bound st q exchange key ≡ true
      → contains_key q st.queues ≡ true
  bound_declared st q exchange key v b = elim (Option-cases (get exchange st.bindings)) [
    | inl unbound ↦ ground arith
    | inr (bs, found) ↦
        paired_declared q key st.queues bs
          (All-get (BindingsValid st.exchanges st.queues) exchange bs st.bindings v.bindings
            found).2
          (ground arith)
  ]

  -- The recorded set is that of the bound queues.
  contains-recorded :
      (e : Entry) (time : ℕ) (st st₁ : ServerState S) (q exchange key : String)
      → IsValid st
      → st₁.queues ≡ st.queues
      → contains q (
          set_or_empty
            (get e.0 (distribute e time (target_queues st exchange key) st₁).message_queues))
        ≡ is_bound st q exchange key
  contains-recorded e time st st₁ q exchange key v same =
      let names = target_queues st exchange key in
      rw
        (
          message_queues-distribute e time names st₁,
          contains-enqueue_all q e names st₁ [],
          same,
          contains-target_queues st q exchange key,
        )
        (elim (Bool-cases (is_bound st q exchange key)) [
          | inl bound ↦ ground (arith, bound_declared st q exchange key v bound)
          | inr other ↦ ground arith
        ])

module _ {S : Type 0} (api : StorageApi S) (exchange key : String) (m : EncryptedInputData)
    (client_id : String) (time time' : ℕ) (utc_now utc_now' : String) (st st' : ServerState S) where
  -- Publishing a message that no queue holds and then acknowledging it brings every queue back to
  -- what it was, but for the oldest message of each bound queue that was full.
  pub acknowledge-publish :
      IsValid st
      → ((q : String) (entries : List Entry)
          → get q st.queues ≡ some entries
          → IsFree m.message_id entries)
      → publish api exchange key m client_id time utc_now st ≡ (ok tt, st')
      → (q : String)
      → get q (acknowledge api m.message_id time' utc_now' st').queues ≡ (
          if is_bound st q exchange key
          then Option.map (room_in st.max_queue_size) (get q st.queues)
          else get q st.queues)
  acknowledge-publish v free e q =
      let id : String = m.message_id in
      let (queued, known) =
        publish_enqueues_once api exchange key m client_id time utc_now st st' v e in
      let (_, _, _, d) = publish-eq-ok api exchange key m client_id time utc_now st st' e in
      let before = saved api exchange key m client_id time utc_now st in
      let kept : contains_key id st'.message_status ≡ true = rw known in
      let recorded : contains q (set_or_empty (get id st'.message_queues))
          ≡ is_bound st q exchange key =
        rw d (contains-recorded (id, m) time st before q exchange key v refl) in
      let (removed, _) = acknowledge_removes api id time' utc_now' st' kept in
      elim (Option-cases (get q st.queues)) [
        | inl missing ↦ ground (arith, removed q, queued q, recorded)
        | inr (entries, found) ↦ ground (
          arith,
          removed q,
          queued q,
          recorded,
          without-push_bounded st.max_queue_size (id, m) entries (free q entries found),
        )
      ]
