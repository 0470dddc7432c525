-- ===== src/State/Deliver/Pending.antt =====
-- What a new consumer is given.
use cipher_mq.Common.{
  ℕ, zero, suc, ◌≡◌, refl, String, true, some, List, [], ◌∷◌, ◌++◌, append_assoc, append-nil,
  if◌then◌else◌, eqb, get_elem?, set, retain, get, arith, or_insert_found,
}
use cipher_mq.State.{Entry, Channel, ServerState, send, declare_queue}
use cipher_mq.State.Deliver.{deliver_pending, is_deliverable, pending, register_consumer}

-- What stands at a place after a write to one that was in use.
pub get_elem?-set :
    (chs : List Channel) (i j : ℕ) (c d : Channel)
    → get_elem? chs i ≡ some c
    → get_elem? (set chs i d) j ≡ (if eqb i j then some d else get_elem? chs j)
get_elem?-set [] i j c d h = cc
get_elem?-set (x ∷ chs) zero zero c d h = refl
get_elem?-set (x ∷ chs) zero (suc j) c d h = ground arith
get_elem?-set (x ∷ chs) (suc i) zero c d h = ground arith
get_elem?-set (x ∷ chs) (suc i) (suc j) c d h = ground (arith, get_elem?-set chs i j c d h)

-- On an open channel the task hands over all its messages, in order, and no other channel changes.
pub get_elem?-deliver_pending :
    (sender j : ℕ) (es : List Entry) (chs : List Channel) (c : Channel)
    → get_elem? chs sender ≡ some c
    → c.is_open ≡ true
    → get_elem? (deliver_pending sender es chs) j
      ≡ (if eqb sender j then some (record c { waiting = c.waiting ++ es }) else get_elem? chs j)
unfolding deliver_pending send
get_elem?-deliver_pending sender j [] chs c h o = ground (arith, append-nil c.waiting)
get_elem?-deliver_pending sender j (e ∷ es) chs c h o =
    let c' : Channel = record c { waiting = c.waiting ++ e ∷ [] } in
    ground (
      arith,
      get_elem?-set chs sender sender c c' h,
      get_elem?-set chs sender j c c' h,
      append_assoc c.waiting (e ∷ []) es,
      get_elem?-deliver_pending sender j es (set chs sender c') c',
    )

module _ {S : Type 0} where
  -- Whoever starts to consume a queue gets, once the task has run and while its channel is open,
  -- exactly the queued messages that are known and not acknowledged, in the order of the queue and
  -- behind what the channel held; the queue itself keeps all its messages, and the other channels
  -- are left alone.
  pub register_consumer-deliver_pending :
      (queue : String) (sender j : ℕ) (st : ServerState S) (entries : List Entry) (c : Channel)
      → get queue st.queues ≡ some entries
      → get_elem? st.channels sender ≡ some c
      → c.is_open ≡ true
      → (get_elem?
            (deliver_pending sender
              (register_consumer queue sender st).1
              (register_consumer queue sender st).0.channels)
            j
          ≡ (if eqb sender j
              then some (record c {
                waiting = c.waiting ++ retain (λ e. is_deliverable st.message_status e.0) entries;
              })
              else get_elem? st.channels j))
        × (get queue (register_consumer queue sender st).0.queues ≡ some entries)
  unfolding register_consumer declare_queue
  register_consumer-deliver_pending queue sender j st entries c found h o =
      rw (or_insert_found queue entries [] st.queues found, found, pending)
        (get_elem?-deliver_pending sender j _ st.channels c h o, refl)
