-- ===== src/State/Publish/Notified.antt =====
-- Whom a publication reaches (server/src/state.rs): the consumers of its target queues.
use cipher_mq.Common.{
  ℕ, ◌+◌, ◌≡◌, ◌∙◌, refl, ap, inl, inr, String, none, some, List, [], ◌∷◌, ◌++◌, text-cases,
  eq_refl, append-nil, set, get, get-insert, ok, arith, Option-cases,
}
use cipher_mq.Storage.{StorageApi}
use cipher_mq.State.{EncryptedInputData, Entry, ServerState, is_closed}
use cipher_mq.State.Publish.{
  offer_all, notify, notify_all, evict, make_room, enqueue, enqueue_all, track, distribute,
  target_queues, publish,
}
use cipher_mq.State.Publish.Delivery.{saved, publish-eq-ok}
use cipher_mq.State.Publish.Consumers.{
  waiting_in, repeated, append-repeated, heard_by, heard_by-retain, Put, offer_all-Put,
}

module _ {S : Type 0} where
  -- The consumers of a queue.
  abbrev pub consumers_in : ServerState S → String → List ℕ
  consumers_in st name = elim (get name st.consumers) [ none ↦ [] | some senders ↦ senders ]

  -- How often a channel hears of a message for some queues.
  unfoldable pub hearings : ServerState S → List String → ℕ → ℕ
  hearings st [] i = 0
  hearings st (name ∷ names) i = heard_by st.channels i (consumers_in st name) + hearings st names i

  notify-Put :
      (e : Entry) (name : String) (st : ServerState S)
      → Put
          (λ i. heard_by st.channels i (consumers_in st name))
          e
          st.channels
          (notify e name st).channels
  unfolding notify
  notify-Put e name st = elim (Option-cases (get name st.consumers)) [
    | inl missing ↦
        rw (missing, notify)
          (record {
            same = λ i. refl;
            waits = λ i. ground (arith, append-nil (waiting_in st.channels i));
          })
    | inr (senders, found) ↦
        let put = (offer_all-Put e senders st.channels).1 in
        rw (found, notify)
          (record { same = λ i. put.same i; waits = λ i. ground (arith, put.waits i, found) })
  ]

  notify-consumers :
      (e : Entry) (name other : String) (st : ServerState S) (i : ℕ)
      → heard_by (notify e name st).channels i (consumers_in (notify e name st) other)
        ≡ heard_by st.channels i (consumers_in st other)
  unfolding notify
  notify-consumers e name other st i = elim (Option-cases (get name st.consumers)) [
    | inl missing ↦ rw (missing, notify) refl
    | inr (senders, found) ↦
        let (kept, put) = offer_all-Put e senders st.channels in
        let left = (offer_all e senders st.channels).0 in
        elim (text-cases name other) [
          | inl same ↦
              rw (found, notify)
                (ground (
                  arith,
                  found,
                  same,
                  eq_refl name,
                  kept,
                  put.same i,
                  get-insert other name left st.consumers,
                  heard_by-retain st.channels i senders,
                ))
          | inr differs ↦
              rw (found, notify)
                (ground (arith, differs, put.same i, get-insert other name left st.consumers))
        ]
  ]

  hearings-notify :
      (e : Entry) (name : String) (names : List String) (st : ServerState S) (i : ℕ)
      → hearings (notify e name st) names i ≡ hearings st names i
  unfolding hearings
  hearings-notify e name [] st i = refl
  hearings-notify e name (other ∷ names) st i =
      omega (arith, notify-consumers e name other st i, hearings-notify e name names st i)

  notify_all-Put :
      (e : Entry) (names : List String) (st : ServerState S)
      → Put (hearings st names) e st.channels (notify_all e names st).channels
  unfolding notify_all hearings
  notify_all-Put e [] st = record {
    same = λ i. refl;
    waits = λ i. ground (arith, append-nil (waiting_in st.channels i));
  }
  notify_all-Put e (name ∷ names) st =
      let one = notify-Put e name st in
      let more = notify_all-Put e names (notify e name st) in
      record {
        same = λ i. more.same i ∙ one.same i;
        waits = λ i.
            let n = heard_by st.channels i (consumers_in st name) in
            more.waits i
            ∙ ap (λ w. w ++ repeated (hearings (notify e name st) names i) e) (one.waits i)
            ∙ append-repeated (waiting_in st.channels i) n (hearings (notify e name st) names i) e
            ∙ ap (λ k. waiting_in st.channels i ++ repeated (n + k) e)
                (hearings-notify e name names st i);
      }

  -- The channels and the consumers are left alone while the queues are filled.
  pub record Unheard (st st' : ServerState S) : Type 0 where
    pub channels : st'.channels ≡ st.channels
    pub consumers : st'.consumers ≡ st.consumers

  enqueue-Unheard :
      (e : Entry) (name : String) (st : ServerState S) (names : List String)
      → Unheard st (enqueue e name (st, names)).0
  unfolding enqueue make_room
  enqueue-Unheard e name st names = elim (Option-cases (get name st.queues)) [
    | inl missing ↦ ground arith
    | inr (queue, found) ↦ ground (arith, evicted queue)
  ]
    where
      evicted : (queue : List Entry) → Unheard st (evict name queue st).1
      evicted [] = record { channels = refl; consumers = refl }
      evicted (old ∷ rest) = record { channels = refl; consumers = refl }

  pub enqueue_all-Unheard :
      (e : Entry) (names : List String) (st : ServerState S) (set : List String)
      → Unheard st (enqueue_all e names (st, set)).0
  unfolding enqueue_all
  enqueue_all-Unheard e [] st set = record { channels = refl; consumers = refl }
  enqueue_all-Unheard e (name ∷ names) st set =
      let (st₁, set₁) = enqueue e name (st, set) in
      let one = enqueue-Unheard e name st set in
      let more = enqueue_all-Unheard e names st₁ set₁ in
      record { channels = more.channels ∙ one.channels; consumers = more.consumers ∙ one.consumers }

  hearings-Unheard :
      (st st' : ServerState S) (names : List String) (i : ℕ)
      → Unheard st st'
      → hearings st' names i ≡ hearings st names i
  unfolding hearings
  hearings-Unheard st st' [] i u = refl
  hearings-Unheard st st' (name ∷ names) i u =
      ground (arith, u.channels, u.consumers, hearings-Unheard st st' names i u)

  distribute-hearings :
      (e : Entry) (time : ℕ) (names : List String) (st : ServerState S) (i : ℕ)
      → (waiting_in (distribute e time names st).channels i
          ≡ waiting_in st.channels i ++ repeated (hearings st names i) e)
        × (is_closed (distribute e time names st).channels i ≡ is_closed st.channels i)
  unfolding distribute track
  distribute-hearings e time names st i =
      let filled = enqueue_all e names (st, []) in
      let u = enqueue_all-Unheard e names st [] in
      let tracked : Unheard st (track e time filled) = record {
        channels = u.channels;
        consumers = u.consumers;
      } in
      let put = notify_all-Put e names (track e time filled) in
      (
        put.waits i
            ∙ ap (λ chs. waiting_in chs i ++ repeated (hearings (track e time filled) names i) e)
                u.channels
            ∙ ap (λ n. waiting_in st.channels i ++ repeated n e)
                (hearings-Unheard st (track e time filled) names i tracked),
        put.same i ∙ ap (λ chs. is_closed chs i) u.channels,
      )

module _ {S : Type 0} (api : StorageApi S) where
  -- A publication that succeeds puts the message behind what waits in each channel that is open, as often as the
  -- channel is a consumer of the queues that are bound to the exchange under the routing key, and into no
  -- channel that is closed; it opens no channel and closes none.
  pub publish_notifies :
      (exchange key : String) (m : EncryptedInputData) (client_id : String) (time : ℕ)
      (utc_now : String) (st st' : ServerState S) (i : ℕ)
      → publish api exchange key m client_id time utc_now st ≡ (ok tt, st')
      → (waiting_in st'.channels i
          ≡ waiting_in st.channels i
            ++ repeated (hearings st (target_queues st exchange key) i) (m.message_id, m))
        × (is_closed st'.channels i ≡ is_closed st.channels i)
  publish_notifies exchange key m client_id time utc_now st st' i e =
      let (_, _, _, d) = publish-eq-ok api exchange key m client_id time utc_now st st' e in
      let names = target_queues st exchange key in
      let before = saved api exchange key m client_id time utc_now st in
      let same =
        hearings-Unheard st before names i (record { channels = refl; consumers = refl }) in
      let (waits, closed) = distribute-hearings (m.message_id, m) time names before i in
      rw d (waits ∙ ap (λ n. waiting_in st.channels i ++ repeated n (m.message_id, m)) same, closed)
