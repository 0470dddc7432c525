-- ===== src/State/Publish/Delivery.antt =====
-- What `publish` promises: which calls succeed, where the message then is, and that a call that
-- fails moves nothing.
use mathlib.Core.Option
use cipher_mq.Common.{
  ℕ, ◌≡◌, refl, sym, ap, subst, ◌∙◌, ◌≢◌, ◌↔◌, inl, inr, String, Bool, true, false, none, some,
  List, [], ◌∷◌, ◌==◌, if◌then◌else◌, contains, Distinct, get, contains_key, arith, eq_iff, eq_refl,
  Bool-cases, Option-cases, ok, err, All-get,
}
use cipher_mq.Storage.{StorageApi}
use cipher_mq.State.{Entry, ServerState, EncryptedInputData, sent, contains_pair}
use cipher_mq.State.Publish.{targets_in, route, publish, target_queues, distribute, duplicate}
use cipher_mq.State.Publish.Queues.{push_bounded, get-distribute, status-distribute}
use cipher_mq.State.Publish.Outcome.{publish_cases, save_result, saved_storage}
use cipher_mq.State.Invariant.{IsValid, DistinctPairs, BindingsValid}

-- The queue is bound to the exchange under the routing key.
module _ {S : Type 0} where
  abbrev pub is_bound : ServerState S → String → String → String → Bool
  is_bound st queue exchange key = elim (get exchange st.bindings) [
    | none ↦ false
    | some bs ↦ contains_pair (queue, key) bs
  ]

contains-targets_in :
    (q key : String) (bs : List (String × String))
    → contains q (targets_in key bs) ≡ contains_pair (q, key) bs
unfolding targets_in
contains-targets_in q key [] = refl
contains-targets_in q key (b ∷ bs) = ground (arith, contains-targets_in q key bs)

Distinct-targets_in :
    (key : String) (bs : List (String × String)) → DistinctPairs bs → Distinct (targets_in key bs)
unfolding targets_in
Distinct-targets_in key [] d = tt
Distinct-targets_in key (b ∷ bs) d = elim (Bool-cases (b.1 == key)) [
  | inl here ↦
      let e : b.1 ≡ key = (eq_iff b.1 key).0 here in
      rw here (
        contains-targets_in b.0 key bs ∙ subst (λ k. contains_pair (b.0, k) bs ≡ false) e d.0,
        Distinct-targets_in key bs d.1,
      )
  | inr other ↦ rw other (Distinct-targets_in key bs d.1)
]

module _ {S : Type 0} where
  pub contains-target_queues :
      (st : ServerState S) (q exchange key : String)
      → contains q (target_queues st exchange key) ≡ is_bound st q exchange key
  unfolding target_queues
  contains-target_queues st q exchange key = elim (Option-cases (get exchange st.bindings)) [
    | inl unbound ↦ rw (unbound, target_queues, is_bound)
    | inr (bs, found) ↦ rw (found, target_queues, is_bound) (contains-targets_in q key bs)
  ]

  pub Distinct-target_queues :
      (st : ServerState S) (exchange key : String)
      → IsValid st
      → Distinct (target_queues st exchange key)
  unfolding target_queues
  Distinct-target_queues st exchange key v = elim (Option-cases (get exchange st.bindings)) [
    | inl unbound ↦ rw (unbound, target_queues) tt
    | inr (bs, found) ↦
        rw (found, target_queues)
          (Distinct-targets_in key bs
            (All-get (BindingsValid st.exchanges st.queues) exchange bs st.bindings v.bindings
              found).0)
  ]

  route-eq-ok :
      (exchange key : String) (m : EncryptedInputData) (time : ℕ) (st st' : ServerState S)
      → route exchange key m time st ≡ (ok tt, st')
      → (target_queues st exchange key ≢ [])
        × (st' ≡ distribute (m.message_id, m) time (target_queues st exchange key) st)
  unfolding route
  route-eq-ok exchange key m time st st' e = ground arith

  route-ok :
      (exchange key : String) (m : EncryptedInputData) (time : ℕ) (st : ServerState S)
      → target_queues st exchange key ≢ []
      → (route exchange key m time st).0 ≡ ok tt
  unfolding route
  route-ok exchange key m time st h = ground arith

  route-eq-err :
      (exchange key : String) (m : EncryptedInputData) (time : ℕ) (st st' : ServerState S)
      (x : String)
      → route exchange key m time st ≡ (err x, st')
      → st' ≡ st
  unfolding route
  route-eq-err exchange key m time st st' x e = ground arith

module _ {S : Type 0} (api : StorageApi S) (exchange key : String) (m : EncryptedInputData)
    (client_id : String) (time : ℕ) (utc_now : String) (st : ServerState S) where
  abbrev pub saved : ServerState S
  saved = record st { storage = saved_storage api exchange key m client_id time utc_now st }

  pub publish-eq-ok :
      (st' : ServerState S)
      → publish api exchange key m client_id time utc_now st ≡ (ok tt, st')
      → (contains_key m.message_id st.message_status ≡ false)
        × (save_result api exchange key m client_id time utc_now st ≡ ok tt)
        × (target_queues st exchange key ≢ [])
        × (st' ≡ distribute (m.message_id, m) time (target_queues st exchange key) saved)
  unfolding target_queues
  publish-eq-ok st' =
      publish_cases api exchange key m client_id time utc_now st
        (λ r.
          r ≡ (ok tt, st')
          → (contains_key m.message_id st.message_status ≡ false)
            × (save_result api exchange key m client_id time utc_now st ≡ ok tt)
            × (target_queues st exchange key ≢ [])
            × (st' ≡ distribute (m.message_id, m) time (target_queues st exchange key) saved))
        (λ _ e. absurd (cc)) (λ _ _ e. absurd (cc))
        (λ fresh stored e.
          let (t, d) = route-eq-ok exchange key m time saved st' e in (fresh, stored, t, d))

  -- A publication that succeeds puts the message at the end of every queue that is bound to the
  -- exchange under the routing key, once, and into no other queue; a queue that was full loses its
  -- oldest message and nothing else. The message is then recorded as sent and not acknowledged.
  pub publish_enqueues_once :
      (st' : ServerState S)
      → IsValid st
      → publish api exchange key m client_id time utc_now st ≡ (ok tt, st')
      → ((q : String)
          → get q st'.queues ≡ (
              if is_bound st q exchange key
              then Option.map (push_bounded st.max_queue_size (m.message_id, m)) (get q st.queues)
              else get q st.queues))
        × (get m.message_id st'.message_status ≡ some (sent time))
  publish_enqueues_once st' v e =
      let (_, _, _, d) = publish-eq-ok st' e in
      let names : List String = target_queues st exchange key in
      let e : Entry = (m.message_id, m) in
      rw d (
        λ q.
            get-distribute q e time names saved (Distinct-target_queues st exchange key v)
            ∙ ap
                (λ b.
                  if b
                  then Option.map (push_bounded st.max_queue_size e) (get q st.queues)
                  else get q st.queues)
                (contains-target_queues st q exchange key),
        status-distribute e time names saved,
      )

  -- A publication that fails changes nothing but the database layer.
  pub publish_refused :
      (x : String) (st' : ServerState S)
      → publish api exchange key m client_id time utc_now st ≡ (err x, st')
      → st' ≡ record st { storage = st'.storage }
  publish_refused x st' =
      publish_cases api exchange key m client_id time utc_now st
        (λ r. r ≡ (err x, st') → st' ≡ record st { storage = st'.storage }) (λ _ e. refused st (cc))
        (λ _ _ e. refused saved (cc))
        (λ _ _ e. refused saved (route-eq-err exchange key m time saved st' x e))
    where
      refused : (s : ServerState S) → st' ≡ s → st' ≡ record s { storage = st'.storage }
      refused s same = rw same

  target_exists :
      (target_queues st exchange key ≢ []) ↔ ((q : String) × (is_bound st q exchange key ≡ true))
  target_exists = (to (target_queues st exchange key) refl, λ b none_bound. from b none_bound)
    where
      to :
          (names : List String)
          → target_queues st exchange key ≡ names
          → target_queues st exchange key ≢ []
          → (q : String) × (is_bound st q exchange key ≡ true)
      to [] e h = absurd (h e)
      to (q ∷ names) e h = (
        q,
        sym (contains-target_queues st q exchange key)
            ∙ ap (contains q) e
            ∙ ground (arith, eq_refl q),
      )

      from :
          (q : String) × (is_bound st q exchange key ≡ true)
          → target_queues st exchange key ≡ []
          → ⊥
      from (q, b) e =
          let missing : is_bound st q exchange key ≡ false =
            sym (contains-target_queues st q exchange key) ∙ ap (contains q) e in
          cc

  publish_routed :
      contains_key m.message_id st.message_status ≡ false
      → save_result api exchange key m client_id time utc_now st ≡ ok tt
      → publish api exchange key m client_id time utc_now st ≡ route exchange key m time saved
  unfolding publish
  publish_routed fresh stored = rw fresh (rw (stored, publish))

  -- A publication succeeds exactly when the message is not known yet, its metadata is saved, and
  -- some queue is bound to the exchange under the routing key.
  pub publish_succeeds_iff : ((publish api exchange key m client_id time utc_now st).0 ≡ ok tt) ↔ (
      (contains_key m.message_id st.message_status ≡ false)
      × (save_result api exchange key m client_id time utc_now st ≡ ok tt)
      × ((q : String) × (is_bound st q exchange key ≡ true)))
  unfolding target_queues
  publish_succeeds_iff = (
    λ e.
        let (fresh, stored, t, _) =
          publish-eq-ok (publish api exchange key m client_id time utc_now st).1 (ground arith) in
        (fresh, stored, target_exists.0 t),
    λ h. rw (publish_routed h.0 h.1) (route-ok exchange key m time saved (target_exists.1 h.2)),
  )

module _ {S : Type 0} (api : StorageApi S) where
  -- Right after a publication that succeeds on a valid broker, a message with the same identifier is
  -- refused, whichever client sends it and to whichever exchange, and nothing changes, the database
  -- layer included.
  pub publish_again :
      (exchange exchange' key key' : String) (m m' : EncryptedInputData)
      (client_id client_id' : String) (time time' : ℕ) (utc_now utc_now' : String)
      (st st' : ServerState S)
      → IsValid st
      → publish api exchange key m client_id time utc_now st ≡ (ok tt, st')
      → m'.message_id ≡ m.message_id
      → publish api exchange' key' m' client_id' time' utc_now' st'
        ≡ (err (duplicate m'.message_id), st')
  unfolding publish
  publish_again exchange exchange' key key' m m' client_id client_id' time time' utc_now utc_now' st
        st' v e same =
      let (_, known) = publish_enqueues_once api exchange key m client_id time utc_now st st' v e in
      rw (same, publish, known)
