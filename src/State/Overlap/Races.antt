-- ===== src/State/Overlap/Races.antt =====
-- What holds of publications that overlap in server/src/state.rs, and what does not.
use mathlib.Core.Option
use cipher_mq.Common.{
  Bool, true, Option, none, some, Distinct, contains, get, if◌then◌else◌, ℕ, ◌≡◌, ◌≢◌, refl, ap,
  ◌∙◌, String, false, List, [], contains_key, Result, ok, err, arith, inl, inr, Bool-cases,
}
use cipher_mq.Storage.{StorageApi, StorageError}
use cipher_mq.State.{Entry, EncryptedInputData, ServerState}
use cipher_mq.State.Publish.{route, target_queues, distribute}
use cipher_mq.State.Publish.Queues.{push_bounded, distribute-SameTopology, get-distribute}
use cipher_mq.State.Publish.Delivery.{is_bound, contains-target_queues, Distinct-target_queues}
use cipher_mq.State.Publish.Outcome.{save_result}
use cipher_mq.State.Invariant.{IsValid}
use cipher_mq.State.Invariant.Operations.{new-IsValid, route-IsValid}
use cipher_mq.State.Invariant.Run.{perform-IsValid}
use cipher_mq.State.Overlap.{
  Waiting, begin_publish, begin_publish-known, begin_publish-fresh, waiting_for, finish_from,
  finish_publish, Concurrent, Step, calls, begins, resumes, Reach, here, next, idle,
}

module _ {S : Type 0} where
  begin_publish-IsValid :
      (api : StorageApi S) (exchange key : String) (m : EncryptedInputData) (client_id : String)
      (time : ℕ) (utc_now : String) (st : ServerState S)
      → IsValid st
      → IsValid (begin_publish api exchange key m client_id time utc_now st).1
  begin_publish-IsValid api exchange key m client_id time utc_now st v =
      elim (Bool-cases (contains_key m.message_id st.message_status)) [
        | inl known ↦ rw (begin_publish-known api exchange key m client_id time utc_now st known) v
        | inr fresh ↦
            rw (begin_publish-fresh api exchange key m client_id time utc_now st fresh)
              (record { queues = v.queues; bindings = v.bindings })
      ]

  finish_from-IsValid :
      (w : Waiting) (saved : Result StorageError (Unit {0})) (st : ServerState S)
      → IsValid st
      → IsValid (finish_from w saved st).1
  unfolding finish_from
  finish_from-IsValid w (err e) st v = v
  finish_from-IsValid w (ok u) st v = route-IsValid w.exchange w.key w.message w.received_time st v

  Step-IsValid :
      (api : StorageApi S) {s t : Concurrent S} → Step api s t → IsValid s.state → IsValid t.state
  Step-IsValid api {s} (calls c e) v = rw e (perform-IsValid api c s.state v)
  Step-IsValid api {s} (begins exchange key m client_id time utc_now e) v =
      rw e (begin_publish-IsValid api exchange key m client_id time utc_now s.state v)
  Step-IsValid api {s} (resumes before after w is_waiting e) v =
      rw e (finish_from-IsValid w w.saved s.state v)

  -- However the calls of a new broker's methods overlap, with publications that wait for the database while
  -- others begin, go on or are done, every queue stays within its bound and holds each message under its own
  -- identifier, and every binding is that of a declared exchange to a declared queue and stands there once.
  pub Reach-IsValid :
      (api : StorageApi S) (storage : S) (size : ℕ) (s : Concurrent S)
      → Reach api (idle storage size) s
      → IsValid s.state
  Reach-IsValid api storage size s here = new-IsValid storage size
  Reach-IsValid api storage size s (next r step) =
      Step-IsValid api step (Reach-IsValid api storage size _ r)

  route_lem :
      (exchange key : String) (m : EncryptedInputData) (time : ℕ) (names : List String)
      (st : ServerState S)
      → names ≢ []
      → target_queues st exchange key ≡ names
      → route exchange key m time st ≡ (ok tt, distribute (m.message_id, m) time names st)
  unfolding route
  route_lem exchange key m time names st some_name e = ground arith

  target_queues-begin_publish :
      (api : StorageApi S) (exchange key : String) (m : EncryptedInputData) (client_id : String)
      (time : ℕ) (utc_now : String) (st : ServerState S) (exchange' key' : String)
      → target_queues (begin_publish api exchange key m client_id time utc_now st).1 exchange' key'
        ≡ target_queues st exchange' key'
  unfolding target_queues begin_publish
  target_queues-begin_publish api exchange key m client_id time utc_now st exchange' key' =
      ground arith

  finish_lem :
      (w : Waiting) (st : ServerState S)
      → w.saved ≡ ok tt
      → finish_publish w st ≡ route w.exchange w.key w.message w.received_time st
  unfolding finish_from
  finish_lem w st h = ap (λ saved. finish_from w saved st) h

  target_queues-distribute :
      (exchange key : String) (m : EncryptedInputData) (time : ℕ) (names : List String)
      (st : ServerState S)
      → target_queues (distribute (m.message_id, m) time names st) exchange key
        ≡ target_queues st exchange key
  unfolding target_queues
  target_queues-distribute exchange key m time names st =
      rw (target_queues, (distribute-SameTopology (m.message_id, m) time names st).bindings) refl

  begin_publish-queues :
      (api : StorageApi S) (exchange key : String) (m : EncryptedInputData) (client_id : String)
      (time : ℕ) (utc_now : String) (st : ServerState S)
      → let begun = (begin_publish api exchange key m client_id time utc_now st).1 in
        (begun.queues ≡ st.queues) × (begun.max_queue_size ≡ st.max_queue_size)
  unfolding begin_publish
  begin_publish-queues api exchange key m client_id time utc_now st = (ground arith, ground arith)

  -- Two messages are put into the same queues.
  distribute-distribute :
      (q : String) (e₁ e₂ : Entry) (time₁ time₂ : ℕ) (names : List String) (st st₂ : ServerState S)
      → Distinct names
      → st₂.queues ≡ st.queues
      → st₂.max_queue_size ≡ st.max_queue_size
      → get q (distribute e₂ time₂ names (distribute e₁ time₁ names st₂)).queues ≡ (
          if contains q names
          then Option.map
              (λ queue. push_bounded st.max_queue_size e₂ (push_bounded st.max_queue_size e₁ queue))
              (get q st.queues)
          else get q st.queues)
  distribute-distribute q e₁ e₂ time₁ time₂ names st st₂ d queues size =
      rw
        (
          get-distribute q e₂ time₂ names (distribute e₁ time₁ names st₂) d,
          get-distribute q e₁ time₁ names st₂ d,
          (distribute-SameTopology e₁ time₁ names st₂).max_queue_size,
          queues,
          size,
        )
        (twice (contains q names) (get q st.queues))
    where
      twice :
          (b : Bool) (queue : Option (List Entry))
          → (if b
              then Option.map
                  (push_bounded st.max_queue_size e₂)
                  (if b then Option.map (push_bounded st.max_queue_size e₁) queue else queue)
              else (if b then Option.map (push_bounded st.max_queue_size e₁) queue else queue))
            ≡ (if b
                then Option.map
                    (λ queue.
                      push_bounded st.max_queue_size e₂ (push_bounded st.max_queue_size e₁ queue))
                    queue
                else queue)
      twice true none = refl
      twice true (some queue) = refl
      twice false queue = refl

module _ {S : Type 0} (api : StorageApi S) (exchange key : String) (m₁ m₂ : EncryptedInputData)
    (client₁ client₂ : String) (time₁ time₂ : ℕ) (utc₁ utc₂ : String) (st : ServerState S) where
  both_finish :
      m₁.message_id ≡ m₂.message_id
      → contains_key m₁.message_id st.message_status ≡ false
      → target_queues st exchange key ≢ []
      → save_result api exchange key m₁ client₁ time₁ utc₁ st ≡ ok tt
      → save_result api exchange key m₂ client₂ time₂ utc₂
          (begin_publish api exchange key m₁ client₁ time₁ utc₁ st).1
        ≡ ok tt
      → let (begun₁, st₁) = begin_publish api exchange key m₁ client₁ time₁ utc₁ st in
        let (begun₂, st₂) = begin_publish api exchange key m₂ client₂ time₂ utc₂ st₁ in
        let names = target_queues st exchange key in
        let w₁ = waiting_for api exchange key m₁ client₁ time₁ utc₁ st in
        let w₂ = waiting_for api exchange key m₂ client₂ time₂ utc₂ st₁ in
        (begun₁ ≡ ok w₁)
        × (begun₂ ≡ ok w₂)
        × ((finish_publish w₁ st₂).0 ≡ ok tt)
        × (finish_publish w₂ (finish_publish w₁ st₂).1 ≡ (
          ok tt,
          distribute
              (m₂.message_id, m₂)
              time₂
              names
              (distribute (m₁.message_id, m₁) time₁ names st₂),
        ))
  both_finish same unknown bound saved₁ saved₂ =
      let st₁ = (begin_publish api exchange key m₁ client₁ time₁ utc₁ st).1 in
      let st₂ = (begin_publish api exchange key m₂ client₂ time₂ utc₂ st₁).1 in
      let w₁ = waiting_for api exchange key m₁ client₁ time₁ utc₁ st in
      let w₂ = waiting_for api exchange key m₂ client₂ time₂ utc₂ st₁ in
      let names = target_queues st exchange key in
      let begins₁ = begin_publish-fresh api exchange key m₁ client₁ time₁ utc₁ st unknown in
      let unknown₂ : contains_key m₂.message_id st₁.message_status ≡ false =
        rw (begins₁, ← same) unknown in
      let begins₂ = begin_publish-fresh api exchange key m₂ client₂ time₂ utc₂ st₁ unknown₂ in
      let targets : target_queues st₂ exchange key ≡ names =
        target_queues-begin_publish api exchange key m₂ client₂ time₂ utc₂ st₁ exchange key
        ∙ target_queues-begin_publish api exchange key m₁ client₁ time₁ utc₁ st exchange key in
      let ends₁ : finish_publish w₁ st₂ ≡ (ok tt, distribute (m₁.message_id, m₁) time₁ names st₂) =
        finish_lem w₁ st₂ saved₁ ∙ route_lem exchange key m₁ time₁ names st₂ bound targets in
      let ends₂ =
        finish_lem w₂ (distribute (m₁.message_id, m₁) time₁ names st₂) saved₂
        ∙ route_lem exchange key m₂ time₂ names (distribute (m₁.message_id, m₁) time₁ names st₂)
            bound (target_queues-distribute exchange key m₁ time₁ names st₂ ∙ targets) in
      (
        ap (λ r. r.0) begins₁,
        ap (λ r. r.0) begins₂,
        ap (λ r. r.0) ends₁,
        ap (λ r. finish_publish w₂ r.1) ends₁ ∙ ends₂,
      )

  -- Two publications with one identifier that begin before either goes on both succeed: the second passes the
  -- check for duplicates, and in the end every queue that is bound to the exchange under the routing key has
  -- had both messages put behind what it held, each push dropping the oldest message of a full queue; the
  -- other queues are what they were. The broker is valid, the message was not known, some queue is bound, and
  -- the database saves the metadata both times.
  pub overlapping_duplicates :
      (bound_queue : String)
      → IsValid st
      → m₁.message_id ≡ m₂.message_id
      → contains_key m₁.message_id st.message_status ≡ false
      → is_bound st bound_queue exchange key ≡ true
      → save_result api exchange key m₁ client₁ time₁ utc₁ st ≡ ok tt
      → save_result api exchange key m₂ client₂ time₂ utc₂
          (begin_publish api exchange key m₁ client₁ time₁ utc₁ st).1
        ≡ ok tt
      → let (begun₁, st₁) = begin_publish api exchange key m₁ client₁ time₁ utc₁ st in
        let (begun₂, st₂) = begin_publish api exchange key m₂ client₂ time₂ utc₂ st₁ in
        let w₁ = waiting_for api exchange key m₁ client₁ time₁ utc₁ st in
        let w₂ = waiting_for api exchange key m₂ client₂ time₂ utc₂ st₁ in
        let (published₁, st₃) = finish_publish w₁ st₂ in
        let (published₂, st₄) = finish_publish w₂ st₃ in
        (begun₁ ≡ ok w₁)
        × (begun₂ ≡ ok w₂)
        × (published₁ ≡ ok tt)
        × (published₂ ≡ ok tt)
        × ((q : String)
            → get q st₄.queues ≡ (
                if is_bound st q exchange key
                then Option.map
                    (λ queue.
                      push_bounded st.max_queue_size
                        (m₂.message_id, m₂)
                        (push_bounded st.max_queue_size (m₁.message_id, m₁) queue))
                    (get q st.queues)
                else get q st.queues))
  overlapping_duplicates bound_queue v same unknown bound saved₁ saved₂ =
      let st₁ = (begin_publish api exchange key m₁ client₁ time₁ utc₁ st).1 in
      let st₂ = (begin_publish api exchange key m₂ client₂ time₂ utc₂ st₁).1 in
      let w₂ = waiting_for api exchange key m₂ client₂ time₂ utc₂ st₁ in
      let names = target_queues st exchange key in
      let (begins₁, begins₂, ends₁, ends₂) =
        both_finish same unknown
          (λ none_bound.
            ground (arith, none_bound, bound, contains-target_queues st bound_queue exchange key))
          saved₁ saved₂ in
      (
        begins₁,
        begins₂,
        ends₁,
        ap (λ r. r.0) ends₂,
        λ q.
            ap (λ r. get q r.1.queues) ends₂
            ∙ distribute-distribute q (m₁.message_id, m₁) (m₂.message_id, m₂) time₁ time₂ names st
                st₂ (Distinct-target_queues st exchange key v)
                ((begin_publish-queues api exchange key m₂ client₂ time₂ utc₂ st₁).0
                  ∙ (begin_publish-queues api exchange key m₁ client₁ time₁ utc₁ st).0)
                ((begin_publish-queues api exchange key m₂ client₂ time₂ utc₂ st₁).1
                  ∙ (begin_publish-queues api exchange key m₁ client₁ time₁ utc₁ st).1)
            ∙ ap
                (λ b.
                  if b
                  then Option.map
                      (λ queue.
                        push_bounded st.max_queue_size (m₂.message_id, m₂)
                          (push_bounded st.max_queue_size (m₁.message_id, m₁) queue))
                      (get q st.queues)
                  else get q st.queues)
                (contains-target_queues st q exchange key),
      )
