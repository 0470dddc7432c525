-- ===== src/Clients/Sender/Pipeline/Balance.antt =====
-- What becomes of the permits of the pipeline of clients/sender_1/src/main.rs in one batch.
use cipher_mq.Common.{
  ℕ, ◌+◌, ◌<◌, ◌≡◌, refl, ◌∙◌, Bool-cases, trim, inl, inr, Bool, true, false, Option, none, some,
  List, [], ◌∷◌, ◌++◌, length, length-append, ltb, arith,
}
use cipher_mq.Clients.Sender.{EncryptedMessage}
use cipher_mq.Clients.Sender.Pipeline.{
  AckResult, acked, server_error, unrecognised, io_error, Pipeline, send_one, result_of, settle,
  put, read_result, breaks, Step, sends, hears, Reach, here, next,
}

-- How many of the results are acknowledgements.
unfoldable pub acks_in : List AckResult → ℕ
acks_in [] = 0
acks_in (acked id ∷ results) = acks_in results + 1
acks_in (server_error e ∷ results) = acks_in results
acks_in (unrecognised response ∷ results) = acks_in results
acks_in (io_error e ∷ results) = acks_in results

abbrev one : Option AckResult → List AckResult
one none = []
one (some result) = result ∷ []

-- The acknowledgements that were read and not drained yet.
abbrev pub acks_of : Pipeline → ℕ
acks_of s = acks_in s.results + acks_in (one s.held)

acks_in-append : (xs ys : List AckResult) → acks_in (xs ++ ys) ≡ acks_in xs + acks_in ys
unfolding acks_in
acks_in-append [] ys = omega arith
acks_in-append (acked id ∷ xs) ys = ground (arith, acks_in-append xs ys)
acks_in-append (server_error e ∷ xs) ys = acks_in-append xs ys
acks_in-append (unrecognised response ∷ xs) ys = acks_in-append xs ys
acks_in-append (io_error e ∷ xs) ys = acks_in-append xs ys

-- Permits, messages that hold one, failed writes and acknowledgements, compared with the start of the batch.
abbrev IsBalanced : Pipeline → Pipeline → Type 0
IsBalanced s₀ s =
    s.permits + s.sent_count + length s₀.failed_ids + acks_of s₀
    ≡ s₀.permits + s₀.sent_count + length s.failed_ids + acks_of s

send_one-IsBalanced :
    (s₀ : Pipeline) (written : Bool) (em : EncryptedMessage) (s : Pipeline)
    → 0 < s.permits
    → IsBalanced s₀ s
    → IsBalanced s₀ (send_one written em s)
unfolding send_one
send_one-IsBalanced s₀ true em s h v = ground (arith, v)
send_one-IsBalanced s₀ false em s h v =
    ground (arith, v, length-append s.failed_ids (em.message_id ∷ []))

acks_in-nil : acks_in [] ≡ 0
unfolding acks_in
acks_in-nil = refl

put-acks :
    (r : AckResult) (s : Pipeline)
    → s.held ≡ none
    → (acks_of (put r s) ≡ acks_of s + acks_in (r ∷ []))
      × ((put r s).permits ≡ s.permits)
      × ((put r s).sent_count ≡ s.sent_count)
      × ((put r s).failed_ids ≡ s.failed_ids)
unfolding put
put-acks r s h = elim (Bool-cases (ltb (length s.results) s.capacity)) [
  | inl room ↦ rw (room, h) (ground (arith, acks_in-append s.results (r ∷ [])), refl, refl, refl)
  | inr full ↦ rw (full, h) (omega (arith, acks_in-nil), refl, refl, refl)
]

-- Only an acknowledgement gives its permit back.
settle-permits_exactly :
    (r : AckResult) (s : Pipeline) → (settle r s).permits ≡ s.permits + acks_in (r ∷ [])
unfolding settle acks_in
settle-permits_exactly (acked id) s = refl
settle-permits_exactly (server_error e) s = omega arith
settle-permits_exactly (unrecognised e) s = omega arith
settle-permits_exactly (io_error e) s = omega arith

pub settle-keeps :
    (r : AckResult) (s : Pipeline)
    → ((settle r s).capacity ≡ s.capacity)
      × ((settle r s).results ≡ s.results)
      × ((settle r s).held ≡ s.held)
      × ((settle r s).sent_count ≡ s.sent_count)
      × ((settle r s).failed_ids ≡ s.failed_ids)
unfolding settle
settle-keeps (acked id) s = (refl, refl, refl, refl, refl)
settle-keeps (server_error e) s = (refl, refl, refl, refl, refl)
settle-keeps (unrecognised e) s = (refl, refl, refl, refl, refl)
settle-keeps (io_error e) s = (refl, refl, refl, refl, refl)

read_result-IsBalanced :
    (s₀ : Pipeline) (r : AckResult) (s : Pipeline)
    → s.held ≡ none
    → IsBalanced s₀ s
    → IsBalanced s₀ (read_result r s)
unfolding read_result
read_result-IsBalanced s₀ r s h v =
    let (_, q, d, n, f) = settle-keeps r s in
    let (acks, permits, sent_count, failed_ids) = put-acks r (settle r s) (d ∙ h) in
    let kept : acks_of (settle r s) ≡ acks_of s = rw (q, d) refl in
    rw (permits, sent_count, failed_ids, acks, kept, n, f, settle-permits_exactly r s)
      (omega (arith, v))

Step-IsBalanced : (s₀ : Pipeline) {s t : Pipeline} → Step s t → IsBalanced s₀ s → IsBalanced s₀ t
Step-IsBalanced s₀ {s} (sends written em h e) v = rw e (send_one-IsBalanced s₀ written em s h v)
Step-IsBalanced s₀ {s} (hears line h e) v =
    rw e (read_result-IsBalanced s₀ (result_of (trim line)) s h v)
Step-IsBalanced s₀ {s} (breaks error h e) v =
    rw e (read_result-IsBalanced s₀ (io_error error) s h v)

pub Reach-IsBalanced : (s₀ : Pipeline) {s : Pipeline} → Reach s₀ s → IsBalanced s₀ s
Reach-IsBalanced s₀ here = refl
Reach-IsBalanced s₀ (next r step) = Step-IsBalanced s₀ step (Reach-IsBalanced s₀ r)
