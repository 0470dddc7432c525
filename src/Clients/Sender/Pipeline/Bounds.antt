-- ===== src/Clients/Sender/Pipeline/Bounds.antt =====
-- How much of one batch can be sent before the loop that drains the channel comes around.
use cipher_mq.Common.{
  ℕ, ◌+◌, ◌≤◌, ◌<◌, ◌≡◌, refl, ◌∙◌, Bool-cases, trim, inl, inr, Bool, true, false, Option, none,
  some, [], ◌∷◌, length, length-append, ltb, arith,
}
use cipher_mq.Clients.Sender.{EncryptedMessage}
use cipher_mq.Clients.Sender.Pipeline.{
  AckResult, acked, server_error, unrecognised, io_error, Pipeline, send_one, result_of, settle,
  put, read_result, breaks, Step, sends, hears, Reach, here, next,
}
use cipher_mq.Clients.Sender.Pipeline.Balance.{acks_of, settle-keeps, Reach-IsBalanced}

abbrev waiting : Option AckResult → ℕ
waiting none = 0
waiting (some _) = 1

-- What a batch that starts in `s₀` keeps: a send takes a permit, a failed send and an acknowledgement make one,
-- and each acknowledgement has its result in the channel or in the hand of the reader.
record IsBounded (s₀ : Pipeline) (s : Pipeline) : Type 0 where
  capacity : s.capacity ≡ s₀.capacity
  most :
      s.permits + s.sent_count + length s₀.failed_ids + length s₀.results + waiting s₀.held
      ≤ s₀.permits + s₀.sent_count + length s.failed_ids + length s.results + waiting s.held
  results : length s.results ≤ s₀.capacity

start-IsBounded : (s₀ : Pipeline) → length s₀.results ≤ s₀.capacity → IsBounded s₀ s₀
start-IsBounded s₀ h = record { capacity = refl; most = omega arith; results = h }

settle-permits :
    (r : AckResult) (s : Pipeline)
    → ((settle r s).permits ≤ s.permits + 1) × (s.permits ≤ (settle r s).permits)
unfolding settle
settle-permits (acked id) s = (ground arith, ground arith)
settle-permits (server_error e) s = (ground arith, ground arith)
settle-permits (unrecognised e) s = (ground arith, ground arith)
settle-permits (io_error e) s = (ground arith, ground arith)

send_one-IsBounded :
    (s₀ : Pipeline) (written : Bool) (em : EncryptedMessage) (s : Pipeline)
    → 0 < s.permits
    → IsBounded s₀ s
    → IsBounded s₀ (send_one written em s)
unfolding send_one
send_one-IsBounded s₀ true em s h v = record {
  capacity = v.capacity;
  most = ground (arith, v.most);
  results = v.results;
}
send_one-IsBounded s₀ false em s h v = record {
  capacity = v.capacity;
  most = ground (arith, v.most, length-append s.failed_ids (em.message_id ∷ []));
  results = v.results;
}

-- A reader that holds nothing puts a result of its own into the channel or holds it.
put-IsBounded :
    (s₀ : Pipeline) (r : AckResult) (s : Pipeline)
    → s.capacity ≡ s₀.capacity
    → s.permits + s.sent_count + length s₀.failed_ids + length s₀.results + waiting s₀.held
      ≤ s₀.permits + s₀.sent_count + length s.failed_ids + length s.results + 1
    → length s.results ≤ s₀.capacity
    → s.held ≡ none
    → IsBounded s₀ (put r s)
unfolding put
put-IsBounded s₀ r s c p l h = elim (Bool-cases (ltb (length s.results) s.capacity)) [
  | inl room ↦ rw room (record {
    capacity = c;
    most = rw h (ground (arith, length-append s.results (r ∷ [])));
    results = ground (arith, length-append s.results (r ∷ []), c);
  })
  | inr full ↦ rw full (record { capacity = c; most = ground arith; results = l })
]

settled-most :
    (s₀ : Pipeline) (r : AckResult) (s : Pipeline)
    → s.held ≡ none
    → IsBounded s₀ s
    → (settle r s).permits
        + s.sent_count
        + length s₀.failed_ids
        + length s₀.results
        + waiting s₀.held
      ≤ s₀.permits + s₀.sent_count + length s.failed_ids + length s.results + 1
settled-most s₀ r s h v =
    let none_held : waiting s.held ≡ 0 = rw h refl in ground (arith, settle-permits r s, v.most)

read_result-IsBounded :
    (s₀ : Pipeline) (r : AckResult) (s : Pipeline)
    → s.held ≡ none
    → IsBounded s₀ s
    → IsBounded s₀ (read_result r s)
unfolding read_result
read_result-IsBounded s₀ r s h v =
    let (c, q, d, n, f) = settle-keeps r s in
    put-IsBounded s₀ r (settle r s) (c ∙ v.capacity) (rw (q, n, f) (settled-most s₀ r s h v))
      (rw q (v.results)) (d ∙ h)

Step-IsBounded : (s₀ : Pipeline) {s t : Pipeline} → Step s t → IsBounded s₀ s → IsBounded s₀ t
Step-IsBounded s₀ {s} (sends written em h e) v = rw e (send_one-IsBounded s₀ written em s h v)
Step-IsBounded s₀ {s} (hears line h e) v =
    rw e (read_result-IsBounded s₀ (result_of (trim line)) s h v)
Step-IsBounded s₀ {s} (breaks error h e) v = rw e (read_result-IsBounded s₀ (io_error error) s h v)

Reach-IsBounded :
    (s₀ : Pipeline) {s : Pipeline} → length s₀.results ≤ s₀.capacity → Reach s₀ s → IsBounded s₀ s
Reach-IsBounded s₀ h here = start-IsBounded s₀ h
Reach-IsBounded s₀ h (next r step) = Step-IsBounded s₀ step (Reach-IsBounded s₀ h r)

waiting-bound : (held : Option AckResult) → waiting held ≤ 1
waiting-bound none = ground arith
waiting-bound (some r) = ground arith

-- While the messages of a batch are sent, whatever the server answers and in whatever order the answers come, the
-- permits are exactly those that were free at first, less one for each message that was sent since, and one more
-- for each acknowledgement that was read since and for each message that could not be written since; an answer
-- that is no acknowledgement gives none back. The messages that were sent since are at most the permits that were
-- free, the capacity of the channel of results, one, and the messages that could not be written since. The
-- channel holds no more than its capacity at first.
pub sent_count-bound :
    (s₀ s : Pipeline)
    → length s₀.results ≤ s₀.capacity
    → Reach s₀ s
    → (s.permits + s.sent_count + length s₀.failed_ids + acks_of s₀
        ≡ s₀.permits + s₀.sent_count + length s.failed_ids + acks_of s)
      × (s.sent_count + length s₀.failed_ids
          ≤ s₀.sent_count + s₀.permits + s₀.capacity + 1 + length s.failed_ids)
sent_count-bound s₀ s h reached =
    let v = Reach-IsBounded s₀ h reached in
    (Reach-IsBalanced s₀ reached, ground (arith, v.most, v.results, waiting-bound s.held))
