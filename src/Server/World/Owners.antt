-- ===== src/Server/World/Owners.antt =====
-- Whose the channels of the consumers are, and which of them are open: the calls of server/src/state.rs and
-- server/src/server.rs on the channels.
pub mod Rounds
use cipher_mq.Common.{
  ℕ, zero, suc, ◌+◌, ◌≤◌, ◌≡◌, ◌∙◌, refl, ap, inl, inr, String, Bool, true, false, Option, some,
  List, [], ◌∷◌, ◌++◌, map, eqb, if◌then◌else◌, length, count, get, get_elem?, set, arith,
  Option-cases, Bool-cases,
}
use cipher_mq.Storage.{StorageApi}
use cipher_mq.State.{
  EncryptedInputData, Entry, Channel, ServerState, send, close, is_closed, declare_queue,
  declare_exchange, bind_queue, decrement_client_count,
}
use cipher_mq.State.Publish.{
  offer, offer_all, evict, make_room, enqueue, enqueue_all, track, notify, notify_all, distribute,
  target_queues, route, publish,
}
use cipher_mq.State.Publish.Queues.{drop_oldest}
use cipher_mq.State.Publish.Outcome.{publish_cases, saved_storage}
use cipher_mq.State.Deliver.{deliver_pending, register_consumer, acknowledge}
use cipher_mq.RateLimiter.{Float}
use cipher_mq.Acl.{Role}
use cipher_mq.Server.{Json, Server, Session, Clock}
use cipher_mq.Server.Effects.{Kept}
use cipher_mq.Server.Safety.{process_request-keeps}
use cipher_mq.Server.Dispatch.{process_request}
use cipher_mq.Server.Lifecycle.{
  message_line, Attempt, Event, reads, read_ends, read_fails, read_times_out, receives, Sending,
  send_retrying, max_retries, recv, disconnect, count_out, spawn, leave, mark_delivered, conclude,
  deliver, answer, step,
}

abbrev pub flags : List Channel → List Bool
flags chs = map (λ c. c.is_open) chs

-- 1 where a channel is there and open.
abbrev pub opened : List Bool → ℕ → ℕ
opened [] i = 0
opened (b ∷ bs) zero = if b then 1 else 0
opened (b ∷ bs) (suc i) = opened bs i

-- How many connections receive from a channel.
abbrev pub owners : ℕ → List Session → ℕ
owners i live = count (λ s. eqb s.channel i) live

pub opened-le-one : (bs : List Bool) (i : ℕ) → opened bs i ≤ 1
opened-le-one [] i = omega arith
opened-le-one (true ∷ bs) zero = omega arith
opened-le-one (false ∷ bs) zero = omega arith
opened-le-one (b ∷ bs) (suc i) = opened-le-one bs i

flags-set :
    (chs : List Channel) (i : ℕ) (c d : Channel)
    → get_elem? chs i ≡ some c
    → d.is_open ≡ c.is_open
    → flags (set chs i d) ≡ flags chs
flags-set [] i c d h same = refl
flags-set (x ∷ chs) zero c d h same = ground arith
flags-set (x ∷ chs) (suc i) c d h same = ground (arith, flags-set chs i c d)

opened-set :
    (chs : List Channel) (i j : ℕ) (c d : Channel)
    → get_elem? chs i ≡ some c
    → d.is_open ≡ false
    → opened (flags (set chs i d)) j ≡ (if eqb i j then 0 else opened (flags chs) j)
opened-set [] i j c d h shut = cc
opened-set (x ∷ chs) zero zero c d h shut = ground arith
opened-set (x ∷ chs) zero (suc j) c d h shut = ground arith
opened-set (x ∷ chs) (suc i) zero c d h shut = ground arith
opened-set (x ∷ chs) (suc i) (suc j) c d h shut = ground (arith, opened-set chs i j c d)

opened-out : (chs : List Channel) (i : ℕ) → get_elem? chs i ≡ Option.none → opened (flags chs) i ≡ 0
opened-out [] i h = refl
opened-out (x ∷ chs) zero h = cc
opened-out (x ∷ chs) (suc i) h = opened-out chs i h

-- A channel that is closed is not open, and no other changes.
pub opened-close :
    (i j : ℕ) (chs : List Channel)
    → opened (flags (close i chs)) j ≡ (if eqb i j then 0 else opened (flags chs) j)
unfolding close
opened-close i j chs = elim (Option-cases (get_elem? chs i)) [
  | inl out ↦ ground (arith, opened-out chs i)
  | inr (c, found) ↦ ground (arith, opened-set chs i j c (record c { is_open = false }) found)
]

-- A new channel is open.
pub opened-append :
    (chs : List Channel) (c : Channel) (i : ℕ)
    → c.is_open ≡ true
    → opened (flags (chs ++ c ∷ [])) i
      ≡ opened (flags chs) i + (if eqb (length chs) i then 1 else 0)
opened-append [] c zero o = ground arith
opened-append [] c (suc i) o = ground arith
opened-append (x ∷ chs) c zero o = ground arith
opened-append (x ∷ chs) c (suc i) o = ground (arith, opened-append chs c i)

flags-send :
    (sender : ℕ) (e : Entry) (chs chs' : List Channel)
    → send sender e chs ≡ some chs'
    → flags chs' ≡ flags chs
unfolding send
flags-send sender e chs chs' sent = elim (Option-cases (get_elem? chs sender)) [
  | inl out ↦ ground arith
  | inr (c, found) ↦
      ground (arith, flags-set chs sender c (record c { waiting = c.waiting ++ e ∷ [] }) found)
]

flags-offer :
    (e : Entry) (sender : ℕ) (chs : List Channel) → flags (offer e sender chs).1 ≡ flags chs
unfolding offer
flags-offer e sender chs = elim (Option-cases (send sender e chs)) [
  | inl failed ↦ ground arith
  | inr (chs', sent) ↦ ground (arith, flags-send sender e chs chs' sent)
]

pub flags-offer_all :
    (e : Entry) (senders : List ℕ) (chs : List Channel)
    → flags (offer_all e senders chs).1 ≡ flags chs
unfolding offer_all
flags-offer_all e [] chs = refl
flags-offer_all e (sender ∷ senders) chs =
    flags-offer_all e senders (offer e sender chs).1 ∙ flags-offer e sender chs

pub flags-deliver_pending :
    (sender : ℕ) (es : List Entry) (chs : List Channel)
    → flags (deliver_pending sender es chs) ≡ flags chs
unfolding deliver_pending
flags-deliver_pending sender [] chs = refl
flags-deliver_pending sender (e ∷ es) chs = elim (Option-cases (send sender e chs)) [
  | inl failed ↦ rw (failed, deliver_pending) refl
  | inr (chs', sent) ↦
      rw (sent, deliver_pending)
        (flags-deliver_pending sender es chs' ∙ flags-send sender e chs chs' sent)
]

pub flags-recv :
    (sender : ℕ) (chs : List Channel) (e : Entry) (chs' : List Channel)
    → recv sender chs ≡ some (e, chs')
    → flags chs' ≡ flags chs
unfolding recv
flags-recv sender chs e chs' received = elim (Option-cases (get_elem? chs sender)) [
  | inl out ↦ ground arith
  | inr (c, found) ↦
      ground (arith, flags-set chs sender c (record c { waiting = drop_oldest c.waiting }) found)
]
