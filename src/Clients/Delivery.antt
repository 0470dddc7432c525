-- ===== src/Clients/Delivery.antt =====
-- From a channel of the server to the channels of the receiver: the rounds of server/src/server.rs write the lines
-- that `receive_loop` of clients/receiver_1/src/main.rs reads.
use cipher_mq.Common.{
  ◌≡◌, ◌∙◌, refl, ap, String, true, false, some, List, [], ◌∷◌, ◌++◌, ◌==◌, map, length, All,
  Distinct, contains, contains-append, eq_comm, append_assoc, append-nil, if◌then◌else◌, Bool,
  false, get_elem?, is_word, starts_solid, ends_solid, Result, ok, arith,
}
use cipher_mq.Storage.{StorageApi}
use cipher_mq.State.{Entry, Channel}
use cipher_mq.RateLimiter.{Float}
use cipher_mq.Server.{Json, Server, Session}
use cipher_mq.Server.Lifecycle.{message_line, rounds}
use cipher_mq.Server.Lifecycle.Drain.{
  Deliveries, delivering, IsPrompt, lines_of, due, rounds-delivering,
}
use cipher_mq.Clients.Primitives.{Bytes, Primitives}
use cipher_mq.Clients.Receiver.{
  EncryptedEnvelope, continues, Receiver, gives, decrypt_message, handle_parsed, process_envelope,
  process_decrypted, accept, after_send_lem, round, receive_loop,
}
use cipher_mq.Clients.Wire.{parse_line-message_line}

-- A message that waits for a receiver, and the text in it.
pub record Letter : Type 0 where
  pub entry : Entry
  pub envelope : EncryptedEnvelope
  pub text : String

abbrev pub id_of : Letter → String
id_of l = l.entry.0

abbrev pub ids : List Letter → List String
ids ls = map id_of ls

abbrev pub IsUnseen : List String → Letter → Type 0
IsUnseen seen l = contains (id_of l) seen ≡ false

All-IsUnseen :
    (seen : List String) (id : String) (ls : List Letter)
    → All (IsUnseen seen) ls
    → contains id (ids ls) ≡ false
    → All (IsUnseen (seen ++ id ∷ [])) ls
All-IsUnseen seen id [] h n = tt
All-IsUnseen seen id (l ∷ ls) h n = (
  ground (arith, contains-append (id_of l) seen (id ∷ []), eq_comm id (id_of l), h.0),
  All-IsUnseen seen id ls h.1 (ground (arith)),
)

more-nil : {A : Type 0} (is_open : Bool) (xs : List A) → (if is_open then xs ++ [] else xs) ≡ xs
more-nil true xs = append-nil xs
more-nil false xs = refl

more-more :
    {A : Type 0} (is_open : Bool) (xs ys zs : List A)
    → (if is_open
        then (if is_open then xs ++ ys else xs) ++ zs
        else (if is_open then xs ++ ys else xs))
      ≡ (if is_open then xs ++ (ys ++ zs) else xs)
more-more true xs ys zs = append_assoc xs ys zs
more-more false xs ys zs = refl

module _ (json : Json) (p : Primitives) (from_str : String → Result String EncryptedEnvelope)
    (private_key : Bytes) where
  -- The id of the message is a word, its JSON neither starts nor ends with white space and is read as the
  -- envelope, and the private key opens the envelope and gives the text.
  pub record IsReadable (l : Letter) : Type 0 where
    pub some_id : (id_of l == "") ≡ false
    pub word : is_word (id_of l) ≡ true
    pub starts : starts_solid (json.show_message l.entry.1) ≡ true
    pub ends : ends_solid (json.show_message l.entry.1) ≡ true
    pub read : from_str (json.show_message l.entry.1) ≡ ok l.envelope
    pub opened : decrypt_message p l.envelope private_key ≡ ok l.text

  -- A receiver that has processed these as well; a channel whose task is over holds what it held.
  abbrev pub with_letters : List Letter → Receiver → Receiver
  with_letters ls r = record r {
    processed = r.processed ++ ids ls;
    messages = if r.writer_open then r.messages ++ map (λ l. (id_of l, l.text)) ls else r.messages;
    acks = if r.acks_open then r.acks ++ ids ls else r.acks;
  }

  round-IsReadable :
      (l : Letter) (r : Receiver)
      → IsReadable l
      → contains (id_of l) r.processed ≡ false
      → round p from_str private_key
          (gives (message_line (id_of l) (json.show_message l.entry.1)))
          r
        ≡ (continues, with_letters (l ∷ []) r)
  unfolding round handle_parsed process_envelope process_decrypted accept
  round-IsReadable l r h new =
      ap (handle_parsed p from_str private_key r) (
        parse_line-message_line (id_of l) (json.show_message l.entry.1) h.some_id h.word h.starts
          h.ends)
      ∙ rw (new, h.read, h.opened, new)
          (rw
            (
              after_send_lem r.writer_open r.messages ((id_of l, l.text) ∷ []),
              after_send_lem r.acks_open r.acks (id_of l ∷ []),
            )
            refl)

  receive_loop-lines :
      (ls : List Letter) (r : Receiver)
      → All IsReadable ls
      → Distinct (ids ls)
      → All (IsUnseen r.processed) ls
      → receive_loop p from_str private_key (map gives (lines_of json (map (λ l. l.entry) ls))) r
        ≡ (continues, with_letters ls r)
  unfolding receive_loop
  receive_loop-lines [] r h d new = ground (
    arith,
    append-nil r.processed,
    more-nil r.writer_open r.messages,
    more-nil r.acks_open r.acks,
  )
  receive_loop-lines (l ∷ ls) r h d new = rw (round-IsReadable l r h.0 new.0) (
      receive_loop-lines ls (with_letters (l ∷ []) r) h.1 d.1
        (All-IsUnseen r.processed (id_of l) ls new.1 d.0)
      ∙ ap (λ k. (continues, k))
          (rw
            (
              append_assoc r.processed (id_of l ∷ []) (ids ls),
              more-more r.writer_open r.messages ((id_of l, l.text) ∷ [])
                  (map (λ x. (id_of x, x.text)) ls),
              more-more r.acks_open r.acks (id_of l ∷ []) (ids ls),
            )
            refl))

  module _ {S F : Type 0} (api : StorageApi S) (float : Float F) where
    -- What waits in a channel reaches the receiver: as many deliveries as there are messages in it, each of
    -- which succeeds at its first attempt, make the receiver that reads the lines hand the texts to its writer,
    -- and the ids to its task of the acknowledgements, as far as these tasks still run, once each and in the
    -- order of the channel. The
    -- messages that are known and not acknowledged have ids of their own, are read as envelopes that the
    -- receiver's key opens, and were not processed before.
    pub receive_loop-rounds :
        (sess : Session) (c : Channel) (ds : Deliveries) (srv : Server S F) (ls : List Letter)
        (r : Receiver)
        → get_elem? srv.state.channels sess.channel ≡ some c
        → length ds ≡ length c.waiting
        → All IsPrompt ds
        → due api json float srv c.waiting ≡ map (λ l. l.entry) ls
        → All IsReadable ls
        → Distinct (ids ls)
        → All (IsUnseen r.processed) ls
        → receive_loop p from_str private_key
            (map gives (rounds api json float sess (map delivering ds) srv).output)
            r
          ≡ (continues, with_letters ls r)
    receive_loop-rounds sess c ds srv ls r found n prompt waits h d new =
        ap (λ lines. receive_loop p from_str private_key (map gives lines) r)
          ((rounds-delivering api json float sess c ds srv found n prompt).1
            ∙ ap (lines_of json) waits)
        ∙ receive_loop-lines ls r h d new
