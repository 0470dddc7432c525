-- ===== src/Clients/Receiver/Once.antt =====
-- The receiver takes each message once: the ids that `receive_loop` of clients/receiver_1/src/main.rs gives to
-- its two channels.
use cipher_mq.Common.{
  ◌≡◌, refl, sym, ap, subst, ◌∙◌, append-nil, append_assoc, true, Bool, if◌then◌else◌, inl, inr,
  String, false, Option, none, some, List, [], ◌∷◌, ◌++◌, map, contains, contains-append, Distinct,
  Result, ok, err, Bool-cases, eq_iff, arith,
}
use cipher_mq.Clients.Primitives.{Bytes, Primitives}
use cipher_mq.Clients.Receiver.{
  EncryptedEnvelope, Failure, reported, panics, decrypt_message, parse_line, Receiver, fresh, Round,
  continues, stops, crashes, Read, cleared, times_out, fails, ends, gives, writer_ended, acks_ended,
  after_send, accept, process_decrypted, process_envelope, handle_parsed, round, go_on,
  receive_loop,
}

abbrev pub id_of : String × String → String
id_of (id, payload) = id

-- The front of `xs`, which is the whole of it while the channel is open.
abbrev pub IsFront : Bool → List String → List String → Type 0
IsFront is_open ys xs =
    (missed : List String) × (ys ++ missed ≡ xs) × ((if is_open then missed else []) ≡ [])

-- The ids in the channels are the first of those that were processed, no id twice.
record IsOnce (r : Receiver) : Type 0 where
  messages : IsFront r.writer_open (map id_of r.messages) r.processed
  acks : IsFront r.acks_open r.acks r.processed
  distinct : Distinct r.processed

after_send-IsFront :
    (is_open : Bool) (ys xs : List String) (x : String)
    → IsFront is_open ys xs
    → IsFront is_open (after_send is_open ys (x ∷ [])) (xs ++ x ∷ [])
unfolding after_send
after_send-IsFront true ys xs x (missed, e, none_missed) = (
  [],
  append-nil (ys ++ x ∷ [])
      ∙ ap (λ zs. zs ++ x ∷ []) (sym (append-nil ys) ∙ ap (λ m. ys ++ m) (sym none_missed) ∙ e),
  refl,
)
after_send-IsFront false ys xs x (missed, e, none_missed) =
    (missed ++ x ∷ [], sym (append_assoc ys missed (x ∷ [])) ∙ ap (λ zs. zs ++ x ∷ []) e, refl)

closed-IsFront :
    (is_open : Bool) (ys xs : List String) → IsFront is_open ys xs → IsFront false ys xs
closed-IsFront is_open ys xs (missed, e, _) = (missed, e, refl)

map-append :
    (f : String × String → String) (xs ys : List (String × String))
    → map f (xs ++ ys) ≡ map f xs ++ map f ys
map-append f [] ys = refl
map-append f (x ∷ xs) ys = ap (λ zs. f x ∷ zs) (map-append f xs ys)

Distinct-snoc :
    (xs : List String) (x : String) → Distinct xs → contains x xs ≡ false → Distinct (xs ++ x ∷ [])
Distinct-snoc [] x d h = (refl, d)
Distinct-snoc (y ∷ xs) x (fresh_y, d) h = (
  rw (contains-append y xs (x ∷ [])) (ground (arith, eq_iff x y, eq_iff y x)),
  Distinct-snoc xs x d (ground arith),
)

map-after_send :
    (is_open : Bool) (xs : List (String × String)) (x : String × String)
    → map id_of (after_send is_open xs (x ∷ [])) ≡ after_send is_open (map id_of xs) (id_of x ∷ [])
unfolding after_send
map-after_send true xs x = map-append id_of xs (x ∷ [])
map-after_send false xs x = refl

module _ (p : Primitives) (from_str : String → Result String EncryptedEnvelope)
    (private_key : Bytes) where
  accept-IsOnce :
      (id plaintext : String) (r : Receiver)
      → contains id r.processed ≡ false
      → IsOnce r
      → IsOnce (accept p from_str private_key id plaintext r)
  unfolding accept
  accept-IsOnce id plaintext r new v = rw new (record {
    messages =
        subst (λ ys. IsFront r.writer_open ys (r.processed ++ id ∷ []))
          (sym (map-after_send r.writer_open r.messages (id, plaintext)))
          (after_send-IsFront r.writer_open (map id_of r.messages) r.processed id v.messages);
    acks = after_send-IsFront r.acks_open r.acks r.processed id v.acks;
    distinct = Distinct-snoc r.processed id v.distinct new;
  })

  process_decrypted-IsOnce :
      (id : String) (r : Receiver) (decrypted : Result Failure String)
      → contains id r.processed ≡ false
      → IsOnce r
      → IsOnce (process_decrypted p from_str private_key id r decrypted).1
  unfolding process_decrypted
  process_decrypted-IsOnce id r (ok plaintext) new v = accept-IsOnce id plaintext r new v
  process_decrypted-IsOnce id r (err panics) new v = v
  process_decrypted-IsOnce id r (err (reported e)) new v = v

  process_envelope-IsOnce :
      (id : String) (r : Receiver) (envelope : Result String EncryptedEnvelope)
      → contains id r.processed ≡ false
      → IsOnce r
      → IsOnce (process_envelope p from_str private_key id r envelope).1
  unfolding process_envelope
  process_envelope-IsOnce id r (ok envelope) new v =
      process_decrypted-IsOnce id r (decrypt_message p envelope private_key) new v
  process_envelope-IsOnce id r (err e) new v = v

  handle_parsed-IsOnce :
      (r : Receiver) (parsed : Option (String × String))
      → IsOnce r
      → IsOnce (handle_parsed p from_str private_key r parsed).1
  unfolding handle_parsed
  handle_parsed-IsOnce r none v = v
  handle_parsed-IsOnce r (some (id, payload)) v = elim (Bool-cases (contains id r.processed)) [
    | inl old ↦ rw old v
    | inr new ↦ rw new (process_envelope-IsOnce id r (from_str payload) new v)
  ]

  go_on-IsOnce :
      (end : Round) {r : Receiver} (rest : Round × Receiver)
      → IsOnce r
      → IsOnce rest.1
      → IsOnce (go_on end r rest).1
  go_on-IsOnce continues rest v w = w
  go_on-IsOnce stops rest v w = v
  go_on-IsOnce crashes rest v w = v

  round-IsOnce :
      (read : Read) (r : Receiver) → IsOnce r → IsOnce (round p from_str private_key read r).1
  unfolding round
  round-IsOnce (gives line) r v = handle_parsed-IsOnce r (parse_line line) v
  round-IsOnce cleared r v = v
  round-IsOnce times_out r v = v
  round-IsOnce fails r v = v
  round-IsOnce ends r v = v
  round-IsOnce writer_ended r v = record {
    messages = closed-IsFront _ _ _ v.messages;
    acks = v.acks;
    distinct = v.distinct;
  }
  round-IsOnce acks_ended r v = record {
    messages = v.messages;
    acks = closed-IsFront _ _ _ v.acks;
    distinct = v.distinct;
  }

  receive_loop-IsOnce :
      (reads : List Read) (r : Receiver)
      → IsOnce r
      → IsOnce (receive_loop p from_str private_key reads r).1
  unfolding receive_loop
  receive_loop-IsOnce [] r v = v
  receive_loop-IsOnce (read ∷ reads) r v =
      let w = round-IsOnce read r v in
      go_on-IsOnce (round p from_str private_key read r).0 _ w
        (receive_loop-IsOnce reads (round p from_str private_key read r).1 w)

  -- Whatever the receiver reads and whenever the tasks behind its channels end, no id is processed twice; the
  -- ids of the messages that are put into the channel of the writer are the first of the processed ids, in
  -- their order, and all of them if that channel is still open in the end, and the same holds of the
  -- acknowledgements and their channel.
  pub receive_loop-once :
      (reads : List Read)
      → let r = (receive_loop p from_str private_key reads fresh).1 in
        Distinct r.processed
        × IsFront r.writer_open (map id_of r.messages) r.processed
        × IsFront r.acks_open r.acks r.processed
  receive_loop-once reads =
      let nothing : IsFront true [] [] = ([], refl, refl) in
      let v =
        receive_loop-IsOnce reads fresh
          (record { messages = nothing; acks = nothing; distinct = tt }) in
      (v.distinct, v.messages, v.acks)
