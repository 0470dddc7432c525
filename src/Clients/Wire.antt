-- ===== src/Clients/Wire.antt =====
-- The lines that the clients and the server write for each other: what clients/sender_1/src/main.rs publishes
-- is read by server/src/server.rs, and what that delivers is read by clients/receiver_1/src/main.rs.
use Prim.Native.String
use text.Mathlib.TextLemmas
use cipher_mq.Common.{
  ◌≡◌, refl, ap, ◌∙◌, sym, inl, inr, String, Bool, true, false, some, List, [], ◌∷◌, ◌==◌,
  if◌then◌else◌, format, trim, is_blank, splitn, is_word, starts_solid, ends_solid,
  starts_solid-append, ends_solid-append, trim-append, trim-solid, trim-space, splitn-word,
  strip_prefix, strip_prefix-append, contains, length, ◌++◌, Result, ok, arith,
}
use cipher_mq.Storage.{StorageApi}
use cipher_mq.RateLimiter.{Float, check, is_allowed}
use cipher_mq.Acl.{allowed, check_command}
use cipher_mq.Server.{Json, Server, Session, Clock}
use cipher_mq.Server.Requests.{handle_publish}
use cipher_mq.Server.Dispatch.{
  part, no_task, heard, dispatch, limit_request, authorise, process_request,
}
use cipher_mq.Server.Lifecycle.{message_line}
use cipher_mq.Clients.Primitives.{Bytes, Primitives, Laws}
use cipher_mq.Clients.Sender.{Random, PlainMessage, EncryptedMessage, encrypt_message}
use cipher_mq.Clients.Sender.Pipeline.{publish_command}
use cipher_mq.Clients.Receiver.{
  EncryptedEnvelope, Receiver, continues, gives, id_and_payload, parse_body, parse_line, accept,
  after_send_lem, process_decrypted, process_envelope, handle_parsed, round,
}
use cipher_mq.Clients.RoundTrip.{envelope_of, decrypt_message-encrypt_message}

solid-starts :
    (w s : String) → (w == "") ≡ false → is_word w ≡ true → starts_solid (String.◌++◌ w s) ≡ true
unfolding is_word
solid-starts String.[] s n h = ground arith
solid-starts (String.◌∷◌ c w) s n h = starts_solid-append (String.◌∷◌ c w) s (ground arith)

-- A word, a space and a text; the end of a line behind them.
abbrev pub words : String → String → String
words b c = String.◌++◌ b (String.◌++◌ " " c)

-- The end of a line behind two words.
pub words-end : (b c : String) → words b (String.◌++◌ c "\n") ≡ String.◌++◌ (words b c) "\n"
words-end b c =
    ap (λ t. String.◌++◌ b t) (sym (TextLemmas.append_assoc " " c "\n"))
    ∙ sym (TextLemmas.append_assoc b (String.◌++◌ " " c) "\n")

pub ends_solid-words : (b c : String) → ends_solid c ≡ true → ends_solid (words b c) ≡ true
ends_solid-words b c e = ends_solid-append b _ (ends_solid-append " " c e)

end_is_blank : is_blank "\n" ≡ true
unfolding is_blank
end_is_blank = refl

-- The end of a line is trimmed.
pub trim-end :
    (a t : String)
    → starts_solid a ≡ true
    → ends_solid t ≡ true
    → trim (String.◌++◌ a (String.◌++◌ t "\n")) ≡ String.◌++◌ a t
trim-end a t s e =
    ap trim (sym (TextLemmas.append_assoc a t "\n"))
    ∙ trim-append (String.◌++◌ a t) "\n" (starts_solid-append a t s) (ends_solid-append a t e)
        end_is_blank

-- The body of a line of the server.
message_body :
    (id payload : String)
    → ends_solid payload ≡ true
    → strip_prefix "Message:" (trim (message_line id payload))
      ≡ some (String.◌++◌ " " (words id payload))
unfolding cipher_mq.Common.is_whitespace
message_body id payload e =
    ap (λ t. strip_prefix "Message:" (trim (String.◌++◌ "Message: " t))) (words-end id payload)
    ∙ ap (strip_prefix "Message:")
        (trim-end "Message: " (words id payload) refl (ends_solid-words id payload e))
    ∙ ap (strip_prefix "Message:") (TextLemmas.append_assoc "Message:" " " (words id payload))
    ∙ strip_prefix-append "Message:" (String.◌++◌ " " (words id payload))

pub splitn_two : (w s : String) → is_word w ≡ true → splitn 2 (words w s) ≡ w ∷ s ∷ []
unfolding splitn
splitn_two w s h = splitn-word 0 w s h

-- The id and the payload of a line that the server writes for a message are those that the receiver finds
-- in it, where the id is one word and the payload neither starts nor ends with white space.
pub parse_line-message_line :
    (id payload : String)
    → (id == "") ≡ false
    → is_word id ≡ true
    → starts_solid payload ≡ true
    → ends_solid payload ≡ true
    → parse_line (message_line id payload) ≡ some (id, payload)
unfolding parse_line
parse_line-message_line id payload n w s e =
    ap parse_body (message_body id payload e)
    ∙ ap (λ t. id_and_payload (splitn 2 t))
        (trim-space (words id payload)
          ∙ trim-solid (words id payload) (solid-starts id _ n w) (ends_solid-words id payload e))
    ∙ ap id_and_payload (splitn_two id payload w)
    ∙ rw n refl

module _ {S F : Type 0} (api : StorageApi S) (json : Json) (float : Float F) where
  request_parts :
      (exchange key payload : String)
      → ends_solid payload ≡ true
      → splitn 2 (trim (publish_command exchange key payload))
        ≡ "publish" ∷ words exchange (words key payload) ∷ []
  unfolding cipher_mq.Common.is_whitespace is_word
  request_parts exchange key payload e =
      ap (λ t. splitn 2 (trim (String.◌++◌ "publish " (String.◌++◌ exchange (String.◌++◌ " " t)))))
        (words-end key payload)
      ∙ ap (λ t. splitn 2 (trim (String.◌++◌ "publish " t)))
          (words-end exchange (words key payload))
      ∙ ap (splitn 2) (
          trim-end "publish " (words exchange (words key payload)) refl
            (ends_solid-words exchange _ (ends_solid-words key payload e)))
      ∙ ap (splitn 2) (TextLemmas.append_assoc "publish" " " (words exchange (words key payload)))
      ∙ splitn_two "publish" (words exchange (words key payload)) refl

  splitn_three :
      (exchange key payload : String)
      → is_word exchange ≡ true
      → is_word key ≡ true
      → splitn 3 (words exchange (words key payload)) ≡ exchange ∷ key ∷ payload ∷ []
  splitn_three exchange key payload w v =
      splitn-word 1 exchange (words key payload) w
      ∙ ap (λ parts. exchange ∷ parts) (splitn_two key payload v)

  limited_publish :
      (sess : Session) (clock : Clock) (exchange key payload : String) (srv : Server S F)
      → is_word exchange ≡ true
      → is_word key ≡ true
      → is_allowed (check float sess.client_id true clock.now srv.rate_limiter).0 ≡ true
      → limit_request api json float sess clock "publish" (words exchange (words key payload)) srv
        ≡ no_task (
            handle_publish api json sess clock (exchange ∷ key ∷ payload ∷ []) (record srv {
              rate_limiter = (check float sess.client_id true clock.now srv.rate_limiter).1;
            }))
  unfolding limit_request dispatch
  limited_publish sess clock exchange key payload srv w v within = rw within (
      ap
        (λ parts. no_task (
          handle_publish api json sess clock parts (record srv {
            rate_limiter = (check float sess.client_id true clock.now srv.rate_limiter).1;
          })))
        (splitn_three exchange key payload w v))

  -- A command that the sender writes reaches the handler of publications with the exchange, the key and the
  -- payload that it was made of, where the first two are words, the payload does not end with white
  -- space, and neither the access control nor the rate limiter stops it.
  pub process_request-publish_command :
      (sess : Session) (clock : Clock) (exchange key payload : String) (srv : Server S F)
      → is_word exchange ≡ true
      → is_word key ≡ true
      → ends_solid payload ≡ true
      → check_command sess.role "publish" ≡ allowed
      → is_allowed (check float sess.client_id true clock.now srv.rate_limiter).0 ≡ true
      → let limiter = (check float sess.client_id true clock.now srv.rate_limiter).1 in
        process_request api json float sess clock (publish_command exchange key payload) srv
        ≡ no_task (
            handle_publish api json sess clock
              (exchange ∷ key ∷ payload ∷ [])
              (record (heard sess clock srv) { rate_limiter = limiter }))
  unfolding process_request authorise
  process_request-publish_command sess clock exchange key payload srv w v e permitted within =
      ap
        (λ parts.
          authorise api json float sess clock (part 0 parts) (part 1 parts) (heard sess clock srv))
        (request_parts exchange key payload e)
      ∙ rw (authorise, permitted)
          (limited_publish sess clock exchange key payload (heard sess clock srv) w v within)

module _ (p : Primitives) (laws : Laws p)
    (from_str : String → Result String EncryptedEnvelope) where
  -- A message that was encrypted for a receiver, and that the server writes to it under an id that it has
  -- not processed, is decrypted, counted as processed, and given with the text that was encrypted to the
  -- writer and with its id to the task of the acknowledgements, as far as these tasks still run. The id is one word, the payload neither
  -- starts nor ends with white space and is read as the encrypted message, and the session key and the
  -- nonce that were drawn have 32 and 12 bytes.
  pub round-message_line :
      (random : Random) (utc_now : String) (msg : PlainMessage)
      (public_key_b64 receiver routing_key : String) (private_key : Bytes) (em : EncryptedMessage)
      (id payload : String) (r : Receiver)
      → p.decode (trim public_key_b64) ≡ ok (p.public_of private_key)
      → length random.session_key ≡ 32
      → length random.nonce_bytes ≡ 12
      → encrypt_message p random utc_now msg public_key_b64 receiver routing_key ≡ ok em
      → (id == "") ≡ false
      → is_word id ≡ true
      → starts_solid payload ≡ true
      → ends_solid payload ≡ true
      → from_str payload ≡ ok (envelope_of em)
      → contains id r.processed ≡ false
      → round p from_str private_key (gives (message_line id payload)) r ≡ (
        continues,
        record r {
          processed = r.processed ++ id ∷ [];
          messages = if r.writer_open then r.messages ++ (id, msg.content) ∷ [] else r.messages;
          acks = if r.acks_open then r.acks ++ id ∷ [] else r.acks;
        },
      )
  unfolding round handle_parsed process_envelope process_decrypted accept
  round-message_line random utc_now msg public_key_b64 receiver routing_key private_key em id
        payload r decoded k n encrypted some_id word s e read new =
      ap (handle_parsed p from_str private_key r)
        (parse_line-message_line id payload some_id word s e)
      ∙ rw
          (
            new,
            read,
            decrypt_message-encrypt_message p laws random utc_now msg public_key_b64 receiver
                routing_key private_key em decoded k n encrypted,
            new,
          )
          (rw
            (
              after_send_lem r.writer_open r.messages ((id, msg.content) ∷ []),
              after_send_lem r.acks_open r.acks (id ∷ []),
            )
            refl)
