-- ===== src/Clients/KeyExchange.antt =====
-- The way of a receiver's key: create_ca_key/Rust_Key_Maker_X25519 writes it to files, clients/receiver_1/src/main.rs
-- registers it with server/src/server.rs, which keeps it encrypted (server/src/storage.rs), and
-- clients/sender_1/src/main.rs asks the server for it.
use Prim.Native.String
use text.Mathlib.TextLemmas
use cipher_mq.Common.{
  ℕ, ◌+◌, ◌≡◌, ◌∙◌, refl, ap, sym, String, Bool, true, false, Option, none, some, List, [], ◌∷◌,
  ◌==◌, length, get, eq_refl, is_word, starts_solid, starts_solid-append, ends_solid, trim,
  trim-solid, splitn, strip_prefix, strip_prefix-append, format, Result, ok, err, arith,
}
use cipher_mq.State.{ServerState}
use cipher_mq.State
use cipher_mq.Storage.{StorageApi}
use cipher_mq.Storage.Keys.{Crypto, CryptoLaws, get_public_key-save_public_key}
use cipher_mq.Storage.Keys
use cipher_mq.Storage.Service.{Storage, service}
use cipher_mq.RateLimiter.{Float, check, is_allowed}
use cipher_mq.Acl.{allowed, check_command}
use cipher_mq.Server.{Json, Server, Session, Clock}
use cipher_mq.Server.Requests.{handle_register_public_key, handle_get_public_key}
use cipher_mq.Server.Dispatch.{
  part, no_task, heard, dispatch, limit_request, authorise, process_request,
}
use cipher_mq.Clients.Primitives.{Bytes, Primitives}
use cipher_mq.Clients.Wire.{trim-end, splitn_two}
use cipher_mq.Clients.Sender.Keys.{Connection, get_public_key}

-- What is known of `base64` beside its laws: a text of it has no white space, and that of some bytes is not
-- empty.
pub record Base64 (encode : Bytes → String) : Type 0 where
  pub word : (bytes : Bytes) → is_word (encode bytes) ≡ true
  pub some_text : (b : ℕ) (bytes : Bytes) → (encode (b ∷ bytes) == "") ≡ false

ends_solid-cons_word :
    (c : _) (s : String) → is_word (String.◌∷◌ c s) ≡ true → ends_solid (String.◌∷◌ c s) ≡ true
unfolding is_word ends_solid
ends_solid-cons_word c String.[] h = ground arith
ends_solid-cons_word c (String.◌∷◌ d s) h = ends_solid-cons_word d s (ground arith)

pub ends_solid-word : (w : String) → (w == "") ≡ false → is_word w ≡ true → ends_solid w ≡ true
ends_solid-word String.[] n h = ground arith
ends_solid-word (String.◌∷◌ c s) n h = ends_solid-cons_word c s h

pub starts_solid-word : (w : String) → (w == "") ≡ false → is_word w ≡ true → starts_solid w ≡ true
unfolding is_word
starts_solid-word String.[] n h = ground arith
starts_solid-word (String.◌∷◌ c s) n h = ground arith

-- A command and its argument.
request_word :
    (command arg : String)
    → is_word command ≡ true
    → starts_solid command ≡ true
    → ends_solid arg ≡ true
    → splitn 2 (trim (String.◌++◌ (String.◌++◌ command " ") (String.◌++◌ arg "\n")))
      ≡ command ∷ arg ∷ []
request_word command arg w s e =
    ap (splitn 2) (trim-end (String.◌++◌ command " ") arg (starts_solid-append command " " s) e)
    ∙ ap (splitn 2) (TextLemmas.append_assoc command " " arg)
    ∙ splitn_two command arg w

abbrev pub register_command : String → String
register_command key = format ("register_public_key " ∷ key ∷ "\n" ∷ [])

abbrev pub get_command : String → String
get_command client_id = format ("get_public_key " ∷ client_id ∷ "\n" ∷ [])

module _ {S F : Type 0} (api : StorageApi S) (json : Json) (float : Float F) where
  -- The server behind the two checks.
  abbrev checked : Session → Clock → Server S F → Server S F
  checked sess clock srv = record (heard sess clock srv) {
    rate_limiter = (check float sess.client_id false clock.now srv.rate_limiter).1;
  }

  process_request-register :
      (sess : Session) (clock : Clock) (key : String) (srv : Server S F)
      → ends_solid key ≡ true
      → check_command sess.role "register_public_key" ≡ allowed
      → is_allowed (check float sess.client_id false clock.now srv.rate_limiter).0 ≡ true
      → process_request api json float sess clock (register_command key) srv
        ≡ no_task (handle_register_public_key api sess key (checked sess clock srv))
  unfolding process_request authorise limit_request dispatch is_word cipher_mq.Common.is_whitespace
  process_request-register sess clock key srv e permitted within =
      ap
        (λ parts.
          authorise api json float sess clock (part 0 parts) (part 1 parts) (heard sess clock srv))
        (request_word "register_public_key" key refl refl e)
      ∙ rw (authorise, permitted, within) refl

  process_request-get :
      (sess : Session) (clock : Clock) (client_id : String) (srv : Server S F)
      → ends_solid client_id ≡ true
      → check_command sess.role "get_public_key" ≡ allowed
      → is_allowed (check float sess.client_id false clock.now srv.rate_limiter).0 ≡ true
      → process_request api json float sess clock (get_command client_id) srv
        ≡ no_task (handle_get_public_key api client_id (checked sess clock srv))
  unfolding process_request authorise limit_request dispatch is_word cipher_mq.Common.is_whitespace
  process_request-get sess clock client_id srv e permitted within =
      ap
        (λ parts.
          authorise api json float sess clock (part 0 parts) (part 1 parts) (heard sess clock srv))
        (request_word "get_public_key" client_id refl refl e)
      ∙ rw (authorise, permitted, within) refl

  -- A client's connection to the server as it is.
  abbrev pub talk : Session → Clock → Server S F → Connection
  talk sess clock srv cmd = ok (process_request api json float sess clock cmd srv).1.text

module _ (p : Primitives) (crypto : Crypto) (claws : CryptoLaws crypto) (json : Json) {F : Type 0}
    (float : Float F) where
  -- The server's own encoding is the same one.
  abbrev SameEncoding : Type 0
  SameEncoding = (bytes : Bytes) → crypto.encode bytes ≡ p.encode bytes

  -- A key that can be decoded is taken, where the database does its part.
  handle_register-key :
      (sess : Session) (bytes sealed : Bytes) (srv : Server Storage F)
      → crypto.decode (p.encode bytes) ≡ ok bytes
      → (p.encode bytes == "") ≡ false
      → srv.state.storage.outcomes srv.state.storage.tick ≡ none
      → crypto.encrypt (srv.state.storage.nonces srv.state.storage.tick) bytes ≡ ok sealed
      → let s = srv.state.storage in
        let r = handle_register_public_key (service crypto) sess (p.encode bytes) srv in
        (r.1 ≡ "Public key registered\n")
        × (r.0.state.storage ≡ record s {
          worker =
              (Keys.save_public_key crypto none
                (s.nonces s.tick)
                (record { client_id = sess.client_id; public_key = p.encode bytes })
                s.worker).1;
          tick = s.tick + 1;
        })
  unfolding handle_register_public_key State.save_public_key service Keys.save_public_key Keys.seal
  handle_register-key sess bytes sealed srv decoded some_key works encrypted =
      rw (some_key, works, decoded, encrypted, works) (refl, refl)

  handle_get-key :
      (client_id key : String) (srv : Server Storage F)
      → (client_id == "") ≡ false
      → srv.state.storage.outcomes srv.state.storage.tick ≡ none
      → Keys.get_public_key crypto none client_id srv.state.storage.worker ≡ ok (some key)
      → (handle_get_public_key (service crypto) client_id srv).1
        ≡ format ("Public key: " ∷ key ∷ "\n" ∷ [])
  unfolding handle_get_public_key State.get_public_key service
  handle_get-key client_id key srv some_id works kept = rw (some_id, works, kept) refl

  -- The answer to a registration, and what is kept then.
  pub served_register :
      (sess : Session) (clock : Clock) (bytes sealed : Bytes) (srv : Server Storage F)
      → crypto.decode (p.encode bytes) ≡ ok bytes
      → (p.encode bytes == "") ≡ false
      → ends_solid (p.encode bytes) ≡ true
      → check_command sess.role "register_public_key" ≡ allowed
      → is_allowed (check float sess.client_id false clock.now srv.rate_limiter).0 ≡ true
      → srv.state.storage.outcomes srv.state.storage.tick ≡ none
      → crypto.encrypt (srv.state.storage.nonces srv.state.storage.tick) bytes ≡ ok sealed
      → let s = srv.state.storage in
        let r =
          process_request
            (service crypto)
            json
            float
            sess
            clock
            (register_command (p.encode bytes))
            srv in
        (r.1.text ≡ "Public key registered\n")
        × (r.0.state.storage ≡ record s {
          worker =
              (Keys.save_public_key crypto none
                (s.nonces s.tick)
                (record { client_id = sess.client_id; public_key = p.encode bytes })
                s.worker).1;
          tick = s.tick + 1;
        })
  served_register sess clock bytes sealed srv decoded some_key solid permitted within works
        encrypted =
      rw
        (process_request-register (service crypto) json float sess clock (p.encode bytes) srv solid
          permitted within)
        (handle_register-key sess bytes sealed (checked (service crypto) json float sess clock srv)
          decoded some_key works encrypted)

  -- What a sender makes of the answer.
  pub get_public_key-talk :
      (sess : Session) (clock : Clock) (client_id key : String) (srv : Server Storage F)
      → (client_id == "") ≡ false
      → is_word client_id ≡ true
      → ends_solid key ≡ true
      → check_command sess.role "get_public_key" ≡ allowed
      → is_allowed (check float sess.client_id false clock.now srv.rate_limiter).0 ≡ true
      → srv.state.storage.outcomes srv.state.storage.tick ≡ none
      → Keys.get_public_key crypto none client_id srv.state.storage.worker ≡ ok (some key)
      → get_public_key (talk (service crypto) json float sess clock srv) client_id ≡ ok (some key)
  unfolding get_public_key cipher_mq.Common.is_whitespace
  get_public_key-talk sess clock client_id key srv some_id word solid permitted within works kept =
      ap (λ (line : String). ok (strip_prefix "Public key: " (trim line)))
        (ap (λ r. r.1.text)
            (process_request-get (service crypto) json float sess clock client_id srv
              (ends_solid-word client_id some_id word) permitted within)
          ∙ handle_get-key client_id key (checked (service crypto) json float sess clock srv)
              some_id works kept)
      ∙ ap (λ (t : String). ok (strip_prefix "Public key: " t))
          (trim-end "Public key: " key refl solid)
      ∙ ap (λ o. ok o) (strip_prefix-append "Public key: " key)
