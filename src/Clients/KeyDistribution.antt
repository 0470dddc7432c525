-- ===== src/Clients/KeyDistribution.antt =====
-- From the program that makes a receiver's keys to the sender that encrypts for it: the files of
-- create_ca_key/Rust_Key_Maker_X25519, the start of clients/receiver_1/src/main.rs, server/src/server.rs with its
-- database layer, and the start of clients/sender_1/src/main.rs.
use cipher_mq.Common.{
  ℕ, ◌+◌, zero, suc, ◌≡◌, ◌∙◌, refl, ap, sym, String, Bool, true, false, Option, none, some, List,
  [], ◌∷◌, ◌==◌, length, get, is_word, trim, trim-solid, ends_solid, starts_solid, strip_prefix,
  Result, ok, err, ◌>>=◌, eqb, arith, eq_refl,
}
use cipher_mq.Storage.Keys.{Crypto, CryptoLaws, get_public_key-save_public_key}
use cipher_mq.Storage.Keys
use cipher_mq.Storage.Service.{Storage, service}
use cipher_mq.RateLimiter.{Float, check, is_allowed}
use cipher_mq.Acl.{allowed, check_command}
use cipher_mq.Server.{Json, Server, Session, Clock}
use cipher_mq.Server.Dispatch.{process_request}
use cipher_mq.Makers.{Files}
use cipher_mq.Makers.Keys.{make_keys, get-make_keys}
use cipher_mq.Clients.Primitives.{Bytes, Primitives, Laws}
use cipher_mq.Clients.RoundTrip.{envelope_of, decrypt_message-encrypt_message}
use cipher_mq.Clients.Sender.{Random, PlainMessage, EncryptedMessage, encrypt_message}
use cipher_mq.Clients.Receiver.{decrypt_message}
use cipher_mq.Clients.Receiver.Handshake.{
  load_private_key, load_public_key_bytes, register_public_key,
}
use cipher_mq.Clients.Sender.Keys.{get_public_key}
use cipher_mq.Clients.KeyExchange.{
  Base64, ends_solid-word, starts_solid-word, register_command, talk, served_register,
  get_public_key-talk,
}

-- The receiver's view of the directory in which the keys were made.
abbrev pub read_in : Files → String → Result String String
read_in files path = elim (strip_prefix "../../create_ca_key/Rust_Key_Maker_X25519/" path) [
  | none ↦ err "No such file or directory"
  | some name ↦ elim (get name files) [
    | none ↦ err "No such file or directory"
    | some text ↦ ok text
  ]
]

module _ (p : Primitives) (laws : Laws p) (base64 : Base64 p.encode) where
  some_key : (secret : Bytes) → (p.encode (p.public_of secret) == "") ≡ false
  some_key secret = long (p.public_of secret) (laws.length-public_of secret)
    where
      long : (bytes : Bytes) → length bytes ≡ 32 → (p.encode bytes == "") ≡ false
      long [] h = absurd (omega (arith, h))
      long (b ∷ bytes) h = base64.some_text b bytes

  trim-encode :
      (bytes : Bytes) → (p.encode bytes == "") ≡ false → trim (p.encode bytes) ≡ p.encode bytes
  trim-encode bytes some_text =
      trim-solid (p.encode bytes) (starts_solid-word (p.encode bytes) some_text (base64.word bytes))
        (ends_solid-word (p.encode bytes) some_text (base64.word bytes))

  load_private_key_lem :
      (read : String → Result String String) (raw : String) (bytes : Bytes)
      → read "../../create_ca_key/Rust_Key_Maker_X25519/receiver_private.key" ≡ ok raw
      → p.decode (trim raw) ≡ ok bytes
      → length bytes ≡ 32
      → load_private_key p read ≡ ok bytes
  unfolding load_private_key
  load_private_key_lem read raw bytes h d n = rw (h, d, n) refl

  load_private_key-make_keys :
      (refuse : String → Option String) (private_key : Bytes) (files files' : Files)
      → length private_key ≡ 32
      → make_keys p refuse private_key files ≡ (ok tt, files')
      → load_private_key p (read_in files') ≡ ok private_key
  unfolding strip_prefix
  load_private_key-make_keys refuse [] files files' n made = absurd (omega (arith, n))
  load_private_key-make_keys refuse (b ∷ bs) files files' n made =
      load_private_key_lem (read_in files') (p.encode (b ∷ bs)) (b ∷ bs)
        (ground (arith, get-make_keys p refuse (b ∷ bs) files files' made))
        (ap p.decode (trim-encode (b ∷ bs) (base64.some_text b bs)) ∙ laws.decode-encode (b ∷ bs)) n

  load_public_key_bytes_lem :
      (read : String → Result String String) (raw : String) (bytes : Bytes)
      → read "../../create_ca_key/Rust_Key_Maker_X25519/receiver_public.key" ≡ ok raw
      → p.decode (trim raw) ≡ ok bytes
      → load_public_key_bytes p read ≡ ok bytes
  unfolding load_public_key_bytes
  load_public_key_bytes_lem read raw bytes h d = rw (h, d) refl

  load_public_key_bytes-make_keys :
      (refuse : String → Option String) (private_key : Bytes) (files files' : Files)
      → make_keys p refuse private_key files ≡ (ok tt, files')
      → load_public_key_bytes p (read_in files') ≡ ok (p.public_of private_key)
  unfolding strip_prefix
  load_public_key_bytes-make_keys refuse private_key files files' made =
      let public = p.public_of private_key in
      load_public_key_bytes_lem (read_in files') (p.encode public) public
        (ground (arith, get-make_keys p refuse private_key files files' made))
        (ap p.decode (trim-encode public (some_key private_key)) ∙ laws.decode-encode public)

module _ (p : Primitives) (laws : Laws p) (base64 : Base64 p.encode) (crypto : Crypto)
    (crypto-laws : CryptoLaws crypto) (json : Json) {F : Type 0} (float : Float F) where
  -- A receiver whose keys were made and written loads its private key and registers its public key with the
  -- server, and a sender that asks right then for the key of that receiver gets a text for which it encrypts what
  -- the receiver's private key decrypts. The private key has 32 bytes, the name of the receiver is a word, the
  -- roles permit both commands and the rate limiter lets them pass, both statements of the database succeed,
  -- the server's cipher encrypts the key, and server and clients have the same base64.
  pub decrypt_message-make_keys :
      (refuse : String → Option String) (private_key sealed : Bytes) (files files' : Files)
      (receiver sender : Session) (clock later : Clock) (srv : Server Storage F) (random : Random)
      (utc_now : String) (msg : PlainMessage) (routing_key : String) (em : EncryptedMessage)
      → length private_key ≡ 32
      → make_keys p refuse private_key files ≡ (ok tt, files')
      → ((bytes : Bytes) → crypto.encode bytes ≡ p.encode bytes)
      → (receiver.client_id == "") ≡ false
      → is_word receiver.client_id ≡ true
      → check_command receiver.role "register_public_key" ≡ allowed
      → is_allowed (check float receiver.client_id false clock.now srv.rate_limiter).0 ≡ true
      → srv.state.storage.outcomes srv.state.storage.tick ≡ none
      → srv.state.storage.outcomes (srv.state.storage.tick + 1) ≡ none
      → crypto.encrypt (srv.state.storage.nonces srv.state.storage.tick) (p.public_of private_key)
        ≡ ok sealed
      → check_command sender.role "get_public_key" ≡ allowed
      → is_allowed
          (check float sender.client_id false later.now
            (process_request
              (service crypto)
              json
              float
              receiver
              clock
              (register_command (p.encode (p.public_of private_key)))
              srv).0.rate_limiter).0
        ≡ true
      → length random.session_key ≡ 32
      → length random.nonce_bytes ≡ 12
      → encrypt_message p random utc_now msg
          (p.encode (p.public_of private_key))
          receiver.client_id
          routing_key
        ≡ ok em
      → let key = p.encode (p.public_of private_key) in
        let registered =
          (process_request
            (service crypto)
            json
            float
            receiver
            clock
            (register_command key)
            srv).0 in
        (load_private_key p (read_in files') ≡ ok private_key)
        × (register_public_key
              (talk (service crypto) json float receiver clock srv)
              p
              (load_public_key_bytes p (read_in files'))
            ≡ ok true)
        × (get_public_key
              (talk (service crypto) json float sender later registered)
              receiver.client_id
            ≡ ok (some key))
        × (decrypt_message p (envelope_of em) private_key ≡ ok msg.content)
  unfolding register_public_key trim cipher_mq.Common.is_whitespace
  decrypt_message-make_keys refuse private_key sealed files files' receiver sender clock later srv
        random utc_now msg routing_key em n made same named word permitted within works works_again
        encrypted permitted_too within_too k m encrypts =
      let public = p.public_of private_key in
      let key = p.encode public in
      let decoded : crypto.decode key ≡ ok public =
        ap (λ t. crypto.decode t) (sym (same public)) ∙ crypto-laws.decode-encode public in
      let some_text = some_key p laws base64 private_key in
      let solid = ends_solid-word key some_text (base64.word public) in
      let (told, kept) =
        served_register p crypto crypto-laws json float receiver clock public sealed srv decoded
          some_text solid permitted within works encrypted in
      let registered =
        (process_request (service crypto) json float receiver clock (register_command key) srv).0 in
      let found =
        get_public_key-save_public_key crypto crypto-laws
          (srv.state.storage.nonces srv.state.storage.tick) public sealed
          (record { client_id = receiver.client_id; public_key = key }) receiver.client_id
          srv.state.storage.worker decoded encrypted in
      (
        load_private_key-make_keys p laws base64 refuse private_key files files' n made,
        rw (load_public_key_bytes-make_keys p laws base64 refuse private_key files files' made)
            (ap (λ (t : String). ok (trim t == "Public key registered")) told),
        get_public_key-talk p crypto crypto-laws json float sender later receiver.client_id key
            registered named word solid permitted_too within_too
            (ap (λ (s : Storage). s.outcomes s.tick) kept ∙ works_again)
            (ap (λ (s : Storage). Keys.get_public_key crypto none receiver.client_id s.worker) kept
              ∙ found
              ∙ rw (eq_refl receiver.client_id) (ap (λ t. ok (some t)) (same public))),
        decrypt_message-encrypt_message p laws random utc_now msg key receiver.client_id routing_key
            private_key em
            (ap p.decode (trim-encode p laws base64 public some_text) ∙ laws.decode-encode public) k
            m encrypts,
      )
