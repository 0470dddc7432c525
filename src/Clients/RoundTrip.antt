-- ===== src/Clients/RoundTrip.antt =====
-- What the sender encrypts the receiver decrypts: `encrypt_message` of clients/sender_1/src/main.rs and
-- `decrypt_message` of clients/receiver_1/src/main.rs.
use cipher_mq.Common.{
  ◌≡◌, refl, inl, inr, String, false, [], ◌∷◌, ◌++◌, length, ltb, ok, Result-cases, trim, arith,
}
use cipher_mq.Clients.Primitives.{Bytes, Primitives, Laws, split_at, split_at-append, first_24}
use cipher_mq.Clients.Sender.{
  message_id_of, Random, PlainMessage, EncryptedMessage, sealed_box_encrypt, encrypt_message,
}
use cipher_mq.Clients.Receiver.{EncryptedEnvelope, open_box, decrypt_message}

-- The part of an encrypted message that the receiver looks at.
abbrev pub envelope_of : EncryptedMessage → EncryptedEnvelope
envelope_of em = record {
  enc_session_key = em.enc_session_key;
  nonce = em.nonce;
  ciphertext = em.ciphertext;
}

length-append-ge : (front back : Bytes) → ltb (length (front ++ back)) (length front) ≡ false
length-append-ge [] back = ground arith
length-append-ge (b ∷ front) back = ground (arith, length-append-ge front back)

module _ (p : Primitives) (laws : Laws p) where
  box_lem :
      (epk_secret plaintext recipient box_ct : Bytes)
      → p.box_encrypt
          (p.diffie_hellman epk_secret recipient)
          (first_24 (p.blake2b (p.public_of epk_secret ++ recipient)))
          plaintext
        ≡ ok box_ct
      → sealed_box_encrypt p epk_secret plaintext recipient ≡ ok (p.public_of epk_secret ++ box_ct)
  unfolding sealed_box_encrypt
  box_lem epk_secret plaintext recipient box_ct boxed = rw boxed refl

  open_box_lem :
      (epk_secret plaintext private_key box_ct : Bytes)
      → p.box_encrypt
          (p.diffie_hellman epk_secret (p.public_of private_key))
          (first_24 (p.blake2b (p.public_of epk_secret ++ p.public_of private_key)))
          plaintext
        ≡ ok box_ct
      → open_box p private_key (p.public_of epk_secret ++ box_ct) ≡ ok plaintext
  unfolding open_box
  open_box_lem epk_secret plaintext private_key box_ct boxed =
      let long : ltb (length (p.public_of epk_secret ++ box_ct)) 32 ≡ false =
        rw (← laws.length-public_of epk_secret)
          (length-append-ge (p.public_of epk_secret) box_ct) in
      let parts : split_at 32 (p.public_of epk_secret ++ box_ct)
          ≡ (p.public_of epk_secret, box_ct) =
        rw (← laws.length-public_of epk_secret) (split_at-append (p.public_of epk_secret) box_ct) in
      rw
        (
          long,
          parts,
          laws.diffie_hellman-public_of private_key epk_secret,
          laws.box_decrypt-box_encrypt _ _ _ _ boxed,
        )
        refl

  -- What `encrypt_message` makes of a sealed key and a ciphertext.
  abbrev sealed_message :
      Random → String → PlainMessage → String → String → Bytes → Bytes → EncryptedMessage
  sealed_message random utc_now msg receiver routing_key box_ct ciphertext = record {
    message_id = message_id_of msg receiver;
    receiver_client_id = receiver;
    enc_session_key = p.encode (p.public_of random.epk_secret ++ box_ct);
    nonce = p.encode random.nonce_bytes;
    ciphertext = p.encode ciphertext;
    sent_time = utc_now;
    routing_key = routing_key;
  }

  decrypt_sealed :
      (random : Random) (utc_now : String) (msg : PlainMessage) (receiver routing_key : String)
      (private_key box_ct ciphertext : Bytes)
      → length random.session_key ≡ 32
      → length random.nonce_bytes ≡ 12
      → p.box_encrypt
          (p.diffie_hellman random.epk_secret (p.public_of private_key))
          (first_24 (p.blake2b (p.public_of random.epk_secret ++ p.public_of private_key)))
          random.session_key
        ≡ ok box_ct
      → p.chacha_encrypt random.session_key random.nonce_bytes (p.as_bytes msg.content)
        ≡ ok ciphertext
      → decrypt_message p
          (envelope_of (sealed_message random utc_now msg receiver routing_key box_ct ciphertext))
          private_key
        ≡ ok msg.content
  unfolding decrypt_message
  decrypt_sealed random utc_now msg receiver routing_key private_key box_ct ciphertext k n boxed
        sealed =
      rw
        (
          laws.decode-encode (p.public_of random.epk_secret ++ box_ct),
          laws.decode-encode random.nonce_bytes,
          laws.decode-encode ciphertext,
          open_box_lem random.epk_secret random.session_key private_key box_ct boxed,
          k,
          n,
          laws.chacha_decrypt-chacha_encrypt _ _ _ _ sealed,
          laws.from_utf8-as_bytes msg.content,
        )
        refl

  -- A message that was encrypted for the public key of a receiver is decrypted by the private key to
  -- the text that was encrypted, where the session key and the nonce that were drawn have 32 and 12
  -- bytes.
  pub decrypt_message-encrypt_message :
      (random : Random) (utc_now : String) (msg : PlainMessage)
      (public_key_b64 receiver routing_key : String) (private_key : Bytes) (em : EncryptedMessage)
      → p.decode (trim public_key_b64) ≡ ok (p.public_of private_key)
      → length random.session_key ≡ 32
      → length random.nonce_bytes ≡ 12
      → encrypt_message p random utc_now msg public_key_b64 receiver routing_key ≡ ok em
      → decrypt_message p (envelope_of em) private_key ≡ ok msg.content
  unfolding encrypt_message sealed_box_encrypt
  decrypt_message-encrypt_message random utc_now msg public_key_b64 receiver routing_key private_key
        em decoded k n encrypted =
      let recipient = p.public_of private_key in
      elim (Result-cases (
        p.box_encrypt (p.diffie_hellman random.epk_secret recipient)
          (first_24 (p.blake2b (p.public_of random.epk_secret ++ recipient))) random.session_key)) [
            | inr (e, failed) ↦ ground (arith, laws.length-public_of private_key)
            | inl (box_ct, boxed) ↦
                elim (Result-cases (
                  p.chacha_encrypt random.session_key random.nonce_bytes
                    (p.as_bytes msg.content))) [
                      | inr (e, failed) ↦ ground (
                        arith,
                        laws.length-public_of private_key,
                        box_lem random.epk_secret random.session_key recipient box_ct boxed,
                      )
                      | inl (ciphertext, sealed) ↦
                          let same : em
                              ≡ sealed_message random utc_now msg receiver routing_key box_ct
                                  ciphertext =
                            ground (
                              arith,
                              laws.length-public_of private_key,
                              box_lem random.epk_secret random.session_key recipient box_ct boxed,
                            ) in
                          rw same (
                            decrypt_sealed random utc_now msg receiver routing_key private_key
                              box_ct ciphertext k n boxed sealed)
                    ]
          ]
