-- ===== src/Clients/Sender.antt =====
-- clients/sender_1/src/main.rs: the configuration, the messages and their encryption. What is random,
-- the clock and the files of keys are arguments.
pub mod Keys
pub mod Pipeline
pub mod Batches
pub mod Retries
use cipher_mq.Common.{
  ℕ, String, Bool, true, false, Option, none, some, List, [], ◌∷◌, ◌++◌, ◌==◌, if◌then◌else◌, eqb,
  length, Table, get, insert, Result, ok, err, ◌>>=◌, map_err, format, replace, trim,
}
use mathlib.Core.Option
use cipher_mq.Clients.Primitives.{Bytes, Primitives, first_24}

pub record Binding : Type 0 where
  pub queue_name : String
  pub exchange_name : String
  pub routing_key : String

pub record MessageConfig : Type 0 where
  pub content_template : String
  pub extra_fields : Table String

pub record SenderConfig : Type 0 where
  pub num_messages : ℕ
  pub max_inflight : ℕ
  pub max_retries : ℕ
  pub ack_timeout_secs : ℕ
  pub tcp_connect_timeout_secs : ℕ
  pub batch_size : ℕ
  pub batch_delay_ms : ℕ
  pub message : MessageConfig

abbrev pub default_template : String
default_template = "{sender_id}-CipherMQ Sample message with ID: {correlation_id}"

abbrev pub default_message : MessageConfig
default_message = record { content_template = default_template; extra_fields = [] }

abbrev pub default_sender : SenderConfig
default_sender = record {
  num_messages = 100;
  max_inflight = 20;
  max_retries = 3;
  ack_timeout_secs = 30;
  tcp_connect_timeout_secs = 120;
  batch_size = 10;
  batch_delay_ms = 10;
  message = default_message;
}

-- A value of `serde_json`, as far as `ReceiverIds` looks into it.
pub data Value : Type 0 where
  string : String → Value
  array : List (Option String) → Value
  other : Value

-- An element of the array that is no text is `none`.
unfoldable pub strings : List (Option String) → Result String (List String)
strings [] = ok []
strings (none ∷ xs) = err "receiver_client_ids: expected string"
strings (some s ∷ xs) = strings xs >>= λ ids. ok (s ∷ ids)

unfoldable pub receiver_ids : Value → Result String (List String)
unfolding strings
receiver_ids (string s) = ok (s ∷ [])
receiver_ids (array xs) = strings xs
receiver_ids other = err "receiver_client_ids must be string or array of strings"

pub record PlainMessage : Type 0 where
  pub correlation_id : String
  pub sender_id : String
  pub sent_timestamp : String
  pub content : String

pub record EncryptedMessage : Type 0 where
  pub message_id : String
  pub receiver_client_id : String
  pub enc_session_key : String
  pub nonce : String
  pub ciphertext : String
  pub sent_time : String
  pub routing_key : String

-- The custom fields, in the order in which the map gives them.
unfoldable pub render_fields : Table String → String → String
unfolding replace
render_fields [] out = out
render_fields ((k, v) ∷ fields) out =
    render_fields fields (replace (format ("{" ∷ k ∷ "}" ∷ [])) v out)

-- `timestamp` and `seq` come as the texts that `format!` makes of them.
unfoldable pub render : MessageConfig → String → String → String → String → String
unfolding render_fields replace
render config sender_id correlation_id timestamp seq =
    let out = replace "{sender_id}" sender_id config.content_template in
    let out₁ = replace "{correlation_id}" correlation_id out in
    let out₂ = replace "{timestamp}" timestamp out₁ in
    let out₃ = replace "{seq}" seq out₂ in render_fields config.extra_fields out₃

unfoldable pub generate_message : String → MessageConfig → String → String → String → PlainMessage
unfolding render
generate_message client_id config correlation_id timestamp seq = record {
  correlation_id = correlation_id;
  sender_id = client_id;
  sent_timestamp = timestamp;
  content = render config client_id correlation_id timestamp seq;
}

-- What is drawn for one message: the secret of the box, the key and the nonce.
pub record Random : Type 0 where
  pub epk_secret : Bytes
  pub session_key : Bytes
  pub nonce_bytes : Bytes

abbrev pub message_id_of : PlainMessage → String → String
message_id_of msg receiver = format (msg.sender_id ∷ "-" ∷ msg.correlation_id ∷ "-" ∷ receiver ∷ [])

module _ (p : Primitives) where
  unfoldable pub sealed_box_encrypt : Bytes → Bytes → Bytes → Result String Bytes
  sealed_box_encrypt epk_secret plaintext recipient =
      let epk_public = p.public_of epk_secret in
      let shared = p.diffie_hellman epk_secret recipient in
      let box_nonce = first_24 (p.blake2b (epk_public ++ recipient)) in
      map_err (λ e. format ("SealedBox encrypt failed: " ∷ e ∷ []))
        (p.box_encrypt shared box_nonce plaintext)
      >>= λ box_ct. ok (epk_public ++ box_ct)

  -- `try_into` for an array of 32 bytes.
  abbrev pub key_of : Bytes → Result String Bytes
  key_of bytes =
      if eqb (length bytes) 32 then ok bytes else err "Receiver public key must be 32 bytes"

  unfoldable pub encrypt_message :
      Random → String → PlainMessage → String → String → String → Result String EncryptedMessage
  unfolding sealed_box_encrypt
  encrypt_message random utc_now msg public_key_b64 receiver routing_key =
      map_err (λ _. "Bad Base64 in receiver public key") (p.decode (trim public_key_b64))
      >>= λ decoded. key_of decoded >>= λ pub_bytes.
          sealed_box_encrypt random.epk_secret random.session_key pub_bytes >>= λ enc_session_key.
          map_err (λ e. format ("ChaCha20 encrypt failed: " ∷ e ∷ []))
            (p.chacha_encrypt random.session_key random.nonce_bytes (p.as_bytes msg.content))
          >>= λ ciphertext. ok (record {
            message_id = message_id_of msg receiver;
            receiver_client_id = receiver;
            enc_session_key = p.encode enc_session_key;
            nonce = p.encode random.nonce_bytes;
            ciphertext = p.encode ciphertext;
            sent_time = utc_now;
            routing_key = routing_key;
          })

  -- The key of a receiver's queue in the routing map, or one made of its name.
  abbrev pub routing_key_of : Table String → String → String
  routing_key_of routing_map receiver =
      Option.get_or (get (format (receiver ∷ "_queue" ∷ [])) routing_map)
        (format (receiver ∷ "_key" ∷ []))

  -- `key_files` reads the file of a receiver's key; a receiver whose key is missing or bad is left out.
  unfoldable pub encrypt_for_all_receivers :
      (String → Random)
      → (String → String)
      → (String → Option String)
      → PlainMessage
      → List String
      → Table String
      → List EncryptedMessage
  unfolding encrypt_message
  encrypt_for_all_receivers random utc_now key_files msg [] routing_map = []
  encrypt_for_all_receivers random utc_now key_files msg (receiver ∷ ids) routing_map =
      let rest = encrypt_for_all_receivers random utc_now key_files msg ids routing_map in
      elim (key_files (format ("keys/" ∷ receiver ∷ "_public.key" ∷ []))) [
        | none ↦ rest
        | some text ↦
            elim (encrypt_message (random receiver) (utc_now receiver) msg (trim text) receiver
              (routing_key_of routing_map receiver)) [ ok em ↦ em ∷ rest | err e ↦ rest ]
      ]
