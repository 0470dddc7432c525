-- ===== src/Tests/Delivery.antt =====
-- What reaches a receiver (clients/receiver_1/src/main.rs), and how its key reaches a sender
-- (clients/sender_1/src/main.rs).
use cipher_mq.Common.{
  ℕ, zero, suc, ◌≡◌, refl, ap, chars, String, Bool, true, false, Option, none, some, List, [], ◌∷◌,
  ◌++◌, ◌==◌, map, eq-false_of_ne, is_word, Result, ok, arith,
}
use cipher_mq.State
use cipher_mq.Storage.Service.{Storage, service}
use cipher_mq.Heartbeat
use cipher_mq.Metrics
use cipher_mq.RateLimiter.{check, is_allowed}
use cipher_mq.RateLimiter
use cipher_mq.Acl.{sender, receiver}
use cipher_mq.Server.{Server, Session}
use cipher_mq.Server.Dispatch.{process_request}
use cipher_mq.Server.Lifecycle.{rounds}
use cipher_mq.Server.Lifecycle.Drain.{delivering}
use cipher_mq.Makers.{Files}
use cipher_mq.Makers.Keys.{make_keys}
use cipher_mq.Clients.Receiver.{fresh, continues, gives, receive_loop, decrypt_message}
use cipher_mq.Clients.RoundTrip.{envelope_of, decrypt_message-encrypt_message}
use cipher_mq.Clients.Delivery.{Letter, IsReadable, with_letters, receive_loop-rounds}
use cipher_mq.Clients.Receiver.Handshake.{
  load_private_key, load_public_key_bytes, register_public_key,
}
use cipher_mq.Clients.Sender.{EncryptedMessage, encrypt_message}
use cipher_mq.Clients.Sender.Keys.{get_public_key}
use cipher_mq.Clients.KeyExchange.{Base64, register_command, talk}
use cipher_mq.Clients.KeyDistribution.{read_in, decrypt_message-make_keys}
use cipher_mq.Tests.Broker.{api, letter}
use cipher_mq.Tests.Rules.{whole, config}
use cipher_mq.Tests.Connections.{json, session, clock}
use cipher_mq.Tests.Primitives.{primitives, laws, key_bytes, codes}
use cipher_mq.Tests.Layers.{crypto, crypto-laws, worker, write, strokes, tag_bytes}
use cipher_mq.Tests.Clients.{
  random, greeting, private_key, public_key, encrypted, from_str, key_decodes, greeting_encrypts,
}
use cipher_mq.Tests.World.{full, holding, deliveries}

abbrev hello : Letter
hello = record { entry = ("m1", letter "m1"); envelope = envelope_of encrypted; text = "hi" }

hello-IsReadable : IsReadable json primitives from_str private_key hello
unfolding is_word cipher_mq.Common.is_whitespace cipher_mq.Common.ends_solid
hello-IsReadable = record {
  some_id = refl;
  word = refl;
  starts = refl;
  ends = refl;
  read = refl;
  opened =
      decrypt_message-encrypt_message primitives laws random "t1" greeting public_key "bob"
        "bob_key" private_key encrypted key_decodes refl refl greeting_encrypts;
}

receive_loop-rounds_example :
    receive_loop primitives from_str private_key
      (map gives (rounds api json whole session (map delivering deliveries) holding).output)
      fresh
    ≡ (continues, with_letters json primitives from_str private_key (hello ∷ []) fresh)
unfolding cipher_mq.Common.get cipher_mq.State.Publish.publish cipher_mq.State.Invariant.Run.run
    cipher_mq.State.Invariant.Run.perform State.bind_queue State.declare_exchange
    State.declare_queue cipher_mq.Common.or_insert State.new cipher_mq.Common.insert
    cipher_mq.State.Publish.notify cipher_mq.State.Publish.enqueue
receive_loop-rounds_example =
    receive_loop-rounds json primitives from_str private_key api whole session full deliveries
      holding (hello ∷ []) fresh refl refl (refl, (refl, tt)) refl (hello-IsReadable, tt) (refl, tt)
      (refl, tt)

strokes-is_word : (n : ℕ) (s : String) → is_word s ≡ true → is_word (strokes n s) ≡ true
unfolding strokes is_word cipher_mq.Common.is_whitespace
strokes-is_word zero s h = h
strokes-is_word (suc n) s h = strokes-is_word n s h

write-is_word : (bytes : List ℕ) → is_word (write bytes) ≡ true
unfolding write is_word cipher_mq.Common.is_whitespace
write-is_word [] = refl
write-is_word (b ∷ bs) = strokes-is_word b (String.◌∷◌ "," (write bs)) (write-is_word bs)

strokes-some : (n : ℕ) (s : String) → (strokes n (String.◌∷◌ "," s) == "") ≡ false
unfolding strokes chars
strokes-some zero s = eq-false_of_ne (String.◌∷◌ "," s) "" (λ e. omega (arith, ap chars e))
strokes-some (suc n) s =
    eq-false_of_ne (String.◌∷◌ "x" (strokes n (String.◌∷◌ "," s))) ""
      (λ e. omega (arith, ap chars e))

base64 : Base64 primitives.encode
unfolding write
base64 = record { word = write-is_word; some_text = λ b bs. strokes-some b (write bs) }

abbrev database : Storage
database = record { worker = worker; outcomes = λ n. none; nonces = λ n. n ∷ []; tick = 0 }

abbrev key_server : Server Storage ℕ
key_server = record {
  state = State.new database 10;
  heartbeat_monitor = Heartbeat.new 60;
  metrics = Metrics.new;
  rate_limiter = RateLimiter.new config;
}

abbrev bob : Session
bob = record { client_id = "bob"; ip = "ip"; role = receiver; channel = 0 }

abbrev alice : Session
alice = record { client_id = "alice"; ip = "ip"; role = sender; channel = 1 }

abbrev secret : List ℕ
secret = key_bytes 7

abbrev secret_encrypted : EncryptedMessage
secret_encrypted = record {
  message_id = "alice-c1-bob";
  receiver_client_id = "bob";
  enc_session_key = primitives.encode (key_bytes 5 ++ tag_bytes ++ key_bytes 9);
  nonce = primitives.encode random.nonce_bytes;
  ciphertext = primitives.encode (tag_bytes ++ codes "hi");
  sent_time = "t1";
  routing_key = "bob_key";
}

abbrev no_refusal : String → Option String
no_refusal path = none

abbrev made : Files
made = (make_keys primitives no_refusal secret []).1

keys_are_made : make_keys primitives no_refusal secret [] ≡ (ok tt, made)
unfolding make_keys
keys_are_made = refl

secret_encrypts :
    encrypt_message primitives random "t1" greeting
      (primitives.encode (primitives.public_of secret))
      "bob"
      "bob_key"
    ≡ ok secret_encrypted
unfolding encrypt_message cipher_mq.Tests.Layers.read_from cipher_mq.Common.trim write strokes
    cipher_mq.Tests.Layers.push
secret_encrypts = refl

bob_passes : is_allowed (check whole "bob" false clock.now key_server.rate_limiter).0 ≡ true
unfolding check cipher_mq.Common.get RateLimiter.new
bob_passes = refl

alice_passes :
    is_allowed
      (check whole "alice" false clock.now
        (process_request
          (service crypto)
          json
          whole
          bob
          clock
          (register_command (primitives.encode (primitives.public_of secret)))
          key_server).0.rate_limiter).0
    ≡ true
unfolding check cipher_mq.Common.get process_request cipher_mq.Common.splitn cipher_mq.Common.trim
    write strokes RateLimiter.new cipher_mq.Common.insert
alice_passes = refl

decrypt_message-make_keys_example :
    let key = primitives.encode (primitives.public_of secret) in
    let registered =
      (process_request (service crypto) json whole bob clock (register_command key) key_server).0 in
    (load_private_key primitives (read_in made) ≡ ok secret)
    × (register_public_key
          (talk (service crypto) json whole bob clock key_server)
          primitives
          (load_public_key_bytes primitives (read_in made))
        ≡ ok true)
    × (get_public_key (talk (service crypto) json whole alice clock registered) "bob"
        ≡ ok (some key))
    × (decrypt_message primitives (envelope_of secret_encrypted) secret ≡ ok "hi")
unfolding is_word cipher_mq.Common.is_whitespace cipher_mq.Acl.check_command State.new
decrypt_message-make_keys_example =
    decrypt_message-make_keys primitives laws base64 crypto crypto-laws json whole no_refusal secret
      (tag_bytes ++ primitives.public_of secret) [] made bob alice clock clock key_server random
      "t1" greeting "bob_key" secret_encrypted refl keys_are_made (λ bytes. refl) refl refl refl
      bob_passes refl refl refl refl alice_passes refl refl secret_encrypts
