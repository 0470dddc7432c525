-- ===== src/Tests/Layers.antt =====
-- Runs of the database layer (server/src/storage.rs) and of the configuration (server/src/config.rs).
use Prim.Native.Char.{code}
use Prim.Native.Nat.{zero, suc}
use mathlib.Core.Option
use cipher_mq.Common.{
  ℕ, ◌+◌, ◌≡◌, refl, String, true, false, none, some, [], ◌∷◌, ◌++◌, ◌==◌, eqb, get, if◌then◌else◌,
  Result, ok, err, arith,
}
use cipher_mq.Storage.{PublicKeyData, MessageMetadata}
use cipher_mq.Storage.Worker.{Worker, flush_updates, set_delivered, set_acknowledged}
use cipher_mq.Storage.Worker.Flushes.{updated, flush_updates-rows, flush_updates-failed}
use cipher_mq.Storage.Keys.{
  Bytes, Crypto, CryptoLaws, get_public_key, save_public_key, get_public_key-save_public_key,
}
use cipher_mq.Config.{Config, default_performance, default_admin, default_rate_limit, load}
use cipher_mq.Config.Checks.{IsUsable, load-IsUsable}

-- Numbers written in strokes, each followed by a comma.
unfoldable pub strokes : ℕ → String → String
strokes zero rest = rest
strokes (suc n) rest = String.◌∷◌ "x" (strokes n rest)

unfoldable pub write : Bytes → String
write [] = ""
write (b ∷ bs) = strokes b (String.◌∷◌ "," (write bs))

unfoldable pub push : ℕ → Result String Bytes → Result String Bytes
push n (ok bs) = ok (n ∷ bs)
push n (err e) = err e

unfoldable pub read_from : ℕ → String → Result String Bytes
read_from n String.[] = if eqb n 0 then ok [] else err "odd"
read_from n (String.◌∷◌ c s) = elim (eqb (code c) 44) [
  | true ↦ push n (read_from 0 s)
  | false ↦ read_from (suc n) s
]

read-strokes :
    (k n : ℕ) (s : String)
    → read_from k (strokes n (String.◌∷◌ "," s)) ≡ push (k + n) (read_from 0 s)
unfolding read_from strokes
read-strokes k zero s = ground arith
read-strokes k (suc n) s = ground (arith, read-strokes (suc k) n s)

pub read-write : (bs : Bytes) → read_from 0 (write bs) ≡ ok bs
unfolding read_from write push
read-write [] = refl
read-write (b ∷ bs) = ground (arith, read-strokes 0 b (write bs), read-write bs)

abbrev pub tag_bytes : Bytes
tag_bytes = 0 ∷ 0 ∷ 0 ∷ 0 ∷ 0 ∷ 0 ∷ 0 ∷ 0 ∷ 0 ∷ 0 ∷ 0 ∷ 0 ∷ 0 ∷ 0 ∷ 0 ∷ 0 ∷ []

unfoldable pub drop : ℕ → Bytes → Bytes
drop zero bs = bs
drop (suc n) [] = []
drop (suc n) (b ∷ bs) = drop n bs

-- A cipher that puts sixteen zeros in front.
abbrev pub crypto : Crypto
crypto = record {
  encode = write;
  decode = read_from 0;
  encrypt = λ nonce bytes. ok (tag_bytes ++ bytes);
  decrypt = λ nonce bytes. ok (drop 16 bytes);
}

pub crypto-laws : CryptoLaws crypto
unfolding drop
crypto-laws = record {
  decode-encode = read-write;
  decrypt-encrypt = λ nonce bytes sealed encrypted. ground arith;
}

abbrev pub worker : Worker
worker = record {
  message_metadata = [];
  public_keys = [];
  delivered_updates = [];
  acknowledged_updates = [];
}

abbrev key_data : PublicKeyData
key_data = record { client_id = "bob"; public_key = "xx,x," }

decodes : crypto.decode key_data.public_key ≡ ok (2 ∷ 1 ∷ [])
unfolding read_from push
decodes = refl

get_public_key-save_public_key_example :
    get_public_key crypto none "bob" (save_public_key crypto none (7 ∷ []) key_data worker).1 ≡ (
      if key_data.client_id == "bob"
      then ok (some (crypto.encode (2 ∷ 1 ∷ [])))
      else get_public_key crypto none "bob" worker)
get_public_key-save_public_key_example =
    get_public_key-save_public_key crypto crypto-laws (7 ∷ []) (2 ∷ 1 ∷ [])
      (tag_bytes ++ 2 ∷ 1 ∷ []) key_data "bob" worker decodes refl

abbrev row : MessageMetadata
row = record {
  message_id = "m1";
  client_id = "alice";
  exchange_name = "mail";
  routing_key = "news";
  sent_time = some "t1";
  delivered_time = none;
  acknowledged_time = none;
}

abbrev busy : Worker
busy = record worker {
  message_metadata = ("m1", row) ∷ [];
  delivered_updates = ("m1", "t2") ∷ ("m2", "t3") ∷ [];
  acknowledged_updates = ("m1", "t4") ∷ [];
}

flush_updates-rows_example :
    get "m1" (flush_updates none none busy).message_metadata
    ≡ Option.map
        (λ r.
          updated set_acknowledged
            (get "m1" busy.acknowledged_updates)
            (updated set_delivered (get "m1" busy.delivered_updates) r))
        (get "m1" busy.message_metadata)
flush_updates-rows_example = flush_updates-rows "m1" busy

flush_updates-failed_example :
    (flush_updates none none (flush_updates (some "gone") (some "gone") busy)).message_metadata
    ≡ busy.message_metadata
flush_updates-failed_example = flush_updates-failed "gone" "gone" busy

abbrev configured : Config ℕ
configured = record {
  server = record { address = "0.0.0.0:5672"; connection_type = "tls" };
  tls = record { cert_path = some "c"; key_path = some "k"; ca_cert_path = some "ca" };
  logging = record {
    level = "debug";
    rotation = "hourly";
    info_file_path = "i";
    debug_file_path = "d";
    error_file_path = "e";
    max_size_mb = 5;
  };
  database = record { host = "h"; port = 5432; user = "u"; password = "p"; dbname = "d" };
  encryption = record { algorithm = "x25519_chacha20_poly1305"; aes_key = "K" };
  performance = default_performance;
  admin = default_admin;
  rate_limit = default_rate_limit (λ n. n);
  acl = record { sender_cns = []; receiver_cns = []; admin_cns = [] };
}

abbrev read_file : String → Result String String
read_file path = ok "content"

abbrev parse_file : String → Result String (Config ℕ)
parse_file content = ok configured

abbrev decode_key : String → Result String Bytes
decode_key text = ok (tag_bytes ++ tag_bytes)

is_loaded : load read_file parse_file decode_key "config.toml" ≡ ok configured
unfolding load
is_loaded = refl

load-IsUsable_example : IsUsable decode_key configured
load-IsUsable_example =
    load-IsUsable read_file parse_file decode_key "config.toml" configured is_loaded
