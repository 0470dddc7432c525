-- ===== src/Clients/Receiver/Handshake.antt =====
-- What the receiver says first: `send_recv`, `register_public_key`, `configure_server` and the handshake of
-- `receive_loop` of clients/receiver_1/src/main.rs. `send_recv` gives the line that answers a command, or an
-- error of the connection; `write` gives the error of writing a command that has no answer, if there is one.
use cipher_mq.Common.{
  ℕ, String, Bool, true, false, [], ◌∷◌, ◌==◌, if◌then◌else◌, eqb, length, Result, ok, err, map_err,
  ◌>>=◌, format, trim,
}
use cipher_mq.Clients.Primitives.{Bytes, Primitives}

-- The configuration, without its sections for TLS and for the log.
pub record Config : Type 0 where
  pub server_address : String
  pub server_port : ℕ
  pub queue_name : String
  pub exchange_name : String
  pub routing_key : String

-- The keys of the receiver; `read` gives the text of a file.
unfoldable pub load_private_key : Primitives → (String → Result String String) → Result String Bytes
load_private_key p read =
    map_err (λ _. "Cannot open keys/receiver_private.key")
      (read "../../create_ca_key/Rust_Key_Maker_X25519/receiver_private.key")
    >>= λ raw.
        map_err (λ _. "Invalid Base64 in private key file") (p.decode (trim raw)) >>= λ bytes.
        if eqb (length bytes) 32 then ok bytes else err "Private key must be exactly 32 bytes"

unfoldable pub load_public_key_bytes :
    Primitives → (String → Result String String) → Result String Bytes
load_public_key_bytes p read =
    map_err (λ _. "Cannot open keys/receiver_public.key")
      (read "../../create_ca_key/Rust_Key_Maker_X25519/receiver_public.key")
    >>= λ raw. map_err (λ _. "Invalid Base64 in public key file") (p.decode (trim raw))

module _ (send : String → Result String String) where
  abbrev pub send_recv : String → Result String String
  send_recv cmd = send cmd >>= λ line. ok (trim line)

  -- `pub_bytes` is what `load_public_key_bytes` gave.
  unfoldable pub register_public_key : Primitives → Result String Bytes → Result String Bool
  register_public_key p pub_bytes = pub_bytes >>= λ bytes.
      send_recv (format ("register_public_key " ∷ p.encode bytes ∷ "\n" ∷ [])) >>= λ response.
      ok (response == "Public key registered")

  unfoldable pub configure_server : String → String → String → Result String Bool
  configure_server queue exchange routing_key =
      send_recv (format ("declare_queue " ∷ queue ∷ "\n" ∷ [])) >>= λ _.
      send_recv (format ("declare_exchange " ∷ exchange ∷ "\n" ∷ [])) >>= λ _.
      send_recv (format ("bind " ∷ queue ∷ " " ∷ exchange ∷ " " ∷ routing_key ∷ "\n" ∷ [])) >>= λ _.
      ok true

  -- `false` if the server refused the key.
  unfoldable pub handshake :
      (String → Result String (Unit {0}))
      → Primitives
      → Config
      → Result String Bytes
      → Result String Bool
  unfolding register_public_key configure_server
  handshake write p config pub_bytes =
      let configured =
        configure_server config.queue_name config.exchange_name config.routing_key >>= λ _.
        write (format ("consume " ∷ config.queue_name ∷ "\n" ∷ [])) >>= λ _. ok true in
      register_public_key p pub_bytes >>= λ registered. if registered then configured else ok false
