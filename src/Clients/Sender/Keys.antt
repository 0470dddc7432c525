-- ===== src/Clients/Sender/Keys.antt =====
-- The sender's talk with the server before it sends: `send_recv`, `configure_server`, `get_public_key`,
-- `connect_tls`, `fetch_all_public_keys` and the start of `send_messages_async_pipeline` of
-- clients/sender_1/src/main.rs. A connection gives the line that answers a command, or its error; whether a
-- file of a key could be written changes nothing but the log.
use cipher_mq.Common.{
  ℕ, zero, suc, ◌+◌, ◌^◌, String, Option, none, some, List, [], ◌∷◌, Table, insert, Result, ok, err,
  ◌>>=◌, ◌>>◌, map_err, format, strip_prefix, trim,
}
use cipher_mq.Clients.Sender.{Binding}

abbrev pub Connection : Type 0
Connection = String → Result String String

abbrev pub send_recv : Connection → String → Result String String
send_recv send cmd = send cmd >>= λ line. ok (trim line)

-- The three commands for a binding; what they answer is only logged.
unfoldable pub configure_server : Connection → List Binding → Result String (Unit {0})
configure_server send [] = ok tt
configure_server send (b ∷ bs) =
    let rest = configure_server send bs in
    send_recv send (format ("declare_queue " ∷ b.queue_name ∷ "\n" ∷ [])) >>= λ _.
    send_recv send (format ("declare_exchange " ∷ b.exchange_name ∷ "\n" ∷ [])) >>= λ _.
    send_recv send
      (format ("bind " ∷ b.queue_name ∷ " " ∷ b.exchange_name ∷ " " ∷ b.routing_key ∷ "\n" ∷ []))
    >>= λ _. rest

-- Any answer without the prefix gives no key.
unfoldable pub get_public_key : Connection → String → Result String (Option String)
unfolding strip_prefix
get_public_key send client_id =
    send_recv send (format ("get_public_key " ∷ client_id ∷ "\n" ∷ [])) >>= λ response.
    ok (strip_prefix "Public key: " response)

-- `connect` on the address within the timeout, `none` if that passed, and the handshake on the stream.
unfoldable pub connect_tls :
    {T : Type 0}
    → (String → Option (Result String T))
    → (T → Result String Connection)
    → String
    → String
    → Result String Connection
connect_tls tcp_connect handshake server_address server_port =
    let addr = format (server_address ∷ ":" ∷ server_port ∷ []) in
    elim (tcp_connect addr) [
      | none ↦ err "TCP connect timeout"
      | some (err e) ↦ err (format ("TCP connect to " ∷ addr ∷ " failed" ∷ []))
      | some (ok tcp) ↦ map_err (λ _. "TLS handshake failed") (handshake tcp)
    ]

-- The file of a receiver's key.
abbrev pub key_path : String → String
key_path receiver_id = format ("keys/" ∷ receiver_id ∷ "_public.key" ∷ [])

-- The loop over the receivers; the first that cannot be asked ends it.
unfoldable pub collect_keys : Connection → List String → Table String → Result String (Table String)
unfolding get_public_key
collect_keys send [] found = ok found
collect_keys send (id ∷ ids) found = get_public_key send id >>= λ key.
    collect_keys send ids (elim key [ none ↦ found | some k ↦ insert id k found ])

unfoldable pub fetch_all_public_keys_once :
    Result String Connection → List Binding → List String → Result String (Table String)
unfolding configure_server collect_keys
fetch_all_public_keys_once connected bindings receiver_client_ids =
    connected >>= λ send. configure_server send bindings >> collect_keys send receiver_client_ids []

-- The attempts from `attempt` on, `left` of them: the keys, and the seconds that were slept behind the
-- attempts with an error. An answer without keys is asked for again at once.
unfoldable pub fetch_from : (ℕ → Result String (Table String)) → ℕ → ℕ → Table String × ℕ
fetch_from once zero attempt = ([], 0)
fetch_from once (suc left) attempt =
    let (found, slept) = fetch_from once left (attempt + 1) in
    elim (once attempt) [
      | ok [] ↦ (found, slept)
      | ok (entry ∷ fetched) ↦ (entry ∷ fetched, 0)
      | err e ↦ (found, 2 ^ attempt + slept)
    ]

abbrev pub fetch_all_public_keys : ℕ → (ℕ → Result String (Table String)) → Table String
fetch_all_public_keys max_retries once = (fetch_from once max_retries 0).0

-- The keys that are on disk, where the server gave none.
unfoldable pub local_keys : (String → Option String) → List String → Table String → Table String
local_keys read [] found = found
local_keys read (id ∷ ids) found =
    local_keys read ids
      (elim (read (key_path id)) [ none ↦ found | some key ↦ insert id (trim key) found ])

unfoldable pub public_keys : Table String → (String → Option String) → List String → Table String
unfolding local_keys
public_keys [] read receiver_client_ids = local_keys read receiver_client_ids []
public_keys (entry ∷ fetched) read receiver_client_ids = entry ∷ fetched

-- The routing keys of the queues; of two bindings of a queue the last counts.
unfoldable pub routing_map : List Binding → Table String → Table String
routing_map [] found = found
routing_map (b ∷ bs) found = routing_map bs (insert b.queue_name b.routing_key found)
