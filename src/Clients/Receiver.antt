-- ===== src/Clients/Receiver.antt =====
-- clients/receiver_1/src/main.rs: the decryption of a message, the lines of the server, and the loop
-- that reads them.
pub mod Once
pub mod Handshake
pub mod Workers
pub mod Writer
pub mod Reconnect
use text.Mathlib.Text.{starts_with}
use cipher_mq.Common.{
  ℕ, ◌+◌, ◌≡◌, refl, String, Bool, true, false, Option, none, some, List, [], ◌∷◌, ◌++◌, ◌==◌,
  if◌then◌else◌, eqb, ltb, leb, length, contains, set_insert, Result, ok, err, ◌>>=◌, map_err,
  format, strip_prefix, trim, splitn,
}
use cipher_mq.Clients.Primitives.{Bytes, Primitives, split_at, first_24}

pub record EncryptedEnvelope : Type 0 where
  pub enc_session_key : String
  pub nonce : String
  pub ciphertext : String

-- An `Err`, or the panic of `from_slice` on a key or a nonce of the wrong length.
pub data Failure : Type 0 where
  reported : String → Failure
  panics : Failure

abbrev pub report : String → String → Failure
report text _ = reported text

-- `from_slice`, for so many bytes.
abbrev pub from_slice : ℕ → Bytes → Result Failure Bytes
from_slice n bytes = if eqb (length bytes) n then ok bytes else err panics

module _ (p : Primitives) where
  -- The session key in the box.
  unfoldable pub open_box : Bytes → Bytes → Result Failure Bytes
  open_box private_key enc_session_key =
      if ltb (length enc_session_key) 32
      then err (reported "SealedBox ciphertext too short")
      else let (epk_bytes, box_ct) = split_at 32 enc_session_key in
        let shared = p.diffie_hellman private_key epk_bytes in
        let box_nonce = first_24 (p.blake2b (epk_bytes ++ p.public_of private_key)) in
        map_err (λ e. reported (format ("SealedBox inner-box decryption failed: " ∷ e ∷ [])))
          (p.box_decrypt shared box_nonce box_ct)

  unfoldable pub decrypt_message : EncryptedEnvelope → Bytes → Result Failure String
  unfolding open_box
  decrypt_message envelope private_key =
      map_err (report "Bad Base64 in enc_session_key") (p.decode envelope.enc_session_key)
      >>= λ enc_session_key.
          map_err (report "Bad Base64 in nonce") (p.decode envelope.nonce) >>= λ nonce_bytes.
          map_err (report "Bad Base64 in ciphertext") (p.decode envelope.ciphertext)
          >>= λ ciphertext. open_box private_key enc_session_key >>= λ session_key_bytes.
              from_slice 32 session_key_bytes >>= λ key. from_slice 12 nonce_bytes >>= λ nonce.
              map_err (λ e. reported (format ("ChaCha20-Poly1305 decryption failed: " ∷ e ∷ [])))
                (p.chacha_decrypt key nonce ciphertext)
              >>= λ plaintext.
                  map_err (report "Decrypted payload is not valid UTF-8") (p.from_utf8 plaintext)

-- The two parts of the body of a line, if there are two and the first is not empty.
abbrev pub id_and_payload : List String → Option (String × String)
id_and_payload (id ∷ payload ∷ _) = if id == "" then none else some (id, payload)
id_and_payload _ = none

abbrev pub parse_body : Option String → Option (String × String)
parse_body none = none
parse_body (some body) = id_and_payload (splitn 2 (trim body))

-- `none` for a line that is passed over.
unfoldable pub parse_line : String → Option (String × String)
parse_line line = parse_body (strip_prefix "Message:" (trim line))

-- What a channel holds after a `send`, by whether its receiving end is still there; where it is not, the
-- error is only logged.
unfoldable pub after_send : {A : Type 0} → Bool → List A → List A → List A
after_send true xs ys = xs ++ ys
after_send false xs ys = xs

pub after_send_lem :
    {A : Type 0} (is_open : Bool) (xs ys : List A)
    → after_send is_open xs ys ≡ (if is_open then xs ++ ys else xs)
unfolding after_send
after_send_lem true xs ys = refl
after_send_lem false xs ys = refl

-- `processed`, and what was put into the channel of the writer and into that of the acknowledgements, oldest
-- first. The writer's task may be over, because its file could not be opened, and the task of the
-- acknowledgements, because a write failed; then their channels are closed.
pub record Receiver : Type 0 where
  pub processed : List String
  pub messages : List (String × String)
  pub acks : List String
  pub writer_open : Bool
  pub acks_open : Bool

abbrev pub fresh : Receiver
fresh = record { processed = []; messages = []; acks = []; writer_open = true; acks_open = true }

-- How a round of the loop ends; a crash is the end of the program.
pub data Round : Type 0 where
  continues stops crashes : Round

-- What a round finds: that `running` was cleared, or what the read of a line gives within its 500
-- milliseconds; or, between two rounds, that the task of the writer or that of the acknowledgements ended.
pub data Read : Type 0 where
  cleared times_out fails ends : Read
  writer_ended acks_ended : Read
  gives : String → Read

-- What is left to do behind a round.
abbrev pub go_on : Round → Receiver → Round × Receiver → Round × Receiver
go_on continues r rest = rest
go_on stops r rest = (stops, r)
go_on crashes r rest = (crashes, r)

module _ (p : Primitives) (from_str : String → Result String EncryptedEnvelope)
    (private_key : Bytes) where
  -- Both sends are tried, whatever becomes of the first one.
  unfoldable pub accept : String → String → Receiver → Receiver
  unfolding after_send
  accept id plaintext r = record r {
    processed = set_insert id r.processed;
    messages = after_send r.writer_open r.messages ((id, plaintext) ∷ []);
    acks = after_send r.acks_open r.acks (id ∷ []);
  }

  -- What becomes of a message, by what decrypting it gave.
  unfoldable pub process_decrypted : String → Receiver → Result Failure String → Round × Receiver
  unfolding accept
  process_decrypted id r (ok plaintext) = (continues, accept id plaintext r)
  process_decrypted id r (err panics) = (crashes, r)
  process_decrypted id r (err (reported e)) = (continues, r)

  unfoldable pub process_envelope :
      String → Receiver → Result String EncryptedEnvelope → Round × Receiver
  unfolding process_decrypted decrypt_message
  process_envelope id r (ok envelope) =
      process_decrypted id r (decrypt_message p envelope private_key)
  process_envelope id r (err e) = (continues, r)

  -- A message whose id was processed before is passed over.
  unfoldable pub handle_parsed : Receiver → Option (String × String) → Round × Receiver
  unfolding process_envelope
  handle_parsed r none = (continues, r)
  handle_parsed r (some (id, payload)) =
      let handled = process_envelope id r (from_str payload) in
      if contains id r.processed then (continues, r) else handled

  abbrev pub handle_line : String → Receiver → Round × Receiver
  handle_line line r = handle_parsed r (parse_line line)

  unfoldable pub round : Read → Receiver → Round × Receiver
  round cleared r = (stops, r)
  round times_out r = (continues, r)
  round fails r = (stops, r)
  round ends r = (stops, r)
  round writer_ended r = (continues, record r { writer_open = false })
  round acks_ended r = (continues, record r { acks_open = false })
  round (gives line) r = handle_line line r

  -- The loop, on what its reads give; `continues` where they have run out.
  unfoldable pub receive_loop : List Read → Receiver → Round × Receiver
  unfolding round
  receive_loop [] r = (continues, r)
  receive_loop (read ∷ reads) r =
      let (end, r₁) = round read r in let rest = receive_loop reads r₁ in go_on end r₁ rest
