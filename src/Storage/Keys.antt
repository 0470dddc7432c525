-- ===== src/Storage/Keys.antt =====
-- The public keys of server/src/storage.rs, encrypted in their rows. `base64` and `aes_gcm` come from
-- outside; bytes are numbers.
use mathlib.Core.Option
use cipher_mq.Common.{
  ℕ, zero, suc, ◌-◌, ◌≡◌, refl, ap, String, Option, none, some, List, [], ◌∷◌, ◌++◌, length, get,
  insert, Result, ok, err, ◌>>=◌, map_err, format, get-insert, ◌==◌, if◌then◌else◌, inl, inr,
  Bool-cases,
}
use cipher_mq.Storage.{StorageError, postgres, encryption_error, PublicKeyData}
use cipher_mq.Storage.Worker.{KeyRow, Worker}

abbrev pub Bytes : Type 0
Bytes = List ℕ

-- `BASE64` and the cipher under the configured key; the texts are those of the errors.
pub record Crypto : Type 0 where
  pub encode : Bytes → String
  pub decode : String → Result String Bytes
  pub encrypt : Bytes → Bytes → Result String Bytes
  pub decrypt : Bytes → Bytes → Result String Bytes

-- What is known of them: what was encoded can be decoded, and what was encrypted decrypted.
pub record CryptoLaws (crypto : Crypto) : Type 0 where
  pub decode-encode : (bytes : Bytes) → crypto.decode (crypto.encode bytes) ≡ ok bytes
  pub decrypt-encrypt :
      (nonce bytes sealed : Bytes)
      → crypto.encrypt nonce bytes ≡ ok sealed
      → crypto.decrypt nonce sealed ≡ ok bytes

-- `split_at`
abbrev pub split_at : ℕ → Bytes → Bytes × Bytes
split_at zero bytes = ([], bytes)
split_at (suc n) [] = ([], [])
split_at (suc n) (b ∷ bytes) = let (front, back) = split_at n bytes in (b ∷ front, back)

module _ (crypto : Crypto) where
  -- The row for a key; an encrypted text has at least the 16 bytes of its tag.
  unfoldable pub seal : Bytes → String → Result StorageError KeyRow
  seal nonce public_key =
      map_err (λ e. encryption_error (format ("Invalid public key: " ∷ e ∷ [])))
        (crypto.decode public_key)
      >>= λ bytes.
          map_err (λ e. encryption_error (format ("Encryption failed: " ∷ e ∷ [])))
            (crypto.encrypt nonce bytes)
          >>= λ sealed.
              let (ciphertext, tag) = split_at (length sealed - 16) sealed in
              ok (record {
                public_key_ciphertext = crypto.encode ciphertext;
                nonce = crypto.encode nonce;
                tag = crypto.encode tag;
              })

  -- The key of a row.
  unfoldable pub unseal : KeyRow → Result StorageError String
  unseal row =
      map_err (λ e. encryption_error (format ("Invalid ciphertext: " ∷ e ∷ [])))
        (crypto.decode row.public_key_ciphertext)
      >>= λ ciphertext.
          map_err (λ e. encryption_error (format ("Invalid nonce: " ∷ e ∷ [])))
            (crypto.decode row.nonce)
          >>= λ nonce.
              map_err (λ e. encryption_error (format ("Invalid tag: " ∷ e ∷ [])))
                (crypto.decode row.tag)
              >>= λ tag.
                  map_err (λ e. encryption_error (format ("Decryption failed: " ∷ e ∷ [])))
                    (crypto.decrypt nonce (ciphertext ++ tag))
                  >>= λ bytes. ok (crypto.encode bytes)

  -- `nonce` is the random one; the key is sealed before the statement is sent.
  unfoldable pub save_public_key :
      Option String → Bytes → PublicKeyData → Worker → Result StorageError (Unit {0}) × Worker
  unfolding seal
  save_public_key failure nonce key_data w = elim (seal nonce key_data.public_key) [
    | err e ↦ (err e, w)
    | ok row ↦ elim failure [
      | some e ↦ (err (postgres e), w)
      | none ↦ (ok tt, record w { public_keys = insert key_data.client_id row w.public_keys })
    ]
  ]

  -- `transpose` of the row's key.
  abbrev transposed : Option (Result StorageError String) → Result StorageError (Option String)
  transposed none = ok none
  transposed (some (ok key)) = ok (some key)
  transposed (some (err e)) = err e

  unfoldable pub get_public_key :
      Option String → String → Worker → Result StorageError (Option String)
  unfolding unseal
  get_public_key none client_id w = transposed (Option.map unseal (get client_id w.public_keys))
  get_public_key (some e) client_id w = err (postgres e)

split_at-append : (n : ℕ) (bytes : Bytes) → (split_at n bytes).0 ++ (split_at n bytes).1 ≡ bytes
split_at-append zero bytes = refl
split_at-append (suc n) [] = refl
split_at-append (suc n) (b ∷ bytes) = ap (λ bs. b ∷ bs) (split_at-append n bytes)

module _ (crypto : Crypto) (laws : CryptoLaws crypto) where
  abbrev row_of : Bytes → Bytes → KeyRow
  row_of nonce sealed =
      let (ciphertext, tag) = split_at (length sealed - 16) sealed in
      record {
        public_key_ciphertext = crypto.encode ciphertext;
        nonce = crypto.encode nonce;
        tag = crypto.encode tag;
      }

  unseal-row_of :
      (nonce bytes sealed : Bytes)
      → crypto.encrypt nonce bytes ≡ ok sealed
      → unseal crypto (row_of nonce sealed) ≡ ok (crypto.encode bytes)
  unfolding unseal
  unseal-row_of nonce bytes sealed encrypted =
      rw
        (
          laws.decode-encode (split_at (length sealed - 16) sealed).0,
          laws.decode-encode (split_at (length sealed - 16) sealed).1,
          laws.decode-encode nonce,
          split_at-append (length sealed - 16) sealed,
          laws.decrypt-encrypt nonce bytes sealed encrypted,
        )
        refl

  seal_lem :
      (nonce bytes sealed : Bytes) (public_key : String)
      → crypto.decode public_key ≡ ok bytes
      → crypto.encrypt nonce bytes ≡ ok sealed
      → seal crypto nonce public_key ≡ ok (row_of nonce sealed)
  unfolding seal
  seal_lem nonce bytes sealed public_key decoded encrypted = rw (decoded, encrypted) refl

  save_public_key_lem :
      (nonce bytes sealed : Bytes) (key_data : PublicKeyData) (w : Worker)
      → crypto.decode key_data.public_key ≡ ok bytes
      → crypto.encrypt nonce bytes ≡ ok sealed
      → (save_public_key crypto none nonce key_data w).1.public_keys
        ≡ insert key_data.client_id (row_of nonce sealed) w.public_keys
  unfolding save_public_key
  save_public_key_lem nonce bytes sealed key_data w decoded encrypted =
      rw (seal_lem nonce bytes sealed key_data.public_key decoded encrypted, save_public_key) refl

  -- A public key that is base64 and that the cipher encrypts is saved, and what is then read under the
  -- same client is the key in the canonical base64 of its bytes; under another client, what was read
  -- before.
  pub get_public_key-save_public_key :
      (nonce bytes sealed : Bytes) (key_data : PublicKeyData) (client_id : String) (w : Worker)
      → crypto.decode key_data.public_key ≡ ok bytes
      → crypto.encrypt nonce bytes ≡ ok sealed
      → get_public_key crypto none client_id (save_public_key crypto none nonce key_data w).1 ≡ (
          if key_data.client_id == client_id
          then ok (some (crypto.encode bytes))
          else get_public_key crypto none client_id w)
  unfolding get_public_key
  get_public_key-save_public_key nonce bytes sealed key_data client_id w decoded encrypted =
      let saved = save_public_key_lem nonce bytes sealed key_data w decoded encrypted in
      let found = get-insert client_id key_data.client_id (row_of nonce sealed) w.public_keys in
      elim (Bool-cases (key_data.client_id == client_id)) [
        | inl same ↦ rw (saved, found, same, unseal-row_of nonce bytes sealed encrypted) refl
        | inr other ↦ rw (saved, found, other) refl
      ]
