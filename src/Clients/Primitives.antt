-- ===== src/Clients/Primitives.antt =====
-- What the clients call of other libraries to encrypt and decrypt: `x25519_dalek`, `blake2`,
-- `xsalsa20poly1305`, `chacha20poly1305`, `base64` and the encoding of texts. Bytes are numbers.
use cipher_mq.Common.{
  ℕ, zero, suc, ◌≡◌, refl, String, List, [], ◌∷◌, ◌++◌, length, Result, ok, arith,
}

abbrev pub Bytes : Type 0
Bytes = List ℕ

-- The ciphers take a key, a nonce and a text; the texts are those of the errors.
pub record Primitives : Type 0 where
  pub public_of : Bytes → Bytes
  pub diffie_hellman : Bytes → Bytes → Bytes
  pub blake2b : Bytes → Bytes
  pub box_encrypt : Bytes → Bytes → Bytes → Result String Bytes
  pub box_decrypt : Bytes → Bytes → Bytes → Result String Bytes
  pub chacha_encrypt : Bytes → Bytes → Bytes → Result String Bytes
  pub chacha_decrypt : Bytes → Bytes → Bytes → Result String Bytes
  pub encode : Bytes → String
  pub decode : String → Result String Bytes
  pub as_bytes : String → Bytes
  pub from_utf8 : Bytes → Result String String

-- What is known of them: public keys have 32 bytes, both sides of an exchange agree, what was
-- encrypted under a key and a nonce is decrypted under them, and what was encoded is decoded.
pub record Laws (p : Primitives) : Type 0 where
  pub length-public_of : (secret : Bytes) → length (p.public_of secret) ≡ 32
  pub diffie_hellman-public_of :
      (a b : Bytes) → p.diffie_hellman a (p.public_of b) ≡ p.diffie_hellman b (p.public_of a)
  pub box_decrypt-box_encrypt :
      (key nonce text sealed : Bytes)
      → p.box_encrypt key nonce text ≡ ok sealed
      → p.box_decrypt key nonce sealed ≡ ok text
  pub chacha_decrypt-chacha_encrypt :
      (key nonce text sealed : Bytes)
      → p.chacha_encrypt key nonce text ≡ ok sealed
      → p.chacha_decrypt key nonce sealed ≡ ok text
  pub decode-encode : (bytes : Bytes) → p.decode (p.encode bytes) ≡ ok bytes
  pub from_utf8-as_bytes : (text : String) → p.from_utf8 (p.as_bytes text) ≡ ok text

-- `split_at`, and `[..n]` where there are so many.
unfoldable pub split_at : ℕ → Bytes → Bytes × Bytes
split_at zero bytes = ([], bytes)
split_at (suc n) [] = ([], [])
split_at (suc n) (b ∷ bytes) = let (front, back) = split_at n bytes in (b ∷ front, back)

abbrev pub first_24 : Bytes → Bytes
first_24 bytes = (split_at 24 bytes).0

pub split_at-append : (front back : Bytes) → split_at (length front) (front ++ back) ≡ (front, back)
unfolding split_at
split_at-append [] back = refl
split_at-append (b ∷ front) back = ground (arith, split_at-append front back)
