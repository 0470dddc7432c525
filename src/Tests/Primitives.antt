-- ===== src/Tests/Primitives.antt =====
-- Ciphers and encodings that keep the laws of what the clients call of other libraries.
use Prim.Native.Char.{Char, char, code, IsLt}
use Prim.Native.Nat.{Ordering, compare}
use mathlib.Core.Option
use cipher_mq.Common.{
  ℕ, ◌+◌, ◌≡◌, refl, String, Option, none, some, [], ◌∷◌, ◌++◌, Result, ok, err, arith,
}
use cipher_mq.Clients.Primitives.{Bytes, Primitives, Laws}
use cipher_mq.Tests.Layers.{write, read_from, read-write, tag_bytes, drop}

-- Which numbers are characters.
abbrev pub Both : Ordering → Ordering → Type 0
Both Ordering.lt o = IsLt o
Both Ordering.eq _ = ⊥
Both Ordering.gt _ = ⊥

abbrev pub Scalar : Ordering → Ordering → Ordering → Type 0
Scalar Ordering.lt _ _ = Unit
Scalar Ordering.eq o p = Both o p
Scalar Ordering.gt o p = Both o p

unfoldable pub is_scalar : (o p q : Ordering) → Option (Scalar o p q)
is_scalar Ordering.lt p q = some tt
is_scalar Ordering.eq Ordering.lt Ordering.lt = some tt
is_scalar Ordering.gt Ordering.lt Ordering.lt = some tt
is_scalar o p q = none

is_scalar_lem : (o p q : Ordering) (s : Scalar o p q) → is_scalar o p q ≡ some s
unfolding is_scalar
is_scalar_lem Ordering.lt p q s = refl
is_scalar_lem Ordering.eq Ordering.lt Ordering.lt s = refl
is_scalar_lem Ordering.gt Ordering.lt Ordering.lt s = refl
is_scalar_lem Ordering.eq Ordering.lt Ordering.eq s = elim s [ ]
is_scalar_lem Ordering.eq Ordering.lt Ordering.gt s = elim s [ ]
is_scalar_lem Ordering.eq Ordering.eq q s = elim s [ ]
is_scalar_lem Ordering.eq Ordering.gt q s = elim s [ ]
is_scalar_lem Ordering.gt Ordering.lt Ordering.eq s = elim s [ ]
is_scalar_lem Ordering.gt Ordering.lt Ordering.gt s = elim s [ ]
is_scalar_lem Ordering.gt Ordering.eq q s = elim s [ ]
is_scalar_lem Ordering.gt Ordering.gt q s = elim s [ ]

unfoldable pub char_of : ℕ → Option Char
char_of n = Option.map (char n) (is_scalar (compare n 55296) (compare 57343 n) (compare n 1114112))

char_of-code : (c : Char) → char_of (code c) ≡ some c
unfolding char_of
char_of-code (char n s) =
    rw (is_scalar_lem (compare n 55296) (compare 57343 n) (compare n 1114112) s) refl

unfoldable pub codes : String → Bytes
codes String.[] = []
codes (String.◌∷◌ c s) = code c ∷ codes s

unfoldable pub attach : Option Char → Result String String → Result String String
attach none s = err "no character"
attach (some c) (ok s) = ok (String.◌∷◌ c s)
attach (some c) (err e) = err e

unfoldable pub from_codes : Bytes → Result String String
from_codes [] = ok ""
from_codes (b ∷ bs) = attach (char_of b) (from_codes bs)

from_codes-codes : (s : String) → from_codes (codes s) ≡ ok s
unfolding from_codes codes attach
from_codes-codes String.[] = refl
from_codes-codes (String.◌∷◌ c s) = rw (char_of-code c, from_codes-codes s) refl

abbrev pub first : Bytes → ℕ
first [] = 0
first (b ∷ bs) = b

abbrev pub key_bytes : ℕ → Bytes
key_bytes n = n ∷ 1 ∷ 2 ∷ 3 ∷ 4 ∷ 5 ∷ 6 ∷ 7 ∷ 8 ∷ 9 ∷ 10 ∷ 11 ∷ 12 ∷ 13 ∷ 14 ∷ 15 ∷ tag_bytes

-- Keys that agree by their sum, and ciphers that put sixteen zeros in front.
abbrev pub primitives : Primitives
primitives = record {
  public_of = λ secret. key_bytes (first secret);
  diffie_hellman = λ secret public. key_bytes (first secret + first public);
  blake2b = λ bytes. bytes;
  box_encrypt = λ key nonce text. ok (tag_bytes ++ text);
  box_decrypt = λ key nonce sealed. ok (drop 16 sealed);
  chacha_encrypt = λ key nonce text. ok (tag_bytes ++ text);
  chacha_decrypt = λ key nonce sealed. ok (drop 16 sealed);
  encode = write;
  decode = read_from 0;
  as_bytes = codes;
  from_utf8 = from_codes;
}

pub laws : Laws primitives
unfolding drop
laws = record {
  length-public_of = λ secret. refl;
  diffie_hellman-public_of = λ a b. ground arith;
  box_decrypt-box_encrypt = λ key nonce text sealed h. ground arith;
  chacha_decrypt-chacha_encrypt = λ key nonce text sealed h. ground arith;
  decode-encode = read-write;
  from_utf8-as_bytes = from_codes-codes;
}
