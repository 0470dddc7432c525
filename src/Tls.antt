-- ===== src/Tls.antt =====
-- The TLS of the programs: what server/src/auth.rs, server/src/admin_server.rs and the clients load from the files of
-- the certificates and of the keys. `rustls`, `rustls_pemfile` and the files come from outside.
pub mod Servers
pub mod Clients
pub mod Trust
use cipher_mq.Common.{ℕ, String, List, [], ◌∷◌, Result, ok, err, ◌>>=◌}

-- `PrivateKeyDer`
pub data PrivateKeyDer : Type 0 where
  pkcs8 pkcs1 sec1 : List ℕ → PrivateKeyDer

-- `File::open` and what is in the file; the sections of a PEM file by their kinds, each read or an error; a store of
-- roots; the verifier of clients; and the configuration of each side, which checks that the key fits. `webpki` is
-- the check of a server's certificate, with its intermediates, against roots and the server's name.
pub record Rustls (Cert Roots Verifier Config Auth : Type 0) : Type 0 where
  pub open_file : String → Result String String
  pub certs : String → List (Result String Cert)
  pub pkcs8_private_keys : String → List (Result String (List ℕ))
  pub rsa_private_keys : String → List (Result String (List ℕ))
  pub ec_private_keys : String → List (Result String (List ℕ))
  pub empty : Roots
  pub add : Roots → Cert → Result String Roots
  pub client_verifier : Roots → Result String Verifier
  pub with_single_cert : Verifier → List Cert → PrivateKeyDer → Result String Config
  pub with_client_auth_cert : List Cert → PrivateKeyDer → Result String Auth
  pub webpki : Roots → Cert → List Cert → String → Result String (Unit {0})

-- `collect::<Result<Vec<_>, _>>()`: the first error ends it.
unfoldable pub collect : {A : Type 0} → List (Result String A) → Result String (List A)
collect [] = ok []
collect (r ∷ rs) = let rest = collect rs in r >>= λ x. rest >>= λ xs. ok (x ∷ xs)

module _ {Cert Roots Verifier Config Auth : Type 0}
    (tls : Rustls Cert Roots Verifier Config Auth) where
  -- `for cert in certs { roots.add(cert)? }`
  unfoldable pub add_all : Roots → List Cert → Result String Roots
  add_all roots [] = ok roots
  add_all roots (cert ∷ certs) = tls.add roots cert >>= λ more. add_all more certs
