-- ===== src/Tls/Clients.antt =====
-- The connectors of the clients: `build_tls_connector` of clients/sender_1/src/main.rs and of
-- clients/receiver_1/src/main.rs, and `load_tls_config` of clients/admin/src/main.rs.
use cipher_mq.Common.{
  ℕ, String, Bool, Option, none, some, List, [], ◌∷◌, if◌then◌else◌, Result, ok, err, ◌>>=◌,
  map_err, format,
}
use cipher_mq.Tls.{PrivateKeyDer, pkcs8, pkcs1, sec1, Rustls, collect, add_all}

pub record TlsConfig : Type 0 where
  pub certificate_path : String
  pub client_cert_path : String
  pub client_key_path : String
  pub check_hostname : Bool

-- Who checks the certificate of a server: rustls itself, or `NoHostnameVerifier`.
pub data ServerVerifier (Roots : Type 0) : Type 0 where
  by_roots : Roots → ServerVerifier Roots
  no_hostname : ServerVerifier Roots

pub record Connector (Roots Auth : Type 0) : Type 0 where
  pub verifier : ServerVerifier Roots
  pub auth : Auth

-- `with_context`: the text of an error is the context.
abbrev pub with_context : {A : Type 0} → String → Result String A → Result String A
with_context context r = map_err (λ _. context) r

-- `Vec::pop`
abbrev pub pop : {A : Type 0} → List A → Option A
pop [] = none
pop (x ∷ []) = some x
pop (x ∷ y ∷ ys) = pop (y ∷ ys)

-- The last key, or what is done where there is none.
abbrev pub last_or :
    List (List ℕ)
    → (List ℕ → PrivateKeyDer)
    → Result String PrivateKeyDer
    → Result String PrivateKeyDer
last_or keys kind otherwise = elim (pop keys) [ some key ↦ ok (kind key) | none ↦ otherwise ]

abbrev pub no_key : String → String
no_key path = format ("No private key found in " ∷ path ∷ [])

module _ {Cert Roots Verifier Config Auth : Type 0}
    (tls : Rustls Cert Roots Verifier Config Auth) where
  -- The roots of the file, by what opening it gives.
  unfoldable pub load_roots : Result String String → Result String Roots
  unfolding collect add_all
  load_roots ca_file =
      ca_file >>= λ text. collect (tls.certs text) >>= λ ca_certs. add_all tls tls.empty ca_certs

  unfoldable pub load_certs : Result String String → Result String (List Cert)
  unfolding collect
  load_certs cert_file = cert_file >>= λ text. collect (tls.certs text)

  -- `load_key` behind the keys of PKCS 8: the file is read again for the other kinds.
  unfoldable pub other_keys : String → Result String PrivateKeyDer
  unfolding collect
  other_keys path =
      let ec = tls.open_file path >>= λ text.
      collect (tls.ec_private_keys text) >>= λ keys. last_or keys sec1 (err (no_key path)) in
      tls.open_file path >>= λ text.
      collect (tls.rsa_private_keys text) >>= λ keys. last_or keys pkcs1 ec

  unfoldable pub load_key : String → Result String PrivateKeyDer
  unfolding collect other_keys
  load_key path = tls.open_file path >>= λ text.
      collect (tls.pkcs8_private_keys text) >>= λ keys. last_or keys pkcs8 (other_keys path)

  -- The sender's key, which is looked for in the same way.
  unfoldable pub sender_key : String → Result String PrivateKeyDer
  unfolding collect other_keys
  sender_key path =
      with_context (format ("Cannot open client key " ∷ path ∷ [])) (tls.open_file path) >>= λ text.
      collect (tls.pkcs8_private_keys text) >>= λ keys. last_or keys pkcs8 (other_keys path)

  -- The receiver's key: the first of PKCS 8.
  unfoldable pub receiver_key : String → Result String PrivateKeyDer
  unfolding collect
  receiver_key path =
      with_context (format ("Cannot open client key " ∷ path ∷ [])) (tls.open_file path) >>= λ text.
      collect (tls.pkcs8_private_keys text) >>= λ keys. elim keys [
        | [] ↦ err (format ("No PKCS8 private key found in " ∷ path ∷ []))
        | key ∷ _ ↦ ok (pkcs8 key)
      ]

  -- The configuration with its verifier.
  abbrev pub connect_with : TlsConfig → Roots → Auth → Connector Roots Auth
  connect_with cfg roots auth = record {
    verifier = if cfg.check_hostname then by_roots roots else no_hostname;
    auth = auth;
  }

  abbrev pub build_with :
      (String → Result String PrivateKeyDer) → TlsConfig → Result String (Connector Roots Auth)
  build_with key_of cfg =
      load_roots (
        with_context (format ("Cannot open CA cert " ∷ cfg.certificate_path ∷ []))
          (tls.open_file cfg.certificate_path))
      >>= λ roots.
          load_certs (
            with_context (format ("Cannot open client cert " ∷ cfg.client_cert_path ∷ []))
              (tls.open_file cfg.client_cert_path))
          >>= λ client_certs. key_of cfg.client_key_path >>= λ private_key.
              tls.with_client_auth_cert client_certs private_key >>= λ auth.
              ok (connect_with cfg roots auth)

  -- The sender's and the receiver's `build_tls_connector`, which differ in the key.
  unfoldable pub sender_connector : TlsConfig → Result String (Connector Roots Auth)
  unfolding load_roots load_certs sender_key
  sender_connector cfg = build_with sender_key cfg

  unfoldable pub receiver_connector : TlsConfig → Result String (Connector Roots Auth)
  unfolding load_roots load_certs receiver_key
  receiver_connector cfg = build_with receiver_key cfg

  -- The console's, on the paths of its configuration: it has no switch.
  unfoldable pub load_tls_config : String → String → String → Result String (Connector Roots Auth)
  unfolding load_roots load_certs load_key
  load_tls_config ca_cert_path client_cert_path client_key_path =
      load_roots (
        with_context (format ("opening CA cert: " ∷ ca_cert_path ∷ []))
          (tls.open_file ca_cert_path))
      >>= λ roots.
          load_certs (with_context "opening client cert" (tls.open_file client_cert_path))
          >>= λ client_certs. load_key client_key_path >>= λ key.
              with_context "building TLS config" (tls.with_client_auth_cert client_certs key)
              >>= λ auth. ok (record { verifier = by_roots roots; auth = auth })

  -- `verify_server_cert`
  unfoldable pub verify_server_cert :
      ServerVerifier Roots → Cert → List Cert → String → Result String (Unit {0})
  verify_server_cert (by_roots roots) cert intermediates server_name =
      tls.webpki roots cert intermediates server_name
  verify_server_cert no_hostname cert intermediates server_name = ok tt
