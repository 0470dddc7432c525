-- ===== src/Tests/Tls.antt =====
-- Runs of the TLS set-up (server/src/auth.rs, server/src/admin_server.rs, clients/sender_1/src/main.rs and
-- clients/receiver_1/src/main.rs) and of the names in certificates.
use cipher_mq.Common.{
  ◌≡◌, refl, inl, String, Bool, true, false, List, [], ◌∷◌, ◌==◌, if◌then◌else◌, Result, ok, err,
}
use cipher_mq.Certificates.{Attribute}
use cipher_mq.Tls.{PrivateKeyDer, Rustls}
use cipher_mq.Tls.Servers.{succeeded, configure_mtls, build_acceptor, build_acceptor-configure_mtls}
use cipher_mq.Tls.Clients.{TlsConfig, no_hostname, Connector, sender_connector, verify_server_cert}
use cipher_mq.Tls.Trust.{roots_for, verify-build_tls_connector}

-- Files that hold one certificate, their own text, and one key; the roots are a list, and a server is checked by
-- its being in it.
abbrev holds : List String → String → Bool
holds [] cert = false
holds (root ∷ roots) cert = if root == cert then true else holds roots cert

abbrev rustls : Rustls String (List String) (List String) (List String) PrivateKeyDer
rustls = record {
  open_file = λ path. ok path;
  certs = λ text. ok text ∷ [];
  pkcs8_private_keys = λ text. ok (1 ∷ []) ∷ [];
  rsa_private_keys = λ text. [];
  ec_private_keys = λ text. [];
  empty = [];
  add = λ roots cert. ok (cert ∷ roots);
  client_verifier = λ roots. ok roots;
  with_single_cert = λ roots certs key. ok certs;
  with_client_auth_cert = λ certs key. ok key;
  webpki = λ roots cert chain name. if holds roots cert then ok tt else err "unknown issuer";
}

build_acceptor-configure_mtls_example :
    succeeded (configure_mtls rustls "server.crt" "server.key" "ca.crt")
    ≡ succeeded (build_acceptor rustls "server.crt" "server.key" "ca.crt")
build_acceptor-configure_mtls_example =
    build_acceptor-configure_mtls rustls "server.crt" "server.key" "ca.crt"

abbrev unchecked : TlsConfig
unchecked = record {
  certificate_path = "ca.crt";
  client_cert_path = "client.crt";
  client_key_path = "client.key";
  check_hostname = false;
}

abbrev trusting : Connector (List String) PrivateKeyDer
trusting = record { verifier = no_hostname; auth = PrivateKeyDer.pkcs8 (1 ∷ []) }

-- A server with a certificate of somebody else is accepted.
verify-build_tls_connector_example :
    (roots : List String) × (roots_for rustls unchecked ≡ ok roots)
    × (verify_server_cert rustls trusting.verifier "stranger" [] "localhost" ≡ (
        if unchecked.check_hostname then rustls.webpki roots "stranger" [] "localhost" else ok tt))
unfolding sender_connector
verify-build_tls_connector_example =
    verify-build_tls_connector rustls unchecked trusting "stranger" [] "localhost" (inl refl)

abbrev subject : List (List Attribute)
subject =
    (record { is_common_name = false; as_str = ok "IR" }
      ∷ record { is_common_name = true; as_str = ok "alice" }
      ∷ [])
    ∷ []

abbrev parsed : String → Result String (List (List Attribute))
parsed text = ok subject

abbrev pem_of : String → Result String String
pem_of text = ok text
