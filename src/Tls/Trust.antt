-- ===== src/Tls/Trust.antt =====
-- Whom the clients trust, and which key they take: clients/sender_1/src/main.rs, clients/receiver_1/src/main.rs and
-- clients/admin/src/main.rs.
use cipher_mq.Common.{
  ℕ, ◌≡◌, ◌⊎◌, refl, inl, inr, String, List, [], ◌∷◌, if◌then◌else◌, Result, ok, format, arith,
  Result-cases,
}
use cipher_mq.Tls.{PrivateKeyDer, pkcs8, Rustls, collect}
use cipher_mq.Tls.Clients.{
  TlsConfig, Connector, with_context, load_roots, load_key, sender_key, receiver_key, connect_with,
  build_with, sender_connector, receiver_connector, verify_server_cert,
}

module _ {Cert Roots Verifier Config Auth : Type 0}
    (tls : Rustls Cert Roots Verifier Config Auth) where
  -- The roots that a client loads.
  abbrev pub roots_for : TlsConfig → Result String Roots
  roots_for cfg = load_roots tls (
      with_context (format ("Cannot open CA cert " ∷ cfg.certificate_path ∷ []))
        (tls.open_file cfg.certificate_path))

  built :
      (key_of : String → Result String PrivateKeyDer) (cfg : TlsConfig)
      (conn : Connector Roots Auth)
      → build_with tls key_of cfg ≡ ok conn
      → (roots : Roots) × (roots_for cfg ≡ ok roots) × (conn ≡ connect_with tls cfg roots conn.auth)
  built key_of cfg conn made = elim (Result-cases (roots_for cfg)) [
    | inr (e, failed) ↦ ground (arith, failed)
    | inl (roots, loaded) ↦ (roots, loaded, ground (arith, loaded))
  ]

  -- A sender or receiver that has its connector checks the certificates of servers against the roots in its file and
  -- the name, if its configuration says `check_hostname`; if not it accepts every certificate, of any issuer.
  pub verify-build_tls_connector :
      (cfg : TlsConfig) (conn : Connector Roots Auth) (cert : Cert) (intermediates : List Cert)
      (server_name : String)
      → (sender_connector tls cfg ≡ ok conn) ⊎ (receiver_connector tls cfg ≡ ok conn)
      → (roots : Roots) × (roots_for cfg ≡ ok roots)
        × (verify_server_cert tls conn.verifier cert intermediates server_name ≡ (
            if cfg.check_hostname then tls.webpki roots cert intermediates server_name else ok tt))
  unfolding sender_connector receiver_connector verify_server_cert
  verify-build_tls_connector cfg conn cert intermediates server_name made =
      let (roots, loaded, same) = made_by made in (roots, loaded, ground (arith, same))
    where
      made_by :
          (sender_connector tls cfg ≡ ok conn) ⊎ (receiver_connector tls cfg ≡ ok conn)
          → (roots : Roots) × (roots_for cfg ≡ ok roots)
            × (conn ≡ connect_with tls cfg roots conn.auth)
      made_by (inl e) = built (sender_key tls) cfg conn e
      made_by (inr e) = built (receiver_key tls) cfg conn e

  -- From a file with one key of PKCS 8 the sender, the receiver and the console take the same key.
  pub load_key-one :
      (path text : String) (key : List ℕ)
      → tls.open_file path ≡ ok text
      → collect (tls.pkcs8_private_keys text) ≡ ok (key ∷ [])
      → (sender_key tls path ≡ ok (pkcs8 key))
        × (receiver_key tls path ≡ ok (pkcs8 key))
        × (load_key tls path ≡ ok (pkcs8 key))
  unfolding sender_key receiver_key load_key
  load_key-one path text key opened one = rw (opened, one) (refl, refl, refl)
