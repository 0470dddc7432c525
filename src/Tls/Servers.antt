-- ===== src/Tls/Servers.antt =====
-- The acceptors of the server: `configure_mtls` of server/src/auth.rs and `build_acceptor` of
-- server/src/admin_server.rs.
use cipher_mq.Common.{
  Option, none, some, ◌≡◌, ◌∙◌, refl, sym, ap, ℕ, inl, inr, String, List, [], ◌∷◌, Result, ok, err,
  ◌>>=◌, map, arith, Result-cases,
}
use cipher_mq.Tls.{PrivateKeyDer, pkcs8, Rustls, collect, add_all}

-- `into_iter().next().ok_or(…)`
abbrev pub first_or : {A : Type 0} → String → List A → Result String A
first_or e [] = err e
first_or e (x ∷ xs) = ok x

module _ {Cert Roots Verifier Config Auth : Type 0}
    (tls : Rustls Cert Roots Verifier Config Auth) where
  unfoldable pub configure_mtls : String → String → String → Result String Config
  unfolding collect add_all
  configure_mtls cert_path key_path ca_cert_path = tls.open_file cert_path >>= λ cert_file.
      collect (tls.certs cert_file) >>= λ certs. tls.open_file key_path >>= λ key_file.
      collect (tls.pkcs8_private_keys key_file) >>= λ keys.
      first_or "No private key found" (map pkcs8 keys) >>= λ key.
      tls.open_file ca_cert_path >>= λ ca_file. collect (tls.certs ca_file) >>= λ ca_certs.
      add_all tls tls.empty ca_certs >>= λ root_store.
      tls.client_verifier root_store >>= λ verifier. tls.with_single_cert verifier certs key

  -- The loop that reads a root and adds it at once.
  unfoldable pub add_read : Roots → List (Result String Cert) → Result String Roots
  add_read roots [] = ok roots
  add_read roots (c ∷ cs) = c >>= λ cert. tls.add roots cert >>= λ more. add_read more cs

  unfoldable pub build_acceptor : String → String → String → Result String Config
  unfolding collect add_read
  build_acceptor cert key ca = tls.open_file cert >>= λ r. collect (tls.certs r) >>= λ certs.
      tls.open_file key >>= λ kr. collect (tls.pkcs8_private_keys kr) >>= λ keys.
      first_or "No private key" keys >>= λ key. tls.open_file ca >>= λ cr.
      add_read tls.empty (tls.certs cr) >>= λ roots.
      tls.client_verifier roots >>= λ verifier. tls.with_single_cert verifier certs (pkcs8 key)

  -- The roots that both ways give.
  roots_of : Roots → List (Result String Cert) → Result String Roots
  roots_of roots cs = collect cs >>= λ certs. add_all tls roots certs

abbrev pub succeeded : {A : Type 0} → Result String A → Option A
succeeded (ok a) = some a
succeeded (err e) = none

bind_right :
    {A B : Type 0} (m : Result String A) (f g : A → Result String B)
    → ((a : A) → succeeded (f a) ≡ succeeded (g a))
    → succeeded (m >>= f) ≡ succeeded (m >>= g)
bind_right (ok a) f g h = h a
bind_right (err e) f g h = refl

bind_left :
    {A B : Type 0} (m n : Result String A) (f : A → Result String B)
    → succeeded m ≡ succeeded n
    → succeeded (m >>= f) ≡ succeeded (n >>= f)
bind_left (ok a) (ok b) f h = ground (arith, h)
bind_left (ok a) (err e) f h = ground arith
bind_left (err e) (ok b) f h = ground arith
bind_left (err e) (err d) f h = refl

bind_assoc :
    {A B C : Type 0} (m : Result String A) (f : A → Result String B) (g : B → Result String C)
    → ((m >>= f) >>= g) ≡ (m >>= λ a. f a >>= g)
bind_assoc (ok a) f g = refl
bind_assoc (err e) f g = refl

module _ {Cert Roots Verifier Config Auth : Type 0}
    (tls : Rustls Cert Roots Verifier Config Auth) where
  add_read-collect :
      (roots : Roots) (cs : List (Result String Cert))
      → succeeded (roots_of tls roots cs) ≡ succeeded (add_read tls roots cs)
  unfolding collect add_all add_read roots_of
  add_read-collect roots [] = refl
  add_read-collect roots (err e ∷ cs) = refl
  add_read-collect roots (ok cert ∷ cs) = elim (Result-cases (tls.add roots cert)) [
    | inl (more, added) ↦ elim (Result-cases (collect cs)) [
      | inl (certs, read) ↦ rw (read, added) (rw read at (add_read-collect more cs))
      | inr (e, unread) ↦ rw (unread, added) (rw unread at (add_read-collect more cs))
    ]
    | inr (e, refused) ↦ elim (Result-cases (collect cs)) [
      | inl (certs, read) ↦ rw (read, refused) refl
      | inr (d, unread) ↦ rw (unread, refused) refl
    ]
  ]

  -- What follows the key in both.
  same_end :
      (certs : List Cert) (key : PrivateKeyDer) (ca_path : String)
      → succeeded (
          tls.open_file ca_path >>= λ ca_file. collect (tls.certs ca_file) >>= λ ca_certs.
          add_all tls tls.empty ca_certs >>= λ roots.
          tls.client_verifier roots >>= λ verifier. tls.with_single_cert verifier certs key)
        ≡ succeeded (
            tls.open_file ca_path >>= λ ca_file.
            add_read tls tls.empty (tls.certs ca_file) >>= λ roots.
            tls.client_verifier roots >>= λ verifier. tls.with_single_cert verifier certs key)
  unfolding roots_of
  same_end certs key ca_path = bind_right (tls.open_file ca_path) _ _ λ ca_file.
      let make : Roots → Result String Config = λ roots.
        tls.client_verifier roots >>= λ verifier. tls.with_single_cert verifier certs key in
      ap succeeded (sym (bind_assoc (collect (tls.certs ca_file)) (add_all tls tls.empty) make))
      ∙ bind_left (roots_of tls tls.empty (tls.certs ca_file))
          (add_read tls tls.empty (tls.certs ca_file)) make
          (add_read-collect tls.empty (tls.certs ca_file))

  with_keys :
      (certs : List Cert) (keys : List (List ℕ)) (ca_path : String)
      → succeeded (
          first_or "No private key found" (map pkcs8 keys) >>= λ key.
          tls.open_file ca_path >>= λ ca_file. collect (tls.certs ca_file) >>= λ ca_certs.
          add_all tls tls.empty ca_certs >>= λ roots.
          tls.client_verifier roots >>= λ verifier. tls.with_single_cert verifier certs key)
        ≡ succeeded (
            first_or "No private key" keys >>= λ key. tls.open_file ca_path >>= λ ca_file.
            add_read tls tls.empty (tls.certs ca_file) >>= λ roots.
            tls.client_verifier roots >>= λ verifier.
            tls.with_single_cert verifier certs (pkcs8 key))
  with_keys certs [] ca_path = refl
  with_keys certs (key ∷ keys) ca_path = same_end certs (pkcs8 key) ca_path

  -- The acceptor of the clients and that of the admins are made alike of the same files: one is made exactly when
  -- the other is, with the same configuration, though the errors differ.
  pub build_acceptor-configure_mtls :
      (cert_path key_path ca_path : String)
      → succeeded (configure_mtls tls cert_path key_path ca_path)
        ≡ succeeded (build_acceptor tls cert_path key_path ca_path)
  unfolding configure_mtls build_acceptor
  build_acceptor-configure_mtls cert_path key_path ca_path =
      bind_right (tls.open_file cert_path) _ _ λ r. bind_right (collect (tls.certs r)) _ _ λ certs.
        bind_right (tls.open_file key_path) _ _ λ kr.
          bind_right (collect (tls.pkcs8_private_keys kr)) _ _ λ keys. with_keys certs keys ca_path
