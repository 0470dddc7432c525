-- ===== src/Makers/Certificates/Clients.antt =====
-- What a client finds in the directory that create_ca_key/Rust_CA_Maker_ECDSA_P-384_Multi_Client/src/main.rs makes
-- for it.
use cipher_mq.Common.{
  ℕ, ◌≡◌, ◌∙◌, refl, inl, inr, String, false, Option, some, ◌==◌, [], ◌∷◌, get, insert, get-insert,
  eq_refl, eq_comm, format, ok, arith, Option-cases, Result-cases,
}
use cipher_mq.Makers.{Files, Action, write, copy, create_dir_all, and_then}
use cipher_mq.Makers.Certificates.{Rcgen, client_params, using, ◌then_do◌, make_client}
use cipher_mq.Makers.Certificates.Paths.{
  client_dir, dest_dir, differs_behind, ca_differs_client, dirs_differ,
}

module _ (refuse : String → Option String) where
  -- What is written for a client once it has its key and its certificate.
  abbrev store :
      String → String → String → String → String → String → String → String → String → Action
  store ck cc ca dir dca dcrt dkey key cert =
      (write refuse ck key then_do write refuse cc cert)
      then_do create_dir_all refuse dir
      then_do copy refuse ca dca
      then_do copy refuse cc dcrt
      then_do copy refuse ck dkey

  get-store :
      (ck cc ca dir dca dcrt dkey key cert : String) (files files' : Files)
      → (ck == ca) ≡ false
      → (cc == ca) ≡ false
      → (cc == ck) ≡ false
      → (dca == cc) ≡ false
      → (dca == ck) ≡ false
      → (dcrt == ck) ≡ false
      → (dkey == dcrt) ≡ false
      → (dkey == dca) ≡ false
      → (dcrt == dca) ≡ false
      → store ck cc ca dir dca dcrt dkey key cert files ≡ (ok tt, files')
      → (get dkey files' ≡ some key)
        × (get dcrt files' ≡ some cert)
        × (get dca files' ≡ get ca files)
  unfolding write copy create_dir_all and_then
  get-store ck cc ca dir dca dcrt dkey key cert files files' a b c d e f g h i made =
      let f₁ = insert ck key files in
      let f₂ = insert cc cert f₁ in
      let kept : get ca f₂ ≡ get ca files =
        ground (arith, a, b, get-insert ca ck key files, get-insert ca cc cert f₁) in
      elim (Option-cases (get ca files)) [
        | inl missing ↦ absurd (ground (arith, made, kept, missing))
        | inr (root, found) ↦
            let f₃ = insert dca root f₂ in
            let f₄ = insert dcrt cert f₃ in
            let crt : get cc f₃ ≡ some cert =
              ground (arith, d, get-insert cc dca root f₂, get-insert cc cc cert f₁, eq_refl cc) in
            let stored : get ck f₄ ≡ some key = ground (
              arith,
              c,
              e,
              f,
              get-insert ck dcrt cert f₃,
              get-insert ck dca root f₂,
              get-insert ck cc cert f₁,
              get-insert ck ck key files,
              eq_refl ck,
            ) in
            let last : files' ≡ insert dkey key f₄ =
              ground (arith, made, kept, found, crt, stored) in
            rw last (
              ground (arith, get-insert dkey dkey key f₄, eq_refl dkey),
              ground (
                arith,
                g,
                get-insert dcrt dkey key f₄,
                get-insert dcrt dcrt cert f₃,
                eq_refl dcrt,
              ),
              ground (
                arith,
                h,
                i,
                found,
                get-insert dca dkey key f₄,
                get-insert dca dcrt cert f₃,
                get-insert dca dca root f₂,
                eq_refl dca,
              ),
            )
      ]

module _ {Key Cert : Type 0} (rcgen : Rcgen Key Cert) (refuse : String → Option String) where
  -- The paths of the program keep its files apart.
  in_client_dir :
      (cn : String) (key : Key) (cert : Cert) (files files' : Files)
      → store refuse
          (format (client_dir cn ∷ "/client.key" ∷ []))
          (format (client_dir cn ∷ "/client.crt" ∷ []))
          "certs/ca.crt"
          (dest_dir cn)
          (format (dest_dir cn ∷ "/ca.crt" ∷ []))
          (format (dest_dir cn ∷ "/client.crt" ∷ []))
          (format (dest_dir cn ∷ "/client.key" ∷ []))
          (rcgen.serialize_pem key)
          (rcgen.pem cert)
          files
        ≡ (ok tt, files')
      → (get (format (dest_dir cn ∷ "/client.key" ∷ [])) files' ≡ some (rcgen.serialize_pem key))
        × (get (format (dest_dir cn ∷ "/client.crt" ∷ [])) files' ≡ some (rcgen.pem cert))
        × (get (format (dest_dir cn ∷ "/ca.crt" ∷ [])) files' ≡ get "certs/ca.crt" files)
  in_client_dir cn key cert files files' made =
      get-store refuse _ _ _ (dest_dir cn) _ _ _ (rcgen.serialize_pem key) (rcgen.pem cert) files
        files' (ca_differs_client cn "/client.key") (ca_differs_client cn "/client.crt")
        (differs_behind (client_dir cn) "/client.crt" "/client.key" refl)
        (eq_comm _ _ ∙ dirs_differ cn cn "/client.crt" "/ca.crt")
        (eq_comm _ _ ∙ dirs_differ cn cn "/client.key" "/ca.crt")
        (eq_comm _ _ ∙ dirs_differ cn cn "/client.key" "/client.crt")
        (differs_behind (dest_dir cn) "/client.key" "/client.crt" refl)
        (differs_behind (dest_dir cn) "/client.key" "/ca.crt" refl)
        (differs_behind (dest_dir cn) "/client.crt" "/ca.crt" refl) made

  -- A client whose files are made finds in its own directory the certificate of the authority, a key that was drawn
  -- for it, and a certificate for that key which the authority signed under the name of the client.
  pub get-make_client :
      (ca_cert : Cert) (ca_key : Key) (draw : ℕ) (client_cn : String) (files files' : Files)
      → make_client rcgen refuse ca_cert ca_key draw client_cn files ≡ (ok tt, files')
      → (key : Key) × (cert : Cert) × (rcgen.generate draw ≡ ok key)
        × (rcgen.signed_by (client_params client_cn) key ca_cert ca_key ≡ ok cert)
        × (get (format (dest_dir client_cn ∷ "/client.key" ∷ [])) files'
            ≡ some (rcgen.serialize_pem key))
        × (get (format (dest_dir client_cn ∷ "/client.crt" ∷ [])) files' ≡ some (rcgen.pem cert))
        × (get (format (dest_dir client_cn ∷ "/ca.crt" ∷ [])) files' ≡ get "certs/ca.crt" files)
  unfolding make_client write copy create_dir_all and_then using
  get-make_client ca_cert ca_key draw client_cn files files' made =
      elim (Result-cases (rcgen.generate draw)) [
        | inr (e, failed) ↦ absurd (ground (arith, failed))
        | inl (key, drawn) ↦
            elim (Result-cases (rcgen.signed_by (client_params client_cn) key ca_cert ca_key)) [
              | inr (e, failed) ↦ absurd (ground (arith, drawn, failed))
              | inl (cert, signed) ↦ elim (Option-cases (refuse (client_dir client_cn))) [
                | inr (e, refused) ↦ absurd (ground (arith, refused))
                | inl allowed ↦
                    let (stored_key, stored_cert, root) =
                      in_client_dir client_cn key cert files files'
                        (ground (arith, made, drawn, signed, allowed)) in
                    (key, cert, drawn, signed, stored_key, stored_cert, root)
              ]
            ]
      ]
