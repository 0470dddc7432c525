-- ===== src/Makers/Certificates/Every.antt =====
-- What the clients find in their directories when
-- create_ca_key/Rust_CA_Maker_ECDSA_P-384_Multi_Client/src/main.rs is through.
use cipher_mq.Common.{
  ℕ, ◌≡◌, ◌∙◌, ◌+◌, refl, sym, ap, subst, inl, inr, String, true, false, Option, some, ◌==◌, List,
  [], ◌∷◌, get, insert, get-insert, eq_iff, eq_refl, format, Result, ok, err, arith, Option-cases,
  Bool-cases, All, contains,
}
use cipher_mq.Makers.{Files, Action, write, create_dir_all, and_then}
use cipher_mq.Makers.Certificates.{
  Rcgen, ca_params, server_params, client_params, using, write_pair, make_client, make_clients,
  make_certificates, maker,
}
use cipher_mq.Makers.Certificates.Paths.{
  dest_dir, paths, IsApart, ca-IsApart, key-IsApart, crt-IsApart, ca_copy-IsApart,
}
use cipher_mq.Makers.Certificates.Clients.{get-make_client}
use cipher_mq.Makers.Certificates.Kept.{make_client-Keeps, make_clients-Keeps}

-- Clients that do not bear a name leave the files apart that do not belong to it.
absent-IsApart :
    (p cn : String) (cns : List String)
    → ((other : String) → (other == cn) ≡ false → IsApart p (paths other))
    → contains cn cns ≡ false
    → All (λ other. IsApart p (paths other)) cns
absent-IsApart p cn [] h absent = tt
absent-IsApart p cn (other ∷ cns) h absent =
    (h other (ground (arith, absent)), absent-IsApart p cn cns h (ground (arith, absent)))

-- A step that `?` lets go on, and the rest.
and_then-ok :
    (r : Result String (Unit {0}) × Files) (next : Action) (files' : Files)
    → and_then r next ≡ (ok tt, files')
    → (between : Files) × (r ≡ (ok tt, between)) × (next between ≡ (ok tt, files'))
unfolding and_then
and_then-ok (ok tt, files) next files' h = (files, refl, h)
and_then-ok (err e, files) next files' h = absurd (ground (arith, h))

using-ok :
    {A : Type 0} (r : Result String A) (next : A → Action) (files files' : Files)
    → using r next files ≡ (ok tt, files')
    → (a : A) × (r ≡ ok a) × (next a files ≡ (ok tt, files'))
unfolding using
using-ok (ok a) next files files' h = (a, refl, h)
using-ok (err e) next files files' h = absurd (ground (arith, h))

write-ok :
    (refuse : String → Option String) (path text : String) (files files' : Files)
    → write refuse path text files ≡ (ok tt, files')
    → files' ≡ insert path text files
unfolding write
write-ok refuse path text files files' h = elim (Option-cases (refuse path)) [
  | inl allowed ↦ ground (arith, h, allowed)
  | inr (e, refused) ↦ absurd (ground (arith, h, refused))
]

get-write_pair :
    {Key Cert : Type 0} (rcgen : Rcgen Key Cert) (refuse : String → Option String)
    (key_path cert_path : String) (key : Key) (cert : Cert) (files files' : Files)
    → write_pair rcgen refuse key_path cert_path key cert files ≡ (ok tt, files')
    → get cert_path files' ≡ some (rcgen.pem cert)
get-write_pair rcgen refuse key_path cert_path key cert files files' h =
    let (between, _, last) =
      and_then-ok (write refuse key_path (rcgen.serialize_pem key) files) _ files' h in
    rw (write-ok refuse cert_path (rcgen.pem cert) between files' last)
      (ground (arith, get-insert cert_path cert_path (rcgen.pem cert) between, eq_refl cert_path))

get-write_pair_other :
    {Key Cert : Type 0} (rcgen : Rcgen Key Cert) (refuse : String → Option String)
    (p key_path cert_path : String) (key : Key) (cert : Cert) (files files' : Files)
    → (key_path == p) ≡ false
    → (cert_path == p) ≡ false
    → write_pair rcgen refuse key_path cert_path key cert files ≡ (ok tt, files')
    → get p files' ≡ get p files
get-write_pair_other rcgen refuse p key_path cert_path key cert files files' k c h =
    let (between, first, last) =
      and_then-ok (write refuse key_path (rcgen.serialize_pem key) files) _ files' h in
    rw
      (
        write-ok refuse cert_path (rcgen.pem cert) between files' last,
        write-ok refuse key_path (rcgen.serialize_pem key) files between first,
      )
      (ground (
        arith,
        k,
        c,
        get-insert p cert_path (rcgen.pem cert) (insert key_path (rcgen.serialize_pem key) files),
        get-insert p key_path (rcgen.serialize_pem key) files,
      ))

module _ {Key Cert : Type 0} (rcgen : Rcgen Key Cert) (refuse : String → Option String) where
  -- What a client has in its directory: the text `root`, a key that was drawn, and a certificate for it.
  abbrev pub Has : Cert → Key → Option String → String → Files → Type 0
  Has ca_cert ca_key root cn files =
      (draw : ℕ) × (key : Key) × (cert : Cert) × (rcgen.generate draw ≡ ok key)
      × (rcgen.signed_by (client_params cn) key ca_cert ca_key ≡ ok cert)
      × (get (format (dest_dir cn ∷ "/client.key" ∷ [])) files ≡ some (rcgen.serialize_pem key))
      × (get (format (dest_dir cn ∷ "/client.crt" ∷ [])) files ≡ some (rcgen.pem cert))
      × (get (format (dest_dir cn ∷ "/ca.crt" ∷ [])) files ≡ root)

  -- The clients behind a client of another name do not touch its directory.
  make_clients-Has :
      (ca_cert : Cert) (ca_key : Key) (root : Option String) (cn : String) (draw : ℕ)
      (cns : List String) (files : Files)
      → contains cn cns ≡ false
      → Has ca_cert ca_key root cn files
      → Has ca_cert ca_key root cn (make_clients rcgen refuse ca_cert ca_key draw cns files).1
  make_clients-Has ca_cert ca_key root cn draw cns files absent
        (n, key, cert, drawn, signed, k, c, r) =
      let kept : (p : String)
          → ((other : String) → (other == cn) ≡ false → IsApart p (paths other))
          → get p (make_clients rcgen refuse ca_cert ca_key draw cns files).1 ≡ get p files =
        λ p h.
          (make_clients-Keeps p refuse rcgen ca_cert ca_key draw cns
              (absent-IsApart p cn cns h absent)).same
            files in
      (
        n,
        key,
        cert,
        drawn,
        signed,
        kept _ (λ other. key-IsApart other cn) ∙ k,
        kept _ (λ other. crt-IsApart other cn) ∙ c,
        kept _ (λ other. ca_copy-IsApart other cn) ∙ r,
      )

  make_clients-all_Has :
      (ca_cert : Cert) (ca_key : Key) (cn : String) (draw : ℕ) (cns : List String)
      (files files' : Files)
      → make_clients rcgen refuse ca_cert ca_key draw cns files ≡ (ok tt, files')
      → contains cn cns ≡ true
      → Has ca_cert ca_key (get "certs/ca.crt" files) cn files'
  unfolding make_clients and_then
  make_clients-all_Has ca_cert ca_key cn draw [] files files' made asked =
      absurd (ground (arith, asked))
  make_clients-all_Has ca_cert ca_key cn draw (client_cn ∷ cns) files files' made asked =
      let (between, step, rest) =
        and_then-ok (make_client rcgen refuse ca_cert ca_key draw client_cn files) _ files' made in
      elim (Bool-cases (contains cn cns)) [
        | inl later ↦
            let kept : get "certs/ca.crt" between ≡ get "certs/ca.crt" files =
              sym (ap (λ r. get "certs/ca.crt" r.1) step)
              ∙ (make_client-Keeps "certs/ca.crt" refuse rcgen ca_cert ca_key draw client_cn
                    (ca-IsApart client_cn)).same
                  files in
            subst (λ root. Has ca_cert ca_key root cn files') kept
              (make_clients-all_Has ca_cert ca_key cn (draw + 1) cns between files' rest later)
        | inr last ↦
            let same : client_cn ≡ cn = ground (arith, asked, last, eq_iff client_cn cn) in
            let (key, cert, drawn, signed, k, c, r) =
              get-make_client rcgen refuse ca_cert ca_key draw client_cn files between step in
            subst (λ f. Has ca_cert ca_key (get "certs/ca.crt" files) cn f) (ap (λ r. r.1) rest)
              (make_clients-Has ca_cert ca_key (get "certs/ca.crt" files) cn (draw + 1) cns between
                last
                (subst (λ n. Has ca_cert ca_key (get "certs/ca.crt" files) n between) same
                  (draw, key, cert, drawn, signed, k, c, r)))
      ]

  make_certificates-every_Has :
      (client_cns : List String) (cn : String) (files files' : Files)
      → make_certificates rcgen refuse client_cns files ≡ (ok tt, files')
      → contains cn client_cns ≡ true
      → (ca_key : Key) × (ca_cert : Cert) × (rcgen.self_signed ca_params ca_key ≡ ok ca_cert)
        × Has ca_cert ca_key (some (rcgen.pem ca_cert)) cn files'
  unfolding make_certificates
  make_certificates-every_Has client_cns cn files files' made asked =
      let (f₁, _, h₁) = and_then-ok (create_dir_all refuse "certs" files) _ files' made in
      let (f₂, _, h₂) = and_then-ok (create_dir_all refuse "src/client/certs" f₁) _ files' h₁ in
      let (ca_key, _, h₃) = using-ok (rcgen.generate 0) _ f₂ files' h₂ in
      let (ca_cert, signed, h₄) = using-ok (rcgen.self_signed ca_params ca_key) _ f₂ files' h₃ in
      let (f₃, pair, h₅) =
        and_then-ok (write_pair rcgen refuse "certs/ca.key" "certs/ca.crt" ca_key ca_cert f₂) _
          files' h₄ in
      let (server_key, _, h₆) = using-ok (rcgen.generate 1) _ f₃ files' h₅ in
      let (server_cert, _, h₇) =
        using-ok (rcgen.signed_by server_params server_key ca_cert ca_key) _ f₃ files' h₆ in
      let (f₄, pair', h₈) =
        and_then-ok
          (write_pair rcgen refuse "certs/server.key" "certs/server.crt" server_key server_cert f₃)
          _ files' h₇ in
      (
        ca_key,
        ca_cert,
        signed,
        subst (λ root. Has ca_cert ca_key root cn files')
            (get-write_pair_other rcgen refuse "certs/ca.crt" "certs/server.key" "certs/server.crt"
                server_key server_cert f₃ f₄ refl refl pair'
              ∙ get-write_pair rcgen refuse "certs/ca.key" "certs/ca.crt" ca_key ca_cert f₂ f₃ pair)
            (make_clients-all_Has ca_cert ca_key cn 2 client_cns f₄ files' h₈ asked),
      )

  -- A run that succeeds on its arguments leaves every client that it names, in the directory of the client, the
  -- certificate that the authority signed for itself, a key that was drawn, and a certificate for this key under the
  -- name of the client that the authority signed.
  pub maker-every_Has :
      (client_cns : List String) (cn : String) (files files' : Files)
      → maker rcgen refuse client_cns files ≡ some (ok tt, files')
      → contains cn client_cns ≡ true
      → (ca_key : Key) × (ca_cert : Cert) × (rcgen.self_signed ca_params ca_key ≡ ok ca_cert)
        × Has ca_cert ca_key (some (rcgen.pem ca_cert)) cn files'
  unfolding maker
  maker-every_Has [] cn files files' made asked = absurd (ground (arith, asked))
  maker-every_Has (client_cn ∷ client_cns) cn files files' made asked =
      make_certificates-every_Has (client_cn ∷ client_cns) cn files files' (ground (arith, made))
        asked
