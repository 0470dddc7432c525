-- ===== src/Makers/Certificates.antt =====
-- create_ca_key/Rust_CA_Maker_ECDSA_P-384_Multi_Client/src/main.rs: the certificates of the authority, of the server and
-- of the clients, and the files that they are written to. `rcgen` comes from outside.
pub mod Paths
pub mod Clients
pub mod Kept
pub mod Every
use cipher_mq.Common.{
  ℕ, ◌+◌, String, Bool, true, false, Option, none, some, List, [], ◌∷◌, Result, ok, err, format,
}
use cipher_mq.Makers.{Files, Action, write, copy, create_dir_all, and_then}

-- What the program sets of `CertificateParams`; a certificate is valid from now on for so many days.
pub record CertificateParams : Type 0 where
  pub is_ca : Bool
  pub common_name : String
  pub subject_alt_names : List String
  pub days : ℕ

-- The keys that are drawn, in their order, and what is made of them.
pub record Rcgen (Key Cert : Type 0) : Type 0 where
  pub generate : ℕ → Result String Key
  pub serialize_pem : Key → String
  pub self_signed : CertificateParams → Key → Result String Cert
  pub signed_by : CertificateParams → Key → Cert → Key → Result String Cert
  pub pem : Cert → String

abbrev pub ca_params : CertificateParams
ca_params = record { is_ca = true; common_name = "CipherMQ"; subject_alt_names = []; days = 3650 }

abbrev pub server_params : CertificateParams
server_params = record {
  is_ca = false;
  common_name = "localhost";
  subject_alt_names = "localhost" ∷ [];
  days = 365;
}

abbrev pub client_params : String → CertificateParams
client_params client_cn = record {
  is_ca = false;
  common_name = client_cn;
  subject_alt_names = [];
  days = 365;
}

-- `?` on a value.
unfoldable pub using : {A : Type 0} → Result String A → (A → Action) → Action
using (ok a) next files = next a files
using (err e) next files = (err e, files)

infixr 4 ◌then_do◌
abbrev pub ◌then_do◌ : Action → Action → Action
(first then_do second) files = and_then (first files) second

abbrev pub done : Action
done files = (ok tt, files)

module _ {Key Cert : Type 0} (rcgen : Rcgen Key Cert) (refuse : String → Option String) where
  -- A key and its certificate, and their paths.
  abbrev pub write_pair : String → String → Key → Cert → Action
  write_pair key_path cert_path key cert =
      write refuse key_path (rcgen.serialize_pem key)
      then_do write refuse cert_path (rcgen.pem cert)

  -- The body of the loop over the clients; `draw` counts the keys.
  unfoldable pub make_client : Cert → Key → ℕ → String → Action
  unfolding write copy create_dir_all and_then using
  make_client ca_cert ca_key draw client_cn =
      let client_dir = format ("certs/clients/" ∷ client_cn ∷ []) in
      let client_dest_dir = format ("src/client/certs/" ∷ client_cn ∷ []) in
      let crt = format (client_dir ∷ "/client.crt" ∷ []) in
      let key = format (client_dir ∷ "/client.key" ∷ []) in
      create_dir_all refuse client_dir
      then_do using (rcgen.generate draw) λ client_key.
        using (rcgen.signed_by (client_params client_cn) client_key ca_cert ca_key) λ client_cert.
          write_pair key crt client_key client_cert
          then_do create_dir_all refuse client_dest_dir
          then_do copy refuse "certs/ca.crt" (format (client_dest_dir ∷ "/ca.crt" ∷ []))
          then_do copy refuse crt (format (client_dest_dir ∷ "/client.crt" ∷ []))
          then_do copy refuse key (format (client_dest_dir ∷ "/client.key" ∷ []))

  unfoldable pub make_clients : Cert → Key → ℕ → List String → Action
  unfolding make_client
  make_clients ca_cert ca_key draw [] = done
  make_clients ca_cert ca_key draw (client_cn ∷ client_cns) =
      make_client ca_cert ca_key draw client_cn
      then_do make_clients ca_cert ca_key (draw + 1) client_cns

  -- What follows the check of the arguments.
  unfoldable pub make_certificates : List String → Action
  unfolding make_clients write create_dir_all using
  make_certificates client_cns =
      create_dir_all refuse "certs"
      then_do create_dir_all refuse "src/client/certs"
      then_do using (rcgen.generate 0) λ ca_key.
        using (rcgen.self_signed ca_params ca_key) λ ca_cert.
          write_pair "certs/ca.key" "certs/ca.crt" ca_key ca_cert
          then_do using (rcgen.generate 1) λ server_key.
            using (rcgen.signed_by server_params server_key ca_cert ca_key) λ server_cert.
              write_pair "certs/server.key" "certs/server.crt" server_key server_cert
              then_do make_clients ca_cert ca_key 2 client_cns

  -- `main` on the arguments behind its own name: `none` where there are none and it exits with the usage.
  unfoldable pub maker : List String → Files → Option (Result String (Unit {0}) × Files)
  unfolding make_certificates
  maker [] files = none
  maker (client_cn ∷ client_cns) files = some (make_certificates (client_cn ∷ client_cns) files)
