-- ===== src/Tests/Makers.antt =====
-- A run of create_ca_key/Rust_CA_Maker_ECDSA_P-384_Multi_Client/src/main.rs.
use cipher_mq.Common.{
  ◌≡◌, refl, String, Option, none, some, List, [], ◌∷◌, if◌then◌else◌, eqb, format, Result, ok,
}
use cipher_mq.Makers.{Files}
use cipher_mq.Makers.Certificates.{Rcgen, ca_params, make_certificates, maker}
use cipher_mq.Makers.Certificates.Every.{Has, maker-every_Has}

-- A key is its number; a certificate is its name and the keys of its owner and its issuer.
abbrev rcgen : Rcgen String String
rcgen = record {
  generate =
      λ draw. ok (if eqb draw 0 then "ca key" else if eqb draw 2 then "receiver key" else "key");
  serialize_pem = λ key. key;
  self_signed = λ params key. ok (format (params.common_name ∷ ": " ∷ key ∷ []));
  signed_by =
      λ params key ca ca_key. ok (format (params.common_name ∷ ": " ∷ key ∷ " by " ∷ ca_key ∷ []));
  pem = λ cert. cert;
}

abbrev names : List String
names = "receiver_1" ∷ "sender_1" ∷ []

abbrev left : Files
left = (make_certificates rcgen (λ path. none) names []).1

maker-every_Has_example :
    (ca_key : String) × (ca_cert : String) × (rcgen.self_signed ca_params ca_key ≡ ok ca_cert)
    × Has rcgen (λ path. none) ca_cert ca_key (some ca_cert) "receiver_1" left
unfolding maker cipher_mq.Common.get cipher_mq.Common.insert
maker-every_Has_example = maker-every_Has rcgen (λ path. none) names "receiver_1" [] left refl refl
