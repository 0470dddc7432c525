-- ===== src/Certificates.antt =====
-- The name of a client in its certificate: `extract_client_id` of server/src/connection.rs and
-- `extract_admin_cn` of server/src/admin_server.rs. `x509_parser` gives the attributes of the subject.
use cipher_mq.Common.{
  ◌≡◌, refl, inl, inr, String, Bool, Option, none, some, List, [], ◌∷◌, if◌then◌else◌, Result, ok,
  err, ◌>>=◌, map_err, arith, Result-cases, format,
}

-- An attribute: whether its type is that of a common name, and what `as_str` gives.
pub record Attribute : Type 0 where
  pub is_common_name : Bool
  pub as_str : Result String String

-- The first common name of one part of the subject that is a text.
unfoldable pub common_name_in : List Attribute → Option String
common_name_in [] = none
common_name_in (a ∷ rdn) =
    let rest = common_name_in rdn in
    if a.is_common_name then elim (a.as_str) [ ok cn ↦ some cn | err e ↦ rest ] else rest

unfoldable pub common_name : List (List Attribute) → Option String
unfolding common_name_in
common_name [] = none
common_name (rdn ∷ subject) =
    let rest = common_name subject in elim (common_name_in rdn) [ some cn ↦ some cn | none ↦ rest ]

abbrev pub or_no_name : Option String → Result String String
or_no_name (some cn) = ok cn
or_no_name none = err "No Common Name found in client certificate"

-- What is made of the first certificate, by what parsing it gave.
abbrev pub client_id_of : Result String (List (List Attribute)) → Result String String
client_id_of (ok subject) = or_no_name (common_name subject)
client_id_of (err e) = err (format ("Failed to parse certificate: " ∷ e ∷ []))

abbrev pub or_unknown : Option String → String
or_unknown (some cn) = cn
or_unknown none = "unknown"

abbrev pub admin_cn_of : Result String (List (List Attribute)) → String
admin_cn_of (ok subject) = or_unknown (common_name subject)
admin_cn_of (err e) = "unknown"

abbrev pub name_or_unknown : Result String String → String
name_or_unknown (ok cn) = cn
name_or_unknown (err e) = "unknown"

module _ {C : Type 0} (parse : C → Result String (List (List Attribute))) where
  -- The certificates of the other side, if it showed any.
  unfoldable pub extract_client_id : Option (List C) → Result String String
  extract_client_id none = err "No client certificates found"
  extract_client_id (some []) = err "No client certificate provided"
  extract_client_id (some (cert ∷ chain)) = client_id_of (parse cert)

  unfoldable pub extract_admin_cn : Option (List C) → String
  extract_admin_cn none = "unknown"
  extract_admin_cn (some []) = "unknown"
  extract_admin_cn (some (cert ∷ chain)) = admin_cn_of (parse cert)

  -- Both servers find the same name in a certificate; where the one of the clients gives an error the one of
  -- the admins goes on with a name that is not known.
  pub extract_admin_cn-extract_client_id :
      (certs : Option (List C)) → extract_admin_cn certs ≡ name_or_unknown (extract_client_id certs)
  unfolding extract_admin_cn extract_client_id
  extract_admin_cn-extract_client_id none = refl
  extract_admin_cn-extract_client_id (some []) = refl
  extract_admin_cn-extract_client_id (some (cert ∷ chain)) = parsed (parse cert)
    where
      named : (cn : Option String) → or_unknown cn ≡ name_or_unknown (or_no_name cn)
      named none = refl
      named (some cn) = refl

      parsed :
          (r : Result String (List (List Attribute)))
          → admin_cn_of r ≡ name_or_unknown (client_id_of r)
      parsed (ok subject) = named (common_name subject)
      parsed (err e) = refl

-- `extract_client_id` of clients/sender_1/src/main.rs reads the name in the sender's own certificate: its first
-- common name, which has to be a text.
unfoldable pub own_name_in : List Attribute → Option (Result String String)
own_name_in [] = none
own_name_in (a ∷ rdn) =
    let rest = own_name_in rdn in
    if a.is_common_name
    then some (map_err (λ e. format ("CN is not UTF-8: " ∷ e ∷ [])) a.as_str)
    else rest

unfoldable pub own_name : List (List Attribute) → Result String String
unfolding own_name_in
own_name [] = err "No Common Name found in client certificate"
own_name (rdn ∷ subject) =
    let rest = own_name subject in elim (own_name_in rdn) [ some name ↦ name | none ↦ rest ]

-- The file of the certificate, its PEM and its X.509.
unfoldable pub own_client_id :
    {B X : Type 0}
    → Result String B
    → (B → Result String X)
    → (X → Result String (List (List Attribute)))
    → String
    → Result String String
unfolding own_name
own_client_id read parse_x509_pem parse_x509 path =
    map_err (λ _. format ("Cannot read cert " ∷ path ∷ [])) read >>= λ pem.
    map_err (λ e. format ("PEM parse error: " ∷ e ∷ [])) (parse_x509_pem pem) >>= λ cert.
    map_err (λ e. format ("X.509 parse error: " ∷ e ∷ [])) (parse_x509 cert) >>= λ subject.
    own_name subject

common_name_in-own :
    (rdn : List Attribute) (cn : String)
    → own_name_in rdn ≡ some (ok cn)
    → common_name_in rdn ≡ some cn
unfolding own_name_in common_name_in
common_name_in-own [] cn h = ground arith
common_name_in-own (a ∷ rdn) cn h = ground (arith, common_name_in-own rdn cn)

common_name_in-none : (rdn : List Attribute) → own_name_in rdn ≡ none → common_name_in rdn ≡ none
unfolding own_name_in common_name_in
common_name_in-none [] h = refl
common_name_in-none (a ∷ rdn) h = ground (arith, common_name_in-none rdn)

common_name-own :
    (subject : List (List Attribute)) (cn : String)
    → own_name subject ≡ ok cn
    → common_name subject ≡ some cn
unfolding own_name common_name
common_name-own [] cn h = ground arith
common_name-own (rdn ∷ subject) cn h =
    ground (arith, common_name_in-own rdn cn, common_name_in-none rdn, common_name-own subject cn)

-- A sender that finds a name in its certificate finds the one under which the server and the admin server know the
-- owner of that certificate, where the server parses the certificate it is shown to the same subject.
pub own_client_id-extract_client_id :
    {B C X : Type 0} (read : Result String B) (parse_x509_pem : B → Result String X)
    (parse_x509 : X → Result String (List (List Attribute))) (path : String)
    (parse : C → Result String (List (List Attribute))) (cert : C) (chain : List C) (pem : B)
    (x : X) (cn : String)
    → read ≡ ok pem
    → parse_x509_pem pem ≡ ok x
    → parse cert ≡ parse_x509 x
    → own_client_id read parse_x509_pem parse_x509 path ≡ ok cn
    → (extract_client_id parse (some (cert ∷ chain)) ≡ ok cn)
      × (extract_admin_cn parse (some (cert ∷ chain)) ≡ cn)
unfolding own_client_id extract_client_id extract_admin_cn
own_client_id-extract_client_id read parse_x509_pem parse_x509 path parse cert chain pem x cn r p
      same named =
    elim (Result-cases (parse_x509 x)) [
      | inl (subject, parsed) ↦ ground (arith, common_name-own subject cn, parsed)
      | inr (e, failed) ↦ ground (arith, failed)
    ]
