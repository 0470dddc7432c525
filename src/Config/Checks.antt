-- ===== src/Config/Checks.antt =====
-- What a configuration that `Config::load` of server/src/config.rs returns can be relied on for.
use cipher_mq.Common.{
  ◌==◌, Bool-cases, ◌⊎◌, ℕ, ◌≡◌, ◌≢◌, inl, inr, refl, String, true, List, is_some, length, arith,
  eq_iff, Result, ok, err, ◌>>◌, subst, Result-cases,
}
use cipher_mq.Config.{
  ServerConfig, TlsConfig, LoggingConfig, DatabaseConfig, EncryptionConfig, Config, check_tls,
  check_database, check_encryption, or_default, fill_logging, validate, load,
}

seq-ok :
    {E B : Type 0} (m : Result E (Unit {0})) (k : Result E B) (b : B)
    → m >> k ≡ ok b
    → (m ≡ ok tt) × (k ≡ ok b)
seq-ok (ok tt) k b h = (refl, h)
seq-ok (err e) k b h = ground arith

-- What the server takes for granted of its configuration.
pub record IsUsable {F : Type 0} (decode : String → Result String (List ℕ)) (c : Config F)
    : Type 0 where
  pub certificates :
      (c.server.connection_type ≢ "tls")
      ⊎ (is_some c.tls.cert_path ≡ true)
        × (is_some c.tls.key_path ≡ true)
        × (is_some c.tls.ca_cert_path ≡ true)
  pub host : c.database.host ≢ ""
  pub user : c.database.user ≢ ""
  pub dbname : c.database.dbname ≢ ""
  pub algorithm : c.encryption.algorithm ≡ "x25519_chacha20_poly1305"
  pub aes_key : (key : List ℕ) × (decode c.encryption.aes_key ≡ ok key) × (length key ≡ 32)
  pub level : c.logging.level ≢ ""
  pub rotation : c.logging.rotation ≢ ""
  pub info_file_path : c.logging.info_file_path ≢ ""
  pub debug_file_path : c.logging.debug_file_path ≢ ""
  pub error_file_path : c.logging.error_file_path ≢ ""
  pub max_size_mb : c.logging.max_size_mb ≢ 0

tls_lem :
    (server : ServerConfig) (tls : TlsConfig) (u : Unit {0})
    → check_tls server tls ≡ ok u
    → (server.connection_type ≢ "tls")
      ⊎ (is_some tls.cert_path ≡ true)
        × (is_some tls.key_path ≡ true)
        × (is_some tls.ca_cert_path ≡ true)
unfolding check_tls
tls_lem server tls u h = elim (Bool-cases (server.connection_type == "tls")) [
  | inl is_tls ↦ inr (ground arith)
  | inr other ↦ inl (ground (arith, eq_iff server.connection_type "tls"))
]

database_lem :
    (database : DatabaseConfig) (u : Unit {0})
    → check_database database ≡ ok u
    → (database.host ≢ "") × (database.user ≢ "") × (database.dbname ≢ "")
unfolding check_database
database_lem database u h =
    ground (arith, eq_iff database.host "", eq_iff database.user "", eq_iff database.dbname "")

encryption_lem :
    (decode : String → Result String (List ℕ)) (encryption : EncryptionConfig) (u : Unit {0})
    → check_encryption decode encryption ≡ ok u
    → (encryption.algorithm ≡ "x25519_chacha20_poly1305")
      × ((key : List ℕ) × (decode encryption.aes_key ≡ ok key) × (length key ≡ 32))
unfolding check_encryption
encryption_lem decode encryption u h = elim (Result-cases (decode encryption.aes_key)) [
  | inl (key, decoded) ↦ (
    ground (arith, eq_iff encryption.algorithm "x25519_chacha20_poly1305"),
    (key, decoded, ground arith),
  )
  | inr (e, failed) ↦ ground arith
]

or_default_lem : (default text : String) → default ≢ "" → or_default default text ≢ ""
or_default_lem default text h = ground (arith, eq_iff text "")

logging_lem :
    (logging : LoggingConfig)
    → ((fill_logging logging).level ≢ "")
      × ((fill_logging logging).rotation ≢ "")
      × ((fill_logging logging).info_file_path ≢ "")
      × ((fill_logging logging).debug_file_path ≢ "")
      × ((fill_logging logging).error_file_path ≢ "")
      × ((fill_logging logging).max_size_mb ≢ 0)
unfolding fill_logging
logging_lem logging = (
  or_default_lem "info" logging.level (ground (arith, eq_iff "info" "")),
  or_default_lem "daily" logging.rotation (ground (arith, eq_iff "daily" "")),
  or_default_lem "logs/info.log" logging.info_file_path (ground (arith, eq_iff "logs/info.log" "")),
  or_default_lem "logs/debug.log" logging.debug_file_path
      (ground (arith, eq_iff "logs/debug.log" "")),
  or_default_lem "logs/error.log" logging.error_file_path
      (ground (arith, eq_iff "logs/error.log" "")),
  ground arith,
)

module _ {F : Type 0} where
  validate-IsUsable :
      (decode : String → Result String (List ℕ)) (config c : Config F)
      → validate decode config ≡ ok c
      → IsUsable decode c
  unfolding validate
  validate-IsUsable decode config c h =
      let filled : Config F = record config { logging = fill_logging config.logging } in
      let tls = check_tls config.server config.tls in
      let database = check_database config.database in
      let encryption = check_encryption decode config.encryption in
      let (checked, is_filled) = seq-ok (tls >> database >> encryption) (ok filled) c h in
      let (checked', sealed) = seq-ok (tls >> database) encryption tt checked in
      let (secure, stored) = seq-ok tls database tt checked' in
      let d = database_lem config.database tt stored in
      let e = encryption_lem decode config.encryption tt sealed in
      let l = logging_lem config.logging in
      let same : filled ≡ c = ground arith in
      subst (IsUsable decode) same (record {
        certificates = tls_lem config.server config.tls tt secure;
        host = d.0;
        user = d.1;
        dbname = d.2;
        algorithm = e.0;
        aes_key = e.1;
        level = l.0;
        rotation = l.1;
        info_file_path = l.2;
        debug_file_path = l.3;
        error_file_path = l.4;
        max_size_mb = l.5;
      })

module _ {F : Type 0} (read_to_string : String → Result String String)
    (from_str : String → Result String (Config F)) (decode : String → Result String (List ℕ)) where
  -- A configuration that is loaded is usable: under TLS the three paths are there, the database has a
  -- host, a user and a name, the algorithm is the one that is supported and the key is base64 of 32
  -- bytes, and the level, the rotation, the three paths and the size of the log are filled in.
  pub load-IsUsable :
      (path : String) (c : Config F)
      → load read_to_string from_str decode path ≡ ok c
      → IsUsable decode c
  unfolding load
  load-IsUsable path c h = elim (Result-cases (read_to_string path)) [
    | inr (e, unread) ↦ ground arith
    | inl (content, read) ↦ elim (Result-cases (from_str content)) [
      | inr (e, unparsed) ↦ ground arith
      | inl (config, parsed) ↦ validate-IsUsable decode config c (ground arith)
    ]
  ]
