-- ===== src/Config.antt =====
-- server/src/config.rs: the sections of the configuration, their defaults, and the checks of
-- `Config::load`. The file system, `toml` and `base64` come from outside.
pub mod Checks
use cipher_mq.Common.{
  ℕ, String, Bool, true, false, not, Option, none, some, List, [], ◌∷◌, ◌==◌, eqb, is_some,
  if◌then◌else◌, length, Result, ok, err, ◌>>=◌, ◌>>◌, map_err, format,
}

pub data ConfigError : Type 0 where
  read_error : String → ConfigError
  parse_error : String → ConfigError
  missing_field : String → ConfigError

pub record ServerConfig : Type 0 where
  pub address : String
  pub connection_type : String

pub record TlsConfig : Type 0 where
  pub cert_path : Option String
  pub key_path : Option String
  pub ca_cert_path : Option String

pub record LoggingConfig : Type 0 where
  pub level : String
  pub rotation : String
  pub info_file_path : String
  pub debug_file_path : String
  pub error_file_path : String
  pub max_size_mb : ℕ

pub record DatabaseConfig : Type 0 where
  pub host : String
  pub port : ℕ
  pub user : String
  pub password : String
  pub dbname : String

pub record EncryptionConfig : Type 0 where
  pub algorithm : String
  pub aes_key : String

pub record PerformanceConfig : Type 0 where
  pub max_queue_size : ℕ
  pub heartbeat_timeout : ℕ
  pub cleanup_interval : ℕ
  pub consumer_cleanup_interval : ℕ
  pub idle_timeout_sec : ℕ

-- The `default` of the section, and of each of its fields.
abbrev pub default_performance : PerformanceConfig
default_performance = record {
  max_queue_size = 10000;
  heartbeat_timeout = 60;
  cleanup_interval = 3000;
  consumer_cleanup_interval = 60;
  idle_timeout_sec = 60;
}

pub record AdminConfig : Type 0 where
  pub enabled : Bool
  pub address : String
  pub allowed_cns : List String

abbrev pub default_admin : AdminConfig
default_admin = record { enabled = false; address = "127.0.0.1:9091"; allowed_cns = [] }

-- `F` is the type of an `f64`.
pub record RateLimitConfig (F : Type 0) : Type 0 where
  pub enabled : Bool
  pub global_rps : F
  pub global_burst : F
  pub publish_rps : F
  pub publish_burst : F
  pub max_connections_per_ip : ℕ
  pub max_connections_per_cn : ℕ

-- The argument gives the `f64` of a literal.
abbrev pub default_rate_limit : {F : Type 0} → (ℕ → F) → RateLimitConfig F
default_rate_limit number = record {
  enabled = false;
  global_rps = number 100;
  global_burst = number 200;
  publish_rps = number 50;
  publish_burst = number 100;
  max_connections_per_ip = 50;
  max_connections_per_cn = 20;
}

pub record AclConfig : Type 0 where
  pub sender_cns : List String
  pub receiver_cns : List String
  pub admin_cns : List String

pub record Config (F : Type 0) : Type 0 where
  pub server : ServerConfig
  pub tls : TlsConfig
  pub logging : LoggingConfig
  pub database : DatabaseConfig
  pub encryption : EncryptionConfig
  pub performance : PerformanceConfig
  pub admin : AdminConfig
  pub rate_limit : RateLimitConfig F
  pub acl : AclConfig

-- `return Err(MissingField(…))` unless the test holds.
abbrev pub require : Bool → String → Result ConfigError (Unit {0})
require test field = if test then ok tt else err (missing_field field)

unfoldable pub check_tls : ServerConfig → TlsConfig → Result ConfigError (Unit {0})
check_tls server tls =
    if server.connection_type == "tls"
    then require (is_some tls.cert_path) "tls.cert_path"
      >> require (is_some tls.key_path) "tls.key_path"
      >> require (is_some tls.ca_cert_path) "tls.ca_cert_path"
    else ok tt

unfoldable pub check_database : DatabaseConfig → Result ConfigError (Unit {0})
check_database database =
    require (not (database.host == "")) "database.host"
    >> require (not (database.user == "")) "database.user"
    >> require (not (database.dbname == "")) "database.dbname"

-- `decode` is the one of `BASE64`.
unfoldable pub check_encryption :
    (String → Result String (List ℕ)) → EncryptionConfig → Result ConfigError (Unit {0})
check_encryption decode encryption =
    require (encryption.algorithm == "x25519_chacha20_poly1305") "encryption.algorithm"
    >> require (not (encryption.aes_key == "")) "encryption.aes_key"
    >> map_err (λ e. missing_field (format ("Invalid AES key: " ∷ e ∷ [])))
        (decode encryption.aes_key)
    >>= λ aes_key. require (eqb (length aes_key) 32) "encryption.aes_key"

abbrev pub or_default : String → String → String
or_default default text = if text == "" then default else text

unfoldable pub fill_logging : LoggingConfig → LoggingConfig
fill_logging logging = record {
  level = or_default "info" logging.level;
  rotation = or_default "daily" logging.rotation;
  info_file_path = or_default "logs/info.log" logging.info_file_path;
  debug_file_path = or_default "logs/debug.log" logging.debug_file_path;
  error_file_path = or_default "logs/error.log" logging.error_file_path;
  max_size_mb = if eqb logging.max_size_mb 0 then 10 else logging.max_size_mb;
}

module _ {F : Type 0} where
  -- What follows the reading and the parsing.
  unfoldable pub validate :
      (String → Result String (List ℕ)) → Config F → Result ConfigError (Config F)
  unfolding check_tls check_database check_encryption fill_logging
  validate decode config =
      check_tls config.server config.tls
      >> check_database config.database
      >> check_encryption decode config.encryption
      >> ok (record config { logging = fill_logging config.logging })

  unfoldable pub load :
      (String → Result String String)
      → (String → Result String (Config F))
      → (String → Result String (List ℕ))
      → String
      → Result ConfigError (Config F)
  unfolding validate
  load read_to_string from_str decode path = map_err read_error (read_to_string path) >>= λ content.
      map_err parse_error (from_str content) >>= λ config. validate decode config
