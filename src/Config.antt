-- ===== src/Config.antt =====
-- src/config.rs: the settings of the service, from the environment and two secret files. The file
-- system, the parser of addresses and the hexadecimal decoder are parameters.
pub mod Valid
pub mod Redacted
use aperip_nomos.Prelude.{
  ℕ, ◌+◌, Bool, true, false, not, ◌&&◌, ◌||◌, Option, none, some, ltb, leb, ◌==◌, if◌then◌else◌,
  length, take, is_empty, all,
}
use aperip_nomos.Prelude.Result.{Result, ok, err, ◌>>=◌, ◌>>◌, reject_if, ok_or, map_err}
use aperip_nomos.Text.{Text, codes, byte_len, trim}
use aperip_nomos.Text.Utf8.{Bytes, as_bytes, from_utf8}

abbrev pub min_admin_token_bytes : ℕ
min_admin_token_bytes = 32

abbrev pub max_admin_token_bytes : ℕ
max_admin_token_bytes = 256

abbrev pub max_secret_file_bytes : ℕ
max_secret_file_bytes = 1024

pub record ConfigValues : Type 0 where
  pub public_bind_addr : Text
  pub admin_bind_addr : Text
  pub database_path : Text
  pub page_key_file : Text
  pub admin_token_file : Text

-- what `env::var` returns
pub data EnvVar : Type 0 where
  value : Text → EnvVar
  not_present not_unicode : EnvVar

-- The operating system and the crates: an address is parsed and shows its port, a file is read, and
-- hexadecimal digits are decoded.
pub record Platform : Type 1 where
  pub SocketAddr : Type 0
  pub IoError : Type 0
  pub parse : Text → Option SocketAddr
  pub port : SocketAddr → ℕ
  pub read : Text → Result IoError Bytes
  pub invalid_data : IoError
  pub hex_decode : Text → Option Bytes

module _ (p : Platform) where
  pub record ServiceConfig : Type 0 where
    pub public_bind_addr : p.SocketAddr
    pub admin_bind_addr : p.SocketAddr
    pub database_path : Text
    pub page_key : Bytes
    pub admin_token : Text

  pub data ConfigError : Type 0 where
    missing_environment : Text → ConfigError
    invalid_environment : Text → ConfigError
    invalid_address : Text → ConfigError
    listener_addresses_must_differ : ConfigError
    read_secret_failed : Text → p.IoError → ConfigError
    secret_too_large : Text → ConfigError
    invalid_page_key : ConfigError
    invalid_admin_token : ConfigError

  -- `required_path`: `os` is what `env::var_os` returns
  unfoldable pub required_path : Text → Option Text → Result ConfigError Text
  required_path name none = err (missing_environment name)
  required_path name (some path) =
      if not (is_empty path) then ok path else err (missing_environment name)

  unfoldable pub resolve_optional_environment : Text → EnvVar → Text → Result ConfigError Text
  resolve_optional_environment name (value v) default = ok v
  resolve_optional_environment name not_present default = ok default
  resolve_optional_environment name not_unicode default = err (invalid_environment name)

  abbrev or_else : Option Text → Text → Text
  or_else none default = default
  or_else (some v) default = v

  -- `ConfigValues::from_env`, given the variables as texts and as paths
  unfoldable pub from_env : (Text → EnvVar) → (Text → Option Text) → Result ConfigError ConfigValues
  from_env var var_os = do
    public ←
        resolve_optional_environment (codes "PUBLIC_BIND_ADDR") (var (codes "PUBLIC_BIND_ADDR"))
          (codes "0.0.0.0:54871")
    admin ←
        resolve_optional_environment (codes "ADMIN_BIND_ADDR") (var (codes "ADMIN_BIND_ADDR"))
          (codes "127.0.0.1:54872")
    let database =
        or_else (var_os (codes "RNMDB_PATH")) (codes "/var/lib/aperip-nomos/aperip-nomos.rnmdb")
    page_key ← required_path (codes "RNMDB_PAGE_KEY_FILE") (var_os (codes "RNMDB_PAGE_KEY_FILE"))
    token ← required_path (codes "ADMIN_TOKEN_FILE") (var_os (codes "ADMIN_TOKEN_FILE"))
    ok (record {
      public_bind_addr = public;
      admin_bind_addr = admin;
      database_path = database;
      page_key_file = page_key;
      admin_token_file = token;
    })

  unfoldable pub parse_address : Text → Text → Result ConfigError p.SocketAddr
  parse_address name v = ok_or (p.parse v) (invalid_address name)

  -- `read_secret` once it has read its bytes
  unfoldable pub decode_secret : Text → Bytes → Result ConfigError Text
  decode_secret path bytes = do
    reject_if (ltb max_secret_file_bytes (length bytes)) (secret_too_large path)
    text ← ok_or (from_utf8 bytes) (read_secret_failed path p.invalid_data)
    ok (trim text)

  -- one byte more than the limit is read at most
  unfoldable pub read_secret : Text → Result ConfigError Text
  read_secret path = do
    contents ← map_err (read_secret_failed path) (p.read path)
    decode_secret path (take (max_secret_file_bytes + 1) contents)

  unfoldable pub read_page_key : Text → Result ConfigError Bytes
  read_page_key path = do
    v ← read_secret path
    bytes ← ok_or (p.hex_decode v) invalid_page_key
    if length bytes == 32 then ok bytes else err invalid_page_key

  abbrev pub is_visible : ℕ → Bool
  is_visible byte = leb 0x21 byte && leb byte 0x7e

  unfoldable pub read_admin_token : Text → Result ConfigError Text
  read_admin_token path = do
    v ← read_secret path
    let valid =
        leb min_admin_token_bytes (byte_len v)
        && leb (byte_len v) max_admin_token_bytes
        && all is_visible (as_bytes v)
    reject_if (not valid) invalid_admin_token
    ok v

  -- `ServiceConfig::from_values`
  unfoldable pub from_values : ConfigValues → Result ConfigError ServiceConfig
  from_values values = do
    public ← parse_address (codes "PUBLIC_BIND_ADDR") values.public_bind_addr
    admin ← parse_address (codes "ADMIN_BIND_ADDR") values.admin_bind_addr
    reject_if (p.port public == p.port admin) listener_addresses_must_differ
    page_key ← read_page_key values.page_key_file
    token ← read_admin_token values.admin_token_file
    ok (record {
      public_bind_addr = public;
      admin_bind_addr = admin;
      database_path = values.database_path;
      page_key = page_key;
      admin_token = token;
    })
