-- ===== src/Config/Redacted.antt =====
-- What src/config.rs and src/store.rs print of their settings: `fmt::Debug` of `ServiceConfig` and of
-- `StoreConfig`. The formatter of the standard library is a parameter.
use aperip_nomos.Prelude.{ℕ, ◌≡◌, refl, sym, ◌∙◌, List, [], ◌∷◌, some}
use aperip_nomos.Prelude.Result.{Result, ok}
use aperip_nomos.Text.{Text, codes}
use aperip_nomos.Text.Utf8.{Bytes}
use aperip_nomos.Config.{ConfigValues, Platform, ServiceConfig, from_values}
use aperip_nomos.Config.Valid.{from_values-IsValidConfig}
use aperip_nomos.Store.State.{StoreConfig}

-- the values of fields: an address, a path, a string, a number, and a text that stands for itself
pub data DebugValue (A : Type 0) : Type 0 where
  address : A → DebugValue A
  path : Text → DebugValue A
  string : Text → DebugValue A
  number : ℕ → DebugValue A
  bare : Text → DebugValue A

abbrev redacted_string : {A : Type 0} → DebugValue A
redacted_string = string (codes "[REDACTED]")

module _ {A : Type 0} (debug_struct : Text → List (Text × DebugValue A) → Text) where
  -- `fmt::Debug for StoreConfig`
  unfoldable pub debug_store_config : StoreConfig → Text
  debug_store_config config = debug_struct (codes "StoreConfig") (
      (codes "database_path", path config.database_path)
      ∷ (codes "page_key", bare (codes "<redacted>"))
      ∷ (codes "queue_capacity", number config.queue_capacity)
      ∷ [])

  -- What is printed of the settings of a store does not depend on its key.
  debug_store_config-page_key :
      (config : StoreConfig) (key : Bytes)
      → debug_store_config (record config { page_key = key }) ≡ debug_store_config config
  unfolding debug_store_config
  debug_store_config-page_key config key = refl

module _ (p : Platform) (debug_struct : Text → List (Text × DebugValue p.SocketAddr) → Text) where
  -- `fmt::Debug for ServiceConfig`
  unfoldable pub debug_service_config : ServiceConfig p → Text
  debug_service_config config = debug_struct (codes "ServiceConfig") (
      (codes "public_bind_addr", address config.public_bind_addr)
      ∷ (codes "admin_bind_addr", address config.admin_bind_addr)
      ∷ (codes "database_path", path config.database_path)
      ∷ (codes "page_key", redacted_string)
      ∷ (codes "admin_token", redacted_string)
      ∷ [])

some_inj : {A : Type 0} (a b : A) → some a ≡ some b → a ≡ b
some_inj a b h = cc

-- the same machine with other files
abbrev pub with_files : (p : Platform) → (Text → Result p.IoError Bytes) → Platform
with_files p read = record p { read = read }

-- What is printed of an accepted configuration does not depend on the key and the token: the same
-- settings, accepted over other contents of the files, print the same.
pub debug_service_config-redacts :
    (p : Platform) (debug_struct : Text → List (Text × DebugValue p.SocketAddr) → Text)
    (read : Text → Result p.IoError Bytes) (values : ConfigValues) (config : ServiceConfig p)
    (other : ServiceConfig (with_files p read))
    → from_values p values ≡ ok config
    → from_values (with_files p read) values ≡ ok other
    → debug_service_config p debug_struct config
      ≡ debug_service_config (with_files p read) debug_struct other
unfolding debug_service_config
debug_service_config-redacts p debug_struct read values config other h k =
    let a = from_values-IsValidConfig p values config h in
    let b = from_values-IsValidConfig (with_files p read) values other k in
    let public : config.public_bind_addr ≡ other.public_bind_addr =
      some_inj config.public_bind_addr other.public_bind_addr
        (sym (a.public_parsed) ∙ b.public_parsed) in
    let admin : config.admin_bind_addr ≡ other.admin_bind_addr =
      some_inj config.admin_bind_addr other.admin_bind_addr
        (sym (a.admin_parsed) ∙ b.admin_parsed) in
    let where_to : config.database_path ≡ other.database_path = a.same_path ∙ sym (b.same_path) in
    rw (public, admin, where_to) refl
