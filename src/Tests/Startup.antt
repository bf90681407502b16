-- ===== src/Tests/Startup.antt =====
-- The service starts with the settings of the environment on an empty database.
use aperip_nomos.Prelude.{ℕ, ◌≡◌, refl, true, Option, none, some, if◌then◌else◌}
use aperip_nomos.Prelude.Result.{Result, ok}
use aperip_nomos.Text.{Text, codes, text_eq}
use aperip_nomos.Config.{
  EnvVar, not_present, resolve_optional_environment, required_path, from_env, from_values,
  parse_address, decode_secret, read_secret, read_page_key, read_admin_token,
}
use aperip_nomos.Storage.Owner.{lock_path, parent_or_dot, canonical_database_path, acquire, locked}
use aperip_nomos.Store.Spawn.{Host, spawn_store, open_owned, open_locked, start_thread, started}
use aperip_nomos.Service.Startup.{
  Ready, IsServing, load, bind_listener, store_config, start_service, start_service-IsServing,
}
use aperip_nomos.Tests.Crate.{crates}
use aperip_nomos.Tests.Crate.Laws.{memory_laws}
use aperip_nomos.Tests.Actor.{store_program}
use aperip_nomos.Tests.Config.{two_files, decode_pairs, key_text, token_text}
use aperip_nomos.Tests.Spawn.{memory_files, file_laws, set_lock, free_host}
use aperip_nomos.Tests.Store.{fresh_state}

-- a socket is bound to any address
abbrev bind : ℕ → Result (Unit {0}) ℕ
bind address = ok address

abbrev var : Text → EnvVar
var name = not_present

abbrev var_os : Text → Option Text
var_os name =
    if text_eq name (codes "RNMDB_PAGE_KEY_FILE")
    then some (codes "key")
    else (if text_eq name (codes "ADMIN_TOKEN_FILE") then some (codes "token") else none)

abbrev database_path : Text
database_path = codes "/var/lib/aperip-nomos/aperip-nomos.rnmdb"

abbrev ready : Ready two_files crates memory_files bind
ready = record {
  config = record {
    public_bind_addr = 13;
    admin_bind_addr = 15;
    database_path = database_path;
    page_key = decode_pairs key_text;
    admin_token = token_text;
  };
  public_listener = 13;
  admin_listener = 15;
  store = record {
    core = record {
      config = record {
        database_path = database_path;
        page_key = decode_pairs key_text;
        queue_capacity = 128;
      };
      shared = record { ready = true; alive = true; liveness = true };
      state = some fresh_state;
      world = free_host.database;
    };
    lock = lock_path memory_files database_path;
  };
}

abbrev after : Host crates memory_files
after = record free_host {
  files = set_lock (lock_path memory_files database_path) true free_host.files;
}

service_started :
    start_service two_files crates memory_files bind var var_os free_host ≡ (ok ready, after)
unfolding store_program start_service load from_env resolve_optional_environment required_path
    from_values parse_address read_page_key read_secret decode_secret read_admin_token bind_listener
    spawn_store store_config canonical_database_path open_owned acquire locked parent_or_dot
    open_locked start_thread started
service_started = refl

start_service-IsServing_example :
    IsServing two_files crates memory_files bind memory_laws file_laws free_host var var_os ready
      after
start_service-IsServing_example =
    start_service-IsServing two_files crates memory_files bind memory_laws file_laws free_host var
      var_os ready after refl service_started
