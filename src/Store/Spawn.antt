-- ===== src/Store/Spawn.antt =====
-- `spawn_store` of src/store.rs: the database is opened by one owner, and its actor starts.
pub mod Locked
pub mod Started
use aperip_nomos.Prelude.{
  ℕ, ◌==◌, Bool, true, false, List, Option, none, some, is_empty, if◌then◌else◌,
}
use aperip_nomos.Prelude.Result.{Result, ok, err, reject_if, ◌>>=◌ as bind}
use aperip_nomos.Prelude.Exec.{Exec, pure, ◌>>=◌, ◌>>◌, map_error}
use aperip_nomos.Text.{Text}
use aperip_nomos.Database.{Crates}
use aperip_nomos.Files.{FileSystem}
use aperip_nomos.Storage.Owner.{parent_or_dot, canonical_database_path, acquire}
use aperip_nomos.Store.State.{
  StoreConfig, StoreStartError, invalid_queue_capacity, missing_parent, create_directory, storage,
  thread, DatabaseState, StoreCore,
}
use aperip_nomos.Store.Load.{open_database}

abbrev is_none {ℓ} : {A : Type ℓ} → Option A → Bool
is_none none = true
is_none (some a) = false

module _ (x : Crates) (fs : FileSystem) where
  open x use {db}

  -- the files and the database that a process acts on
  pub record Host : Type 0 where
    pub files : fs.World
    pub database : db.World

  abbrev pub Start {ℓ} : Type ℓ → Type ℓ
  Start A = Exec Host (StoreStartError db) A

  -- an actor's core, which takes the database, and the lock that it holds as long as it lives
  pub record Spawned : Type 0 where
    pub core : StoreCore db
    pub lock : fs.File

  abbrev pub on_files {ℓ κ} : {E : Type ℓ} {A : Type κ} → Exec fs.World E A → Exec Host E A
  on_files step host = let done = step host.files in (done.0, record host { files = done.1 })

  abbrev pub on_database {ℓ κ} : {E : Type ℓ} {A : Type κ} → Exec db.World E A → Exec Host E A
  on_database step host =
      let done = step host.database in (done.0, record host { database = done.1 })

  -- a lock is dropped when the step after it fails
  abbrev pub unlock_failed {ℓ} :
      {A : Type ℓ}
      → fs.File
      → Result (StoreStartError db) A × Host
      → Result (StoreStartError db) A × Host
  unlock_failed lock (ok a, host) = (ok a, host)
  unlock_failed lock (err e, host) = (err e, record host { files = fs.unlock lock host.files })

  abbrev pub or_unlock {ℓ} : {A : Type ℓ} → fs.File → Start A → Start A
  or_unlock lock step host = unlock_failed lock (step host)

  -- the state is dropped with a thread that cannot start
  abbrev pub close_failed :
      DatabaseState db
      → Result (StoreStartError db) (Unit {0}) × Host
      → Result (StoreStartError db) (Unit {0}) × Host
  close_failed state (ok v, host) = (ok v, host)
  close_failed state (err e, host) =
      (err e, record host { database = db.close state.session host.database })

  unfoldable pub start_thread : DatabaseState db → Start (Unit {0})
  start_thread state host = close_failed state (on_files (map_error thread fs.spawn_thread) host)

  unfoldable pub started : StoreConfig → fs.File → DatabaseState db → Start Spawned
  started config lock state host = (
    ok (record {
      core = record {
        config = config;
        shared = record { ready = true; alive = true; liveness = true };
        state = some state;
        world = host.database;
      };
      lock = lock;
    }),
    host,
  )

  -- `spawn_store` from the point where the lock is held
  unfoldable pub open_locked : StoreConfig → fs.File → Start Spawned
  open_locked config lock = do
    state ← or_unlock lock (on_database (open_database x config))
    or_unlock lock (start_thread state)
    started config lock state

  -- `spawn_store` from the point where the path is canonical
  unfoldable pub open_owned : StoreConfig → Start Spawned
  open_owned config = do
    lock ← on_files (map_error storage (acquire fs db config.database_path))
    open_locked config lock

  abbrev pub check_config : StoreConfig → Start (Unit {0})
  check_config config host = (
    bind (reject_if (config.queue_capacity == 0) invalid_queue_capacity) λ _.
        reject_if (is_none (fs.file_name config.database_path))
          (missing_parent config.database_path),
    host,
  )

  abbrev pub create_parent : StoreConfig → Start (Unit {0})
  create_parent config =
      let parent = parent_or_dot fs config.database_path in
      on_files (map_error (create_directory parent) (fs.create_dir_all parent))

  abbrev pub canonical_path : StoreConfig → Start Text
  canonical_path config =
      on_files (map_error storage (canonical_database_path fs db config.database_path))

  -- `spawn_store` once the directory is there
  abbrev pub open_canonical : StoreConfig → Start Spawned
  open_canonical config = do
    path ← canonical_path config
    open_owned (record config { database_path = path })

  unfoldable pub spawn_store : StoreConfig → Start Spawned
  spawn_store config = do check_config config; create_parent config; open_canonical config
