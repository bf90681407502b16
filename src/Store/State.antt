-- ===== src/Store/State.antt =====
-- The data of src/store.rs: configuration, errors, shared flags, commands, and the core's state.
use aperip_nomos.Prelude.{ℕ, Bool, Option}
use aperip_nomos.Prelude.Int.{ℤ}
use aperip_nomos.Text.{Text}
use aperip_nomos.Text.Utf8.{Bytes}
use aperip_nomos.Domain.{LicenseDraft, LicenseDocument}
use aperip_nomos.Map.{Map}
use aperip_nomos.Database.{Rnmdb}
use aperip_nomos.Files.{FileError}
use aperip_nomos.Storage.{StorageError}

pub record StoreConfig : Type 0 where
  pub database_path : Text
  pub page_key : Bytes
  pub queue_capacity : ℕ

pub data StoreError : Type 0 where
  queue_full unavailable duplicate_slug not_found storage_unavailable : StoreError

-- `ready`, `alive` and the value of the `liveness` channel
pub record SharedState : Type 0 where
  pub ready : Bool
  pub alive : Bool
  pub liveness : Bool

-- the commands that the actor receives, less the channel on which each is answered
pub data StoreCommand : Type 0 where
  create : LicenseDraft → StoreCommand
  list : StoreCommand
  get : Text → StoreCommand
  delete : Text → StoreCommand
  ping : StoreCommand
  shutdown : StoreCommand

module _ (db : Rnmdb) where
  pub data StoreStartError : Type 0 where
    invalid_queue_capacity : StoreStartError
    missing_parent : Text → StoreStartError
    create_directory : Text → FileError → StoreStartError
    storage : StorageError db → StoreStartError
    corrupt : Text → StoreStartError
    thread : FileError → StoreStartError

  pub record DatabaseState : Type 0 where
    pub session : db.Session
    pub licenses : Map LicenseDocument
    pub next_id : ℤ

  -- `StoreCore`, with the database file that its session acts on. It holds its owner lock as long as
  -- it lives.
  pub record StoreCore : Type 0 where
    pub config : StoreConfig
    pub shared : SharedState
    pub state : Option DatabaseState
    pub world : db.World
