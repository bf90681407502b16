-- ===== src/Storage.antt =====
-- src/storage.rs: the session over RNMDB, with the program's errors. `Owner` has the path of the
-- database and the lock that its owner holds.
pub mod Owner
pub mod Locking
use aperip_nomos.Prelude.Result.{map_err}
use aperip_nomos.Prelude.Exec.{Exec}
use aperip_nomos.Text.{Text}
use aperip_nomos.Text.Utf8.{Bytes}
use aperip_nomos.Database.{Rnmdb, CommandOutput}
use aperip_nomos.Files.{FileError}

module _ (db : Rnmdb) where
  pub data StorageError : Type 0 where
    normalize_path : Text → FileError → StorageError
    owner_lock : Text → FileError → StorageError
    already_owned : Text → StorageError
    open_failed : Text → db.RnovError → StorageError
    execute_failed : db.RnovError → StorageError
    checkpoint_failed : db.RnovError → StorageError

  -- `RnmdbSession::open`
  unfoldable pub open_session : Text → Bytes → Exec db.World StorageError db.Session
  open_session path key w =
      (map_err (open_failed path) (db.open_session path key w).0, (db.open_session path key w).1)

  -- `RnmdbSession::execute`
  unfoldable pub execute : db.Session → Text → Exec db.World StorageError CommandOutput
  execute s sql w = (map_err execute_failed (db.execute s sql w).0, (db.execute s sql w).1)

  -- `RnmdbSession::checkpoint`
  unfoldable pub checkpoint : db.Session → Exec db.World StorageError (Unit {0})
  checkpoint s w = (map_err checkpoint_failed (db.checkpoint s w).0, (db.checkpoint s w).1)
