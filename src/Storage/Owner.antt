-- ===== src/Storage/Owner.antt =====
-- The path of the database and the owner lock beside it, in src/storage.rs.
use aperip_nomos.Prelude.{
  ℕ, ◌==◌, Bool, true, false, ◌||◌, ◌++◌, Option, none, some, is_empty, if◌then◌else◌,
}
use aperip_nomos.Prelude.Result.{Result, ok, err}
use aperip_nomos.Prelude.Exec.{Exec}
use aperip_nomos.Text.{Text, codes}
use aperip_nomos.Database.{Rnmdb}
use aperip_nomos.Files.{
  ErrorKind, not_found, would_block, invalid_input, other_kind, FileError, FileSystem,
}
use aperip_nomos.Storage.{StorageError, normalize_path, owner_lock, already_owned}

abbrev pub is_not_found : ErrorKind → Bool
is_not_found not_found = true
is_not_found would_block = false
is_not_found invalid_input = false
is_not_found other_kind = false

abbrev pub is_would_block : ErrorKind → Bool
is_would_block not_found = false
is_would_block would_block = true
is_would_block invalid_input = false
is_would_block other_kind = false

-- the code of a sharing violation or of a lock violation
unfoldable pub is_violation : Option ℕ → Bool
is_violation none = false
is_violation (some code) = code == 32 || code == 33

-- `normalization_error`, less its message
abbrev pub normalization_error : (db : Rnmdb) → Text → StorageError db
normalization_error db path =
    normalize_path path (record { kind = invalid_input; raw_os_error = none })

module _ (fs : FileSystem) where
  -- `.parent()`, or the working directory if there is none or it is empty
  unfoldable pub parent_or_dot : Text → Text
  parent_or_dot path = elim (fs.parent path) [
    | none ↦ codes "."
    | some parent ↦ if is_empty parent then codes "." else parent
  ]

  unfoldable pub lock_is_contended : FileError → Bool
  lock_is_contended error =
      if is_would_block error.kind
      then true
      else (if fs.windows then is_violation error.raw_os_error else false)

  abbrev pub lock_path : Text → Text
  lock_path database_path = database_path ++ codes ".lock"

  module _ (db : Rnmdb) where
    unfoldable pub canonical_database_path : Text → Exec fs.World (StorageError db) Text
    canonical_database_path path w =
        let first = fs.canonicalize path w in
        let beside = fs.canonicalize (parent_or_dot path) first.1 in
        elim first.0 [
          | ok canonical ↦ (ok canonical, first.1)
          | err source ↦
              if is_not_found source.kind
              then (elim (fs.file_name path) [
                | none ↦ (err (normalization_error db path), first.1)
                | some file_name ↦ (
                  elim beside.0 [
                    | ok parent ↦ ok (fs.join parent file_name)
                    | err why ↦ err (normalize_path path why)
                  ],
                  beside.1,
                )
              ])
              else (err (normalize_path path source), first.1)
        ]

    -- the outcome of the attempt to lock
    unfoldable pub locked :
        Text → fs.File → Result FileError (Unit {0}) → Result (StorageError db) fs.File
    locked path file (ok _) = ok file
    locked path file (err source) =
        if lock_is_contended source then err (already_owned path) else err (owner_lock path source)

    -- `DatabaseOwnerLock::acquire`; its drop is `fs.unlock`
    unfoldable pub acquire : Text → Exec fs.World (StorageError db) fs.File
    acquire database_path w =
        let opened = fs.open_lock_file (lock_path database_path) w in
        elim opened.0 [
          | err source ↦ (err (owner_lock (lock_path database_path) source), opened.1)
          | ok file ↦
              let tried = fs.try_lock_exclusive file opened.1 in
              (locked (lock_path database_path) file tried.0, tried.1)
        ]
