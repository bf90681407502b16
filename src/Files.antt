-- ===== src/Files.antt =====
-- The file system and the threads that src/storage.rs and src/store.rs use: `std::fs`, `std::path`,
-- `std::thread` and the locks of `fs2`. They are parameters, and the laws are their documentation.
use aperip_nomos.Prelude.{ℕ, ◌≡◌, Bool, true, false, Option, some, if◌then◌else◌}
use aperip_nomos.Prelude.Result.{ok, err}
use aperip_nomos.Prelude.Exec.{Exec}
use aperip_nomos.Text.{Text, text_eq}

-- `std::io::ErrorKind`, as far as the program tells kinds apart
pub data ErrorKind : Type 0 where
  not_found would_block invalid_input other_kind : ErrorKind

-- `std::io::Error` of a file operation
pub record FileError : Type 0 where
  pub kind : ErrorKind
  pub raw_os_error : Option ℕ

pub record FileSystem : Type 1 where
  pub World : Type 0
  pub File : Type 0
  -- whether the program was built for Windows
  pub windows : Bool
  -- `Path`
  pub parent : Text → Option Text
  pub file_name : Text → Option Text
  pub join : Text → Text → Text
  -- `fs`
  pub canonicalize : Text → Exec World FileError Text
  pub create_dir_all : Text → Exec World FileError (Unit {0})
  pub open_lock_file : Text → Exec World FileError File
  -- `FileExt`
  pub try_lock_exclusive : File → Exec World FileError (Unit {0})
  pub unlock : File → World → World
  -- `thread::Builder::spawn`
  pub spawn_thread : Exec World FileError (Unit {0})

-- An exclusive lock is held on a path by one open file at a time.
pub record FileLaws (fs : FileSystem) : Type 0 where
  pub is_locked : Text → fs.World → Bool
  pub path_of : fs.File → Text
  pub canonicalize_lem :
      (path p : Text) (w : fs.World) → is_locked p (fs.canonicalize path w).1 ≡ is_locked p w
  pub create_dir_all_lem :
      (path p : Text) (w : fs.World) → is_locked p (fs.create_dir_all path w).1 ≡ is_locked p w
  pub spawn_thread_lem :
      (p : Text) (w : fs.World) → is_locked p (fs.spawn_thread w).1 ≡ is_locked p w
  pub open_lock_file_lem :
      (path p : Text) (w : fs.World) → is_locked p (fs.open_lock_file path w).1 ≡ is_locked p w
  pub path_of_lem :
      (path : Text) (w : fs.World) (f : fs.File)
      → (fs.open_lock_file path w).0 ≡ ok f
      → path_of f ≡ path
  pub lock_ok :
      (f : fs.File) (w : fs.World)
      → (fs.try_lock_exclusive f w).0 ≡ ok tt
      → (is_locked (path_of f) w ≡ false)
        × ((p : Text)
            → is_locked p (fs.try_lock_exclusive f w).1
              ≡ (if text_eq (path_of f) p then true else is_locked p w))
  pub lock_err :
      (f : fs.File) (w : fs.World) (e : FileError) (p : Text)
      → (fs.try_lock_exclusive f w).0 ≡ err e
      → is_locked p (fs.try_lock_exclusive f w).1 ≡ is_locked p w
  -- the error that a lock that is held gives: `WouldBlock`, or `ERROR_LOCK_VIOLATION` on Windows
  pub lock_contended :
      (f : fs.File) (w : fs.World)
      → is_locked (path_of f) w ≡ true
      → (e : FileError) × ((fs.try_lock_exclusive f w).0 ≡ err e)
        × (e.kind ≡ (if fs.windows then e.kind else would_block))
        × (e.raw_os_error ≡ (if fs.windows then some 33 else e.raw_os_error))
  pub unlock_lem :
      (f : fs.File) (p : Text) (w : fs.World)
      → is_locked p (fs.unlock f w) ≡ (if text_eq (path_of f) p then false else is_locked p w)
