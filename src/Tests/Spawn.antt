-- ===== src/Tests/Spawn.antt =====
-- A file system that knows which paths are locked, and stores that are opened on it.
use aperip_nomos.Prelude.{
  ◌≡◌, refl, inl, inr, Bool, true, false, [], some, none, if◌then◌else◌, Bool-cases,
}
use aperip_nomos.Prelude.Result.{Result, ok, err}
use aperip_nomos.Text.{Text, text_eq}
use aperip_nomos.Files.{would_block, FileError, FileSystem, FileLaws}
use aperip_nomos.Storage.{already_owned}
use aperip_nomos.Storage.Owner.{lock_path, canonical_database_path}
use aperip_nomos.Store.State.{storage}
use aperip_nomos.Store.Spawn.{Host, spawn_store}
use aperip_nomos.Store.Spawn.Locked.{locked_out}
use aperip_nomos.Tests.Crate.{crates}
use aperip_nomos.Tests.Store.{settings}

abbrev pub Locks : Type 0
Locks = Text → Bool

abbrev pub set_lock : Text → Bool → Locks → Locks
set_lock path held locks p = if text_eq path p then held else locks p

abbrev pub blocked : FileError
blocked = record { kind = would_block; raw_os_error = none }

abbrev pub lock_file : Text → Locks → Result FileError (Unit {0}) × Locks
lock_file path locks =
    if locks path then (err blocked, locks) else (ok tt, set_lock path true locks)

abbrev pub memory_files : FileSystem
memory_files = record {
  World = Locks;
  File = Text;
  windows = false;
  parent = λ path. none;
  file_name = λ path. some path;
  join = λ a b. b;
  canonicalize = λ path w. (ok path, w);
  create_dir_all = λ path w. (ok tt, w);
  open_lock_file = λ path w. (ok path, w);
  try_lock_exclusive = lock_file;
  unlock = λ path w. set_lock path false w;
  spawn_thread = λ w. (ok tt, w);
}

pub lock_file_ok :
    (path : Text) (w : Locks)
    → (lock_file path w).0 ≡ ok tt
    → (w path ≡ false)
      × ((p : Text) → (lock_file path w).1 p ≡ (if text_eq path p then true else w p))
lock_file_ok path w e = elim (Bool-cases (w path)) [
  | inl held ↦ let k = rw held at e in cc
  | inr free ↦ rw free (refl, λ p. refl)
]

pub lock_file_err :
    (path : Text) (w : Locks) (f : FileError) (p : Text)
    → (lock_file path w).0 ≡ err f
    → (lock_file path w).1 p ≡ w p
lock_file_err path w f p e = elim (Bool-cases (w path)) [
  | inl held ↦ rw held refl
  | inr free ↦ let k = rw free at e in cc
]

pub opened_path :
    (path : Text) (w : Locks) (f : Text) → (memory_files.open_lock_file path w).0 ≡ ok f → f ≡ path
opened_path path w f e = cc

abbrev pub file_laws : FileLaws memory_files
file_laws = record {
  is_locked = λ p w. w p;
  path_of = λ path. path;
  canonicalize_lem = λ path p w. refl;
  create_dir_all_lem = λ path p w. refl;
  spawn_thread_lem = λ p w. refl;
  open_lock_file_lem = λ path p w. refl;
  path_of_lem = opened_path;
  lock_ok = lock_file_ok;
  lock_err = lock_file_err;
  lock_contended = λ f w e. (blocked, rw e refl, refl, refl);
  unlock_lem = λ f p w. refl;
}

abbrev pub free_host : Host crates memory_files
free_host = record {
  files = λ path. false;
  database = record { table = []; pending = none; script = [] };
}

abbrev taken_host : Host crates memory_files
taken_host = record free_host { files = λ path. true }

locked_out_example :
    ((spawn_store crates memory_files settings taken_host).0
      ≡ err (storage (already_owned (lock_path memory_files settings.database_path))))
    × ((spawn_store crates memory_files settings taken_host).1.database ≡ taken_host.database)
locked_out_example =
    locked_out crates memory_files file_laws settings taken_host settings.database_path
      (lock_path memory_files settings.database_path) refl refl
      (unfold canonical_database_path in refl) refl refl
