-- ===== src/Storage/Locking.antt =====
-- The owner lock of src/storage.rs: who has it, and that giving it back leaves every lock as it was.
use aperip_nomos.Prelude.{
  ◌≡◌, refl, ◌∙◌, sym, ap, inl, inr, true, false, some, if◌then◌else◌, Bool-cases,
}
use aperip_nomos.Prelude.Result.{Result, Result-cases, ok, err}
use aperip_nomos.Text.{Text, text_eq}
use aperip_nomos.Text.Equality.{text_eq_iff}
use aperip_nomos.Database.{Rnmdb}
use aperip_nomos.Files.{would_block, FileError, FileSystem, FileLaws}
use aperip_nomos.Storage.{StorageError, already_owned}
use aperip_nomos.Storage.Owner.{
  is_would_block, is_violation, lock_is_contended, lock_path, locked, acquire,
}

module _ (fs : FileSystem) (files : FileLaws fs) (db : Rnmdb) where
  open files use {is_locked, path_of}

  -- a lock that was free in `w`, and is held in `w'` while all others are as they were
  pub record Held (path : Text) (file : fs.File) (w w' : fs.World) : Type 0 where
    pub at_path : path_of file ≡ lock_path fs path
    pub was_free : is_locked (lock_path fs path) w ≡ false
    pub locks :
        (p : Text)
        → is_locked p w' ≡ (if text_eq (lock_path fs path) p then true else is_locked p w)

  -- the attempt to lock a file that is open
  locked_cases :
      (path : Text) (file : fs.File) (r : Result FileError (Unit {0}))
      → ((f : fs.File) → locked fs db path file r ≡ ok f → (r ≡ ok tt) × (f ≡ file))
        × ((e : StorageError db)
            → locked fs db path file r ≡ err e
            → (why : FileError) × (r ≡ err why))
  unfolding locked
  locked_cases path file (ok v) = (λ f e. (refl, cc), λ e h. cc)
  locked_cases path file (err why) = elim (Bool-cases (lock_is_contended fs why)) [
    | inl held ↦ rw held (λ f e. cc, λ e h. (why, refl))
    | inr broken ↦ rw broken (λ f e. cc, λ e h. (why, refl))
  ]

  pub acquire-Held :
      (path : Text) (w : fs.World)
      → ((file : fs.File)
          → (acquire fs db path w).0 ≡ ok file
          → Held path file w (acquire fs db path w).1)
        × ((e : StorageError db)
            → (acquire fs db path w).0 ≡ err e
            → (p : Text) → is_locked p (acquire fs db path w).1 ≡ is_locked p w)
  unfolding acquire
  acquire-Held path w = elim (Result-cases (fs.open_lock_file (lock_path fs path) w).0) [
    | inr (why, failed) ↦ rw (failed, acquire) (λ file k. cc, λ e k p. opened p)
    | inl (file, made) ↦
        let place = files.path_of_lem (lock_path fs path) w file made in
        let tried = fs.try_lock_exclusive file (fs.open_lock_file (lock_path fs path) w).1 in
        let split = locked_cases (lock_path fs path) file tried.0 in
        rw (made, acquire)
          (
            λ g k.
                let done = split.0 g k in
                let l = files.lock_ok file (fs.open_lock_file (lock_path fs path) w).1 (done.0) in
                record {
                  at_path = ap path_of (done.1) ∙ place;
                  was_free = sym (opened (lock_path fs path)) ∙ (rw place at (l.0));
                  locks = λ p. let m = rw (place, opened p) at (l.1 p) in m;
                },
            λ e k p.
                let done = split.1 e k in
                files.lock_err file (fs.open_lock_file (lock_path fs path) w).1 done.0 p done.1
                ∙ opened p,
          )
  ]
    where
      opened : (p : Text) → is_locked p (fs.open_lock_file (lock_path fs path) w).1 ≡ is_locked p w
      opened p = files.open_lock_file_lem (lock_path fs path) p w

  -- a lock that is given back leaves every lock as it was before
  pub unlock-Held :
      (path : Text) (file : fs.File) (w w' w'' : fs.World)
      → Held path file w w'
      → ((p : Text) → is_locked p w'' ≡ is_locked p w')
      → (p : Text) → is_locked p (fs.unlock file w'') ≡ is_locked p w
  unlock-Held path file w w' w'' h same p = elim (Bool-cases (text_eq (lock_path fs path) p)) [
    | inl here ↦
        let k = rw (h.at_path, here) at (files.unlock_lem file p w'') in
        let place = (text_eq_iff (lock_path fs path) p).0 here in
        k ∙ sym (ap (λ t. is_locked t w) (sym place) ∙ h.was_free)
    | inr there ↦
        let k = rw (h.at_path, there) at (files.unlock_lem file p w'') in
        let l = rw there at (h.locks p) in k ∙ same p ∙ l
  ]

  contended :
      (e : FileError)
      → e.kind ≡ (if fs.windows then e.kind else would_block)
      → e.raw_os_error ≡ (if fs.windows then some 33 else e.raw_os_error)
      → lock_is_contended fs e ≡ true
  unfolding lock_is_contended is_violation
  contended e kind code = elim (Bool-cases fs.windows) [
    | inl windows ↦
        let k = rw windows at code in
        elim (Bool-cases (is_would_block e.kind)) [
          | inl blocks ↦ rw blocks refl
          | inr other ↦ rw (other, windows, k, is_violation) refl
        ]
    | inr unix ↦ let k = rw unix at kind in rw k refl
  ]

  -- while a lock is held, nobody else gets it
  pub acquire-contended :
      (path : Text) (w : fs.World) (file : fs.File)
      → (fs.open_lock_file (lock_path fs path) w).0 ≡ ok file
      → is_locked (lock_path fs path) w ≡ true
      → (acquire fs db path w).0 ≡ err (already_owned (lock_path fs path))
  unfolding acquire locked
  acquire-contended path w file made held =
      let w' = (fs.open_lock_file (lock_path fs path) w).1 in
      let place = files.path_of_lem (lock_path fs path) w file made in
      let there = files.open_lock_file_lem (lock_path fs path) (lock_path fs path) w in
      let k = files.lock_contended file w' (rw place (there ∙ held)) in
      rw (made, acquire, k.1) (rw (contended k.0 k.2 k.3) refl)
