-- ===== src/Store/Spawn/Locked.antt =====
-- A second owner of a database is turned away by `spawn_store` of src/store.rs.
use aperip_nomos.Prelude.{◌≡◌, refl, ◌∙◌, inl, inr, true, Bool-cases, Option-cases}
use aperip_nomos.Prelude.Result.{Result, Result-cases, ok, err}
use aperip_nomos.Prelude.Exec.{proceed, proceed-ok, proceed-err, map_error}
use aperip_nomos.Text.{Text}
use aperip_nomos.Database.{Crates}
use aperip_nomos.Files.{FileSystem, FileLaws}
use aperip_nomos.Storage.{already_owned}
use aperip_nomos.Storage.Owner.{
  is_not_found, parent_or_dot, lock_path, canonical_database_path, acquire,
}
use aperip_nomos.Storage.Locking.{acquire-contended}
use aperip_nomos.Store.State.{StoreConfig, StoreStartError, storage}
use aperip_nomos.Store.Spawn.{
  Host, Start, Spawned, on_files, open_locked, open_owned, check_config, create_parent,
  canonical_path, open_canonical, spawn_store,
}

module _ (x : Crates) (fs : FileSystem) (files : FileLaws fs) where
  open x use {db}
  open files use {is_locked}

  pub canonical-locks :
      (path : Text) (w : fs.World) (p : Text)
      → is_locked p (canonical_database_path fs db path w).1 ≡ is_locked p w
  unfolding canonical_database_path
  canonical-locks path w p =
      let first = fs.canonicalize path w in
      let here = files.canonicalize_lem path p w in
      elim (Result-cases first.0) [
        | inl (canonical, found) ↦ rw (found, canonical_database_path) here
        | inr (source, failed) ↦ elim (Bool-cases (is_not_found source.kind)) [
          | inr other ↦ rw (failed, canonical_database_path, other) here
          | inl absent ↦ elim (Option-cases (fs.file_name path)) [
            | inl nameless ↦ rw (failed, canonical_database_path, absent, nameless) here
            | inr (name, named) ↦
                rw (failed, canonical_database_path, absent, named)
                  (files.canonicalize_lem (parent_or_dot fs path) p first.1 ∙ here)
          ]
        ]
      ]

  refused-proceed {ℓ} :
      {A : Type ℓ} (q : Result (StoreStartError db) A × Host x fs)
      (next : A → Start x fs (Spawned x fs)) (e : StoreStartError db) (h : Host x fs)
      → q.0 ≡ err e
      → q.1.database ≡ h.database
      → ((proceed q next).0 ≡ err e) × ((proceed q next).1.database ≡ h.database)
  refused-proceed q next e h failed same = rw (proceed-err q next failed) (refl, same)

  locked_out_at :
      (config : StoreConfig) (h : Host x fs) (file : fs.File)
      → (fs.open_lock_file (lock_path fs config.database_path) h.files).0 ≡ ok file
      → is_locked (lock_path fs config.database_path) h.files ≡ true
      → ((open_owned x fs config h).0
          ≡ err (storage (already_owned (lock_path fs config.database_path))))
        × ((open_owned x fs config h).1.database ≡ h.database)
  unfolding open_owned
  locked_out_at config h file made held =
      let e = acquire-contended fs files db config.database_path h.files file made held in
      refused-proceed (on_files x fs (map_error storage (acquire fs db config.database_path)) h)
        (open_locked x fs config) _ h (rw e refl) refl

  -- While the lock on the canonical path of a database is held, `spawn_store` on it fails with
  -- `AlreadyOwned`, as long as the steps before the lock succeed, and does not touch the database.
  pub locked_out :
      (config : StoreConfig) (h : Host x fs) (path : Text) (file : fs.File)
      → (check_config x fs config h).0 ≡ ok tt
      → (create_parent x fs config h).0 ≡ ok tt
      → (canonical_path x fs config (create_parent x fs config h).1).0 ≡ ok path
      → (fs.open_lock_file
          (lock_path fs path)
          (canonical_path x fs config (create_parent x fs config h).1).1.files).0
        ≡ ok file
      → is_locked (lock_path fs path) h.files ≡ true
      → ((spawn_store x fs config h).0 ≡ err (storage (already_owned (lock_path fs path))))
        × ((spawn_store x fs config h).1.database ≡ h.database)
  unfolding spawn_store
  locked_out config h path file checked created canonical opened held =
      let h₁ = (create_parent x fs config h).1 in
      let h₂ = (canonical_path x fs config h₁).1 in
      let still : is_locked (lock_path fs path) h₂.files ≡ true =
        canonical-locks config.database_path h₁.files (lock_path fs path)
        ∙ files.create_dir_all_lem (parent_or_dot fs config.database_path) (lock_path fs path)
            h.files
        ∙ held in
      rw
        (
          proceed-ok (check_config x fs config h)
              (λ _ host. proceed (create_parent x fs config host) λ _. open_canonical x fs config)
              checked,
          proceed-ok (create_parent x fs config h) (λ _. open_canonical x fs config) created,
          proceed-ok (canonical_path x fs config h₁)
              (λ p. open_owned x fs (record config { database_path = p })) canonical,
        )
        (locked_out_at (record config { database_path = path }) h₂ file opened still)
