-- ===== src/Store/Spawn/Started.antt =====
-- What `spawn_store` of src/store.rs leaves, on every way out of it.
use aperip_nomos.Prelude.{◌≡◌, refl, ◌∙◌, sym, ap, true, none, some}
use aperip_nomos.Prelude.Result.{Result, ok, err, map_err}
use aperip_nomos.Prelude.Exec.{proceed, map_error}
use aperip_nomos.Text.{Text}
use aperip_nomos.Database.{Crates, RnmdbLaws}
use aperip_nomos.Files.{FileSystem, FileLaws}
use aperip_nomos.Storage.Owner.{parent_or_dot, acquire}
use aperip_nomos.Storage.Locking.{Held, acquire-Held, unlock-Held}
use aperip_nomos.Store.State.{StoreConfig, StoreStartError, storage, thread, DatabaseState}
use aperip_nomos.Store.Load.{open_database}
use aperip_nomos.Store.Coherent.{IsOpen}
use aperip_nomos.Store.Reopen.{open_database-IsOpen}
use aperip_nomos.Store.Spawn.{
  Host, Start, Spawned, on_files, on_database, unlock_failed, close_failed, start_thread, started,
  open_locked, open_owned, check_config, create_parent, canonical_path, open_canonical, spawn_store,
}
use aperip_nomos.Store.Spawn.Locked.{canonical-locks}

ok-of_map_err {ℓ κ μ} :
    {E : Type ℓ} {F : Type κ} {A : Type μ} (f : E → F) (r : Result E A) (a : A)
    → map_err f r ≡ ok a
    → r ≡ ok a
ok-of_map_err f (ok b) a h = cc
ok-of_map_err f (err e) a h = cc

err-of_map_err {ℓ κ μ} :
    {E : Type ℓ} {F : Type κ} {A : Type μ} (f : E → F) (r : Result E A) (e : F)
    → map_err f r ≡ err e
    → (why : E) × (r ≡ err why)
err-of_map_err f (ok b) e h = cc
err-of_map_err f (err why) e h = (why, refl)

module _ (x : Crates) (laws : RnmdbLaws x.db) (fs : FileSystem) (files : FileLaws fs) where
  open x use {db}
  open laws use {table, pending}
  open files use {is_locked}

  -- A core that has started has an open state that mirrors the table of the database, all its flags on,
  -- and the lock of its path, which nobody held.
  pub record Started (h h' : Host x fs) (s : Spawned x fs) : Type 0 where
    pub state : DatabaseState db
    pub opened : s.core.state ≡ some state
    pub mirror : IsOpen x laws state s.core.world
    pub flags : s.core.shared ≡ record { ready = true; alive = true; liveness = true }
    pub owned : Held fs files db s.core.config.database_path s.lock h.files h'.files

  pub record Outcome (h : Host x fs) (r : Result (StoreStartError db) (Spawned x fs) × Host x fs)
      : Type 0 where
    pub success : (s : Spawned x fs) → r.0 ≡ ok s → Started h r.1 s
    pub failure :
        (e : StoreStartError db)
        → r.0 ≡ err e
        → (p : Text) → is_locked p r.1.files ≡ is_locked p h.files
    pub kept : table r.1.database ≡ table h.database

  module _ (config : StoreConfig) (lock : fs.File) (h h' : Host x fs)
      (held : Held fs files db config.database_path lock h.files h'.files) where
    -- from the thread on
    thread-Outcome :
        (state : DatabaseState db) (q : Result (StoreStartError db) (Unit {0}) × Host x fs)
        → ((p : Text) → is_locked p q.1.files ≡ is_locked p h'.files)
        → table q.1.database ≡ table h.database
        → (q.0 ≡ ok tt → IsOpen x laws state q.1.database)
        → Outcome h (proceed (unlock_failed x fs lock q) λ _. started x fs config lock state)
    unfolding started
    thread-Outcome state (ok v, h₂) same kept mirror = record {
      success = λ s k.
          let e : s ≡ record {
            core = record {
              config = config;
              shared = record { ready = true; alive = true; liveness = true };
              state = some state;
              world = h₂.database;
            };
            lock = lock;
          } =
            cc in
          rw e (record {
            state = state;
            opened = refl;
            mirror = mirror refl;
            flags = refl;
            owned = record {
              at_path = held.at_path;
              was_free = held.was_free;
              locks = λ p. same p ∙ held.locks p;
            };
          });
      failure = λ e k. cc;
      kept = kept;
    }
    thread-Outcome state (err e, h₂) same kept mirror = record {
      success = λ s k. cc;
      failure = λ f k.
          unlock-Held fs files db config.database_path lock h.files h'.files h₂.files held same;
      kept = kept;
    }

    -- what becomes of the state when the thread starts, or not
    close_failed-kept :
        (state : DatabaseState db) (q : Result (StoreStartError db) (Unit {0}) × Host x fs)
        → IsOpen x laws state q.1.database
        → ((close_failed x fs state q).1.files ≡ q.1.files)
          × (table (close_failed x fs state q).1.database ≡ table q.1.database)
          × ((close_failed x fs state q).0 ≡ ok tt
              → IsOpen x laws state (close_failed x fs state q).1.database)
    close_failed-kept state (ok v, h₂) open_ = (refl, refl, λ k. open_)
    close_failed-kept state (err e, h₂) open_ =
        (refl, (laws.close_table state.session h₂.database).0, λ k. cc)

    -- from the opening of the database on
    state-Outcome :
        (q : Result (StoreStartError db) (DatabaseState db) × Host x fs)
        → q.1.files ≡ h'.files
        → table q.1.database ≡ table h.database
        → ((state : DatabaseState db) → q.0 ≡ ok state → IsOpen x laws state q.1.database)
        → Outcome h (
            proceed (unlock_failed x fs lock q) λ state host.
              proceed
                (unlock_failed x fs lock (start_thread x fs state host))
                λ _. started x fs config lock state)
    unfolding start_thread
    state-Outcome (err e, h₁) same kept mirror = record {
      success = λ s k. cc;
      failure = λ f k.
          unlock-Held fs files db config.database_path lock h.files h'.files h₁.files held
            λ p. rw same refl;
      kept = kept;
    }
    state-Outcome (ok state, h₁) same kept mirror =
        let tried = on_files x fs (map_error thread fs.spawn_thread) h₁ in
        let k = close_failed-kept state tried (mirror state refl) in
        thread-Outcome state (close_failed x fs state tried)
          (λ p. rw (k.0, files.spawn_thread_lem p h₁.files, same) refl) (k.1 ∙ kept) (k.2)

  open_locked-Outcome :
      (config : StoreConfig) (lock : fs.File) (h h' : Host x fs)
      → Held fs files db config.database_path lock h.files h'.files
      → h'.database ≡ h.database
      → pending h.database ≡ none
      → Outcome h (open_locked x fs config lock h')
  unfolding open_locked
  open_locked-Outcome config lock h h' held same quiet =
      let opened = open_database-IsOpen x laws config h'.database (rw same quiet) in
      state-Outcome config lock h h' held (on_database x fs (open_database x config) h') refl
        (opened.0 ∙ ap table same) (opened.1)

  -- a step before which nothing has changed but the order of files on the disk
  quiet-Outcome {ℓ} :
      {A : Type ℓ} (h : Host x fs) (q : Result (StoreStartError db) A × Host x fs)
      (next : A → Start x fs (Spawned x fs))
      → ((p : Text) → is_locked p q.1.files ≡ is_locked p h.files)
      → q.1.database ≡ h.database
      → ((a : A) → Outcome q.1 (next a q.1))
      → Outcome h (proceed q next)
  quiet-Outcome h (err e, h₁) next same db_same rest = record {
    success = λ s k. cc;
    failure = λ f k. same;
    kept = ap table db_same;
  }
  quiet-Outcome h (ok a, h₁) next same db_same rest =
      let k = rest a in
      record {
        success = λ s e.
            let begun = k.success s e in
            record {
              state = begun.state;
              opened = begun.opened;
              mirror = begun.mirror;
              flags = begun.flags;
              owned = record {
                at_path = begun.owned.at_path;
                was_free = sym (same _) ∙ begun.owned.was_free;
                locks = λ p. rw (← same p) (begun.owned.locks p);
              };
            };
        failure = λ f e p. k.failure f e p ∙ same p;
        kept = k.kept ∙ ap table db_same;
      }

  acquired-Outcome :
      (config : StoreConfig) (h : Host x fs) (q : Result (StoreStartError db) fs.File × Host x fs)
      → q.1.database ≡ h.database
      → pending h.database ≡ none
      → ((lock : fs.File)
          → q.0 ≡ ok lock
          → Held fs files db config.database_path lock h.files q.1.files)
      → ((e : StoreStartError db)
          → q.0 ≡ err e
          → (p : Text) → is_locked p q.1.files ≡ is_locked p h.files)
      → Outcome h (proceed q (open_locked x fs config))
  acquired-Outcome config h (err e, h₁) same quiet held free = record {
    success = λ s k. cc;
    failure = λ f k. free e refl;
    kept = ap table same;
  }
  acquired-Outcome config h (ok lock, h₁) same quiet held free =
      open_locked-Outcome config lock h h₁ (held lock refl) same quiet

  open_owned-Outcome :
      (config : StoreConfig) (h : Host x fs)
      → pending h.database ≡ none
      → Outcome h (open_owned x fs config h)
  unfolding open_owned
  open_owned-Outcome config h quiet =
      let tried = acquire-Held fs files db config.database_path h.files in
      let r = acquire fs db config.database_path h.files in
      acquired-Outcome config h
        (on_files x fs (map_error storage (acquire fs db config.database_path)) h) refl quiet
        (λ lock e. tried.0 lock (ok-of_map_err storage r.0 lock e))
        λ e k. let f = err-of_map_err storage r.0 e k in tried.1 f.0 f.1

  pub spawn_store-Outcome :
      (config : StoreConfig) (h : Host x fs)
      → pending h.database ≡ none
      → Outcome h (spawn_store x fs config h)
  unfolding spawn_store
  spawn_store-Outcome config h quiet =
      let h₁ = (create_parent x fs config h).1 in
      quiet-Outcome h (check_config x fs config h)
        (λ _ host. proceed (create_parent x fs config host) λ _. open_canonical x fs config)
        (λ p. refl) refl
        λ _.
          quiet-Outcome h (create_parent x fs config h) (λ _. open_canonical x fs config)
            (λ p. files.create_dir_all_lem (parent_or_dot fs config.database_path) p h.files) refl
            λ _.
              quiet-Outcome h₁ (canonical_path x fs config h₁)
                (λ path. open_owned x fs (record config { database_path = path }))
                (canonical-locks x fs files config.database_path h₁.files) refl
                λ path.
                  open_owned-Outcome (record config { database_path = path })
                    (canonical_path x fs config h₁).1 quiet
