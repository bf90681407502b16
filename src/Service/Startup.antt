-- ===== src/Service/Startup.antt =====
-- `main` of src/main.rs up to the point where its listeners are served: the configuration, the two
-- sockets, and the store. Binding a socket is a parameter.
use aperip_nomos.Prelude.{ℕ, ◌≡◌, refl, Option, none}
use aperip_nomos.Prelude.Result.{Result, ok, err, map_err, ◌>>=◌ as then, >>=-eq-ok}
use aperip_nomos.Prelude.Exec.{Exec, pure, proceed, ◌>>=◌, map_error}
use aperip_nomos.Text.{Text, codes}
use aperip_nomos.Database.{Crates, RnmdbLaws}
use aperip_nomos.Files.{FileSystem, FileLaws}
use aperip_nomos.Config.{
  ConfigValues, EnvVar, Platform, ServiceConfig, ConfigError, from_env, from_values,
}
use aperip_nomos.Config.Valid.{IsValidConfig, from_values-IsValidConfig}
use aperip_nomos.Store.State.{StoreConfig, StoreStartError}
use aperip_nomos.Store.Spawn.{Host, Spawned, spawn_store}
use aperip_nomos.Store.Spawn.Started.{Started, spawn_store-Outcome}

abbrev pub store_queue_capacity : ℕ
store_queue_capacity = 128

module _ (p : Platform) (x : Crates) (fs : FileSystem) {Listener BindFailure : Type 0}
    (bind : p.SocketAddr → Result BindFailure Listener) where
  -- `ServiceConfig::load`
  unfoldable pub load :
      (Text → EnvVar) → (Text → Option Text) → Result (ConfigError p) (ServiceConfig p)
  load var var_os = then (from_env p var var_os) (from_values p)

  -- the error of `bind_listener`, with the name, the address and the cause that its text shows
  pub record BindError : Type 0 where
    pub name : Text
    pub address : p.SocketAddr
    pub cause : BindFailure

  unfoldable pub bind_listener : Text → p.SocketAddr → Result BindError Listener
  bind_listener name address =
      map_err (λ e. record { name = name; address = address; cause = e }) (bind address)

  pub data StartupError : Type 0 where
    config_error : ConfigError p → StartupError
    bind_error : BindError → StartupError
    start_error : StoreStartError x.db → StartupError

  -- what `main` serves with
  pub record Ready : Type 0 where
    pub config : ServiceConfig p
    pub public_listener : Listener
    pub admin_listener : Listener
    pub store : Spawned x fs

  -- the settings that `main` hands to `spawn_store`
  unfoldable pub store_config : ServiceConfig p → StoreConfig
  store_config config = record {
    database_path = config.database_path;
    page_key = config.page_key;
    queue_capacity = store_queue_capacity;
  }

  -- a step that does not touch the store
  abbrev pub fixed {ℓ κ} :
      {E : Type ℓ} {A : Type κ} → (E → StartupError) → Result E A → Exec (Host x fs) StartupError A
  fixed f r host = (map_err f r, host)

  unfoldable pub start_service :
      (Text → EnvVar) → (Text → Option Text) → Exec (Host x fs) StartupError Ready
  start_service var var_os = do
    config ← fixed config_error (load var var_os)
    public ← fixed bind_error (bind_listener (codes "public") config.public_bind_addr)
    admin ← fixed bind_error (bind_listener (codes "administrator") config.admin_bind_addr)
    store ← map_error start_error (spawn_store x fs (store_config config))
    pure (record {
      config = config;
      public_listener = public;
      admin_listener = admin;
      store = store;
    })

  module _ (laws : RnmdbLaws x.db) (files : FileLaws fs) (h : Host x fs) where
    open laws use {pending}

    -- what stands when the service has started
    pub record IsServing (var : Text → EnvVar) (var_os : Text → Option Text) (ready : Ready)
        (h' : Host x fs) : Type 0 where
      pub values : ConfigValues
      pub read : from_env p var var_os ≡ ok values
      pub valid : IsValidConfig p values ready.config
      pub public_bound : bind ready.config.public_bind_addr ≡ ok ready.public_listener
      pub admin_bound : bind ready.config.admin_bind_addr ≡ ok ready.admin_listener
      pub started : Started x laws fs files h h' ready.store

    map_err-eq-ok {ℓ κ μ} :
        {E : Type ℓ} {F : Type κ} {A : Type μ} (f : E → F) (r : Result E A) (a : A)
        → map_err f r ≡ ok a
        → r ≡ ok a
    map_err-eq-ok f (ok b) a e = cc
    map_err-eq-ok f (err c) a e = cc

    ok_inj {ℓ κ μ} :
        {S : Type ℓ} {E : Type κ} {A : Type μ} (a b : A) (s t : S)
        → Path (Result E A × S) (ok a, s) (ok b, t)
        → (a ≡ b) × (s ≡ t)
    ok_inj a b s t e = (cc, cc)

    proceed-eq-ok {ℓ κ μ ν} :
        {S : Type ℓ} {E : Type κ} {A : Type μ} {B : Type ν} (q : Result E A × S)
        (f : A → Exec S E B) (b : B) (s : S)
        → proceed q f ≡ (ok b, s)
        → (a : A) × (q.0 ≡ ok a) × (f a q.1 ≡ (ok b, s))
    proceed-eq-ok (ok a, t) f b s e = (a, refl, e)
    proceed-eq-ok (err c, t) f b s e = cc

    -- When the service has started on a database that nobody is writing to, its configuration is the
    -- one that the environment names and is valid, its two listeners are bound to their addresses, which
    -- have different ports, and the store is open, mirrors the table, has its flags on and holds the
    -- lock of its database, which nobody held.
    pub start_service-IsServing :
        (var : Text → EnvVar) (var_os : Text → Option Text) (ready : Ready) (h' : Host x fs)
        → pending h.database ≡ none
        → start_service var var_os h ≡ (ok ready, h')
        → IsServing var var_os ready h'
    unfolding start_service load bind_listener
    start_service-IsServing var var_os ready h' quiet e =
        let (config, loaded, e₁) =
          proceed-eq-ok (fixed config_error (load var var_os) h) _ ready h' e in
        let (public, bound, e₂) =
          proceed-eq-ok
            (fixed bind_error (bind_listener (codes "public") config.public_bind_addr) h) _ ready h'
            e₁ in
        let (admin, bound_too, e₃) =
          proceed-eq-ok
            (fixed bind_error (bind_listener (codes "administrator") config.admin_bind_addr) h) _
            ready h' e₂ in
        let (store, spawned, e₄) =
          proceed-eq-ok (map_error start_error (spawn_store x fs (store_config config)) h) _ ready
            h' e₃ in
        let (values, read, accepted) =
          >>=-eq-ok (from_env p var var_os) (from_values p)
            (map_err-eq-ok config_error (load var var_os) config loaded) in
        let outcome = spawn_store-Outcome x laws fs files (store_config config) h quiet in
        let (ready_is, host_is) = ok_inj _ ready _ h' e₄ in
        let here : IsServing var var_os
            (record {
              config = config;
              public_listener = public;
              admin_listener = admin;
              store = store;
            })
            (spawn_store x fs (store_config config) h).1 =
          record {
            values = values;
            read = read;
            valid = from_values-IsValidConfig p values config accepted;
            public_bound =
                map_err-eq-ok _ (bind config.public_bind_addr) public
                  (map_err-eq-ok bind_error _ public bound);
            admin_bound =
                map_err-eq-ok _ (bind config.admin_bind_addr) admin
                  (map_err-eq-ok bind_error _ admin bound_too);
            started = outcome.success store (
                map_err-eq-ok start_error (spawn_store x fs (store_config config) h).0 store
                  spawned);
          } in
        rw (ready_is, host_is) at here
