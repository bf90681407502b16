-- ===== src/Store/Reopen.antt =====
-- `open_database` and `recover` of src/store.rs: opening changes no committed row, and a state that is
-- opened mirrors the table.
use aperip_nomos.Prelude.{
  ◌≡◌, refl, sym, ap, ◌∙◌, ◌⊎◌, inl, inr, true, false, List, [], ◌∷◌, Option, some, none, arith,
}
use aperip_nomos.Prelude.Int.{ℤ, pos}
use aperip_nomos.Prelude.Result.{Result, Result-cases, ok, err, >>=-eq-ok}
use aperip_nomos.Domain.{LicenseDocument}
use aperip_nomos.Sql.Reading.{Row}
use aperip_nomos.Map.{Map}
use aperip_nomos.Map.Laws.{IsOrdered, insert-IsOrdered}
use aperip_nomos.Database.{
  Crates, CommandOutput, rows, nothing, RnmdbLaws, create_table_sql, id_index_sql, slug_index_sql,
  load_licenses_sql, schema_statements,
}
use aperip_nomos.Storage.{open_session, execute, checkpoint}
use aperip_nomos.Store.State.{
  StoreConfig, StoreError, storage_unavailable, StoreStartError, DatabaseState, StoreCore,
}
use aperip_nomos.Store.Load.{
  load_row, load_from, load_rows, load_output, run_schema, close_on_error, load_state,
  open_database,
}
use aperip_nomos.Store.Load.Append.{load_row_inv, load_from-AllBelow}
use aperip_nomos.Store.Load.Delete.{load_document_inv}
use aperip_nomos.Store.Core.{close_state, recover}
use aperip_nomos.Store.Coherent.{IsOpen, Coherent}

module _ (x : Crates) where
  load_from-IsOrdered :
      (m : Map LicenseDocument) (n : ℤ) (t : List Row) (m' : Map LicenseDocument) (n' : ℤ)
      → IsOrdered m
      → load_from x m n t ≡ ok (m', n')
      → IsOrdered m'
  unfolding load_from
  load_from-IsOrdered m n [] m' n' o h = ground arith
  load_from-IsOrdered m n (r ∷ t) m' n' o h =
      let ((m₁, n₁), e, k) = >>=-eq-ok (load_row x m n r) _ h in
      let (d, f, g) = load_row_inv x m n r m₁ n₁ e in
      let (a, next, absent, inserted, bound) = load_document_inv x m n d m₁ n₁ g in
      let o' : IsOrdered m₁ = rw inserted (insert-IsOrdered d.slug d m o) in
      load_from-IsOrdered m₁ n₁ t m' n' o' k

module _ (x : Crates) (laws : RnmdbLaws x.db) where
  open x use {db}
  open laws use {table, pending}

  -- a step that neither changes the table nor opens a transaction
  abbrev Quiet : db.World → db.World → Type 0
  Quiet w w' = (table w' ≡ table w) × (pending w' ≡ none)

  run_schema-Quiet :
      (s : db.Session) (w : db.World)
      → pending w ≡ none
      → Quiet w (run_schema x s schema_statements w).1
  unfolding run_schema execute
  run_schema-Quiet s w h =
      let a = laws.create_table s w h in
      let w₁ = (db.execute s create_table_sql w).1 in
      let b = laws.create_id_index s w₁ a.1 in
      let w₂ = (db.execute s id_index_sql w₁).1 in
      let c = laws.create_slug_index s w₂ b.1 in
      elim (Result-cases (db.execute s create_table_sql w).0) [
        | inr (e, failed) ↦ rw failed a
        | inl (o, ran) ↦ elim (Result-cases (db.execute s id_index_sql w₁).0) [
          | inr (e, failed) ↦ rw (ran, failed) (b.0 ∙ a.0, b.1)
          | inl (o', ran') ↦ elim (Result-cases (db.execute s slug_index_sql w₂).0) [
            | inr (e, failed) ↦ rw (ran, ran', failed) (c.0 ∙ b.0 ∙ a.0, c.1)
            | inl (o'', ran'') ↦ rw (ran, ran', ran'') (c.0 ∙ b.0 ∙ a.0, c.1)
          ]
        ]
      ]

  load_output-IsOpen :
      (s : db.Session) (o : CommandOutput) (w : db.World) (state : DatabaseState db)
      → o ≡ rows (table w)
      → pending w ≡ none
      → load_output x s o ≡ ok state
      → IsOpen x laws state w
  unfolding load_output load_rows
  load_output-IsOpen s nothing w state e p h = cc
  load_output-IsOpen s (rows batch) w state e p h =
      let ((m, n), loaded, made) = >>=-eq-ok (load_from x [] (pos 1) batch) _ h in
      let low = (load_from-AllBelow x [] (pos 1) batch m n loaded).0 in
      let ordered = load_from-IsOrdered x [] (pos 1) batch m n tt loaded in
      let result : state ≡ record { session = s; licenses = m; next_id = n } = cc in
      let scanned : load_from x [] (pos 1) (table w) ≡ ok (m, n) = cc in
      rw result (record {
        closed = p;
        mirror = record {
          loaded = m;
          bound = n;
          loads = scanned;
          same = λ slug. refl;
          fits = omega arith;
        };
        ordered = ordered;
        positive = low;
      })

  -- the committed rows stay, and a state that is returned mirrors them
  abbrev Mirrored : db.World → Result (StoreStartError db) (DatabaseState db) × db.World → Type 0
  Mirrored w r =
      (table r.1 ≡ table w)
      × ((state : DatabaseState db) → r.0 ≡ ok state → IsOpen x laws state r.1)

  load_state-Mirrored :
      (s : db.Session) (w : db.World) → pending w ≡ none → Mirrored w (load_state x s w)
  unfolding load_state checkpoint execute
  load_state-Mirrored s w h = elim (Result-cases (run_schema x s schema_statements w).0) [
    | inr (e, failed) ↦ rw failed (b.0, λ state k. cc)
    | inl (u, schema) ↦
        let w₂ = (db.checkpoint s w₁).1 in
        let c = laws.checkpoint_table s w₁ in
        elim (Result-cases (db.checkpoint s w₁).0) [
          | inr (e, failed) ↦ rw (schema, failed) (c.0 ∙ b.0, λ state k. cc)
          | inl (v, checked) ↦
              let d = laws.select s w₂ (c.1 b.1) in
              elim (Result-cases (db.execute s load_licenses_sql w₂).0) [
                | inr (e, failed) ↦ rw (schema, checked, failed) (d.0 ∙ c.0 ∙ b.0, λ state k. cc)
                | inl (o, scanned) ↦
                    rw (schema, checked, scanned)
                      (
                        d.0 ∙ c.0 ∙ b.0,
                        λ state k.
                            load_output-IsOpen s o _ state (d.2 o scanned ∙ ap rows (sym d.0)) d.1
                              k,
                      )
              ]
        ]
  ]
    where
      w₁ : db.World
      w₁ = (run_schema x s schema_statements w).1

      b : Quiet w w₁
      b = run_schema-Quiet s w h

  close_on_error-Mirrored :
      (s : db.Session) (w : db.World)
      (r : Result (StoreStartError db) (DatabaseState db) × db.World)
      → Mirrored w r
      → Mirrored w (close_on_error x s r)
  close_on_error-Mirrored s w (ok state, w') h = h
  close_on_error-Mirrored s w (err e, w') h = ((laws.close_table s w').0 ∙ h.0, λ state k. cc)

  -- While no transaction is open, opening the database changes no committed row, and a state that it
  -- returns mirrors the table.
  pub open_database-IsOpen :
      (config : StoreConfig) (w : db.World)
      → pending w ≡ none
      → (table (open_database x config w).1 ≡ table w)
        × ((state : DatabaseState db)
            → (open_database x config w).0 ≡ ok state
            → IsOpen x laws state (open_database x config w).1)
  unfolding open_database open_session
  open_database-IsOpen config w h =
      elim (Result-cases (db.open_session config.database_path config.page_key w).0) [
        | inr (e, failed) ↦ rw failed (a.0, λ state k. cc)
        | inl (s, opened) ↦
            let loaded = close_on_error-Mirrored s w₁ _ (load_state-Mirrored s w₁ (a.1 h)) in
            rw opened (loaded.0 ∙ a.0, loaded.1)
      ]
    where
      w₁ : db.World
      w₁ = (db.open_session config.database_path config.page_key w).1

      a : (table w₁ ≡ table w) × (pending w ≡ none → pending w₁ ≡ none)
      a = laws.open_table config.database_path config.page_key w

  -- what `recover` leaves of a core
  pub record Recovered (core : StoreCore db) (r : Result StoreError (Unit {0}) × StoreCore db)
      : Type 0 where
    pub kept : table r.1.world ≡ table core.world
    pub coherent : Coherent x laws r.1
    pub outcome :
        ((r.0 ≡ ok tt)
          × (r.1.shared.ready ≡ true)
          × (r.1.shared.alive ≡ core.shared.alive)
          × ((state : DatabaseState db) × (r.1.state ≡ some state)))
        ⊎ ((r.0 ≡ err storage_unavailable)
            × (r.1.shared.ready ≡ false)
            × (r.1.shared.alive ≡ false)
            × (r.1.state ≡ none))

  close_state-Quiet :
      (o : Option (DatabaseState db)) (w : db.World) (state : DatabaseState db)
      → o ≡ some state
      → Quiet w (close_state x o w)
  close_state-Quiet none w state e = cc
  close_state-Quiet (some s) w state e = laws.close_table s.session w

  -- On a core whose state is open, `recover` keeps the committed rows and leaves a coherent core. Either
  -- it succeeds, with a state and the flag `ready`, or it fails, with no state and both flags off.
  pub recover-Recovered :
      (core : StoreCore db) (state : DatabaseState db)
      → core.state ≡ some state
      → Recovered core (recover x core)
  unfolding recover
  recover-Recovered core state h = elim (Result-cases (open_database x core.config closed).0) [
    | inl (state', e) ↦
        rw (e, recover)
          (record {
            kept = found.0 ∙ shut.0;
            coherent = found.1 state' e;
            outcome = inl (refl, refl, refl, (state', refl));
          })
    | inr (f, e) ↦
        rw (e, recover)
          (record {
            kept = found.0 ∙ shut.0;
            coherent = tt;
            outcome = inr (refl, refl, refl, refl);
          })
  ]
    where
      closed : db.World
      closed = close_state x core.state core.world

      shut : Quiet core.world closed
      shut = close_state-Quiet core.state core.world state h

      found :
          (table (open_database x core.config closed).1 ≡ table closed)
          × ((state' : DatabaseState db)
              → (open_database x core.config closed).0 ≡ ok state'
              → IsOpen x laws state' (open_database x core.config closed).1)
      found = open_database-IsOpen core.config closed shut.1
