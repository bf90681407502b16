-- ===== src/Store/Core.antt =====
-- The operations of `StoreCore` in src/store.rs.
use aperip_nomos.Prelude.{
  Bool, true, false, not, ◌&&◌, ◌||◌, List, [], ◌∷◌, Option, none, some, map, if◌then◌else◌,
}
use aperip_nomos.Prelude.Int.{ℤ, eq_ℤ, checked_add_one}
use aperip_nomos.Prelude.Result.{Result, ok, err, ok_or}
use aperip_nomos.Prelude.Exec.{Exec, pure, ◌>>◌}
use aperip_nomos.Text.{Text, text_eq}
use aperip_nomos.Text.Utf8.{as_bytes}
use aperip_nomos.Text.Order.{text_lt}
use aperip_nomos.Domain.{LicenseDraft, LicenseDocument, LicenseMetadata, metadata, into_document}
use aperip_nomos.Sql.{insert_text, delete_statement}
use aperip_nomos.Map.{lookup, contains_key, insert, remove, values}
use aperip_nomos.Database.{Crates, begin_sql, commit_sql, rollback_sql}
use aperip_nomos.Storage.{StorageError, execute}
use aperip_nomos.Store.State.{
  StoreError, duplicate_slug, not_found, storage_unavailable, DatabaseState, StoreCore,
}
use aperip_nomos.Store.Load.{open_database}

-- `==` on documents
unfoldable pub document_eq : LicenseDocument → LicenseDocument → Bool
document_eq a b =
    eq_ℤ a.id b.id
    && text_eq a.slug b.slug
    && text_eq a.title b.title
    && text_eq a.body b.body
    && text_eq a.source_filename b.source_filename
    && text_eq a.sha256 b.sha256
    && eq_ℤ a.uploaded_at_ms b.uploaded_at_ms

-- the comparison of `list` is `Greater`: by title, then by slug
unfoldable pub listed_after : LicenseMetadata → LicenseMetadata → Bool
listed_after left right =
    text_lt right.title left.title
    || (not (text_lt left.title right.title) && text_lt right.slug left.slug)

-- `sort_by`, a stable sort
unfoldable pub insert_sorted : LicenseMetadata → List LicenseMetadata → List LicenseMetadata
insert_sorted a [] = a ∷ []
insert_sorted a (b ∷ rest) = if listed_after a b then b ∷ insert_sorted a rest else a ∷ b ∷ rest

unfoldable pub sort_listed : List LicenseMetadata → List LicenseMetadata
sort_listed [] = []
sort_listed (a ∷ rest) = insert_sorted a (sort_listed rest)

module _ (x : Crates) where
  open x use {db}

  -- `if let Err(error) = step { let _ = ROLLBACK; return Err(error) }`
  unfoldable pub or_rollback {ℓ} :
      {A : Type ℓ}
      → db.Session
      → Exec db.World (StorageError db) A
      → Exec db.World (StorageError db) A
  or_rollback session step w = elim (step w).0 [
    | ok a ↦ (ok a, (step w).1)
    | err e ↦ (err e, (execute db session rollback_sql (step w).1).1)
  ]

  -- `transaction`; its `expect` is met, since every caller has just read the session
  unfoldable pub transaction : db.Session → Text → Exec db.World (StorageError db) (Unit {0})
  transaction session statement = do
    execute db session begin_sql
    or_rollback session (execute db session statement)
    or_rollback session (execute db session commit_sql)
    pure tt

  unfoldable pub insert_statement : LicenseDocument → Text
  insert_statement document =
      insert_text document.id document.slug document.title
        (x.base64.encode (as_bytes document.body)) document.source_filename document.sha256
        document.uploaded_at_ms

  unfoldable pub persist_create :
      db.Session → LicenseDocument → Exec db.World (StorageError db) (Unit {0})
  persist_create session document = transaction session (insert_statement document)

  unfoldable pub persist_delete : db.Session → Text → Exec db.World (StorageError db) (Unit {0})
  persist_delete session slug = transaction session (delete_statement slug)

  -- the state is taken, and its session dropped
  abbrev pub close_state : Option (DatabaseState db) → db.World → db.World
  close_state none w = w
  close_state (some state) w = db.close state.session w

  unfoldable pub recover : Exec (StoreCore db) StoreError (Unit {0})
  recover core =
      let unready = record core.shared { ready = false } in
      let opened = open_database x core.config (close_state core.state core.world) in
      elim opened.0 [
        | ok state ↦ (
          ok tt,
          record core {
            shared = record unready { ready = true };
            state = some state;
            world = opened.1;
          },
        )
        | err e ↦ (
          err storage_unavailable,
          record core { shared = record unready { alive = false }; state = none; world = opened.1 },
        )
      ]

  -- the documents of a core, if its state is open
  unfoldable pub find : Option (DatabaseState db) → Text → Option LicenseDocument
  find none slug = none
  find (some state) slug = lookup slug state.licenses

  unfoldable pub is_durable : Option LicenseDocument → LicenseDocument → Bool
  is_durable none document = false
  is_durable (some persisted) document = document_eq persisted document

  unfoldable pub recover_after_create_error :
      LicenseDocument → Exec (StoreCore db) StoreError (Unit {0})
  recover_after_create_error document = do
    recover
    λ core. (
      if is_durable (find core.state document.slug) document
          then ok tt
          else err storage_unavailable,
      core,
    )

  unfoldable pub is_gone : Option (DatabaseState db) → Text → Bool
  is_gone none slug = false
  is_gone (some state) slug = not (contains_key slug state.licenses)

  unfoldable pub recover_after_delete_error : Text → Exec (StoreCore db) StoreError (Unit {0})
  recover_after_delete_error slug = do
    recover
    λ core. (if is_gone core.state slug then ok tt else err storage_unavailable, core)

  -- `create` from the point where it writes
  unfoldable pub write_document :
      DatabaseState db → LicenseDocument → ℤ → Exec (StoreCore db) StoreError LicenseDocument
  write_document state document next_id core =
      let written = persist_create state.session document core.world in
      let core' = record core { world = written.1 } in
      elim written.0 [
        | err e ↦ (recover_after_create_error document >> pure document) core'
        | ok _ ↦ (
          ok document,
          record core' {
            state = some (record state {
              licenses = insert document.slug document state.licenses;
              next_id = next_id;
            });
          },
        )
      ]

  -- `create`, given the state of the core
  unfoldable pub create_in :
      Option (DatabaseState db) → LicenseDraft → Exec (StoreCore db) StoreError LicenseDocument
  create_in none draft core = (err storage_unavailable, core)
  create_in (some state) draft core =
      if contains_key draft.slug state.licenses
      then (err duplicate_slug, core)
      else elim (checked_add_one state.next_id) [
        | none ↦ (err storage_unavailable, core)
        | some next_id ↦ write_document state (into_document draft state.next_id) next_id core
      ]

  unfoldable pub create : LicenseDraft → Exec (StoreCore db) StoreError LicenseDocument
  create draft core = create_in core.state draft core

  unfoldable pub list : StoreCore db → Result StoreError (List LicenseMetadata)
  list core = elim core.state [
    | none ↦ err storage_unavailable
    | some state ↦ ok (sort_listed (map metadata (values state.licenses)))
  ]

  unfoldable pub get : StoreCore db → Text → Result StoreError LicenseDocument
  get core slug = ok_or (find core.state slug) not_found

  -- `delete` from the point where it writes
  unfoldable pub remove_document :
      DatabaseState db → Text → LicenseDocument → Exec (StoreCore db) StoreError LicenseDocument
  remove_document state slug document core =
      let written = persist_delete state.session slug core.world in
      let core' = record core { world = written.1 } in
      elim written.0 [
        | err e ↦ (recover_after_delete_error slug >> pure document) core'
        | ok _ ↦ (
          ok_or (lookup slug state.licenses) storage_unavailable,
          record core' { state = some (record state { licenses = remove slug state.licenses }) },
        )
      ]

  -- `delete`, given the state of the core
  unfoldable pub delete_in :
      Option (DatabaseState db) → Text → Exec (StoreCore db) StoreError LicenseDocument
  delete_in none slug core = (err not_found, core)
  delete_in (some state) slug core = elim (lookup slug state.licenses) [
    | none ↦ (err not_found, core)
    | some document ↦ remove_document state slug document core
  ]

  unfoldable pub delete : Text → Exec (StoreCore db) StoreError LicenseDocument
  delete slug core = delete_in core.state slug core
