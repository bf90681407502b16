-- ===== src/Store/Load.antt =====
-- `open_database` and `decode_document` of src/store.rs.
pub mod Rows
pub mod Append
pub mod Delete
use aperip_nomos.Prelude.{Bool, List, [], ◌∷◌, Option, none, some, if◌then◌else◌}
use aperip_nomos.Prelude.Int.{ℤ, pos, checked_add_one, max_ℤ}
use aperip_nomos.Prelude.Result.{Result, ok, err, ok_or, map_err, ◌>>=◌ as bind}
use aperip_nomos.Prelude.Exec.{Exec, pure, ◌>>=◌, ◌>>◌}
use aperip_nomos.Text.{Text, codes}
use aperip_nomos.Text.Utf8.{Bytes, from_utf8}
use aperip_nomos.Domain.{LicenseDocument, rehydrate}
use aperip_nomos.Sql.Reading.{SqlValue, Row, int64, text, and_then}
use aperip_nomos.Map.{Map, contains_key, insert}
use aperip_nomos.Database.{
  Crates, CommandOutput, rows, nothing, schema_statements, load_licenses_sql,
}
use aperip_nomos.Storage.{StorageError, open_session, execute, checkpoint}
use aperip_nomos.Store.State.{StoreConfig, StoreStartError, storage, corrupt, DatabaseState}

module _ (x : Crates) where
  abbrev StartError : Type 0
  StartError = StoreStartError x.db

  -- the text of a stored body
  unfoldable pub decode_body : Text → Option Text
  decode_body body_base64 = and_then (x.base64.decode body_base64) from_utf8

  unfoldable pub decode_fields :
      ℤ → Text → Text → Text → Text → Text → ℤ → Result StartError LicenseDocument
  decode_fields id slug title body_base64 source_filename sha256 uploaded_at_ms =
      bind (ok_or (decode_body body_base64) (corrupt (codes "license body is invalid"))) λ body.
        ok_or (rehydrate x.digests id slug title body source_filename sha256 uploaded_at_ms)
          (corrupt (codes "license fields are invalid"))

  unfoldable pub decode_document : Row → Result StartError LicenseDocument
  decode_document
        (int64 id
          ∷ text slug
          ∷ text title
          ∷ text body_base64
          ∷ text source_filename
          ∷ text sha256
          ∷ int64 uploaded_at_ms
          ∷ []) =
      decode_fields id slug title body_base64 source_filename sha256 uploaded_at_ms
  decode_document row = err (corrupt (codes "license row has an unexpected shape"))

  -- one round of the loop over the rows
  unfoldable pub load_document :
      Map LicenseDocument → ℤ → LicenseDocument → Result StartError (Map LicenseDocument × ℤ)
  load_document licenses next_id document =
      if contains_key document.slug licenses
      then err (corrupt (codes "duplicate persisted slug"))
      else bind (ok_or (checked_add_one document.id) (corrupt (codes "license id overflow")))
          λ after. ok (insert document.slug document licenses, max_ℤ next_id after)

  unfoldable pub load_row :
      Map LicenseDocument → ℤ → Row → Result StartError (Map LicenseDocument × ℤ)
  load_row licenses next_id row =
      bind (decode_document row) λ document. load_document licenses next_id document

  unfoldable pub load_from :
      Map LicenseDocument → ℤ → List Row → Result StartError (Map LicenseDocument × ℤ)
  load_from licenses next_id [] = ok (licenses, next_id)
  load_from licenses next_id (row ∷ rest) =
      bind (load_row licenses next_id row)
        λ (licenses', next_id'). load_from licenses' next_id' rest

  unfoldable pub load_rows : List Row → Result StartError (Map LicenseDocument × ℤ)
  load_rows = load_from [] (pos 1)

  -- a storage error where a start error is expected
  abbrev lift {ℓ} :
      {A : Type ℓ} → Exec x.db.World (StorageError x.db) A → Exec x.db.World StartError A
  lift m w = (map_err storage (m w).0, (m w).1)

  unfoldable pub run_schema :
      x.db.Session → List Text → Exec x.db.World (StorageError x.db) (Unit {0})
  run_schema session [] = pure tt
  run_schema session (statement ∷ rest) = do execute x.db session statement; run_schema session rest

  unfoldable pub load_output : x.db.Session → CommandOutput → Result StartError (DatabaseState x.db)
  load_output session nothing = err (corrupt (codes "license scan did not return rows"))
  load_output session (rows batch) = bind (load_rows batch) λ (licenses, next_id).
      ok (record { session = session; licenses = licenses; next_id = next_id })

  -- the session is dropped when a step after its opening fails
  abbrev pub close_on_error {ℓ} :
      {A : Type ℓ}
      → x.db.Session
      → Result StartError A × x.db.World
      → Result StartError A × x.db.World
  close_on_error session (ok a, w) = (ok a, w)
  close_on_error session (err e, w) = (err e, x.db.close session w)

  abbrev pub or_close {ℓ} :
      {A : Type ℓ} → x.db.Session → Exec x.db.World StartError A → Exec x.db.World StartError A
  or_close session step w = close_on_error session (step w)

  -- `open_database` once its session is open
  unfoldable pub load_state : x.db.Session → Exec x.db.World StartError (DatabaseState x.db)
  load_state session = do
    lift (run_schema session schema_statements)
    lift (checkpoint x.db session)
    output ← lift (execute x.db session load_licenses_sql)
    λ w. (load_output session output, w)

  unfoldable pub open_database : StoreConfig → Exec x.db.World StartError (DatabaseState x.db)
  open_database config = do
    session ← lift (open_session x.db config.database_path config.page_key)
    or_close session (load_state session)
