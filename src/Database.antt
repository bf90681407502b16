-- ===== src/Database.antt =====
-- The crates under src/store.rs and src/storage.rs: the RNMDB session, whose effects go to the
-- database file, the base64 coder, and the digests.
use aperip_nomos.Prelude.{◌≡◌, ◌⊎◌, Bool, List, [], ◌∷◌, Option, none, some, if◌then◌else◌}
use aperip_nomos.Prelude.Int.{ℤ, ltb_ℤ}
use aperip_nomos.Prelude.Result.{Result, ok}
use aperip_nomos.Text.{Text, codes, text_eq}
use aperip_nomos.Text.Utf8.{Bytes}
use aperip_nomos.Domain.{Digests}
use aperip_nomos.Sql.Reading.{Row, int64, text, other, read_insert, read_delete}

-- `CommandOutput` of the crate `rnmdb_cli`: `nothing` stands for each variant that is no batch of rows.
pub data CommandOutput : Type 0 where
  rows : List Row → CommandOutput
  nothing : CommandOutput

-- `World` is the database file with the state that its open sessions hold.
pub record Rnmdb : Type 1 where
  pub World : Type 0
  pub Session : Type 0
  pub RnovError : Type 0
  pub open_session : Text → Bytes → World → Result RnovError Session × World
  pub execute : Session → Text → World → Result RnovError CommandOutput × World
  pub checkpoint : Session → World → Result RnovError (Unit {0}) × World
  -- the drop of a session
  pub close : Session → World → World

pub record Base64 : Type 0 where
  pub encode : Bytes → Text
  pub decode : Text → Option Bytes
  pub decode_encode : (bytes : Bytes) → decode (encode bytes) ≡ some bytes

pub record Crates : Type 1 where
  pub digests : Digests
  pub base64 : Base64
  pub db : Rnmdb

abbrev pub begin_sql : Text
begin_sql = codes "BEGIN;"

abbrev pub commit_sql : Text
commit_sql = codes "COMMIT;"

abbrev pub rollback_sql : Text
rollback_sql = codes "ROLLBACK;"

abbrev pub create_table_sql : Text
create_table_sql =
    codes
      "CREATE TABLE IF NOT EXISTS licenses (id INT64 NOT NULL, slug TEXT NOT NULL, title TEXT NOT NULL, body_base64 TEXT NOT NULL, source_filename TEXT NOT NULL, sha256 TEXT NOT NULL, uploaded_at_ms INT64 NOT NULL);"

abbrev pub id_index_sql : Text
id_index_sql = codes "CREATE UNIQUE INDEX IF NOT EXISTS licenses_id_uq ON licenses (id);"

abbrev pub slug_index_sql : Text
slug_index_sql = codes "CREATE UNIQUE INDEX IF NOT EXISTS licenses_slug_uq ON licenses (slug);"

abbrev pub schema_statements : List Text
schema_statements = create_table_sql ∷ id_index_sql ∷ slug_index_sql ∷ []

abbrev pub load_licenses_sql : Text
load_licenses_sql =
    codes
      "SELECT id, slug, title, body_base64, source_filename, sha256, uploaded_at_ms FROM licenses ORDER BY id;"

abbrev pub row_id : Row → Option ℤ
row_id (int64 i ∷ row) = some i
row_id (text t ∷ row) = none
row_id (other ∷ row) = none
row_id [] = none

-- the slug of a row, if its second column is a text
abbrev pub has_slug : Text → Row → Bool
has_slug slug (v ∷ text t ∷ row) = text_eq t slug
has_slug slug (v ∷ int64 i ∷ row) = Bool.false
has_slug slug (v ∷ other ∷ row) = Bool.false
has_slug slug (v ∷ []) = Bool.false
has_slug slug [] = Bool.false

-- rows are kept by increasing id, the order of `ORDER BY id`
abbrev row_before : Option ℤ → Option ℤ → Bool
row_before (some i) (some j) = ltb_ℤ i j
row_before (some i) none = Bool.false
row_before none j = Bool.false

unfoldable pub insert_row : Row → List Row → List Row
insert_row row [] = row ∷ []
insert_row row (r ∷ rest) =
    if row_before (row_id row) (row_id r) then row ∷ r ∷ rest else r ∷ insert_row row rest

unfoldable pub delete_rows : Text → List Row → List Row
delete_rows slug [] = []
delete_rows slug (r ∷ rest) =
    let kept = delete_rows slug rest in if has_slug slug r then kept else r ∷ kept

-- What the program relies on, as RNMDB documents it: `table` is the committed content of `licenses`
-- by increasing id, and `pending` what an open transaction would commit. A COMMIT that reports an
-- error may or may not have been carried out.
pub record RnmdbLaws (db : Rnmdb) : Type 0 where
  pub table : db.World → List Row
  pub pending : db.World → Option (List Row)
  pub open_table :
      (path : Text) (key : Bytes) (w : db.World)
      → (table (db.open_session path key w).1 ≡ table w)
        × (pending w ≡ none → pending (db.open_session path key w).1 ≡ none)
  pub close_table :
      (s : db.Session) (w : db.World)
      → (table (db.close s w) ≡ table w) × (pending (db.close s w) ≡ none)
  pub checkpoint_table :
      (s : db.Session) (w : db.World)
      → (table (db.checkpoint s w).1 ≡ table w)
        × (pending w ≡ none → pending (db.checkpoint s w).1 ≡ none)
  pub create_table :
      (s : db.Session) (w : db.World)
      → pending w ≡ none
      → (table (db.execute s create_table_sql w).1 ≡ table w)
        × (pending (db.execute s create_table_sql w).1 ≡ none)
  pub create_id_index :
      (s : db.Session) (w : db.World)
      → pending w ≡ none
      → (table (db.execute s id_index_sql w).1 ≡ table w)
        × (pending (db.execute s id_index_sql w).1 ≡ none)
  pub create_slug_index :
      (s : db.Session) (w : db.World)
      → pending w ≡ none
      → (table (db.execute s slug_index_sql w).1 ≡ table w)
        × (pending (db.execute s slug_index_sql w).1 ≡ none)
  pub select :
      (s : db.Session) (w : db.World)
      → pending w ≡ none
      → (table (db.execute s load_licenses_sql w).1 ≡ table w)
        × (pending (db.execute s load_licenses_sql w).1 ≡ none)
        × ((o : CommandOutput) → (db.execute s load_licenses_sql w).0 ≡ ok o → o ≡ rows (table w))
  pub begin :
      (s : db.Session) (w : db.World)
      → pending w ≡ none
      → (table (db.execute s begin_sql w).1 ≡ table w)
        × ((o : CommandOutput)
            → (db.execute s begin_sql w).0 ≡ ok o
            → pending (db.execute s begin_sql w).1 ≡ some (table w))
  pub insert :
      (s : db.Session) (w : db.World) (sql : Text) (row : Row) (t : List Row)
      → read_insert sql ≡ some row
      → pending w ≡ some t
      → (table (db.execute s sql w).1 ≡ table w)
        × ((o : CommandOutput)
            → (db.execute s sql w).0 ≡ ok o
            → pending (db.execute s sql w).1 ≡ some (insert_row row t))
  pub delete :
      (s : db.Session) (w : db.World) (sql slug : Text) (t : List Row)
      → read_delete sql ≡ some slug
      → pending w ≡ some t
      → (table (db.execute s sql w).1 ≡ table w)
        × ((o : CommandOutput)
            → (db.execute s sql w).0 ≡ ok o
            → pending (db.execute s sql w).1 ≡ some (delete_rows slug t))
  pub commit :
      (s : db.Session) (w : db.World) (t : List Row)
      → pending w ≡ some t
      → ((table (db.execute s commit_sql w).1 ≡ table w)
          ⊎ (table (db.execute s commit_sql w).1 ≡ t))
        × ((o : CommandOutput)
            → (db.execute s commit_sql w).0 ≡ ok o
            → (table (db.execute s commit_sql w).1 ≡ t)
              × (pending (db.execute s commit_sql w).1 ≡ none))
  pub rollback : (s : db.Session) (w : db.World) → table (db.execute s rollback_sql w).1 ≡ table w
