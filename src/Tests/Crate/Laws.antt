-- ===== src/Tests/Crate/Laws.antt =====
-- The database in memory keeps the laws that the program relies on.
use aperip_nomos.Prelude.{◌≡◌, refl, ◌⊎◌, false, List, [], ◌∷◌, some, none, arith, ◌==◌}
use aperip_nomos.Prelude.Result.{ok}
use aperip_nomos.Text.{Text, text_eq}
use aperip_nomos.Sql.Reading.{Row, read_insert, read_delete, strip_prefix}
use aperip_nomos.Database.{
  CommandOutput, rows, RnmdbLaws, begin_sql, commit_sql, rollback_sql, load_licenses_sql,
  create_table_sql, id_index_sql, slug_index_sql, insert_row, delete_rows,
}
use aperip_nomos.Tests.Crate.{
  Memory, begin, commit, rollback, select, quiet, insert, delete, fixed_statement, classify,
  run_commit, change, run, step, memory_db,
}

pub classify-insert :
    (sql : Text) (row : Row) → read_insert sql ≡ some row → classify sql ≡ insert row
unfolding classify
classify-insert sql row h = rw (h, classify)

not_insert : (c : _) (s : Text) → (73 == c) ≡ false → read_insert (c ∷ s) ≡ none
unfolding read_insert strip_prefix
not_insert c s h = rw h

not_delete : (c : _) (s : Text) → (68 == c) ≡ false → read_delete (c ∷ s) ≡ none
unfolding read_delete strip_prefix
not_delete c s h = rw h

delete-not_insert : (sql slug : Text) → read_delete sql ≡ some slug → read_insert sql ≡ none
delete-not_insert [] slug h = unfold read_insert strip_prefix in refl
delete-not_insert (c ∷ s) slug h = ground (arith, not_insert c s, not_delete c s)

pub classify-delete : (sql slug : Text) → read_delete sql ≡ some slug → classify sql ≡ delete slug
unfolding classify
classify-delete sql slug h = rw (delete-not_insert sql slug h, h, classify)

fixed : Unit {0}
unfolding classify fixed_statement read_insert read_delete strip_prefix text_eq
fixed = tt

pub classify-begin : classify begin_sql ≡ begin
unfolding fixed
classify-begin = refl

pub classify-commit : classify commit_sql ≡ commit
unfolding fixed
classify-commit = refl

pub classify-rollback : classify rollback_sql ≡ rollback
unfolding fixed
classify-rollback = refl

pub classify-select : classify load_licenses_sql ≡ select
unfolding fixed
classify-select = refl

pub classify-table : classify create_table_sql ≡ quiet
unfolding fixed
classify-table = refl

pub classify-id_index : classify id_index_sql ≡ quiet
unfolding fixed
classify-id_index = refl

pub classify-slug_index : classify slug_index_sql ≡ quiet
unfolding fixed
classify-slug_index = refl

pub step-quiet :
    (w : Memory)
    → w.pending ≡ none
    → ((step quiet w).1.table ≡ w.table) × ((step quiet w).1.pending ≡ none)
unfolding step run
step-quiet w h = ground arith

pub step-select :
    (w : Memory)
    → w.pending ≡ none
    → ((step select w).1.table ≡ w.table)
      × ((step select w).1.pending ≡ none)
      × ((o : CommandOutput) → (step select w).0 ≡ ok o → o ≡ rows w.table)
unfolding step run
step-select w h = (ground arith, ground arith, λ o k. ground arith)

pub step-begin :
    (w : Memory)
    → ((step begin w).1.table ≡ w.table)
      × ((o : CommandOutput) → (step begin w).0 ≡ ok o → (step begin w).1.pending ≡ some w.table)
unfolding step run
step-begin w = (ground arith, λ o k. ground arith)

pub step-insert :
    (w : Memory) (row : Row) (t : List Row)
    → w.pending ≡ some t
    → ((step (insert row) w).1.table ≡ w.table)
      × ((o : CommandOutput)
          → (step (insert row) w).0 ≡ ok o
          → (step (insert row) w).1.pending ≡ some (insert_row row t))
unfolding step run change
step-insert w row t h = (ground arith, λ o k. ground arith)

pub step-delete :
    (w : Memory) (slug : Text) (t : List Row)
    → w.pending ≡ some t
    → ((step (delete slug) w).1.table ≡ w.table)
      × ((o : CommandOutput)
          → (step (delete slug) w).0 ≡ ok o
          → (step (delete slug) w).1.pending ≡ some (delete_rows slug t))
unfolding step run change
step-delete w slug t h = (ground arith, λ o k. ground arith)

pub step-commit :
    (w : Memory) (t : List Row)
    → w.pending ≡ some t
    → (((step commit w).1.table ≡ w.table) ⊎ ((step commit w).1.table ≡ t))
      × ((o : CommandOutput)
          → (step commit w).0 ≡ ok o
          → ((step commit w).1.table ≡ t) × ((step commit w).1.pending ≡ none))
unfolding step run run_commit
step-commit w t h = (ground arith, λ o k. (ground arith, ground arith))

pub step-rollback : (w : Memory) → (step rollback w).1.table ≡ w.table
unfolding step run
step-rollback w = refl

abbrev pub memory_laws : RnmdbLaws memory_db
memory_laws = record {
  table = λ w. w.table;
  pending = λ w. w.pending;
  open_table = λ path key w. (refl, λ h. h);
  close_table = λ s w. (refl, refl);
  checkpoint_table = λ s w. (refl, λ h. h);
  create_table = λ s w h. rw classify-table (step-quiet w h);
  create_id_index = λ s w h. rw classify-id_index (step-quiet w h);
  create_slug_index = λ s w h. rw classify-slug_index (step-quiet w h);
  select = λ s w h. rw classify-select (step-select w h);
  begin = λ s w h. rw classify-begin (step-begin w);
  insert = λ s w sql row t e h. rw (classify-insert sql row e) (step-insert w row t h);
  delete = λ s w sql slug t e h. rw (classify-delete sql slug e) (step-delete w slug t h);
  commit = λ s w t h. rw classify-commit (step-commit w t h);
  rollback = λ s w. rw classify-rollback (step-rollback w);
}
