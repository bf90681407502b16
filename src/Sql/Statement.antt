-- ===== src/Sql/Statement.antt =====
-- The statements of src/store.rs are read as the row and the slug that they are made from.
use aperip_nomos.Prelude.{ℕ, suc, ◌≡◌, refl, [], ◌∷◌, ◌++◌, some, arith}
use aperip_nomos.Prelude.Int.{ℤ}
use aperip_nomos.Text.{Text, codes, text_eq}
use aperip_nomos.Sql.{
  display, sql_text_literal, insert_head, insert_text, delete_head, delete_statement,
}
use aperip_nomos.Sql.Reading.{
  SqlValue, Row, int64, text, strip_prefix, read_value, read_values, read_insert, read_delete,
}
use aperip_nomos.Sql.Decimal.{read_value-display}
use aperip_nomos.Sql.Literal.{read_value-sql_text_literal}

-- the seven columns of a license
abbrev pub license_row : ℤ → Text → Text → Text → Text → Text → ℤ → Row
license_row id slug title body_base64 source_filename sha256 uploaded_at_ms =
    int64 id
    ∷ text slug
    ∷ text title
    ∷ text body_base64
    ∷ text source_filename
    ∷ text sha256
    ∷ int64 uploaded_at_ms
    ∷ []

strip_prefix-append : (p s : Text) → strip_prefix p (p ++ s) ≡ some s
unfolding strip_prefix
strip_prefix-append [] s = refl
strip_prefix-append (c ∷ p) s = ground (arith, strip_prefix-append p s)

-- one value and its comma
more_values :
    (n : ℕ) (s rest tail : Text) (v : SqlValue) (vs : Row)
    → read_value s ≡ some (v, codes ", " ++ rest)
    → read_values (suc n) rest ≡ some (vs, tail)
    → read_values (suc (suc n)) s ≡ some (v ∷ vs, tail)
unfolding read_values strip_prefix
more_values n s rest tail v vs h k = rw (h, k)

last_value :
    (s tail : Text) (v : SqlValue)
    → read_value s ≡ some (v, tail)
    → read_values 1 s ≡ some (v ∷ [], tail)
unfolding read_values
last_value s tail v h = rw h

module _ (id : ℤ) (slug title body_base64 source_filename sha256 : Text) (uploaded_at_ms : ℤ) where
  values_text : Text
  values_text =
      display id
      ++ (codes ", "
          ++ (sql_text_literal slug
              ++ (codes ", "
                  ++ (sql_text_literal title
                      ++ (codes ", "
                          ++ (sql_text_literal body_base64
                              ++ (codes ", "
                                  ++ (sql_text_literal source_filename
                                      ++ (codes ", "
                                          ++ (sql_text_literal sha256
                                              ++ (codes ", "
                                                  ++ (display uploaded_at_ms
                                                      ++ codes ");"))))))))))))

  read_values_text :
      read_values 7 values_text
      ≡ some
          (license_row id slug title body_base64 source_filename sha256 uploaded_at_ms, codes ");")
  unfolding values_text
  read_values_text = more_values 5 _ _ _ _ _ (read_value-display id _ refl) (
      more_values 4 _ _ _ _ _ (read_value-sql_text_literal slug _ refl) (
        more_values 3 _ _ _ _ _ (read_value-sql_text_literal title _ refl) (
          more_values 2 _ _ _ _ _ (read_value-sql_text_literal body_base64 _ refl) (
            more_values 1 _ _ _ _ _ (read_value-sql_text_literal source_filename _ refl) (
              more_values 0 _ _ _ _ _ (read_value-sql_text_literal sha256 _ refl)
                (last_value _ _ _ (read_value-display uploaded_at_ms (codes ");") refl)))))))

  -- For all fields, the database reads the INSERT statement as exactly one row with those fields.
  pub read_insert-insert_text :
      read_insert (insert_text id slug title body_base64 source_filename sha256 uploaded_at_ms)
      ≡ some (license_row id slug title body_base64 source_filename sha256 uploaded_at_ms)
  unfolding read_insert insert_text text_eq values_text
  read_insert-insert_text = rw (strip_prefix-append insert_head values_text, read_values_text)

-- For every slug, the database reads the DELETE statement as the deletion of that slug.
pub read_delete-delete_statement : (slug : Text) → read_delete (delete_statement slug) ≡ some slug
unfolding read_delete delete_statement text_eq
read_delete-delete_statement slug =
    rw (strip_prefix-append delete_head, read_value-sql_text_literal slug (codes ";") refl)
