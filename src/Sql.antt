-- ===== src/Sql.antt =====
-- The SQL texts of src/store.rs: literals, the INSERT and the DELETE statement, and the decimal form
-- that `format!` gives an `i64`.
pub mod Reading
pub mod Decimal
pub mod Literal
pub mod Statement
use aperip_nomos.Prelude.{
  ℕ, zero, suc, ◌+◌, ◌/◌, ◌%◌, List, [], ◌∷◌, ◌++◌, ltb, ◌==◌, if◌then◌else◌,
}
use aperip_nomos.Prelude.Int.{ℤ, pos, negsuc}
use aperip_nomos.Text.{Text, codes}

-- the decimal digits of a number below the fuel
unfoldable pub digits : ℕ → ℕ → Text
digits zero n = []
digits (suc fuel) n =
    let more = digits fuel (n / 10) ++ (b'0' + n % 10) ∷ [] in
    if ltb n 10 then (b'0' + n) ∷ [] else more

-- `{}` of an `i64`; a number is below its successor, so the fuel is enough
unfoldable pub display : ℤ → Text
display (pos n) = digits (suc n) n
display (negsuc n) = b'-' ∷ digits (suc (suc n)) (suc n)

-- `value.replace('\'', "''")`
unfoldable pub double_quotes : Text → Text
double_quotes [] = []
double_quotes (c ∷ s) = let rest = double_quotes s in if c == 39 then 39 ∷ 39 ∷ rest else c ∷ rest

unfoldable pub sql_text_literal : Text → Text
sql_text_literal value = 39 ∷ (double_quotes value ++ 39 ∷ [])

abbrev pub insert_head : Text
insert_head =
    codes
      "INSERT INTO licenses (id, slug, title, body_base64, source_filename, sha256, uploaded_at_ms) VALUES ("

abbrev pub delete_head : Text
delete_head = codes "DELETE FROM licenses WHERE slug = "

-- `insert_statement`, given the encoded body
unfoldable pub insert_text : ℤ → Text → Text → Text → Text → Text → ℤ → Text
insert_text id slug title body_base64 source_filename sha256 uploaded_at_ms =
    insert_head
    ++ (display id
        ++ (codes ", "
            ++ (sql_text_literal slug
                ++ (codes ", "
                    ++ (sql_text_literal title
                        ++ (codes ", "
                            ++ (sql_text_literal body_base64
                                ++ (codes ", "
                                    ++ (sql_text_literal source_filename
                                        ++ (codes ", "
                                            ++ (sql_text_literal sha256
                                                ++ (codes ", "
                                                    ++ (display uploaded_at_ms
                                                        ++ codes ");")))))))))))))

-- the statement of `persist_delete`
unfoldable pub delete_statement : Text → Text
delete_statement slug = delete_head ++ (sql_text_literal slug ++ codes ";")
