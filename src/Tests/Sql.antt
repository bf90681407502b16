-- ===== src/Tests/Sql.antt =====
-- The statements of src/store.rs at a value that holds a quote.
use aperip_nomos.Prelude.{◌≡◌, ◌++◌, refl, some}
use aperip_nomos.Prelude.Int.{pos, negsuc}
use aperip_nomos.Text.{Text, codes}
use aperip_nomos.Sql.{display, insert_text}
use aperip_nomos.Sql.Reading.{int64, read_value, read_insert}
use aperip_nomos.Sql.Decimal.{read_value-display}
use aperip_nomos.Sql.Statement.{license_row, read_insert-insert_text}

abbrev hostile : Text
hostile = codes "x'); DELETE FROM licenses; --"

read_value-display_example :
    read_value (display (negsuc 41) ++ codes ", 7") ≡ some (int64 (negsuc 41), codes ", 7")
read_value-display_example = read_value-display (negsuc 41) (codes ", 7") refl

read_insert-insert_text_example :
    read_insert (insert_text (pos 1) hostile hostile hostile hostile hostile (pos 7))
    ≡ some (license_row (pos 1) hostile hostile hostile hostile hostile (pos 7))
read_insert-insert_text_example =
    read_insert-insert_text (pos 1) hostile hostile hostile hostile hostile (pos 7)
