-- ===== src/Tests/Actor.antt =====
-- An actor over the database in memory, which creates a license and is shut down.
use aperip_nomos.Prelude.{◌≡◌, refl, List, [], ◌∷◌, some}
use aperip_nomos.Prelude.Int.{pos}
use aperip_nomos.Prelude.Result.{ok}
use aperip_nomos.Text.{text_eq}
use aperip_nomos.Text.Utf8.{as_bytes, encode_char}
use aperip_nomos.Text.Order.{text_lt}
use aperip_nomos.Domain.{into_document}
use aperip_nomos.Sql.{digits, display, double_quotes, sql_text_literal, insert_text}
use aperip_nomos.Sql.Reading.{
  strip_prefix, read_quoted, read_digits, negative, read_number, read_value, read_values,
  read_insert, read_delete,
}
use aperip_nomos.Map.{lookup, contains_key, insert}
use aperip_nomos.Database.{insert_row}
use aperip_nomos.Storage.{open_session, execute as execute_sql, checkpoint}
use aperip_nomos.Store.State.{StoreCommand, create, get, list, shutdown, DatabaseState}
use aperip_nomos.Store.Load.{
  open_database, load_state, run_schema, load_output, load_rows, load_from, load_row, load_document,
  decode_document, decode_fields, decode_body,
}
use aperip_nomos.Store.Core.{
  find, create as create_license, create_in, write_document, persist_create, insert_statement,
  transaction, or_rollback,
}
use aperip_nomos.Store.Coherent.{Coherent}
use aperip_nomos.Actor.{serve, execute, run_actor}
use aperip_nomos.Actor.Spec.{Trace}
use aperip_nomos.Actor.Refinement.{end_view, serve-Trace}
use aperip_nomos.Tests.Crate.{
  Fault, works, lost, memory_db, crates, classify, fixed_statement, step, run, change, run_commit,
}
use aperip_nomos.Tests.Crate.Laws.{memory_laws}
use aperip_nomos.Tests.Domain.{mit, program}
use aperip_nomos.Tests.Store.{fresh, fresh_state, fresh-IsOpen, settings, uploaded}

abbrev commands : List StoreCommand
commands = create mit ∷ get mit.slug ∷ list ∷ shutdown ∷ []

-- the COMMIT is carried out, and reports an error
abbrev faults : List Fault
faults = works ∷ works ∷ lost ∷ []

serve-Trace_example :
    Coherent crates memory_laws (serve crates commands (fresh faults)).1
    × Trace
        (find crates (some fresh_state))
        commands
        (serve crates commands (fresh faults)).0
        (end_view crates memory_laws (serve crates commands (fresh faults)).1)
serve-Trace_example =
    serve-Trace crates memory_laws commands (fresh faults) (fresh-IsOpen faults) refl refl
      (uploaded, (tt, (tt, (tt, tt))))

abbrev pub last : DatabaseState memory_db
last = record {
  session = tt;
  licenses = (mit.slug, into_document mit (pos 1)) ∷ [];
  next_id = pos 2;
}

unfoldable pub store_program : Unit {0}
unfolding text_eq text_lt as_bytes encode_char into_document digits display double_quotes
    sql_text_literal insert_text strip_prefix read_quoted read_digits negative read_number
    read_value read_values read_insert read_delete lookup contains_key insert insert_row
    open_session execute_sql checkpoint open_database load_state run_schema load_output load_rows
    load_from load_row load_document decode_document decode_fields decode_body find create_license
    create_in write_document persist_create insert_statement transaction or_rollback serve execute
    run_actor classify fixed_statement step run change run_commit program
store_program = tt

served_state : (serve crates (create mit ∷ shutdown ∷ []) (fresh [])).1.state ≡ some last
unfolding store_program
served_state = refl

abbrev pub one_upload : List StoreCommand
one_upload = create mit ∷ shutdown ∷ []

made_again :
    (open_database crates settings (run_actor crates one_upload (fresh [])).1.1).0 ≡ ok last
unfolding store_program
made_again = refl
