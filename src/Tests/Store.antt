-- ===== src/Tests/Store.antt =====
-- The store over the database in memory, with the faults that lead to its reconciliation.
use mathlib.Core.List.{Perm}
use aperip_nomos.Map.{values}
use aperip_nomos.Store.Listing.{IsListed, list-IsListed}
use aperip_nomos.Store.Core.{list, sort_listed, insert_sorted, listed_after}
use aperip_nomos.Text.Order.{text_lt}
use aperip_nomos.Domain.{LicenseMetadata, LicenseDocument, metadata, into_document}
use aperip_nomos.Prelude.{map, ◌≡◌, refl, Bool, List, [], ◌∷◌, none, some, arith}
use aperip_nomos.Prelude.Int.{pos}
use aperip_nomos.Prelude.Result.{ok}
use aperip_nomos.Text.{codes}
use aperip_nomos.Sql.{delete_statement}
use aperip_nomos.Sql.Reading.{Row}
use aperip_nomos.Sql.Statement.{read_delete-delete_statement}
use aperip_nomos.Database.{delete_rows}
use aperip_nomos.Store.State.{StoreConfig, DatabaseState, StoreCore}
use aperip_nomos.Store.Load.{load_rows, load_from, decode_document}
use aperip_nomos.Store.Load.Rows.{FromUpload, row_of, decode_document-row_of}
use aperip_nomos.Store.Core.{find, create, delete, recover, transaction}
use aperip_nomos.Store.Coherent.{IsOpen}
use aperip_nomos.Store.Transaction.{Turns, Transacted, transaction-Transacted}
use aperip_nomos.Store.Reopen.{Recovered, recover-Recovered}
use aperip_nomos.Store.Create.Reconcile.{Created}
use aperip_nomos.Store.Create.{create-Created}
use aperip_nomos.Store.Delete.Reconcile.{Deleted}
use aperip_nomos.Store.Delete.{delete-Deleted}
use aperip_nomos.Tests.Crate.{Fault, works, fails, lost, Memory, memory_db, crates}
use aperip_nomos.Tests.Crate.Laws.{memory_laws}
use aperip_nomos.Tests.Domain.{mit, mit_made, filename, body}

abbrev pub uploaded : FromUpload crates mit
uploaded = record {
  filename = filename;
  title = none;
  slug = none;
  bytes = body;
  ms = pos 7;
  made = mit_made;
}

abbrev pub settings : StoreConfig
settings = record { database_path = codes "licenses.db"; page_key = 1 ∷ 2 ∷ []; queue_capacity = 4 }

abbrev pub fresh_state : DatabaseState memory_db
fresh_state = record { session = tt; licenses = []; next_id = pos 1 }

-- an empty store, whose statements follow a script of faults
abbrev pub fresh : List Fault → StoreCore memory_db
fresh script = record {
  config = settings;
  shared = record { ready = Bool.true; alive = Bool.true; liveness = Bool.true };
  state = some fresh_state;
  world = record { table = []; pending = none; script = script };
}

pub fresh-IsOpen :
    (script : List Fault) → IsOpen crates memory_laws fresh_state (fresh script).world
fresh-IsOpen script = record {
  closed = refl;
  mirror = record {
    loaded = [];
    bound = pos 1;
    loads = unfold load_rows load_from in refl;
    same = λ slug. refl;
    fits = omega arith;
  };
  ordered = tt;
  positive = omega arith;
}

-- the COMMIT is carried out, and reports an error
create-Created_example :
    Created crates memory_laws
      (find crates (some fresh_state))
      mit
      (create crates mit (fresh (works ∷ works ∷ lost ∷ [])))
create-Created_example =
    create-Created crates memory_laws (fresh (works ∷ works ∷ lost ∷ [])) mit
      (fresh-IsOpen (works ∷ works ∷ lost ∷ [])) uploaded

-- the store after a license was created
abbrev stored : StoreCore memory_db
stored = (create crates mit (fresh [])).1

delete-Deleted_example :
    Deleted crates memory_laws (find crates stored.state) mit.slug (delete crates mit.slug stored)
delete-Deleted_example =
    delete-Deleted crates memory_laws stored mit.slug
      (create-Created crates memory_laws (fresh []) mit (fresh-IsOpen []) uploaded).coherent

recover-Recovered_example :
    Recovered crates memory_laws (fresh (fails ∷ [])) (recover crates (fresh (fails ∷ [])))
recover-Recovered_example =
    recover-Recovered crates memory_laws (fresh (fails ∷ [])) fresh_state refl

abbrev empty_world : Memory
empty_world = (fresh (works ∷ works ∷ lost ∷ [])).world

-- what the transaction is to leave
abbrev left : List Row
left = delete_rows mit.slug []

abbrev turns_example : Turns crates memory_laws tt (delete_statement mit.slug) [] left
turns_example w p =
    memory_laws.delete tt w (delete_statement mit.slug) mit.slug []
      (read_delete-delete_statement mit.slug) p

transaction-Transacted_example :
    Transacted crates memory_laws tt
      (delete_statement mit.slug)
      empty_world
      left
      refl
      turns_example
      (transaction crates tt (delete_statement mit.slug) empty_world)
transaction-Transacted_example =
    transaction-Transacted crates memory_laws tt (delete_statement mit.slug) empty_world left refl
      turns_example

-- two documents, whose titles are not in the order of their slugs
abbrev other : LicenseDocument
other = into_document (record mit { slug = codes "zlib"; title = codes "A license" }) (pos 2)

abbrev two_stored : DatabaseState memory_db
two_stored = record {
  session = tt;
  licenses = (mit.slug, into_document mit (pos 1)) ∷ (other.slug, other) ∷ [];
  next_id = pos 3;
}

abbrev two_core : StoreCore memory_db
two_core = record (fresh []) { state = some two_stored }

by_title : list crates two_core ≡ ok (metadata other ∷ metadata (into_document mit (pos 1)) ∷ [])
unfolding list sort_listed insert_sorted listed_after text_lt values metadata into_document
by_title = refl

list-IsListed_example :
    (l : List LicenseMetadata) × (list crates two_core ≡ ok l)
    × IsListed l
    × Perm l (map metadata (values two_stored.licenses))
list-IsListed_example = list-IsListed crates two_core two_stored refl

decode_document-row_of_example :
    decode_document crates (row_of crates (into_document mit (pos 1)))
    ≡ ok (into_document mit (pos 1))
decode_document-row_of_example = decode_document-row_of crates mit (pos 1) uploaded (omega arith)
