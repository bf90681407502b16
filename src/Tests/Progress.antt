-- ===== src/Tests/Progress.antt =====
-- An upload that meets no fault.
use aperip_nomos.Prelude.{◌≡◌, refl, []}
use aperip_nomos.Prelude.Int.{pos, checked_add_one}
use aperip_nomos.Prelude.Result.{ok}
use aperip_nomos.Map.{lookup}
use aperip_nomos.Domain.{into_document}
use aperip_nomos.Database.{nothing}
use aperip_nomos.Store.Core.{create, get, insert_statement}
use aperip_nomos.Store.Progress.{Works, create_progress}
use aperip_nomos.Tests.Crate.{crates}
use aperip_nomos.Tests.Crate.Laws.{memory_laws}
use aperip_nomos.Tests.Domain.{mit}
use aperip_nomos.Tests.Store.{fresh, fresh_state, fresh-IsOpen, uploaded}
use aperip_nomos.Tests.Actor.{store_program}

all_work : Works crates tt (insert_statement crates (into_document mit (pos 1))) (fresh []).world
unfolding store_program
all_work = record {
  begun = nothing;
  ran = nothing;
  committed = nothing;
  begin = refl;
  run = refl;
  commit = refl;
}

create_progress_example :
    ((create crates mit (fresh [])).0 ≡ ok (into_document mit (pos 1)))
    × (get crates (create crates mit (fresh [])).1 mit.slug ≡ ok (into_document mit (pos 1)))
create_progress_example =
    create_progress crates memory_laws (fresh []) fresh_state mit (pos 2) refl (fresh-IsOpen [])
      uploaded (unfold lookup in refl) (unfold checked_add_one in refl) all_work
