-- ===== src/Tests/Upload.antt =====
-- An administrator uploads a license to an empty store.
use aperip_nomos.Prelude.{[], ◌∷◌, some, true, false}
use aperip_nomos.Prelude.Int.{pos}
use aperip_nomos.Store.Core.{find}
use aperip_nomos.Markdown.Room.{empty-IsCounted}
use aperip_nomos.Http.Admin.{draft_of}
use aperip_nomos.Http.Handlers.{App, answered, create_handler}
use aperip_nomos.Http.Created.{Handled, create_handler-Handled}
use aperip_nomos.Tests.Crate.{digests, crates}
use aperip_nomos.Tests.Crate.Laws.{memory_laws}
use aperip_nomos.Tests.Store.{fresh, fresh-IsOpen}
use aperip_nomos.Tests.Markdown.{doubled}
use aperip_nomos.Tests.Http.{file}

abbrev pub app : App crates doubled
app = record { core = fresh []; cache = record { entries = []; order = []; bytes = 0 } }

create_handler-Handled_example :
    Handled crates memory_laws doubled
      (find crates app.core.state)
      answered
      (draft_of digests (some file ∷ []) (some (pos 7)))
      (create_handler crates doubled (some file ∷ []) (some (pos 7)) answered true false app)
create_handler-Handled_example =
    create_handler-Handled crates memory_laws doubled (some file ∷ []) (some (pos 7)) answered true
      false app (fresh-IsOpen []) empty-IsCounted
