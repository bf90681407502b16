-- ===== src/Tests/Markdown.antt =====
-- The cache of src/markdown.rs at small renderings.
use aperip_nomos.Prelude.{◌≡◌, refl, Option, [], ◌∷◌, some, arith}
use aperip_nomos.Text.{Text, codes}
use aperip_nomos.Map.{lookup}
use aperip_nomos.Markdown.{RenderCache, get, insert}
use aperip_nomos.Markdown.Events.{text, html, safe_event}
use aperip_nomos.Markdown.Room.{IsCounted, empty-IsCounted, insert-IsCounted}
use aperip_nomos.Markdown.Contents.{get-insert}

abbrev bare : RenderCache
bare = record { entries = []; order = []; bytes = 0 }

bare-IsCounted : IsCounted bare
bare-IsCounted = empty-IsCounted

abbrev pub key : Text
key = codes "d1"

abbrev pub page : Text
page = codes "<p>MIT</p>"

-- each byte twice, in place of the renderer
abbrev pub doubled : Text → Text
doubled [] = []
doubled (c ∷ s) = c ∷ c ∷ doubled s

insert-IsCounted_example : IsCounted (insert key page bare)
insert-IsCounted_example = insert-IsCounted key page bare bare-IsCounted

bare_finds_none : (k : Text) → get bare k ≡ Option.none
unfolding get lookup
bare_finds_none k = refl

get-insert_example : get (insert key page bare) key ≡ some page
get-insert_example = get-insert key page bare bare-IsCounted (omega arith) (bare_finds_none key)

no_entry : (k v : Text) → get bare k ≡ some v → v ≡ doubled page
no_entry k v h = cc (bare_finds_none k)

safe_html : safe_event (html page) ≡ some (text page)
unfolding safe_event
safe_html = refl
