-- ===== src/Tests/Pages.antt =====
-- A parser and a sanitizer that keep to the policy, and the pages that they make.
use aperip_nomos.Prelude.{
  ◌≡◌, refl, inl, inr, true, List, [], ◌∷◌, ◌++◌, none, some, ◌==◌, all, Bool-cases, if◌then◌else◌,
}
use aperip_nomos.Prelude.Result.{ok}
use aperip_nomos.Text.{Text, codes, eq_ignore_ascii_case}
use aperip_nomos.Markdown.Events.{Event, html, text, safe_event}
use aperip_nomos.Markdown.Page.{
  Builder, Element, HtmlCrates, HtmlLaws, is_allowed_attribute, is_allowed, render_license_markdown,
  sanitizer,
}
use aperip_nomos.Markdown.Page.Harmless.{IsHarmless, render_license_markdown-IsHarmless}
use aperip_nomos.Http.{LicenseDetail, store_operation, detail}
use aperip_nomos.Http.Handlers.{
  App, answered, detail_handler, operate, from_document, rendering, render_cached,
}
use aperip_nomos.Http.Router.Clean.{render, IsHarmlessPage}
use aperip_nomos.Http.Router.Visited.{started, shown_pages}
use aperip_nomos.Markdown.{empty_cache, get as get_rendered, render_once, render_now}
use aperip_nomos.Prelude.Int.{pos}
use aperip_nomos.Store.State.{StoreCore}
use aperip_nomos.Store.Core.{create as create_license, get as get_license}
use aperip_nomos.Tests.Crate.{crates, memory_db}
use aperip_nomos.Tests.Actor.{store_program}
use aperip_nomos.Tests.Domain.{mit}
use aperip_nomos.Tests.Store.{fresh}
use aperip_nomos.Tests.Http.{pass}
use aperip_nomos.Tests.Web.{web}
use aperip_nomos.Tests.Router.{files}

-- the text of a tag, up to its end
abbrev until_end : Text → Text
until_end [] = []
until_end (c ∷ rest) = let more = until_end rest in if c == b'>' then [] else c ∷ more

-- every `<` begins an element, which has no attributes
abbrev elements : Text → List Element
elements [] = []
elements (c ∷ rest) =
    let more = elements rest in
    if c == b'<' then record { tag = until_end rest; attributes = [] } ∷ more else more

abbrev without_tags : Text → Text
without_tags [] = []
without_tags (c ∷ rest) = let more = without_tags rest in if c == b'<' then more else c ∷ more

abbrev text_of : Event → Text
text_of (text t) = t
text_of _ = []

abbrev texts_of : List Event → Text
texts_of [] = []
texts_of (event ∷ rest) = text_of event ++ texts_of rest

abbrev unclean : HtmlCrates
unclean = record {
  parse = λ options markdown. html markdown ∷ [];
  push_html = texts_of;
  clean = λ builder page. page;
  elements = elements;
  scheme = λ address. none;
}

-- a page that keeps to the policy is left as it is; of any other the tags are taken out
abbrev pub html_crates : HtmlCrates
html_crates = record unclean {
  clean = λ builder page.
      if all (is_allowed unclean builder) (elements page) then page else without_tags page;
}

elements-without_tags : (page : Text) → elements (without_tags page) ≡ []
elements-without_tags [] = refl
elements-without_tags (c ∷ rest) = elim (Bool-cases (c == b'<')) [
  | inl tag ↦ rw tag (elements-without_tags rest)
  | inr plain ↦ rw (plain, elements, plain) (elements-without_tags rest)
]

cleaned :
    (builder : Builder) (page : Text)
    → all (is_allowed html_crates builder) (elements (html_crates.clean builder page)) ≡ true
unfolding is_allowed is_allowed_attribute
cleaned builder page = elim (Bool-cases (all (is_allowed unclean builder) (elements page))) [
  | inl good ↦ rw good good
  | inr bad ↦ rw (bad, elements-without_tags page) refl
]

pub html_laws : HtmlLaws html_crates
html_laws = record { clean_allowed = cleaned }

abbrev hostile : Text
hostile = codes "<em>MIT<script>"

render_license_markdown-IsHarmless_example :
    IsHarmless html_crates (render_license_markdown html_crates hostile)
render_license_markdown-IsHarmless_example =
    render_license_markdown-IsHarmless html_crates html_laws hostile

-- the store with a license in Markdown
abbrev written : StoreCore memory_db
written =
    (create_license crates (record mit { source_filename = codes "MIT License.md"; body = hostile })
      (fresh [])).1

abbrev visited : App crates (render crates html_crates html_laws)
visited = record { core = written; cache = empty_cache }

abbrev shown : LicenseDetail
shown = record {
  id = pos 1;
  slug = mit.slug;
  title = mit.title;
  body = hostile;
  body_format = codes "markdown";
  rendered_html = some (codes "em>MITscript>");
  source_filename = codes "MIT License.md";
  sha256 = mit.sha256;
  uploaded_at_ms = pos 7;
}

page_shown :
    (detail_handler crates (render crates html_crates html_laws) mit.slug answered true visited).0
    ≡ ok shown
unfolding store_program detail_handler operate store_operation get_license from_document detail
    eq_ignore_ascii_case rendering render_cached get_rendered render_once render_now
    render_license_markdown safe_event is_allowed sanitizer
page_shown = refl

shown_pages_example : IsHarmlessPage crates html_crates html_laws shown.rendered_html
shown_pages_example =
    shown_pages crates html_crates html_laws web files pass visited (started written) mit.slug
      answered true shown page_shown
