-- ===== src/Http/Router/Visited.antt =====
-- The states that requests to both listeners of src/http lead to, and the pages that they show.
use aperip_nomos.Prelude.{◌≡◌, inl, inr, Bool, true, false, Option, none, some, Bool-cases}
use aperip_nomos.Prelude.Result.{ok}
use aperip_nomos.Text.{Text}
use aperip_nomos.Text.Utf8.{as_bytes}
use aperip_nomos.Map.{lookup}
use aperip_nomos.Database.{Crates}
use aperip_nomos.Store.State.{StoreCore}
use aperip_nomos.Markdown.{get, empty_cache}
use aperip_nomos.Markdown.Room.{empty-IsCounted}
use aperip_nomos.Markdown.Page.{HtmlCrates, HtmlLaws}
use aperip_nomos.Http.{LicenseDetail}
use aperip_nomos.Http.Admin.{authorize, is_authorized, current_time_ms}
use aperip_nomos.Http.Web.{WebCrates, Dispatched, found, no_route, no_method}
use aperip_nomos.Http.Assets.{Files}
use aperip_nomos.Http.Router.{
  Endpoint, asset, live, ready, list, create, remove, detail as detail_endpoint, Layered, bare,
  guarded, Request, Circumstances, Served, handle, serve_public, protect, handle_layered,
  refuse_method, answer_public, answer_admin, serve_admin,
}
use aperip_nomos.Http.Handlers.{Delivery, App, detail_handler}
use aperip_nomos.Http.Router.Clean.{
  render, IsClean, IsHarmlessPage, ready_handler-Tidy, list_handler-Tidy, remove_handler-Tidy,
  detail_handler-Tidy, create_handler-Tidy,
}

module _ (x : Crates) (h : HtmlCrates) (laws : HtmlLaws h) (w : WebCrates) (files : Files) where
  abbrev Page : Type 0
  Page = App x (render x h laws)

  handle-IsClean :
      (e : Endpoint) (slug : Option Text) (request : Request) (c : Circumstances) (app : Page)
      → IsClean x h laws app.cache
      → IsClean x h laws (handle x (render x h laws) w files e slug request c app).1.cache
  unfolding handle
  handle-IsClean (asset a) slug request c app clean = clean
  handle-IsClean live slug request c app clean = clean
  handle-IsClean ready slug request c app clean =
      (ready_handler-Tidy x h laws c.delivery app clean).0
  handle-IsClean list slug request c app clean = (list_handler-Tidy x h laws c.delivery app clean).0
  handle-IsClean create slug request c app clean =
      (create_handler-Tidy x h laws request.fields (current_time_ms c.nanoseconds) c.delivery
        c.works c.works_again app clean).0
  handle-IsClean remove none request c app clean = clean
  handle-IsClean remove (some slug) request c app clean =
      (remove_handler-Tidy x h laws slug c.delivery app clean).0
  handle-IsClean detail_endpoint none request c app clean = clean
  handle-IsClean detail_endpoint (some slug) request c app clean =
      (detail_handler-Tidy x h laws slug c.delivery c.works app clean).0

  protect-IsClean :
      (admin_token : Text) (header : Option Text) (next : Page → Served x (render x h laws) w files)
      (app : Page)
      → IsClean x h laws app.cache
      → IsClean x h laws (next app).1.cache
      → IsClean x h laws (protect x (render x h laws) w files admin_token header next app).1.cache
  unfolding protect authorize
  protect-IsClean admin_token header next app clean clean_next =
      elim (Bool-cases
        (is_authorized x.digests.digest (x.digests.digest (as_bytes admin_token)) header)) [
          | inl granted ↦ rw granted clean_next
          | inr denied ↦ rw denied clean
        ]

  answer_public-IsClean :
      (d : Dispatched Endpoint) (request : Request) (c : Circumstances) (app : Page)
      → IsClean x h laws app.cache
      → IsClean x h laws (answer_public x (render x h laws) w files d request c app).1.cache
  unfolding answer_public
  answer_public-IsClean (found r slug) request c app clean =
      handle-IsClean r.endpoint slug request c app clean
  answer_public-IsClean no_route request c app clean = clean
  answer_public-IsClean (no_method layered) request c app clean = clean

  handle_layered-IsClean :
      (admin_token : Text) (e : Layered) (slug : Option Text) (request : Request)
      (c : Circumstances) (app : Page)
      → IsClean x h laws app.cache
      → IsClean x h laws
          (handle_layered x (render x h laws) w files admin_token e slug request c app).1.cache
  unfolding handle_layered
  handle_layered-IsClean admin_token (bare e) slug request c app clean =
      handle-IsClean e slug request c app clean
  handle_layered-IsClean admin_token (guarded e) slug request c app clean =
      protect-IsClean admin_token request.authorization
        (handle x (render x h laws) w files e slug request c) app clean
        (handle-IsClean e slug request c app clean)

  answer_admin-IsClean :
      (admin_token : Text) (d : Dispatched Layered) (request : Request) (c : Circumstances)
      (app : Page)
      → IsClean x h laws app.cache
      → IsClean x h laws
          (answer_admin x (render x h laws) w files admin_token d request c app).1.cache
  unfolding answer_admin
  answer_admin-IsClean admin_token (found r slug) request c app clean =
      handle_layered-IsClean admin_token r.endpoint slug request c app clean
  answer_admin-IsClean admin_token no_route request c app clean = clean
  answer_admin-IsClean admin_token (no_method false) request c app clean = clean
  answer_admin-IsClean admin_token (no_method true) request c app clean =
      protect-IsClean admin_token request.authorization (refuse_method x (render x h laws) w files)
        app clean clean

  -- the states that requests lead to, one after another, from a state with an empty cache
  pub data Visited (admin_token : Text) : Page → Type 0 where
    started :
        (core : StoreCore x.db) → Visited admin_token (record { core = core; cache = empty_cache })
    publicly :
        {app : Page} (request : Request) (c : Circumstances)
        → Visited admin_token app
        → Visited admin_token (serve_public x (render x h laws) w files request c app).1
    privately :
        {app : Page} (request : Request) (c : Circumstances)
        → Visited admin_token app
        → Visited admin_token (serve_admin x (render x h laws) w files admin_token request c app).1

  Visited-IsClean :
      (admin_token : Text) (app : Page) → Visited admin_token app → IsClean x h laws app.cache
  unfolding serve_public serve_admin get lookup
  Visited-IsClean admin_token _ (started core) = (empty-IsCounted, λ k v e. cc)
  Visited-IsClean admin_token _ (publicly {app = app} request c v) =
      answer_public-IsClean _ request c app (Visited-IsClean admin_token app v)
  Visited-IsClean admin_token _ (privately {app = app} request c v) =
      answer_admin-IsClean admin_token _ request c app (Visited-IsClean admin_token app v)

  -- After any requests to both listeners, the first of which met an empty cache, the details that the
  -- public listener gives of a license have no page, or one that is harmless, whatever texts were
  -- uploaded.
  pub shown_pages :
      (admin_token : Text) (app : Page)
      → Visited admin_token app
      → (slug : Text) (delivery : Delivery) (works : Bool) (shown : LicenseDetail)
      → (detail_handler x (render x h laws) slug delivery works app).0 ≡ ok shown
      → IsHarmlessPage x h laws shown.rendered_html
  shown_pages admin_token app v slug delivery works =
      (detail_handler-Tidy x h laws slug delivery works app (Visited-IsClean admin_token app v)).1
