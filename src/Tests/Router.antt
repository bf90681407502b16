-- ===== src/Tests/Router.antt =====
-- Requests to the two routers: an upload with the token and without, and a page.
use aperip_nomos.Prelude.{◌≡◌, ◌⊎◌, [], ◌∷◌, ◌++◌, some, true, false}
use aperip_nomos.Prelude.Int.{pos}
use aperip_nomos.Text.{codes}
use aperip_nomos.Http.Handlers.{answered}
use aperip_nomos.Http.Web.{Method}
use aperip_nomos.Http.Assets.{Files, public_home, asset_of, asset_response}
use aperip_nomos.Http.Assets.Headers.{IsGuarded, asset_response-IsGuarded}
use aperip_nomos.Http.Router.{Request, Circumstances, serve_public, serve_admin}
use aperip_nomos.Http.Router.Guarded.{Permitted, serve_admin-Permitted}
use aperip_nomos.Http.Router.Quiet.{Quiet}
use aperip_nomos.Http.Router.Challenge.{Asked, serve_public-Harmless, serve_admin-Asked}
use aperip_nomos.Tests.Crate.{crates}
use aperip_nomos.Tests.Markdown.{doubled}
use aperip_nomos.Tests.Http.{file, pass}
use aperip_nomos.Tests.Upload.{app}
use aperip_nomos.Tests.Web.{web, web_laws}

abbrev pub files : Files
files = record {
  public_html = codes "<p>licenses</p>";
  detail_html = codes "<p>license</p>";
  admin_html = codes "<p>upload</p>";
  app_css = [];
  public_js = [];
  detail_js = [];
  admin_js = [];
  favicon_svg = codes "<svg/>";
}

abbrev pub upload : Request
upload = record {
  method = Method.post;
  path = codes "/api/admin/licenses";
  authorization = some (codes "Bearer " ++ pass);
  fields = some file ∷ [];
}

abbrev pub calm : Circumstances
calm = record { nanoseconds = pos 7000000; delivery = answered; works = true; works_again = false }

asset_response-IsGuarded_example :
    IsGuarded web web_laws (asset_response web (asset_of files public_home))
asset_response-IsGuarded_example = asset_response-IsGuarded web web_laws files public_home

serve_admin-Permitted_example :
    ((serve_admin crates doubled web files pass upload calm app).1.core ≡ app.core)
    ⊎ Permitted crates doubled web web_laws files pass upload calm app
serve_admin-Permitted_example =
    serve_admin-Permitted crates doubled web web_laws files pass upload calm app

serve_public-Harmless_example :
    ((serve_public crates doubled web files upload calm app).1.core ≡ app.core)
    × Quiet web web_laws (serve_public crates doubled web files upload calm app).0
serve_public-Harmless_example =
    serve_public-Harmless crates doubled web web_laws files upload calm app

serve_admin-Asked_example :
    Quiet web web_laws (serve_admin crates doubled web files pass upload calm app).0
    ⊎ Asked crates doubled web web_laws files upload calm app pass
        (serve_admin crates doubled web files pass upload calm app)
serve_admin-Asked_example = serve_admin-Asked crates doubled web web_laws files upload calm app pass
