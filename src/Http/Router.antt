-- ===== src/Http/Router.antt =====
-- The two routers of src/http/admin.rs and src/http/public.rs: their routes, the layer that protects the
-- routes of the administrator, and the answers to paths and methods that are not there. The layer that
-- traces requests changes nothing, and the limit on a body is an error of the multipart reader.
pub mod Errors
pub mod Guarded
pub mod Quiet
pub mod Challenge
pub mod Clean
pub mod Visited
use aperip_nomos.Prelude.{Bool, true, false, List, [], ◌∷◌, ◌++◌, map, Option, none, some}
use aperip_nomos.Prelude.Int.{ℤ}
use aperip_nomos.Prelude.Result.{Result, ok, err}
use aperip_nomos.Text.{Text, codes}
use aperip_nomos.Text.Utf8.{as_bytes}
use aperip_nomos.Database.{Crates}
use aperip_nomos.Http.{ApiError, StatusCode, ok_200, LicenseDetail, not_found, method_not_allowed}
use aperip_nomos.Http.Admin.{Field, authorize, current_time_ms}
use aperip_nomos.Http.Handlers.{
  Delivery, App, create_handler, remove_handler, list_handler, detail_handler, ready_handler,
}
use aperip_nomos.Http.Web.{
  Method, Verb, on_get, on_post, on_delete, Route, Dispatched, found, no_route, no_method,
  WebCrates, health_response, license_list_response, license_response,
}
use aperip_nomos.Http.Response.{Response, json_with, empty_with, rejected, into_response, reply}
use aperip_nomos.Http.Assets.{
  Files, Asset, public_home, public_detail, admin_home, stylesheet, public_script, detail_script,
  admin_script, favicon, asset_of, asset_response,
}

-- the handlers that the routes name
pub data Endpoint : Type 0 where
  asset : Asset → Endpoint
  live ready list create remove detail : Endpoint

-- an endpoint below the layer that asks for the token, or not
pub data Layered : Type 0 where
  bare guarded : Endpoint → Layered

abbrev pub route : {E : Type 0} → Text → Verb → E → Route E
route path verb endpoint = record { path = path; verb = verb; endpoint = endpoint }

-- `route_layer`
abbrev pub route_layer : (Endpoint → Layered) → List (Route Endpoint) → List (Route Layered)
route_layer layer = map λ r. route r.path r.verb (layer r.endpoint)

unfoldable pub public_routes : List (Route Endpoint)
public_routes =
    route (codes "/") on_get (asset public_home)
    ∷ route (codes "/licenses/{slug}") on_get (asset public_detail)
    ∷ route (codes "/assets/app.css") on_get (asset stylesheet)
    ∷ route (codes "/assets/public.js") on_get (asset public_script)
    ∷ route (codes "/assets/detail.js") on_get (asset detail_script)
    ∷ route (codes "/favicon.svg") on_get (asset favicon)
    ∷ route (codes "/health/live") on_get live
    ∷ route (codes "/health/ready") on_get ready
    ∷ route (codes "/api/licenses") on_get list
    ∷ route (codes "/api/licenses/{slug}") on_get detail
    ∷ []

unfoldable pub protected_routes : List (Route Endpoint)
protected_routes =
    route (codes "/api/admin/licenses") on_get list
    ∷ route (codes "/api/admin/licenses") on_post create
    ∷ route (codes "/api/admin/licenses/{slug}") on_delete remove
    ∷ []

unfoldable pub open_routes : List (Route Endpoint)
open_routes =
    route (codes "/") on_get (asset admin_home)
    ∷ route (codes "/assets/app.css") on_get (asset stylesheet)
    ∷ route (codes "/assets/admin.js") on_get (asset admin_script)
    ∷ route (codes "/favicon.svg") on_get (asset favicon)
    ∷ route (codes "/health/live") on_get live
    ∷ route (codes "/health/ready") on_get ready
    ∷ []

-- the routes of the administrator, with `merge`
unfoldable pub admin_routes : List (Route Layered)
unfolding open_routes protected_routes
admin_routes = route_layer bare open_routes ++ route_layer guarded protected_routes

-- What a request brings: the value of `Authorization`, if it is there and readable, and the fields of
-- the multipart form. A request that is no such form yields an error at once.
pub record Request : Type 0 where
  pub method : Method
  pub path : Text
  pub authorization : Option Text
  pub fields : List (Option Field)

-- What happens while a request is handled: the time, the fate of its command, and whether the tasks
-- that render work.
pub record Circumstances : Type 0 where
  pub nanoseconds : ℤ
  pub delivery : Delivery
  pub works : Bool
  pub works_again : Bool

module _ (x : Crates) (render : Text → Text) (w : WebCrates) (files : Files) where
  abbrev pub Served : Type 0
  Served = Response w × App x render

  -- the result of a handler as an answer
  abbrev pub answer {ℓ} :
      {A : Type ℓ} → (A → Response w) → Result ApiError A × App x render → Served
  answer show done = (reply w show done.0, done.1)

  abbrev pub show_created : StatusCode × LicenseDetail → Response w
  show_created made = json_with w made.0 (license_response made.1)

  -- one request to a handler; `none` is a `{slug}` that is not a text
  unfoldable pub handle : Endpoint → Option Text → Request → Circumstances → App x render → Served
  unfolding rejected
  handle (asset a) slug request c app = (asset_response w (asset_of files a), app)
  handle live slug request c app = (json_with w ok_200 (health_response (codes "ok")), app)
  handle ready slug request c app =
      answer (λ status. json_with w ok_200 (health_response status))
        (ready_handler x render c.delivery app)
  handle list slug request c app =
      answer (λ licenses. json_with w ok_200 (license_list_response licenses))
        (list_handler x render c.delivery app)
  handle create slug request c app = answer show_created (
      create_handler x render request.fields (current_time_ms c.nanoseconds) c.delivery c.works
        c.works_again app)
  handle remove none request c app = (rejected w, app)
  handle remove (some slug) request c app =
      answer (empty_with w) (remove_handler x render slug c.delivery app)
  handle detail none request c app = (rejected w, app)
  handle detail (some slug) request c app =
      answer (λ license. json_with w ok_200 (license_response license))
        (detail_handler x render slug c.delivery c.works app)

  -- what the public router makes of a request, once it is dispatched
  unfoldable pub answer_public :
      Dispatched Endpoint → Request → Circumstances → App x render → Served
  answer_public (found r slug) request c app = handle r.endpoint slug request c app
  answer_public no_route request c app = (into_response w not_found, app)
  answer_public (no_method layered) request c app = (into_response w method_not_allowed, app)

  -- one request to the public router
  unfoldable pub serve_public : Request → Circumstances → App x render → Served
  unfolding answer_public
  serve_public request =
      answer_public (w.dispatch public_routes request.method request.path) request

  -- `authorize` over what comes next
  unfoldable pub protect : Text → Option Text → (App x render → Served) → App x render → Served
  protect admin_token header next app =
      answer (λ response. response)
        (authorize x.digests.digest (x.digests.digest (as_bytes admin_token)) header
          (λ app'. let done = next app' in (ok done.0, done.1)) app)

  unfoldable pub handle_layered :
      Text → Layered → Option Text → Request → Circumstances → App x render → Served
  handle_layered admin_token (bare e) slug request c app = handle e slug request c app
  handle_layered admin_token (guarded e) slug request c app =
      protect admin_token request.authorization (handle e slug request c) app

  abbrev pub refuse_method : App x render → Served
  refuse_method app = (into_response w method_not_allowed, app)

  -- what the router of the administrator makes of a request, once it is dispatched
  unfoldable pub answer_admin :
      Text → Dispatched Layered → Request → Circumstances → App x render → Served
  unfolding handle_layered
  answer_admin admin_token (found r slug) request c app =
      handle_layered admin_token r.endpoint slug request c app
  answer_admin admin_token no_route request c app = (into_response w not_found, app)
  answer_admin admin_token (no_method false) request c app = refuse_method app
  answer_admin admin_token (no_method true) request c app =
      protect admin_token request.authorization refuse_method app

  -- one request to the router of the administrator
  unfoldable pub serve_admin : Text → Request → Circumstances → App x render → Served
  unfolding answer_admin
  serve_admin admin_token request =
      answer_admin admin_token (w.dispatch admin_routes request.method request.path) request
