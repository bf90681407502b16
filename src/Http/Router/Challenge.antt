-- ===== src/Http/Router/Challenge.antt =====
-- Which answers of src/http ask for a token, and that the public router changes nothing.
use aperip_nomos.Prelude.{◌≡◌, refl, ◌⊎◌, inl, inr, true, false, Option, none, some}
use aperip_nomos.Text.{Text, codes}
use aperip_nomos.Text.Utf8.{as_bytes}
use aperip_nomos.Database.{Crates}
use aperip_nomos.Http.{unauthorized_401, unauthorized, not_found, method_not_allowed}
use aperip_nomos.Http.Admin.{is_authorized}
use aperip_nomos.Http.Handlers.{App}
use aperip_nomos.Http.Web.{
  Route, Dispatched, found, no_route, no_method, www_authenticate, WebCrates, WebLaws,
}
use aperip_nomos.Http.Response.{into_response}
use aperip_nomos.Http.Assets.{Files}
use aperip_nomos.Http.Router.{
  Endpoint, detail, Layered, bare, guarded, public_routes, Request, Circumstances, Served, handle,
  serve_public, protect, handle_layered, refuse_method, answer_public, answer_admin, serve_admin,
}
use aperip_nomos.Http.Plain.{not_found-IsPlain, method_not_allowed-IsPlain}
use aperip_nomos.Http.Router.Guarded.{
  Each, ◌▸◌, registered-Each, ready_handler-core, list_handler-core, detail_handler-core,
  protect-cases,
}
use aperip_nomos.Http.Router.Quiet.{Quiet, plain-Quiet, unauthorized_asks, handle-Quiet}

module _ (x : Crates) (render : Text → Text) (w : WebCrates) (laws : WebLaws w) (files : Files)
    (request : Request) (c : Circumstances) (app : App x render) where
  abbrev Same : Route Endpoint → Type 0
  Same r =
      (slug : Option Text)
      → (handle x render w files r.endpoint slug request c app).1.core ≡ app.core

  detail-Same :
      (slug : Option Text) → (handle x render w files detail slug request c app).1.core ≡ app.core
  unfolding handle
  detail-Same none = refl
  detail-Same (some slug) = detail_handler-core x render slug c.delivery c.works app

  public_routes-Same : Each Same public_routes
  unfolding public_routes handle
  public_routes-Same =
      (λ slug. refl)
      ▸ (λ slug. refl)
      ▸ (λ slug. refl)
      ▸ (λ slug. refl)
      ▸ (λ slug. refl)
      ▸ (λ slug. refl)
      ▸ (λ slug. refl)
      ▸ (λ slug. ready_handler-core x render c.delivery app)
      ▸ (λ slug. list_handler-core x render c.delivery app)
      ▸ detail-Same
      ▸ tt

  dispatched-Harmless :
      (d : Dispatched Endpoint)
      → w.dispatch public_routes request.method request.path ≡ d
      → ((answer_public x render w files d request c app).1.core ≡ app.core)
        × Quiet w laws (answer_public x render w files d request c app).0
  unfolding answer_public
  dispatched-Harmless (found r slug) e =
      let (there, _, _) = laws.found-fits public_routes request.method request.path r slug e in
      (
        registered-Each Same r public_routes public_routes-Same there slug,
        handle-Quiet x render w laws files request c app r.endpoint slug,
      )
  dispatched-Harmless no_route e = (refl, plain-Quiet w laws not_found not_found-IsPlain)
  dispatched-Harmless (no_method layered) e =
      (refl, plain-Quiet w laws method_not_allowed method_not_allowed-IsPlain)

  -- No request to the public router changes the store, whatever its method, path and headers are, and
  -- none is answered with 401 or with the header `WWW-Authenticate`.
  pub serve_public-Harmless :
      ((serve_public x render w files request c app).1.core ≡ app.core)
      × Quiet w laws (serve_public x render w files request c app).0
  unfolding serve_public
  serve_public-Harmless = dispatched-Harmless _ refl

  module _ (admin_token : Text) where
    -- the answer asks for a token, and nothing was done for the request, which had none that is valid
    abbrev pub Asked : Served x render w files → Type 0
    Asked done =
        (done ≡ (into_response w unauthorized, app))
        × (is_authorized x.digests.digest (x.digests.digest (as_bytes admin_token))
              request.authorization
            ≡ false)
        × (done.0.status ≡ unauthorized_401)
        × (w.get_first www_authenticate done.0.headers ≡ some (codes "Bearer"))

    protect-Asked :
        (next : App x render → Served x render w files)
        → Quiet w laws (next app).0
        → Quiet w laws (protect x render w files admin_token request.authorization next app).0
          ⊎ Asked (protect x render w files admin_token request.authorization next app)
    protect-Asked next q =
        elim (protect-cases x render w laws files admin_token request.authorization next app) [
          | inl (e, granted) ↦ inl (rw e q)
          | inr (e, denied) ↦
              let (status, header) = unauthorized_asks w laws in
              inr (e, denied, rw e status, rw e header)
        ]

    layered-Asked :
        (e : Layered) (slug : Option Text)
        → Quiet w laws (handle_layered x render w files admin_token e slug request c app).0
          ⊎ Asked (handle_layered x render w files admin_token e slug request c app)
    unfolding handle_layered
    layered-Asked (bare e) slug = inl (handle-Quiet x render w laws files request c app e slug)
    layered-Asked (guarded e) slug =
        protect-Asked (handle x render w files e slug request c)
          (handle-Quiet x render w laws files request c app e slug)

    dispatched-Asked :
        (d : Dispatched Layered)
        → Quiet w laws (answer_admin x render w files admin_token d request c app).0
          ⊎ Asked (answer_admin x render w files admin_token d request c app)
    unfolding answer_admin
    dispatched-Asked (found r slug) = layered-Asked r.endpoint slug
    dispatched-Asked no_route = inl (plain-Quiet w laws not_found not_found-IsPlain)
    dispatched-Asked (no_method false) =
        inl (plain-Quiet w laws method_not_allowed method_not_allowed-IsPlain)
    dispatched-Asked (no_method true) =
        protect-Asked (refuse_method x render w files)
          (plain-Quiet w laws method_not_allowed method_not_allowed-IsPlain)

    -- An answer of the router of the administrator either has neither the status 401 nor the header
    -- `WWW-Authenticate`, or it has both, the header with the value `Bearer`. It has them only for a
    -- request without the token of the administrator, and nothing was changed for it.
    pub serve_admin-Asked :
        Quiet w laws (serve_admin x render w files admin_token request c app).0
        ⊎ Asked (serve_admin x render w files admin_token request c app)
    unfolding serve_admin
    serve_admin-Asked = dispatched-Asked _
