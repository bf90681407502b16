-- ===== src/Http/Router/Guarded.antt =====
-- What a request to the routers of src/http may change, and which answers ask for a token.
use aperip_nomos.Prelude.{
  ◌≡◌, refl, ◌∙◌, ◌⊎◌, inl, inr, Bool, true, false, List, [], ◌∷◌, Option, Bool-cases,
}
use aperip_nomos.Prelude.Result.{Result, ok, err}
use aperip_nomos.Prelude.Exec.{Exec, proceed}
use aperip_nomos.Text.{Text, codes}
use aperip_nomos.Text.Utf8.{as_bytes}
use aperip_nomos.Domain.{LicenseDocument}
use aperip_nomos.Database.{Crates}
use aperip_nomos.Store.State.{StoreError, StoreCore}
use aperip_nomos.Http.{ApiError, unauthorized, is_markdown_filename}
use aperip_nomos.Http.Admin.{is_authorized, authorize}
use aperip_nomos.Http.Handlers.{
  Delivery, answered, late, refused, unreached, App, operate, reads, rendering, from_document,
  list_handler, detail_handler, ready_handler,
}
use aperip_nomos.Http.Web.{
  Method, on_post, on_delete, Route, Registered, Dispatched, found, no_route, no_method, serves,
  WebCrates, WebLaws,
}
use aperip_nomos.Http.Response.{into_response, reply}
use aperip_nomos.Http.Assets.{Files}
use aperip_nomos.Http.Router.{
  Endpoint, list, create, remove, Layered, guarded, open_routes, protected_routes, admin_routes,
  Request, Circumstances, Served, handle, protect, handle_layered, refuse_method, answer_admin,
  serve_admin,
}

-- a property of each route of a table
abbrev pub Each : {E : Type 0} → (Route E → Type 0) → List (Route E) → Type 0
Each P [] = Unit {0}
Each P (r ∷ rest) = P r × Each P rest

-- one route after another
infixr 30 ◌▸◌
abbrev pub ◌▸◌ : {A B : Type 0} → A → B → A × B
a ▸ b = (a, b)

pub registered-Each :
    {E : Type 0} (P : Route E → Type 0) (r : Route E) (routes : List (Route E))
    → Each P routes
    → Registered r routes
    → P r
registered-Each P r [] all here = absurd here
registered-Each P r (first ∷ rest) all (inl same) = rw same (all.0)
registered-Each P r (first ∷ rest) all (inr later) = registered-Each P r rest (all.1) later

serves_post : (method : Method) → serves on_post method ≡ true → method ≡ Method.post
unfolding serves
serves_post Method.get h = cc
serves_post Method.head h = cc
serves_post Method.post h = refl
serves_post Method.delete h = cc
serves_post Method.other h = cc

serves_delete : (method : Method) → serves on_delete method ≡ true → method ≡ Method.delete
unfolding serves
serves_delete Method.get h = cc
serves_delete Method.head h = cc
serves_delete Method.post h = cc
serves_delete Method.delete h = refl
serves_delete Method.other h = cc

module _ (x : Crates) (render : Text → Text) where
  operate-core {ℓ} :
      {A : Type ℓ} (delivery : Delivery) (query : StoreCore x.db → Result StoreError A)
      (app : App x render)
      → (operate x render delivery (reads x render query) app).1.core ≡ app.core
  unfolding operate
  operate-core answered query app = refl
  operate-core late query app = refl
  operate-core (refused e) query app = refl
  operate-core unreached query app = refl

  proceed-core {ℓ κ} :
      {A : Type ℓ} {B : Type κ} (core : StoreCore x.db) (p : Result ApiError A × App x render)
      (f : A → Exec (App x render) ApiError B)
      → p.1.core ≡ core
      → ((a : A) (app : App x render) → app.core ≡ core → (f a app).1.core ≡ core)
      → (proceed p f).1.core ≡ core
  proceed-core core (ok a, app) f h k = k a app h
  proceed-core core (err e, app) f h k = h

  from_document-core :
      (works : Bool) (d : LicenseDocument) (app : App x render)
      → (from_document x render works d app).1.core ≡ app.core
  unfolding from_document rendering
  from_document-core works d app = elim (Bool-cases (is_markdown_filename d.source_filename)) [
    | inl markdown ↦ rw markdown refl
    | inr plain ↦ rw plain refl
  ]

  pub ready_handler-core :
      (delivery : Delivery) (app : App x render)
      → (ready_handler x render delivery app).1.core ≡ app.core
  unfolding ready_handler
  ready_handler-core delivery app =
      proceed-core app.core (operate x render delivery _ app) _ (operate-core delivery _ app)
        λ a app' h. h

  pub list_handler-core :
      (delivery : Delivery) (app : App x render)
      → (list_handler x render delivery app).1.core ≡ app.core
  unfolding list_handler
  list_handler-core delivery app =
      proceed-core app.core (operate x render delivery _ app) _ (operate-core delivery _ app)
        λ a app' h. h

  pub detail_handler-core :
      (slug : Text) (delivery : Delivery) (works : Bool) (app : App x render)
      → (detail_handler x render slug delivery works app).1.core ≡ app.core
  unfolding detail_handler
  detail_handler-core slug delivery works app =
      proceed-core app.core (operate x render delivery _ app) _ (operate-core delivery _ app)
        λ d app' h. from_document-core works d app' ∙ h

  module _ (w : WebCrates) (laws : WebLaws w) (files : Files) where
    -- a request to a protected route, with the token or without
    pub protect-cases :
        (admin_token : Text) (header : Option Text) (next : App x render → Served x render w files)
        (app : App x render)
        → ((protect x render w files admin_token header next app ≡ next app)
            × (is_authorized x.digests.digest (x.digests.digest (as_bytes admin_token)) header
                ≡ true))
          ⊎ ((protect x render w files admin_token header next app
                ≡ (into_response w unauthorized, app))
              × (is_authorized x.digests.digest (x.digests.digest (as_bytes admin_token)) header
                  ≡ false))
    unfolding protect authorize reply
    protect-cases admin_token header next app =
        elim (Bool-cases
          (is_authorized x.digests.digest (x.digests.digest (as_bytes admin_token)) header)) [
            | inl granted ↦ inl (rw granted refl, granted)
            | inr denied ↦ inr (rw denied refl, denied)
          ]

    module _ (admin_token : Text) (request : Request) (c : Circumstances) (app : App x render) where
      abbrev Unchanged : Served x render w files → Type 0
      Unchanged done = done.1.core ≡ app.core

      -- the request has the token, and uploads or removes a license
      abbrev pub Permitted : Type 0
      Permitted =
          (is_authorized x.digests.digest (x.digests.digest (as_bytes admin_token))
              request.authorization
            ≡ true)
          × (((request.method ≡ Method.post)
                × (w.fits (codes "/api/admin/licenses") request.path ≡ true))
              ⊎ ((request.method ≡ Method.delete)
                  × (w.fits (codes "/api/admin/licenses/{slug}") request.path ≡ true)))

      protected :
          (next : App x render → Served x render w files)
          → Unchanged (next app)
          → Unchanged (protect x render w files admin_token request.authorization next app)
      protected next h = elim (protect-cases admin_token request.authorization next app) [
        | inl (e, granted) ↦ rw e h
        | inr (e, denied) ↦ rw e refl
      ]

      -- what a route of the administrator does, for every text of its `{slug}`
      abbrev Kept : Route Layered → Type 0
      Kept r =
          (slug : Option Text)
          → serves r.verb request.method ≡ true
          → w.fits r.path request.path ≡ true
          → Unchanged (handle_layered x render w files admin_token r.endpoint slug request c app)
            ⊎ Permitted

      permitted :
          (e : Endpoint) (slug : Option Text)
          → ((request.method ≡ Method.post)
              × (w.fits (codes "/api/admin/licenses") request.path ≡ true))
            ⊎ ((request.method ≡ Method.delete)
                × (w.fits (codes "/api/admin/licenses/{slug}") request.path ≡ true))
          → Unchanged (handle_layered x render w files admin_token (guarded e) slug request c app)
            ⊎ Permitted
      unfolding handle_layered
      permitted e slug h =
          elim (protect-cases admin_token request.authorization
            (handle x render w files e slug request c) app) [
              | inl (same, granted) ↦ inr (granted, h)
              | inr (same, denied) ↦ inl (rw same refl)
            ]

      admin_routes-Kept : Each Kept admin_routes
      unfolding admin_routes open_routes protected_routes handle_layered handle
      admin_routes-Kept =
          (λ slug v p. inl refl)
          ▸ (λ slug v p. inl refl)
          ▸ (λ slug v p. inl refl)
          ▸ (λ slug v p. inl refl)
          ▸ (λ slug v p. inl refl)
          ▸ (λ slug v p. inl (ready_handler-core c.delivery app))
          ▸ (λ slug v p. inl (
              protected (handle x render w files list slug request c)
                (list_handler-core c.delivery app)))
          ▸ (λ slug v p. permitted create slug (inl (serves_post request.method v, p)))
          ▸ (λ slug v p. permitted remove slug (inr (serves_delete request.method v, p)))
          ▸ tt

      dispatched-Permitted :
          (d : Dispatched Layered)
          → w.dispatch admin_routes request.method request.path ≡ d
          → Unchanged (answer_admin x render w files admin_token d request c app) ⊎ Permitted
      unfolding answer_admin
      dispatched-Permitted (found r slug) e =
          let k = laws.found-fits admin_routes request.method request.path r slug e in
          registered-Each Kept r admin_routes admin_routes-Kept (k.0) slug (k.1) (k.2)
      dispatched-Permitted no_route e = inl refl
      dispatched-Permitted (no_method false) e = inl refl
      dispatched-Permitted (no_method true) e =
          inl (protected (refuse_method x render w files) refl)

      -- Whatever a request to the router of the administrator meets, it leaves the store as it was,
      -- unless it has a bearer token with the digest of the administrator's, and is a POST to the path
      -- of the licenses or a DELETE to the path of one license.
      pub serve_admin-Permitted :
          Unchanged (serve_admin x render w files admin_token request c app) ⊎ Permitted
      unfolding serve_admin
      serve_admin-Permitted = dispatched-Permitted _ refl
