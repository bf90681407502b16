-- ===== src/Http/Router/Quiet.antt =====
-- The handlers of src/http give no answer that asks for a token.
use aperip_nomos.Prelude.{◌≡◌, refl, ◌∙◌, Option, none, some}
use aperip_nomos.Prelude.Result.{Result, ok, err}
use aperip_nomos.Prelude.Exec.{Exec, proceed}
use aperip_nomos.Text.{Text, codes, text_eq}
use aperip_nomos.Database.{Crates}
use aperip_nomos.Http.{
  ApiError, StatusCode, ok_200, unauthorized_401, unauthorized, created_201, no_content_204,
}
use aperip_nomos.Http.Admin.{current_time_ms}
use aperip_nomos.Http.Handlers.{
  App, create_handler, create_draft, draft_handler, remove_handler, list_handler, detail_handler,
  ready_handler, render_draft, operate, from_document,
}
use aperip_nomos.Http.Web.{www_authenticate, WebCrates, WebLaws, Payload, error_response}
use aperip_nomos.Http.Response.{Response, json_with, empty_with, rejected, into_response, reply}
use aperip_nomos.Http.Assets.{
  Files, EmbeddedAsset, asset_of, asset_headers, asset_response, content_type, cache_control,
  content_security_policy,
}
use aperip_nomos.Http.Router.{
  Endpoint, asset, live, ready, list, create, remove, detail, Request, Circumstances, handle,
}
use aperip_nomos.Http.Plain.{IsPlain, AllPlain}
use aperip_nomos.Http.Router.Errors.{
  ready_handler-AllPlain, list_handler-AllPlain, remove_handler-AllPlain, detail_handler-AllPlain,
  create_handler-AllPlain,
}

-- the status that a handler gives when it succeeds
abbrev Gives {ℓ} : {A : Type ℓ} → (A → StatusCode) → StatusCode → Result ApiError A → Type 0
Gives status_of status (ok a) = status_of a ≡ status
Gives status_of status (err e) = Unit {0}

proceed-Gives {ℓ κ} :
    {A : Type ℓ} {B : Type κ} {S : Type 0} (status_of : B → StatusCode) (status : StatusCode)
    (p : Result ApiError A × S) (f : A → Exec S ApiError B)
    → ((a : A) → Gives status_of status (f a p.1).0)
    → Gives status_of status (proceed p f).0
proceed-Gives status_of status (ok a, s) f h = h a
proceed-Gives status_of status (err e, s) f h = tt

module _ (w : WebCrates) (laws : WebLaws w) where
  -- an answer that does not ask for a token
  abbrev pub Quiet : Response w → Type 0
  Quiet response =
      (¬ (response.status ≡ unauthorized_401))
      × (w.get_first www_authenticate response.headers ≡ none)

  json-Quiet :
      (status : StatusCode) (payload : Payload)
      → ¬ (status ≡ unauthorized_401)
      → Quiet (json_with w status payload)
  unfolding json_with
  json-Quiet status payload h = (h, laws.json-asks payload)

  pub plain-Quiet : (e : ApiError) → IsPlain e → Quiet (into_response w e)
  unfolding into_response json_with
  plain-Quiet e (apart, off) =
      rw (off, into_response)
        (apart, laws.json-asks (error_response (record { code = e.code; message = e.message })))

  reply-Quiet {ℓ} :
      {A : Type ℓ} (show : A → Response w) (r : Result ApiError A)
      → AllPlain r
      → ((a : A) → r ≡ ok a → Quiet (show a))
      → Quiet (reply w show r)
  unfolding reply
  reply-Quiet show (ok a) plain h = h a refl
  reply-Quiet show (err e) plain h = plain-Quiet e plain

  rejected-Quiet : Quiet (rejected w)
  unfolding rejected
  rejected-Quiet = laws.rejection-asks

  asset-Quiet : (a : EmbeddedAsset) → Quiet (asset_response w a)
  unfolding asset_response asset_headers text_eq
  asset-Quiet a =
      let there = laws.get-append www_authenticate in
      (
        λ h. cc,
        there (codes "x-frame-options") _ _
            ∙ there (codes "referrer-policy") _ _
            ∙ there (codes "x-content-type-options") _ _
            ∙ there content_security_policy _ _
            ∙ there cache_control _ _
            ∙ there content_type _ _
            ∙ laws.get-empty www_authenticate,
      )

  -- the answer of `unauthorized`
  pub unauthorized_asks :
      ((into_response w unauthorized).status ≡ unauthorized_401)
      × (w.get_first www_authenticate (into_response w unauthorized).headers
          ≡ some (codes "Bearer"))
  unfolding into_response unauthorized json_with text_eq
  unauthorized_asks = (refl, laws.get-insert www_authenticate www_authenticate _ _)

module _ (x : Crates) (render : Text → Text) (w : WebCrates) (laws : WebLaws w) (files : Files)
    (request : Request) (c : Circumstances) (app : App x render) where
  created-Gives :
      Gives
        (λ a. a.0)
        created_201
        (create_handler x render request.fields
          (current_time_ms c.nanoseconds)
          c.delivery
          c.works
          c.works_again
          app).0
  unfolding create_handler create_draft
  created-Gives =
      proceed-Gives (λ a. a.0) created_201 (draft_handler x render request.fields _ app) _
        λ draft.
          proceed-Gives (λ a. a.0) created_201 (render_draft x render c.works draft app) _
            λ html.
              proceed-Gives (λ a. a.0) created_201 (operate x render c.delivery _ _) _
                λ license.
                  proceed-Gives (λ a. a.0) created_201
                    (from_document x render c.works_again license _) _ λ shown. refl

  removed-Gives :
      (slug : Text) → Gives (λ a. a) no_content_204 (remove_handler x render slug c.delivery app).0
  unfolding remove_handler
  removed-Gives slug =
      proceed-Gives (λ a. a) no_content_204 (operate x render c.delivery _ app) _ λ license. refl

  -- no handler asks for a token
  pub handle-Quiet :
      (e : Endpoint) (slug : Option Text)
      → Quiet w laws (handle x render w files e slug request c app).0
  unfolding handle empty_with json_with
  handle-Quiet (asset a) slug = asset-Quiet w laws (asset_of files a)
  handle-Quiet live slug = json-Quiet w laws ok_200 _ (λ h. cc)
  handle-Quiet ready slug =
      reply-Quiet w laws _ (ready_handler x render c.delivery app).0
        (ready_handler-AllPlain x render c.delivery app) λ a h. json-Quiet w laws ok_200 _ (λ k. cc)
  handle-Quiet list slug =
      reply-Quiet w laws _ (list_handler x render c.delivery app).0
        (list_handler-AllPlain x render c.delivery app) λ a h. json-Quiet w laws ok_200 _ (λ k. cc)
  handle-Quiet create slug =
      let now = current_time_ms c.nanoseconds in
      reply-Quiet w laws _
        (create_handler x render request.fields now c.delivery c.works c.works_again app).0
        (create_handler-AllPlain x render request.fields now c.delivery c.works c.works_again app)
        λ a h. json-Quiet w laws (a.0) _ (λ k. let g = rw h at created-Gives in cc)
  handle-Quiet remove none = rejected-Quiet w laws
  handle-Quiet remove (some slug) =
      reply-Quiet w laws _ (remove_handler x render slug c.delivery app).0
        (remove_handler-AllPlain x render slug c.delivery app)
        λ a h. (λ k. let g = rw h at (removed-Gives slug) in cc, laws.get-empty www_authenticate)
  handle-Quiet detail none = rejected-Quiet w laws
  handle-Quiet detail (some slug) =
      reply-Quiet w laws _ (detail_handler x render slug c.delivery c.works app).0
        (detail_handler-AllPlain x render slug c.delivery c.works app)
        λ a h. json-Quiet w laws ok_200 _ (λ k. cc)
