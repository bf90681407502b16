-- ===== src/Http/Router/Errors.antt =====
-- The handlers of src/http report no error that asks for a token.
use aperip_nomos.Prelude.{inl, inr, Bool, List, Option, none, some, Bool-cases}
use aperip_nomos.Prelude.Int.{ℤ}
use aperip_nomos.Prelude.Result.{Result, Result-cases, ok, err}
use aperip_nomos.Prelude.Exec.{Exec}
use aperip_nomos.Text.{Text}
use aperip_nomos.Domain.{LicenseDocument}
use aperip_nomos.Database.{Crates}
use aperip_nomos.Store.State.{StoreError, StoreCore}
use aperip_nomos.Store.Core.{create as create_license}
use aperip_nomos.Markdown.{MarkdownRenderError}
use aperip_nomos.Http.{is_markdown_filename, render_document_markdown, detail}
use aperip_nomos.Http.Admin.{Field, draft_of}
use aperip_nomos.Http.Handlers.{
  Delivery, answered, late, refused, unreached, App, operate, render_draft, from_document,
  create_draft, create_handler, remove_handler, list_handler, detail_handler, ready_handler,
}
use aperip_nomos.Http.Plain.{
  AllPlain, service_unavailable-IsPlain, proceed-AllPlain, store_operation-AllPlain,
  draft_of-AllPlain,
}

render_document_markdown-AllPlain :
    (filename : Text) (r : Result MarkdownRenderError Text)
    → AllPlain (render_document_markdown filename r)
unfolding render_document_markdown
render_document_markdown-AllPlain filename (ok html) =
    elim (Bool-cases (is_markdown_filename filename)) [
      | inr plain ↦ rw (plain, render_document_markdown) tt
      | inl markdown ↦ rw (markdown, render_document_markdown) tt
    ]
render_document_markdown-AllPlain filename (err e) =
    elim (Bool-cases (is_markdown_filename filename)) [
      | inr plain ↦ rw (plain, render_document_markdown) tt
      | inl markdown ↦ rw (markdown, render_document_markdown) service_unavailable-IsPlain
    ]

detail-AllPlain :
    (d : LicenseDocument) (r : Result MarkdownRenderError Text) → AllPlain (detail d r)
unfolding detail
detail-AllPlain d r =
    let p = render_document_markdown-AllPlain d.source_filename r in
    elim (Result-cases (render_document_markdown d.source_filename r)) [
      | inl (html, made) ↦ rw (made, detail) tt
      | inr (e, failed) ↦ rw (failed, detail) (rw failed at p)
    ]

module _ (x : Crates) (render : Text → Text) where
  operate-AllPlain {ℓ} :
      {A : Type ℓ} (delivery : Delivery) (command : Exec (StoreCore x.db) StoreError A)
      (app : App x render)
      → AllPlain (operate x render delivery command app).0
  unfolding operate
  operate-AllPlain answered command app = store_operation-AllPlain (some (command app.core).0)
  operate-AllPlain late command app = store_operation-AllPlain none
  operate-AllPlain {A = A} (refused e) command app = store_operation-AllPlain {A = A} (some (err e))
  operate-AllPlain unreached command app = store_operation-AllPlain none

  from_document-AllPlain :
      (works : Bool) (d : LicenseDocument) (app : App x render)
      → AllPlain (from_document x render works d app).0
  unfolding from_document
  from_document-AllPlain works d app = detail-AllPlain d _

  pub ready_handler-AllPlain :
      (delivery : Delivery) (app : App x render) → AllPlain (ready_handler x render delivery app).0
  unfolding ready_handler
  ready_handler-AllPlain delivery app =
      proceed-AllPlain (operate x render delivery _ app) _ (operate-AllPlain delivery _ app) λ a. tt

  pub list_handler-AllPlain :
      (delivery : Delivery) (app : App x render) → AllPlain (list_handler x render delivery app).0
  unfolding list_handler
  list_handler-AllPlain delivery app =
      proceed-AllPlain (operate x render delivery _ app) _ (operate-AllPlain delivery _ app) λ a. tt

  pub remove_handler-AllPlain :
      (slug : Text) (delivery : Delivery) (app : App x render)
      → AllPlain (remove_handler x render slug delivery app).0
  unfolding remove_handler
  remove_handler-AllPlain slug delivery app =
      proceed-AllPlain (operate x render delivery _ app) _ (operate-AllPlain delivery _ app) λ a. tt

  pub detail_handler-AllPlain :
      (slug : Text) (delivery : Delivery) (works : Bool) (app : App x render)
      → AllPlain (detail_handler x render slug delivery works app).0
  unfolding detail_handler
  detail_handler-AllPlain slug delivery works app =
      proceed-AllPlain (operate x render delivery _ app) _ (operate-AllPlain delivery _ app)
        λ d. from_document-AllPlain works d _

  pub create_handler-AllPlain :
      (fields : List (Option Field)) (now : Option ℤ) (delivery : Delivery)
      (works works_again : Bool) (app : App x render)
      → AllPlain (create_handler x render fields now delivery works works_again app).0
  unfolding create_handler create_draft render_draft
  create_handler-AllPlain fields now delivery works works_again app =
      proceed-AllPlain (draft_of x.digests fields now, app) _
        (draft_of-AllPlain x.digests fields now)
        λ draft.
          proceed-AllPlain (render_draft x render works draft app) _
            (render_document_markdown-AllPlain draft.source_filename _)
            λ html.
              proceed-AllPlain (operate x render delivery (create_license x draft) _) _
                (operate-AllPlain delivery (create_license x draft) _)
                λ license.
                  proceed-AllPlain (from_document x render works_again license _) _
                    (from_document-AllPlain works_again license _) λ s. tt
