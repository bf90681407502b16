-- ===== src/Http/ReadBack.antt =====
-- What the public listener of src/http shows after the administrator uploaded or removed a license.
use aperip_nomos.Prelude.{◌≡◌, refl, ap, ◌∙◌, inl, inr, Bool, List, Option, none, some, Bool-cases}
use aperip_nomos.Prelude.Int.{ℤ}
use aperip_nomos.Prelude.Result.{Result, Result-cases, ok, err}
use aperip_nomos.Prelude.Exec.{proceed, pure}
use aperip_nomos.Text.{Text}
use aperip_nomos.Text.Equality.{text_eq_refl}
use aperip_nomos.Domain.{LicenseDraft, LicenseDocument, into_document}
use aperip_nomos.Database.{Crates, RnmdbLaws}
use aperip_nomos.Store.State.{StoreError, StoreCore}
use aperip_nomos.Store.Load.Rows.{FromUpload}
use aperip_nomos.Store.Core.{
  create as create_license, delete as delete_license, get as get_license, find,
}
use aperip_nomos.Store.Coherent.{Coherent}
use aperip_nomos.Store.Create.Reconcile.{Created}
use aperip_nomos.Store.Create.{create-Created}
use aperip_nomos.Store.Delete.Reconcile.{Deleted}
use aperip_nomos.Store.Delete.{delete-Deleted}
use aperip_nomos.Markdown.Room.{IsCounted}
use aperip_nomos.Http.{
  ApiError, StatusCode, created_201, no_content_204, LicenseDetail, of_store, not_found,
  store_operation, is_markdown_filename, detail, render_document_markdown, body_format,
}
use aperip_nomos.Http.Admin.{Field, draft_of}
use aperip_nomos.Http.Handlers.{
  Handler, Delivery, answered, late, refused, unreached, App, operate, rendering, render_draft,
  from_document, create_draft, create_handler, detail_handler, remove_handler,
}
use aperip_nomos.Http.Shown.{Kept, cached_hit, render_draft-Kept}
use aperip_nomos.Http.Created.{draft_of-FromUpload}

module _ (x : Crates) (render : Text → Text) where
  -- the details of a document with its rendering
  abbrev shown_as : LicenseDocument → Option Text → LicenseDetail
  shown_as d html = record {
    id = d.id;
    slug = d.slug;
    title = d.title;
    body = d.body;
    body_format = body_format html;
    rendered_html = html;
    source_filename = d.source_filename;
    sha256 = d.sha256;
    uploaded_at_ms = d.uploaded_at_ms;
  }

  -- a document whose rendering is in the cache is shown alike each time, and showing it changes nothing
  shown_same :
      (draft : LicenseDraft) (id : ℤ) (app : App x render)
      → Kept x render draft app.cache
      → (shown : LicenseDetail) × (shown.slug ≡ draft.slug)
        × ((works : Bool)
            → from_document x render works (into_document draft id) app ≡ (ok shown, app))
  unfolding from_document rendering render_document_markdown into_document detail
  shown_same draft id app kept = elim (Bool-cases (is_markdown_filename draft.source_filename)) [
    | inr plain ↦ (shown_as (into_document draft id) none, refl, λ works. rw (plain, detail) refl)
    | inl markdown ↦
        let (v, here) = kept markdown in
        (
          shown_as (into_document draft id) (some v),
          refl,
          λ works.
              rw
                (
                  markdown,
                  cached_hit x render works draft.sha256 draft.body v app.cache here,
                  detail,
                  render_document_markdown,
                  markdown,
                )
                refl,
        )
  ]

  -- the answer of `create` once the license is stored
  abbrev answer_created : Bool → LicenseDocument → Handler x render (StatusCode × LicenseDetail)
  answer_created works license app =
      proceed (from_document x render works license app) λ s. pure (created_201, s)

  module _ (laws : RnmdbLaws x.db) (draft : LicenseDraft) (status : StatusCode)
      (shown : LicenseDetail) (after : App x render) where
    -- what the public listener answers from then on
    abbrev Back : Type 0
    Back =
        (works : Bool) → detail_handler x render shown.slug answered works after ≡ (ok shown, after)

    stored_back :
        (before : Text → Option LicenseDocument) (works_again : Bool)
        (r : Result StoreError LicenseDocument × StoreCore x.db) (app : App x render)
        → Created x laws before draft r
        → Kept x render draft app.cache
        → app.core ≡ r.1
        → proceed (store_operation (some r.0), app) (answer_created works_again)
          ≡ (ok (status, shown), after)
        → Back
    unfolding store_operation detail_handler operate get_license
    stored_back before works_again (err e, core) app made kept same h works = cc
    stored_back before works_again (ok d, core) app made kept same h works =
        let (free, is_draft, seen) = made.success d refl in
        let (shown', its_slug, again) = shown_same draft d.id app kept in
        let once : from_document x render works_again d app ≡ (ok shown', app) =
          ap (λ k. from_document x render works_again k app) is_draft ∙ again works_again in
        let done = rw once at h in
        let shown_is : shown' ≡ shown = cc in
        let after_is : app ≡ after = cc in
        let now : find x app.core.state draft.slug ≡ some d =
          rw same (rw (text_eq_refl draft.slug) at (seen draft.slug)) in
        let here : find x app.core.state shown'.slug ≡ some d =
          ap (find x app.core.state) its_slug ∙ now in
        let found : detail_handler x render shown'.slug answered works app ≡ (ok shown', app) =
          rw here (ap (λ k. from_document x render works k app) is_draft ∙ again works) in
        rw (shown_is, after_is) at found

    -- from the rendering of the draft on
    rendered_back :
        (delivery : Delivery) (works_again : Bool) (app : App x render)
        (q : Result ApiError (Option Text) × App x render)
        → Coherent x laws app.core
        → FromUpload x draft
        → q.1.core ≡ app.core
        → ((h : Option Text) → q.0 ≡ ok h → Kept x render draft q.1.cache)
        → proceed q (λ _ app'.
          proceed
            (operate x render delivery (create_license x draft) app')
            (answer_created works_again))
          ≡ (ok (status, shown), after)
        → Back
    unfolding operate store_operation
    rendered_back delivery works_again app (err e, app₁) c u same kept h = cc
    rendered_back answered works_again app (ok html, app₁) c u same kept h =
        let made = create-Created x laws app₁.core draft (rw same c) u in
        stored_back (find x app₁.core.state) works_again (create_license x draft app₁.core)
          (record app₁ { core = (create_license x draft app₁.core).1 }) made (kept html refl) refl h
    rendered_back late works_again app (ok html, app₁) c u same kept h = cc
    rendered_back (refused e) works_again app (ok html, app₁) c u same kept h = cc
    rendered_back unreached works_again app (ok html, app₁) c u same kept h = cc

  module _ (laws : RnmdbLaws x.db) (app : App x render) where
    -- After an upload to a coherent store that was answered with the details of a license, the public
    -- listener answers a request for this license with the same details, whether or not a task could
    -- render it again, and that changes neither the store nor the cache.
    pub read_after_upload :
        (fields : List (Option Field)) (now : Option ℤ) (delivery : Delivery)
        (works works_again : Bool) (status : StatusCode) (shown : LicenseDetail)
        (after : App x render)
        → Coherent x laws app.core
        → IsCounted app.cache
        → create_handler x render fields now delivery works works_again app
          ≡ (ok (status, shown), after)
        → (works_later : Bool)
        → detail_handler x render shown.slug answered works_later after ≡ (ok shown, after)
    unfolding create_handler create_draft
    read_after_upload fields now delivery works works_again status shown after c counted h later =
        elim (Result-cases (draft_of x.digests fields now)) [
          | inr (e, failed) ↦ let k = rw failed at h in cc
          | inl (draft, drafted) ↦
              let u = draft_of-FromUpload x laws render fields now draft drafted in
              let k = render_draft-Kept x render works draft app counted in
              rendered_back laws draft status shown after delivery works_again app
                (render_draft x render works draft app) c u k.0 k.1 (rw drafted at h) later
        ]

    -- the same from the answer of the store on
    removed_back :
        (slug : Text) (r : Result StoreError LicenseDocument × StoreCore x.db) (status : StatusCode)
        (after after₁ : App x render)
        → Deleted x laws (find x app.core.state) slug r
        → after₁.core ≡ r.1
        → proceed (store_operation (some r.0), after₁) (λ license. pure no_content_204)
          ≡ (ok status, after)
        → (works : Bool)
        → detail_handler x render slug answered works after ≡ (err not_found, after)
    unfolding store_operation detail_handler operate get_license of_store
    removed_back slug (err e, core) status after after₁ made same h works = cc
    removed_back slug (ok d, core) status after after₁ made same h works =
        let (there, gone) = made.success d refl in
        let after_is : after₁ ≡ after = cc in
        let none_there : find x after₁.core.state slug ≡ none =
          rw same (rw (text_eq_refl slug) at (gone slug)) in
        rw (← after_is, none_there) refl

    -- After a removal from a coherent store that was answered with success, the public listener answers
    -- a request for that license with 404, and that changes neither the store nor the cache.
    pub missing_after_removal :
        (slug : Text) (delivery : Delivery) (status : StatusCode) (after : App x render)
        → Coherent x laws app.core
        → remove_handler x render slug delivery app ≡ (ok status, after)
        → (works : Bool)
        → detail_handler x render slug answered works after ≡ (err not_found, after)
    unfolding remove_handler operate store_operation
    missing_after_removal slug answered status after c h =
        removed_back slug (delete_license x slug app.core) status after
          (record app { core = (delete_license x slug app.core).1 })
          (delete-Deleted x laws app.core slug c) refl h
    missing_after_removal slug late status after c h = cc
    missing_after_removal slug (refused e) status after c h = cc
    missing_after_removal slug unreached status after c h = cc
