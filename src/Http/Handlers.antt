-- ===== src/Http/Handlers.antt =====
-- The handlers of src/http/admin.rs and src/http/public.rs over the store and the cache of renderings.
-- A command to the store may be refused, or answered too late.
use aperip_nomos.Prelude.{Bool, List, Option, none, some, map, if◌then◌else◌}
use aperip_nomos.Prelude.Int.{ℤ}
use aperip_nomos.Prelude.Result.{Result, ok, err}
use aperip_nomos.Prelude.Exec.{Exec, pure, ◌>>=◌, ◌>>◌}
use aperip_nomos.Text.{Text, codes}
use aperip_nomos.Domain.{LicenseDraft, LicenseDocument}
use aperip_nomos.Database.{Crates}
use aperip_nomos.Store.State.{StoreError, StoreCore}
use aperip_nomos.Store.Core.{
  create as create_license, delete as delete_license, list as list_licenses, get as get_license,
}
use aperip_nomos.Markdown.{
  RenderCache, MarkdownRenderError, worker_failed, render_once, get as get_rendered,
}
use aperip_nomos.Http.{
  ApiError, StatusCode, created_201, no_content_204, LicenseSummary, LicenseDetail, summary, detail,
  store_operation, is_markdown_filename, render_document_markdown,
}
use aperip_nomos.Http.Admin.{Field, draft_of}

-- What becomes of a command within the time that a handler waits: the answer arrives; the command is
-- carried out, but the answer is late; the handle refuses it; it is dropped, or not yet reached.
pub data Delivery : Type 0 where
  answered late : Delivery
  refused : StoreError → Delivery
  unreached : Delivery

module _ (x : Crates) (render : Text → Text) where
  open x use {db}

  pub record App : Type 0 where
    pub core : StoreCore db
    pub cache : RenderCache

  abbrev pub Handler {ℓ} : Type ℓ → Type ℓ
  Handler A = Exec App ApiError A

  -- `store_operation` on a command
  unfoldable pub operate {ℓ} :
      {A : Type ℓ} → Delivery → Exec (StoreCore db) StoreError A → Handler A
  operate answered command app =
      let done = command app.core in (store_operation (some done.0), record app { core = done.1 })
  operate late command app = (store_operation none, record app { core = (command app.core).1 })
  operate (refused e) command app = (store_operation (some (err e)), app)
  operate unreached command app = (store_operation none, app)

  -- a command that changes nothing
  abbrev pub reads {ℓ} :
      {A : Type ℓ} → (StoreCore db → Result StoreError A) → Exec (StoreCore db) StoreError A
  reads query core = (query core, core)

  -- `render_cached` of a request that no other one disturbs: whether its task, if it needs one, works
  unfoldable pub render_cached : Bool → Text → Text → Exec RenderCache MarkdownRenderError Text
  render_cached works digest markdown cache = elim (get_rendered cache digest) [
    | some rendered ↦ (ok rendered, cache)
    | none ↦ if works then render_once render digest markdown cache else (err worker_failed, cache)
  ]

  -- The text of a file that is no Markdown is not rendered, and the result stands for nothing.
  unfoldable pub rendering : Bool → Text → Text → Text → App → Result MarkdownRenderError Text × App
  rendering works filename digest body app =
      let done = render_cached works digest body app.cache in
      if is_markdown_filename filename
      then (done.0, record app { cache = done.1 })
      else (err worker_failed, app)

  -- `render_document_markdown` on a draft
  unfoldable pub render_draft : Bool → LicenseDraft → Handler (Option Text)
  render_draft works draft app =
      let done = rendering works draft.source_filename draft.sha256 draft.body app in
      (render_document_markdown draft.source_filename done.0, done.1)

  -- `LicenseDetail::from_document`
  unfoldable pub from_document : Bool → LicenseDocument → Handler LicenseDetail
  from_document works document app =
      let done = rendering works document.source_filename document.sha256 document.body app in
      (detail document done.0, done.1)

  abbrev pub draft_handler : List (Option Field) → Option ℤ → Handler LicenseDraft
  draft_handler fields now app = (draft_of x.digests fields now, app)

  -- `create` from the point where the draft is valid
  unfoldable pub create_draft :
      Delivery → Bool → Bool → LicenseDraft → Handler (StatusCode × LicenseDetail)
  create_draft delivery works works_again draft = do
    render_draft works draft
    license ← operate delivery (create_license x draft)
    shown ← from_document works_again license
    pure (created_201, shown)

  -- `create` of the administrator: `works` and `works_again` are the tasks that render
  unfoldable pub create_handler :
      List (Option Field) → Option ℤ → Delivery → Bool → Bool → Handler (StatusCode × LicenseDetail)
  create_handler fields now delivery works works_again = do
    draft ← draft_handler fields now
    create_draft delivery works works_again draft

  -- `remove` of the administrator
  unfoldable pub remove_handler : Text → Delivery → Handler StatusCode
  remove_handler slug delivery = do operate delivery (delete_license x slug); pure no_content_204

  -- `list` of both listeners
  unfoldable pub list_handler : Delivery → Handler (List LicenseSummary)
  list_handler delivery = do
    licenses ← operate delivery (reads (list_licenses x))
    pure (map summary licenses)

  -- `detail` of the public listener
  unfoldable pub detail_handler : Text → Delivery → Bool → Handler LicenseDetail
  detail_handler slug delivery works = do
    license ← operate delivery (reads (λ core. get_license x core slug))
    from_document works license

  -- `ready` of both listeners
  unfoldable pub ready_handler : Delivery → Handler Text
  ready_handler delivery = do operate delivery (reads (λ core. ok (tt {0}))); pure (codes "ok")
