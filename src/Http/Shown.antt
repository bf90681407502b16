-- ===== src/Http/Shown.antt =====
-- A text that src/http/admin.rs has rendered is in the cache, so that it can be shown.
use aperip_nomos.Prelude.{
  ◌≡◌, refl, inl, inr, Bool, true, Option, none, some, ltb, Bool-cases, Option-cases, arith,
}
use aperip_nomos.Prelude.Int.{ℤ}
use aperip_nomos.Prelude.Result.{Result, Result-cases, ok, err}
use aperip_nomos.Text.{Text, byte_len}
use aperip_nomos.Domain.{LicenseDraft, LicenseDocument, into_document}
use aperip_nomos.Database.{Crates}
use aperip_nomos.Markdown.{
  RenderCache, MarkdownRenderError, worker_failed, max_rendered_bytes, get, render_once, render_now,
}
use aperip_nomos.Markdown.Room.{IsCounted}
use aperip_nomos.Markdown.Contents.{get-insert}
use aperip_nomos.Http.{LicenseDetail, detail, is_markdown_filename, render_document_markdown}
use aperip_nomos.Http.Handlers.{App, render_cached, rendering, render_draft, from_document}

module _ (x : Crates) (render : Text → Text) where
  pub cached_hit :
      (works : Bool) (digest markdown v : Text) (cache : RenderCache)
      → get cache digest ≡ some v
      → render_cached x render works digest markdown cache ≡ (ok v, cache)
  unfolding render_cached
  cached_hit works digest markdown v cache e = rw (e, render_cached) refl

  -- what was rendered is in the cache
  cached_again :
      (works : Bool) (digest markdown v : Text) (cache : RenderCache)
      → IsCounted cache
      → (render_cached x render works digest markdown cache).0 ≡ ok v
      → (w : Text) × (get (render_cached x render works digest markdown cache).1 digest ≡ some w)
  unfolding render_cached render_once render_now
  cached_again works digest markdown v cache c e = elim (Option-cases (get cache digest)) [
    | inr (w, here) ↦ rw (here, render_cached) (w, here)
    | inl absent ↦ elim (Bool-cases works) [
      | inr idle ↦ let k = rw (absent, render_cached, idle) at e in cc
      | inl busy ↦ elim (Bool-cases (ltb max_rendered_bytes (byte_len (render markdown)))) [
        | inl large ↦
            let k = rw (absent, render_cached, busy, render_once, absent, large) at e in cc
        | inr fits ↦ (
          render markdown,
          rw (absent, render_cached, busy, render_once, absent, fits)
              (get-insert digest (render markdown) cache c (ground arith) absent),
        )
      ]
    ]
  ]

  -- the cache has the rendering of a draft, if it is Markdown
  abbrev pub Kept : LicenseDraft → RenderCache → Type 0
  Kept draft cache =
      is_markdown_filename draft.source_filename ≡ true
      → (w : Text) × (get cache draft.sha256 ≡ some w)

  pub render_draft-Kept :
      (works : Bool) (draft : LicenseDraft) (app : App x render)
      → IsCounted app.cache
      → ((render_draft x render works draft app).1.core ≡ app.core)
        × ((h : Option Text)
            → (render_draft x render works draft app).0 ≡ ok h
            → Kept draft (render_draft x render works draft app).1.cache)
  unfolding render_draft rendering render_document_markdown
  render_draft-Kept works draft app c =
      elim (Bool-cases (is_markdown_filename draft.source_filename)) [
        | inr plain ↦ rw plain (refl, λ h e k. cc)
        | inl markdown ↦
            let done = render_cached x render works draft.sha256 draft.body app.cache in
            elim (Result-cases done.0) [
              | inl (v, made) ↦
                  let again = cached_again works draft.sha256 draft.body v app.cache c made in
                  rw (markdown, made, render_document_markdown, markdown) (refl, λ h e k. again)
              | inr (f, failed) ↦
                  rw (markdown, failed, render_document_markdown, markdown) (refl, λ h e k. cc)
            ]
      ]

  detail-ok :
      (d : LicenseDocument) (r : Result MarkdownRenderError Text) (h : Option Text)
      → render_document_markdown d.source_filename r ≡ ok h
      → (shown : LicenseDetail) × (detail d r ≡ ok shown)
  unfolding detail
  detail-ok d r h e = rw (detail, e) (_, refl)

  -- a document whose rendering is in the cache can be shown
  pub shown_again :
      (works : Bool) (draft : LicenseDraft) (id : ℤ) (app : App x render)
      → Kept draft app.cache
      → ((from_document x render works (into_document draft id) app).1.core ≡ app.core)
        × ((rendered : Result MarkdownRenderError Text) × (shown : LicenseDetail) × ((from_document
                x render works
                (into_document draft id)
                app).0
              ≡ ok shown)
            × (detail (into_document draft id) rendered ≡ ok shown))
  unfolding from_document rendering render_document_markdown into_document
  shown_again works draft id app kept =
      elim (Bool-cases (is_markdown_filename draft.source_filename)) [
        | inr plain ↦
            let k =
              detail-ok (into_document draft id) (err worker_failed) none
                (rw (render_document_markdown, plain) refl) in
            rw plain (refl, (err worker_failed, k.0, k.1, k.1))
        | inl markdown ↦
            let (w, here) = kept markdown in
            let hit = cached_hit works draft.sha256 draft.body w app.cache here in
            let k =
              detail-ok (into_document draft id) (ok w) (some w)
                (rw (render_document_markdown, markdown) refl) in
            rw (markdown, hit) (refl, (ok w, k.0, k.1, k.1))
      ]
