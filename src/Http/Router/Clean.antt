-- ===== src/Http/Router/Clean.antt =====
-- What the listeners of src/http show of a text in Markdown, after any requests.
use aperip_nomos.Prelude.{
  ◌≡◌, refl, inl, inr, Bool, List, Option, none, some, ltb, Bool-cases, Option-cases,
}
use aperip_nomos.Prelude.Int.{ℤ}
use aperip_nomos.Prelude.Result.{Result, ok, err}
use aperip_nomos.Prelude.Exec.{Exec, proceed, pure}
use aperip_nomos.Text.{Text, byte_len}
use aperip_nomos.Domain.{LicenseDraft, LicenseDocument}
use aperip_nomos.Database.{Crates}
use aperip_nomos.Store.State.{StoreError, StoreCore}
use aperip_nomos.Store.Core.{create as create_license}
use aperip_nomos.Markdown.{
  RenderCache, MarkdownRenderError, max_rendered_bytes, get, render_once, render_now, insert,
}
use aperip_nomos.Markdown.Room.{IsCounted, insert-IsCounted}
use aperip_nomos.Markdown.Contents.{insert_sound}
use aperip_nomos.Markdown.Page.{HtmlCrates, HtmlLaws, render_license_markdown}
use aperip_nomos.Markdown.Page.Harmless.{IsHarmless, render_license_markdown-IsHarmless}
use aperip_nomos.Http.{
  ApiError, StatusCode, created_201, LicenseDetail, detail, is_markdown_filename,
  render_document_markdown,
}
use aperip_nomos.Http.Admin.{Field, draft_of}
use aperip_nomos.Http.Handlers.{
  Delivery, answered, late, refused, unreached, App, operate, render_cached, rendering,
  render_draft, from_document, create_draft, create_handler, remove_handler, list_handler,
  detail_handler, ready_handler,
}

module _ (x : Crates) (h : HtmlCrates) (laws : HtmlLaws h) where
  abbrev pub render : Text → Text
  render = render_license_markdown h

  -- a cache within its limits whose pages are harmless
  abbrev pub IsClean : RenderCache → Type 0
  IsClean cache = IsCounted cache × ((k v : Text) → get cache k ≡ some v → IsHarmless h v)

  insert-IsClean :
      (digest markdown : Text) (cache : RenderCache)
      → IsClean cache
      → IsClean (insert digest (render markdown) cache)
  insert-IsClean digest markdown cache (c, clean) = (
    insert-IsCounted digest (render markdown) cache c,
    λ k v e. elim (insert_sound digest (render markdown) k v cache c e) [
      | inl (same, new) ↦ rw new (render_license_markdown-IsHarmless h laws markdown)
      | inr old ↦ clean k v old
    ],
  )

  -- a rendering and the cache that it leaves
  abbrev Rendered {ℓ} : {E : Type ℓ} → Result E Text × RenderCache → Type ℓ
  Rendered r = IsClean r.1 × ((v : Text) → r.0 ≡ ok v → IsHarmless h v)

  render_cached-Rendered :
      (works : Bool) (digest markdown : Text) (cache : RenderCache)
      → IsClean cache
      → Rendered (render_cached x render works digest markdown cache)
  unfolding render_cached render_once render_now
  render_cached-Rendered works digest markdown cache clean =
      elim (Option-cases (get cache digest)) [
        | inr (w, here) ↦
            rw (here, render_cached)
              (clean, λ v e. let same : w ≡ v = cc in rw (← same) (clean.1 digest w here))
        | inl absent ↦ elim (Bool-cases works) [
          | inr idle ↦ rw (absent, render_cached, idle) (clean, λ v e. cc)
          | inl busy ↦ elim (Bool-cases (ltb max_rendered_bytes (byte_len (render markdown)))) [
            | inl large ↦
                rw (absent, render_cached, busy, render_once, absent, large) (clean, λ v e. cc)
            | inr fits ↦
                rw (absent, render_cached, busy, render_once, absent, fits)
                  (
                    insert-IsClean digest markdown cache clean,
                    λ v e.
                        let same : render markdown ≡ v = cc in
                        rw (← same) (render_license_markdown-IsHarmless h laws markdown),
                  )
          ]
        ]
      ]

  rendering-Rendered :
      (works : Bool) (filename digest body : Text) (app : App x render)
      → IsClean app.cache
      → IsClean (rendering x render works filename digest body app).1.cache
        × ((v : Text)
            → (rendering x render works filename digest body app).0 ≡ ok v
            → IsHarmless h v)
  unfolding rendering
  rendering-Rendered works filename digest body app clean =
      elim (Bool-cases (is_markdown_filename filename)) [
        | inl markdown ↦ rw markdown (render_cached-Rendered works digest body app.cache clean)
        | inr plain ↦ rw plain (clean, λ v e. cc)
      ]

  abbrev pub IsHarmlessPage : Option Text → Type 0
  IsHarmlessPage none = Unit {0}
  IsHarmlessPage (some html) = IsHarmless h html

  page-IsHarmlessPage :
      (o : Option Text) → ((html : Text) → o ≡ some html → IsHarmless h html) → IsHarmlessPage o
  page-IsHarmlessPage none k = tt
  page-IsHarmlessPage (some html) k = k html refl

  -- details without a page, or with one that is harmless
  abbrev pub IsShown : LicenseDetail → Type 0
  IsShown shown = IsHarmlessPage shown.rendered_html

  detail_shows :
      (d : LicenseDocument) (r : Result MarkdownRenderError Text) (shown : LicenseDetail)
      (html : Text)
      → detail d r ≡ ok shown
      → shown.rendered_html ≡ some html
      → r ≡ ok html
  unfolding detail render_document_markdown
  detail_shows d (ok v) shown html e k =
      elim (Bool-cases (is_markdown_filename d.source_filename)) [
        | inl markdown ↦ let made = rw (detail, render_document_markdown, markdown) at e in cc
        | inr plain ↦ let made = rw (detail, render_document_markdown, plain) at e in cc
      ]
  detail_shows d (err f) shown html e k =
      elim (Bool-cases (is_markdown_filename d.source_filename)) [
        | inl markdown ↦ let made = rw (detail, render_document_markdown, markdown) at e in cc
        | inr plain ↦ let made = rw (detail, render_document_markdown, plain) at e in cc
      ]

  -- a handler that leaves a clean cache, and of whose result a property holds
  abbrev pub Tidy {ℓ} : {A : Type ℓ} → (A → Type 0) → Result ApiError A × App x render → Type ℓ
  Tidy P r = IsClean r.1.cache × ((a : _) → r.0 ≡ ok a → P a)

  abbrev Any {ℓ} : {A : Type ℓ} → A → Type 0
  Any a = Unit {0}

  proceed-Tidy {ℓ κ} :
      {A : Type ℓ} {B : Type κ} (Q : B → Type 0) (p : Result ApiError A × App x render)
      (f : A → Exec (App x render) ApiError B)
      → IsClean p.1.cache
      → ((a : A) → IsClean p.1.cache → Tidy Q (f a p.1))
      → Tidy Q (proceed p f)
  proceed-Tidy Q (ok a, app) f clean k = k a clean
  proceed-Tidy Q (err e, app) f clean k = (clean, λ a i. cc)

  operate-IsClean {ℓ} :
      {A : Type ℓ} (delivery : Delivery) (command : Exec (StoreCore x.db) StoreError A)
      (app : App x render)
      → IsClean app.cache
      → IsClean (operate x render delivery command app).1.cache
  unfolding operate
  operate-IsClean answered command app clean = clean
  operate-IsClean late command app clean = clean
  operate-IsClean (refused e) command app clean = clean
  operate-IsClean unreached command app clean = clean

  from_document-Tidy :
      (works : Bool) (d : LicenseDocument) (app : App x render)
      → IsClean app.cache
      → Tidy IsShown (from_document x render works d app)
  unfolding from_document
  from_document-Tidy works d app clean =
      let (kept, made) = rendering-Rendered works d.source_filename d.sha256 d.body app clean in
      (
        kept,
        λ shown e.
            page-IsHarmlessPage shown.rendered_html
              λ html k. made html (detail_shows d _ shown html e k),
      )

  pub ready_handler-Tidy :
      (delivery : Delivery) (app : App x render)
      → IsClean app.cache
      → Tidy (λ _. Unit {0}) (ready_handler x render delivery app)
  unfolding ready_handler
  ready_handler-Tidy delivery app clean =
      proceed-Tidy (λ _. Unit {0}) (operate x render delivery _ app) _
        (operate-IsClean delivery _ app clean) λ a c. (c, λ b e. tt)

  pub list_handler-Tidy :
      (delivery : Delivery) (app : App x render)
      → IsClean app.cache
      → Tidy (λ _. Unit {0}) (list_handler x render delivery app)
  unfolding list_handler
  list_handler-Tidy delivery app clean =
      proceed-Tidy (λ _. Unit {0}) (operate x render delivery _ app) _
        (operate-IsClean delivery _ app clean) λ a c. (c, λ b e. tt)

  pub remove_handler-Tidy :
      (slug : Text) (delivery : Delivery) (app : App x render)
      → IsClean app.cache
      → Tidy (λ _. Unit {0}) (remove_handler x render slug delivery app)
  unfolding remove_handler
  remove_handler-Tidy slug delivery app clean =
      proceed-Tidy (λ _. Unit {0}) (operate x render delivery _ app) _
        (operate-IsClean delivery _ app clean) λ a c. (c, λ b e. tt)

  pub detail_handler-Tidy :
      (slug : Text) (delivery : Delivery) (works : Bool) (app : App x render)
      → IsClean app.cache
      → Tidy IsShown (detail_handler x render slug delivery works app)
  unfolding detail_handler
  detail_handler-Tidy slug delivery works app clean =
      proceed-Tidy IsShown (operate x render delivery _ app) _
        (operate-IsClean delivery _ app clean) λ d c. from_document-Tidy works d _ c

  abbrev pub IsShownBeside : StatusCode × LicenseDetail → Type 0
  IsShownBeside (status, shown) = IsShown shown

  created-Tidy :
      (p : Result ApiError LicenseDetail × App x render)
      → Tidy IsShown p
      → Tidy IsShownBeside (proceed p λ s. pure (created_201, s))
  created-Tidy (ok s, app) (clean, shows) =
      (clean, λ a e. let same : s ≡ a.1 = cc in rw same at (shows s refl))
  created-Tidy (err f, app) (clean, shows) = (clean, λ a e. cc)

  create_draft-Tidy :
      (delivery : Delivery) (works works_again : Bool) (draft : LicenseDraft) (app : App x render)
      → IsClean app.cache
      → Tidy IsShownBeside (create_draft x render delivery works works_again draft app)
  unfolding create_draft render_draft
  create_draft-Tidy delivery works works_again draft app clean =
      let (kept, made) =
        rendering-Rendered works draft.source_filename draft.sha256 draft.body app clean in
      proceed-Tidy IsShownBeside (render_draft x render works draft app) _ kept λ html c.
        proceed-Tidy IsShownBeside (operate x render delivery (create_license x draft) _) _
          (operate-IsClean delivery (create_license x draft) _ c)
          λ license c'.
            created-Tidy (from_document x render works_again license _)
              (from_document-Tidy works_again license _ c')

  pub create_handler-Tidy :
      (fields : List (Option Field)) (now : Option ℤ) (delivery : Delivery)
      (works works_again : Bool) (app : App x render)
      → IsClean app.cache
      → Tidy IsShownBeside (create_handler x render fields now delivery works works_again app)
  unfolding create_handler
  create_handler-Tidy fields now delivery works works_again app clean =
      proceed-Tidy IsShownBeside (draft_of x.digests fields now, app) _ clean
        λ draft c. create_draft-Tidy delivery works works_again draft app c
