-- ===== src/Http/Created.antt =====
-- The handler of src/http/admin.rs that uploads a license, from the multipart form to its answer.
use aperip_nomos.Prelude.{
  ◌≡◌, refl, sym, ap, ◌∙◌, ◌⊎◌, inl, inr, Bool, false, List, Option, none, some, if◌then◌else◌,
  arith,
}
use aperip_nomos.Prelude.Int.{ℤ}
use aperip_nomos.Prelude.Result.{Result, Result-cases, ok, err, ok_or, >>=-eq-ok}
use aperip_nomos.Prelude.Exec.{proceed, pure}
use aperip_nomos.Text.{Text, text_eq}
use aperip_nomos.Domain.{LicenseDraft, LicenseDocument, into_document, from_upload}
use aperip_nomos.Database.{Crates, RnmdbLaws}
use aperip_nomos.Store.State.{StoreError, StoreCore}
use aperip_nomos.Store.Load.Rows.{FromUpload}
use aperip_nomos.Store.Core.{create as create_license, find}
use aperip_nomos.Store.Coherent.{Coherent}
use aperip_nomos.Store.Create.Reconcile.{Created}
use aperip_nomos.Store.Create.{create-Created}
use aperip_nomos.Markdown.{RenderCache, MarkdownRenderError}
use aperip_nomos.Markdown.Room.{IsCounted}
use aperip_nomos.Http.{
  ApiError, StatusCode, created_201, LicenseDetail, detail, store_operation, service_unavailable,
  of_store,
}
use aperip_nomos.Http.Admin.{Field, draft_of, parse_upload, missing_file}
use aperip_nomos.Http.Handlers.{
  Delivery, answered, late, refused, unreached, App, operate, render_draft, from_document,
  create_draft, create_handler,
}
use aperip_nomos.Http.Shown.{Kept, render_draft-Kept, shown_again}

module _ (x : Crates) (laws : RnmdbLaws x.db) (render : Text → Text) where
  open x use {db}

  -- readers see the license that a draft became, and all others as before
  abbrev pub Stored : (Text → Option LicenseDocument) → LicenseDraft → ℤ → StoreCore db → Type 0
  Stored before draft id core =
      (slug : Text)
      → find x core.state slug
        ≡ (if text_eq draft.slug slug then some (into_document draft id) else before slug)

  -- What an upload leaves. It succeeds with the license that readers see from then on. If it fails, it
  -- has changed nothing that they see, or the state of the store is lost, or the license was stored and
  -- the answer of the store was late.
  pub record Handled (before : Text → Option LicenseDocument) (delivery : Delivery)
      (drafted : Result ApiError LicenseDraft)
      (r : Result ApiError (StatusCode × LicenseDetail) × App x render) : Type 0 where
    pub coherent : Coherent x laws r.1.core
    pub success :
        (answer : StatusCode × LicenseDetail)
        → r.0 ≡ ok answer
        → (draft : LicenseDraft) × (id : ℤ) × (rendered : Result MarkdownRenderError Text)
          × (drafted ≡ ok draft)
          × (answer.0 ≡ created_201)
          × (detail (into_document draft id) rendered ≡ ok answer.1)
          × Stored before draft id r.1.core
    pub failure :
        (e : ApiError)
        → r.0 ≡ err e
        → ((slug : Text) → find x r.1.core.state slug ≡ before slug)
          ⊎ ((r.1.core.state ≡ none) × (r.1.core.shared.alive ≡ false))
          ⊎ ((delivery ≡ late)
              × ((draft : LicenseDraft) × (id : ℤ) × (drafted ≡ ok draft)
                  × Stored before draft id r.1.core))

  -- a failure that changed nothing
  unchanged-Handled :
      (delivery : Delivery) (drafted : Result ApiError LicenseDraft) (e : ApiError)
      (app app₁ : App x render)
      → Coherent x laws app.core
      → app₁.core ≡ app.core
      → Handled (find x app.core.state) delivery drafted (err e, app₁)
  unchanged-Handled delivery drafted e app app₁ h same = record {
    coherent = rw same h;
    success = λ a k. cc;
    failure = λ f k. inl λ slug. rw same refl;
  }

  module _ (before : Text → Option LicenseDocument) (draft : LicenseDraft) where
    -- from the details on
    shown-Handled :
        (id : ℤ) (core : StoreCore db) (q : Result ApiError LicenseDetail × App x render)
        (rendered : Result MarkdownRenderError Text) (shown : LicenseDetail)
        → Coherent x laws core
        → Stored before draft id core
        → q.1.core ≡ core
        → q.0 ≡ ok shown
        → detail (into_document draft id) rendered ≡ ok shown
        → Handled before answered (ok draft) (proceed q λ s. pure (created_201, s))
    shown-Handled id core (err e, app₃) rendered shown h seen same made e' = cc
    shown-Handled id core (ok s, app₃) rendered shown h seen same made e' = record {
      coherent = rw same h;
      success = λ a k.
          let a_is : a ≡ (created_201, s) = cc in
          let s_is : s ≡ shown = cc in
          (
            draft,
            id,
            rendered,
            refl,
            ap (λ p. p.0) a_is,
            e' ∙ ap ok (sym s_is ∙ sym (ap (λ p. p.1) a_is)),
            rw same seen,
          );
      failure = λ f k. cc;
    }

    -- from the answer of the store on
    stored-Handled :
        (works : Bool) (r : Result StoreError LicenseDocument × StoreCore db) (cache : RenderCache)
        → Created x laws before draft r
        → Kept x render draft cache
        → Handled before answered (ok draft) (
            proceed
              (store_operation (some r.0), record { core = r.1; cache = cache })
              λ license app.
                proceed (from_document x render works license app) λ s. pure (created_201, s))
    unfolding store_operation
    stored-Handled works (err e, core) cache made kept = record {
      coherent = made.coherent;
      success = λ a k. cc;
      failure =
          λ f k. elim (made.failure e refl) [ inl same ↦ inl same | inr gone ↦ inr (inl gone) ];
    }
    stored-Handled works (ok d, core) cache made kept =
        let k = made.success d refl in
        let app : App x render = record { core = core; cache = cache } in
        let again = shown_again x render works draft d.id app kept in
        rw (k.1) (
          shown-Handled d.id core (from_document x render works (into_document draft d.id) app)
            again.1.0 again.1.1 made.coherent (rw (k.1) at (k.2)) again.0 again.1.2 again.1.3)

  -- an answer that is late
  late-Handled :
      (before : Text → Option LicenseDocument) (draft : LicenseDraft)
      (r : Result StoreError LicenseDocument × StoreCore db) (e : ApiError) (cache : RenderCache)
      → Created x laws before draft r
      → Handled before late (ok draft) (err e, record { core = r.1; cache = cache })
  late-Handled before draft (err f, core) e cache made = record {
    coherent = made.coherent;
    success = λ a k. cc;
    failure = λ g k. elim (made.failure f refl) [ inl same ↦ inl same | inr gone ↦ inr (inl gone) ];
  }
  late-Handled before draft (ok d, core) e cache made = record {
    coherent = made.coherent;
    success = λ a k. cc;
    failure = λ g k.
        let l = made.success d refl in inr (inr (refl, (draft, d.id, refl, rw (l.1) at (l.2))));
  }

  -- from the rendering of the draft on
  rendered-Handled :
      (delivery : Delivery) (works : Bool) (draft : LicenseDraft) (app : App x render)
      (q : Result ApiError (Option Text) × App x render)
      → Coherent x laws app.core
      → FromUpload x draft
      → q.1.core ≡ app.core
      → ((h : Option Text) → q.0 ≡ ok h → Kept x render draft q.1.cache)
      → Handled (find x app.core.state) delivery (ok draft) (
          proceed q λ _ app'.
            proceed (operate x render delivery (create_license x draft) app') λ license app''.
              proceed (from_document x render works license app'') λ s. pure (created_201, s))
  unfolding operate store_operation
  rendered-Handled delivery works draft app (err e, app₁) c u same kept =
      unchanged-Handled delivery (ok draft) e app app₁ c same
  rendered-Handled answered works draft app (ok h, app₁) c u same kept =
      let made = create-Created x laws app₁.core draft (rw same c) u in
      rw (← same) (
        stored-Handled (find x app₁.core.state) draft works (create_license x draft app₁.core)
          app₁.cache made (kept h refl))
  rendered-Handled late works draft app (ok h, app₁) c u same kept =
      let made = create-Created x laws app₁.core draft (rw same c) u in
      rw (← same) (
        late-Handled (find x app₁.core.state) draft (create_license x draft app₁.core)
          service_unavailable app₁.cache made)
  rendered-Handled (refused e) works draft app (ok h, app₁) c u same kept =
      unchanged-Handled (refused e) (ok draft) (of_store e) app app₁ c same
  rendered-Handled unreached works draft app (ok h, app₁) c u same kept =
      unchanged-Handled unreached (ok draft) service_unavailable app app₁ c same

  pub draft_of-FromUpload :
      (fields : List (Option Field)) (now : Option ℤ) (draft : LicenseDraft)
      → draft_of x.digests fields now ≡ ok draft
      → FromUpload x draft
  unfolding draft_of
  draft_of-FromUpload fields now draft h =
      let (upload, parsed, h₁) = >>=-eq-ok (parse_upload fields) _ h in
      let (filename, named, h₂) = >>=-eq-ok (ok_or upload.filename missing_file) _ h₁ in
      let (bytes, filed, h₃) = >>=-eq-ok (ok_or upload.file missing_file) _ h₂ in
      let (ms, dated, h₄) = >>=-eq-ok (ok_or now service_unavailable) _ h₃ in
      elim (Result-cases (from_upload x.digests filename upload.title upload.slug bytes ms)) [
        | inr (e, failed) ↦ absurd (ground arith)
        | inl (d, made) ↦
            let same : d ≡ draft = ground arith in
            record {
              filename = filename;
              title = upload.title;
              slug = upload.slug;
              bytes = bytes;
              ms = ms;
              made = rw same at made;
            }
      ]

  -- An upload to a coherent store, whatever becomes of its command: if the handler succeeds, it answers
  -- 201 with the details of the uploaded license, and readers see this license under its slug and all
  -- others as before. If it fails, readers see what they saw before, unless the state of the store was
  -- lost in a recovery, or the license was stored and the answer of the store came too late. The details
  -- never fail once the license is stored.
  pub create_handler-Handled :
      (fields : List (Option Field)) (now : Option ℤ) (delivery : Delivery)
      (works works_again : Bool) (app : App x render)
      → Coherent x laws app.core
      → IsCounted app.cache
      → Handled
          (find x app.core.state)
          delivery
          (draft_of x.digests fields now)
          (create_handler x render fields now delivery works works_again app)
  unfolding create_handler create_draft
  create_handler-Handled fields now delivery works works_again app c counted =
      elim (Result-cases (draft_of x.digests fields now)) [
        | inr (e, failed) ↦ rw failed (unchanged-Handled delivery (err e) e app app c refl)
        | inl (draft, made) ↦
            let u = draft_of-FromUpload fields now draft made in
            let k = render_draft-Kept x render works draft app counted in
            rw made (
              rendered-Handled delivery works_again draft app
                (render_draft x render works draft app) c u k.0 k.1)
      ]
