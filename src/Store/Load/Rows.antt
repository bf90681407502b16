-- ===== src/Store/Load/Rows.antt =====
-- The rows that src/store.rs writes and accepts: a document's row is decoded to that document, and a
-- row that is decoded has the id and the slug of its document.
use aperip_nomos.Prelude.{◌≡◌, refl, [], ◌∷◌, Option, some, arith, Option-cases, inl, inr}
use aperip_nomos.Prelude.Int.{ℤ, pos, ◌≤ℤ◌}
use aperip_nomos.Prelude.Result.{ok}
use aperip_nomos.Text.{Text, text_eq}
use aperip_nomos.Text.Utf8.{Bytes, as_bytes, from_utf8-as_bytes}
use aperip_nomos.Domain.{LicenseDraft, LicenseDocument, into_document, from_upload}
use aperip_nomos.Domain.Upload.{Accepted, from_upload-Accepted}
use aperip_nomos.Domain.Rehydrate.{rehydrate-into_document, rehydrate_sound}
use aperip_nomos.Sql.Reading.{Row, int64, text}
use aperip_nomos.Sql.Statement.{license_row}
use aperip_nomos.Database.{Crates, row_id, has_slug}
use aperip_nomos.Store.Load.{decode_body, decode_fields, decode_document}

module _ (x : Crates) where
  -- a draft that some upload yields
  pub record FromUpload (draft : LicenseDraft) : Type 0 where
    pub filename : Text
    pub title : Option Text
    pub slug : Option Text
    pub bytes : Bytes
    pub ms : ℤ
    pub made : from_upload x.digests filename title slug bytes ms ≡ ok draft

  -- the row of a document
  abbrev pub row_of : LicenseDocument → Row
  row_of d =
      license_row d.id d.slug d.title (x.base64.encode (as_bytes d.body)) d.source_filename d.sha256
        d.uploaded_at_ms

  body_kept :
      (draft : LicenseDraft)
      → FromUpload draft
      → decode_body x (x.base64.encode (as_bytes draft.body)) ≡ some draft.body
  unfolding decode_body
  body_kept draft u = rw (x.base64.decode_encode (as_bytes draft.body), same) a.decoded
    where
      a : Accepted x.digests u.filename u.title u.slug u.bytes u.ms draft
      a = from_upload-Accepted x.digests u.filename u.title u.slug u.bytes u.ms draft u.made

      same : as_bytes draft.body ≡ u.bytes
      same = from_utf8-as_bytes u.bytes draft.body a.decoded

  -- The row that is written for the document of an accepted draft with an id from 1 on is decoded to
  -- that document.
  pub decode_document-row_of :
      (draft : LicenseDraft) (id : ℤ)
      → FromUpload draft
      → pos 1 ≤ℤ id
      → decode_document x (row_of (into_document draft id)) ≡ ok (into_document draft id)
  decode_document-row_of draft id u l =
      let kept =
        rehydrate-into_document x.digests u.filename u.title u.slug u.bytes u.ms draft id u.made
          l in
      unfold decode_document decode_fields into_document in rw (body_kept draft u, kept)

  -- a row that is decoded has seven columns of the right types
  row_shape :
      (row : Row) (d : LicenseDocument)
      → decode_document x row ≡ ok d
      → (id : ℤ) × (slug : Text) × (title : Text) × (body : Text) × (filename : Text) × (sha : Text)
        × (ms : ℤ) × (row ≡ license_row id slug title body filename sha ms)
        × (decode_fields x id slug title body filename sha ms ≡ ok d)
  unfolding decode_document
  row_shape
        (int64 id ∷ text slug ∷ text title ∷ text body ∷ text filename ∷ text sha ∷ int64 ms ∷ []) d
        h =
      (id, slug, title, body, filename, sha, ms, refl, h)
  row_shape row d h = cc

  decode_fields_sound :
      (id : ℤ) (slug title body filename sha : Text) (ms : ℤ) (d : LicenseDocument)
      → decode_fields x id slug title body filename sha ms ≡ ok d
      → (d.id ≡ id) × (d.slug ≡ slug) × (pos 1 ≤ℤ id)
  unfolding decode_fields
  decode_fields_sound id slug title body filename sha ms d h =
      elim (Option-cases (decode_body x body)) [
        | inl bad ↦ absurd (ground arith)
        | inr (t, good) ↦
            let sound =
              rehydrate_sound x.digests id slug title t filename sha ms d (ground arith) in
            (sound.1, sound.2, sound.0)
      ]

  -- A row that is decoded shows the id and the slug of its document, and the id is 1 or more.
  pub decode_document-columns :
      (row : Row) (d : LicenseDocument)
      → decode_document x row ≡ ok d
      → (row_id row ≡ some d.id)
        × ((slug : Text) → has_slug slug row ≡ text_eq d.slug slug)
        × (pos 1 ≤ℤ d.id)
  decode_document-columns row d h =
      let (id, slug, title, body, filename, sha, ms, e, f) = row_shape row d h in
      let (same_id, same_slug, low) = decode_fields_sound id slug title body filename sha ms d f in
      (rw (e, same_id), λ s. rw (e, same_slug), rw same_id low)
