-- ===== src/Domain/Rehydrate.antt =====
-- `LicenseDocument::rehydrate` of src/domain.rs: what was accepted is read back unchanged.
use aperip_nomos.Prelude.{
  ◌≡◌, refl, ◌≤◌, false, Option, some, arith, length, is_empty, any, inl, inr,
}
use aperip_nomos.Prelude.Int.{ℤ, pos, ◌≤ℤ◌}
use aperip_nomos.Prelude.Result.{Result, Result-cases, ok}
use aperip_nomos.Text.{Text, is_control, trim}
use aperip_nomos.Text.Equality.{text_eq_refl, text_eq_iff}
use aperip_nomos.Text.Utf8.{Bytes, as_bytes, from_utf8-as_bytes}
use aperip_nomos.Domain.{
  LicenseDraft, LicenseDocument, LicenseValidationError, Digests, hex_digest, into_document,
  derive_title, derive_slug, from_upload, rehydrate, max_title_chars,
}
use aperip_nomos.Domain.Slug.{requested_slug_of_IsSlug}
use aperip_nomos.Domain.Upload.{
  Accepted, from_upload-Accepted, from_upload_of_Accepted, IsValidDraft, from_upload-IsValidDraft,
}

title_kept :
    (filename title : Text)
    → trim title ≡ title
    → is_empty title ≡ false
    → length title ≤ max_title_chars
    → any is_control title ≡ false
    → derive_title filename (some title) ≡ ok title
unfolding derive_title
title_kept filename title t e l p = rw t (ground arith)

module _ (crypto : Digests) where
  -- A draft that was accepted is accepted again from its own fields, and stays the same.
  pub from_upload_again :
      (filename : Text) (title slug : Option Text) (bytes : Bytes) (ms : ℤ) (draft : LicenseDraft)
      → from_upload crypto filename title slug bytes ms ≡ ok draft
      → from_upload crypto draft.source_filename
          (some draft.title)
          (some draft.slug)
          (as_bytes draft.body)
          draft.uploaded_at_ms
        ≡ ok draft
  from_upload_again filename title slug bytes ms draft h =
      from_upload_of_Accepted crypto _ _ _ _ _ draft (record {
        filename_valid = rw a.named a.filename_valid;
        small = rw same a.small;
        decoded = rw same a.decoded;
        has_text = a.has_text;
        titled =
            title_kept draft.source_filename draft.title v.title_trimmed v.title_present
              v.title_short v.title_plain;
        digested = rw same a.digested;
        slugged =
            unfold derive_slug in requested_slug_of_IsSlug draft.slug v.slug_form v.slug_short;
        named = refl;
        dated = refl;
      })
    where
      a : Accepted crypto filename title slug bytes ms draft
      a = from_upload-Accepted crypto filename title slug bytes ms draft h

      v : IsValidDraft crypto draft
      v = from_upload-IsValidDraft crypto filename title slug bytes ms draft h

      same : as_bytes draft.body ≡ bytes
      same = from_utf8-as_bytes bytes draft.body a.decoded

  -- For every accepted upload and every id from 1 on, `rehydrate` rebuilds from the fields of the
  -- draft the very document that `into_document` makes.
  pub rehydrate-into_document :
      (filename : Text) (title slug : Option Text) (bytes : Bytes) (ms : ℤ) (draft : LicenseDraft)
      (id : ℤ)
      → from_upload crypto filename title slug bytes ms ≡ ok draft
      → pos 1 ≤ℤ id
      → rehydrate crypto id draft.slug draft.title draft.body draft.source_filename draft.sha256
          draft.uploaded_at_ms
        ≡ some (into_document draft id)
  unfolding rehydrate
  rehydrate-into_document filename title slug bytes ms draft id h l =
      rw (from_upload_again filename title slug bytes ms draft h)
        (ground (arith, text_eq_refl draft.slug, text_eq_refl draft.sha256))

  -- A document that `rehydrate` returns has an id from 1 on, the slug, file name, digest and date of
  -- the stored fields, the bytes of the stored body, and the digest of those bytes.
  pub rehydrate_sound :
      (id : ℤ) (slug title body source_filename sha256 : Text) (ms : ℤ) (document : LicenseDocument)
      → rehydrate crypto id slug title body source_filename sha256 ms ≡ some document
      → (pos 1 ≤ℤ id)
        × (document.id ≡ id)
        × (document.slug ≡ slug)
        × (document.source_filename ≡ source_filename)
        × (document.sha256 ≡ sha256)
        × (document.uploaded_at_ms ≡ ms)
        × (as_bytes document.body ≡ as_bytes body)
        × (sha256 ≡ hex_digest crypto (as_bytes body))
  unfolding rehydrate into_document
  rehydrate_sound id slug title body source_filename sha256 ms document h =
      elim (Result-cases upload) [
        | inr (e, failed) ↦ absurd (ground arith)
        | inl (draft, made) ↦
            let a = from_upload-Accepted crypto _ _ _ _ _ draft made in
            ground (
              arith,
              text_eq_iff draft.slug slug,
              text_eq_iff draft.sha256 sha256,
              a.named,
              a.dated,
              a.digested,
              from_utf8-as_bytes (as_bytes body) draft.body a.decoded,
            )
      ]
    where
      upload : Result LicenseValidationError LicenseDraft
      upload = from_upload crypto source_filename (some title) (some slug) (as_bytes body) ms
