-- ===== src/Domain/Upload.antt =====
-- `LicenseDraft::from_upload` of src/domain.rs: what an accepted upload guarantees.
use mathlib.Core.Option.{get_or}
use aperip_nomos.Prelude.{◌≤◌, ◌≡◌, false, Option, some, arith, ltb, length, is_empty, any}
use aperip_nomos.Prelude.Int.{ℤ}
use aperip_nomos.Prelude.Result.{ok}
use aperip_nomos.Text.{Text, byte_len, contains_char, is_control, trim}
use aperip_nomos.Text.Trim.{trim_idem}
use aperip_nomos.Text.Utf8.{Bytes, from_utf8, as_bytes, from_utf8-as_bytes}
use aperip_nomos.Domain.{
  LicenseDraft, Digests, hex_digest, validate_filename, derive_title, derive_slug, from_upload,
  max_license_bytes, max_filename_bytes, max_title_chars, max_slug_bytes, digest_slug_length,
  filename_stem,
}
use aperip_nomos.Domain.Slug.{IsSlug, derive_slug-IsSlug}

module _ (crypto : Digests) where
  -- the checks that an upload passed, and where each field of its draft comes from
  pub record Accepted (filename : Text) (title slug : Option Text) (bytes : Bytes) (ms : ℤ)
      (draft : LicenseDraft) : Type 0 where
    pub filename_valid : validate_filename filename ≡ ok tt
    pub small : ltb max_license_bytes (length bytes) ≡ false
    pub decoded : from_utf8 bytes ≡ some draft.body
    pub has_text : is_empty (trim draft.body) ≡ false
    pub titled : derive_title filename title ≡ ok draft.title
    pub digested : draft.sha256 ≡ hex_digest crypto bytes
    pub slugged : derive_slug filename slug (hex_digest crypto bytes) ≡ ok draft.slug
    pub named : draft.source_filename ≡ filename
    pub dated : draft.uploaded_at_ms ≡ ms

  pub from_upload-Accepted :
      (filename : Text) (title slug : Option Text) (bytes : Bytes) (ms : ℤ) (draft : LicenseDraft)
      → from_upload crypto filename title slug bytes ms ≡ ok draft
      → Accepted filename title slug bytes ms draft
  from_upload-Accepted filename title slug bytes ms draft h = unfold from_upload in ground arith

  pub from_upload_of_Accepted :
      (filename : Text) (title slug : Option Text) (bytes : Bytes) (ms : ℤ) (draft : LicenseDraft)
      → Accepted filename title slug bytes ms draft
      → from_upload crypto filename title slug bytes ms ≡ ok draft
  from_upload_of_Accepted filename title slug bytes ms draft a = unfold from_upload in ground arith

  -- what a stored license promises to a reader
  pub record IsValidDraft (draft : LicenseDraft) : Type 0 where
    pub slug_form : IsSlug draft.slug
    pub slug_short : byte_len draft.slug ≤ max_slug_bytes
    pub title_trimmed : trim draft.title ≡ draft.title
    pub title_present : is_empty draft.title ≡ false
    pub title_short : length draft.title ≤ max_title_chars
    pub title_plain : any is_control draft.title ≡ false
    pub body_present : is_empty (trim draft.body) ≡ false
    pub body_small : length (as_bytes draft.body) ≤ max_license_bytes
    pub filename_present : is_empty draft.source_filename ≡ false
    pub filename_short : byte_len draft.source_filename ≤ max_filename_bytes
    pub filename_flat : contains_char b'/' draft.source_filename ≡ false
    pub filename_plain : any is_control draft.source_filename ≡ false
    pub digest_matches : draft.sha256 ≡ hex_digest crypto (as_bytes draft.body)

  derive_title_trimmed :
      (filename : Text) (requested : Option Text) (title : Text)
      → derive_title filename requested ≡ ok title
      → (trim title ≡ title)
        × (is_empty title ≡ false)
        × (length title ≤ max_title_chars)
        × (any is_control title ≡ false)
  unfolding derive_title
  derive_title_trimmed filename requested title h =
      ground (arith, trim_idem (get_or requested (filename_stem filename)))

  digest_long : (bytes : Bytes) → digest_slug_length ≤ length (hex_digest crypto bytes)
  digest_long bytes =
      omega (arith, crypto.length_hex (crypto.digest bytes), crypto.length_digest bytes)

  -- Every accepted draft is valid: a canonical slug of at most 96 bytes, a trimmed title of 1 to 160
  -- characters with no control character, a body with text in at most 1 MiB, a plain file name of 1 to
  -- 255 bytes with no slash, and the digest of the very bytes of its body.
  pub from_upload-IsValidDraft :
      (filename : Text) (title slug : Option Text) (bytes : Bytes) (ms : ℤ) (draft : LicenseDraft)
      → from_upload crypto filename title slug bytes ms ≡ ok draft
      → IsValidDraft draft
  from_upload-IsValidDraft filename title slug bytes ms draft h = record {
    slug_form = bounds.0;
    slug_short = bounds.1;
    title_trimmed = named.0;
    title_present = named.1;
    title_short = named.2;
    title_plain = named.3;
    body_present = a.has_text;
    body_small = rw same (ground (arith, a.small));
    filename_present = rw a.named (file.0);
    filename_short = rw a.named (file.1);
    filename_flat = rw a.named (file.2);
    filename_plain = rw a.named (file.3);
    digest_matches = rw same a.digested;
  }
    where
      a : Accepted filename title slug bytes ms draft
      a = from_upload-Accepted filename title slug bytes ms draft h

      same : as_bytes draft.body ≡ bytes
      same = from_utf8-as_bytes bytes draft.body a.decoded

      bounds : IsSlug draft.slug × (byte_len draft.slug ≤ max_slug_bytes)
      bounds =
          derive_slug-IsSlug filename slug (hex_digest crypto bytes) draft.slug
            (crypto.hex_digits (crypto.digest bytes)) (digest_long bytes) a.slugged

      named :
          (trim draft.title ≡ draft.title)
          × (is_empty draft.title ≡ false)
          × (length draft.title ≤ max_title_chars)
          × (any is_control draft.title ≡ false)
      named = derive_title_trimmed filename title draft.title a.titled

      file :
          (is_empty filename ≡ false)
          × (byte_len filename ≤ max_filename_bytes)
          × (contains_char b'/' filename ≡ false)
          × (any is_control filename ≡ false)
      file = unfold validate_filename in ground (arith, a.filename_valid)
