-- ===== src/Domain.antt =====
-- src/domain.rs: license drafts and documents, the validation of an upload, and the derivation of its
-- title and slug. SHA-256 and the hexadecimal encoder are crates, so they are a parameter.
pub mod Slug
pub mod Words
pub mod Upload
pub mod Rehydrate
use mathlib.Core.Option.{get_or}
use aperip_nomos.Prelude.{
  ℕ, ◌*◌, ◌+◌, ◌≡◌, Bool, true, false, not, ◌&&◌, ◌||◌, List, [], ◌∷◌, ◌++◌, Option, none, some,
  ltb, leb, ◌==◌, if◌then◌else◌, length, take, is_empty, any, all,
}
use aperip_nomos.Prelude.Int.{ℤ, pos, ltb_ℤ}
use aperip_nomos.Prelude.Result.{Result, ok, err, ◌>>=◌, ◌>>◌, reject_if, ok_or, to_option}
use aperip_nomos.Text.{
  Text, codes, byte_len, text_eq, contains_char, contains_pair, is_control, is_ascii_alphanumeric,
  is_ascii_digit, to_ascii_lowercase, trim, rsplit_once,
}
use aperip_nomos.Text.Utf8.{Bytes, from_utf8, as_bytes}

abbrev pub max_license_bytes : ℕ
max_license_bytes = 1024 * 1024

abbrev pub max_filename_bytes : ℕ
max_filename_bytes = 255

abbrev pub max_title_chars : ℕ
max_title_chars = 160

abbrev pub digest_slug_length : ℕ
digest_slug_length = 12

abbrev pub max_slug_bytes : ℕ
max_slug_bytes = 96

pub record LicenseDraft : Type 0 where
  pub slug : Text
  pub title : Text
  pub body : Text
  pub source_filename : Text
  pub sha256 : Text
  pub uploaded_at_ms : ℤ

pub record LicenseDocument : Type 0 where
  pub id : ℤ
  pub slug : Text
  pub title : Text
  pub body : Text
  pub source_filename : Text
  pub sha256 : Text
  pub uploaded_at_ms : ℤ

pub record LicenseMetadata : Type 0 where
  pub id : ℤ
  pub slug : Text
  pub title : Text
  pub source_filename : Text
  pub sha256 : Text
  pub uploaded_at_ms : ℤ

pub data LicenseValidationError : Type 0 where
  invalid_filename invalid_title invalid_slug empty_body invalid_utf8 body_too_large :
      LicenseValidationError

-- `From<&LicenseDocument> for LicenseMetadata`
unfoldable pub metadata : LicenseDocument → LicenseMetadata
metadata d = record {
  id = d.id;
  slug = d.slug;
  title = d.title;
  source_filename = d.source_filename;
  sha256 = d.sha256;
  uploaded_at_ms = d.uploaded_at_ms;
}

unfoldable pub into_document : LicenseDraft → ℤ → LicenseDocument
into_document d id = record {
  id = id;
  slug = d.slug;
  title = d.title;
  body = d.body;
  source_filename = d.source_filename;
  sha256 = d.sha256;
  uploaded_at_ms = d.uploaded_at_ms;
}

unfoldable pub validate_filename : Text → Result LicenseValidationError (Unit {0})
validate_filename filename =
    reject_if
      (is_empty filename
        || ltb max_filename_bytes (byte_len filename)
        || text_eq filename (codes ".")
        || text_eq filename (codes "..")
        || (contains_char b'/' filename || contains_char 92 filename)
        || any is_control filename)
      invalid_filename

unfoldable pub filename_stem : Text → Text
filename_stem filename = elim (rsplit_once b'.' filename) [
  | none ↦ filename
  | some (stem, _) ↦ stem
]

unfoldable pub derive_title : Text → Option Text → Result LicenseValidationError Text
derive_title filename requested = do
  let value = trim (get_or requested (filename_stem filename))
  reject_if (is_empty value || ltb max_title_chars (length value) || any is_control value)
      invalid_title
  ok value

-- The loop of `slugify` over its two variables, `slug` and `separator_pending`.
unfoldable pub slug_loop : Text → Bool → Text → Text
slug_loop slug pending [] = slug
slug_loop slug pending (c ∷ rest) =
    let separated = if pending && not (is_empty slug) then slug ++ b'-' ∷ [] else slug in
    let pushed = slug_loop (separated ++ to_ascii_lowercase c ∷ []) false rest in
    let skipped = slug_loop slug (if not (is_empty slug) then true else pending) rest in
    if is_ascii_alphanumeric c then pushed else skipped

unfoldable pub slugify : Text → Text
slugify value = slug_loop [] false value

unfoldable pub valid_slug : Text → Result LicenseValidationError Text
valid_slug slug = do
  reject_if (is_empty slug || ltb max_slug_bytes (byte_len slug)) invalid_slug
  ok slug

-- the characters of a requested slug
unfoldable pub is_slug_input : ℕ → Bool
is_slug_input c = is_ascii_alphanumeric c || contains_char c (codes " ._-")

unfoldable pub requested_slug : Text → Result LicenseValidationError Text
requested_slug value = do
  let trimmed = trim value
  let allowed =
      not (is_empty trimmed) && not (contains_pair b'.' b'.' trimmed) && all is_slug_input trimmed
  reject_if (not allowed) invalid_slug
  valid_slug (slugify trimmed)

unfoldable pub filename_slug : Text → Text → Result LicenseValidationError Text
filename_slug filename digest = do
  let normalized = slugify (filename_stem filename)
  if is_empty normalized
      then ok (codes "license-" ++ take digest_slug_length digest)
      else valid_slug normalized

unfoldable pub derive_slug : Text → Option Text → Text → Result LicenseValidationError Text
derive_slug filename (some value) digest = requested_slug value
derive_slug filename none digest = filename_slug filename digest

-- a lowercase hexadecimal digit
abbrev pub is_hex_digit : ℕ → Bool
is_hex_digit c = is_ascii_digit c || (leb b'a' c && leb c b'f')

-- The crates `sha2` and `hex`: a digest has 32 bytes, and is printed as two lowercase hexadecimal
-- digits for each byte.
pub record Digests : Type 0 where
  pub digest : Bytes → Bytes
  pub hex_encode : Bytes → Text
  pub length_digest : (s : Bytes) → length (digest s) ≡ 32
  pub length_hex : (s : Bytes) → length (hex_encode s) ≡ 2 * length s
  pub hex_digits : (s : Bytes) → all is_hex_digit (hex_encode s) ≡ true

module _ (crypto : Digests) where
  -- `hex::encode(Sha256::digest(bytes))`
  abbrev pub hex_digest : Bytes → Text
  hex_digest bytes = crypto.hex_encode (crypto.digest bytes)

  unfoldable pub from_upload :
      Text → Option Text → Option Text → Bytes → ℤ → Result LicenseValidationError LicenseDraft
  from_upload filename title slug bytes uploaded_at_ms = do
    validate_filename filename
    reject_if (ltb max_license_bytes (length bytes)) body_too_large
    body ← ok_or (from_utf8 bytes) invalid_utf8
    reject_if (is_empty (trim body)) empty_body
    title' ← derive_title filename title
    let sha = hex_digest bytes
    slug' ← derive_slug filename slug sha
    ok (record {
      slug = slug';
      title = title';
      body = body;
      source_filename = filename;
      sha256 = sha;
      uploaded_at_ms = uploaded_at_ms;
    })

  unfoldable pub rehydrate : ℤ → Text → Text → Text → Text → Text → ℤ → Option LicenseDocument
  rehydrate id slug title body source_filename sha256 uploaded_at_ms =
      if ltb_ℤ id (pos 1)
      then none
      else elim (from_upload source_filename (some title) (some slug) (as_bytes body)
          uploaded_at_ms) [
            | err e ↦ none
            | ok draft ↦
                if not (text_eq draft.slug slug) || not (text_eq draft.sha256 sha256)
                then none
                else some (into_document draft id)
          ]
