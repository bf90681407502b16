-- ===== src/Tests/Domain.antt =====
-- An upload of src/domain.rs, and the theorems about uploads at it.
use aperip_nomos.Prelude.{◌≡◌, refl, inl, some, none, true, [], ◌∷◌, inr, arith, all}
use aperip_nomos.Prelude.Int.{pos}
use aperip_nomos.Prelude.Result.{ok}
use aperip_nomos.Text.{
  Text, codes, text_eq, contains_char, contains_pair, is_control, is_whitespace,
  is_ascii_alphanumeric, to_ascii_lowercase, trim, trim_start, trim_end, rsplit_once,
}
use aperip_nomos.Text.Utf8.{as_bytes, from_utf8, decode_from, decode_char, encode_char}
use aperip_nomos.Text.Utf8.{from_utf8-as_bytes}
use aperip_nomos.Text.Utf8.Complete.{from_utf8_of_as_bytes}
use aperip_nomos.Domain.{
  LicenseDraft, into_document, validate_filename, filename_stem, derive_title, slug_loop, slugify,
  valid_slug, is_slug_input, requested_slug, filename_slug, derive_slug, is_hex_digit, hex_digest,
  from_upload, rehydrate,
}
use aperip_nomos.Domain.Upload.{IsValidDraft, from_upload-IsValidDraft}
use aperip_nomos.Domain.Rehydrate.{rehydrate-into_document}
use aperip_nomos.Tests.Crate.{digests}

abbrev pub filename : Text
filename = codes "MIT License.txt"

abbrev pub body : Text
body = codes "Permission granted"

abbrev pub mit : LicenseDraft
mit = record {
  slug = codes "mit-license";
  title = codes "MIT License";
  body = body;
  source_filename = filename;
  sha256 = hex_digest digests body;
  uploaded_at_ms = pos 7;
}

unfoldable pub program : Unit {0}
unfolding text_eq contains_char contains_pair is_control is_whitespace is_ascii_alphanumeric
    to_ascii_lowercase trim trim_start trim_end rsplit_once from_utf8 decode_from decode_char
    as_bytes encode_char validate_filename filename_stem derive_title slug_loop slugify valid_slug
    is_slug_input requested_slug filename_slug derive_slug from_upload rehydrate into_document
program = tt

pub mit_made : from_upload digests filename none none body (pos 7) ≡ ok mit
unfolding program
mit_made = refl

body_read : from_utf8 body ≡ some body
unfolding program
body_read = refl

from_utf8-as_bytes_example : as_bytes body ≡ body
from_utf8-as_bytes_example = from_utf8-as_bytes body body body_read

-- a letter of each length in UTF-8
abbrev letters : Text
letters = 0x41 ∷ 0xe9 ∷ 0x20ac ∷ 0x1f600 ∷ []

from_utf8_of_as_bytes_example : from_utf8 (as_bytes letters) ≡ some letters
from_utf8_of_as_bytes_example = from_utf8_of_as_bytes letters (
  inl (omega arith),
  (inl (omega arith), (inl (omega arith), (inr (omega arith, omega arith), tt))),
)

program_hex : all is_hex_digit (hex_digest digests body) ≡ true
program_hex = digests.hex_digits (digests.digest body)

derived : derive_slug filename none (hex_digest digests body) ≡ ok mit.slug
unfolding program
derived = refl

from_upload-IsValidDraft_example : IsValidDraft digests mit
from_upload-IsValidDraft_example =
    from_upload-IsValidDraft digests filename none none body (pos 7) mit mit_made

rehydrate-into_document_example :
    rehydrate digests
      (pos 3)
      mit.slug
      mit.title
      mit.body
      mit.source_filename
      mit.sha256
      mit.uploaded_at_ms
    ≡ some (into_document mit (pos 3))
rehydrate-into_document_example =
    rehydrate-into_document digests filename none none body (pos 7) mit (pos 3) mit_made
      (omega arith)

rehydrated :
    rehydrate digests
      (pos 3)
      mit.slug
      mit.title
      mit.body
      mit.source_filename
      mit.sha256
      mit.uploaded_at_ms
    ≡ some (into_document mit (pos 3))
unfolding program
rehydrated = refl
