-- ===== src/Http/Admin.antt =====
-- src/http/admin.rs: who is let in, and how an upload is read.
use aperip_nomos.Prelude.{
  ◌+◌, Bool, true, false, not, ◌&&◌, List, [], ◌∷◌, ◌++◌, Option, none, some, ltb, length, is_empty,
  if◌then◌else◌,
}
use aperip_nomos.Prelude.Int.{ℤ, quot, to_i64}
use aperip_nomos.Prelude.Result.{Result, ok, err, ok_or, map_err, ◌>>=◌}
use aperip_nomos.Text.{Text, codes, text_eq, contains_char, split_once, eq_ignore_ascii_case}
use aperip_nomos.Text.Utf8.{Bytes, as_bytes}
use aperip_nomos.Domain.{
  LicenseDraft, LicenseValidationError, Digests, from_upload, max_license_bytes,
}
use aperip_nomos.Http.{ApiError, bad_request, unauthorized, of_validation, service_unavailable}

-- `bearer_token`: `header` is the value of `Authorization`, if it is there and readable
unfoldable pub token_of : Text × Text → Option Text
token_of (scheme, token) =
    if eq_ignore_ascii_case scheme (codes "Bearer")
      && not (is_empty token)
      && not (contains_char b' ' token)
    then some token
    else none

unfoldable pub bearer_token : Option Text → Option Text
bearer_token none = none
bearer_token (some value) = elim (split_once b' ' value) [
  | none ↦ none
  | some parts ↦ token_of parts
]

-- the test of `authorize`; the comparison in constant time is equality of bytes
unfoldable pub is_authorized : (Bytes → Bytes) → Bytes → Option Text → Bool
is_authorized digest token_digest header = elim (bearer_token header) [
  | none ↦ false
  | some token ↦ text_eq (digest (as_bytes token)) token_digest
]

-- `authorize`: `next` is the protected handler
unfoldable pub authorize {ℓ κ} :
    {S : Type ℓ} {A : Type κ}
    → (Bytes → Bytes)
    → Bytes
    → Option Text
    → (S → Result ApiError A × S)
    → S
    → Result ApiError A × S
authorize digest token_digest header next s =
    if is_authorized digest token_digest header then next s else (err unauthorized, s)

unfoldable pub invalid_multipart : ApiError
unfolding bad_request
invalid_multipart =
    bad_request (codes "invalid_multipart") (codes "the multipart upload is invalid")

unfoldable pub missing_file : ApiError
unfolding bad_request
missing_file = bad_request (codes "missing_file") (codes "the multipart upload requires a file")

pub record Upload : Type 0 where
  pub filename : Option Text
  pub file : Option Bytes
  pub title : Option Text
  pub slug : Option Text

-- what the multipart reader yields: a field with its name and its file name, whose content comes in
-- chunks, or an error; `none` in a content is an error of the reader
pub record Field : Type 0 where
  pub name : Option Text
  pub file_name : Option Text
  pub chunks : List (Option Bytes)
  pub text : Option Text

-- the loop of `read_file`
unfoldable pub read_chunks : Bytes → List (Option Bytes) → Result ApiError Bytes
read_chunks bytes [] = ok bytes
read_chunks bytes (none ∷ rest) = err invalid_multipart
read_chunks bytes (some chunk ∷ rest) =
    let more = read_chunks (bytes ++ chunk) rest in
    if ltb max_license_bytes (length bytes + length chunk)
    then err (of_validation LicenseValidationError.body_too_large)
    else more

unfoldable pub read_file : Field → Result ApiError Bytes
read_file field = read_chunks [] field.chunks

abbrev pub is_none {ℓ} : {A : Type ℓ} → Option A → Bool
is_none none = true
is_none (some a) = false

unfoldable pub read_file_field : Field → Upload → Result ApiError Upload
read_file_field field upload = do
  filename ← ok_or field.file_name missing_file
  bytes ← read_file field
  ok (record upload { file = some bytes; filename = some filename })

-- one round of `parse_upload`, given the name of the field
unfoldable pub read_named : Text → Field → Upload → Result ApiError Upload
read_named name field upload =
    if text_eq name (codes "file") && is_none upload.file
    then read_file_field field upload
    else if text_eq name (codes "title") && is_none upload.title
    then (ok_or field.text invalid_multipart >>= λ t. ok (record upload { title = some t }))
    else if text_eq name (codes "slug") && is_none upload.slug
    then (ok_or field.text invalid_multipart >>= λ t. ok (record upload { slug = some t }))
    else err invalid_multipart

unfoldable pub read_field : Option Text → Field → Upload → Result ApiError Upload
read_field none field upload = err invalid_multipart
read_field (some name) field upload = read_named name field upload

-- `parse_upload`; `none` is an error of the reader
unfoldable pub parse_from : Upload → List (Option Field) → Result ApiError Upload
parse_from upload [] = ok upload
parse_from upload (none ∷ rest) = err invalid_multipart
parse_from upload (some field ∷ rest) =
    read_field field.name field upload >>= λ next. parse_from next rest

unfoldable pub parse_upload : List (Option Field) → Result ApiError Upload
parse_upload = parse_from (record { filename = none; file = none; title = none; slug = none })

-- `current_time_ms`, given the nanoseconds since 1970; `none` is the error `service_unavailable`
unfoldable pub current_time_ms : ℤ → Option ℤ
current_time_ms nanoseconds = to_i64 (quot nanoseconds 1_000_000)

-- `create` up to the draft: `now` is the current time, if it fits
unfoldable pub draft_of : Digests → List (Option Field) → Option ℤ → Result ApiError LicenseDraft
draft_of crypto fields now = do
  upload ← parse_upload fields
  filename ← ok_or upload.filename missing_file
  bytes ← ok_or upload.file missing_file
  uploaded_at_ms ← ok_or now service_unavailable
  map_err of_validation (from_upload crypto filename upload.title upload.slug bytes uploaded_at_ms)
