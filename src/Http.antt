-- ===== src/Http.antt =====
-- The handlers of src/http: their errors, the administrator's token, and the upload of a license. The
-- server, the multipart reader and the renderer of Markdown are crates or other parts: what a handler
-- receives from them is an argument.
pub mod Admin
pub mod Upload
pub mod Handlers
pub mod Shown
pub mod Created
pub mod ReadBack
pub mod Plain
pub mod Web
pub mod Response
pub mod Assets
pub mod Router
use aperip_nomos.Prelude.{Bool, true, false, ◌||◌, Option, none, some}
use aperip_nomos.Prelude.Int.{ℤ}
use aperip_nomos.Prelude.Result.{Result, ok, err, map_err}
use aperip_nomos.Text.{Text, codes, rsplit_once, eq_ignore_ascii_case}
use aperip_nomos.Domain.{LicenseDocument, LicenseMetadata, LicenseValidationError}
use aperip_nomos.Store.State.{StoreError}
use aperip_nomos.Markdown.{MarkdownRenderError}

-- the status codes that the program answers with
pub data StatusCode : Type 0 where
  ok_200 created_201 no_content_204 bad_request_400 unauthorized_401 not_found_404 : StatusCode
  method_not_allowed_405 conflict_409 service_unavailable_503 : StatusCode

pub record ApiError : Type 0 where
  pub status : StatusCode
  pub code : Text
  pub message : Text
  pub authenticate : Bool

-- `ApiError::new`
unfoldable pub new : StatusCode → Text → Text → ApiError
new status code message = record {
  status = status;
  code = code;
  message = message;
  authenticate = false;
}

unfoldable pub bad_request : Text → Text → ApiError
unfolding new
bad_request code message = new bad_request_400 code message

unfoldable pub unauthorized : ApiError
unauthorized = record {
  status = unauthorized_401;
  code = codes "unauthorized";
  message = codes "a valid bearer token is required";
  authenticate = true;
}

unfoldable pub not_found : ApiError
unfolding new
not_found = new not_found_404 (codes "not_found") (codes "resource not found")

unfoldable pub method_not_allowed : ApiError
unfolding new
method_not_allowed =
    new method_not_allowed_405 (codes "method_not_allowed") (codes "method not allowed")

unfoldable pub service_unavailable : ApiError
unfolding new
service_unavailable =
    new service_unavailable_503 (codes "service_unavailable")
      (codes "service temporarily unavailable")

-- the code and the message of `From<LicenseValidationError> for ApiError`
unfoldable pub validation_answer : LicenseValidationError → Text × Text
validation_answer LicenseValidationError.invalid_filename =
    (codes "invalid_filename", codes "the uploaded filename is invalid")
validation_answer LicenseValidationError.invalid_title =
    (codes "invalid_title", codes "the license title is invalid")
validation_answer LicenseValidationError.invalid_slug =
    (codes "invalid_slug", codes "the license slug is invalid")
validation_answer LicenseValidationError.empty_body =
    (codes "empty_file", codes "the license file is empty")
validation_answer LicenseValidationError.invalid_utf8 =
    (codes "invalid_utf8", codes "the license file is not valid UTF-8")
validation_answer LicenseValidationError.body_too_large =
    (codes "file_too_large", codes "the license file exceeds 1 MiB")

-- `From<LicenseValidationError> for ApiError`
unfoldable pub of_validation : LicenseValidationError → ApiError
unfolding bad_request
of_validation error = bad_request (validation_answer error).0 (validation_answer error).1

-- `From<StoreError> for ApiError`
unfoldable pub of_store : StoreError → ApiError
unfolding new not_found service_unavailable
of_store StoreError.duplicate_slug =
    new conflict_409 (codes "duplicate_slug") (codes "a license with this slug already exists")
of_store StoreError.not_found = not_found
of_store StoreError.queue_full = service_unavailable
of_store StoreError.unavailable = service_unavailable
of_store StoreError.storage_unavailable = service_unavailable

-- `store_operation_with_timeout`: `none` is a timeout
unfoldable pub store_operation {ℓ} : {A : Type ℓ} → Option (Result StoreError A) → Result ApiError A
unfolding of_store service_unavailable
store_operation none = err service_unavailable
store_operation (some result) = map_err of_store result

unfoldable pub is_markdown_filename : Text → Bool
is_markdown_filename filename = elim (rsplit_once b'.' filename) [
  | none ↦ false
  | some (stem, extension) ↦
      eq_ignore_ascii_case extension (codes "md")
      || eq_ignore_ascii_case extension (codes "markdown")
]

-- `render_document_markdown`, given the result of `render_cached`
unfoldable pub render_document_markdown :
    Text → Result MarkdownRenderError Text → Result ApiError (Option Text)
unfolding is_markdown_filename service_unavailable
render_document_markdown filename rendered = elim (is_markdown_filename filename) [
  | false ↦ ok none
  | true ↦ elim rendered [ ok html ↦ ok (some html) | err e ↦ err service_unavailable ]
]

pub record LicenseSummary : Type 0 where
  pub id : ℤ
  pub slug : Text
  pub title : Text
  pub source_filename : Text
  pub sha256 : Text
  pub uploaded_at_ms : ℤ

-- `From<&LicenseMetadata> for LicenseSummary`
unfoldable pub summary : LicenseMetadata → LicenseSummary
summary m = record {
  id = m.id;
  slug = m.slug;
  title = m.title;
  source_filename = m.source_filename;
  sha256 = m.sha256;
  uploaded_at_ms = m.uploaded_at_ms;
}

pub record LicenseDetail : Type 0 where
  pub id : ℤ
  pub slug : Text
  pub title : Text
  pub body : Text
  pub body_format : Text
  pub rendered_html : Option Text
  pub source_filename : Text
  pub sha256 : Text
  pub uploaded_at_ms : ℤ

unfoldable pub body_format : Option Text → Text
body_format none = codes "plain_text"
body_format (some html) = codes "markdown"

-- `LicenseDetail::from_document`, given the result of `render_cached`
unfoldable pub detail :
    LicenseDocument → Result MarkdownRenderError Text → Result ApiError LicenseDetail
unfolding render_document_markdown body_format
detail document rendered = elim (render_document_markdown document.source_filename rendered) [
  | err e ↦ err e
  | ok html ↦ ok (record {
    id = document.id;
    slug = document.slug;
    title = document.title;
    body = document.body;
    body_format = body_format html;
    rendered_html = html;
    source_filename = document.source_filename;
    sha256 = document.sha256;
    uploaded_at_ms = document.uploaded_at_ms;
  })
]
