-- ===== src/Http/Plain.antt =====
-- The errors of src/http that do not ask for a token, and the reading of an upload, which reports no
-- other.
use aperip_nomos.Prelude.{
  ◌≡◌, refl, inl, inr, Bool, true, false, List, [], ◌∷◌, ◌++◌, Option, none, some, ltb, length, ◌+◌,
  Bool-cases, ◌&&◌, if◌then◌else◌,
}
use aperip_nomos.Prelude.Int.{ℤ}
use aperip_nomos.Prelude.Result.{Result, ok, err, ok_or, map_err, ◌>>=◌}
use aperip_nomos.Prelude.Exec.{Exec, proceed}
use aperip_nomos.Text.{Text, codes, text_eq}
use aperip_nomos.Text.Utf8.{Bytes}
use aperip_nomos.Domain.{LicenseValidationError, Digests, from_upload, max_license_bytes}
use aperip_nomos.Store.State.{StoreError}
use aperip_nomos.Http.{
  ApiError, unauthorized_401, new, bad_request, not_found, method_not_allowed, service_unavailable,
  of_validation, of_store, store_operation,
}
use aperip_nomos.Http.Admin.{
  Field, Upload, invalid_multipart, missing_file, read_chunks, read_file, read_file_field,
  read_named, read_field, parse_from, parse_upload, draft_of, is_none,
}

-- an error that does not ask for a token
abbrev pub IsPlain : ApiError → Type 0
IsPlain e = (¬ (e.status ≡ unauthorized_401)) × (e.authenticate ≡ false)

-- a result whose error is such
abbrev pub AllPlain {ℓ} : {A : Type ℓ} → Result ApiError A → Type 0
AllPlain (ok a) = Unit {0}
AllPlain (err e) = IsPlain e

pub service_unavailable-IsPlain : IsPlain service_unavailable
unfolding service_unavailable new
service_unavailable-IsPlain = (λ h. cc, refl)

pub not_found-IsPlain : IsPlain not_found
unfolding not_found new
not_found-IsPlain = (λ h. cc, refl)

pub method_not_allowed-IsPlain : IsPlain method_not_allowed
unfolding method_not_allowed new
method_not_allowed-IsPlain = (λ h. cc, refl)

invalid_multipart-IsPlain : IsPlain invalid_multipart
unfolding invalid_multipart bad_request new
invalid_multipart-IsPlain = (λ h. cc, refl)

missing_file-IsPlain : IsPlain missing_file
unfolding missing_file bad_request new
missing_file-IsPlain = (λ h. cc, refl)

of_validation-IsPlain : (e : LicenseValidationError) → IsPlain (of_validation e)
unfolding of_validation bad_request new
of_validation-IsPlain e = (λ h. cc, refl)

of_store-IsPlain : (e : StoreError) → IsPlain (of_store e)
unfolding of_store new
of_store-IsPlain StoreError.duplicate_slug = (λ h. cc, refl)
of_store-IsPlain StoreError.not_found = not_found-IsPlain
of_store-IsPlain StoreError.queue_full = service_unavailable-IsPlain
of_store-IsPlain StoreError.unavailable = service_unavailable-IsPlain
of_store-IsPlain StoreError.storage_unavailable = service_unavailable-IsPlain

module _ {ℓ κ} {A : Type ℓ} {B : Type κ} where
  >>=-AllPlain :
      (r : Result ApiError A) (f : A → Result ApiError B)
      → AllPlain r
      → ((a : A) → AllPlain (f a))
      → AllPlain (r >>= f)
  >>=-AllPlain (ok a) f p q = q a
  >>=-AllPlain (err e) f p q = p

  pub proceed-AllPlain :
      {S : Type 0} (p : Result ApiError A × S) (f : A → Exec S ApiError B)
      → AllPlain p.0
      → ((a : A) → AllPlain (f a p.1).0)
      → AllPlain (proceed p f).0
  proceed-AllPlain (ok a, s) f p q = q a
  proceed-AllPlain (err e, s) f p q = p

ok_or-AllPlain {ℓ} : {A : Type ℓ} (o : Option A) (e : ApiError) → IsPlain e → AllPlain (ok_or o e)
ok_or-AllPlain none e p = p
ok_or-AllPlain (some a) e p = tt

pub store_operation-AllPlain {ℓ} :
    {A : Type ℓ} (o : Option (Result StoreError A)) → AllPlain (store_operation o)
unfolding store_operation
store_operation-AllPlain none = service_unavailable-IsPlain
store_operation-AllPlain (some (ok a)) = tt
store_operation-AllPlain (some (err e)) = of_store-IsPlain e

validated-AllPlain {ℓ} :
    {A : Type ℓ} (r : Result LicenseValidationError A) → AllPlain (map_err of_validation r)
validated-AllPlain (ok a) = tt
validated-AllPlain (err e) = of_validation-IsPlain e

read_chunks-AllPlain :
    (bytes : Bytes) (chunks : List (Option Bytes)) → AllPlain (read_chunks bytes chunks)
unfolding read_chunks
read_chunks-AllPlain bytes [] = tt
read_chunks-AllPlain bytes (none ∷ rest) = invalid_multipart-IsPlain
read_chunks-AllPlain bytes (some chunk ∷ rest) =
    elim (Bool-cases (ltb max_license_bytes (length bytes + length chunk))) [
      | inl large ↦ rw large (of_validation-IsPlain _)
      | inr fits ↦ rw fits (read_chunks-AllPlain (bytes ++ chunk) rest)
    ]

read_file_field-AllPlain :
    (field : Field) (upload : Upload) → AllPlain (read_file_field field upload)
unfolding read_file_field read_file
read_file_field-AllPlain field upload =
    >>=-AllPlain (ok_or field.file_name missing_file) _
      (ok_or-AllPlain field.file_name missing_file missing_file-IsPlain)
      λ name.
        >>=-AllPlain (read_chunks [] field.chunks) _ (read_chunks-AllPlain [] field.chunks) λ b. tt

read_text-AllPlain :
    (text : Option Text) (put : Text → Upload)
    → AllPlain (ok_or text invalid_multipart >>= λ t. ok (put t))
read_text-AllPlain none put = invalid_multipart-IsPlain
read_text-AllPlain (some t) put = tt

if-AllPlain {ℓ} :
    {A : Type ℓ} (b : Bool) (r s : Result ApiError A)
    → AllPlain r
    → AllPlain s
    → AllPlain (if b then r else s)
if-AllPlain true r s p q = p
if-AllPlain false r s p q = q

read_field-AllPlain :
    (name : Option Text) (field : Field) (upload : Upload) → AllPlain (read_field name field upload)
unfolding read_field read_named
read_field-AllPlain none field upload = invalid_multipart-IsPlain
read_field-AllPlain (some name) field upload =
    if-AllPlain (text_eq name (codes "file") && is_none upload.file) _ _
      (read_file_field-AllPlain field upload)
      (if-AllPlain (text_eq name (codes "title") && is_none upload.title) _ _
        (read_text-AllPlain field.text _)
        (if-AllPlain (text_eq name (codes "slug") && is_none upload.slug) _ _
          (read_text-AllPlain field.text _) invalid_multipart-IsPlain))

parse_from-AllPlain :
    (upload : Upload) (fields : List (Option Field)) → AllPlain (parse_from upload fields)
unfolding parse_from
parse_from-AllPlain upload [] = tt
parse_from-AllPlain upload (none ∷ rest) = invalid_multipart-IsPlain
parse_from-AllPlain upload (some field ∷ rest) =
    >>=-AllPlain (read_field field.name field upload) _
      (read_field-AllPlain field.name field upload) λ next. parse_from-AllPlain next rest

pub draft_of-AllPlain :
    (crypto : Digests) (fields : List (Option Field)) (now : Option ℤ)
    → AllPlain (draft_of crypto fields now)
unfolding draft_of parse_upload
draft_of-AllPlain crypto fields now =
    >>=-AllPlain (parse_upload fields) _ (parse_from-AllPlain _ fields) λ upload.
      >>=-AllPlain (ok_or upload.filename missing_file) _
        (ok_or-AllPlain upload.filename missing_file missing_file-IsPlain)
        λ filename.
          >>=-AllPlain (ok_or upload.file missing_file) _
            (ok_or-AllPlain upload.file missing_file missing_file-IsPlain)
            λ bytes.
              >>=-AllPlain (ok_or now service_unavailable) _
                (ok_or-AllPlain now service_unavailable service_unavailable-IsPlain)
                λ ms.
                  validated-AllPlain (from_upload crypto filename upload.title upload.slug bytes ms)
