-- ===== src/Http/Upload.antt =====
-- The upload of src/http/admin.rs: what is read of a file, and who may send it.
use aperip_nomos.Prelude.{
  ◌+◌, ◌≤◌, ◌≡◌, refl, sym, ◌∙◌, ◌⊎◌, ◌↔◌, inl, inr, false, List, [], ◌∷◌, ◌++◌, map, append-nil,
  append_assoc, Option, some, none, arith, ltb, length, length-append, Option-cases, Bool-cases,
  is_empty,
}
use aperip_nomos.Prelude.Int.{ℤ}
use aperip_nomos.Prelude.Result.{Result, Result-cases, ok, err, ok_or, >>=-eq-ok}
use aperip_nomos.Text.{Text, codes, text_eq, contains_char, split_once, eq_ignore_ascii_case}
use aperip_nomos.Text.Equality.{text_eq_iff}
use aperip_nomos.Text.Utf8.{Bytes, as_bytes}
use aperip_nomos.Domain.{LicenseDraft, Digests, from_upload, max_license_bytes}
use aperip_nomos.Domain.Upload.{IsValidDraft, from_upload-IsValidDraft}
use aperip_nomos.Http.{ApiError, unauthorized, service_unavailable}
use aperip_nomos.Http.Admin.{
  token_of, bearer_token, is_authorized, authorize, Field, missing_file, read_chunks, read_file,
  parse_upload, draft_of,
}

-- the bytes of all chunks
abbrev pub concat : List Bytes → Bytes
concat [] = []
concat (c ∷ cs) = c ++ concat cs

read_chunks-eq-ok :
    (bytes result : Bytes) (chunks : List (Option Bytes))
    → length bytes ≤ max_license_bytes
    → read_chunks bytes chunks ≡ ok result
    → (contents : List Bytes) × (chunks ≡ map some contents)
      × (result ≡ bytes ++ concat contents)
      × (length result ≤ max_license_bytes)
unfolding read_chunks
read_chunks-eq-ok bytes result [] l h =
    let same : bytes ≡ result = cc in ([], refl, sym same ∙ sym (append-nil bytes), rw (← same) l)
read_chunks-eq-ok bytes result (none ∷ rest) l h = cc
read_chunks-eq-ok bytes result (some chunk ∷ rest) l h =
    elim (Bool-cases (ltb max_license_bytes (length bytes + length chunk))) [
      | inl large ↦ absurd (ground arith)
      | inr fits ↦
          let small : length bytes + length chunk ≤ max_license_bytes = ground arith in
          let (contents, e, r, s) =
            read_chunks-eq-ok (bytes ++ chunk) result rest
              (omega (arith, length-append bytes chunk, small)) (rw fits at h) in
          (chunk ∷ contents, rw e refl, r ∙ append_assoc bytes chunk (concat contents), s)
    ]

read_chunks_of_contents :
    (bytes : Bytes) (contents : List Bytes)
    → length (bytes ++ concat contents) ≤ max_license_bytes
    → read_chunks bytes (map some contents) ≡ ok (bytes ++ concat contents)
unfolding read_chunks
read_chunks_of_contents bytes [] l = rw (append-nil bytes) refl
read_chunks_of_contents bytes (chunk ∷ contents) l =
    let again = append_assoc bytes chunk (concat contents) in
    let l' : length ((bytes ++ chunk) ++ concat contents) ≤ max_license_bytes = rw again l in
    let fits : ltb max_license_bytes (length bytes + length chunk) ≡ false = ground (
      arith,
      length-append bytes (chunk ++ concat contents),
      length-append chunk (concat contents),
    ) in
    rw fits (read_chunks_of_contents (bytes ++ chunk) contents l' ∙ (rw again refl))

-- A file is read exactly when no chunk fails and its chunks have 1 MiB together at most, and the result
-- is then its chunks in their order.
pub read_file_iff :
    (field : Field) (result : Bytes)
    → (read_file field ≡ ok result) ↔ (
        (contents : List Bytes) × (field.chunks ≡ map some contents)
        × (result ≡ concat contents)
        × (length result ≤ max_license_bytes))
unfolding read_file
read_file_iff field result = (
  read_chunks-eq-ok [] result field.chunks (omega arith),
  λ (contents, e, r, s). rw (e, r) (read_chunks_of_contents [] contents (rw (← r) s)),
)

-- The protected handler runs exactly when the header has a bearer token whose digest is that of the
-- administrator's token; otherwise nothing changes, and the answer is that of `unauthorized`.
pub authorize-cases {ℓ κ} :
    {S : Type ℓ} {A : Type κ} (digest : Bytes → Bytes) (token_digest : Bytes) (header : Option Text)
    (next : S → Result ApiError A × S) (s : S)
    → ((authorize digest token_digest header next s ≡ next s)
        × ((token : Text) × (bearer_token header ≡ some token)
            × (digest (as_bytes token) ≡ token_digest)))
      ⊎ ((authorize digest token_digest header next s ≡ (err unauthorized, s))
          × ((token : Text)
              → bearer_token header ≡ some token
              → ¬ (digest (as_bytes token) ≡ token_digest)))
unfolding authorize is_authorized
authorize-cases digest token_digest header next s = elim (Option-cases (bearer_token header)) [
  | inl none_there ↦ inr (rw (none_there, authorize, is_authorized) refl, λ token h k. cc)
  | inr (token, there) ↦ elim (Bool-cases (text_eq (digest (as_bytes token)) token_digest)) [
    | inl same ↦ inl (
      rw (there, same, authorize, is_authorized) refl,
      (token, there, (text_eq_iff _ token_digest).0 same),
    )
    | inr apart ↦ inr (
      rw (there, apart, authorize, is_authorized) refl,
      λ token' h k.
          let e : token ≡ token' = cc in
          cc (apart, (text_eq_iff (digest (as_bytes token)) token_digest).1 (rw e k)),
    )
  ]
]

module _ (crypto : Digests) where
  -- Whatever fields an upload has, the draft that the handler sends to the store is valid.
  pub draft_of-IsValidDraft :
      (fields : List (Option Field)) (now : Option ℤ) (draft : LicenseDraft)
      → draft_of crypto fields now ≡ ok draft
      → IsValidDraft crypto draft
  unfolding draft_of
  draft_of-IsValidDraft fields now draft h =
      let (upload, parsed, h₁) = >>=-eq-ok (parse_upload fields) _ h in
      let (filename, named, h₂) = >>=-eq-ok (ok_or upload.filename missing_file) _ h₁ in
      let (bytes, filed, h₃) = >>=-eq-ok (ok_or upload.file missing_file) _ h₂ in
      let (ms, dated, h₄) = >>=-eq-ok (ok_or now service_unavailable) _ h₃ in
      elim (Result-cases (from_upload crypto filename upload.title upload.slug bytes ms)) [
        | inr (e, failed) ↦ absurd (ground arith)
        | inl (d, made) ↦
            let same : d ≡ draft = ground arith in
            from_upload-IsValidDraft crypto filename upload.title upload.slug bytes ms draft
              (rw same at made)
      ]

-- A token that is not empty and has no blank is the one that is read from its `Bearer` header.
pub bearer_token_of_token :
    (token : Text)
    → is_empty token ≡ false
    → contains_char b' ' token ≡ false
    → bearer_token (some (codes "Bearer " ++ token)) ≡ some token
unfolding bearer_token token_of split_once eq_ignore_ascii_case text_eq
bearer_token_of_token token e p = rw (e, p) refl
