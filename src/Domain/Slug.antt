-- ===== src/Domain/Slug.antt =====
-- `slugify` and `derive_slug` of src/domain.rs: the form of every slug, and that a slug in this form
-- is left as it is.
use aperip_nomos.Prelude.{
  ℕ, ◌≤◌, ◌≡◌, refl, sym, ◌⊎◌, inl, inr, Bool, true, false, not, ◌&&◌, ◌||◌, [], ◌∷◌, ◌++◌, Option,
  none, some, append-nil, append_assoc, arith, ◌==◌, if◌then◌else◌, length, take, length-take,
  is_empty, all, all_mono, all-take, Bool-cases,
}
use aperip_nomos.Prelude.Result.{ok}
use aperip_nomos.Text.{
  Text, codes, byte_len, is_whitespace, is_ascii_digit, is_ascii_lowercase, is_ascii_alphanumeric,
  to_ascii_lowercase, trim, contains_char,
}
use aperip_nomos.Text.Trim.{trim_of_dark}
use aperip_nomos.Text.Equality.{contains_pair-eq-false}
use aperip_nomos.Domain.{
  slug_loop, slugify, valid_slug, is_slug_input, requested_slug, filename_slug, filename_stem,
  derive_slug, is_hex_digit, max_slug_bytes, digest_slug_length,
}

-- a lowercase ASCII letter or digit
abbrev pub is_slug_char : ℕ → Bool
is_slug_char c = is_ascii_lowercase c || is_ascii_digit c

-- Words of such characters with one hyphen between two; `need` says that a word must begin here.
unfoldable pub slug_from : Bool → Text → Bool
slug_from need [] = not need
slug_from need (c ∷ s) =
    let inside = slug_from false s in
    let after = slug_from true s in
    if is_slug_char c then inside else (if c == b'-' && not need then after else false)

abbrev pub IsSlug : Text → Type 0
IsSlug s = slug_from true s ≡ true

pub slug_from-snoc :
    (need : Bool) (s : Text) (c : ℕ)
    → slug_from need s ≡ true
    → is_slug_char c ≡ true
    → slug_from need (s ++ c ∷ []) ≡ true
unfolding slug_from
slug_from-snoc need [] c h k = ground arith
slug_from-snoc need (d ∷ s) c h k =
    ground (arith, slug_from-snoc false s c, slug_from-snoc true s c)

pub slug_from-word :
    (need : Bool) (s : Text) (c : ℕ)
    → slug_from need s ≡ true
    → is_empty s ≡ false
    → is_slug_char c ≡ true
    → slug_from need ((s ++ b'-' ∷ []) ++ c ∷ []) ≡ true
unfolding slug_from
slug_from-word need [] c h e k = cc
slug_from-word need (d ∷ []) c h e k = ground arith
slug_from-word need (d ∷ x ∷ s) c h e k =
    ground (arith, slug_from-word false (x ∷ s) c, slug_from-word true (x ∷ s) c)

lower-is_slug_char :
    (c : ℕ) → is_ascii_alphanumeric c ≡ true → is_slug_char (to_ascii_lowercase c) ≡ true
unfolding is_ascii_alphanumeric to_ascii_lowercase
lower-is_slug_char c h = ground arith

-- the text of the loop after one more character
abbrev pushed : Bool → Text → ℕ → Text
pushed pending slug c =
    (if pending && not (is_empty slug) then slug ++ b'-' ∷ [] else slug) ++ c ∷ []

push-IsSlug :
    (slug : Text) (pending : Bool) (c : ℕ)
    → (slug ≡ []) ⊎ IsSlug slug
    → is_slug_char c ≡ true
    → IsSlug (pushed pending slug c)
push-IsSlug [] pending c h k = unfold slug_from in ground arith
push-IsSlug (d ∷ slug) pending c (inl e) k = cc
push-IsSlug (d ∷ slug) true c (inr h) k = slug_from-word true (d ∷ slug) c h refl k
push-IsSlug (d ∷ slug) false c (inr h) k = slug_from-snoc true (d ∷ slug) c h k

-- The loop appends to a slug only what keeps it a slug.
slug_loop-IsSlug :
    (slug : Text) (pending : Bool) (s : Text)
    → (slug ≡ []) ⊎ IsSlug slug
    → (slug_loop slug pending s ≡ []) ⊎ IsSlug (slug_loop slug pending s)
unfolding slug_loop
slug_loop-IsSlug slug pending [] h = h
slug_loop-IsSlug slug pending (c ∷ s) h = elim (Bool-cases (is_ascii_alphanumeric c)) [
  | inl a ↦
      let good = push-IsSlug slug pending (to_ascii_lowercase c) h (lower-is_slug_char c a) in
      rw a (slug_loop-IsSlug (pushed pending slug (to_ascii_lowercase c)) false s (inr good))
  | inr a ↦ rw a (slug_loop-IsSlug slug (if not (is_empty slug) then true else pending) s h)
]

-- What `slugify` returns is empty or in the form of a slug.
pub slugify-IsSlug : (value : Text) → (slugify value ≡ []) ⊎ IsSlug (slugify value)
unfolding slugify
slugify-IsSlug value = slug_loop-IsSlug [] false value (inl refl)

is_empty-append : (s : Text) (c : ℕ) → is_empty (s ++ c ∷ []) ≡ false
is_empty-append [] c = refl
is_empty-append (d ∷ s) c = refl

slug_char-fixed :
    (c : ℕ) → is_slug_char c ≡ true → (is_ascii_alphanumeric c ≡ true) × (to_ascii_lowercase c ≡ c)
unfolding is_ascii_alphanumeric to_ascii_lowercase
slug_char-fixed c h = ground arith

hyphen_skipped :
    (c : ℕ) → is_slug_char c ≡ false → (c == b'-') ≡ true → is_ascii_alphanumeric c ≡ false
unfolding is_ascii_alphanumeric
hyphen_skipped c h k = ground arith

-- the loop copies a slug: in a word, after a hyphen, and at the start
mutual
  unfolding slug_loop slug_from

  copy_word :
      (slug s : Text)
      → is_empty slug ≡ false
      → slug_from false s ≡ true
      → slug_loop slug false s ≡ slug ++ s
  copy_word slug [] e h = sym (append-nil slug)
  copy_word slug (c ∷ s) e h = ground (
    arith,
    slug_char-fixed c,
    hyphen_skipped c,
    is_empty-append slug c,
    append_assoc slug (c ∷ []) s,
    copy_word (slug ++ c ∷ []) s,
    copy_hyphen slug s,
  )

  copy_hyphen :
      (slug s : Text)
      → is_empty slug ≡ false
      → slug_from true s ≡ true
      → slug_loop slug true s ≡ slug ++ b'-' ∷ s
  copy_hyphen slug [] e h = cc
  copy_hyphen slug (c ∷ s) e h =
      let start = slug ++ b'-' ∷ [] in
      ground (
        arith,
        slug_char-fixed c,
        is_empty-append start c,
        append_assoc start (c ∷ []) s,
        append_assoc slug (b'-' ∷ []) (c ∷ s),
        copy_word (start ++ c ∷ []) s,
      )

-- A slug is its own slug.
pub slugify_of_IsSlug : (s : Text) → IsSlug s → slugify s ≡ s
unfolding slugify slug_loop slug_from
slugify_of_IsSlug [] h = cc
slugify_of_IsSlug (c ∷ s) h = ground (arith, slug_char-fixed c, copy_word (c ∷ []) s)

-- Normalising a slug a second time changes nothing.
pub slugify_idem : (value : Text) → slugify (slugify value) ≡ slugify value
slugify_idem value = elim (slugify-IsSlug value) [
  | inl e ↦ rw e (unfold slugify slug_loop in refl)
  | inr h ↦ slugify_of_IsSlug (slugify value) h
]

-- the characters of a slug
abbrev is_slug_byte : ℕ → Bool
is_slug_byte c = is_slug_char c || c == b'-'

all-slug_byte : (need : Bool) (s : Text) → slug_from need s ≡ true → all is_slug_byte s ≡ true
unfolding slug_from
all-slug_byte need [] h = refl
all-slug_byte need (c ∷ s) h = ground (arith, all-slug_byte false s, all-slug_byte true s)

slug_byte-dark : (c : ℕ) → is_slug_byte c ≡ true → not (is_whitespace c) ≡ true
unfolding is_whitespace
slug_byte-dark c h = ground arith

slug_byte-input : (c : ℕ) → is_slug_byte c ≡ true → is_slug_input c ≡ true
unfolding is_slug_input is_ascii_alphanumeric contains_char
slug_byte-input c h = ground arith

IsSlug-nonempty : (s : Text) → IsSlug s → is_empty s ≡ false
unfolding slug_from
IsSlug-nonempty [] h = cc
IsSlug-nonempty (c ∷ s) h = refl

hex-slug_from : (s : Text) → all is_hex_digit s ≡ true → slug_from false s ≡ true
unfolding slug_from
hex-slug_from [] h = refl
hex-slug_from (c ∷ s) h = ground (arith, hex-slug_from s)

-- A slug of at most 96 bytes that is requested again is accepted as it is.
pub requested_slug_of_IsSlug :
    (s : Text) → IsSlug s → byte_len s ≤ max_slug_bytes → requested_slug s ≡ ok s
requested_slug_of_IsSlug s h l =
    let bytes = all-slug_byte true s h in
    let dark = trim_of_dark s (all_mono is_slug_byte _ slug_byte-dark s bytes) in
    let input = all_mono is_slug_byte is_slug_input slug_byte-input s bytes in
    let pair = contains_pair-eq-false is_slug_byte b'.' b'.' refl s bytes in
    let copy = slugify_of_IsSlug s h in
    unfold requested_slug valid_slug in
    rw dark (ground (arith, input, pair, copy, IsSlug-nonempty s h))

-- hexadecimal digits take one byte each
byte_len-hex : (s : Text) → all is_hex_digit s ≡ true → byte_len s ≡ length s
byte_len-hex [] h = refl
byte_len-hex (c ∷ s) h = ground (arith, byte_len-hex s)

digest_prefix_good :
    (d : Text)
    → all is_hex_digit d ≡ true
    → length d ≡ digest_slug_length
    → IsSlug (codes "license-" ++ d)
unfolding slug_from
digest_prefix_good [] h l = absurd (omega arith)
digest_prefix_good (c ∷ d) h l = ground (arith, hex-slug_from d)

valid_slug-bounds :
    (s slug : Text)
    → (s ≡ []) ⊎ IsSlug s
    → valid_slug s ≡ ok slug
    → IsSlug slug × (byte_len slug ≤ max_slug_bytes)
unfolding valid_slug
valid_slug-bounds [] slug f h = cc
valid_slug-bounds (c ∷ s) slug (inl e) h = cc
valid_slug-bounds (c ∷ s) slug (inr f) h = ground arith

-- Whatever the request and the file name, and for a digest of 12 hexadecimal digits at least, an
-- accepted slug has the form of a slug and at most 96 bytes.
pub derive_slug-IsSlug :
    (filename : Text) (requested : Option Text) (digest slug : Text)
    → all is_hex_digit digest ≡ true
    → digest_slug_length ≤ length digest
    → derive_slug filename requested digest ≡ ok slug
    → IsSlug slug × (byte_len slug ≤ max_slug_bytes)
unfolding derive_slug requested_slug filename_slug
derive_slug-IsSlug filename (some value) digest slug hex long h =
    let normal = slugify-IsSlug (trim value) in
    valid_slug-bounds (slugify (trim value)) slug normal (ground arith)
derive_slug-IsSlug filename none digest slug hex long h =
    let stem = filename_stem filename in
    let prefix = take digest_slug_length digest in
    let short : length prefix ≡ digest_slug_length =
      omega (arith, length-take digest_slug_length digest) in
    let digits = all-take is_hex_digit digest_slug_length digest hex in
    ground (
      arith,
      valid_slug-bounds (slugify stem) slug (slugify-IsSlug stem),
      digest_prefix_good prefix digits short,
      byte_len-hex prefix digits,
    )
