-- ===== src/Text/Utf8.antt =====
-- `str::from_utf8` and `str::as_bytes`: UTF-8 with the well-formed sequences of the Unicode standard.
pub mod Complete
use aperip_nomos.Prelude.{
  ℕ, zero, suc, ◌+◌, ◌-◌, ◌*◌, ◌/◌, ◌%◌, ◌≤◌, ◌<◌, ◌≡◌, Bool, true, ◌&&◌, List, [], ◌∷◌, ◌++◌,
  Option, none, some, arith, ltb, leb, ◌==◌, if◌then◌else◌, length, Option-cases, Bool-cases, inl,
  inr,
}
use aperip_nomos.Text.{Text}

abbrev pub Bytes : Type 0
Bytes = List ℕ

-- the UTF-8 form of one character
unfoldable pub encode_char : ℕ → Bytes
encode_char c =
    if ltb c 0x80
    then c ∷ []
    else if ltb c 0x800
    then (0xc0 + c / 64) ∷ (0x80 + c % 64) ∷ []
    else if ltb c 0x10000
    then (0xe0 + c / 4096) ∷ (0x80 + c / 64 % 64) ∷ (0x80 + c % 64) ∷ []
    else (0xf0 + c / 262144) ∷ (0x80 + c / 4096 % 64) ∷ (0x80 + c / 64 % 64) ∷ (0x80 + c % 64) ∷ []

-- `as_bytes`
unfoldable pub as_bytes : Text → Bytes
as_bytes [] = []
as_bytes (c ∷ s) = encode_char c ++ as_bytes s

unfoldable pub is_continuation : ℕ → Bool
is_continuation b = leb 0x80 b && leb b 0xbf

-- the second byte of a sequence of three: no overlong form and no surrogate
unfoldable pub second_of_three : ℕ → ℕ → Bool
second_of_three a b =
    if a == 0xe0
    then leb 0xa0 b && leb b 0xbf
    else if a == 0xed
    then leb 0x80 b && leb b 0x9f
    else leb 0x80 b && leb b 0xbf

-- the second byte of a sequence of four: no overlong form, and at most U+10FFFF
unfoldable pub second_of_four : ℕ → ℕ → Bool
second_of_four a b =
    if a == 0xf0
    then leb 0x90 b && leb b 0xbf
    else if a == 0xf4
    then leb 0x80 b && leb b 0x8f
    else leb 0x80 b && leb b 0xbf

unfoldable pub two : ℕ → Bytes → Option (ℕ × Bytes)
unfolding is_continuation
two a (b ∷ s) = if is_continuation b then some ((a - 0xc0) * 64 + (b - 0x80), s) else none
two a [] = none

unfoldable pub three : ℕ → Bytes → Option (ℕ × Bytes)
unfolding is_continuation second_of_three
three a (b ∷ c ∷ s) =
    if second_of_three a b && is_continuation c
    then some ((a - 0xe0) * 4096 + (b - 0x80) * 64 + (c - 0x80), s)
    else none
three a s = none

unfoldable pub four : ℕ → Bytes → Option (ℕ × Bytes)
unfolding is_continuation second_of_four
four a (b ∷ c ∷ d ∷ s) =
    if second_of_four a b && is_continuation c && is_continuation d
    then some ((a - 0xf0) * 262144 + (b - 0x80) * 4096 + (c - 0x80) * 64 + (d - 0x80), s)
    else none
four a s = none

-- the first character of a non-empty sequence, and the bytes after it
unfoldable pub decode_char : ℕ → Bytes → Option (ℕ × Bytes)
unfolding two three four
decode_char a s =
    if ltb a 0x80
    then some (a, s)
    else if leb 0xc2 a && leb a 0xdf
    then two a s
    else if leb 0xe0 a && leb a 0xef
    then three a s
    else if leb 0xf0 a && leb a 0xf4
    then four a s
    else none

-- Each round takes a byte at least, so the length of the input is fuel enough.
unfoldable pub decode_from : ℕ → Bytes → Option Text
unfolding decode_char
decode_from fuel [] = some []
decode_from zero (a ∷ s) = none
decode_from (suc fuel) (a ∷ s) = elim (decode_char a s) [
  | none ↦ none
  | some (c, rest) ↦ elim (decode_from fuel rest) [ none ↦ none | some t ↦ some (c ∷ t) ]
]

-- `from_utf8(bytes).ok()`
unfoldable pub from_utf8 : Bytes → Option Text
unfolding decode_from
from_utf8 s = decode_from (length s) s

-- the sequence of four bytes, from its four groups of bits
encode_char-four :
    (x y z w : ℕ)
    → y < 64
    → z < 64
    → w < 64
    → 0x10000 ≤ x * 262144 + y * 4096 + z * 64 + w
    → encode_char (x * 262144 + y * 4096 + z * 64 + w)
      ≡ (0xf0 + x) ∷ (0x80 + y) ∷ (0x80 + z) ∷ (0x80 + w) ∷ []
unfolding encode_char
encode_char-four x y z w p q r h = ground arith

module _ (a : ℕ) where
  two-encode :
      (s : Bytes) (c : ℕ) (rest : Bytes)
      → (leb 0xc2 a && leb a 0xdf) ≡ true
      → two a s ≡ some (c, rest)
      → a ∷ s ≡ encode_char c ++ rest
  unfolding two encode_char
  two-encode [] c rest l h = cc
  two-encode (b ∷ s) c rest l h = ground arith

  three-encode :
      (s : Bytes) (c : ℕ) (rest : Bytes)
      → (leb 0xe0 a && leb a 0xef) ≡ true
      → three a s ≡ some (c, rest)
      → a ∷ s ≡ encode_char c ++ rest
  unfolding three encode_char
  three-encode (b ∷ c' ∷ s) c rest l h = ground arith
  three-encode s c rest l h = cc

  four-bounds :
      (b c d : ℕ)
      → (leb 0xf0 a && leb a 0xf4) ≡ true
      → (second_of_four a b && is_continuation c && is_continuation d) ≡ true
      → (0xf0 ≤ a)
        × (0x80 ≤ b)
        × (b ≤ 0xbf)
        × (0x80 ≤ c)
        × (c ≤ 0xbf)
        × (0x80 ≤ d)
        × (d ≤ 0xbf)
        × (0x10000 ≤ (a - 0xf0) * 262144 + (b - 0x80) * 4096)
  unfolding is_continuation second_of_four
  four-bounds b c d l h = ground arith

  four-encode :
      (s : Bytes) (c : ℕ) (rest : Bytes)
      → (leb 0xf0 a && leb a 0xf4) ≡ true
      → four a s ≡ some (c, rest)
      → a ∷ s ≡ encode_char c ++ rest
  four-encode (b ∷ c' ∷ d ∷ s) c rest l h = elim (Bool-cases test) [
    | inl good ↦
        let k = four-bounds b c' d l good in
        let e : c ≡ v = unfold four in ground arith in
        let r : rest ≡ s = unfold four in ground arith in
        let f =
          encode_char-four (a - 0xf0) (b - 0x80) (c' - 0x80) (d - 0x80) (omega arith) (omega arith)
            (omega arith) (omega arith) in
        rw (e, r, f) (ground arith)
    | inr bad ↦ absurd (unfold four in ground arith)
  ]
    where
      test : Bool
      test = second_of_four a b && is_continuation c' && is_continuation d

      v : ℕ
      v = (a - 0xf0) * 262144 + (b - 0x80) * 4096 + (c' - 0x80) * 64 + (d - 0x80)
  four-encode s c rest l h = unfold four in cc

  encode_char-ascii : ltb a 0x80 ≡ true → encode_char a ≡ a ∷ []
  unfolding encode_char
  encode_char-ascii h = ground arith

  decode_char-encode :
      (s : Bytes) (c : ℕ) (rest : Bytes)
      → decode_char a s ≡ some (c, rest)
      → a ∷ s ≡ encode_char c ++ rest
  decode_char-encode s c rest h =
      unfold decode_char in
      ground
        (arith, two-encode s c rest, three-encode s c rest, four-encode s c rest, encode_char-ascii)

-- The loop returns a text whose UTF-8 form is what it read.
decode_from-as_bytes :
    (fuel : ℕ) (s : Bytes) (t : Text) → decode_from fuel s ≡ some t → as_bytes t ≡ s
unfolding decode_from as_bytes
decode_from-as_bytes fuel [] t h = ground arith
decode_from-as_bytes zero (a ∷ s) t h = cc
decode_from-as_bytes (suc fuel) (a ∷ s) t h = elim (Option-cases (decode_char a s)) [
  | inl e ↦ absurd (ground arith)
  | inr ((c, rest), e) ↦ elim (Option-cases (decode_from fuel rest)) [
    | inl e' ↦ absurd (ground arith)
    | inr (u, e') ↦
        ground (arith, decode_from-as_bytes fuel rest u e', decode_char-encode a s c rest e)
  ]
]

-- The text that `from_utf8` accepts has the bytes that were read as its UTF-8 form.
pub from_utf8-as_bytes : (s : Bytes) (t : Text) → from_utf8 s ≡ some t → as_bytes t ≡ s
unfolding from_utf8
from_utf8-as_bytes s t h = decode_from-as_bytes (length s) s t h
