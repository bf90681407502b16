-- ===== src/Text/Utf8/Complete.antt =====
-- `from_utf8` accepts the UTF-8 form of every text of Unicode scalar values, so its fuel is enough.
use aperip_nomos.Prelude.{
  ℕ, zero, suc, ◌+◌, ◌/◌, ◌%◌, ◌≤◌, ◌<◌, ◌≡◌, refl, ◌⊎◌, [], ◌∷◌, ◌++◌, some, arith, ltb, length,
  length-append, Bool-cases, inl, inr,
}
use aperip_nomos.Text.{Text}
use aperip_nomos.Text.Utf8.{
  Bytes, encode_char, as_bytes, is_continuation, second_of_three, second_of_four, decode_char,
  decode_from, from_utf8,
}

-- a Unicode scalar value: no surrogate, and at most U+10FFFF
abbrev pub IsScalar : ℕ → Type 0
IsScalar c = (c < 0xd800) ⊎ ((0xe000 ≤ c) × (c < 0x110000))

abbrev pub AllScalar : Text → Type 0
AllScalar [] = Unit
AllScalar (c ∷ s) = IsScalar c × AllScalar s

module _ (c : ℕ) (rest : Bytes) where
  decode-two :
      0x80 ≤ c → c < 0x800 → decode_char (0xc0 + c / 64) ((0x80 + c % 64) ∷ rest) ≡ some (c, rest)
  unfolding decode_char is_continuation
  decode-two l h = ground arith

  decode-three :
      IsScalar c
      → 0x800 ≤ c
      → c < 0x10000
      → decode_char (0xe0 + c / 4096) ((0x80 + c / 64 % 64) ∷ (0x80 + c % 64) ∷ rest)
        ≡ some (c, rest)
  unfolding decode_char is_continuation second_of_three
  decode-three v l h = ground arith

  decode-four :
      0x10000 ≤ c
      → c < 0x110000
      → decode_char
          (0xf0 + c / 262144)
          ((0x80 + c / 4096 % 64) ∷ (0x80 + c / 64 % 64) ∷ (0x80 + c % 64) ∷ rest)
        ≡ some (c, rest)
  unfolding decode_char is_continuation second_of_four
  decode-four l h = ground arith

decode_from-encode_char :
    (c : ℕ) (rest : Bytes) (fuel : ℕ) (t : Text)
    → IsScalar c
    → decode_from fuel rest ≡ some t
    → decode_from (suc fuel) (encode_char c ++ rest) ≡ some (c ∷ t)
decode_from-encode_char c rest fuel t v h = elim (Bool-cases (ltb c 0x80)) [
  | inl p ↦ unfold encode_char decode_from decode_char in ground arith
  | inr p ↦ elim (Bool-cases (ltb c 0x800)) [
    | inl q ↦
        unfold encode_char decode_from in
        ground (arith, decode-two c rest (ground arith) (ground arith))
    | inr q ↦ elim (Bool-cases (ltb c 0x10000)) [
      | inl r ↦
          unfold encode_char decode_from in
          ground (arith, decode-three c rest v (ground arith) (ground arith))
      | inr r ↦
          unfold encode_char decode_from in
          ground (arith, decode-four c rest (ground arith) (ground arith))
    ]
  ]
]

encode_char-pos : (c : ℕ) → 0 < length (encode_char c)
unfolding encode_char
encode_char-pos c = ground arith

decode_from-as_bytes_scalar :
    (fuel : ℕ) (s : Text)
    → AllScalar s
    → length (as_bytes s) ≤ fuel
    → decode_from fuel (as_bytes s) ≡ some s
unfolding as_bytes decode_from
decode_from-as_bytes_scalar fuel [] v l = empty fuel
  where
    empty : (f : ℕ) → decode_from f [] ≡ some []
    empty zero = refl
    empty (suc f) = refl
decode_from-as_bytes_scalar zero (c ∷ s) v l =
    absurd (omega (arith, encode_char-pos c, length-append (encode_char c) (as_bytes s)))
decode_from-as_bytes_scalar (suc fuel) (c ∷ s) v l =
    let room : length (as_bytes s) ≤ fuel =
      omega (arith, encode_char-pos c, length-append (encode_char c) (as_bytes s)) in
    decode_from-encode_char c (as_bytes s) fuel s v.0 (decode_from-as_bytes_scalar fuel s v.1 room)

-- `from_utf8` reads the UTF-8 form of every text of Unicode scalar values, and returns that text.
pub from_utf8_of_as_bytes : (s : Text) → AllScalar s → from_utf8 (as_bytes s) ≡ some s
unfolding from_utf8
from_utf8_of_as_bytes s v = decode_from-as_bytes_scalar (length (as_bytes s)) s v (omega arith)
