-- ===== src/Text.antt =====
-- Rust's `str` and `char` as the program uses them (the standard library's documented behaviour): a
-- text is the list of its code points, and its `len()` counts the bytes of its UTF-8 form.
pub mod Equality
pub mod Trim
pub mod Utf8
pub mod Order
use Prim.Native.Char.{code}
use aperip_nomos.Prelude.{
  ℕ, ◌+◌, String, Bool, true, false, ◌&&◌, ◌||◌, List, [], ◌∷◌, map, Option, none, some, ltb, leb,
  ◌==◌, if◌then◌else◌, is_empty, any,
}

abbrev pub Text : Type 0
Text = List ℕ

-- A literal of the source.
abbrev pub codes : String → Text
codes String.[] = []
codes (String.◌∷◌ c s) = code c ∷ codes s

-- `char::is_whitespace`, the Unicode property White_Space
unfoldable pub is_whitespace : ℕ → Bool
is_whitespace c =
    (leb 9 c && leb c 13)
    || c == 32
    || c == 0x85
    || c == 0xa0
    || c == 0x1680
    || (leb 0x2000 c && leb c 0x200a)
    || c == 0x2028
    || c == 0x2029
    || c == 0x202f
    || c == 0x205f
    || c == 0x3000

-- `char::is_control`, the general category Cc
unfoldable pub is_control : ℕ → Bool
is_control c = leb c 0x1f || (leb 0x7f c && leb c 0x9f)

abbrev pub is_ascii_digit : ℕ → Bool
is_ascii_digit c = leb b'0' c && leb c b'9'

abbrev pub is_ascii_lowercase : ℕ → Bool
is_ascii_lowercase c = leb b'a' c && leb c b'z'

abbrev pub is_ascii_uppercase : ℕ → Bool
is_ascii_uppercase c = leb b'A' c && leb c b'Z'

unfoldable pub is_ascii_alphanumeric : ℕ → Bool
is_ascii_alphanumeric c = is_ascii_lowercase c || is_ascii_uppercase c || is_ascii_digit c

unfoldable pub to_ascii_lowercase : ℕ → ℕ
to_ascii_lowercase c = if is_ascii_uppercase c then c + 32 else c

-- the bytes of one character in UTF-8
abbrev pub len_utf8 : ℕ → ℕ
len_utf8 c = if ltb c 0x80 then 1 else if ltb c 0x800 then 2 else if ltb c 0x10000 then 3 else 4

-- `str::len`
abbrev pub byte_len : Text → ℕ
byte_len [] = 0
byte_len (c ∷ s) = len_utf8 c + byte_len s

unfoldable pub text_eq : Text → Text → Bool
text_eq [] [] = true
text_eq [] (d ∷ t) = false
text_eq (c ∷ s) [] = false
text_eq (c ∷ s) (d ∷ t) = c == d && text_eq s t

unfoldable pub eq_ignore_ascii_case : Text → Text → Bool
unfolding text_eq to_ascii_lowercase
eq_ignore_ascii_case s t = text_eq (map to_ascii_lowercase s) (map to_ascii_lowercase t)

-- `contains(c)` for a character
unfoldable pub contains_char : ℕ → Text → Bool
contains_char d = any (λ c. c == d)

-- `contains("..")`
unfoldable pub contains_pair : ℕ → ℕ → Text → Bool
contains_pair a b [] = false
contains_pair a b (c ∷ []) = false
contains_pair a b (c ∷ d ∷ s) = (c == a && d == b) || contains_pair a b (d ∷ s)

unfoldable pub trim_start : Text → Text
unfolding is_whitespace
trim_start [] = []
trim_start (c ∷ s) = let rest = trim_start s in if is_whitespace c then rest else c ∷ s

-- a character stays if it is no white space, or if one after it stays
unfoldable pub trim_end : Text → Text
unfolding is_whitespace
trim_end [] = []
trim_end (c ∷ s) =
    let rest = trim_end s in if is_whitespace c && is_empty rest then [] else c ∷ rest

unfoldable pub trim : Text → Text
unfolding trim_start trim_end
trim s = trim_end (trim_start s)

-- `split_once(d)`: the parts before and after the first `d`
unfoldable pub split_once : ℕ → Text → Option (Text × Text)
split_once d [] = none
split_once d (c ∷ s) =
    let rest = split_once d s in
    if c == d then some ([], s) else elim rest [ none ↦ none | some (a, b) ↦ some (c ∷ a, b) ]

-- `rsplit_once(d)`: the parts before and after the last `d`
unfoldable pub rsplit_once : ℕ → Text → Option (Text × Text)
rsplit_once d [] = none
rsplit_once d (c ∷ s) = elim (rsplit_once d s) [
  | some (a, b) ↦ some (c ∷ a, b)
  | none ↦ if c == d then some ([], s) else none
]
