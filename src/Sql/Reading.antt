-- ===== src/Sql/Reading.antt =====
-- How the database reads a statement: the standard's literals, in which a doubled quote stands for
-- one quote. This describes the reader, independently of the texts that src/store.rs builds.
use aperip_nomos.Prelude.{
  ℕ, zero, suc, ◌+◌, ◌-◌, ◌*◌, List, [], ◌∷◌, Option, none, some, ◌==◌, if◌then◌else◌,
}
use aperip_nomos.Prelude.Int.{ℤ, pos, negsuc}
use aperip_nomos.Text.{Text, codes, is_ascii_digit, text_eq}
use aperip_nomos.Sql.{insert_head, delete_head}

-- `SqlValue` of the crate `rnmdb_types`; `other` stands for each of its other variants.
pub data SqlValue : Type 0 where
  int64 : ℤ → SqlValue
  text : Text → SqlValue
  other : SqlValue

abbrev pub Row : Type 0
Row = List SqlValue

abbrev pub and_then {ℓ κ} : {A : Type ℓ} {B : Type κ} → Option A → (A → Option B) → Option B
and_then none f = none
and_then (some a) f = f a

unfoldable pub strip_prefix : Text → Text → Option Text
strip_prefix [] s = some s
strip_prefix (c ∷ p) [] = none
strip_prefix (c ∷ p) (d ∷ s) = let rest = strip_prefix p s in if c == d then rest else none

abbrev pub cons_first : ℕ → Option (Text × Text) → Option (Text × Text)
cons_first c none = none
cons_first c (some (t, rest)) = some (c ∷ t, rest)

-- the text up to the closing quote, and what follows that quote
unfoldable pub read_quoted : Text → Option (Text × Text)
read_quoted [] = none
read_quoted (c ∷ []) = if c == 39 then some ([], []) else none
read_quoted (c ∷ d ∷ s) =
    let pair = cons_first 39 (read_quoted s) in
    let plain = cons_first c (read_quoted (d ∷ s)) in
    if c == 39 then (if d == 39 then pair else some ([], d ∷ s)) else plain

-- the number that the digits at the front continue
unfoldable pub read_digits : ℕ → Text → ℕ × Text
read_digits n [] = (n, [])
read_digits n (c ∷ s) =
    let more = read_digits (n * 10 + (c - b'0')) s in if is_ascii_digit c then more else (n, c ∷ s)

unfoldable pub negative : ℕ → ℤ
negative zero = pos 0
negative (suc n) = negsuc n

unfoldable pub read_number : Text → Option (SqlValue × Text)
read_number [] = none
read_number (c ∷ s) =
    if c == b'-'
    then some (int64 (negative (read_digits 0 s).0), (read_digits 0 s).1)
    else if is_ascii_digit c
    then some (int64 (pos (read_digits 0 (c ∷ s)).0), (read_digits 0 (c ∷ s)).1)
    else none

abbrev pub as_text : Option (Text × Text) → Option (SqlValue × Text)
as_text none = none
as_text (some (t, rest)) = some (text t, rest)

unfoldable pub read_value : Text → Option (SqlValue × Text)
read_value [] = none
read_value (c ∷ s) = if c == 39 then as_text (read_quoted s) else read_number (c ∷ s)

-- so many values with commas between them, and the text after the last
unfoldable pub read_values : ℕ → Text → Option (Row × Text)
read_values zero s = some ([], s)
read_values (suc zero) s = and_then (read_value s) (λ (v, rest). some (v ∷ [], rest))
read_values (suc (suc n)) s = and_then (read_value s) λ (v, rest).
    and_then (strip_prefix (codes ", ") rest)
      λ rest'. and_then (read_values (suc n) rest') λ (vs, rest''). some (v ∷ vs, rest'')

-- the row of an INSERT into the seven columns
unfoldable pub read_insert : Text → Option Row
read_insert sql = and_then (strip_prefix insert_head sql) λ s.
    and_then (read_values 7 s) λ (row, rest). if text_eq rest (codes ");") then some row else none

-- the slug of a DELETE
unfoldable pub read_delete : Text → Option Text
read_delete sql = and_then (strip_prefix delete_head sql) λ s. and_then (read_value s) λ (v, rest).
    if text_eq rest (codes ";")
    then elim v [ text slug ↦ some slug | int64 _ ↦ none | other ↦ none ]
    else none
