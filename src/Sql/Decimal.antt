-- ===== src/Sql/Decimal.antt =====
-- The decimal form of an `i64` is read back as the same number.
use aperip_nomos.Prelude.{
  ℕ, zero, suc, ◌+◌, ◌/◌, ◌%◌, ◌<◌, ◌≡◌, refl, ap, ◌∙◌, false, true, Option, [], ◌∷◌, ◌++◌,
  append_assoc, some, arith, ltb, Bool-cases, inl, inr,
}
use aperip_nomos.Prelude.Int.{ℤ, pos, negsuc}
use aperip_nomos.Text.{Text, is_ascii_digit}
use aperip_nomos.Sql.{digits, display}
use aperip_nomos.Sql.Reading.{SqlValue, int64, read_digits, read_number, read_value, negative}

-- one more digit at the end
read_digits-last :
    (n : ℕ) (rest : Text) → read_digits (n / 10) ((b'0' + n % 10) ∷ rest) ≡ read_digits n rest
unfolding read_digits
read_digits-last n rest = ground arith

read_digits-digits :
    (fuel n : ℕ) (rest : Text)
    → n < fuel
    → read_digits 0 (digits fuel n ++ rest) ≡ read_digits n rest
unfolding digits
read_digits-digits zero n rest h = elim h [ ]
read_digits-digits (suc fuel) n rest h = elim (Bool-cases (ltb n 10)) [
  | inl small ↦ rw small (unfold read_digits in ground arith)
  | inr large ↦
      rw (large, append_assoc (digits fuel (n / 10)) ((b'0' + n % 10) ∷ []) rest)
        (read_digits-digits fuel (n / 10) ((b'0' + n % 10) ∷ rest) (ground arith)
          ∙ read_digits-last n rest)
]

-- the fuel of `display` leaves a digit at the front
digits-cons :
    (fuel n : ℕ)
    → n < fuel
    → (c : ℕ) × (s : Text) × (digits fuel n ≡ c ∷ s) × (is_ascii_digit c ≡ true)
unfolding digits
digits-cons zero n h = elim h [ ]
digits-cons (suc fuel) n h = elim (Bool-cases (ltb n 10)) [
  | inl small ↦ (b'0' + n, [], rw small, ground arith)
  | inr large ↦
      let (c, s, e, d) = digits-cons fuel (n / 10) (ground arith) in
      (c, s ++ (b'0' + n % 10) ∷ [], rw (large, e), d)
]

-- no digit continues the number
abbrev pub EndsNumber : Text → Type 0
EndsNumber [] = Unit
EndsNumber (c ∷ s) = is_ascii_digit c ≡ false

read_digits_end : (n : ℕ) (rest : Text) → EndsNumber rest → read_digits n rest ≡ (n, rest)
unfolding read_digits
read_digits_end n [] e = refl
read_digits_end n (c ∷ s) e = rw e

read_digits_all :
    (n : ℕ) (rest : Text) → EndsNumber rest → read_digits 0 (digits (suc n) n ++ rest) ≡ (n, rest)
read_digits_all n rest e =
    read_digits-digits (suc n) n rest (omega arith) ∙ read_digits_end n rest e

digit_is_value :
    (c : ℕ) (s : Text)
    → is_ascii_digit c ≡ true
    → read_value (c ∷ s) ≡ some (int64 (pos (read_digits 0 (c ∷ s)).0), (read_digits 0 (c ∷ s)).1)
unfolding read_value read_number
digit_is_value c s d = ground arith

-- The decimal form of a 64-bit number is read as that number, whatever follows that is no digit.
pub read_value-display :
    (i : ℤ) (rest : Text) → EndsNumber rest → read_value (display i ++ rest) ≡ some (int64 i, rest)
unfolding display
read_value-display (pos n) rest e =
    let (c, s, front, d) = digits-cons (suc n) n (omega arith) in
    let all : read_digits 0 (c ∷ (s ++ rest)) ≡ (n, rest) =
      rw front at (read_digits_all n rest e) in
    rw front (digit_is_value c (s ++ rest) d ∙ ap found all)
  where
    found : ℕ × Text → Option (SqlValue × Text)
    found p = some (int64 (pos p.0), p.1)
read_value-display (negsuc n) rest e =
    unfold read_value read_number negative in rw (read_digits_all (suc n) rest e)
