-- ===== src/Sql/Literal.antt =====
-- `sql_text_literal` of src/store.rs: no text escapes from its quotes.
use aperip_nomos.Prelude.{
  ℕ, ◌≡◌, refl, ap, false, [], ◌∷◌, ◌++◌, append_assoc, some, arith, ◌==◌, ==_iff, is_empty,
}
use aperip_nomos.Text.{Text}
use aperip_nomos.Sql.{double_quotes, sql_text_literal}
use aperip_nomos.Sql.Reading.{text, read_quoted, read_value, cons_first, as_text}

-- no quote continues the literal
abbrev pub EndsQuote : Text → Type 0
EndsQuote [] = Unit
EndsQuote (c ∷ s) = (c == 39) ≡ false

read_quoted_plain :
    (c : ℕ) (s : Text)
    → (c == 39) ≡ false
    → is_empty s ≡ false
    → read_quoted (c ∷ s) ≡ cons_first c (read_quoted s)
unfolding read_quoted
read_quoted_plain c [] h e = cc
read_quoted_plain c (d ∷ s) h e = rw h

read_quoted_pair : (s : Text) → read_quoted (39 ∷ 39 ∷ s) ≡ cons_first 39 (read_quoted s)
unfolding read_quoted
read_quoted_pair s = refl

is_empty-append : (s t : Text) (c : ℕ) → is_empty (s ++ c ∷ t) ≡ false
is_empty-append [] t c = refl
is_empty-append (d ∷ s) t c = refl

read_quoted-double_quotes :
    (value rest : Text)
    → EndsQuote rest
    → read_quoted (double_quotes value ++ 39 ∷ rest) ≡ some (value, rest)
unfolding double_quotes
read_quoted-double_quotes [] [] e = unfold read_quoted in refl
read_quoted-double_quotes [] (d ∷ rest) e = unfold read_quoted in rw e
read_quoted-double_quotes (c ∷ value) rest e = ground (
  arith,
  ==_iff c 39,
  read_quoted_pair (double_quotes value ++ 39 ∷ rest),
  read_quoted_plain c (double_quotes value ++ 39 ∷ rest),
  is_empty-append (double_quotes value) rest 39,
  read_quoted-double_quotes value rest e,
)

-- A text in its literal is read back as that text, whatever follows that is no quote: so no value can
-- end its literal early or reach into the statement.
pub read_value-sql_text_literal :
    (value rest : Text)
    → EndsQuote rest
    → read_value (sql_text_literal value ++ rest) ≡ some (text value, rest)
unfolding sql_text_literal read_value
read_value-sql_text_literal value rest e =
    rw (append_assoc (double_quotes value) (39 ∷ []) rest)
      (ap as_text (read_quoted-double_quotes value rest e))
