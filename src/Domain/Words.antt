-- ===== src/Domain/Words.antt =====
-- A reference definition of `slugify` of src/domain.rs: the words of ASCII letters and digits, in
-- lower case, joined by hyphens.
use aperip_nomos.Prelude.{
  ℕ, ◌≡◌, refl, sym, true, false, List, [], ◌∷◌, ◌++◌, append-nil, append_assoc, arith,
  if◌then◌else◌, is_empty,
}
use aperip_nomos.Text.{Text, is_ascii_alphanumeric, to_ascii_lowercase}
use aperip_nomos.Domain.{slug_loop, slugify}

-- a word that is complete, unless it is empty
flush : Text → List Text → List Text
flush [] more = more
flush (c ∷ s) more = (c ∷ s) ∷ more

-- the words of a text, after the letters of an unfinished word
words_from : Text → Text → List Text
words_from word [] = flush word []
words_from word (c ∷ s) =
    let longer = words_from (word ++ to_ascii_lowercase c ∷ []) s in
    let closed = flush word (words_from [] s) in if is_ascii_alphanumeric c then longer else closed

pub words : Text → List Text
unfolding words_from flush
words = words_from []

-- a hyphen before each word
glue : List Text → Text
glue [] = []
glue (w ∷ ws) = b'-' ∷ (w ++ glue ws)

pub join : List Text → Text
unfolding glue
join [] = []
join (w ∷ ws) = w ++ glue ws

is_empty-append : (s t : Text) (c : ℕ) → is_empty (s ++ c ∷ t) ≡ false
is_empty-append [] t c = refl
is_empty-append (d ∷ s) t c = refl

-- an unfinished word comes first
glue-words_from :
    (word s : Text)
    → is_empty word ≡ false
    → glue (words_from word s) ≡ b'-' ∷ join (words_from word s)
unfolding glue join words_from flush
glue-words_from [] s e = cc
glue-words_from (d ∷ word) [] e = refl
glue-words_from (d ∷ word) (c ∷ s) e =
    ground (arith, glue-words_from ((d ∷ word) ++ to_ascii_lowercase c ∷ []) s)

mutual
  unfolding slug_loop words_from flush glue join

  in_word :
      (front word s : Text)
      → is_empty word ≡ false
      → slug_loop (front ++ word) false s ≡ front ++ join (words_from word s)
  in_word front [] s e = cc
  in_word front (d ∷ word) [] e = cc (append-nil (d ∷ word))
  in_word front (d ∷ word) (c ∷ s) e = ground (
    arith,
    is_empty-append front word d,
    append_assoc front (d ∷ word) (to_ascii_lowercase c ∷ []),
    in_word front ((d ∷ word) ++ to_ascii_lowercase c ∷ []) s,
    between_words (front ++ d ∷ word) s,
    append_assoc front (d ∷ word) (glue (words_from [] s)),
  )

  between_words :
      (slug s : Text)
      → is_empty slug ≡ false
      → slug_loop slug true s ≡ slug ++ glue (words_from [] s)
  between_words slug [] e = sym (append-nil slug)
  between_words slug (c ∷ s) e = ground (
    arith,
    in_word (slug ++ b'-' ∷ []) (to_ascii_lowercase c ∷ []) s,
    glue-words_from (to_ascii_lowercase c ∷ []) s,
    append_assoc slug (b'-' ∷ []) (join (words_from (to_ascii_lowercase c ∷ []) s)),
    between_words slug s,
  )

before_words : (s : Text) → slug_loop [] false s ≡ join (words_from [] s)
unfolding slug_loop words_from flush
before_words [] = unfold join in refl
before_words (c ∷ s) = ground (arith, in_word [] (to_ascii_lowercase c ∷ []) s, before_words s)

-- For every text `slugify` returns its words of ASCII letters and digits, each in lower case, joined
-- by single hyphens.
pub slugify-join : (value : Text) → slugify value ≡ join (words value)
unfolding slugify words
slugify-join = before_words
