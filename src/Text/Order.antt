-- ===== src/Text/Order.antt =====
-- The order of Rust's `str`: lexicographic by bytes, which for UTF-8 is lexicographic by code points.
use aperip_nomos.Prelude.{◌≡◌, refl, Bool, true, false, ◌&&◌, ◌||◌, [], ◌∷◌, arith, ltb, ◌==◌}
use aperip_nomos.Text.{Text}

-- `s < t`
unfoldable pub text_lt : Text → Text → Bool
text_lt [] [] = false
text_lt [] (d ∷ t) = true
text_lt (c ∷ s) [] = false
text_lt (c ∷ s) (d ∷ t) = ltb c d || (c == d && text_lt s t)

pub text_lt_irrefl : (s : Text) → text_lt s s ≡ false
unfolding text_lt
text_lt_irrefl [] = refl
text_lt_irrefl (c ∷ s) = ground (arith, text_lt_irrefl s)

pub text_lt_trans : (s t u : Text) → text_lt s t ≡ true → text_lt t u ≡ true → text_lt s u ≡ true
unfolding text_lt
text_lt_trans [] [] u h k = cc
text_lt_trans [] (d ∷ t) [] h k = cc
text_lt_trans [] (d ∷ t) (e ∷ u) h k = refl
text_lt_trans (c ∷ s) [] u h k = cc
text_lt_trans (c ∷ s) (d ∷ t) [] h k = cc
text_lt_trans (c ∷ s) (d ∷ t) (e ∷ u) h k = ground (arith, text_lt_trans s t u)

pub text_lt_asymm : (s t : Text) → text_lt s t ≡ true → text_lt t s ≡ false
unfolding text_lt
text_lt_asymm [] [] h = cc
text_lt_asymm [] (d ∷ t) h = refl
text_lt_asymm (c ∷ s) [] h = cc
text_lt_asymm (c ∷ s) (d ∷ t) h = ground (arith, text_lt_asymm s t)

-- two texts of which neither is less are equal
pub text_lt_total : (s t : Text) → text_lt s t ≡ false → text_lt t s ≡ false → s ≡ t
unfolding text_lt
text_lt_total [] [] h k = refl
text_lt_total [] (d ∷ t) h k = cc
text_lt_total (c ∷ s) [] h k = cc
text_lt_total (c ∷ s) (d ∷ t) h k = ground (arith, text_lt_total s t)
