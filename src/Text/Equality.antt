-- ===== src/Text/Equality.antt =====
-- The equality test of texts, and searches that find nothing.
use aperip_nomos.Prelude.{ℕ, ◌≡◌, refl, ◌↔◌, Bool, true, false, [], ◌∷◌, arith, ==_iff, all}
use aperip_nomos.Text.{Text, text_eq, contains_pair}

pub text_eq_refl : (s : Text) → text_eq s s ≡ true
unfolding text_eq
text_eq_refl [] = refl
text_eq_refl (c ∷ s) = ground (arith, text_eq_refl s)

pub eq_of_text_eq : (s t : Text) → text_eq s t ≡ true → s ≡ t
unfolding text_eq
eq_of_text_eq [] [] h = refl
eq_of_text_eq [] (d ∷ t) h = cc
eq_of_text_eq (c ∷ s) [] h = cc
eq_of_text_eq (c ∷ s) (d ∷ t) h = ground (arith, eq_of_text_eq s t)

-- the form in which `ground` takes it at a pair of texts
pub text_eq_iff : (s t : Text) → (text_eq s t ≡ true) ↔ (s ≡ t)
text_eq_iff s t = (eq_of_text_eq s t, λ h. rw h (text_eq_refl t))

-- A text all of whose characters differ from `a` does not contain `a` before `b`.
pub contains_pair-eq-false :
    (p : ℕ → Bool) (a b : ℕ)
    → p a ≡ false
    → (s : Text) → all p s ≡ true
    → contains_pair a b s ≡ false
unfolding contains_pair
contains_pair-eq-false p a b n [] h = refl
contains_pair-eq-false p a b n (c ∷ []) h = refl
contains_pair-eq-false p a b n (c ∷ d ∷ s) h =
    ground (arith, contains_pair-eq-false p a b n (d ∷ s), ==_iff c a)
