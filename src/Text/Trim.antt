-- ===== src/Text/Trim.antt =====
-- `trim`: trimming twice is trimming once, and a text without white space is its own trim.
use aperip_nomos.Prelude.{◌≡◌, refl, true, false, [], ◌∷◌, arith, all, not, inl, inr, Bool-cases}
use aperip_nomos.Text.{Text, is_whitespace, trim_start, trim_end, trim}

-- no white space at the front
abbrev StartsDark : Text → Type 0
StartsDark [] = Unit
StartsDark (c ∷ s) = is_whitespace c ≡ false

trim_start-StartsDark : (s : Text) → StartsDark (trim_start s)
unfolding trim_start
trim_start-StartsDark [] = tt
trim_start-StartsDark (c ∷ s) = elim (Bool-cases (is_whitespace c)) [
  | inl w ↦ rw w (trim_start-StartsDark s)
  | inr d ↦ rw d d
]

trim_start_of_StartsDark : (s : Text) → StartsDark s → trim_start s ≡ s
unfolding trim_start
trim_start_of_StartsDark [] d = refl
trim_start_of_StartsDark (c ∷ s) d = rw d

trim_end-StartsDark : (s : Text) → StartsDark s → StartsDark (trim_end s)
unfolding trim_end
trim_end-StartsDark [] d = tt
trim_end-StartsDark (c ∷ s) d = rw d d

trim_end_idem : (s : Text) → trim_end (trim_end s) ≡ trim_end s
unfolding trim_end
trim_end_idem [] = refl
trim_end_idem (c ∷ s) = ground (arith, trim_end_idem s)

pub trim_idem : (s : Text) → trim (trim s) ≡ trim s
unfolding trim
trim_idem s =
    let dark = trim_end-StartsDark (trim_start s) (trim_start-StartsDark s) in
    rw (trim_start_of_StartsDark (trim_end (trim_start s)) dark) (trim_end_idem (trim_start s))

trim_end_of_dark : (s : Text) → all (λ c. not (is_whitespace c)) s ≡ true → trim_end s ≡ s
unfolding trim_end
trim_end_of_dark [] h = refl
trim_end_of_dark (c ∷ s) h = ground (arith, trim_end_of_dark s)

trim_start_of_dark : (s : Text) → all (λ c. not (is_whitespace c)) s ≡ true → trim_start s ≡ s
unfolding trim_start
trim_start_of_dark [] h = refl
trim_start_of_dark (c ∷ s) h = ground arith

pub trim_of_dark : (s : Text) → all (λ c. not (is_whitespace c)) s ≡ true → trim s ≡ s
unfolding trim
trim_of_dark s h = rw (trim_start_of_dark s h) (trim_end_of_dark s h)
