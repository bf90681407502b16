-- ===== src/Prelude/Lists.antt =====
-- Lists measured by native numbers, Boolean quantifiers over a list, and their laws.
use Prim.Native.Nat.{ℕ, zero, suc, ◌+◌, min}
use mathlib.Core.Path.{◌≡◌, refl}
use mathlib.Core.Bool.{Bool, true, false, ◌&&◌, ◌||◌}
use mathlib.Core.List.{List, [], ◌∷◌, ◌++◌}
use native.Mathlib.Omega.{arith}

module _ {ℓ} {A : Type ℓ} where
  abbrev pub length : List A → ℕ
  length [] = 0
  length (x ∷ xs) = suc (length xs)

  abbrev pub take : ℕ → List A → List A
  take zero xs = []
  take (suc n) [] = []
  take (suc n) (x ∷ xs) = x ∷ take n xs

  -- `is_empty()` of a string, a vector or a queue
  abbrev pub is_empty : List A → Bool
  is_empty [] = true
  is_empty (x ∷ xs) = false

  abbrev pub all : (A → Bool) → List A → Bool
  all p [] = true
  all p (x ∷ xs) = p x && all p xs

  abbrev pub any : (A → Bool) → List A → Bool
  any p [] = false
  any p (x ∷ xs) = p x || any p xs

  pub length-append : (xs ys : List A) → length (xs ++ ys) ≡ length xs + length ys
  length-append [] ys = omega arith
  length-append (x ∷ xs) ys = omega (arith, length-append xs ys)

  pub length-take : (n : ℕ) (xs : List A) → length (take n xs) ≡ min n (length xs)
  length-take zero xs = omega arith
  length-take (suc n) [] = omega arith
  length-take (suc n) (x ∷ xs) = omega (arith, length-take n xs)

  pub all-append : (p : A → Bool) (xs ys : List A) → all p (xs ++ ys) ≡ (all p xs && all p ys)
  all-append p [] ys = refl
  all-append p (x ∷ xs) ys = ground (arith, all-append p xs ys)

  pub all-take : (p : A → Bool) (n : ℕ) (xs : List A) → all p xs ≡ true → all p (take n xs) ≡ true
  all-take p zero xs h = refl
  all-take p (suc n) [] h = refl
  all-take p (suc n) (x ∷ xs) h = ground (arith, all-take p n xs)

  -- a property that implies another, at every element
  pub all_mono :
      (p q : A → Bool)
      → ((a : A) → p a ≡ true → q a ≡ true)
      → (xs : List A) → all p xs ≡ true
      → all q xs ≡ true
  all_mono p q h [] e = refl
  all_mono p q h (x ∷ xs) e = ground (arith, h x, all_mono p q h xs)

  -- a property that excludes another, at every element
  pub any-eq-false :
      (p q : A → Bool)
      → ((a : A) → p a ≡ true → q a ≡ false)
      → (xs : List A) → all p xs ≡ true
      → any q xs ≡ false
  any-eq-false p q h [] e = refl
  any-eq-false p q h (x ∷ xs) e = ground (arith, h x, any-eq-false p q h xs)
