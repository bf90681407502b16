-- ===== src/Actor/System/Entries.antt =====
-- Lists that grow at their head, the n-th entry from the start, and a queue that is still to be added.
use aperip_nomos.Prelude.{
  ℕ, ◌+◌, ◌<◌, ◌≡◌, ◌≢◌, refl, inl, inr, List, [], ◌∷◌, ◌++◌, Option, none, some, length, map, ◌==◌,
  if◌then◌else◌, arith, Bool-cases,
}

module _ {ℓ} {A : Type ℓ} where
  abbrev pub entry : ℕ → List A → Option A
  entry n [] = none
  entry n (a ∷ l) = if n == length l then some a else entry n l

  -- the list after the elements of a queue were added to it, one by one
  abbrev pub add_all : List A → List A → List A
  add_all [] l = l
  add_all (a ∷ queue) l = add_all queue (a ∷ l)

  pub add_all-snoc :
      (queue : List A) (a : A) (l : List A) → add_all (queue ++ (a ∷ [])) l ≡ a ∷ add_all queue l
  add_all-snoc [] a l = refl
  add_all-snoc (b ∷ queue) a l = add_all-snoc queue a (b ∷ l)

  pub length-add_all : (queue l : List A) → length (add_all queue l) ≡ length queue + length l
  length-add_all [] l = omega arith
  length-add_all (a ∷ queue) l = omega (arith, length-add_all queue (a ∷ l))

  -- an entry is one of the list's
  pub entry_bound : (n : ℕ) (l : List A) (a : A) → entry n l ≡ some a → n < length l
  entry_bound n [] a e = cc
  entry_bound n (b ∷ l) a e = ground (arith, entry_bound n l a)

  pub entry-none : (n : ℕ) (l : List A) → n < length l → entry n l ≢ none
  entry-none n [] h e = omega arith
  entry-none n (b ∷ l) h e = ground (arith, entry-none n l)

  -- what is added later moves no entry
  pub entry_kept :
      (n : ℕ) (b : A) (l : List A) (a : A) → entry n l ≡ some a → entry n (b ∷ l) ≡ some a
  entry_kept n b l a e = let k = entry_bound n l a e in ground arith

  pub entry-add_all :
      (n : ℕ) (queue l : List A) (a : A) → entry n l ≡ some a → entry n (add_all queue l) ≡ some a
  entry-add_all n [] l a e = e
  entry-add_all n (b ∷ queue) l a e = entry-add_all n queue (b ∷ l) a (entry_kept n b l a e)

  pub entry_last : (a : A) (l : List A) → entry (length l) (a ∷ l) ≡ some a
  entry_last a l = ground arith

pub length-map {ℓ κ} :
    {A : Type ℓ} {B : Type κ} (f : A → B) (l : List A) → length (map f l) ≡ length l
length-map f [] = refl
length-map f (a ∷ l) = omega (arith, length-map f l)

pub entry-map {ℓ κ} :
    {A : Type ℓ} {B : Type κ} (f : A → B) (n : ℕ) (l : List A) (a : A)
    → entry n l ≡ some a
    → entry n (map f l) ≡ some (f a)
entry-map f n [] a e = cc
entry-map f n (b ∷ l) a e = elim (Bool-cases (n == length l)) [
  | inl last ↦ rw (length-map f l, last) (let k = rw last at e in cc k)
  | inr before ↦ rw (length-map f l, before) (entry-map f n l a (rw before at e))
]
