-- ===== src/Map/Laws.antt =====
-- What `get` returns after `insert` and `remove`, and that both keep the keys in order.
use aperip_nomos.Prelude.{
  ◌≡◌, refl, true, false, [], ◌∷◌, none, some, inl, inr, Option-cases, arith, if◌then◌else◌, ◌↔◌,
}
use aperip_nomos.Text.{Text, text_eq}
use aperip_nomos.Text.Equality.{text_eq_iff}
use aperip_nomos.Text.Order.{text_lt, text_lt_irrefl, text_lt_total, text_lt_trans}
use aperip_nomos.Map.{Map, lookup, contains_key, insert, remove}

module _ {ℓ} {V : Type ℓ} where
  -- A key reads the value that was inserted, every other key what it read before.
  pub lookup-insert :
      (k j : Text) (v : V) (m : Map V)
      → lookup j (insert k v m) ≡ (if text_eq k j then some v else lookup j m)
  unfolding lookup insert
  lookup-insert k j v [] = refl
  lookup-insert k j v ((i, w) ∷ m) = ground (
    arith,
    text_eq_iff k j,
    text_eq_iff i k,
    text_eq_iff i j,
    text_lt_irrefl k,
    lookup-insert k j v m,
  )

  -- A removed key reads nothing, every other key what it read before.
  pub lookup-remove :
      (k j : Text) (m : Map V) → lookup j (remove k m) ≡ (if text_eq k j then none else lookup j m)
  unfolding lookup remove
  lookup-remove k j [] = ground arith
  lookup-remove k j ((i, w) ∷ m) =
      ground (arith, text_eq_iff k j, text_eq_iff i k, text_eq_iff i j, lookup-remove k j m)

  pub contains_key-eq-false :
      (k : Text) (m : Map V) → (contains_key k m ≡ false) ↔ (lookup k m ≡ none)
  unfolding contains_key
  contains_key-eq-false k m = ground arith

  pub contains_key-some :
      (k : Text) (m : Map V) → contains_key k m ≡ true → (v : V) × (lookup k m ≡ some v)
  unfolding contains_key
  contains_key-some k m h = elim (Option-cases (lookup k m)) [
    | inl e ↦ absurd (ground arith)
    | inr found ↦ found
  ]

  -- every key of the map is greater than `k`
  abbrev pub Above : Text → Map V → Type 0
  Above k [] = Unit
  Above k ((j, w) ∷ m) = (text_lt k j ≡ true) × Above k m

  -- the keys strictly increase
  abbrev pub IsOrdered : Map V → Type 0
  IsOrdered [] = Unit
  IsOrdered ((j, w) ∷ m) = Above j m × IsOrdered m

  Above-trans : (i j : Text) (m : Map V) → text_lt i j ≡ true → Above j m → Above i m
  Above-trans i j [] h a = tt
  Above-trans i j ((k, w) ∷ m) h (l, a) = (text_lt_trans i j k h l, Above-trans i j m h a)

  Above-insert :
      (i k : Text) (v : V) (m : Map V) → text_lt i k ≡ true → Above i m → Above i (insert k v m)
  unfolding insert
  Above-insert i k v [] h a = (h, tt)
  Above-insert i k v ((j, w) ∷ m) h a = ground (arith, Above-insert i k v m)

  Above-remove : (i k : Text) (m : Map V) → Above i m → Above i (remove k m)
  unfolding remove
  Above-remove i k [] a = tt
  Above-remove i k ((j, w) ∷ m) a = ground (arith, Above-remove i k m)

  pub insert-IsOrdered : (k : Text) (v : V) (m : Map V) → IsOrdered m → IsOrdered (insert k v m)
  unfolding insert
  insert-IsOrdered k v [] o = (tt, tt)
  insert-IsOrdered k v ((j, w) ∷ m) o = ground (
    arith,
    Above-trans k j m,
    Above-insert j k v m,
    insert-IsOrdered k v m,
    text_eq_iff j k,
    text_lt_total k j,
  )

  pub remove-IsOrdered : (k : Text) (m : Map V) → IsOrdered m → IsOrdered (remove k m)
  unfolding remove
  remove-IsOrdered k [] o = tt
  remove-IsOrdered k ((j, w) ∷ m) o = ground (arith, Above-remove j k m, remove-IsOrdered k m)
