-- ===== src/Markdown/Table.antt =====
-- A `HashMap` of src/markdown.rs as the list of its entries: each key once, and the bytes of all values.
use aperip_nomos.Prelude.{
  ℕ, suc, ◌+◌, ◌≡◌, refl, inl, inr, [], ◌∷◌, some, none, arith, Bool-cases, length,
}
use aperip_nomos.Text.{Text, byte_len, text_eq}
use aperip_nomos.Text.Equality.{text_eq_iff}
use aperip_nomos.Map.{Map, lookup, remove}
use aperip_nomos.Map.Laws.{lookup-remove}

-- the bytes of all values
abbrev pub total : Map Text → ℕ
total [] = 0
total ((k, v) ∷ m) = byte_len v + total m

abbrev pub IsDistinct : Map Text → Type 0
IsDistinct [] = Unit
IsDistinct ((k, v) ∷ m) = (lookup k m ≡ none) × IsDistinct m

pub remove_absent : (k : Text) (m : Map Text) → lookup k m ≡ none → remove k m ≡ m
unfolding lookup remove
remove_absent k [] h = refl
remove_absent k ((j, v) ∷ m) h = ground (arith, remove_absent k m)

pub remove_comm : (j k : Text) (m : Map Text) → remove j (remove k m) ≡ remove k (remove j m)
unfolding remove
remove_comm j k [] = refl
remove_comm j k ((i, v) ∷ m) = ground (arith, remove_comm j k m)

pub remove-IsDistinct : (k : Text) (m : Map Text) → IsDistinct m → IsDistinct (remove k m)
unfolding remove
remove-IsDistinct k [] d = tt
remove-IsDistinct k ((j, v) ∷ m) d = elim (Bool-cases (text_eq j k)) [
  | inl same ↦ rw same (remove-IsDistinct k m d.1)
  | inr apart ↦ rw apart (ground (arith, d.0, lookup-remove k j m), remove-IsDistinct k m d.1)
]

-- taking out an entry takes its bytes and one place
pub remove-total :
    (k v : Text) (m : Map Text)
    → IsDistinct m
    → lookup k m ≡ some v
    → (total (remove k m) + byte_len v ≡ total m) × (suc (length (remove k m)) ≡ length m)
unfolding lookup remove
remove-total k v [] d h = cc
remove-total k v ((j, w) ∷ m) d h = elim (Bool-cases (text_eq j k)) [
  | inl same ↦
      let gone = remove_absent k m (ground (arith, d.0, text_eq_iff j k)) in
      let value : w ≡ v = ground arith in rw (same, gone, value) (omega arith, refl)
  | inr apart ↦
      let rest = remove-total k v m d.1 (ground arith) in
      rw apart (omega (arith, rest.0), omega (arith, rest.1))
]
