-- ===== src/Map.antt =====
-- Rust's `BTreeMap<String, V>`: the entries in the order of their keys.
pub mod Laws
use aperip_nomos.Prelude.{Bool, true, false, List, [], ◌∷◌, Option, none, some, map, if◌then◌else◌}
use aperip_nomos.Text.{Text, text_eq}
use aperip_nomos.Text.Order.{text_lt}

abbrev pub Map {ℓ} : Type ℓ → Type ℓ
Map V = List (Text × V)

module _ {ℓ} {V : Type ℓ} where
  -- `get`
  unfoldable pub lookup : Text → Map V → Option V
  lookup k [] = none
  lookup k ((j, v) ∷ m) = if text_eq j k then some v else lookup k m

  abbrev is_some : Option V → Bool
  is_some none = false
  is_some (some v) = true

  unfoldable pub contains_key : Text → Map V → Bool
  unfolding lookup
  contains_key k m = is_some (lookup k m)

  -- the map after `insert`; its result is the old value of the key
  unfoldable pub insert : Text → V → Map V → Map V
  insert k v [] = (k, v) ∷ []
  insert k v ((j, w) ∷ m) =
      if text_lt k j
      then (k, v) ∷ (j, w) ∷ m
      else (if text_eq j k then (k, v) ∷ m else (j, w) ∷ insert k v m)

  -- the map after `remove`; its result is the old value of the key
  unfoldable pub remove : Text → Map V → Map V
  remove k [] = []
  remove k ((j, w) ∷ m) = let rest = remove k m in if text_eq j k then rest else (j, w) ∷ rest

  unfoldable pub values : Map V → List V
  values = map (λ e. e.1)
