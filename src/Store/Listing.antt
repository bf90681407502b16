-- ===== src/Store/Listing.antt =====
-- `list` of src/store.rs: the license of every document, sorted by title, then by slug.
use mathlib.Core.List.{Perm}
use mathlib.Core.List.Perm as Permutation
use aperip_nomos.Prelude.{
  ℕ, ◌<◌, ltb, ◌⊎◌, ◌≡◌, false, true, inl, inr, List, [], ◌∷◌, some, map, arith, Bool-cases,
}
use aperip_nomos.Prelude.Result.{ok}
use aperip_nomos.Text.{Text}
use aperip_nomos.Text.Order.{text_lt, text_lt_total, text_lt_asymm}
use aperip_nomos.Domain.{LicenseMetadata, metadata}
use aperip_nomos.Map.{values}
use aperip_nomos.Database.{Crates}
use aperip_nomos.Store.State.{DatabaseState, StoreCore}
use aperip_nomos.Store.Core.{listed_after, insert_sorted, sort_listed, list}

-- The order of words in a dictionary, by code points.
pub data Before : Text → Text → Type 0 where
  shorter : (d : ℕ) (t : Text) → Before [] (d ∷ t)
  smaller : (c d : ℕ) (s t : Text) → c < d → Before (c ∷ s) (d ∷ t)
  same_head : (c : ℕ) (s t : Text) → Before s t → Before (c ∷ s) (c ∷ t)

-- by title, and by slug where the titles are equal
abbrev pub InOrder : LicenseMetadata → LicenseMetadata → Type 0
InOrder a b =
    Before a.title b.title ⊎ ((a.title ≡ b.title) × (Before a.slug b.slug ⊎ (a.slug ≡ b.slug)))

-- each entry is in order with the next one
abbrev pub IsListed : List LicenseMetadata → Type 0
IsListed [] = Unit
IsListed (a ∷ []) = Unit
IsListed (a ∷ b ∷ l) = InOrder a b × IsListed (b ∷ l)

text_lt-Before : (s t : Text) → text_lt s t ≡ true → Before s t
unfolding text_lt
text_lt-Before [] [] h = cc
text_lt-Before [] (d ∷ t) h = shorter d t
text_lt-Before (c ∷ s) [] h = cc
text_lt-Before (c ∷ s) (d ∷ t) h = elim (Bool-cases (ltb c d)) [
  | inl less ↦ smaller c d s t (ground arith)
  | inr other ↦
      let same : c ≡ d = ground arith in
      let rest : text_lt s t ≡ true = ground arith in
      rw same (same_head d s t (text_lt-Before s t rest))
]

-- the comparison of `list` finds nothing wrong with texts in order
text_order : (s t : Text) → text_lt t s ≡ false → Before s t ⊎ (s ≡ t)
text_order s t h = elim (Bool-cases (text_lt s t)) [
  | inl less ↦ inl (text_lt-Before s t less)
  | inr other ↦ inr (text_lt_total s t other h)
]

listed_after-InOrder : (a b : LicenseMetadata) → listed_after a b ≡ false → InOrder a b
unfolding listed_after
listed_after-InOrder a b h = elim (Bool-cases (text_lt a.title b.title)) [
  | inl less ↦ inl (text_lt-Before a.title b.title less)
  | inr other ↦
      let not_after : text_lt b.title a.title ≡ false = ground arith in
      let slugs : text_lt b.slug a.slug ≡ false = ground arith in
      inr (text_lt_total a.title b.title other not_after, text_order a.slug b.slug slugs)
]

listed_after_asymm : (a b : LicenseMetadata) → listed_after a b ≡ true → listed_after b a ≡ false
unfolding listed_after
listed_after_asymm a b h =
    ground (arith, text_lt_asymm b.title a.title, text_lt_asymm b.slug a.slug)

InOrder-of_after : (a b : LicenseMetadata) → listed_after a b ≡ true → InOrder b a
InOrder-of_after a b h = listed_after-InOrder b a (listed_after_asymm a b h)

insert_sorted-IsListed :
    (a : LicenseMetadata) (l : List LicenseMetadata) → IsListed l → IsListed (insert_sorted a l)
unfolding insert_sorted
insert_sorted-IsListed a [] h = tt
insert_sorted-IsListed a (b ∷ []) h = elim (Bool-cases (listed_after a b)) [
  | inl after ↦ rw after (InOrder-of_after a b after, tt)
  | inr before ↦ rw before (listed_after-InOrder a b before, tt)
]
insert_sorted-IsListed a (b ∷ c ∷ l) h = elim (Bool-cases (listed_after a b)) [
  | inr before ↦ rw before (listed_after-InOrder a b before, h)
  | inl after ↦
      let rest = insert_sorted-IsListed a (c ∷ l) h.1 in
      elim (Bool-cases (listed_after a c)) [
        | inl later ↦ rw (after, later) (h.0, rw later at rest)
        | inr sooner ↦
            rw (after, sooner) (InOrder-of_after a b after, (listed_after-InOrder a c sooner, h.1))
      ]
]

insert_sorted-Perm :
    (a : LicenseMetadata) (l : List LicenseMetadata) → Perm (insert_sorted a l) (a ∷ l)
unfolding insert_sorted
insert_sorted-Perm a [] = Permutation.rfl
insert_sorted-Perm a (b ∷ l) = elim (Bool-cases (listed_after a b)) [
  | inr before ↦ rw before Permutation.rfl
  | inl after ↦
      rw after
        (Permutation.trans (Permutation.cons b (insert_sorted-Perm a l)) (Permutation.swap a b l))
]

sort_listed-IsListed : (l : List LicenseMetadata) → IsListed (sort_listed l)
unfolding sort_listed
sort_listed-IsListed [] = tt
sort_listed-IsListed (a ∷ l) = insert_sorted-IsListed a (sort_listed l) (sort_listed-IsListed l)

sort_listed-Perm : (l : List LicenseMetadata) → Perm (sort_listed l) l
unfolding sort_listed
sort_listed-Perm [] = Permutation.nil
sort_listed-Perm (a ∷ l) =
    Permutation.trans (insert_sorted-Perm a (sort_listed l))
      (Permutation.cons a (sort_listed-Perm l))

-- If the state is open, `list` succeeds, and its result has the metadata of every document in memory,
-- each as often as it is there, in the order of titles, and of slugs where titles are equal; titles
-- and slugs are ordered as in a dictionary, by code points.
pub list-IsListed :
    (x : Crates) (core : StoreCore x.db) (state : DatabaseState x.db)
    → core.state ≡ some state
    → (l : List LicenseMetadata) × (list x core ≡ ok l)
      × IsListed l
      × Perm l (map metadata (values state.licenses))
unfolding list
list-IsListed x core state h =
    let l = map metadata (values state.licenses) in
    (sort_listed l, rw h, sort_listed-IsListed l, sort_listed-Perm l)
