-- ===== src/Store/Load/Delete.antt =====
-- Loading a table from which the rows of a slug were deleted.
use aperip_nomos.Prelude.{
  ◌≡◌, refl, List, [], ◌∷◌, none, some, arith, Option-cases, Bool-cases, inl, inr, if◌then◌else◌,
}
use aperip_nomos.Prelude.Int.{ℤ, ◌≤ℤ◌, checked_add_one, max_ℤ}
use aperip_nomos.Prelude.Result.{ok, >>=-eq-ok}
use aperip_nomos.Text.{Text, text_eq}
use aperip_nomos.Text.Equality.{text_eq_iff}
use aperip_nomos.Domain.{LicenseDocument}
use aperip_nomos.Sql.Reading.{Row}
use aperip_nomos.Map.{Map, lookup, insert}
use aperip_nomos.Map.Laws.{lookup-insert, contains_key-eq-false}
use aperip_nomos.Database.{Crates, delete_rows}
use aperip_nomos.Store.Load.{decode_document, load_document, load_row, load_from}
use aperip_nomos.Store.Load.Rows.{decode_document-columns}
use aperip_nomos.Store.Load.Append.{load_row_inv}

-- the one map shows what the other does, but for the slug
abbrev pub SameBut : Text → Map LicenseDocument → Map LicenseDocument → Type 0
SameBut slug m' m = (j : Text) → lookup j m' ≡ (if text_eq slug j then none else lookup j m)

max_mono : (a b c : ℤ) → a ≤ℤ b → max_ℤ a c ≤ℤ max_ℤ b c
max_mono a b c h = ground arith

max_above : (a b c : ℤ) → a ≤ℤ b → a ≤ℤ max_ℤ b c
max_above a b c h = ground arith

module _ (x : Crates) where
  pub load_document_inv :
      (m : Map LicenseDocument) (n : ℤ) (d : LicenseDocument) (m' : Map LicenseDocument) (n' : ℤ)
      → load_document x m n d ≡ ok (m', n')
      → (a : ℤ) × (checked_add_one d.id ≡ some a)
        × (lookup d.slug m ≡ none)
        × (m' ≡ insert d.slug d m)
        × (n' ≡ max_ℤ n a)
  unfolding load_document
  load_document_inv m n d m' n' h = elim (Option-cases (checked_add_one d.id)) [
    | inl e ↦ absurd (ground arith)
    | inr (a, e) ↦
        let absent = contains_key-eq-false d.slug m in
        (a, e, ground arith, ground arith, ground arith)
  ]

  pub load_document_new :
      (m : Map LicenseDocument) (n : ℤ) (d : LicenseDocument) (a : ℤ)
      → checked_add_one d.id ≡ some a
      → lookup d.slug m ≡ none
      → load_document x m n d ≡ ok (insert d.slug d m, max_ℤ n a)
  unfolding load_document
  load_document_new m n d a e absent = rw ((contains_key-eq-false d.slug m).1 absent, e)

  pub load_row_new :
      (m : Map LicenseDocument) (n : ℤ) (r : Row) (d : LicenseDocument) (a : ℤ)
      → decode_document x r ≡ ok d
      → checked_add_one d.id ≡ some a
      → lookup d.slug m ≡ none
      → load_row x m n r ≡ ok (insert d.slug d m, max_ℤ n a)
  unfolding load_row
  load_row_new m n r d a f e absent = rw f (load_document_new m n d a e absent)

  -- A table without the rows of a slug loads whenever the table does, to the map without that slug.
  pub load_from-delete_rows :
      (slug : Text) (t : List Row) (m m' : Map LicenseDocument) (n n' : ℤ)
      (m₁ : Map LicenseDocument) (n₁ : ℤ)
      → load_from x m n t ≡ ok (m₁, n₁)
      → SameBut slug m' m
      → n' ≤ℤ n
      → (m₂ : Map LicenseDocument) × (n₂ : ℤ) × (load_from x m' n' (delete_rows slug t)
          ≡ ok (m₂, n₂))
        × SameBut slug m₂ m₁
        × (n₂ ≤ℤ n₁)
  unfolding load_from delete_rows
  load_from-delete_rows slug [] m m' n n' m₁ n₁ h same l =
      (m', n', refl, λ j. ground (arith, same j), ground arith)
  load_from-delete_rows slug (r ∷ t) m m' n n' m₁ n₁ h same l =
      let ((mₐ, nₐ), e, k) = >>=-eq-ok (load_row x m n r) _ h in
      let (d, f, g) = load_row_inv x m n r mₐ nₐ e in
      let (a, next, absent, inserted, bound) = load_document_inv m n d mₐ nₐ g in
      let columns = decode_document-columns x r d f in
      elim (Bool-cases (text_eq d.slug slug)) [
        | inl gone ↦
            rw (columns.1 slug, gone)
              (load_from-delete_rows slug t mₐ m' nₐ n' m₁ n₁ k
                (λ j. rw inserted (
                  ground (
                    arith,
                    same j,
                    lookup-insert d.slug j d m,
                    text_eq_iff d.slug slug,
                    text_eq_iff d.slug j,
                    text_eq_iff slug j,
                  )))
                (rw bound (max_above n' n a l)))
        | inr other ↦
            let kept : lookup d.slug m' ≡ none =
              ground (arith, same d.slug, text_eq_iff d.slug slug, text_eq_iff slug d.slug) in
            rw (columns.1 slug, other, load_row_new m' n' r d a f next kept)
              (load_from-delete_rows slug t mₐ (insert d.slug d m') nₐ (max_ℤ n' a) m₁ n₁ k
                (λ j. rw inserted (
                  ground (
                    arith,
                    same j,
                    lookup-insert d.slug j d m,
                    lookup-insert d.slug j d m',
                    text_eq_iff d.slug slug,
                    text_eq_iff d.slug j,
                    text_eq_iff slug j,
                  )))
                (rw bound (max_mono n' n a l)))
      ]
