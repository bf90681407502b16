-- ===== src/Store/Load/Append.antt =====
-- Loading a table with one more row at its end, and the ids below the next id.
use aperip_nomos.Prelude.{◌≡◌, refl, List, [], ◌∷◌, ◌++◌, some, arith, Option-cases, inl, inr}
use aperip_nomos.Prelude.Int.{ℤ, ◌≤ℤ◌, ◌<ℤ◌, checked_add_one, checked_add_one-lt}
use aperip_nomos.Prelude.Result.{Result, ok, err, Result-cases, >>=-eq-ok, ◌>>=◌ as bind}
use aperip_nomos.Domain.{LicenseDocument}
use aperip_nomos.Sql.Reading.{Row}
use aperip_nomos.Map.{Map}
use aperip_nomos.Database.{Crates, row_id, insert_row}
use aperip_nomos.Store.Load.{decode_document, load_document, load_row, load_from}
use aperip_nomos.Store.Load.Rows.{decode_document-columns}

-- every row has an id below `n`
abbrev pub AllBelow : ℤ → List Row → Type 0
AllBelow n [] = Unit
AllBelow n (r ∷ t) = ((i : ℤ) × (row_id r ≡ some i) × (i <ℤ n)) × AllBelow n t

pub AllBelow-mono : (n m : ℤ) (t : List Row) → n ≤ℤ m → AllBelow n t → AllBelow m t
AllBelow-mono n m [] l h = tt
AllBelow-mono n m (r ∷ t) l ((i, e, b), h) = ((i, e, omega arith), AllBelow-mono n m t l h)

-- a row whose id is not below any other goes to the end
pub insert_row_last :
    (i : ℤ) (r : Row) (t : List Row)
    → row_id r ≡ some i
    → AllBelow i t
    → insert_row r t ≡ t ++ r ∷ []
unfolding insert_row
insert_row_last i r [] e h = refl
insert_row_last i r (s ∷ t) e ((j, k, l), h) = ground (arith, insert_row_last i r t e h)

module _ (x : Crates) where
  Loaded : Type 0
  Loaded = Map LicenseDocument × ℤ

  pub load_from-append :
      (m : Map LicenseDocument) (n : ℤ) (t : List Row) (r : Row)
      → load_from x m n (t ++ r ∷ []) ≡ bind (load_from x m n t) (λ (m', n'). load_row x m' n' r)
  unfolding load_from
  load_from-append m n [] r = last (load_row x m n r)
    where
      last : {E A : Type 0} (q : Result E (A × ℤ)) → bind q (λ (a, b). ok (a, b)) ≡ q
      last (ok p) = refl
      last (err e) = refl
  load_from-append m n (s ∷ t) r = elim (Result-cases (load_row x m n s)) [
    | inl ((m', n'), e) ↦ rw e (load_from-append m' n' t r)
    | inr (f, e) ↦ rw e
  ]

  -- what one loaded row tells
  pub load_row_inv :
      (m : Map LicenseDocument) (n : ℤ) (r : Row) (m' : Map LicenseDocument) (n' : ℤ)
      → load_row x m n r ≡ ok (m', n')
      → (d : LicenseDocument) × (decode_document x r ≡ ok d) × (load_document x m n d ≡ ok (m', n'))
  unfolding load_row
  load_row_inv m n r m' n' h = >>=-eq-ok (decode_document x r) _ h

  load_document-bound :
      (m : Map LicenseDocument) (n : ℤ) (d : LicenseDocument) (m' : Map LicenseDocument) (n' : ℤ)
      → load_document x m n d ≡ ok (m', n')
      → (n ≤ℤ n') × (d.id <ℤ n')
  unfolding load_document
  load_document-bound m n d m' n' h = elim (Option-cases (checked_add_one d.id)) [
    | inl e ↦ absurd (ground arith)
    | inr (a, e) ↦ let l = checked_add_one-lt d.id a e in ground arith
  ]

  -- Every id of a loaded table is below the next id that the load returns.
  pub load_from-AllBelow :
      (m : Map LicenseDocument) (n : ℤ) (t : List Row) (m' : Map LicenseDocument) (n' : ℤ)
      → load_from x m n t ≡ ok (m', n')
      → (n ≤ℤ n') × AllBelow n' t
  unfolding load_from
  load_from-AllBelow m n [] m' n' h = (ground arith, tt)
  load_from-AllBelow m n (r ∷ t) m' n' h =
      let ((m₁, n₁), e, k) = >>=-eq-ok (load_row x m n r) _ h in
      let (d, f, g) = load_row_inv m n r m₁ n₁ e in
      let (below, rest) = load_from-AllBelow m₁ n₁ t m' n' k in
      let (step, own) = load_document-bound m n d m₁ n₁ g in
      (omega arith, ((d.id, (decode_document-columns x r d f).0, omega arith), rest))
