-- ===== src/Prelude/Family.antt =====
-- Families indexed by the numbers, of which one member changes, and the sum of their first members.
use Prim.Native.Nat.{ℕ, zero, suc, ◌+◌, ◌≤◌, ◌<◌}
use mathlib.Core.Path.{◌≡◌, refl}
use mathlib.Core.Logic.{◌≢◌, inl, inr}
use native.Mathlib.Omega.{arith}
use aperip_nomos.Prelude.Tests.{◌==◌, ==_iff, if◌then◌else◌, Bool-cases, ltb, ltb→lt}

abbrev pub update {ℓ} : {A : Type ℓ} → (ℕ → A) → ℕ → A → ℕ → A
update f i a j = if i == j then a else f j

-- a property of every member, after one has changed
pub update_all {ℓ κ} :
    {A : Type ℓ} (P : A → Type κ) (f : ℕ → A) (i : ℕ) (a : A)
    → ((j : ℕ) → P (f j))
    → P a
    → (j : ℕ) → P (update f i a j)
update_all P f i a h p j = elim (Bool-cases (i == j)) [
  | inl same ↦ rw same p
  | inr other ↦ rw other (h j)
]

pub update_here {ℓ} : {A : Type ℓ} (f : ℕ → A) (i : ℕ) (a : A) → update f i a i ≡ a
update_here f i a = ground (arith, ==_iff i i)

pub update_there {ℓ} : {A : Type ℓ} (f : ℕ → A) (i j : ℕ) (a : A) → i ≢ j → update f i a j ≡ f j
update_there f i j a apart = elim (Bool-cases (i == j)) [
  | inl same ↦ absurd (apart ((==_iff i j).0 same))
  | inr other ↦ rw other refl
]

abbrev pub total : (ℕ → ℕ) → ℕ → ℕ
total w zero = 0
total w (suc n) = total w n + w n

total_same : (w w' : ℕ → ℕ) (n : ℕ) → ((j : ℕ) → j < n → w' j ≡ w j) → total w' n ≡ total w n
total_same w w' zero h = refl
total_same w w' (suc n) h =
    omega (arith, total_same w w' n (λ j k. h j (omega arith)), h n (omega arith))

total_mono : (w : ℕ → ℕ) (n m : ℕ) → n ≤ m → total w n ≤ total w m
total_mono w n zero h = let e : n ≡ 0 = omega arith in rw e (omega arith)
total_mono w n (suc m) h = elim (Bool-cases (n == suc m)) [
  | inl same ↦ let e = (==_iff n (suc m)).0 same in rw e (omega arith)
  | inr other ↦
      let apart : n ≢ suc m = λ e. let k = (==_iff n (suc m)).1 e in cc in
      omega (arith, total_mono w n m (omega arith))
]

-- the sum of more members than `i`, when only the one at `i` has changed
total_changed :
    (w w' : ℕ → ℕ) (i n : ℕ)
    → ((j : ℕ) → i ≢ j → w' j ≡ w j)
    → i < n
    → total w' n + w i ≡ total w n + w' i
total_changed w w' i zero h k = omega arith
total_changed w w' i (suc n) h k = elim (Bool-cases (i == n)) [
  | inl same ↦
      let e = (==_iff i n).0 same in
      rw e (omega (arith, total_same w w' n λ j l. h j (omega arith)))
  | inr other ↦
      let apart : i ≢ n = λ e. let l = (==_iff i n).1 e in cc in
      omega (arith, total_changed w w' i n h (omega arith), h n apart)
]

-- What the member at `i` gives up, others may have: a bound on the sum of the members with what is
-- free is kept.
pub total_bound :
    (w w' : ℕ → ℕ) (i free free' bound : ℕ)
    → ((j : ℕ) → i ≢ j → w' j ≡ w j)
    → w' i + free' ≡ w i + free
    → ((n : ℕ) → total w n + free ≤ bound)
    → (n : ℕ) → total w' n + free' ≤ bound
total_bound w w' i free free' bound h e b n = elim (Bool-cases (ltb i n)) [
  | inl more ↦ omega (arith, total_changed w w' i n h (ltb→lt i n more), b n)
  | inr fewer ↦
      let le : n ≤ i = ground arith in
      omega (arith, total_same w w' n (λ j k. h j (omega arith)), total_mono w n i le, b (suc i))
]
