-- ===== src/Prelude/Int.antt =====
-- Signed integers over the native numbers, and the 64-bit range of the program's `i64`.
use Prim.Native.Nat.{ℕ, suc, ◌+◌, ◌-◌, ◌/◌, ◌≤◌, ◌^◌}
use mathlib.Core.Path.{◌≡◌}
use mathlib.Core.Bool.{Bool}
use mathlib.Core.Option.{Option, none, some}
use native.Mathlib.Omega.{arith}
use aperip_nomos.Prelude.Tests.{leb, ltb, ◌==◌, if◌then◌else◌}

-- `negsuc n` is -(n + 1).
pub data ℤ : Type 0 where
  pos : ℕ → ℤ
  negsuc : ℕ → ℤ

abbrev pub pos_part : ℤ → ℕ
pos_part (pos n) = n
pos_part (negsuc n) = 0

abbrev pub neg_part : ℤ → ℕ
neg_part (pos n) = 0
neg_part (negsuc n) = suc n

abbrev pub sub_ℕ : ℕ → ℕ → ℤ
sub_ℕ a b = if leb b a then pos (a - b) else negsuc (b - a - 1)

infix 50 ◌≤ℤ◌ ◌<ℤ◌
abbrev pub ◌≤ℤ◌ : ℤ → ℤ → Type 0
a ≤ℤ b = pos_part a + neg_part b ≤ pos_part b + neg_part a

abbrev pub ◌<ℤ◌ : ℤ → ℤ → Type 0
a <ℤ b = pos_part a + neg_part b + 1 ≤ pos_part b + neg_part a

abbrev pub ltb_ℤ : ℤ → ℤ → Bool
ltb_ℤ a b = ltb (pos_part a + neg_part b) (pos_part b + neg_part a)

abbrev pub eq_ℤ : ℤ → ℤ → Bool
eq_ℤ a b = pos_part a + neg_part b == pos_part b + neg_part a

-- `i64::MAX`
abbrev pub i64_max : ℕ
i64_max = 2 ^ 63 - 1

-- `-k`
abbrev pub negate_ℕ : ℕ → ℤ
negate_ℕ k = sub_ℕ 0 k

-- division of a signed integer by a positive number, which rounds to zero
abbrev pub quot : ℤ → ℕ → ℤ
quot (pos n) d = pos (n / d)
quot (negsuc n) d = negate_ℕ (suc n / d)

-- `i64::try_from`
abbrev pub to_i64 : ℤ → Option ℤ
to_i64 (pos n) = if leb n i64_max then some (pos n) else none
to_i64 (negsuc n) = if leb n i64_max then some (negsuc n) else none

-- `a.checked_add(1)` on an `i64`
abbrev pub checked_add_one : ℤ → Option ℤ
checked_add_one (pos n) = if ltb n i64_max then some (pos (n + 1)) else none
checked_add_one (negsuc n) = some (sub_ℕ 0 n)

-- `a.max(b)` on an `i64`
abbrev pub max_ℤ : ℤ → ℤ → ℤ
max_ℤ a b = if ltb_ℤ a b then b else a

pub checked_add_one-lt : (a b : ℤ) → checked_add_one a ≡ some b → a <ℤ b
checked_add_one-lt a b h = ground arith
