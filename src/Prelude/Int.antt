-- ===== src/Prelude/Int.antt =====
-- Go's `int` as an integer over the native numbers, and what an addition of 64 bits leaves of a sum.
use Prim.Native.Nat.{ℕ, suc, ◌+◌, ◌-◌, ◌≤◌, ◌<◌}
use mathlib.Core.Path.{◌≡◌, refl}
use mathlib.Core.Bool.{Bool}
use native.Mathlib.Omega.{arith}
use ppchat.Prelude.Tests.{ltb, leb, if◌then◌else◌}

-- `negsuc n` is -(n + 1).
pub data ℤ : Type 0 where
  pos : ℕ → ℤ
  negsuc : ℕ → ℤ

abbrev pub pos_part : ℤ → ℕ
pos_part (pos n) = n
pos_part (negsuc n) = 0

abbrev pub neg_part : ℤ → ℕ
neg_part (pos n) = 0
neg_part (negsuc n) = suc n

abbrev pub sub_ℕ : ℕ → ℕ → ℤ
sub_ℕ a b = if leb b a then pos (a - b) else negsuc (b - a - 1)

infixl 65 ◌+ℤ◌ ◌-ℤ◌
infix 50 ◌<ℤ◌ ◌≤ℤ◌
unfoldable pub ◌+ℤ◌ : ℤ → ℤ → ℤ
a +ℤ b = sub_ℕ (pos_part a + pos_part b) (neg_part a + neg_part b)

unfoldable pub ◌-ℤ◌ : ℤ → ℤ → ℤ
a -ℤ b = sub_ℕ (pos_part a + neg_part b) (neg_part a + pos_part b)

abbrev pub ◌≤ℤ◌ : ℤ → ℤ → Type 0
a ≤ℤ b = pos_part a + neg_part b ≤ pos_part b + neg_part a

abbrev pub ◌<ℤ◌ : ℤ → ℤ → Type 0
a <ℤ b = pos_part a + neg_part b < pos_part b + neg_part a

abbrev pub ltb_ℤ : ℤ → ℤ → Bool
ltb_ℤ a b = ltb (pos_part a + neg_part b) (pos_part b + neg_part a)

-- The sum or difference of two numbers of 64 bits, wrapped around.
unfoldable pub wrap64 : ℤ → ℤ
wrap64 a =
    if ltb_ℤ a (pos 9223372036854775808)
    then (if ltb (neg_part a) 9223372036854775809 then a else a +ℤ pos 18446744073709551616)
    else a -ℤ pos 18446744073709551616

pub +ℤ_parts :
    (a b : ℤ)
    → pos_part (a +ℤ b) + neg_part a + neg_part b ≡ neg_part (a +ℤ b) + pos_part a + pos_part b
unfolding ◌+ℤ◌
+ℤ_parts a b = ground arith

pub -ℤ_parts :
    (a b : ℤ)
    → pos_part (a -ℤ b) + neg_part a + pos_part b ≡ neg_part (a -ℤ b) + pos_part a + neg_part b
unfolding ◌-ℤ◌
-ℤ_parts a b = ground arith

pub eq_of_parts : (a b : ℤ) → pos_part a + neg_part b ≡ pos_part b + neg_part a → a ≡ b
eq_of_parts a b h = ground arith

pub ruleset int_laws = (arith, +ℤ_parts, -ℤ_parts, eq_of_parts)

pub wrap64_of-lt :
    (a : ℤ) → pos_part a < 9223372036854775808 → neg_part a < 9223372036854775809 → wrap64 a ≡ a
unfolding wrap64
wrap64_of-lt a h k = ground arith

pub +ℤ_le :
    (a b : ℤ)
    → (pos_part (a +ℤ b) ≤ pos_part a + pos_part b) × (neg_part (a +ℤ b) ≤ neg_part a + neg_part b)
unfolding ◌+ℤ◌
+ℤ_le a b = (ground arith, ground arith)

pub -ℤ_le :
    (a b : ℤ)
    → (pos_part (a -ℤ b) ≤ pos_part a + neg_part b) × (neg_part (a -ℤ b) ≤ neg_part a + pos_part b)
unfolding ◌-ℤ◌
-ℤ_le a b = (ground arith, ground arith)

pub pos-add : (a b : ℕ) → pos a +ℤ pos b ≡ pos (a + b)
pos-add a b = omega int_laws

pub neg_part_of-lt : (a : ℤ) → pos 0 <ℤ a → neg_part a ≡ 0
neg_part_of-lt (pos n) h = refl
neg_part_of-lt (negsuc n) h = absurd (omega arith)

pub pos_part_of-le : (a : ℤ) → a ≤ℤ pos 0 → pos_part a ≡ 0
pos_part_of-le (pos n) h = omega arith
pos_part_of-le (negsuc n) h = refl

pub neg_part_of-le : (a : ℤ) → neg_part a ≤ pos_part a → neg_part a ≡ 0
neg_part_of-le (pos n) h = refl
neg_part_of-le (negsuc n) h = absurd (omega arith)
