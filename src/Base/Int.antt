-- ===== src/Base/Int.antt =====
-- Integers over the native numbers, for the source's i128 before its range check.
use Prim.Native.Nat.{ℕ, suc, ◌+◌, ◌-◌, ◌*◌, ◌/◌, ◌≤◌, ◌<◌}
use mathlib.Core.Path.{◌≡◌}
use mathlib.Core.Bool.{Bool, ◌&&◌}
use mathlib.Core.Option.{Option, none, some}
use native.Mathlib.Omega.{arith}
use pifp_stellar.Base.Tests.{ltb, leb, if◌then◌else◌}

-- `negsuc n` is -(n + 1).
pub data ℤ : Type 0 where
  pos : ℕ → ℤ
  negsuc : ℕ → ℤ

abbrev pub pos_part : ℤ → ℕ
pos_part (pos n) = n
pos_part (negsuc _) = 0

abbrev pub neg_part : ℤ → ℕ
neg_part (pos _) = 0
neg_part (negsuc n) = suc n

abbrev pub sub_ℕ : ℕ → ℕ → ℤ
sub_ℕ a b = if leb b a then pos (a - b) else negsuc (b - a - 1)

infixl 65 ◌+ℤ◌ ◌-ℤ◌
infixl 70 ◌*ℤ◌
infix 50 ◌≤ℤ◌ ◌<ℤ◌
unfoldable pub ◌+ℤ◌ : ℤ → ℤ → ℤ
a +ℤ b = sub_ℕ (pos_part a + pos_part b) (neg_part a + neg_part b)

unfoldable pub ◌-ℤ◌ : ℤ → ℤ → ℤ
a -ℤ b = sub_ℕ (pos_part a + neg_part b) (neg_part a + pos_part b)

abbrev pub neg_ℤ : ℤ → ℤ
neg_ℤ a = pos 0 -ℤ a

abbrev pub ◌≤ℤ◌ : ℤ → ℤ → Type 0
a ≤ℤ b = pos_part a + neg_part b ≤ pos_part b + neg_part a

abbrev pub ◌<ℤ◌ : ℤ → ℤ → Type 0
a <ℤ b = pos_part a + neg_part b < pos_part b + neg_part a

abbrev pub ltb_ℤ : ℤ → ℤ → Bool
ltb_ℤ a b = ltb (pos_part a + neg_part b) (pos_part b + neg_part a)

abbrev pub leb_ℤ : ℤ → ℤ → Bool
leb_ℤ a b = leb (pos_part a + neg_part b) (pos_part b + neg_part a)

abbrev pub eqb_ℤ : ℤ → ℤ → Bool
eqb_ℤ a b = leb_ℤ a b && leb_ℤ b a

-- With these the operations can stay shut.
pub +ℤ_parts :
    (a b : ℤ)
    → pos_part (a +ℤ b) + neg_part a + neg_part b ≡ neg_part (a +ℤ b) + pos_part a + pos_part b
unfolding ◌+ℤ◌
+ℤ_parts a b = ground arith

pub -ℤ_parts :
    (a b : ℤ)
    → pos_part (a -ℤ b) + neg_part a + pos_part b ≡ neg_part (a -ℤ b) + pos_part a + neg_part b
unfolding ◌-ℤ◌
-ℤ_parts a b = ground arith

pub eq_of_parts : (a b : ℤ) → pos_part a + neg_part b ≡ pos_part b + neg_part a → a ≡ b
eq_of_parts a b h = ground arith

pub ruleset int_laws = (arith, +ℤ_parts, -ℤ_parts, eq_of_parts)

-- The bounds of an i128.
abbrev pub i128_max : ℤ
i128_max = pos 0x7fff_ffff_ffff_ffff_ffff_ffff_ffff_ffff

abbrev pub i128_min : ℤ
i128_min = negsuc 0x7fff_ffff_ffff_ffff_ffff_ffff_ffff_ffff

unfoldable pub in_i128 : ℤ → Bool
in_i128 a = leb_ℤ i128_min a && leb_ℤ a i128_max

-- `i128::checked_add`.
unfoldable pub checked_add : ℤ → ℤ → Option ℤ
unfolding in_i128
checked_add a b = if in_i128 (a +ℤ b) then some (a +ℤ b) else none

pub checked_add-some : (a b : ℤ) {c : ℤ} → checked_add a b ≡ some c → (c ≡ a +ℤ b) × (c ≤ℤ i128_max)
unfolding checked_add
checked_add-some a b h = ground arith

-- A sum that stays between 0 and a value in range is in range.
pub checked_add_within :
    (a b : ℤ) → pos 0 ≤ℤ a +ℤ b → a +ℤ b ≤ℤ i128_max → checked_add a b ≡ some (a +ℤ b)
unfolding checked_add
checked_add_within a b l h = ground arith

-- `i128::checked_sub`.
unfoldable pub checked_sub : ℤ → ℤ → Option ℤ
unfolding in_i128
checked_sub a b = if in_i128 (a -ℤ b) then some (a -ℤ b) else none

unfoldable pub ◌*ℤ◌ : ℤ → ℤ → ℤ
a *ℤ b =
    sub_ℕ (pos_part a * pos_part b + neg_part a * neg_part b)
      (pos_part a * neg_part b + neg_part a * pos_part b)

-- `i128::checked_mul`.
unfoldable pub checked_mul : ℤ → ℤ → Option ℤ
unfolding in_i128
checked_mul a b = if in_i128 (a *ℤ b) then some (a *ℤ b) else none

-- `i128::checked_div` by a positive number: the quotient is cut off towards 0.
unfoldable pub checked_div : ℤ → ℕ → Option ℤ
unfolding ◌-ℤ◌
checked_div (pos n) d = if leb d 0 then none else some (pos (n / d))
checked_div (negsuc n) d = if leb d 0 then none else some (pos 0 -ℤ pos (suc n / d))
