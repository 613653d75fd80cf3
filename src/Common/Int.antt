-- ===== src/Common/Int.antt =====
-- Integers over the native numbers, by their two parts, and Go's int of 64 bits.
use Prim.Native.Nat.{ℕ, suc, ◌+◌, ◌-◌, ◌*◌, ◌%◌, ◌^◌, ◌≤◌, ◌<◌}
use mathlib.Core.Bool.{Bool, ◌&&◌}
use mathlib.Core.Path.{◌≡◌}
use native.Mathlib.Omega.{arith}
use pugtemplate.Common.Tests.{ltb, ◌==◌, if◌then◌else◌}

-- `negsuc n` is -(n + 1).
pub data ℤ : Type 0 where
  pos : ℕ → ℤ
  negsuc : ℕ → ℤ

abbrev pub pos_part : ℤ → ℕ
pos_part (pos n) = n
pos_part (negsuc n) = 0

abbrev pub neg_part : ℤ → ℕ
neg_part (pos n) = 0
neg_part (negsuc n) = suc n

-- The integer a - b.
abbrev pub sub_ℕ : ℕ → ℕ → ℤ
sub_ℕ a b = if ltb a b then negsuc (b - a - 1) else pos (a - b)

infixl 65 ◌+ℤ◌ ◌-ℤ◌
infixl 70 ◌*ℤ◌
unfoldable pub ◌+ℤ◌ : ℤ → ℤ → ℤ
x +ℤ y = sub_ℕ (pos_part x + pos_part y) (neg_part x + neg_part y)

unfoldable pub ◌-ℤ◌ : ℤ → ℤ → ℤ
x -ℤ y = sub_ℕ (pos_part x + neg_part y) (neg_part x + pos_part y)

unfoldable pub ◌*ℤ◌ : ℤ → ℤ → ℤ
x *ℤ y =
    sub_ℕ (pos_part x * pos_part y + neg_part x * neg_part y)
      (pos_part x * neg_part y + neg_part x * pos_part y)

abbrev pub ltb_ℤ : ℤ → ℤ → Bool
ltb_ℤ x y = ltb (pos_part x + neg_part y) (pos_part y + neg_part x)

abbrev pub eqb_ℤ : ℤ → ℤ → Bool
eqb_ℤ x y = (pos_part x == pos_part y) && (neg_part x == neg_part y)

-- The numbers of an int.
abbrev pub InRange : ℤ → Type 0
InRange x = (pos_part x < 2 ^ 63) × (neg_part x ≤ 2 ^ 63)

-- The number that an int holds in place of an integer: 64 bits, in two's complement.
unfoldable pub wrap64 : ℤ → ℤ
wrap64 x = sub_ℕ ((pos_part x + 2 ^ 63 + (2 ^ 64 - neg_part x % 2 ^ 64)) % 2 ^ 64) (2 ^ 63)

pub wrap64-InRange : (x : ℤ) → InRange (wrap64 x)
unfolding wrap64
wrap64-InRange x = ground arith

pub wrap64-of_InRange : (x : ℤ) → InRange x → wrap64 x ≡ x
unfolding wrap64
wrap64-of_InRange x h = ground arith

abbrev pub abs_ℤ : ℤ → ℕ
abs_ℤ x = pos_part x + neg_part x

-- Go's remainder, whose sign is that of the dividend; for a divisor other than zero.
unfoldable pub rem_ℤ : ℤ → ℤ → ℤ
rem_ℤ (pos n) y = pos (n % abs_ℤ y)
rem_ℤ (negsuc n) y = sub_ℕ 0 (suc n % abs_ℤ y)

pub abs_ℤ-rem_ℤ : (x y : ℤ) → abs_ℤ (rem_ℤ x y) ≡ abs_ℤ x % abs_ℤ y
unfolding rem_ℤ
abs_ℤ-rem_ℤ (pos n) y = ground arith
abs_ℤ-rem_ℤ (negsuc n) y = ground arith
