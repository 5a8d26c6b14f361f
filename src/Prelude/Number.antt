-- ===== src/Prelude/Number.antt =====
-- JavaScript numbers whose finite values are whole numbers of a fixed unit. Doubles hold these
-- exactly up to 2^53, so no rounding is modelled; NaN and the infinities compare as in IEEE 754.
use research_crafters.Prelude.Tests.{if◌then◌else◌, leb, ltb}
use Prim.Native.Nat.{ℕ, suc, ◌+◌, ◌-◌}
use mathlib.Core.Bool.{Bool, true, false, not}

-- `negsuc n` is -(n + 1).
pub data ℤ : Type 0 where
  pos : ℕ → ℤ
  negsuc : ℕ → ℤ

pub data Number : Type 0 where
  nan pos_inf neg_inf : Number
  int : ℤ → Number

abbrev pub pos_part : ℤ → ℕ
pos_part (pos n) = n
pos_part (negsuc n) = 0

abbrev pub neg_part : ℤ → ℕ
neg_part (pos n) = 0
neg_part (negsuc n) = suc n

abbrev pub sub_ℕ : ℕ → ℕ → ℤ
sub_ℕ a b = if leb b a then pos (a - b) else negsuc (b - a - 1)

infixl 65 ◌-ℤ◌
unfoldable pub ◌-ℤ◌ : ℤ → ℤ → ℤ
a -ℤ b = sub_ℕ (pos_part a + neg_part b) (neg_part a + pos_part b)

abbrev pub ltb_ℤ : ℤ → ℤ → Bool
ltb_ℤ a b = ltb (pos_part a + neg_part b) (pos_part b + neg_part a)

-- `Number.isFinite(x)`
abbrev pub is_finite : Number → Bool
is_finite (int x) = true
is_finite _ = false

-- `a < b`
abbrev pub ltb_number : Number → Number → Bool
ltb_number (int a) (int b) = ltb_ℤ a b
ltb_number (int a) pos_inf = true
ltb_number neg_inf (int b) = true
ltb_number neg_inf pos_inf = true
ltb_number _ _ = false

infixl 65 ◌+ℤ◌
unfoldable pub ◌+ℤ◌ : ℤ → ℤ → ℤ
a +ℤ b = sub_ℕ (pos_part a + pos_part b) (neg_part a + neg_part b)

-- `Math.abs(x)`
abbrev pub abs_ℤ : ℤ → ℕ
abs_ℤ x = pos_part x + neg_part x

-- `a + b`
abbrev pub add_number : Number → Number → Number
add_number (int a) (int b) = int (a +ℤ b)
add_number (int a) b = b
add_number a (int b) = a
add_number pos_inf pos_inf = pos_inf
add_number neg_inf neg_inf = neg_inf
add_number _ _ = nan

-- `a <= b`
abbrev pub leb_number : Number → Number → Bool
leb_number (int a) (int b) = not (ltb_ℤ b a)
leb_number (int a) pos_inf = true
leb_number neg_inf (int b) = true
leb_number neg_inf pos_inf = true
leb_number neg_inf neg_inf = true
leb_number pos_inf pos_inf = true
leb_number _ _ = false
