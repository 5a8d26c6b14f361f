-- ===== src/Prelude/Bits.antt =====
-- When `^` and `|` of two numbers are zero.
use Prim.Native.Nat.{
  ℕ, zero, suc, ◌/◌, ◌%◌, ◌≤◌, bit_or, bit_or-bitwise, bit_xor, bit_xor-bitwise, differ, digits,
  max,
}
use mathlib.Core.Path.{◌≡◌, refl}
use mathlib.Core.Logic.{◌↔◌}
use native.Mathlib.Omega.{arith}

differ-same : (x y : ℕ) → differ x y ≡ 0 → x ≡ y
differ-same zero y h = omega (arith, h)
differ-same (suc x) zero h = omega (arith, h)
differ-same (suc x) (suc y) h = omega (arith, differ-same x y h)

differ_self : (x : ℕ) → differ x x ≡ 0
differ_self zero = refl
differ_self (suc x) = differ_self x

xor_digits : (n a b : ℕ) → a ≤ n → digits (λ (b : ℕ). b) differ n a b ≡ 0 → a ≡ b
xor_digits zero a b le h = omega (arith, h)
xor_digits (suc n) zero b le h = omega (arith, h)
xor_digits (suc n) (suc a) b le h =
    let high : digits (λ (b : ℕ). b) differ n (suc a / 2) (b / 2) ≡ 0 = omega (arith, h) in
    let low : differ (suc a % 2) (b % 2) ≡ 0 = omega (arith, h) in
    omega (
      arith,
      xor_digits n (suc a / 2) (b / 2) (omega arith) high,
      differ-same (suc a % 2) (b % 2) low,
    )

xor_digits_self : (n a : ℕ) → a ≤ n → digits (λ (b : ℕ). b) differ n a a ≡ 0
xor_digits_self zero a le = omega arith
xor_digits_self (suc n) zero le = refl
xor_digits_self (suc n) (suc a) le =
    omega (arith, xor_digits_self n (suc a / 2) (omega arith), differ_self (suc a % 2))

or_digits : (n a b : ℕ) → a ≤ n → digits (λ (b : ℕ). b) max n a b ≡ 0 → (a ≡ 0) × (b ≡ 0)
or_digits zero a b le h = (omega (arith, h), omega (arith, h))
or_digits (suc n) zero b le h = (refl, h)
or_digits (suc n) (suc a) b le h =
    let high : digits (λ (b : ℕ). b) max n (suc a / 2) (b / 2) ≡ 0 = omega (arith, h) in
    let low : max (suc a % 2) (b % 2) ≡ 0 = omega (arith, h) in
    let (p, q) = or_digits n (suc a / 2) (b / 2) (omega arith) high in
    (omega (arith, p, q, low), omega (arith, p, q, low))

bit_xor_self : (a : ℕ) → bit_xor a a ≡ 0
bit_xor_self a = rw (bit_xor-bitwise a a) (xor_digits_self a a (omega arith))

-- Two numbers differ in no bit exactly if they are equal.
pub bit_xor_iff : (a b : ℕ) → (bit_xor a b ≡ 0) ↔ (a ≡ b)
bit_xor_iff a b = (
  λ h. xor_digits a a b (omega arith) (rw (bit_xor-bitwise a b) at h),
  λ e. rw e (bit_xor_self b),
)

-- No bit is set in either of two numbers exactly if both are zero.
pub bit_or_iff : (a b : ℕ) → (bit_or a b ≡ 0) ↔ ((a ≡ 0) × (b ≡ 0))
bit_or_iff a b =
    (λ h. or_digits a a b (omega arith) (rw (bit_or-bitwise a b) at h), λ (p, q). rw (p, q) refl)
