-- ===== src/Base/Bits.antt =====
-- When `|` and `^` on numbers are 0, for the byte comparison that takes the same time on every
-- input.
use Prim.Native.Nat.{
  ℕ, zero, suc, ◌/◌, ◌%◌, ◌≤◌, max, bit_or, bit_xor, digits, differ, bit_or-bitwise,
  bit_xor-bitwise,
}
use mathlib.Core.Path.{◌≡◌, refl}
use native.Mathlib.Omega.{arith}

or_digits-zero : (n a b : ℕ) → a ≤ n → digits (λ b. b) max n a b ≡ 0 → (a ≡ 0) × (b ≡ 0)
or_digits-zero zero zero b h e = (refl, e)
or_digits-zero zero (suc a) b h e = absurd (omega arith)
or_digits-zero (suc n) zero b h e = (refl, e)
or_digits-zero (suc n) (suc a) b h e =
    let parts = or_digits-zero n (suc a / 2) (b / 2) (omega arith) (omega arith) in
    absurd (omega arith)

differ-zero : (x y : ℕ) → differ x y ≡ 0 → x ≡ y
differ-zero zero y e = omega arith
differ-zero (suc x) zero e = absurd (omega arith)
differ-zero (suc x) (suc y) e = omega (arith, differ-zero x y e)

xor_digits-zero : (n a b : ℕ) → a ≤ n → digits (λ b. b) differ n a b ≡ 0 → a ≡ b
xor_digits-zero zero zero b h e = omega arith
xor_digits-zero zero (suc a) b h e = absurd (omega arith)
xor_digits-zero (suc n) zero b h e = omega arith
xor_digits-zero (suc n) (suc a) b h e =
    let low = differ-zero (suc a % 2) (b % 2) (omega arith) in
    let high = xor_digits-zero n (suc a / 2) (b / 2) (omega arith) (omega arith) in omega arith

pub bit_or-zero : (a b : ℕ) → bit_or a b ≡ 0 → (a ≡ 0) × (b ≡ 0)
bit_or-zero a b h = or_digits-zero a a b (omega arith) (omega (arith, bit_or-bitwise a b))

pub bit_xor-zero : (a b : ℕ) → bit_xor a b ≡ 0 → a ≡ b
bit_xor-zero a b h = xor_digits-zero a a b (omega arith) (omega (arith, bit_xor-bitwise a b))

differ_self : (x : ℕ) → differ x x ≡ 0
differ_self zero = refl
differ_self (suc x) = differ_self x

xor_digits_self : (n a : ℕ) → a ≤ n → digits (λ b. b) differ n a a ≡ 0
xor_digits_self zero zero h = refl
xor_digits_self zero (suc a) h = absurd (omega arith)
xor_digits_self (suc n) zero h = refl
xor_digits_self (suc n) (suc a) h =
    omega (arith, xor_digits_self n (suc a / 2) (omega arith), differ_self (suc a % 2))

pub bit_xor_self : (a : ℕ) → bit_xor a a ≡ 0
bit_xor_self a = omega (arith, bit_xor-bitwise a a, xor_digits_self a a (omega arith))
