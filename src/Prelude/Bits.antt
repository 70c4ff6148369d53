-- ===== src/Prelude/Bits.antt =====
-- Laws of `bit_xor` at every width, from its digits.
use Prim.Native.Nat.{bit_xor, bit_xor-bitwise, differ, digits}
use native.Mathlib.Nat.{pow-suc}
use rdt_mail_service.Prelude.{ℕ, zero, suc, ◌+◌, ◌*◌, ◌/◌, ◌%◌, ◌^◌, ◌≤◌, ◌<◌, ◌≡◌, refl, arith}

-- The fuel of the digit recursion does not matter once it covers the first number.
xor_fuel :
    (n m a b : ℕ) → a ≤ n → a ≤ m → digits (λ y. y) differ n a b ≡ digits (λ y. y) differ m a b
xor_fuel zero zero a b h k = refl
xor_fuel zero (suc m) zero b h k = refl
xor_fuel zero (suc m) (suc a) b h k = absurd (omega arith)
xor_fuel (suc n) zero zero b h k = refl
xor_fuel (suc n) zero (suc a) b h k = absurd (omega arith)
xor_fuel (suc n) (suc m) zero b h k = refl
xor_fuel (suc n) (suc m) (suc a) b h k =
    rw (xor_fuel n m (suc a / 2) (b / 2) (omega arith) (omega arith))

zero-bit_xor : (b : ℕ) → bit_xor 0 b ≡ b
zero-bit_xor b = bit_xor-bitwise 0 b

differ_parity : (d e : ℕ) → d < 2 → e < 2 → differ d e ≡ (d + e) % 2
differ_parity zero zero h k = refl
differ_parity zero (suc zero) h k = refl
differ_parity (suc zero) zero h k = refl
differ_parity (suc zero) (suc zero) h k = refl
differ_parity (suc (suc d)) e h k = absurd (omega arith)
differ_parity zero (suc (suc e)) h k = absurd (omega arith)
differ_parity (suc zero) (suc (suc e)) h k = absurd (omega arith)

-- The lowest digit of an exclusive or, and the rest.
pub bit_xor_step : (a b : ℕ) → bit_xor a b ≡ bit_xor (a / 2) (b / 2) * 2 + (a + b) % 2
bit_xor_step zero b = omega (arith, zero-bit_xor b, zero-bit_xor (b / 2))
bit_xor_step (suc a) b = omega (
  arith,
  bit_xor-bitwise (suc a) b,
  bit_xor-bitwise (suc a / 2) (b / 2),
  xor_fuel a (suc a / 2) (suc a / 2) (b / 2) (omega arith) (omega arith),
  differ_parity (suc a % 2) (b % 2) (omega arith) (omega arith),
)

cancel_below : (n a b p : ℕ) → a ≤ n → b ≤ n → bit_xor a p ≡ bit_xor b p → a ≡ b
cancel_below zero a b p h k e = omega arith
cancel_below (suc n) zero zero p h k e = refl
cancel_below (suc n) a b p h k e = omega (
  arith,
  bit_xor_step a p,
  bit_xor_step b p,
  cancel_below n (a / 2) (b / 2) (p / 2) (omega arith) (omega arith)
      (omega (arith, bit_xor_step a p, bit_xor_step b p)),
)

-- Exclusive or with a fixed mask is injective.
pub bit_xor_cancel : (a b p : ℕ) → bit_xor a p ≡ bit_xor b p → a ≡ b
bit_xor_cancel a b p e = cancel_below (a + b) a b p (omega arith) (omega arith) e

comm_below : (n a b : ℕ) → a ≤ n → b ≤ n → bit_xor a b ≡ bit_xor b a
comm_below zero zero zero h k = refl
comm_below zero zero (suc b) h k = absurd (omega arith)
comm_below zero (suc a) b h k = absurd (omega arith)
comm_below (suc n) a b h k = omega (
  arith,
  bit_xor_step a b,
  bit_xor_step b a,
  comm_below n (a / 2) (b / 2) (omega arith) (omega arith),
)

-- Exclusive or does not depend on the order of its operands.
pub bit_xor_comm : (a b : ℕ) → bit_xor a b ≡ bit_xor b a
bit_xor_comm a b = comm_below (a + b) a b (omega arith) (omega arith)

-- The result stays within the width of the operands.
pub bit_xor-lt : (k a b : ℕ) → a < 2 ^ k → b < 2 ^ k → bit_xor a b < 2 ^ k
bit_xor-lt zero zero b h i = omega (arith, zero-bit_xor b)
bit_xor-lt zero (suc a) b h i = absurd (omega arith)
bit_xor-lt (suc k) a b h i = omega (
  arith,
  bit_xor_step a b,
  pow-suc 2 k,
  bit_xor-lt k (a / 2) (b / 2) (omega (arith, pow-suc 2 k)) (omega (arith, pow-suc 2 k)),
)

-- A mask whose highest bit lies above the other operand keeps that bit.
pub le-bit_xor : (k a p : ℕ) → a < 2 ^ k → 2 ^ k ≤ p → p < 2 ^ suc k → 2 ^ k ≤ bit_xor a p
le-bit_xor zero zero p h i j = omega (arith, zero-bit_xor p)
le-bit_xor zero (suc a) p h i j = absurd (omega arith)
le-bit_xor (suc k) a p h i j = omega (
  arith,
  bit_xor_step a p,
  pow-suc 2 k,
  pow-suc 2 (suc k),
  le-bit_xor k (a / 2) (p / 2) (omega (arith, pow-suc 2 k)) (omega (arith, pow-suc 2 k))
      (omega (arith, pow-suc 2 k, pow-suc 2 (suc k))),
)
