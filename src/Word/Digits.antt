-- ===== src/Word/Digits.antt =====
-- One equation for the lowest binary digit of each native operation, without its count of digits.
use Prim.Native.Nat.{
  min, max, digits, bitwise, differ, bit_and, bit_or, bit_xor, bit_and-bitwise, bit_or-bitwise,
  bit_xor-bitwise,
}
use csapp_code.Prelude.{ℕ, zero, suc, ◌+◌, ◌*◌, ◌/◌, ◌%◌, ◌≤◌, ◌≡◌, refl, arith}

module _ (z : ℕ → ℕ) (f : ℕ → ℕ → ℕ) where
  -- The count of digits to go does not matter once it is at least the first number.
  count_irrelevant : (k m a b : ℕ) → a ≤ k → a ≤ m → digits z f k a b ≡ digits z f m a b
  count_irrelevant zero zero a b p q = refl
  count_irrelevant zero (suc m) zero b p q = refl
  count_irrelevant (suc k) zero zero b p q = refl
  count_irrelevant (suc k) (suc m) zero b p q = refl
  count_irrelevant zero (suc m) (suc a) b p q = absurd (omega arith)
  count_irrelevant (suc k) zero (suc a) b p q = absurd (omega arith)
  count_irrelevant (suc k) (suc m) (suc a) b p q =
      omega (arith, count_irrelevant k m (suc a / 2) (b / 2) (omega arith) (omega arith))

  -- The lowest digit of the result comes from the lowest digits.
  bitwise_low :
      (a b : ℕ)
      → bitwise z f (suc a) b ≡ bitwise z f (suc a / 2) (b / 2) * 2 + f (suc a % 2) (b % 2)
  bitwise_low a b =
      omega (arith, count_irrelevant a (suc a / 2) (suc a / 2) (b / 2) (omega arith) (omega arith))

pub and_low : (a b : ℕ) → bit_and a b ≡ bit_and (a / 2) (b / 2) * 2 + min (a % 2) (b % 2)
and_low zero b = simp bit_and-bitwise (omega arith)
and_low (suc a) b = simp bit_and-bitwise (bitwise_low (λ b. 0) min a b)

pub or_low : (a b : ℕ) → bit_or a b ≡ bit_or (a / 2) (b / 2) * 2 + max (a % 2) (b % 2)
or_low zero b = simp bit_or-bitwise (omega arith)
or_low (suc a) b = simp bit_or-bitwise (bitwise_low (λ b. b) max a b)

pub xor_low : (a b : ℕ) → bit_xor a b ≡ bit_xor (a / 2) (b / 2) * 2 + differ (a % 2) (b % 2)
xor_low zero b = simp bit_xor-bitwise (omega arith)
xor_low (suc a) b = simp bit_xor-bitwise (bitwise_low (λ b. b) differ a b)
