-- ===== src/Word/Mask.antt =====
-- A mask of low ones is a remainder.
use Prim.Native.Nat.{bit_and, bit_and-bitwise}
use native.Mathlib.Nat.{pow-suc, one-le-pow}
use csapp_code.Prelude.{
  ◌≤◌, ◌∙◌, ℕ, zero, suc, ◌+◌, ◌-◌, ◌*◌, ◌/◌, ◌%◌, ◌^◌, ◌<◌, ◌≡◌, refl, ap, arith,
}
use csapp_code.Word.Digits.{and_low}

zero_and : (a : ℕ) → bit_and 0 a ≡ 0
zero_and a = bit_and-bitwise 0 a

-- The product is split so that `omega` reads it.
double_product : (q k : ℕ) → q * 2 ^ suc k ≡ 2 * (q * 2 ^ k)
double_product q k = omega (arith, ap (λ (t : ℕ). q * t) (pow-suc 2 k))

low_part : (k q r : ℕ) → r < 2 ^ k → bit_and (2 ^ k - 1) (q * 2 ^ k + r) ≡ r
low_part zero q r h = omega (arith, zero_and (q * 2 ^ 0 + r))
low_part (suc k) q r h = ground (
  arith,
  and_low (2 ^ suc k - 1) (q * 2 ^ suc k + r),
  double_product q k,
  pow-suc 2 k,
  one-le-pow k 2,
  low_part k q (r / 2) (omega (arith, pow-suc 2 k)),
)

pub mask_and : (k a : ℕ) → bit_and (2 ^ k - 1) a ≡ a % 2 ^ k
mask_and k a = ground (arith, one-le-pow k 2, low_part k (a / 2 ^ k) (a % 2 ^ k))

-- The order of the two numbers does not matter; `n` bounds both.
and_comm_below : (n a b : ℕ) → a ≤ n → b ≤ n → bit_and a b ≡ bit_and b a
and_comm_below zero zero zero p q = refl
and_comm_below zero (suc a) b p q = absurd (omega arith)
and_comm_below zero zero (suc b) p q = absurd (omega arith)
and_comm_below (suc n) a b p q =
    omega (
      arith,
      and_low a b,
      and_low b a,
      and_comm_below n (a / 2) (b / 2) (omega arith) (omega arith),
    )

pub and_comm : (a b : ℕ) → bit_and a b ≡ bit_and b a
and_comm a b = and_comm_below (a + b) a b (omega arith) (omega arith)

pub and_mask : (k a : ℕ) → bit_and a (2 ^ k - 1) ≡ a % 2 ^ k
and_mask k a = and_comm a (2 ^ k - 1) ∙ mask_and k a
