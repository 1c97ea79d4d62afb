-- ===== src/Word/Split.antt =====
-- Bitwise operators and division by a power of two; complements.
use Prim.Native.Nat.{bit_and, bit_or}
use native.Mathlib.Nat.{
  pow-suc, one-le-pow, div-one, div-mul-le_self, le-div_iff_mul-le, div-lt_iff_lt-mul,
}
use csapp_code.Prelude.{ℕ, zero, suc, ◌+◌, ◌-◌, ◌*◌, ◌/◌, ◌^◌, ◌≤◌, ◌<◌, ◌≡◌, ap, arith}
use csapp_code.Word.Digits.{and_low, or_low}

half_and : (a b : ℕ) → bit_and a b / 2 ≡ bit_and (a / 2) (b / 2)
half_and a b = omega (arith, and_low a b)

half_or : (a b : ℕ) → bit_or a b / 2 ≡ bit_or (a / 2) (b / 2)
half_or a b = omega (arith, or_low a b)

-- A quotient is told by its bounds.
pub div_is : (x p q : ℕ) → 0 < p → q * p ≤ x → x < suc q * p → x / p ≡ q
div_is x p q pos lo hi =
    let above : q ≤ x / p = (le-div_iff_mul-le pos).1 lo in
    let below : x / p < suc q = (div-lt_iff_lt-mul pos).1 hi in omega arith

-- Halving first is dividing by the next power.
pub div_pow_suc : (x k : ℕ) → x / 2 ^ suc k ≡ x / 2 / 2 ^ k
div_pow_suc x k =
    let q = x / 2 / 2 ^ k in
    let lo : q * 2 ^ k ≤ x / 2 = div-mul-le_self (x / 2) (2 ^ k) in
    let hi : x / 2 < suc q * 2 ^ k =
      (div-lt_iff_lt-mul {k = 2 ^ k} (one-le-pow k 2 (omega arith))).0 (omega arith) in
    div_is x (2 ^ suc k) q (one-le-pow (suc k) 2 (omega arith))
      (omega (arith, lo, ap (λ (t : ℕ). q * t) (pow-suc 2 k)))
      (omega (arith, hi, ap (λ (t : ℕ). suc q * t) (pow-suc 2 k)))

pub or_div : (k a b : ℕ) → bit_or a b / 2 ^ k ≡ bit_or (a / 2 ^ k) (b / 2 ^ k)
or_div zero a b = rw (div-one, div-one, div-one)
or_div (suc k) a b = rw (
  div_pow_suc (bit_or a b) k,
  half_or a b,
  or_div k (a / 2) (b / 2),
  div_pow_suc a k,
  div_pow_suc b k,
)

pub and_div : (k a b : ℕ) → bit_and a b / 2 ^ k ≡ bit_and (a / 2 ^ k) (b / 2 ^ k)
and_div zero a b = rw (div-one, div-one, div-one)
and_div (suc k) a b = rw (
  div_pow_suc (bit_and a b) k,
  half_and a b,
  and_div k (a / 2) (b / 2),
  div_pow_suc a k,
  div_pow_suc b k,
)

-- De Morgan's law on `k` bits.
pub de_morgan :
    (k a b : ℕ)
    → a < 2 ^ k
    → b < 2 ^ k
    → bit_or (2 ^ k - 1 - a) (2 ^ k - 1 - b) + bit_and a b ≡ 2 ^ k - 1
de_morgan zero a b p q = let a0 : a ≡ 0 = omega arith in let b0 : b ≡ 0 = omega arith in rw (a0, b0)
de_morgan (suc k) a b p q = ground (
  arith,
  pow-suc 2 k,
  one-le-pow k 2,
  or_low (2 ^ suc k - 1 - a) (2 ^ suc k - 1 - b),
  and_low a b,
  de_morgan k (a / 2) (b / 2) (omega (arith, pow-suc 2 k)) (omega (arith, pow-suc 2 k)),
)
