-- ===== src/Datalab/Ranges.antt =====
-- The puzzles of bits.c that work with a range or a power of two: `isPositive`, `fitsBits`, `divpwr2`.
use Prim.Native.Nat.{bit_and}
use native.Mathlib.Nat.{pow-suc, div-mul-le_self, div-lt_iff_lt-mul, mod-eq_of_lt}
use native.Mathlib.Decide.{dec_lt}
use csapp_code.Prelude.{
  ℕ, zero, suc, ◌+◌, ◌-◌, ◌*◌, ◌/◌, ◌%◌, ◌^◌, ◌≤◌, ◌<◌, ◌≡◌, refl, sym, ap, ◌∙◌, arith, Bool, ◌&&◌,
  ltb, leb, ◌==◌, ==_iff, if◌then◌else◌, table, table_sound,
}
use csapp_code.Word.Digits.{and_low}
use csapp_code.Word.Mask.{and_comm, and_mask, mask_and}
use csapp_code.Word.Split.{div_pow_suc, div_is}
use csapp_code.Word.Int32.{not32, add32, shl32, sar32}
use csapp_code.Datalab.{
  is_positive, fits_bits, divpwr2, tmin, test_is_positive, test_fits_bits, test_divpwr2, test_tmin,
}

-- A mask of one bit.
and_pow : (k x : ℕ) → bit_and x (2 ^ k) ≡ x / 2 ^ k % 2 * 2 ^ k
and_pow zero x = omega (arith, and_mask 1 x)
and_pow (suc k) x =
    let half : 2 ^ suc k / 2 ≡ 2 ^ k = omega (arith, pow-suc 2 k) in
    let digit : ℕ = x / 2 ^ suc k % 2 in
    let same : x / 2 / 2 ^ k % 2 ≡ digit = ap (λ (q : ℕ). q % 2) (sym (div_pow_suc x k)) in
    omega (
      arith,
      and_low x (2 ^ suc k),
      pow-suc 2 k,
      ap (bit_and (x / 2)) half,
      and_pow k (x / 2),
      ap (λ (d : ℕ). d * 2 ^ k) same,
      ap (λ (p : ℕ). digit * p) (pow-suc 2 k),
    )

sign_mask : (x : ℕ) → x < 2 ^ 32 → bit_and x (2 ^ 31) ≡ (if ltb x (2 ^ 31) then 0 else 2 ^ 31)
sign_mask x h = ground (arith, and_pow 31 x)

-- `isPositive` agrees with its test function, `x > 0`, on every word.
pub is_positive_lem : (x : ℕ) → x < 2 ^ 32 → is_positive x ≡ test_is_positive x
unfolding is_positive test_is_positive
is_positive_lem x h = ground (arith, sign_mask x h)

pub tmin_lem : tmin ≡ test_tmin
unfolding tmin test_tmin
tmin_lem = refl

-- Powers of two below the word, by their table.
powers_ok : ℕ → Bool
powers_ok n = leb 1 (2 ^ n) && leb (2 ^ n) (2 ^ 31)

power_bounds : (n : ℕ) → n < 32 → (1 ≤ 2 ^ n) × (2 ^ n ≤ 2 ^ 31)
unfolding powers_ok table
power_bounds n h =
    let e = table_sound powers_ok 32 refl n h in (ground (arith, e), ground (arith, e))

pub div_zero : (x p : ℕ) → 0 < p → (x / p == 0) ≡ ltb x p
div_zero x p pos = ground (arith, div-lt_iff_lt-mul {k = p} {x = x} {y = 1} pos)

-- The shift count of `fitsBits`, and the powers in its test function.
fits_bits_shift : (n : ℕ) → 0 < n → n ≤ 32 → add32 (add32 n (not32 1)) 1 ≡ n - 1
fits_bits_shift n pos h = omega arith

-- `fitsBits` agrees with its test function, a comparison with the bounds of `n` bits, for `n` from 1
-- to 32 and every word.
pub fits_bits_lem : (x n : ℕ) → x < 2 ^ 32 → 0 < n → n ≤ 32 → fits_bits x n ≡ test_fits_bits x n
unfolding fits_bits test_fits_bits
fits_bits_lem x n h pos small =
    let p : ℕ = 2 ^ (n - 1) in
    let bounds = power_bounds (n - 1) (omega arith) in
    let shift = fits_bits_shift n pos small in
    let power : shl32 1 (n - 1) ≡ p = omega (arith, bounds) in
    rw (shift, power) (ground (arith, bounds, div_zero x p, div_zero (not32 x) p))

-- Division by a power after its complement was added, and the quotient one less.
div-sub_self : (y p : ℕ) → 0 < p → p ≤ y → (y - p) / p ≡ y / p - 1
div-sub_self y p pos h =
    let q : ℕ = y / p in
    let some_q : 1 ≤ q = ground (arith, div-lt_iff_lt-mul {k = p} {x = y} {y = 1} pos) in
    let lo : q * p ≤ y = div-mul-le_self y p in
    let hi : y < suc q * p = (div-lt_iff_lt-mul {k = p} {x = y} {y = suc q} pos).0 (omega arith) in
    let sum : q ≡ q - 1 + 1 = omega arith in
    let product : q * p ≡ (q - 1) * p + p = ap (λ (t : ℕ). t * p) sum ∙ omega arith in
    div_is (y - p) p (q - 1) pos (omega arith) (omega arith)

ones_ok : ℕ → Bool
ones_ok n = (2 ^ 32 - 1) % 2 ^ n == 2 ^ n - 1

ones_mod : (n : ℕ) → n < 32 → (2 ^ 32 - 1) % 2 ^ n ≡ 2 ^ n - 1
unfolding ones_ok table
ones_mod n h = (==_iff _ _).0 (table_sound ones_ok 32 refl n h)

-- The bias of `divpwr2`: all ones for a negative number, and then the low `n` of them.
divpwr2_bias :
    (x n : ℕ)
    → x < 2 ^ 32
    → n ≤ 30
    → bit_and (add32 (add32 (shl32 1 n) (not32 1)) 1) (sar32 (bit_and (shl32 1 31) x) 31)
      ≡ (if ltb x (2 ^ 31) then 0 else 2 ^ n - 1)
divpwr2_bias x n h small =
    let bounds = power_bounds n (omega arith) in
    let ones : add32 (add32 (shl32 1 n) (not32 1)) 1 ≡ 2 ^ n - 1 = omega (arith, bounds) in
    let sign : bit_and (shl32 1 31) x ≡ (if ltb x (2 ^ 31) then 0 else 2 ^ 31) =
      and_comm (2 ^ 31) x ∙ sign_mask x h in
    let mask : sar32 (bit_and (shl32 1 31) x) 31 ≡ (if ltb x (2 ^ 31) then 0 else 2 ^ 32 - 1) =
      ground (arith, sign) in
    rw (ones, mask)
      (mask_and n _
        ∙ ground (
          arith,
          ones_mod n (omega arith),
          mod-eq_of_lt {n = 0} {m = 2 ^ n} (omega (arith, bounds)),
        ))

-- `divpwr2` rounds to 0, as the division of its test function does, for `n` from 0 to 30 and every
-- word.
pub divpwr2_lem : (x n : ℕ) → x < 2 ^ 32 → n ≤ 30 → divpwr2 x n ≡ test_divpwr2 x n
unfolding divpwr2 test_divpwr2
divpwr2_lem x n h small =
    let p : ℕ = 2 ^ n in
    let bounds = power_bounds n (omega arith) in
    let power : shl32 1 n ≡ p = omega (arith, bounds) in
    rw (divpwr2_bias x n h small) (elim (dec_lt x (2 ^ 31)) [
      | yes positive ↦ ground (arith, power)
      | no negative ↦
          let y : ℕ = 2 ^ 32 - x in
          elim (dec_lt y p) [
            | yes small_y ↦ ground (arith, power, bounds, div_zero y p, div_zero (p - 1 - y) p)
            | no large_y ↦ ground (arith, power, bounds, div-sub_self y p)
          ]
    ])
