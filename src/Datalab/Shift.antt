-- ===== src/Datalab/Shift.antt =====
-- `logicalShift` of bits.c, for every shift count from 0 to 31.
use csapp_code.Prelude.{
  ℕ, suc, ◌+◌, ◌-◌, ◌*◌, ◌/◌, ◌%◌, ◌^◌, ◌≤◌, ◌<◌, ◌≡◌, refl, ap, ◌∙◌, arith, Bool, ◌==◌, ==_iff,
  table, table_sound,
}
use native.Mathlib.Decide.{dec_lt}
use mathlib.Core.Path.{subst}
use native.Mathlib.Nat.{
  add-mul-mod_self_left, one-le-pow, div-mul-le_self, div-lt_iff_lt-mul, mod-eq_of_lt,
}
use csapp_code.Word.Mask.{and_mask}
use csapp_code.Word.Split.{div_is}
use csapp_code.Word.Int32.{not32, shl32, sar32}
use csapp_code.Datalab.{logical_shift, test_logical_shift}

-- The mask has 32 - n ones, and the two powers make up the word.
mask_ok : ℕ → Bool
mask_ok n = not32 (shl32 (sar32 (shl32 1 31) n) 1) == 2 ^ (32 - n) - 1

words_ok : ℕ → Bool
words_ok n = 2 ^ (32 - n) * 2 ^ n == 2 ^ 32

mask_value : (n : ℕ) → n < 32 → not32 (shl32 (sar32 (shl32 1 31) n) 1) ≡ 2 ^ (32 - n) - 1
unfolding mask_ok table
mask_value n h = (==_iff _ _).0 (table_sound mask_ok 32 refl n h)

words_value : (n : ℕ) → n < 32 → 2 ^ (32 - n) * 2 ^ n ≡ 2 ^ 32
unfolding words_ok table
words_value n h = (==_iff _ _).0 (table_sound words_ok 32 refl n h)

-- With `q * p` in all, the high part of the complement is the complement of the high part.
complement_div : (x p q : ℕ) → 0 < p → x < q * p → (q * p - 1 - x) / p ≡ q - 1 - x / p
complement_div x p q pos h =
    let a = x / p in
    let small : a < q = (div-lt_iff_lt-mul {k = p} pos).1 h in
    let b = q - 1 - a in
    let sum : q ≡ a + b + 1 = omega arith in
    let products : q * p ≡ a * p + b * p + p = ap (λ (t : ℕ). t * p) sum ∙ omega arith in
    let lo : a * p ≤ x = div-mul-le_self x p in
    let hi : x < suc a * p = (div-lt_iff_lt-mul {k = p} {x = x} {y = suc a} pos).0 (omega arith) in
    div_is (q * p - 1 - x) p b pos (omega arith) (omega arith)

high_mod : (q p a : ℕ) → 0 < p → a < q → (q * p - 1 - (q - 1 - a)) % q ≡ a
high_mod q p a pos h =
    let one_less : p ≡ p - 1 + 1 = omega arith in
    let product : q * p ≡ q * (p - 1) + q = ap (λ (t : ℕ). q * t) one_less ∙ omega arith in
    let sum : q * p - 1 - (q - 1 - a) ≡ a + q * (p - 1) = omega arith in
    rw sum (add-mul-mod_self_left a q (p - 1) ∙ mod-eq_of_lt h)

pub sar_mod : (x n : ℕ) → x < 2 ^ 32 → n < 32 → sar32 x n % 2 ^ (32 - n) ≡ x / 2 ^ n
sar_mod x n h k =
    let p = 2 ^ n in
    let q = 2 ^ (32 - n) in
    let pos : 0 < p = one-le-pow n 2 (omega arith) in
    let word : q * p ≡ 2 ^ 32 = words_value n k in
    let fits : x < q * p = rw word h in
    let small : x / p < q = (div-lt_iff_lt-mul {k = p} pos).1 fits in
    let high : (q * p - 1 - x) / p ≡ q - 1 - x / p = complement_div x p q pos fits in
    let high' : (2 ^ 32 - 1 - x) / p ≡ q - 1 - x / p =
      subst (λ w. (w - 1 - x) / p ≡ q - 1 - x / p) word high in
    let low : (2 ^ 32 - 1 - (q - 1 - x / p)) % q ≡ x / p =
      subst (λ w. (w - 1 - (q - 1 - x / p)) % q ≡ x / p) word (high_mod q p (x / p) pos small) in
    elim (dec_lt x (2 ^ 31)) [
      | yes positive ↦ ground (arith, mod-eq_of_lt {n = x / p} {m = q} small)
      | no negative ↦ ground (arith, high', low)
    ]

-- `logicalShift` is the division of the unsigned number by 2 ^ n.
pub logical_shift_lem : (x n : ℕ) → x < 2 ^ 32 → n < 32 → logical_shift x n ≡ test_logical_shift x n
unfolding logical_shift test_logical_shift
logical_shift_lem x n h k = rw (mask_value n k) (and_mask (32 - n) (sar32 x n) ∙ sar_mod x n h k)
