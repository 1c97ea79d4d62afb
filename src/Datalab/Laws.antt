-- ===== src/Datalab/Laws.antt =====
-- The puzzles of bits.c against the functions of tests.c, on every 32-bit pattern.
use Prim.Native.Nat.{bit_and, bit_or, bit_xor}
use csapp_code.Prelude.{
  ℕ, zero, suc, ◌/◌, ◌^◌, ◌<◌, ◌≡◌, refl, ◌∙◌, arith, ltb, ◌==◌, if◌then◌else◌,
}
use csapp_code.Word.Mask.{and_mask}
use csapp_code.Word.Split.{de_morgan, or_div}
use csapp_code.Word.Int32.{not32, add32, shl32, sar32, bang32}
use csapp_code.Datalab.{
  bit_and_puzzle, get_byte, bang, negate, is_less_or_equal, test_bit_and, test_get_byte, test_bang,
  test_negate, test_is_less_or_equal,
}

-- `bitAnd` is `&`.
pub bit_and_lem : (x y : ℕ) → x < 2 ^ 32 → y < 2 ^ 32 → bit_and_puzzle x y ≡ test_bit_and x y
unfolding bit_and_puzzle test_bit_and
bit_and_lem x y p q = omega (arith, de_morgan 32 x y p q)

-- `getByte` extracts the byte for each of the four positions.
pub get_byte_lem : (x n : ℕ) → x < 2 ^ 32 → n < 4 → get_byte x n ≡ test_get_byte x n
unfolding get_byte test_get_byte
get_byte_lem x zero p q = ground (arith, and_mask 8 (sar32 x 0))
get_byte_lem x (suc zero) p q = ground (arith, and_mask 8 (sar32 x 8))
get_byte_lem x (suc (suc zero)) p q = ground (arith, and_mask 8 (sar32 x 16))
get_byte_lem x (suc (suc (suc zero))) p q = ground (arith, and_mask 8 (sar32 x 24))
get_byte_lem x (suc (suc (suc (suc n)))) p q = absurd (omega arith)

-- The low bit of `x >> 31` is the sign.
abbrev sign : ℕ → ℕ
sign x = if ltb x (2 ^ 31) then 0 else 1

sign_bit : (x : ℕ) → x < 2 ^ 32 → bit_and (sar32 x 31) 1 ≡ sign x
sign_bit x p = ground (arith, and_mask 1 (sar32 x 31))

-- `negate` is the subtraction from 0.
pub negate_lem : (x : ℕ) → x < 2 ^ 32 → negate x ≡ test_negate x
unfolding negate test_negate
negate_lem x p = omega arith

-- The sign of `x | y` is set when either is.
or_sign : (x y : ℕ) → x < 2 ^ 32 → y < 2 ^ 32 → bit_or x y / 2 ^ 31 ≡ bit_or (sign x) (sign y)
or_sign x y p q =
    let a : x / 2 ^ 31 ≡ sign x = ground arith in
    let b : y / 2 ^ 31 ≡ sign y = ground arith in rw (or_div 31 x y, a, b)

or_of_bits : (a b : ℕ) → a < 2 → b < 2 → bit_or a b ≡ (if a == 0 then b else 1)
or_of_bits zero zero p q = refl
or_of_bits zero (suc zero) p q = refl
or_of_bits (suc zero) zero p q = refl
or_of_bits (suc zero) (suc zero) p q = refl
or_of_bits (suc (suc a)) b p q = absurd (omega arith)
or_of_bits zero (suc (suc b)) p q = absurd (omega arith)
or_of_bits (suc zero) (suc (suc b)) p q = absurd (omega arith)

sign-lt : (x : ℕ) → sign x < 2
sign-lt x = ground arith

-- `bang` is `!`.
pub bang_lem : (x : ℕ) → x < 2 ^ 32 → bang x ≡ test_bang x
unfolding bang test_bang
bang_lem x p =
    let y = add32 x (not32 (shl32 1 31)) in
    let o = bit_or x y in
    let top : o / 2 ^ 31 ≡ (if sign x == 0 then sign y else 1) =
      or_sign x y p (omega arith) ∙ or_of_bits (sign x) (sign y) (sign-lt x) (sign-lt y) in
    let last : bit_and (sar32 (not32 o) 31) 1 ≡ sign (not32 o) = sign_bit (not32 o) (omega arith) in
    last ∙ ground (arith, top)

-- The last line of `isLessOrEqual` on three bits.
tags : ℕ → ℕ → ℕ → ℕ
tags x y s = bit_or (bit_and x (bang32 y)) (bit_and (bang32 s) (bang32 (bit_xor x y)))

tags_table :
    (tags 0 0 0 ≡ 1)
    × (tags 0 0 1 ≡ 0)
    × (tags 0 1 0 ≡ 0)
    × (tags 0 1 1 ≡ 0)
    × (tags 1 0 0 ≡ 1)
    × (tags 1 0 1 ≡ 1)
    × (tags 1 1 0 ≡ 1)
    × (tags 1 1 1 ≡ 0)
unfolding tags
tags_table = (refl, refl, refl, refl, refl, refl, refl, refl)

less_or_equal_tags :
    (x y : ℕ)
    → x < 2 ^ 32
    → y < 2 ^ 32
    → is_less_or_equal x y ≡ tags (sign x) (sign y) (sign (add32 (add32 (not32 x) 1) y))
unfolding is_less_or_equal tags
less_or_equal_tags x y p q =
    rw (sign_bit x p, sign_bit y q, sign_bit (add32 (add32 (not32 x) 1) y) (omega arith))

-- `isLessOrEqual` compares signed values, also where the difference of the two overflows.
pub is_less_or_equal_lem :
    (x y : ℕ) → x < 2 ^ 32 → y < 2 ^ 32 → is_less_or_equal x y ≡ test_is_less_or_equal x y
unfolding test_is_less_or_equal
is_less_or_equal_lem x y p q = less_or_equal_tags x y p q ∙ ground (arith, tags_table)
