-- ===== src/Datalab.antt =====
-- labs/datalab-handout/bits.c: the bit puzzles, with the functions of tests.c that state what each
-- is to compute. An `int` or `unsigned` is its 32-bit pattern. `~x + 1 + y` and the like wrap.
pub mod Laws
pub mod Shift
pub mod Ranges
pub mod Log
pub mod HalfBytes
pub mod Count
pub mod Float
mod Tests
use Prim.Native.Nat.{bit_and, bit_or, bit_xor}
use csapp_code.Prelude.{
  ℕ, zero, suc, ◌+◌, ◌-◌, ◌*◌, ◌/◌, ◌%◌, ◌^◌, Bool, ltb, leb, ◌==◌, not, ◌&&◌, ◌||◌, if◌then◌else◌,
}
use csapp_code.Word.Int32.{not32, add32, shl32, sar32, bang32}

pub bit_and_puzzle : ℕ → ℕ → ℕ
bit_and_puzzle x y = not32 (bit_or (not32 x) (not32 y))

pub get_byte : ℕ → ℕ → ℕ
get_byte x n = bit_and (sar32 x (shl32 n 3)) 0xff

pub logical_shift : ℕ → ℕ → ℕ
logical_shift x n = let mask = shl32 1 31 in bit_and (sar32 x n) (not32 (shl32 (sar32 mask n) 1))

pub bang : ℕ → ℕ
bang x = let a = bit_or x (add32 x (not32 (shl32 1 31))) in bit_and (sar32 (not32 a) 31) 0x1

pub tmin : ℕ
tmin = shl32 1 31

pub fits_bits : ℕ → ℕ → ℕ
fits_bits x n =
    let x' = sar32 x (add32 (add32 n (not32 1)) 1) in bit_or (bang32 x') (bang32 (not32 x'))

pub divpwr2 : ℕ → ℕ → ℕ
divpwr2 x n =
    let mask = sar32 (bit_and (shl32 1 31) x) 31 in
    sar32 (add32 (bit_and (add32 (add32 (shl32 1 n) (not32 1)) 1) mask) x) n

pub negate : ℕ → ℕ
negate x = add32 (not32 x) 1

pub is_positive : ℕ → ℕ
is_positive x = bit_and (bang32 (bit_and x (shl32 1 31))) (bang32 (bang32 x))

pub is_less_or_equal : ℕ → ℕ → ℕ
is_less_or_equal x y =
    let x_tag = bit_and (sar32 x 31) 1 in
    let y_tag = bit_and (sar32 y 31) 1 in
    let sub = add32 (add32 (not32 x) 1) y in
    let sub_tag = bit_and (sar32 sub 31) 1 in
    bit_or (bit_and x_tag (bang32 y_tag)) (bit_and (bang32 sub_tag) (bang32 (bit_xor x_tag y_tag)))

-- The three masks of `bit_count`, as the source builds them.
pub ones_mask : ℕ
ones_mask = let i = bit_or 0x11 (shl32 0x11 8) in bit_or i (shl32 i 16)

pub low_mask : ℕ
low_mask = bit_or 0xff (shl32 0xff 8)

pub nibbles_mask : ℕ
nibbles_mask = bit_or 0x0f (shl32 0x0f 8)

pub bit_count : ℕ → ℕ
bit_count x =
    let sum = bit_and x ones_mask in
    let sum = add32 sum (bit_and (sar32 x 1) ones_mask) in
    let sum = add32 sum (bit_and (sar32 x 2) ones_mask) in
    let sum = add32 sum (bit_and (sar32 x 3) ones_mask) in
    let sum = add32 (bit_and sum low_mask) (sar32 sum 16) in
    let sum = add32 (bit_and (sar32 sum 4) nibbles_mask) (bit_and sum nibbles_mask) in
    add32 (sar32 sum 8) (bit_and 0xff sum)

-- One round of `ilog2`: the shift that is added, and what is left of the number.
abbrev pub ilog2_round : ℕ → ℕ × ℕ → ℕ × ℕ
ilog2_round k (result, x) =
    let flag = bang32 (bang32 (sar32 x (2 ^ k))) in
    (add32 result (shl32 flag k), sar32 x (shl32 flag k))

-- `result` is not initialised in the source: its first value is the argument `junk`.
pub ilog2 : ℕ → ℕ → ℕ
ilog2 junk x =
    (ilog2_round 0 (ilog2_round 1 (ilog2_round 2 (ilog2_round 3 (ilog2_round 4 (junk, x)))))).0

pub float_neg : ℕ → ℕ
float_neg uf =
    let mask = shl32 1 31 in
    let t = sar32 (bit_or uf mask) 23 in
    if not (shl32 uf 9 == 0) && not32 t == 0 then uf else bit_xor uf mask

-- The test functions.
pub test_bit_and : ℕ → ℕ → ℕ
test_bit_and x y = bit_and x y

-- A cast to `unsigned char` keeps the low byte.
pub test_get_byte : ℕ → ℕ → ℕ
test_get_byte x n =
    if n == 0
    then x % 2 ^ 8
    else if n == 1
    then sar32 x 8 % 2 ^ 8
    else if n == 2
    then sar32 x 16 % 2 ^ 8
    else sar32 x 24 % 2 ^ 8

pub test_logical_shift : ℕ → ℕ → ℕ
test_logical_shift x n = x / 2 ^ n

-- The loop, with the rounds left, and the test function.
pub count_from : ℕ → ℕ → ℕ → ℕ → ℕ
count_from zero i x result = result
count_from (suc n) i x result = count_from n (i + 1) x (add32 result (bit_and (sar32 x i) 0x1))

pub test_bit_count : ℕ → ℕ
test_bit_count x = count_from 32 0 x 0

pub test_bang : ℕ → ℕ
test_bang x = bang32 x

pub test_tmin : ℕ
test_tmin = 0x8000_0000

pub test_negate : ℕ → ℕ
test_negate x = (2 ^ 32 - x) % 2 ^ 32

-- `a < b` on signed values: adding 2 ^ 31 to both puts the patterns in order.
abbrev pub signed_lt : ℕ → ℕ → Bool
signed_lt a b = ltb ((a + 2 ^ 31) % 2 ^ 32) ((b + 2 ^ 31) % 2 ^ 32)

pub test_is_positive : ℕ → ℕ
test_is_positive x = if signed_lt 0 x then 1 else 0

pub test_is_less_or_equal : ℕ → ℕ → ℕ
test_is_less_or_equal x y = if signed_lt y x then 0 else 1

pub test_fits_bits : ℕ → ℕ → ℕ
test_fits_bits x n =
    let tmin_n = (2 ^ 32 - shl32 1 (n - 1)) % 2 ^ 32 in
    let tmax_n = (shl32 1 (n - 1) + 2 ^ 32 - 1) % 2 ^ 32 in
    if not (signed_lt x tmin_n) && not (signed_lt tmax_n x) then 1 else 0

-- `x / p2n` on signed values rounds to 0. For `n` up to 30, `1 << n` is positive.
pub test_divpwr2 : ℕ → ℕ → ℕ
test_divpwr2 x n =
    let p2n = shl32 1 n in
    if ltb x (2 ^ 31) then x / p2n else (2 ^ 32 - (2 ^ 32 - x) / p2n) % 2 ^ 32
