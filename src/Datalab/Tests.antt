-- ===== src/Datalab/Tests.antt =====
-- Tests of the puzzles, from the comments of bits.c, and the theorems at concrete inputs.
use csapp_code.Prelude.{◌⊎◌, ◌%◌, arith, ℕ, ◌+◌, ◌-◌, ◌^◌, ◌≡◌, refl}
use csapp_code.Datalab.Count.{bit_count_lem}
use csapp_code.Datalab.Float.{IsNan, float_neg_lem}
use csapp_code.Datalab.Log.{IsLog, ilog2_lem}
use csapp_code.Datalab.{
  bit_count, test_bit_count, bit_and_puzzle, get_byte, logical_shift, bang, fits_bits, divpwr2,
  is_positive, is_less_or_equal, ilog2, float_neg,
}

comment_examples :
    (bit_and_puzzle 6 5 ≡ 4)
    × (get_byte 0x1234_5678 1 ≡ 0x56)
    × (logical_shift 0x8765_4321 4 ≡ 0x0876_5432)
    × (bang 3 ≡ 0)
    × (bang 0 ≡ 1)
    × (fits_bits 5 3 ≡ 0)
    × (fits_bits (2 ^ 32 - 4) 3 ≡ 1)
    × (divpwr2 15 1 ≡ 7)
    × (divpwr2 (2 ^ 32 - 33) 4 ≡ 2 ^ 32 - 2)
    × (is_positive (2 ^ 32 - 1) ≡ 0)
    × (is_less_or_equal 4 5 ≡ 1)
    × (ilog2 0 16 ≡ 4)
unfolding bit_and_puzzle get_byte logical_shift bang fits_bits divpwr2 is_positive is_less_or_equal
    ilog2
comment_examples = (refl, refl, refl, refl, refl, refl, refl, refl, refl, refl, refl, refl)

-- With another first value of `result` the answer is another.
ilog2_junk : ilog2 100 16 ≡ 104
unfolding ilog2
ilog2_junk = refl

float_neg_values : (float_neg 0x3f80_0000 ≡ 0xbf80_0000) × (float_neg 0x7fc0_0000 ≡ 0x7fc0_0000)
unfolding float_neg
float_neg_values = (refl, refl)

ilog2_lem_example : (l : ℕ) × (ilog2 100 16 ≡ 100 + l) × IsLog l 16
ilog2_lem_example = ilog2_lem 100 16 (omega arith) (omega arith) (omega arith)

bit_count_lem_example : bit_count 0xf00d_0007 ≡ test_bit_count 0xf00d_0007
bit_count_lem_example = bit_count_lem 0xf00d_0007 (omega arith)

float_neg_lem_example :
    (IsNan 0xc049_0fdb × (float_neg 0xc049_0fdb ≡ 0xc049_0fdb))
    ⊎ ((¬ IsNan 0xc049_0fdb) × (float_neg 0xc049_0fdb ≡ (0xc049_0fdb + 2 ^ 31) % 2 ^ 32))
float_neg_lem_example = float_neg_lem 0xc049_0fdb (omega arith)
