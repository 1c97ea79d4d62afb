-- ===== src/Datalab/HalfBytes.antt =====
-- The half bytes of `bitCount` of bits.c: the bits of each are added side by side.
use Prim.Native.Nat.{bit_and, min, bit_and-bitwise}
use csapp_code.Prelude.{
  ℕ, sym, zero, suc, ◌+◌, ◌*◌, ◌/◌, ◌%◌, ◌^◌, ◌≤◌, ◌<◌, ◌≡◌, refl, ap, ◌∙◌, arith,
}
use csapp_code.Word.Digits.{and_low}
use csapp_code.Word.Mask.{and_comm}
use csapp_code.Word.Int32.{add32, sar32}
use csapp_code.Datalab.{ones_mask, low_mask, nibbles_mask}

ones_mask_lem : ones_mask ≡ 0x1111_1111
unfolding ones_mask
ones_mask_lem = refl

pub low_mask_lem : low_mask ≡ 0xffff
unfolding low_mask
low_mask_lem = refl

nibbles_mask_lem : nibbles_mask ≡ 0x0f0f
unfolding nibbles_mask
nibbles_mask_lem = refl

and_at_2 :
    (x y : ℕ) → bit_and (x / 2) (y / 2) ≡ bit_and (x / 4) (y / 4) * 2 + min (x / 2 % 2) (y / 2 % 2)
and_at_2 x y =
    let ex : x / 2 / 2 ≡ x / 4 = omega arith in
    let ey : y / 2 / 2 ≡ y / 4 = omega arith in rw (← ex, ← ey) (and_low (x / 2) (y / 2))

and_at_4 :
    (x y : ℕ) → bit_and (x / 4) (y / 4) ≡ bit_and (x / 8) (y / 8) * 2 + min (x / 4 % 2) (y / 4 % 2)
and_at_4 x y =
    let ex : x / 4 / 2 ≡ x / 8 = omega arith in
    let ey : y / 4 / 2 ≡ y / 8 = omega arith in rw (← ex, ← ey) (and_low (x / 4) (y / 4))

and_at_8 :
    (x y : ℕ)
    → bit_and (x / 8) (y / 8) ≡ bit_and (x / 16) (y / 16) * 2 + min (x / 8 % 2) (y / 8 % 2)
and_at_8 x y =
    let ex : x / 8 / 2 ≡ x / 16 = omega arith in
    let ey : y / 8 / 2 ≡ y / 16 = omega arith in rw (← ex, ← ey) (and_low (x / 8) (y / 8))

and_nibble :
    (x y : ℕ)
    → bit_and x y
      ≡ 16 * bit_and (x / 16) (y / 16)
        + 8 * min (x / 8 % 2) (y / 8 % 2)
        + 4 * min (x / 4 % 2) (y / 4 % 2)
        + 2 * min (x / 2 % 2) (y / 2 % 2)
        + min (x % 2) (y % 2)
and_nibble x y = omega (arith, and_low x y, and_at_2 x y, and_at_4 x y, and_at_8 x y)

-- A mask of ones, a half byte at a time.
and_one : (x m : ℕ) → bit_and x (1 + 16 * m) ≡ x % 2 + 16 * bit_and (x / 16) m
and_one x m =
    let y = 1 + 16 * m in
    let rest : y / 16 ≡ m = omega arith in omega (arith, and_nibble x y, ap (bit_and (x / 16)) rest)

-- A mask of half bytes.
pub and_full : (x m : ℕ) → bit_and x (15 + 16 * m) ≡ x % 16 + 16 * bit_and (x / 16) m
and_full x m =
    let y = 15 + 16 * m in
    let rest : y / 16 ≡ m = omega arith in omega (arith, and_nibble x y, ap (bit_and (x / 16)) rest)

pub and_empty : (x m : ℕ) → bit_and x (16 * m) ≡ 16 * bit_and (x / 16) m
and_empty x m =
    let y = 16 * m in
    let rest : y / 16 ≡ m = omega arith in omega (arith, and_nibble x y, ap (bit_and (x / 16)) rest)

-- The four sums over the masks, a half byte at a time.
pub spread : ℕ → ℕ → ℕ
spread zero x = 0
spread (suc k) x = x % 2 + 16 * spread k (x / 16)

masks : ℕ → ℕ
masks zero = 0
masks (suc k) = 1 + 16 * masks k

masks_lem : masks 8 ≡ ones_mask
unfolding masks ones_mask
masks_lem = refl

and_masks : (k x : ℕ) → bit_and x (masks k) ≡ spread k x
unfolding masks spread
and_masks zero x = and_comm x 0 ∙ bit_and-bitwise 0 x
and_masks (suc k) x = omega (arith, and_one x (masks k), and_masks k (x / 16))

pub spread_lem : (x : ℕ) → bit_and x ones_mask ≡ spread 8 x
spread_lem x = ap (bit_and x) (sym masks_lem) ∙ and_masks 8 x

-- The bits of a number, and of its half bytes.
unfoldable pub ones : ℕ → ℕ → ℕ
ones zero x = 0
ones (suc n) x = x % 2 + ones n (x / 2)

unfoldable pub halves : ℕ → ℕ → ℕ
halves zero x = 0
halves (suc k) x = ones 4 x + 16 * halves k (x / 16)

-- What stands above the highest bit that counts.
high : ℕ → ℕ → ℕ
high zero t = 2 * t
high (suc k) t = 16 * high k t

spread_high : (k x t : ℕ) → spread (suc k) (x + high k t) ≡ spread (suc k) x
unfolding spread high
spread_high zero x t = omega arith
spread_high (suc k) x t =
    let rest : (x + 16 * high k t) / 16 ≡ x / 16 + high k t = omega arith in
    omega (arith, ap (spread (suc k)) rest ∙ spread_high k (x / 16) t)

pub spread_shifts :
    (k x : ℕ) → spread k x + spread k (x / 2) + spread k (x / 4) + spread k (x / 8) ≡ halves k x
unfolding spread halves ones
spread_shifts zero x = refl
spread_shifts (suc k) x =
    let two : x / 2 / 16 ≡ x / 16 / 2 = omega arith in
    let four : x / 4 / 16 ≡ x / 16 / 4 = omega arith in
    let eight : x / 8 / 16 ≡ x / 16 / 8 = omega arith in
    let rest = spread_shifts k (x / 16) in rw (two, four, eight) (omega (arith, rest))

pub sar_small : (x k : ℕ) → x < 2 ^ 31 → sar32 x k ≡ x / 2 ^ k
sar_small x k h = ground (arith, h)

pub add_small : (a b : ℕ) → a + b < 2 ^ 32 → add32 a b ≡ a + b
add_small a b h = omega (arith, h)

pub ones_few : (n x : ℕ) → ones n x ≤ n
unfolding ones
ones_few zero x = omega arith
ones_few (suc n) x = omega (arith, ones_few n (x / 2))

-- The shifted number on the bits that count.
pub spread_sar_1 : (x : ℕ) → x < 2 ^ 32 → spread 8 (sar32 x 1) ≡ spread 8 (x / 2)
unfolding high
spread_sar_1 x small = ap (spread 8) (ground arith) ∙ spread_high 7 (x / 2) (4 * (x / 2 ^ 31))

pub spread_sar_2 : (x : ℕ) → x < 2 ^ 32 → spread 8 (sar32 x 2) ≡ spread 8 (x / 4)
unfolding high
spread_sar_2 x small = ap (spread 8) (ground arith) ∙ spread_high 7 (x / 4) (6 * (x / 2 ^ 31))

pub spread_sar_3 : (x : ℕ) → x < 2 ^ 32 → spread 8 (sar32 x 3) ≡ spread 8 (x / 8)
unfolding high
spread_sar_3 x small = ap (spread 8) (ground arith) ∙ spread_high 7 (x / 8) (7 * (x / 2 ^ 31))
