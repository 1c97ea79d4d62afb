-- ===== src/Datalab/Float.antt =====
-- `float_neg` of bits.c on the pattern of a float: sign, eight bits of exponent, 23 of fraction.
use Prim.Native.Nat.{bit_or, bit_xor, differ}
use csapp_code.Prelude.{
  ℕ, zero, suc, ◌+◌, ◌-◌, ◌*◌, ◌/◌, ◌%◌, ◌^◌, ◌≤◌, ◌<◌, ◌≡◌, ◌≢◌, refl, ap, ◌∙◌, arith, Bool, true,
  Bool-cases, ltb, leb, ◌==◌, if◌then◌else◌, table, table_sound, ◌&&◌, ◌⊎◌, inl, inr,
}
use native.Mathlib.Nat.{pow-suc}
use csapp_code.Word.Digits.{xor_low}
use csapp_code.Word.Split.{or_div}
use csapp_code.Word.Int32.{shl32, sar32, not32}
use csapp_code.Datalab.{float_neg}

bit_cases : (x : ℕ) → x < 2 → (x ≡ 0) ⊎ (x ≡ 1)
bit_cases x small = ground arith

differ_zero : (x : ℕ) → x < 2 → differ x 0 ≡ x
differ_zero x small = elim (bit_cases x small) [ inl e ↦ rw e refl | inr e ↦ rw e refl ]

-- A bit is flipped.
xor_top :
    (k x : ℕ) → x < 2 * 2 ^ k → bit_xor x (2 ^ k) ≡ (if ltb x (2 ^ k) then x + 2 ^ k else x - 2 ^ k)
xor_top zero x small = elim (bit_cases x small) [ inl e ↦ rw e refl | inr e ↦ rw e refl ]
xor_top (suc k) x small =
    let double : 2 ^ suc k ≡ 2 * 2 ^ k = pow-suc 2 k ∙ omega arith in
    let half : 2 ^ suc k / 2 ≡ 2 ^ k = omega arith in
    let rest = xor_top k (x / 2) (omega (arith, small, double)) in
    let step = xor_low x (2 ^ suc k) in
    let last : differ (x % 2) (2 ^ suc k % 2) ≡ x % 2 =
      ap (differ (x % 2)) (omega (arith, double)) ∙ differ_zero (x % 2) (omega arith) in
    let inside : bit_xor (x / 2) (2 ^ suc k / 2)
        ≡ (if ltb (x / 2) (2 ^ k) then x / 2 + 2 ^ k else x / 2 - 2 ^ k) =
      ap (bit_xor (x / 2)) half ∙ rest in
    ground (arith, step, last, inside, double)

-- The exponent, with the sign before it and the mask.
exponent_ok : ℕ → Bool
exponent_ok e =
    if e % 256 == 255 then bit_or e 256 == 511 else leb 256 (bit_or e 256) && ltb (bit_or e 256) 511

exponent_table : table exponent_ok 512 ≡ true
unfolding table exponent_ok
exponent_table = refl

masked_exponent : (uf : ℕ) → uf < 2 ^ 32 → bit_or uf (2 ^ 31) / 2 ^ 23 ≡ bit_or (uf / 2 ^ 23) 256
masked_exponent uf small = or_div 23 uf (2 ^ 31)

exponent_lem :
    (e : ℕ)
    → e < 512
    → ((e % 256 ≡ 255) × (bit_or e 256 ≡ 511))
      ⊎ ((e % 256 ≢ 255) × (256 ≤ bit_or e 256) × (bit_or e 256 < 511))
unfolding exponent_ok
exponent_lem e small =
    let ok = table_sound exponent_ok 512 exponent_table e small in
    elim (Bool-cases (e % 256 == 255)) [
      | inl full ↦ inl (ground (arith, full), ground (arith, full, ok))
      | inr other ↦
          inr (ground (arith, other), ground (arith, other, ok), ground (arith, other, ok))
    ]

-- Not a number: the exponent is full and the fraction is not zero.
abbrev pub IsNan : ℕ → Type 0
IsNan uf = (uf / 2 ^ 23 % 2 ^ 8 ≡ 255) × (uf % 2 ^ 23 ≢ 0)

full_exponent :
    (uf : ℕ)
    → uf < 2 ^ 32
    → (not32 (sar32 (bit_or uf (2 ^ 31)) 23) == 0) ≡ (uf / 2 ^ 23 % 2 ^ 8 == 255)
full_exponent uf small =
    let t = bit_or uf (2 ^ 31) in
    let masked = masked_exponent uf small in
    elim (exponent_lem (uf / 2 ^ 23) (omega (arith, small))) [
      | inl (full, all) ↦ ground (arith, masked, full, all)
      | inr (other, more, less) ↦ ground (arith, masked, other, more, less)
    ]

-- `float_neg` gives back what is not a number, and flips the sign of everything else.
pub float_neg_lem :
    (uf : ℕ)
    → uf < 2 ^ 32
    → (IsNan uf × (float_neg uf ≡ uf)) ⊎ ((¬ IsNan uf) × (float_neg uf ≡ (uf + 2 ^ 31) % 2 ^ 32))
unfolding float_neg
float_neg_lem uf small =
    let exponent = full_exponent uf small in
    let flipped = xor_top 31 uf (omega (arith, small)) in
    let fraction : (shl32 uf 9 == 0) ≡ (uf % 2 ^ 23 == 0) = ground arith in
    elim (Bool-cases (uf % 2 ^ 23 == 0)) [
      | inl whole ↦ inr (
        (λ nan. nan.1 (ground (arith, whole))),
        ground (arith, exponent, flipped, fraction, whole),
      )
      | inr part ↦ elim (Bool-cases (uf / 2 ^ 23 % 2 ^ 8 == 255)) [
        | inl full ↦ inl (
          (ground (arith, full), ground (arith, part)),
          ground (arith, exponent, fraction, part, full),
        )
        | inr other ↦ inr (
          (λ nan. ground (arith, nan, other)),
          ground (arith, exponent, flipped, fraction, part, other),
        )
      ]
    ]
