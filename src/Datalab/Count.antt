-- ===== src/Datalab/Count.antt =====
-- `bitCount` of bits.c and its test function.
use Prim.Native.Nat.{bit_and}
use csapp_code.Prelude.{
  refl, ◌-◌, ℕ, sym, zero, suc, ◌+◌, ◌*◌, ◌/◌, ◌%◌, ◌^◌, ◌≤◌, ◌<◌, ◌≡◌, ap, ◌∙◌, arith,
}
use native.Mathlib.Nat.{div-add-mod, pow-suc, pow-succ', div-div-eq-div-mul}
use csapp_code.Datalab.Shift.{sar_mod}
use csapp_code.Word.Mask.{mask_and, and_mask}
use csapp_code.Word.Int32.{add32, sar32}
use csapp_code.Datalab.{low_mask, nibbles_mask, ones_mask, bit_count, count_from, test_bit_count}
use csapp_code.Datalab.HalfBytes.{
  and_empty, and_full, add_small, ones_few, low_mask_lem, sar_small, ones, spread_lem, halves,
  spread_shifts, spread_sar_1, spread_sar_2, spread_sar_3,
}

-- Half bytes of at most four, added up as the source does it.
nibbles_lem : (y : ℕ) → bit_and y nibbles_mask ≡ y % 16 + 256 * (y / 256 % 16)
unfolding nibbles_mask
nibbles_lem y =
    let high : y / 16 / 16 ≡ y / 256 = omega arith in
    omega (
      arith,
      and_full y 0xf0,
      and_empty (y / 16) 15,
      ap (λ z. bit_and z 15) high,
      and_mask 4 (y / 256),
    )

fold_1 : (t : ℕ) → t < 2 ^ 31 → add32 (bit_and t low_mask) (sar32 t 16) ≡ t % 65536 + t / 65536
fold_1 t small =
    let low : bit_and t low_mask ≡ t % 65536 = ap (bit_and t) low_mask_lem ∙ and_mask 16 t in
    let top : sar32 t 16 ≡ t / 65536 = sar_small t 16 small in
    ap (λ a. add32 a (sar32 t 16)) low
    ∙ ap (add32 (t % 65536)) top
    ∙ add_small (t % 65536) (t / 65536) (omega (arith, small))

fold_2 :
    (u : ℕ)
    → u < 2 ^ 16
    → add32 (bit_and (sar32 u 4) nibbles_mask) (bit_and u nibbles_mask)
      ≡ u / 16 % 16 + 256 * (u / 4096 % 16) + (u % 16 + 256 * (u / 256 % 16))
fold_2 u small =
    let shifted : sar32 u 4 ≡ u / 16 = sar_small u 4 (omega (arith, small)) in
    let high : bit_and (sar32 u 4) nibbles_mask ≡ u / 16 % 16 + 256 * (u / 4096 % 16) =
      ap (λ a. bit_and a nibbles_mask) shifted ∙ nibbles_lem (u / 16) ∙ omega arith in
    ap (λ a. add32 a (bit_and u nibbles_mask)) high
    ∙ ap (add32 (u / 16 % 16 + 256 * (u / 4096 % 16))) (nibbles_lem u)
    ∙ add_small (u / 16 % 16 + 256 * (u / 4096 % 16)) (u % 16 + 256 * (u / 256 % 16)) (omega arith)

fold_3 : (v : ℕ) → v < 2 ^ 16 → add32 (sar32 v 8) (bit_and 0xff v) ≡ v / 256 + v % 256
fold_3 v small =
    ap (λ a. add32 a (bit_and 0xff v)) (sar_small v 8 (omega (arith, small)))
    ∙ ap (add32 (v / 256)) (mask_and 8 v)
    ∙ add_small (v / 256) (v % 256) (omega arith)

fold : ℕ → ℕ
fold sum =
    let sum' = add32 (bit_and sum low_mask) (sar32 sum 16) in
    let sum'' = add32 (bit_and (sar32 sum' 4) nibbles_mask) (bit_and sum' nibbles_mask) in
    add32 (sar32 sum'' 8) (bit_and 0xff sum'')

fold_lem :
    (p0 p1 p2 p3 p4 p5 p6 p7 : ℕ)
    → p0 ≤ 4
    → p1 ≤ 4
    → p2 ≤ 4
    → p3 ≤ 4
    → p4 ≤ 4
    → p5 ≤ 4
    → p6 ≤ 4
    → p7 ≤ 4
    → fold (p0 + 16 * (p1 + 16 * (p2 + 16 * (p3 + 16 * (p4 + 16 * (p5 + 16 * (p6 + 16 * p7)))))))
      ≡ p0 + p1 + p2 + p3 + p4 + p5 + p6 + p7
unfolding fold
fold_lem p0 p1 p2 p3 p4 p5 p6 p7 h0 h1 h2 h3 h4 h5 h6 h7 =
    let t = p0 + 16 * (p1 + 16 * (p2 + 16 * (p3 + 16 * (p4 + 16 * (p5 + 16 * (p6 + 16 * p7)))))) in
    let u = (p0 + p4) + 16 * ((p1 + p5) + 16 * ((p2 + p6) + 16 * (p3 + p7))) in
    let v = (p0 + p4 + p1 + p5) + 256 * (p2 + p6 + p3 + p7) in
    let first : add32 (bit_and t low_mask) (sar32 t 16) ≡ u =
      fold_1 t (omega arith) ∙ omega arith in
    let second : add32 (bit_and (sar32 u 4) nibbles_mask) (bit_and u nibbles_mask) ≡ v =
      fold_2 u (omega arith) ∙ omega arith in
    let third : add32 (sar32 v 8) (bit_and 0xff v) ≡ p0 + p1 + p2 + p3 + p4 + p5 + p6 + p7 =
      fold_3 v (omega arith) ∙ omega arith in
    rw (first, second) third

ones_nibble : (n x : ℕ) → ones (suc (suc (suc (suc n)))) x ≡ ones 4 x + ones n (x / 16)
unfolding ones
ones_nibble n x =
    let fourth : x / 2 / 2 / 2 / 2 ≡ x / 16 = omega arith in omega (arith, ap (ones n) fourth)

-- The bits of the eight half bytes.
bits : ℕ → ℕ → ℕ
bits zero x = 0
bits (suc k) x = ones 4 x + bits k (x / 16)

width : ℕ → ℕ
width zero = 0
width (suc k) = suc (suc (suc (suc (width k))))

bits-width : (k x : ℕ) → bits k x ≡ ones (width k) x
unfolding bits width ones
bits-width zero x = refl
bits-width (suc k) x =
    ap (λ n. ones 4 x + n) (bits-width k (x / 16)) ∙ sym (ones_nibble (width k) x)

fold-halves : (x : ℕ) → (halves 8 x < 2 ^ 31) × (fold (halves 8 x) ≡ bits 8 x)
unfolding halves bits
fold-halves x =
    let p : ℕ → ℕ = λ y. ones 4 y in
    let few : (y : ℕ) → ones 4 y ≤ 4 = λ y. ones_few 4 y in
    let x1 = x / 16 in
    let x2 = x1 / 16 in
    let x3 = x2 / 16 in
    let x4 = x3 / 16 in
    let x5 = x4 / 16 in
    let x6 = x5 / 16 in
    let x7 = x6 / 16 in
    let sum =
      fold_lem (p x) (p x1) (p x2) (p x3) (p x4) (p x5) (p x6) (p x7) (few x) (few x1) (few x2)
        (few x3) (few x4) (few x5) (few x6) (few x7) in
    (
      omega (arith, few x, few x1, few x2, few x3, few x4, few x5, few x6, few x7),
      ap fold (omega arith) ∙ sum ∙ omega arith,
    )

four_sums : (a b c d n : ℕ) → a + b + c + d ≡ n → n < 2 ^ 32 → add32 (add32 (add32 a b) c) d ≡ n
four_sums a b c d n sum small = omega (arith, sum, small)

-- What the sums over the masks come to.
sums_lem :
    (x : ℕ)
    → x < 2 ^ 32
    → add32
        (add32
          (add32 (bit_and x ones_mask) (bit_and (sar32 x 1) ones_mask))
          (bit_and (sar32 x 2) ones_mask))
        (bit_and (sar32 x 3) ones_mask)
      ≡ halves 8 x
sums_lem x small =
    let a = spread_lem x in
    let b = spread_lem (sar32 x 1) ∙ spread_sar_1 x small in
    let c = spread_lem (sar32 x 2) ∙ spread_sar_2 x small in
    let d = spread_lem (sar32 x 3) ∙ spread_sar_3 x small in
    let all = spread_shifts 8 x in
    let below = (fold-halves x).0 in
    four_sums (bit_and x ones_mask) (bit_and (sar32 x 1) ones_mask) (bit_and (sar32 x 2) ones_mask)
      (bit_and (sar32 x 3) ones_mask) (halves 8 x) (omega (arith, a, b, c, d, all))
      (omega (arith, below))

bit_count-ones : (x : ℕ) → x < 2 ^ 32 → bit_count x ≡ ones 32 x
unfolding bit_count fold width
bit_count-ones x small = ap fold (sums_lem x small) ∙ (fold-halves x).1 ∙ bits-width 8 x

low_bit : (y w : ℕ) → y % (2 * w) % 2 ≡ y % 2
low_bit y w =
    let q = y / (2 * w) in
    let even : 2 * w * q ≡ 2 * (w * q) = grind arith in omega (arith, even, div-add-mod y (2 * w))

-- The last bit of a shifted word.
sar_bit : (x i : ℕ) → x < 2 ^ 32 → i < 32 → sar32 x i % 2 ≡ x / 2 ^ i % 2
sar_bit x i small few =
    let y = sar32 x i in
    let rest = 2 ^ (31 - i) in
    let power : 2 ^ (32 - i) ≡ 2 * rest =
      ap (λ n. 2 ^ n) (omega (arith, few)) ∙ pow-succ' 2 (31 - i) in
    let shifted : y % (2 * rest) ≡ x / 2 ^ i =
      ap (λ n. y % n) (sym power) ∙ sar_mod x i small few in
    sym (low_bit y rest) ∙ ap (λ n. n % 2) shifted

count_from_lem :
    (n i x r : ℕ)
    → x < 2 ^ 32
    → i + n ≤ 32
    → r + n < 2 ^ 32
    → count_from n i x r ≡ r + ones n (x / 2 ^ i)
unfolding count_from ones
count_from_lem zero i x r small few room = omega arith
count_from_lem (suc n) i x r small few room =
    let bit : bit_and (sar32 x i) 1 ≡ x / 2 ^ i % 2 =
      and_mask 1 (sar32 x i) ∙ sar_bit x i small (omega (arith, few)) in
    let sum : add32 r (bit_and (sar32 x i) 1) ≡ r + x / 2 ^ i % 2 = omega (arith, bit, room) in
    let next : x / 2 ^ i / 2 ≡ x / 2 ^ (i + 1) =
      div-div-eq-div-mul x (2 ^ i) 2
      ∙ ap (λ n. x / n) (sym (pow-suc 2 i) ∙ ap (λ n. 2 ^ n) (omega arith)) in
    let rest =
      count_from_lem n (i + 1) x (r + x / 2 ^ i % 2) small (omega (arith, few))
        (omega (arith, room)) in
    ap (count_from n (i + 1) x) sum ∙ rest ∙ omega (arith, ap (ones n) next)

-- `bitCount` counts the ones of its argument, as its test function does.
pub bit_count_lem : (x : ℕ) → x < 2 ^ 32 → bit_count x ≡ test_bit_count x
unfolding test_bit_count
bit_count_lem x small =
    let first : x / 2 ^ 0 ≡ x = omega arith in
    bit_count-ones x small
    ∙ sym (
        count_from_lem 32 0 x 0 small (omega arith) (omega arith)
        ∙ omega (arith, ap (ones 32) first))
