-- ===== src/Btest/Values.antt =====
-- The values that `gen_vals` of btest.c makes: how many, in which range, and when all of it.
use Prim.Native.Nat.{bit_or}
use csapp_code.Prelude.{
  Bool-cases, inl, inr, ◌==◌, ℕ, zero, suc, ◌+◌, ◌-◌, ◌*◌, ◌%◌, ◌^◌, ◌≤◌, ◌<◌, ◌≡◌, ◌≢◌, refl, ap,
  arith, Bool, true, false, not, ◌&&◌, Option, none, some, List, [], ◌∷◌, ◌++◌, ltb, if◌then◌else◌,
  length, length-append, get_elem?, All, All-append,
}
use native.Mathlib.Decide.{ℕ_discrete, dec_lt}
use csapp_code.Btest.{
  int_max, biased, pattern_of, test_range_max, max_test_vals, collect, float_round, float_vals,
  sample_round, gen_vals,
}

length-collect-le :
    (n i k : ℕ) (body : ℕ → List ℕ)
    → ((j : ℕ) → length (body j) ≤ k)
    → length (collect n i body) ≤ n * k
unfolding collect
length-collect-le zero i k body h = omega arith
length-collect-le (suc n) i k body h = omega (
  arith,
  length-append (body i) (collect n (i + 1) body),
  h i,
  length-collect-le n (i + 1) k body h,
)

length-sample_round : (random : ℕ → ℕ) (min max i : ℕ) → length (sample_round random min max i) ≤ 5
unfolding sample_round
length-sample_round random min max i = ground arith

length-collect_one : (n i : ℕ) → length (collect n i (λ v. pattern_of v ∷ [])) ≡ n
unfolding collect
length-collect_one zero i = refl
length-collect_one (suc n) i = ap suc (length-collect_one n (i + 1))

length-float_round : (i : ℕ) → length (float_round i) ≤ 12
unfolding float_round
length-float_round i = omega arith

length-float_vals : (range : ℕ) → 4 ≤ range → length (float_vals range) ≤ 13 * range
unfolding float_vals
length-float_vals range h =
    let rounds : ℕ = if ltb (2 ^ 23) range then 2 ^ 23 else range in
    let few : rounds ≤ range = ground arith in
    let special : List ℕ =
      0x7f80_0000
      ∷ bit_or 0x8000_0000 0x7f80_0000
      ∷ 0x7fc0_0000
      ∷ bit_or 0x8000_0000 0x7fc0_0000
      ∷ [] in
    omega (
      arith,
      length-append (collect rounds 0 float_round) special,
      length-collect-le rounds 0 12 float_round length-float_round,
    )

-- `max - MAX_TEST_VALS` does not overflow, and a range up to INT_MAX is sampled, not exhausted.
abbrev pub IsTestable : ℕ → ℕ → Type 0
IsTestable min max =
    (max_test_vals ≤ biased max) × (max ≡ int_max → biased min + max_test_vals < biased max)

-- For the range of an argument that can be tested, `gen_vals` returns, and the array of MAX_TEST_VALS
-- values is large enough for a test range from 4 to TEST_RANGE, unless the range of the argument has
-- just one value more.
pub length-gen_vals :
    (arg : Option ℕ) (random : ℕ → ℕ) (min max range : ℕ)
    → 4 ≤ range
    → range ≤ test_range_max
    → biased max ≢ biased min + max_test_vals
    → IsTestable min max
    → (l : List ℕ) × (gen_vals arg random min max range ≡ some l) × (length l ≤ max_test_vals)
unfolding gen_vals
length-gen_vals (some val) random min max range lo hi ne ok = (val ∷ [], refl, omega arith)
length-gen_vals none random min max range lo hi ne ok = elim (Bool-cases (min == 1 && max == 1)) [
  | inl float ↦
      (float_vals range, ground (arith, float), omega (arith, hi, length-float_vals range lo))
  | inr int ↦ elim (dec_lt (biased min + max_test_vals) (biased max)) [
    | yes large ↦ (
      collect range 0 (sample_round random (biased min) (biased max)),
      ground (arith, int, large, ok.0),
      omega (
        arith,
        hi,
        length-collect-le range 0 5 (sample_round random (biased min) (biased max))
            (length-sample_round random (biased min) (biased max)),
      ),
    )
    | no small ↦ (
      collect (biased max + 1 - biased min) (biased min) (λ v. pattern_of v ∷ []),
      ground (arith, int, small, ok.0, ok.1),
      omega (arith, small, ne, length-collect_one (biased max + 1 - biased min) (biased min)),
    )
  ]
]

-- One value more, and the exhaustive loop writes past the array.
pub length-gen_vals_over :
    (random : ℕ → ℕ) (min max range : ℕ)
    → max ≢ 1
    → max ≢ int_max
    → biased max ≡ biased min + max_test_vals
    → (l : List ℕ) × (gen_vals none random min max range ≡ some l) × (length l ≡ max_test_vals + 1)
unfolding gen_vals
length-gen_vals_over random min max range ne top e = (
  collect (biased max + 1 - biased min) (biased min) (λ v. pattern_of v ∷ []),
  ground (arith, ne, top, e),
  omega (arith, e, length-collect_one (biased max + 1 - biased min) (biased min)),
)

-- That a number stands in a list.
abbrev pub Has : ℕ → List ℕ → Type 0
Has x l = (k : ℕ) × (get_elem? l k ≡ some x)

All-collect :
    (P : ℕ → Type 0) (n i : ℕ) (body : ℕ → List ℕ)
    → ((j : ℕ) → i ≤ j → j < i + n → All P (body j))
    → All P (collect n i body)
unfolding collect
All-collect P zero i body h = tt
All-collect P (suc n) i body h =
    All-append P (body i) (collect n (i + 1) body) (h i (omega arith) (omega arith))
      (All-collect P n (i + 1) body λ j lo hi. h j (omega arith) (omega arith))

-- That the pattern is that of an `int` between the two.
abbrev pub Between : ℕ → ℕ → ℕ → Type 0
Between min max x = (x < 2 ^ 32) × (biased min ≤ biased x) × (biased x ≤ biased max)

-- The two cases for an integer.
gen_vals_small :
    (random : ℕ → ℕ) (min max range : ℕ)
    → (min ≡ 1 → max ≢ 1)
    → biased max ≤ biased min + max_test_vals
    → IsTestable min max
    → gen_vals none random min max range
      ≡ some (collect (biased max + 1 - biased min) (biased min) (λ v. pattern_of v ∷ []))
unfolding gen_vals
gen_vals_small random min max range int h ok = ground (arith, int, h, ok.0, ok.1)

gen_vals_large :
    (random : ℕ → ℕ) (min max range : ℕ)
    → (min ≡ 1 → max ≢ 1)
    → biased min + max_test_vals < biased max
    → gen_vals none random min max range
      ≡ some (collect range 0 (sample_round random (biased min) (biased max)))
unfolding gen_vals
gen_vals_large random min max range int h = ground arith

All-if : (P : ℕ → Type 0) (b : Bool) (x : ℕ) → (b ≡ true → P x) → All P (if b then x ∷ [] else [])
All-if P true x h = (h refl, tt)
All-if P false x h = tt

sample_round-Between :
    (random : ℕ → ℕ) (min max i : ℕ)
    → biased min + max_test_vals < biased max
    → i < test_range_max
    → Between min max (random i)
    → All (Between min max) (sample_round random (biased min) (biased max) i)
unfolding sample_round
sample_round-Between random min max i h few rnd =
    let P : ℕ → Type 0 = Between min max in
    let above : Bool = not (ltb (i + 2 ^ 31) (biased min)) && not (ltb (biased max) (i + 2 ^ 31)) in
    let below : Bool = not (ltb (2 ^ 31 - i) (biased min)) && not (ltb (biased max) (2 ^ 31 - i)) in
    let ups : List ℕ = if above then i ∷ [] else [] in
    let downs : List ℕ = if below then (2 ^ 32 - i) % 2 ^ 32 ∷ [] else [] in
    (
      (omega arith, omega arith, omega arith),
      (
        (omega arith, omega arith, omega arith),
        All-append P (ups ++ downs) (random i ∷ [])
            (All-append P ups downs
              (All-if P above i λ e. (omega arith, ground (arith, e), ground (arith, e)))
              (All-if P below ((2 ^ 32 - i) % 2 ^ 32)
                λ e. (omega arith, ground (arith, e), ground (arith, e))))
            (rnd, tt),
      ),
    )

-- Every value for an argument that is an integer lies in the range of the argument, if the random
-- ones do and the test range is at most TEST_RANGE, for a range that can be tested.
pub gen_vals-Between :
    (random : ℕ → ℕ) (min max range : ℕ)
    → (min ≡ 1 → max ≢ 1)
    → biased min ≤ biased max
    → range ≤ test_range_max
    → ((i : ℕ) → Between min max (random i))
    → IsTestable min max
    → (l : List ℕ) × (gen_vals none random min max range ≡ some l) × All (Between min max) l
gen_vals-Between random min max range int ordered few rnd ok =
    elim (dec_lt (biased min + max_test_vals) (biased max)) [
      | yes large ↦ (
        collect range 0 (sample_round random (biased min) (biased max)),
        gen_vals_large random min max range int large,
        All-collect (Between min max) range 0 (sample_round random (biased min) (biased max))
            λ j lo hi. sample_round-Between random min max j large (omega arith) (rnd j),
      )
      | no small ↦ (
        collect (biased max + 1 - biased min) (biased min) (λ v. pattern_of v ∷ []),
        gen_vals_small random min max range int (omega arith) ok,
        All-collect (Between min max) (biased max + 1 - biased min) (biased min)
            (λ v. pattern_of v ∷ []) λ j lo hi. ((omega arith, omega arith, omega arith), tt),
      )
    ]

Has-collect :
    (n i v : ℕ) → i ≤ v → v < i + n → Has (pattern_of v) (collect n i (λ v. pattern_of v ∷ []))
unfolding collect
Has-collect zero i v lo hi = absurd (omega arith)
Has-collect (suc n) i v lo hi = elim (ℕ_discrete i v) [
  | yes here ↦ (0, ap (λ (w : ℕ). some (pattern_of w)) here)
  | no later ↦ let (k, e) = Has-collect n (i + 1) v (omega arith) (omega arith) in (suc k, e)
]

-- A range of at most MAX_TEST_VALS values and one, not up to INT_MAX, is tested without a gap.
pub gen_vals_exhaustive :
    (random : ℕ → ℕ) (min max range x : ℕ)
    → (min ≡ 1 → max ≢ 1)
    → biased max ≤ biased min + max_test_vals
    → Between min max x
    → IsTestable min max
    → (l : List ℕ) × (gen_vals none random min max range ≡ some l) × Has x l
gen_vals_exhaustive random min max range x int small b ok =
    let here : pattern_of (biased x) ≡ x = omega arith in
    (
      collect (biased max + 1 - biased min) (biased min) (λ v. pattern_of v ∷ []),
      gen_vals_small random min max range int small ok,
      rw here at
          (Has-collect (biased max + 1 - biased min) (biased min) (biased x) b.1 (omega arith)),
    )
