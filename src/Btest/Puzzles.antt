-- ===== src/Btest/Puzzles.antt =====
-- The solutions of bits.c under the driver: the first eleven entries of the test set in decl.c,
-- the puzzles on integers but `ilog2`.
use csapp_code.Prelude.{
  ◌-◌, inr, inl, ℕ, ◌+◌, ◌^◌, ◌≤◌, ◌<◌, ◌≡◌, ◌≢◌, refl, ap, ◌∙◌, arith, Bool, true, false, none,
  some, List, [], ◌∷◌, codes, ltb, ◌==◌, if◌then◌else◌, All, All-map, Bool-cases,
}
use csapp_code.Datalab.{
  bit_count, test_bit_count, bit_and_puzzle, get_byte, logical_shift, bang, tmin, fits_bits,
  divpwr2, negate, is_positive, is_less_or_equal, test_bit_and, test_get_byte, test_logical_shift,
  test_bang, test_tmin, test_fits_bits, test_divpwr2, test_negate, test_is_positive,
  test_is_less_or_equal,
}
use csapp_code.Datalab.Laws.{bit_and_lem, get_byte_lem, bang_lem, negate_lem, is_less_or_equal_lem}
use csapp_code.Datalab.Count.{bit_count_lem}
use csapp_code.Datalab.Shift.{logical_shift_lem}
use csapp_code.Datalab.Ranges.{is_positive_lem, tmin_lem, fits_bits_lem, divpwr2_lem}
use csapp_code.Btest.{
  biased, test_range_max, TestRec, Options, arg_test_range, arg_vals, test_function, selected,
  run_one, run_tests, Score,
}
use csapp_code.Btest.Values.{IsTestable, Between, gen_vals-Between}
use csapp_code.Btest.Laws.{given, IsGiven, tested_1, tested_2, tested_3, Agrees, test_function_lem}

abbrev whole : ℕ × ℕ
whole = (0x8000_0000, 0x7fff_ffff)

abbrev puzzle_0 : List ℕ → ℕ → ℕ → ℕ → TestRec
puzzle_0 name rating f ft = record {
  name = name;
  solution_funct = λ a b c. f;
  test_funct = λ a b c. ft;
  args = 0;
  rating = rating;
  range_1 = whole;
  range_2 = whole;
  range_3 = whole;
}

abbrev puzzle_1 : List ℕ → ℕ → (ℕ → ℕ) → (ℕ → ℕ) → TestRec
puzzle_1 name rating f ft = record {
  name = name;
  solution_funct = λ a b c. f a;
  test_funct = λ a b c. ft a;
  args = 1;
  rating = rating;
  range_1 = whole;
  range_2 = whole;
  range_3 = whole;
}

abbrev puzzle_2 : List ℕ → ℕ → (ℕ → ℕ → ℕ) → (ℕ → ℕ → ℕ) → ℕ × ℕ → TestRec
puzzle_2 name rating f ft range = record {
  name = name;
  solution_funct = λ a b c. f a b;
  test_funct = λ a b c. ft a b;
  args = 2;
  rating = rating;
  range_1 = whole;
  range_2 = range;
  range_3 = whole;
}

-- The first eleven of the fifteen entries of `test_set`, in its order. Behind them stand `ilog2` and
-- the three puzzles on floats, of which `float_i2f` and `float_twice` are not solved.
pub integer_puzzles : List TestRec
integer_puzzles =
    puzzle_2 (codes "bitAnd") 1 bit_and_puzzle test_bit_and whole
    ∷ puzzle_2 (codes "getByte") 2 get_byte test_get_byte (0, 3)
    ∷ puzzle_2 (codes "logicalShift") 3 logical_shift test_logical_shift (0, 31)
    ∷ puzzle_1 (codes "bitCount") 4 bit_count test_bit_count
    ∷ puzzle_1 (codes "bang") 4 bang test_bang
    ∷ puzzle_0 (codes "tmin") 1 tmin test_tmin
    ∷ puzzle_2 (codes "fitsBits") 2 fits_bits test_fits_bits (1, 32)
    ∷ puzzle_2 (codes "divpwr2") 2 divpwr2 test_divpwr2 (0, 30)
    ∷ puzzle_1 (codes "negate") 2 negate test_negate
    ∷ puzzle_1 (codes "isPositive") 3 is_positive test_is_positive
    ∷ puzzle_2 (codes "isLessOrEqual") 3 is_less_or_equal test_is_less_or_equal whole
    ∷ []

-- What the driver is given: no fixed argument, random values in the range that was asked for, and
-- roots that are not above TEST_RANGE.
pub record IsFair (o : Options) : Type 0 where
  pub no_args : (i : ℕ) → o.argval i ≡ none
  pub in_range : (min max i : ℕ) → biased min ≤ biased max → Between min max (o.random min max i)
  pub small_roots : (n : ℕ) → o.roots n ≤ test_range_max

abbrev IsRange : ℕ × ℕ → Type 0
IsRange (min, max) = (min ≡ 1 → max ≢ 1) × (biased min ≤ biased max) × IsTestable min max

arg_test_range-le : (o : Options) (n : ℕ) → IsFair o → arg_test_range o n ≤ test_range_max
unfolding arg_test_range
arg_test_range-le o n v = ground (arith, v.small_roots n)

arg_vals-Between :
    (o : Options) (t : TestRec) (i min max : ℕ)
    → IsFair o
    → IsRange (min, max)
    → (l : List ℕ) × (arg_vals o t i (min, max) ≡ some l) × All (Between min max) l
unfolding arg_vals
arg_vals-Between o t i min max v r = rw (v.no_args i) (
    gen_vals-Between (o.random min max) min max (arg_test_range o t.args) r.0 r.1
      (arg_test_range-le o t.args v) (λ j. v.in_range min max j r.1) r.2)

given-Between :
    (o : Options) (t : TestRec) (i min max : ℕ)
    → IsFair o
    → IsRange (min, max)
    → All (Between min max) (given (arg_vals o t i (min, max)))
given-Between o t i min max v r = let (l, e, all) = arg_vals-Between o t i min max v r in rw e all

-- A value that is tried is in its range, if the function has that argument.
All-tried :
    (b : Bool) (P : ℕ → Type 0) (l : List ℕ)
    → All P l
    → All (λ a. b ≡ true → P a) (if b then l else 0 ∷ [])
All-tried true P l h = All-map P (λ a. true ≡ true → P a) (λ a p e. p) l h
All-tried false P l h = ((λ e. absurd (cc)), tt)

-- The ranges are ranges of integers, and the two functions agree wherever each argument is in its
-- range.
pub record IsSolved (t : TestRec) : Type 0 where
  pub few : t.args ≤ 3
  pub ranges : IsRange t.range_1 × IsRange t.range_2 × IsRange t.range_3
  pub right :
      (a b c : ℕ)
      → (ltb 0 t.args ≡ true → Between t.range_1.0 t.range_1.1 a)
      → (ltb 1 t.args ≡ true → Between t.range_2.0 t.range_2.1 b)
      → (ltb 2 t.args ≡ true → Between t.range_3.0 t.range_3.1 c)
      → t.solution_funct a b c ≡ t.test_funct a b c

module _ (o : Options) (fair : IsFair o) where
  IsSolved-Agrees : (t : TestRec) → IsSolved t → Agrees o t
  IsSolved-Agrees t s =
      let (r₁, r₂, r₃) = s.ranges in
      All-map _ _
        (λ a pa.
          All-map _ _
            (λ b pb.
              All-map _ _ (λ c pc. s.right a b c pa pb pc) (tested_3 o t)
                (All-tried (ltb 2 t.args) _ _
                  (given-Between o t 2 t.range_3.0 t.range_3.1 fair r₃)))
            (tested_2 o t)
            (All-tried (ltb 1 t.args) _ _ (given-Between o t 1 t.range_2.0 t.range_2.1 fair r₂)))
        (tested_1 o t)
        (All-tried (ltb 0 t.args) _ _ (given-Between o t 0 t.range_1.0 t.range_1.1 fair r₁))

  IsSolved-IsGiven : (t : TestRec) → IsSolved t → IsGiven o t
  IsSolved-IsGiven t s =
      let (r₁, r₂, r₃) = s.ranges in
      record {
        first = λ has.
            let (l, e, all) = arg_vals-Between o t 0 t.range_1.0 t.range_1.1 fair r₁ in (l, e);
        second = λ has.
            let (l, e, all) = arg_vals-Between o t 1 t.range_2.0 t.range_2.1 fair r₂ in (l, e);
        third = λ has.
            let (l, e, all) = arg_vals-Between o t 2 t.range_3.0 t.range_3.1 fair r₃ in (l, e);
      }

  test_function-IsSolved : (t : TestRec) → IsSolved t → test_function o t ≡ some 0
  test_function-IsSolved t s =
      let (e, returned, small, iff) = test_function_lem o t s.few (IsSolved-IsGiven t s) in
      returned ∙ ap (λ (n : ℕ). some n) (iff.1 (IsSolved-Agrees t s))

  -- A test set of solved puzzles gives no errors, and every point that can be had.
  run_tests-IsSolved :
      (ts : List TestRec) (s : Score)
      → All IsSolved ts
      → (s' : Score) × (run_tests o ts s ≡ some s')
        × (s'.errors ≡ s.errors)
        × (s'.points + s.max_points ≡ s'.max_points + s.points)
  unfolding run_tests run_one
  run_tests-IsSolved [] s h = (s, refl, refl, omega arith)
  run_tests-IsSolved (t ∷ ts) s h = elim (Bool-cases (selected o t)) [
    | inl run ↦
        let rating : ℕ = if o.global_rating == 0 then t.rating else o.global_rating in
        let next : Score = record {
          errors = s.errors + 0;
          points = s.points + rating;
          max_points = s.max_points + rating;
        } in
        let (s', ran, errors, points) = run_tests-IsSolved ts next h.1 in
        (
          s',
          ground (arith, run, test_function-IsSolved t h.0, ran),
          omega (arith, errors),
          omega (arith, points),
        )
    | inr skip ↦
        let (s', ran, errors, points) = run_tests-IsSolved ts s h.1 in
        (s', ground (arith, skip, ran), errors, points)
  ]

whole-IsRange : IsRange whole
whole-IsRange = ((λ e. absurd (omega arith)), omega arith, (omega arith, λ e. omega arith))

puzzle_1-IsSolved :
    (name : List ℕ) (rating : ℕ) (f ft : ℕ → ℕ)
    → ((x : ℕ) → x < 2 ^ 32 → f x ≡ ft x)
    → IsSolved (puzzle_1 name rating f ft)
puzzle_1-IsSolved name rating f ft h = record {
  few = omega arith;
  ranges = (whole-IsRange, whole-IsRange, whole-IsRange);
  right = λ a b c pa pb pc. h a (pa refl).0;
}

puzzle_2-IsSolved :
    (name : List ℕ) (rating : ℕ) (f ft : ℕ → ℕ → ℕ) (min max : ℕ)
    → IsRange (min, max)
    → ((x y : ℕ) → x < 2 ^ 32 → Between min max y → f x y ≡ ft x y)
    → IsSolved (puzzle_2 name rating f ft (min, max))
puzzle_2-IsSolved name rating f ft min max r h = record {
  few = omega arith;
  ranges = (whole-IsRange, r, whole-IsRange);
  right = λ a b c pa pb pc. h a b (pa refl).0 (pb refl);
}

to_range : (max : ℕ) → max ≢ 1 → max < 2 ^ 31 - 1 → IsRange (0, max)
to_range max ne small =
    ((λ e. absurd (omega arith)), omega arith, (omega arith, λ e. absurd (omega arith)))

integer_puzzles-IsSolved : All IsSolved integer_puzzles
unfolding integer_puzzles
integer_puzzles-IsSolved = (
  puzzle_2-IsSolved _ 1 bit_and_puzzle test_bit_and _ _ whole-IsRange
      λ x y hx hy. bit_and_lem x y hx hy.0,
  (
    puzzle_2-IsSolved _ 2 get_byte test_get_byte 0 3 (to_range 3 (omega arith) (omega arith))
        λ x y hx hy. get_byte_lem x y hx (omega arith),
    (
      puzzle_2-IsSolved _ 3 logical_shift test_logical_shift 0 31
          (to_range 31 (omega arith) (omega arith))
          λ x y hx hy. logical_shift_lem x y hx (omega arith),
      (
        puzzle_1-IsSolved _ 4 bit_count test_bit_count bit_count_lem,
        (
          puzzle_1-IsSolved _ 4 bang test_bang bang_lem,
          (
            record {
              few = omega arith;
              ranges = (whole-IsRange, whole-IsRange, whole-IsRange);
              right = λ a b c pa pb pc. tmin_lem;
            },
            (
              puzzle_2-IsSolved _ 2 fits_bits test_fits_bits 1 32
                  ((λ e. omega arith), omega arith, (omega arith, λ e. absurd (omega arith)))
                  λ x y hx hy. fits_bits_lem x y hx (omega arith) (omega arith),
              (
                puzzle_2-IsSolved _ 2 divpwr2 test_divpwr2 0 30
                    (to_range 30 (omega arith) (omega arith))
                    λ x y hx hy. divpwr2_lem x y hx (omega arith),
                (
                  puzzle_1-IsSolved _ 2 negate test_negate negate_lem,
                  (
                    puzzle_1-IsSolved _ 3 is_positive test_is_positive is_positive_lem,
                    (
                      puzzle_2-IsSolved _ 3 is_less_or_equal test_is_less_or_equal _ _ whole-IsRange
                          λ x y hx hy. is_less_or_equal_lem x y hx hy.0,
                      tt,
                    ),
                  ),
                ),
              ),
            ),
          ),
        ),
      ),
    ),
  ),
)

-- The solutions of bits.c for the first eleven entries of the test set pass: with no fixed argument and fair random values,
-- `run_tests` counts no error, and gives every point that can be had.
pub run_tests-integer_puzzles :
    (o : Options)
    → IsFair o
    → (s : Score) × (run_tests o integer_puzzles (record { errors = 0; points = 0; max_points = 0 })
        ≡ some s)
      × (s.errors ≡ 0)
      × (s.points ≡ s.max_points)
run_tests-integer_puzzles o fair =
    let (s, ran, errors, points) =
      run_tests-IsSolved o fair integer_puzzles (record { errors = 0; points = 0; max_points = 0 })
        integer_puzzles-IsSolved in
    (s, ran, errors, omega (arith, points))
