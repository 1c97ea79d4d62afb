-- ===== src/Btest/Tests.antt =====
-- Runs of the driver, and its theorems at concrete options.
use csapp_code.Prelude.{ℕ, List, ◌+◌, ◌-◌, ◌≤◌, ◌≡◌, refl, arith, none, some, length, codes, All}
use csapp_code.Btest.{
  all_vals, biased, pattern_of, collect, gen_vals, max_test_vals, TestRec, Options, test_arg,
  until_error, arg_test_range, arg_vals, test_function, Score, run_tests,
}
use csapp_code.Btest.Values.{length-gen_vals, Between, gen_vals-Between, Has, gen_vals_exhaustive}
use csapp_code.Btest.Puzzles.{integer_puzzles, IsFair, run_tests-integer_puzzles}

-- Random values that are all the smallest, and roots of 3.
abbrev options : Options
options = record {
  argval = λ i. none;
  random = λ min max i. pattern_of (biased min);
  roots = λ n. 3;
  test_fname = none;
  global_rating = 0;
}

options-IsFair : IsFair options
options-IsFair = record {
  no_args = λ i. refl;
  in_range = λ min max i h. (omega arith, omega arith, omega arith);
  small_roots = λ n. omega arith;
}

run_tests-integer_puzzles_example :
    (s : Score) × (run_tests options integer_puzzles
        (record { errors = 0; points = 0; max_points = 0 })
      ≡ some s)
    × (s.errors ≡ 0)
    × (s.points ≡ s.max_points)
run_tests-integer_puzzles_example = run_tests-integer_puzzles options options-IsFair

-- A solution that forgets the case of 3.
abbrev wrong : TestRec
wrong = record {
  name = codes "wrong";
  solution_funct = λ a b c. 0;
  test_funct = λ a b c. a + b - 5;
  args = 2;
  rating = 1;
  range_1 = (0, 3);
  range_2 = (2, 3);
  range_3 = (0, 0);
}

wrong_found : test_function options wrong ≡ some 1
unfolding test_function all_vals arg_vals arg_test_range gen_vals collect until_error test_arg
wrong_found = refl

length-gen_vals_example :
    (l : List ℕ) × (gen_vals none (λ i. 0) 0 31 9 ≡ some l) × (length l ≤ max_test_vals)
length-gen_vals_example =
    length-gen_vals none (λ i. 0) 0 31 9 (omega arith) (omega arith) (λ e. absurd (omega arith))
      (omega arith, λ e. absurd (omega arith))

gen_vals-Between_example :
    (l : List ℕ) × (gen_vals none (λ i. 5) 0 0x7fff_ffff 9 ≡ some l) × All (Between 0 0x7fff_ffff) l
gen_vals-Between_example =
    gen_vals-Between (λ i. 5) 0 0x7fff_ffff 9 (λ e. absurd (omega arith)) (omega arith)
      (omega arith) (λ i. (omega arith, omega arith, omega arith)) (omega arith, λ e. omega arith)

gen_vals_exhaustive_example : (l : List ℕ) × (gen_vals none (λ i. 0) 0 31 9 ≡ some l) × Has 17 l
gen_vals_exhaustive_example =
    gen_vals_exhaustive (λ i. 0) 0 31 9 17 (λ e. absurd (omega arith)) (omega arith)
      (omega arith, omega arith, omega arith) (omega arith, λ e. absurd (omega arith))
