-- ===== src/Btest.antt =====
-- labs/datalab-handout/btest.c: the test driver of the bit puzzles. An `int` or `unsigned` is its
-- 32-bit pattern. `random min max i` stands for the call of `random_val` in round `i`, and `roots` for the
-- roots of TEST_RANGE that `pow` gives. Messages, the grading option and the timeout are left out.
pub mod Values
pub mod Laws
pub mod Puzzles
mod Tests
use Prim.Native.Nat.{bit_or}
use csapp_code.Prelude.{
  ◌>>=◌, ℕ, zero, suc, ◌+◌, ◌-◌, ◌*◌, ◌%◌, ◌^◌, Bool, true, false, not, ◌&&◌, ◌||◌, Option, none,
  some, List, [], ◌∷◌, ◌++◌, ltb, ◌==◌, if◌then◌else◌, length, same_text,
}

-- The value of an `int`, moved up by 2 ^ 31 so that the order is that of the numbers; and back.
abbrev pub biased : ℕ → ℕ
biased x = (x + 2 ^ 31) % 2 ^ 32

abbrev pub pattern_of : ℕ → ℕ
pattern_of v = (v + 2 ^ 31) % 2 ^ 32

abbrev pub test_range_max : ℕ
test_range_max = 500_000

abbrev pub max_test_vals : ℕ
max_test_vals = 13 * test_range_max

-- `for (i = from; ...; i++)`, for `n` rounds that each append to the values.
pub collect : ℕ → ℕ → (ℕ → List ℕ) → List ℕ
collect zero i body = []
collect (suc n) i body = body i ++ collect n (i + 1) body

-- One round for bit patterns of floats. Sums and differences of `unsigned` wrap.
pub float_round : ℕ → List ℕ
float_round i =
    let smallest_norm : ℕ = 0x0080_0000 in
    let one : ℕ = 0x3f80_0000 in
    let largest_norm : ℕ = 0x7f00_0000 in
    let sign : ℕ = 0x8000_0000 in
    i
    ∷ bit_or sign i
    ∷ ((smallest_norm + i) % 2 ^ 32)
    ∷ ((smallest_norm + 2 ^ 32 - i) % 2 ^ 32)
    ∷ bit_or sign ((smallest_norm + i) % 2 ^ 32)
    ∷ bit_or sign ((smallest_norm + 2 ^ 32 - i) % 2 ^ 32)
    ∷ ((one + i) % 2 ^ 32)
    ∷ ((one + 2 ^ 32 - i) % 2 ^ 32)
    ∷ bit_or sign ((one + i) % 2 ^ 32)
    ∷ bit_or sign ((one + 2 ^ 32 - i) % 2 ^ 32)
    ∷ ((largest_norm + 2 ^ 32 - i) % 2 ^ 32)
    ∷ bit_or sign ((largest_norm + 2 ^ 32 - i) % 2 ^ 32)
    ∷ []

pub float_vals : ℕ → List ℕ
float_vals test_range =
    let test_range = if ltb (2 ^ 23) test_range then 2 ^ 23 else test_range in
    collect test_range 0 float_round
    ++ 0x7f80_0000
      ∷ bit_or 0x8000_0000 0x7f80_0000
      ∷ 0x7fc0_0000
      ∷ bit_or 0x8000_0000 0x7fc0_0000
      ∷ []

-- One round of the sampling, with `min` and `max` as biased values.
pub sample_round : (ℕ → ℕ) → ℕ → ℕ → ℕ → List ℕ
sample_round random min max i =
    let near = pattern_of (min + i) ∷ pattern_of (max - i) ∷ [] in
    let above = if not (ltb (i + 2 ^ 31) min) && not (ltb max (i + 2 ^ 31)) then i ∷ [] else [] in
    let below =
      if not (ltb (2 ^ 31 - i) min) && not (ltb max (2 ^ 31 - i))
      then (2 ^ 32 - i) % 2 ^ 32 ∷ []
      else [] in
    near ++ above ++ below ++ random i ∷ []

abbrev pub int_max : ℕ
int_max = 0x7fff_ffff

-- `none` is an overflow of `max - MAX_TEST_VALS`, or the exhaustive loop up to INT_MAX, which `i <= max`
-- does not end, so that it writes past the array.
pub gen_vals : Option ℕ → (ℕ → ℕ) → ℕ → ℕ → ℕ → Option (List ℕ)
gen_vals (some val) random min max test_range = some (val ∷ [])
gen_vals none random min max test_range =
    if min == 1 && max == 1
    then some (float_vals test_range)
    else if ltb (biased max) max_test_vals
    then none
    else if not (ltb (biased min + max_test_vals) (biased max))
    then (if max == int_max
        then none
        else some (collect (biased max + 1 - biased min) (biased min) (λ v. pattern_of v ∷ [])))
    else some (collect test_range 0 (sample_round random (biased min) (biased max)))

-- `test_rec`. A function of fewer than three arguments ignores the others.
pub record TestRec : Type 0 where
  pub name : List ℕ
  pub solution_funct : ℕ → ℕ → ℕ → ℕ
  pub test_funct : ℕ → ℕ → ℕ → ℕ
  pub args : ℕ
  pub rating : ℕ
  pub range_1 : ℕ × ℕ
  pub range_2 : ℕ × ℕ
  pub range_3 : ℕ × ℕ

-- `test_0_arg` to `test_3_arg`: 1 where the results differ.
pub test_arg : TestRec → ℕ → ℕ → ℕ → ℕ
test_arg t a b c = if t.solution_funct a b c == t.test_funct a b c then 0 else 1

-- A loop over the values of one argument, which stops at the first error.
pub until_error : (ℕ → ℕ) → List ℕ → ℕ
until_error test [] = 0
until_error test (a ∷ more) =
    let rest = until_error test more in if test a == 0 then rest else test a

-- The fixed arguments of the options, and the numbers that the library functions give.
pub record Options : Type 0 where
  pub argval : ℕ → Option ℕ
  pub random : ℕ → ℕ → ℕ → ℕ
  pub roots : ℕ → ℕ
  pub test_fname : Option (List ℕ)
  pub global_rating : ℕ

-- The test range of one argument.
pub arg_test_range : Options → ℕ → ℕ
arg_test_range o args =
    let range = if args == 1 then test_range_max else o.roots args in
    if ltb range 1 then 1 else range

pub arg_vals : Options → TestRec → ℕ → ℕ × ℕ → Option (List ℕ)
arg_vals o t i (min, max) =
    gen_vals (o.argval i) (o.random min max) min max (arg_test_range o t.args)

-- The loop over the arguments. The entries for those that the function does not have are not read.
pub all_vals : Options → TestRec → Option (List ℕ × List ℕ × List ℕ)
all_vals o t = do
  vals_1 ← (if ltb 0 t.args then arg_vals o t 0 t.range_1 else some [])
  vals_2 ← (if ltb 1 t.args then arg_vals o t 1 t.range_2 else some [])
  vals_3 ← (if ltb 2 t.args then arg_vals o t 2 t.range_3 else some [])
  some (vals_1, vals_2, vals_3)

-- `none` is the exit on a wrong number of arguments, or a fault of `gen_vals`.
pub test_function : Options → TestRec → Option ℕ
test_function o t = if ltb 3 t.args then none else elim (all_vals o t) [
  | none ↦ none
  | some (vals_1, vals_2, vals_3) ↦
      if t.args == 0
      then some (test_arg t 0 0 0)
      else if t.args == 1
      then some (until_error (λ a. test_arg t a 0 0) vals_1)
      else if t.args == 2
      then some (until_error (λ a. until_error (λ b. test_arg t a b 0) vals_2) vals_1)
      else some (
          until_error (λ a. until_error (λ b. until_error (λ c. test_arg t a b c) vals_3) vals_2)
            vals_1)
]

pub record Score : Type 0 where
  pub errors : ℕ
  pub points : ℕ
  pub max_points : ℕ

pub selected : Options → TestRec → Bool
selected o t = elim o.test_fname [ none ↦ true | some name ↦ same_text t.name name ]

-- One round of `run_tests`.
pub run_one : Options → TestRec → Score → Option Score
run_one o t s = if not (selected o t) then some s else elim (test_function o t) [
  | none ↦ none
  | some terrors ↦
      let rating = if o.global_rating == 0 then t.rating else o.global_rating in
      some (record {
        errors = s.errors + terrors;
        points = s.points + (if terrors == 0 then rating else 0);
        max_points = s.max_points + rating;
      })
]

pub run_tests : Options → List TestRec → Score → Option Score
run_tests o [] s = some s
run_tests o (t ∷ ts) s = elim (run_one o t s) [ none ↦ none | some s' ↦ run_tests o ts s' ]
