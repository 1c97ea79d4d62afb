-- ===== src/Btest/Laws.antt =====
-- What a count of errors that `test_function` of btest.c returns says of the two functions.
use csapp_code.Prelude.{
  ℕ, zero, suc, ◌≤◌, ◌≡◌, ◌↔◌, refl, ◌∙◌, arith, true, Option, none, some, List, [], ◌∷◌, ltb,
  if◌then◌else◌, All,
}
use csapp_code.Btest.{TestRec, Options, test_arg, until_error, arg_vals, all_vals, test_function}

-- Values that `gen_vals` returned.
abbrev pub given : Option (List ℕ) → List ℕ
given none = []
given (some l) = l

-- `gen_vals` returns for each argument that the function has.
pub record IsGiven (o : Options) (t : TestRec) : Type 0 where
  pub first : ltb 0 t.args ≡ true → (l : List ℕ) × (arg_vals o t 0 t.range_1 ≡ some l)
  pub second : ltb 1 t.args ≡ true → (l : List ℕ) × (arg_vals o t 1 t.range_2 ≡ some l)
  pub third : ltb 2 t.args ≡ true → (l : List ℕ) × (arg_vals o t 2 t.range_3 ≡ some l)

-- The values that are tried for each argument: 0 for one that the function does not have.
abbrev pub tested_1 : Options → TestRec → List ℕ
tested_1 o t = if ltb 0 t.args then given (arg_vals o t 0 t.range_1) else 0 ∷ []

abbrev pub tested_2 : Options → TestRec → List ℕ
tested_2 o t = if ltb 1 t.args then given (arg_vals o t 1 t.range_2) else 0 ∷ []

abbrev pub tested_3 : Options → TestRec → List ℕ
tested_3 o t = if ltb 2 t.args then given (arg_vals o t 2 t.range_3) else 0 ∷ []

-- The two functions agree on every combination of the values.
abbrev pub Agrees : Options → TestRec → Type 0
Agrees o t =
    All
      (λ a.
        All (λ b. All (λ c. t.solution_funct a b c ≡ t.test_funct a b c) (tested_3 o t))
          (tested_2 o t))
      (tested_1 o t)

until_error-ext :
    (f g : ℕ → ℕ) → ((a : ℕ) → f a ≡ g a) → (l : List ℕ) → until_error f l ≡ until_error g l
unfolding until_error
until_error-ext f g h [] = refl
until_error-ext f g h (a ∷ l) = ground (arith, h a, until_error-ext f g h l)

until_error-one : (f : ℕ → ℕ) (a : ℕ) → until_error f (a ∷ []) ≡ f a
unfolding until_error
until_error-one f a = ground arith

until_error-le : (f : ℕ → ℕ) → ((a : ℕ) → f a ≤ 1) → (l : List ℕ) → until_error f l ≤ 1
unfolding until_error
until_error-le f h [] = omega arith
until_error-le f h (a ∷ l) = ground (arith, h a, until_error-le f h l)

-- No error is found exactly when no value gives one.
until_error_iff :
    (f : ℕ → ℕ) (P : ℕ → Type 0)
    → ((a : ℕ) → f a ≡ 0 ↔ P a)
    → (l : List ℕ) → until_error f l ≡ 0 ↔ All P l
unfolding until_error
until_error_iff f P h [] = ((λ e. tt), λ all. refl)
until_error_iff f P h (a ∷ l) =
    let rest = until_error_iff f P h l in
    (
      (λ e.
          let here : f a ≡ 0 = ground (arith, e) in
          ((h a).0 here, rest.0 (ground (arith, e, here)))),
      λ all.
          let here : f a ≡ 0 = (h a).1 all.0 in
          let others = rest.1 all.1 in ground (arith, here, others),
    )

module _ (t : TestRec) where
  nested : List ℕ → List ℕ → List ℕ → ℕ
  nested vs ws us =
      until_error (λ a. until_error (λ b. until_error (λ c. test_arg t a b c) us) ws) vs

  test_arg_iff : (a b c : ℕ) → test_arg t a b c ≡ 0 ↔ t.solution_funct a b c ≡ t.test_funct a b c
  unfolding test_arg
  test_arg_iff a b c = ground arith

  test_arg-le : (a b c : ℕ) → test_arg t a b c ≤ 1
  unfolding test_arg
  test_arg-le a b c = ground arith

  nested_iff :
      (vs ws us : List ℕ)
      → nested vs ws us ≡ 0
        ↔ All (λ a. All (λ b. All (λ c. t.solution_funct a b c ≡ t.test_funct a b c) us) ws) vs
  unfolding nested
  nested_iff vs ws us =
      until_error_iff _ _
        (λ a. until_error_iff _ _ (λ b. until_error_iff _ _ (test_arg_iff a b) us) ws) vs

  nested-le : (vs ws us : List ℕ) → nested vs ws us ≤ 1
  unfolding nested
  nested-le vs ws us =
      until_error-le _ (λ a. until_error-le _ (λ b. until_error-le _ (test_arg-le a b) us) ws) vs

  nested_1 : (vs : List ℕ) → nested vs (0 ∷ []) (0 ∷ []) ≡ until_error (λ a. test_arg t a 0 0) vs
  unfolding nested
  nested_1 vs = until_error-ext _ _ (λ a. until_error-one _ 0 ∙ until_error-one _ 0) vs

  nested_2 :
      (vs ws : List ℕ)
      → nested vs ws (0 ∷ []) ≡ until_error (λ a. until_error (λ b. test_arg t a b 0) ws) vs
  unfolding nested
  nested_2 vs ws = until_error-ext _ _ (λ a. until_error-ext _ _ (λ b. until_error-one _ 0) ws) vs

test_function-nested :
    (o : Options) (t : TestRec) (n : ℕ)
    → t.args ≡ n
    → n ≤ 3
    → IsGiven o t
    → test_function o t ≡ some (nested t (tested_1 o t) (tested_2 o t) (tested_3 o t))
unfolding test_function all_vals
test_function-nested o t zero e h v =
    ground (arith, e, nested_1 t (0 ∷ []), until_error-one (λ a. test_arg t a 0 0) 0)
test_function-nested o t (suc zero) e h v =
    let (vs, first) = v.first (rw e refl) in ground (arith, e, first, nested_1 t vs)
test_function-nested o t (suc (suc zero)) e h v =
    let (vs, first) = v.first (rw e refl) in
    let (ws, second) = v.second (rw e refl) in ground (arith, e, first, second, nested_2 t vs ws)
test_function-nested o t (suc (suc (suc zero))) e h v =
    let (vs, first) = v.first (rw e refl) in
    let (ws, second) = v.second (rw e refl) in
    let (us, third) = v.third (rw e refl) in
    unfold nested in ground (arith, e, first, second, third)
test_function-nested o t (suc (suc (suc (suc n)))) e h v = absurd (omega arith)

-- For a function of at most three arguments, for which `gen_vals` returns, `test_function` returns 0 or 1 errors: 0 exactly when
-- the solution and the test function agree on every combination of the generated values.
pub test_function_lem :
    (o : Options) (t : TestRec)
    → t.args ≤ 3
    → IsGiven o t
    → (e : ℕ) × (test_function o t ≡ some e) × (e ≤ 1) × (e ≡ 0 ↔ Agrees o t)
test_function_lem o t h v = (
  nested t (tested_1 o t) (tested_2 o t) (tested_3 o t),
  test_function-nested o t t.args refl h v,
  nested-le t (tested_1 o t) (tested_2 o t) (tested_3 o t),
  nested_iff t (tested_1 o t) (tested_2 o t) (tested_3 o t),
)
