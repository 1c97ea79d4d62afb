-- ===== src/Transpose/Driver/Perf.antt =====
-- What test-trans.c records for the submission.
use csapp_code.Prelude.{
  codes, ◌≢◌, ℕ, ◌%◌, ◌^◌, ◌≡◌, refl, ap, ◌∙◌, arith, true, false, some, List, [], same_text, ◌==◌,
  if◌then◌else◌,
}
use csapp_code.Transpose.{trans, transpose_submit, Matrix}
use csapp_code.Transpose.Laws.{IsHandled}
use csapp_code.Transpose.Driver.{
  submit_description, TransFunc, register_functions, check_functions, filter_trace, Results, Tools,
  eval_one, eval_from, no_results, eval_perf,
}
use csapp_code.Transpose.Driver.Laws.{
  unregistered, registered, register_functions_lem, check_functions-register_functions,
}

-- The misses of the reference simulator on the filtered trace of function `i`.
abbrev pub simulated_misses : Tools → ℕ → ℕ
simulated_misses t i =
    (t.simulate (filter_trace t.scan (t.markers i).0 (t.markers i).1 false t.junk (t.trace i))).1

-- The exit status of tracegen, of which the shell passes on eight bits.
abbrev pub IsStatus : Tools → ℕ → ℕ → Matrix → Matrix → List TransFunc → Type 0
IsStatus t M N A B fs =
    (i n : ℕ) → check_functions M N A B fs (some i) ≡ some n → t.status i ≡ n % 2 ^ 8

abbrev found : Tools → ℕ → Results
found t i = record { funcid = some i; correct = 1; misses = some (simulated_misses t i) }

eval_one_submission :
    (t : Tools) (i : ℕ) (f : TransFunc) (r : Results)
    → same_text f.description submit_description ≡ true
    → (eval_one t i f r).1 ≡ (if t.status i == 0 then found t i else record r { funcid = some i })
unfolding eval_one
eval_one_submission t i f r own = rw own (ground arith)

eval_one_other :
    (t : Tools) (i k : ℕ) (f : TransFunc) (r : Results)
    → same_text f.description submit_description ≡ false
    → r.funcid ≡ some k
    → k ≢ i
    → (eval_one t i f r).1 ≡ r
unfolding eval_one
eval_one_other t i k f r own before differ = rw (own, before) (ground (arith, differ))

-- The submission is the first of the two functions.
eval_registered :
    (t : Tools)
    → (eval_from t 0 registered no_results).1
      ≡ (if t.status 0 == 0 then found t 0 else record no_results { funcid = some 0 })
unfolding eval_from same_text
eval_registered t =
    let submission = unregistered (λ M N A. transpose_submit A M N) submit_description in
    let simple = unregistered (λ M N A. trans A M N) (codes "Simple row-wise scan transpose") in
    let first = eval_one_submission t 0 submission no_results refl in
    let known : (eval_one t 0 submission no_results).1.funcid ≡ some 0 =
      ap Results.funcid first ∙ ground arith in
    eval_one_other t 1 0 simple (eval_one t 0 submission no_results).1 refl known (omega arith)
    ∙ first

-- The submission counts as correct exactly when tracegen gives 0 for it.
pub eval_perf_lem :
    (t : Tools)
    → (fs : List TransFunc) × (eval_perf t
        ≡ some (fs, if t.status 0 == 0 then found t 0 else record no_results { funcid = some 0 }))
unfolding eval_perf
eval_perf_lem t = (
  (eval_from t 0 registered no_results).0,
  rw (eval_perf, register_functions_lem)
      (ap (λ r. some ((eval_from t 0 registered no_results).0, r)) (eval_registered t)),
)

-- When the statuses are those of tracegen, on a size that `transpose_submit` has code for and
-- whatever is in A and B, the submission is function 0 and counts as correct, and its misses are
-- those of the reference simulator on its filtered trace.
pub eval_perf-check_functions :
    (t : Tools) (M N : ℕ) (A B : Matrix) (fs : List TransFunc)
    → IsHandled M N
    → register_functions [] ≡ some fs
    → IsStatus t M N A B fs
    → (fs' : List TransFunc) × (eval_perf t
        ≡ some (fs', record { funcid = some 0; correct = 1; misses = some (simulated_misses t 0) }))
eval_perf-check_functions t M N A B fs h e status =
    let accepted = (check_functions-register_functions M N A B fs h e).1 in
    let (fs', ran) = eval_perf_lem t in (fs', ran ∙ rw (status 0 0 accepted) refl)
