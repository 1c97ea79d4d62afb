-- ===== src/Transpose/Driver/Tests.antt =====
-- tracegen.c and test-trans.c at concrete matrices and a short trace.
use csapp_code.Prelude.{
  ℕ, ◌+◌, ◌*◌, ◌≡◌, ◌⊎◌, ◌%◌, ◌^◌, inl, inr, refl, arith, false, Option, none, some, List, [], ◌∷◌,
  ◌++◌, codes,
}
use csapp_code.Transpose.{Matrix}
use csapp_code.Transpose.Driver.{
  TransFunc, is_access, check_functions, filter_trace, Tools, eval_perf,
}
use csapp_code.Transpose.Driver.Laws.{
  unregistered, registered, register_functions_lem, AllTransposed, FirstBad, check_functions_lem,
}
use csapp_code.Transpose.Driver.Filter.{IsPlain, ArePlain, low_lines, filter_trace_lem}
use csapp_code.Transpose.Driver.Perf.{simulated_misses, eval_perf-check_functions}

abbrev numbered : Matrix
numbered r c = 100 * r + c

abbrev blank : Matrix
blank r c = 0

-- A function that writes nothing.
abbrev idle : TransFunc
idle = unregistered (λ M N A B. B) (codes "idle")

check_functions_lem_example :
    ((check_functions 2 3 numbered blank (idle ∷ []) none ≡ some 0)
      × AllTransposed 2 3 numbered blank (idle ∷ []))
    ⊎ ((k : ℕ) × (check_functions 2 3 numbered blank (idle ∷ []) none ≡ some (k + 1))
        × FirstBad 2 3 numbered blank (idle ∷ []) k)
check_functions_lem_example = check_functions_lem 2 3 numbered blank (idle ∷ [])

-- A line " L 7" is an access to address 7.
abbrev address : List ℕ → Option ℕ
address (a ∷ b ∷ c ∷ d ∷ rest) = some d
address _ = none

abbrev line : ℕ → List ℕ
line d = 32 ∷ 76 ∷ 32 ∷ d ∷ []

filter_trace_lem_example :
    filter_trace address 10 11 false 0
      ((line 9 ∷ []) ++ line 10 ∷ ((line 12 ∷ line 0xffff_ffff ∷ []) ++ line 11 ∷ (line 13 ∷ [])))
    ≡ line 10 ∷ (low_lines address 10 11 (line 12 ∷ line 0xffff_ffff ∷ []) ++ line 11 ∷ [])
unfolding ArePlain IsPlain is_access
filter_trace_lem_example =
    filter_trace_lem address 10 11 0 (line 9 ∷ []) (line 12 ∷ line 0xffff_ffff ∷ []) (line 13 ∷ [])
      (line 10) (line 11) (inr (9, refl, refl, omega arith, omega arith), tt)
      (
        inr (12, refl, refl, omega arith, omega arith),
        (inr (0xffff_ffff, refl, refl, omega arith, omega arith), tt),
      )
      (refl, refl) (refl, refl) (omega arith, omega arith, omega arith)

-- A simulator that misses on every line, and the statuses of tracegen.
abbrev tools : Tools
tools = record {
  status = λ i. elim (check_functions 32 32 numbered blank registered (some i)) [
    | none ↦ 139
    | some n ↦ n % 2 ^ 8
  ];
  markers = λ i. (10, 11);
  trace = λ i. line 9 ∷ line 10 ∷ line 12 ∷ line 11 ∷ [];
  simulate = λ ls. (0, 3, 0);
  scan = address;
  junk = 0;
}

eval_perf-check_functions_example :
    (fs' : List TransFunc) × (eval_perf tools
      ≡ some
          (fs', record { funcid = some 0; correct = 1; misses = some (simulated_misses tools 0) }))
unfolding check_functions
eval_perf-check_functions_example =
    eval_perf-check_functions tools 32 32 numbered blank registered (inl (refl, refl))
      register_functions_lem (λ i n e. rw e refl)
