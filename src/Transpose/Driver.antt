-- ===== src/Transpose/Driver.antt =====
-- labs/cachelab-handout: the registry of cachelab.c, the check of tracegen.c and the evaluation of
-- test-trans.c. A transpose function gives the new B; A is not written. `none` is an access outside
-- `func_list`, or a call of an entry that is not set. valgrind, the reference simulator, `rand` and
-- sscanf are arguments; options, files and messages are left out.
pub mod Laws
pub mod Filter
pub mod Perf
mod Tests
use csapp_code.Prelude.{
  ℕ, zero, suc, ◌+◌, Bool, true, false, not, ◌||◌, ◌&&◌, Option, none, some, List, [], ◌∷◌, ◌++◌,
  length, get_elem?, ltb, ◌==◌, if◌then◌else◌, codes, same_text,
}
use csapp_code.Transpose.{Matrix, write, for_loop, transpose_submit, trans}

-- `trans_func_t`
pub record TransFunc : Type 0 where
  pub func_ptr : ℕ → ℕ → Matrix → Matrix → Matrix
  pub description : List ℕ
  pub correct : ℕ
  pub num_hits : ℕ
  pub num_misses : ℕ
  pub num_evictions : ℕ

abbrev pub max_trans_funcs : ℕ
max_trans_funcs = 100

-- `func_list` up to `func_counter`.
pub register_trans_function :
    (ℕ → ℕ → Matrix → Matrix → Matrix) → List ℕ → List TransFunc → Option (List TransFunc)
register_trans_function f desc fs =
    if ltb (length fs) max_trans_funcs
    then some (
        fs
        ++ record {
          func_ptr = f;
          description = desc;
          correct = 0;
          num_hits = 0;
          num_misses = 0;
          num_evictions = 0;
        }
          ∷ [])
    else none

abbrev pub submit_description : List ℕ
submit_description = codes "Transpose submission"

pub register_functions : List TransFunc → Option (List TransFunc)
register_functions fs =
    elim (register_trans_function (λ M N A. transpose_submit A M N) submit_description fs) [
      | none ↦ none
      | some fs' ↦
          register_trans_function (λ M N A. trans A M N) (codes "Simple row-wise scan transpose")
            fs'
    ]

-- `initMatrix`, with the number of calls of `rand` so far.
pub record Filled : Type 0 where
  pub a : Matrix
  pub b : Matrix
  pub calls : ℕ

pub init_matrix : (ℕ → ℕ) → ℕ → ℕ → Filled → Filled
init_matrix rand M N = for_loop N 0 1 λ i. for_loop M 0 1 λ j m. record {
  a = write i j (rand m.calls) m.a;
  b = write j i (rand (m.calls + 1)) m.b;
  calls = m.calls + 2;
}

-- The loops of `validate`, with the rounds left and the index.
pub row_same : Matrix → Matrix → ℕ → ℕ → ℕ → Bool
row_same B C i zero j = true
row_same B C i (suc n) j =
    let rest = row_same B C i n (j + 1) in if B i j == C i j then rest else false

pub rows_same : Matrix → Matrix → ℕ → ℕ → ℕ → Bool
rows_same B C N zero i = true
rows_same B C N (suc n) i =
    let rest = rows_same B C N n (i + 1) in if row_same B C i N 0 then rest else false

-- C is cleared and filled by `correctTrans`.
pub validate : ℕ → ℕ → Matrix → Matrix → Bool
validate M N A B = rows_same B (trans A M N (λ r c. 0)) N M 0

-- The loop of tracegen's `main` from function `i` on, and the result of `main`.
pub run_functions : ℕ → ℕ → Matrix → Matrix → List TransFunc → ℕ → ℕ
run_functions M N A B [] i = 0
run_functions M N A B (f ∷ fs) i =
    let B' = f.func_ptr M N A B in
    let rest = run_functions M N A B' fs (i + 1) in if not (validate M N A B') then i + 1 else rest

-- From the fill on; `none` for `selectedFunc` is -1.
pub check_functions : ℕ → ℕ → Matrix → Matrix → List TransFunc → Option ℕ → Option ℕ
check_functions M N A B fs none = some (run_functions M N A B fs 0)
check_functions M N A B fs (some k) = elim (get_elem? fs k) [
  | none ↦ none
  | some f ↦ some (if not (validate M N A (f.func_ptr M N A B)) then k + 1 else 0)
]

-- A line of the trace that is an access to memory.
unfoldable pub is_access : List ℕ → Bool
is_access (a ∷ b ∷ c ∷ rest) = a == b' ' && c == b' ' && (b == b'S' || b == b'M' || b == b'L')
is_access _ = false

-- The loop of `eval_perf` over the lines of the trace, with `flag` and `addr`; `scan` is what sscanf
-- finds in a line.
pub filter_trace : (List ℕ → Option ℕ) → ℕ → ℕ → Bool → ℕ → List (List ℕ) → List (List ℕ)
filter_trace scan marker_start marker_end flag addr [] = []
filter_trace scan marker_start marker_end flag addr (buf ∷ lines) =
    let addr' : ℕ = elim (scan buf) [ none ↦ addr | some a ↦ a ] in
    let flag' = if addr' == marker_start then true else flag in
    let skipped = filter_trace scan marker_start marker_end flag addr lines in
    let rest = filter_trace scan marker_start marker_end flag' addr' lines in
    let more = if addr' == marker_end then [] else rest in
    if not (is_access buf)
    then skipped
    else if flag' && ltb addr' 0xffff_ffff
    then buf ∷ more
    else more

-- `struct results`; `none` is -1, and INT_MAX.
pub record Results : Type 0 where
  pub funcid : Option ℕ
  pub correct : ℕ
  pub misses : Option ℕ

-- What the programs that `eval_perf` starts leave for function `i`: the exit status of tracegen, the
-- markers, the trace, and the counts of the reference simulator for a filtered trace; `junk` is in
-- `addr` before an address is read.
pub record Tools : Type 0 where
  pub status : ℕ → ℕ
  pub markers : ℕ → ℕ × ℕ
  pub trace : ℕ → List (List ℕ)
  pub simulate : List (List ℕ) → ℕ × ℕ × ℕ
  pub scan : List ℕ → Option ℕ
  pub junk : ℕ

-- One round of `eval_perf`.
pub eval_one : Tools → ℕ → TransFunc → Results → TransFunc × Results
eval_one t i f r =
    let r₁ =
      if same_text f.description submit_description then record r { funcid = some i } else r in
    let mine : Bool = elim r₁.funcid [ none ↦ false | some k ↦ k == i ] in
    let (marker_start, marker_end) = t.markers i in
    let part = filter_trace t.scan marker_start marker_end false t.junk (t.trace i) in
    let (hits, misses, evictions) = t.simulate part in
    let r₂ = if mine then record r₁ { correct = 1 } else r₁ in
    let r₃ = if mine then record r₂ { misses = some misses } else r₂ in
    if not (t.status i == 0) then (f, r₁) else (
      record f { correct = 1; num_hits = hits; num_misses = misses; num_evictions = evictions },
      r₃,
    )

pub eval_from : Tools → ℕ → List TransFunc → Results → List TransFunc × Results
eval_from t i [] r = ([], r)
eval_from t i (f ∷ fs) r =
    let (f', r') = eval_one t i f r in let (fs', r'') = eval_from t (i + 1) fs r' in (f' ∷ fs', r'')

-- `results` as it starts, and `eval_perf`.
abbrev pub no_results : Results
no_results = record { funcid = none; correct = 0; misses = none }

pub eval_perf : Tools → Option (List TransFunc × Results)
eval_perf t = elim (register_functions []) [
  | none ↦ none
  | some fs ↦ some (eval_from t 0 fs no_results)
]
