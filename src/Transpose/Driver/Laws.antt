-- ===== src/Transpose/Driver/Laws.antt =====
-- The check of tracegen.c on the functions of trans.c.
use csapp_code.Prelude.{
  codes, inr, ap, inl, ◌⊎◌, ℕ, zero, suc, ◌+◌, ◌<◌, ◌≡◌, ◌↔◌, refl, ◌∙◌, sym, arith, true,
  Bool-cases, none, some, List, [], ◌∷◌,
}
use mathlib.Core.Option.{some-injective}
use csapp_code.Transpose.{transpose_submit, Matrix, trans, row_agrees, rows_agree}
use csapp_code.Transpose.Laws.{IsHandled, rows_agree_lem, trans-Copied, transpose_submit-Copied}
use csapp_code.Transpose.Regions.{Copied}
use csapp_code.Transpose.Driver.{
  submit_description, TransFunc, register_trans_function, register_functions, row_same, rows_same,
  validate, run_functions, check_functions,
}

row_same-row_agrees :
    (B C : Matrix) (i n j : ℕ) → row_same B C i n j ≡ row_agrees B (λ r c. C c r) i n j
unfolding row_same row_agrees
row_same-row_agrees B C i zero j = refl
row_same-row_agrees B C i (suc n) j = rw (row_same-row_agrees B C i n (j + 1)) refl

rows_same-rows_agree :
    (B C : Matrix) (N n i : ℕ) → rows_same B C N n i ≡ rows_agree B (λ r c. C c r) N n i
unfolding rows_same rows_agree
rows_same-rows_agree B C N zero i = refl
rows_same-rows_agree B C N (suc n) i =
    rw (rows_same-rows_agree B C N n (i + 1), row_same-row_agrees B C i N 0) refl

-- The check compares B with the transpose of A, entry by entry.
pub validate_lem :
    (M N : ℕ) (A B : Matrix) → validate M N A B ≡ true ↔ ((r c : ℕ) → r < M → c < N → B r c ≡ A c r)
unfolding validate
validate_lem M N A B =
    let C = trans A M N (λ r c. 0) in
    let same = rows_same-rows_agree B C N M 0 in
    let both = rows_agree_lem B (λ r c. C c r) N M 0 in
    (
      (λ e r c hr hc.
          let here = both.0 (sym same ∙ e) r c (omega arith) (omega (arith, hr)) hc in
          ground (arith, here, trans-Copied A M N (λ r c. 0) r c)),
      λ all.
          same
          ∙ both.1 (λ r c lo hr hc.
            ground (arith, all r c (omega (arith, hr)) hc, trans-Copied A M N (λ r c. 0) r c)),
    )

Copied-validate : (M N : ℕ) (A B B' : Matrix) → Copied A 0 M 0 N B B' → validate M N A B' ≡ true
Copied-validate M N A B B' copied =
    (validate_lem M N A B').1 λ r c hr hc. ground (arith, copied r c)

-- What tracegen looks for: each function, in its turn, leaves the transpose of A in B; and the first
-- that does not.
abbrev pub IsTransposed : ℕ → ℕ → Matrix → Matrix → Type 0
IsTransposed M N A B = (r c : ℕ) → r < M → c < N → B r c ≡ A c r

unfoldable pub AllTransposed : ℕ → ℕ → Matrix → Matrix → List TransFunc → Type 0
AllTransposed M N A B [] = Unit
AllTransposed M N A B (f ∷ fs) =
    IsTransposed M N A (f.func_ptr M N A B) × AllTransposed M N A (f.func_ptr M N A B) fs

unfoldable pub FirstBad : ℕ → ℕ → Matrix → Matrix → List TransFunc → ℕ → Type 0
FirstBad M N A B [] k = ⊥
FirstBad M N A B (f ∷ fs) zero = ¬ IsTransposed M N A (f.func_ptr M N A B)
FirstBad M N A B (f ∷ fs) (suc k) =
    IsTransposed M N A (f.func_ptr M N A B) × FirstBad M N A (f.func_ptr M N A B) fs k

run_functions_lem :
    (M N : ℕ) (A B : Matrix) (fs : List TransFunc) (i : ℕ)
    → ((run_functions M N A B fs i ≡ 0) × AllTransposed M N A B fs)
      ⊎ ((k : ℕ) × (run_functions M N A B fs i ≡ i + k + 1) × FirstBad M N A B fs k)
unfolding run_functions AllTransposed FirstBad
run_functions_lem M N A B [] i = inl (refl, tt)
run_functions_lem M N A B (f ∷ fs) i =
    let B' = f.func_ptr M N A B in
    let checked = validate_lem M N A B' in
    elim (Bool-cases (validate M N A B')) [
      | inr bad ↦ inr (0, ground (arith, bad), λ all. absurd (ground (arith, bad, checked.1 all)))
      | inl good ↦ elim (run_functions_lem M N A B' fs (i + 1)) [
        | inl (e, all) ↦ inl (ground (arith, good, e), (checked.0 good, all))
        | inr (k, e, first) ↦ inr (suc k, ground (arith, good, e), (checked.0 good, first))
      ]
    ]

-- tracegen gives 0 when every registered function, in its turn, leaves the transpose of A in B, and
-- otherwise the number of the first that does not, plus one.
pub check_functions_lem :
    (M N : ℕ) (A B : Matrix) (fs : List TransFunc)
    → ((check_functions M N A B fs none ≡ some 0) × AllTransposed M N A B fs)
      ⊎ ((k : ℕ) × (check_functions M N A B fs none ≡ some (k + 1)) × FirstBad M N A B fs k)
unfolding check_functions
check_functions_lem M N A B fs = elim (run_functions_lem M N A B fs 0) [
  | inl (e, all) ↦ inl (ap some e, all)
  | inr (k, e, first) ↦ inr (k, ap some (e ∙ omega arith), first)
]

-- What `register_functions` leaves in an empty registry.
abbrev pub unregistered : (ℕ → ℕ → Matrix → Matrix → Matrix) → List ℕ → TransFunc
unregistered f desc = record {
  func_ptr = f;
  description = desc;
  correct = 0;
  num_hits = 0;
  num_misses = 0;
  num_evictions = 0;
}

abbrev pub registered : List TransFunc
registered =
    unregistered (λ M N A. transpose_submit A M N) submit_description
    ∷ unregistered (λ M N A. trans A M N) (codes "Simple row-wise scan transpose")
    ∷ []

pub register_functions_lem : register_functions [] ≡ some registered
unfolding register_functions register_trans_function
register_functions_lem = refl

-- For each size that `transpose_submit` has code for, tracegen accepts the functions of trans.c, all
-- of them or a chosen one, whatever is in A and in B.
pub check_functions-register_functions :
    (M N : ℕ) (A B : Matrix) (fs : List TransFunc)
    → IsHandled M N
    → register_functions [] ≡ some fs
    → (check_functions M N A B fs none ≡ some 0)
      × (check_functions M N A B fs (some 0) ≡ some 0)
      × (check_functions M N A B fs (some 1) ≡ some 0)
unfolding check_functions run_functions
check_functions-register_functions M N A B fs h e =
    let B' = transpose_submit A M N B in
    let first = Copied-validate M N A B B' (transpose_submit-Copied A M N B h) in
    let second : (B : Matrix) → validate M N A (trans A M N B) ≡ true =
      λ B. Copied-validate M N A B (trans A M N B) (trans-Copied A M N B) in
    let same : fs ≡ registered = some-injective fs registered (sym e ∙ register_functions_lem) in
    rw same (rw (first, second B', second B) (refl, refl, refl))
