-- ===== src/Transpose/Tests.antt =====
-- The transposes at concrete matrices.
use csapp_code.Prelude.{◌+◌, ◌*◌, ◌≡◌, inr, refl, false}
use csapp_code.Transpose.{Matrix, transpose_submit, is_transpose, rows_agree, row_agrees}
use csapp_code.Transpose.Regions.{Copied}
use csapp_code.Transpose.Laws.{transpose_submit-Copied}

-- Entry (r, c) is 100 r + c.
abbrev numbered : Matrix
numbered r c = 100 * r + c

abbrev blank : Matrix
blank r c = 0

transpose_submit-Copied_example :
    Copied numbered 0 61 0 67 blank (transpose_submit numbered 61 67 blank)
transpose_submit-Copied_example =
    transpose_submit-Copied numbered 61 67 blank (inr (inr (refl, refl)))

-- A matrix that is not a transpose is told.
blank_fails : is_transpose 2 2 numbered blank ≡ false
unfolding is_transpose rows_agree row_agrees
blank_fails = refl
