-- ===== src/Transpose/Laws.antt =====
-- Each transpose copies the whole of A, and writes nothing outside B.
use mathlib.Core.Path.{subst}
use csapp_code.Prelude.{
  ℕ, zero, suc, ◌+◌, ◌*◌, ◌≤◌, ◌<◌, ◌≡◌, ◌⊎◌, ◌↔◌, inl, inr, refl, arith, true, ◌==◌, Bool-cases,
}
use csapp_code.Transpose.{
  Matrix, write, for_loop, copy_eight, transpose_32, transpose_64, transpose_61, transpose_submit,
  trans, row_agrees, rows_agree, is_transpose,
}
use csapp_code.Transpose.Regions.{
  Copied, copy_four-Copied, copy_eight-Copied, write-Copied, columns-Copied, rows-Copied,
}

-- The sizes that `transpose_submit` has code for.
abbrev pub IsHandled : ℕ → ℕ → Type 0
IsHandled M N = ((M ≡ 32) × (N ≡ 32)) ⊎ (((M ≡ 64) × (N ≡ 64)) ⊎ ((M ≡ 61) × (N ≡ 67)))

module _ (A : Matrix) where
  transpose_32-Copied : (B : Matrix) → Copied A 0 32 0 32 B (transpose_32 A 32 32 B)
  unfolding transpose_32
  transpose_32-Copied B = columns-Copied A 4 0 8 0 32 _ B λ i B.
      rows-Copied A 4 0 8 i 8 _ B
        λ j B. columns-Copied A 8 i 1 j 8 _ B λ k B. copy_eight-Copied A k j B

  transpose_64-Copied : (B : Matrix) → Copied A 0 64 0 64 B (transpose_64 A 64 64 B)
  unfolding transpose_64
  transpose_64-Copied B = columns-Copied A 16 0 4 0 64 _ B λ i B.
      rows-Copied A 16 0 4 i 4 _ B
        λ j B. columns-Copied A 4 i 1 j 4 _ B λ k B. copy_four-Copied A k j B

  copy_sixteen-Copied :
      (k j : ℕ) (B : Matrix) → Copied A j 16 k 1 B (copy_eight A k (j + 8) (copy_eight A k j B))
  copy_sixteen-Copied k j B r c =
      ground (
        arith,
        copy_eight-Copied A k j B r c,
        copy_eight-Copied A k (j + 8) (copy_eight A k j B) r c,
      )

  -- The rows that are left of A, or of its columns.
  rest-Copied :
      (k0 nk l0 nl : ℕ) (B : Matrix)
      → Copied A l0
          (nl * 1)
          k0
          (nk * 1)
          B
          (for_loop nk k0 1 (λ k. for_loop nl l0 1 λ l. write l k (A k l)) B)
  rest-Copied k0 nk l0 nl B =
      columns-Copied A nk k0 1 l0 (nl * 1) _ B
        λ k B. rows-Copied A nl l0 1 k 1 _ B λ l B. write-Copied A k l B

  blocks_61 : Matrix → Matrix
  blocks_61 =
      for_loop 4 0 16
        λ i. for_loop 3 0 16 λ j. for_loop 16 i 1 λ k B. copy_eight A k (j + 8) (copy_eight A k j B)

  blocks_61-Copied : (B : Matrix) → Copied A 0 48 0 64 B (blocks_61 B)
  unfolding blocks_61
  blocks_61-Copied B = columns-Copied A 4 0 16 0 48 _ B λ i B.
      rows-Copied A 3 0 16 i 16 _ B
        λ j B. columns-Copied A 16 i 1 j 16 _ B λ k B. copy_sixteen-Copied k j B

  transpose_61-Copied : (B : Matrix) → Copied A 0 61 0 67 B (transpose_61 A 61 67 B)
  unfolding transpose_61 blocks_61
  transpose_61-Copied B r c =
      let blocks = blocks_61 B in
      let below = for_loop 3 64 1 (λ k. for_loop 61 0 1 λ l. write l k (A k l)) blocks in
      let first = blocks_61-Copied B r c in
      let second = rest-Copied 64 3 0 61 blocks r c in
      let third = rest-Copied 0 64 48 13 below r c in ground (arith, first, second, third)

  -- For each size that it has code for, `transpose_submit` makes B the transpose of A: entry (r, c)
  -- of the M rows and N columns of B is entry (c, r) of A, and nothing outside them is written.
  pub transpose_submit-Copied :
      (M N : ℕ) (B : Matrix) → IsHandled M N → Copied A 0 M 0 N B (transpose_submit A M N B)
  unfolding transpose_submit
  transpose_submit-Copied M N B (inl e) = rw (e.0, e.1) (transpose_32-Copied B)
  transpose_submit-Copied M N B (inr (inl e)) = rw (e.0, e.1) (transpose_64-Copied B)
  transpose_submit-Copied M N B (inr (inr e)) = rw (e.0, e.1) (transpose_61-Copied B)

  -- For every other size it leaves B as it was.
  pub transpose_submit_unhandled :
      (M N : ℕ) (B : Matrix) → ¬ IsHandled M N → transpose_submit A M N B ≡ B
  unfolding transpose_submit
  transpose_submit_unhandled M N B h = ground arith

  -- `trans`, like the reference, makes B the transpose of A for every size.
  pub trans-Copied : (M N : ℕ) (B : Matrix) → Copied A 0 M 0 N B (trans A M N B)
  unfolding trans
  trans-Copied M N B r c = ground (
    arith,
    (columns-Copied A N 0 1 0 (M * 1) _ B
          λ i B. rows-Copied A M 0 1 i 1 _ B λ j B. write-Copied A i j B)
        r c,
  )

-- The check of one row, and of all.
row_agrees_lem :
    (A B : Matrix) (i n j : ℕ)
    → row_agrees A B i n j ≡ true ↔ ((l : ℕ) → j ≤ l → l < j + n → A i l ≡ B l i)
unfolding row_agrees
row_agrees_lem A B i zero j = ((λ e l lo hi. absurd (omega arith)), λ all. refl)
row_agrees_lem A B i (suc n) j =
    let rest = row_agrees_lem A B i n (j + 1) in
    (
      (λ e l lo hi.
          let here : A i j ≡ B j i = ground (arith, e) in
          let later : row_agrees A B i n (j + 1) ≡ true = ground (arith, e) in
          elim (Bool-cases (j == l)) [
            | inl q ↦ subst (λ x. A i x ≡ B x i) (ground (arith, q)) here
            | inr q ↦ rest.0 later l (ground (arith, q, lo)) (omega arith)
          ]),
      λ all.
          let here = all j (omega arith) (omega arith) in
          let others = rest.1 (λ l lo hi. all l (omega arith) (omega arith)) in
          ground (arith, here, others),
    )

pub rows_agree_lem :
    (A B : Matrix) (M n i : ℕ)
    → rows_agree A B M n i ≡ true ↔ ((k l : ℕ) → i ≤ k → k < i + n → l < M → A k l ≡ B l k)
unfolding rows_agree
rows_agree_lem A B M zero i = ((λ e k l lo hi. absurd (omega arith)), λ all. refl)
rows_agree_lem A B M (suc n) i =
    let row = row_agrees_lem A B i M 0 in
    let rest = rows_agree_lem A B M n (i + 1) in
    (
      (λ e k l lo hi inside.
          let here : row_agrees A B i M 0 ≡ true = ground (arith, e) in
          let later : rows_agree A B M n (i + 1) ≡ true = ground (arith, e) in
          elim (Bool-cases (i == k)) [
            | inl q ↦
                subst (λ x. A x l ≡ B l x) (ground (arith, q))
                  (row.0 here l (omega arith) (omega arith))
            | inr q ↦ rest.0 later k l (ground (arith, q, lo)) (omega arith) inside
          ]),
      λ all.
          let here = row.1 (λ l lo hi. all i l (omega arith) (omega arith) (omega arith)) in
          let others = rest.1 (λ k l lo hi inside. all k l (omega arith) (omega arith) inside) in
          ground (arith, here, others),
    )

-- The check of a transpose succeeds on the result of `transpose_submit`, for each size that it has
-- code for and whatever was in B.
pub is_transpose-transpose_submit :
    (A B : Matrix) (M N : ℕ) → IsHandled M N → is_transpose M N A (transpose_submit A M N B) ≡ true
unfolding is_transpose
is_transpose-transpose_submit A B M N h =
    (rows_agree_lem A (transpose_submit A M N B) M N 0).1
      λ k l lo hi inside. ground (arith, transpose_submit-Copied A M N B h l k)
