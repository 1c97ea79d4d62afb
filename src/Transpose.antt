-- ===== src/Transpose.antt =====
-- labs/cachelab-handout/trans.c and the reference functions of cachelab.c: matrix transposes for a
-- small cache. A matrix is its entry for each row and column; A and B do not overlap. A `for` loop
-- is a recursion on its rounds, with the number of rounds that its test allows.
pub mod Regions
pub mod Laws
pub mod Driver
mod Tests
use csapp_code.Prelude.{
  ℕ, zero, suc, ◌+◌, ◌-◌, ◌*◌, ◌/◌, Bool, true, false, ◌&&◌, ltb, ◌==◌, if◌then◌else◌,
}

abbrev pub Matrix : Type 0
Matrix = ℕ → ℕ → ℕ

-- `B[row][col] = v`
abbrev pub write : ℕ → ℕ → ℕ → Matrix → Matrix
write row col v b r c = if r == row && c == col then v else b r c

-- `for (x = from; ...; x += step) body`, for `n` rounds.
pub for_loop {ℓ} : {S : Type ℓ} → ℕ → ℕ → ℕ → (ℕ → S → S) → S → S
for_loop zero from step body s = s
for_loop (suc n) from step body s = for_loop n (from + step) step body (body from s)

-- The rounds of `for (x = from; x < to; x++)`.
abbrev pub up_to : ℕ → ℕ → ℕ
up_to from to = to - from

-- The rounds of `for (x = 0; x + step < to; x += step)` and, with the last block, of
-- `for (x = 0; x < to; x += step)`.
abbrev pub blocks_before : ℕ → ℕ → ℕ
blocks_before to step = (to - 1) / step

abbrev pub blocks_to : ℕ → ℕ → ℕ
blocks_to to step = (to + step - 1) / step

module _ (A : Matrix) where
  -- Four reads of a row of A, then four writes to a column of B.
  pub copy_four : ℕ → ℕ → Matrix → Matrix
  copy_four k j B =
      let a = A k j in
      let b = A k (j + 1) in
      let c = A k (j + 2) in
      let d = A k (j + 3) in
      write (j + 3) k d (write (j + 2) k c (write (j + 1) k b (write j k a B)))

  pub copy_eight : ℕ → ℕ → Matrix → Matrix
  copy_eight k j B =
      let a = A k j in
      let b = A k (j + 1) in
      let c = A k (j + 2) in
      let d = A k (j + 3) in
      let e = A k (j + 4) in
      let f = A k (j + 5) in
      let g = A k (j + 6) in
      let h = A k (j + 7) in
      write (j + 7) k h (
        write (j + 6) k g (
          write (j + 5) k f (
            write (j + 4) k e
              (write (j + 3) k d (write (j + 2) k c (write (j + 1) k b (write j k a B)))))))

  pub transpose_32 : ℕ → ℕ → Matrix → Matrix
  transpose_32 M N =
      for_loop (blocks_to M 8) 0 8
        λ i. for_loop (blocks_to N 8) 0 8 λ j. for_loop 8 i 1 λ k. copy_eight k j

  pub transpose_64 : ℕ → ℕ → Matrix → Matrix
  transpose_64 M N =
      for_loop (blocks_to M 4) 0 4
        λ i. for_loop (blocks_to N 4) 0 4 λ j. for_loop 4 i 1 λ k. copy_four k j

  -- The blocks of 16, then the rows of A below them, then the columns right of them. `i` and `j`
  -- have the values with which their loops ended.
  pub transpose_61 : ℕ → ℕ → Matrix → Matrix
  transpose_61 M N B =
      let i = blocks_before N 16 * 16 in
      let j = blocks_before M 16 * 16 in
      let blocks =
        for_loop (blocks_before N 16) 0 16
          (λ i.
            for_loop (blocks_before M 16) 0 16
              λ j. for_loop 16 i 1 λ k B. copy_eight k (j + 8) (copy_eight k j B))
          B in
      let below =
        for_loop (up_to i N) i 1 (λ k. for_loop (up_to 0 M) 0 1 λ l. write l k (A k l)) blocks in
      for_loop (up_to 0 i) 0 1 (λ k. for_loop (up_to j M) j 1 λ l. write l k (A k l)) below

  pub transpose_submit : ℕ → ℕ → Matrix → Matrix
  transpose_submit M N B =
      let B₁ = if M == 32 && N == 32 then transpose_32 M N B else B in
      let B₂ = if M == 64 && N == 64 then transpose_64 M N B₁ else B₁ in
      if M == 61 && N == 67 then transpose_61 M N B₂ else B₂

  -- `trans`, and the reference `correctTrans`.
  pub trans : ℕ → ℕ → Matrix → Matrix
  trans M N = for_loop N 0 1 λ i. for_loop M 0 1 λ j. write j i (A i j)

-- The loops of `is_transpose`, with the rounds left and the index.
pub row_agrees : Matrix → Matrix → ℕ → ℕ → ℕ → Bool
row_agrees A B i zero j = true
row_agrees A B i (suc n) j =
    let rest = row_agrees A B i n (j + 1) in if A i j == B j i then rest else false

pub rows_agree : Matrix → Matrix → ℕ → ℕ → ℕ → Bool
rows_agree A B M zero i = true
rows_agree A B M (suc n) i =
    let rest = rows_agree A B M n (i + 1) in if row_agrees A B i M 0 then rest else false

pub is_transpose : ℕ → ℕ → Matrix → Matrix → Bool
is_transpose M N A B = rows_agree A B M N 0
