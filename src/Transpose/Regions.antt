-- ===== src/Transpose/Regions.antt =====
-- A program that only copies entries of A to their transposed places is told by the region of B
-- that it has written.
use csapp_code.Prelude.{ℕ, zero, suc, ◌+◌, ◌*◌, ◌≡◌, arith, Bool, ◌&&◌, ltb, leb, if◌then◌else◌}
use csapp_code.Transpose.{Matrix, write, for_loop, copy_four, copy_eight}

-- Whether `lo ≤ x < lo + n`.
abbrev pub within : ℕ → ℕ → ℕ → Bool
within lo n x = leb lo x && ltb x (lo + n)

-- From B to B' exactly the rows [r0, r0 + h) and columns [c0, c0 + w) were copied from A.
abbrev pub Copied : Matrix → ℕ → ℕ → ℕ → ℕ → Matrix → Matrix → Type 0
Copied A r0 h c0 w B B' =
    (r c : ℕ) → B' r c ≡ (if within r0 h r && within c0 w c then A c r else B r c)

module _ (A : Matrix) where
  pub copy_four-Copied : (k j : ℕ) (B : Matrix) → Copied A j 4 k 1 B (copy_four A k j B)
  unfolding copy_four
  copy_four-Copied k j B r c = ground arith

  pub copy_eight-Copied : (k j : ℕ) (B : Matrix) → Copied A j 8 k 1 B (copy_eight A k j B)
  unfolding copy_eight
  copy_eight-Copied k j B r c = ground arith

  pub write-Copied : (k l : ℕ) (B : Matrix) → Copied A l 1 k 1 B (write l k (A k l) B)
  write-Copied k l B r c = ground arith

  -- A loop whose rounds copy columns side by side.
  pub columns-Copied :
      (n from step r0 h : ℕ) (body : ℕ → Matrix → Matrix) (B : Matrix)
      → ((c : ℕ) (B : Matrix) → Copied A r0 h c step B (body c B))
      → Copied A r0 h from (n * step) B (for_loop n from step body B)
  unfolding for_loop
  columns-Copied zero from step r0 h body B one r c = ground arith
  columns-Copied (suc n) from step r0 h body B one r c =
      ground
        (arith, one from B r c, columns-Copied n (from + step) step r0 h body (body from B) one r c)

  -- A loop whose rounds copy rows one below the other.
  pub rows-Copied :
      (n from step c0 w : ℕ) (body : ℕ → Matrix → Matrix) (B : Matrix)
      → ((r : ℕ) (B : Matrix) → Copied A r step c0 w B (body r B))
      → Copied A from (n * step) c0 w B (for_loop n from step body B)
  unfolding for_loop
  rows-Copied zero from step c0 w body B one r c = ground arith
  rows-Copied (suc n) from step c0 w body B one r c =
      ground
        (arith, one from B r c, rows-Copied n (from + step) step c0 w body (body from B) one r c)
