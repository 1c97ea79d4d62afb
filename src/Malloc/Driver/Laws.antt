-- ===== src/Malloc/Driver/Laws.antt =====
-- What the replay of mdriver.c makes of blocks whose fill byte is above 127.
use csapp_code.Prelude.{
  inr, inl, ℕ, zero, suc, ◌%◌, ◌≤◌, ◌<◌, ◌≡◌, ◌≢◌, arith, false, ltb, if◌then◌else◌, Option-cases,
}
use csapp_code.Malloc.{Bytes, mm_realloc}
use csapp_code.Malloc.Ranges.{add_range, remove_range}
use csapp_code.Malloc.Driver.{Driver, passed, preserved, realloc_round}

-- A `char` is never a number from 128 to 255.
preserved_never : (m : Bytes) (p v n : ℕ) → 128 ≤ v → v < 256 → 0 < n → preserved m p v n ≡ false
unfolding preserved
preserved_never m p v zero lo hi pos = absurd (omega arith)
preserved_never m p v (suc n) lo hi pos = ground arith

-- A request to reallocate a block never passes if the low byte of its index is 128 or more and the
-- old and the new size are positive, whatever the allocator did: the bytes are read as signed and
-- compared with an unsigned fill byte.
pub realloc_round_never :
    (d d' : Driver) (index size : ℕ)
    → 128 ≤ index % 256
    → 0 < size
    → 0 < d.block_sizes index
    → realloc_round d index size ≢ passed d'
unfolding realloc_round
realloc_round_never d d' index size high pos old e =
    elim (Option-cases (mm_realloc d.heap (d.blocks index) size)) [
      | inl failed ↦ ground (arith, failed, e)
      | inr ((p, h), got) ↦
          elim (Option-cases (add_range h (remove_range d.ranges (d.blocks index)) p size)) [
            | inl failed ↦ ground (arith, got, failed, e)
            | inr ((ok, ranges), added) ↦ ground (
              arith,
              got,
              added,
              e,
              preserved_never h.bytes p (index % 256)
                  (if ltb size (d.block_sizes index) then size else d.block_sizes index),
            )
          ]
    ]
