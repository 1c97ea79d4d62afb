-- ===== src/Malloc/Ranges/Laws.antt =====
-- Which blocks `add_range` takes, and what it misses.
use csapp_code.Prelude.{
  ℕ, ◌+◌, ◌-◌, ◌%◌, ◌≤◌, ◌<◌, ◌≡◌, ◌⊎◌, refl, arith, true, false, some, List, [], ◌∷◌, All,
}
use csapp_code.Malloc.{Heap, mem_heap_lo, mem_heap_hi}
use csapp_code.Malloc.Ranges.{Range, overlaps, add_range}

-- The two blocks have no byte in common.
abbrev pub Apart : Range → Range → Type 0
Apart p q = (p.hi < q.lo) ⊎ (q.hi < p.lo)

-- The block `p` lies strictly inside `q`.
abbrev pub Inside : Range → Range → Type 0
Inside p q = (q.lo < p.lo) × (p.hi < q.hi)

abbrev pub IsRange : Range → Type 0
IsRange p = p.lo ≤ p.hi

overlaps_none :
    (lo hi : ℕ) (ps : List Range)
    → lo ≤ hi
    → All IsRange ps
    → overlaps lo hi ps ≡ false
    → All (λ p. Apart p (record { lo = lo; hi = hi }) ⊎ Inside p (record { lo = lo; hi = hi })) ps
unfolding overlaps
overlaps_none lo hi [] h v e = tt
overlaps_none lo hi (p ∷ ps) h v e =
    (ground (arith, v.0), overlaps_none lo hi ps h v.1 (ground arith))

-- What `add_range` takes lies in the heap, is aligned to 8, and goes to the front of the list; each
-- block that is in the list already has no byte in common with it, or lies strictly inside it.
pub add_range_accepts :
    (h : Heap) (ranges ranges' : List Range) (lo size : ℕ)
    → All IsRange ranges
    → add_range h ranges lo size ≡ some (true, ranges')
    → let new : Range = record { lo = lo; hi = lo + size - 1 } in
      (ranges' ≡ new ∷ ranges)
      × IsRange new
      × (lo % 8 ≡ 0)
      × (mem_heap_lo h ≤ lo)
      × (lo + size - 1 ≤ mem_heap_hi h)
      × All (λ p. Apart p new ⊎ Inside p new) ranges
unfolding add_range
add_range_accepts h ranges ranges' lo size v e = (
  ground arith,
  ground arith,
  ground arith,
  ground arith,
  ground arith,
  overlaps_none lo (lo + size - 1) ranges (ground arith) v (ground arith),
)

overlaps_misses :
    (lo hi : ℕ) (ps : List Range)
    → All (λ p. Inside p (record { lo = lo; hi = hi }) × IsRange p) ps
    → overlaps lo hi ps ≡ false
unfolding overlaps
overlaps_misses lo hi [] v = refl
overlaps_misses lo hi (p ∷ ps) v = ground (arith, v.0, overlaps_misses lo hi ps v.1)

-- The test for overlap misses a block that encloses others: an aligned block in the heap is taken
-- although every block of the list lies strictly inside it.
pub add_range_misses :
    (h : Heap) (ranges : List Range) (lo size : ℕ)
    → 0 < size
    → lo % 8 ≡ 0
    → mem_heap_lo h ≤ lo
    → lo + size - 1 ≤ mem_heap_hi h
    → All (λ p. Inside p (record { lo = lo; hi = lo + size - 1 }) × IsRange p) ranges
    → add_range h ranges lo size ≡ some (true, record { lo = lo; hi = lo + size - 1 } ∷ ranges)
unfolding add_range
add_range_misses h ranges lo size pos al low high v =
    ground (arith, overlaps_misses lo (lo + size - 1) ranges v)
