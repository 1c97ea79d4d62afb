-- ===== src/Malloc/Ranges.antt =====
-- The range list of labs/malloclab-handout/mdriver.c, by which the driver checks the blocks that an
-- allocator hands out. A list of `range_t` is a list of pairs of addresses, the latest first. `none`
-- is the failed `assert`. The messages are left out, and the system's `malloc` does not fail.
pub mod Laws
mod Tests
use csapp_code.Prelude.{
  ℕ, ◌+◌, ◌-◌, ◌%◌, Bool, true, false, not, ◌||◌, ◌&&◌, Option, none, some, List, [], ◌∷◌, ltb, leb,
  ◌==◌, if◌then◌else◌,
}
use csapp_code.Malloc.{Heap, mem_heap_lo, mem_heap_hi}

-- The payload of a block: its first and its last byte.
pub record Range : Type 0 where
  pub lo : ℕ
  pub hi : ℕ

-- The test of the loop in `add_range`.
abbrev pub touches : ℕ → ℕ → Range → Bool
touches lo hi p = (leb p.lo lo && leb lo p.hi) || (leb p.lo hi && leb hi p.hi)

unfoldable pub overlaps : ℕ → ℕ → List Range → Bool
overlaps lo hi [] = false
overlaps lo hi (p ∷ ps) = let rest = overlaps lo hi ps in if touches lo hi p then true else rest

unfoldable pub add_range : Heap → List Range → ℕ → ℕ → Option (Bool × List Range)
add_range h ranges lo size =
    let hi = lo + size - 1 in
    if size == 0
    then none
    else if not (lo % 8 == 0)
    then some (false, ranges)
    else if ltb lo (mem_heap_lo h)
        || ltb (mem_heap_hi h) lo
        || ltb hi (mem_heap_lo h)
        || ltb (mem_heap_hi h) hi
    then some (false, ranges)
    else if overlaps lo hi ranges
    then some (false, ranges)
    else some (true, record { lo = lo; hi = hi } ∷ ranges)

unfoldable pub remove_range : List Range → ℕ → List Range
remove_range [] lo = []
remove_range (p ∷ ps) lo = let rest = remove_range ps lo in if p.lo == lo then ps else p ∷ rest

abbrev pub clear_ranges : List Range → List Range
clear_ranges ps = []
