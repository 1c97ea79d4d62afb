-- ===== src/Malloc/Driver/Inv.antt =====
-- What `eval_mm_valid` of mdriver.c keeps of the naive allocator's blocks.
use csapp_code.Prelude.{
  ℕ, ◌+◌, ◌-◌, ◌%◌, ◌≤◌, ◌<◌, ◌≡◌, ◌≢◌, refl, sym, ◌∙◌, arith, Bool, true, false, some, List, [],
  ◌∷◌, All, All-map, inl,
}
use native.Mathlib.Decide.{ℕ_discrete}
use mathlib.Core.Path.{subst}
use csapp_code.Threads.{put_at}
use csapp_code.Malloc.{Bytes, Heap, mem_heap_lo, mem_heap_hi}
use csapp_code.Malloc.Laws.{IsHeap, taken, Allocated}
use csapp_code.Malloc.Realloc.{IsBlock, load-kept, Reallocated}
use csapp_code.Malloc.Ranges.{Range, overlaps, add_range, remove_range}
use csapp_code.Malloc.Driver.{Driver, memset, remember}

-- A range of the list lies below `brk`.
abbrev pub IsBelow : ℕ → Range → Type 0
IsBelow brk r = (r.lo ≤ r.hi) × (r.hi < brk)

abbrev pub IsFilled : Bytes → ℕ → ℕ → ℕ → Type 0
IsFilled m p v size = (j : ℕ) → j < size → m (p + j) ≡ v

-- The block of an index, with the low byte of the index all over it.
abbrev pub IsWritten : Heap → ℕ → ℕ → ℕ → Type 0
IsWritten h i p size = IsBlock h p size × IsFilled h.bytes p (i % 256) size

-- While a trace is replayed from the heap `h`, of which `used` bytes are taken.
pub record IsDriver (h : Heap) (used : ℕ) (seen : ℕ → Bool) (d : Driver) : Type 0 where
  pub valid : IsHeap d.heap
  pub start_kept : d.heap.mem_start_brk ≡ h.mem_start_brk
  pub max_kept : d.heap.mem_max_addr ≡ h.mem_max_addr
  pub brk : d.heap.mem_brk ≡ h.mem_start_brk + used
  pub ranges : All (IsBelow d.heap.mem_brk) d.ranges
  pub blocks : (i : ℕ) → seen i ≡ true → IsWritten d.heap i (d.blocks i) (d.block_sizes i)

overlaps-below :
    (p hi : ℕ) (rs : List Range) → p ≤ hi → All (IsBelow p) rs → overlaps p hi rs ≡ false
unfolding overlaps
overlaps-below p hi [] h v = refl
overlaps-below p hi (r ∷ rs) h v = ground (arith, v.0, overlaps-below p hi rs h v.1)

pub remove_range-All :
    (P : Range → Type 0) (rs : List Range) (lo : ℕ) → All P rs → All P (remove_range rs lo)
unfolding remove_range
remove_range-All P [] lo h = tt
remove_range-All P (r ∷ rs) lo h = elim (ℕ_discrete r.lo lo) [
  | yes here ↦
      let found : remove_range (r ∷ rs) lo ≡ rs = ground (arith, here) in
      subst (All P) (sym found) h.1
  | no other ↦
      let kept : remove_range (r ∷ rs) lo ≡ r ∷ remove_range rs lo = ground (arith, other) in
      subst (All P) (sym kept) (h.0, remove_range-All P rs lo h.1)
]

-- What both kinds of allocation give: a block at the end of the heap, with everything below kept.
pub record IsFresh (old : Heap) (size p : ℕ) (h : Heap) : Type 0 where
  pub valid : IsHeap h
  pub block : IsBlock h p size
  pub place : p ≡ old.mem_brk + 8
  pub kept : (a : ℕ) → a < old.mem_brk → h.bytes a ≡ old.bytes a
  pub start_kept : h.mem_start_brk ≡ old.mem_start_brk
  pub max_kept : h.mem_max_addr ≡ old.mem_max_addr
  pub brk : h.mem_brk ≡ old.mem_brk + taken size

pub Allocated-IsFresh :
    (old : Heap) (size p : ℕ) (h : Heap)
    → IsHeap old
    → Allocated old size p h
    → IsFresh old size p h
Allocated-IsFresh old size p h v a = record {
  valid = a.valid;
  block = record {
    behind_header = omega (arith, a.place, a.start_kept, v.above);
    inside = a.inside;
    header = a.header;
  };
  place = a.place;
  kept = λ x lt. a.kept x (inl lt);
  start_kept = a.start_kept;
  max_kept = a.max_kept;
  brk = a.brk;
}

pub Reallocated-IsFresh :
    (old : Heap) (q size old_size p : ℕ) (h : Heap)
    → Reallocated old q size old_size p h
    → IsFresh old size p h
Reallocated-IsFresh old q size old_size p h r = record {
  valid = r.valid;
  block = r.block;
  place = r.place;
  kept = r.kept;
  start_kept = r.start_kept;
  max_kept = r.max_kept;
  brk = r.brk;
}

pub add_range-IsFresh :
    (old h : Heap) (size p : ℕ) (rs : List Range)
    → 0 < size
    → IsHeap old
    → IsFresh old size p h
    → All (IsBelow old.mem_brk) rs
    → add_range h rs p size ≡ some (true, record { lo = p; hi = p + size - 1 } ∷ rs)
unfolding add_range mem_heap_lo mem_heap_hi
add_range-IsFresh old h size p rs pos v f below = ground (
  arith,
  pos,
  f.place,
  f.block.inside,
  f.block.behind_header,
  v.aligned,
  overlaps-below p (p + size - 1) rs (omega (arith, pos)) (
      All-map (IsBelow old.mem_brk) (IsBelow p) (λ r b. (b.0, omega (arith, b.1, f.place))) rs
        below),
)

memset-below : (p v n a : ℕ) (m : Bytes) → a < p → memset p v n m a ≡ m a
memset-below p v n a m h = ground arith

memset-inside : (p v n j : ℕ) (m : Bytes) → j < n → memset p v n m (p + j) ≡ v
memset-inside p v n j m h = ground arith

memset-byte : (p v n a : ℕ) (m : Bytes) → v < 256 → m a < 256 → memset p v n m a < 256
memset-byte p v n a m h k = ground arith

-- A block whose header and bytes are kept is still one.
IsBlock-kept :
    (old new : Heap) (q size : ℕ)
    → IsBlock old q size
    → new.mem_start_brk ≡ old.mem_start_brk
    → old.mem_brk ≤ new.mem_brk
    → ((i : ℕ) → i < 4 → new.bytes (q - 8 + i) ≡ old.bytes (q - 8 + i))
    → IsBlock new q size
IsBlock-kept old new q size b start brk same = record {
  behind_header = omega (arith, b.behind_header, start);
  inside = omega (arith, b.inside, brk);
  header = load-kept (q - 8) old.bytes new.bytes same ∙ b.header;
}

put_two :
    (P : ℕ → ℕ → ℕ → Type 0) (index p size : ℕ) (f g : ℕ → ℕ) (i : ℕ)
    → P index p size
    → (i ≢ index → P i (f i) (g i))
    → P i (put_at index p f i) (put_at index size g i)
put_two P index p size f g i here there = elim (ℕ_discrete i index) [
  | yes same ↦
      let is_p : put_at index p f i ≡ p = ground (arith, same) in
      let is_size : put_at index size g i ≡ size = ground (arith, same) in
      rw (is_p, is_size, same) here
  | no other ↦
      let is_p : put_at index p f i ≡ f i = ground (arith, other) in
      let is_size : put_at index size g i ≡ g i = ground (arith, other) in
      rw (is_p, is_size) (there other)
]

seen_before :
    (seen : ℕ → Bool) (index i : ℕ) → put_at index true seen i ≡ true → i ≢ index → seen i ≡ true
seen_before seen index i s other = ground (arith, s, other)

pub remember-IsDriver :
    (h : Heap) (used : ℕ) (seen : ℕ → Bool) (d : Driver) (h' : Heap) (rs : List Range)
    (index p size : ℕ)
    → 0 < size
    → IsDriver h used seen d
    → IsFresh d.heap size p h'
    → All (IsBelow d.heap.mem_brk) rs
    → IsDriver h
        (used + taken size)
        (put_at index true seen)
        (remember d h' (record { lo = p; hi = p + size - 1 } ∷ rs) index p size)
unfolding remember
remember-IsDriver h used seen d h' rs index p size pos v f below = record {
  valid = record {
    some_base = f.valid.some_base;
    above = f.valid.above;
    below = f.valid.below;
    aligned = f.valid.aligned;
    is_bytes = λ a. memset-byte p (index % 256) size a h'.bytes (omega arith) (f.valid.is_bytes a);
  };
  start_kept = f.start_kept ∙ v.start_kept;
  max_kept = f.max_kept ∙ v.max_kept;
  brk = omega (arith, f.brk, v.brk);
  ranges = (
    (omega (arith, pos), omega (arith, pos, f.block.inside)),
    All-map (IsBelow d.heap.mem_brk) (IsBelow h'.mem_brk) (λ r b. (b.0, omega (arith, b.1, f.brk)))
        rs below,
  );
  blocks = λ i s.
      put_two (IsWritten new) index p size d.blocks d.block_sizes i
        (
          IsBlock-kept h' new p size f.block refl (omega arith)
              (λ j q. memset-below p v8 size (p - 8 + j) h'.bytes (omega (arith, f.place, q))),
          λ j q. memset-inside p v8 size j h'.bytes q,
        )
        (λ other.
          let (block, filled) = v.blocks i (seen_before seen index i s other) in
          (
            IsBlock-kept d.heap new (d.blocks i) (d.block_sizes i) block f.start_kept
                (omega (arith, f.brk))
                (λ j q.
                  low (d.blocks i - 8 + j) (omega (arith, block.behind_header, block.inside, q))),
            λ j q. low (d.blocks i + j) (omega (arith, block.inside, q)) ∙ filled j q,
          ));
}
  where
    v8 : ℕ
    v8 = index % 256

    new : Heap
    new = record h' { bytes = memset p v8 size h'.bytes }

    low : (a : ℕ) → a < d.heap.mem_brk → new.bytes a ≡ d.heap.bytes a
    low a q = memset-below p v8 size a h'.bytes (omega (arith, f.place, q)) ∙ f.kept a q
