-- ===== src/Malloc/Util/Laws.antt =====
-- What mdriver.c measures of the naive allocator.
use mathlib.Core.Path.{subst}
use csapp_code.Prelude.{
  ◌%◌, ℕ, ◌+◌, ◌-◌, ◌^◌, ◌≤◌, ◌<◌, ◌≡◌, refl, ◌∙◌, arith, some, List, [], ◌∷◌, ltb, if◌then◌else◌,
  All,
}
use csapp_code.Malloc.{Heap, mem_reset_brk, mem_heapsize, load_size, mm_free}
use csapp_code.Malloc.Laws.{IsHeap, taken, malloc_result, malloc_result-Allocated, malloc_returns}
use csapp_code.Malloc.Realloc.{realloc_result, realloc_returns, realloc_result-IsHeap}
use csapp_code.Malloc.Driver.{TraceOp, Request, alloc, free, realloc}
use csapp_code.Malloc.Util.{less, start, Usage, count_block, util_round, util_rounds}

-- What an operation takes from the heap.
unfoldable pub cost : Request → ℕ → ℕ
cost alloc size = taken size
cost realloc size = taken size
cost free size = 0

unfoldable pub costs : List TraceOp → ℕ
costs [] = 0
costs (o ∷ os) = cost o.request o.size + costs os

-- While a trace is replayed from the heap `h`, of which `used` bytes are taken.
pub record IsUsage (h : Heap) (used : ℕ) (u : Usage) : Type 0 where
  pub valid : IsHeap u.heap
  pub start_kept : u.heap.mem_start_brk ≡ h.mem_start_brk
  pub max_kept : u.heap.mem_max_addr ≡ h.mem_max_addr
  pub brk : u.heap.mem_brk ≡ h.mem_start_brk + used

-- A block of `size` bytes at the end of the heap is noted.
count_block-IsUsage :
    (h : Heap) (used : ℕ) (u : Usage) (h' : Heap) (index p size total : ℕ)
    → IsUsage h used u
    → IsHeap h'
    → h'.mem_start_brk ≡ u.heap.mem_start_brk
    → h'.mem_max_addr ≡ u.heap.mem_max_addr
    → h'.mem_brk ≡ u.heap.mem_brk + taken size
    → IsUsage h (used + taken size) (count_block u h' index p size total)
unfolding count_block
count_block-IsUsage h used u h' index p size total v valid start max brk = record {
  valid = valid;
  start_kept = start ∙ v.start_kept;
  max_kept = max ∙ v.max_kept;
  brk = omega (arith, brk, v.brk);
}

util_round-IsUsage :
    (h : Heap) (used : ℕ) (u : Usage) (r : Request) (index size : ℕ)
    → IsUsage h used u
    → size + 15 < 2 ^ 31
    → h.mem_start_brk + used + cost r size ≤ h.mem_max_addr
    → (u' : Usage) × (util_round r index size u ≡ some u') × IsUsage h (used + cost r size) u'
unfolding util_round cost mm_free
util_round-IsUsage h used u alloc index size v small room =
    let fits : u.heap.mem_brk + taken size ≤ u.heap.mem_max_addr =
      omega (arith, v.brk, v.max_kept) in
    let h' = malloc_result u.heap size in
    (
      count_block u h' index (u.heap.mem_brk + 8) size ((u.total_size + size) % 2 ^ 32),
      rw (malloc_returns u.heap size small fits, util_round) refl,
      count_block-IsUsage h used u h' index (u.heap.mem_brk + 8) size _ v
          (malloc_result-Allocated u.heap size v.valid small fits).valid refl refl refl,
    )
util_round-IsUsage h used u realloc index size v small room =
    let fits : u.heap.mem_brk + taken size ≤ u.heap.mem_max_addr =
      omega (arith, v.brk, v.max_kept) in
    let old = u.blocks index in
    let old_size = load_size (old - 8) (malloc_result u.heap size).bytes in
    let n = if ltb size old_size then size else old_size in
    let h' = realloc_result u.heap old size n in
    let total = less (u.total_size + size) (u.block_sizes index) in
    (
      count_block u h' index (u.heap.mem_brk + 8) size total,
      rw (realloc_returns u.heap old size old_size small fits refl, util_round) refl,
      count_block-IsUsage h used u h' index (u.heap.mem_brk + 8) size total v
          (realloc_result-IsHeap u.heap old size n v.valid small fits) refl refl refl,
    )
util_round-IsUsage h used u free index size v small room = (
  record u {
    heap = mm_free u.heap (u.blocks index);
    total_size = less u.total_size (u.block_sizes index);
  },
  refl,
  record {
    valid = v.valid;
    start_kept = v.start_kept;
    max_kept = v.max_kept;
    brk = omega (arith, v.brk);
  },
)

pub util_rounds-IsUsage :
    (h : Heap) (used : ℕ) (u : Usage) (ops : List TraceOp)
    → IsUsage h used u
    → All (λ (o : TraceOp). o.size + 15 < 2 ^ 31) ops
    → h.mem_start_brk + used + costs ops ≤ h.mem_max_addr
    → (u' : Usage) × (util_rounds u ops ≡ some u') × IsUsage h (used + costs ops) u'
unfolding util_rounds costs
util_rounds-IsUsage h used u [] v small room = (u, refl, subst (λ n. IsUsage h n u) (omega arith) v)
util_rounds-IsUsage h used u (o ∷ ops) v small room =
    let (u', stepped, v') =
      util_round-IsUsage h used u o.request o.index o.size v small.0 (omega (arith, room)) in
    let (u'', ran, v'') =
      util_rounds-IsUsage h (used + cost o.request o.size) u' ops v' small.1
        (omega (arith, room)) in
    (u'', rw (stepped, util_rounds) ran, subst (λ n. IsUsage h n u'') (omega arith) v'')

-- At the start of a replay.
pub reset-IsUsage :
    (h : Heap) (blocks block_sizes : ℕ → ℕ)
    → IsHeap (mem_reset_brk h)
    → IsUsage h 0 (start h blocks block_sizes)
unfolding mem_reset_brk
reset-IsUsage h blocks block_sizes v = record {
  valid = v;
  start_kept = refl;
  max_kept = refl;
  brk = omega arith;
}

-- Where a replay ends, the heap has the size of what was taken.
pub IsUsage-mem_heapsize :
    (h : Heap) (used : ℕ) (u : Usage) → IsUsage h used u → mem_heapsize u.heap ≡ used
unfolding mem_heapsize
IsUsage-mem_heapsize h used u v = omega (arith, v.brk, v.start_kept)
