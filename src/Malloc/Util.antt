-- ===== src/Malloc/Util.antt =====
-- `eval_mm_util` of labs/malloclab-handout/mdriver.c over mm.c: the replay of a trace that compares
-- the most bytes that were asked for at a time with the heap. `none` is `app_error`; the result is
-- the two sides of the ratio that is returned. `total_size` is an `int`, here its 32 bits.
pub mod Laws
pub mod Most
mod Tests
use csapp_code.Prelude.{
  ◌-◌, ℕ, ◌+◌, ◌%◌, ◌^◌, ◌&&◌, leb, Option, none, some, List, [], ◌∷◌, ltb, if◌then◌else◌,
}
use csapp_code.Threads.{put_at}
use csapp_code.Malloc.{Heap, mem_reset_brk, mem_heapsize, mm_init, mm_malloc, mm_free, mm_realloc}
use csapp_code.Malloc.Driver.{TraceOp, Request, alloc, free, realloc}

-- The trace's arrays and the two counters, of which `max_total_size` starts at 0 and only grows.
pub record Usage : Type 0 where
  pub heap : Heap
  pub blocks : ℕ → ℕ
  pub block_sizes : ℕ → ℕ
  pub total_size : ℕ
  pub max_total_size : ℕ

-- `(total_size > max_total_size) ? total_size : max_total_size`, of signed numbers.
pub larger : ℕ → ℕ → ℕ
larger total_size max_total_size =
    if ltb total_size (2 ^ 31) && ltb max_total_size total_size then total_size else max_total_size

-- `a - b` of two ints.
abbrev pub less : ℕ → ℕ → ℕ
less a b = (a + (2 ^ 32 - b % 2 ^ 32)) % 2 ^ 32

-- The end of the cases ALLOC and REALLOC: the block and its size, and the counters.
unfoldable pub count_block : Usage → Heap → ℕ → ℕ → ℕ → ℕ → Usage
count_block u h index p size total_size = record {
  heap = h;
  blocks = put_at index p u.blocks;
  block_sizes = put_at index size u.block_sizes;
  total_size = total_size;
  max_total_size = larger total_size u.max_total_size;
}

-- The cases of the switch, for the index and the size of an operation.
unfoldable pub util_round : Request → ℕ → ℕ → Usage → Option Usage
util_round alloc index size u = elim (mm_malloc u.heap size) [
  | none ↦ none
  | some (p, h) ↦ some (count_block u h index p size ((u.total_size + size) % 2 ^ 32))
]
util_round realloc index size u = elim (mm_realloc u.heap (u.blocks index) size) [
  | none ↦ none
  | some (p, h) ↦
      some (count_block u h index p size (less (u.total_size + size) (u.block_sizes index)))
]
util_round free index size u = some (record u {
  heap = mm_free u.heap (u.blocks index);
  total_size = less u.total_size (u.block_sizes index);
})

unfoldable pub util_rounds : Usage → List TraceOp → Option Usage
util_rounds u [] = some u
util_rounds u (o ∷ os) = elim (util_round o.request o.index o.size u) [
  | none ↦ none
  | some u' ↦ util_rounds u' os
]

-- What the replay starts from.
abbrev pub start : Heap → (ℕ → ℕ) → (ℕ → ℕ) → Usage
start h blocks block_sizes = record {
  heap = mem_reset_brk h;
  blocks = blocks;
  block_sizes = block_sizes;
  total_size = 0;
  max_total_size = 0;
}

unfoldable pub eval_mm_util : Heap → (ℕ → ℕ) → (ℕ → ℕ) → List TraceOp → Option (ℕ × ℕ)
eval_mm_util h blocks block_sizes ops =
    if leb (2 ^ 31) mm_init then none else elim (util_rounds (start h blocks block_sizes) ops) [
      | none ↦ none
      | some u ↦ some (u.max_total_size, mem_heapsize u.heap)
    ]
