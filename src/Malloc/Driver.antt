-- ===== src/Malloc/Driver.antt =====
-- `eval_mm_valid` of labs/malloclab-handout/mdriver.c over mm.c: the replay of a trace that checks
-- every block. The arrays of the trace are functions of the index. A size is below 2 ^ 31. A `char`
-- is signed, as on the x86 that the driver is built for.
pub mod Laws
pub mod Inv
pub mod Naive
mod Tests
use csapp_code.Prelude.{
  ℕ, zero, suc, ◌+◌, ◌-◌, ◌%◌, ◌^◌, Bool, true, false, not, ◌&&◌, none, some, List, [], ◌∷◌, ltb,
  leb, ◌==◌, if◌then◌else◌,
}
use csapp_code.Threads.{put_at}
use csapp_code.Malloc.{Bytes, Heap, mem_reset_brk, mm_init, mm_malloc, mm_free, mm_realloc}
use csapp_code.Malloc.Ranges.{Range, add_range, remove_range, clear_ranges}

pub data Request : Type 0 where
  alloc : Request
  free : Request
  realloc : Request

-- `traceop_t`
pub record TraceOp : Type 0 where
  pub request : Request
  pub index : ℕ
  pub size : ℕ

pub record Driver : Type 0 where
  pub heap : Heap
  pub ranges : List Range
  pub blocks : ℕ → ℕ
  pub block_sizes : ℕ → ℕ

-- What one round comes to: the next round, `return 0`, or the failed `assert` of `add_range`.
pub data Round : Type 0 where
  passed : Driver → Round
  refused : Round
  aborted : Round

-- `memset(p, v, n)`
abbrev pub memset : ℕ → ℕ → ℕ → Bytes → Bytes
memset p v n m a = if leb p a && ltb a (p + n) then v else m a

-- A byte that is read through a `char *`, as an `int`.
abbrev pub signed_char : ℕ → ℕ
signed_char b = if ltb (b % 256) 128 then b % 256 else 2 ^ 32 - 256 + b % 256

-- The loop over `newp[j] != (index & 0xFF)`, from `newp + j` on.
pub preserved : Bytes → ℕ → ℕ → ℕ → Bool
preserved m p v zero = true
preserved m p v (suc n) =
    let rest = preserved m (p + 1) v n in if not (signed_char (m p) == v) then false else rest

-- The `memset` and the two stores with which an allocation ends, with the new heap and list.
pub remember : Driver → Heap → List Range → ℕ → ℕ → ℕ → Driver
remember d h ranges index p size = record {
  heap = record h { bytes = memset p (index % 256) size h.bytes };
  ranges = ranges;
  blocks = put_at index p d.blocks;
  block_sizes = put_at index size d.block_sizes;
}

-- The cases of the switch.
pub alloc_round : Driver → ℕ → ℕ → Round
alloc_round d index size = elim (mm_malloc d.heap size) [
  | none ↦ refused
  | some (p, h) ↦ elim (add_range h d.ranges p size) [
    | none ↦ aborted
    | some (ok, ranges) ↦ if ok then passed (remember d h ranges index p size) else refused
  ]
]

pub realloc_round : Driver → ℕ → ℕ → Round
realloc_round d index size = elim (mm_realloc d.heap (d.blocks index) size) [
  | none ↦ refused
  | some (p, h) ↦ elim (add_range h (remove_range d.ranges (d.blocks index)) p size) [
    | none ↦ aborted
    | some (ok, ranges) ↦
        let oldsize = d.block_sizes index in
        let oldsize = if ltb size oldsize then size else oldsize in
        if not ok
        then refused
        else if not (preserved h.bytes p (index % 256) oldsize)
        then refused
        else passed (remember d h ranges index p size)
  ]
]

pub free_round : Driver → ℕ → Round
free_round d index = passed (record d {
  heap = mm_free d.heap (d.blocks index);
  ranges = remove_range d.ranges (d.blocks index);
})

pub round : Request → ℕ → ℕ → Driver → Round
round alloc index size d = alloc_round d index size
round realloc index size d = realloc_round d index size
round free index size d = free_round d index

pub rounds : Driver → List TraceOp → Round
rounds d [] = passed d
rounds d (o ∷ os) = elim (round o.request o.index o.size d) [
  | passed d' ↦ rounds d' os
  | refused ↦ refused
  | aborted ↦ aborted
]

pub eval_mm_valid : Driver → List TraceOp → Round
eval_mm_valid d ops =
    if leb (2 ^ 31) mm_init
    then refused
    else rounds (record d { heap = mem_reset_brk d.heap; ranges = clear_ranges d.ranges }) ops
