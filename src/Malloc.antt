-- ===== src/Malloc.antt =====
-- labs/malloclab-handout: the naive allocator mm.c over the simulated heap of memlib.c, built for
-- 32 bits (`-m32` in its Makefile), and the range list of mdriver.c. A `size_t`, an `int` and an
-- address are numbers below 2 ^ 32; memory is a byte for each address. `none` is a null pointer.
-- The block that `mem_init` gets from the system's `malloc` is its argument.
pub mod Laws
pub mod Realloc
pub mod Ranges
pub mod Driver
pub mod Util
pub mod Trace
pub mod Replay
mod Tests
use Prim.Native.Nat.{bit_and}
use csapp_code.Prelude.{
  ℕ, zero, suc, ◌+◌, ◌-◌, ◌*◌, ◌/◌, ◌%◌, ◌^◌, Bool, true, false, ◌||◌, ◌&&◌, not, Option, none,
  some, ltb, leb, ◌==◌, if◌then◌else◌,
}
use csapp_code.Threads.{put_at}

abbrev pub Bytes : Type 0
Bytes = ℕ → ℕ

-- The three private variables of memlib.c and the memory.
pub record Heap : Type 0 where
  pub mem_start_brk : ℕ
  pub mem_brk : ℕ
  pub mem_max_addr : ℕ
  pub bytes : Bytes

abbrev pub max_heap : ℕ
max_heap = 20 * 2 ^ 20

pub mem_init : ℕ → Bytes → Heap
mem_init start bytes = record {
  mem_start_brk = start;
  mem_brk = start;
  mem_max_addr = start + max_heap;
  bytes = bytes;
}

pub mem_reset_brk : Heap → Heap
mem_reset_brk h = record h { mem_brk = h.mem_start_brk }

-- `incr < 0` on the pattern of an `int`. The message and `errno` are left out.
pub mem_sbrk : Heap → ℕ → Option (ℕ × Heap)
mem_sbrk h incr =
    if leb (2 ^ 31) incr || ltb h.mem_max_addr (h.mem_brk + incr)
    then none
    else some (h.mem_brk, record h { mem_brk = h.mem_brk + incr })

pub mem_heap_lo : Heap → ℕ
mem_heap_lo h = h.mem_start_brk

pub mem_heap_hi : Heap → ℕ
mem_heap_hi h = h.mem_brk - 1

pub mem_heapsize : Heap → ℕ
mem_heapsize h = h.mem_brk - h.mem_start_brk

-- `ALIGN(size)` on a `size_t`: `~0x7` is 2 ^ 32 - 8.
pub align : ℕ → ℕ
align size = bit_and ((size + 7) % 2 ^ 32) (2 ^ 32 - 8)

-- `SIZE_T_SIZE` is `ALIGN(4)`.
abbrev pub size_t_size : ℕ
size_t_size = 8

-- `*(size_t *)p = v`, lowest byte first.
abbrev pub store_size : ℕ → ℕ → Bytes → Bytes
store_size p v m = put_at p (v % 256) (
    put_at (p + 1) (v / 256 % 256)
      (put_at (p + 2) (v / 2 ^ 16 % 256) (put_at (p + 3) (v / 2 ^ 24 % 256) m)))

-- `*(size_t *)p`
abbrev pub load_size : ℕ → Bytes → ℕ
load_size p m = m p + m (p + 1) * 256 + m (p + 2) * 2 ^ 16 + m (p + 3) * 2 ^ 24

-- `memcpy` of `n` bytes between blocks that do not overlap.
abbrev pub memcpy : ℕ → ℕ → ℕ → Bytes → Bytes
memcpy dst from n m a = if leb dst a && ltb a (dst + n) then m (from + (a - dst)) else m a

abbrev pub mm_init : ℕ
mm_init = 0

pub mm_malloc : Heap → ℕ → Option (ℕ × Heap)
mm_malloc h size =
    let newsize = align ((size + size_t_size) % 2 ^ 32) in
    elim (mem_sbrk h newsize) [
      | none ↦ none
      | some (p, h') ↦ some (p + size_t_size, record h' { bytes = store_size p size h'.bytes })
    ]

pub mm_free : Heap → ℕ → Heap
mm_free h p = h

pub mm_realloc : Heap → ℕ → ℕ → Option (ℕ × Heap)
mm_realloc h oldptr size = elim (mm_malloc h size) [
  | none ↦ none
  | some (newptr, h') ↦
      let old_size = load_size (oldptr - size_t_size) h'.bytes in
      let copy_size = if ltb size old_size then size else old_size in
      some (newptr, mm_free (record h' { bytes = memcpy newptr oldptr copy_size h'.bytes }) oldptr)
]
