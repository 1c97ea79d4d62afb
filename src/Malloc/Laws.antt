-- ===== src/Malloc/Laws.antt =====
-- What `mm_malloc` promises.
use native.Mathlib.Decide.{dec_lt}
use Prim.Native.Nat.{bit_and}
use csapp_code.Prelude.{
  inr, inl, ℕ, ◌+◌, ◌-◌, ◌*◌, ◌/◌, ◌%◌, ◌^◌, ◌≤◌, ◌<◌, ◌≡◌, ◌⊎◌, refl, arith, none, some, ◌∙◌,
}
use csapp_code.Word.Digits.{and_low}
use csapp_code.Word.Mask.{and_mask}
use csapp_code.Malloc.{Bytes, Heap, mem_sbrk, align, size_t_size, store_size, load_size, mm_malloc}

-- Clearing the three low bits rounds down to a multiple of 8.
and_high : (x : ℕ) → x < 2 ^ 32 → bit_and x (2 ^ 32 - 8) ≡ x / 8 * 8
and_high x h = omega (
  arith,
  and_low x (2 ^ 32 - 8),
  and_low (x / 2) (2 ^ 31 - 4),
  and_low (x / 2 / 2) (2 ^ 30 - 2),
  and_mask 29 (x / 2 / 2 / 2),
)

-- `ALIGN` is the least multiple of 8 that is no smaller, if it does not wrap.
pub align_lem : (size : ℕ) → size + 7 < 2 ^ 32 → align size ≡ (size + 7) / 8 * 8
unfolding align
align_lem size h = omega (arith, and_high ((size + 7) % 2 ^ 32))

-- The invariant of the simulated heap. Memory holds bytes.
pub record IsHeap (h : Heap) : Type 0 where
  pub some_base : 0 < h.mem_start_brk
  pub above : h.mem_start_brk ≤ h.mem_brk
  pub below : h.mem_brk ≤ h.mem_max_addr
  pub aligned : h.mem_brk % 8 ≡ 0
  pub is_bytes : (a : ℕ) → h.bytes a < 256

pub load-store : (p v : ℕ) (m : Bytes) → v < 2 ^ 32 → load_size p (store_size p v m) ≡ v
load-store p v m h = ground arith

pub store-elsewhere : (p v a : ℕ) (m : Bytes) → (a < p) ⊎ (p + 4 ≤ a) → store_size p v m a ≡ m a
store-elsewhere p v a m h = ground arith

store-byte : (p v a : ℕ) (m : Bytes) → m a < 256 → store_size p v m a < 256
store-byte p v a m h = ground arith

-- The bytes that `mm_malloc` takes from the heap for a block of `size` bytes.
abbrev pub taken : ℕ → ℕ
taken size = (size + 15) / 8 * 8

newsize_lem : (size : ℕ) → size + 15 < 2 ^ 32 → align ((size + size_t_size) % 2 ^ 32) ≡ taken size
newsize_lem size h =
    let wraps : (size + size_t_size) % 2 ^ 32 ≡ size + 8 = omega arith in
    rw wraps (align_lem (size + 8) (omega arith) ∙ omega arith)

-- The heap after a successful `mm_malloc`, against the heap before.
pub record Allocated (h : Heap) (size p : ℕ) (h' : Heap) : Type 0 where
  pub valid : IsHeap h'
  pub place : p ≡ h.mem_brk + 8
  pub aligned : p % 8 ≡ 0
  pub inside : p + size ≤ h'.mem_brk
  pub header : load_size (p - 8) h'.bytes ≡ size
  pub kept : (a : ℕ) → (a < h.mem_brk) ⊎ (p ≤ a) → h'.bytes a ≡ h.bytes a
  pub start_kept : h'.mem_start_brk ≡ h.mem_start_brk
  pub max_kept : h'.mem_max_addr ≡ h.mem_max_addr
  pub brk : h'.mem_brk ≡ h.mem_brk + taken size

abbrev pub malloc_result : Heap → ℕ → Heap
malloc_result h size = record h {
  mem_brk = h.mem_brk + taken size;
  bytes = store_size h.mem_brk size h.bytes;
}

pub malloc_result-Allocated :
    (h : Heap) (size : ℕ)
    → IsHeap h
    → size + 15 < 2 ^ 31
    → h.mem_brk + taken size ≤ h.mem_max_addr
    → Allocated h size (h.mem_brk + 8) (malloc_result h size)
malloc_result-Allocated h size v small fits = record {
  valid = record {
    some_base = v.some_base;
    above = omega (arith, v.above);
    below = fits;
    aligned = omega (arith, v.aligned);
    is_bytes = λ a. store-byte h.mem_brk size a h.bytes (v.is_bytes a);
  };
  place = refl;
  aligned = omega (arith, v.aligned);
  inside = omega arith;
  header =
      let back : h.mem_brk + 8 - 8 ≡ h.mem_brk = omega arith in
      rw back (load-store h.mem_brk size h.bytes (omega arith));
  kept = λ a out. store-elsewhere h.mem_brk size a h.bytes (ground arith);
  start_kept = refl;
  max_kept = refl;
  brk = refl;
}

-- `mm_malloc` of a size below 2 ^ 31 - 15 fails exactly when the heap has too little room left for
-- the block and its header; otherwise the block lies in the fresh part of the heap, aligned to 8,
-- behind a header that holds its size, and no byte outside the header changes.
pub mm_malloc_lem :
    (h : Heap) (size : ℕ)
    → IsHeap h
    → size + 15 < 2 ^ 31
    → (h.mem_max_addr < h.mem_brk + taken size) × (mm_malloc h size ≡ none)
      ⊎ (h.mem_brk + taken size ≤ h.mem_max_addr)
        × ((p : ℕ) × (h' : Heap) × (mm_malloc h size ≡ some (p, h')) × Allocated h size p h')
mm_malloc_lem h size v small =
    let e = newsize_lem size (omega arith) in
    elim (dec_lt h.mem_max_addr (h.mem_brk + taken size)) [
      | yes full ↦ inl (full, unfold mm_malloc mem_sbrk in ground (arith, e))
      | no room ↦ inr (
        omega arith,
        (
          h.mem_brk + 8,
          malloc_result h size,
          unfold mm_malloc mem_sbrk in ground (arith, e),
          malloc_result-Allocated h size v small (omega arith),
        ),
      )
    ]

-- A size that wraps the 32-bit sum gets a block that is far too small: for a size of at least
-- 2 ^ 32 - 8 `mm_malloc` takes 8 bytes at most from the heap and reports success.
pub mm_malloc_wraps :
    (h : Heap) (size : ℕ)
    → IsHeap h
    → 2 ^ 32 - 8 ≤ size
    → size < 2 ^ 32
    → h.mem_brk + 8 ≤ h.mem_max_addr
    → (p : ℕ) × (h' : Heap) × (mm_malloc h size ≡ some (p, h'))
      × (h'.mem_brk ≤ h.mem_brk + 8)
      × (h'.mem_brk < p + size)
unfolding mm_malloc mem_sbrk
mm_malloc_wraps h size v big word room =
    let wrapped = (size + size_t_size) % 2 ^ 32 in
    let few : align wrapped ≡ (wrapped + 7) / 8 * 8 = align_lem wrapped (omega arith) in
    (
      h.mem_brk + size_t_size,
      record h { mem_brk = h.mem_brk + align wrapped; bytes = store_size h.mem_brk size h.bytes },
      ground (arith, few),
      omega (arith, few),
      omega (arith, few),
    )

pub malloc_returns :
    (h : Heap) (size : ℕ)
    → size + 15 < 2 ^ 31
    → h.mem_brk + taken size ≤ h.mem_max_addr
    → mm_malloc h size ≡ some (h.mem_brk + 8, malloc_result h size)
unfolding mm_malloc mem_sbrk
malloc_returns h size small fits = ground (arith, newsize_lem size (omega arith))
