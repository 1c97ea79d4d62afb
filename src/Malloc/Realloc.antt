-- ===== src/Malloc/Realloc.antt =====
-- What `mm_realloc` promises.
use csapp_code.Prelude.{
  inl, ℕ, ◌+◌, ◌-◌, ◌^◌, ◌≤◌, ◌<◌, ◌≡◌, refl, arith, some, ltb, if◌then◌else◌, ◌∙◌,
}
use csapp_code.Malloc.{Bytes, Heap, load_size, memcpy, mm_free, mm_realloc}
use csapp_code.Malloc.Laws.{IsHeap, taken, malloc_result, malloc_result-Allocated, malloc_returns}

-- The block that `mm_realloc` is given: a header with its size, and its bytes, in the heap.
pub record IsBlock (h : Heap) (p size : ℕ) : Type 0 where
  pub behind_header : h.mem_start_brk + 8 ≤ p
  pub inside : p + size ≤ h.mem_brk
  pub header : load_size (p - 8) h.bytes ≡ size

memcpy-inside :
    (dst from n i : ℕ) (m : Bytes) → i < n → memcpy dst from n m (dst + i) ≡ m (from + i)
memcpy-inside dst from n i m h =
    let back : dst + i - dst ≡ i = omega arith in rw back (ground arith)

memcpy-before : (dst from n a : ℕ) (m : Bytes) → a < dst → memcpy dst from n m a ≡ m a
memcpy-before dst from n a m h = ground arith

pub memcpy-byte :
    (dst from n a : ℕ) (m : Bytes) → ((b : ℕ) → m b < 256) → memcpy dst from n m a < 256
memcpy-byte dst from n a m h = ground (arith, h a, h (from + (a - dst)))

-- A size is read from its four bytes.
pub load-kept :
    (p : ℕ) (m m' : Bytes)
    → ((i : ℕ) → i < 4 → m' (p + i) ≡ m (p + i))
    → load_size p m' ≡ load_size p m
load-kept p m m' h =
    ground (arith, h 0 (omega arith), h 1 (omega arith), h 2 (omega arith), h 3 (omega arith), p0)
  where
    p0 : p + 0 ≡ p
    p0 = omega arith

-- The heap after `mm_realloc`.
abbrev pub realloc_result : Heap → ℕ → ℕ → ℕ → Heap
realloc_result h old size copy_size =
    let h' = malloc_result h size in
    record h' { bytes = memcpy (h.mem_brk + 8) old copy_size h'.bytes }

pub realloc_returns :
    (h : Heap) (old size old_size : ℕ)
    → size + 15 < 2 ^ 31
    → h.mem_brk + taken size ≤ h.mem_max_addr
    → load_size (old - 8) (malloc_result h size).bytes ≡ old_size
    → mm_realloc h old size
      ≡ some
          (h.mem_brk + 8, realloc_result h old size (if ltb size old_size then size else old_size))
unfolding mm_realloc mm_free
realloc_returns h old size old_size small fits e =
    rw (malloc_returns h size small fits, mm_realloc, ← e)

-- `mm_realloc` from any block takes from the heap what `mm_malloc` does.
pub realloc_result-IsHeap :
    (h : Heap) (old size n : ℕ)
    → IsHeap h
    → size + 15 < 2 ^ 31
    → h.mem_brk + taken size ≤ h.mem_max_addr
    → IsHeap (realloc_result h old size n)
realloc_result-IsHeap h old size n v small fits =
    let new = malloc_result-Allocated h size v small fits in
    record {
      some_base = v.some_base;
      above = new.valid.above;
      below = fits;
      aligned = new.valid.aligned;
      is_bytes =
          λ a. memcpy-byte (h.mem_brk + 8) old n a (malloc_result h size).bytes new.valid.is_bytes;
    }

-- The heap after a successful `mm_realloc` to `size` bytes of a block of `old_size`.
pub record Reallocated (h : Heap) (old size old_size p : ℕ) (h' : Heap) : Type 0 where
  pub valid : IsHeap h'
  pub block : IsBlock h' p size
  pub place : p ≡ h.mem_brk + 8
  pub copied : (i : ℕ) → i < size → i < old_size → h'.bytes (p + i) ≡ h.bytes (old + i)
  pub kept : (a : ℕ) → a < h.mem_brk → h'.bytes a ≡ h.bytes a
  pub start_kept : h'.mem_start_brk ≡ h.mem_start_brk
  pub max_kept : h'.mem_max_addr ≡ h.mem_max_addr
  pub brk : h'.mem_brk ≡ h.mem_brk + taken size

pub mm_realloc-Reallocated :
    (h : Heap) (old size old_size : ℕ)
    → IsHeap h
    → IsBlock h old old_size
    → size + 15 < 2 ^ 31
    → h.mem_brk + taken size ≤ h.mem_max_addr
    → (p : ℕ) × (h' : Heap) × (mm_realloc h old size ≡ some (p, h'))
      × Reallocated h old size old_size p h'
mm_realloc-Reallocated h old size old_size v b small fits =
    let p = h.mem_brk + 8 in
    let m' = (malloc_result h size).bytes in
    let new = malloc_result-Allocated h size v small fits in
    let found : load_size (old - 8) m' ≡ old_size =
      load-kept (old - 8) h.bytes m'
        (λ i q. new.kept (old - 8 + i) (inl (omega (arith, b.behind_header, b.inside))))
      ∙ b.header in
    let n = if ltb size old_size then size else old_size in
    let before : (a : ℕ) → a < p → memcpy p old n m' a ≡ m' a =
      λ a q. memcpy-before p old n a m' q in
    (
      p,
      realloc_result h old size n,
      realloc_returns h old size old_size small fits found,
      record {
        valid = realloc_result-IsHeap h old size n v small fits;
        block = record {
          behind_header = omega (arith, v.above);
          inside = new.inside;
          header =
              load-kept (p - 8) m' (memcpy p old n m') (λ i q. before (p - 8 + i) (omega arith))
              ∙ new.header;
        };
        place = refl;
        copied = λ i q r.
            memcpy-inside p old n i m' (ground arith)
            ∙ new.kept (old + i) (inl (omega (arith, b.inside)));
        kept = λ a q. before a (omega arith) ∙ new.kept a (inl q);
        start_kept = refl;
        max_kept = refl;
        brk = refl;
      },
    )

-- `mm_realloc` to a size for which the heap has room returns a new block of that size that begins
-- with the bytes of the old one, as many as both have, and leaves the old heap as it was.
pub mm_realloc_lem :
    (h : Heap) (old size old_size : ℕ)
    → IsHeap h
    → IsBlock h old old_size
    → size + 15 < 2 ^ 31
    → h.mem_brk + taken size ≤ h.mem_max_addr
    → (p : ℕ) × (h' : Heap) × (mm_realloc h old size ≡ some (p, h'))
      × IsHeap h'
      × IsBlock h' p size
      × (h.mem_brk < p)
      × ((i : ℕ) → i < size → i < old_size → h'.bytes (p + i) ≡ h.bytes (old + i))
      × ((a : ℕ) → a < h.mem_brk → h'.bytes a ≡ h.bytes a)
mm_realloc_lem h old size old_size v b small fits =
    let (p, h', got, r) = mm_realloc-Reallocated h old size old_size v b small fits in
    (p, h', got, r.valid, r.block, omega (arith, r.place), r.copied, r.kept)
