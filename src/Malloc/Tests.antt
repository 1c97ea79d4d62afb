-- ===== src/Malloc/Tests.antt =====
-- Tests of the allocator, and its theorems at concrete inputs.
use csapp_code.Prelude.{ℕ, ◌+◌, ◌<◌, ◌≡◌, refl, arith, some}
use csapp_code.Malloc.{Heap, max_heap, mem_init, align, store_size, mm_realloc}
use csapp_code.Malloc.Laws.{IsHeap}
use csapp_code.Malloc.Realloc.{IsBlock, mm_realloc_lem}

abbrev fresh : Heap
fresh = record {
  mem_start_brk = 4096;
  mem_brk = 4096;
  mem_max_addr = 4096 + max_heap;
  bytes = λ a. 7;
}

fresh_made : mem_init 4096 (λ a. 7) ≡ fresh
unfolding mem_init
fresh_made = refl

fresh-IsHeap : IsHeap fresh
fresh-IsHeap = omega arith

align_values : (align 0 ≡ 0) × (align 1 ≡ 8) × (align 8 ≡ 8) × (align 9 ≡ 16)
unfolding align
align_values = (refl, refl, refl, refl)

-- A heap with one block of 10 bytes.
abbrev one_block : Heap
one_block = record fresh { mem_brk = 4096 + 24; bytes = store_size 4096 10 (λ a. 7) }

one_block-IsHeap : IsHeap one_block
one_block-IsHeap = ground arith

mm_realloc_lem_example :
    (p : ℕ) × (h : Heap) × (mm_realloc one_block 4104 30 ≡ some (p, h))
    × IsHeap h
    × IsBlock h p 30
    × (4096 + 24 < p)
    × ((i : ℕ) → i < 30 → i < 10 → h.bytes (p + i) ≡ one_block.bytes (4104 + i))
    × ((a : ℕ) → a < 4096 + 24 → h.bytes a ≡ one_block.bytes a)
mm_realloc_lem_example =
    mm_realloc_lem one_block 4104 30 10 one_block-IsHeap
      (record { behind_header = omega arith; inside = omega arith; header = refl }) (omega arith)
      (omega arith)
