-- ===== src/Malloc/Util/Tests.antt =====
-- The utilization of a small trace, and the theorem at it.
use csapp_code.Prelude.{ℕ, ◌≡◌, ◌≤◌, refl, arith, some, List, [], ◌∷◌}
use csapp_code.Malloc.{
  Heap, mem_reset_brk, mem_heapsize, mem_sbrk, align, mm_malloc, mm_realloc, mm_free,
}
use csapp_code.Malloc.Laws.{IsHeap}
use csapp_code.Malloc.Driver.{alloc, free, realloc, TraceOp}
use csapp_code.Malloc.Util.{larger, count_block, util_round, util_rounds, eval_mm_util}
use csapp_code.Malloc.Util.Laws.{cost, costs}
use csapp_code.Malloc.Util.Most.{IsAllowed, noted, IsMeasurable, eval_mm_util_lem}

abbrev heap : Heap
heap = record { mem_start_brk = 4096; mem_brk = 4096; mem_max_addr = 8192; bytes = λ _. 0 }

heap-IsHeap : IsHeap (mem_reset_brk heap)
unfolding mem_reset_brk
heap-IsHeap = record {
  some_base = omega arith;
  above = omega arith;
  below = omega arith;
  aligned = refl;
  is_bytes = λ a. omega arith;
}

-- Two blocks, of which the first is freed and the second grows.
abbrev ops : List TraceOp
ops =
    record { request = alloc; index = 0; size = 100 }
    ∷ record { request = alloc; index = 1; size = 10 }
    ∷ record { request = free; index = 0; size = 0 }
    ∷ record { request = realloc; index = 1; size = 20 }
    ∷ []

util_ops : eval_mm_util heap (λ _. 0) (λ _. 0) ops ≡ some (110, 168)
unfolding eval_mm_util util_rounds util_round count_block larger mem_reset_brk mem_heapsize mem_sbrk
    align mm_malloc mm_realloc mm_free
util_ops = refl

eval_mm_util_lem_example :
    (most : ℕ) × (eval_mm_util heap (λ _. 0) (λ _. 0) ops ≡ some (most, costs ops))
    × (most ≤ costs ops)
unfolding costs cost IsAllowed noted IsMeasurable
eval_mm_util_lem_example =
    eval_mm_util_lem heap (λ _. 0) (λ _. 0) ops 100 heap-IsHeap (ground arith) (ground arith)
      (omega arith) (omega arith)
