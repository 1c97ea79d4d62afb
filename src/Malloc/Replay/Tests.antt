-- ===== src/Malloc/Replay/Tests.antt =====
-- A small trace, replayed, and the theorem at it.
use csapp_code.Prelude.{ℕ, ◌+◌, ◌≡◌, ◌⊎◌, refl, arith, none, some, List, [], ◌∷◌}
use csapp_code.Malloc.{Heap, mem_reset_brk, mem_heapsize}
use csapp_code.Malloc.Laws.{IsHeap}
use csapp_code.Malloc.Driver.{alloc, free, realloc, TraceOp}
use csapp_code.Malloc.Util.{start, Usage, util_rounds, eval_mm_util}
use csapp_code.Malloc.Replay.{Allocator, replay_round, replay_ops, eval_libc_valid, eval_mm_speed}
use csapp_code.Malloc.Replay.Laws.{eval_mm_speed-eval_mm_util}

abbrev heap : Heap
heap = record { mem_start_brk = 4096; mem_brk = 4096; mem_max_addr = 8192; bytes = λ _. 0 }

heap-IsHeap : IsHeap (mem_reset_brk heap)
unfolding mem_reset_brk
heap-IsHeap = record {
  some_base = omega arith;
  above = omega arith;
  below = omega arith;
  aligned = refl;
  is_bytes = λ a. omega arith;
}

abbrev ops : List TraceOp
ops =
    record { request = alloc; index = 0; size = 100 }
    ∷ record { request = realloc; index = 0; size = 20 }
    ∷ record { request = free; index = 0; size = 0 }
    ∷ []

-- An allocator that hands out the next number.
abbrev counter : Allocator ℕ
counter = record {
  malloc = λ s n. some (s, s + 1);
  realloc_block = λ s p n. some (s, s + 1);
  free_block = λ s p. s;
}

libc_runs : eval_libc_valid counter 7 (λ _. 0) [] ≡ some (1, 7, λ _. 0)
unfolding eval_libc_valid replay_ops replay_round
libc_runs = refl

eval_mm_speed-eval_mm_util_example :
    ((eval_mm_speed heap (λ _. 0) ops ≡ none) × (eval_mm_util heap (λ _. 0) (λ _. 0) ops ≡ none))
    ⊎ ((u : Usage) × (util_rounds (start heap (λ _. 0) (λ _. 0)) ops ≡ some u)
        × (eval_mm_speed heap (λ _. 0) ops ≡ some (u.heap, u.blocks))
        × (eval_mm_util heap (λ _. 0) (λ _. 0) ops ≡ some (u.max_total_size, mem_heapsize u.heap)))
eval_mm_speed-eval_mm_util_example = eval_mm_speed-eval_mm_util heap (λ _. 0) (λ _. 0) ops
