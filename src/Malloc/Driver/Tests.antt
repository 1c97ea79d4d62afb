-- ===== src/Malloc/Driver/Tests.antt =====
-- Traces replayed on a fresh heap, and the theorem at one.
use csapp_code.Prelude.{ℕ, ◌≡◌, refl, arith, Bool, true, false, List, [], ◌∷◌}
use csapp_code.Malloc.{
  mem_init, mem_reset_brk, mem_sbrk, align, mm_malloc, mm_realloc, mm_free, mem_heap_lo,
  mem_heap_hi,
}
use csapp_code.Malloc.Ranges.{add_range, overlaps, remove_range}
use csapp_code.Malloc.Driver.{
  Request, alloc, realloc, free, TraceOp, Driver, Round, passed, preserved, remember, alloc_round,
  realloc_round, free_round, round, rounds, eval_mm_valid,
}
use csapp_code.Malloc.Laws.{IsHeap}
use csapp_code.Malloc.Util.Laws.{cost, costs}
use csapp_code.Malloc.Driver.Naive.{IsReplayable, IsAllowed, noted, eval_mm_valid-passed}

abbrev fresh : Driver
fresh = record { heap = mem_init 4096 (λ _. 0); ranges = []; blocks = λ _. 0; block_sizes = λ _. 0 }

abbrev op : Request → ℕ → ℕ → TraceOp
op r index size = record { request = r; index = index; size = size }

is_passed : Round → Bool
is_passed (passed d) = true
is_passed _ = false

-- The same trace for the indices 1 and 200.
abbrev trace : ℕ → List TraceOp
trace index = op alloc index 2 ∷ op alloc 0 3 ∷ op realloc index 3 ∷ op free 0 0 ∷ []

replays :
    (is_passed (eval_mm_valid fresh (trace 1)) ≡ true)
    × (is_passed (eval_mm_valid fresh (trace 200)) ≡ false)
unfolding is_passed eval_mm_valid rounds round alloc_round realloc_round free_round remember
    preserved mem_init mem_reset_brk mem_sbrk align mm_malloc mm_realloc mm_free add_range overlaps
    remove_range mem_heap_lo mem_heap_hi
replays = (refl, refl)

abbrev one_block : Driver
one_block = record fresh { blocks = λ _. 4104; block_sizes = λ _. 2 }

fresh-IsHeap : IsHeap (mem_reset_brk fresh.heap)
unfolding mem_reset_brk mem_init
fresh-IsHeap = record {
  some_base = omega arith;
  above = omega arith;
  below = omega arith;
  aligned = refl;
  is_bytes = λ a. omega arith;
}

eval_mm_valid-passed_example : (d' : Driver) × (eval_mm_valid fresh (trace 1) ≡ passed d')
unfolding IsReplayable IsAllowed noted costs cost mem_init
eval_mm_valid-passed_example =
    eval_mm_valid-passed fresh (trace 1) fresh-IsHeap
      (
        (omega arith, omega arith),
        ((omega arith, omega arith), (((omega arith, omega arith), refl, omega arith), (tt, tt))),
      )
      (omega arith)
