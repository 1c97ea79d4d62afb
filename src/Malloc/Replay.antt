-- ===== src/Malloc/Replay.antt =====
-- `eval_mm_speed`, `eval_libc_valid` and `eval_libc_speed` of labs/malloclab-handout/mdriver.c: the
-- replay of a trace with no checks. They differ in the allocator that they call, mm.c or that of the
-- system, which is an argument. `none` is `app_error` or `unix_error`, which end the driver.
pub mod Laws
mod Tests
use csapp_code.Prelude.{ℕ, ◌^◌, Bool, Option, none, some, List, [], ◌∷◌, leb, if◌then◌else◌}
use csapp_code.Threads.{put_at}
use csapp_code.Malloc.{Heap, mem_reset_brk, mm_init, mm_malloc, mm_free, mm_realloc}
use csapp_code.Malloc.Driver.{TraceOp, Request, alloc, free, realloc}

-- An allocator: its calls on its state, and the addresses that they return.
pub record Allocator (State : Type 0) : Type 0 where
  pub malloc : State → ℕ → Option (ℕ × State)
  pub realloc_block : State → ℕ → ℕ → Option (ℕ × State)
  pub free_block : State → ℕ → State

abbrev pub mm : Allocator Heap
mm = record { malloc = mm_malloc; realloc_block = mm_realloc; free_block = mm_free }

module _ {State : Type 0} (a : Allocator State) where
  -- The cases of the switch, on the state and `blocks`.
  pub replay_round : Request → ℕ → ℕ → State × (ℕ → ℕ) → Option (State × (ℕ → ℕ))
  replay_round alloc index size (s, blocks) = elim (a.malloc s size) [
    | none ↦ none
    | some (p, s') ↦ some (s', put_at index p blocks)
  ]
  replay_round realloc index size (s, blocks) = elim (a.realloc_block s (blocks index) size) [
    | none ↦ none
    | some (p, s') ↦ some (s', put_at index p blocks)
  ]
  replay_round free index size (s, blocks) = some (a.free_block s (blocks index), blocks)

  pub replay_ops : State × (ℕ → ℕ) → List TraceOp → Option (State × (ℕ → ℕ))
  replay_ops s [] = some s
  replay_ops s (o ∷ os) = elim (replay_round o.request o.index o.size s) [
    | none ↦ none
    | some s' ↦ replay_ops s' os
  ]

  -- The result 1, and what is left.
  pub eval_libc_valid : State → (ℕ → ℕ) → List TraceOp → Option (ℕ × State × (ℕ → ℕ))
  eval_libc_valid s blocks ops = elim (replay_ops (s, blocks) ops) [
    | none ↦ none
    | some (s', blocks') ↦ some (1, s', blocks')
  ]

  pub eval_libc_speed : State → (ℕ → ℕ) → List TraceOp → Option (State × (ℕ → ℕ))
  eval_libc_speed s blocks ops = replay_ops (s, blocks) ops

pub eval_mm_speed : Heap → (ℕ → ℕ) → List TraceOp → Option (Heap × (ℕ → ℕ))
eval_mm_speed h blocks ops =
    if leb (2 ^ 31) mm_init then none else replay_ops mm (mem_reset_brk h, blocks) ops
