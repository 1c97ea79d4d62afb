-- ===== src/Malloc/Replay/Laws.antt =====
-- How the replay for time goes with the replay for space, of mdriver.c.
use csapp_code.Prelude.{
  ◌∙◌, ℕ, ◌+◌, ◌^◌, ◌≤◌, ◌<◌, ◌≡◌, refl, arith, Option, none, some, List, [], ◌∷◌, Option-cases,
  inl, inr, ◌⊎◌, All,
}
use csapp_code.Malloc.{Heap, mem_reset_brk, mem_heapsize, mm_malloc, mm_realloc}
use native.Mathlib.Nat.{zero-add}
use csapp_code.Malloc.Laws.{IsHeap}
use csapp_code.Malloc.Driver.{TraceOp, Request, alloc, free, realloc}
use csapp_code.Malloc.Util.{start, Usage, count_block, util_round, util_rounds, eval_mm_util}
use csapp_code.Malloc.Util.Laws.{costs, util_rounds-IsUsage, reset-IsUsage, IsUsage-mem_heapsize}
use csapp_code.Malloc.Replay.{mm, replay_round, replay_ops, eval_mm_speed}

-- The part of `eval_mm_util` that `eval_mm_speed` has too.
abbrev pub heap_of : Option Usage → Option (Heap × (ℕ → ℕ))
heap_of none = none
heap_of (some u) = some (u.heap, u.blocks)

util_round-replay_round :
    (r : Request) (index size : ℕ) (u : Usage)
    → replay_round mm r index size (u.heap, u.blocks) ≡ heap_of (util_round r index size u)
unfolding replay_round util_round count_block
util_round-replay_round alloc index size u = elim (Option-cases (mm_malloc u.heap size)) [
  | inl failed ↦ ground (arith, failed)
  | inr ((p, h), got) ↦ ground (arith, got)
]
util_round-replay_round realloc index size u =
    elim (Option-cases (mm_realloc u.heap (u.blocks index) size)) [
      | inl failed ↦ ground (arith, failed)
      | inr ((p, h), got) ↦ ground (arith, got)
    ]
util_round-replay_round free index size u = refl

util_rounds-replay_ops :
    (u : Usage) (ops : List TraceOp)
    → replay_ops mm (u.heap, u.blocks) ops ≡ heap_of (util_rounds u ops)
unfolding replay_ops util_rounds
util_rounds-replay_ops u [] = refl
util_rounds-replay_ops u (o ∷ ops) =
    let same = util_round-replay_round o.request o.index o.size u in
    elim (Option-cases (util_round o.request o.index o.size u)) [
      | inl failed ↦ ground (arith, same, failed)
      | inr (u', stepped) ↦ ground (arith, same, stepped, util_rounds-replay_ops u' ops)
    ]

-- `eval_mm_speed` and `eval_mm_util` both end the driver, or both end; then the first leaves the
-- heap and the `blocks` that the second has after its last request, and the second returns its
-- greatest total with the size of that heap.
pub eval_mm_speed-eval_mm_util :
    (h : Heap) (blocks block_sizes : ℕ → ℕ) (ops : List TraceOp)
    → ((eval_mm_speed h blocks ops ≡ none) × (eval_mm_util h blocks block_sizes ops ≡ none))
      ⊎ ((u : Usage) × (util_rounds (start h blocks block_sizes) ops ≡ some u)
          × (eval_mm_speed h blocks ops ≡ some (u.heap, u.blocks))
          × (eval_mm_util h blocks block_sizes ops ≡ some (u.max_total_size, mem_heapsize u.heap)))
unfolding eval_mm_speed eval_mm_util
eval_mm_speed-eval_mm_util h blocks block_sizes ops =
    let u = start h blocks block_sizes in
    let same = util_rounds-replay_ops u ops in
    elim (Option-cases (util_rounds u ops)) [
      | inl failed ↦ inl (ground (arith, same, failed), ground (arith, failed))
      | inr (u', ran) ↦ inr (u', ran, ground (arith, same, ran), ground (arith, ran))
    ]

-- On a trace whose blocks fit the heap `eval_mm_speed` runs to its end, and the heap has grown by
-- what the blocks take.
pub eval_mm_speed_lem :
    (h : Heap) (blocks : ℕ → ℕ) (ops : List TraceOp)
    → IsHeap (mem_reset_brk h)
    → All (λ (o : TraceOp). o.size + 15 < 2 ^ 31) ops
    → h.mem_start_brk + costs ops ≤ h.mem_max_addr
    → (h' : Heap) × (blocks' : ℕ → ℕ) × (eval_mm_speed h blocks ops ≡ some (h', blocks'))
      × (mem_heapsize h' ≡ costs ops)
unfolding eval_mm_speed
eval_mm_speed_lem h blocks ops v small room =
    let (u, stepped, v') =
      util_rounds-IsUsage h 0 (start h blocks (λ i. 0)) ops (reset-IsUsage h blocks (λ i. 0) v)
        small (omega (arith, room)) in
    let same = util_rounds-replay_ops (start h blocks (λ i. 0)) ops in
    (
      u.heap,
      u.blocks,
      ground (arith, same, stepped),
      IsUsage-mem_heapsize h (0 + costs ops) u v' ∙ zero-add (costs ops),
    )
