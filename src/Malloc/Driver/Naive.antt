-- ===== src/Malloc/Driver/Naive.antt =====
-- The naive allocator under `eval_mm_valid` of mdriver.c.
use csapp_code.Prelude.{
  ℕ, zero, suc, ◌+◌, ◌-◌, ◌%◌, ◌^◌, ◌≤◌, ◌<◌, ◌≡◌, refl, ap, ◌∙◌, arith, Bool, true, false, List,
  [], ◌∷◌, ltb, if◌then◌else◌,
}
use mathlib.Core.Path.{subst}
use csapp_code.Threads.{put_at}
use csapp_code.Malloc.{Bytes, Heap, mem_reset_brk, mm_free}
use csapp_code.Malloc.Laws.{IsHeap, taken, malloc_result, malloc_result-Allocated, malloc_returns}
use csapp_code.Malloc.Realloc.{mm_realloc-Reallocated}
use csapp_code.Malloc.Ranges.{remove_range, clear_ranges}
use csapp_code.Malloc.Util.Laws.{cost, costs}
use csapp_code.Malloc.Driver.{
  Request, alloc, free, realloc, TraceOp, Driver, passed, preserved, remember, alloc_round,
  realloc_round, free_round, round, rounds, eval_mm_valid,
}
use csapp_code.Malloc.Driver.Inv.{
  IsBelow, IsFilled, IsDriver, remove_range-All, Allocated-IsFresh, Reallocated-IsFresh,
  add_range-IsFresh, remember-IsDriver,
}

-- A trace that can be replayed: every size is positive and below 2 ^ 31 - 15, and only blocks that
-- were allocated are reallocated. The low byte of the index of such a block is below 128, since the
-- driver compares it with signed bytes. `seen` are the indices that were allocated so far.
abbrev pub IsSized : ℕ → Type 0
IsSized size = (0 < size) × (size + 15 < 2 ^ 31)

unfoldable pub IsAllowed : Request → ℕ → ℕ → (ℕ → Bool) → Type 0
IsAllowed alloc index size seen = IsSized size
IsAllowed realloc index size seen = IsSized size × (seen index ≡ true) × (index % 256 < 128)
IsAllowed free index size seen = Unit

unfoldable pub noted : Request → ℕ → (ℕ → Bool) → ℕ → Bool
noted alloc index seen = put_at index true seen
noted realloc index seen = put_at index true seen
noted free index seen = seen

unfoldable pub IsReplayable : (ℕ → Bool) → List TraceOp → Type 0
IsReplayable seen [] = Unit
IsReplayable seen (o ∷ os) =
    IsAllowed o.request o.index o.size seen × IsReplayable (noted o.request o.index seen) os

preserved-filled : (m : Bytes) (p v n : ℕ) → v < 128 → IsFilled m p v n → preserved m p v n ≡ true
unfolding preserved
preserved-filled m p v zero low filled = refl
preserved-filled m p v (suc n) low filled =
    let here : m p ≡ v = ap m p0 ∙ filled 0 (omega arith) in
    let next : IsFilled m (p + 1) v n = λ j q. ap m (step j) ∙ filled (j + 1) (omega (arith, q)) in
    ground (arith, here, preserved-filled m (p + 1) v n low next, low)
  where
    p0 : p ≡ p + 0
    p0 = omega arith

    step : (j : ℕ) → p + 1 + j ≡ p + (j + 1)
    step j = omega arith

module _ (h : Heap) (used : ℕ) (seen : ℕ → Bool) (d : Driver) (v : IsDriver h used seen d) where
  module _ (index size : ℕ) (sized : IsSized size)
      (room : h.mem_start_brk + used + taken size ≤ h.mem_max_addr) where
    fits : d.heap.mem_brk + taken size ≤ d.heap.mem_max_addr
    fits = omega (arith, v.brk, v.max_kept, room)

    alloc_round-IsDriver :
        (d' : Driver) × (alloc_round d index size ≡ passed d')
        × IsDriver h (used + taken size) (put_at index true seen) d'
    unfolding alloc_round
    alloc_round-IsDriver =
        let p = d.heap.mem_brk + 8 in
        let h' = malloc_result d.heap size in
        let f =
          Allocated-IsFresh d.heap size p h' v.valid
            (malloc_result-Allocated d.heap size v.valid sized.1 fits) in
        (
          remember d h' (record { lo = p; hi = p + size - 1 } ∷ d.ranges) index p size,
          ground (
            arith,
            malloc_returns d.heap size sized.1 fits,
            add_range-IsFresh d.heap h' size p d.ranges sized.0 v.valid f v.ranges,
          ),
          remember-IsDriver h used seen d h' d.ranges index p size sized.0 v f v.ranges,
        )

    realloc_round-IsDriver :
        seen index ≡ true
        → index % 256 < 128
        → (d' : Driver) × (realloc_round d index size ≡ passed d')
          × IsDriver h (used + taken size) (put_at index true seen) d'
    unfolding realloc_round
    realloc_round-IsDriver known low =
        let (block, filled) = v.blocks index known in
        let old = d.block_sizes index in
        let (p, h', got, r) =
          mm_realloc-Reallocated d.heap (d.blocks index) size old v.valid block sized.1 fits in
        let f = Reallocated-IsFresh d.heap (d.blocks index) size old p h' r in
        let rs = remove_range d.ranges (d.blocks index) in
        let below = remove_range-All (IsBelow d.heap.mem_brk) d.ranges (d.blocks index) v.ranges in
        let n = if ltb size old then size else old in
        (
          remember d h' (record { lo = p; hi = p + size - 1 } ∷ rs) index p size,
          ground (
            arith,
            got,
            add_range-IsFresh d.heap h' size p rs sized.0 v.valid f below,
            preserved-filled h'.bytes p (index % 256) n low (λ j q.
                r.copied j (ground (arith, q)) (ground (arith, q)) ∙ filled j (ground (arith, q))),
          ),
          remember-IsDriver h used seen d h' rs index p size sized.0 v f below,
        )

  free_round-IsDriver :
      (index : ℕ) → (d' : Driver) × (free_round d index ≡ passed d') × IsDriver h used seen d'
  unfolding free_round mm_free
  free_round-IsDriver index = (
    record d {
      heap = mm_free d.heap (d.blocks index);
      ranges = remove_range d.ranges (d.blocks index);
    },
    refl,
    record {
      valid = v.valid;
      start_kept = v.start_kept;
      max_kept = v.max_kept;
      brk = v.brk;
      ranges = remove_range-All (IsBelow d.heap.mem_brk) d.ranges (d.blocks index) v.ranges;
      blocks = v.blocks;
    },
  )

round-IsDriver :
    (h : Heap) (used : ℕ) (seen : ℕ → Bool) (d : Driver) (r : Request) (index size : ℕ)
    → IsDriver h used seen d
    → IsAllowed r index size seen
    → h.mem_start_brk + used + cost r size ≤ h.mem_max_addr
    → (d' : Driver) × (round r index size d ≡ passed d')
      × IsDriver h (used + cost r size) (noted r index seen) d'
unfolding round IsAllowed noted cost
round-IsDriver h used seen d alloc index size v a room =
    alloc_round-IsDriver h used seen d v index size a room
round-IsDriver h used seen d realloc index size v a room =
    realloc_round-IsDriver h used seen d v index size a.0 room a.1 a.2
round-IsDriver h used seen d free index size v a room =
    let (d', freed, v') = free_round-IsDriver h used seen d v index in
    (d', freed, subst (λ n. IsDriver h n seen d') (omega arith) v')

rounds-IsDriver :
    (h : Heap) (used : ℕ) (seen : ℕ → Bool) (d : Driver) (ops : List TraceOp)
    → IsDriver h used seen d
    → IsReplayable seen ops
    → h.mem_start_brk + used + costs ops ≤ h.mem_max_addr
    → (d' : Driver) × (rounds d ops ≡ passed d')
unfolding rounds IsReplayable costs
rounds-IsDriver h used seen d [] v a room = (d, refl)
rounds-IsDriver h used seen d (o ∷ ops) v a room =
    let (d', stepped, v') =
      round-IsDriver h used seen d o.request o.index o.size v a.0 (omega (arith, room)) in
    let (d'', ran) =
      rounds-IsDriver h (used + cost o.request o.size) (noted o.request o.index seen) d' ops v' a.1
        (omega (arith, room)) in
    (d'', rw (stepped, rounds) ran)

-- The naive allocator is found valid on every trace that can be replayed and whose blocks, each with
-- its header and rounded up to 8, fit the heap together.
pub eval_mm_valid-passed :
    (d : Driver) (ops : List TraceOp)
    → IsHeap (mem_reset_brk d.heap)
    → IsReplayable (λ _. false) ops
    → d.heap.mem_start_brk + costs ops ≤ d.heap.mem_max_addr
    → (d' : Driver) × (eval_mm_valid d ops ≡ passed d')
unfolding eval_mm_valid mem_reset_brk
eval_mm_valid-passed d ops v a room =
    rounds-IsDriver d.heap 0 (λ _. false)
      (record d { heap = mem_reset_brk d.heap; ranges = clear_ranges d.ranges }) ops
      (record {
        valid = v;
        start_kept = refl;
        max_kept = refl;
        brk = omega arith;
        ranges = tt;
        blocks = λ i s. absurd (cc);
      })
      a (omega (arith, room))
