-- ===== src/Malloc/Util/Most.antt =====
-- The counters of `eval_mm_util`, on a trace that does not overflow them.
use csapp_code.Prelude.{
  ℕ, ◌+◌, ◌-◌, ◌%◌, ◌^◌, ◌*◌, ◌≤◌, ◌<◌, ◌≡◌, refl, arith, Bool, true, false, Option-cases, inl, inr,
  some, List, [], ◌∷◌, length, All,
}
use mathlib.Core.Path.{subst}
use mathlib.Core.Option.{some-injective}
use csapp_code.Threads.{put_at}
use csapp_code.Malloc.{Heap, mem_reset_brk, mm_malloc, mm_realloc}
use csapp_code.Malloc.Laws.{IsHeap, taken}
use csapp_code.Malloc.Driver.{TraceOp, Request, alloc, free, realloc}
use csapp_code.Malloc.Util.{
  less, count_block, util_round, util_rounds, Usage, larger, start, eval_mm_util,
}
use csapp_code.Malloc.Util.Laws.{
  cost, costs, util_rounds-IsUsage, reset-IsUsage, IsUsage-mem_heapsize,
}

-- A trace that reallocates and frees only indices that it has allocated, with sizes up to `m`.
-- `seen` are the indices that were allocated so far.
unfoldable pub IsAllowed : ℕ → Request → ℕ → ℕ → (ℕ → Bool) → Type 0
IsAllowed m alloc index size seen = size ≤ m
IsAllowed m realloc index size seen = (size ≤ m) × (seen index ≡ true)
IsAllowed m free index size seen = seen index ≡ true

unfoldable pub noted : Request → ℕ → (ℕ → Bool) → ℕ → Bool
noted alloc index seen = put_at index true seen
noted realloc index seen = put_at index true seen
noted free index seen = seen

unfoldable pub IsMeasurable : ℕ → (ℕ → Bool) → List TraceOp → Type 0
IsMeasurable m seen [] = Unit
IsMeasurable m seen (o ∷ os) =
    IsAllowed m o.request o.index o.size seen × IsMeasurable m (noted o.request o.index seen) os

-- The counters when `used` bytes are taken from the heap and the rounds so far added and removed at
-- most `b` bytes each: `total_size` is what was added less what was removed.
record IsCounted (m b used : ℕ) (seen : ℕ → Bool) (u : Usage) : Type 0 where
  added : ℕ
  removed : ℕ
  total : u.total_size ≡ (added + (2 ^ 32 - removed)) % 2 ^ 32
  few : added ≤ used
  add_bound : added ≤ b
  remove_bound : removed ≤ b
  high : u.max_total_size ≤ used
  sizes : (i : ℕ) → seen i ≡ true → u.block_sizes i ≤ m

put_at-le :
    (m index size : ℕ) (sizes : ℕ → ℕ)
    → size ≤ m
    → (i : ℕ) → (sizes i ≤ m)
    → put_at index size sizes i ≤ m
put_at-le m index size sizes small i old = ground (arith, small, old)

larger-le :
    (total most used : ℕ) → most ≤ used → (total < 2 ^ 31 → total ≤ used) → larger total most ≤ used
unfolding larger
larger-le total most used low fits = ground (arith, low, fits)

noted-le :
    (m index size : ℕ) (seen : ℕ → Bool) (sizes : ℕ → ℕ)
    → size ≤ m
    → ((i : ℕ) → seen i ≡ true → sizes i ≤ m)
    → (i : ℕ) → put_at index true seen i ≡ true
    → put_at index size sizes i ≤ m
noted-le m index size seen sizes small old i known = ground (arith, small, old i, known)

-- A block that is added while `r` bytes are removed.
count_block-IsCounted :
    (m b used : ℕ) (seen seen' : ℕ → Bool) (u : Usage) (h : Heap) (index p size total r : ℕ)
    → (v : IsCounted m b used seen u) → size ≤ m
    → r ≤ m
    → b + m < 2 ^ 31
    → total ≡ (v.added + size + (2 ^ 32 - (v.removed + r))) % 2 ^ 32
    → ((i : ℕ) → seen' i ≡ true → put_at index size u.block_sizes i ≤ m)
    → IsCounted m (b + m) (used + taken size) seen' (count_block u h index p size total)
unfolding count_block
count_block-IsCounted m b used seen seen' u h index p size total r v small least fits same sizes =
    record {
      added = v.added + size;
      removed = v.removed + r;
      total = same;
      few = omega (arith, v.few);
      add_bound = omega (arith, v.add_bound);
      remove_bound = omega (arith, v.remove_bound);
      high =
          larger-le total u.max_total_size (used + taken size) (omega (arith, v.high))
            (λ q. omega (arith, q, same, v.few, v.add_bound, v.remove_bound));
      sizes = sizes;
    }

-- A round counts what it does.
util_round-IsCounted :
    (m b used : ℕ) (seen : ℕ → Bool) (r : Request) (index size : ℕ) (u u' : Usage)
    → IsCounted m b used seen u
    → IsAllowed m r index size seen
    → b + m < 2 ^ 31
    → util_round r index size u ≡ some u'
    → IsCounted m (b + m) (used + cost r size) (noted r index seen) u'
unfolding util_round IsAllowed noted cost
util_round-IsCounted m b used seen alloc index size u u' v a small e =
    elim (Option-cases (mm_malloc u.heap size)) [
      | inl failed ↦ absurd (ground (arith, failed, e))
      | inr ((p, h), got) ↦
          let total = (u.total_size + size) % 2 ^ 32 in
          subst (IsCounted m (b + m) (used + taken size) (put_at index true seen))
            (some-injective (count_block u h index p size total) u' (rw (got, util_round) at e))
            (count_block-IsCounted m b used seen (put_at index true seen) u h index p size total 0 v
              a (omega arith) small (omega (arith, v.total, v.add_bound, v.remove_bound, a, small))
              (noted-le m index size seen u.block_sizes a v.sizes))
    ]
util_round-IsCounted m b used seen realloc index size u u' v a small e =
    elim (Option-cases (mm_realloc u.heap (u.blocks index) size)) [
      | inl failed ↦ absurd (ground (arith, failed, e))
      | inr ((p, h), got) ↦
          let old = u.block_sizes index in
          let old_small = v.sizes index a.1 in
          let total = less (u.total_size + size) old in
          subst (IsCounted m (b + m) (used + taken size) (put_at index true seen))
            (some-injective (count_block u h index p size total) u' (rw (got, util_round) at e))
            (count_block-IsCounted m b used seen (put_at index true seen) u h index p size total old
              v a.0 old_small small
              (omega (arith, v.total, v.add_bound, v.remove_bound, a.0, old_small, small))
              (noted-le m index size seen u.block_sizes a.0 v.sizes))
    ]
util_round-IsCounted m b used seen free index size u u' v a small e =
    let old_small = v.sizes index a in
    subst (IsCounted m (b + m) (used + 0) seen) (some-injective _ u' e) (record {
      added = v.added;
      removed = v.removed + u.block_sizes index;
      total = omega (arith, v.total, v.add_bound, v.remove_bound, old_small, small);
      few = omega (arith, v.few);
      add_bound = omega (arith, v.add_bound);
      remove_bound = omega (arith, v.remove_bound, old_small);
      high = omega (arith, v.high);
      sizes = v.sizes;
    })

util_rounds-high :
    (m b used : ℕ) (seen : ℕ → Bool) (u u' : Usage) (ops : List TraceOp)
    → IsCounted m b used seen u
    → IsMeasurable m seen ops
    → b + length ops * m < 2 ^ 31
    → util_rounds u ops ≡ some u'
    → u'.max_total_size ≤ used + costs ops
unfolding util_rounds IsMeasurable costs
util_rounds-high m b used seen u u' [] v a small e =
    subst (λ (w : Usage). w.max_total_size ≤ used + 0) (some-injective u u' e)
      (omega (arith, v.high))
util_rounds-high m b used seen u u' (o ∷ ops) v a small e =
    elim (Option-cases (util_round o.request o.index o.size u)) [
      | inl failed ↦ absurd (ground (arith, failed, e))
      | inr (w, stepped) ↦
          let v' =
            util_round-IsCounted m b used seen o.request o.index o.size u w v a.0
              (omega (arith, small)) stepped in
          let high =
            util_rounds-high m (b + m) (used + cost o.request o.size) (noted o.request o.index seen)
              w u' ops v' a.1 (omega (arith, small)) (rw (stepped, util_rounds) at e) in
          omega (arith, high)
    ]

-- A trace that reallocates and frees only what it has allocated, whose sizes are at most `m`, and
-- with so few operations that their number times `m` is below 2 ^ 31, which keeps the counters from
-- overflow: if its blocks fit the heap, `eval_mm_util` returns. The heap has grown by every ALLOC
-- and REALLOC, by its size and a header rounded up to 8, since nothing is ever given back; and the
-- most bytes that were in use at a time are no more than that, so that the utilization is at most 1.
pub eval_mm_util_lem :
    (h : Heap) (blocks block_sizes : ℕ → ℕ) (ops : List TraceOp) (m : ℕ)
    → IsHeap (mem_reset_brk h)
    → All (λ (o : TraceOp). o.size + 15 < 2 ^ 31) ops
    → IsMeasurable m (λ i. false) ops
    → length ops * m < 2 ^ 31
    → h.mem_start_brk + costs ops ≤ h.mem_max_addr
    → (most : ℕ) × (eval_mm_util h blocks block_sizes ops ≡ some (most, costs ops))
      × (most ≤ costs ops)
unfolding eval_mm_util
eval_mm_util_lem h blocks block_sizes ops m v small known few room =
    let u = start h blocks block_sizes in
    let (u', ran, v') =
      util_rounds-IsUsage h 0 u ops (reset-IsUsage h blocks block_sizes v) small
        (omega (arith, room)) in
    let c : IsCounted m 0 0 (λ i. false) u = record {
      added = 0;
      removed = 0;
      total = refl;
      few = omega arith;
      add_bound = omega arith;
      remove_bound = omega arith;
      high = omega arith;
      sizes = λ i known. absurd (cc);
    } in
    let high = util_rounds-high m 0 0 (λ i. false) u u' ops c known (omega (arith, few)) ran in
    let size = IsUsage-mem_heapsize h (0 + costs ops) u' v' in
    (u'.max_total_size, ground (arith, ran, size), omega (arith, high))
