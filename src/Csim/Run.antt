-- ===== src/Csim/Run.antt =====
-- The loop of `main` over the operations of a trace.
use csapp_code.Prelude.{
  set, ◌<◌, ◌^◌, ℕ, ◌+◌, ◌≤◌, ◌≡◌, refl, ◌⊎◌, inl, inr, some, List, [], ◌∷◌, arith, ◌==◌,
  if◌then◌else◌, All,
}
use mathlib.Core.Path.{subst}
use native.Mathlib.Nat.{zero-add}
use csapp_code.Csim.{Arguments, Sim, Operation, finished, invalid, replay, process}
use csapp_code.Csim.Process.{
  IsGeometry, HasShape, process-Processed, process_again, count_cache, count_sums, next_sim,
}

-- The operations that the switch of `main` knows.
abbrev pub IsKnown : Operation → Type 0
IsKnown o = (o.op ≡ b'I') ⊎ (o.op ≡ b'M') ⊎ (o.op ≡ b'L') ⊎ (o.op ≡ b'S')

-- How many cache accesses an operation stands for.
abbrev pub weight : Operation → ℕ
weight o = if o.op == b'I' then 0 else if o.op == b'M' then 2 else 1

abbrev pub accesses : List Operation → ℕ
accesses [] = 0
accesses (o ∷ os) = weight o + accesses os

abbrev pub modifies : List Operation → ℕ
modifies [] = 0
modifies (o ∷ os) = (if o.op == b'M' then 1 else 0) + modifies os

-- A simulator after at most `k` accesses.
pub record IsReady (a : Arguments) (k : ℕ) (m : Sim) : Type 0 where
  pub shape : HasShape a k m.cache
  pub few : m.hit_count + m.miss_count ≤ k
  pub few_evicted : m.eviction_count ≤ k

-- What the counters of `n` are to those of `m` after `k` accesses of which `j` must hit.
pub record Counted (k j : ℕ) (m n : Sim) : Type 0 where
  pub all : n.hit_count + n.miss_count ≡ m.hit_count + m.miss_count + k
  pub evicted : n.eviction_count + m.miss_count ≤ m.eviction_count + n.miss_count
  pub hits : m.hit_count + j ≤ n.hit_count

-- `m'` follows `m`, which `i` accesses at most have led to, after `k` accesses, `j` of them sure
-- hits, and the cache keeps its shape.
pub record Follows (a : Arguments) (i k j : ℕ) (m m' : Sim) : Type 0 where
  pub ready : IsReady a (i + k) m'
  pub counted : Counted k j m m'

once :
    (a : Arguments) (i : ℕ) (m : Sim) (address : ℕ)
    → IsGeometry a
    → i + 1 < 2 ^ 31
    → IsReady a i m
    → (m' : Sim) × (process a m address ≡ some m') × Follows a i 1 0 m m'
once a i m address g few r =
    let p = process-Processed a i m address g few r.shape in
    let c = count_sums p.verdict (set m.cache p.index p.lines') i m few r.few r.few_evicted in
    (
      next_sim p,
      p.returns,
      record {
        ready = record {
          shape = rw (count_cache p.verdict _ m) p.shape;
          few = omega (arith, c.0, r.few);
          few_evicted = c.3;
        };
        counted = record { all = c.0; evicted = c.1; hits = omega (arith, c.2) };
      },
    )

twice :
    (a : Arguments) (i : ℕ) (m : Sim) (address : ℕ)
    → IsGeometry a
    → i + 2 < 2 ^ 31
    → IsReady a i m
    → (m' m'' : Sim) × (process a m address ≡ some m')
      × (process a m' address ≡ some m'')
      × Follows a i 2 1 m m''
twice a i m address g few r =
    let (m', e, f) = once a i m address g (omega (arith, few)) r in
    let c = f.counted in
    let ready = f.ready in
    let (m'', e', sh', h, mi, ev) =
      process_again a i m m' address g (omega (arith, few)) (omega (arith, few, ready.few)) r.shape
        e in
    (
      m',
      m'',
      e,
      e',
      record {
        ready = record {
          shape = subst (λ k. HasShape a k m''.cache) (omega arith) sh';
          few = omega (arith, h, mi, ready.few);
          few_evicted = omega (arith, ev, ready.few_evicted);
        };
        counted = record {
          all = omega (arith, h, mi, c.all);
          evicted = omega (arith, ev, mi, c.evicted);
          hits = omega (arith, h, c.hits);
        };
      },
    )

Follows-trans :
    (a : Arguments) (i j k p q : ℕ) (m n o : Sim)
    → Follows a i j p m n
    → Follows a (i + j) k q n o
    → Follows a i (j + k) (p + q) m o
Follows-trans a i j k p q m n o f g = record {
  ready = subst (λ x. IsReady a x o) (omega arith) g.ready;
  counted = omega (arith, f.counted, g.counted);
}

-- The result of a replay: all operations done, with the counters that they make.
abbrev pub Completes : Arguments → ℕ → Sim → List Operation → Type 0
Completes a i m os =
    (m' : Sim) × (replay a m os ≡ some (finished m')) × Follows a i (accesses os) (modifies os) m m'

-- A trace of known operations is replayed to its end without a fault, as long as it and what was
-- replayed before make fewer than 2 ^ 31 accesses. The hits and misses add up
-- to one for each load and store and two for each modify, no eviction is counted without a miss,
-- and every modify has at least one hit.
pub replay_done :
    (a : Arguments) (i : ℕ) (m : Sim) (os : List Operation)
    → IsGeometry a
    → i + accesses os < 2 ^ 31
    → IsReady a i m
    → All IsKnown os
    → Completes a i m os
unfolding replay
replay_done a i m [] g few r known =
    (m, refl, record { ready = subst (λ k. IsReady a k m) (omega arith) r; counted = omega arith })
replay_done a i m (o ∷ os) g few r known = elim known.0 [
  | inl c ↦
      let (m', e, f) = replay_done a i m os g (ground (arith, few, c)) r known.1 in
      (m', rw c e, rw c (simp zero-add f))
  | inr (inl c) ↦
      let (n, n', e, e', f) = twice a i m o.address g (ground (arith, few, c)) r in
      let (m', ran, f') = replay_done a (i + 2) n' os g (ground (arith, few, c)) f.ready known.1 in
      (m', rw (c, e, e') ran, rw c (Follows-trans a i _ _ _ _ m n' m' f f'))
  | inr (inr (inl c)) ↦
      let (n, e, f) = once a i m o.address g (ground (arith, few, c)) r in
      let (m', ran, f') = replay_done a (i + 1) n os g (ground (arith, few, c)) f.ready known.1 in
      (m', rw (c, e) ran, rw c (Follows-trans a i _ _ _ _ m n m' f f'))
  | inr (inr (inr c)) ↦
      let (n, e, f) = once a i m o.address g (ground (arith, few, c)) r in
      let (m', ran, f') = replay_done a (i + 1) n os g (ground (arith, few, c)) f.ready known.1 in
      (m', rw (c, e) ran, rw c (Follows-trans a i _ _ _ _ m n m' f f'))
]

-- An operation that the switch does not know ends the replay, whatever stands behind it.
pub replay_stops :
    (a : Arguments) (m : Sim) (o : Operation) (os : List Operation)
    → ¬ IsKnown o
    → replay a m (o ∷ os) ≡ some invalid
unfolding replay
replay_stops a m o os unknown = ground arith
