-- ===== src/Mutex/Laws.antt =====
-- What the counter of thread/mutex.c comes to.
use mathlib.Core.Path.{subst}
use csapp_code.Prelude.{
  ◌^◌, ℕ, ◌+◌, ◌*◌, ◌≤◌, ◌<◌, ◌≡◌, ◌≢◌, refl, sym, ap, ◌∙◌, arith, true, ◌⊎◌, inl, inr,
}
use native.Mathlib.Decide.{ℕ_discrete, dec_lt}
use csapp_code.Threads.{
  put_at, load, load-put_at, load_const, two-le-load, load_pos, load_same, load_bound, all_full,
}
use csapp_code.Mutex.{
  Memory, Worker, before, holding, loaded, stored, Act, wait, read, write, post, Crew, Tick, tick,
  Ticked, started, then_on, ok,
}

-- Whether the thread holds the semaphore.
abbrev pub holds : Worker → ℕ
holds (before i) = 0
holds (holding i) = 1
holds (loaded i v) = 1
holds (stored i) = 1

-- How often it has counted, and how many statements it has run.
abbrev pub counts : Worker → ℕ
counts (before i) = i
counts (holding i) = i
counts (loaded i v) = i
counts (stored i) = i + 1

abbrev pub ran : Worker → ℕ
ran (before i) = 4 * i
ran (holding i) = 4 * i + 1
ran (loaded i v) = 4 * i + 2
ran (stored i) = 4 * i + 3

-- A value that was loaded is still that of the variable.
abbrev pub IsLatest : ℕ → Worker → Type 0
IsLatest cnt (loaded i v) = v ≡ cnt
IsLatest cnt _ = Unit

-- No thread is past its rounds.
abbrev pub IsWithin : ℕ → Worker → Type 0
IsWithin niters w = ran w ≤ 4 * niters

pub record IsCrew (threads niters n : ℕ) (m : Memory) (worker : ℕ → Worker) : Type 0 where
  pub lock : m.mutex + load holds threads worker ≡ 1
  pub total : m.cnt ≡ load counts threads worker
  pub steps : n ≡ load ran threads worker
  pub latest : (t : ℕ) → t < threads → IsLatest m.cnt (worker t)
  pub within : (t : ℕ) → t < threads → IsWithin niters (worker t)

-- One thread moves: what holds of every thread holds again, if it does of that one.
one_moved :
    (threads t : ℕ) (w : Worker) (worker : ℕ → Worker) (P : Worker → Type 0)
    → P w
    → ((u : ℕ) → u < threads → u ≢ t → P (worker u))
    → (u : ℕ) → u < threads
    → P (put_at t w worker u)
one_moved threads t w worker P here others u lt = elim (ℕ_discrete u t) [
  | yes same ↦ subst P (ground (arith, same)) here
  | no other ↦ subst P (ground (arith, other)) (others u lt other)
]

-- What a move of thread `t` from `from` to `to` does to the sums, and what was known before.
record Stepped (threads niters : ℕ) (cnt : ℕ) (worker : ℕ → Worker) (t : ℕ) (from to : Worker)
    : Type 0 where
  lock_sum :
      load holds threads (put_at t to worker) + holds from ≡ load holds threads worker + holds to
  count_sum :
      load counts threads (put_at t to worker) + counts from
      ≡ load counts threads worker + counts to
  ran_sum : load ran threads (put_at t to worker) + ran from ≡ load ran threads worker + ran to
  here : IsLatest cnt from
  bound : IsWithin niters from
  alone : (u : ℕ) → u < threads → u ≢ t → holds from + holds (worker u) ≤ load holds threads worker
  kept : (u : ℕ) → u < threads → u ≢ t → IsLatest cnt (worker u)
  still : (u : ℕ) → u < threads → u ≢ t → IsWithin niters (worker u)

stepped :
    {threads niters n : ℕ} {m : Memory} {worker : ℕ → Worker} (t : ℕ) (to : Worker)
    → IsCrew threads niters n m worker
    → t < threads
    → Stepped threads niters m.cnt worker t (worker t) to
stepped {threads} {niters} {n} {m} {worker} t to v lt = record {
  lock_sum = load-put_at holds threads t to worker lt;
  count_sum = load-put_at counts threads t to worker lt;
  ran_sum = load-put_at ran threads t to worker lt;
  here = v.latest t lt;
  bound = v.within t lt;
  alone = λ u lu ne. two-le-load holds threads t u worker lt lu (λ e. ne (sym e));
  kept = λ u lu ne. v.latest u lu;
  still = λ u lu ne. v.within u lu;
}

waiting-IsLatest : (c : ℕ) (w : Worker) → holds w ≡ 0 → IsLatest c w
waiting-IsLatest c (before i) h = tt
waiting-IsLatest c (holding i) h = tt
waiting-IsLatest c (loaded i v) h = absurd (omega (arith, h))
waiting-IsLatest c (stored i) h = tt

Act-IsCrew :
    {threads niters n : ℕ} {m m' : Memory} {worker : ℕ → Worker} {from to : Worker} (t : ℕ)
    → IsCrew threads niters n m worker
    → Act niters m from m' to
    → Stepped threads niters m.cnt worker t from to
    → IsCrew threads niters (n + 1) m' (put_at t to worker)
Act-IsCrew {threads} {niters} {n} {m} {m'} {worker} {from} {to} t v (wait less free) s = record {
  lock = omega (arith, v.lock, s.lock_sum, free);
  total = omega (arith, v.total, s.count_sum);
  steps = omega (arith, v.steps, s.ran_sum);
  latest = one_moved threads t to worker (IsLatest m.cnt) tt s.kept;
  within = one_moved threads t to worker (IsWithin niters) (omega (arith, less)) s.still;
}
Act-IsCrew {threads} {niters} {n} {m} {m'} {worker} {from} {to} t v (read) s = record {
  lock = omega (arith, v.lock, s.lock_sum);
  total = omega (arith, v.total, s.count_sum);
  steps = omega (arith, v.steps, s.ran_sum);
  latest = one_moved threads t to worker (IsLatest m.cnt) refl s.kept;
  within = one_moved threads t to worker (IsWithin niters) (omega (arith, s.bound)) s.still;
}
Act-IsCrew {threads} {niters} {n} {m} {m'} {worker} {from} {to} t v (write) s = record {
  lock = omega (arith, v.lock, s.lock_sum);
  total = omega (arith, v.total, s.count_sum, s.here);
  steps = omega (arith, v.steps, s.ran_sum);
  latest =
      one_moved threads t to worker (IsLatest m'.cnt) tt
        (λ u lt ne. waiting-IsLatest m'.cnt (worker u) (omega (arith, s.alone u lt ne, v.lock)));
  within = one_moved threads t to worker (IsWithin niters) (omega (arith, s.bound)) s.still;
}
Act-IsCrew {threads} {niters} {n} {m} {m'} {worker} {from} {to} t v (post) s = record {
  lock = omega (arith, v.lock, s.lock_sum);
  total = omega (arith, v.total, s.count_sum);
  steps = omega (arith, v.steps, s.ran_sum);
  latest = one_moved threads t to worker (IsLatest m.cnt) tt s.kept;
  within = one_moved threads t to worker (IsWithin niters) (omega (arith, s.bound)) s.still;
}

Ticked-IsCrew :
    {threads niters n : ℕ} {y : Crew}
    → Ticked threads niters n y
    → IsCrew threads niters n y.memory y.worker
Ticked-IsCrew {threads} started = record {
  lock = omega (arith, load_const holds threads (before 0) refl);
  total = sym (load_const counts threads (before 0) refl);
  steps = sym (load_const ran threads (before 0) (omega arith));
  latest = λ t lt. tt;
  within = λ t lt. omega arith;
}
Ticked-IsCrew (then_on r (tick t {m} {w} lt a)) =
    let v = Ticked-IsCrew r in Act-IsCrew t v a (stepped t w v lt)

-- Every thread has left its loop.
abbrev pub IsFinished : ℕ → ℕ → Crew → Type 0
IsFinished threads niters y = (t : ℕ) → t < threads → y.worker t ≡ before niters

abbrev pub CanTick : ℕ → ℕ → Crew → Type 0
CanTick threads niters y = (z : Crew) × Tick threads niters y z

-- With a number of rounds that is not negative, and as a long has room for those of all threads:
-- whenever all threads have left their loops, the variable has counted every round of every thread,
-- and the program prints OK.
pub cnt_lem :
    {threads niters n : ℕ} {y : Crew}
    → Ticked threads niters n y
    → IsFinished threads niters y
    → niters < 2 ^ 63
    → threads * niters < 2 ^ 63
    → (y.memory.cnt ≡ threads * niters) × (ok threads niters y ≡ true)
unfolding ok
cnt_lem {threads} {niters} {n} {y} r done long fits =
    let all = (Ticked-IsCrew r).total ∙ load_same counts threads (before niters) y.worker done in
    (all, ground (arith, all, fits))

acts :
    (niters : ℕ) (m : Memory) (w : Worker)
    → 0 < holds w
    → (m' : Memory) × (w' : Worker) × Act niters m w m' w'
acts niters m (before i) h = absurd (omega (arith, h))
acts niters m (holding i) h = (_, _, read)
acts niters m (loaded i v) h = (_, _, write)
acts niters m (stored i) h = (_, _, post)

-- With the semaphore free, a thread that is not through can move.
waits :
    (niters : ℕ) (m : Memory) (w : Worker)
    → 0 < m.mutex
    → ran w < 4 * niters
    → (m' : Memory) × (w' : Worker) × Act niters m w m' w'
waits niters m (before i) free h = (_, _, wait (omega (arith, h)) free)
waits niters m (holding i) free h = (_, _, read)
waits niters m (loaded i v) free h = (_, _, write)
waits niters m (stored i) free h = (_, _, post)

through : (niters : ℕ) (w : Worker) → ran w ≡ 4 * niters → w ≡ before niters
through niters (before i) h = ap before (omega (arith, h))
through niters (holding i) h = absurd (omega (arith, h))
through niters (loaded i v) h = absurd (omega (arith, h))
through niters (stored i) h = absurd (omega (arith, h))

-- However the threads take turns, they take at most four for each round of each; and until all have
-- left their loops, some thread can take a turn. So the program ends, and never hangs.
pub ticks_end :
    {threads niters n : ℕ} {y : Crew}
    → Ticked threads niters n y
    → (n ≤ threads * (4 * niters)) × (IsFinished threads niters y ⊎ CanTick threads niters y)
ticks_end {threads} {niters} {n} {y} r =
    let v = Ticked-IsCrew r in
    (
      omega (arith, v.steps, load_bound ran threads (4 * niters) y.worker v.within),
      (elim (all_full ran threads (4 * niters) y.worker v.within) [
        | inl full ↦ inl (λ t lt. through niters (y.worker t) (full t lt))
        | inr (t, lt, more) ↦ inr (elim (dec_lt 0 y.memory.mutex) [
          | yes free ↦
              let (m', w', a) = waits niters y.memory (y.worker t) free more in (_, tick t lt a)
          | no taken ↦
              let (u, lu, held) = load_pos holds threads y.worker (omega (arith, v.lock)) in
              let (m', w', a) = acts niters y.memory (y.worker u) held in (_, tick u lu a)
        ])
      ]),
    )
