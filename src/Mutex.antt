-- ===== src/Mutex.antt =====
-- thread/mutex.c: threads that count up one variable under a semaphore, any number of them, where
-- `main` starts two. `++cnt` is two steps, a load and a store. A `P` passes only while its semaphore
-- is positive, which is what csapp.c's `P` promises. `cnt` is a plain number, below 2 ^ 63 in what is shown of it.
-- The number of rounds is `niters` where that is not negative; for a negative one there is none, and
-- the test of `main` fails though nothing went wrong.
pub mod Laws
mod Tests
use csapp_code.Prelude.{ℕ, ◌+◌, ◌-◌, ◌*◌, ◌%◌, ◌^◌, ◌<◌, Bool, ◌==◌}
use csapp_code.Threads.{put_at}

pub record Memory : Type 0 where
  pub cnt : ℕ
  pub mutex : ℕ

-- Where a thread stands in round `i` of its loop.
pub data Worker : Type 0 where
  before : ℕ → Worker  -- at the test of the loop
  holding : ℕ → Worker  -- behind P(&mutex)
  loaded : (i v : ℕ) → Worker  -- behind the load of ++cnt, which gave `v`
  stored : ℕ → Worker  -- behind ++cnt

pub data Act (niters : ℕ) (m : Memory) : Worker → Memory → Worker → Type 0 where
  wait :
      {i : ℕ}
      → i < niters
      → 0 < m.mutex
      → Act niters m (before i) (record m { mutex = m.mutex - 1 }) (holding i)
  read : {i : ℕ} → Act niters m (holding i) m (loaded i m.cnt)
  write : {i v : ℕ} → Act niters m (loaded i v) (record m { cnt = v + 1 }) (stored i)
  post : {i : ℕ} → Act niters m (stored i) (record m { mutex = m.mutex + 1 }) (before (i + 1))

pub record Crew : Type 0 where
  pub memory : Memory
  pub worker : ℕ → Worker

pub data Tick (threads niters : ℕ) (y : Crew) : Crew → Type 0 where
  tick :
      (t : ℕ) {m : Memory} {w : Worker}
      → t < threads
      → Act niters y.memory (y.worker t) m w
      → Tick threads niters y (record { memory = m; worker = put_at t w y.worker })

-- `Sem_init` with 1.
abbrev pub start : Crew
start = record { memory = record { cnt = 0; mutex = 1 }; worker = λ _. before 0 }

pub data Ticked (threads niters : ℕ) : ℕ → Crew → Type 0 where
  started : Ticked threads niters 0 start
  then_on :
      {n : ℕ} {y z : Crew}
      → Ticked threads niters n y
      → Tick threads niters y z
      → Ticked threads niters (n + 1) z

-- The test of `main` behind the joins, with `niters` as the 64 bits of a long.
pub ok : ℕ → ℕ → Crew → Bool
ok threads niters y = y.memory.cnt == (threads * niters) % 2 ^ 64
