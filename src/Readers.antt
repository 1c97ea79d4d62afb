-- ===== src/Readers.antt =====
-- thread/reader_writer.c: readers and writers, with the readers first, for any number of threads,
-- each of which reads or writes again and again. A turn is one statement of one thread; a `P` passes
-- only while its semaphore is positive, which is what csapp.c's `P` promises. `read_cnt` is a plain
-- number: there are fewer than 2 ^ 31 threads. The same lock guards the cache of
-- labs/proxylab-handout/proxy.c.
pub mod Laws
mod Tests
use csapp_code.Prelude.{ℕ, zero, suc, ◌+◌, ◌-◌, ◌<◌, ◌≡◌, ◌≢◌}
use csapp_code.Threads.{put_at}

pub record Shared : Type 0 where
  pub mutex : ℕ
  pub w : ℕ
  pub read_cnt : ℕ

-- Where a thread stands: outside, or behind a statement of `reader` or `writer`.
pub data Place : Type 0 where
  idle : Place
  entering : Place  -- behind the first P(&mutex)
  counted : Place  -- behind ++read_cnt
  entered : Place  -- behind the first `if`
  reading : Place  -- behind the first V(&mutex)
  leaving : Place  -- behind the second P(&mutex)
  uncounted : Place  -- behind --read_cnt
  left : Place  -- behind the second `if`
  writing : Place  -- behind the writer's P(&w)

pub data Statement (s : Shared) : Place → Shared → Place → Type 0 where
  lock_in : 0 < s.mutex → Statement s idle (record s { mutex = s.mutex - 1 }) entering
  count_in : Statement s entering (record s { read_cnt = s.read_cnt + 1 }) counted
  first_in : s.read_cnt ≡ 1 → 0 < s.w → Statement s counted (record s { w = s.w - 1 }) entered
  next_in : s.read_cnt ≢ 1 → Statement s counted s entered
  unlock_in : Statement s entered (record s { mutex = s.mutex + 1 }) reading
  lock_out : 0 < s.mutex → Statement s reading (record s { mutex = s.mutex - 1 }) leaving
  count_out : Statement s leaving (record s { read_cnt = s.read_cnt - 1 }) uncounted
  last_out : s.read_cnt ≡ 0 → Statement s uncounted (record s { w = s.w + 1 }) left
  next_out : s.read_cnt ≢ 0 → Statement s uncounted s left
  unlock_out : Statement s left (record s { mutex = s.mutex + 1 }) idle
  start_write : 0 < s.w → Statement s idle (record s { w = s.w - 1 }) writing
  end_write : Statement s writing (record s { w = s.w + 1 }) idle

pub record Scene : Type 0 where
  pub shared : Shared
  pub place : ℕ → Place

pub data Turn (threads : ℕ) (y : Scene) : Scene → Type 0 where
  turn :
      (i : ℕ) {s : Shared} {p : Place}
      → i < threads
      → Statement y.shared (y.place i) s p
      → Turn threads y (record { shared = s; place = put_at i p y.place })

-- `Sem_init` of both semaphores with 1.
abbrev pub opening : Scene
opening = record { shared = record { mutex = 1; w = 1; read_cnt = 0 }; place = λ _. idle }

pub data Reached (threads : ℕ) : Scene → Type 0 where
  opened : Reached threads opening
  after : {y z : Scene} → Reached threads y → Turn threads y z → Reached threads z
