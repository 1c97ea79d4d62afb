-- ===== src/Sbuf.antt =====
-- The bounded buffer of thread/echoserver_pre.c and of thread/sbuf.c, with any number of threads
-- that insert and remove. A step is a `P`, a `V`, the load of `++rear` or `++front`, or the access to
-- the array with the store of that increment, so that two threads could lose an increment. A `P` passes only while its semaphore is positive, which is what csapp.c's `P` promises.
-- The two files differ in the semaphore that each routine posts last; `Posts` names the choice.
-- `front` and `rear` are ints: an increment that overflows has no step. `put_log` and `got_log`
-- are no part of the code: they record what each access wrote or read.
pub mod Inv
pub mod Current
pub mod Safety
pub mod Straight
mod Tests
use csapp_code.Prelude.{
  ℕ, zero, suc, ◌+◌, ◌-◌, ◌%◌, ◌^◌, ◌<◌, ◌≡◌, some, List, get_elem?, set, replicate,
}
use csapp_code.Threads.{put_at}

-- `sbuf_t`, with the two records of the past.
pub record Sbuf : Type 0 where
  pub buf : List ℕ
  pub n : ℕ
  pub front : ℕ
  pub rear : ℕ
  pub mutex : ℕ
  pub slots : ℕ
  pub items : ℕ
  pub put_log : ℕ → ℕ
  pub got_log : ℕ → ℕ

pub data Posts : Type 0 where
  crossed : Posts  -- echoserver_pre.c: insert posts items, remove posts slots
  straight : Posts  -- sbuf.c: insert posts slots, remove posts items

-- Where a thread stands: outside, or behind a statement of `sbuf_insert` or `sbuf_remove`.
pub data Pc : Type 0 where
  outside : Pc
  put_slot : (item : ℕ) → Pc
  put_locked : (item : ℕ) → Pc
  put_read : (item r : ℕ) → Pc  -- behind the load of ++rear, which gave `r`
  put_stored : Pc
  put_unlocked : Pc
  get_item : Pc
  get_locked : Pc
  get_read : (r : ℕ) → Pc  -- behind the load of ++front, which gave `r`
  get_loaded : (item : ℕ) → Pc
  get_unlocked : (item : ℕ) → Pc

abbrev pub sbuf_init : ℕ → Sbuf
sbuf_init n = record {
  buf = replicate n 0;
  n = n;
  front = 0;
  rear = 0;
  mutex = 1;
  slots = n;
  items = 0;
  put_log = λ _. 0;
  got_log = λ _. 0;
}

-- `sp->buf[(++sp->rear)%(sp->n)] = item`, where `r` was loaded for `sp->rear`.
abbrev pub store : Sbuf → ℕ → ℕ → Sbuf
store s item r = record s {
  buf = set s.buf ((r + 1) % s.n) item;
  rear = r + 1;
  put_log = put_at r item s.put_log;
}

-- `item = sp->buf[(++sp->front)%(sp->n)]`, where `r` was loaded for `sp->front`.
abbrev pub load_front : Sbuf → ℕ → ℕ → Sbuf
load_front s item r = record s { front = r + 1; got_log = put_at r item s.got_log }

-- The last statement of `sbuf_insert`.
abbrev pub post_insert : Posts → Sbuf → Sbuf
post_insert crossed s = record s { items = s.items + 1 }
post_insert straight s = record s { slots = s.slots + 1 }

-- The last statement of `sbuf_remove`.
abbrev pub post_remove : Posts → Sbuf → Sbuf
post_remove crossed s = record s { slots = s.slots + 1 }
post_remove straight s = record s { items = s.items + 1 }

-- One step of one thread.
pub data Move (v : Posts) (s : Sbuf) : Pc → Sbuf → Pc → Type 0 where
  wait_slots :
      (item : ℕ) → 0 < s.slots → Move v s outside (record s { slots = s.slots - 1 }) (put_slot item)
  lock_put :
      {item : ℕ}
      → 0 < s.mutex
      → Move v s (put_slot item) (record s { mutex = s.mutex - 1 }) (put_locked item)
  read_rear : {item : ℕ} → Move v s (put_locked item) s (put_read item s.rear)
  do_store : {item r : ℕ} → r + 1 < 2 ^ 31 → Move v s (put_read item r) (store s item r) put_stored
  unlock_put : Move v s put_stored (record s { mutex = s.mutex + 1 }) put_unlocked
  end_put : Move v s put_unlocked (post_insert v s) outside
  wait_items : 0 < s.items → Move v s outside (record s { items = s.items - 1 }) get_item
  lock_get : 0 < s.mutex → Move v s get_item (record s { mutex = s.mutex - 1 }) get_locked
  read_front : Move v s get_locked s (get_read s.front)
  do_load :
      {r : ℕ} (item : ℕ)
      → r + 1 < 2 ^ 31
      → get_elem? s.buf ((r + 1) % s.n) ≡ some item
      → Move v s (get_read r) (load_front s item r) (get_loaded item)
  unlock_get :
      {item : ℕ} → Move v s (get_loaded item) (record s { mutex = s.mutex + 1 }) (get_unlocked item)
  end_get : {item : ℕ} → Move v s (get_unlocked item) (post_remove v s) outside

pub record System : Type 0 where
  pub sbuf : Sbuf
  pub pc : ℕ → Pc

-- Some thread below `threads` takes a step.
pub data Step (v : Posts) (threads : ℕ) (y : System) : System → Type 0 where
  pick :
      (i : ℕ) {s : Sbuf} {p : Pc}
      → i < threads
      → Move v y.sbuf (y.pc i) s p
      → Step v threads y (record { sbuf = s; pc = put_at i p y.pc })

abbrev pub start_of : ℕ → System
start_of n = record { sbuf = sbuf_init n; pc = λ _. outside }

pub data Reach (v : Posts) (threads n : ℕ) : System → Type 0 where
  start : Reach v threads n (start_of n)
  later : {y z : System} → Reach v threads n y → Step v threads y z → Reach v threads n z
