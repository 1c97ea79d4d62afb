-- ===== src/Sbuf/Inv.antt =====
-- The invariant of the bounded buffer with the semaphores of thread/echoserver_pre.c.
use csapp_code.Prelude.{
  sym, ◌∙◌, ℕ, ◌+◌, ◌-◌, ◌%◌, ◌≤◌, ◌<◌, ◌≡◌, ◌≢◌, refl, arith, some, length, get_elem?, length-set,
  get_elem?-set_self, get_elem?-set_ne, length-replicate,
}
use mathlib.Core.Path.{subst}
use native.Mathlib.Nat.{mod-add-mod, mod-eq_of_lt, mod-eq-sub-mod}
use native.Mathlib.Decide.{ℕ_discrete, dec_lt}
use csapp_code.Threads.{put_at, load, load-put_at, load_const}
use csapp_code.Sbuf.{
  put_read, get_read, read_rear, read_front, load_front, Sbuf, Pc, outside, put_slot, put_locked,
  put_stored, put_unlocked, get_item, get_locked, get_loaded, get_unlocked, crossed, Move,
  wait_slots, lock_put, do_store, unlock_put, end_put, wait_items, lock_get, do_load, unlock_get,
  end_get, start_of, store,
}

-- Whether the thread holds the mutex.
abbrev pub locked : Pc → ℕ
locked (put_locked _) = 1
locked (put_read _ _) = 1
locked put_stored = 1
locked get_locked = 1
locked (get_read _) = 1
locked (get_loaded _) = 1
locked _ = 0

-- A slot taken by an insert that has not stored, or freed by a remove that has not posted.
abbrev pub slot_due : Pc → ℕ
slot_due (put_slot _) = 1
slot_due (put_locked _) = 1
slot_due (put_read _ _) = 1
slot_due (get_loaded _) = 1
slot_due (get_unlocked _) = 1
slot_due _ = 0

-- An item stored and not posted, or taken by a remove that has not loaded.
abbrev pub item_due : Pc → ℕ
item_due put_stored = 1
item_due put_unlocked = 1
item_due get_item = 1
item_due get_locked = 1
item_due (get_read _) = 1
item_due _ = 0

pub record Inv (threads : ℕ) (s : Sbuf) (pc : ℕ → Pc) : Type 0 where
  pub size : length s.buf ≡ s.n
  pub lock : s.mutex + load locked threads pc ≡ 1
  pub filled : s.rear ≡ s.front + s.items + load item_due threads pc
  pub room : s.slots + load slot_due threads pc + s.rear ≡ s.n + s.front
  pub held :
      (k : ℕ) → s.front ≤ k → k < s.rear → get_elem? s.buf ((k + 1) % s.n) ≡ some (s.put_log k)
  pub fifo : (k : ℕ) → k < s.front → s.got_log k ≡ s.put_log k

-- What a thread loaded for an increment is what the memory holds.
abbrev pub Current : Sbuf → Pc → Type 0
Current s (put_read item r) = r ≡ s.rear
Current s (get_read r) = r ≡ s.front
Current s _ = Unit

-- Two indices less than `n` apart do not fall on one entry.
mod_apart : (n i d : ℕ) → 0 < n → 0 < d → d < n → (i + d) % n ≢ i % n
mod_apart n i d pos lo hi e =
    let h = i % n in
    let low : h < n = omega arith in
    let same : (h + d) % n ≡ h = rw (mod-add-mod) e in
    elim (dec_lt (h + d) n) [
      | yes p ↦ omega (arith, mod-eq_of_lt p)
      | no p ↦ omega (
        arith,
        mod-eq-sub-mod {n = h + d} {m = n} (omega arith),
        mod-eq_of_lt {n = h + d - n} {m = n} (omega arith),
      )
    ]

-- The three sums before and after thread `i` goes to `p`.
pub record Moved (threads : ℕ) (pc : ℕ → Pc) (i : ℕ) (from to : Pc) : Type 0 where
  lock_sum : load locked threads (put_at i to pc) + locked from ≡ load locked threads pc + locked to
  slot_sum :
      load slot_due threads (put_at i to pc) + slot_due from
      ≡ load slot_due threads pc + slot_due to
  item_sum :
      load item_due threads (put_at i to pc) + item_due from
      ≡ load item_due threads pc + item_due to

pub moved :
    (threads : ℕ) (pc : ℕ → Pc) (i : ℕ) (to : Pc) → i < threads → Moved threads pc i (pc i) to
moved threads pc i to h = record {
  lock_sum = load-put_at locked threads i to pc h;
  slot_sum = load-put_at slot_due threads i to pc h;
  item_sum = load-put_at item_due threads i to pc h;
}

-- A store finds room: its entry holds no item, and the others stay.
store-held :
    (s : Sbuf) (item : ℕ)
    → length s.buf ≡ s.n
    → s.rear < s.n + s.front
    → s.front ≤ s.rear
    → ((k : ℕ) → s.front ≤ k → k < s.rear → get_elem? s.buf ((k + 1) % s.n) ≡ some (s.put_log k))
    → (k : ℕ) → s.front ≤ k
    → k < s.rear + 1
    → get_elem? (store s item s.rear).buf ((k + 1) % s.n) ≡ some ((store s item s.rear).put_log k)
store-held s item size free order held k lo hi = elim (ℕ_discrete k s.rear) [
  | yes last ↦
      rw last (get_elem?-set_self s.buf ((s.rear + 1) % s.n) item (omega arith) ∙ ground arith)
  | no before ↦
      let apart : (k + 1 + (s.rear - k)) % s.n ≢ (k + 1) % s.n =
        mod_apart s.n (k + 1) (s.rear - k) (omega arith) (omega arith) (omega arith) in
      let end : k + 1 + (s.rear - k) ≡ s.rear + 1 = omega arith in
      get_elem?-set_ne s.buf ((s.rear + 1) % s.n) ((k + 1) % s.n) item (rw end at apart)
      ∙ held k lo (omega arith)
      ∙ ground arith
]

module _ {threads : ℕ} {s : Sbuf} {pc : ℕ → Pc} (v : Inv threads s pc) (i : ℕ) where
  -- A move that changes the semaphores alone keeps the invariant if it keeps the three sums.
  semaphores-Inv :
      (mutex slots items : ℕ) (to : Pc)
      → mutex + load locked threads (put_at i to pc) ≡ s.mutex + load locked threads pc
      → items + load item_due threads (put_at i to pc) ≡ s.items + load item_due threads pc
      → slots + load slot_due threads (put_at i to pc) ≡ s.slots + load slot_due threads pc
      → Inv threads (record s { mutex = mutex; slots = slots; items = items }) (put_at i to pc)
  semaphores-Inv mutex slots items to l f r = record {
    size = v.size;
    lock = l ∙ v.lock;
    filled = omega (arith, v.filled);
    room = omega (arith, v.room);
    held = v.held;
    fifo = v.fifo;
  }

  -- The two accesses, with what they loaded up to date.
  stored :
      (item : ℕ) {r : ℕ}
      → Moved threads pc i (put_read item r) put_stored
      → Inv threads (store s item s.rear) (put_at i put_stored pc)
  stored item m = record {
    size = length-set s.buf ((s.rear + 1) % s.n) item ∙ v.size;
    lock = omega (arith, v.lock, m.lock_sum);
    filled = omega (arith, v.filled, m.item_sum);
    room = omega (arith, v.room, m.slot_sum);
    held =
        store-held s item v.size (omega (arith, v.room, m.slot_sum)) (omega (arith, v.filled))
          v.held;
    fifo = λ k h. ground (arith, v.fifo k h, v.filled);
  }

  loaded :
      (item : ℕ) {r : ℕ}
      → Moved threads pc i (get_read r) (get_loaded item)
      → get_elem? s.buf ((s.front + 1) % s.n) ≡ some item
      → Inv threads (load_front s item s.front) (put_at i (get_loaded item) pc)
  loaded item m e = record {
    size = v.size;
    lock = omega (arith, v.lock, m.lock_sum);
    filled = omega (arith, v.filled, m.item_sum);
    room = omega (arith, v.room, m.slot_sum);
    held = λ k lo hi. v.held k (omega arith) hi;
    fifo = λ k h. ground (arith, v.fifo k, e, v.held k, v.filled, m.item_sum);
  }

  pub Move-Inv :
      {from to : Pc} {s' : Sbuf}
      → Move crossed s from s' to
      → Moved threads pc i from to
      → Current s from
      → Inv threads s' (put_at i to pc)
  Move-Inv (do_store {item} {r} below) m c =
      subst (λ (x : ℕ). Inv threads (store s item x) (put_at i put_stored pc)) (sym c)
        (stored item m)
  Move-Inv (do_load {r} item below e) m c =
      subst (λ (x : ℕ). Inv threads (load_front s item x) (put_at i (get_loaded item) pc)) (sym c)
        (loaded item m (subst (λ (x : ℕ). get_elem? s.buf ((x + 1) % s.n) ≡ some item) c e))
  Move-Inv (wait_slots item h) m c =
      semaphores-Inv s.mutex (s.slots - 1) s.items (put_slot item) (omega (arith, m.lock_sum))
        (omega (arith, m.item_sum)) (omega (arith, m.slot_sum))
  Move-Inv (lock_put {item} h) m c =
      semaphores-Inv (s.mutex - 1) s.slots s.items (put_locked item) (omega (arith, m.lock_sum))
        (omega (arith, m.item_sum)) (omega (arith, m.slot_sum))
  Move-Inv (read_rear {item}) m c =
      semaphores-Inv s.mutex s.slots s.items (put_read item s.rear) (omega (arith, m.lock_sum))
        (omega (arith, m.item_sum)) (omega (arith, m.slot_sum))
  Move-Inv read_front m c =
      semaphores-Inv s.mutex s.slots s.items (get_read s.front) (omega (arith, m.lock_sum))
        (omega (arith, m.item_sum)) (omega (arith, m.slot_sum))
  Move-Inv unlock_put m c =
      semaphores-Inv (s.mutex + 1) s.slots s.items put_unlocked (omega (arith, m.lock_sum))
        (omega (arith, m.item_sum)) (omega (arith, m.slot_sum))
  Move-Inv end_put m c =
      semaphores-Inv s.mutex s.slots (s.items + 1) outside (omega (arith, m.lock_sum))
        (omega (arith, m.item_sum)) (omega (arith, m.slot_sum))
  Move-Inv (wait_items h) m c =
      semaphores-Inv s.mutex s.slots (s.items - 1) get_item (omega (arith, m.lock_sum))
        (omega (arith, m.item_sum)) (omega (arith, m.slot_sum))
  Move-Inv (lock_get h) m c =
      semaphores-Inv (s.mutex - 1) s.slots s.items get_locked (omega (arith, m.lock_sum))
        (omega (arith, m.item_sum)) (omega (arith, m.slot_sum))
  Move-Inv (unlock_get {item}) m c =
      semaphores-Inv (s.mutex + 1) s.slots s.items (get_unlocked item) (omega (arith, m.lock_sum))
        (omega (arith, m.item_sum)) (omega (arith, m.slot_sum))
  Move-Inv (end_get {item}) m c =
      semaphores-Inv s.mutex (s.slots + 1) s.items outside (omega (arith, m.lock_sum))
        (omega (arith, m.item_sum)) (omega (arith, m.slot_sum))

pub start-Inv : (threads n : ℕ) → Inv threads (start_of n).sbuf (start_of n).pc
start-Inv threads n = record {
  size = length-replicate n 0;
  lock = omega (arith, load_const locked threads outside refl);
  filled = omega (arith, load_const item_due threads outside refl);
  room = omega (arith, load_const slot_due threads outside refl);
  held = λ k lo hi. absurd (omega arith);
  fifo = λ k h. absurd (omega arith);
}
