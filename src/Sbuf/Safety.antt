-- ===== src/Sbuf/Safety.antt =====
-- What thread/echoserver_pre.c's buffer promises in every reachable state.
use mathlib.Core.Path.{subst}
use csapp_code.Prelude.{
  sym, ◌∙◌, ap, ℕ, ◌+◌, ◌%◌, ◌^◌, ◌≤◌, ◌<◌, ◌≡◌, ◌≢◌, refl, arith, some, get_elem?,
}
use native.Mathlib.Decide.{ℕ_discrete, dec_lt}
use csapp_code.Threads.{weight-le-load, load, two-le-load, load_pos}
use csapp_code.Sbuf.{
  put_read, get_read, read_rear, read_front, Sbuf, Pc, outside, put_slot, put_locked, put_stored,
  put_unlocked, get_item, get_locked, get_loaded, get_unlocked, crossed, straight, Posts, Move,
  wait_slots, lock_put, do_store, unlock_put, end_put, wait_items, lock_get, do_load, unlock_get,
  end_get, System, Step, pick, Reach, start, later,
}
use csapp_code.Sbuf.Inv.{locked, slot_due, item_due, Current}
use csapp_code.Sbuf.Current.{Reach-Inv, Reach-Current}

-- Two threads are never between `P(&sp->mutex)` and `V(&sp->mutex)` together.
pub mutual_exclusion :
    {threads n : ℕ} {y : System} (i j : ℕ)
    → Reach crossed threads n y
    → i < threads
    → j < threads
    → locked (y.pc i) ≡ 1
    → locked (y.pc j) ≡ 1
    → i ≡ j
mutual_exclusion {threads} {y = y} i j r hi hj li lj = elim (ℕ_discrete i j) [
  | yes same ↦ same
  | no apart ↦
      absurd (omega (arith, (Reach-Inv r).lock, two-le-load locked threads i j y.pc hi hj apart))
]

Move-n : {v : Posts} {s s' : Sbuf} {p p' : Pc} → Move v s p s' p' → s'.n ≡ s.n
Move-n (wait_slots item h) = refl
Move-n {v = crossed} end_put = refl
Move-n {v = straight} end_put = refl
Move-n {v = crossed} end_get = refl
Move-n {v = straight} end_get = refl
Move-n mv = refl

pub Reach-n : {v : Posts} {threads n : ℕ} {y : System} → Reach v threads n y → y.sbuf.n ≡ n
Reach-n start = refl
Reach-n (later r (pick i h mv)) = Move-n mv ∙ Reach-n r

-- Items come out in the order in which they went in: the k-th read took what the k-th write put,
-- there are no more reads than writes, and at most `n` writes are ahead of the reads, so that no
-- item is overwritten before it is read.
pub fifo_bounded :
    {threads n : ℕ} {y : System}
    → Reach crossed threads n y
    → ((k : ℕ) → k < y.sbuf.front → y.sbuf.got_log k ≡ y.sbuf.put_log k)
      × (y.sbuf.front ≤ y.sbuf.rear)
      × (y.sbuf.rear ≤ y.sbuf.front + n)
fifo_bounded r =
    let v = Reach-Inv r in (v.fifo, omega (arith, v.filled), omega (arith, v.room, Reach-n r))

-- A remove that holds the mutex finds the oldest item that no remove has read.
remove_ready :
    {threads n : ℕ} {y : System} (i : ℕ)
    → Reach crossed threads n y
    → i < threads
    → 0 < item_due (y.pc i)
    → get_elem? y.sbuf.buf ((y.sbuf.front + 1) % y.sbuf.n) ≡ some (y.sbuf.put_log y.sbuf.front)
remove_ready {threads} {y = y} i r h e =
    let v = Reach-Inv r in
    let due : 1 ≤ load item_due threads y.pc =
      omega (arith, weight-le-load item_due threads i y.pc h, e) in
    v.held y.sbuf.front (omega arith) (omega (arith, v.filled))

-- That some thread can take a step.
abbrev pub CanStep : ℕ → System → Type 0
CanStep threads y = (z : System) × Step crossed threads y z

module _ {threads n : ℕ} {y : System} (r : Reach crossed threads n y) where
  -- A thread that moves once its place is known.
  step_from :
      (i : ℕ) (p : Pc) {s : Sbuf} {p' : Pc}
      → i < threads
      → y.pc i ≡ p
      → Move crossed y.sbuf p s p'
      → CanStep threads y
  step_from i p {s} {p'} h e mv = (_, pick i h (subst (λ q. Move crossed y.sbuf q s p') (sym e) mv))

  module _ (room : y.sbuf.rear + 1 < 2 ^ 31) where
    locked_steps : (i : ℕ) (p : Pc) → i < threads → y.pc i ≡ p → 0 < locked p → CanStep threads y
    locked_steps i (put_locked item) h e l = step_from i _ h e read_rear
    locked_steps i (put_read item q) h e l =
        let c = subst (Current y.sbuf) e (Reach-Current i r h) in
        step_from i _ h e (do_store (omega (arith, room, c)))
    locked_steps i put_stored h e l = step_from i _ h e unlock_put
    locked_steps i get_locked h e l = step_from i _ h e read_front
    locked_steps i (get_read q) h e l =
        let c = subst (Current y.sbuf) e (Reach-Current i r h) in
        let due : 0 < item_due (y.pc i) = omega (arith, ap item_due e) in
        let (taken, order, bound) = fifo_bounded r in
        step_from i _ h e (
          do_load _ (omega (arith, room, c, order)) (
            subst
              (λ (x : ℕ).
                get_elem? y.sbuf.buf ((x + 1) % y.sbuf.n) ≡ some (y.sbuf.put_log y.sbuf.front))
              (sym c) (remove_ready i r h due)))
    locked_steps i (get_loaded item) h e l = step_from i _ h e unlock_get
    locked_steps i outside h e l = absurd (omega arith)
    locked_steps i (put_slot item) h e l = absurd (omega arith)
    locked_steps i put_unlocked h e l = absurd (omega arith)
    locked_steps i get_item h e l = absurd (omega arith)
    locked_steps i (get_unlocked item) h e l = absurd (omega arith)

    holder_steps : ¬ (0 < y.sbuf.mutex) → CanStep threads y
    holder_steps h =
        let (i, below, heavy) = load_pos locked threads y.pc (omega (arith, (Reach-Inv r).lock)) in
        locked_steps i (y.pc i) below refl heavy

    inside_steps : (i : ℕ) (p : Pc) → i < threads → y.pc i ≡ p → p ≢ outside → CanStep threads y
    inside_steps i outside h e out = absurd (out refl)
    inside_steps i (put_slot item) h e out = elim (dec_lt 0 y.sbuf.mutex) [
      | yes open_lock ↦ step_from i _ h e (lock_put open_lock)
      | no held ↦ holder_steps held
    ]
    inside_steps i get_item h e out = elim (dec_lt 0 y.sbuf.mutex) [
      | yes open_lock ↦ step_from i _ h e (lock_get open_lock)
      | no held ↦ holder_steps held
    ]
    inside_steps i put_unlocked h e out = step_from i _ h e end_put
    inside_steps i (get_unlocked item) h e out = step_from i _ h e end_get
    inside_steps i (put_locked item) h e out = locked_steps i _ h e (omega arith)
    inside_steps i (put_read item q) h e out = locked_steps i _ h e (omega arith)
    inside_steps i (get_read q) h e out = locked_steps i _ h e (omega arith)
    inside_steps i put_stored h e out = locked_steps i _ h e (omega arith)
    inside_steps i get_locked h e out = locked_steps i _ h e (omega arith)
    inside_steps i (get_loaded item) h e out = locked_steps i _ h e (omega arith)

    due_steps : (w : Pc → ℕ) → w outside ≡ 0 → 0 < load w threads y.pc → CanStep threads y
    due_steps w none_out h =
        let (i, below, heavy) = load_pos w threads y.pc h in
        inside_steps i (y.pc i) below refl (λ e. absurd (omega (arith, heavy, ap w e)))

    outside_steps : (i : ℕ) → 0 < n → i < threads → y.pc i ≡ outside → CanStep threads y
    outside_steps i pos h e = elim (dec_lt 0 y.sbuf.slots) [
      | yes slot ↦ step_from i _ h e (wait_slots 0 slot)
      | no full ↦ elim (dec_lt 0 y.sbuf.items) [
        | yes item ↦ step_from i _ h e (wait_items item)
        | no empty ↦ elim (dec_lt 0 (load slot_due threads y.pc)) [
          | yes due ↦ due_steps slot_due refl due
          | no idle ↦
              due_steps item_due refl
                (omega (arith, (Reach-Inv r).filled, (Reach-Inv r).room, Reach-n r))
        ]
      ]
    ]

-- No deadlock, and no lost wakeup: with a thread and a buffer of at least one slot, and with room for
-- one more increment of `rear`, some thread can always take a step. `items` counts what was inserted
-- and not removed, but for the threads that have stored and not posted or have waited and not read;
-- and `slots` the room that is left, but for the threads that have waited and not stored or have
-- read and not posted.
pub no_deadlock :
    {threads n : ℕ} {y : System}
    → 0 < threads
    → 0 < n
    → y.sbuf.rear + 1 < 2 ^ 31
    → Reach crossed threads n y
    → CanStep threads y
      × (y.sbuf.rear ≡ y.sbuf.front + y.sbuf.items + load item_due threads y.pc)
      × (y.sbuf.slots + load slot_due threads y.pc + y.sbuf.rear ≡ n + y.sbuf.front)
no_deadlock {threads} {y = y} some_thread pos room r =
    let v = Reach-Inv r in (from (y.pc 0) refl, v.filled, omega (arith, v.room, Reach-n r))
  where
    from : (p : Pc) → y.pc 0 ≡ p → CanStep threads y
    from outside e = outside_steps r room 0 pos some_thread e
    from p e = inside_steps r room 0 p some_thread e (λ out. cc)
